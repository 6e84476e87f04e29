-- ===== src/Rhizome/TxQueue/Place.antt =====
-- `peer_queue_bundle_tx`: the point of insertion, and what `shift_down` moves.
use lbard.Prelude.{
  ℕ, zero, suc, ◌+◌, ◌-◌, ◌*◌, ◌≤◌, ◌<◌, List, [], ◌∷◌, ◌≡◌, refl, ◌∙◌, get_or, length, arith,
  dec_lt, lt→ltb, le→ltb,
}
use lbard.Rhizome.TxQueue.{Peer, bcopy, shift_down, insertion_point, max_txqueue_len, priorities_at}
use lbard.Rhizome.TxQueue.Memory.{
  length-bcopy, get_or-bcopy_in, get_or-bcopy_before, get_or-bcopy_after, get_or-bcopy_above,
}

abbrev pub bundle_at : Peer → ℕ → ℕ
bundle_at p k = get_or p.words k 0

abbrev pub priority_at : Peer → ℕ → ℕ
priority_at p k = get_or p.words (priorities_at + k) 0

-- The memory has its 32 words, and the queue its room.
pub record IsQueue (p : Peer) : Type 0 where
  pub size : length p.words ≡ 32
  pub room : p.tx_queue_len ≤ max_txqueue_len

-- The priorities do not rise.
abbrev pub IsOrdered : Peer → Type 0
IsOrdered p = (k : ℕ) → suc k < p.tx_queue_len → priority_at p (suc k) ≤ priority_at p k

pub insertion_point-le : (x : ℕ) (l : List ℕ) → insertion_point x l ≤ length l
unfolding insertion_point
insertion_point-le x [] = omega arith
insertion_point-le x (y ∷ l) = ground (arith, insertion_point-le x l)

-- Before the point of insertion no priority is lower, and at it one is.
pub before_insertion_point :
    (x : ℕ) (l : List ℕ) (k : ℕ) → k < insertion_point x l → x ≤ get_or l k 0
unfolding insertion_point
before_insertion_point x [] k h = absurd (omega arith)
before_insertion_point x (y ∷ l) zero h = ground arith
before_insertion_point x (y ∷ l) (suc k) h = ground (arith, before_insertion_point x l k)

pub at_insertion_point :
    (x : ℕ) (l : List ℕ) → insertion_point x l < length l → get_or l (insertion_point x l) 0 < x
unfolding insertion_point
at_insertion_point x [] h = absurd (omega arith)
at_insertion_point x (y ∷ l) h = ground (arith, at_insertion_point x l)

module _ (words : List ℕ) (size : length words ≡ 32) (i len : ℕ) (room : len ≤ 10) where
  n : ℕ
  n = 4 * (len - i - 1)

  -- The memory after the first copy.
  upper : List ℕ
  unfolding n
  upper = bcopy words (10 + i) (10 + (i + 1)) n

  length-upper : i + 1 < len → length upper ≡ 32
  unfolding upper
  length-upper h = length-bcopy words (10 + i) (10 + (i + 1)) n (omega arith, omega arith) ∙ size

  shift_down_lem : i + 1 < len → shift_down i len words ≡ bcopy upper i (i + 1) n
  unfolding shift_down upper
  shift_down_lem h = rw (lt→ltb _ _ h)

  shift_down_none : len ≤ i + 1 → shift_down i len words ≡ words
  unfolding shift_down
  shift_down_none h = rw (le→ltb _ _ h)

  pub shifted_bundle :
      (k j : ℕ)
      → i + 1 < len
      → i < k
      → k < len
      → j + 1 ≡ k
      → get_or (shift_down i len words) k 0 ≡ get_or words j 0
  unfolding n
  shifted_bundle k j h a b e =
      let l = length-upper h in
      rw (shift_down_lem h) (
        get_or-bcopy_in upper i (i + 1) n k j (omega arith, omega arith) (omega arith) (omega arith)
          (omega arith)
        ∙ unfold upper in
          get_or-bcopy_before words (10 + i) (10 + (i + 1)) n j (omega arith, omega arith)
            (omega arith))

  pub shifted_priority :
      (k j : ℕ)
      → i + 1 < len
      → i < k
      → k < len
      → j + 1 ≡ k
      → get_or (shift_down i len words) (10 + k) 0 ≡ get_or words (10 + j) 0
  unfolding n
  shifted_priority k j h a b e =
      let l = length-upper h in
      rw (shift_down_lem h) (
        get_or-bcopy_after upper i (i + 1) n (10 + k) (omega arith, omega arith) (omega arith)
        ∙ unfold upper in
          get_or-bcopy_in words (10 + i) (10 + (i + 1)) n (10 + k) (10 + j)
            (omega arith, omega arith) (omega arith) (omega arith) (omega arith))

  pub kept_bundle : (k : ℕ) → k ≤ i → get_or (shift_down i len words) k 0 ≡ get_or words k 0
  unfolding n
  kept_bundle k a = elim (dec_lt (i + 1) len) [
    | yes h ↦
        let l = length-upper h in
        rw (shift_down_lem h) (
          get_or-bcopy_before upper i (i + 1) n k (omega arith, omega arith) (omega arith)
          ∙ unfold upper in
            get_or-bcopy_before words (10 + i) (10 + (i + 1)) n k (omega arith, omega arith)
              (omega arith))
    | no h ↦ rw (shift_down_none (omega arith)) refl
  ]

  pub kept_priority :
      (k : ℕ) → k ≤ i → get_or (shift_down i len words) (10 + k) 0 ≡ get_or words (10 + k) 0
  unfolding n
  kept_priority k a = elim (dec_lt (i + 1) len) [
    | yes h ↦
        let l = length-upper h in
        rw (shift_down_lem h) (
          get_or-bcopy_above upper i (i + 1) n (10 + k) (omega arith, omega arith) (omega arith)
            (omega arith)
          ∙ unfold upper in
            get_or-bcopy_before words (10 + i) (10 + (i + 1)) n (10 + k) (omega arith, omega arith)
              (omega arith))
    | no h ↦ rw (shift_down_none (omega arith)) refl
  ]

  pub length-shift_down : length (shift_down i len words) ≡ 32
  unfolding n
  length-shift_down = elim (dec_lt (i + 1) len) [
    | yes h ↦
        let l = length-upper h in
        rw (shift_down_lem h) (length-bcopy upper i (i + 1) n (omega arith, omega arith) ∙ l)
    | no h ↦ rw (shift_down_none (omega arith)) size
  ]

module _ (words : List ℕ) (size : length words ≡ 32) (i len : ℕ) (room : len ≤ 10) where
  pub kept_overflow : get_or (shift_down i len words) 20 0 ≡ get_or words 20 0
  kept_overflow = elim (dec_lt (i + 1) len) [
    | yes h ↦
        let l = length-upper words size i len room h in
        rw (shift_down_lem words size i len room h) (
          unfold n in
          get_or-bcopy_above (upper words size i len room) i (i + 1) (n words size i len room) 20
            (omega arith, omega arith) (omega arith) (omega arith)
          ∙ unfold upper in
            get_or-bcopy_above words (10 + i) (10 + (i + 1)) (n words size i len room) 20
              (unfold n in (omega arith, omega arith)) (unfold n in omega arith)
              (unfold n in omega arith))
    | no h ↦ rw (shift_down_none words size i len room (omega arith)) refl
  ]
