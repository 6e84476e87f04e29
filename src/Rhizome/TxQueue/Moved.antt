-- ===== src/Rhizome/TxQueue/Moved.antt =====
-- `sync_dequeue_bundle`: what the two copies that delete an entry move.
use lbard.Prelude.{
  ℕ, suc, ◌+◌, ◌*◌, ◌/◌, ◌%◌, ◌≤◌, ◌<◌, List, ◌≡◌, refl, ◌∙◌, get_or, length, arith, ℕ_discrete,
}
use lbard.Rhizome.TxQueue.{bcopy, delete_entry}
use lbard.Rhizome.TxQueue.Memory.{
  length-bcopy, get_or-bcopy_in, get_or-bcopy_before, get_or-bcopy_after, get_or-bcopy_above,
}

module _ (words : List ℕ) (size : length words ≡ 32) (i n : ℕ) (low : i < 10) (short : n ≤ 40) where
  first_copy : List ℕ
  first_copy = bcopy words (i + 1) i n

  length-first_copy : length first_copy ≡ 32
  unfolding first_copy
  length-first_copy = length-bcopy words (i + 1) i n (omega arith, omega arith) ∙ size

  delete_entry_lem : delete_entry i n words ≡ bcopy first_copy (10 + (i + 1)) (10 + i) n
  unfolding delete_entry first_copy
  delete_entry_lem = refl

  -- Whole words that the first copy moves, and the second does not touch.
  pub moved_first :
      (k j : ℕ)
      → i ≤ k
      → k < i + n / 4
      → j ≡ suc k
      → k < 10 + i
      → get_or (delete_entry i n words) k 0 ≡ get_or words j 0
  moved_first k j a b e c =
      let l = length-first_copy in
      rw delete_entry_lem (
        get_or-bcopy_before first_copy (10 + (i + 1)) (10 + i) n k (omega arith, omega arith) c
        ∙ unfold first_copy in
          get_or-bcopy_in words (i + 1) i n k j (omega arith, omega arith) a b (omega arith))

  -- Whole words that the second copy moves, and the first did not reach.
  pub moved_second :
      (k j : ℕ)
      → 10 + i ≤ k
      → k < 10 + i + n / 4
      → j ≡ suc k
      → i + n / 4 + 1 ≤ j
      → get_or (delete_entry i n words) k 0 ≡ get_or words j 0
  moved_second k j a b e c =
      let l = length-first_copy in
      rw delete_entry_lem (
        get_or-bcopy_in first_copy (10 + (i + 1)) (10 + i) n k j (omega arith, omega arith) a b
          (omega arith)
        ∙ unfold first_copy in get_or-bcopy_after words (i + 1) i n j (omega arith, omega arith) c)

  pub kept_low : (k : ℕ) → k < i → get_or (delete_entry i n words) k 0 ≡ get_or words k 0
  kept_low k a =
      let l = length-first_copy in
      rw delete_entry_lem (
        get_or-bcopy_before first_copy (10 + (i + 1)) (10 + i) n k (omega arith, omega arith)
          (omega arith)
        ∙ unfold first_copy in get_or-bcopy_before words (i + 1) i n k (omega arith, omega arith) a)

  kept_between :
      (k : ℕ)
      → i + n / 4 + 1 ≤ k
      → k < 10 + i
      → get_or (delete_entry i n words) k 0 ≡ get_or words k 0
  kept_between k a b =
      let l = length-first_copy in
      rw delete_entry_lem (
        get_or-bcopy_before first_copy (10 + (i + 1)) (10 + i) n k (omega arith, omega arith) b
        ∙ unfold first_copy in get_or-bcopy_after words (i + 1) i n k (omega arith, omega arith) a)

  kept_between_whole :
      (k : ℕ)
      → n % 4 ≡ 0
      → i + n / 4 ≤ k
      → k < 10 + i
      → get_or (delete_entry i n words) k 0 ≡ get_or words k 0
  kept_between_whole k z a b =
      let l = length-first_copy in
      rw delete_entry_lem (
        get_or-bcopy_before first_copy (10 + (i + 1)) (10 + i) n k (omega arith, omega arith) b
        ∙ unfold first_copy in
          get_or-bcopy_above words (i + 1) i n k (omega arith, omega arith) z a)

  -- Words of the second array, where the first copy ends within the first.
  pub kept_priority :
      (k : ℕ)
      → 4 * i + n ≤ 40
      → k < i
      → get_or (delete_entry i n words) (10 + k) 0 ≡ get_or words (10 + k) 0
  kept_priority k h a = elim (ℕ_discrete (n % 4) 0) [
    | yes z ↦ kept_between_whole (10 + k) z (omega arith) (omega arith)
    | no z ↦ kept_between (10 + k) (omega arith) (omega arith)
  ]
