-- ===== src/Rhizome/TxQueue/Memory.antt =====
-- What the copies of `bcopy` leave in each word.
use lbard.Prelude.{
  ℕ, suc, ◌+◌, ◌-◌, ◌*◌, ◌/◌, ◌%◌, ◌≤◌, ◌<◌, List, ◌∷◌, ◌++◌, ◌≡◌, ap, ◌∙◌, inl, inr, ◌==◌,
  if◌then◌else◌, take, drop, get_or, length, length-append, length-take, length-drop,
  get_or-append_left, get_or-append_right, get_or-take, get_or-drop, arith, ℕ_discrete, Bool-cases,
  ==_iff,
}
use lbard.Rhizome.TxQueue.{bcopy, splice}

-- The copy stays within the memory.
abbrev pub IsWithin : List ℕ → ℕ → ℕ → ℕ → Type 0
IsWithin words src dst n = (4 * dst + n ≤ 4 * length words) × (4 * src + n ≤ 4 * length words)

abbrev tail_of : List ℕ → ℕ → ℕ → ℕ → List ℕ
tail_of words src dst n =
    (if n % 4 == 0
      then drop (dst + n / 4) words
      else splice (n % 4) (get_or words (dst + n / 4) 0) (get_or words (src + n / 4) 0)
        ∷ drop (dst + n / 4 + 1) words)

length-tail_of :
    (words : List ℕ) (src dst n : ℕ)
    → IsWithin words src dst n
    → length (tail_of words src dst n) ≡ length words - (dst + n / 4)
length-tail_of words src dst n w =
    ground (arith, length-drop (dst + n / 4) words, length-drop (dst + n / 4 + 1) words)

pub length-bcopy :
    (words : List ℕ) (src dst n : ℕ)
    → IsWithin words src dst n
    → length (bcopy words src dst n) ≡ length words
unfolding bcopy
length-bcopy words src dst n w =
    length-append (take dst words) (take (n / 4) (drop src words) ++ tail_of words src dst n)
    ∙ omega (
      arith,
      length-append (take (n / 4) (drop src words)) (tail_of words src dst n),
      length-tail_of words src dst n w,
      length-take dst words,
      length-take (n / 4) (drop src words),
      length-drop src words,
    )

-- A word that is copied to as a whole.
pub get_or-bcopy_in :
    (words : List ℕ) (src dst n k j : ℕ)
    → IsWithin words src dst n
    → dst ≤ k
    → k < dst + n / 4
    → j + dst ≡ src + k
    → get_or (bcopy words src dst n) k 0 ≡ get_or words j 0
unfolding bcopy
get_or-bcopy_in words src dst n k j w a b e =
    get_or-append_right (take dst words) _ k (k - dst) 0 (omega (arith, length-take dst words))
    ∙ get_or-append_left (take (n / 4) (drop src words)) (tail_of words src dst n) (k - dst) 0
        (omega (arith, length-take (n / 4) (drop src words), length-drop src words))
    ∙ get_or-take (n / 4) (drop src words) (k - dst) 0 (omega arith)
    ∙ get_or-drop src words (k - dst) j 0 (omega arith)

-- A word before the copy.
pub get_or-bcopy_before :
    (words : List ℕ) (src dst n k : ℕ)
    → IsWithin words src dst n
    → k < dst
    → get_or (bcopy words src dst n) k 0 ≡ get_or words k 0
unfolding bcopy
get_or-bcopy_before words src dst n k w a =
    get_or-append_left (take dst words) _ k 0 (omega (arith, length-take dst words))
    ∙ get_or-take dst words k 0 a

get_or-tail_of :
    (words : List ℕ) (src dst n k : ℕ)
    → dst + n / 4 + 1 ≤ k
    → get_or (tail_of words src dst n) (k - (dst + n / 4)) 0 ≡ get_or words k 0
get_or-tail_of words src dst n k a = elim (Bool-cases (n % 4 == 0)) [
  | inl whole ↦ rw whole (get_or-drop (dst + n / 4) words (k - (dst + n / 4)) k 0 (omega arith))
  | inr part ↦ rw part (
      ap
        (λ i.
          get_or
            (splice (n % 4) (get_or words (dst + n / 4) 0) (get_or words (src + n / 4) 0)
              ∷ drop (dst + n / 4 + 1) words)
            i 0)
        e
      ∙ get_or-drop (dst + n / 4 + 1) words (k - (dst + n / 4) - 1) k 0 (omega arith))
]
  where
    e : k - (dst + n / 4) ≡ suc (k - (dst + n / 4) - 1)
    e = omega arith

-- A word after the copy, with one word in between, which may be copied to in part.
pub get_or-bcopy_after :
    (words : List ℕ) (src dst n k : ℕ)
    → IsWithin words src dst n
    → dst + n / 4 + 1 ≤ k
    → get_or (bcopy words src dst n) k 0 ≡ get_or words k 0
unfolding bcopy
get_or-bcopy_after words src dst n k w a =
    get_or-append_right (take dst words) _ k (k - dst) 0 (omega (arith, length-take dst words))
    ∙ get_or-append_right (take (n / 4) (drop src words)) (tail_of words src dst n) (k - dst)
        (k - (dst + n / 4)) 0
        (omega (arith, length-take (n / 4) (drop src words), length-drop src words))
    ∙ get_or-tail_of words src dst n k a

-- The word just after a copy of whole words.
pub get_or-bcopy_end :
    (words : List ℕ) (src dst n k : ℕ)
    → IsWithin words src dst n
    → n % 4 ≡ 0
    → k ≡ dst + n / 4
    → get_or (bcopy words src dst n) k 0 ≡ get_or words k 0
unfolding bcopy
get_or-bcopy_end words src dst n k w z a =
    get_or-append_right (take dst words) _ k (k - dst) 0 (omega (arith, length-take dst words))
    ∙ get_or-append_right (take (n / 4) (drop src words)) (tail_of words src dst n) (k - dst) 0 0
        (omega (arith, length-take (n / 4) (drop src words), length-drop src words))
    ∙ rw ((==_iff (n % 4) 0).1 z) (get_or-drop (dst + n / 4) words 0 k 0 (omega arith))

-- The words behind a copy of whole words.
pub get_or-bcopy_above :
    (words : List ℕ) (src dst n k : ℕ)
    → IsWithin words src dst n
    → n % 4 ≡ 0
    → dst + n / 4 ≤ k
    → get_or (bcopy words src dst n) k 0 ≡ get_or words k 0
get_or-bcopy_above words src dst n k w z a = elim (ℕ_discrete k (dst + n / 4)) [
  | yes e ↦ get_or-bcopy_end words src dst n k w z e
  | no ne ↦ get_or-bcopy_after words src dst n k w (omega arith)
]
