-- ===== src/Prelude/Slice.antt =====
-- The bytes of a file (any function from offsets to bytes) between two offsets, as a list, and
-- how `take`, `drop` and `++` act on such slices.
use Prim.Native.Nat.{ℕ, zero, suc, ◌+◌, ◌-◌, ◌≤◌}
use mathlib.Core.Path.{◌≡◌, refl, sym, ap, ap₂, ◌∙◌}
use mathlib.Core.List.{List, [], ◌∷◌, ◌++◌}
use native.Mathlib.Omega.{arith}
use lbard.Prelude.Lists.{length, take, drop}

-- The `n` bytes of `f` from offset `a` on.
abbrev pub slice : (ℕ → ℕ) → ℕ → ℕ → List ℕ
slice f a zero = []
slice f a (suc n) = f a ∷ slice f (suc a) n

pub length-slice : (f : ℕ → ℕ) (a n : ℕ) → length (slice f a n) ≡ n
length-slice f a zero = refl
length-slice f a (suc n) = ap suc (length-slice f (suc a) n)

pub slice_cong : (f : ℕ → ℕ) (a b n m : ℕ) → a ≡ b → n ≡ m → slice f a n ≡ slice f b m
slice_cong f a b n m p q = ap₂ (slice f) p q

pub slice-append : (f : ℕ → ℕ) (a n m : ℕ) → slice f a n ++ slice f (a + n) m ≡ slice f a (n + m)
slice-append f a zero m = slice_cong f (a + 0) a m (0 + m) (omega arith) (omega arith)
slice-append f a (suc n) m =
    ap (λ xs. f a ∷ (slice f (suc a) n ++ xs))
      (slice_cong f (a + suc n) (suc a + n) m m (omega arith) refl)
    ∙ ap (λ xs. f a ∷ xs) (slice-append f (suc a) n m)
    ∙ slice_cong f a a (suc (n + m)) (suc n + m) refl (omega arith)

pub take-slice : (f : ℕ → ℕ) (k a n : ℕ) → k ≤ n → take k (slice f a n) ≡ slice f a k
take-slice f zero a n h = refl
take-slice f (suc k) a zero h = elim h [ ]
take-slice f (suc k) a (suc n) h = ap (λ xs. f a ∷ xs) (take-slice f k (suc a) n (omega arith))

pub drop-slice : (f : ℕ → ℕ) (k a n : ℕ) → k ≤ n → drop k (slice f a n) ≡ slice f (a + k) (n - k)
drop-slice f zero a n h = slice_cong f a (a + 0) n (n - 0) (omega arith) (omega arith)
drop-slice f (suc k) a zero h = elim h [ ]
drop-slice f (suc k) a (suc n) h =
    drop-slice f k (suc a) n (omega arith)
    ∙ slice_cong f (suc a + k) (a + suc k) (n - k) (suc n - suc k) (omega arith) (omega arith)

take-take : (l : List ℕ) (k n : ℕ) → k ≤ n → take k (take n l) ≡ take k l
take-take l zero n h = refl
take-take l (suc k) zero h = elim h [ ]
take-take [] (suc k) (suc n) h = refl
take-take (x ∷ l) (suc k) (suc n) h = ap (λ xs. x ∷ xs) (take-take l k n (omega arith))

drop-take : (l : List ℕ) (j k n : ℕ) → n ≡ j + k → drop j (take n l) ≡ take k (drop j l)
drop-take l zero k n e = ap (λ m. take m l) (omega arith)
drop-take [] (suc j) k zero e = absurd (omega arith)
drop-take [] (suc j) zero (suc n) e = refl
drop-take [] (suc j) (suc k) (suc n) e = refl
drop-take (x ∷ l) (suc j) k zero e = absurd (omega arith)
drop-take (x ∷ l) (suc j) k (suc n) e = drop-take l j k n (omega arith)

-- Memory that begins with a slice: its first bytes, its last bytes, and two of them joined.
module _ (f : ℕ → ℕ) where
  pub take_of_slice :
      (l : List ℕ) (a n k : ℕ) → take n l ≡ slice f a n → k ≤ n → take k l ≡ slice f a k
  take_of_slice l a n k e h = sym (take-take l k n h) ∙ ap (take k) e ∙ take-slice f k a n h

  pub take-drop_of_slice :
      (l : List ℕ) (a n k : ℕ)
      → take n l ≡ slice f a n
      → k ≤ n
      → take k (drop (n - k) l) ≡ slice f (a + (n - k)) k
  take-drop_of_slice l a n k e h =
      sym (drop-take l (n - k) k n (omega arith))
      ∙ ap (drop (n - k)) e
      ∙ drop-slice f (n - k) a n (omega arith)
      ∙ slice_cong f (a + (n - k)) (a + (n - k)) (n - (n - k)) k refl (omega arith)

  pub append_of_slices :
      (xs ys : List ℕ) (a n b m : ℕ)
      → xs ≡ slice f a n
      → ys ≡ slice f b m
      → b ≡ a + n
      → xs ++ ys ≡ slice f a (n + m)
  append_of_slices xs ys a n b m p q e =
      ap₂ ◌++◌ p (q ∙ slice_cong f b (a + n) m m e refl) ∙ slice-append f a n m

  pub take_self : (xs : List ℕ) (a n : ℕ) → xs ≡ slice f a n → take n xs ≡ slice f a n
  take_self xs a n e = ap (take n) e ∙ take-slice f n a n (omega arith)
