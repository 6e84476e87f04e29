-- ===== src/Xfer/Missing/First.antt =====
-- With the random redirection off, the byte asked for is the first that is missing.
use lbard.Prelude.{
  ℕ, zero, suc, ◌-◌, ◌%◌, ◌<◌, ◌≤◌, List, [], ◌∷◌, ◌++◌, map, ◌≡◌, refl, ap, ◌∙◌, inl, inr, Bool,
  true, false, ◌==◌, if◌then◌else◌, take, length, get_or, arith, ==_iff, lt→ltb,
}
use native.Mathlib.Nat.{mod-lt}
use lbard.Xfer.Segments.{Segment, end_offset}
use lbard.Xfer.Segments.Invariant.{IsSeparated}
use lbard.Xfer.Segments.Coverage.{Holds}
use lbard.Xfer.Missing.{add_zero, candidates, partial_find_missing_byte}

-- `m` is the first byte that is missing.
abbrev pub IsFirstMissing : ℕ → List Segment → Type 0
IsFirstMissing m l = ((i : ℕ) → i < m → Holds i l) × ¬ Holds m l

last_candidate : List Segment → ℕ
last_candidate [] = 0
last_candidate (s ∷ []) = if s.start_offset == 0 then end_offset s else 0
last_candidate (s ∷ t ∷ rest) = last_candidate (t ∷ rest)

take-all {ℓ} : {A : Type ℓ} (n : ℕ) (xs : List A) → length xs ≤ n → take n xs ≡ xs
take-all zero [] h = refl
take-all zero (x ∷ xs) h = elim h [ ]
take-all (suc n) [] h = refl
take-all (suc n) (x ∷ xs) h = ap (λ ys. x ∷ ys) (take-all n xs (omega arith))

length-map : (l : List Segment) → length (map end_offset l) ≡ length l
length-map [] = refl
length-map (x ∷ l) = ap suc (length-map l)

-- Separated segments: only the last can start at 0.
add_zero_lem :
    (s t : Segment) (rest : List Segment)
    → IsSeparated (s ∷ t ∷ rest)
    → add_zero (s ∷ t ∷ rest) ≡ add_zero (t ∷ rest)
unfolding add_zero
add_zero_lem s t rest h = ground arith

last_or : List ℕ → ℕ → ℕ
last_or [] d = d
last_or (x ∷ []) d = x
last_or (x ∷ y ∷ xs) d = last_or (y ∷ xs) d

get_or-last : (xs : List ℕ) (d : ℕ) → get_or xs (length xs - 1) d ≡ last_or xs d
unfolding last_or
get_or-last [] d = refl
get_or-last (x ∷ []) d = refl
get_or-last (x ∷ y ∷ xs) d = ap (λ k. get_or (x ∷ y ∷ xs) k d) e ∙ get_or-last (y ∷ xs) d
  where
    e : length (x ∷ y ∷ xs) - 1 ≡ suc (length (y ∷ xs) - 1)
    e = omega arith

abbrev with_zero : Bool → List ℕ → List ℕ
with_zero b xs = if b then xs ++ (0 ∷ []) else xs

candidates_lem :
    (l : List Segment) → length l < 16 → candidates l ≡ with_zero (add_zero l) (map end_offset l)
unfolding candidates
candidates_lem l k =
    rw (take-all 16 (map end_offset l) (omega (arith, length-map l)), length-map l, lt→ltb _ _ k)

last_or-with_zero :
    (b : Bool) (x y : ℕ) (xs : List ℕ)
    → last_or (with_zero b (x ∷ y ∷ xs)) 0 ≡ last_or (with_zero b (y ∷ xs)) 0
unfolding last_or
last_or-with_zero true x y xs = refl
last_or-with_zero false x y xs = refl

last_or-candidates :
    (l : List Segment)
    → IsSeparated l
    → last_or (with_zero (add_zero l) (map end_offset l)) 0 ≡ last_candidate l
unfolding last_candidate
last_or-candidates [] h = unfold add_zero last_or in refl
last_or-candidates (s ∷ []) h = unfold add_zero last_or in ground arith
last_or-candidates (s ∷ t ∷ rest) h = rw (add_zero_lem s t rest h) (
    last_or-with_zero (add_zero (t ∷ rest)) (end_offset s) (end_offset t) (map end_offset rest)
    ∙ last_or-candidates (t ∷ rest) h.1)

last_candidate-le :
    (t : Segment) (rest : List Segment)
    → IsSeparated (t ∷ rest)
    → last_candidate (t ∷ rest) ≤ end_offset t
unfolding last_candidate
last_candidate-le t [] h = ground arith
last_candidate-le t (u ∷ rest) h = omega (arith, last_candidate-le u rest h.1)

last_candidate-IsFirstMissing :
    (l : List Segment) → IsSeparated l → IsFirstMissing (last_candidate l) l
unfolding last_candidate
last_candidate-IsFirstMissing [] h = (λ i p. absurd (omega arith), λ m. m)
last_candidate-IsFirstMissing (s ∷ []) h = (λ i p. ground arith, λ m. ground arith)
last_candidate-IsFirstMissing (s ∷ t ∷ rest) h =
    let (below, missing) = last_candidate-IsFirstMissing (t ∷ rest) h.1 in
    let e = last_candidate-le t rest h.1 in
    (λ i p. inr (below i p), λ m. elim m [ inl a ↦ omega arith | inr b ↦ missing b ])

-- With the random redirection switched off, and fewer than 16 segments, the sender is asked for
-- the block of the first byte that is missing, and the flag says that it is the first.
pub partial_find_missing_byte_first :
    (random : ℕ) (l : List Segment)
    → IsSeparated l
    → length l < 16
    → (m : ℕ) × IsFirstMissing m l × (partial_find_missing_byte true random l ≡ (m - m % 64, true))
unfolding partial_find_missing_byte
partial_find_missing_byte_first random l h k = (
  last_candidate l,
  last_candidate-IsFirstMissing l h,
  rw (chosen_lem, (==_iff (length (candidates l) - 1) (length (candidates l) - 1)).1 refl),
)
  where
    chosen_lem : get_or (candidates l) (length (candidates l) - 1) 0 ≡ last_candidate l
    chosen_lem =
        get_or-last (candidates l) 0
        ∙ ap (λ xs. last_or xs 0) (candidates_lem l k)
        ∙ last_or-candidates l h

-- With the redirection on, and more than one candidate, the flag never says that the byte asked for
-- is the first that is missing: the random choice leaves out the last candidate, which is that byte.
pub partial_find_missing_byte_random :
    (random : ℕ) (l : List Segment)
    → 1 < length (candidates l)
    → (partial_find_missing_byte false random l).1 ≡ false
unfolding partial_find_missing_byte
partial_find_missing_byte_random random l h = rw (lt→ltb _ _ h) (
    let r : random % (length (candidates l) - 1) < length (candidates l) - 1 =
      mod-lt _ (omega arith) in
    ground arith)
