-- ===== src/Rhizome/Rank/Choice.antt =====
-- `find_highest_priority_bundle`: which bundle is chosen.
use lbard.Prelude.{
  ℕ, zero, suc, ◌+◌, ◌≤◌, ◌<◌, List, [], ◌∷◌, ◌≡◌, refl, ap, sym, leb, ◌∙◌, Option, none, some,
  Bool, true, false, ltb, if◌then◌else◌, map, length, get_or, All, arith, dec_lt, lt→ltb, le→ltb,
  ◌⊎◌, inl, inr,
}
use lbard.Rhizome.Rank.{
  BundleRecord, intrinsic_priority, stored_priority, find_from, find_highest_priority_bundle,
}

-- The index of the first greatest number, where `k` with `p` leads and the list starts at `i`.
scan : ℕ → ℕ → ℕ → List ℕ → ℕ
scan i k p [] = k
scan i k p (x ∷ xs) = if ltb p x then scan (i + 1) i x xs else scan (i + 1) k p xs

-- A place in a list of numbers that holds a greatest one, and the first such.
pub record IsFirstGreatest (xs : List ℕ) (k : ℕ) : Type 0 where
  pub inside : k < length xs
  pub greatest : (j : ℕ) → j < length xs → get_or xs j 0 ≤ get_or xs k 0
  pub first : (j : ℕ) → j < k → get_or xs j 0 < get_or xs k 0

-- The leader stays, or is passed by a place in the list.
Scanned : ℕ → ℕ → ℕ → List ℕ → ℕ → Type 0
Scanned i k p xs r =
    ((r ≡ k) × ((j : ℕ) → j < length xs → get_or xs j 0 ≤ p))
    ⊎ ((m : ℕ) × (r ≡ i + m) × (p < get_or xs m 0) × IsFirstGreatest xs m)

cons-le :
    (x : ℕ) (xs : List ℕ) (b j : ℕ)
    → x ≤ b
    → ((j : ℕ) → j < length xs → get_or xs j 0 ≤ b)
    → j < suc (length xs)
    → get_or (x ∷ xs) j 0 ≤ b
cons-le x xs b zero h f a = h
cons-le x xs b (suc j) h f a = f j (omega arith)

cons-lt :
    (x : ℕ) (xs : List ℕ) (m j : ℕ)
    → x < get_or xs m 0
    → ((j : ℕ) → j < m → get_or xs j 0 < get_or xs m 0)
    → j < suc m
    → get_or (x ∷ xs) j 0 < get_or xs m 0
cons-lt x xs m zero h f a = h
cons-lt x xs m (suc j) h f a = f j (omega arith)

passed :
    (i k p x : ℕ) (xs : List ℕ) (r : ℕ)
    → p < x
    → Scanned (i + 1) i x xs r
    → Scanned i k p (x ∷ xs) r
unfolding Scanned
passed i k p x xs r h (inl (e, low)) = inr (
  0,
  omega (arith, e),
  h,
  record {
    inside = omega arith;
    greatest = λ j a. cons-le x xs x j (omega arith) low a;
    first = λ j a. absurd (omega arith);
  },
)
passed i k p x xs r h (inr (m, e, above, v)) = inr (
  suc m,
  omega (arith, e),
  omega (arith, above),
  record {
    inside = omega (arith, v.inside);
    greatest = λ j a. cons-le x xs (get_or xs m 0) j (omega (arith, above)) v.greatest a;
    first = λ j a. cons-lt x xs m j (omega (arith, above)) v.first a;
  },
)

kept :
    (i k p x : ℕ) (xs : List ℕ) (r : ℕ)
    → x ≤ p
    → Scanned (i + 1) k p xs r
    → Scanned i k p (x ∷ xs) r
unfolding Scanned
kept i k p x xs r h (inl (e, low)) = inl (e, λ j a. cons-le x xs p j h low a)
kept i k p x xs r h (inr (m, e, above, v)) = inr (
  suc m,
  omega (arith, e),
  above,
  record {
    inside = omega (arith, v.inside);
    greatest = λ j a. cons-le x xs (get_or xs m 0) j (omega (arith, above)) v.greatest a;
    first = λ j a. cons-lt x xs m j (omega (arith, above)) v.first a;
  },
)

scan_step :
    (i k p x : ℕ) (xs : List ℕ) (r s : ℕ)
    → Scanned (i + 1) i x xs r
    → Scanned (i + 1) k p xs s
    → Scanned i k p (x ∷ xs) (if ltb p x then r else s)
scan_step i k p x xs r s f g = elim (dec_lt p x) [
  | yes h ↦ rw (lt→ltb p x h) (passed i k p x xs r h f)
  | no h ↦ rw (le→ltb p x (omega arith)) (kept i k p x xs s (omega arith) g)
]

scan_lem : (i k p : ℕ) (xs : List ℕ) → Scanned i k p xs (scan i k p xs)
unfolding scan
scan_lem i k p [] = unfold Scanned in inl (refl, λ j h. absurd (omega arith))
scan_lem i k p (x ∷ xs) =
    scan_step i k p x xs (scan (i + 1) i x xs) (scan (i + 1) k p xs) (scan_lem (i + 1) i x xs)
      (scan_lem (i + 1) k p xs)

-- The intrinsic priority of a stored bundle.
pub priority_of : List (List ℕ) → BundleRecord → ℕ
priority_of peers b = intrinsic_priority false peers b.bundle_length b.service b.recipient 0

if_true {ℓ} : {A : Type ℓ} (c : Bool) (x y : A) → c ≡ true → (if c then x else y) ≡ x
if_true c x y h = ap (λ b. if b then x else y) h

if_false {ℓ} : {A : Type ℓ} (c : Bool) (x y : A) → c ≡ false → (if c then x else y) ≡ y
if_false c x y h = ap (λ b. if b then x else y) h

stored_priority_lem :
    (peers : List (List ℕ)) (b v : BundleRecord)
    → b.last_announced_time ≡ v.last_announced_time
    → (stored_priority false peers b (some v)).0 ≡ priority_of peers b + 0x400
unfolding stored_priority priority_of
stored_priority_lem peers b v e =
    if_true (leb b.last_announced_time v.last_announced_time) _ _ (ground arith)

stored_time :
    (peers : List (List ℕ)) (b : BundleRecord) (versus : Option BundleRecord)
    → (stored_priority false peers b versus).1.last_announced_time ≡ b.last_announced_time
unfolding stored_priority
stored_time peers b versus = refl

first_priority :
    (peers : List (List ℕ)) (b : BundleRecord)
    → (stored_priority false peers b none).0 ≡ priority_of peers b + 0x400
unfolding stored_priority priority_of
first_priority peers b = refl

-- All the bundles were last announced at the same time.
abbrev AnnouncedAt : ℕ → List BundleRecord → Type 0
AnnouncedAt t = All (λ b. b.last_announced_time ≡ t)

find_from_lem :
    (peers : List (List ℕ)) (t i k p : ℕ) (v : BundleRecord) (rest : List BundleRecord)
    → v.last_announced_time ≡ t
    → AnnouncedAt t rest
    → (find_from false peers i (some (k, p + 0x400, v)) rest).0
      ≡ some (scan i k p (map (priority_of peers) rest))
unfolding find_from scan
find_from_lem peers t i k p v [] e h = refl
find_from_lem peers t i k p v (b ∷ rest) e h = elim (dec_lt p (priority_of peers b)) [
  | yes a ↦
      ap (λ best. (find_from false peers (i + 1) best rest).0)
        (if_true (ltb (p + 0x400) (stored_priority false peers b (some v)).0) _ _
            (lt→ltb _ _ (omega (arith, stored_priority_lem peers b v (h.0 ∙ sym e))))
          ∙ ap (λ q. some (i, q, (stored_priority false peers b (some v)).1))
              (stored_priority_lem peers b v (h.0 ∙ sym e)))
      ∙ find_from_lem peers t (i + 1) i (priority_of peers b)
          (stored_priority false peers b (some v)).1 rest (stored_time peers b (some v) ∙ h.0) h.1
      ∙ ap some (sym (if_true (ltb p (priority_of peers b)) _ _ (lt→ltb _ _ a)))
  | no a ↦
      ap (λ best. (find_from false peers (i + 1) best rest).0)
        (if_false (ltb (p + 0x400) (stored_priority false peers b (some v)).0) _ _
          (le→ltb _ _ (omega (arith, stored_priority_lem peers b v (h.0 ∙ sym e)))))
      ∙ find_from_lem peers t (i + 1) k p v rest e h.1
      ∙ ap some (sym (if_false (ltb p (priority_of peers b)) _ _ (le→ltb _ _ (omega arith))))
]

one_more : (r m : ℕ) → r ≡ 1 + m → r ≡ suc m
one_more r m e = omega arith

first_of_all : (x : ℕ) (xs : List ℕ) (r : ℕ) → Scanned 1 0 x xs r → IsFirstGreatest (x ∷ xs) r
unfolding Scanned
first_of_all x xs r (inl (e, low)) = rw (e) (record {
  inside = omega arith;
  greatest = λ j a. cons-le x xs x j (omega arith) low a;
  first = λ j a. absurd (omega arith);
})
first_of_all x xs r (inr (m, e, above, v)) = rw (one_more r m e) (record {
  inside = omega (arith, v.inside);
  greatest = λ j a. cons-le x xs (get_or xs m 0) j (omega (arith, above)) v.greatest a;
  first = λ j a. cons-lt x xs m j (omega (arith, above)) v.first a;
})

-- Where all the bundles were last announced at the same time and there is one, the bundle that is
-- chosen is the first of those with the highest intrinsic priority.
pub find_highest_priority_bundle_lem :
    (peers : List (List ℕ)) (t : ℕ) (b : BundleRecord) (rest : List BundleRecord)
    → All (λ c. c.last_announced_time ≡ t) (b ∷ rest)
    → (k : ℕ) × ((find_highest_priority_bundle false peers (b ∷ rest)).0 ≡ some k)
      × IsFirstGreatest (map (priority_of peers) (b ∷ rest)) k
unfolding find_highest_priority_bundle find_from
find_highest_priority_bundle_lem peers t b rest h = (
  scan 1 0 (priority_of peers b) (map (priority_of peers) rest),
  ap (λ q. (find_from false peers 1 (some (0, q, (stored_priority false peers b none).1)) rest).0)
        (first_priority peers b)
      ∙ find_from_lem peers t 1 0 (priority_of peers b) (stored_priority false peers b none).1 rest
          (stored_time peers b none ∙ h.0) h.1,
  first_of_all (priority_of peers b) (map (priority_of peers) rest) _
      (scan_lem 1 0 (priority_of peers b) (map (priority_of peers) rest)),
)
