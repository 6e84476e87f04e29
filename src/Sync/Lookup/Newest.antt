-- ===== src/Sync/Lookup/Newest.antt =====
-- What the look-ups find.
use lbard.Prelude.{
  ℕ, zero, suc, ◌+◌, ◌≤◌, ◌<◌, List, [], ◌∷◌, ◌≡◌, refl, ap, ◌≢◌, leb, le→ltb, ◌∙◌, Option, none,
  some, Bool, true, false, ltb, ◌&&◌, if◌then◌else◌, get_elem?, All, arith, Bool-cases, ◌⊎◌, inl,
  inr,
}
use mathlib.Core.Path.{subst}
use mathlib.Core.Option
use lbard.Sync.Lookup.Prefix.{HasPrefix, has_prefix-HasPrefix, HasPrefix-has_prefix}
use lbard.Sync.Lookup.{Bundle, has_prefix, lookup_from, lookup_bundle_by_prefix, lookup_or_newer}

-- No bundle that passes the test is newer than the given version.
abbrev pub NoneNewer : (Bundle → Bool) → ℕ → List Bundle → Type 0
NoneNewer test v = All (λ c. test c ≡ true → c.version ≤ v)

-- Place `m` holds a newest one of the bundles that pass the test.
pub record IsNewest (test : Bundle → Bool) (bundles : List Bundle) (m : ℕ) : Type 0 where
  pub found : Bundle
  pub here : get_elem? bundles m ≡ some found
  pub passes : test found ≡ true
  pub newest : NoneNewer test found.version bundles

-- What the loop comes to where bundle `k` with version `v` leads.
LedBy : (Bundle → Bool) → ℕ → ℕ → ℕ → List Bundle → Option ℕ → Type 0
LedBy test i k v rest r =
    ((r ≡ some k) × NoneNewer test v rest)
    ⊎ ((m : ℕ) × (n : IsNewest test rest m) × (r ≡ some (i + m)) × (v < n.found.version))

true-false : (b : Bool) → b ≡ true → b ≢ false
true-false b h k = ground arith

behind :
    (test : Bundle → Bool) (b : Bundle) (rest : List Bundle) (m : ℕ) (n : IsNewest test rest m)
    → (test b ≡ true → b.version ≤ n.found.version)
    → IsNewest test (b ∷ rest) (suc m)
behind test b rest m n h = record {
  found = n.found;
  here = n.here;
  passes = n.passes;
  newest = (h, n.newest);
}

some-suc : (r : Option ℕ) (i m : ℕ) → r ≡ some (i + 1 + m) → r ≡ some (i + suc m)
some-suc r i m e = e ∙ ap some (omega arith)

some_here : (r : Option ℕ) (i : ℕ) → r ≡ some i → r ≡ some (i + 0)
some_here r i e = e ∙ ap some (omega arith)

taken :
    (test : Bundle → Bool) (i k v : ℕ) (b : Bundle) (rest : List Bundle) (r : Option ℕ)
    → test b ≡ true
    → v < b.version
    → LedBy test (i + 1) i b.version rest r
    → LedBy test i k v (b ∷ rest) r
unfolding LedBy behind
taken test i k v b rest r t h (inl (e, none_newer)) = inr (
  0,
  record { found = b; here = refl; passes = t; newest = ((λ p. omega arith), none_newer) },
  some_here r i e,
  h,
)
taken test i k v b rest r t h (inr (m, n, e, above)) = inr (
  suc m,
  behind test b rest m n (λ p. omega (arith, above)),
  some-suc r i m e,
  omega (arith, above),
)

left :
    (test : Bundle → Bool) (i k v : ℕ) (b : Bundle) (rest : List Bundle) (r : Option ℕ)
    → (test b ≡ true → b.version ≤ v)
    → LedBy test (i + 1) k v rest r
    → LedBy test i k v (b ∷ rest) r
unfolding LedBy behind
left test i k v b rest r h (inl (e, none_newer)) = inl (e, (h, none_newer))
left test i k v b rest r h (inr (m, n, e, above)) =
    inr (suc m, behind test b rest m n (λ p. omega (arith, above, h p)), some-suc r i m e, above)

led_step :
    (test : Bundle → Bool) (i k v : ℕ) (b : Bundle) (rest : List Bundle) (r s : Option ℕ)
    → LedBy test (i + 1) i b.version rest r
    → LedBy test (i + 1) k v rest s
    → LedBy test i k v (b ∷ rest) (if test b && ltb v b.version then r else s)
led_step test i k v b rest r s f g = elim (Bool-cases (test b && ltb v b.version)) [
  | inl e ↦ rw (e) (taken test i k v b rest r (ground (arith, e)) (ground (arith, e)) f)
  | inr e ↦ rw (e) (left test i k v b rest s (λ p. ground (arith, e, p)) g)
]

led_lem :
    (test : Bundle → Bool) (i k v : ℕ) (rest : List Bundle)
    → LedBy test i k v rest (lookup_from test i (some (k, v)) rest)
unfolding lookup_from
led_lem test i k v [] = unfold LedBy in inl (refl, tt)
led_lem test i k v (b ∷ rest) =
    led_step test i k v b rest _ _ (led_lem test (i + 1) i b.version rest)
      (led_lem test (i + 1) k v rest)

-- What the loop comes to from its start.
Found : (Bundle → Bool) → ℕ → List Bundle → Option ℕ → Type 0
Found test i rest r =
    ((r ≡ none) × All (λ c. test c ≡ false) rest)
    ⊎ ((m : ℕ) × IsNewest test rest m × (r ≡ some (i + m)))

first_taken :
    (test : Bundle → Bool) (i : ℕ) (b : Bundle) (rest : List Bundle) (r : Option ℕ)
    → test b ≡ true
    → LedBy test (i + 1) i b.version rest r
    → Found test i (b ∷ rest) r
unfolding LedBy Found
first_taken test i b rest r t (inl (e, none_newer)) = inr (
  0,
  record { found = b; here = refl; passes = t; newest = ((λ p. omega arith), none_newer) },
  some_here r i e,
)
first_taken test i b rest r t (inr (m, n, e, above)) =
    inr (suc m, behind test b rest m n (λ p. omega (arith, above)), some-suc r i m e)

later_kept :
    (test : Bundle → Bool) (i : ℕ) (b : Bundle) (rest : List Bundle) (r : Option ℕ)
    → test b ≡ false
    → Found test (i + 1) rest r
    → Found test i (b ∷ rest) r
unfolding Found
later_kept test i b rest r t (inl (e, all)) = inl (e, (t, all))
later_kept test i b rest r t (inr (m, n, e)) =
    inr (suc m, behind test b rest m n (λ p. absurd (true-false (test b) p t)), some-suc r i m e)

search_step :
    (test : Bundle → Bool) (i : ℕ) (b : Bundle) (rest : List Bundle) (r s : Option ℕ)
    → LedBy test (i + 1) i b.version rest r
    → Found test (i + 1) rest s
    → Found test i (b ∷ rest) (if test b then r else s)
search_step test i b rest r s f g = elim (Bool-cases (test b)) [
  | inl e ↦ rw (e) (first_taken test i b rest r e f)
  | inr e ↦ rw (e) (later_kept test i b rest s e g)
]

search_lem :
    (test : Bundle → Bool) (i : ℕ) (bundles : List Bundle)
    → Found test i bundles (lookup_from test i none bundles)
unfolding lookup_from
search_lem test i [] = unfold Found in inl (refl, tt)
search_lem test i (b ∷ rest) =
    search_step test i b rest _ _ (led_lem test (i + 1) i b.version rest)
      (search_lem test (i + 1) rest)

lookup_lem :
    (prefix : List ℕ) (len : ℕ) (bundles : List Bundle)
    → len ≤ 8
    → lookup_bundle_by_prefix prefix len bundles
      ≡ lookup_from (has_prefix prefix len) 0 none bundles
unfolding lookup_bundle_by_prefix
lookup_lem prefix len bundles h =
    ap (λ c. lookup_from (has_prefix prefix (if c then 8 else len)) 0 none bundles) (le→ltb 8 len h)

-- The result of a look-up: no bundle passes the test, or a newest one of those that do is found.
abbrev pub FindsNewest : (Bundle → Bool) → List Bundle → Option ℕ → Type 0
FindsNewest test bundles r =
    ((r ≡ none) × All (λ c. test c ≡ false) bundles)
    ⊎ ((m : ℕ) × IsNewest test bundles m × (r ≡ some m))

from_zero :
    (test : Bundle → Bool) (bundles : List Bundle) (r s : Option ℕ)
    → r ≡ s
    → Found test 0 bundles s
    → FindsNewest test bundles r
unfolding Found
from_zero test bundles r s q (inl (e, all)) = inl (q ∙ e, all)
from_zero test bundles r s q (inr (m, n, e)) = inr (m, n, q ∙ e ∙ ap some (omega arith))

All-get_elem {κ} :
    (P : Bundle → Type κ) (bundles : List Bundle) (k : ℕ) (c : Bundle)
    → All P bundles
    → get_elem? bundles k ≡ some c
    → P c
All-get_elem P [] k c h e = absurd cc
All-get_elem P (b ∷ rest) zero c h e = subst P (Option.some-injective b c e) h.0
All-get_elem P (b ∷ rest) (suc k) c h e = All-get_elem P rest k c h.1 e

-- Place `m` holds a bundle with the prefix, and none with it is newer.
pub record HoldsNewest (prefix : List ℕ) (len : ℕ) (bundles : List Bundle) (m : ℕ) : Type 0 where
  pub found : Bundle
  pub here : get_elem? bundles m ≡ some found
  pub agrees : HasPrefix prefix len found
  pub newest :
      (k : ℕ) (c : Bundle)
      → get_elem? bundles k ≡ some c
      → HasPrefix prefix len c
      → c.version ≤ found.version

-- No bundle has the prefix.
pub NoneHas : List ℕ → ℕ → List Bundle → Type 0
NoneHas prefix len bundles =
    (k : ℕ) (c : Bundle) → get_elem? bundles k ≡ some c → ¬ HasPrefix prefix len c

none_has :
    (prefix : List ℕ) (len : ℕ) (bundles : List Bundle)
    → All (λ c. has_prefix prefix len c ≡ false) bundles
    → NoneHas prefix len bundles
unfolding NoneHas
none_has prefix len bundles h k c e p =
    true-false _ (HasPrefix-has_prefix prefix len c p)
      (All-get_elem (λ c. has_prefix prefix len c ≡ false) bundles k c h e)

holds_newest :
    (prefix : List ℕ) (len : ℕ) (bundles : List Bundle) (m : ℕ)
    → IsNewest (has_prefix prefix len) bundles m
    → HoldsNewest prefix len bundles m
holds_newest prefix len bundles m n = record {
  found = n.found;
  here = n.here;
  agrees = has_prefix-HasPrefix prefix len n.found n.passes;
  newest = λ k c e p.
      All-get_elem (λ c. has_prefix prefix len c ≡ true → c.version ≤ n.found.version) bundles k c
        n.newest e (HasPrefix-has_prefix prefix len c p);
}

by_prefix :
    (prefix : List ℕ) (len : ℕ) (bundles : List Bundle) (r : Option ℕ)
    → FindsNewest (has_prefix prefix len) bundles r
    → ((r ≡ none) × NoneHas prefix len bundles)
      ⊎ ((m : ℕ) × HoldsNewest prefix len bundles m × (r ≡ some m))
by_prefix prefix len bundles r (inl (e, all)) = inl (e, none_has prefix len bundles all)
by_prefix prefix len bundles r (inr (m, n, e)) = inr (m, holds_newest prefix len bundles m n, e)

-- A look-up by up to eight bytes either returns -1, and every bundle differs from the prefix in one
-- of these bytes of its ID, or it returns the number of a bundle whose ID has all these bytes, such
-- that no bundle with all these bytes has a higher version.
pub lookup_bundle_by_prefix_lem :
    (prefix : List ℕ) (len : ℕ) (bundles : List Bundle)
    → len ≤ 8
    → ((lookup_bundle_by_prefix prefix len bundles ≡ none) × NoneHas prefix len bundles)
      ⊎ ((m : ℕ) × HoldsNewest prefix len bundles m
          × (lookup_bundle_by_prefix prefix len bundles ≡ some m))
lookup_bundle_by_prefix_lem prefix len bundles h = by_prefix prefix len bundles _ (
    from_zero (has_prefix prefix len) bundles _ _ (lookup_lem prefix len bundles h)
      (search_lem (has_prefix prefix len) 0 bundles))

-- The look-up of a version or a newer one either finds a newest bundle of those with the eight
-- bytes and at least that version, or finds none, and there is none.
pub lookup_or_newer_lem :
    (prefix : List ℕ) (version : ℕ) (bundles : List Bundle)
    → FindsNewest
        (λ b. has_prefix prefix 8 b && leb version b.version)
        bundles
        (lookup_or_newer prefix version bundles)
unfolding lookup_or_newer
lookup_or_newer_lem prefix version bundles =
    from_zero (λ b. has_prefix prefix 8 b && leb version b.version) bundles _ _ refl
      (search_lem (λ b. has_prefix prefix 8 b && leb version b.version) 0 bundles)
