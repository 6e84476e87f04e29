-- ===== src/Sync/Lookup.antt =====
-- src/sync/bundle_tree.c: look-up of a bundle by the first bytes of its ID.
pub mod Prefix
pub mod Newest
mod Tests
use lbard.Prelude.{
  ℕ, zero, suc, ◌+◌, List, [], ◌∷◌, Option, none, some, Bool, true, false, ltb, leb, ◌==◌, ◌&&◌,
  if◌then◌else◌, get_or, min,
}

-- What the look-ups read of `struct bundle_record`.
pub record Bundle : Type 0 where
  pub bid_bin : List ℕ
  pub version : ℕ

-- The loop over `i`: it reaches the end.
pub same_from : List ℕ → List ℕ → ℕ → ℕ → Bool
same_from prefix bid i zero = true
same_from prefix bid i (suc rounds) =
    get_or prefix i 0 == get_or bid i 0 && same_from prefix bid (i + 1) rounds

abbrev pub has_prefix : List ℕ → ℕ → Bundle → Bool
unfolding same_from
has_prefix prefix len b = same_from prefix b.bid_bin 0 len

-- The loop over the bundles from number `i` on; `best` is the best bundle and its version.
pub lookup_from : (Bundle → Bool) → ℕ → Option (ℕ × ℕ) → List Bundle → Option ℕ
lookup_from test i none [] = none
lookup_from test i (some best) [] = some best.0
lookup_from test i none (b ∷ rest) =
    let taken = lookup_from test (i + 1) (some (i, b.version)) rest in
    let left = lookup_from test (i + 1) none rest in if test b then taken else left
lookup_from test i (some best) (b ∷ rest) =
    let taken = lookup_from test (i + 1) (some (i, b.version)) rest in
    let left = lookup_from test (i + 1) (some best) rest in
    if test b && ltb best.1 b.version then taken else left

-- `lookup_bundle_by_prefix`; `none` is -1.
pub lookup_bundle_by_prefix : List ℕ → ℕ → List Bundle → Option ℕ
unfolding lookup_from has_prefix
lookup_bundle_by_prefix prefix len bundles =
    lookup_from (has_prefix prefix (if ltb 8 len then 8 else len)) 0 none bundles

-- The first bundle that passes a test, from number `i` on.
pub first_from : (Bundle → Bool) → ℕ → List Bundle → Option ℕ
first_from test i [] = none
first_from test i (b ∷ rest) =
    let later = first_from test (i + 1) rest in if test b then some i else later

-- `lookup_bundle_by_prefix_bin_and_version_exact`.
pub lookup_exact : List ℕ → ℕ → List Bundle → Option ℕ
unfolding first_from has_prefix
lookup_exact prefix version bundles =
    first_from (λ b. has_prefix prefix 8 b && b.version == version) 0 bundles

-- `lookup_bundle_by_prefix_bin_and_version_or_newer`.
pub lookup_or_newer : List ℕ → ℕ → List Bundle → Option ℕ
unfolding lookup_from has_prefix
lookup_or_newer prefix version bundles =
    lookup_from (λ b. has_prefix prefix 8 b && leb version b.version) 0 none bundles

-- `lookup_bundle_by_prefix_bin_and_version_or_older`.
pub lookup_or_older : List ℕ → ℕ → List Bundle → Option ℕ
unfolding first_from has_prefix
lookup_or_older prefix version bundles =
    first_from (λ b. has_prefix prefix 8 b && leb b.version version) 0 bundles
