-- ===== src/Sync/Lookup/Tests.antt =====
-- Runs of the look-ups, and each theorem about them at an input.
use lbard.Prelude.{ℕ, ◌⊎◌, List, [], ◌∷◌, ◌≡◌, refl, none, some, arith}
use lbard.Sync.Lookup.{
  Bundle, same_from, has_prefix, lookup_from, lookup_bundle_by_prefix, first_from, lookup_exact,
  lookup_or_newer, lookup_or_older,
}
use lbard.Sync.Lookup.Newest.{NoneHas, HoldsNewest, lookup_bundle_by_prefix_lem}

program : Unit {0}
unfolding same_from has_prefix lookup_from lookup_bundle_by_prefix first_from lookup_exact
    lookup_or_newer lookup_or_older
program = tt

abbrev stored : List Bundle
stored =
    record { bid_bin = 1 ∷ 2 ∷ 3 ∷ []; version = 5 }
    ∷ record { bid_bin = 1 ∷ 2 ∷ 4 ∷ []; version = 9 }
    ∷ record { bid_bin = 7 ∷ 2 ∷ 4 ∷ []; version = 11 }
    ∷ []

newest : lookup_bundle_by_prefix (1 ∷ 2 ∷ []) 2 stored ≡ some 1
unfolding program
newest = refl

exact : lookup_exact (1 ∷ 2 ∷ 3 ∷ []) 5 stored ≡ some 0
unfolding program
exact = refl

newer : lookup_or_newer (1 ∷ 2 ∷ 3 ∷ []) 6 stored ≡ none
unfolding program
newer = refl

older : lookup_or_older (1 ∷ 2 ∷ 3 ∷ []) 6 stored ≡ some 0
unfolding program
older = refl

lookup_bundle_by_prefix_lem_example :
    ((lookup_bundle_by_prefix (1 ∷ 2 ∷ []) 2 stored ≡ none) × NoneHas (1 ∷ 2 ∷ []) 2 stored)
    ⊎ ((m : ℕ) × HoldsNewest (1 ∷ 2 ∷ []) 2 stored m
        × (lookup_bundle_by_prefix (1 ∷ 2 ∷ []) 2 stored ≡ some m))
lookup_bundle_by_prefix_lem_example =
    lookup_bundle_by_prefix_lem (1 ∷ 2 ∷ []) 2 stored (omega arith)
