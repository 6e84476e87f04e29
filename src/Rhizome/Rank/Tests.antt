-- ===== src/Rhizome/Rank/Tests.antt =====
-- Runs of the ranking, and each theorem about it at an input.
use lbard.Prelude.{
  inl, ap, get_or, ℕ, ◌<◌, ◌≤◌, List, [], ◌∷◌, ◌≡◌, refl, none, some, false, arith, map,
}
use lbard.Rhizome.Rank.{
  length_bits, low_bits, length_part, length_to_priority, same_text, is_service, service_class,
  is_addressed, penalise, intrinsic_priority, BundleRecord, stored_priority, find_from,
  find_highest_priority_bundle,
}
use lbard.Rhizome.Rank.Kinds.{IsMeshms}
use lbard.Rhizome.Rank.Length.{length_to_priority_antitone}
use lbard.Rhizome.Rank.Order.{
  standing, CountsBefore, intrinsic_priority-CountsBefore, intrinsic_priority-length,
}
use lbard.Rhizome.Rank.Choice.{priority_of, IsFirstGreatest, find_highest_priority_bundle_lem}

program : Unit {0}
unfolding length_bits low_bits length_part length_to_priority same_text is_service service_class
    is_addressed penalise intrinsic_priority stored_priority find_from find_highest_priority_bundle
    standing
program = tt

empty_length : length_to_priority 0 ≡ 1008
unfolding program
empty_length = refl

-- "MeshMS2" and "file".
abbrev meshms2 : List ℕ
meshms2 = 77 ∷ 101 ∷ 115 ∷ 104 ∷ 77 ∷ 83 ∷ 50 ∷ []

abbrev meshms1 : List ℕ
meshms1 = 77 ∷ 101 ∷ 115 ∷ 104 ∷ 77 ∷ 83 ∷ 49 ∷ []

abbrev file : List ℕ
file = 102 ∷ 105 ∷ 108 ∷ 101 ∷ []

abbrev stored : List ℕ → ℕ → BundleRecord
stored s l = record {
  service = s;
  bundle_length = l;
  recipient = none;
  last_announced_time = 7;
  last_priority = 0;
  num_peers_that_dont_have_it = 0;
}

chosen :
    (find_highest_priority_bundle false []
      (stored file 10 ∷ stored meshms2 5000 ∷ stored meshms2 900 ∷ [])).0
    ≡ some 2
unfolding program
chosen = refl

length_to_priority_antitone_example : length_to_priority 5000 ≤ length_to_priority 900
length_to_priority_antitone_example =
    length_to_priority_antitone 900 5000 (omega arith) (omega arith)

file_is_none : (digit : ℕ) → ¬ IsMeshms digit file
unfolding IsMeshms
file_is_none digit e = omega (arith, ap (λ l. get_or l 0 0) e)

is_two : IsMeshms 50 meshms2
unfolding IsMeshms
is_two = refl

counts_two : IsMeshms 50 meshms2 → ¬ IsMeshms 50 file → CountsBefore [] meshms2 none file none
unfolding CountsBefore
counts_two h k = inl (h, k)

intrinsic_priority-CountsBefore_example :
    intrinsic_priority false [] 10 file none 0 < intrinsic_priority false [] 5000 meshms2 none 0
intrinsic_priority-CountsBefore_example =
    intrinsic_priority-CountsBefore [] 10 5000 file meshms2 none none (omega arith) (omega arith)
      (counts_two is_two (file_is_none 50))

intrinsic_priority-length_example :
    intrinsic_priority false [] 5000 meshms2 none 0 ≤ intrinsic_priority false [] 900 meshms2 none 0
intrinsic_priority-length_example =
    intrinsic_priority-length [] 900 5000 meshms2 meshms2 none none refl (omega arith) (omega arith)

find_highest_priority_bundle_lem_example :
    (k : ℕ) × ((find_highest_priority_bundle false [] (stored file 10 ∷ stored meshms2 900 ∷ [])).0
      ≡ some k)
    × IsFirstGreatest (map (priority_of []) (stored file 10 ∷ stored meshms2 900 ∷ [])) k
find_highest_priority_bundle_lem_example =
    find_highest_priority_bundle_lem [] 7 (stored file 10) (stored meshms2 900 ∷ [])
      (refl, (refl, tt))
