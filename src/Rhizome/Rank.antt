-- ===== src/Rhizome/Rank.antt =====
-- src/rhizome/rank.c: the priority of a bundle, and the choice of the one to announce next.
-- `SYNC_BY_BAR` is not defined, so what stands under it is not part of the program. Lengths are
-- below 2 ^ 30, where the code's `1<<result` stays in an `int`.
pub mod Length
pub mod Kinds
pub mod Order
pub mod Choice
mod Tests
use lbard.Prelude.{
  ℕ, zero, suc, ◌+◌, ◌-◌, ◌*◌, ◌/◌, ◌%◌, ◌^◌, List, [], ◌∷◌, Option, none, some, Bool, true, false,
  ltb, leb, ◌==◌, ◌&&◌, ◌||◌, if◌then◌else◌, take,
}

-- The rounds of `while(value) { result++; value=value>>1; }`; `rounds` bounds them, and 64 are
-- enough for a `long long`.
pub length_bits : ℕ → ℕ → ℕ
length_bits zero value = 0
length_bits (suc rounds) value =
    let more = length_bits rounds (value / 2) in if value == 0 then 0 else suc more

-- `result-shift`, with `shift` at most 4 and below `result`.
pub low_bits : ℕ → ℕ
low_bits result = if leb result 4 then 1 else result - 4

-- `((original_value-(1<<result))>>(result-shift))&0xf`. The shift of a number that is not positive
-- rounds down, and the mask takes 16 away: adding `16 << (result-shift)` changes nothing.
pub length_part : ℕ → ℕ → ℕ
unfolding low_bits
length_part result value =
    (value + 16 * 2 ^ low_bits result - 2 ^ result) / 2 ^ low_bits result % 16

-- `lengthToPriority`.
pub length_to_priority : ℕ → ℕ
unfolding length_bits length_part
length_to_priority value =
    let result = length_bits 64 value in (63 - result) * 16 + (15 - length_part result value)

abbrev priority_sent_less_recently : ℕ
priority_sent_less_recently = 0x400

abbrev priority_recipient_is_a_peer : ℕ
priority_recipient_is_a_peer = 0x2000

abbrev priority_is_meshms : ℕ
priority_is_meshms = 0x4000

abbrev pub penalty_for_failed_insert : ℕ
penalty_for_failed_insert = 0x8000

abbrev pub to_lower : ℕ → ℕ
to_lower c = if leb 65 c && leb c 90 then c + 32 else c

-- Equality of two strings.
pub same_text : List ℕ → List ℕ → Bool
same_text [] [] = true
same_text (a ∷ s) (b ∷ t) = a == b && same_text s t
same_text _ _ = false

-- Whether `strcasecmp` of the service and a name in small letters is 0.
pub is_service : List ℕ → List ℕ → Bool
unfolding same_text
is_service name [] = same_text name []
is_service name (c ∷ service) = elim name [
  | [] ↦ false
  | a ∷ rest ↦ a == to_lower c && is_service rest service
]

-- "meshms1" and "meshms2".
abbrev pub meshms : ℕ → List ℕ
meshms digit = 109 ∷ 101 ∷ 115 ∷ 104 ∷ 109 ∷ 115 ∷ digit ∷ []

-- The multiple of `priority_is_meshms`.
pub service_class : List ℕ → ℕ
unfolding is_service
service_class service =
    (if is_service (meshms 49) service then 1 else 0)
    + (if is_service (meshms 50) service then 2 else 0)

-- The loop over the peers: the recipient's first 16 digits are those of a prefix.
pub is_addressed : List (List ℕ) → Option (List ℕ) → Bool
unfolding same_text
is_addressed peers none = false
is_addressed [] (some recipient) = false
is_addressed (sid_prefix ∷ peers) (some recipient) =
    same_text (take 16 recipient) (take 16 sid_prefix) || is_addressed peers (some recipient)

-- The loop over the failures.
pub penalise : ℕ → ℕ → ℕ
penalise zero priority = priority
penalise (suc failures) priority = penalise failures (
    if leb penalty_for_failed_insert priority
    then priority - penalty_for_failed_insert
    else priority / 2)

-- `calculate_bundle_intrinsic_priority`; the Boolean is `debug_noprioritisation`.
pub intrinsic_priority : Bool → List (List ℕ) → ℕ → List ℕ → Option (List ℕ) → ℕ → ℕ
unfolding length_to_priority service_class is_addressed penalise
intrinsic_priority noprioritisation peers bundle_length service recipient insert_failures =
    if noprioritisation
    then 1
    else penalise insert_failures (
        length_to_priority bundle_length
        + priority_is_meshms * service_class service
        + (if is_addressed peers recipient then priority_recipient_is_a_peer else 0))

-- The fields of `struct bundle_record` that this file reads and writes.
pub record BundleRecord : Type 0 where
  pub service : List ℕ
  pub bundle_length : ℕ
  pub recipient : Option (List ℕ)
  pub last_announced_time : ℕ
  pub last_priority : ℕ
  pub num_peers_that_dont_have_it : ℕ

-- `calculate_stored_bundle_priority`: the priority, and the record as it is left. `versus` is the
-- record at that index, or `none` for -1. No peer is counted as lacking the bundle.
pub stored_priority : Bool → List (List ℕ) → BundleRecord → Option BundleRecord → ℕ × BundleRecord
unfolding intrinsic_priority
stored_priority noprioritisation peers b versus =
    let base = intrinsic_priority false peers b.bundle_length b.service b.recipient 0 in
    let recent : Bool = elim versus [
      | none ↦ true
      | some v ↦ leb b.last_announced_time v.last_announced_time
    ] in
    let priority = if recent then base + priority_sent_less_recently else base in
    if noprioritisation
    then (1, b)
    else (priority, record b { last_priority = priority; num_peers_that_dont_have_it = 0 })

-- The best bundle so far: its index, its priority, and its record.
abbrev pub Best : Type 0
Best = Option (ℕ × ℕ × BundleRecord)

-- The loop of `find_highest_priority_bundle` from bundle `i` on, and the records as they are left.
pub find_from : Bool → List (List ℕ) → ℕ → Best → List BundleRecord → Option ℕ × List BundleRecord
unfolding stored_priority
find_from noprioritisation peers i best [] = (elim best [ none ↦ none | some b ↦ some b.0 ], [])
find_from noprioritisation peers i none (b ∷ rest) =
    let r = stored_priority noprioritisation peers b none in
    let more = find_from noprioritisation peers (i + 1) (some (i, r.0, r.1)) rest in
    (more.0, r.1 ∷ more.1)
find_from noprioritisation peers i (some (k, p, v)) (b ∷ rest) =
    let r = stored_priority noprioritisation peers b (some v) in
    let more =
      find_from noprioritisation peers (i + 1)
        (if ltb p r.0 then some (i, r.0, r.1) else some (k, p, v)) rest in
    (more.0, r.1 ∷ more.1)

-- `find_highest_priority_bundle`; -1 is `none`.
pub find_highest_priority_bundle :
    Bool → List (List ℕ) → List BundleRecord → Option ℕ × List BundleRecord
unfolding find_from
find_highest_priority_bundle noprioritisation peers bundles =
    find_from noprioritisation peers 0 none bundles
