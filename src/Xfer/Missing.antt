-- ===== src/Xfer/Missing.antt =====
-- src/xfer/partials.c, `partial_find_missing_byte`: where to ask a sender to go on from.
pub mod First
mod Tests
use lbard.Prelude.{
  ℕ, zero, suc, ◌+◌, ◌-◌, ◌%◌, List, [], ◌∷◌, ◌++◌, map, Bool, true, false, not, ltb, ◌==◌, ◌&&◌,
  if◌then◌else◌, take, length, get_or,
}
use lbard.Xfer.Segments.{Segment, end_offset}

-- `add_zero` at the end of the walk: no segment starts at 0.
pub add_zero : List Segment → Bool
add_zero [] = true
add_zero (s ∷ rest) = if s.start_offset == 0 then false else add_zero rest

-- `candidates`, in the order in which they are collected.
pub candidates : List Segment → List ℕ
unfolding add_zero
candidates s =
    let ends = take 16 (map end_offset s) in
    if ltb (length ends) 16 && add_zero s then ends ++ (0 ∷ []) else ends

-- The result, and `*isFirstMissingByte`. `no_randomize` is the option flag
-- FLAG_NO_RANDOMIZE_REDIRECT_OFFSET, `random` what `random()` returns. An `int` that is not
-- negative, masked by 0xffffffc0, is rounded down to a multiple of 64.
pub partial_find_missing_byte : Bool → ℕ → List Segment → ℕ × Bool
unfolding candidates
partial_find_missing_byte no_randomize random s =
    let count = length (candidates s) in
    let selection = if not no_randomize && ltb 1 count then random % (count - 1) else count - 1 in
    let chosen = get_or (candidates s) selection 0 in (chosen - chosen % 64, selection == count - 1)
