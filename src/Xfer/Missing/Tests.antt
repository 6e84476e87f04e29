-- ===== src/Xfer/Missing/Tests.antt =====
-- Runs of the search for a missing byte, and each theorem about it at an input.
use lbard.Prelude.{ℕ, ◌-◌, ◌%◌, List, [], ◌∷◌, ◌≡◌, refl, arith, true, false}
use lbard.Xfer.Segments.{Segment}
use lbard.Xfer.Missing.{partial_find_missing_byte}
use lbard.Xfer.Missing.First.{IsFirstMissing, partial_find_missing_byte_first}

abbrev part : ℕ → ℕ → Segment
part a n = record { start_offset = a; len = n; bytes = [] }

abbrev body : List Segment
body = part 320 128 ∷ part 0 100 ∷ []

lowest : partial_find_missing_byte true 0 body ≡ (64, true)
unfolding partial_find_missing_byte
lowest = refl

-- The redirection asks for the bytes behind the highest segment.
highest : partial_find_missing_byte false 7 body ≡ (448, false)
unfolding partial_find_missing_byte
highest = refl

partial_find_missing_byte_first_example :
    (m : ℕ) × IsFirstMissing m body × (partial_find_missing_byte true 5 body ≡ (m - m % 64, true))
partial_find_missing_byte_first_example =
    partial_find_missing_byte_first 5 body (omega arith) (omega arith)
