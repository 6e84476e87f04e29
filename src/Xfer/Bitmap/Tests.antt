-- ===== src/Xfer/Bitmap/Tests.antt =====
-- Runs of the request bitmap, and each theorem about it at an input.
use lbard.Prelude.{ℕ, ◌%◌, List, [], ◌∷◌, ◌≡◌, refl, ◌↔◌, arith, true, replicate}
use lbard.Xfer.Segments.{Segment}
use lbard.Xfer.Bits.{test_bit, mark_bit}
use lbard.Xfer.Bitmap.{
  request_bitmap, starting_position, mark_segments, mark_segment, mark_blocks, trim,
}
use lbard.Xfer.Bitmap.Request.{BlockHeld, request_bitmap_lem, request_bitmap_misaligned}

abbrev part : ℕ → ℕ → Segment
part a n = record { start_offset = a; len = n; bytes = [] }

abbrev body : List Segment
body = part 320 128 ∷ part 200 100 ∷ part 0 128 ∷ []

program : Unit {0}
unfolding request_bitmap starting_position mark_segments mark_segment mark_blocks trim mark_bit
program = tt

body_bits : request_bitmap body ≡ (128, 0x18 ∷ replicate 31 0)
unfolding program
body_bits = refl

request_bitmap_lem_example :
    (test_bit (request_bitmap body).1 3 ≡ true) ↔ BlockHeld (request_bitmap body).0 3 body
unfolding program
request_bitmap_lem_example = request_bitmap_lem body 3 (omega arith) start (omega arith)
  where
    start : starting_position body % 64 ≡ 0
    start = refl

-- Ten bytes have been received from the start on, and a block at 128.
abbrev upper : Segment
upper = part 128 64

abbrev first : Segment
first = part 0 10

request_bitmap_misaligned_example :
    (test_bit (request_bitmap (upper ∷ first ∷ [])).1 1 ≡ true)
    × ¬ BlockHeld (request_bitmap (upper ∷ first ∷ [])).0 1 (upper ∷ first ∷ [])
request_bitmap_misaligned_example =
    request_bitmap_misaligned upper first (omega arith) refl (omega arith) refl (omega arith)
      (omega arith)
