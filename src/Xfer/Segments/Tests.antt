-- ===== src/Xfer/Segments/Tests.antt =====
-- Runs of the segment list, and each theorem about it at an input.
use lbard.Prelude.{ℕ, ◌+◌, List, [], ◌∷◌, ◌≡◌, refl, ◌⊎◌, ◌↔◌, arith, false}
use lbard.Prelude.Slice.{slice}
use lbard.Xfer.Segments.{
  Segment, Piece, insert_piece, merge_segments, new_segment, extend, join_segments,
}
use lbard.Xfer.Segments.Invariant.{IsSeparated, receive, receive-IsSeparated}
use lbard.Xfer.Segments.Content.{ArePartsOf, receive-ArePartsOf}
use lbard.Xfer.Segments.Coverage.{Holds, InPiece, receive-Holds, receive_loses}
use lbard.Xfer.Segments.Reassembly.{receive_all, receive_all_complete}

-- The file whose byte at `i` is `i + 100`.
abbrev file : ℕ → ℕ
file i = i + 100

abbrev part : ℕ → ℕ → Segment
part a n = record { start_offset = a; len = n; bytes = slice file a n }

abbrev cut : ℕ → ℕ → Piece
cut a n = record { piece_offset = a; piece_bytes = n; piece = slice file a n }

abbrev two_parts : List Segment
two_parts = part 8 4 ∷ part 0 4 ∷ []

program : Unit {0}
unfolding new_segment extend insert_piece join_segments merge_segments
program = tt

bridge : receive (cut 3 6) two_parts ≡ part 0 12 ∷ []
unfolding program
bridge = refl

inner : (insert_piece (cut 9 2) two_parts).next_byte_would_be_useful ≡ false
unfolding program
inner = refl

any_order : receive_all [] (cut 6 4 ∷ cut 0 3 ∷ cut 2 5 ∷ []) ≡ part 0 10 ∷ []
unfolding program receive_all
any_order = refl

receive-IsSeparated_example : IsSeparated (receive (cut 3 6) two_parts)
receive-IsSeparated_example = receive-IsSeparated (cut 3 6) two_parts (omega arith)

receive-ArePartsOf_example : ArePartsOf file (receive (cut 3 6) two_parts)
receive-ArePartsOf_example =
    receive-ArePartsOf file (cut 3 6) two_parts (omega arith) refl (refl, (refl, tt))

receive-Holds_example :
    Holds 5 (receive (cut 3 6) two_parts) ↔ (Holds 5 two_parts ⊎ InPiece 5 (cut 3 6))
receive-Holds_example = receive-Holds (cut 3 6) two_parts 5 (omega arith) (omega arith)

abbrev upper : Segment
upper = part 100 10

abbrev lower : Segment
lower = part 50 10

receive_loses_example : ¬ Holds 5 (receive (cut 5 100) (upper ∷ lower ∷ []))
receive_loses_example =
    receive_loses (cut 5 100) upper lower (omega arith) (omega arith) (omega arith)

receive_all_complete_example : (part 0 10).bytes ≡ slice file 0 10
receive_all_complete_example =
    receive_all_complete file (cut 6 4 ∷ cut 0 3 ∷ cut 2 5 ∷ []) (part 0 10)
      (refl, (refl, (refl, tt))) any_order refl
