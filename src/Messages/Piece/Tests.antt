-- ===== src/Messages/Piece/Tests.antt =====
-- Runs of the piece message, and each theorem about it at an input.
use lbard.Prelude.{
  ℕ, replicate, ◌+◌, ◌%◌, ◌≤◌, List, [], ◌∷◌, ◌++◌, ◌≡◌, ◌⊎◌, refl, true, false, none, some, length,
  arith,
}
use lbard.Messages.Piece.{
  Sizing, max_bytes, piece_size, le_bytes, le_value, offset_compound, piece_message,
  message_parser_50, Source, sync_append_some_bundle_bytes, advance_cursor, advance_others,
}
use lbard.Messages.Piece.Overrun.{piece_message_overruns}
use lbard.Messages.Piece.Size.{piece_size_lem}
use lbard.Messages.Piece.Fields.{as_parsed}
use lbard.Messages.Piece.Roundtrip.{message_parser_50-piece_message, message_parser_50_short}

program : Unit {0}
unfolding max_bytes piece_size le_bytes le_value offset_compound piece_message message_parser_50
    sync_append_some_bundle_bytes advance_cursor advance_others
program = tt

abbrev bid : List ℕ
bid = 1 ∷ 2 ∷ 3 ∷ 4 ∷ 5 ∷ 6 ∷ 7 ∷ 8 ∷ []

abbrev sender : Source
sender = record {
  bundle_number = 4;
  bundle_length = 1000;
  bid_bin = bid;
  cached_version = 9;
  sid_prefix_bin = 10 ∷ 11 ∷ [];
  target_peer = 0;
}

-- Four bytes at the end of a body of 100.
appended :
    (sync_append_some_bundle_bytes false sender 96 100 (1 ∷ 2 ∷ 3 ∷ 4 ∷ []) false 50 200 []).message
    ≡ 112
      ∷ 10
      ∷ 11
      ∷ (bid ++ (9 ∷ 0 ∷ 0 ∷ 0 ∷ 0 ∷ 0 ∷ 0 ∷ 0 ∷ 96 ∷ 0 ∷ 64 ∷ 0 ∷ 1 ∷ 2 ∷ 3 ∷ 4 ∷ []))
unfolding program
appended = refl

abbrev sent : ℕ
sent = 128

piece_size_lem_example :
    (0 + 128 ≤ 1000)
    × (128 ≤ 0x7ff)
    × (128 ≤ max_bytes 0 200 50)
    × ((sent ≡ 0x7ff)
        ⊎ (((true ≡ false) × (0 + 128 ≡ 1000))
            ⊎ ((true ≡ true) × ((false ≡ true) ⊎ ((0 + 128) % 64 ≡ 0)))))
piece_size_lem_example = piece_size_lem false 0 1000 200 50 128 true (unfold program in refl)

message_parser_50-piece_message_example :
    message_parser_50
      (10 ∷ 12 ∷ [])
      (piece_message false 96 4 false (10 ∷ 11 ∷ []) bid 9 (1 ∷ 2 ∷ 3 ∷ 4 ∷ []) ++ (84 ∷ []))
      28
    ≡ some (as_parsed (10 ∷ 12 ∷ []) 10 11 bid 9 96 4 false false 23 (1 ∷ 2 ∷ 3 ∷ 4 ∷ 84 ∷ []))
message_parser_50-piece_message_example =
    message_parser_50-piece_message (10 ∷ 12 ∷ []) false false 10 11 96 4 9 28 [] bid
      (1 ∷ 2 ∷ 3 ∷ 4 ∷ []) (84 ∷ []) (omega arith) (omega arith) (omega arith) (omega arith)
      (omega arith)

message_parser_50_short_example :
    message_parser_50
      (10 ∷ 11 ∷ [])
      (piece_message false 96 1 false (10 ∷ 11 ∷ []) bid 9 (1 ∷ []))
      (length (piece_message false 96 1 false (10 ∷ 11 ∷ []) bid 9 (1 ∷ [])))
    ≡ none
message_parser_50_short_example =
    message_parser_50_short (10 ∷ 11 ∷ []) false false 10 11 96 9 1 [] bid [] (omega arith)
      (omega arith)

abbrev zeros : List ℕ
zeros = replicate 100 0

piece_message_overruns_example :
    (piece_size true 0 300 130 20 ≡ Sizing.sized 89 true)
    × (20 + length (piece_message false 0 89 true (10 ∷ 11 ∷ []) bid 9 zeros) ≡ 130 + 2)
piece_message_overruns_example =
    piece_message_overruns false 0 300 130 20 9 10 11 [] bid zeros (omega arith) (omega arith)
      (omega arith) (omega arith) (omega arith) (omega arith)
