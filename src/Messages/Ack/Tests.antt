-- ===== src/Messages/Ack/Tests.antt =====
-- Reports of what is missing, and each theorem about them at an input.
use lbard.Prelude.{
  ℕ, ◌∷◌, [], ◌≡◌, refl, true, false, none, some, List, arith, replicate, ◌+◌, ◌-◌, ◌*◌,
}
use lbard.Xfer.Bits.{test_bit}
use lbard.Xfer.Send.{SendState}
use lbard.Messages.Piece.{le_bytes, le_value}
use lbard.Messages.Ack.{
  ack_type, bid_bytes, ack_message, first_missing, AckState, AckContext, body_offset_of, redirected,
  jumps, resumed_at, note_bitmap, note_if, resume, resume_if, parse_found, sync_parse_ack,
  message_parser_41,
}
use lbard.Messages.Ack.Resume.{IsFirstUnmarked, sync_parse_ack-ack_message}
use lbard.Messages.Ack.Kept.{KeepsBitmap, sync_parse_ack-KeepsBitmap}

program : Unit {0}
unfolding ack_type bid_bytes ack_message first_missing body_offset_of redirected jumps resumed_at
    note_bitmap note_if resume resume_if parse_found sync_parse_ack message_parser_41 le_bytes
    le_value test_bit
program = tt

-- The value of two decimal digits, for `strtoll`.
abbrev digits_value : ℕ → ℕ → ℕ
digits_value a b = (a - 48) * 16 + (b - 48)

-- "0123456701234567"
abbrev bid_prefix : List ℕ
bid_prefix = 48 ∷ 49 ∷ 50 ∷ 51 ∷ 52 ∷ 53 ∷ 54 ∷ 55 ∷ 48 ∷ 49 ∷ 50 ∷ 51 ∷ 52 ∷ 53 ∷ 54 ∷ 55 ∷ []

abbrev my_context : AckContext
my_context = record {
  my_sid = 0xab ∷ 0xcd ∷ [];
  lookup_bundle = λ bid. some 4;
  no_hard_lower = false;
  no_randomize_redirect = false;
  cached = none;
  jump = 1;
  manifest_jump = 0;
  body_jump = 0;
}

abbrev sending : SendState
sending = record {
  tx_bundle = some 4;
  tx_bundle_manifest_offset = 0;
  tx_bundle_body_offset = 0;
  request_bitmap_bundle = some 4;
  request_bitmap_offset = 0;
  bitmaps = replicate 34 0;
}

abbrev start : AckState
start = record { send = sending; manifest_hard_lower_bound = 0; body_hard_lower_bound = 0 }

abbrev manifest_bits : List ℕ
manifest_bits = 7 ∷ 0 ∷ []

abbrev sample : List ℕ
sample = ack_message digits_value true false bid_prefix manifest_bits 70000 (0xab ∷ 0xcd ∷ [])

abbrev resumed_offset : ℕ
resumed_offset = 70000

resumes : (sync_parse_ack my_context sample start).0.send.tx_bundle_body_offset ≡ resumed_offset
unfolding program
resumes = refl

abbrev third_block : ℕ
third_block = 192

resumes_manifest :
    (sync_parse_ack my_context sample start).0.send.tx_bundle_manifest_offset ≡ third_block
unfolding program
resumes_manifest = refl

sync_parse_ack-ack_message_example :
    (s : AckState) × (sync_parse_ack my_context sample start ≡ (s, some 0))
    × (s.send.tx_bundle_body_offset ≡ 70000)
    × (s.body_hard_lower_bound ≡ 70000)
    × IsFirstUnmarked manifest_bits s.send.tx_bundle_manifest_offset
sync_parse_ack-ack_message_example =
    sync_parse_ack-ack_message digits_value true bid_prefix manifest_bits 70000 my_context start 4
      (omega arith) refl refl

sync_parse_ack-KeepsBitmap_example :
    KeepsBitmap sending (sync_parse_ack my_context sample start).0.send
sync_parse_ack-KeepsBitmap_example = sync_parse_ack-KeepsBitmap my_context sample start
