-- ===== src/Xfer/Send/Tests.antt =====
-- Runs of the sender's side, and each theorem about it at an input.
use lbard.Prelude.{
  ℕ, ◌+◌, ◌*◌, ◌%◌, ◌/◌, ◌∷◌, ◌≡◌, refl, Bool, true, false, none, some, ltb, leb, ◌==◌, ◌&&◌,
  if◌then◌else◌, replicate, arith,
}
use lbard.Xfer.Bits.{test_bit, mark_bit}
use lbard.Xfer.Send.{
  SendState, old_bit, translate_from, progress_bitmap_translate, read_bit, collect, max_bit,
  send_candidates, manifest_candidates, peer_update_send_point, starts_over, mark_sent_manifest,
  mark_sent, bytes_remaining, accumulate, mark_piece, saw_transmitted_piece, manifest_bit,
}
use lbard.Xfer.Send.Translate.{says_held, progress_bitmap_translate_lem}
use lbard.Xfer.Send.Transmitted.{saw_transmitted_piece_first, saw_transmitted_piece_overflow}

program : Unit {0}
unfolding test_bit mark_bit old_bit translate_from progress_bitmap_translate read_bit collect
    max_bit send_candidates manifest_candidates peer_update_send_point starts_over
    mark_sent_manifest mark_sent bytes_remaining accumulate mark_piece saw_transmitted_piece
program = tt

-- A peer that bundle 4 is sent to, with its blocks 0 and 1 marked.
abbrev peer : SendState
peer = record {
  tx_bundle = some 4;
  tx_bundle_manifest_offset = 0;
  tx_bundle_body_offset = 0;
  request_bitmap_bundle = some 4;
  request_bitmap_offset = 0;
  bitmaps = 3 ∷ replicate 33 0;
}

-- The same, before anything is known of it.
abbrev unknown : SendState
unknown = record peer { tx_bundle = none; request_bitmap_bundle = none }

abbrev nothing : ℕ → Bool
nothing i = false

translated : progress_bitmap_translate (0xf0 ∷ replicate 31 0) 0 256 ≡ 0x0e ∷ replicate 31 0
unfolding program
translated = refl

next_point : (peer_update_send_point nothing 300 1 0 peer).tx_bundle_body_offset ≡ 128
unfolding program
next_point = refl

progress_bitmap_translate_lem_example :
    test_bit (progress_bitmap_translate (0xf0 ∷ replicate 31 0) 0 256) 3
    ≡ (ltb 0 3 && says_held (0xf0 ∷ replicate 31 0) 0 (256 + 64 * 3))
progress_bitmap_translate_lem_example =
    progress_bitmap_translate_lem (0xf0 ∷ replicate 31 0) 0 256 3 (omega arith) refl

saw_transmitted_piece_first_example :
    test_bit (saw_transmitted_piece 900 4 false (64 * 1) 128 unknown).bitmaps 2
    ≡ (leb 1 2 && ltb (if 1 % 2 == 1 && ltb (64 * 1 + 128) 900 then 2 + 1 else 2) (1 + 128 / 64))
saw_transmitted_piece_first_example =
    saw_transmitted_piece_first 900 4 1 128 2 unknown refl (omega arith)

saw_transmitted_piece_overflow_example :
    test_bit (saw_transmitted_piece 20000 4 false 16384 128 unknown).bitmaps (manifest_bit 0) ≡ true
saw_transmitted_piece_overflow_example =
    saw_transmitted_piece_overflow 20000 4 128 unknown refl (omega arith) (omega arith)
