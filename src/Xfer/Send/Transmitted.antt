-- ===== src/Xfer/Send/Transmitted.antt =====
-- `peer_update_request_bitmaps_due_to_transmitted_piece`: what a piece marks.
use lbard.Prelude.{
  ℕ, zero, suc, ◌+◌, ◌-◌, ◌*◌, ◌/◌, ◌%◌, ◌≤◌, ◌<◌, List, ◌≡◌, refl, ◌∙◌, ap, Option, none, some,
  Bool, true, false, not, ltb, leb, ◌==◌, ◌&&◌, ◌||◌, arith, length, le→ltb, replicate,
  length-replicate, if◌then◌else◌,
}
use lbard.Xfer.Bits.{
  AreBytes, mark_bit, test_bit, mark_bit-AreBytes, length-mark_bit, test_bit-mark_bit,
  replicate-AreBytes, test_bit-replicate,
}
use lbard.Xfer.Send.{
  SendState, same_bundle, starts_over, accumulate, mark_sent, mark_piece, bytes_remaining,
  saw_transmitted_piece, bit_limit, manifest_bit,
}

test_bit-mark_sent :
    (rounds bit : ℕ) (bitmaps : List ℕ) (c : ℕ)
    → AreBytes bitmaps
    → bit + rounds ≤ 8 * length bitmaps
    → bit + rounds ≤ bit_limit
    → test_bit (mark_sent rounds bit bitmaps) c
      ≡ (leb bit c && ltb c (bit + rounds) || test_bit bitmaps c)
unfolding mark_sent
test_bit-mark_sent zero bit bitmaps c h k l = ground arith
test_bit-mark_sent (suc rounds) bit bitmaps c h k l = ground (
  arith,
  test_bit-mark_sent rounds (bit + 1) (mark_bit bitmaps bit) c (mark_bit-AreBytes bitmaps bit h),
  length-mark_bit bitmaps bit,
  test_bit-mark_bit bitmaps bit c h,
)

if_yes : (b : Bool) (x y : SendState) → b ≡ true → (if b then x else y) ≡ x
if_yes b x y h = rw (h) refl

if_no : (b : Bool) (x y : SendState) → b ≡ false → (if b then x else y) ≡ y
if_no b x y h = rw (h) refl

settled :
    (bundle : ℕ) (tx : Option ℕ)
    → (same_bundle (some bundle) none
        || same_bundle tx (some bundle) && not (same_bundle (some bundle) tx))
      ≡ false
settled bundle none = refl
settled bundle (some t) = ground arith

settled_lem :
    (bundle : ℕ) (p : SendState)
    → p.request_bitmap_bundle ≡ some bundle
    → starts_over bundle p ≡ false
unfolding starts_over
settled_lem bundle p e =
    ap
      (λ r.
        same_bundle r none
        || same_bundle p.tx_bundle (some bundle) && not (same_bundle r p.tx_bundle))
      e
    ∙ settled bundle p.tx_bundle

starts_lem :
    (bundle : ℕ) (p : SendState) → p.request_bitmap_bundle ≡ none → starts_over bundle p ≡ true
unfolding starts_over
starts_lem bundle p e =
    ap
      (λ r.
        same_bundle r none
        || same_bundle p.tx_bundle (some bundle) && not (same_bundle r p.tx_bundle))
      e

-- Once the bitmap of a peer is for a bundle, every further piece of that bundle, of the manifest
-- or of the body, leaves the peer as it is: nothing more is marked.
pub saw_transmitted_piece_ignored :
    (bundle_length bundle : ℕ) (is_manifest : Bool) (start_offset bytes : ℕ) (p : SendState)
    → p.request_bitmap_bundle ≡ some bundle
    → saw_transmitted_piece bundle_length bundle is_manifest start_offset bytes p ≡ p
unfolding saw_transmitted_piece
saw_transmitted_piece_ignored bundle_length bundle is_manifest start_offset bytes p e =
    if_no (starts_over bundle p) _ p (settled_lem bundle p e)

-- The state of a peer after a first piece of a body that is not far from the body's start.
abbrev started : ℕ → ℕ → ℕ → ℕ → SendState → SendState
started bundle_length bundle start_offset bytes p = record p {
  bitmaps =
      mark_sent (bytes_remaining start_offset start_offset bytes bundle_length / 64)
        (start_offset / 64) (replicate 34 0);
  request_bitmap_bundle = some bundle;
  request_bitmap_offset = 0;
}

accumulate_near :
    (bundle start_offset bytes : ℕ) (p : SendState)
    → start_offset ≤ 16384
    → accumulate bundle false start_offset bytes p ≡ record p {
      bitmaps = replicate 34 0;
      request_bitmap_bundle = some bundle;
      request_bitmap_offset = 0;
    }
unfolding accumulate
accumulate_near bundle start_offset bytes p h = rw (le→ltb 16384 start_offset h) refl

sub_zero : (k : ℕ) → k - 0 ≡ k
sub_zero k = omega arith

mark_near :
    (bundle_length bundle start_offset bytes : ℕ) (p : SendState)
    → mark_piece bundle_length bundle start_offset bytes (record p {
      bitmaps = replicate 34 0;
      request_bitmap_bundle = some bundle;
      request_bitmap_offset = 0;
    })
      ≡ started bundle_length bundle start_offset bytes p
unfolding mark_piece
mark_near bundle_length bundle start_offset bytes p =
    if_yes (bundle == bundle && leb 0 start_offset) _ _ (ground arith)
    ∙ ap
        (λ offset. record p {
          bitmaps =
              mark_sent (bytes_remaining offset start_offset bytes bundle_length / 64) (offset / 64)
                (replicate 34 0);
          request_bitmap_bundle = some bundle;
          request_bitmap_offset = 0;
        })
        (sub_zero start_offset)

first_piece :
    (bundle_length bundle start_offset bytes : ℕ) (p : SendState)
    → p.request_bitmap_bundle ≡ none
    → start_offset ≤ 16384
    → saw_transmitted_piece bundle_length bundle false start_offset bytes p
      ≡ started bundle_length bundle start_offset bytes p
unfolding saw_transmitted_piece
first_piece bundle_length bundle start_offset bytes p e h =
    if_yes (starts_over bundle p) _ p (starts_lem bundle p e)
    ∙ ap (mark_piece bundle_length bundle start_offset bytes)
        (accumulate_near bundle start_offset bytes p h)
    ∙ mark_near bundle_length bundle start_offset bytes p

bits_of_piece :
    (rounds s c : ℕ)
    → s + rounds ≤ 256
    → test_bit (mark_sent rounds s (replicate 34 0)) c ≡ (leb s c && ltb c (s + rounds))
bits_of_piece rounds s c h =
    test_bit-mark_sent rounds s (replicate 34 0) c (replicate-AreBytes 34)
      (omega (arith, length-replicate 34 zero)) (omega arith)
    ∙ rw (test_bit-replicate 34 c) (ground arith)

remaining_le :
    (offset start_offset bytes bundle_length : ℕ)
    → bytes_remaining offset start_offset bytes bundle_length ≤ bytes
unfolding bytes_remaining
remaining_le offset start_offset bytes bundle_length = ground arith

-- A peer has no bitmap, and the piece of a body starts at block `s`, among the first 256. The new
-- bitmap has the bits of all the blocks of the piece, if they are among the first 256; but where
-- `s` is odd and the body goes on behind the piece, the last of them is left out.
pub saw_transmitted_piece_first :
    (bundle_length bundle s bytes c : ℕ) (p : SendState)
    → p.request_bitmap_bundle ≡ none
    → s + bytes / 64 ≤ 256
    → test_bit (saw_transmitted_piece bundle_length bundle false (64 * s) bytes p).bitmaps c ≡ (
        leb s c
        && ltb
            (if s % 2 == 1 && ltb (64 * s + bytes) bundle_length then c + 1 else c)
            (s + bytes / 64))
saw_transmitted_piece_first bundle_length bundle s bytes c p e h =
    ap (λ q. test_bit q.bitmaps c)
      (first_piece bundle_length bundle (64 * s) bytes p e (omega arith))
    ∙ bits_of_piece (bytes_remaining (64 * s) (64 * s) bytes bundle_length / 64) (64 * s / 64) c
        (omega (arith, remaining_le (64 * s) (64 * s) bytes bundle_length))
    ∙ unfold bytes_remaining in ground arith

-- A peer has no bitmap, the piece is the 64 bytes of a block with an odd number, and the body goes
-- on behind it. Then the bitmap is reset, but no bit of it is set.
pub saw_transmitted_piece_odd :
    (bundle_length bundle s c : ℕ) (p : SendState)
    → p.request_bitmap_bundle ≡ none
    → s < 256
    → s % 2 ≡ 1
    → 64 * s + 64 < bundle_length
    → test_bit (saw_transmitted_piece bundle_length bundle false (64 * s) 64 p).bitmaps c ≡ false
saw_transmitted_piece_odd bundle_length bundle s c p e h odd more =
    saw_transmitted_piece_first bundle_length bundle s 64 c p e (omega arith) ∙ ground arith

-- A peer has no bitmap, and a piece of a body starts at 16384, the first block that the 256 bits
-- do not cover. It has a block and is not longer than 16 of them. Then the bit that is set is the
-- first one of the bitmap of the manifest, which comes next in memory.
pub saw_transmitted_piece_overflow :
    (bundle_length bundle bytes : ℕ) (p : SendState)
    → p.request_bitmap_bundle ≡ none
    → 64 ≤ bytes
    → bytes ≤ 1024
    → test_bit
        (saw_transmitted_piece bundle_length bundle false 16384 bytes p).bitmaps
        (manifest_bit 0)
      ≡ true
saw_transmitted_piece_overflow bundle_length bundle bytes p e few many =
    ap (λ q. test_bit q.bitmaps (manifest_bit 0))
      (first_piece bundle_length bundle 16384 bytes p e (omega arith))
    ∙ test_bit-mark_sent (bytes_remaining 16384 16384 bytes bundle_length / 64) 256 (replicate 34 0)
        256 (replicate-AreBytes 34)
        (omega (arith, remaining_le 16384 16384 bytes bundle_length, length-replicate 34 zero))
        (omega (arith, remaining_le 16384 16384 bytes bundle_length))
    ∙ unfold bytes_remaining in ground arith
