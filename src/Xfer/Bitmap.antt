-- ===== src/Xfer/Bitmap.antt =====
-- src/xfer/progress_bitmaps.c: the bitmaps of 64-byte blocks that a receiver asks by.
pub mod Marks
pub mod Request
mod Tests
use lbard.Prelude.{
  ℕ, zero, suc, ◌+◌, ◌-◌, ◌*◌, ◌/◌, ◌%◌, List, [], ◌∷◌, Option, none, some, Bool, true, false, ltb,
  leb, ◌==◌, ◌&&◌, ◌||◌, not, if◌then◌else◌, replicate, get_or,
}
use lbard.Xfer.Segments.{Segment, end_offset}
use lbard.Xfer.Bits.{mark_bit, test_bit}

-- Blocks of the body's bitmap, and of the manifest's.
abbrev pub body_blocks : ℕ
body_blocks = 256

abbrev pub manifest_blocks : ℕ
manifest_blocks = 16

-- `while(l&&l->next) l=l->next`, then `if (!l->start_offset) starting_position=l->length`.
pub starting_position : List Segment → ℕ
starting_position [] = 0
starting_position (l ∷ []) = if l.start_offset == 0 then l.len else 0
starting_position (l ∷ m ∷ rest) = starting_position (m ∷ rest)

-- `if (start&63) start+=trim` with `trim=64-(start&63)`. The `int` `length` goes down by as much,
-- below 0 if need be: below it is `finish - start`, with `finish` the sum `start+length`.
pub trim : ℕ → ℕ
trim start = if start % 64 == 0 then start else start + (64 - start % 64)

-- `while (length>=64&&(block<limit))`. `rounds` is `limit - block`, `finish` is `start+length`
-- (`start` stays and `length` falls). The result is the bitmap and the last `finish`.
pub mark_blocks : ℕ → ℕ → ℕ → ℕ → List ℕ → List ℕ × ℕ
mark_blocks zero start finish block bitmap = (bitmap, finish)
mark_blocks (suc rounds) start finish block bitmap =
    let more = mark_blocks rounds start (finish - 64) (block + 1) (mark_bit bitmap block) in
    if leb (start + 64) finish then more else (bitmap, finish)

-- One round of `while(l)` over the body's segments.
pub mark_segment : ℕ → Segment → List ℕ → List ℕ
mark_segment position l bitmap =
    let start = trim l.start_offset in
    let block = (start - position) / 64 in
    if leb position l.start_offset && leb l.start_offset (position + 32 * 8 * 64)
    then (mark_blocks (body_blocks - block) start (end_offset l) block bitmap).0
    else bitmap

pub mark_segments : ℕ → List Segment → List ℕ → List ℕ
mark_segments position [] bitmap = bitmap
mark_segments position (l ∷ rest) bitmap =
    mark_segments position rest (mark_segment position l bitmap)

-- The body's part of `partial_update_request_bitmap`: `request_bitmap_start`, `request_bitmap`.
pub request_bitmap : List Segment → ℕ × List ℕ
request_bitmap body_segments =
    let position = starting_position body_segments in
    (position, mark_segments position body_segments (replicate 32 0))

-- `while(block<16)`: every block from `block` on is marked; `rounds` is `16 - block`.
pub mark_rest : ℕ → ℕ → List ℕ → List ℕ
mark_rest zero block bitmap = bitmap
mark_rest (suc rounds) block bitmap = mark_rest rounds (block + 1) (mark_bit bitmap block)

-- "If the segment covers the last part of the manifest, but isn't a multiple of 64 bytes".
-- `manifest_length` is `none` where it is -1.
pub mark_end_piece : Option ℕ → ℕ → List ℕ → List ℕ
mark_end_piece none finish bitmap = bitmap
mark_end_piece (some manifest_length) finish bitmap =
    if finish == manifest_length && not (manifest_length % 64 == 0)
    then mark_rest (manifest_blocks - finish / 64) (finish / 64) bitmap
    else bitmap

-- "Mark last piece of manifest as sent for case where manifest is not a multiple of 64 bytes".
pub mark_last_piece : Option ℕ → List ℕ × ℕ → List ℕ
mark_last_piece none (bitmap, finish) = bitmap
mark_last_piece (some manifest_length) (bitmap, finish) =
    if ltb 0 manifest_length && finish == manifest_length
    then mark_rest (manifest_blocks - manifest_length / 64) (manifest_length / 64) bitmap
    else bitmap

pub mark_manifest_segment : Option ℕ → Segment → List ℕ → List ℕ
mark_manifest_segment manifest_length l bitmap =
    let start = trim l.start_offset in
    let block = start / 64 in
    if leb l.start_offset 1024
    then mark_last_piece manifest_length (
        mark_blocks (manifest_blocks - block) start (end_offset l) block
          (mark_end_piece manifest_length (end_offset l) bitmap))
    else bitmap

pub mark_manifest_segments : Option ℕ → List Segment → List ℕ → List ℕ
mark_manifest_segments manifest_length [] bitmap = bitmap
mark_manifest_segments manifest_length (l ∷ rest) bitmap =
    mark_manifest_segments manifest_length rest (mark_manifest_segment manifest_length l bitmap)

-- The manifest's part of `partial_update_request_bitmap`: `request_manifest_bitmap`.
pub request_manifest_bitmap : Option ℕ → List Segment → List ℕ
request_manifest_bitmap manifest_length manifest_segments =
    mark_manifest_segments manifest_length manifest_segments (replicate 2 0)
