-- ===== src/Xfer/Bitmap/Marks.antt =====
-- What the marking loops mark.
use lbard.Prelude.{
  ℕ, zero, suc, ◌+◌, ◌-◌, ◌*◌, ◌/◌, ◌%◌, ◌≤◌, ◌<◌, List, [], ◌∷◌, ◌≡◌, ◌↔◌, ◌⊎◌, refl, true, ltb,
  leb, ◌&&◌, ◌||◌, arith, length, replicate,
}
use lbard.Xfer.Segments.{Segment, end_offset}
use lbard.Xfer.Bits.{
  AreBytes, mark_bit, test_bit, mark_bit-AreBytes, length-mark_bit, test_bit-mark_bit,
  replicate-AreBytes,
}
use lbard.Xfer.Bitmap.{mark_blocks, mark_segment, mark_segments, trim}

-- A bitmap of `n` bits.
abbrev pub IsBitmap : ℕ → List ℕ → Type 0
IsBitmap n bm = AreBytes bm × (8 * length bm ≡ n)

mark_bit-IsBitmap : (n : ℕ) (bm : List ℕ) (b : ℕ) → IsBitmap n bm → IsBitmap n (mark_bit bm b)
mark_bit-IsBitmap n bm b h = (mark_bit-AreBytes bm b h.0, omega (arith, length-mark_bit bm b))

mark_blocks-IsBitmap :
    (n rounds start finish block : ℕ) (bm : List ℕ)
    → IsBitmap n bm
    → IsBitmap n (mark_blocks rounds start finish block bm).0
unfolding mark_blocks
mark_blocks-IsBitmap n zero start finish block bm h = h
mark_blocks-IsBitmap n (suc rounds) start finish block bm h = ground (
  arith,
  mark_blocks-IsBitmap n rounds start (finish - 64) (block + 1) (mark_bit bm block)
      (mark_bit-IsBitmap n bm block h),
)

-- The loop marks the blocks that fit between `start` and `finish`, counted from `block` on.
pub test_bit-mark_blocks :
    (n rounds start finish block : ℕ) (bm : List ℕ) (c : ℕ)
    → IsBitmap n bm
    → block + rounds ≤ n
    → test_bit (mark_blocks rounds start finish block bm).0 c ≡ (
        leb block c && ltb c (block + rounds) && leb (start + 64 * (c - block) + 64) finish
        || test_bit bm c)
unfolding mark_blocks
test_bit-mark_blocks n zero start finish block bm c h k = ground arith
test_bit-mark_blocks n (suc rounds) start finish block bm c h k = ground (
  arith,
  test_bit-mark_blocks n rounds start (finish - 64) (block + 1) (mark_bit bm block) c
      (mark_bit-IsBitmap n bm block h),
  test_bit-mark_bit bm block c h.0,
)

mark_segment-IsBitmap :
    (position : ℕ) (l : Segment) (bm : List ℕ)
    → IsBitmap 256 bm
    → IsBitmap 256 (mark_segment position l bm)
unfolding mark_segment
mark_segment-IsBitmap position l bm h = ground (
  arith,
  mark_blocks-IsBitmap 256 (256 - (trim l.start_offset - position) / 64) (trim l.start_offset)
      (end_offset l) ((trim l.start_offset - position) / 64) bm h,
)

-- The 64 bytes of block `c`, counted from `position`, are all in the segment.
abbrev pub BlockIn : ℕ → ℕ → Segment → Type 0
BlockIn position c l =
    (l.start_offset ≤ position + 64 * c) × (position + 64 * c + 64 ≤ end_offset l)

-- The marks of a segment, where the window starts at a multiple of 64.
test_bit-mark_segment :
    (position : ℕ) (l : Segment) (bm : List ℕ) (c : ℕ)
    → IsBitmap 256 bm
    → position % 64 ≡ 0
    → c < 256
    → (test_bit (mark_segment position l bm) c ≡ true)
      ↔ (((position ≤ l.start_offset) × BlockIn position c l) ⊎ (test_bit bm c ≡ true))
unfolding mark_segment trim
test_bit-mark_segment position l bm c h p k = ground (
  arith,
  test_bit-mark_blocks 256 (256 - (trim l.start_offset - position) / 64) (trim l.start_offset)
      (end_offset l) ((trim l.start_offset - position) / 64) bm c h,
)

abbrev pub BlockMarked : ℕ → ℕ → List Segment → Type 0
BlockMarked position c [] = ⊥
BlockMarked position c (l ∷ rest) =
    ((position ≤ l.start_offset) × BlockIn position c l) ⊎ BlockMarked position c rest

pub test_bit-mark_segments :
    (position : ℕ) (l : List Segment) (bm : List ℕ) (c : ℕ)
    → IsBitmap 256 bm
    → position % 64 ≡ 0
    → c < 256
    → (test_bit (mark_segments position l bm) c ≡ true)
      ↔ (BlockMarked position c l ⊎ (test_bit bm c ≡ true))
unfolding mark_segments
test_bit-mark_segments position [] bm c h p k = ground arith
test_bit-mark_segments position (l ∷ rest) bm c h p k = ground (
  arith,
  test_bit-mark_segment position l bm c h p k,
  test_bit-mark_segments position rest (mark_segment position l bm) c
      (mark_segment-IsBitmap position l bm h) p k,
)

pub empty-IsBitmap : IsBitmap 256 (replicate 32 0)
empty-IsBitmap = (replicate-AreBytes 32, refl)
