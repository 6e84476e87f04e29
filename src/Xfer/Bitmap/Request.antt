-- ===== src/Xfer/Bitmap/Request.antt =====
-- The bitmap of the body says of each block in its window whether it has been received.
use lbard.Prelude.{
  ℕ, ◌+◌, ◌-◌, ◌*◌, ◌/◌, ◌%◌, ◌≤◌, ◌<◌, List, [], ◌∷◌, ◌≡◌, ◌↔◌, ◌⊎◌, inl, inr, sym, ◌∙◌, true,
  arith, ◌==◌, if◌then◌else◌, ◌≢◌, replicate, dec_le,
}
use mathlib.Core.Bool.{false≢true}
use lbard.Xfer.Segments.{Segment, end_offset}
use lbard.Xfer.Segments.Invariant.{HeadBelow, IsSeparated}
use lbard.Xfer.Segments.Coverage.{Holds}
use lbard.Xfer.Bits.{test_bit, test_bit-replicate}
use lbard.Xfer.Bitmap.{request_bitmap, starting_position, mark_segment, mark_segments, trim}
use lbard.Xfer.Bitmap.Marks.{
  BlockIn, BlockMarked, test_bit-mark_blocks, test_bit-mark_segments, empty-IsBitmap,
}

-- All 64 bytes of block `c`, counted from `position`, are held.
abbrev pub BlockHeld : ℕ → ℕ → List Segment → Type 0
BlockHeld position c l = (i : ℕ) → position + 64 * c ≤ i → i < position + 64 * c + 64 → Holds i l

Holds-lt : (i b : ℕ) (l : List Segment) → IsSeparated l → HeadBelow b l → Holds i l → i + 1 < b
Holds-lt i b [] h k m = absurd m
Holds-lt i b (s ∷ rest) h k (inl m) = omega arith
Holds-lt i b (s ∷ rest) h k (inr m) = omega (arith, Holds-lt i s.start_offset rest h.1 h.0 m)

starting_position-le :
    (s : Segment) (rest : List Segment)
    → IsSeparated (s ∷ rest)
    → starting_position (s ∷ rest) ≤ end_offset s
unfolding starting_position
starting_position-le s [] h = ground arith
starting_position-le s (t ∷ rest) h = omega (arith, starting_position-le t rest h.1)

-- A segment that holds a block of the window starts within the window.
BlockIn→start :
    (c : ℕ) (s : Segment) (rest : List Segment)
    → IsSeparated (s ∷ rest)
    → BlockIn (starting_position (s ∷ rest)) c s
    → starting_position (s ∷ rest) ≤ s.start_offset
unfolding starting_position
BlockIn→start c s [] h b = ground arith
BlockIn→start c s (t ∷ rest) h b = omega (arith, starting_position-le t rest h.1)

BlockMarked→Holds :
    (position c i : ℕ) (l : List Segment)
    → BlockMarked position c l
    → position + 64 * c ≤ i
    → i < position + 64 * c + 64
    → Holds i l
BlockMarked→Holds position c i [] m a b = m
BlockMarked→Holds position c i (s ∷ rest) (inl m) a b = inl (omega arith, omega arith)
BlockMarked→Holds position c i (s ∷ rest) (inr m) a b =
    inr (BlockMarked→Holds position c i rest m a b)

-- One segment holds the whole block.
abbrev BlockWithin : ℕ → ℕ → List Segment → Type 0
BlockWithin position c [] = ⊥
BlockWithin position c (s ∷ rest) = BlockIn position c s ⊎ BlockWithin position c rest

in_rest :
    (i : ℕ) (s : Segment) (rest : List Segment)
    → i < s.start_offset
    → Holds i (s ∷ rest)
    → Holds i rest
in_rest i s rest h (inl m) = absurd (omega arith)
in_rest i s rest h (inr m) = m

-- Between segments that stand apart there is a gap, so bytes in a row are in one of them.
BlockHeld→BlockWithin :
    (position c : ℕ) (l : List Segment)
    → IsSeparated l
    → BlockHeld position c l
    → BlockWithin position c l
BlockHeld→BlockWithin position c [] h b = b (position + 64 * c) (omega arith) (omega arith)
BlockHeld→BlockWithin position c (s ∷ rest) h b =
    elim (b (position + 64 * c + 63) (omega arith) (omega arith)) [
      | inl top ↦ elim (dec_le s.start_offset (position + 64 * c)) [
        | yes low ↦ inl (low, omega arith)
        | no high ↦ absurd (
            omega (
              arith,
              Holds-lt (s.start_offset - 1) s.start_offset rest h.1 h.0 (
                  in_rest (s.start_offset - 1) s rest (omega arith)
                    (b (s.start_offset - 1) (omega arith) (omega arith))),
            ))
      ]
      | inr lower ↦
          let e = Holds-lt (position + 64 * c + 63) s.start_offset rest h.1 h.0 lower in
          inr (
            BlockHeld→BlockWithin position c rest h.1
              (λ i p q. in_rest i s rest (omega arith) (b i p q)))
    ]

BlockWithin→BlockMarked :
    (c : ℕ) (l : List Segment)
    → IsSeparated l
    → BlockWithin (starting_position l) c l
    → BlockMarked (starting_position l) c l
unfolding starting_position
BlockWithin→BlockMarked c [] h b = b
BlockWithin→BlockMarked c (s ∷ rest) h (inl b) = inl (BlockIn→start c s rest h b, b)
BlockWithin→BlockMarked c (s ∷ []) h (inr b) = inr b
BlockWithin→BlockMarked c (s ∷ t ∷ rest) h (inr b) =
    inr (BlockWithin→BlockMarked c (t ∷ rest) h.1 b)

-- Where the first missing byte is at a multiple of 64, a bit of the bitmap that is sent is set
-- exactly when all the 64 bytes of its block are held.
pub request_bitmap_lem :
    (l : List Segment) (c : ℕ)
    → IsSeparated l
    → starting_position l % 64 ≡ 0
    → c < 256
    → (test_bit (request_bitmap l).1 c ≡ true) ↔ BlockHeld (request_bitmap l).0 c l
unfolding request_bitmap
request_bitmap_lem l c h p k =
    let marks =
      test_bit-mark_segments (starting_position l) l (replicate 32 0) c empty-IsBitmap p k in
    (
      λ e. elim (marks.0 e) [
        | inl m ↦ λ i. BlockMarked→Holds (starting_position l) c i l m
        | inr m ↦ absurd (false≢true (sym (test_bit-replicate 32 c) ∙ m))
      ],
      λ b. marks.1 (
          inl
            (BlockWithin→BlockMarked c l h (BlockHeld→BlockWithin (starting_position l) c l h b))),
    )

upper_marked :
    (position : ℕ) (upper : Segment)
    → position ≤ upper.start_offset
    → upper.start_offset % 64 ≡ 0
    → 64 ≤ upper.len
    → (upper.start_offset - position) / 64 < 256
    → test_bit (mark_segment position upper (replicate 32 0)) ((upper.start_offset - position) / 64)
      ≡ true
unfolding mark_segment trim
upper_marked position upper a b m k = ground (
  arith,
  test_bit-mark_blocks 256 (256 - (upper.start_offset - position) / 64) upper.start_offset
      (end_offset upper) ((upper.start_offset - position) / 64) (replicate 32 0)
      ((upper.start_offset - position) / 64) empty-IsBitmap,
)

mark_segment_below :
    (position : ℕ) (l : Segment) (bm : List ℕ)
    → l.start_offset < position
    → mark_segment position l bm ≡ bm
unfolding mark_segment
mark_segment_below position l bm h = ground arith

-- Where the bytes from the start on that have been received do not end at a multiple of 64, and a
-- later segment starts at one, the bit of the block before that segment's first whole block is
-- set, though bytes of it are missing.
pub request_bitmap_misaligned :
    (upper first : Segment)
    → IsSeparated (upper ∷ first ∷ [])
    → first.start_offset ≡ 0
    → first.len % 64 ≢ 0
    → upper.start_offset % 64 ≡ 0
    → 64 ≤ upper.len
    → upper.start_offset < first.len + 64 * 256
    → (test_bit (request_bitmap (upper ∷ first ∷ [])).1 ((upper.start_offset - first.len) / 64)
        ≡ true)
      × ¬ BlockHeld
          (request_bitmap (upper ∷ first ∷ [])).0
          ((upper.start_offset - first.len) / 64)
          (upper ∷ first ∷ [])
unfolding request_bitmap starting_position mark_segments
request_bitmap_misaligned upper first h z odd even long near =
    let p : (if first.start_offset == 0 then first.len else 0) ≡ first.len = ground arith in
    rw
      (
        p,
        mark_segment_below first.len first (mark_segment first.len upper (replicate 32 0))
            (omega arith),
      )
      ((
        upper_marked first.len upper (omega arith) even long (omega arith),
        λ b.
            elim (b (first.len + 64 * ((upper.start_offset - first.len) / 64)) (omega arith)
              (omega arith)) [ inl u ↦ omega arith | inr (inl f) ↦ omega arith | inr (inr m) ↦ m ],
      ))
