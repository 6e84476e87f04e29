-- ===== src/Xfer/Segments/Content.antt =====
-- Reception keeps the bytes right: the segments stay parts of the file that the pieces are cut
-- from.
use lbard.Prelude.{
  ℕ, ◌+◌, ◌-◌, ◌≤◌, List, [], ◌∷◌, ◌≡◌, refl, ◌∙◌, arith, take, dec_lt, lt→ltb, le→ltb,
}
use lbard.Prelude.Slice.{
  slice, slice_cong, take_of_slice, take-drop_of_slice, append_of_slices, take_self,
}
use lbard.Xfer.Segments.{
  Segment, end_offset, Piece, piece_end, new_segment, extend, extend_start, extend_end,
  insert_piece, join_segments, merge_from, merge_segments,
}
use lbard.Xfer.Segments.Invariant.{
  IsMergeable, IsSeparated, join_segments-IsMergeable, insert_piece-IsMergeable, merge_from_last,
  merge_from_apart, merge_from_joins, receive,
}

-- The segment holds `len` bytes, and they are those of the file at its place.
abbrev pub IsPartOf : (ℕ → ℕ) → Segment → Type 0
IsPartOf f s = s.bytes ≡ slice f s.start_offset s.len

abbrev pub ArePartsOf : (ℕ → ℕ) → List Segment → Type 0
ArePartsOf f [] = Unit {0}
ArePartsOf f (s ∷ rest) = IsPartOf f s × ArePartsOf f rest

-- The memory that a piece is copied from holds at least the bytes of the file at its place.
abbrev pub IsCutFrom : (ℕ → ℕ) → Piece → Type 0
IsCutFrom f p = take p.piece_bytes p.piece ≡ slice f p.piece_offset p.piece_bytes

module _ (f : ℕ → ℕ) where
  join_segments-IsPartOf :
      (me next : Segment)
      → end_offset next ≤ end_offset me
      → me.start_offset ≤ end_offset next
      → IsPartOf f me
      → IsPartOf f next
      → IsPartOf f (join_segments me next)
  unfolding join_segments
  join_segments-IsPartOf me next e h pm pn =
      append_of_slices f next.bytes _ next.start_offset next.len
        (me.start_offset + (me.len - extra)) extra pn
        (take-drop_of_slice f me.bytes me.start_offset me.len extra
          (take_self f me.bytes me.start_offset me.len pm) (omega arith))
        (omega arith)
    where
      extra : ℕ
      extra = end_offset me - end_offset next

  extend_start-IsPartOf :
      (p : Piece) (s : Segment)
      → IsCutFrom f p
      → IsPartOf f s
      → s.start_offset ≤ piece_end p
      → IsPartOf f (extend_start p s)
  unfolding extend_start
  extend_start-IsPartOf p s c h b = elim (dec_lt p.piece_offset s.start_offset) [
    | yes lower ↦ rw (lt→ltb _ _ lower) (
        append_of_slices f _ s.bytes p.piece_offset extra s.start_offset s.len
          (take_of_slice f p.piece p.piece_offset p.piece_bytes extra c (omega arith)) h
          (omega arith)
        ∙ slice_cong f _ _ (extra + s.len) (s.len + extra) refl (omega arith))
    | no here ↦ rw (le→ltb p.piece_offset s.start_offset (omega arith)) h
  ]
    where
      extra : ℕ
      extra = s.start_offset - p.piece_offset

  extend_end-IsPartOf :
      (p : Piece) (s : Segment)
      → IsCutFrom f p
      → IsPartOf f s
      → p.piece_offset ≤ end_offset s
      → IsPartOf f (extend_end p (end_offset s) s)
  unfolding extend_end
  extend_end-IsPartOf p s c h a = elim (dec_lt (end_offset s) (piece_end p)) [
    | yes beyond ↦ rw (lt→ltb _ _ beyond) (
        append_of_slices f s.bytes _ s.start_offset s.len (p.piece_offset + (p.piece_bytes - extra))
          extra h (take-drop_of_slice f p.piece p.piece_offset p.piece_bytes extra c (omega arith))
          (omega arith))
    | no within ↦ rw (le→ltb (end_offset s) (piece_end p) (omega arith)) h
  ]
    where
      extra : ℕ
      extra = piece_end p - end_offset s

  end_offset-extend_start : (p : Piece) (s : Segment) → end_offset (extend_start p s) ≡ end_offset s
  unfolding extend_start
  end_offset-extend_start p s = ground arith

  extend_lem :
      (p : Piece) (s : Segment) → extend p s ≡ extend_end p (end_offset s) (extend_start p s)
  unfolding extend
  extend_lem p s = refl

  extend-IsPartOf :
      (p : Piece) (s : Segment)
      → IsCutFrom f p
      → IsPartOf f s
      → p.piece_offset ≤ end_offset s
      → s.start_offset ≤ piece_end p
      → IsPartOf f (extend p s)
  extend-IsPartOf p s c h a b =
      let e = end_offset-extend_start p s in
      rw (extend_lem p s, ← e)
        (extend_end-IsPartOf p (extend_start p s) c (extend_start-IsPartOf p s c h b) (omega arith))

  insert_piece-ArePartsOf :
      (p : Piece) (l : List Segment)
      → IsCutFrom f p
      → ArePartsOf f l
      → ArePartsOf f (insert_piece p l).segments
  unfolding insert_piece new_segment
  insert_piece-ArePartsOf p [] c h = (c, tt)
  insert_piece-ArePartsOf p (s ∷ rest) c h =
      ground (arith, extend-IsPartOf p s c h.0, insert_piece-ArePartsOf p rest c h.1)

  merge_from-ArePartsOf :
      (me : Segment) (rest : List Segment)
      → IsMergeable (me ∷ rest)
      → ArePartsOf f (me ∷ rest)
      → ArePartsOf f (merge_from me rest)
  merge_from-ArePartsOf me [] m h = rw (merge_from_last me) h
  merge_from-ArePartsOf me (next ∷ rest) m h = elim (dec_lt (end_offset next) me.start_offset) [
    | yes apart ↦
        rw (merge_from_apart me next rest apart) (h.0, merge_from-ArePartsOf next rest m.1 h.1)
    | no joins ↦ rw (merge_from_joins me next rest (omega arith)) (
        merge_from-ArePartsOf (join_segments me next) rest
          (join_segments-IsMergeable me next rest m)
          (join_segments-IsPartOf me next (omega arith) (omega arith) h.0 h.1.0, h.1.1))
  ]

  merge_segments-ArePartsOf :
      (l : List Segment) → IsMergeable l → ArePartsOf f l → ArePartsOf f (merge_segments l)
  unfolding merge_segments
  merge_segments-ArePartsOf [] m h = tt
  merge_segments-ArePartsOf (me ∷ rest) m h = merge_from-ArePartsOf me rest m h

  -- When a piece of a file is received, segments that stand apart and hold bytes of that file go
  -- on to hold bytes of that file, each at its place.
  pub receive-ArePartsOf :
      (p : Piece) (l : List Segment)
      → IsSeparated l
      → IsCutFrom f p
      → ArePartsOf f l
      → ArePartsOf f (receive p l)
  receive-ArePartsOf p l apart c h =
      merge_segments-ArePartsOf (insert_piece p l).segments (insert_piece-IsMergeable p l apart)
        (insert_piece-ArePartsOf p l c h)
