-- ===== src/Xfer/Segments/Coverage.antt =====
-- Which bytes are held after a piece has been received.
use lbard.Prelude.{ℕ, ◌≤◌, ◌<◌, List, [], ◌∷◌, ◌≡◌, min, ◌⊎◌, ◌↔◌, arith, dec_lt}
use lbard.Xfer.Segments.{
  Segment, end_offset, Piece, piece_end, new_segment, extend, insert_piece, join_segments,
  merge_from, merge_segments,
}
use lbard.Xfer.Segments.Invariant.{
  end_offset-extend, IsSeparated, merge_from_last, merge_from_apart, merge_from_joins, receive,
}

-- The byte at offset `i` is in one of the segments; it is in the piece.
abbrev pub IsIn : ℕ → Segment → Type 0
IsIn i s = (s.start_offset ≤ i) × (i < end_offset s)

abbrev pub Holds : ℕ → List Segment → Type 0
Holds i [] = ⊥
Holds i (s ∷ rest) = IsIn i s ⊎ Holds i rest

abbrev pub InPiece : ℕ → Piece → Type 0
InPiece i p = (p.piece_offset ≤ i) × (i < piece_end p)

abbrev HeadStartsBy : ℕ → List Segment → Type 0
HeadStartsBy b [] = Unit {0}
HeadStartsBy b (t ∷ rest) = t.start_offset ≤ b

abbrev StartsDescend : List Segment → Type 0
StartsDescend [] = Unit {0}
StartsDescend (s ∷ rest) = HeadStartsBy s.start_offset rest × StartsDescend rest

-- Below a segment that the piece reaches, the next segment does not start within the piece.
abbrev pub OverrunsNone : Piece → List Segment → Type 0
OverrunsNone p [] = Unit {0}
OverrunsNone p (s ∷ rest) =
    (s.start_offset ≤ piece_end p → HeadStartsBy p.piece_offset rest) × OverrunsNone p rest

extend_spans :
    (p : Piece) (s : Segment) (i : ℕ)
    → p.piece_offset ≤ end_offset s
    → s.start_offset ≤ piece_end p
    → IsIn i (extend p s) ↔ (IsIn i s ⊎ InPiece i p)
unfolding extend
extend_spans p s i a b = ground arith

-- The insertion holds exactly what was held and the piece.
insert_piece-Holds :
    (p : Piece) (l : List Segment) (i : ℕ)
    → Holds i (insert_piece p l).segments ↔ (Holds i l ⊎ InPiece i p)
unfolding insert_piece new_segment
insert_piece-Holds p [] i = ground arith
insert_piece-Holds p (s ∷ rest) i = ground (arith, extend_spans p s i, insert_piece-Holds p rest i)

join_segments_within :
    (me next : Segment) (i : ℕ)
    → me.start_offset ≤ end_offset next
    → IsIn i (join_segments me next)
    → IsIn i me ⊎ IsIn i next
unfolding join_segments
join_segments_within me next i a b = ground arith

start-join_segments :
    (me next : Segment) (rest : List Segment)
    → StartsDescend (next ∷ rest)
    → StartsDescend (join_segments me next ∷ rest)
unfolding join_segments
start-join_segments me next rest d = d

join_segments_spans :
    (me next : Segment) (i : ℕ)
    → next.start_offset ≤ me.start_offset
    → IsIn i me ⊎ IsIn i next
    → IsIn i (join_segments me next)
unfolding join_segments
join_segments_spans me next i a b = ground arith

merge_from_within :
    (me : Segment) (rest : List Segment) (i : ℕ)
    → Holds i (merge_from me rest)
    → Holds i (me ∷ rest)
merge_from_within me [] i h = rw merge_from_last at h
merge_from_within me (next ∷ rest) i h = elim (dec_lt (end_offset next) me.start_offset) [
  | yes apart ↦
      ground (arith, merge_from_within next rest i, rw (merge_from_apart me next rest apart) at h)
  | no joins ↦ ground (
    arith,
    merge_from_within (join_segments me next) rest i,
    join_segments_within me next i,
    rw (merge_from_joins me next rest (omega arith)) at h,
  )
]

merge_from_spans :
    (me : Segment) (rest : List Segment) (i : ℕ)
    → StartsDescend (me ∷ rest)
    → Holds i (me ∷ rest)
    → Holds i (merge_from me rest)
merge_from_spans me [] i d h = rw merge_from_last h
merge_from_spans me (next ∷ rest) i d h = elim (dec_lt (end_offset next) me.start_offset) [
  | yes apart ↦
      rw (merge_from_apart me next rest apart) (ground (arith, merge_from_spans next rest i))
  | no joins ↦ rw (merge_from_joins me next rest (omega arith)) (
      merge_from_spans (join_segments me next) rest i (start-join_segments me next rest d.1)
        (ground (arith, join_segments_spans me next i)))
]

merge_segments_within : (l : List Segment) (i : ℕ) → Holds i (merge_segments l) → Holds i l
unfolding merge_segments
merge_segments_within [] i h = h
merge_segments_within (me ∷ rest) i h = merge_from_within me rest i h

merge_segments_spans :
    (l : List Segment) (i : ℕ) → StartsDescend l → Holds i l → Holds i (merge_segments l)
unfolding merge_segments
merge_segments_spans [] i d h = h
merge_segments_spans (me ∷ rest) i d h = merge_from_spans me rest i d h

IsSeparated→StartsDescend : (l : List Segment) → IsSeparated l → StartsDescend l
IsSeparated→StartsDescend [] h = tt
IsSeparated→StartsDescend (s ∷ []) h = (tt, tt)
IsSeparated→StartsDescend (s ∷ t ∷ rest) h = (omega arith, IsSeparated→StartsDescend (t ∷ rest) h.1)

start-extend :
    (p : Piece) (s : Segment) → (extend p s).start_offset ≡ min p.piece_offset s.start_offset
unfolding extend
start-extend p s = ground arith

HeadStartsBy-insert_piece :
    (b : ℕ) (p : Piece) (l : List Segment)
    → p.piece_offset ≤ b
    → HeadStartsBy b l
    → HeadStartsBy b (insert_piece p l).segments
unfolding insert_piece new_segment
HeadStartsBy-insert_piece b p [] h k = h
HeadStartsBy-insert_piece b p (s ∷ rest) h k = ground (arith, start-extend p s)

HeadStartsBy-extend :
    (p : Piece) (s : Segment) (rest : List Segment)
    → HeadStartsBy p.piece_offset rest
    → HeadStartsBy s.start_offset rest
    → HeadStartsBy (extend p s).start_offset rest
HeadStartsBy-extend p s [] h k = tt
HeadStartsBy-extend p s (t ∷ rest) h k = omega (arith, start-extend p s)

insert_piece-StartsDescend :
    (p : Piece) (l : List Segment)
    → IsSeparated l
    → OverrunsNone p l
    → StartsDescend (insert_piece p l).segments
unfolding insert_piece new_segment
insert_piece-StartsDescend p [] h o = (tt, tt)
insert_piece-StartsDescend p (s ∷ rest) h o = ground (
  arith,
  IsSeparated→StartsDescend (s ∷ rest) h,
  HeadStartsBy-extend p s rest,
  HeadStartsBy-insert_piece s.start_offset p rest,
  insert_piece-StartsDescend p rest h.1 o.1,
)

insert_piece_reaches :
    (p : Piece) (s : Segment) (rest : List Segment)
    → p.piece_offset < s.start_offset
    → s.start_offset ≤ piece_end p
    → (insert_piece p (s ∷ rest)).segments ≡ extend p s ∷ rest
unfolding insert_piece
insert_piece_reaches p s rest a b = ground arith

-- No byte is made up: what is held after a piece has been received was held before, or is in the
-- piece.
pub receive_within :
    (p : Piece) (l : List Segment) (i : ℕ) → Holds i (receive p l) → Holds i l ⊎ InPiece i p
receive_within p l i h =
    (insert_piece-Holds p l i).0 (merge_segments_within (insert_piece p l).segments i h)

-- On segments that stand apart, a piece that does not run over the start of a segment below the
-- one that it reaches is received in full: after it, exactly the bytes are held that were held
-- before or that are in the piece.
pub receive-Holds :
    (p : Piece) (l : List Segment) (i : ℕ)
    → IsSeparated l
    → OverrunsNone p l
    → Holds i (receive p l) ↔ (Holds i l ⊎ InPiece i p)
receive-Holds p l i h o = (
  receive_within p l i,
  λ k.
      merge_segments_spans (insert_piece p l).segments i (insert_piece-StartsDescend p l h o)
        ((insert_piece-Holds p l i).1 k),
)

merge_swallowed :
    (me next : Segment) (i : ℕ)
    → i < next.start_offset
    → next.start_offset ≤ end_offset me
    → me.start_offset ≤ i
    → ¬ Holds i (merge_segments (me ∷ next ∷ []))
unfolding merge_segments merge_from join_segments
merge_swallowed me next i h k b = ground arith

-- A piece that reaches the upper one of two segments and starts below the lower one is not
-- received in full: its first byte is missing afterwards.
pub receive_loses :
    (p : Piece) (upper lower : Segment)
    → IsSeparated (upper ∷ lower ∷ [])
    → p.piece_offset < lower.start_offset
    → upper.start_offset ≤ piece_end p
    → ¬ Holds p.piece_offset (receive p (upper ∷ lower ∷ []))
receive_loses p upper lower h a b =
    let e = start-extend p upper in
    rw (insert_piece_reaches p upper (lower ∷ []) (omega arith) b) (
      merge_swallowed (extend p upper) lower p.piece_offset a
        (omega (arith, end_offset-extend p upper b)) (omega arith))
