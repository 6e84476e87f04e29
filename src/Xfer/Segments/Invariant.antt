-- ===== src/Xfer/Segments/Invariant.antt =====
-- Reception keeps the segments apart, and in descending order.
use lbard.Prelude.{max, ℕ, ◌+◌, ◌≤◌, ◌<◌, List, [], ◌∷◌, ◌≡◌, refl, arith, dec_lt}
use lbard.Xfer.Segments.{
  Segment, end_offset, Piece, piece_end, new_segment, extend, insert_piece, join_segments,
  merge_from, merge_segments,
}

-- The first segment of the list ends below the bound.
abbrev pub HeadBelow : ℕ → List Segment → Type 0
HeadBelow b [] = Unit {0}
HeadBelow b (t ∷ rest) = end_offset t < b

-- Each segment begins after the end of the next one, with at least one byte between them.
abbrev pub IsSeparated : List Segment → Type 0
IsSeparated [] = Unit {0}
IsSeparated (s ∷ rest) = HeadBelow s.start_offset rest × IsSeparated rest

-- The ends descend. A segment may reach down over the ones below it: what the insertion of a
-- piece leaves for `merge_segments`.
abbrev pub IsMergeable : List Segment → Type 0
IsMergeable [] = Unit {0}
IsMergeable (s ∷ rest) = HeadBelow (end_offset s + 1) rest × IsMergeable rest

IsSeparated→IsMergeable : (l : List Segment) → IsSeparated l → IsMergeable l
IsSeparated→IsMergeable [] h = tt
IsSeparated→IsMergeable (s ∷ []) h = (tt, tt)
IsSeparated→IsMergeable (s ∷ t ∷ rest) h = (omega arith, IsSeparated→IsMergeable (t ∷ rest) h.1)

HeadBelow-mono : (a b : ℕ) (l : List Segment) → a ≤ b → HeadBelow a l → HeadBelow b l
HeadBelow-mono a b [] h k = tt
HeadBelow-mono a b (t ∷ rest) h k = omega arith

-- `me` and `next` joined end where `me` ends.
pub end_offset-join_segments :
    (me next : Segment)
    → end_offset next ≤ end_offset me
    → end_offset (join_segments me next) ≡ end_offset me
unfolding join_segments
end_offset-join_segments me next h = omega arith

pub merge_from_last : (me : Segment) → merge_from me [] ≡ me ∷ []
unfolding merge_from
merge_from_last me = refl

pub merge_from_apart :
    (me next : Segment) (rest : List Segment)
    → end_offset next < me.start_offset
    → merge_from me (next ∷ rest) ≡ me ∷ merge_from next rest
unfolding merge_from
merge_from_apart me next rest h = ground arith

pub merge_from_joins :
    (me next : Segment) (rest : List Segment)
    → me.start_offset ≤ end_offset next
    → merge_from me (next ∷ rest) ≡ merge_from (join_segments me next) rest
unfolding merge_from
merge_from_joins me next rest h = ground arith

pub join_segments-IsMergeable :
    (me next : Segment) (rest : List Segment)
    → IsMergeable (me ∷ next ∷ rest)
    → IsMergeable (join_segments me next ∷ rest)
join_segments-IsMergeable me next rest m =
    let e = end_offset-join_segments me next (omega arith) in
    (
      HeadBelow-mono (end_offset next + 1) (end_offset (join_segments me next) + 1) rest
          (omega arith) m.1.0,
      m.1.1,
    )

HeadBelow-merge_from :
    (b : ℕ) (me : Segment) (rest : List Segment)
    → IsMergeable (me ∷ rest)
    → end_offset me < b
    → HeadBelow b (merge_from me rest)
unfolding merge_from
HeadBelow-merge_from b me [] m h = h
HeadBelow-merge_from b me (next ∷ rest) m h = elim (dec_lt (end_offset next) me.start_offset) [
  | yes apart ↦ rw (merge_from_apart me next rest apart) h
  | no joins ↦
      let e = end_offset-join_segments me next (omega arith) in
      rw (merge_from_joins me next rest (omega arith)) (
        HeadBelow-merge_from b (join_segments me next) rest
          (join_segments-IsMergeable me next rest m) (omega arith))
]

merge_from-IsSeparated :
    (me : Segment) (rest : List Segment)
    → IsMergeable (me ∷ rest)
    → IsSeparated (merge_from me rest)
unfolding merge_from
merge_from-IsSeparated me [] m = (tt, tt)
merge_from-IsSeparated me (next ∷ rest) m = elim (dec_lt (end_offset next) me.start_offset) [
  | yes apart ↦ rw (merge_from_apart me next rest apart) (
    HeadBelow-merge_from me.start_offset next rest m.1 apart,
    merge_from-IsSeparated next rest m.1,
  )
  | no joins ↦ rw (merge_from_joins me next rest (omega arith)) (
      merge_from-IsSeparated (join_segments me next) rest
        (join_segments-IsMergeable me next rest m))
]

-- `merge_segments` separates any list whose ends descend.
pub merge_segments-IsSeparated : (l : List Segment) → IsMergeable l → IsSeparated (merge_segments l)
unfolding merge_segments
merge_segments-IsSeparated [] m = tt
merge_segments-IsSeparated (me ∷ rest) m = merge_from-IsSeparated me rest m

pub end_offset-extend :
    (p : Piece) (s : Segment)
    → s.start_offset ≤ piece_end p
    → end_offset (extend p s) ≡ max (piece_end p) (end_offset s)
unfolding extend
end_offset-extend p s h = ground arith

HeadBelow-insert_piece :
    (b : ℕ) (p : Piece) (l : List Segment)
    → piece_end p < b
    → HeadBelow b l
    → HeadBelow b (insert_piece p l).segments
unfolding insert_piece new_segment
HeadBelow-insert_piece b p [] h k = h
HeadBelow-insert_piece b p (s ∷ rest) h k = ground (arith, end_offset-extend p s)

pub insert_piece-IsMergeable :
    (p : Piece) (l : List Segment) → IsSeparated l → IsMergeable (insert_piece p l).segments
unfolding insert_piece new_segment
insert_piece-IsMergeable p [] h = (tt, tt)
insert_piece-IsMergeable p (s ∷ rest) h = ground (
  arith,
  end_offset-extend p s,
  insert_piece-IsMergeable p rest h.1,
  HeadBelow-insert_piece s.start_offset p rest,
  IsSeparated→IsMergeable rest h.1,
)

-- The segments that a piece leaves after `insert_piece` and `merge_segments`.
abbrev pub receive : Piece → List Segment → List Segment
receive p l = merge_segments (insert_piece p l).segments

-- Segments that stand apart and in descending order do so again after a piece has been received.
pub receive-IsSeparated : (p : Piece) (l : List Segment) → IsSeparated l → IsSeparated (receive p l)
receive-IsSeparated p l h =
    merge_segments-IsSeparated (insert_piece p l).segments (insert_piece-IsMergeable p l h)
