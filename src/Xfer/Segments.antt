-- ===== src/Xfer/Segments.antt =====
-- src/messages/bundle_piece.c and src/xfer/partials.c: the list of received segments of a
-- manifest or of a body. The list stands in descending order of offsets. A C list node is an
-- element of the list; `prev` is NULL or the node before, and serves only to write `next` of
-- that node a second time, so it has no place here. Offsets and lengths are values that an
-- `int` holds and that are not negative.
pub mod Invariant
pub mod Content
pub mod Coverage
pub mod Reassembly
mod Tests
use lbard.Prelude.{
  ℕ, ◌+◌, ◌-◌, List, [], ◌∷◌, ◌++◌, Bool, true, false, ltb, leb, ◌&&◌, if◌then◌else◌, take, drop,
}

-- `struct segment_list`; `bytes` is its `data`.
pub record Segment : Type 0 where
  pub start_offset : ℕ
  pub len : ℕ
  pub bytes : List ℕ

abbrev pub end_offset : Segment → ℕ
end_offset s = s.start_offset + s.len

-- What the search for the place of a piece leaves: the list, and the two variables that decide
-- on the report to the sender.
pub record Inserted : Type 0 where
  pub segments : List Segment
  pub new_bytes_in_piece : ℕ
  pub next_byte_would_be_useful : Bool

-- The piece as it stands in the packet: its offset, its length, and the memory it is copied from.
pub record Piece : Type 0 where
  pub piece_offset : ℕ
  pub piece_bytes : ℕ
  pub piece : List ℕ

abbrev pub piece_end : Piece → ℕ
piece_end p = p.piece_offset + p.piece_bytes

-- `calloc` of a new node.
pub new_segment : Piece → Segment
new_segment p = record {
  start_offset = p.piece_offset;
  len = p.piece_bytes;
  bytes = take p.piece_bytes p.piece;
}

-- "Need to stick bytes on the start".
pub extend_start : Piece → Segment → Segment
extend_start p s =
    if ltb p.piece_offset s.start_offset
    then record {
      start_offset = p.piece_offset;
      len = s.len + (s.start_offset - p.piece_offset);
      bytes = take (s.start_offset - p.piece_offset) p.piece ++ s.bytes;
    }
    else s

-- "Need to sick bytes on the end"; `segment_end` was read before the start was extended.
pub extend_end : Piece → ℕ → Segment → Segment
extend_end p segment_end s =
    let extra_bytes = piece_end p - segment_end in
    if ltb segment_end (piece_end p)
    then record s {
      len = s.len + extra_bytes;
      bytes = s.bytes ++ take extra_bytes (drop (p.piece_bytes - extra_bytes) p.piece);
    }
    else s

-- The branch of a segment that abuts or overlaps the piece. `a - b` stops at 0, and that is what
-- the two conditional additions to `new_bytes_in_piece` come to.
pub extend : Piece → Segment → Segment
unfolding extend_start extend_end
extend p s = extend_end p (end_offset s) (extend_start p s)

-- The `while(1)` loop of `saw_piece`.
pub insert_piece : Piece → List Segment → Inserted
insert_piece p [] = record {
  segments = new_segment p ∷ [];
  new_bytes_in_piece = p.piece_bytes;
  next_byte_would_be_useful = true;
}
insert_piece p (s ∷ rest) =
    let further = insert_piece p rest in
    if ltb (end_offset s) p.piece_offset
    then record {
      segments = new_segment p ∷ s ∷ rest;
      new_bytes_in_piece = p.piece_bytes;
      next_byte_would_be_useful = true;
    }
    else if leb s.start_offset p.piece_offset && leb (piece_end p) (end_offset s)
    then record { segments = s ∷ rest; new_bytes_in_piece = 0; next_byte_would_be_useful = false }
    else if ltb (piece_end p) s.start_offset
    then record further { segments = s ∷ further.segments }
    else record {
      segments = extend p s ∷ rest;
      new_bytes_in_piece = s.start_offset - p.piece_offset + (piece_end p - end_offset s);
      next_byte_would_be_useful = ltb (end_offset s) (piece_end p);
    }

-- "Merge this piece onto the end of the next piece". Where `me` ends before `next` does, the C
-- code would copy a negative number of bytes; here it is none.
pub join_segments : Segment → Segment → Segment
join_segments me next =
    let extra_bytes = end_offset me - end_offset next in
    record next {
      len = next.len + extra_bytes;
      bytes = next.bytes ++ take extra_bytes (drop (me.len - extra_bytes) me.bytes);
    }

-- The loop of `merge_segments`, with `*s` at `me`.
pub merge_from : Segment → List Segment → List Segment
merge_from me [] = me ∷ []
merge_from me (next ∷ rest) = elim (ltb (end_offset next) me.start_offset) [
  | true ↦ me ∷ merge_from next rest
  | false ↦ merge_from (join_segments me next) rest
]

-- `merge_segments`, without its return value, which no caller reads.
pub merge_segments : List Segment → List Segment
unfolding merge_from
merge_segments [] = []
merge_segments (me ∷ rest) = merge_from me rest
