-- ===== src/Xfer/Segments/Reassembly.antt =====
-- A whole transfer: the pieces of a file, in the order in which they happen to arrive.
use lbard.Prelude.{ℕ, List, [], ◌∷◌, ◌≡◌, ◌∙◌, ap, All}
use mathlib.Core.Path.{subst}
use lbard.Prelude.Slice.{slice}
use lbard.Xfer.Segments.{Segment, Piece}
use lbard.Xfer.Segments.Invariant.{IsSeparated, receive, receive-IsSeparated}
use lbard.Xfer.Segments.Content.{ArePartsOf, IsCutFrom, receive-ArePartsOf}

-- The segments after the pieces, the first of which arrives first.
unfoldable pub receive_all : List Segment → List Piece → List Segment
receive_all l [] = l
receive_all l (p ∷ ps) = receive_all (receive p l) ps

receive_all-IsSeparated :
    (l : List Segment) (ps : List Piece) → IsSeparated l → IsSeparated (receive_all l ps)
unfolding receive_all
receive_all-IsSeparated l [] h = h
receive_all-IsSeparated l (p ∷ ps) h =
    receive_all-IsSeparated (receive p l) ps (receive-IsSeparated p l h)

receive_all-ArePartsOf :
    (f : ℕ → ℕ) (l : List Segment) (ps : List Piece)
    → IsSeparated l
    → All (IsCutFrom f) ps
    → ArePartsOf f l
    → ArePartsOf f (receive_all l ps)
unfolding receive_all
receive_all-ArePartsOf f l [] a c h = h
receive_all-ArePartsOf f l (p ∷ ps) a c h =
    receive_all-ArePartsOf f (receive p l) ps (receive-IsSeparated p l a) c.1
      (receive-ArePartsOf f p l a c.0 h)

-- A bundle is taken for complete when one segment is left, which starts at 0 and is as long as
-- the body. Whatever pieces of a file have arrived in whatever order, the bytes of that segment
-- are then the first bytes of the file.
pub receive_all_complete :
    (f : ℕ → ℕ) (ps : List Piece) (s : Segment)
    → All (IsCutFrom f) ps
    → receive_all [] ps ≡ s ∷ []
    → s.start_offset ≡ 0
    → s.bytes ≡ slice f 0 s.len
receive_all_complete f ps s c e z =
    let h : ArePartsOf f (s ∷ []) =
      subst (ArePartsOf f) e (receive_all-ArePartsOf f [] ps tt c tt) in
    h.0 ∙ ap (λ k. slice f k s.len) z
