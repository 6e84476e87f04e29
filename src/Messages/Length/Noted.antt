-- ===== src/Messages/Length/Noted.antt =====
-- src/messages/bundlelength.c: an announced length is noted for its bundle.
use lbard.Prelude.{ℕ, List, ◌++◌, ◌≡◌, Bool, take, length}
use lbard.Messages.Piece.{le_bytes}
use lbard.Messages.Length.{PartialBundle}

-- The announcement, with what follows it in the packet.
module _ (bid_bin : List ℕ) (version body_length : ℕ) (rest : List ℕ)
    (size : length bid_bin ≡ 8) where
  abbrev fields : List ℕ
  fields = take 8 bid_bin ++ (le_bytes 8 version ++ (le_bytes 4 body_length ++ rest))

abbrev table : List PartialBundle × Bool → List PartialBundle
table r = r.0
