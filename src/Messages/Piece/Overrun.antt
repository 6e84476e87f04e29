-- ===== src/Messages/Piece/Overrun.antt =====
-- `sync_append_some_bundle_bytes`: the message against the room of the packet.
use lbard.Prelude.{
  ℕ, ◌+◌, ◌-◌, ◌^◌, ◌≤◌, ◌<◌, List, ◌∷◌, ◌++◌, ◌≡◌, Bool, true, take, length, length-take,
  length-append, le→ltb, arith,
}
use lbard.Messages.Piece.{Sizing, max_bytes, piece_size, le_bytes, offset_compound, piece_message}

length-piece_message :
    (m ne : Bool) (start bytes version a b : ℕ) (s bid p : List ℕ)
    → start < 2 ^ 20
    → 8 ≤ length bid
    → bytes ≤ length p
    → length (piece_message m start bytes ne (a ∷ b ∷ s) bid version p) ≡ 23 + bytes
unfolding piece_message le_bytes
length-piece_message m ne start bytes version a b s bid p h long few =
    rw (le→ltb 0xfffff start (omega arith)) (
      omega (
        arith,
        length-take 8 bid,
        length-take bytes p,
        length-append (take 8 bid)
            (le_bytes 8 version ++ (le_bytes 4 (offset_compound m start bytes) ++ take bytes p)),
      ))

-- With bitmaps out of use, an item that goes on for at least as many bytes as the packet is
-- reckoned to have room for, but not more than 0x7ff, gets all of that room; the packet, which is
-- `offset` bytes long before, then has two bytes more than `mtu`.
pub piece_message_overruns :
    (m : Bool) (start len mtu offset version a b : ℕ) (s bid p : List ℕ)
    → start < 2 ^ 20
    → 8 ≤ length bid
    → offset + 21 < mtu
    → mtu ≤ offset + 21 + 0x7ff
    → start + (mtu - offset - 21) ≤ len
    → mtu - offset - 21 ≤ length p
    → (piece_size true start len mtu offset ≡ Sizing.sized (mtu - offset - 21) true)
      × (offset + length (piece_message m start (mtu - offset - 21) true (a ∷ b ∷ s) bid version p)
          ≡ mtu + 2)
unfolding piece_size max_bytes
piece_message_overruns m start len mtu offset version a b s bid p h long room most on few = (
  ground arith,
  omega
      (arith, length-piece_message m true start (mtu - offset - 21) version a b s bid p h long few),
)
