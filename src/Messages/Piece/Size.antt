-- ===== src/Messages/Piece/Size.antt =====
-- `sync_append_some_bundle_bytes`: how many bytes of the item are sent.
use lbard.Prelude.{ℕ, ◌+◌, ◌%◌, ◌≤◌, ◌≡◌, ◌⊎◌, Bool, true, false, arith}
use lbard.Messages.Piece.{Sizing, piece_size, max_bytes}

-- A piece that is sent lies in the item and has at most 0x7ff bytes, and at most as many as the
-- room that is reckoned with. Unless it is capped to 0x7ff bytes, either it is flagged as the end
-- and reaches the end of the item, or it is flagged as not the end, and then it ends at the end of
-- a block where bitmaps are in use.
pub piece_size_lem :
    (no_bitmap_progress : Bool) (start_offset len mtu offset bytes : ℕ) (not_end : Bool)
    → piece_size no_bitmap_progress start_offset len mtu offset ≡ Sizing.sized bytes not_end
    → (start_offset + bytes ≤ len)
      × (bytes ≤ 0x7ff)
      × (bytes ≤ max_bytes start_offset mtu offset)
      × ((bytes ≡ 0x7ff)
          ⊎ (((not_end ≡ false) × (start_offset + bytes ≡ len))
              ⊎ ((not_end ≡ true)
                  × ((no_bitmap_progress ≡ true) ⊎ ((start_offset + bytes) % 64 ≡ 0)))))
unfolding piece_size
piece_size_lem no_bitmap_progress start_offset len mtu offset bytes not_end e = ground (arith, e)
