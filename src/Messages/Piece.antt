-- ===== src/Messages/Piece.antt =====
-- src/messages/bundle_piece.c: a piece of a bundle is put into a packet by
-- `sync_append_some_bundle_bytes` and taken out of it by `message_parser_50`.
pub mod Bytes
pub mod Size
pub mod Overrun
pub mod Fields
pub mod Roundtrip
mod Tests
use lbard.Prelude.{
  ℕ, zero, suc, ◌+◌, ◌-◌, ◌*◌, ◌/◌, ◌%◌, ◌^◌, List, [], ◌∷◌, ◌++◌, Option, none, some, Bool, true,
  false, not, ltb, leb, ◌==◌, ◌&&◌, if◌then◌else◌, take, drop, get_or, length,
}
use lbard.Xfer.Send.{SendState, same_bundle, update_request_bitmaps}

-- How many bytes a piece gets: none because the packet is full (or the offset behind the end), none
-- because they would not reach the end of a block, or so many, and whether the item goes on.
pub data Sizing : Type 0 where
  refused : Sizing
  nothing : Sizing
  sized : ℕ → Bool → Sizing

-- `if (actual_bytes>0x7ff) actual_bytes=0x7ff`.
abbrev cap : ℕ → ℕ
cap bytes = if ltb 0x7ff bytes then 0x7ff else bytes

-- The bytes that the packet has room for.
pub max_bytes : ℕ → ℕ → ℕ → ℕ
max_bytes start_offset mtu offset =
    if ltb 0xfffff start_offset then mtu - offset - 21 - 2 else mtu - offset - 21

-- From `max_bytes` to the check of `actual_bytes`. The Boolean is FLAG_NO_BITMAP_PROGRESS.
pub piece_size : Bool → ℕ → ℕ → ℕ → ℕ → Sizing
unfolding max_bytes
piece_size no_bitmap_progress start_offset len mtu offset =
    let room = max_bytes start_offset mtu offset in
    let past = (start_offset + room) % 64 in
    let whole = if no_bitmap_progress then room else room - past in
    if ltb room 1
    then refused
    else if ltb len start_offset
    then refused
    else if ltb (len - start_offset) room
    then sized (cap (len - start_offset)) false
    else if ltb whole 1
    then nothing
    else sized (cap whole) true

-- `count` bytes of a number, the lowest first.
unfoldable pub le_bytes : ℕ → ℕ → List ℕ
le_bytes zero v = []
le_bytes (suc count) v = v % 256 ∷ le_bytes count (v / 256)

-- The number of which these are the bytes.
unfoldable pub le_value : List ℕ → ℕ
le_value [] = 0
le_value (b ∷ rest) = b + 256 * le_value rest

-- `offset_compound` of the sender.
pub offset_compound : Bool → ℕ → ℕ → ℕ
offset_compound is_manifest start_offset actual_bytes =
    start_offset % 2 ^ 20
    + actual_bytes % 0x800 * 2 ^ 20
    + (if is_manifest then 2 ^ 31 else 0)
    + start_offset / 2 ^ 20 % 2 ^ 16 * 2 ^ 32

-- What is written into the packet: the recipient's prefix has two bytes, that of the bundle eight.
pub piece_message : Bool → ℕ → ℕ → Bool → List ℕ → List ℕ → ℕ → List ℕ → List ℕ
unfolding le_bytes offset_compound
piece_message is_manifest start_offset actual_bytes not_end sid_prefix bid version bytes =
    ((if ltb 0xfffff start_offset then 80 else 112) + (if not_end then 1 else 0))
    ∷ (take 2 sid_prefix
        ++ (take 8 bid
            ++ (le_bytes 8 version
                ++ (le_bytes (if ltb 0xfffff start_offset then 6 else 4)
                      (offset_compound is_manifest start_offset actual_bytes)
                    ++ take actual_bytes bytes))))

-- The cursor of a peer that the same bundle is sent to, if it is within the piece.
pub advance_cursor : ℕ → Bool → ℕ → ℕ → SendState → SendState
advance_cursor bundle_number is_manifest start_offset actual_bytes p =
    let within =
      λ (cursor : ℕ). leb start_offset cursor && ltb cursor (start_offset + actual_bytes) in
    if not (same_bundle p.tx_bundle (some bundle_number))
    then p
    else if is_manifest
    then record p {
      tx_bundle_manifest_offset =
          if within p.tx_bundle_manifest_offset
          then start_offset + actual_bytes
          else p.tx_bundle_manifest_offset;
    }
    else record p {
      tx_bundle_body_offset =
          if within p.tx_bundle_body_offset
          then start_offset + actual_bytes
          else p.tx_bundle_body_offset;
    }

-- The loop over the peers but the target, which is `target` places on.
pub advance_others : ℕ → Bool → ℕ → ℕ → Option ℕ → List SendState → List SendState
unfolding advance_cursor
advance_others bundle_number is_manifest start_offset actual_bytes target [] = []
advance_others bundle_number is_manifest start_offset actual_bytes (some zero) (p ∷ rest) =
    p ∷ advance_others bundle_number is_manifest start_offset actual_bytes none rest
advance_others bundle_number is_manifest start_offset actual_bytes (some (suc k)) (p ∷ rest) =
    advance_cursor bundle_number is_manifest start_offset actual_bytes p
    ∷ advance_others bundle_number is_manifest start_offset actual_bytes (some k) rest
advance_others bundle_number is_manifest start_offset actual_bytes none (p ∷ rest) =
    advance_cursor bundle_number is_manifest start_offset actual_bytes p
    ∷ advance_others bundle_number is_manifest start_offset actual_bytes none rest

-- What the sender sends from: the bundle, and the copy of it in the cache.
pub record Source : Type 0 where
  pub bundle_number : ℕ
  pub bundle_length : ℕ
  pub bid_bin : List ℕ
  pub cached_version : ℕ
  pub sid_prefix_bin : List ℕ
  pub target_peer : ℕ

-- What is appended to the packet, the peers, and the result; `none` is -1.
pub record Appended : Type 0 where
  pub message : List ℕ
  pub peers : List SendState
  pub result : Option ℕ

-- `sync_append_some_bundle_bytes`; `p` is what is to be sent, from `start_offset` on.
pub sync_append_some_bundle_bytes :
    Bool → Source → ℕ → ℕ → List ℕ → Bool → ℕ → ℕ → List SendState → Appended
unfolding piece_size piece_message advance_others
sync_append_some_bundle_bytes no_bitmap_progress s start_offset len p is_manifest offset mtu peers =
    elim (piece_size no_bitmap_progress start_offset len mtu offset) [
      | refused ↦ record { message = []; peers = peers; result = none }
      | nothing ↦ record { message = []; peers = peers; result = some 0 }
      | sized actual_bytes not_end ↦ record {
        message =
            piece_message is_manifest start_offset actual_bytes not_end s.sid_prefix_bin s.bid_bin
              s.cached_version p;
        peers =
            advance_others s.bundle_number is_manifest start_offset actual_bytes
              (some s.target_peer)
              (update_request_bitmaps s.bundle_length s.bundle_number is_manifest start_offset
                actual_bytes peers);
        result = some actual_bytes;
      }
    ]

-- What `message_parser_50` hands to `saw_piece`, and what it returns.
pub record Parsed : Type 0 where
  pub for_me : Bool
  pub bid_prefix_bin : List ℕ
  pub version : ℕ
  pub piece_offset : ℕ
  pub piece_bytes : ℕ
  pub is_end_piece : Bool
  pub is_manifest_piece : Bool
  pub piece : List ℕ
  pub offset : ℕ

-- `message_parser_50`; `none` is -3. `offset_compound` is an `unsigned int` of 32 bits, also while
-- six bytes are put into it. `msg` is the packet from the message on.
pub message_parser_50 : List ℕ → List ℕ → ℕ → Option Parsed
unfolding le_value
message_parser_50 my_sid msg msg_length =
    let kind = get_or msg 0 0 in
    let compound = le_value (take 6 (drop 19 msg)) % 2 ^ 32 in
    let start = if kind / 32 % 2 == 0 then 25 else 23 in
    let bytes = compound / 2 ^ 20 % 0x800 in
    if ltb (msg_length - 3) (1 + 8 + 8 + 4 + 1)
    then none
    else some (record {
      for_me = get_or my_sid 0 0 == get_or msg 1 0 && get_or my_sid 1 0 == get_or msg 2 0;
      bid_prefix_bin = take 8 (drop 3 msg);
      version = le_value (take 8 (drop 11 msg));
      piece_offset = compound % 2 ^ 20 + compound / 2 ^ 12 / 2 ^ 20 % 2 ^ 12 * 2 ^ 20;
      piece_bytes = bytes;
      is_end_piece = kind % 2 == 0;
      is_manifest_piece = compound / 2 ^ 31 % 2 == 1;
      piece = drop start msg;
      offset = start + bytes;
    })
