-- ===== src/Messages/Ack.antt =====
-- src/messages/ack.c: the report of what is missing next of a bundle, and what its receiver does.
pub mod Resume
pub mod Kept
pub mod Slots
mod Tests
use lbard.Prelude.{
  ℕ, zero, suc, ◌+◌, ◌-◌, ◌*◌, ◌/◌, ◌%◌, ◌^◌, List, [], ◌∷◌, ◌++◌, Option, none, some, Bool, true,
  false, not, ltb, leb, ◌==◌, ◌&&◌, ◌||◌, if◌then◌else◌, take, drop, get_or, set,
}
use lbard.Xfer.Bits.{test_bit}
use lbard.Xfer.Send.{SendState, same_bundle, progress_bitmap_translate}
use lbard.Messages.Piece.{le_bytes, le_value}

-- The type of the message, from what the offset is and whether it was chosen at random.
unfoldable pub ack_type : Bool → Bool → ℕ
ack_type really_first random_jump =
    if really_first then if random_jump then 0x66 else 0x46 else if random_jump then 0x61 else 0x41

-- `strtoll` of the pairs of characters of `bid_prefix`, from number `i` on.
unfoldable pub bid_bytes : (ℕ → ℕ → ℕ) → List ℕ → ℕ → ℕ → List ℕ
bid_bytes strtoll bid_prefix i zero = []
bid_bytes strtoll bid_prefix i (suc rounds) =
    strtoll (get_or bid_prefix (i * 2) 0) (get_or bid_prefix (i * 2 + 1) 0) % 256
    ∷ bid_bytes strtoll bid_prefix (i + 1) rounds

-- The bytes that `sync_schedule_progress_report` puts into a slot of the report queue.
unfoldable pub ack_message : (ℕ → ℕ → ℕ) → Bool → Bool → List ℕ → List ℕ → ℕ → List ℕ → List ℕ
unfolding ack_type bid_bytes le_bytes
ack_message strtoll really_first random_jump bid_prefix manifest_bitmap body_offset sid_prefix =
    ack_type really_first random_jump
    ∷ (bid_bytes strtoll bid_prefix 0 8
        ++ (get_or manifest_bitmap 0 0
            ∷ get_or manifest_bitmap 1 0
            ∷ (le_bytes 4 body_offset ++ (get_or sid_prefix 0 0 ∷ get_or sid_prefix 1 0 ∷ []))))

-- The search for the first block of 64 bytes that a bitmap does not have, from block `i` on.
unfoldable pub first_missing : List ℕ → ℕ → ℕ → ℕ
unfolding test_bit
first_missing bitmap i zero = 1024
first_missing bitmap i (suc rounds) =
    let later = first_missing bitmap (i + 1) rounds in if test_bit bitmap i then later else i * 64

-- What the sender keeps for a peer, with the bounds below which it need not send again.
pub record AckState : Type 0 where
  pub send : SendState
  pub manifest_hard_lower_bound : ℕ
  pub body_hard_lower_bound : ℕ

-- Options, the lengths in the bundle cache if `prime_bundle_cache` succeeds, and the results of
-- `random()`.
pub record AckContext : Type 0 where
  pub my_sid : List ℕ
  pub lookup_bundle : List ℕ → Option ℕ
  pub no_hard_lower : Bool
  pub no_randomize_redirect : Bool
  pub cached : Option (ℕ × ℕ)
  pub jump : ℕ
  pub manifest_jump : ℕ
  pub body_jump : ℕ

-- `body_offset` of the message, an `int` that is raised to 0 if it is negative.
unfoldable pub body_offset_of : List ℕ → ℕ
unfolding le_value
body_offset_of msg =
    let value = le_value (take 4 (drop 11 msg)) in if ltb value (2 ^ 31) then value else 0

-- A random offset behind the given one, below the length, with its last eight bits cleared.
unfoldable pub redirected : Bool → ℕ → ℕ → ℕ → ℕ
redirected off jump offset len =
    if ltb offset len && not off then (offset + jump % (len - offset)) / 256 * 256 else offset

-- `randomJump`
unfoldable pub jumps : AckContext → List ℕ → Bool
jumps c msg = (get_or msg 0 0 == 0x61 || get_or msg 0 0 == 0x66) && c.jump % 2 == 1

unfoldable pub resumed_at : AckContext → Bool → ℕ → ℕ → ℕ × ℕ
unfolding redirected
resumed_at c false manifest_offset body_offset = (manifest_offset, body_offset)
resumed_at c true manifest_offset body_offset = elim c.cached [
  | none ↦ (manifest_offset, body_offset)
  | some len ↦ (
    redirected c.no_randomize_redirect c.manifest_jump manifest_offset len.0,
    redirected c.no_randomize_redirect c.body_jump body_offset len.1,
  )
]

-- The manifest's bitmap is the last two of the 34 bytes; both of the message's bytes are written
-- to the first of them, as in the source.
unfoldable pub note_bitmap : List ℕ → SendState → SendState
unfolding progress_bitmap_translate
note_bitmap msg p =
    let noted = set (set p.bitmaps 32 (get_or msg 9 0)) 32 (get_or msg 10 0) in
    if get_or msg 0 0 == 0x46 && get_or msg 0 0 == 0x66
    then record p {
      bitmaps =
          progress_bitmap_translate (take 32 noted) p.request_bitmap_offset (body_offset_of msg)
          ++ drop 32 noted;
      request_bitmap_offset = body_offset_of msg;
    }
    else record p { bitmaps = noted }

unfoldable pub note_if : Bool → List ℕ → SendState → SendState
unfolding note_bitmap
note_if true msg p = note_bitmap msg p
note_if false msg p = p

unfoldable pub resume : AckContext → List ℕ → AckState → AckState
unfolding first_missing body_offset_of jumps resumed_at
resume c msg s =
    let manifest_offset = first_missing (drop 9 msg) 0 16 in
    let to = resumed_at c (jumps c msg) manifest_offset (body_offset_of msg) in
    record {
      send = record s.send { tx_bundle_manifest_offset = to.0; tx_bundle_body_offset = to.1 };
      manifest_hard_lower_bound =
          if c.no_hard_lower then s.manifest_hard_lower_bound else manifest_offset;
      body_hard_lower_bound =
          if c.no_hard_lower then s.body_hard_lower_bound else body_offset_of msg;
    }

unfoldable pub resume_if : Bool → AckContext → List ℕ → AckState → AckState
unfolding resume
resume_if true c msg s = resume c msg s
resume_if false c msg s = s

-- The part of `sync_parse_ack` behind the look-up; the number is what it returns, `none` is -1.
unfoldable pub parse_found : AckContext → List ℕ → AckState → Option ℕ → AckState × Option ℕ
unfolding note_if resume_if
parse_found c msg s none = (s, none)
parse_found c msg s (some bundle) =
    let noted = record s {
      send = note_if (same_bundle (some bundle) s.send.request_bitmap_bundle) msg s.send;
    } in
    (resume_if (same_bundle (some bundle) s.send.tx_bundle) c msg noted, some 0)

-- `sync_parse_ack`
unfoldable pub sync_parse_ack : AckContext → List ℕ → AckState → AckState × Option ℕ
unfolding parse_found
sync_parse_ack c msg s =
    if get_or msg 15 0 == get_or c.my_sid 0 0 && get_or msg 16 0 == get_or c.my_sid 1 0
    then parse_found c msg s (c.lookup_bundle (take 8 (drop 1 msg)))
    else (s, some 0)

-- `message_parser_41`, and those of the types 46, 61 and 66: the state, and the bytes gone past,
-- whatever the length of what is left of the packet.
unfoldable pub message_parser_41 : AckContext → List ℕ → AckState → AckState × ℕ
unfolding sync_parse_ack
message_parser_41 c msg s = ((sync_parse_ack c msg s).0, 17)
