-- ===== src/Xfer/Send.antt =====
-- src/xfer/progress_bitmaps.c, the sender's side: what is marked as sent to a peer, and where to go
-- on sending from.
pub mod Translate
mod Candidates
pub mod Point
pub mod Transmitted
mod Tests
use lbard.Prelude.{
  ℕ, zero, suc, ◌+◌, ◌-◌, ◌*◌, ◌/◌, ◌%◌, List, [], ◌∷◌, Option, none, some, Bool, true, false, not,
  ltb, leb, ◌==◌, ◌&&◌, ◌||◌, if◌then◌else◌, take, length, get_or, replicate, map,
}
use lbard.Xfer.Bits.{mark_bit, test_bit}

-- The fields of `struct peer_state` that the sender's side reads and writes; `none` is -1.
-- `bitmaps` is the memory from `request_bitmap` to the end of the struct: 32 bytes of it, and the
-- 2 of `request_manifest_bitmap`. A write behind them is not modelled; a read is an argument.
pub record SendState : Type 0 where
  pub tx_bundle : Option ℕ
  pub tx_bundle_manifest_offset : ℕ
  pub tx_bundle_body_offset : ℕ
  pub request_bitmap_bundle : Option ℕ
  pub request_bitmap_offset : ℕ
  pub bitmaps : List ℕ

-- `==` of two `int` fields that may be -1.
abbrev pub same_bundle : Option ℕ → Option ℕ → Bool
same_bundle none none = true
same_bundle (some a) (some b) = a == b
same_bundle _ _ = false

-- A bit of `request_manifest_bitmap`.
abbrev pub manifest_bit : ℕ → ℕ
manifest_bit j = 256 + j

-- `32*8*64`, the bound on the number of a bit in this file.
abbrev pub bit_limit : ℕ
bit_limit = 16384

-- `bit+bit_delta`, if it is from 0 to 255. The division of an `int` rounds to zero.
pub old_bit : ℕ → ℕ → ℕ → Option ℕ
old_bit old_offset new_offset bit =
    let ahead = bit + (new_offset - old_offset) / 64 in
    let back = (old_offset - new_offset) / 64 in
    if leb old_offset new_offset
    then if ltb ahead 256 then some ahead else none
    else if leb back bit && ltb (bit - back) 256
    then some (bit - back)
    else none

-- The loop of `progress_bitmap_translate`, with `rounds` bits left.
pub translate_from : List ℕ → ℕ → ℕ → ℕ → ℕ → List ℕ → List ℕ
unfolding old_bit
translate_from old old_offset new_offset zero bit new = new
translate_from old old_offset new_offset (suc rounds) bit new =
    translate_from old old_offset new_offset rounds (bit + 1) (
      if elim (old_bit old_offset new_offset bit) [ none ↦ false | some b ↦ test_bit old b ]
      then mark_bit new bit
      else new)

-- `progress_bitmap_translate`, on a bitmap of 32 bytes and its offset.
unfoldable pub progress_bitmap_translate : List ℕ → ℕ → ℕ → List ℕ
unfolding translate_from
progress_bitmap_translate old old_offset new_offset =
    translate_from old old_offset new_offset 255 1 (replicate 32 0)

-- A bit as `peer_update_send_point` reads it: behind the struct it is what `beyond` says.
pub read_bit : List ℕ → (ℕ → Bool) → ℕ → Bool
read_bit bitmaps beyond i = if ltb i 272 then test_bit bitmaps i else beyond i

-- The numbers `i`, `i+step`, ..., `count` of them, that pass a test.
pub collect : (ℕ → Bool) → ℕ → ℕ → ℕ → List ℕ
collect test step i zero = []
collect test step i (suc count) =
    if test i then i ∷ collect test step (i + step) count else collect test step (i + step) count

-- `max_bit`. Where the offset lies behind the body it is not positive, and the loops do nothing.
pub max_bit : ℕ → ℕ → ℕ
max_bit body_len offset =
    let whole = (body_len - offset) / 64 in
    let bits = if (body_len - offset) % 64 == 0 then whole else whole + 1 in
    if leb bit_limit bits then bit_limit - 1 else bits

-- The first 32 candidates: those at even boundaries, or else all of them.
pub send_candidates : (ℕ → Bool) → ℕ → ℕ → List ℕ
unfolding collect
send_candidates is_set offset max =
    let start = offset / 64 % 2 in
    let even =
      take 32
        (collect (λ i. not (is_set i) && not (i + 1 == max)) 2 start ((max - start + 1) / 2)) in
    if length even == 0 then take 32 (collect (λ i. not (is_set i)) 1 0 max) else even

pub manifest_candidates : List ℕ → List ℕ
unfolding collect
manifest_candidates bitmaps = collect (λ j. not (test_bit bitmaps (manifest_bit j))) 1 0 16

-- `peer_update_send_point`; the two numbers are what `random()` returns.
pub peer_update_send_point : (ℕ → Bool) → ℕ → ℕ → ℕ → SendState → SendState
unfolding read_bit max_bit send_candidates manifest_candidates
peer_update_send_point beyond cached_body_len random random_manifest p =
    let body =
      send_candidates (read_bit p.bitmaps beyond) p.request_bitmap_offset
        (max_bit cached_body_len p.request_bitmap_offset) in
    let manifest = manifest_candidates p.bitmaps in
    let region_end = p.request_bitmap_offset + bit_limit in
    if same_bundle p.request_bitmap_bundle p.tx_bundle
    then record p {
      tx_bundle_body_offset =
          if length body == 0
          then if leb p.tx_bundle_body_offset region_end
            then region_end
            else p.tx_bundle_body_offset
          else p.request_bitmap_offset + get_or body (random % length body) 0 * 64;
      tx_bundle_manifest_offset =
          if length manifest == 0
          then 1024
          else get_or manifest (random_manifest % length manifest) 0 * 64;
    }
    else p

-- The condition under which `peer_update_request_bitmaps_due_to_transmitted_piece` does anything
-- for a peer.
pub starts_over : ℕ → SendState → Bool
starts_over bundle_number p =
    same_bundle p.request_bitmap_bundle none
    || same_bundle p.tx_bundle (some bundle_number)
      && not (same_bundle p.request_bitmap_bundle p.tx_bundle)

-- The loop over the 16 blocks of the manifest, with `rounds` left.
pub mark_sent_manifest : ℕ → ℕ → ℕ → ℕ → List ℕ → List ℕ
mark_sent_manifest start_offset bytes zero j bitmaps = bitmaps
mark_sent_manifest start_offset bytes (suc rounds) j bitmaps =
    mark_sent_manifest start_offset bytes rounds (j + 1) (
      if leb start_offset (64 * j) && leb (64 + 64 * j) (start_offset + bytes)
      then mark_bit bitmaps (manifest_bit j)
      else bitmaps)

-- `while((bytes_remaining>=64)&&(bit<(32*8*64)))`; `rounds` is `bytes_remaining/64`.
pub mark_sent : ℕ → ℕ → List ℕ → List ℕ
mark_sent zero bit bitmaps = bitmaps
mark_sent (suc rounds) bit bitmaps =
    let more = mark_sent rounds (bit + 1) (mark_bit bitmaps bit) in
    if ltb bit bit_limit then more else bitmaps

-- `trim=offset&64`, and what is left of `bytes`. With the trim at 64, `offset+=64-trim` adds
-- nothing.
pub bytes_remaining : ℕ → ℕ → ℕ → ℕ → ℕ
bytes_remaining offset start_offset bytes bundle_length =
    if offset / 64 % 2 == 1 && ltb (start_offset + bytes) bundle_length then bytes - 64 else bytes

-- The state of a peer after the first `if`: the manifest's blocks, or the reset.
pub accumulate : ℕ → Bool → ℕ → ℕ → SendState → SendState
unfolding mark_sent_manifest
accumulate bundle_number is_manifest start_offset bytes p =
    if is_manifest
    then record p { bitmaps = mark_sent_manifest start_offset bytes 16 0 p.bitmaps }
    else record p {
      bitmaps = replicate 34 0;
      request_bitmap_bundle = some bundle_number;
      request_bitmap_offset = if ltb 16384 start_offset then start_offset else 0;
    }

-- The second `if`: the blocks of the piece, if the bitmap is for its bundle.
pub mark_piece : ℕ → ℕ → ℕ → ℕ → SendState → SendState
unfolding mark_sent bytes_remaining
mark_piece bundle_length bundle_number start_offset bytes p =
    let offset = start_offset - p.request_bitmap_offset in
    if same_bundle p.request_bitmap_bundle (some bundle_number)
      && leb p.request_bitmap_offset start_offset
    then record p {
      bitmaps =
          mark_sent (bytes_remaining offset start_offset bytes bundle_length / 64) (offset / 64)
            p.bitmaps;
    }
    else p

-- One round of `peer_update_request_bitmaps_due_to_transmitted_piece`, for a peer.
pub saw_transmitted_piece : ℕ → ℕ → Bool → ℕ → ℕ → SendState → SendState
unfolding starts_over accumulate mark_piece
saw_transmitted_piece bundle_length bundle_number is_manifest start_offset bytes p =
    if starts_over bundle_number p
    then mark_piece bundle_length bundle_number start_offset bytes
        (accumulate bundle_number is_manifest start_offset bytes p)
    else p

-- `peer_update_request_bitmaps_due_to_transmitted_piece`, for every peer.
pub update_request_bitmaps : ℕ → ℕ → Bool → ℕ → ℕ → List SendState → List SendState
unfolding saw_transmitted_piece
update_request_bitmaps bundle_length bundle_number is_manifest start_offset bytes peers =
    map (saw_transmitted_piece bundle_length bundle_number is_manifest start_offset bytes) peers
