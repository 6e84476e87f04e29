-- ===== src/Sync/Wire.antt =====
-- src/sync/sync.c: the records of a sync message, as they are written and read.
pub mod Roundtrip
mod Tests
use lbard.Prelude.{
  ℕ, zero, suc, ◌+◌, ◌/◌, ◌%◌, List, [], ◌∷◌, ◌++◌, Option, none, some, Bool, true, false, not,
  ◌==◌, if◌then◌else◌, take, drop, get_or, length, replicate, bit_and, bit_or,
}
use lbard.Sync.Tree.{KeyMessage, key_len, key_len_bits}

-- `MESSAGE_BYTES`
abbrev pub message_bytes : ℕ
message_bytes = 10

-- `copy_message`: the bytes of a node's message, or those that stand for no node.
unfoldable pub copy_message : Option KeyMessage → List ℕ
copy_message (some m) =
    bit_or (if m.stored then 0x80 else 0) (bit_and m.min_prefix_len 0x7f)
    ∷ m.prefix_len
    ∷ take key_len m.key
copy_message none = 0x80 ∷ (key_len_bits + 1) ∷ replicate key_len 0

-- What `sync_recv_message` reads of a record.
unfoldable pub read_message : List ℕ → KeyMessage
read_message p = record {
  min_prefix_len = bit_and (get_or p 0 0) 0x7f;
  stored = not (bit_and (get_or p 0 0) 0x80 == 0);
  prefix_len = get_or p 1 0;
  key = take key_len (drop 2 p);
}

unfoldable pub read_records : ℕ → List ℕ → List KeyMessage
unfolding read_message
read_records zero buff = []
read_records (suc rounds) buff = read_message buff ∷ read_records rounds (drop message_bytes buff)

-- The records that `sync_recv_message` goes through, all of them unless `recv_key` refuses one; a
-- message that is not made of whole records is refused.
unfoldable pub messages_of : List ℕ → Option (List KeyMessage)
unfolding read_records
messages_of buff =
    if length buff % message_bytes == 0
    then some (read_records (length buff / message_bytes) buff)
    else none

-- Records behind each other, as `sync_build_message` writes them.
unfoldable pub write_records : List KeyMessage → List ℕ
unfolding copy_message
write_records [] = []
write_records (m ∷ messages) = copy_message (some m) ++ write_records messages
