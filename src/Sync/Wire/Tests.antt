-- ===== src/Sync/Wire/Tests.antt =====
-- Records of a sync message, and the theorem about them at an input.
use lbard.Prelude.{ℕ, ◌∷◌, [], ◌≡◌, refl, true, false, none, some, List, All, arith}
use lbard.Sync.Tree.{KeyMessage}
use lbard.Sync.Wire.{copy_message, read_message, read_records, messages_of, write_records}
use lbard.Sync.Wire.Roundtrip.{IsRecord, messages_of-write_records}

program : Unit {0}
unfolding copy_message read_message read_records messages_of write_records
program = tt

abbrev key_a : List ℕ
key_a = 0x12 ∷ 0x34 ∷ 0x56 ∷ 0x78 ∷ 0x9a ∷ 0xbc ∷ 0xde ∷ 0xf0 ∷ []

abbrev inner : KeyMessage
inner = record { min_prefix_len = 0; stored = true; prefix_len = 7; key = key_a }

abbrev whole : KeyMessage
whole = record { min_prefix_len = 8; stored = false; prefix_len = 64; key = key_a }

abbrev inner_bytes : List ℕ
inner_bytes = 0x80 ∷ 7 ∷ key_a

written : copy_message (some inner) ≡ inner_bytes
unfolding program
written = refl

abbrev no_node : ℕ
no_node = 65

-- The record for no node asks for all.
asks : (read_message (copy_message none)).prefix_len ≡ no_node
unfolding program
asks = refl

cut_short : messages_of (0x80 ∷ 7 ∷ []) ≡ none
unfolding program
cut_short = refl

are_records : All IsRecord (inner ∷ whole ∷ [])
are_records = (
  record { min_bits = omega arith; size = refl },
  (record { min_bits = omega arith; size = refl }, tt),
)

messages_of-write_records_example :
    messages_of (write_records (inner ∷ whole ∷ [])) ≡ some (inner ∷ whole ∷ [])
messages_of-write_records_example = messages_of-write_records (inner ∷ whole ∷ []) are_records
