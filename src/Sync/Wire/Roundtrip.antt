-- ===== src/Sync/Wire/Roundtrip.antt =====
-- src/sync/sync.c: the records of a sync message are read as they were written.
use lbard.Prelude.{
  ℕ, zero, suc, ◌*◌, ◌/◌, ◌%◌, ◌<◌, List, [], ◌∷◌, ◌++◌, ◌≡◌, refl, ap, ap₂, ◌∙◌, none, some, Bool,
  true, false, not, ◌==◌, if◌then◌else◌, take, length, All, length-append, bit_and, bit_or, every,
  holds_below, arith, ◌&&◌,
}
use lbard.Messages.Piece.Bytes.{take-append, drop-append}
use lbard.Sync.Tree.{KeyMessage}
use lbard.Sync.Wire.{copy_message, read_message, read_records, messages_of, write_records}

-- A message of the sizes of `key_message_t`: 7 bits, and 8 bytes.
pub record IsRecord (m : KeyMessage) : Type 0 where
  pub min_bits : m.min_prefix_len < 128
  pub size : length m.key ≡ 8

flags : ℕ → Bool → ℕ
flags min_prefix_len stored = bit_or (if stored then 0x80 else 0) (bit_and min_prefix_len 0x7f)

min_table :
    every (λ x. bit_and (flags x true) 0x7f == x && bit_and (flags x false) 0x7f == x) 128 ≡ true
unfolding every flags
min_table = refl

stored_table :
    every (λ x. not (bit_and (flags x true) 0x80 == 0) && bit_and (flags x false) 0x80 == 0) 128
    ≡ true
unfolding every flags
stored_table = refl

flags-min : (x : ℕ) (s : Bool) → x < 128 → bit_and (flags x s) 0x7f ≡ x
flags-min x true h = ground (
  arith,
  holds_below (λ x. bit_and (flags x true) 0x7f == x && bit_and (flags x false) 0x7f == x) x 128 h
      min_table,
)
flags-min x false h = ground (
  arith,
  holds_below (λ x. bit_and (flags x true) 0x7f == x && bit_and (flags x false) 0x7f == x) x 128 h
      min_table,
)

flags-stored : (x : ℕ) (s : Bool) → x < 128 → not (bit_and (flags x s) 0x80 == 0) ≡ s
flags-stored x true h = ground (
  arith,
  holds_below (λ x. not (bit_and (flags x true) 0x80 == 0) && bit_and (flags x false) 0x80 == 0) x
      128 h stored_table,
)
flags-stored x false h = ground (
  arith,
  holds_below (λ x. not (bit_and (flags x true) 0x80 == 0) && bit_and (flags x false) 0x80 == 0) x
      128 h stored_table,
)

take_all : (n : ℕ) (xs : List ℕ) → length xs ≡ n → take n xs ≡ xs
take_all zero [] e = refl
take_all zero (x ∷ xs) e = absurd (omega arith)
take_all (suc n) [] e = refl
take_all (suc n) (x ∷ xs) e = ap (λ l. x ∷ l) (take_all n xs (omega arith))

whole : (n k : ℕ) → n ≡ k * 10 → (n % 10 == 0) ≡ true
whole n k e = ground arith

read-copy_message :
    (m : KeyMessage) (rest : List ℕ) → IsRecord m → read_message (copy_message (some m) ++ rest) ≡ m
unfolding read_message copy_message flags
read-copy_message m rest h =
    let kept : take 8 m.key ≡ m.key = take_all 8 m.key h.size in
    let key : take 8 (take 8 m.key ++ rest) ≡ m.key =
      take-append 8 (take 8 m.key) rest (ap length kept ∙ h.size) ∙ kept in
    λ i. record {
      min_prefix_len = flags-min m.min_prefix_len m.stored h.min_bits i;
      stored = flags-stored m.min_prefix_len m.stored h.min_bits i;
      prefix_len = m.prefix_len;
      key = key i;
    }

length-copy_message : (m : KeyMessage) → IsRecord m → length (copy_message (some m)) ≡ 10
unfolding copy_message
length-copy_message m h = omega (arith, ap length (take_all 8 m.key h.size), h.size)

length-write_records :
    (ms : List KeyMessage) → All IsRecord ms → length (write_records ms) ≡ length ms * 10
unfolding write_records
length-write_records [] h = refl
length-write_records (m ∷ ms) h = omega (
  arith,
  length-append (copy_message (some m)) (write_records ms),
  length-copy_message m h.0,
  length-write_records ms h.1,
)

read-write_records :
    (ms : List KeyMessage) → All IsRecord ms → read_records (length ms) (write_records ms) ≡ ms
unfolding read_records write_records
read-write_records [] h = refl
read-write_records (m ∷ ms) h = ap₂ ◌∷◌ (read-copy_message m (write_records ms) h.0) (
    ap (read_records (length ms))
      (drop-append 10 0 (copy_message (some m)) (write_records ms) (length-copy_message m h.0))
    ∙ read-write_records ms h.1)

-- Records of nodes, written behind each other, are read as they were.
pub messages_of-write_records :
    (ms : List KeyMessage) → All IsRecord ms → messages_of (write_records ms) ≡ some ms
unfolding messages_of
messages_of-write_records ms h =
    let len = length-write_records ms h in
    ap
      (λ t.
        if t then some (read_records (length (write_records ms) / 10) (write_records ms)) else none)
      (whole (length (write_records ms)) (length ms) len)
    ∙ ap (λ n. some (read_records n (write_records ms))) (omega (arith, len))
    ∙ ap some (read-write_records ms h)
