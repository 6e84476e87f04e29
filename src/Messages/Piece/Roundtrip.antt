-- ===== src/Messages/Piece/Roundtrip.antt =====
-- `message_parser_50` on what `sync_append_some_bundle_bytes` writes.
use lbard.Prelude.{
  ℕ, ◌+◌, ◌-◌, ◌/◌, ◌%◌, ◌^◌, ◌≤◌, ◌<◌, List, [], ◌∷◌, ◌++◌, ◌≡◌, refl, ap, ◌∙◌, none, some, Bool,
  true, false, not, ltb, ◌==◌, if◌then◌else◌, take, drop, length, lt→ltb, le→ltb, arith,
  length-take, length-append,
}
use lbard.Messages.Piece.{le_bytes, offset_compound, piece_message, Parsed, message_parser_50}
use lbard.Messages.Piece.Bytes.{drop-append}
use lbard.Messages.Piece.Fields.{
  as_parsed, parse_step, low_compound-lt, parsed_lem, message_lem, four_bytes, six_bytes,
  near_compound, far_compound, eight_bytes,
}

-- The length of the header, from the kind of the message.
abbrev header_length : ℕ → ℕ
header_length kind = if kind / 32 % 2 == 0 then 25 else 23

near_header : (ne : Bool) → header_length (112 + (if ne then 1 else 0)) ≡ 23
near_header true = refl
near_header false = refl

near_ends : (ne : Bool) → ((112 + (if ne then 1 else 0)) % 2 == 0) ≡ not ne
near_ends true = refl
near_ends false = refl

far_header : (ne : Bool) → header_length (80 + (if ne then 1 else 0)) ≡ 25
far_header true = refl
far_header false = refl

far_ends : (ne : Bool) → ((80 + (if ne then 1 else 0)) % 2 == 0) ≡ not ne
far_ends true = refl
far_ends false = refl

short_length :
    (m ne : Bool) (start version a b c : ℕ) (s bid p : List ℕ)
    → start < 2 ^ 20
    → 8 ≤ length bid
    → length (piece_message m start 1 ne (a ∷ b ∷ s) bid version (c ∷ p)) ≡ 24
unfolding piece_message le_bytes
short_length m ne start version a b c s bid p h long = rw (le→ltb 0xfffff start (omega arith)) (
    omega (
      arith,
      length-take 8 bid,
      length-append (take 8 bid)
          (le_bytes 8 version ++ (le_bytes 4 (offset_compound m start 1) ++ (c ∷ []))),
    ))

module _ (my_sid : List ℕ) (m : Bool) (a b start bytes version n : ℕ) (s bid p rest : List ℕ)
    (few : bytes ≤ 0x7ff) (low : version < 2 ^ 64) (long : 8 ≤ length bid) (enough : 25 ≤ n) where
  abbrev C : ℕ
  C = offset_compound m start bytes

  prefix_length : length (take 8 bid) ≡ 8
  prefix_length = omega (arith, length-take 8 bid)

  tail_near :
      (kind : ℕ)
      → drop 23 (
          kind
          ∷ a
          ∷ b
          ∷ (take 8 bid ++ (le_bytes 8 version ++ (le_bytes 4 C ++ (take bytes p ++ rest)))))
        ≡ take bytes p ++ rest
  unfolding le_bytes
  tail_near kind =
      drop-append 8 12 (take 8 bid) (le_bytes 8 version ++ (le_bytes 4 C ++ (take bytes p ++ rest)))
        prefix_length

  tail_far :
      (kind : ℕ)
      → drop 25 (
          kind
          ∷ a
          ∷ b
          ∷ (take 8 bid ++ (le_bytes 8 version ++ (le_bytes 6 C ++ (take bytes p ++ rest)))))
        ≡ take bytes p ++ rest
  unfolding le_bytes
  tail_far kind =
      drop-append 8 14 (take 8 bid) (le_bytes 8 version ++ (le_bytes 6 C ++ (take bytes p ++ rest)))
        prefix_length

  read_near :
      (ne : Bool)
      → start < 2 ^ 20
      → message_parser_50 my_sid
          (piece_message m start bytes ne (a ∷ b ∷ s) bid version p ++ rest)
          n
        ≡ some (as_parsed my_sid a b bid version start bytes m ne 23 (take bytes p ++ rest))
  unfolding le_bytes
  read_near ne h =
      ap (λ l. message_parser_50 my_sid l n)
        (message_lem m false ne start bytes a b version s bid p rest (le→ltb _ _ (omega arith)))
      ∙ parse_step my_sid (112 + (if ne then 1 else 0)) a b n 23 (take 8 bid) _ prefix_length enough
          (near_header ne)
      ∙ ap some (
          parsed_lem m start bytes h few my_sid (112 + (if ne then 1 else 0)) a b bid version _ _ 23
            ne _ _ (eight_bytes version (le_bytes 4 C ++ (take bytes p ++ rest)) low)
            (four_bytes C (take bytes p ++ rest) (
                omega
                  (arith, near_compound m start bytes h few, low_compound-lt m start bytes h few))
              ∙ near_compound m start bytes h few)
            (near_ends ne) (tail_near (112 + (if ne then 1 else 0))))

  read_far :
      (ne : Bool)
      → 2 ^ 20 ≤ start
      → start < 2 ^ 36
      → message_parser_50 my_sid
          (piece_message m start bytes ne (a ∷ b ∷ s) bid version p ++ rest)
          n
        ≡ some
            (as_parsed my_sid a b bid version (start % 2 ^ 20) bytes m ne 25 (take bytes p ++ rest))
  unfolding le_bytes
  read_far ne g h =
      ap (λ l. message_parser_50 my_sid l n)
        (message_lem m true ne start bytes a b version s bid p rest (lt→ltb _ _ (omega arith)))
      ∙ parse_step my_sid (80 + (if ne then 1 else 0)) a b n 25 (take 8 bid) _ prefix_length enough
          (far_header ne)
      ∙ ap some (
          parsed_lem m (start % 2 ^ 20) bytes (omega arith) few my_sid (80 + (if ne then 1 else 0))
            a b bid version _ _ 25 ne _ _
            (eight_bytes version (le_bytes 6 C ++ (take bytes p ++ rest)) low)
            (six_bytes C (take bytes p ++ rest) (far_compound m start bytes h few).0
              ∙ (far_compound m start bytes h few).1)
            (far_ends ne) (tail_far (80 + (if ne then 1 else 0))))

-- A piece that starts below 2 ^ 20 and has at most 0x7ff bytes, in a packet that has at least 25
-- bytes from the message on, is taken out of the packet as it was put in: whether it is for the
-- reader, the first eight bytes of the bundle's ID, a version below 2 ^ 64, the offset, the number
-- of bytes, whether the item ends with it and whether it is a piece of the manifest, with the bytes
-- from the piece on, and the end of the message as the result.
pub message_parser_50-piece_message :
    (my_sid : List ℕ) (m ne : Bool) (a b start bytes version n : ℕ) (s bid p rest : List ℕ)
    → start < 2 ^ 20
    → bytes ≤ 0x7ff
    → version < 2 ^ 64
    → 8 ≤ length bid
    → 25 ≤ n
    → message_parser_50 my_sid (piece_message m start bytes ne (a ∷ b ∷ s) bid version p ++ rest) n
      ≡ some (as_parsed my_sid a b bid version start bytes m ne 23 (take bytes p ++ rest))
message_parser_50-piece_message my_sid m ne a b start bytes version n s bid p rest h few low long
      k =
    read_near my_sid m a b start bytes version n s bid p rest few low long k ne h

-- A piece that starts at 2 ^ 20 or behind it, below 2 ^ 36, is taken out of the packet with the
-- remainder of its offset by 2 ^ 20 in place of the offset; all else is as it was put in.
pub message_parser_50_far :
    (my_sid : List ℕ) (m ne : Bool) (a b start bytes version n : ℕ) (s bid p rest : List ℕ)
    → 2 ^ 20 ≤ start
    → start < 2 ^ 36
    → bytes ≤ 0x7ff
    → version < 2 ^ 64
    → 8 ≤ length bid
    → 25 ≤ n
    → message_parser_50 my_sid (piece_message m start bytes ne (a ∷ b ∷ s) bid version p ++ rest) n
      ≡ some
          (as_parsed my_sid a b bid version (start % 2 ^ 20) bytes m ne 25 (take bytes p ++ rest))
message_parser_50_far my_sid m ne a b start bytes version n s bid p rest g h few low long k =
    read_far my_sid m a b start bytes version n s bid p rest few low long k ne g h

-- A message with a piece of a single byte that ends the packet, from below 2 ^ 20, is refused.
pub message_parser_50_short :
    (my_sid : List ℕ) (m ne : Bool) (a b start version c : ℕ) (s bid p : List ℕ)
    → start < 2 ^ 20
    → 8 ≤ length bid
    → message_parser_50 my_sid
        (piece_message m start 1 ne (a ∷ b ∷ s) bid version (c ∷ p))
        (length (piece_message m start 1 ne (a ∷ b ∷ s) bid version (c ∷ p)))
      ≡ none
unfolding message_parser_50
message_parser_50_short my_sid m ne a b start version c s bid p h long =
    refuse (ltb (length msg - 3) 22) _ (lt→ltb _ _ (omega (arith, size)))
  where
    msg : List ℕ
    msg = piece_message m start 1 ne (a ∷ b ∷ s) bid version (c ∷ p)

    refuse : (c : Bool) (x : Parsed) → c ≡ true → (if c then none else some x) ≡ none
    refuse c x f = ap (λ c. if c then none else some x) f

    size : length msg ≡ 24
    size = short_length m ne start version a b c s bid p h long
