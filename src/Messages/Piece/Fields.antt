-- ===== src/Messages/Piece/Fields.antt =====
-- The fields of a piece's message, as they are written and as they are read.
use lbard.Prelude.{
  ℕ, ◌+◌, ◌-◌, ◌*◌, ◌/◌, ◌%◌, ◌^◌, ◌≤◌, ◌<◌, List, [], ◌∷◌, ◌++◌, ◌≡◌, refl, ap, ◌∙◌, none, some,
  Bool, false, not, ltb, ◌==◌, ◌&&◌, if◌then◌else◌, take, drop, get_or, length, le→ltb, arith,
}
use lbard.Messages.Piece.{
  le_bytes, le_value, offset_compound, piece_message, Parsed, message_parser_50,
}
use lbard.Messages.Piece.Bytes.{le_value-le_bytes, take-append, drop-append}

-- A message whose fields are read off the bytes in their places.
abbrev pub parsed : List ℕ → ℕ → ℕ → ℕ → List ℕ → ℕ → ℕ → ℕ → List ℕ → Parsed
parsed my_sid kind a b bid version compound start piece = record {
  for_me = get_or my_sid 0 0 == a && get_or my_sid 1 0 == b;
  bid_prefix_bin = bid;
  version = version;
  piece_offset = compound % 2 ^ 20 + compound / 2 ^ 12 / 2 ^ 20 % 2 ^ 12 * 2 ^ 20;
  piece_bytes = compound / 2 ^ 20 % 0x800;
  is_end_piece = kind % 2 == 0;
  is_manifest_piece = compound / 2 ^ 31 % 2 == 1;
  piece = piece;
  offset = start + compound / 2 ^ 20 % 0x800;
}

pub parse_step :
    (my_sid : List ℕ) (kind a b n start : ℕ) (bid tail : List ℕ)
    → length bid ≡ 8
    → 25 ≤ n
    → (if kind / 32 % 2 == 0 then 25 else 23) ≡ start
    → message_parser_50 my_sid (kind ∷ a ∷ b ∷ (bid ++ tail)) n
      ≡ some (
          parsed my_sid kind a b bid
            (le_value (take 8 tail))
            (le_value (take 6 (drop 8 tail)) % 2 ^ 32)
            start
            (drop start (kind ∷ a ∷ b ∷ (bid ++ tail))))
unfolding message_parser_50
parse_step my_sid kind a b n start bid tail h k e =
    keep_some (ltb (n - 3) 22) _ (le→ltb (n - 3) 22 (omega arith)) ∙ (λ i. some (
      parsed my_sid kind a b (take-append 8 bid tail h i)
        (le_value (take 8 (drop-append 8 0 bid tail h i)))
        (le_value (take 6 (drop-append 8 8 bid tail h i)) % 2 ^ 32) (e i)
        (drop (e i) (kind ∷ a ∷ b ∷ (bid ++ tail)))))
  where
    keep_some : (c : Bool) (x : Parsed) → c ≡ false → (if c then none else some x) ≡ some x
    keep_some c x f = ap (λ c. if c then none else some x) f

-- `offset_compound` as far as it fits into 32 bits.
pub low_compound : Bool → ℕ → ℕ → ℕ
low_compound m offset bytes = offset + bytes * 2 ^ 20 + (if m then 2 ^ 31 else 0)

-- What the parser makes of a piece whose offset it takes for `offset`.
abbrev pub as_parsed : List ℕ → ℕ → ℕ → List ℕ → ℕ → ℕ → ℕ → Bool → Bool → ℕ → List ℕ → Parsed
as_parsed my_sid a b bid version offset bytes m not_end header piece = record {
  for_me = get_or my_sid 0 0 == a && get_or my_sid 1 0 == b;
  bid_prefix_bin = take 8 bid;
  version = version;
  piece_offset = offset;
  piece_bytes = bytes;
  is_end_piece = not not_end;
  is_manifest_piece = m;
  piece = piece;
  offset = header + bytes;
}

module _ (m : Bool) (offset bytes : ℕ) (small : offset < 2 ^ 20) (few : bytes ≤ 0x7ff) where
  pub low_compound-lt : low_compound m offset bytes < 2 ^ 32
  unfolding low_compound
  low_compound-lt = ground arith

  compound_offset :
      low_compound m offset bytes % 2 ^ 20
        + low_compound m offset bytes / 2 ^ 12 / 2 ^ 20 % 2 ^ 12 * 2 ^ 20
      ≡ offset
  unfolding low_compound
  compound_offset = ground arith

  compound_bytes : low_compound m offset bytes / 2 ^ 20 % 0x800 ≡ bytes
  unfolding low_compound
  compound_bytes = ground arith

  compound_manifest : (low_compound m offset bytes / 2 ^ 31 % 2 == 1) ≡ m
  unfolding low_compound
  compound_manifest = ground arith

  pub parsed_lem :
      (my_sid : List ℕ) (kind a b : ℕ) (bid : List ℕ) (version value compound header : ℕ)
      (ne : Bool) (piece piece' : List ℕ)
      → value ≡ version
      → compound ≡ low_compound m offset bytes
      → (kind % 2 == 0) ≡ not ne
      → piece ≡ piece'
      → parsed my_sid kind a b (take 8 bid) value compound header piece
        ≡ as_parsed my_sid a b bid version offset bytes m ne header piece'
  parsed_lem my_sid kind a b bid version value compound header ne piece piece' e f g q =
      (λ i. record (parsed my_sid kind a b (take 8 bid) (e i) (f i) header (q i)) {
        is_end_piece = g i;
      })
      ∙ (λ i. record {
        for_me = get_or my_sid 0 0 == a && get_or my_sid 1 0 == b;
        bid_prefix_bin = take 8 bid;
        version = version;
        piece_offset = compound_offset i;
        piece_bytes = compound_bytes i;
        is_end_piece = not ne;
        is_manifest_piece = compound_manifest i;
        piece = piece';
        offset = header + compound_bytes i;
      })

append_assoc : (xs ys zs : List ℕ) → (xs ++ ys) ++ zs ≡ xs ++ (ys ++ zs)
append_assoc [] ys zs = refl
append_assoc (x ∷ xs) ys zs = ap (λ l. x ∷ l) (append_assoc xs ys zs)

append_assoc_four :
    (ws xs ys zs rest : List ℕ)
    → (ws ++ (xs ++ (ys ++ zs))) ++ rest ≡ ws ++ (xs ++ (ys ++ (zs ++ rest)))
append_assoc_four ws xs ys zs rest =
    append_assoc ws (xs ++ (ys ++ zs)) rest
    ∙ ap (λ l. ws ++ l)
        (append_assoc xs (ys ++ zs) rest ∙ ap (λ l. xs ++ l) (append_assoc ys zs rest))

-- The message in its parts; `above` says that the offset needs six bytes.
pub message_lem :
    (m above ne : Bool) (start bytes a b version : ℕ) (s bid p rest : List ℕ)
    → ltb 0xfffff start ≡ above
    → piece_message m start bytes ne (a ∷ b ∷ s) bid version p ++ rest
      ≡ ((if above then 80 else 112) + (if ne then 1 else 0))
        ∷ a
        ∷ b
        ∷ (take 8 bid
            ++ (le_bytes 8 version
                ++ (le_bytes (if above then 6 else 4) (offset_compound m start bytes)
                    ++ (take bytes p ++ rest))))
unfolding piece_message
message_lem m above ne start bytes a b version s bid p rest e =
    ap
      (λ c.
        (((if c then 80 else 112) + (if ne then 1 else 0))
          ∷ a
          ∷ b
          ∷ (take 8 bid
              ++ (le_bytes 8 version
                  ++ (le_bytes (if c then 6 else 4) (offset_compound m start bytes)
                      ++ take bytes p))))
        ++ rest)
      e
    ∙ ap (λ l. ((if above then 80 else 112) + (if ne then 1 else 0)) ∷ a ∷ b ∷ l)
        (append_assoc_four (take 8 bid) (le_bytes 8 version)
          (le_bytes (if above then 6 else 4) (offset_compound m start bytes)) (take bytes p) rest)

-- Four bytes are what they say, whatever follows.
pub four_bytes :
    (v : ℕ) (tail : List ℕ) → v < 2 ^ 32 → le_value (take 6 (le_bytes 4 v ++ tail)) % 2 ^ 32 ≡ v
unfolding le_bytes le_value
four_bytes v tail h = omega arith

-- Of six bytes the upper two are lost.
pub six_bytes :
    (v : ℕ) (tail : List ℕ)
    → v < 2 ^ 48
    → le_value (take 6 (le_bytes 6 v ++ tail)) % 2 ^ 32 ≡ v % 2 ^ 32
unfolding le_bytes le_value
six_bytes v tail h = omega arith

pub near_compound :
    (m : Bool) (start bytes : ℕ)
    → start < 2 ^ 20
    → bytes ≤ 0x7ff
    → offset_compound m start bytes ≡ low_compound m start bytes
unfolding offset_compound low_compound
near_compound m start bytes h k = ground arith

pub far_compound :
    (m : Bool) (start bytes : ℕ)
    → start < 2 ^ 36
    → bytes ≤ 0x7ff
    → (offset_compound m start bytes < 2 ^ 48)
      × (offset_compound m start bytes % 2 ^ 32 ≡ low_compound m (start % 2 ^ 20) bytes)
unfolding offset_compound low_compound
far_compound m start bytes h k = (ground arith, ground arith)

pub eight_bytes :
    (v : ℕ) (tail : List ℕ) → v < 2 ^ 64 → le_value (take 8 (le_bytes 8 v ++ tail)) ≡ v
unfolding le_bytes
eight_bytes v tail h = le_value-le_bytes 8 v h
