-- ===== src/Messages/Length.antt =====
-- src/messages/bundlelength.c: the length of a bundle's body is announced, and noted.
pub mod Noted
mod Tests
use lbard.Prelude.{
  ℕ, ◌+◌, ◌-◌, ◌%◌, ◌^◌, List, [], ◌∷◌, ◌++◌, Option, none, some, Bool, true, false, ltb, ◌==◌,
  ◌&&◌, if◌then◌else◌, take, drop,
}
use lbard.Messages.Piece.{le_bytes, le_value}

-- What `announce_bundle_length` puts into the packet, if there is room.
unfoldable pub announce_bundle_length : ℕ → ℕ → List ℕ → ℕ → ℕ → List ℕ
unfolding le_bytes
announce_bundle_length mtu offset bid_bin version length =
    if ltb (offset + (1 + 8 + 8 + 4)) mtu
    then 0x4c ∷ (take 8 bid_bin ++ (le_bytes 8 version ++ le_bytes 4 length))
    else []

-- A C `int`.
pub data ℤ : Type 0 where
  pos : ℕ → ℤ
  negsuc : ℕ → ℤ

-- The conversion of a number that is not negative to an `int` of 32 bits, which keeps its low 32
-- bits: `negsuc n` is `-(n+1)`.
unfoldable pub to_int : ℕ → ℤ
to_int value =
    let low = value % 2 ^ 32 in if ltb low (2 ^ 31) then pos low else negsuc (2 ^ 32 - 1 - low)

-- What `saw_length` reads and writes of a partially received bundle; a slot that is not in use
-- has no prefix.
pub record PartialBundle : Type 0 where
  pub bid_prefix : Option (List ℕ)
  pub bundle_version : ℕ
  pub body_length : ℤ

-- `same_text` is a `strcasecmp` that finds no difference.
module _ (same_text : List ℕ → List ℕ → Bool) where
  unfoldable pub is_bundle : List ℕ → ℕ → PartialBundle → Bool
  is_bundle bid_prefix version p = elim p.bid_prefix [
    | none ↦ false
    | some text ↦ same_text text bid_prefix && p.bundle_version == version
  ]

  -- The loop of `saw_length`: the table, and whether 0 is returned.
  unfoldable pub note_length : List ℕ → ℕ → ℤ → List PartialBundle → List PartialBundle × Bool
  unfolding is_bundle
  note_length bid_prefix version body_length [] = ([], false)
  note_length bid_prefix version body_length (p ∷ partials) =
      let (rest, noted) = note_length bid_prefix version body_length partials in
      if is_bundle bid_prefix version p
      then (record p { body_length = body_length } ∷ partials, true)
      else (p ∷ rest, noted)

  -- `saw_length`, of a peer that is known or not.
  unfoldable pub saw_length : Bool → List ℕ → ℕ → ℤ → List PartialBundle → List PartialBundle × Bool
  unfolding note_length
  saw_length known bid_prefix version body_length partials =
      let noted = note_length bid_prefix version body_length partials in
      if known then noted else (partials, false)

  -- `message_parser_4C`; `print_prefix` is the `snprintf` of eight bytes, `none` is -3.
  unfoldable pub message_parser_4c :
      (List ℕ → List ℕ) → Bool → List ℕ → ℕ → List PartialBundle → Option (List PartialBundle × ℕ)
  unfolding saw_length le_value to_int
  message_parser_4c print_prefix known msg length partials =
      if ltb length (1 + 8 + 8 + 4)
      then none
      else some (
        (saw_length known (print_prefix (take 8 (drop 1 msg))) (le_value (take 8 (drop 9 msg)))
            (to_int (le_value (take 4 (drop 17 msg)))) partials).0,
        21,
      )
