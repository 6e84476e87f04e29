-- ===== src/Messages/Length/Tests.antt =====
-- A length that is announced, and the theorem about it at an input.
use lbard.Prelude.{ℕ, ◌∷◌, [], ◌≡◌, refl, Bool, true, none, some, List, ◌==◌, get_or}
use lbard.Messages.Piece.{le_bytes, le_value}
use lbard.Messages.Length.{
  pos, negsuc, to_int, announce_bundle_length, PartialBundle, is_bundle, note_length, saw_length,
  message_parser_4c,
}

program : Unit {0}
unfolding announce_bundle_length is_bundle note_length saw_length message_parser_4c to_int le_bytes
    le_value
program = tt

abbrev bid_bin : List ℕ
bid_bin = 1 ∷ 2 ∷ 3 ∷ 4 ∷ 5 ∷ 6 ∷ 7 ∷ 8 ∷ []

-- The bytes stand for their digits.
abbrev print_prefix : List ℕ → List ℕ
print_prefix bytes = bytes

abbrev same_text : List ℕ → List ℕ → Bool
same_text a b = get_or a 0 0 == get_or b 0 0

abbrev wanted : PartialBundle
wanted = record { bid_prefix = some bid_bin; bundle_version = 9; body_length = pos 0 }

abbrev unused : PartialBundle
unused = record { bid_prefix = none; bundle_version = 9; body_length = pos 0 }

too_short :
    message_parser_4c same_text print_prefix true
      (announce_bundle_length 100 0 bid_bin 9 70000)
      20
      (wanted ∷ [])
    ≡ none
unfolding program
too_short = refl

-- A length from 2^31 on is noted as a negative number.
long_is_negative :
    message_parser_4c same_text print_prefix true
      (announce_bundle_length 100 0 bid_bin 9 0xffffffff)
      21
      (wanted ∷ [])
    ≡ some (record wanted { body_length = negsuc 0 } ∷ [], 21)
unfolding program
long_is_negative = refl
