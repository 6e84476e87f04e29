-- ===== src/Util/Hex/Tests.antt =====
-- Runs of the hexadecimal codec, and each theorem about it at an input.
use lbard.Prelude.{◌∷◌, [], ◌≡◌, refl, some, arith}
use lbard.Util.Hex.{
  hextochar, nybltohexchar, ishex, chartohex, chartohexnybl, hex_encode, hex_decode, decode_pair,
}
use lbard.Util.Hex.Digits.{chartohex-chartohexnybl}
use lbard.Util.Hex.Decode.{hex_decode_constant}

program : Unit {0}
unfolding hextochar nybltohexchar ishex chartohex chartohexnybl hex_encode hex_decode decode_pair
program = tt

-- "0AFF"
encoded : hex_encode (0x0a ∷ 0xff ∷ []) ≡ 48 ∷ 65 ∷ 70 ∷ 70 ∷ []
unfolding program
encoded = refl

-- What is not a digit of a hexadecimal number is read as the number of a digit.
decoded_raw : hex_decode (0 ∷ 10 ∷ 3 ∷ []) 9 ≡ 0x41 ∷ 0x30 ∷ []
unfolding program
decoded_raw = refl

chartohex-chartohexnybl_example : (chartohexnybl 67 ≡ some 12) × (nybltohexchar 12 ≡ some 67)
chartohex-chartohexnybl_example = chartohex-chartohexnybl 67 12 (unfold program in refl)

-- "0aFF"
hex_decode_constant_example : hex_decode (48 ∷ 97 ∷ 70 ∷ 70 ∷ []) 8 ≡ 255 ∷ 255 ∷ []
hex_decode_constant_example =
    hex_decode_constant 2 (48 ∷ 97 ∷ 70 ∷ 70 ∷ []) 8 refl (omega arith)
      (unfold program in (refl, (refl, (refl, (refl, tt)))))
