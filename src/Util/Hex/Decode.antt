-- ===== src/Util/Hex/Decode.antt =====
-- `hex_decode` on text made of hexadecimal digits.
use lbard.Prelude.{
  ℕ, zero, suc, ◌-◌, ◌*◌, ◌≤◌, ◌<◌, List, [], ◌∷◌, ◌≡◌, refl, true, false, leb, All, arith, length,
  replicate,
}
use lbard.Util.Hex.{hextochar, ishex, decode_pair, hex_decode}

hextochar_digit : (c : ℕ) → ishex c ≡ true → hextochar c ≡ 63
unfolding hextochar ishex
hextochar_digit c h = ground arith

leb-false : (a b : ℕ) → b < a → leb a b ≡ false
leb-false a b h = ground arith

decode_pair_digits : (a b : ℕ) → ishex a ≡ true → ishex b ≡ true → decode_pair a b ≡ 255
unfolding decode_pair
decode_pair_digits a b h k = rw (hextochar_digit a h, hextochar_digit b k) refl

-- Pairs of hexadecimal digits that fit into the output are all decoded to the byte 0xFF,
-- whatever the digits are.
pub hex_decode_constant :
    (n : ℕ) (text : List ℕ) (out_len : ℕ)
    → length text ≡ 2 * n
    → n ≤ out_len
    → All (λ c. ishex c ≡ true) text
    → hex_decode text out_len ≡ replicate n 255
unfolding hex_decode
hex_decode_constant zero [] out_len e h digits = refl
hex_decode_constant zero (a ∷ text) out_len e h digits = absurd (omega arith)
hex_decode_constant (suc n) [] out_len e h digits = absurd (omega arith)
hex_decode_constant (suc n) (a ∷ []) out_len e h digits = absurd (omega arith)
hex_decode_constant (suc zero) (a ∷ b ∷ []) out_len e h digits =
    rw (decode_pair_digits a b digits.0 digits.1.0) (ground arith)
hex_decode_constant (suc zero) (a ∷ b ∷ c ∷ text) out_len e h digits = absurd (omega arith)
hex_decode_constant (suc (suc n)) (a ∷ b ∷ text) out_len e h digits =
    rw
      (
        decode_pair_digits a b digits.0 digits.1.0,
        leb-false out_len 1 (omega arith),
        hex_decode_constant (suc n) text (out_len - 1) (omega arith) (omega arith) digits.1.1,
      )
      refl
