-- ===== src/Util/Hex/Digits.antt =====
-- `hex_encode` against the digit readers.
use lbard.Prelude.{
  ℕ, ◌+◌, ◌*◌, ◌/◌, ◌%◌, ◌<◌, List, [], ◌∷◌, ◌≡◌, refl, ap, ◌∙◌, Option, none, some, true, All,
  arith, length,
}
use lbard.Util.Hex.{chartohex, chartohexnybl, nybltohexchar, ishex, hex_encode, char_of}

-- Pairs of digits read as bytes, the first digit the higher one.
abbrev pair_read : Option ℕ → Option ℕ → Option (List ℕ) → Option (List ℕ)
pair_read (some h) (some l) (some bytes) = some ((h * 16 + l) ∷ bytes)
pair_read _ _ _ = none

pub read_pairs : List ℕ → Option (List ℕ)
read_pairs [] = some []
read_pairs (a ∷ []) = none
read_pairs (a ∷ b ∷ rest) = pair_read (chartohexnybl a) (chartohexnybl b) (read_pairs rest)

digit-read : (v : ℕ) → v < 16 → chartohexnybl (char_of (nybltohexchar v)) ≡ some v
unfolding chartohexnybl nybltohexchar
digit-read v h = ground arith

digit-ishex : (v : ℕ) → v < 16 → ishex (char_of (nybltohexchar v)) ≡ true
unfolding ishex nybltohexchar
digit-ishex v h = ground arith

read_pairs_step :
    (a b : ℕ) (rest : List ℕ) (h l : ℕ) (bytes : List ℕ)
    → chartohexnybl a ≡ some h
    → chartohexnybl b ≡ some l
    → read_pairs rest ≡ some bytes
    → read_pairs (a ∷ b ∷ rest) ≡ some ((h * 16 + l) ∷ bytes)
unfolding read_pairs
read_pairs_step a b rest h l bytes p q r = λ i. pair_read (p i) (q i) (r i)

-- Every digit of `hex_encode` of bytes is a hexadecimal digit, two stand for each byte, and pairs
-- of them read by `chartohexnybl` give the bytes back.
pub hex_encode_roundtrip :
    (bytes : List ℕ)
    → All (λ b. b < 256) bytes
    → (read_pairs (hex_encode bytes) ≡ some bytes)
      × (length (hex_encode bytes) ≡ 2 * length bytes)
      × All (λ c. ishex c ≡ true) (hex_encode bytes)
unfolding hex_encode
hex_encode_roundtrip [] h = (unfold read_pairs in refl, refl, tt)
hex_encode_roundtrip (b ∷ bytes) h = (
  read_pairs_step (char_of (nybltohexchar (b / 16))) (char_of (nybltohexchar (b % 16)))
        (hex_encode bytes) (b / 16) (b % 16) bytes (digit-read (b / 16) (omega (arith, h.0)))
        (digit-read (b % 16) (omega arith)) (hex_encode_roundtrip bytes h.1).0
      ∙ ap (λ x. some (x ∷ bytes)) (omega arith),
  omega (arith, (hex_encode_roundtrip bytes h.1).1),
  (
    digit-ishex (b / 16) (omega (arith, h.0)),
    (digit-ishex (b % 16) (omega arith), (hex_encode_roundtrip bytes h.1).2),
  ),
)

-- On the digits that `chartohex` reads, `chartohexnybl` reads the same number.
pub chartohex-chartohexnybl :
    (c v : ℕ) → chartohex c ≡ some v → (chartohexnybl c ≡ some v) × (nybltohexchar v ≡ some c)
unfolding chartohex chartohexnybl nybltohexchar
chartohex-chartohexnybl c v h = (ground arith, ground arith)
