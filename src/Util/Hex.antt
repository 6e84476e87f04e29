-- ===== src/Util/Hex.antt =====
-- src/util.c: hexadecimal digits, `hex_encode` and `hex_decode`. A character is its code; an `int`
-- result is `none` where it is -1. The arguments of the digit functions are not negative.
pub mod Digits
pub mod Decode
mod Tests
use lbard.Prelude.{
  ℕ, zero, suc, ◌+◌, ◌-◌, ◌*◌, ◌/◌, ◌%◌, List, [], ◌∷◌, Option, none, some, Bool, true, false, ltb,
  leb, ◌&&◌, ◌||◌, if◌then◌else◌, bit_or,
}

-- Whether a character is in a range.
abbrev pub between : ℕ → ℕ → ℕ → Bool
between low high c = leb low c && leb c high

-- Digits and capital letters only.
pub chartohex : ℕ → Option ℕ
chartohex c =
    if between 48 57 c then some (c - 48) else if between 65 70 c then some (c - 65 + 10) else none

-- The question mark is what every other number comes to.
pub hextochar : ℕ → ℕ
hextochar h = if ltb h 10 then h + 48 else if leb 10 h && ltb h 16 then h + 65 - 10 else 63

pub nybltohexchar : ℕ → Option ℕ
nybltohexchar v = if ltb v 10 then some (48 + v) else if ltb v 16 then some (65 + v - 10) else none

pub ishex : ℕ → Bool
ishex c = between 48 57 c || (between 65 70 c || between 97 102 c)

pub chartohexnybl : ℕ → Option ℕ
chartohexnybl c =
    if between 48 57 c
    then some (c - 48)
    else if between 65 70 c
    then some (c - 65 + 10)
    else if between 97 102 c
    then some (c - 97 + 10)
    else none

-- A result that is stored in a `char`; -1 is the code 255.
abbrev pub char_of : Option ℕ → ℕ
char_of none = 255
char_of (some c) = c

-- The characters before the terminating zero.
pub hex_encode : List ℕ → List ℕ
unfolding nybltohexchar
hex_encode [] = []
hex_encode (b ∷ rest) =
    char_of (nybltohexchar (b / 16)) ∷ char_of (nybltohexchar (b % 16)) ∷ hex_encode rest

-- `v=hextochar(a)<<4; v|=hextochar(b)`, stored in an `unsigned char`.
pub decode_pair : ℕ → ℕ → ℕ
unfolding hextochar
decode_pair a b = bit_or (hextochar a * 16) (hextochar b) % 256

-- The bytes before the zero that is written behind them; their number is the return value. The
-- text is the string without its terminating zero, which stands in for a missing second digit.
-- The bound on the bytes is read after each of them.
pub hex_decode : List ℕ → ℕ → List ℕ
unfolding decode_pair
hex_decode [] out_len = []
hex_decode (a ∷ []) out_len = decode_pair a 0 ∷ []
hex_decode (a ∷ b ∷ rest) out_len =
    let more = hex_decode rest (out_len - 1) in
    decode_pair a b ∷ (if leb out_len 1 then [] else more)
