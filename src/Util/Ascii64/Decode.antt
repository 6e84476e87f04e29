-- ===== src/Util/Ascii64/Decode.antt =====
-- What `ascii64_decode` makes of the output of `ascii64_encode`.
use lbard.Prelude.{
  ℕ, zero, suc, ◌+◌, ◌-◌, ◌*◌, ◌/◌, ◌%◌, ◌<◌, List, [], ◌∷◌, ◌++◌, ◌≡◌, refl, ap, ◌∙◌, true, false,
  lt→ltb, arith, sym, get_or,
}
use lbard.Util.Ascii64.{encode_block, escape, encode_from, ascii64_encode, ascii64_decode}

-- `n` bytes of a memory, from `i` on.
unfoldable pub bytes_of : (ℕ → ℕ) → ℕ → ℕ → List ℕ
bytes_of memory i zero = []
bytes_of memory i (suc n) = memory i ∷ bytes_of memory (i + 1) n

escape_none : (l : List ℕ) → escape false l ≡ l
unfolding escape
escape_none [] = refl
escape_none (c ∷ l) = ground (arith, escape_none l)

decode_block :
    (a b c room : ℕ) (rest : List ℕ)
    → a < 256
    → b < 256
    → c < 256
    → 3 < room
    → ascii64_decode (encode_block a b c ++ rest) room
      ≡ a ∷ (b ∷ (c ∷ ascii64_decode rest (room - 3)))
unfolding encode_block ascii64_decode
decode_block a b c room rest ha hb hc h =
    rw (lt→ltb 3 room h) (λ i. first i ∷ (second i ∷ (third i ∷ ascii64_decode rest (room - 3))))
  where
    first : (32 + a % 64 + 32) % 64 + (32 + a / 64 + b % 16 * 4 + 32) % 4 * 64 ≡ a
    first = omega arith

    second :
        (32 + a / 64 + b % 16 * 4 + 32) % 64 / 4 + (32 + b / 16 + c % 4 * 16 + 32) % 16 * 16 ≡ b
    second = omega arith

    third : (32 + b / 16 + c % 4 * 16 + 32) % 64 / 16 + (32 + c / 4 + 32) % 64 * 4 % 256 ≡ c
    third = omega arith

three_more :
    (memory : ℕ → ℕ) (i n : ℕ)
    → bytes_of memory i (3 * suc n)
      ≡ memory i ∷ memory (i + 1) ∷ memory (i + 2) ∷ bytes_of memory (i + 3) (3 * n)
unfolding bytes_of
three_more memory i n =
    ap (bytes_of memory i) count
    ∙ (λ j. memory i ∷ memory (i + 1) ∷ memory (next j) ∷ bytes_of memory (behind j) (3 * n))
  where
    count : 3 * suc n ≡ suc (suc (suc (3 * n)))
    count = omega arith

    next : i + 1 + 1 ≡ i + 2
    next = omega arith

    behind : i + 1 + 1 + 1 ≡ i + 3
    behind = omega arith

decode_from :
    (memory : ℕ → ℕ) (i n room : ℕ)
    → ((k : ℕ) → memory k < 256)
    → 3 * n < room
    → ascii64_decode (encode_from false memory i n) room ≡ bytes_of memory i (3 * n)
unfolding encode_from bytes_of
decode_from memory i zero room h fits = unfold ascii64_decode in refl
decode_from memory i (suc n) room h fits =
    ap (λ l. ascii64_decode (l ++ encode_from false memory (i + 3) n) room)
      (escape_none (encode_block (memory i) (memory (i + 1)) (memory (i + 2))))
    ∙ decode_block (memory i) (memory (i + 1)) (memory (i + 2)) room
        (encode_from false memory (i + 3) n) (h i) (h (i + 1)) (h (i + 2)) (omega arith)
    ∙ ap (λ l. memory i ∷ memory (i + 1) ∷ memory (i + 2) ∷ l)
        (decode_from memory (i + 3) n (room - 3) h (omega arith))
    ∙ sym (three_more memory i n)

-- Unless spaces are escaped, bytes whose number is a multiple of three are got back, if the output
-- has room for one byte more than there are.
pub ascii64_roundtrip :
    (memory : ℕ → ℕ) (n out_len : ℕ)
    → ((k : ℕ) → memory k < 256)
    → 3 * n < out_len
    → ascii64_decode (ascii64_encode false memory (3 * n)) out_len ≡ bytes_of memory 0 (3 * n)
unfolding ascii64_encode
ascii64_roundtrip memory n out_len h fits =
    ap (λ rounds. ascii64_decode (encode_from false memory 0 rounds) out_len) rounds
    ∙ decode_from memory 0 n out_len h fits
  where
    rounds : (3 * n + 2) / 3 ≡ n
    rounds = omega arith

first_decoded :
    (p q : ℕ) (l : List ℕ) (room : ℕ)
    → 3 < room
    → get_or (ascii64_decode (p ∷ q ∷ l) room) 0 0 ≡ (p + 32) % 64 + (q + 32) % 4 * 64
unfolding ascii64_decode
first_decoded p q [] room h = rw (lt→ltb 3 room h) refl
first_decoded p q (r ∷ []) room h = rw (lt→ltb 3 room h) refl
first_decoded p q (r ∷ s ∷ l) room h = rw (lt→ltb 3 room h) refl

escape_space :
    (c : ℕ) (l rest : List ℕ)
    → c ≡ 32
    → escape true (c ∷ l) ++ rest ≡ 92 ∷ 32 ∷ (escape true l ++ rest)
unfolding escape
escape_space c l rest e = rw (e) refl

-- On a Codan radio, where spaces are escaped, a first byte with its low six bits at zero is decoded
-- as 0x3c: the backslash of the escaped space is decoded as a character like any other.
pub ascii64_codan :
    (memory : ℕ → ℕ) (in_len out_len : ℕ)
    → 0 < in_len
    → 3 < out_len
    → memory 0 % 64 ≡ 0
    → get_or (ascii64_decode (ascii64_encode true memory in_len) out_len) 0 0 ≡ 0x3c
unfolding ascii64_encode encode_from encode_block
ascii64_codan memory in_len out_len h fits e =
    ap (λ rounds. get_or (ascii64_decode (encode_from true memory 0 rounds) out_len) 0 0) more
    ∙ ap (λ l. get_or (ascii64_decode l out_len) 0 0)
        (escape_space (32 + memory 0 % 64)
          ((32 + memory 0 / 64 + memory 1 % 16 * 4)
            ∷ (32 + memory 1 / 16 + memory 2 % 4 * 16)
            ∷ (32 + memory 2 / 4)
            ∷ [])
          (encode_from true memory 3 ((in_len - 1) / 3)) (omega arith))
    ∙ first_decoded 92 32 _ out_len fits
  where
    more : (in_len + 2) / 3 ≡ suc ((in_len - 1) / 3)
    more = omega arith
