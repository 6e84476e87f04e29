-- ===== src/Util/Ascii64.antt =====
-- src/util.c, `ascii64_encode` and `ascii64_decode`: three bytes as four of the characters 0x20 to
-- 0x5f. A character is its code, so the mask `&0x3f` of a number that is 0x20 less is the remainder
-- of one that is 0x20 more.
pub mod Decode
mod Tests
use lbard.Prelude.{
  ℕ, zero, suc, ◌+◌, ◌-◌, ◌*◌, ◌/◌, ◌%◌, List, [], ◌∷◌, ◌++◌, Bool, true, false, ltb, ◌==◌, ◌&&◌,
  if◌then◌else◌,
}

-- The four `ob` of the bytes `a`, `b` and `c`.
pub encode_block : ℕ → ℕ → ℕ → List ℕ
encode_block a b c =
    (32 + a % 64) ∷ (32 + a / 64 + b % 16 * 4) ∷ (32 + b / 16 + c % 4 * 16) ∷ (32 + c / 4) ∷ []

-- A space is escaped by a backslash if the radio is a Codan.
pub escape : Bool → List ℕ → List ℕ
escape codan [] = []
escape codan (c ∷ rest) =
    if c == 32 && codan then 92 ∷ c ∷ escape codan rest else c ∷ escape codan rest

-- The loop over `i`, with `rounds` rounds left. `memory` is what is read from `in`: the last round
-- reads up to two bytes behind `in_len`.
pub encode_from : Bool → (ℕ → ℕ) → ℕ → ℕ → List ℕ
unfolding encode_block escape
encode_from codan memory i zero = []
encode_from codan memory i (suc rounds) =
    escape codan (encode_block (memory i) (memory (i + 1)) (memory (i + 2)))
    ++ encode_from codan memory (i + 3) rounds

-- The characters before the terminating zero. The loop makes a round for every third of `in_len`
-- that is begun.
pub ascii64_encode : Bool → (ℕ → ℕ) → ℕ → List ℕ
unfolding encode_from
ascii64_encode codan memory in_len = encode_from codan memory 0 ((in_len + 2) / 3)

-- The bytes that `out_ofs` counts, which is the return value; `room` is `out_len - out_ofs`. The
-- text ends where the string does; a byte that is begun when it ends is not counted.
pub ascii64_decode : List ℕ → ℕ → List ℕ
ascii64_decode [] room = []
ascii64_decode (p ∷ []) room = []
ascii64_decode (p ∷ q ∷ []) room =
    if ltb 3 room then ((p + 32) % 64 + (q + 32) % 4 * 64) ∷ [] else []
ascii64_decode (p ∷ q ∷ r ∷ []) room =
    if ltb 3 room
    then ((p + 32) % 64 + (q + 32) % 4 * 64) ∷ ((q + 32) % 64 / 4 + (r + 32) % 16 * 16) ∷ []
    else []
ascii64_decode (p ∷ q ∷ r ∷ s ∷ rest) room =
    let more = ascii64_decode rest (room - 3) in
    if ltb 3 room
    then ((p + 32) % 64 + (q + 32) % 4 * 64)
      ∷ ((q + 32) % 64 / 4 + (r + 32) % 16 * 16)
      ∷ ((r + 32) % 64 / 16 + (s + 32) % 64 * 4 % 256)
      ∷ more
    else []
