-- ===== src/Util/Ascii64/Tests.antt =====
-- Runs of the 64-character codec, and each theorem about it at an input.
use lbard.Prelude.{ℕ, zero, suc, [], ◌∷◌, ◌≡◌, refl, true, false, arith, ◌<◌}
use lbard.Util.Ascii64.{encode_block, escape, encode_from, ascii64_encode, ascii64_decode}
use lbard.Util.Ascii64.Decode.{bytes_of, ascii64_roundtrip}

program : Unit {0}
unfolding encode_block escape encode_from ascii64_encode ascii64_decode bytes_of
program = tt

abbrev memory : ℕ → ℕ
memory zero = 0x40
memory (suc zero) = 0xff
memory (suc (suc k)) = 0x07

memory_lem : (k : ℕ) → memory k < 256
memory_lem zero = omega arith
memory_lem (suc zero) = omega arith
memory_lem (suc (suc k)) = omega arith

encoded : ascii64_encode false memory 3 ≡ 0x20 ∷ 0x5d ∷ 0x5f ∷ 0x21 ∷ []
unfolding program
encoded = refl

escaped : ascii64_encode true memory 3 ≡ 0x5c ∷ 0x20 ∷ 0x5d ∷ 0x5f ∷ 0x21 ∷ []
unfolding program
escaped = refl

ascii64_roundtrip_example :
    ascii64_decode (ascii64_encode false memory 3) 4 ≡ 0x40 ∷ 0xff ∷ 0x07 ∷ []
unfolding program
ascii64_roundtrip_example = ascii64_roundtrip memory 1 4 memory_lem (omega arith)
