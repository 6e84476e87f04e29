-- ===== src/Xfer/Bits.antt =====
-- A bitmap as an array of bytes: bit `b` is bit `b & 7` of byte `b >> 3`
-- (src/xfer/progress_bitmaps.c and its users).
use Prim.Native.Nat.{bit_and-bitwise}
use lbard.Prelude.{
  ℕ, zero, suc, ◌*◌, ◌/◌, ◌%◌, ◌^◌, ◌<◌, List, [], ◌∷◌, ◌≡◌, refl, ◌∙◌, ap, Bool, true, false, not,
  ◌&&◌, ◌||◌, ◌==◌, ltb, ltb→lt, arith, bit_and, bit_or, get_or, set, length, length-set,
  get_or-set_self, get_or-set_ne, All, ℕ_discrete, replicate, every, holds_below, get_or-replicate,
}

-- `b[i>>3] & (1<<(i&7))`
unfoldable pub test_bit : List ℕ → ℕ → Bool
test_bit bm b = not (bit_and (get_or bm (b / 8) 0) (2 ^ (b % 8)) == 0)

-- `b[i>>3] |= (1<<(i&7))`
unfoldable pub mark_bit : List ℕ → ℕ → List ℕ
mark_bit bm b = set bm (b / 8) (bit_or (get_or bm (b / 8) 0) (2 ^ (b % 8)))

abbrev pub AreBytes : List ℕ → Type 0
AreBytes = All (λ x. x < 256)

abbrev bit_of : ℕ → ℕ → Bool
bit_of x i = not (bit_and x (2 ^ i) == 0)

abbrev same : Bool → Bool → Bool
same true b = b
same false b = not b

same→eq : (a b : Bool) → same a b ≡ true → a ≡ b
same→eq a b h = ground arith

and_left : (a b : Bool) → (a && b) ≡ true → a ≡ true
and_left a b h = ground arith

and_right : (a b : Bool) → (a && b) ≡ true → b ≡ true
and_right a b h = ground arith

or_table :
    every
      (λ j.
        every
          (λ i.
            every
              (λ x.
                same (bit_of (bit_or x (2 ^ i)) j) (i == j || bit_of x j)
                && ltb (bit_or x (2 ^ i)) 256)
              256)
          8)
      8
    ≡ true
unfolding every
or_table = refl

bit_of-bit_or :
    (x i j : ℕ) → x < 256 → i < 8 → j < 8 → bit_of (bit_or x (2 ^ i)) j ≡ (i == j || bit_of x j)
bit_of-bit_or x i j hx hi hj =
    same→eq _ _
      (and_left _ _ (holds_below _ x 256 hx (holds_below _ i 8 hi (holds_below _ j 8 hj or_table))))

bit_or-lt : (x i : ℕ) → x < 256 → i < 8 → bit_or x (2 ^ i) < 256
bit_or-lt x i hx hi = ltb→lt _ _ (
    and_right _ _
      (holds_below _ x 256 hx (holds_below _ i 8 hi (holds_below _ 0 8 (omega arith) or_table))))

get_or-lt : (bm : List ℕ) (k : ℕ) → AreBytes bm → get_or bm k 0 < 256
get_or-lt [] k h = omega arith
get_or-lt (x ∷ bm) zero h = h.0
get_or-lt (x ∷ bm) (suc k) h = get_or-lt bm k h.1

set-AreBytes : (bm : List ℕ) (k v : ℕ) → AreBytes bm → v < 256 → AreBytes (set bm k v)
set-AreBytes [] k v h hv = tt
set-AreBytes (x ∷ bm) zero v h hv = (hv, h.1)
set-AreBytes (x ∷ bm) (suc k) v h hv = (h.0, set-AreBytes bm k v h.1 hv)

pub mark_bit-AreBytes : (bm : List ℕ) (b : ℕ) → AreBytes bm → AreBytes (mark_bit bm b)
unfolding mark_bit
mark_bit-AreBytes bm b h =
    set-AreBytes bm (b / 8) _ h (bit_or-lt _ (b % 8) (get_or-lt bm (b / 8) h) (omega arith))

pub length-mark_bit : (bm : List ℕ) (b : ℕ) → length (mark_bit bm b) ≡ length bm
unfolding mark_bit
length-mark_bit bm b = length-set bm (b / 8) _

same_bit : (b c : ℕ) → b / 8 ≡ c / 8 → (b % 8 == c % 8) ≡ (b == c)
same_bit b c e = ground arith

zero-bit_and : (b : ℕ) → bit_and 0 b ≡ 0
zero-bit_and b = bit_and-bitwise 0 b

-- Marking a bit within the array sets that bit, and no other.
pub test_bit-mark_bit :
    (bm : List ℕ) (b c : ℕ)
    → AreBytes bm
    → b < 8 * length bm
    → test_bit (mark_bit bm b) c ≡ (b == c || test_bit bm c)
unfolding test_bit mark_bit
test_bit-mark_bit bm b c h hb = elim (ℕ_discrete (b / 8) (c / 8)) [
  | yes e ↦
      rw
        (
          ← e,
          get_or-set_self bm (b / 8) (bit_or (get_or bm (b / 8) 0) (2 ^ (b % 8))) 0 (omega arith),
        )
        (bit_of-bit_or (get_or bm (b / 8) 0) (b % 8) (c % 8) (get_or-lt bm (b / 8) h) (omega arith)
            (omega arith)
          ∙ ap (λ t. t || bit_of (get_or bm (b / 8) 0) (c % 8)) (same_bit b c e))
  | no ne ↦
      rw (get_or-set_ne bm (b / 8) (c / 8) (bit_or (get_or bm (b / 8) 0) (2 ^ (b % 8))) 0 ne)
        (ground arith)
]

pub test_bit-replicate : (n c : ℕ) → test_bit (replicate n 0) c ≡ false
unfolding test_bit
test_bit-replicate n c = rw (get_or-replicate n (c / 8) zero, zero-bit_and)

pub replicate-AreBytes : (n : ℕ) → AreBytes (replicate n 0)
replicate-AreBytes zero = tt
replicate-AreBytes (suc n) = (omega arith, replicate-AreBytes n)
