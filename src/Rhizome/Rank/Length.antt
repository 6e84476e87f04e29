-- ===== src/Rhizome/Rank/Length.antt =====
-- `lengthToPriority`: shorter bundles come first.
use native.Mathlib.Nat.{
  le-div_iff_mul-le, pow-le-pow_right, div-mul-le_self, one-le-pow, div-lt_iff_lt-mul,
}
use lbard.Prelude.{
  ℕ, zero, suc, ◌+◌, ◌-◌, ◌*◌, ◌/◌, ◌^◌, ◌≤◌, ◌<◌, ◌≡◌, ap, arith, dec_lt, ℕ_discrete,
}
use lbard.Rhizome.Rank.{length_bits, low_bits, length_part, length_to_priority}

length_bits_mono : (n v w : ℕ) → v ≤ w → length_bits n v ≤ length_bits n w
unfolding length_bits
length_bits_mono zero v w h = omega arith
length_bits_mono (suc n) v w h = ground (arith, length_bits_mono n (v / 2) (w / 2))

two_pow : (k : ℕ) → 2 ^ suc k ≡ 2 * 2 ^ k
two_pow k = omega arith

-- A number is below the power of two that its bits give.
length_bits-lt : (n v : ℕ) → v < 2 ^ n → v < 2 ^ length_bits n v
unfolding length_bits
length_bits-lt zero v h = h
length_bits-lt (suc n) v h =
    ground (arith, length_bits-lt n (v / 2), two_pow n, two_pow (length_bits n (v / 2)))

-- A number below a power of two has no more bits than that.
length_bits-le : (n k v : ℕ) → v < 2 ^ k → length_bits n v ≤ k
unfolding length_bits
length_bits-le zero k v h = omega arith
length_bits-le (suc n) zero v h = ground arith
length_bits-le (suc n) (suc k) v h = ground (arith, length_bits-le n k (v / 2), two_pow k)

div_mono : (a b c : ℕ) → 0 < c → a ≤ b → a / c ≤ b / c
div_mono a b c h k = (le-div_iff_mul-le h).1 (omega (arith, div-mul-le_self a c))

part_le : (result value : ℕ) → length_part result value ≤ 15
unfolding length_part
part_le result value = omega arith

pow_four : (k : ℕ) → 2 ^ suc (suc (suc (suc k))) ≡ 16 * 2 ^ k
pow_four k =
    omega (arith, two_pow (suc (suc (suc k))), two_pow (suc (suc k)), two_pow (suc k), two_pow k)

four_more : (r : ℕ) → 4 < r → r ≡ suc (suc (suc (suc (r - 4))))
four_more r h = omega arith

small_pow : (r : ℕ) → r ≤ 4 → 2 ^ r ≤ 16
small_pow r h = pow-le-pow_right (two_positive) h
  where
    two_positive : 0 < 2
    two_positive = omega arith

low_small : (r : ℕ) → r ≤ 4 → low_bits r ≡ 1
unfolding low_bits
low_small r h = ground arith

low_large : (r : ℕ) → 4 < r → low_bits r ≡ r - 4
unfolding low_bits
low_large r h = ground arith

pow_low : (r : ℕ) → 2 ^ r ≤ 16 * 2 ^ low_bits r
pow_low r = elim (dec_lt 4 r) [
  | yes h ↦ rw (low_large r h) (omega (arith, ap (λ k. 2 ^ k) (four_more r h), pow_four (r - 4)))
  | no h ↦ rw (low_small r (omega arith)) (omega (arith, small_pow r (omega arith)))
]

the_bound : (r w : ℕ) → w < 2 ^ r → w + 16 * 2 ^ low_bits r - 2 ^ r < 16 * 2 ^ low_bits r
the_bound r w h = omega (arith, pow_low r)

-- With the same number of bits, the part grows with the value.
part_mono : (r v w : ℕ) → v ≤ w → w < 2 ^ r → length_part r v ≤ length_part r w
unfolding length_part
part_mono r v w h k = omega (
  arith,
  div_mono (v + 16 * 2 ^ low_bits r - 2 ^ r) (w + 16 * 2 ^ low_bits r - 2 ^ r) (2 ^ low_bits r)
      (one-le-pow (low_bits r) 2 (omega arith)) (omega arith),
  (div-lt_iff_lt-mul (one-le-pow (low_bits r) 2 (omega arith))).1 (the_bound r w k),
)

-- Of two lengths below 2 ^ 30, the shorter has at least the priority of the longer.
pub length_to_priority_antitone :
    (v w : ℕ) → v ≤ w → w < 2 ^ 30 → length_to_priority w ≤ length_to_priority v
unfolding length_to_priority
length_to_priority_antitone v w h k = elim (ℕ_discrete (length_bits 64 v) (length_bits 64 w)) [
  | yes e ↦ omega (
    arith,
    e,
    part_mono (length_bits 64 w) v w h (length_bits-lt 64 w (omega arith)),
    ap (λ r. length_part r v) e,
  )
  | no e ↦
      omega
        (arith, part_le (length_bits 64 v) v, length_bits_mono 64 v w h, length_bits-le 64 30 w k)
]

-- The priority of a length is below the flag for what has not been sent lately.
pub length_to_priority-lt : (v : ℕ) → length_to_priority v < 0x400
unfolding length_to_priority
length_to_priority-lt v = omega arith
