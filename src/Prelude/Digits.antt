-- ===== src/Prelude/Digits.antt =====
-- The binary digits of a number, and those of `bit_and`, `bit_or` and `bit_xor`.
use Prim.Native.Nat.{
  ℕ, zero, suc, ◌+◌, ◌*◌, ◌/◌, ◌%◌, ◌^◌, ◌≤◌, ◌<◌, min, max, digits, differ, bit_and, bit_or,
  bit_xor, bit_and-bitwise, bit_or-bitwise, bit_xor-bitwise,
}
use mathlib.Core.Path.{◌≡◌, refl, sym, ap, ◌∙◌}
use native.Mathlib.Omega.{arith}

-- Digit `j`, from the lowest one on.
abbrev pub digit : ℕ → ℕ → ℕ
digit zero x = x % 2
digit (suc j) x = digit j (x / 2)

pub digit-zero : (j : ℕ) → digit j 0 ≡ 0
digit-zero zero = refl
digit-zero (suc j) = digit-zero j

pub digit-lt : (j x : ℕ) → digit j x < 2
digit-lt zero x = omega arith
digit-lt (suc j) x = digit-lt j (x / 2)

halve : (d x : ℕ) → x < 2 → (d * 2 + x) / 2 ≡ d
halve d x h = omega arith

-- An operation on digits, which `z` finishes when the first number has run out.
module _ (z : ℕ → ℕ) (f : ℕ → ℕ → ℕ) (f-lt : (x y : ℕ) → x < 2 → y < 2 → f x y < 2)
    (digit-z : (j b : ℕ) → digit j (z b) ≡ f 0 (digit j b)) where
  ends : (j b : ℕ) → digit j (z b) ≡ f (digit j 0) (digit j b)
  ends j b = digit-z j b ∙ ap (λ x. f x (digit j b)) (sym (digit-zero j))

  digit-digits : (n a b j : ℕ) → a ≤ n → digit j (digits z f n a b) ≡ f (digit j a) (digit j b)
  digit-digits zero zero b j h = ends j b
  digit-digits zero (suc a) b j h = absurd (omega arith)
  digit-digits (suc n) zero b j h = ends j b
  digit-digits (suc n) (suc a) b zero h =
      omega (arith, f-lt (suc a % 2) (b % 2) (omega arith) (omega arith))
  digit-digits (suc n) (suc a) b (suc j) h =
      ap (digit j) (
        halve (digits z f n (suc a / 2) (b / 2)) (f (suc a % 2) (b % 2))
          (f-lt (suc a % 2) (b % 2) (omega arith) (omega arith)))
      ∙ digit-digits n (suc a / 2) (b / 2) j (omega arith)

  digits-lt :
      (z-le : (b : ℕ) → z b ≤ b) (k n a b : ℕ) → a < 2 ^ k → b < 2 ^ k → digits z f n a b < 2 ^ k
  digits-lt z-le k zero a b ha hb = omega (arith, z-le b)
  digits-lt z-le k (suc n) zero b ha hb = omega (arith, z-le b)
  digits-lt z-le zero (suc n) (suc a) b ha hb = absurd (omega arith)
  digits-lt z-le (suc k) (suc n) (suc a) b ha hb = omega (
    arith,
    f-lt (suc a % 2) (b % 2) (omega arith) (omega arith),
    digits-lt z-le k n (suc a / 2) (b / 2) (omega arith) (omega arith),
  )

differ-lt : (x y : ℕ) → x < 2 → y < 2 → differ x y < 2
differ-lt zero y hx hy = hy
differ-lt (suc x) zero hx hy = hx
differ-lt (suc zero) (suc y) hx hy = omega arith
differ-lt (suc (suc x)) (suc y) hx hy = absurd (omega arith)

pub digit-bit_xor : (a b j : ℕ) → digit j (bit_xor a b) ≡ differ (digit j a) (digit j b)
digit-bit_xor a b j =
    ap (digit j) (bit_xor-bitwise a b)
    ∙ digit-digits (λ b. b) differ differ-lt (λ j b. refl) a a b j (omega arith)

pub digit-bit_or : (a b j : ℕ) → digit j (bit_or a b) ≡ max (digit j a) (digit j b)
digit-bit_or a b j =
    ap (digit j) (bit_or-bitwise a b)
    ∙ digit-digits (λ b. b) max (λ x y hx hy. omega arith) (λ j b. omega arith) a a b j
        (omega arith)

pub digit-bit_and : (a b j : ℕ) → digit j (bit_and a b) ≡ min (digit j a) (digit j b)
digit-bit_and a b j =
    ap (digit j) (bit_and-bitwise a b)
    ∙ digit-digits (λ b. 0) min (λ x y hx hy. omega arith) (λ j b. omega (arith, digit-zero j)) a a
        b j (omega arith)

pub bit_xor-lt : (k a b : ℕ) → a < 2 ^ k → b < 2 ^ k → bit_xor a b < 2 ^ k
bit_xor-lt k a b ha hb = omega (
  arith,
  bit_xor-bitwise a b,
  digits-lt (λ b. b) differ differ-lt (λ j b. refl) (λ b. omega arith) k a a b ha hb,
)

pub bit_or-lt : (k a b : ℕ) → a < 2 ^ k → b < 2 ^ k → bit_or a b < 2 ^ k
bit_or-lt k a b ha hb = omega (
  arith,
  bit_or-bitwise a b,
  digits-lt (λ b. b) max (λ x y hx hy. omega arith) (λ j b. omega arith) (λ b. omega arith) k a a b
      ha hb,
)

pub bit_and-lt : (k a b : ℕ) → a < 2 ^ k → b < 2 ^ k → bit_and a b < 2 ^ k
bit_and-lt k a b ha hb = omega (
  arith,
  bit_and-bitwise a b,
  digits-lt (λ b. 0) min (λ x y hx hy. omega arith) (λ j b. omega (arith, digit-zero j))
      (λ b. omega arith) k a a b ha hb,
)
