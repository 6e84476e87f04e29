-- ===== src/Sync/Tree/Xor.antt =====
-- src/sync/sync.c: `sync_xor` bit by bit, as `sync_get_bits` reads the bits of a key.
use lbard.Prelude.{
  ℕ, zero, suc, ◌+◌, ◌-◌, ◌*◌, ◌/◌, ◌%◌, ◌^◌, ◌≤◌, ◌<◌, min, max, List, [], ◌∷◌, ◌≡◌, refl, ap, ap₂,
  ◌∙◌, Bool, true, false, not, ltb, ◌==◌, ◌&&◌, if◌then◌else◌, get_or, length, All, bit_and, bit_or,
  bit_xor, arith, every, holds_below, Bool-cases, inl, inr, ltb→le, lt→ltb, le→ltb, ==_iff,
}
use lbard.Prelude.Digits.{digit, digit-lt, digit-bit_xor, digit-bit_or, digit-bit_and}
use Prim.Native.Nat.{differ}
use lbard.Sync.Tree.{sync_get_bits, child_index, xor_byte}

-- Eight bytes.
pub record IsKey (key : List ℕ) : Type 0 where
  pub size : length key ≡ 8
  pub bytes : All (λ x. x < 256) key

abbrev pub xor : Bool → Bool → Bool
xor true b = not b
xor false b = b

abbrev is_set : ℕ → Bool
is_set d = not (d == 0)

-- Bit `r` of a byte, the highest first.
abbrev pub bit_of : ℕ → ℕ → Bool
bit_of r x = is_set (digit (7 - r) x)

high_digit : (r x y : ℕ) → r < 8 → y < 256 → (x * 256 + y) / 2 ^ (16 - r - 1) % 2 ≡ digit (7 - r) x
high_digit zero x y hr hy = omega arith
high_digit (suc zero) x y hr hy = omega arith
high_digit (suc (suc zero)) x y hr hy = omega arith
high_digit (suc (suc (suc zero))) x y hr hy = omega arith
high_digit (suc (suc (suc (suc zero)))) x y hr hy = omega arith
high_digit (suc (suc (suc (suc (suc zero))))) x y hr hy = omega arith
high_digit (suc (suc (suc (suc (suc (suc zero)))))) x y hr hy = omega arith
high_digit (suc (suc (suc (suc (suc (suc (suc zero))))))) x y hr hy = omega arith
high_digit (suc (suc (suc (suc (suc (suc (suc (suc r)))))))) x y hr hy = absurd (omega arith)

get_or-lt : (key : List ℕ) (i : ℕ) → All (λ x. x < 256) key → get_or key i 0 < 256
get_or-lt [] i h = omega arith
get_or-lt (x ∷ key) zero h = h.0
get_or-lt (x ∷ key) (suc i) h = get_or-lt key i h.1

guarded-lt : (t : Bool) (x : ℕ) → x < 256 → (if t then x else 0) < 256
guarded-lt true x h = h
guarded-lt false x h = omega arith

pub child_index-bit_of :
    (i : ℕ) (key : List ℕ) → IsKey key → child_index i key ≡ bit_of (i % 8) (get_or key (i / 8) 0)
unfolding child_index sync_get_bits
child_index-bit_of i key k = ap is_set (
    high_digit (i % 8) (get_or key (i / 8) 0)
      (if ltb (i / 8 + 1) 8 then get_or key (i / 8 + 1) 0 else 0) (omega arith)
      (guarded-lt (ltb (i / 8 + 1) 8) (get_or key (i / 8 + 1) 0)
        (get_or-lt key (i / 8 + 1) k.bytes)))

-- The mask of the byte of overlap has its first `q` bits set.
mask_table :
    every (λ q. every (λ r. digit (7 - r) (0xff00 / 2 ^ q % 256) == (if ltb r q then 1 else 0)) 8) 8
    ≡ true
unfolding every
mask_table = refl

digit_mask :
    (q r : ℕ) → q < 8 → r < 8 → digit (7 - r) (0xff00 / 2 ^ q % 256) ≡ (if ltb r q then 1 else 0)
digit_mask q r hq hr = (==_iff _ _).0 (holds_below _ r 8 hr (holds_below _ q 8 hq mask_table))

is_set-differ : (a b : ℕ) → a < 2 → b < 2 → is_set (differ a b) ≡ xor (is_set b) (is_set a)
is_set-differ zero zero ha hb = refl
is_set-differ zero (suc zero) ha hb = refl
is_set-differ (suc zero) zero ha hb = refl
is_set-differ (suc zero) (suc zero) ha hb = refl
is_set-differ (suc (suc a)) b ha hb = absurd (omega arith)
is_set-differ zero (suc (suc b)) ha hb = absurd (omega arith)
is_set-differ (suc zero) (suc (suc b)) ha hb = absurd (omega arith)

bit_of-bit_xor : (r d s : ℕ) → bit_of r (bit_xor d s) ≡ xor (bit_of r s) (bit_of r d)
bit_of-bit_xor r d s =
    ap is_set (digit-bit_xor d s (7 - r))
    ∙ is_set-differ (digit (7 - r) d) (digit (7 - r) s) (digit-lt (7 - r) d) (digit-lt (7 - r) s)

-- The byte of overlap, whose first `q` bits are a prefix.
overlap : ℕ → ℕ → ℕ → ℕ
overlap q s d = bit_or (bit_and (0xff00 / 2 ^ q % 256) s) (bit_xor d s)

digit-overlap :
    (q r s d : ℕ)
    → q < 8
    → r < 8
    → digit (7 - r) (overlap q s d)
      ≡ max
          (min (if ltb r q then 1 else 0) (digit (7 - r) s))
          (differ (digit (7 - r) d) (digit (7 - r) s))
unfolding overlap
digit-overlap q r s d hq hr =
    digit-bit_or (bit_and (0xff00 / 2 ^ q % 256) s) (bit_xor d s) (7 - r)
    ∙ ap₂ max
        (digit-bit_and (0xff00 / 2 ^ q % 256) s (7 - r)
          ∙ ap (λ m. min m (digit (7 - r) s)) (digit_mask q r hq hr))
        (digit-bit_xor d s (7 - r))

overlap_rest :
    (q r s d : ℕ) → q < 8 → r < 8 → q ≤ r → bit_of r (overlap q s d) ≡ xor (bit_of r s) (bit_of r d)
overlap_rest q r s d hq hr h =
    ap is_set (
      digit-overlap q r s d hq hr
      ∙ ap
          (λ t.
            max (min (if t then 1 else 0) (digit (7 - r) s))
              (differ (digit (7 - r) d) (digit (7 - r) s)))
          (le→ltb r q h)
      ∙ (omega arith))
    ∙ is_set-differ (digit (7 - r) d) (digit (7 - r) s) (digit-lt (7 - r) d) (digit-lt (7 - r) s)

covered :
    (s d : ℕ) → s < 2 → d < 2 → (is_set d ≡ true → is_set s ≡ true) → max (min 1 s) (differ d s) ≡ s
covered zero zero hs hd h = refl
covered zero (suc zero) hs hd h = absurd (ground (arith, h refl))
covered zero (suc (suc d)) hs hd h = absurd (omega arith)
covered (suc zero) zero hs hd h = refl
covered (suc zero) (suc zero) hs hd h = refl
covered (suc zero) (suc (suc d)) hs hd h = absurd (omega arith)
covered (suc (suc s)) d hs hd h = absurd (omega arith)

overlap_prefix :
    (q r s d : ℕ)
    → q < 8
    → r < q
    → (bit_of r d ≡ true → bit_of r s ≡ true)
    → bit_of r (overlap q s d) ≡ bit_of r s
overlap_prefix q r s d hq h below = ap is_set (
    digit-overlap q r s d hq (omega arith)
    ∙ ap
        (λ t.
          max (min (if t then 1 else 0) (digit (7 - r) s))
            (differ (digit (7 - r) d) (digit (7 - r) s)))
        (lt→ltb r q h)
    ∙ covered (digit (7 - r) s) (digit (7 - r) d) (digit-lt (7 - r) s) (digit-lt (7 - r) d) below)

at_overlap : (i p : ℕ) → (i / 8 == p / 8 && not (p % 8 == 0)) ≡ true → (i / 8 ≡ p / 8) × (0 < p % 8)
at_overlap i p h = (ground arith, ground arith)

is_overlap : (i p : ℕ) → i < p → p / 8 ≤ i / 8 → (i / 8 == p / 8 && not (p % 8 == 0)) ≡ true
is_overlap i p h k = ground arith

-- Bit `i` of a key, after its byte went through `xor_byte`.
module _ (p i s d : ℕ) where
  pub xor_byte_rest :
      p ≤ i → bit_of (i % 8) (xor_byte p (i / 8) s d) ≡ xor (bit_of (i % 8) s) (bit_of (i % 8) d)
  unfolding xor_byte overlap
  xor_byte_rest h =
      ap
        (λ t. bit_of (i % 8) (
          if t
          then s
          else if i / 8 == p / 8 && not (p % 8 == 0)
          then overlap (p % 8) s d
          else bit_xor d s))
        (le→ltb (i / 8) (p / 8) (omega arith))
      ∙ elim (Bool-cases (i / 8 == p / 8 && not (p % 8 == 0))) [
        | inl e ↦
            ap (λ t. bit_of (i % 8) (if t then overlap (p % 8) s d else bit_xor d s)) e
            ∙ overlap_rest (p % 8) (i % 8) s d (omega arith) (omega arith)
                (omega (arith, (at_overlap i p e).0))
        | inr e ↦
            ap (λ t. bit_of (i % 8) (if t then overlap (p % 8) s d else bit_xor d s)) e
            ∙ bit_of-bit_xor (i % 8) d s
      ]

  pub xor_byte_prefix :
      i < p
      → (bit_of (i % 8) d ≡ true → bit_of (i % 8) s ≡ true)
      → bit_of (i % 8) (xor_byte p (i / 8) s d) ≡ bit_of (i % 8) s
  unfolding xor_byte overlap
  xor_byte_prefix h below =
      let inner : Bool → ℕ = λ t. if t then overlap (p % 8) s d else bit_xor d s in
      elim (Bool-cases (ltb (i / 8) (p / 8))) [
        | inl e ↦
            ap (λ t. bit_of (i % 8) (if t then s else inner (i / 8 == p / 8 && not (p % 8 == 0)))) e
        | inr e ↦
            ap (λ t. bit_of (i % 8) (if t then s else inner (i / 8 == p / 8 && not (p % 8 == 0)))) e
            ∙ ap (λ t. bit_of (i % 8) (inner t)) (is_overlap i p h (ltb→le (i / 8) (p / 8) e))
            ∙ overlap_prefix (p % 8) (i % 8) s d (omega arith)
                (omega (arith, ltb→le (i / 8) (p / 8) e)) below
      ]
