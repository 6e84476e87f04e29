-- ===== src/Sync/Tree/Keys.antt =====
-- src/sync/sync.c: the bits of the key that `sync_xor` leaves, and its size.
use lbard.Prelude.{
  ℕ, zero, suc, ◌+◌, ◌/◌, ◌%◌, ◌<◌, ◌≤◌, List, [], ◌∷◌, ◌≡◌, refl, sym, ap, ap₂, ◌∙◌, Bool, true,
  false, get_or, length, All, arith, ltb, ◌==◌, ◌&&◌, not, if◌then◌else◌, bit_xor, bit_and, ◌^◌,
}
use lbard.Prelude.Digits.{bit_xor-lt, bit_or-lt, bit_and-lt}
use lbard.Sync.Tree.{child_index, xor_byte, xor_bytes}
use lbard.Sync.Tree.Xor.{IsKey, xor, bit_of, child_index-bit_of, xor_byte_rest, xor_byte_prefix}

get_or-xor_bytes :
    (p i : ℕ) (src dest : List ℕ) (j : ℕ)
    → length src ≡ length dest
    → j < length src
    → get_or (xor_bytes p i src dest) j 0 ≡ xor_byte p (i + j) (get_or src j 0) (get_or dest j 0)
unfolding xor_bytes
get_or-xor_bytes p i [] dest j e h = elim h [ ]
get_or-xor_bytes p i (s ∷ src) [] j e h = absurd (omega arith)
get_or-xor_bytes p i (s ∷ src) (d ∷ dest) zero e h = ap (λ k. xor_byte p k s d) (omega arith)
get_or-xor_bytes p i (s ∷ src) (d ∷ dest) (suc j) e h =
    get_or-xor_bytes p (i + 1) src dest j (omega arith) (omega arith)
    ∙ ap (λ k. xor_byte p k (get_or src j 0) (get_or dest j 0)) (omega arith)

if-lt : (t : Bool) (a b n : ℕ) → a < n → b < n → (if t then a else b) < n
if-lt true a b n ha hb = ha
if-lt false a b n ha hb = hb

xor_byte-lt : (p i s d : ℕ) → s < 256 → d < 256 → xor_byte p i s d < 256
unfolding xor_byte
xor_byte-lt p i s d hs hd = if-lt (ltb i (p / 8)) _ _ 256 hs (
    if-lt (i == p / 8 && not (p % 8 == 0)) _ _ 256
      (bit_or-lt 8 (bit_and (0xff00 / 2 ^ (p % 8) % 256) s) (bit_xor d s)
        (bit_and-lt 8 (0xff00 / 2 ^ (p % 8) % 256) s (omega arith) hs) (bit_xor-lt 8 d s hd hs))
      (bit_xor-lt 8 d s hd hs))

length-xor_bytes :
    (p i : ℕ) (src dest : List ℕ)
    → length src ≡ length dest
    → length (xor_bytes p i src dest) ≡ length dest
unfolding xor_bytes
length-xor_bytes p i [] dest e = refl
length-xor_bytes p i (s ∷ src) [] e = refl
length-xor_bytes p i (s ∷ src) (d ∷ dest) e =
    ap suc (length-xor_bytes p (i + 1) src dest (omega arith))

xor_bytes-bytes :
    (p i : ℕ) (src dest : List ℕ)
    → All (λ x. x < 256) src
    → All (λ x. x < 256) dest
    → All (λ x. x < 256) (xor_bytes p i src dest)
unfolding xor_bytes
xor_bytes-bytes p i [] dest hs hd = hd
xor_bytes-bytes p i (s ∷ src) [] hs hd = tt
xor_bytes-bytes p i (s ∷ src) (d ∷ dest) hs hd =
    (xor_byte-lt p i s d hs.0 hd.0, xor_bytes-bytes p (i + 1) src dest hs.1 hd.1)

module _ (p : ℕ) (src dest : List ℕ) (s : IsKey src) (d : IsKey dest) where
  pub xor_bytes-IsKey : IsKey (xor_bytes p 0 src dest)
  xor_bytes-IsKey = record {
    size = length-xor_bytes p 0 src dest (s.size ∙ sym d.size) ∙ d.size;
    bytes = xor_bytes-bytes p 0 src dest s.bytes d.bytes;
  }

  bit_of-xor_bytes :
      (i : ℕ)
      → i < 64
      → child_index i (xor_bytes p 0 src dest)
        ≡ bit_of (i % 8) (xor_byte p (i / 8) (get_or src (i / 8) 0) (get_or dest (i / 8) 0))
  bit_of-xor_bytes i h =
      child_index-bit_of i (xor_bytes p 0 src dest) xor_bytes-IsKey
      ∙ ap (bit_of (i % 8)) (
          get_or-xor_bytes p 0 src dest (i / 8) (s.size ∙ sym d.size) (omega (arith, s.size))
          ∙ ap (λ k. xor_byte p k (get_or src (i / 8) 0) (get_or dest (i / 8) 0)) (omega arith))

  -- From the prefix on, the bits are the exclusive or.
  pub child_index-xor_bytes :
      (i : ℕ)
      → p ≤ i
      → i < 64
      → child_index i (xor_bytes p 0 src dest) ≡ xor (child_index i src) (child_index i dest)
  child_index-xor_bytes i h hi =
      bit_of-xor_bytes i hi
      ∙ xor_byte_rest p i (get_or src (i / 8) 0) (get_or dest (i / 8) 0) h
      ∙ sym (ap₂ xor (child_index-bit_of i src s) (child_index-bit_of i dest d))

  -- Within the prefix they are the source's, where the destination has no bit of its own.
  pub child_index-xor_bytes_prefix :
      (i : ℕ)
      → i < p
      → i < 64
      → (child_index i dest ≡ true → child_index i src ≡ true)
      → child_index i (xor_bytes p 0 src dest) ≡ child_index i src
  child_index-xor_bytes_prefix i h hi below =
      bit_of-xor_bytes i hi
      ∙ xor_byte_prefix p i (get_or src (i / 8) 0) (get_or dest (i / 8) 0) h
          (λ e. sym (child_index-bit_of i src s) ∙ below (child_index-bit_of i dest d ∙ e))
      ∙ sym (child_index-bit_of i src s)
