-- ===== src/Xfer/Send/Translate.antt =====
-- `progress_bitmap_translate`: which bits are kept.
use lbard.Prelude.{
  ℕ, zero, suc, ◌+◌, ◌-◌, ◌*◌, ◌/◌, ◌%◌, ◌≤◌, ◌<◌, List, ◌≡◌, refl, ◌∙◌, Option, none, some, Bool,
  true, false, ltb, leb, ◌&&◌, ◌||◌, arith, length, replicate, ◌==◌, if◌then◌else◌, ap,
  length-replicate, ℕ_discrete, dec_lt,
}
use lbard.Xfer.Bits.{
  AreBytes, mark_bit, test_bit, mark_bit-AreBytes, length-mark_bit, test_bit-mark_bit,
  replicate-AreBytes, test_bit-replicate,
}
use lbard.Xfer.Send.{old_bit, translate_from, progress_bitmap_translate}

-- What the old bitmap says of a bit of the new one.
abbrev old_at : List ℕ → Option ℕ → Bool
old_at old none = false
old_at old (some b) = test_bit old b

step_lem :
    (old : List ℕ) (o : Option ℕ) (bit c : ℕ) (new : List ℕ)
    → AreBytes new
    → bit < 8 * length new
    → test_bit (if old_at old o then mark_bit new bit else new) c
      ≡ (bit == c && old_at old o || test_bit new c)
step_lem old o bit c new h k = ground (arith, test_bit-mark_bit new bit c h)

step-AreBytes :
    (b : Bool) (bit : ℕ) (new : List ℕ)
    → AreBytes new
    → AreBytes (if b then mark_bit new bit else new)
step-AreBytes true bit new h = mark_bit-AreBytes new bit h
step-AreBytes false bit new h = h

length-step :
    (b : Bool) (bit : ℕ) (new : List ℕ) → length (if b then mark_bit new bit else new) ≡ length new
length-step true bit new = length-mark_bit new bit
length-step false bit new = refl

combine :
    (x : ℕ → Bool) (bit rounds c : ℕ) (t : Bool)
    → (leb (bit + 1) c && ltb c (bit + 1 + rounds) && x c || (bit == c && x bit || t))
      ≡ (leb bit c && ltb c (bit + suc rounds) && x c || t)
combine x bit rounds c t = elim (ℕ_discrete bit c) [
  | yes e ↦ ground (arith, ap x e)
  | no e ↦ ground arith
]

abbrev bits_at : List ℕ → ℕ → ℕ → ℕ → Bool
bits_at old old_offset new_offset b = old_at old (old_bit old_offset new_offset b)

test_bit-translate_from :
    (old : List ℕ) (old_offset new_offset rounds bit : ℕ) (new : List ℕ) (c : ℕ)
    → AreBytes new
    → bit + rounds ≤ 8 * length new
    → test_bit (translate_from old old_offset new_offset rounds bit new) c ≡ (
        leb bit c && ltb c (bit + rounds) && old_at old (old_bit old_offset new_offset c)
        || test_bit new c)
unfolding translate_from
test_bit-translate_from old old_offset new_offset zero bit new c h k = ground arith
test_bit-translate_from old old_offset new_offset (suc rounds) bit new c h k =
    test_bit-translate_from old old_offset new_offset rounds (bit + 1)
      (if bits_at old old_offset new_offset bit then mark_bit new bit else new) c
      (step-AreBytes (bits_at old old_offset new_offset bit) bit new h)
      (omega (arith, length-step (bits_at old old_offset new_offset bit) bit new))
    ∙ ap
        (λ t.
          leb (bit + 1) c && ltb c (bit + 1 + rounds) && bits_at old old_offset new_offset c || t)
        (step_lem old (old_bit old_offset new_offset bit) bit c new h (omega arith))
    ∙ combine (bits_at old old_offset new_offset) bit rounds c (test_bit new c)

translated :
    (old : List ℕ) (old_offset new_offset c : ℕ)
    → test_bit (progress_bitmap_translate old old_offset new_offset) c
      ≡ (leb 1 c && ltb c 256 && bits_at old old_offset new_offset c)
unfolding progress_bitmap_translate
translated old old_offset new_offset c =
    test_bit-translate_from old old_offset new_offset 255 1 (replicate 32 0) c
      (replicate-AreBytes 32) (omega (arith, length-replicate 32 zero))
    ∙ rw (test_bit-replicate 32 c) (ground arith)

old_bit_lem :
    (old_offset new_offset b k : ℕ)
    → old_offset + 64 * k ≡ new_offset + 64 * b
    → k < 256
    → old_bit old_offset new_offset b ≡ some k
unfolding old_bit
old_bit_lem old_offset new_offset b k e h = ground arith

old_bit-none :
    (old_offset new_offset b k : ℕ)
    → old_offset + 64 * k ≡ new_offset + 64 * b
    → 256 ≤ k
    → old_bit old_offset new_offset b ≡ none
unfolding old_bit
old_bit-none old_offset new_offset b k e h = ground arith

old_bit_before :
    (old_offset new_offset b d : ℕ)
    → old_offset ≡ new_offset + 64 * (b + suc d)
    → old_bit old_offset new_offset b ≡ none
unfolding old_bit
old_bit_before old_offset new_offset b d e = ground arith

aligned_before : (x y : ℕ) → x % 64 ≡ y % 64 → x < y → y ≡ x + 64 * suc ((y - x) / 64 - 1)
aligned_before x y e h = omega arith

aligned_from : (x y : ℕ) → x % 64 ≡ y % 64 → y ≤ x → y + 64 * ((x - y) / 64) ≡ x
aligned_from x y e h = omega arith

add_blocks : (x b y : ℕ) → x % 64 ≡ y % 64 → (x + 64 * b) % 64 ≡ y % 64
add_blocks x b y e = omega arith

blocks_before : (x b d y : ℕ) → y ≡ x + 64 * b + 64 * suc d → y ≡ x + 64 * (b + suc d)
blocks_before x b d y e = omega arith

-- What a bitmap from an offset on says of the block of 64 bytes at an address: a block before the
-- bitmap or behind its 256 bits is not said to be held.
abbrev pub says_held : List ℕ → ℕ → ℕ → Bool
says_held bitmap offset address =
    leb offset address
    && ltb address (offset + 64 * 256)
    && test_bit bitmap ((address - offset) / 64)

translated_before :
    (old : List ℕ) (old_offset new_offset b : ℕ)
    → new_offset % 64 ≡ old_offset % 64
    → new_offset + 64 * b < old_offset
    → bits_at old old_offset new_offset b ≡ false
translated_before old old_offset new_offset b m h = ap (old_at old) (
    old_bit_before old_offset new_offset b _ (
      blocks_before new_offset b _ old_offset
        (aligned_before (new_offset + 64 * b) old_offset (add_blocks new_offset b old_offset m) h)))

translated_from :
    (old : List ℕ) (old_offset new_offset b k : ℕ)
    → old_offset + 64 * k ≡ new_offset + 64 * b
    → bits_at old old_offset new_offset b ≡ (ltb k 256 && test_bit old k)
translated_from old old_offset new_offset b k e = elim (dec_lt k 256) [
  | yes q ↦ rw (old_bit_lem old_offset new_offset b k e q) (ground arith)
  | no q ↦ rw (old_bit-none old_offset new_offset b k e (omega arith)) (ground arith)
]

same_limit : (x y k : ℕ) → y + 64 * k ≡ x → ltb k 256 ≡ ltb x (y + 64 * 256)
same_limit x y k e = ground arith

bits_at-says_held :
    (old : List ℕ) (old_offset new_offset b : ℕ)
    → new_offset % 64 ≡ old_offset % 64
    → bits_at old old_offset new_offset b ≡ says_held old old_offset (new_offset + 64 * b)
bits_at-says_held old old_offset new_offset b m = elim (dec_lt (new_offset + 64 * b) old_offset) [
  | yes h ↦ translated_before old old_offset new_offset b m h ∙ ground arith
  | no h ↦
      let e =
        aligned_from (new_offset + 64 * b) old_offset (add_blocks new_offset b old_offset m)
          (omega (arith, h)) in
      translated_from old old_offset new_offset b _ e
      ∙ ap (λ t. t && test_bit old ((new_offset + 64 * b - old_offset) / 64))
          (same_limit _ old_offset _ e)
      ∙ ground arith
]

-- After a translation by a multiple of 64 bytes, forwards or backwards, a bit is set exactly when
-- it is not the first, the 64 bytes that it stands for are covered by the old bitmap, neither
-- before its offset nor behind its 256 bits, and the old bitmap says that they are held.
pub progress_bitmap_translate_lem :
    (old : List ℕ) (old_offset new_offset b : ℕ)
    → b < 256
    → new_offset % 64 ≡ old_offset % 64
    → test_bit (progress_bitmap_translate old old_offset new_offset) b
      ≡ (ltb 0 b && says_held old old_offset (new_offset + 64 * b))
progress_bitmap_translate_lem old old_offset new_offset b h m =
    translated old old_offset new_offset b
    ∙ ap (λ t. leb 1 b && ltb b 256 && t) (bits_at-says_held old old_offset new_offset b m)
    ∙ ground arith
