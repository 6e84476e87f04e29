-- ===== src/Sync/Tree/Search/Laws.antt =====
-- src/sync/sync.c: `cmp_message` of a node with a whole key.
use lbard.Prelude.{
  ℕ, zero, suc, ◌≤◌, min, max, List, [], ◌∷◌, ◌≡◌, inl, inr, refl, ap, ap₂, ◌∙◌, true, false,
  if◌then◌else◌, arith, ltb, ◌==◌, le→ltb, Bool-cases, length,
}
use lbard.Sync.Tree.{KeyMessage}
use lbard.Sync.Tree.Search.{same_bytes, xor_begin, cmp_ends, cmp_message, message_from_key}

pub same_bytes_refl : (len : ℕ) (a : List ℕ) → same_bytes len a a ≡ true
unfolding same_bytes
same_bytes_refl zero a = refl
same_bytes_refl (suc len) [] = refl
same_bytes_refl (suc len) (x ∷ a) = ground (arith, same_bytes_refl len a)

pub same_bytes-eq :
    (len : ℕ) (a b : List ℕ) → length a ≡ len → length b ≡ len → same_bytes len a b ≡ true → a ≡ b
unfolding same_bytes
same_bytes-eq zero [] [] ha hb e = refl
same_bytes-eq zero [] (y ∷ b) ha hb e = absurd (omega arith)
same_bytes-eq zero (x ∷ a) b ha hb e = absurd (omega arith)
same_bytes-eq (suc len) [] b ha hb e = absurd (omega arith)
same_bytes-eq (suc len) (x ∷ a) [] ha hb e = absurd (omega arith)
same_bytes-eq (suc len) (x ∷ a) (y ∷ b) ha hb e =
    ap₂ ◌∷◌ (ground arith) (same_bytes-eq len a b (omega arith) (omega arith) (ground arith))

whole_begin :
    (prefix_len min_prefix_len : ℕ)
    → min_prefix_len ≤ prefix_len
    → prefix_len ≤ 64
    → ltb (min prefix_len 64) (max (if prefix_len == 64 then min_prefix_len else prefix_len) 0)
      ≡ false
whole_begin p m h k = elim (Bool-cases (p == 64)) [
  | inl e ↦
      ap (λ t. ltb (min p 64) (max (if t then m else p) 0)) e
      ∙ le→ltb (min p 64) (max m 0) (omega arith)
  | inr e ↦
      ap (λ t. ltb (min p 64) (max (if t then m else p) 0)) e
      ∙ le→ltb (min p 64) (max p 0) (omega arith)
]

-- `cmp_message` with a whole key compares all the bytes.
pub cmp_whole :
    (first : KeyMessage) (key : List ℕ)
    → first.min_prefix_len ≤ first.prefix_len
    → first.prefix_len ≤ 64
    → cmp_message first (message_from_key key) ≡ same_bytes 8 first.key key
unfolding cmp_message xor_begin message_from_key
cmp_whole first key h k =
    ap
      (λ t.
        if t
        then cmp_ends (min first.prefix_len 64)
            (max (if first.prefix_len == 64 then first.min_prefix_len else first.prefix_len) 0)
            first.key key
        else same_bytes 8 first.key key)
      (whole_begin first.prefix_len first.min_prefix_len h k)
