-- ===== src/Sync/Lookup/Prefix.antt =====
-- src/sync/bundle_tree.c: the loop that compares the first bytes of an ID, byte by byte.
use lbard.Prelude.{
  ℕ, zero, suc, ◌+◌, get_or, ◌==◌, sym, ◌<◌, List, ◌≡◌, refl, Bool, true, ◌&&◌, arith,
}
use mathlib.Core.Path.{subst}
use lbard.Sync.Lookup.{Bundle, same_from, has_prefix}

zero_add : (i : ℕ) → 0 + i ≡ i
zero_add i = omega arith

add_zero : (i : ℕ) → i + 0 ≡ i
add_zero i = omega arith

add_suc : (i k : ℕ) → i + suc k ≡ i + 1 + k
add_suc i k = omega arith

and_left : (a b : Bool) → (a && b) ≡ true → a ≡ true
and_left a b h = ground arith

and_right : (a b : Bool) → (a && b) ≡ true → b ≡ true
and_right a b h = ground arith

and_both : (a b : Bool) → a ≡ true → b ≡ true → (a && b) ≡ true
and_both a b h k = ground arith

same_back :
    (prefix bid : List ℕ) (i : ℕ)
    → get_or bid i 0 ≡ get_or prefix i 0
    → (get_or prefix i 0 == get_or bid i 0) ≡ true
same_back prefix bid i h = ground arith

-- The first `len` bytes of the ID of a bundle are those of a prefix.
pub HasPrefix : List ℕ → ℕ → Bundle → Type 0
HasPrefix prefix len b = (i : ℕ) → i < len → get_or b.bid_bin i 0 ≡ get_or prefix i 0

same_first :
    (prefix bid : List ℕ) (i : ℕ)
    → (get_or prefix i 0 == get_or bid i 0) ≡ true
    → get_or bid i 0 ≡ get_or prefix i 0
same_first prefix bid i h = ground arith

same_from-agree :
    (prefix bid : List ℕ) (i rounds k : ℕ)
    → same_from prefix bid i rounds ≡ true
    → k < rounds
    → get_or bid (i + k) 0 ≡ get_or prefix (i + k) 0
unfolding same_from
same_from-agree prefix bid i zero k h q = absurd (omega arith)
same_from-agree prefix bid i (suc rounds) zero h q =
    rw (add_zero i) (same_first prefix bid i (and_left _ _ h))
same_from-agree prefix bid i (suc rounds) (suc k) h q =
    rw (add_suc i k) (same_from-agree prefix bid (i + 1) rounds k (and_right _ _ h) (omega arith))

agree-same_from :
    (prefix bid : List ℕ) (i rounds : ℕ)
    → ((k : ℕ) → k < rounds → get_or bid (i + k) 0 ≡ get_or prefix (i + k) 0)
    → same_from prefix bid i rounds ≡ true
unfolding same_from
agree-same_from prefix bid i zero h = refl
agree-same_from prefix bid i (suc rounds) h =
    and_both _ _
      (same_back prefix bid i
        (subst (λ j. get_or bid j 0 ≡ get_or prefix j 0) (add_zero i) (h 0 (omega arith))))
      (agree-same_from prefix bid (i + 1) rounds (λ k q.
        subst (λ j. get_or bid j 0 ≡ get_or prefix j 0) (add_suc i k) (h (suc k) (omega arith))))

pub has_prefix-HasPrefix :
    (prefix : List ℕ) (len : ℕ) (b : Bundle)
    → has_prefix prefix len b ≡ true
    → HasPrefix prefix len b
unfolding HasPrefix same_from has_prefix
has_prefix-HasPrefix prefix len b h i q =
    subst (λ j. get_or b.bid_bin j 0 ≡ get_or prefix j 0) (zero_add i)
      (same_from-agree prefix b.bid_bin 0 len i h q)

pub HasPrefix-has_prefix :
    (prefix : List ℕ) (len : ℕ) (b : Bundle)
    → HasPrefix prefix len b
    → has_prefix prefix len b ≡ true
unfolding HasPrefix same_from has_prefix
HasPrefix-has_prefix prefix len b h =
    agree-same_from prefix b.bid_bin 0 len
      (λ k q. subst (λ j. get_or b.bid_bin j 0 ≡ get_or prefix j 0) (sym (zero_add k)) (h k q))
