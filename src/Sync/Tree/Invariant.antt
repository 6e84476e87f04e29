-- ===== src/Sync/Tree/Invariant.antt =====
-- What a tree of keys of src/sync/sync.c keeps to: the shape of a compressed trie, and what an
-- inner node's key says of the keys below it.
pub mod Sums
use lbard.Prelude.{
  ℕ, zero, suc, ◌+◌, ◌≤◌, ◌<◌, List, [], ◌∷◌, ◌++◌, ◌≡◌, ◌≢◌, ◌⊎◌, inl, inr, refl, sym, ap, ◌∙◌,
  Bool, true, false, ◌==◌, if◌then◌else◌, length, All, arith, lt→ltb, ==_iff,
}
use mathlib.Core.Path.{subst}
use lbard.Sync.Tree.{
  Tree, Node, KeyMessage, empty, node, key_len_bits, child_index, set_min_prefix_len,
}
use lbard.Sync.Tree.Xor.{IsKey, xor}
use lbard.Sync.Tree.Leaves.{leaves, All-append, All-map, All-cast, parity}

-- A node's key: the bits that all keys below it begin with, then the exclusive or of their bits.
pub record Summary (n : Node) (keys : List (List ℕ)) : Type 0 where
  pub valid : IsKey n.message.key
  pub prefix :
      (i : ℕ)
      → i < n.message.prefix_len
      → All (λ k. child_index i k ≡ child_index i n.message.key) keys
  pub sums :
      (i : ℕ)
      → n.message.prefix_len ≤ i
      → i < 64
      → child_index i n.message.key ≡ parity (child_index i) keys

pub record IsLeaf (n : Node) (left right : Tree) : Type 0 where
  pub full : n.message.prefix_len ≡ 64
  pub no_left : left ≡ empty
  pub no_right : right ≡ empty
  pub valid : IsKey n.message.key

pub record IsInner (n : Node) (left right : List (List ℕ)) : Type 0 where
  pub short : n.message.prefix_len < 63
  pub summary : Summary n (left ++ right)
  pub on_left : All (λ k. child_index n.message.prefix_len k ≡ false) left
  pub on_right : All (λ k. child_index n.message.prefix_len k ≡ true) right

-- A node whose key may differ from the other keys of the tree from bit `m` on.
unfoldable pub IsTree : ℕ → Tree → Type 0
unfolding leaves
IsTree m empty = ⊥
IsTree m (node n left right) =
    (n.message.min_prefix_len ≡ m)
    × (m ≤ n.message.prefix_len)
    × (IsLeaf n left right
        ⊎ (IsInner n (leaves left) (leaves right)
            × IsTree (n.message.prefix_len + 1) left
            × IsTree (n.message.prefix_len + 1) right))

-- The root of a tree, which may be NULL.
unfoldable pub IsRoot : Tree → Type 0
unfolding IsTree
IsRoot empty = Unit
IsRoot (node n left right) = IsTree 0 (node n left right)

pub not_full : (p : ℕ) → p < 64 → (p == 64) ≡ false
not_full p h = ground arith

pub IsTree-IsRoot : (t : Tree) → IsTree 0 t → IsRoot t
unfolding IsRoot IsTree
IsTree-IsRoot empty h = tt
IsTree-IsRoot (node n left right) h = h

module _ (n : Node) (left right : Tree) where
  pub leaves_full : n.message.prefix_len ≡ 64 → leaves (node n left right) ≡ n.message.key ∷ []
  unfolding leaves
  leaves_full h =
      ap (λ t. if t then n.message.key ∷ [] else leaves left ++ leaves right)
        ((==_iff n.message.prefix_len 64).1 h)

  pub leaves_short :
      n.message.prefix_len < 64 → leaves (node n left right) ≡ leaves left ++ leaves right
  unfolding leaves
  leaves_short h =
      ap (λ t. if t then n.message.key ∷ [] else leaves left ++ leaves right)
        (not_full n.message.prefix_len h)

pub leaves-set_min_prefix_len : (m : ℕ) (t : Tree) → leaves (set_min_prefix_len m t) ≡ leaves t
unfolding leaves set_min_prefix_len
leaves-set_min_prefix_len m empty = refl
leaves-set_min_prefix_len m (node n left right) = refl

pub IsTree-cast : (m k : ℕ) (t : Tree) → m ≡ k → IsTree m t → IsTree k t
IsTree-cast m k t e h = subst (λ j. IsTree j t) e h

-- A tree has a key.
pub leaves-cons :
    (m : ℕ) (t : Tree) → IsTree m t → (k : List ℕ) × (ks : List (List ℕ)) × (leaves t ≡ k ∷ ks)
unfolding IsTree
leaves-cons m empty h = absurd h
leaves-cons m (node n left right) (_, _, inl h) =
    (n.message.key, [], leaves_full n left right h.full)
leaves-cons m (node n left right) (_, _, inr (h, l, r)) =
    let (k, ks, e) = leaves-cons (n.message.prefix_len + 1) left l in
    (
      k,
      ks ++ leaves right,
      leaves_short n left right (omega (arith, h.short)) ∙ ap (λ xs. xs ++ leaves right) e,
    )

pub leaves-IsKey : (m : ℕ) (t : Tree) → IsTree m t → All IsKey (leaves t)
unfolding IsTree
leaves-IsKey m empty h = absurd h
leaves-IsKey m (node n left right) (_, _, inl h) =
    All-cast IsKey (sym (leaves_full n left right h.full)) (h.valid, tt)
leaves-IsKey m (node n left right) (_, _, inr (h, l, r)) =
    All-cast IsKey (sym (leaves_short n left right (omega (arith, h.short)))) (
      All-append IsKey (leaves left) (leaves right) (leaves-IsKey (n.message.prefix_len + 1) left l)
        (leaves-IsKey (n.message.prefix_len + 1) right r))

-- The keys of a tree begin as its root's key does.
pub leaves-prefix :
    (m : ℕ) (n : Node) (left right : Tree) (i : ℕ)
    → IsTree m (node n left right)
    → i < n.message.prefix_len
    → All (λ k. child_index i k ≡ child_index i n.message.key) (leaves (node n left right))
unfolding IsTree
leaves-prefix m n left right i (_, _, inl h) hi =
    All-cast (λ k. child_index i k ≡ child_index i n.message.key)
      (sym (leaves_full n left right h.full)) (refl, tt)
leaves-prefix m n left right i (_, _, inr (h, l, r)) hi =
    All-cast (λ k. child_index i k ≡ child_index i n.message.key)
      (sym (leaves_short n left right (omega (arith, h.short)))) (h.summary.prefix i hi)
