-- ===== src/Sync/State/Stored.antt =====
-- src/sync/sync.c: a node that `sync_add_key` marks as stored leaves the tree as it is.
use lbard.Prelude.{
  ℕ, ◌+◌, List, [], ◌∷◌, ◌≡◌, inl, inr, refl, ap, sym, Bool, true, false, ◌==◌, if◌then◌else◌, ◌++◌,
}
use mathlib.Core.Path.{subst}
use lbard.Sync.Tree.{Tree, Node, empty, node}
use lbard.Sync.Tree.Leaves.{leaves}
use lbard.Sync.Tree.Invariant.{IsInner, IsTree, IsRoot, IsTree-IsRoot}
use lbard.Sync.State.{store_at}

pub leaves-store_at :
    (path : List Bool) (context : ℕ) (t : Tree) → leaves (store_at path context t) ≡ leaves t
unfolding leaves store_at
leaves-store_at path context empty = refl
leaves-store_at [] context (node n left right) = refl
leaves-store_at (false ∷ path) context (node n left right) =
    ap (λ l. if n.message.prefix_len == 64 then n.message.key ∷ [] else l ++ leaves right)
      (leaves-store_at path context left)
leaves-store_at (true ∷ path) context (node n left right) =
    ap (λ l. if n.message.prefix_len == 64 then n.message.key ∷ [] else leaves left ++ l)
      (leaves-store_at path context right)

store_at-empty :
    (path : List Bool) (context : ℕ) (t : Tree) → t ≡ empty → store_at path context t ≡ empty
unfolding store_at
store_at-empty path context t e = ap (store_at path context) e

with_keys :
    (n : Node) (ls rs ls' rs' : List (List ℕ))
    → ls' ≡ ls
    → rs' ≡ rs
    → IsInner n ls rs
    → IsInner n ls' rs'
with_keys n ls rs ls' rs' e f h =
    subst (λ xs. IsInner n xs rs') (sym e) (subst (λ ys. IsInner n ls ys) (sym f) h)

pub store_at-IsTree :
    (path : List Bool) (context m : ℕ) (t : Tree) → IsTree m t → IsTree m (store_at path context t)
unfolding IsTree store_at
store_at-IsTree path context m empty h = h
store_at-IsTree [] context m (node n left right) (em, le, inl h) = (
  em,
  le,
  inl (record { full = h.full; no_left = h.no_left; no_right = h.no_right; valid = h.valid }),
)
store_at-IsTree [] context m (node n left right) (em, le, inr (h, l, r)) = (
  em,
  le,
  inr (
    record {
      short = h.short;
      summary = record {
        valid = h.summary.valid;
        prefix = h.summary.prefix;
        sums = h.summary.sums;
      };
      on_left = h.on_left;
      on_right = h.on_right;
    },
    l,
    r,
  ),
)
store_at-IsTree (false ∷ path) context m (node n left right) (em, le, inl h) = (
  em,
  le,
  inl (record {
    full = h.full;
    no_left = store_at-empty path context left h.no_left;
    no_right = h.no_right;
    valid = h.valid;
  }),
)
store_at-IsTree (true ∷ path) context m (node n left right) (em, le, inl h) = (
  em,
  le,
  inl (record {
    full = h.full;
    no_left = h.no_left;
    no_right = store_at-empty path context right h.no_right;
    valid = h.valid;
  }),
)
store_at-IsTree (false ∷ path) context m (node n left right) (em, le, inr (h, l, r)) = (
  em,
  le,
  inr (
    with_keys n (leaves left) (leaves right) (leaves (store_at path context left)) (leaves right)
        (leaves-store_at path context left) refl h,
    store_at-IsTree path context (n.message.prefix_len + 1) left l,
    r,
  ),
)
store_at-IsTree (true ∷ path) context m (node n left right) (em, le, inr (h, l, r)) = (
  em,
  le,
  inr (
    with_keys n (leaves left) (leaves right) (leaves left) (leaves (store_at path context right))
        refl (leaves-store_at path context right) h,
    l,
    store_at-IsTree path context (n.message.prefix_len + 1) right r,
  ),
)

pub store_at-IsRoot :
    (path : List Bool) (context : ℕ) (t : Tree) → IsRoot t → IsRoot (store_at path context t)
unfolding IsRoot store_at
store_at-IsRoot path context empty h = tt
store_at-IsRoot path context (node n left right) h =
    IsTree-IsRoot (store_at path context (node n left right))
      (store_at-IsTree path context 0 (node n left right) h)
