-- ===== src/Sync/Tree/Remove/Laws.antt =====
-- src/sync/sync.c: what `remove_key` makes of the parent of a child that has lost a key.
use lbard.Prelude.{
  ℕ, ◌+◌, ◌≤◌, ◌<◌, List, [], ◌∷◌, ◌++◌, ◌≡◌, inl, inr, refl, sym, ap, Bool, true, false, not,
  Option, some, if◌then◌else◌, arith, ltb, ◌==◌,
}
use lbard.Sync.Tree.{
  Tree, Node, KeyMessage, descend, along, differs, empty, node, child_index, child, touch, rejoin,
  set_min_prefix_len, step, sync_xor,
}
use mathlib.Core.Path.{subst}
use lbard.Sync.Tree.Xor.{IsKey}
use lbard.Sync.Tree.Leaves.{
  leaves, Inserted, Inserted_left, Inserted_right, Inserted_cast, All-Inserted_old,
}
use lbard.Sync.Tree.Invariant.{
  IsTree, leaves_short, leaves-set_min_prefix_len, leaves-IsKey, leaves-prefix,
}
use lbard.Sync.Tree.Add.Descent.{Says, step-Says, prefix_of, IsTree-raise}
use lbard.Sync.Tree.Remove.{walk_step, replace_parent, remove_child}
use lbard.Sync.Tree.Remove.Members.{Among, All-Among, touch-Summary_less}

-- What is left where a tree stood: NULL, or a tree that starts at the same bit.
unfoldable pub IsRest : ℕ → Tree → Type 0
unfolding IsTree
IsRest m empty = Unit
IsRest m (node n left right) = IsTree m (node n left right)

unfoldable pub Freed : ℕ → List ℕ → Tree → Option Tree → Type 0
unfolding IsRest
Freed m key t o = (t' : Tree) × (o ≡ some t') × IsRest m t' × Inserted key (leaves t') (leaves t)

if-swap {ℓ} :
    {A : Type ℓ} (t u : Bool) (x y : A) → t ≡ not u → (if t then x else y) ≡ (if u then y else x)
if-swap true true x y e = absurd (ground arith)
if-swap true false x y e = refl
if-swap false true x y e = refl
if-swap false false x y e = absurd (ground arith)

-- The test of `remove_key` is the one of `add_key`, as long as the prefix has not been passed.
pub walk_step-Says :
    (p : ℕ) (key : List ℕ) (m : KeyMessage) → p ≤ m.prefix_len → Says p key m (walk_step p key m)
unfolding walk_step step
walk_step-Says p key m h =
    subst (Says p key m)
      (sym (
        if-swap (ltb p m.prefix_len) (m.prefix_len == p)
          (if child_index p key
            then if child_index p m.key then along else differs false
            else if child_index p m.key
            then differs true
            else along)
          (descend (child_index p key)) (ground arith)))
      (step-Says p key m)

append_nil : (ks : List (List ℕ)) → ks ++ [] ≡ ks
append_nil [] = refl
append_nil (x ∷ ks) = ap (λ l. x ∷ l) (append_nil ks)

module _ (key : List ℕ) (m : ℕ) (n : Node) (left right : Tree) where
  pub member_prefix :
      (i : ℕ)
      → IsTree m (node n left right)
      → Among key (leaves (node n left right))
      → i < n.message.prefix_len
      → child_index i key ≡ child_index i n.message.key
  member_prefix i tree among hi =
      All-Among (λ k. child_index i k ≡ child_index i n.message.key) key
        (leaves (node n left right)) (leaves-prefix m n left right i tree hi) among

  member_IsKey : IsTree m (node n left right) → Among key (leaves (node n left right)) → IsKey key
  member_IsKey tree among =
      All-Among IsKey key (leaves (node n left right)) (leaves-IsKey m (node n left right) tree)
        among

  -- The sibling of the leaf that is gone takes the place of its parent.
  sibling_kept :
      (s : Tree)
      → (keys : List (List ℕ)) → leaves (node n left right) ≡ keys
      → Inserted key (leaves s) keys
      → m ≤ n.message.prefix_len
      → n.message.min_prefix_len ≡ m
      → IsTree (n.message.prefix_len + 1) s
      → Freed m key (node n left right) (replace_parent (touch key n) s)
  unfolding Freed replace_parent touch sync_xor IsTree IsRest prefix_of set_min_prefix_len
  sibling_kept empty keys e ins le em tree = absurd tree
  sibling_kept (node s l r) keys e ins le em tree =
      let raised : IsTree n.message.min_prefix_len
          (set_min_prefix_len n.message.min_prefix_len (node s l r)) =
        IsTree-raise (n.message.prefix_len + 1) n.message.min_prefix_len (node s l r) tree
          (omega (arith, tree.1)) in
      (
        set_min_prefix_len n.message.min_prefix_len (node s l r),
        refl,
        (em, omega (arith, tree.1), raised.2),
        Inserted_cast key (leaves (node s l r)) keys
            (leaves (set_min_prefix_len n.message.min_prefix_len (node s l r)))
            (leaves (node n left right))
            (leaves-set_min_prefix_len n.message.min_prefix_len (node s l r)) e ins,
      )

  -- A node whose child has lost the key.
  pub Freed-child :
      (c : Bool) (t : Tree)
      → IsTree m (node n left right)
      → Among key (leaves (node n left right))
      → n.message.prefix_len < 63
      → child_index n.message.prefix_len key ≡ c
      → IsRest (n.message.prefix_len + 1) t
      → Inserted key (leaves t) (leaves (child c left right))
      → Freed m key (node n left right) (remove_child (touch key n) c left right t)
  unfolding Freed remove_child IsTree rejoin child IsRest touch leaves
  Freed-child c t (em, le, inl h) among hp turn rest ins = absurd (omega (arith, h.full))
  Freed-child true empty (em, le, inr (h, l, r)) among hp turn rest ins =
      sibling_kept left (leaves left ++ leaves right) (leaves_short n left right (omega arith))
        (Inserted_cast key (leaves left ++ []) (leaves left ++ leaves right) (leaves left)
          (leaves left ++ leaves right) (sym (append_nil (leaves left))) refl
          (Inserted_right key [] (leaves right) (leaves left) ins))
        le em l
  Freed-child false empty (em, le, inr (h, l, r)) among hp turn rest ins =
      sibling_kept right (leaves left ++ leaves right) (leaves_short n left right (omega arith))
        (Inserted_left key [] (leaves left) (leaves right) ins) le em r
  Freed-child true (node a b d) (em, le, inr (h, l, r)) among hp turn rest ins =
      let tree : IsTree m (node n left right) = (em, le, inr (h, l, r)) in
      let all = Inserted_right key (leaves (node a b d)) (leaves right) (leaves left) ins in
      (
        node (touch key n) left (node a b d),
        refl,
        (
          em,
          le,
          inr (
            record {
              short = h.short;
              summary =
                  touch-Summary_less key n (leaves left ++ leaves right)
                    (leaves left ++ leaves (node a b d)) (member_IsKey tree among) (omega arith)
                    (λ i hi. member_prefix i tree among hi) all h.summary;
              on_left = h.on_left;
              on_right =
                  All-Inserted_old (λ x. child_index n.message.prefix_len x ≡ true) key
                    (leaves (node a b d)) (leaves right) ins h.on_right;
            },
            l,
            rest,
          ),
        ),
        Inserted_cast key (leaves left ++ leaves (node a b d)) (leaves left ++ leaves right)
            (leaves (node (touch key n) left (node a b d))) (leaves (node n left right))
            (leaves_short (touch key n) left (node a b d) (omega arith))
            (leaves_short n left right (omega arith)) all,
      )
  Freed-child false (node a b d) (em, le, inr (h, l, r)) among hp turn rest ins =
      let tree : IsTree m (node n left right) = (em, le, inr (h, l, r)) in
      let all = Inserted_left key (leaves (node a b d)) (leaves left) (leaves right) ins in
      (
        node (touch key n) (node a b d) right,
        refl,
        (
          em,
          le,
          inr (
            record {
              short = h.short;
              summary =
                  touch-Summary_less key n (leaves left ++ leaves right)
                    (leaves (node a b d) ++ leaves right) (member_IsKey tree among) (omega arith)
                    (λ i hi. member_prefix i tree among hi) all h.summary;
              on_left =
                  All-Inserted_old (λ x. child_index n.message.prefix_len x ≡ false) key
                    (leaves (node a b d)) (leaves left) ins h.on_left;
              on_right = h.on_right;
            },
            rest,
            r,
          ),
        ),
        Inserted_cast key (leaves (node a b d) ++ leaves right) (leaves left ++ leaves right)
            (leaves (node (touch key n) (node a b d) right)) (leaves (node n left right))
            (leaves_short (touch key n) (node a b d) right (omega arith))
            (leaves_short n left right (omega arith)) all,
      )
