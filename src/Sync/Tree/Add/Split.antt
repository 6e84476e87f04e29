-- ===== src/Sync/Tree/Add/Split.antt =====
-- src/sync/sync.c: the new inner node of `add_key`, where the prefix of a node differs from the key.
use lbard.Prelude.{
  ℕ, ◌+◌, ◌≤◌, ◌<◌, List, [], ◌∷◌, ◌++◌, ◌≡◌, ◌≢◌, inl, inr, refl, sym, ap, ◌∙◌, Bool, true, false,
  not, All, arith,
}
use mathlib.Core.Path.{subst}
use lbard.Sync.Tree.{
  Tree, Node, empty, node, child_index, touch, leaf, set_min_prefix_len, parent_of, split, sync_xor,
}
use lbard.Sync.Tree.Xor.{IsKey}
use lbard.Sync.Tree.Leaves.{leaves, Inserted, Inserted_cast, All-cast}
use lbard.Sync.Tree.Invariant.{
  Summary, IsTree, IsTree-cast, leaves_short, leaves-set_min_prefix_len, leaves-IsKey,
  leaves-prefix,
}
use lbard.Sync.Tree.Invariant.Sums.{
  touch-Summary, parent_of-Summary, parent_of-prefix, parent_of-prefix_len,
  parent_of-min_prefix_len,
}
use lbard.Sync.Tree.Add.Descent.{Walk, prefix_of, Walk-key, IsTree-raise, not_empty}

module _ (key : List ℕ) (k : IsKey key) where
  pub leaf-IsTree :
      (m context : ℕ) (stored : Bool)
      → m ≤ 64
      → IsTree m (node (leaf m key context stored) empty empty)
  unfolding IsTree leaf
  leaf-IsTree m context stored h =
      (refl, h, inl (record { full = refl; no_left = refl; no_right = refl; valid = k }))

  pub leaves-leaf :
      (m context : ℕ) (stored : Bool)
      → leaves (node (leaf m key context stored) empty empty) ≡ key ∷ []
  unfolding leaves leaf
  leaves-leaf m context stored = refl

  -- A node of two children that differ in bit `p`.
  module _ (m p : ℕ) (parent : Node) (min : parent.message.min_prefix_len ≡ m)
      (prefix : parent.message.prefix_len ≡ p) (le : m ≤ p) (hp : p < 63) where
    paired :
        (l r : Tree)
        → Summary parent (leaves l ++ leaves r)
        → All (λ x. child_index p x ≡ false) (leaves l)
        → All (λ x. child_index p x ≡ true) (leaves r)
        → IsTree (p + 1) l
        → IsTree (p + 1) r
        → IsTree m (node parent l r)
    unfolding IsTree
    paired l r s hl hr tl hx = (
      min,
      omega arith,
      inr (
        record {
          short = omega arith;
          summary = s;
          on_left = subst (λ j. All (λ x. child_index j x ≡ false) (leaves l)) (sym prefix) hl;
          on_right = subst (λ j. All (λ x. child_index j x ≡ true) (leaves r)) (sym prefix) hr;
        },
        IsTree-cast (p + 1) (parent.message.prefix_len + 1) l (omega arith) tl,
        IsTree-cast (p + 1) (parent.message.prefix_len + 1) r (omega arith) hx,
      ),
    )

    paired_keys :
        (l r : Tree) (ks : List (List ℕ))
        → Inserted key ks (leaves l ++ leaves r)
        → Inserted key ks (leaves (node parent l r))
    paired_keys l r ks ins =
        Inserted_cast key ks (leaves l ++ leaves r) ks (leaves (node parent l r)) refl
          (leaves_short parent l r (omega arith)) ins

  append_nil : (ks : List (List ℕ)) → ks ++ [] ≡ ks
  append_nil [] = refl
  append_nil (x ∷ ks) = ap (λ l. x ∷ l) (append_nil ks)

  before :
      (ks : List (List ℕ)) (fresh : List (List ℕ))
      → fresh ≡ key ∷ []
      → Inserted key ks (fresh ++ ks)
  before ks fresh e = ([], ks, refl, ap (λ l. l ++ ks) e)

  after :
      (ks : List (List ℕ)) (fresh : List (List ℕ))
      → fresh ≡ key ∷ []
      → Inserted key ks (ks ++ fresh)
  after ks fresh e = (ks, [], sym (append_nil ks), ap (λ l. ks ++ l) e)

  touch-prefix_len : (n : Node) → (touch key n).message.prefix_len ≡ n.message.prefix_len
  unfolding touch sync_xor
  touch-prefix_len n = refl

  touch-min_prefix_len :
      (n : Node) → (touch key n).message.min_prefix_len ≡ n.message.min_prefix_len
  unfolding touch sync_xor
  touch-min_prefix_len n = refl

  module _ (m p context : ℕ) (stored : Bool) (n : Node) (left right : Tree)
      (w : Walk key m p (node n left right)) (ne : n.message.prefix_len ≢ p) (hp : p < 63) where
    old_child : Tree
    old_child = set_min_prefix_len (p + 1) (node n left right)

    old_keys : leaves old_child ≡ leaves (node n left right)
    unfolding old_child
    old_keys = leaves-set_min_prefix_len (p + 1) (node n left right)

    old-IsTree : IsTree (p + 1) old_child
    unfolding old_child prefix_of
    old-IsTree = IsTree-raise m (p + 1) (node n left right) w.tree (omega (arith, w.reach))

    old_prefix :
        (i : ℕ)
        → i ≤ p
        → All (λ x. child_index i x ≡ child_index i n.message.key) (leaves old_child)
    unfolding prefix_of
    old_prefix i hi =
        All-cast (λ x. child_index i x ≡ child_index i n.message.key) (sym old_keys)
          (leaves-prefix m n left right i w.tree (omega (arith, w.reach)))

    parent : Node
    unfolding old_child
    parent = touch key (parent_of m p stored old_child)

    parent-Summary : (ks : List (List ℕ)) → Inserted key (leaves old_child) ks → Summary parent ks
    unfolding parent
    parent-Summary ks ins =
        let valid = leaves-IsKey (p + 1) old_child old-IsTree in
        let c : ℕ → Bool = λ i. child_index i n.message.key in
        let all : (i : ℕ) → i < p → All (λ x. child_index i x ≡ c i) (leaves old_child) =
          λ i hi. old_prefix i (omega arith) in
        let some = not_empty (p + 1) old_child old-IsTree in
        touch-Summary key (parent_of m p stored old_child) (leaves old_child) ks k
          (omega (arith, parent_of-prefix_len m p stored old_child (omega arith) valid))
          (λ i hi.
            let hj : i < p =
              omega (arith, parent_of-prefix_len m p stored old_child (omega arith) valid) in
            Walk-key key m p n left right i w hj
            ∙ sym (parent_of-prefix m p stored old_child (omega arith) valid c all some i hj))
          ins (parent_of-Summary m p stored old_child (omega arith) valid c all some)

    abbrev fresh : Tree
    fresh = node (leaf (p + 1) key context stored) empty empty

    old-valid : All IsKey (leaves old_child)
    old-valid = leaves-IsKey (p + 1) old_child old-IsTree

    parent-min : parent.message.min_prefix_len ≡ m
    unfolding parent
    parent-min =
        touch-min_prefix_len (parent_of m p stored old_child)
        ∙ parent_of-min_prefix_len m p stored old_child (omega arith) old-valid

    parent-prefix : parent.message.prefix_len ≡ p
    unfolding parent
    parent-prefix =
        touch-prefix_len (parent_of m p stored old_child)
        ∙ parent_of-prefix_len m p stored old_child (omega arith) old-valid

    fresh_keys : leaves fresh ≡ key ∷ []
    fresh_keys = leaves-leaf (p + 1) context stored

    fresh_turn : (c : Bool) → child_index p key ≡ c → All (λ x. child_index p x ≡ c) (leaves fresh)
    fresh_turn c e = All-cast (λ x. child_index p x ≡ c) (sym fresh_keys) (e, tt)

    old_turn :
        (c : Bool)
        → child_index p n.message.key ≡ c
        → All (λ x. child_index p x ≡ c) (leaves old_child)
    old_turn c e =
        subst (λ b. All (λ x. child_index p x ≡ b) (leaves old_child)) e
          (old_prefix p (omega arith))

    joined :
        (l r : Tree)
        → Inserted key (leaves old_child) (leaves l ++ leaves r)
        → All (λ x. child_index p x ≡ false) (leaves l)
        → All (λ x. child_index p x ≡ true) (leaves r)
        → IsTree (p + 1) l
        → IsTree (p + 1) r
        → IsTree m (node parent l r)
          × Inserted key (leaves (node n left right)) (leaves (node parent l r))
    joined l r ins hl hr tl hx = (
      paired m p parent parent-min parent-prefix w.start hp l r
          (parent-Summary (leaves l ++ leaves r) ins) hl hr tl hx,
      Inserted_cast key (leaves old_child) (leaves (node parent l r)) (leaves (node n left right))
          (leaves (node parent l r)) (sym old_keys) refl
          (paired_keys m p parent parent-min parent-prefix w.start hp l r (leaves old_child) ins),
    )

    pub split_made :
        (c : Bool)
        → child_index p key ≡ not c
        → child_index p n.message.key ≡ c
        → IsTree m (split m p key context stored c (node n left right))
          × Inserted key
              (leaves (node n left right))
              (leaves (split m p key context stored c (node n left right)))
    unfolding split parent old_child
    split_made false turn old =
        joined old_child fresh (after (leaves old_child) (leaves fresh) fresh_keys)
          (old_turn false old) (fresh_turn true turn) old-IsTree
          (leaf-IsTree (p + 1) context stored (omega arith))
    split_made true turn old =
        joined fresh old_child (before (leaves old_child) (leaves fresh) fresh_keys)
          (fresh_turn false turn) (old_turn true old)
          (leaf-IsTree (p + 1) context stored (omega arith)) old-IsTree
