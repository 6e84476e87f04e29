-- ===== src/Sync/Tree/Remove/Loop.antt =====
-- src/sync/sync.c: `remove_key` takes one key out of a tree, and keeps its invariant.
use lbard.Prelude.{
  ℕ, zero, suc, ◌+◌, ◌≤◌, ◌<◌, List, [], ◌∷◌, ◌≡◌, inl, inr, refl, sym, ap, ◌∙◌, Bool, true, false,
  Option, none, some, if◌then◌else◌, arith, ◌==◌, ==_iff,
}
use mathlib.Core.Path.{subst}
use lbard.Sync.Tree.{
  Tree, Node, Step, descend, along, differs, empty, node, child_index, child, next_tree, touch,
}
use lbard.Sync.Tree.Leaves.{leaves, Inserted}
use lbard.Sync.Tree.Invariant.{IsTree, IsRoot, leaves_full, leaves_short, not_full}
use lbard.Sync.Tree.Add.Descent.{Says, prefix_of, reach_of}
use lbard.Sync.Tree.Remove.{walk_step, remove_child, remove_round, remove_from, remove_key}
use lbard.Sync.Tree.Remove.Members.{Among, Among-child}
use lbard.Sync.Tree.Remove.Laws.{IsRest, Freed, Freed-child, member_prefix, walk_step-Says}

module _ (key : List ℕ) where
  only_key :
      (m : ℕ) (n : Node) (left right : Tree)
      → n.message.prefix_len ≡ 64
      → Among key (leaves (node n left right))
      → leaves (node n left right) ≡ key ∷ []
  unfolding Among
  only_key m n left right full among =
      elim (subst (Among key) (leaves_full n left right full) among) [
        | inl e ↦ leaves_full n left right full ∙ ap (λ k. k ∷ []) (sym e)
        | inr e ↦ absurd e
      ]

  Freed-leaf :
      (m : ℕ) (n : Node) (left right : Tree) (o : Option Tree)
      → n.message.prefix_len ≡ 64
      → Among key (leaves (node n left right))
      → Freed m key (node n left right) (if n.message.prefix_len == 64 then some empty else o)
  unfolding Freed IsRest leaves
  Freed-leaf m n left right o full among = (
    empty,
    ap (λ t. if t then some empty else o) ((==_iff n.message.prefix_len 64).1 full),
    tt,
    ([], [], refl, only_key m n left right full among),
  )

  if-not_full : (p : ℕ) (a o : Option Tree) → p < 63 → (if p == 64 then a else o) ≡ o
  if-not_full p a o h = ap (λ t. if t then a else o) (not_full p (omega arith))

  Freed-cast : (m : ℕ) (t : Tree) (o o' : Option Tree) → o' ≡ o → Freed m key t o → Freed m key t o'
  Freed-cast m t o o' e h = subst (Freed m key t) (sym e) h

  pub child-IsTree :
      (c : Bool) (k : ℕ) (left right : Tree)
      → IsTree k left
      → IsTree k right
      → IsTree k (child c left right)
  unfolding child
  child-IsTree true k left right l r = r
  child-IsTree false k left right l r = l

  Freed-descend :
      (c : Bool) (m : ℕ) (n : Node) (left right : Tree) (o : Option Tree)
      → IsTree m (node n left right)
      → Among key (leaves (node n left right))
      → n.message.prefix_len < 63
      → child_index n.message.prefix_len key ≡ c
      → (IsTree (n.message.prefix_len + 1) (child c left right)
          → Among key (leaves (child c left right))
          → Freed (n.message.prefix_len + 1) key (child c left right) o)
      → Freed m key (node n left right) (remove_round (descend c) key n left right o)
  unfolding Freed IsTree remove_round
  Freed-descend c m n left right o (em, le, inl h) among short turn rest =
      absurd (omega (arith, h.full))
  Freed-descend c m n left right o (em, le, inr (h, l, r)) among short turn rest =
      let among' : Among key (leaves (child c left right)) =
        subst (λ b. Among key (leaves (child b left right))) turn
          (Among-child key n.message.prefix_len left right h.on_left h.on_right
            (subst (Among key) (leaves_short n left right (omega arith)) among)) in
      let (t, e, tree, ins) =
        rest (child-IsTree c (n.message.prefix_len + 1) left right l r) among' in
      Freed-cast m (node n left right) (remove_child (touch key n) c left right t)
        (remove_round (descend c) key n left right o)
        (ap (remove_round (descend c) key n left right) e)
        (Freed-child key m n left right c t (em, le, inr (h, l, r)) among short turn tree ins)

  -- A round of the loop on an inner node.
  Freed-round :
      (s : Step) (m p : ℕ) (n : Node) (left right : Tree) (o : Option Tree)
      → IsTree m (node n left right)
      → Among key (leaves (node n left right))
      → n.message.prefix_len < 63
      → p ≤ n.message.prefix_len
      → Says p key n.message s
      → ((k : ℕ)
          → IsTree k (next_tree s n left right)
          → p + 1 ≤ prefix_of (next_tree s n left right)
          → Among key (leaves (next_tree s n left right))
          → Freed k key (next_tree s n left right) o)
      → Freed m key (node n left right) (remove_round s key n left right o)
  unfolding Says next_tree remove_round prefix_of
  Freed-round along m p n left right o tree among short reach (ne, same) rest =
      rest m tree (omega arith) among
  Freed-round (differs c) m p n left right o tree among short reach (ne, turn, old) rest =
      absurd (ground (arith, member_prefix key m n left right p tree among (omega arith)))
  Freed-round (descend c) m p n left right o tree among short reach (e, turn) rest =
      Freed-descend c m n left right o tree among short (ap (λ j. child_index j key) e ∙ sym turn)
        (λ h f.
          rest (n.message.prefix_len + 1) h
            (omega (arith, reach_of (n.message.prefix_len + 1) (child c left right) h)) f)

  Freed-from :
      (rounds m p : ℕ) (t : Tree)
      → p + rounds ≡ 63
      → IsTree m t
      → p ≤ prefix_of t
      → Among key (leaves t)
      → Freed m key t (remove_from rounds p t key)
  unfolding remove_from IsTree prefix_of
  Freed-from rounds m p empty e tree reach among = absurd tree
  Freed-from zero m p (node n left right) e (em, le, inl h) reach among =
      Freed-leaf m n left right none h.full among
  Freed-from zero m p (node n left right) e (em, le, inr (h, l, r)) reach among =
      absurd (omega (arith, h.short))
  Freed-from (suc rounds) m p (node n left right) e (em, le, inl h) reach among =
      Freed-leaf m n left right _ h.full among
  Freed-from (suc rounds) m p (node n left right) e (em, le, inr (h, l, r)) reach among =
      let s = walk_step p key n.message in
      let o = remove_from rounds (p + 1) (next_tree s n left right) key in
      Freed-cast m (node n left right) (remove_round s key n left right o) _
        (if-not_full n.message.prefix_len (some empty) (remove_round s key n left right o) h.short)
        (Freed-round s m p n left right o (em, le, inr (h, l, r)) among h.short reach
          (walk_step-Says p key n.message reach)
          (λ k. Freed-from rounds k (p + 1) (next_tree s n left right) (omega arith)))

no_key : (key : List ℕ) → Among key (leaves empty) → ⊥
unfolding Among leaves
no_key key h = h

IsRest-IsRoot : (t : Tree) → IsRest 0 t → IsRoot t
unfolding IsRoot IsRest
IsRest-IsRoot empty h = tt
IsRest-IsRoot (node n left right) h = h

-- `remove_key` of a key of a tree that keeps the invariant ends without a failed assertion; the
-- new tree keeps the invariant, and its keys are the old ones in their order, less that key.
pub remove_key-IsRoot :
    (t : Tree) (key : List ℕ)
    → IsRoot t
    → Among key (leaves t)
    → (t' : Tree) × (remove_key t key ≡ some t') × IsRoot t' × Inserted key (leaves t') (leaves t)
unfolding remove_key Freed IsRoot prefix_of
remove_key-IsRoot empty key h among = absurd (no_key key among)
remove_key-IsRoot (node n left right) key h among =
    let (t', e, rest, ins) =
      Freed-from key 63 0 0 (node n left right) (omega arith) h (omega arith) among in
    (t', e, IsRest-IsRoot t' rest, ins)
