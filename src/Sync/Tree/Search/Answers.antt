-- ===== src/Sync/Tree/Search/Answers.antt =====
-- src/sync/sync.c: what `find_message` says of a key.
use lbard.Prelude.{
  ℕ, zero, suc, ◌+◌, ◌-◌, ◌≤◌, ◌<◌, List, [], ◌∷◌, ◌≡◌, inl, inr, sym, ap, ◌∙◌, Bool, false, not,
  if◌then◌else◌, arith, ◌==◌, ==_iff, Bool-cases,
}
use mathlib.Core.Path.{subst}
use lbard.Sync.Tree.{
  Tree, Node, Step, descend, along, differs, empty, node, child_index, child, next_tree,
}
use lbard.Sync.Tree.Xor.{IsKey}
use lbard.Sync.Tree.Leaves.{leaves}
use lbard.Sync.Tree.Invariant.{IsTree, IsRoot, leaves_full, leaves_short, not_full}
use lbard.Sync.Tree.Add.Descent.{Says, prefix_of, reach_of}
use lbard.Sync.Tree.Remove.{walk_step}
use lbard.Sync.Tree.Remove.Members.{Among, Among-child}
use lbard.Sync.Tree.Remove.Laws.{member_prefix, walk_step-Says}
use lbard.Sync.Tree.Remove.Loop.{child-IsTree}
use lbard.Sync.Tree.Search.{
  same_bytes, cmp_message, Search, failed, missing, found, below, find_round, find_from,
  find_message, message_from_key,
}
use lbard.Sync.Tree.Search.Laws.{same_bytes_refl, same_bytes-eq, cmp_whole}

-- The node that a list of turns leads to.
unfoldable pub node_at : List Bool → Tree → Tree
node_at [] t = t
node_at (index ∷ path) empty = empty
node_at (index ∷ path) (node n left right) = node_at path (child index left right)

unfoldable pub HasKey : List ℕ → Tree → Type 0
HasKey key empty = ⊥
HasKey key (node n left right) = n.message.key ≡ key

-- An answer that is right: no failed assertion, NULL for a key that no leaf has, or a node with
-- the key.
unfoldable pub Answers : List ℕ → Tree → Search → Type 0
unfolding leaves Among HasKey node_at
Answers key t failed = ⊥
Answers key t missing = Among key (leaves t) → ⊥
Answers key t (found path) = HasKey key (node_at path t)

module _ (key : List ℕ) (k : IsKey key) where
  -- The test of a node, and the answers where it fails.
  Answers-if :
      (n : Node) (left right : Tree) (s : Search)
      → n.message.min_prefix_len ≤ n.message.prefix_len
      → n.message.prefix_len ≤ 64
      → IsKey n.message.key
      → ((same_bytes 8 n.message.key key ≡ false) → Answers key (node n left right) s)
      → Answers key
          (node n left right)
          (if cmp_message n.message (message_from_key key) then found [] else s)
  unfolding Answers
  Answers-if n left right s h l v rest = elim (Bool-cases (same_bytes 8 n.message.key key)) [
    | inl e ↦
        subst (λ t. Answers key (node n left right) (if t then found [] else s))
          (sym (cmp_whole n.message key h l ∙ e))
          (same_bytes-eq 8 n.message.key key v.size k.size e)
    | inr e ↦
        subst (λ t. Answers key (node n left right) (if t then found [] else s))
          (sym (cmp_whole n.message key h l ∙ e)) (rest e)
  ]

  -- At a leaf with another key.
  Answers-leaf :
      (n : Node) (left right : Tree) (s : Search)
      → n.message.prefix_len ≡ 64
      → same_bytes 8 n.message.key key ≡ false
      → Answers key (node n left right) (if n.message.prefix_len == 64 then missing else s)
  unfolding Answers
  Answers-leaf n left right s full e =
      subst (λ t. Answers key (node n left right) (if t then missing else s))
        (sym ((==_iff n.message.prefix_len 64).1 full))
        (λ among. other (subst (Among key) (leaves_full n left right full) among))
    where
      other : Among key (n.message.key ∷ []) → ⊥
      other (inl f) =
          absurd (
            ground
              (arith, subst (λ x. same_bytes 8 x key ≡ false) (sym f) e, same_bytes_refl 8 key))
      other (inr f) = f

  pub differs_answer :
      (c : Bool) (m p : ℕ) (n : Node) (left right : Tree)
      → IsTree m (node n left right)
      → p < n.message.prefix_len
      → child_index p key ≡ not c
      → child_index p n.message.key ≡ c
      → Answers key (node n left right) missing
  unfolding Answers
  differs_answer c m p n left right tree hp turn old =
      λ among. absurd (ground (arith, member_prefix key m n left right p tree among hp))

  Answers-child :
      (c : Bool) (n : Node) (left right : Tree) (s : Search)
      → (Among key (leaves (node n left right)) → Among key (leaves (child c left right)))
      → Answers key (child c left right) s
      → Answers key (node n left right) (below c s)
  unfolding Answers below node_at
  Answers-child c n left right failed f h = h
  Answers-child c n left right missing f h = λ among. h (f among)
  Answers-child c n left right (found path) f h = h

  Answers-round :
      (s : Step) (m p : ℕ) (n : Node) (left right : Tree) (rest : Search)
      → IsTree m (node n left right)
      → n.message.prefix_len < 63
      → p ≤ n.message.prefix_len
      → Says p key n.message s
      → ((j : ℕ)
          → IsTree j (next_tree s n left right)
          → p + 1 ≤ prefix_of (next_tree s n left right)
          → Answers key (next_tree s n left right) rest)
      → Answers key (node n left right) (find_round s rest)
  unfolding Says next_tree find_round prefix_of IsTree
  Answers-round along m p n left right rest tree short reach (ne, same) h = h m tree (omega arith)
  Answers-round (differs c) m p n left right rest tree short reach (ne, turn, old) h =
      differs_answer c m p n left right tree (omega arith) turn old
  Answers-round (descend c) m p n left right rest (em, le, inl leaf) short reach (e, turn) h =
      absurd (omega (arith, leaf.full))
  Answers-round (descend c) m p n left right rest (em, le, inr (i, l, r)) short reach (e, turn) h =
      let tree : IsTree (n.message.prefix_len + 1) (child c left right) =
        child-IsTree key c (n.message.prefix_len + 1) left right l r in
      Answers-child c n left right rest
        (λ among.
          subst (λ b. Among key (leaves (child b left right)))
            (ap (λ j. child_index j key) e ∙ sym turn)
            (Among-child key n.message.prefix_len left right i.on_left i.on_right
              (subst (Among key) (leaves_short n left right (omega arith)) among)))
        (h (n.message.prefix_len + 1) tree
          (omega (arith, reach_of (n.message.prefix_len + 1) (child c left right) tree)))

  Answers-from :
      (rounds m p : ℕ) (t : Tree)
      → p + rounds ≡ 63
      → IsTree m t
      → p ≤ prefix_of t
      → Answers key t (find_from rounds p t (message_from_key key))
  unfolding find_from IsTree prefix_of message_from_key
  Answers-from rounds m p empty e tree reach = absurd tree
  Answers-from zero m p (node n left right) e (em, le, inl h) reach =
      Answers-if n left right _ (omega arith) (omega (arith, h.full)) h.valid
        (Answers-leaf n left right failed h.full)
  Answers-from zero m p (node n left right) e (em, le, inr (h, l, r)) reach =
      absurd (omega (arith, h.short))
  Answers-from (suc rounds) m p (node n left right) e (em, le, inl h) reach =
      Answers-if n left right _ (omega arith) (omega (arith, h.full)) h.valid
        (Answers-leaf n left right _ h.full)
  Answers-from (suc rounds) m p (node n left right) e (em, le, inr (h, l, r)) reach =
      let tree : IsTree m (node n left right) = (em, le, inr (h, l, r)) in
      let s = walk_step p key n.message in
      let rest = find_from rounds (p + 1) (next_tree s n left right) (message_from_key key) in
      Answers-if n left right (if n.message.prefix_len == 64 then missing else find_round s rest)
        (omega arith) (omega (arith, h.short)) h.summary.valid
        (λ other.
          subst (λ t. Answers key (node n left right) (if t then missing else find_round s rest))
            (sym (not_full n.message.prefix_len (omega (arith, h.short))))
            (Answers-round s m p n left right rest tree h.short reach
              (walk_step-Says p key n.message reach)
              (λ j tree' reach'.
                Answers-from rounds j (p + 1) (next_tree s n left right) (omega arith) tree'
                  reach')))

  at_leaf :
      (n : Node) (left right : Tree)
      → n.message.min_prefix_len ≤ n.message.prefix_len
      → n.message.prefix_len ≡ 64
      → IsKey n.message.key
      → Answers key
          (node n left right)
          (find_from 0 n.message.prefix_len (node n left right) (message_from_key key))
  unfolding find_from
  at_leaf n left right le full valid =
      Answers-if n left right _ le (omega arith) valid (Answers-leaf n left right failed full)

  Answers-root :
      (n : Node) (left right : Tree)
      → IsTree 0 (node n left right)
      → Answers key (node n left right) (find_message (node n left right) (message_from_key key))
  unfolding find_message IsTree prefix_of
  Answers-root n left right (em, le, inl h) =
      let zero_rounds : 0 ≡ 63 - n.message.prefix_len = omega (arith, h.full) in
      subst
        (λ j.
          Answers key (node n left right)
            (find_from j n.message.prefix_len (node n left right) (message_from_key key)))
        zero_rounds (at_leaf n left right (omega arith) h.full h.valid)
  Answers-root n left right (em, le, inr (h, l, r)) =
      Answers-from (63 - n.message.prefix_len) 0 n.message.prefix_len (node n left right)
        (omega (arith, h.short)) (em, le, inr (h, l, r)) (omega arith)

-- `find_message` of a key, in a tree that keeps the invariant, ends without a failed assertion: it
-- returns NULL only for a key that no leaf has, and otherwise a node with exactly that key.
pub find_message-Answers :
    (t : Tree) (key : List ℕ)
    → IsRoot t
    → IsKey key
    → Answers key t (find_message t (message_from_key key))
unfolding find_message IsRoot Answers leaves Among
find_message-Answers empty key h k = λ among. among
find_message-Answers (node n left right) key h k = Answers-root key k n left right h
