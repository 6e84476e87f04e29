-- ===== src/Sync/Receive/Searches.antt =====
-- src/sync/sync.c: the walk of `remove_differences` and the search of `recv_key` for a node that
-- explains a difference read no bit that `sync_get_bits` refuses.
use lbard.Prelude.{
  ℕ, zero, suc, ◌+◌, ◌≤◌, ◌<◌, List, [], ◌≡◌, ◌⊎◌, inl, inr, refl, sym, Bool, true, false, lt→ltb,
  ◌==◌, ◌&&◌, if◌then◌else◌, arith, ==_iff,
}
use mathlib.Core.Path.{subst}
use lbard.Sync.Tree.{
  Tree, Node, KeyMessage, Step, descend, along, differs, empty, node, child, next_tree,
}
use lbard.Sync.Tree.Invariant.{IsRoot, IsTree, not_full}
use lbard.Sync.Tree.Add.Descent.{Says, prefix_of, reach_of}
use lbard.Sync.Tree.Remove.{walk_step}
use lbard.Sync.Tree.Remove.Laws.{walk_step-Says}
use lbard.Sync.Tree.Remove.Loop.{child-IsTree}
use lbard.Sync.Tree.Search.{cmp_message}
use lbard.Sync.Receive.{
  readable, turned, Explained, unreadable_test, unexplained, explained, explain_round, explain_from,
  Reached, overrun, nowhere, reached, reach_round, reach_from, remove_differences,
}

pub if_both {ℓ κ} :
    {A : Type ℓ} (P : A → Type κ) (t : Bool) (x y : A) → P x → P y → P (if t then x else y)
if_both P true x y h k = h
if_both P false x y h k = k

pub if_yes {ℓ κ} :
    {A : Type ℓ} (P : A → Type κ) (t : Bool) (x y : A) → t ≡ true → P x → P (if t then x else y)
if_yes P true x y e h = h
if_yes P false x y e h = absurd (ground arith)

pub if_no {ℓ κ} :
    {A : Type ℓ} (P : A → Type κ) (t : Bool) (x y : A) → t ≡ false → P y → P (if t then x else y)
if_no P true x y e h = absurd (ground arith)
if_no P false x y e h = h

pub readable_below : (p : ℕ) → p < 63 → readable p ≡ true
unfolding readable
readable_below p h = lt→ltb (p + 1) 64 (omega arith)

-- Where a step of a walk leads, in a tree.
step-IsTree :
    (s : Step) (key : List ℕ) (m p : ℕ) (n : Node) (left right : Tree)
    → IsTree m (node n left right)
    → n.message.prefix_len < 63
    → p ≤ n.message.prefix_len
    → Says p key n.message s
    → (next_tree s n left right ≡ empty)
      ⊎ ((k : ℕ) × IsTree k (next_tree s n left right)
          × (p + 1 ≤ prefix_of (next_tree s n left right)))
unfolding Says next_tree IsTree prefix_of
step-IsTree along key m p n left right tree short reach (ne, same) = inr (m, tree, omega arith)
step-IsTree (differs c) key m p n left right tree short reach (ne, turn, old) = inl refl
step-IsTree (descend c) key m p n left right (em, le, inl h) short reach (e, turn) =
    absurd (omega (arith, h.full))
step-IsTree (descend c) key m p n left right (em, le, inr (h, l, r)) short reach (e, turn) =
    let tree : IsTree (n.message.prefix_len + 1) (child c left right) =
      child-IsTree key c (n.message.prefix_len + 1) left right l r in
    inr (
      n.message.prefix_len + 1,
      tree,
      omega (arith, reach_of (n.message.prefix_len + 1) (child c left right) tree),
    )

unfoldable pub IsReadable : Explained → Type 0
IsReadable unreadable_test = ⊥
IsReadable unexplained = Unit
IsReadable (explained path) = Unit

explain_round-IsReadable :
    (s : Step) (e : Explained) → IsReadable e → IsReadable (explain_round s e)
unfolding IsReadable explain_round
explain_round-IsReadable (differs c) e h = tt
explain_round-IsReadable (descend c) e h = h
explain_round-IsReadable along e h = h

explain_from-empty :
    (rounds p : ℕ) (path : List Bool) (t : Tree) (message : KeyMessage)
    → t ≡ empty
    → IsReadable (explain_from rounds p path t message)
unfolding explain_from IsReadable
explain_from-empty rounds p path t message e =
    subst (λ u. IsReadable (explain_from rounds p path u message)) (sym e) (at_empty rounds)
  where
    at_empty : (rounds : ℕ) → IsReadable (explain_from rounds p path empty message)
    at_empty zero = tt
    at_empty (suc rounds) = tt

pub explain_from-IsReadable :
    (rounds m p : ℕ) (path : List Bool) (t : Tree) (message : KeyMessage)
    → p + rounds ≡ 64
    → IsTree m t
    → p ≤ prefix_of t
    → IsReadable (explain_from rounds p path t message)
unfolding explain_from IsTree prefix_of IsReadable
explain_from-IsReadable rounds m p path empty message e tree reach = absurd tree
explain_from-IsReadable zero m p path (node n left right) message e (em, le, inl h) reach =
    if_both IsReadable (cmp_message message n.message) _ _ tt (
      if_yes IsReadable (n.message.prefix_len == 64) _ _ ((==_iff n.message.prefix_len 64).1 h.full)
        tt)
explain_from-IsReadable zero m p path (node n left right) message e (em, le, inr (h, l, r)) reach =
    absurd (omega (arith, h.short))
explain_from-IsReadable (suc rounds) m p path (node n left right) message e (em, le, inl h) reach =
    if_both IsReadable (cmp_message message n.message) _ _ tt (
      if_yes IsReadable (n.message.prefix_len == 64) _ _ ((==_iff n.message.prefix_len 64).1 h.full)
        tt)
explain_from-IsReadable (suc rounds) m p path (node n left right) message e (em, le, inr (h, l, r))
      reach =
    let s = walk_step p message.key n.message in
    let t = next_tree s n left right in
    let rest = explain_from rounds (p + 1) (turned s path) t message in
    let ok : IsReadable rest =
      elim (step-IsTree s message.key m p n left right (em, le, inr (h, l, r)) h.short reach
        (walk_step-Says p message.key n.message reach)) [
          | inl none ↦ explain_from-empty rounds (p + 1) (turned s path) t message none
          | inr some ↦
              explain_from-IsReadable rounds some.0 (p + 1) (turned s path) t message (omega arith)
                some.1 some.2
        ] in
    if_both IsReadable (cmp_message message n.message) _ _ tt (
      if_no IsReadable (n.message.prefix_len == 64) _ _
        (not_full n.message.prefix_len (omega (arith, h.short)))
        (if_yes IsReadable (readable p) _ _ (readable_below p (omega (arith, h.short)))
          (explain_round-IsReadable s rest ok)))

unfoldable pub IsWithin : Reached → Type 0
IsWithin overrun = ⊥
IsWithin nowhere = Unit
IsWithin (reached path t) = Unit

reach_round-IsWithin : (s : Step) (r : Reached) → IsWithin r → IsWithin (reach_round s r)
unfolding IsWithin reach_round
reach_round-IsWithin (differs c) r h = tt
reach_round-IsWithin (descend c) r h = h
reach_round-IsWithin along r h = h

-- A message of a short prefix is looked up in any tree.
reach_from_short :
    (rounds p : ℕ) (path : List Bool) (t : Tree) (message : KeyMessage)
    → p + rounds ≤ 62
    → IsWithin (reach_from rounds p path t message)
unfolding reach_from IsWithin
reach_from_short zero p path empty message h = tt
reach_from_short (suc rounds) p path empty message h = tt
reach_from_short zero p path (node n left right) message h = tt
reach_from_short (suc rounds) p path (node n left right) message h =
    let s = walk_step p message.key n.message in
    let rest = reach_from rounds (p + 1) (turned s path) (next_tree s n left right) message in
    if_both IsWithin (n.message.prefix_len == 64 && cmp_message message n.message) _ _ tt (
      if_both IsWithin (n.message.prefix_len == 64 && message.prefix_len == 64) _ _ tt (
        if_yes IsWithin (readable p) _ _ (readable_below p (omega arith)) (
          reach_round-IsWithin s rest (
            reach_from_short rounds (p + 1) (turned s path) (next_tree s n left right) message
              (omega arith)))))

reach_from-empty :
    (rounds p : ℕ) (path : List Bool) (t : Tree) (message : KeyMessage)
    → t ≡ empty
    → IsWithin (reach_from rounds p path t message)
unfolding reach_from IsWithin
reach_from-empty rounds p path t message e =
    subst (λ u. IsWithin (reach_from rounds p path u message)) (sym e) (at_empty rounds)
  where
    at_empty : (rounds : ℕ) → IsWithin (reach_from rounds p path empty message)
    at_empty zero = tt
    at_empty (suc rounds) = tt

-- A whole key is looked up in a tree that keeps the invariant.
reach_from_whole :
    (rounds m p : ℕ) (path : List Bool) (t : Tree) (message : KeyMessage)
    → message.prefix_len ≡ 64
    → IsTree m t
    → p ≤ prefix_of t
    → IsWithin (reach_from rounds p path t message)
unfolding reach_from IsWithin IsTree prefix_of
reach_from_whole rounds m p path empty message e tree reach = absurd tree
reach_from_whole zero m p path (node n left right) message e tree reach = tt
reach_from_whole (suc rounds) m p path (node n left right) message e (em, le, inl h) reach =
    if_both IsWithin (n.message.prefix_len == 64 && cmp_message message n.message) _ _ tt (
      if_yes IsWithin (n.message.prefix_len == 64 && message.prefix_len == 64) _ _
        (both_full n.message.prefix_len message.prefix_len h.full e) tt)
  where
    both_full : (a b : ℕ) → a ≡ 64 → b ≡ 64 → (a == 64 && b == 64) ≡ true
    both_full a b f g = ground arith
reach_from_whole (suc rounds) m p path (node n left right) message e (em, le, inr (h, l, r)) reach =
    let s = walk_step p message.key n.message in
    let t = next_tree s n left right in
    let rest = reach_from rounds (p + 1) (turned s path) t message in
    let ok : IsWithin rest =
      elim (step-IsTree s message.key m p n left right (em, le, inr (h, l, r)) h.short reach
        (walk_step-Says p message.key n.message reach)) [
          | inl none ↦ reach_from-empty rounds (p + 1) (turned s path) t message none
          | inr some ↦
              reach_from_whole rounds some.0 (p + 1) (turned s path) t message e some.1 some.2
        ] in
    if_both IsWithin (n.message.prefix_len == 64 && cmp_message message n.message) _ _ tt (
      if_both IsWithin (n.message.prefix_len == 64 && message.prefix_len == 64) _ _ tt (
        if_yes IsWithin (readable p) _ _ (readable_below p (omega (arith, h.short)))
          (reach_round-IsWithin s rest ok)))

-- Records that `recv_key` is safe with, in the tree of the peer.
pub remove_differences-IsWithin :
    (t : Tree) (message : KeyMessage)
    → IsRoot t
    → (message.prefix_len ≤ 62) ⊎ (message.prefix_len ≡ 64)
    → IsWithin (remove_differences t message)
unfolding remove_differences IsRoot IsWithin prefix_of
remove_differences-IsWithin t message h (inl short) =
    if_both IsWithin message.stored _ _
      (reach_from_short message.prefix_len 0 [] t message (omega arith)) tt
remove_differences-IsWithin empty message h (inr whole) =
    if_both IsWithin message.stored _ _
      (reach_from-empty message.prefix_len 0 [] empty message refl) tt
remove_differences-IsWithin (node n left right) message h (inr whole) =
    if_both IsWithin message.stored _ _
      (reach_from_whole message.prefix_len 0 0 [] (node n left right) message whole h (omega arith))
      tt
