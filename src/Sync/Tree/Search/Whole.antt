-- ===== src/Sync/Tree/Search/Whole.antt =====
-- src/sync/sync.c: `find_message` of a message with a whole key, whatever its `min_prefix_len`.
use lbard.Prelude.{
  ℕ, zero, suc, ◌+◌, ◌-◌, ◌≤◌, ◌<◌, List, [], ◌∷◌, ◌≡◌, inl, inr, sym, ap, ◌∙◌, Bool, false,
  if◌then◌else◌, arith, ltb, ◌==◌, ==_iff, min, max, Bool-cases,
}
use mathlib.Core.Path.{subst}
use lbard.Sync.Tree.{
  Tree, Node, KeyMessage, Step, descend, along, differs, empty, node, child, child_index, next_tree,
}
use lbard.Sync.Tree.Xor.{IsKey}
use lbard.Sync.Tree.Leaves.{leaves}
use lbard.Sync.Tree.Invariant.{IsTree, IsRoot, leaves_full, leaves_short, not_full}
use lbard.Sync.Tree.Add.Descent.{Says, prefix_of, reach_of}
use lbard.Sync.Tree.Remove.{walk_step}
use lbard.Sync.Tree.Remove.Laws.{walk_step-Says}
use lbard.Sync.Tree.Remove.Loop.{child-IsTree}
use lbard.Sync.Tree.Remove.Members.{Among, Among-child}
use lbard.Sync.Tree.Search.{
  same_bytes, xor_begin, cmp_ends, cmp_message, Search, failed, missing, found, below, find_round,
  find_from, find_message,
}
use lbard.Sync.Tree.Search.Laws.{same_bytes_refl}
use lbard.Sync.Tree.Search.Answers.{Answers, differs_answer}

full_begin :
    (p m q k : ℕ)
    → p ≡ 64
    → q ≡ 64
    → m ≤ 64
    → k ≤ 64
    → ltb (min p q) (max (if p == 64 then m else p) (if q == 64 then k else q)) ≡ false
full_begin p m q k e f h j = ground arith

-- Two messages with whole keys are compared in all bytes.
pub cmp_full :
    (first second : KeyMessage)
    → first.prefix_len ≡ 64
    → second.prefix_len ≡ 64
    → first.min_prefix_len ≤ 64
    → second.min_prefix_len ≤ 64
    → cmp_message first second ≡ same_bytes 8 first.key second.key
unfolding cmp_message xor_begin
cmp_full first second e f h j =
    ap
      (λ t.
        if t
        then cmp_ends (min first.prefix_len second.prefix_len)
            (max (if first.prefix_len == 64 then first.min_prefix_len else first.prefix_len)
              (if second.prefix_len == 64 then second.min_prefix_len else second.prefix_len))
            first.key second.key
        else same_bytes 8 first.key second.key)
      (full_begin first.prefix_len first.min_prefix_len second.prefix_len second.min_prefix_len e f
        h j)

-- No failed assertion, and NULL only for a key that no leaf has.
unfoldable pub IsAnswer : List ℕ → Tree → Search → Type 0
IsAnswer key t failed = ⊥
IsAnswer key t missing = Among key (leaves t) → ⊥
IsAnswer key t (found path) = Unit

module _ (message : KeyMessage) (whole : message.prefix_len ≡ 64)
    (begin : message.min_prefix_len ≤ 64) (k : IsKey message.key) where
  abbrev key : List ℕ
  key = message.key

  found_or :
      (n : Node) (left right : Tree) (s : Search)
      → (cmp_message n.message message ≡ false → IsAnswer key (node n left right) s)
      → IsAnswer key (node n left right) (if cmp_message n.message message then found [] else s)
  unfolding IsAnswer
  found_or n left right s rest = elim (Bool-cases (cmp_message n.message message)) [
    | inl e ↦ subst (λ t. IsAnswer key (node n left right) (if t then found [] else s)) (sym e) tt
    | inr e ↦
        subst (λ t. IsAnswer key (node n left right) (if t then found [] else s)) (sym e) (rest e)
  ]

  other_key :
      (n : Node) (left right : Tree)
      → n.message.prefix_len ≡ 64
      → n.message.min_prefix_len ≤ 64
      → cmp_message n.message message ≡ false
      → Among key (leaves (node n left right))
      → ⊥
  unfolding Among
  other_key n left right full le e among =
      other (subst (Among key) (leaves_full n left right full) among)
    where
      other : Among key (n.message.key ∷ []) → ⊥
      other (inl f) = absurd (
          ground (
            arith,
            subst (λ x. same_bytes 8 x key ≡ false) (sym f)
                (sym (cmp_full n.message message full whole le begin) ∙ e),
            same_bytes_refl 8 key,
          ))
      other (inr f) = f

  at_leaf :
      (n : Node) (left right : Tree) (s : Search)
      → n.message.prefix_len ≡ 64
      → n.message.min_prefix_len ≤ 64
      → IsAnswer key (node n left right) (
          if cmp_message n.message message
          then found []
          else if n.message.prefix_len == 64
          then missing
          else s)
  unfolding IsAnswer
  at_leaf n left right s full le = found_or n left right _ (λ e.
      subst (λ t. IsAnswer key (node n left right) (if t then missing else s))
        (sym ((==_iff n.message.prefix_len 64).1 full)) (other_key n left right full le e))

  at_child :
      (c : Bool) (n : Node) (left right : Tree) (s : Search)
      → (Among key (leaves (node n left right)) → Among key (leaves (child c left right)))
      → IsAnswer key (child c left right) s
      → IsAnswer key (node n left right) (below c s)
  unfolding IsAnswer below
  at_child c n left right failed f h = h
  at_child c n left right missing f h = λ among. h (f among)
  at_child c n left right (found path) f h = tt

  at_round :
      (s : Step) (m p : ℕ) (n : Node) (left right : Tree) (rest : Search)
      → IsTree m (node n left right)
      → n.message.prefix_len < 63
      → p ≤ n.message.prefix_len
      → Says p key n.message s
      → ((j : ℕ)
          → IsTree j (next_tree s n left right)
          → p + 1 ≤ prefix_of (next_tree s n left right)
          → IsAnswer key (next_tree s n left right) rest)
      → IsAnswer key (node n left right) (find_round s rest)
  unfolding Says next_tree find_round prefix_of IsTree IsAnswer Answers
  at_round along m p n left right rest tree short reach (ne, same) h = h m tree (omega arith)
  at_round (differs c) m p n left right rest tree short reach (ne, turn, old) h =
      differs_answer key k c m p n left right tree (omega arith) turn old
  at_round (descend c) m p n left right rest (em, le, inl leaf) short reach (e, turn) h =
      absurd (omega (arith, leaf.full))
  at_round (descend c) m p n left right rest (em, le, inr (i, l, r)) short reach (e, turn) h =
      let tree : IsTree (n.message.prefix_len + 1) (child c left right) =
        child-IsTree key c (n.message.prefix_len + 1) left right l r in
      at_child c n left right rest
        (λ among.
          subst (λ b. Among key (leaves (child b left right)))
            (ap (λ j. child_index j key) e ∙ sym turn)
            (Among-child key n.message.prefix_len left right i.on_left i.on_right
              (subst (Among key) (leaves_short n left right (omega arith)) among)))
        (h (n.message.prefix_len + 1) tree
          (omega (arith, reach_of (n.message.prefix_len + 1) (child c left right) tree)))

  from_round :
      (rounds m p : ℕ) (t : Tree)
      → p + rounds ≡ 63
      → IsTree m t
      → p ≤ prefix_of t
      → IsAnswer key t (find_from rounds p t message)
  unfolding find_from IsTree prefix_of
  from_round rounds m p empty e tree reach = absurd tree
  from_round zero m p (node n left right) e (em, le, inl h) reach =
      at_leaf n left right failed h.full (omega (arith, h.full))
  from_round zero m p (node n left right) e (em, le, inr (h, l, r)) reach =
      absurd (omega (arith, h.short))
  from_round (suc rounds) m p (node n left right) e (em, le, inl h) reach =
      at_leaf n left right _ h.full (omega (arith, h.full))
  from_round (suc rounds) m p (node n left right) e (em, le, inr (h, l, r)) reach =
      let tree : IsTree m (node n left right) = (em, le, inr (h, l, r)) in
      let s = walk_step p key n.message in
      let rest = find_from rounds (p + 1) (next_tree s n left right) message in
      found_or n left right (if n.message.prefix_len == 64 then missing else find_round s rest)
        (λ other.
          subst (λ t. IsAnswer key (node n left right) (if t then missing else find_round s rest))
            (sym (not_full n.message.prefix_len (omega (arith, h.short))))
            (at_round s m p n left right rest tree h.short reach
              (walk_step-Says p key n.message reach)
              (λ j tree' reach'.
                from_round rounds j (p + 1) (next_tree s n left right) (omega arith) tree' reach')))

  from_root :
      (n : Node) (left right : Tree)
      → IsTree 0 (node n left right)
      → IsAnswer key (node n left right) (find_message (node n left right) message)
  unfolding find_message IsTree prefix_of find_from
  from_root n left right (em, le, inl h) =
      let zero_rounds : 0 ≡ 63 - n.message.prefix_len = omega (arith, h.full) in
      subst
        (λ j.
          IsAnswer key (node n left right)
            (find_from j n.message.prefix_len (node n left right) message))
        zero_rounds (at_leaf n left right failed h.full (omega (arith, h.full)))
  from_root n left right (em, le, inr (h, l, r)) =
      from_round (63 - n.message.prefix_len) 0 n.message.prefix_len (node n left right)
        (omega (arith, h.short)) (em, le, inr (h, l, r)) (omega arith)

-- The search for a whole key ends without a failed assertion, and finds nothing only where no leaf
-- has the key.
pub find_message-IsAnswer :
    (t : Tree) (message : KeyMessage)
    → IsRoot t
    → message.prefix_len ≡ 64
    → message.min_prefix_len ≤ 64
    → IsKey message.key
    → IsAnswer message.key t (find_message t message)
unfolding find_message IsRoot IsAnswer leaves Among
find_message-IsAnswer empty message h e m k = λ among. among
find_message-IsAnswer (node n left right) message h e m k = from_root message e m k n left right h
