-- ===== src/Sync/Receive/Nodes.antt =====
-- src/sync/sync.c: the loop of `recv_key` over the nodes of a tree fails no assertion.
use lbard.Prelude.{
  ℕ, ◌+◌, ◌-◌, ◌≤◌, ◌<◌, List, [], ◌∷◌, ◌++◌, ◌≡◌, inl, inr, refl, sym, Bool, true, false, ltb, leb,
  ◌==◌, Option, arith, ==_iff, Bool-cases, dec_lt,
}
use mathlib.Core.Path.{subst}
use lbard.Sync.Tree.{Tree, Node, KeyMessage, empty, node, child_index, sync_xor}
use lbard.Sync.Tree.Invariant.{IsTree}
use lbard.Sync.Tree.Add.Descent.{Walk, Walk-stops, prefix_of}
use lbard.Sync.Tree.Search.{cmp_message}
use lbard.Sync.Receive.{
  Action, Outcome, refused, aborted, done, Explained, unreadable_test, unexplained, explained,
  explain_actions, readable, Scan, unreadable, differs_at, scanned, scan_from,
}
use lbard.Sync.Receive.Record.{before, ended, siblings, after_scan, recv_from, is_blank}
use lbard.Sync.Receive.Loops.{Safe, Safe-IsTree, Safe-descend, Ends, scan_from-Ends}
use lbard.Sync.Receive.Searches.{
  if_both, if_yes, if_no, readable_below, IsReadable, explain_from-IsReadable,
}

unfoldable pub IsDone : Outcome → Type 0
IsDone refused = ⊥
IsDone aborted = ⊥
IsDone (done actions) = Unit

before-IsDone : (actions : List Action) (o : Outcome) → IsDone o → IsDone (before actions o)
unfolding before IsDone
before-IsDone actions refused h = h
before-IsDone actions aborted h = h
before-IsDone actions (done more) h = tt

explain_actions-IsDone :
    (path : List Bool) (left right : Tree) (e : Explained)
    → IsReadable e
    → IsDone (explain_actions path left right e)
unfolding explain_actions IsDone IsReadable
explain_actions-IsDone path left right unreadable_test h = h
explain_actions-IsDone path left right unexplained h = tt
explain_actions-IsDone path left right (explained at) h = tt

reach-le :
    (m p : ℕ) (n : Node) (left right : Tree)
    → IsTree m (node n left right)
    → p ≤ n.message.prefix_len
    → p ≤ 64
unfolding IsTree
reach-le m p n left right (em, le, inl h) hp = omega (arith, h.full)
reach-le m p n left right (em, le, inr (h, l, r)) hp = omega (arith, h.short)

module _ (message peer_message : KeyMessage) (peer_node : Option (List Bool))
    (same : peer_message.prefix_len ≡ message.prefix_len) where
  ended-IsDone :
      (m p : ℕ) (path : List Bool) (n : Node) (left right : Tree)
      → IsTree m (node n left right)
      → p ≤ n.message.prefix_len
      → IsDone (ended message peer_message peer_node p path n left right)
  unfolding ended IsDone prefix_of
  ended-IsDone m p path n left right tree reach = if_both IsDone (is_blank peer_message) _ _ tt (
      if_both IsDone (ltb peer_message.prefix_len n.message.prefix_len) _ _ tt (
        explain_actions-IsDone path left right _ (
          explain_from-IsReadable (64 - p) m p path (node n left right)
            (sync_xor n.message.key peer_message)
            (omega (arith, reach-le m p n left right tree reach)) tree reach)))

  after_scan-IsDone :
      (m : ℕ) (path : List Bool) (n : Node) (left right : Tree) (below : Outcome) (s : Scan)
      → Ends peer_message m n left right s
      → (n.message.prefix_len < 63
          → Safe peer_message m n.message.prefix_len (node n left right)
          → IsDone below)
      → IsDone (after_scan message peer_message peer_node path n left right below s)
  unfolding after_scan Ends IsDone
  after_scan-IsDone m path n left right below unreadable e next = e
  after_scan-IsDone m path n left right below (differs_at p) e next = tt
  after_scan-IsDone m path n left right below (scanned p) (hp, reach, how, safe) next =
      let (tree, h) = Safe-IsTree peer_message m p (node n left right) safe in
      elim (Bool-cases (leb message.prefix_len p)) [
        | inl over ↦
            if_yes IsDone (leb message.prefix_len p) _ _ over
              (ended-IsDone m p path n left right tree reach)
        | inr more ↦
            let at : p ≡ n.message.prefix_len = elim how [
              | inl over ↦ absurd (ground arith)
              | inr at ↦ at
            ] in
            if_no IsDone (leb message.prefix_len p) _ _ more (
              if_yes IsDone (p == n.message.prefix_len) _ _ ((==_iff p n.message.prefix_len).1 at) (
                before-IsDone (siblings message peer_message peer_node path n) below (
                  next (omega arith)
                    (subst (λ j. Safe peer_message m j (node n left right)) at safe))))
      ]

  Safe-lt :
      (m p : ℕ) (t : Tree) → Safe peer_message m p t → p ≤ 63 → p < peer_message.prefix_len → p < 63
  unfolding Safe
  Safe-lt m p t (inl (h, tree, reach)) hp hm = omega arith
  Safe-lt m p t (inr w) hp hm = elim (dec_lt p 63) [
    | yes h ↦ h
    | no h ↦
        absurd (
          Walk-stops peer_message.key m t
            (subst (λ j. Walk peer_message.key m j t) (omega arith) w))
  ]

  pub recv_from-IsDone :
      (m p : ℕ) (parent path : List Bool) (t : Tree)
      → p ≤ 63
      → Safe peer_message m p t
      → IsDone (recv_from message peer_message peer_node p parent path t)
  unfolding recv_from IsDone prefix_of
  recv_from-IsDone m p parent path empty hp safe = tt
  recv_from-IsDone m p parent path (node n left right) hp safe =
      let c = child_index n.message.prefix_len peer_message.key in
      let (tree, reach) = Safe-IsTree peer_message m p (node n left right) safe in
      let below : Bool → Outcome = λ b. elim b [
        | false ↦
            recv_from message peer_message peer_node (n.message.prefix_len + 1) path
              (path ++ (false ∷ [])) left
        | true ↦
            recv_from message peer_message peer_node (n.message.prefix_len + 1) path
              (path ++ (true ∷ [])) right
      ] in
      if_both IsDone (cmp_message message n.message) _ _ tt (
        if_both IsDone (cmp_message peer_message n.message) _ _ tt
          (elim (Bool-cases (leb peer_message.prefix_len p)) [
            | inl over ↦
                if_yes IsDone (leb peer_message.prefix_len p) _ _ over
                  (ended-IsDone m p path n left right tree reach)
            | inr more ↦
                let hp' : p < 63 = Safe-lt m p (node n left right) safe hp (ground arith) in
                if_no IsDone (leb peer_message.prefix_len p) _ _ more (
                  if_yes IsDone (readable p) _ _ (readable_below p hp') (
                    after_scan-IsDone m path n left right (below c)
                      (scan_from (peer_message.prefix_len - p) p n peer_message)
                      (scan_from-Ends (peer_message.prefix_len - p) m p n left right peer_message
                        (ground arith) hp' safe)
                      (λ short s. elim (Bool-cases c) [
                        | inl e ↦
                            subst (λ b. IsDone (below b)) (sym e)
                              (recv_from-IsDone (n.message.prefix_len + 1)
                                (n.message.prefix_len + 1) path (path ++ (true ∷ [])) right
                                (omega arith)
                                (Safe-descend peer_message m n.message.prefix_len n left right true
                                  s refl short e))
                        | inr e ↦
                            subst (λ b. IsDone (below b)) (sym e)
                              (recv_from-IsDone (n.message.prefix_len + 1)
                                (n.message.prefix_len + 1) path (path ++ (false ∷ [])) left
                                (omega arith)
                                (Safe-descend peer_message m n.message.prefix_len n left right false
                                  s refl short e))
                      ])))
          ]))
