-- ===== src/Sync/Receive/Clean.antt =====
-- src/sync/sync.c: which calls `recv_key` makes for a record of a whole key that the peer has.
use lbard.Prelude.{
  ℕ, ◌+◌, ◌≤◌, List, [], ◌∷◌, ◌++◌, ◌≡◌, inl, inr, refl, sym, Bool, true, false, ltb, leb, ◌==◌,
  ◌&&◌, ==_iff, if◌then◌else◌, arith, none, some, All, zero, suc, Bool-cases,
}
use mathlib.Core.Path.{subst}
use lbard.Sync.Tree.{Tree, Node, KeyMessage, empty, node, child_index}
use lbard.Sync.Tree.Search.{cmp_message}
use lbard.Sync.Receive.{
  Action, learn, missing_leaves, unqueue, received_all, acknowledged, uninteresting, queue, Outcome,
  refused, aborted, done, Scan, unreadable, differs_at, scanned, scan_from, readable,
}
use lbard.Sync.Receive.Record.{before, matched, strangers, siblings, after_scan, recv_from}
use lbard.Sync.Receive.Searches.{if_both, if_yes, if_no}

-- A call that adds the key of the record, or keys of the node, to the peer's tree, or does
-- nothing to it.
unfoldable pub IsAdding : KeyMessage → Action → Type 0
IsAdding message (learn m) = m ≡ message
IsAdding message (missing_leaves path except allow_remove) = allow_remove ≡ false
IsAdding message (unqueue path) = Unit
IsAdding message (received_all none) = Unit
IsAdding message (received_all (some path)) = ⊥
IsAdding message (acknowledged path) = ⊥
IsAdding message uninteresting = Unit
IsAdding message (queue path head) = Unit

unfoldable pub IsClean : KeyMessage → Outcome → Type 0
IsClean message refused = Unit
IsClean message aborted = Unit
IsClean message (done actions) = All (IsAdding message) actions

All-both : (P : Action → Type 0) (xs ys : List Action) → All P xs → All P ys → All P (xs ++ ys)
All-both P [] ys h k = k
All-both P (x ∷ xs) ys h k = (h.0, All-both P xs ys h.1 k)

-- The inner loop stops below bit 63.
unfoldable IsLow : Scan → Type 0
IsLow unreadable = Unit
IsLow (differs_at p) = Unit
IsLow (scanned p) = p ≤ 62

readable-le : (p : ℕ) → readable (p + 1) ≡ true → p + 1 ≤ 62
unfolding readable
readable-le p h = ground arith

next-IsLow :
    (p : ℕ) (rest : Scan)
    → (p + 1 ≤ 62 → IsLow rest)
    → IsLow (if readable (p + 1) then rest else unreadable)
next-IsLow p rest h = elim (Bool-cases (readable (p + 1))) [
  | inl e ↦ if_yes IsLow (readable (p + 1)) _ _ e (h (readable-le p e))
  | inr e ↦ if_no IsLow (readable (p + 1)) _ _ e (unfold IsLow in tt)
]

scan_from-IsLow :
    (rounds p : ℕ) (n : Node) (message : KeyMessage) → p ≤ 62 → IsLow (scan_from rounds p n message)
unfolding scan_from IsLow
scan_from-IsLow zero p n message h = h
scan_from-IsLow (suc rounds) p n message h =
    let rest = scan_from rounds (p + 1) n message in
    let next : IsLow (if readable (p + 1) then rest else unreadable) =
      next-IsLow p rest (λ low. scan_from-IsLow rounds (p + 1) n message low) in
    if_both IsLow (ltb p n.message.prefix_len && ltb p message.prefix_len) _ _
      (if_both IsLow (child_index p message.key) _ _
        (if_both IsLow (child_index p n.message.key) _ _ next tt)
        (if_both IsLow (child_index p n.message.key) _ _ tt next))
      h

module _ (message : KeyMessage) (whole : message.prefix_len ≡ 64)
    (stored : message.stored ≡ true) where
  before-IsClean :
      (actions : List Action) (o : Outcome)
      → All (IsAdding message) actions
      → IsClean message o
      → IsClean message (before actions o)
  unfolding before IsClean
  before-IsClean actions refused h k = k
  before-IsClean actions aborted h k = k
  before-IsClean actions (done more) h k = All-both (IsAdding message) actions more h k

  abbrev AllAdding : List Action → Type 0
  AllAdding = All (IsAdding message)

  matched-IsClean : (path : List Bool) → AllAdding (matched message message none path)
  unfolding matched IsAdding
  matched-IsClean path = (
    tt,
    (
      if_yes (IsAdding message) message.stored (received_all none) (acknowledged path) stored tt,
      tt,
    ),
  )

  strangers-IsClean : (p : ℕ) (path : List Bool) → AllAdding (strangers message message none p path)
  unfolding strangers IsAdding
  strangers-IsClean p path =
      All-both (IsAdding message) _ _
        (if_both AllAdding (leb message.min_prefix_len p && message.stored) _ _
          (refl, if_both AllAdding (message.prefix_len == 64) _ _ tt (tt, tt)) tt)
        (if_both AllAdding (message.prefix_len == 64) _ _ (refl, tt) tt)

  siblings-IsClean :
      (path : List Bool) (n : Node) → AllAdding (siblings message message none path n)
  unfolding siblings IsAdding
  siblings-IsClean path n =
      if_both AllAdding (leb message.min_prefix_len n.message.prefix_len && message.stored) _ _
        (refl, tt) tt

  not_ended : (p : ℕ) → p ≤ 63 → leb message.prefix_len p ≡ false
  not_ended p h = ground arith

  after_scan-IsClean :
      (path : List Bool) (n : Node) (left right : Tree) (o : Outcome) (s : Scan)
      → IsLow s
      → (n.message.prefix_len ≤ 62 → IsClean message o)
      → IsClean message (after_scan message message none path n left right o s)
  unfolding after_scan IsLow IsClean
  after_scan-IsClean path n left right o unreadable low next = tt
  after_scan-IsClean path n left right o (differs_at p) low next = strangers-IsClean p path
  after_scan-IsClean path n left right o (scanned p) low next =
      if_no (IsClean message) (leb message.prefix_len p) _ _ (not_ended p (omega arith))
        (elim (Bool-cases (p == n.message.prefix_len)) [
          | inl e ↦ if_yes (IsClean message) (p == n.message.prefix_len) _ _ e (
              before-IsClean (siblings message message none path n) o (siblings-IsClean path n)
                (next (omega (arith, (==_iff p n.message.prefix_len).0 e))))
          | inr e ↦ if_no (IsClean message) (p == n.message.prefix_len) _ _ e tt
        ])

  readable-low : (p : ℕ) → readable p ≡ true → p ≤ 62
  unfolding readable
  readable-low p h = ground arith

  pub recv_from-IsClean :
      (p : ℕ) (parent path : List Bool) (t : Tree)
      → p ≤ 63
      → IsClean message (recv_from message message none p parent path t)
  unfolding recv_from IsClean IsAdding
  recv_from-IsClean p parent path empty h = (
    if_both (IsAdding message) (message.prefix_len == 64) (learn message) (queue parent false) refl
        tt,
    tt,
  )
  recv_from-IsClean p parent path (node n left right) h =
      let c = child_index n.message.prefix_len message.key in
      let o : Bool → Outcome = λ b. elim b [
        | false ↦
            recv_from message message none (n.message.prefix_len + 1) path (path ++ (false ∷ []))
              left
        | true ↦
            recv_from message message none (n.message.prefix_len + 1) path (path ++ (true ∷ []))
              right
      ] in
      if_both (IsClean message) (cmp_message message n.message) _ _ (matched-IsClean path) (
        if_both (IsClean message) (cmp_message message n.message) _ _ (tt, tt)
          (if_no (IsClean message) (leb message.prefix_len p) _ _ (not_ended p h)
            (elim (Bool-cases (readable p)) [
              | inl e ↦ if_yes (IsClean message) (readable p) _ _ e (
                  after_scan-IsClean path n left right (o c) _
                    (scan_from-IsLow _ p n message (readable-low p e))
                    (λ low. elim (Bool-cases c) [
                      | inl f ↦
                          subst (λ b. IsClean message (o b)) (sym f)
                            (recv_from-IsClean (n.message.prefix_len + 1) path (path ++ (true ∷ []))
                              right (omega arith))
                      | inr f ↦
                          subst (λ b. IsClean message (o b)) (sym f)
                            (recv_from-IsClean (n.message.prefix_len + 1) path
                              (path ++ (false ∷ [])) left (omega arith))
                    ]))
              | inr e ↦ if_no (IsClean message) (readable p) _ _ e tt
            ])))
