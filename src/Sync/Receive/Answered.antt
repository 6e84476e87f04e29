-- ===== src/Sync/Receive/Answered.antt =====
-- src/sync/sync.c: `recv_key` of a new key ends without a failed assertion.
use lbard.Prelude.{
  ℕ, zero, suc, ◌+◌, ◌≤◌, List, [], ◌∷◌, ◌≡◌, ◌⊎◌, inl, inr, refl, sym, ap, ◌∙◌, Bool, true, ltb,
  ◌==◌, ◌&&◌, ◌||◌, ==_iff, arith, All, Bool-cases,
}
use mathlib.Core.Path.{subst}
use lbard.Sync.Tree.{
  child_index, Tree, Node, KeyMessage, Step, descend, along, differs, empty, node, next_tree,
}
use lbard.Sync.Tree.Xor.{IsKey}
use lbard.Sync.Tree.Leaves.{leaves}
use lbard.Sync.Tree.Invariant.{IsRoot}
use lbard.Sync.Tree.Add.Descent.{Apart}
use lbard.Sync.Tree.Remove.{walk_step}
use lbard.Sync.Tree.Search.{cmp_message}
use lbard.Sync.Tree.Search.Laws.{same_bytes-eq}
use lbard.Sync.Tree.Search.Whole.{cmp_full}
use lbard.Sync.Receive.{
  Action, learn, done, Reached, overrun, nowhere, reached, readable, turned, reach_round,
  reach_from, remove_differences,
}
use lbard.Sync.Receive.Record.{recv_known, recv_into, recv_key_calls}
use lbard.Sync.Receive.Calls.{answered, calls, called, finished, recv_key}
use lbard.Sync.Receive.Clean.{IsAdding, IsClean, recv_from-IsClean}
use lbard.Sync.Receive.Called.{IsPart, IsRoot-IsPart, child-IsPart, Holds, Holds-some, calls-Holds}
use lbard.Sync.Receive.Done.{IsComparable, recv_key_calls-done}
use lbard.Sync.Receive.Searches.{if_both, if_yes, if_no}

-- `remove_differences` finds no node of the peer.
unfoldable IsUnmet : Reached → Type 0
IsUnmet overrun = Unit
IsUnmet nowhere = Unit
IsUnmet (reached path t) = ⊥

round-IsUnmet : (s : Step) (rest : Reached) → IsUnmet rest → IsUnmet (reach_round s rest)
unfolding reach_round IsUnmet
round-IsUnmet (descend index) rest h = h
round-IsUnmet along rest h = h
round-IsUnmet (differs index) rest h = tt

readable-le : (p : ℕ) → readable p ≡ true → p + 1 ≤ 63
unfolding readable
readable-le p h = ground arith

and_left : (a b : Bool) → (a && b) ≡ true → a ≡ true
and_left a b h = ground arith

and_right : (a b : Bool) → (a && b) ≡ true → b ≡ true
and_right a b h = ground arith

learn-IsClean : (message : KeyMessage) → IsClean message (done (learn message ∷ []))
unfolding IsClean IsAdding
learn-IsClean message = (refl, tt)

module _ (message : KeyMessage) (whole : message.prefix_len ≡ 64)
    (begin : message.min_prefix_len ≤ 64) (k : IsKey message.key) where
  -- A key that is not the record's.
  abbrev Other : List ℕ → Type 0
  Other key = IsKey key × Apart message.key key

  not_apart : (key : List ℕ) → message.key ≡ key → Apart message.key key → ⊥
  unfolding Apart
  not_apart key e (i, h, ne) = ne (ap (λ x. child_index i x) e)

  no_match :
      (n : Node)
      → n.message.prefix_len ≡ 64
      → n.message.min_prefix_len ≤ 64
      → Other n.message.key
      → cmp_message message n.message ≡ true
      → ⊥
  no_match n full le (v, apart) e =
      not_apart n.message.key
        (same_bytes-eq 8 message.key n.message.key k.size v.size
          (sym (cmp_full message n.message whole full begin le) ∙ e))
        apart

  next-IsPart :
      (s : Step) (n : Node) (left right : Tree)
      → IsPart Other (node n left right)
      → IsPart Other (next_tree s n left right)
  unfolding next_tree IsPart
  next-IsPart (descend index) n left right (h, l, r) = child-IsPart Other index left right l r
  next-IsPart along n left right h = h
  next-IsPart (differs index) n left right h = tt

  reach_from-IsUnmet :
      (rounds p : ℕ) (path : List Bool) (t : Tree)
      → p + rounds ≡ 64
      → p ≤ 63
      → IsPart Other t
      → IsUnmet (reach_from rounds p path t message)
  unfolding reach_from IsUnmet IsPart
  reach_from-IsUnmet rounds p path empty e h part = tt
  reach_from-IsUnmet zero p path (node n left right) e h part = absurd (omega arith)
  reach_from-IsUnmet (suc rounds) p path (node n left right) e h part =
      let s = walk_step p message.key n.message in
      let met = n.message.prefix_len == 64 && cmp_message message n.message in
      elim (Bool-cases met) [
        | inl f ↦
            let full = (==_iff n.message.prefix_len 64).0 (and_left _ _ f) in
            absurd (no_match n full (part.0 full).0 (part.0 full).1 (and_right _ _ f))
        | inr f ↦ if_no IsUnmet met _ _ f (
            if_both IsUnmet (n.message.prefix_len == 64 && message.prefix_len == 64) _ _ tt
              (elim (Bool-cases (readable p)) [
                | inl r ↦ if_yes IsUnmet (readable p) _ _ r (
                    round-IsUnmet s _ (
                      reach_from-IsUnmet rounds (p + 1) (turned s path) (next_tree s n left right)
                        (omega arith) (readable-le p r) (next-IsPart s n left right part)))
                | inr r ↦ if_no IsUnmet (readable p) _ _ r tt
              ]))
      ]

  remove_differences-IsUnmet :
      (root : Tree) → IsPart Other root → IsUnmet (remove_differences root message)
  unfolding remove_differences
  remove_differences-IsUnmet root part =
      if_both IsUnmet message.stored _ _
        (reach_from-IsUnmet message.prefix_len 0 [] root (omega arith) (omega arith) part)
        (unfold IsUnmet in tt)

  module _ (stored : message.stored ≡ true) where
    recv_known-IsClean :
        (root : Tree) (r : Reached) → IsUnmet r → IsClean message (recv_known root message r)
    unfolding recv_known IsUnmet
    recv_known-IsClean root overrun h = unfold IsClean in tt
    recv_known-IsClean root nowhere h =
        recv_from-IsClean message whole stored 0 [] [] root (omega arith)
    recv_known-IsClean root (reached path t) h = absurd h

    recv_into-IsClean :
        (root peer_root : Tree)
        → IsPart Other peer_root
        → IsClean message (recv_into root peer_root message)
    unfolding recv_into
    recv_into-IsClean empty peer_root part = learn-IsClean message
    recv_into-IsClean (node n left right) peer_root part =
        if_no (IsClean message) (message.prefix_len == 65) _ _ (ground arith) (
          recv_known-IsClean (node n left right) (remove_differences peer_root message)
            (remove_differences-IsUnmet peer_root part))

    recv_key_calls-IsClean :
        (root peer_root : Tree)
        → IsPart Other peer_root
        → IsClean message (recv_key_calls root peer_root message)
    unfolding recv_key_calls
    recv_key_calls-IsClean root peer_root part =
        if_no (IsClean message)
          (ltb message.prefix_len message.min_prefix_len || ltb 65 message.prefix_len) _ _
          (ground arith) (recv_into-IsClean root peer_root part)

both_hold :
    (P Q : List ℕ → Type 0) (xs : List (List ℕ)) → All P xs → All Q xs → All (λ x. P x × Q x) xs
both_hold P Q [] h k = tt
both_hold P Q (x ∷ xs) h k = ((h.0, k.0), both_hold P Q xs h.1 k.1)

all_valid :
    (P Q : List ℕ → Type 0) (xs : List (List ℕ)) → ((x : List ℕ) → P x → Q x) → All P xs → All Q xs
all_valid P Q [] f h = tt
all_valid P Q (x ∷ xs) f h = (f x h.0, all_valid P Q xs f h.1)

-- `recv_key` of the record of a whole key that the peer has, and that neither the node's tree nor
-- the peer's has, ends with 0 and without a failed assertion, all the calls that it makes for the
-- peer's tree included; that tree keeps the invariant, and its keys are of those that `U` tells.
-- Before, both trees keep the invariant, `U` tells the keys of both and the record's, of which any
-- two are equal or differ in one of the first 63 bits, and the record's key differs from each key
-- of the two trees in one of these bits; its `min_prefix_len` is 64 at most.
pub recv_key-answered :
    (U : List ℕ → Type 0) (root peer_root : Tree) (message : KeyMessage)
    → ((key : List ℕ) → U key → IsKey key)
    → ((key other : List ℕ) → U key → U other → (key ≡ other) ⊎ Apart key other)
    → IsRoot root
    → IsRoot peer_root
    → All U (leaves root)
    → All U (leaves peer_root)
    → U message.key
    → All (Apart message.key) (leaves root)
    → All (Apart message.key) (leaves peer_root)
    → message.prefix_len ≡ 64
    → message.min_prefix_len ≤ 64
    → message.stored ≡ true
    → (actions : List Action) × (t : Tree) × (recv_key root peer_root message ≡ answered actions t)
      × IsRoot t
      × All U (leaves t)
unfolding recv_key finished called IsComparable
recv_key-answered U root peer_root message valid distinct h hp all all_peer u new new_peer whole
      begin stored =
    let k : IsKey message.key = valid message.key u in
    let part =
      IsRoot-IsPart (λ x. IsKey x × Apart message.key x) peer_root hp
        (both_hold IsKey (Apart message.key) (leaves peer_root)
          (all_valid U IsKey (leaves peer_root) valid all_peer) new_peer) in
    let (actions, e) =
      recv_key_calls-done root peer_root message h hp (omega arith) (inr (whole, new)) in
    let adding : All (IsAdding message) actions =
      unfold IsClean in
      subst (IsClean message) e
        (recv_key_calls-IsClean message whole begin k stored root peer_root part) in
    let (t, f, tree, keys) = Holds-some U valid distinct (calls root peer_root actions peer_root) (
      calls-Holds U valid distinct message whole begin u root peer_root actions peer_root
        (IsRoot-IsPart U root h all) adding (unfold Holds in (hp, all_peer))) in
    (actions, t, ap (finished root peer_root) e ∙ ap (called actions) f, tree, keys)
