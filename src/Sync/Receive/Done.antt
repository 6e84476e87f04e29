-- ===== src/Sync/Receive/Done.antt =====
-- src/sync/sync.c: the tests and loops of `recv_key` fail no assertion.
use lbard.Prelude.{
  ℕ, ◌≤◌, List, [], ◌≡◌, ◌⊎◌, inl, inr, refl, sym, ap, ◌∙◌, false, ltb, ◌==◌, ◌||◌, none, some,
  arith, All,
}
use mathlib.Core.Path.{subst}
use lbard.Sync.Tree.{Tree, Node, KeyMessage, empty, node, sync_xor, xor_children}
use lbard.Sync.Tree.Leaves.{leaves}
use lbard.Sync.Tree.Invariant.{IsTree, IsRoot}
use lbard.Sync.Tree.Add.Descent.{Apart, prefix_of}
use lbard.Sync.Receive.{
  Action, Outcome, refused, aborted, done, Reached, overrun, nowhere, reached, less_known,
  remove_differences,
}
use lbard.Sync.Receive.Record.{recv_known, recv_into, recv_key_calls}
use lbard.Sync.Receive.Loops.{Safe}
use lbard.Sync.Receive.Searches.{if_both, if_no, IsWithin, remove_differences-IsWithin}
use lbard.Sync.Receive.Nodes.{IsDone, recv_from-IsDone}

-- What `remove_differences` takes from a message leaves its prefix length, and a whole key, alone.
xor_children-prefix_len :
    (t : Tree) (dest : KeyMessage) → (xor_children t dest).prefix_len ≡ dest.prefix_len
unfolding xor_children sync_xor
xor_children-prefix_len empty dest = refl
xor_children-prefix_len (node n left right) dest =
    if_both (λ m. m.prefix_len ≡ dest.prefix_len) (n.message.prefix_len == 64)
      (sync_xor n.message.key dest) (xor_children right (xor_children left dest)) refl
      (xor_children-prefix_len right (xor_children left dest) ∙ xor_children-prefix_len left dest)

less_known-prefix_len :
    (t : Tree) (message : KeyMessage) → (less_known t message).prefix_len ≡ message.prefix_len
unfolding less_known sync_xor
less_known-prefix_len empty message = refl
less_known-prefix_len (node n left right) message =
    let P : KeyMessage → Type 0 = λ m. m.prefix_len ≡ message.prefix_len in
    if_both P (ltb message.prefix_len 64) _ message
      (if_both P (n.message.prefix_len == message.prefix_len || n.message.prefix_len == 64)
        (sync_xor n.message.key message) (xor_children (node n left right) message) refl
        (xor_children-prefix_len (node n left right) message))
      refl

less_known-whole :
    (t : Tree) (message : KeyMessage) → message.prefix_len ≡ 64 → less_known t message ≡ message
unfolding less_known
less_known-whole empty message h = refl
less_known-whole (node n left right) message h =
    if_no (λ m. m ≡ message) (ltb message.prefix_len 64) _ message (ground arith) refl

-- A record that the node can compare with its tree: a prefix of at most 62 bits, or a whole key
-- that differs from each of the node's in the first 63.
unfoldable pub IsComparable : Tree → KeyMessage → Type 0
IsComparable root message =
    (message.prefix_len ≤ 62) ⊎ ((message.prefix_len ≡ 64) × All (Apart message.key) (leaves root))

Safe-start :
    (n : Node) (left right : Tree) (message m : KeyMessage)
    → IsTree 0 (node n left right)
    → m.prefix_len ≡ message.prefix_len
    → (message.prefix_len ≡ 64 → m ≡ message)
    → IsComparable (node n left right) message
    → Safe m 0 0 (node n left right)
unfolding Safe IsComparable prefix_of
Safe-start n left right message m tree e same (inl h) = inl (omega arith, tree, omega arith)
Safe-start n left right message m tree e same (inr (h, apart)) = inr (record {
  tree = tree;
  start = omega arith;
  reach = omega arith;
  agree = λ i hi. absurd (omega arith);
  apart =
      subst (λ k. All (Apart k) (leaves (node n left right))) (sym (ap (λ x. x.key) (same h)))
        apart;
})

recv_known-IsDone :
    (n : Node) (left right : Tree) (message : KeyMessage) (r : Reached)
    → IsTree 0 (node n left right)
    → IsComparable (node n left right) message
    → IsWithin r
    → IsDone (recv_known (node n left right) message r)
unfolding recv_known IsWithin
recv_known-IsDone n left right message overrun tree c h = absurd h
recv_known-IsDone n left right message nowhere tree c h =
    recv_from-IsDone message message none refl 0 0 [] [] (node n left right) (omega arith)
      (Safe-start n left right message message tree refl (λ e. refl) c)
recv_known-IsDone n left right message (reached path t) tree c h =
    recv_from-IsDone message (less_known t message) (some path) (less_known-prefix_len t message) 0
      0 [] [] (node n left right) (omega arith)
      (Safe-start n left right message (less_known t message) tree (less_known-prefix_len t message)
        (less_known-whole t message) c)

IsDone-actions : (o : Outcome) → IsDone o → (actions : List Action) × (o ≡ done actions)
unfolding IsDone
IsDone-actions refused h = absurd h
IsDone-actions aborted h = absurd h
IsDone-actions (done actions) h = (actions, refl)

at_most :
    (root : Tree) (message : KeyMessage)
    → IsComparable root message
    → (message.prefix_len ≤ 62) ⊎ (message.prefix_len ≡ 64)
unfolding IsComparable
at_most root message (inl h) = inl h
at_most root message (inr h) = inr h.0

refused_no : (m p : ℕ) → m ≤ p → (p ≤ 62) ⊎ (p ≡ 64) → (ltb p m || ltb 65 p) ≡ false
refused_no m p h (inl k) = ground arith
refused_no m p h (inr k) = ground arith

asks_no : (p : ℕ) → (p ≤ 62) ⊎ (p ≡ 64) → (p == 65) ≡ false
asks_no p (inl k) = ground arith
asks_no p (inr k) = ground arith

recv_key_calls-IsDone :
    (root peer_root : Tree) (message : KeyMessage)
    → IsRoot root
    → IsRoot peer_root
    → message.min_prefix_len ≤ message.prefix_len
    → IsComparable root message
    → IsDone (recv_key_calls root peer_root message)
unfolding recv_key_calls recv_into IsRoot IsDone
recv_key_calls-IsDone empty peer_root message h hp le c =
    if_no IsDone (ltb message.prefix_len message.min_prefix_len || ltb 65 message.prefix_len) _ _
      (refused_no message.min_prefix_len message.prefix_len le (at_most empty message c)) tt
recv_key_calls-IsDone (node n left right) peer_root message h hp le c =
    if_no IsDone (ltb message.prefix_len message.min_prefix_len || ltb 65 message.prefix_len) _ _
      (refused_no message.min_prefix_len message.prefix_len le
        (at_most (node n left right) message c))
      (if_no IsDone (message.prefix_len == 65) _ _
        (asks_no message.prefix_len (at_most (node n left right) message c))
        (recv_known-IsDone n left right message (remove_differences peer_root message) h c (
          remove_differences-IsWithin peer_root message hp
            (at_most (node n left right) message c))))

-- The tests and loops of `recv_key` find the calls to make without a failed assertion, where both
-- trees keep the invariant, the record's `min_prefix_len` is not above its `prefix_len`, and that
-- is 62 at most, or the record is a whole key that differs from each of the node's keys in one of
-- the first 63 bits.
pub recv_key_calls-done :
    (root peer_root : Tree) (message : KeyMessage)
    → IsRoot root
    → IsRoot peer_root
    → message.min_prefix_len ≤ message.prefix_len
    → IsComparable root message
    → (actions : List Action) × (recv_key_calls root peer_root message ≡ done actions)
recv_key_calls-done root peer_root message h hp le c =
    IsDone-actions (recv_key_calls root peer_root message)
      (recv_key_calls-IsDone root peer_root message h hp le c)
