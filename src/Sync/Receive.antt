-- ===== src/Sync/Receive.antt =====
-- src/sync/sync.c: what `recv_key` makes of a record of a sync message. The node's own tree is not
-- changed but for the marks of its nodes, so its tests and loops do not depend on the calls that it
-- makes: Receive/Record finds the calls, in their order, and Receive/Calls makes them.
pub mod Record
pub mod Calls
pub mod Clean
pub mod Called
pub mod Answered
pub mod Loops
pub mod Searches
pub mod Nodes
pub mod Done
pub mod Aborts
mod Tests
use lbard.Prelude.{
  ℕ, zero, suc, ◌+◌, ◌-◌, ◌/◌, List, [], ◌∷◌, ◌++◌, Option, none, some, Bool, true, false, not, ltb,
  leb, ◌==◌, ◌&&◌, ◌||◌, if◌then◌else◌, get_or, drop,
}
use lbard.Sync.Tree.{
  Tree, Node, KeyMessage, empty, node, child_index, child, sync_xor, xor_children, key_len_bits,
  Step, descend, along, differs, next_tree,
}
use lbard.Sync.Tree.Remove.{walk_step}
use lbard.Sync.Tree.Search.{cmp_message}

-- The calls, with nodes given by the turns that lead to them. A `missing_leaves` has the index
-- of the child to leave out, or none, and `allow_remove`.
pub data Action : Type 0 where
  learn : KeyMessage → Action
  missing_leaves : List Bool → Option Bool → Bool → Action
  unqueue : List Bool → Action
  received_all : Option (List Bool) → Action
  acknowledged : List Bool → Action
  uninteresting : Action
  queue : List Bool → Bool → Action

-- -1, a failed assertion, or 0 and the calls.
pub data Outcome : Type 0 where
  refused : Outcome
  aborted : Outcome
  done : List Action → Outcome

-- Where `remove_differences` ends: in a failed assertion, with NULL, or at a node of the peer.
pub data Reached : Type 0 where
  overrun : Reached
  nowhere : Reached
  reached : List Bool → Tree → Reached

-- `sync_get_bits` for the bit at an offset fails its assertion from bit 63 on.
unfoldable pub readable : ℕ → Bool
readable offset = ltb (offset + 1) key_len_bits

unfoldable pub turned : Step → List Bool → List Bool
turned (descend index) path = path ++ (index ∷ [])
turned along path = path
turned (differs index) path = path

unfoldable pub reach_round : Step → Reached → Reached
reach_round (differs index) rest = nowhere
reach_round (descend index) rest = rest
reach_round along rest = rest

-- The loop of `remove_differences`, with `rounds` bits of the message's prefix left.
unfoldable pub reach_from : ℕ → ℕ → List Bool → Tree → KeyMessage → Reached
unfolding readable turned reach_round walk_step next_tree cmp_message
reach_from rounds p path empty message = nowhere
reach_from zero p path (node n left right) message = reached path (node n left right)
reach_from (suc rounds) p path (node n left right) message =
    let s = walk_step p message.key n.message in
    let rest = reach_from rounds (p + 1) (turned s path) (next_tree s n left right) message in
    if n.message.prefix_len == key_len_bits && cmp_message message n.message
    then reached path (node n left right)
    else if n.message.prefix_len == key_len_bits && message.prefix_len == key_len_bits
    then nowhere
    else if readable p
    then reach_round s rest
    else overrun

-- What `remove_differences` takes from the message at the node that it reaches.
unfoldable pub less_known : Tree → KeyMessage → KeyMessage
unfolding sync_xor xor_children
less_known empty message = message
less_known (node n left right) message =
    if ltb message.prefix_len key_len_bits
    then if n.message.prefix_len == message.prefix_len || n.message.prefix_len == key_len_bits
      then sync_xor n.message.key message
      else xor_children (node n left right) message
    else message

-- `remove_differences` without its last step; a peer without a tree, or a message that asks for
-- a key, is left alone.
unfoldable pub remove_differences : Tree → KeyMessage → Reached
unfolding reach_from
remove_differences root message =
    let end = reach_from message.prefix_len 0 [] root message in
    if message.stored then end else nowhere

-- The inner loop of `recv_key` along the prefix of one node: the prefix differs at a bit, or the
-- loop ends there, or reads a bit that `sync_get_bits` refuses.
pub data Scan : Type 0 where
  unreadable : Scan
  differs_at : ℕ → Scan
  scanned : ℕ → Scan

unfoldable pub scan_from : ℕ → ℕ → Node → KeyMessage → Scan
unfolding readable child_index
scan_from zero p n message = scanned p
scan_from (suc rounds) p n message =
    let rest = scan_from rounds (p + 1) n message in
    if ltb p n.message.prefix_len && ltb p message.prefix_len
    then if child_index p message.key
      then if child_index p n.message.key
        then if readable (p + 1) then rest else unreadable
        else differs_at p
      else if child_index p n.message.key
      then differs_at p
      else if readable (p + 1)
      then rest
      else unreadable
    else scanned p

-- The search for a node that explains the difference: found, not found, or a failed assertion.
pub data Explained : Type 0 where
  unreadable_test : Explained
  unexplained : Explained
  explained : List Bool → Explained

unfoldable pub explain_round : Step → Explained → Explained
explain_round (differs index) rest = unexplained
explain_round (descend index) rest = rest
explain_round along rest = rest

unfoldable pub explain_from : ℕ → ℕ → List Bool → Tree → KeyMessage → Explained
unfolding explain_round readable turned walk_step next_tree cmp_message
explain_from rounds p path empty message = unexplained
explain_from zero p path (node n left right) message =
    if cmp_message message n.message
    then explained path
    else if n.message.prefix_len == key_len_bits
    then unexplained
    else unreadable_test
explain_from (suc rounds) p path (node n left right) message =
    let s = walk_step p message.key n.message in
    let rest = explain_from rounds (p + 1) (turned s path) (next_tree s n left right) message in
    if cmp_message message n.message
    then explained path
    else if n.message.prefix_len == key_len_bits
    then unexplained
    else if readable p
    then explain_round s rest
    else unreadable_test

unfoldable pub queue_child : List Bool → Bool → Tree → List Action
queue_child path index empty = []
queue_child path index (node n left right) = queue (path ++ (index ∷ [])) false ∷ []

unfoldable pub explain_actions : List Bool → Tree → Tree → Explained → Outcome
unfolding queue_child
explain_actions path left right unreadable_test = aborted
explain_actions path left right (explained at) = done (missing_leaves at none true ∷ [])
explain_actions path left right unexplained =
    done (queue_child path false left ++ queue_child path true right)
