-- ===== src/Sync/Receive/Record.antt =====
-- src/sync/sync.c: `recv_key` from its sanity check on.
use lbard.Prelude.{
  ℕ, ◌+◌, ◌-◌, ◌/◌, List, [], ◌∷◌, ◌++◌, Option, none, some, Bool, true, false, ltb, leb, ◌==◌,
  ◌&&◌, ◌||◌, if◌then◌else◌, drop,
}
use lbard.Sync.Tree.{Tree, Node, KeyMessage, empty, node, child_index, sync_xor, key_len_bits}
use lbard.Sync.Tree.Search.{cmp_message}
use lbard.Sync.Receive.{
  Action, learn, missing_leaves, unqueue, received_all, acknowledged, uninteresting, queue, Outcome,
  refused, aborted, done, Reached, overrun, nowhere, reached, readable, Scan, unreadable,
  differs_at, scanned, scan_from, explain_from, explain_actions, less_known, remove_differences,
}

-- `is_blank`: no byte from number `from` on is set.
unfoldable pub all_zero : List ℕ → Bool
all_zero [] = true
all_zero (x ∷ bytes) = x == 0 && all_zero bytes

unfoldable pub is_blank : KeyMessage → Bool
unfolding all_zero
is_blank message = all_zero (drop (message.prefix_len / 8 + 1) message.key)

unfoldable pub before : List Action → Outcome → Outcome
before actions refused = refused
before actions aborted = aborted
before actions (done more) = done (actions ++ more)

-- The message as it came, what it still tells after `remove_differences`, and the node of the peer
-- that this found.
module _ (message peer_message : KeyMessage) (peer_node : Option (List Bool)) where
  -- A node that the message sums up exactly.
  unfoldable pub matched : List Bool → List Action
  matched path =
      unqueue path ∷ (if message.stored then received_all peer_node else acknowledged path) ∷ []

  -- All the bits of the message's prefix have been looked at.
  unfoldable pub ended : ℕ → List Bool → Node → Tree → Tree → Outcome
  unfolding is_blank explain_from explain_actions sync_xor
  ended p path n left right =
      if is_blank peer_message
      then done (missing_leaves path none true ∷ [])
      else if ltb peer_message.prefix_len n.message.prefix_len
      then done (queue path true ∷ [])
      else explain_actions path left right (
          explain_from (key_len_bits - p) p path (node n left right)
            (sync_xor n.message.key peer_message))

  -- The prefix of a node differs from the message.
  unfoldable pub strangers : ℕ → List Bool → List Action
  strangers p path =
      (if leb peer_message.min_prefix_len p && peer_message.stored
        then missing_leaves path none false
          ∷ (if peer_message.prefix_len == key_len_bits then [] else queue path false ∷ [])
        else [])
      ++ (if peer_message.prefix_len == key_len_bits then learn peer_message ∷ [] else [])

  unfoldable pub siblings : List Bool → Node → List Action
  unfolding child_index
  siblings path n =
      if leb peer_message.min_prefix_len n.message.prefix_len && peer_message.stored
      then missing_leaves path (some (child_index n.message.prefix_len peer_message.key)) false ∷ []
      else []

  -- The inner loop has ended; `below` is what comes of the child that is looked at next.
  unfoldable pub after_scan : List Bool → Node → Tree → Tree → Outcome → Scan → Outcome
  unfolding ended strangers siblings before
  after_scan path n left right below unreadable = aborted
  after_scan path n left right below (differs_at p) = done (strangers p path)
  after_scan path n left right below (scanned p) =
      if leb message.prefix_len p
      then ended p path n left right
      else if p == n.message.prefix_len
      then before (siblings path n) below
      else aborted

  -- The loop of `recv_key`, at bit `p` of a node; `parent` leads to the node above it. Where the
  -- inner loop is done with the message's prefix the source starts a round anew at the same node
  -- and bit, whose first two tests fail as before.
  unfoldable pub recv_from : ℕ → List Bool → List Bool → Tree → Outcome
  unfolding cmp_message matched ended readable scan_from after_scan child_index
  recv_from p parent path empty = done (
      (if peer_message.prefix_len == key_len_bits then learn peer_message else queue parent false)
      ∷ [])
  recv_from p parent path (node n left right) =
      let below : Outcome = elim (child_index n.message.prefix_len peer_message.key) [
        | false ↦ recv_from (n.message.prefix_len + 1) path (path ++ (false ∷ [])) left
        | true ↦ recv_from (n.message.prefix_len + 1) path (path ++ (true ∷ [])) right
      ] in
      let scan = scan_from (peer_message.prefix_len - p) p n peer_message in
      if cmp_message message n.message
      then done (matched path)
      else if cmp_message peer_message n.message
      then done (uninteresting ∷ [])
      else if leb peer_message.prefix_len p
      then ended p path n left right
      else if readable p
      then after_scan path n left right below scan
      else aborted

unfoldable pub recv_known : Tree → KeyMessage → Reached → Outcome
unfolding recv_from less_known
recv_known root message overrun = aborted
recv_known root message nowhere = recv_from message message none 0 [] [] root
recv_known root message (reached path t) =
    recv_from message (less_known t message) (some path) 0 [] [] root

unfoldable pub recv_into : Tree → Tree → KeyMessage → Outcome
unfolding recv_known remove_differences
recv_into empty peer_root message = done (learn message ∷ [])
recv_into (node n left right) peer_root message =
    if message.prefix_len == key_len_bits + 1
    then done (missing_leaves [] none false ∷ [])
    else recv_known (node n left right) message (remove_differences peer_root message)

-- The tests and loops of `recv_key`, of the node's tree, the peer's tree and a message, up to the
-- first of its assertions that fails, or with the calls to be made.
unfoldable pub recv_key_calls : Tree → Tree → KeyMessage → Outcome
unfolding recv_into
recv_key_calls root peer_root message =
    if ltb message.prefix_len message.min_prefix_len || ltb (key_len_bits + 1) message.prefix_len
    then refused
    else recv_into root peer_root message
