-- ===== src/Sync/Receive/Calls.antt =====
-- src/sync/sync.c: what the calls of `recv_key` do to the peer's tree, and `recv_key` with them.
-- `none` is a failed assertion. The callbacks, the counts and the queue of nodes are left out.
use lbard.Prelude.{
  List, [], ◌∷◌, Option, none, some, Bool, true, false, ◌==◌, ◌&&◌, if◌then◌else◌, ◌>>=◌,
}
use lbard.Sync.Tree.{Tree, Node, KeyMessage, empty, node, child, add_key, key_len_bits}
use lbard.Sync.Tree.Remove.{remove_key}
use lbard.Sync.Tree.Search.{Search, failed, missing, found, find_message}
use lbard.Sync.State.{Missing, aborted, present, added, add_key_if_missing}
use lbard.Sync.Receive.{
  Action, learn, missing_leaves, unqueue, received_all, acknowledged, uninteresting, queue, Outcome,
  refused, done,
}
use lbard.Sync.Receive.Record.{recv_key_calls}

-- The node that turns lead to, with what is below it.
unfoldable pub subtree_at : List Bool → Tree → Tree
subtree_at [] t = t
subtree_at (index ∷ path) empty = empty
subtree_at (index ∷ path) (node n left right) = subtree_at path (child index left right)

-- `message.stored` of a node.
unfoldable pub is_stored : Tree → Bool
is_stored empty = false
is_stored (node n left right) = n.message.stored

-- `peer_is_missing`, where `find_message` has returned.
unfoldable pub peer_lacks : Tree → Node → Bool → Search → Option Tree
unfolding subtree_at is_stored remove_key add_key
peer_lacks peer_root n allow_remove failed = none
peer_lacks peer_root n allow_remove (found path) =
    if is_stored (subtree_at path peer_root) && allow_remove
    then remove_key peer_root n.message.key
    else some peer_root
peer_lacks peer_root n allow_remove missing = add_key peer_root n.message.key n.context true

unfoldable pub peer_is_missing : Tree → Node → Bool → Option Tree
unfolding peer_lacks find_message
peer_is_missing peer_root n allow_remove =
    peer_lacks peer_root n allow_remove (find_message peer_root n.message)

-- Whether `i!=except`.
unfoldable pub is_kept : Option Bool → Bool → Bool
is_kept none index = true
is_kept (some true) index = if index then false else true
is_kept (some false) index = index

-- `peer_missing_leaf_nodes`, of a node with what is below it.
unfoldable pub peer_missing_leaf_nodes : Tree → Tree → Option Bool → Bool → Option Tree
unfolding peer_is_missing is_kept
peer_missing_leaf_nodes peer_root empty except allow_remove = some peer_root
peer_missing_leaf_nodes peer_root (node n left right) except allow_remove =
    let on_left = peer_missing_leaf_nodes peer_root left none allow_remove in
    let after_left = if is_kept except false then on_left else some peer_root in
    if n.message.prefix_len == key_len_bits
    then peer_is_missing peer_root n allow_remove
    else after_left >>= λ t.
        let on_right = peer_missing_leaf_nodes t right none allow_remove in
        if is_kept except true then on_right else some t

-- `peer_has_received_all`, of a node of the peer's tree as it was when the node was found. Nothing
-- is put below that node before: the keys that are added differ from the record within its prefix.
unfoldable pub peer_has_received_all : Tree → Tree → Option Tree
unfolding remove_key
peer_has_received_all peer_root empty = some peer_root
peer_has_received_all peer_root (node n left right) =
    let on_left = peer_has_received_all peer_root left in
    if n.message.prefix_len == key_len_bits
    then if n.message.stored then remove_key peer_root n.message.key else some peer_root
    else on_left >>= λ t. peer_has_received_all t right

-- What `add_key_if_missing` leaves of the peer's tree.
unfoldable pub learnt_tree : Tree → Missing → Option Tree
learnt_tree peer_root aborted = none
learnt_tree peer_root present = some peer_root
learnt_tree peer_root (added t) = some t

-- `peer_add_key`, on the peer's tree.
unfoldable pub peer_learns_key : Tree → KeyMessage → Option Tree
unfolding learnt_tree add_key_if_missing
peer_learns_key peer_root message =
    let learnt = learnt_tree peer_root (add_key_if_missing peer_root message false) in
    if message.prefix_len == key_len_bits && message.stored then learnt else some peer_root

-- The call of `peer_is_missing` for a node that is acknowledged.
unfoldable pub acknowledges : Tree → Tree → Option Tree
unfolding peer_is_missing
acknowledges peer_root empty = some peer_root
acknowledges peer_root (node n left right) = peer_is_missing peer_root n false

-- One call. `start` is the peer's tree as it was.
unfoldable pub call : Tree → Tree → Action → Tree → Option Tree
unfolding peer_learns_key peer_missing_leaf_nodes peer_has_received_all acknowledges subtree_at
call root start (learn message) peer_root = peer_learns_key peer_root message
call root start (missing_leaves path except allow_remove) peer_root =
    peer_missing_leaf_nodes peer_root (subtree_at path root) except allow_remove
call root start (unqueue path) peer_root = some peer_root
call root start (received_all none) peer_root = some peer_root
call root start (received_all (some path)) peer_root =
    peer_has_received_all peer_root (subtree_at path start)
call root start (acknowledged path) peer_root = acknowledges peer_root (subtree_at path root)
call root start uninteresting peer_root = some peer_root
call root start (queue path head) peer_root = some peer_root

unfoldable pub calls : Tree → Tree → List Action → Tree → Option Tree
unfolding call
calls root start [] peer_root = some peer_root
calls root start (action ∷ actions) peer_root =
    call root start action peer_root >>= λ t. calls root start actions t

-- What `recv_key` ends with: -1, a failed assertion, or 0, with the calls and the peer's new tree.
pub data Received : Type 0 where
  invalid : Received
  assertion_failed : Received
  answered : List Action → Tree → Received

unfoldable pub called : List Action → Option Tree → Received
called actions none = assertion_failed
called actions (some peer_root) = answered actions peer_root

unfoldable pub finished : Tree → Tree → Outcome → Received
unfolding calls called
finished root peer_root refused = invalid
finished root peer_root Outcome.aborted = assertion_failed
finished root peer_root (done actions) = called actions (calls root peer_root actions peer_root)

-- `recv_key`, of the node's tree, the peer's tree and a record.
unfoldable pub recv_key : Tree → Tree → KeyMessage → Received
unfolding finished recv_key_calls
recv_key root peer_root message = finished root peer_root (recv_key_calls root peer_root message)
