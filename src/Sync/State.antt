-- ===== src/Sync/State.antt =====
-- src/sync/sync.c: the keys of the node and of its peers, without the loop of nodes to transmit.
pub mod Stored
pub mod Forget
pub mod Known
mod Tests
use lbard.Prelude.{
  ℕ, zero, suc, ◌+◌, ◌-◌, ◌%◌, ◌^◌, List, [], ◌∷◌, Option, none, some, Bool, true, false, not, ◌==◌,
  ◌&&◌, ◌||◌, if◌then◌else◌, ◌>>=◌,
}
use mathlib.Core.Option
use lbard.Sync.Tree.{Tree, Node, KeyMessage, empty, node, child, add_key, key_len_bits}
use lbard.Sync.Tree.Remove.{remove_key}
use lbard.Sync.Tree.Search.{Search, failed, missing, found, find_message, message_from_key}

pub record Peer : Type 0 where
  pub peer_context : ℕ
  pub send_count : ℕ
  pub recv_count : ℕ
  pub root : Tree

pub record State : Type 0 where
  pub key_count : ℕ
  pub progress : ℕ
  pub peers : List Peer
  pub root : Tree

-- `node->message.stored = 1; node->context = context;` on the node that the turns lead to.
unfoldable pub store_at : List Bool → ℕ → Tree → Tree
store_at path context empty = empty
store_at [] context (node n left right) =
    node (record n { message = record n.message { stored = true }; context = context }) left right
store_at (false ∷ path) context (node n left right) = node n (store_at path context left) right
store_at (true ∷ path) context (node n left right) = node n left (store_at path context right)

-- A peer in `sync_add_key`: a key of its own need not be kept any more.
unfoldable pub forget_found : List ℕ → Peer → Search → Option Peer
unfolding remove_key
forget_found key peer failed = none
forget_found key peer missing = some peer
forget_found key peer (found path) =
    Option.map
      (λ root. record peer { root = root; recv_count = (peer.recv_count + (2 ^ 32 - 1)) % 2 ^ 32 })
      (remove_key peer.root key)

unfoldable pub forget : List ℕ → Peer → Option Peer
unfolding forget_found find_message message_from_key
forget key peer = forget_found key peer (find_message peer.root (message_from_key key))

-- The loop of `sync_add_key` over the peers.
unfoldable pub forget_all : List ℕ → List Peer → Option (List Peer)
unfolding forget
forget_all key [] = some []
forget_all key (peer ∷ peers) = do
  peer' ← forget key peer
  peers' ← forget_all key peers
  some (peer' ∷ peers')

unfoldable pub sync_add_found : List ℕ → ℕ → State → Search → Option State
unfolding store_at add_key forget_all
sync_add_found key context state failed = none
sync_add_found key context state (found path) =
    some (record state { root = store_at path context state.root })
sync_add_found key context state missing = do
  root ← add_key state.root key context true
  peers ← forget_all key state.peers
  some (record state {
    key_count = (state.key_count + 1) % 2 ^ 32;
    progress = 0;
    peers = peers;
    root = root;
  })

-- `sync_add_key`; `none` is a failed assertion.
unfoldable pub sync_add_key : State → List ℕ → ℕ → Option State
unfolding sync_add_found find_message message_from_key
sync_add_key state key context =
    sync_add_found key context state (find_message state.root (message_from_key key))

-- The search of `sync_free_peer_state` for the first peer with a context.
unfoldable pub free_peer : ℕ → List Peer → List Peer
free_peer peer_context [] = []
free_peer peer_context (peer ∷ peers) =
    let rest = free_peer peer_context peers in
    if peer.peer_context == peer_context then peers else peer ∷ rest

unfoldable pub sync_free_peer_state : State → ℕ → State
unfolding free_peer
sync_free_peer_state state peer_context = record state {
  peers = free_peer peer_context state.peers;
}

-- `add_key_if_missing`, of a message whose prefix is a whole key: the new tree, or NULL where the
-- key is found.
pub data Missing : Type 0 where
  aborted : Missing
  present : Missing
  added : Tree → Missing

unfoldable pub added_tree : Option Tree → Missing
added_tree none = aborted
added_tree (some t) = added t

unfoldable pub add_if_missing : Tree → KeyMessage → Bool → Search → Missing
unfolding add_key added_tree
add_if_missing root message stored failed = aborted
add_if_missing root message stored (found path) = present
add_if_missing root message stored missing = added_tree (add_key root message.key 0 stored)

unfoldable pub add_key_if_missing : Tree → KeyMessage → Bool → Missing
unfolding add_if_missing find_message
add_key_if_missing root message stored =
    if message.prefix_len == key_len_bits
    then add_if_missing root message stored (find_message root message)
    else aborted

-- What a peer tells of a key: the callback `has`, and the node to queue, are the key's own.
unfoldable pub peer_learns : State → Peer → Missing → Option (State × Peer × Bool)
peer_learns state peer aborted = none
peer_learns state peer present = some (state, peer, false)
peer_learns state peer (added t) = some (
  record state { progress = 0 },
  record peer { root = t; recv_count = (peer.recv_count + 1) % 2 ^ 32 },
  true,
)

-- `peer_add_key`; the flag tells whether `has` is called and the key's node is queued.
unfoldable pub peer_add_key : State → Peer → KeyMessage → Option (State × Peer × Bool)
unfolding add_key_if_missing peer_learns
peer_add_key state peer message =
    let learnt = peer_learns state peer (add_key_if_missing peer.root message false) in
    if not (message.prefix_len == key_len_bits) || not message.stored
    then some (state, peer, false)
    else learnt
