-- ===== src/Sync/Tree.antt =====
-- src/sync/sync.c: the tree of keys, a compressed binary trie whose inner nodes hold the
-- exclusive or of the keys below them.
pub mod Xor
pub mod Keys
pub mod Leaves
pub mod Invariant
pub mod Add
pub mod Remove
pub mod Search
mod Tests
use lbard.Prelude.{
  ℕ, zero, suc, ◌+◌, ◌-◌, ◌*◌, ◌/◌, ◌%◌, ◌^◌, List, [], ◌∷◌, Option, none, some, Bool, true, false,
  not, ltb, leb, ◌==◌, ◌&&◌, if◌then◌else◌, get_or, bit_and, bit_or, bit_xor, replicate,
}
use mathlib.Core.Option

abbrev pub key_len : ℕ
key_len = 8

abbrev pub prefix_step_bits : ℕ
prefix_step_bits = 1

abbrev pub key_len_bits : ℕ
key_len_bits = 64

pub record KeyMessage : Type 0 where
  pub min_prefix_len : ℕ
  pub stored : Bool
  pub prefix_len : ℕ
  pub key : List ℕ

-- `NOT_SENT`, `SENT`, `QUEUED`, `DONT_SEND`.
pub data Sending : Type 0 where
  not_sent : Sending
  sent : Sending
  queued : Sending
  dont_send : Sending

-- `struct node` without its links; the context 0 is NULL.
pub record Node : Type 0 where
  pub message : KeyMessage
  pub send_state : Sending
  pub sent_count : ℕ
  pub context : ℕ

-- A `struct node *`: NULL, or a node with its two children.
pub data Tree : Type 0 where
  empty : Tree
  node : Node → Tree → Tree → Tree

-- `sync_get_bits`. Its second assertion, `offset + len < 64`, is left to the callers.
unfoldable pub sync_get_bits : ℕ → ℕ → List ℕ → ℕ
sync_get_bits offset len key =
    let start_byte = offset / 8 in
    let context =
      get_or key start_byte 0 * 256
      + (if ltb (start_byte + 1) key_len then get_or key (start_byte + 1) 0 else 0) in
    (context / 2 ^ (16 - offset % 8 - len)) % 2 ^ len

-- The index of the child that a key belongs to: false is 0, true is 1.
unfoldable pub child_index : ℕ → List ℕ → Bool
unfolding sync_get_bits
child_index prefix_len key = not (sync_get_bits prefix_len prefix_step_bits key == 0)

-- One byte of `sync_xor`, number `i`: the prefix, the byte of overlap, or the rest.
unfoldable pub xor_byte : ℕ → ℕ → ℕ → ℕ → ℕ
xor_byte prefix_len i src dest =
    if ltb i (prefix_len / 8)
    then src
    else if i == prefix_len / 8 && not (prefix_len % 8 == 0)
    then bit_or (bit_and (0xff00 / 2 ^ (prefix_len % 8) % 256) src) (bit_xor dest src)
    else bit_xor dest src

unfoldable pub xor_bytes : ℕ → ℕ → List ℕ → List ℕ → List ℕ
unfolding xor_byte
xor_bytes prefix_len i [] dest = dest
xor_bytes prefix_len i (s ∷ src) [] = []
xor_bytes prefix_len i (s ∷ src) (d ∷ dest) =
    xor_byte prefix_len i s d ∷ xor_bytes prefix_len (i + 1) src dest

-- `sync_xor`; its assertion, `prefix_len < 64`, is left to the callers.
unfoldable pub sync_xor : List ℕ → KeyMessage → KeyMessage
unfolding xor_bytes
sync_xor src dest = record dest { key = xor_bytes dest.prefix_len 0 src dest.key }

-- `xor_children`
unfoldable pub xor_children : Tree → KeyMessage → KeyMessage
unfolding sync_xor
xor_children empty dest = dest
xor_children (node n left right) dest =
    if n.message.prefix_len == key_len_bits
    then sync_xor n.message.key dest
    else xor_children right (xor_children left dest)

-- What a node that sums up a changed set of keys becomes: sent, or queued and sent before.
unfoldable pub reset : Sending → ℕ → Sending
reset not_sent count = not_sent
reset sent count = not_sent
reset queued count = if ltb 0 count then dont_send else queued
reset dont_send count = dont_send

-- The treatment of an inner node on the way down, the same in `add_key` and `remove_key`.
unfoldable pub touch : List ℕ → Node → Node
unfolding sync_xor reset
touch key n = record n {
  message = sync_xor key n.message;
  send_state = reset n.send_state n.sent_count;
  sent_count = 0;
}

-- The three cases of a round: descend to a child, go on along the node's prefix, or find that
-- the prefix differs; in that case the index is the node's, not the key's.
pub data Step : Type 0 where
  descend : Bool → Step
  along : Step
  differs : Bool → Step

unfoldable pub step : ℕ → List ℕ → KeyMessage → Step
unfolding child_index
step prefix_len key m =
    if m.prefix_len == prefix_len
    then descend (child_index prefix_len key)
    else if child_index prefix_len key
    then if child_index prefix_len m.key then along else differs false
    else if child_index prefix_len m.key
    then differs true
    else along

unfoldable pub child : Bool → Tree → Tree → Tree
child false left right = left
child true left right = right

-- The leaf that ends `add_key`.
unfoldable pub leaf : ℕ → List ℕ → ℕ → Bool → Node
leaf min_prefix_len key context stored = record {
  message = record {
    min_prefix_len = min_prefix_len;
    stored = stored;
    prefix_len = key_len_bits;
    key = key;
  };
  send_state = not_sent;
  sent_count = 0;
  context = context;
}

unfoldable pub set_min_prefix_len : ℕ → Tree → Tree
set_min_prefix_len min_prefix_len empty = empty
set_min_prefix_len min_prefix_len (node n left right) =
    node (record n { message = record n.message { min_prefix_len = min_prefix_len } }) left right

-- A new inner node of one child, before the key is added: `allocate` zeroes it.
unfoldable pub parent_of : ℕ → ℕ → Bool → Tree → Node
unfolding xor_children
parent_of min_prefix_len prefix_len stored old = record {
  message = xor_children old (record {
    min_prefix_len = min_prefix_len;
    stored = stored;
    prefix_len = prefix_len;
    key = replicate key_len 0;
  });
  send_state = not_sent;
  sent_count = 0;
  context = 0;
}

-- A prefix that differs: the new parent, which the next round touches, and the new leaf.
unfoldable pub split : ℕ → ℕ → List ℕ → ℕ → Bool → Bool → Tree → Tree
unfolding touch leaf set_min_prefix_len parent_of
split min_prefix_len prefix_len key context stored node_child_index old =
    let old_child = set_min_prefix_len (prefix_len + prefix_step_bits) old in
    let new_child = node (leaf (prefix_len + prefix_step_bits) key context stored) empty empty in
    let parent = touch key (parent_of min_prefix_len prefix_len stored old_child) in
    if node_child_index then node parent new_child old_child else node parent old_child new_child

-- A child in place of the one that a key belongs to.
unfoldable pub rejoin : Node → Bool → Tree → Tree → Tree → Tree
rejoin n false left right new = node n new right
rejoin n true left right new = node n left new

-- How a round of `add_key` ends, from the tree that the later rounds make; `none` is a failed
-- assertion.
unfoldable pub add_round :
    Step → ℕ → ℕ → List ℕ → ℕ → Bool → Node → Tree → Tree → Option Tree → Option Tree
unfolding touch split rejoin
add_round (descend index) m p key context stored n left right rest =
    Option.map (rejoin (touch key n) index left right) rest
add_round along m p key context stored n left right rest = rest
add_round (differs index) m p key context stored n left right rest =
    if leb (p + prefix_step_bits) n.message.prefix_len
    then some (split m p key context stored index (node n left right))
    else none

-- What the next round looks at.
unfoldable pub next_tree : Step → Node → Tree → Tree → Tree
unfolding child
next_tree (descend index) n left right = child index left right
next_tree along n left right = node n left right
next_tree (differs index) n left right = empty

unfoldable pub next_min : Step → ℕ → ℕ → ℕ
next_min (descend index) m p = p + prefix_step_bits
next_min along m p = m
next_min (differs index) m p = m

-- The loop of `add_key` with `rounds` bits left for `sync_get_bits`, whose assertion fails after
-- them.
unfoldable pub add_from : ℕ → ℕ → ℕ → Tree → List ℕ → ℕ → Bool → Option Tree
unfolding step leaf add_round next_tree next_min
add_from rounds m p empty key context stored = some (node (leaf m key context stored) empty empty)
add_from zero m p (node n left right) key context stored = none
add_from (suc rounds) m p (node n left right) key context stored =
    let s = step p key n.message in
    let rest =
      add_from rounds (next_min s m p) (p + prefix_step_bits) (next_tree s n left right) key context
        stored in
    add_round s m p key context stored n left right rest

-- `add_key`
unfoldable pub add_key : Tree → List ℕ → ℕ → Bool → Option Tree
unfolding add_from
add_key root key context stored = add_from (key_len_bits - 1) 0 0 root key context stored
