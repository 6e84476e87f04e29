-- ===== src/Sync/Tree/Search.antt =====
-- src/sync/sync.c: `cmp_message`, `find_message` and `sync_key_exists`.
pub mod Laws
pub mod Answers
pub mod Exists
pub mod Whole
use lbard.Prelude.{
  ℕ, zero, suc, ◌+◌, ◌-◌, ◌/◌, min, max, List, [], ◌∷◌, Bool, true, false, not, ltb, leb, ◌==◌,
  ◌&&◌, drop, if◌then◌else◌,
}
use lbard.Sync.Tree.{
  Tree, Node, KeyMessage, Step, descend, along, differs, empty, node, next_tree, key_len,
  key_len_bits, prefix_step_bits,
}
use lbard.Sync.Tree.Remove.{walk_step}

-- `first_xor_begin` and `second_xor_begin`
unfoldable pub xor_begin : KeyMessage → ℕ
xor_begin m = if m.prefix_len == key_len_bits then m.min_prefix_len else m.prefix_len

-- A `memcmp` of so many bytes that finds no difference.
unfoldable pub same_bytes : ℕ → List ℕ → List ℕ → Bool
same_bytes zero first second = true
same_bytes (suc len) [] second = true
same_bytes (suc len) (x ∷ first) [] = true
same_bytes (suc len) (x ∷ first) (y ∷ second) = x == y && same_bytes len first second

-- The comparison of `cmp_message` where one key's bits are summed up before the common prefix ends:
-- the whole bytes of the prefix, or else the bytes that are sums in both.
unfoldable pub cmp_ends : ℕ → ℕ → List ℕ → List ℕ → Bool
unfolding same_bytes
cmp_ends common_prefix_len xor_begin_offset first second =
    let xor_begin_byte = (xor_begin_offset + 7) / 8 in
    if leb 8 common_prefix_len && not (same_bytes (common_prefix_len / 8) first second)
    then false
    else if ltb xor_begin_byte key_len
        && not (
            same_bytes (key_len - xor_begin_byte) (drop xor_begin_byte first)
              (drop xor_begin_byte second))
    then false
    else true

-- `cmp_message`: true is the result 0.
unfoldable pub cmp_message : KeyMessage → KeyMessage → Bool
unfolding xor_begin same_bytes cmp_ends
cmp_message first second =
    let common_prefix_len = min first.prefix_len second.prefix_len in
    let xor_begin_offset = max (xor_begin first) (xor_begin second) in
    if ltb common_prefix_len xor_begin_offset
    then cmp_ends common_prefix_len xor_begin_offset first.key second.key
    else same_bytes key_len first.key second.key

-- What `find_message` returns: NULL, or the node by the turns that lead to it from the root. A
-- failed assertion is a result of its own.
pub data Search : Type 0 where
  failed : Search
  missing : Search
  found : List Bool → Search

unfoldable pub below : Bool → Search → Search
below index failed = failed
below index missing = missing
below index (found path) = found (index ∷ path)

unfoldable pub find_round : Step → Search → Search
unfolding below
find_round (descend index) rest = below index rest
find_round along rest = rest
find_round (differs index) rest = missing

-- The loop of `find_message` with `rounds` bits left for `sync_get_bits`.
unfoldable pub find_from : ℕ → ℕ → Tree → KeyMessage → Search
unfolding cmp_message find_round walk_step next_tree
find_from rounds p empty message = missing
find_from zero p (node n left right) message =
    if cmp_message n.message message
    then found []
    else if n.message.prefix_len == key_len_bits
    then missing
    else failed
find_from (suc rounds) p (node n left right) message =
    let s = walk_step p message.key n.message in
    let rest = find_from rounds (p + prefix_step_bits) (next_tree s n left right) message in
    if cmp_message n.message message
    then found []
    else if n.message.prefix_len == key_len_bits
    then missing
    else find_round s rest

-- `find_message`: the loop starts past the prefix of the root.
unfoldable pub find_message : Tree → KeyMessage → Search
unfolding find_from
find_message empty message = missing
find_message (node n left right) message =
    find_from (key_len_bits - 1 - n.message.prefix_len) n.message.prefix_len (node n left right)
      message

-- `MESSAGE_FROM_KEY`
unfoldable pub message_from_key : List ℕ → KeyMessage
message_from_key key = record {
  min_prefix_len = 0;
  stored = false;
  prefix_len = key_len_bits;
  key = key;
}

unfoldable pub is_found : Search → Bool
is_found failed = false
is_found missing = false
is_found (found path) = true

-- `sync_key_exists`
unfoldable pub sync_key_exists : Tree → List ℕ → Bool
unfolding find_message message_from_key is_found
sync_key_exists root key = is_found (find_message root (message_from_key key))
