-- ===== src/Sync/Tree/Remove.antt =====
-- src/sync/sync.c: `remove_key`.
pub mod Members
pub mod Laws
pub mod Loop
use lbard.Prelude.{
  ℕ, zero, suc, ◌+◌, ◌-◌, List, Option, none, some, Bool, true, false, not, ltb, ◌==◌,
  if◌then◌else◌,
}
use lbard.Sync.Tree.{
  Tree, Node, KeyMessage, Step, descend, along, differs, empty, node, child_index, touch, child,
  set_min_prefix_len, rejoin, next_tree, key_len_bits, prefix_step_bits,
}

-- One round above a leaf, the same in `remove_key` and `find_message`.
unfoldable pub walk_step : ℕ → List ℕ → KeyMessage → Step
unfolding child_index
walk_step prefix_len key m =
    if ltb prefix_len m.prefix_len
    then if child_index prefix_len key
      then if child_index prefix_len m.key then along else differs false
      else if child_index prefix_len m.key
      then differs true
      else along
    else descend (child_index prefix_len key)

-- The last child of a node in its place; a node without one fails the assertion.
unfoldable pub replace_parent : Node → Tree → Option Tree
unfolding set_min_prefix_len
replace_parent parent empty = none
replace_parent parent (node n left right) =
    some (set_min_prefix_len parent.message.min_prefix_len (node n left right))

-- A node whose child a key belongs to has become the tree given: a NULL child is a leaf that has
-- been freed.
unfoldable pub remove_child : Node → Bool → Tree → Tree → Tree → Option Tree
unfolding rejoin replace_parent child
remove_child parent index left right empty = replace_parent parent (child (not index) left right)
remove_child parent index left right (node n l r) =
    some (rejoin parent index left right (node n l r))

unfoldable pub remove_round : Step → List ℕ → Node → Tree → Tree → Option Tree → Option Tree
unfolding touch remove_child
remove_round (descend index) key n left right none = none
remove_round (descend index) key n left right (some t) =
    remove_child (touch key n) index left right t
remove_round along key n left right rest = rest
remove_round (differs index) key n left right rest = none

-- The loop of `remove_key` with `rounds` bits left for `sync_get_bits`: it frees the leaf that it
-- reaches. `none` is a failed assertion, or the NULL that the loop would follow.
unfoldable pub remove_from : ℕ → ℕ → Tree → List ℕ → Option Tree
unfolding walk_step remove_round next_tree
remove_from rounds p empty key = none
remove_from zero p (node n left right) key =
    if n.message.prefix_len == key_len_bits then some empty else none
remove_from (suc rounds) p (node n left right) key =
    let s = walk_step p key n.message in
    let rest = remove_from rounds (p + prefix_step_bits) (next_tree s n left right) key in
    if n.message.prefix_len == key_len_bits
    then some empty
    else remove_round s key n left right rest

-- `remove_key`
unfoldable pub remove_key : Tree → List ℕ → Option Tree
unfolding remove_from
remove_key root key = remove_from (key_len_bits - 1) 0 root key
