-- ===== src/Sync/State/Tests.antt =====
-- Runs of `sync_add_key`, and its theorem at an input.
use lbard.Prelude.{ℕ, ◌∷◌, [], ◌≡◌, refl, true, false, some, List, All, arith, inl}
use mathlib.Core.Option
use lbard.Sync.Tree.{
  Tree, sync_get_bits, child_index, xor_byte, xor_bytes, sync_xor, xor_children, reset, touch, step,
  child, leaf, set_min_prefix_len, parent_of, split, rejoin, add_round, next_tree, next_min,
  add_from, add_key,
}
use lbard.Sync.Tree.Xor.{IsKey}
use lbard.Sync.Tree.Leaves.{leaves}
use lbard.Sync.Tree.Invariant.{IsTree, IsRoot}
use lbard.Sync.Tree.Add.Descent.{Apart}
use lbard.Sync.Tree.Remove.{
  walk_step, replace_parent, remove_child, remove_round, remove_from, remove_key,
}
use lbard.Sync.Tree.Remove.Members.{Among}
use lbard.Sync.Tree.Search.{
  same_bytes, xor_begin, cmp_ends, cmp_message, below, find_round, find_from, find_message,
  message_from_key, is_found, sync_key_exists,
}
use lbard.Sync.State.{
  Peer, State, store_at, forget_found, forget, forget_all, sync_add_found, sync_add_key, free_peer,
  sync_free_peer_state, added_tree, add_if_missing, add_key_if_missing, peer_learns, peer_add_key,
}
use lbard.Sync.State.Known.{HasAdded, sync_add_key-HasAdded}

program : Unit {0}
unfolding sync_get_bits child_index xor_byte xor_bytes sync_xor xor_children reset touch step child
    leaf set_min_prefix_len parent_of split rejoin add_round next_tree next_min add_from add_key
    walk_step replace_parent remove_child remove_round remove_from remove_key same_bytes xor_begin
    cmp_ends cmp_message below find_round find_from find_message message_from_key is_found
    sync_key_exists leaves IsTree IsRoot Among store_at forget_found forget forget_all
    sync_add_found sync_add_key free_peer sync_free_peer_state added_tree add_if_missing
    add_key_if_missing peer_learns peer_add_key
program = tt

abbrev key_a : List ℕ
key_a = 0x12 ∷ 0x34 ∷ 0x56 ∷ 0x78 ∷ 0x9a ∷ 0xbc ∷ 0xde ∷ 0xf0 ∷ []

abbrev tree_a : Tree
tree_a = Option.get_or (add_key Tree.empty key_a 1 true) Tree.empty

-- A node without keys, and a peer that has told of one.
abbrev teller : Peer
teller = record { peer_context = 7; send_count = 0; recv_count = 1; root = tree_a }

abbrev start : State
start = record { key_count = 0; progress = 3; peers = teller ∷ []; root = Tree.empty }

abbrev counts : State → List ℕ
counts s = s.key_count ∷ s.progress ∷ []

abbrev after_counts : List ℕ
after_counts = 1 ∷ 0 ∷ []

counted : Option.map counts (sync_add_key start key_a 5) ≡ some after_counts
unfolding program
counted = refl

abbrev peer_keys : List Peer → List (List ℕ)
peer_keys [] = []
peer_keys (p ∷ ps) = leaves p.root

forgotten : Option.map (λ s. peer_keys s.peers) (sync_add_key start key_a 5) ≡ some []
unfolding program
forgotten = refl

valid_a : IsKey key_a
valid_a = record { size = refl; bytes = omega arith }

IsRoot-a : IsRoot tree_a
unfolding program
IsRoot-a = (
  refl,
  omega arith,
  inl (record { full = refl; no_left = refl; no_right = refl; valid = valid_a }),
)

Among-a : sync_key_exists tree_a key_a ≡ true → Among key_a (leaves tree_a)
unfolding program
Among-a e = inl refl

no-IsRoot : IsRoot Tree.empty
unfolding program
no-IsRoot = tt

none-Apart : sync_key_exists Tree.empty key_a ≡ false → All (Apart key_a) (leaves Tree.empty)
unfolding program
none-Apart e = tt

sync_add_key-HasAdded_example :
    (s : State) × (sync_add_key start key_a 5 ≡ some s) × HasAdded key_a start s
sync_add_key-HasAdded_example =
    sync_add_key-HasAdded key_a 5 start valid_a no-IsRoot
      (record { tree = IsRoot-a; honest = Among-a }, tt) none-Apart
