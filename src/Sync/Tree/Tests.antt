-- ===== src/Sync/Tree/Tests.antt =====
-- Runs of the tree of keys, and each theorem about it at an input.
use lbard.Prelude.{
  ℕ, ◌∷◌, [], ◌≡◌, ◌≢◌, ◌<◌, ap, get_or, inr, refl, sym, true, none, some, List, Option, All, arith,
  inl, ◌∙◌,
}
use mathlib.Core.Option
use mathlib.Core.Path.{subst}
use lbard.Sync.Tree.{
  Node, Tree, sync_get_bits, child_index, xor_byte, xor_bytes, sync_xor, xor_children, reset, touch,
  step, child, leaf, set_min_prefix_len, parent_of, split, rejoin, add_round, next_tree, next_min,
  add_from, add_key,
}
use lbard.Sync.Tree.Xor.{IsKey}
use lbard.Sync.Tree.Leaves.{leaves, Inserted}
use lbard.Sync.Tree.Invariant.{Summary, IsTree, IsRoot}
use lbard.Sync.Tree.Add.{add_key-IsRoot}
use lbard.Sync.Tree.Add.Descent.{Apart}
use lbard.Sync.Tree.Remove.{
  walk_step, replace_parent, remove_child, remove_round, remove_from, remove_key,
}
use lbard.Sync.Tree.Remove.Members.{Among}
use lbard.Sync.Tree.Remove.Loop.{remove_key-IsRoot}
use lbard.Sync.Tree.Search.{
  same_bytes, xor_begin, cmp_ends, cmp_message, below, find_round, find_from, find_message,
  message_from_key, is_found, sync_key_exists,
}
use lbard.Sync.Tree.Search.Answers.{Answers, find_message-Answers}
use lbard.Sync.Tree.Search.Exists.{sync_key_exists_root}

program : Unit {0}
unfolding sync_get_bits child_index xor_byte xor_bytes sync_xor xor_children reset touch step child
    leaf set_min_prefix_len parent_of split rejoin add_round next_tree next_min add_from add_key
    walk_step replace_parent remove_child remove_round remove_from remove_key same_bytes xor_begin
    cmp_ends cmp_message below find_round find_from find_message message_from_key is_found
    sync_key_exists leaves IsTree IsRoot Among
program = tt

abbrev key_a : List ℕ
key_a = 0x12 ∷ 0x34 ∷ 0x56 ∷ 0x78 ∷ 0x9a ∷ 0xbc ∷ 0xde ∷ 0xf0 ∷ []

-- It differs in bit 7, and in the last one.
abbrev key_b : List ℕ
key_b = 0x13 ∷ 0x34 ∷ 0x56 ∷ 0x78 ∷ 0x9a ∷ 0xbc ∷ 0xde ∷ 0xf1 ∷ []

abbrev tree_a : Tree
tree_a = Option.get_or (add_key Tree.empty key_a 1 true) Tree.empty

abbrev tree_ab : Tree
tree_ab = Option.get_or (add_key tree_a key_b 2 true) Tree.empty

-- The key of the root of the second tree: the prefix, and the two bits that differ.
abbrev key_sum : List ℕ
key_sum = 0x13 ∷ 0 ∷ 0 ∷ 0 ∷ 0 ∷ 0 ∷ 0 ∷ 1 ∷ []

abbrev root_key : Tree → List ℕ
root_key Tree.empty = []
root_key (Tree.node n left right) = n.message.key

abbrev both : List (List ℕ)
both = key_a ∷ key_b ∷ []

sum_of_two : root_key tree_ab ≡ key_sum
unfolding program
sum_of_two = refl

keys_of_two : leaves tree_ab ≡ both
unfolding program
keys_of_two = refl

-- Of two keys that differ in the last bit only, the second cannot be added.
last_bit : add_key tree_a (0x12 ∷ 0x34 ∷ 0x56 ∷ 0x78 ∷ 0x9a ∷ 0xbc ∷ 0xde ∷ 0xf1 ∷ []) 2 true ≡ none
unfolding program
last_bit = refl

removed_first : Option.map leaves (remove_key tree_ab key_a) ≡ some (key_b ∷ [])
unfolding program
removed_first = refl

valid_a : IsKey key_a
valid_a = record { size = refl; bytes = omega arith }

valid_b : IsKey key_b
valid_b = record { size = refl; bytes = omega arith }

Apart-ab : Apart key_b key_a
unfolding program Apart
Apart-ab = (7, omega arith, λ e. absurd (ground (arith, e)))

IsRoot-is : (o : Option Tree) (t u : Tree) → o ≡ some t → o ≡ some u → IsRoot t → IsRoot u
IsRoot-is o t u e f h = subst IsRoot (Option.some-injective t u (sym e ∙ f)) h

empty-Apart : (key : List ℕ) → All (Apart key) (leaves Tree.empty)
unfolding program
empty-Apart key = tt

empty-IsRoot : IsRoot Tree.empty
unfolding program
empty-IsRoot = tt

is_tree_a : add_key Tree.empty key_a 1 true ≡ some tree_a
unfolding program
is_tree_a = refl

is_tree_ab : add_key tree_a key_b 2 true ≡ some tree_ab
unfolding program
is_tree_ab = refl

IsRoot-a : IsRoot tree_a
IsRoot-a =
    let (t, e, h, ins) =
      add_key-IsRoot Tree.empty key_a 1 true valid_a empty-IsRoot (empty-Apart key_a) in
    IsRoot-is (add_key Tree.empty key_a 1 true) t tree_a e is_tree_a h

All-Apart : All (Apart key_b) (leaves tree_a)
unfolding program
All-Apart = (Apart-ab, tt)

add_key-IsRoot_example :
    (t : Tree) × (add_key tree_a key_b 2 true ≡ some t)
    × IsRoot t
    × Inserted key_b (leaves tree_a) (leaves t)
add_key-IsRoot_example = add_key-IsRoot tree_a key_b 2 true valid_b IsRoot-a All-Apart

IsRoot-ab : IsRoot tree_ab
IsRoot-ab =
    let (t, e, h, ins) = add_key-IsRoot tree_a key_b 2 true valid_b IsRoot-a All-Apart in
    IsRoot-is (add_key tree_a key_b 2 true) t tree_ab e is_tree_ab h

Among-a : Among key_a (leaves tree_ab)
unfolding program
Among-a = inl refl

remove_key-IsRoot_example :
    (t : Tree) × (remove_key tree_ab key_a ≡ some t)
    × IsRoot t
    × Inserted key_a (leaves t) (leaves tree_ab)
remove_key-IsRoot_example = remove_key-IsRoot tree_ab key_a IsRoot-ab Among-a

find_message-Answers_example : Answers key_a tree_ab (find_message tree_ab (message_from_key key_a))
find_message-Answers_example = find_message-Answers tree_ab key_a IsRoot-ab valid_a

abbrev node_of : Tree → Node
node_of Tree.empty = leaf 0 key_a 1 true
node_of (Tree.node n left right) = n

abbrev left_of : Tree → Tree
left_of Tree.empty = Tree.empty
left_of (Tree.node n left right) = left

abbrev right_of : Tree → Tree
right_of Tree.empty = Tree.empty
right_of (Tree.node n left right) = right

IsRoot-abs : IsRoot (Tree.node (node_of tree_ab) (left_of tree_ab) (right_of tree_ab))
unfolding program
IsRoot-abs = IsRoot-ab

other_than_a : key_sum ≢ key_a
other_than_a e = omega (arith, ap (λ l. get_or l 0 0) e)

other_than_b : key_sum ≢ key_b
other_than_b e = omega (arith, ap (λ l. get_or l 1 0) e)

none_is_sum :
    ¬ Among
      (node_of tree_ab).message.key
      (leaves (Tree.node (node_of tree_ab) (left_of tree_ab) (right_of tree_ab)))
unfolding program
none_is_sum (inl e) = other_than_a e
none_is_sum (inr (inl e)) = other_than_b e
none_is_sum (inr (inr h)) = absurd h

short_ab : (node_of tree_ab).message.prefix_len < 64
unfolding program
short_ab = omega arith

sync_key_exists_root_example :
    (sync_key_exists
        (Tree.node (node_of tree_ab) (left_of tree_ab) (right_of tree_ab))
        (node_of tree_ab).message.key
      ≡ true)
    × Summary
        (node_of tree_ab)
        (leaves (Tree.node (node_of tree_ab) (left_of tree_ab) (right_of tree_ab)))
sync_key_exists_root_example =
    sync_key_exists_root (node_of tree_ab) (left_of tree_ab) (right_of tree_ab) IsRoot-abs short_ab
      none_is_sum

-- That key is none of the two.
sum_is_reported : sync_key_exists tree_ab key_sum ≡ true
unfolding program
sum_is_reported = refl
