-- ===== src/Sync/Receive/Tests.antt =====
-- Runs of `recv_key`, and its theorems at an input.
use lbard.Prelude.{
  ℕ, ◌∷◌, [], ◌≡◌, ◌⊎◌, ◌∙◌, All, refl, sym, Bool, true, false, none, List, arith, inl, inr, not,
  ◌<◌, every, holds_below,
}
use lbard.Sync.Tree.{
  KeyMessage, Node, Tree, sync_get_bits, child_index, xor_byte, xor_bytes, sync_xor, xor_children,
  leaf, child, next_tree,
}
use lbard.Sync.Tree.Xor.{IsKey}
use lbard.Sync.Tree.Leaves.{leaves}
use lbard.Sync.Tree.Invariant.{IsTree, IsRoot}
use lbard.Sync.Tree.Add.Descent.{Apart}
use lbard.Sync.Tree.Remove.{walk_step}
use lbard.Sync.Tree.Search.{same_bytes, xor_begin, cmp_ends, cmp_message}
use lbard.Sync.Receive.{
  Action, Outcome, done, learn, missing_leaves, readable, turned, reach_round, reach_from,
  less_known, remove_differences, scan_from, explain_round, explain_from, queue_child,
  explain_actions,
}
use lbard.Sync.Receive.Record.{
  all_zero, is_blank, before, matched, ended, strangers, siblings, after_scan, recv_from,
  recv_known, recv_into, recv_key_calls,
}
use lbard.Sync.Receive.Calls.{
  subtree_at, is_stored, peer_lacks, peer_is_missing, is_kept, peer_missing_leaf_nodes,
  peer_has_received_all, learnt_tree, peer_learns_key, acknowledges, call, calls, Received, invalid,
  assertion_failed, answered, called, finished, recv_key,
}
use lbard.Sync.Receive.Answered.{recv_key-answered}
use lbard.Sync.State.{added_tree, add_if_missing, add_key_if_missing}
use lbard.Sync.Tree.Search.{below, find_round, find_from, find_message}
use lbard.Sync.Tree.{
  reset, touch, set_min_prefix_len, parent_of, split, step, add_round, next_min, add_from, add_key,
  rejoin,
}
use mathlib.Core.Path.{subst}
use lbard.Sync.Receive.Aborts.{recv_key-aborted}

program : Unit {0}
unfolding sync_get_bits child_index xor_byte xor_bytes sync_xor xor_children leaf child next_tree
    walk_step same_bytes xor_begin cmp_ends cmp_message leaves IsTree IsRoot readable turned
    reach_round reach_from less_known remove_differences scan_from explain_round explain_from
    queue_child explain_actions all_zero is_blank before matched ended strangers siblings after_scan
    recv_from recv_known recv_into recv_key_calls Apart subtree_at is_stored peer_lacks
    peer_is_missing is_kept peer_missing_leaf_nodes peer_has_received_all learnt_tree
    peer_learns_key acknowledges call calls called finished recv_key added_tree add_if_missing
    add_key_if_missing below find_round find_from find_message reset touch set_min_prefix_len
    parent_of split step add_round next_min add_from add_key rejoin
program = tt

abbrev key_a : List ℕ
key_a = 0x12 ∷ 0x34 ∷ 0x56 ∷ 0x78 ∷ 0x9a ∷ 0xbc ∷ 0xde ∷ 0xf0 ∷ []

-- It differs in the last bit.
abbrev key_b : List ℕ
key_b = 0x12 ∷ 0x34 ∷ 0x56 ∷ 0x78 ∷ 0x9a ∷ 0xbc ∷ 0xde ∷ 0xf1 ∷ []

-- It differs in bit 7.
abbrev key_c : List ℕ
key_c = 0x13 ∷ 0x34 ∷ 0x56 ∷ 0x78 ∷ 0x9a ∷ 0xbc ∷ 0xde ∷ 0xf0 ∷ []

abbrev leaf_a : Node
leaf_a = leaf 0 key_a 1 true

abbrev tree_a : Tree
tree_a = Tree.node leaf_a Tree.empty Tree.empty

abbrev key_message : ℕ → List ℕ → KeyMessage
key_message prefix_len key = record {
  min_prefix_len = 0;
  stored = true;
  prefix_len = prefix_len;
  key = key;
}

-- A key that the node does not have is learnt, and the peer is told of the node's own.
abbrev told : Outcome
told = done (missing_leaves [] none false ∷ learn (key_message 64 key_c) ∷ [])

learnt : recv_key_calls tree_a Tree.empty (key_message 64 key_c) ≡ told
unfolding program
learnt = refl

valid_a : IsKey key_a
valid_a = record { size = refl; bytes = omega arith }

is_root : IsRoot tree_a
unfolding program
is_root = (
  refl,
  omega arith,
  inl (record { full = refl; no_left = refl; no_right = refl; valid = valid_a }),
)

no-IsRoot : IsRoot Tree.empty
unfolding program
no-IsRoot = tt

-- The node's key and the one that is new.
abbrev AtHand : List ℕ → Type 0
AtHand key = (key ≡ key_a) ⊎ (key ≡ key_c)

valid_c : IsKey key_c
valid_c = record { size = refl; bytes = omega arith }

AtHand-IsKey : (key : List ℕ) → AtHand key → IsKey key
AtHand-IsKey key (inl e) = subst IsKey (sym e) valid_a
AtHand-IsKey key (inr e) = subst IsKey (sym e) valid_c

apart_c : Apart key_c key_a
unfolding program
apart_c = (7, omega arith, λ e. absurd (ground (arith, e)))

apart_a : Apart key_a key_c
unfolding program
apart_a = (7, omega arith, λ e. absurd (ground (arith, e)))

AtHand-distinct : (key other : List ℕ) → AtHand key → AtHand other → (key ≡ other) ⊎ Apart key other
AtHand-distinct key other (inl e) (inl f) = inl (e ∙ sym f)
AtHand-distinct key other (inl e) (inr f) =
    inr (subst (λ k. Apart k other) (sym e) (subst (Apart key_a) (sym f) apart_a))
AtHand-distinct key other (inr e) (inl f) =
    inr (subst (λ k. Apart k other) (sym e) (subst (Apart key_c) (sym f) apart_c))
AtHand-distinct key other (inr e) (inr f) = inl (e ∙ sym f)

all_a : All AtHand (leaves tree_a)
unfolding program
all_a = (inl refl, tt)

all_none : All AtHand (leaves Tree.empty)
unfolding program
all_none = tt

apart_all : All (Apart key_c) (leaves tree_a)
unfolding leaves leaf
apart_all = (apart_c, tt)

apart_none : All (Apart key_c) (leaves Tree.empty)
unfolding leaves
apart_none = tt

recv_key-answered_example :
    (actions : List Action) × (t : Tree) × (recv_key tree_a Tree.empty (key_message 64 key_c)
      ≡ answered actions t)
    × IsRoot t
    × All AtHand (leaves t)
recv_key-answered_example =
    recv_key-answered AtHand tree_a Tree.empty (key_message 64 key_c) AtHand-IsKey AtHand-distinct
      is_root no-IsRoot all_a all_none (inr refl) apart_all apart_none refl (omega arith) refl

-- The peer's tree afterwards has the node's own key, which the peer lacks, and the new one.
abbrev keys_of : Received → List (List ℕ)
keys_of invalid = []
keys_of assertion_failed = []
keys_of (answered actions t) = leaves t

learns_key : keys_of (recv_key tree_a Tree.empty (key_message 64 key_c)) ≡ key_a ∷ key_c ∷ []
unfolding program
learns_key = refl

-- Where the node has no key, and the peer one that differs from the record's in the last bit only,
-- the call of `peer_add_key` fails an assertion.
close_keys : recv_key Tree.empty tree_a (key_message 64 key_b) ≡ assertion_failed
unfolding program
close_keys = refl

same : Bool → Bool → Bool
same true b = b
same false b = not b

same-eq : (a b : Bool) → same a b ≡ true → a ≡ b
unfolding same
same-eq true b h = sym h
same-eq false true h = absurd (ground arith)
same-eq false false h = refl

alike_table : every (λ i. same (child_index i key_b) (child_index i key_a)) 63 ≡ true
unfolding every program same
alike_table = refl

alike : (i : ℕ) → i < 63 → child_index i key_b ≡ child_index i key_a
alike i h =
    same-eq (child_index i key_b) (child_index i key_a)
      (holds_below (λ i. same (child_index i key_b) (child_index i key_a)) i 63 h alike_table)

is_full : leaf_a.message.prefix_len ≡ 64
unfolding program
is_full = refl

alike_leaf : (i : ℕ) → i < 63 → child_index i key_b ≡ child_index i leaf_a.message.key
unfolding leaf
alike_leaf i h = alike i h

other : cmp_message (key_message 63 key_b) leaf_a.message ≡ false
unfolding program
other = refl

recv_key-aborted_example :
    recv_key (Tree.node leaf_a Tree.empty Tree.empty) Tree.empty (key_message 63 key_b)
    ≡ assertion_failed
recv_key-aborted_example =
    recv_key-aborted leaf_a Tree.empty Tree.empty (key_message 63 key_b) is_full (omega arith)
      (omega arith) (omega arith) alike_leaf other
