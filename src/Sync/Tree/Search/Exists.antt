-- ===== src/Sync/Tree/Search/Exists.antt =====
-- src/sync/sync.c: `sync_key_exists`.
use lbard.Prelude.{
  ℕ, zero, ◌<◌, sym, suc, ◌+◌, ◌-◌, List, [], ◌≡◌, inl, inr, refl, ap, ◌∙◌, true, if◌then◌else◌,
  arith, ◌==◌,
}
use mathlib.Core.Path.{subst}
use lbard.Sync.Tree.{Tree, Node, KeyMessage, empty, node, next_tree}
use lbard.Sync.Tree.Xor.{IsKey}
use lbard.Sync.Tree.Leaves.{leaves}
use lbard.Sync.Tree.Invariant.{Summary, IsTree, IsRoot, leaves_short, leaves-IsKey}
use lbard.Sync.Tree.Remove.{walk_step}
use lbard.Sync.Tree.Remove.Members.{Among, All-Among}
use lbard.Sync.Tree.Search.{
  cmp_message, Search, failed, missing, found, find_round, find_from, find_message,
  message_from_key, is_found, sync_key_exists,
}
use lbard.Sync.Tree.Search.Laws.{same_bytes_refl, cmp_whole}
use lbard.Sync.Tree.Search.Answers.{Answers, find_message-Answers}

found_of :
    (key : List ℕ) (t : Tree) (s : Search)
    → Answers key t s
    → Among key (leaves t)
    → is_found s ≡ true
unfolding Answers is_found
found_of key t failed h among = absurd h
found_of key t missing h among = absurd (h among)
found_of key t (found path) h among = refl

root_keys : (t : Tree) (key : List ℕ) → IsRoot t → Among key (leaves t) → IsKey key
unfolding IsRoot leaves Among
root_keys empty key h among = absurd among
root_keys (node n left right) key h among =
    All-Among IsKey key (leaves (node n left right)) (leaves-IsKey 0 (node n left right) h) among

-- A key of a tree that keeps the invariant is reported by `sync_key_exists`.
pub sync_key_exists-Among :
    (t : Tree) (key : List ℕ) → IsRoot t → Among key (leaves t) → sync_key_exists t key ≡ true
unfolding sync_key_exists
sync_key_exists-Among t key h among =
    found_of key t (find_message t (message_from_key key))
      (find_message-Answers t key h (root_keys t key h among)) among

find_from_first :
    (rounds p : ℕ) (n : Node) (left right : Tree) (message : KeyMessage)
    → cmp_message n.message message ≡ true
    → find_from rounds p (node n left right) message ≡ found []
unfolding find_from
find_from_first zero p n left right message e =
    ap (λ t. if t then found [] else if n.message.prefix_len == 64 then missing else failed) e
find_from_first (suc rounds) p n left right message e =
    let s = walk_step p message.key n.message in
    let rest = find_from rounds (p + 1) (next_tree s n left right) message in
    ap
      (λ t.
        if t then found [] else if n.message.prefix_len == 64 then missing else find_round s rest)
      e

root_cmp :
    (n : Node) (left right : Tree)
    → IsRoot (node n left right)
    → sync_key_exists (node n left right) n.message.key ≡ true
unfolding sync_key_exists find_message IsRoot IsTree
root_cmp n left right (em, le, h) = ap is_found (
    find_from_first (63 - n.message.prefix_len) n.message.prefix_len n left right
      (message_from_key n.message.key)
      (cmp_whole n.message n.message.key (omega arith) (elim h [
        | inl leaf ↦ omega (arith, leaf.full)
        | inr inner ↦ omega (arith, inner.0.short)
      ])
        ∙ same_bytes_refl 8 n.message.key))

root-Summary :
    (n : Node) (left right : Tree)
    → IsRoot (node n left right)
    → n.message.prefix_len < 64
    → Summary n (leaves (node n left right))
unfolding IsRoot IsTree
root-Summary n left right (em, le, h) short =
    subst (Summary n) (sym (leaves_short n left right short))
      (elim h [ inl leaf ↦ absurd (omega (arith, leaf.full)) | inr inner ↦ inner.0.summary ])

-- `sync_key_exists` reports a key that the tree does not have: where the root of a tree that keeps
-- the invariant is an inner node, its key, which no leaf has, is said to exist. The bits of that
-- key within the root's prefix are those that all keys of the tree share, and each bit behind the
-- prefix is the exclusive or of that bit of all keys of the tree.
pub sync_key_exists_root :
    (n : Node) (left right : Tree)
    → IsRoot (node n left right)
    → n.message.prefix_len < 64
    → ¬ Among n.message.key (leaves (node n left right))
    → (sync_key_exists (node n left right) n.message.key ≡ true)
      × Summary n (leaves (node n left right))
sync_key_exists_root n left right h short other =
    (root_cmp n left right h, root-Summary n left right h short)
