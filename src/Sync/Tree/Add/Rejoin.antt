-- ===== src/Sync/Tree/Add/Rejoin.antt =====
-- src/sync/sync.c: an inner node that `add_key` has touched, with the child that took the key.
use lbard.Prelude.{ℕ, ◌+◌, ◌<◌, List, ◌++◌, ◌≡◌, inl, inr, ap, ◌∙◌, Bool, true, false, arith}
use lbard.Sync.Tree.{Tree, Node, node, child_index, touch, child, rejoin}
use lbard.Sync.Tree.Xor.{IsKey}
use lbard.Sync.Tree.Leaves.{
  leaves, Inserted, Inserted_left, Inserted_right, Inserted_cast, All-Inserted,
}
use lbard.Sync.Tree.Invariant.{IsTree, leaves_short, IsTree-cast}
use lbard.Sync.Tree.Invariant.Sums.{touch-Summary}
use lbard.Sync.Tree.Add.Descent.{Walk, Walk-key}

module _ (key : List ℕ) (k : IsKey key) where
  -- A child that took the key, under its touched parent.
  pub rejoin_made :
      (m p : ℕ) (n : Node) (left right : Tree) (c : Bool) (t' : Tree)
      → Walk key m p (node n left right)
      → n.message.prefix_len ≡ p
      → p < 63
      → child_index p key ≡ c
      → IsTree m (node n left right)
      → IsTree (p + 1) t'
      → Inserted key (leaves (child c left right)) (leaves t')
      → IsTree m (rejoin (touch key n) c left right t')
        × Inserted key (leaves (node n left right)) (leaves (rejoin (touch key n) c left right t'))
  unfolding IsTree rejoin child touch
  rejoin_made m p n left right c t' w e hp turn (em, le, inl h) tree ins =
      absurd (omega (arith, h.full))
  rejoin_made m p n left right true t' w e hp turn (em, le, inr (h, l, r)) tree ins =
      let all = Inserted_right key (leaves right) (leaves t') (leaves left) ins in
      (
        (
          em,
          le,
          inr (
            record {
              short = h.short;
              summary =
                  touch-Summary key n (leaves left ++ leaves right) (leaves left ++ leaves t') k
                    (omega arith) (λ i hi. Walk-key key m p n left right i w (omega arith)) all
                    h.summary;
              on_left = h.on_left;
              on_right =
                  All-Inserted (λ x. child_index n.message.prefix_len x ≡ true) key (leaves right)
                    (leaves t') ins (ap (λ j. child_index j key) e ∙ turn) h.on_right;
            },
            l,
            IsTree-cast (p + 1) (n.message.prefix_len + 1) t' (omega arith) tree,
          ),
        ),
        Inserted_cast key (leaves left ++ leaves right) (leaves left ++ leaves t')
            (leaves (node n left right)) (leaves (node (touch key n) left t'))
            (leaves_short n left right (omega arith))
            (leaves_short (touch key n) left t' (omega arith)) all,
      )
  rejoin_made m p n left right false t' w e hp turn (em, le, inr (h, l, r)) tree ins =
      let all = Inserted_left key (leaves left) (leaves t') (leaves right) ins in
      (
        (
          em,
          le,
          inr (
            record {
              short = h.short;
              summary =
                  touch-Summary key n (leaves left ++ leaves right) (leaves t' ++ leaves right) k
                    (omega arith) (λ i hi. Walk-key key m p n left right i w (omega arith)) all
                    h.summary;
              on_left =
                  All-Inserted (λ x. child_index n.message.prefix_len x ≡ false) key (leaves left)
                    (leaves t') ins (ap (λ j. child_index j key) e ∙ turn) h.on_left;
              on_right = h.on_right;
            },
            IsTree-cast (p + 1) (n.message.prefix_len + 1) t' (omega arith) tree,
            r,
          ),
        ),
        Inserted_cast key (leaves left ++ leaves right) (leaves t' ++ leaves right)
            (leaves (node n left right)) (leaves (node (touch key n) t' right))
            (leaves_short n left right (omega arith))
            (leaves_short (touch key n) t' right (omega arith)) all,
      )
