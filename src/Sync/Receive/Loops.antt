-- ===== src/Sync/Receive/Loops.antt =====
-- src/sync/sync.c: the loops of `recv_key` and `remove_differences` read no bit of a key that
-- `sync_get_bits` refuses.
use lbard.Prelude.{
  ℕ, zero, suc, ◌+◌, ◌≤◌, ◌<◌, ◌≡◌, ◌⊎◌, inl, inr, refl, sym, ◌∙◌, Bool, true, false, ltb, ◌&&◌,
  if◌then◌else◌, arith, dec_lt,
}
use mathlib.Core.Path.{subst}
use lbard.Sync.Tree.{Tree, Node, KeyMessage, node, child_index, child}
use lbard.Sync.Tree.Invariant.{IsTree, IsTree-cast}
use lbard.Sync.Tree.Add.Descent.{Walk, prefix_of, reach_of, Walk-along, Walk-descend, Walk-stops}
use lbard.Sync.Tree.Remove.Loop.{child-IsTree}
use lbard.Sync.Receive.{readable, Scan, unreadable, differs_at, scanned, scan_from}

-- A message that may be compared with the tree `t` from bit `p` on: its prefix has 62 bits at
-- most, or it is a whole key that differs from the keys there in the bits that can be read.
unfoldable pub Safe : KeyMessage → ℕ → ℕ → Tree → Type 0
Safe message m p t =
    ((message.prefix_len ≤ 62) × IsTree m t × (p ≤ prefix_of t)) ⊎ Walk message.key m p t

pub Safe-IsTree :
    (message : KeyMessage) (m p : ℕ) (t : Tree)
    → Safe message m p t
    → IsTree m t × (p ≤ prefix_of t)
unfolding Safe
Safe-IsTree message m p t (inl (h, tree, reach)) = (tree, reach)
Safe-IsTree message m p t (inr w) = (w.tree, w.reach)

pub Safe-descend :
    (message : KeyMessage) (m p : ℕ) (n : Node) (left right : Tree) (c : Bool)
    → Safe message m p (node n left right)
    → n.message.prefix_len ≡ p
    → p < 63
    → child_index p message.key ≡ c
    → Safe message (p + 1) (p + 1) (child c left right)
unfolding Safe IsTree
Safe-descend message m p n left right c (inr w) e hp turn =
    inr (Walk-descend message.key m p n left right c w e hp turn)
Safe-descend message m p n left right c (inl (h, (em, le, inl leaf), reach)) e hp turn =
    absurd (omega (arith, leaf.full))
Safe-descend message m p n left right c (inl (h, (em, le, inr (i, l, r)), reach)) e hp turn =
    let tree : IsTree (p + 1) (child c left right) =
      IsTree-cast (n.message.prefix_len + 1) (p + 1) (child c left right) (omega arith)
        (child-IsTree message.key c (n.message.prefix_len + 1) left right l r) in
    inl (h, tree, reach_of (p + 1) (child c left right) tree)

-- The next bit of a node's prefix can be read as well, if this one is the message's.
Safe-along :
    (message : KeyMessage) (m p : ℕ) (n : Node) (left right : Tree)
    → Safe message m p (node n left right)
    → p < n.message.prefix_len
    → p < message.prefix_len
    → p < 63
    → child_index p message.key ≡ child_index p n.message.key
    → Safe message m (p + 1) (node n left right) × (p + 1 < 63)
unfolding Safe prefix_of
Safe-along message m p n left right (inl (h, tree, reach)) hn hm hp e =
    (inl (h, tree, omega arith), omega arith)
Safe-along message m p n left right (inr w) hn hm hp e =
    let w' = Walk-along message.key m p n left right w (omega arith) e in
    (
      inr w',
      elim (dec_lt (p + 1) 63) [
        | yes h ↦ h
        | no h ↦ absurd (
            Walk-stops message.key m (node n left right)
              (subst (λ j. Walk message.key m j (node n left right)) (omega arith) w'))
      ],
    )

-- How the inner loop of `recv_key` ends.
unfoldable pub Ends : KeyMessage → ℕ → Node → Tree → Tree → Scan → Type 0
unfolding Safe
Ends message m n left right unreadable = ⊥
Ends message m n left right (differs_at q) = Unit
Ends message m n left right (scanned q) =
    (q < 63)
    × (q ≤ n.message.prefix_len)
    × ((message.prefix_len ≤ q) ⊎ (q ≡ n.message.prefix_len))
    × Safe message m q (node n left right)

scan_cases :
    (message : KeyMessage) (m p : ℕ) (n : Node) (left right : Tree) (t a b r : Bool) (rest : Scan)
    → Safe message m p (node n left right)
    → p < 63
    → p < message.prefix_len
    → (ltb p n.message.prefix_len && ltb p message.prefix_len) ≡ t
    → child_index p message.key ≡ a
    → child_index p n.message.key ≡ b
    → readable (p + 1) ≡ r
    → (Safe message m (p + 1) (node n left right) → p + 1 < 63 → Ends message m n left right rest)
    → Ends message m n left right (
        if t
        then if a
          then if b then if r then rest else unreadable else differs_at p
          else if b
          then differs_at p
          else if r
          then rest
          else unreadable
        else scanned p)
unfolding Ends readable prefix_of
scan_cases message m p n left right false a b r rest s hp hm e f g h next =
    let (tree, reach) = Safe-IsTree message m p (node n left right) s in
    (hp, omega arith, inr (ground arith), s)
scan_cases message m p n left right true true true true rest s hp hm e f g h next =
    let (s', h') = Safe-along message m p n left right s (ground arith) hm hp (f ∙ sym g) in
    next s' h'
scan_cases message m p n left right true false false true rest s hp hm e f g h next =
    let (s', h') = Safe-along message m p n left right s (ground arith) hm hp (f ∙ sym g) in
    next s' h'
scan_cases message m p n left right true true false r rest s hp hm e f g h next = tt
scan_cases message m p n left right true false true r rest s hp hm e f g h next = tt
scan_cases message m p n left right true true true false rest s hp hm e f g h next =
    let (s', h') = Safe-along message m p n left right s (ground arith) hm hp (f ∙ sym g) in
    absurd (ground arith)
scan_cases message m p n left right true false false false rest s hp hm e f g h next =
    let (s', h') = Safe-along message m p n left right s (ground arith) hm hp (f ∙ sym g) in
    absurd (ground arith)

pub scan_from-Ends :
    (rounds m p : ℕ) (n : Node) (left right : Tree) (message : KeyMessage)
    → p + rounds ≡ message.prefix_len
    → p < 63
    → Safe message m p (node n left right)
    → Ends message m n left right (scan_from rounds p n message)
unfolding scan_from Ends prefix_of
scan_from-Ends zero m p n left right message e hp s =
    let (tree, reach) = Safe-IsTree message m p (node n left right) s in
    (hp, reach, inl (omega arith), s)
scan_from-Ends (suc rounds) m p n left right message e hp s =
    scan_cases message m p n left right (ltb p n.message.prefix_len && ltb p message.prefix_len)
      (child_index p message.key) (child_index p n.message.key) (readable (p + 1))
      (scan_from rounds (p + 1) n message) s hp (omega arith) refl refl refl refl
      (λ s' h'. scan_from-Ends rounds m (p + 1) n left right message (omega arith) h' s')
