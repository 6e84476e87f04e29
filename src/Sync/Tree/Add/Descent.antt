-- ===== src/Sync/Tree/Add/Descent.antt =====
-- src/sync/sync.c: the loop of `add_key` on its way down, what it knows of the node it looks at,
-- and that it looks at no bit of a key past the one that tells it apart.
use lbard.Prelude.{
  ℕ, ◌+◌, ◌≤◌, ◌<◌, List, [], ◌++◌, ◌≡◌, ◌≢◌, inl, inr, refl, sym, ap, ◌∙◌, Bool, true, false, not,
  ◌==◌, if◌then◌else◌, All, arith, ==_iff, ℕ_discrete, Bool-cases,
}
use mathlib.Core.Path.{subst}
use lbard.Sync.Tree.{
  Tree, Node, KeyMessage, Step, descend, along, differs, empty, node, child_index, step, child,
  set_min_prefix_len,
}
use lbard.Sync.Tree.Leaves.{leaves, All-left, All-right, All-cast, All-map}
use lbard.Sync.Tree.Invariant.{IsTree, IsTree-cast, leaves_short, leaves-cons, leaves-prefix}

-- Two keys differ in one of the bits that the source's `sync_get_bits` can read.
unfoldable pub Apart : List ℕ → List ℕ → Type 0
Apart key k = (i : ℕ) × (i < 63) × (child_index i key ≢ child_index i k)

unfoldable pub prefix_of : Tree → ℕ
prefix_of empty = 0
prefix_of (node n left right) = n.message.prefix_len

-- What a step tells of the bits it looked at.
unfoldable pub Says : ℕ → List ℕ → KeyMessage → Step → Type 0
Says p key m (descend index) = (m.prefix_len ≡ p) × (index ≡ child_index p key)
Says p key m along = (m.prefix_len ≢ p) × (child_index p key ≡ child_index p m.key)
Says p key m (differs index) =
    (m.prefix_len ≢ p) × (child_index p key ≡ not index) × (child_index p m.key ≡ index)

Says-cases :
    (p : ℕ) (key : List ℕ) (m : KeyMessage) (t a b : Bool)
    → (m.prefix_len == p) ≡ t
    → child_index p key ≡ a
    → child_index p m.key ≡ b
    → Says p key m (
        if t
        then descend a
        else if a
        then if b then along else differs false
        else if b
        then differs true
        else along)
unfolding Says
Says-cases p key m true a b e f g = ((==_iff m.prefix_len p).0 e, sym f)
Says-cases p key m false true true e f g = (ground arith, f ∙ sym g)
Says-cases p key m false true false e f g = (ground arith, f, g)
Says-cases p key m false false true e f g = (ground arith, f, g)
Says-cases p key m false false false e f g = (ground arith, f ∙ sym g)

pub step-Says : (p : ℕ) (key : List ℕ) (m : KeyMessage) → Says p key m (step p key m)
unfolding step
step-Says p key m =
    Says-cases p key m (m.prefix_len == p) (child_index p key) (child_index p m.key) refl refl refl

-- The loop looks at bit `p` of the tree `t`, which starts at bit `m`.
pub record Walk (key : List ℕ) (m p : ℕ) (t : Tree) : Type 0 where
  pub tree : IsTree m t
  pub start : m ≤ p
  pub reach : p ≤ prefix_of t
  pub agree : (i : ℕ) → i < p → All (λ k. child_index i key ≡ child_index i k) (leaves t)
  pub apart : All (Apart key) (leaves t)

-- The key has the prefix of the node that it reaches.
pub Walk-key :
    (key : List ℕ) (m p : ℕ) (n : Node) (left right : Tree) (i : ℕ)
    → Walk key m p (node n left right)
    → i < p
    → child_index i key ≡ child_index i n.message.key
unfolding prefix_of
Walk-key key m p n left right i w hi =
    let (k, ks, e) = leaves-cons m (node n left right) w.tree in
    (All-cast (λ k. child_index i key ≡ child_index i k) e (w.agree i hi)).0
    ∙ (All-cast (λ k. child_index i k ≡ child_index i n.message.key) e
        (leaves-prefix m n left right i w.tree (omega (arith, w.reach)))).0

-- It has not been found alike in all the bits.
pub Walk-stops : (key : List ℕ) (m : ℕ) (t : Tree) → Walk key m 63 t → ⊥
unfolding Apart
Walk-stops key m t w =
    let (k, ks, e) = leaves-cons m t w.tree in
    let (i, h, ne) = (All-cast (Apart key) e w.apart).0 in
    absurd (ne (All-cast (λ k. child_index i key ≡ child_index i k) e (w.agree i h)).0)

pub IsTree-raise :
    (m p : ℕ) (t : Tree) → IsTree m t → p ≤ prefix_of t → IsTree p (set_min_prefix_len p t)
unfolding IsTree set_min_prefix_len prefix_of
IsTree-raise m p empty h le = h
IsTree-raise m p (node n left right) (_, _, inl h) le = (
  refl,
  le,
  inl (record { full = h.full; no_left = h.no_left; no_right = h.no_right; valid = h.valid }),
)
IsTree-raise m p (node n left right) (_, _, inr (h, l, r)) le = (
  refl,
  le,
  inr (
    record {
      short = h.short;
      summary = record {
        valid = h.summary.valid;
        prefix = h.summary.prefix;
        sums = h.summary.sums;
      };
      on_left = h.on_left;
      on_right = h.on_right;
    },
    l,
    r,
  ),
)

pub not_empty : (m : ℕ) (t : Tree) → IsTree m t → leaves t ≢ []
not_empty m t h e = let (k, ks, f) = leaves-cons m t h in absurd (ground (arith, sym f ∙ e))

pub reach_of : (m : ℕ) (t : Tree) → IsTree m t → m ≤ prefix_of t
unfolding IsTree prefix_of
reach_of m empty h = absurd h
reach_of m (node n left right) (_, le, h) = le

pub Walk-along :
    (key : List ℕ) (m p : ℕ) (n : Node) (left right : Tree)
    → Walk key m p (node n left right)
    → n.message.prefix_len ≢ p
    → child_index p key ≡ child_index p n.message.key
    → Walk key m (p + 1) (node n left right)
unfolding prefix_of
Walk-along key m p n left right w ne e = record {
  tree = w.tree;
  start = omega (arith, w.start);
  reach = omega (arith, w.reach);
  agree = λ i hi. elim (ℕ_discrete i p) [
    | yes same ↦
        All-map (λ k. child_index i k ≡ child_index i n.message.key)
          (λ k. child_index i key ≡ child_index i k)
          (λ k f.
            ap (λ j. child_index j key) same
            ∙ e
            ∙ ap (λ j. child_index j n.message.key) (sym same)
            ∙ sym f)
          (leaves (node n left right))
          (leaves-prefix m n left right i w.tree (omega (arith, w.reach)))
    | no other ↦ w.agree i (omega arith)
  ];
  apart = w.apart;
}

child-Walk :
    (key : List ℕ) (p : ℕ) (t : Tree) (c : Bool)
    → child_index p key ≡ c
    → IsTree (p + 1) t
    → ((i : ℕ) → i < p → All (λ k. child_index i key ≡ child_index i k) (leaves t))
    → All (λ k. child_index p k ≡ c) (leaves t)
    → All (Apart key) (leaves t)
    → Walk key (p + 1) (p + 1) t
child-Walk key p t c e tree agree turn apart = record {
  tree = tree;
  start = omega arith;
  reach = reach_of (p + 1) t tree;
  agree = λ i hi. elim (ℕ_discrete i p) [
    | yes same ↦
        All-map (λ k. child_index p k ≡ c) (λ k. child_index i key ≡ child_index i k)
          (λ k f.
            ap (λ j. child_index j key) same ∙ e ∙ sym f ∙ ap (λ j. child_index j k) (sym same))
          (leaves t) turn
    | no other ↦ agree i (omega arith)
  ];
  apart = apart;
}

pub Walk-descend :
    (key : List ℕ) (m p : ℕ) (n : Node) (left right : Tree) (c : Bool)
    → Walk key m p (node n left right)
    → n.message.prefix_len ≡ p
    → p < 63
    → child_index p key ≡ c
    → Walk key (p + 1) (p + 1) (child c left right)
unfolding child IsTree
Walk-descend key m p n left right c w e hp turn = elim w.tree.2 [
  | inl h ↦ absurd (omega (arith, h.full))
  | inr h ↦
      let split : leaves (node n left right) ≡ leaves left ++ leaves right =
        leaves_short n left right (omega arith) in
      elim (Bool-cases c) [
        | inl f ↦
            subst (λ b. Walk key (p + 1) (p + 1) (child b left right)) (sym f)
              (child-Walk key p right true (turn ∙ f)
                (IsTree-cast (n.message.prefix_len + 1) (p + 1) right (omega arith) h.2)
                (λ i hi.
                  All-right (λ k. child_index i key ≡ child_index i k) (leaves left) (leaves right)
                    (All-cast (λ k. child_index i key ≡ child_index i k) split (w.agree i hi)))
                (subst (λ j. All (λ k. child_index j k ≡ true) (leaves right)) e h.0.on_right)
                (All-right (Apart key) (leaves left) (leaves right)
                  (All-cast (Apart key) split w.apart)))
        | inr f ↦
            subst (λ b. Walk key (p + 1) (p + 1) (child b left right)) (sym f)
              (child-Walk key p left false (turn ∙ f)
                (IsTree-cast (n.message.prefix_len + 1) (p + 1) left (omega arith) h.1)
                (λ i hi.
                  All-left (λ k. child_index i key ≡ child_index i k) (leaves left) (leaves right)
                    (All-cast (λ k. child_index i key ≡ child_index i k) split (w.agree i hi)))
                (subst (λ j. All (λ k. child_index j k ≡ false) (leaves left)) e h.0.on_left)
                (All-left (Apart key) (leaves left) (leaves right)
                  (All-cast (Apart key) split w.apart)))
      ]
]
