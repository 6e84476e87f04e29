-- ===== src/Sync/Tree/Add.antt =====
-- src/sync/sync.c: `add_key` puts a key into a tree, and keeps its invariant.
pub mod Descent
pub mod Split
pub mod Rejoin
use lbard.Prelude.{
  ℕ, zero, suc, ◌+◌, ◌≤◌, ◌<◌, List, [], ◌∷◌, ◌++◌, ◌≡◌, ◌≢◌, inl, inr, refl, sym, ap, ◌∙◌, Bool,
  true, false, not, ◌==◌, Option, none, some, if◌then◌else◌, All, arith, leb, Bool-cases,
}
use mathlib.Core.Path.{subst}
use mathlib.Core.Option
use lbard.Sync.Tree.{
  Tree, Node, Step, descend, along, differs, empty, node, child_index, sync_xor, touch, step, child,
  leaf, set_min_prefix_len, parent_of, split, rejoin, add_round, next_tree, next_min, add_from,
  add_key,
}
use lbard.Sync.Tree.Xor.{IsKey, xor}
use lbard.Sync.Tree.Leaves.{
  leaves, Inserted, Inserted_left, Inserted_right, Inserted_cast, All-Inserted,
}
use lbard.Sync.Tree.Invariant.{
  Summary, IsLeaf, IsInner, IsTree, IsRoot, leaves_full, leaves_short, IsTree-IsRoot, IsTree-cast,
  leaves-set_min_prefix_len,
}
use lbard.Sync.Tree.Invariant.Sums.{touch-Summary, parent_of-Summary, parent_of-prefix_len}
use lbard.Sync.Tree.Add.Rejoin.{rejoin_made}
use lbard.Sync.Tree.Add.Split.{split_made, leaf-IsTree, leaves-leaf}
use lbard.Sync.Tree.Add.Descent.{
  prefix_of, Apart, Walk, Says, step-Says, Walk-key, Walk-descend, Walk-along, Walk-stops,
  IsTree-raise, not_empty,
}

le→leb : (a b : ℕ) → a ≤ b → leb a b ≡ true
le→leb a b h = ground arith

-- A tree of the same start with the key put in.
Made : ℕ → List ℕ → Tree → Option Tree → Type 0
Made m key t o = (t' : Tree) × (o ≡ some t') × IsTree m t' × Inserted key (leaves t) (leaves t')

module _ (key : List ℕ) (k : IsKey key) where
  Made-descend :
      (m p : ℕ) (n : Node) (left right : Tree) (c : Bool) (o : Option Tree)
      → Walk key m p (node n left right)
      → n.message.prefix_len ≡ p
      → p < 63
      → child_index p key ≡ c
      → Made (p + 1) key (child c left right) o
      → Made m key (node n left right) (Option.map (rejoin (touch key n) c left right) o)
  unfolding Made
  Made-descend m p n left right c o w e hp turn (t', f, tree, ins) =
      let (a, b) = rejoin_made key k m p n left right c t' w e hp turn w.tree tree ins in
      (
        rejoin (touch key n) c left right t',
        ap (Option.map (rejoin (touch key n) c left right)) f,
        a,
        b,
      )

  Made-split :
      (m p context : ℕ) (stored : Bool) (n : Node) (left right : Tree) (c : Bool)
      → Walk key m p (node n left right)
      → n.message.prefix_len ≢ p
      → p < 63
      → child_index p key ≡ not c
      → child_index p n.message.key ≡ c
      → Made m key (node n left right) (
          if leb (p + 1) n.message.prefix_len
          then some (split m p key context stored c (node n left right))
          else none)
  unfolding Made prefix_of
  Made-split m p context stored n left right c w ne hp turn old =
      let (a, b) = split_made key k m p context stored n left right w ne hp c turn old in
      (
        split m p key context stored c (node n left right),
        ap (λ t. if t then some (split m p key context stored c (node n left right)) else none)
            (le→leb (p + 1) n.message.prefix_len (omega (arith, w.reach))),
        a,
        b,
      )

  -- A round, by what its step says and what the later rounds make.
  Made-round :
      (s : Step) (m p context : ℕ) (stored : Bool) (n : Node) (left right : Tree) (o : Option Tree)
      → Walk key m p (node n left right)
      → p < 63
      → Says p key n.message s
      → (Walk key (next_min s m p) (p + 1) (next_tree s n left right)
          → Made (next_min s m p) key (next_tree s n left right) o)
      → Made m key (node n left right) (add_round s m p key context stored n left right o)
  unfolding Says next_min next_tree add_round
  Made-round (descend c) m p context stored n left right o w hp (e, turn) rest =
      Made-descend m p n left right c o w e hp (sym turn)
        (rest (Walk-descend key m p n left right c w e hp (sym turn)))
  Made-round along m p context stored n left right o w hp (ne, same) rest =
      rest (Walk-along key m p n left right w ne same)
  Made-round (differs c) m p context stored n left right o w hp (ne, turn, old) rest =
      Made-split m p context stored n left right c w ne hp turn old

  Made-from :
      (rounds m p : ℕ) (t : Tree) (context : ℕ) (stored : Bool)
      → p + rounds ≡ 63
      → Walk key m p t
      → Made m key t (add_from rounds m p t key context stored)
  unfolding add_from IsTree
  Made-from rounds m p empty context stored e w = absurd w.tree
  Made-from zero m p (node n left right) context stored e w = absurd (
      Walk-stops key m (node n left right)
        (subst (λ j. Walk key m j (node n left right)) (omega arith) w))
  Made-from (suc rounds) m p (node n left right) context stored e w =
      let s = step p key n.message in
      Made-round s m p context stored n left right
        (add_from rounds (next_min s m p) (p + 1) (next_tree s n left right) key context stored) w
        (omega arith) (step-Says p key n.message)
        (Made-from rounds (next_min s m p) (p + 1) (next_tree s n left right) context stored
          (omega arith))

nothing : leaves empty ≡ []
unfolding leaves
nothing = refl

-- `add_key` ends without a failed assertion, whatever tree it is given that keeps the invariant,
-- if the key differs from the keys there in one of their first 63 bits; the new tree keeps the
-- invariant, and its keys are the old ones in their order with the key put in.
pub add_key-IsRoot :
    (t : Tree) (key : List ℕ) (context : ℕ) (stored : Bool)
    → IsKey key
    → IsRoot t
    → All (Apart key) (leaves t)
    → (t' : Tree) × (add_key t key context stored ≡ some t')
      × IsRoot t'
      × Inserted key (leaves t) (leaves t')
unfolding add_key add_from IsRoot Made
add_key-IsRoot empty key context stored k h apart = (
  node (leaf 0 key context stored) empty empty,
  refl,
  leaf-IsTree key k 0 context stored (omega arith),
  ([], [], nothing, leaves-leaf key k 0 context stored),
)
add_key-IsRoot (node n left right) key context stored k h apart =
    let w : Walk key 0 0 (node n left right) = record {
      tree = h;
      start = omega arith;
      reach = omega arith;
      agree = λ i hi. absurd (omega arith);
      apart = apart;
    } in
    let (t', e, tree, ins) =
      Made-from key k 63 0 0 (node n left right) context stored (omega arith) w in
    (t', e, IsTree-IsRoot t' tree, ins)
