-- ===== src/Sync/Receive/Called.antt =====
-- src/sync/sync.c: `recv_key` of a new key, with the calls that it makes, fails no assertion.
use lbard.Prelude.{
  ℕ, ◌+◌, ◌≤◌, List, [], ◌∷◌, ◌≡◌, ◌⊎◌, inl, inr, refl, sym, Bool, true, false, ◌==◌, ◌&&◌, ==_iff,
  arith, Option, none, some, All, Bool-cases, ◌>>=◌,
}
use mathlib.Core.Path.{subst}
use lbard.Sync.Tree.{Tree, Node, KeyMessage, empty, node, child, add_key}
use lbard.Sync.Tree.Xor.{IsKey}
use lbard.Sync.Tree.Leaves.{leaves, All-left, All-right, All-Inserted}
use lbard.Sync.Tree.Invariant.{IsTree, IsRoot, leaves_full, leaves_short}
use lbard.Sync.Tree.Add.{add_key-IsRoot}
use lbard.Sync.Tree.Add.Descent.{Apart}
use lbard.Sync.Tree.Remove.Members.{Among}
use lbard.Sync.Tree.Search.{Search, failed, missing, found, find_message}
use lbard.Sync.Tree.Search.Whole.{IsAnswer, find_message-IsAnswer}
use lbard.Sync.State.{added_tree, add_if_missing, add_key_if_missing}
use lbard.Sync.Receive.{
  Action, learn, missing_leaves, unqueue, received_all, acknowledged, uninteresting, queue,
}
use lbard.Sync.Receive.Calls.{
  subtree_at, is_stored, peer_lacks, peer_is_missing, is_kept, peer_missing_leaf_nodes, learnt_tree,
  peer_learns_key, call, calls,
}
use lbard.Sync.Receive.Clean.{IsAdding}
use lbard.Sync.Receive.Searches.{if_both, if_yes, if_no}

and_false : (b : Bool) → (b && false) ≡ false
and_false true = refl
and_false false = refl

-- What is below a node of a tree, whose whole keys are of a kind.
unfoldable pub IsPart : (List ℕ → Type 0) → Tree → Type 0
IsPart U empty = Unit
IsPart U (node n left right) =
    (n.message.prefix_len ≡ 64 → (n.message.min_prefix_len ≤ 64) × U n.message.key)
    × IsPart U left
    × IsPart U right

module _ (U : List ℕ → Type 0) where
  IsTree-IsPart : (m : ℕ) (t : Tree) → IsTree m t → All U (leaves t) → IsPart U t
  unfolding IsTree IsPart
  IsTree-IsPart m empty h all = tt
  IsTree-IsPart m (node n left right) (em, le, inl leaf) all = (
    λ e. (omega (arith, le, em, e), (subst (All U) (leaves_full n left right leaf.full) all).0),
    subst (IsPart U) (sym leaf.no_left) tt,
    subst (IsPart U) (sym leaf.no_right) tt,
  )
  IsTree-IsPart m (node n left right) (em, le, inr (i, l, r)) all =
      let both = subst (All U) (leaves_short n left right (omega (arith, i.short))) all in
      (
        λ e. absurd (omega (arith, i.short, e)),
        IsTree-IsPart (n.message.prefix_len + 1) left l
            (All-left U (leaves left) (leaves right) both),
        IsTree-IsPart (n.message.prefix_len + 1) right r
            (All-right U (leaves left) (leaves right) both),
      )

  pub IsRoot-IsPart : (t : Tree) → IsRoot t → All U (leaves t) → IsPart U t
  unfolding IsRoot IsPart
  IsRoot-IsPart empty h all = tt
  IsRoot-IsPart (node n left right) h all = IsTree-IsPart 0 (node n left right) h all

  pub child-IsPart :
      (index : Bool) (left right : Tree)
      → IsPart U left
      → IsPart U right
      → IsPart U (child index left right)
  unfolding child
  child-IsPart false left right l r = l
  child-IsPart true left right l r = r

  subtree_at-IsPart : (path : List Bool) (t : Tree) → IsPart U t → IsPart U (subtree_at path t)
  unfolding subtree_at IsPart
  subtree_at-IsPart [] t h = h
  subtree_at-IsPart (index ∷ path) empty h = tt
  subtree_at-IsPart (index ∷ path) (node n left right) (h, l, r) =
      subtree_at-IsPart path (child index left right) (child-IsPart index left right l r)

-- The keys at hand: any two of them that are not equal differ in one of the first 63 bits.
module _ (U : List ℕ → Type 0) (valid : (key : List ℕ) → U key → IsKey key)
    (distinct : (key other : List ℕ) → U key → U other → (key ≡ other) ⊎ Apart key other) where
  -- A tree of the peer that keeps the invariant and has only these keys.
  unfoldable pub Holds : Option Tree → Type 0
  Holds none = ⊥
  Holds (some t) = IsRoot t × All U (leaves t)

  pub Holds-some :
      (o : Option Tree) → Holds o → (t : Tree) × (o ≡ some t) × IsRoot t × All U (leaves t)
  unfolding Holds
  Holds-some none h = absurd h
  Holds-some (some t) h = (t, refl, h.0, h.1)

  fresh :
      (key : List ℕ) (xs : List (List ℕ))
      → U key
      → All U xs
      → (Among key xs → ⊥)
      → All (Apart key) xs
  unfolding Among
  fresh key [] u all new = tt
  fresh key (x ∷ xs) u all new = (
    elim (distinct key x u all.0) [ inl e ↦ absurd (new (inl e)) | inr a ↦ a ],
    fresh key xs u all.1 (λ among. new (inr among)),
  )

  add_key-Holds :
      (t : Tree) (key : List ℕ) (context : ℕ) (stored : Bool)
      → U key
      → Holds (some t)
      → (Among key (leaves t) → ⊥)
      → Holds (add_key t key context stored)
  unfolding Holds
  add_key-Holds t key context stored u (tree, all) new =
      let (t', e, tree', ins) =
        add_key-IsRoot t key context stored (valid key u) tree (fresh key (leaves t) u all new) in
      subst Holds (sym e) (tree', All-Inserted U key (leaves t) (leaves t') ins u all)

  bind-Holds :
      (o : Option Tree) (f : Tree → Option Tree)
      → Holds o
      → ((t : Tree) → Holds (some t) → Holds (f t))
      → Holds (o >>= f)
  unfolding Holds
  bind-Holds none f h k = absurd h
  bind-Holds (some t) f h k = k t h

  peer_lacks-Holds :
      (t : Tree) (n : Node) (s : Search)
      → U n.message.key
      → Holds (some t)
      → IsAnswer n.message.key t s
      → Holds (peer_lacks t n false s)
  unfolding peer_lacks IsAnswer
  peer_lacks-Holds t n failed u h a = absurd a
  peer_lacks-Holds t n (found path) u h a =
      if_no Holds (is_stored (subtree_at path t) && false) _ _ (and_false _) h
  peer_lacks-Holds t n missing u h a = add_key-Holds t n.message.key n.context true u h a

  searched :
      (t : Tree) (message : KeyMessage)
      → Holds (some t)
      → message.prefix_len ≡ 64
      → message.min_prefix_len ≤ 64
      → U message.key
      → IsAnswer message.key t (find_message t message)
  unfolding Holds
  searched t message (tree, all) e m u =
      find_message-IsAnswer t message tree e m (valid message.key u)

  missing-Holds :
      (t part : Tree) (except : Option Bool)
      → IsPart U part
      → Holds (some t)
      → Holds (peer_missing_leaf_nodes t part except false)
  unfolding peer_missing_leaf_nodes peer_is_missing IsPart
  missing-Holds t empty except p h = h
  missing-Holds t (node n left right) except (here, l, r) h =
      elim (Bool-cases (n.message.prefix_len == 64)) [
        | inl e ↦
            let full = (==_iff n.message.prefix_len 64).0 e in
            if_yes Holds (n.message.prefix_len == 64) _ _ e (
              peer_lacks-Holds t n (find_message t n.message) (here full).1 h
                (searched t n.message h full (here full).0 (here full).1))
        | inr e ↦ if_no Holds (n.message.prefix_len == 64) _ _ e (
            bind-Holds _ _
              (if_both Holds (is_kept except false) _ _ (missing-Holds t left none l h) h)
              (λ t' h'.
                if_both Holds (is_kept except true) _ _ (missing-Holds t' right none r h') h'))
      ]

  module _ (message : KeyMessage) (whole : message.prefix_len ≡ 64)
      (begin : message.min_prefix_len ≤ 64) (u : U message.key) where
    added-Holds : (t : Tree) (o : Option Tree) → Holds o → Holds (learnt_tree t (added_tree o))
    unfolding Holds learnt_tree added_tree
    added-Holds t none h = h
    added-Holds t (some t') h = h

    learnt-Holds :
        (t : Tree) (s : Search)
        → Holds (some t)
        → IsAnswer message.key t s
        → Holds (learnt_tree t (add_if_missing t message false s))
    unfolding add_if_missing IsAnswer learnt_tree
    learnt-Holds t failed h a = absurd a
    learnt-Holds t (found path) h a = h
    learnt-Holds t missing h a =
        added-Holds t (add_key t message.key 0 false) (add_key-Holds t message.key 0 false u h a)

    learns-Holds : (t : Tree) → Holds (some t) → Holds (peer_learns_key t message)
    unfolding peer_learns_key add_key_if_missing
    learns-Holds t h =
        if_both Holds (message.prefix_len == 64 && message.stored) _ _
          (if_yes (λ m. Holds (learnt_tree t m)) (message.prefix_len == 64) _ _
            ((==_iff message.prefix_len 64).1 whole)
            (learnt-Holds t (find_message t message) h (searched t message h whole begin u)))
          h

    call-Holds :
        (root start : Tree) (action : Action) (t : Tree)
        → IsPart U root
        → IsAdding message action
        → Holds (some t)
        → Holds (call root start action t)
    unfolding call IsAdding
    call-Holds root start (learn m) t p a h =
        subst (λ x. Holds (peer_learns_key t x)) (sym a) (learns-Holds t h)
    call-Holds root start (missing_leaves path except allow_remove) t p a h =
        subst (λ b. Holds (peer_missing_leaf_nodes t (subtree_at path root) except b)) (sym a)
          (missing-Holds t (subtree_at path root) except (subtree_at-IsPart U path root p) h)
    call-Holds root start (unqueue path) t p a h = h
    call-Holds root start (received_all none) t p a h = h
    call-Holds root start (received_all (some path)) t p a h = absurd a
    call-Holds root start (acknowledged path) t p a h = absurd a
    call-Holds root start uninteresting t p a h = h
    call-Holds root start (queue path head) t p a h = h

    pub calls-Holds :
        (root start : Tree) (actions : List Action) (t : Tree)
        → IsPart U root
        → All (IsAdding message) actions
        → Holds (some t)
        → Holds (calls root start actions t)
    unfolding calls
    calls-Holds root start [] t p all h = h
    calls-Holds root start (action ∷ actions) t p all h =
        bind-Holds (call root start action t) _ (call-Holds root start action t p all.0 h)
          (λ t' h'. calls-Holds root start actions t' p all.1 h')
