-- ===== src/Sync/Tree/Invariant/Sums.antt =====
-- src/sync/sync.c: the key of an inner node after `touch`, and the one that `xor_children` makes
-- for a new node.
use lbard.Prelude.{
  ℕ, ◌≤◌, ◌<◌, List, [], ◌∷◌, ◌++◌, ◌≡◌, refl, sym, ap, ◌∙◌, Bool, true, false, if◌then◌else◌, ◌==◌,
  All, arith, replicate, not, every, holds_below, ◌≢◌,
}
use mathlib.Core.Path.{subst}
use lbard.Sync.Tree.{
  Tree, Node, KeyMessage, empty, node, child_index, xor_bytes, sync_xor, xor_children, touch,
  parent_of, sync_get_bits,
}
use lbard.Sync.Tree.Xor.{IsKey, xor}
use lbard.Sync.Tree.Keys.{xor_bytes-IsKey, child_index-xor_bytes, child_index-xor_bytes_prefix}
use lbard.Sync.Tree.Leaves.{leaves, Inserted, All-Inserted, All-map, parity, parity-Inserted}
use lbard.Sync.Tree.Invariant.{Summary}

-- A node that is touched sums up one key more.
pub touch-Summary :
    (key : List ℕ) (n : Node) (ks ks' : List (List ℕ))
    → IsKey key
    → n.message.prefix_len < 64
    → ((i : ℕ) → i < n.message.prefix_len → child_index i key ≡ child_index i n.message.key)
    → Inserted key ks ks'
    → Summary n ks
    → Summary (touch key n) ks'
unfolding touch sync_xor
touch-Summary key n ks ks' k hp same ins s =
    let p = n.message.prefix_len in
    let new = xor_bytes p 0 key n.message.key in
    let kept : (i : ℕ) → i < p → child_index i new ≡ child_index i key = λ i hi.
      child_index-xor_bytes_prefix p key n.message.key k s.valid i hi (omega arith)
        (λ e. same i hi ∙ e) in
    record {
      valid = xor_bytes-IsKey p key n.message.key k s.valid;
      prefix = λ i hi.
          All-Inserted (λ x. child_index i x ≡ child_index i new) key ks ks' ins (sym (kept i hi))
            (All-map (λ x. child_index i x ≡ child_index i n.message.key)
              (λ x. child_index i x ≡ child_index i new)
              (λ x e. e ∙ sym (same i hi) ∙ sym (kept i hi)) ks (s.prefix i hi));
      sums = λ i hi hk.
          child_index-xor_bytes p key n.message.key k s.valid i hi hk
          ∙ ap (xor (child_index i key)) (s.sums i hi hk)
          ∙ sym (parity-Inserted (child_index i) key ks ks' ins);
    }

-- `sync_xor` of one key after the other.
xor_list : List (List ℕ) → KeyMessage → KeyMessage
xor_list [] dest = dest
xor_list (k ∷ ks) dest = xor_list ks (sync_xor k dest)

xor_list-append :
    (ks ls : List (List ℕ)) (dest : KeyMessage)
    → xor_list (ks ++ ls) dest ≡ xor_list ls (xor_list ks dest)
unfolding xor_list
xor_list-append [] ls dest = refl
xor_list-append (k ∷ ks) ls dest = xor_list-append ks ls (sync_xor k dest)

xor_children_cases :
    (t : Bool) (k : List ℕ) (ks ls : List (List ℕ)) (a dest : KeyMessage)
    → a ≡ xor_list (ks ++ ls) dest
    → (if t then sync_xor k dest else a) ≡ xor_list (if t then k ∷ [] else ks ++ ls) dest
unfolding xor_list
xor_children_cases true k ks ls a dest e = refl
xor_children_cases false k ks ls a dest e = e

xor_children-leaves :
    (t : Tree) (dest : KeyMessage) → xor_children t dest ≡ xor_list (leaves t) dest
unfolding xor_children leaves xor_list
xor_children-leaves empty dest = refl
xor_children-leaves (node n left right) dest =
    xor_children_cases (n.message.prefix_len == 64) n.message.key (leaves left) (leaves right)
      (xor_children right (xor_children left dest)) dest
      (xor_children-leaves right (xor_children left dest)
        ∙ ap (xor_list (leaves right)) (xor_children-leaves left dest)
        ∙ sym (xor_list-append (leaves left) (leaves right) dest))

xor_list-prefix_len :
    (ks : List (List ℕ)) (d : KeyMessage) → (xor_list ks d).prefix_len ≡ d.prefix_len
unfolding xor_list sync_xor
xor_list-prefix_len [] d = refl
xor_list-prefix_len (k ∷ ks) d = xor_list-prefix_len ks (sync_xor k d)

xor_list-min_prefix_len :
    (ks : List (List ℕ)) (d : KeyMessage) → (xor_list ks d).min_prefix_len ≡ d.min_prefix_len
unfolding xor_list sync_xor
xor_list-min_prefix_len [] d = refl
xor_list-min_prefix_len (k ∷ ks) d = xor_list-min_prefix_len ks (sync_xor k d)

xor_list-IsKey :
    (ks : List (List ℕ)) (d : KeyMessage) → All IsKey ks → IsKey d.key → IsKey (xor_list ks d).key
unfolding xor_list sync_xor
xor_list-IsKey [] d h v = v
xor_list-IsKey (k ∷ ks) d h v =
    xor_list-IsKey ks (sync_xor k d) h.1 (xor_bytes-IsKey d.prefix_len k d.key h.0 v)

xor_shift : (a b c : Bool) → xor a (xor b c) ≡ xor (xor b a) c
xor_shift true true true = refl
xor_shift true true false = refl
xor_shift true false c = refl
xor_shift false true c = refl
xor_shift false false c = refl

xor_list-parity :
    (ks : List (List ℕ)) (d : KeyMessage) (i : ℕ)
    → All IsKey ks
    → IsKey d.key
    → d.prefix_len ≤ i
    → i < 64
    → child_index i (xor_list ks d).key ≡ xor (parity (child_index i) ks) (child_index i d.key)
unfolding xor_list sync_xor
xor_list-parity [] d i h v hi hk = refl
xor_list-parity (k ∷ ks) d i h v hi hk =
    xor_list-parity ks (sync_xor k d) i h.1 (xor_bytes-IsKey d.prefix_len k d.key h.0 v) hi hk
    ∙ ap (xor (parity (child_index i) ks))
        (child_index-xor_bytes d.prefix_len k d.key h.0 v i hi hk)
    ∙ xor_shift (parity (child_index i) ks) (child_index i k) (child_index i d.key)

xor_list-kept :
    (ks : List (List ℕ)) (d : KeyMessage) (i : ℕ) (c : Bool)
    → All IsKey ks
    → IsKey d.key
    → i < d.prefix_len
    → i < 64
    → All (λ k. child_index i k ≡ c) ks
    → child_index i d.key ≡ c
    → child_index i (xor_list ks d).key ≡ c
unfolding xor_list sync_xor
xor_list-kept [] d i c h v hi hk all e = e
xor_list-kept (k ∷ ks) d i c h v hi hk all e =
    xor_list-kept ks (sync_xor k d) i c h.1 (xor_bytes-IsKey d.prefix_len k d.key h.0 v) hi hk all.1
      (child_index-xor_bytes_prefix d.prefix_len k d.key h.0 v i hi hk (λ t. all.0 ∙ sym e ∙ t)
        ∙ all.0)

abbrev zeros : List ℕ
zeros = replicate 8 0

zeros-IsKey : IsKey zeros
zeros-IsKey = record { size = refl; bytes = omega arith }

zeros_table : every (λ i. not (child_index i zeros)) 64 ≡ true
unfolding every child_index sync_get_bits
zeros_table = refl

of_not : (b : Bool) → not b ≡ true → b ≡ false
of_not false h = refl
of_not true h = ground arith

child_index-zeros : (i : ℕ) → i < 64 → child_index i zeros ≡ false
child_index-zeros i h =
    of_not (child_index i zeros) (holds_below (λ i. not (child_index i zeros)) i 64 h zeros_table)

xor-false : (a : Bool) → xor a false ≡ a
xor-false true = refl
xor-false false = refl

-- The node that `add_key` makes of an old one sums up the keys of the old one.
module _ (m p : ℕ) (stored : Bool) (t : Tree) (hp : p < 64) (valid : All IsKey (leaves t)) where
  blank : KeyMessage
  blank = record { min_prefix_len = m; stored = stored; prefix_len = p; key = zeros }

  pub parent_of-prefix_len : (parent_of m p stored t).message.prefix_len ≡ p
  unfolding parent_of blank
  parent_of-prefix_len =
      ap (λ d. d.prefix_len) (xor_children-leaves t blank) ∙ xor_list-prefix_len (leaves t) blank

  pub parent_of-min_prefix_len : (parent_of m p stored t).message.min_prefix_len ≡ m
  unfolding parent_of blank
  parent_of-min_prefix_len =
      ap (λ d. d.min_prefix_len) (xor_children-leaves t blank)
      ∙ xor_list-min_prefix_len (leaves t) blank

  parent_of-key : (parent_of m p stored t).message.key ≡ (xor_list (leaves t) blank).key
  unfolding parent_of blank
  parent_of-key = ap (λ d. d.key) (xor_children-leaves t blank)

  first_prefix :
      (ks : List (List ℕ)) (i : ℕ) (c : Bool)
      → All IsKey ks
      → i < p
      → All (λ k. child_index i k ≡ c) ks
      → ks ≢ []
      → child_index i (xor_list ks blank).key ≡ c
  unfolding xor_list sync_xor blank
  first_prefix [] i c v hi all ne = absurd (ne refl)
  first_prefix (k ∷ ks) i c v hi all ne =
      xor_list-kept ks (sync_xor k blank) i c v.1 (xor_bytes-IsKey p k zeros v.0 zeros-IsKey) hi
        (omega arith) all.1
        (child_index-xor_bytes_prefix p k zeros v.0 zeros-IsKey i hi (omega arith)
            (λ e. absurd (ground (arith, child_index-zeros i)))
          ∙ all.0)

  module _ (c : ℕ → Bool) (all : (i : ℕ) → i < p → All (λ k. child_index i k ≡ c i) (leaves t))
      (ne : leaves t ≢ []) where
    pub parent_of-prefix :
        (i : ℕ) → i < p → child_index i (parent_of m p stored t).message.key ≡ c i
    parent_of-prefix i hi =
        ap (child_index i) parent_of-key ∙ first_prefix (leaves t) i (c i) valid hi (all i hi) ne

    pub parent_of-Summary : Summary (parent_of m p stored t) (leaves t)
    unfolding blank
    parent_of-Summary = record {
      valid = subst IsKey (sym parent_of-key) (xor_list-IsKey (leaves t) blank valid zeros-IsKey);
      prefix = λ i hi.
          let hj : i < p = omega (arith, parent_of-prefix_len) in
          All-map (λ x. child_index i x ≡ c i)
            (λ x. child_index i x ≡ child_index i (parent_of m p stored t).message.key)
            (λ x e. e ∙ sym (parent_of-prefix i hj)) (leaves t) (all i hj);
      sums = λ i hi hk.
          ap (child_index i) parent_of-key
          ∙ xor_list-parity (leaves t) blank i valid zeros-IsKey
              (omega (arith, parent_of-prefix_len)) hk
          ∙ ap (xor (parity (child_index i) (leaves t))) (child_index-zeros i hk)
          ∙ xor-false (parity (child_index i) (leaves t));
    }
