-- ===== src/Sync/Tree/Remove/Members.antt =====
-- A key that is one of the keys of a tree of src/sync/sync.c.
use lbard.Prelude.{
  ℕ, ◌<◌, List, [], ◌∷◌, ◌++◌, ◌≡◌, ◌⊎◌, inl, inr, refl, sym, ap, ◌∙◌, Bool, true, false, All,
  arith,
}
use mathlib.Core.Path.{subst}
use lbard.Sync.Tree.{Tree, Node, child_index, child, touch, sync_xor, xor_bytes}
use lbard.Sync.Tree.Xor.{IsKey, xor}
use lbard.Sync.Tree.Keys.{xor_bytes-IsKey, child_index-xor_bytes, child_index-xor_bytes_prefix}
use lbard.Sync.Tree.Leaves.{leaves, Inserted, All-Inserted_old, All-map, parity, parity-Inserted}
use lbard.Sync.Tree.Invariant.{Summary}

unfoldable pub Among : List ℕ → List (List ℕ) → Type 0
Among key [] = ⊥
Among key (x ∷ xs) = (key ≡ x) ⊎ Among key xs

pub Among-append :
    (key : List ℕ) (xs ys : List (List ℕ)) → Among key (xs ++ ys) → Among key xs ⊎ Among key ys
unfolding Among
Among-append key [] ys h = inr h
Among-append key (x ∷ xs) ys (inl e) = inl (inl e)
Among-append key (x ∷ xs) ys (inr h) = elim (Among-append key xs ys h) [
  | inl a ↦ inl (inr a)
  | inr b ↦ inr b
]

pub All-Among :
    (P : List ℕ → Type 0) (key : List ℕ) (xs : List (List ℕ)) → All P xs → Among key xs → P key
unfolding Among
All-Among P key [] all h = absurd h
All-Among P key (x ∷ xs) all (inl e) = subst P (sym e) all.0
All-Among P key (x ∷ xs) all (inr h) = All-Among P key xs all.1 h

-- The keys of one child of a node differ from those of the other.
pub Among-child :
    (key : List ℕ) (p : ℕ) (left right : Tree)
    → All (λ k. child_index p k ≡ false) (leaves left)
    → All (λ k. child_index p k ≡ true) (leaves right)
    → Among key (leaves left ++ leaves right)
    → Among key (leaves (child (child_index p key) left right))
unfolding child
Among-child key p left right hl hr h = elim (Among-append key (leaves left) (leaves right) h) [
  | inl a ↦
      subst (λ c. Among key (leaves (child c left right)))
        (sym (All-Among (λ k. child_index p k ≡ false) key (leaves left) hl a)) a
  | inr b ↦
      subst (λ c. Among key (leaves (child c left right)))
        (sym (All-Among (λ k. child_index p k ≡ true) key (leaves right) hr b)) b
]

xor_cancel : (a b : Bool) → xor a (xor a b) ≡ b
xor_cancel true true = refl
xor_cancel true false = refl
xor_cancel false b = refl

-- A node that is touched sums up one key less, if it summed up the key.
pub touch-Summary_less :
    (key : List ℕ) (n : Node) (ks ks' : List (List ℕ))
    → IsKey key
    → n.message.prefix_len < 64
    → ((i : ℕ) → i < n.message.prefix_len → child_index i key ≡ child_index i n.message.key)
    → Inserted key ks' ks
    → Summary n ks
    → Summary (touch key n) ks'
unfolding touch sync_xor
touch-Summary_less key n ks ks' k hp same ins s =
    let p = n.message.prefix_len in
    let new = xor_bytes p 0 key n.message.key in
    let kept : (i : ℕ) → i < p → child_index i n.message.key ≡ child_index i new = λ i hi.
      sym (same i hi)
      ∙ sym (
          child_index-xor_bytes_prefix p key n.message.key k s.valid i hi (omega arith)
            (λ e. same i hi ∙ e)) in
    record {
      valid = xor_bytes-IsKey p key n.message.key k s.valid;
      prefix = λ i hi.
          All-map (λ x. child_index i x ≡ child_index i n.message.key)
            (λ x. child_index i x ≡ child_index i new) (λ x e. e ∙ kept i hi) ks'
            (All-Inserted_old (λ x. child_index i x ≡ child_index i n.message.key) key ks' ks ins
              (s.prefix i hi));
      sums = λ i hi hk.
          child_index-xor_bytes p key n.message.key k s.valid i hi hk
          ∙ ap (xor (child_index i key)) (s.sums i hi hk)
          ∙ ap (xor (child_index i key)) (parity-Inserted (child_index i) key ks' ks ins)
          ∙ xor_cancel (child_index i key) (parity (child_index i) ks');
    }
