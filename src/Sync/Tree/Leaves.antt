-- ===== src/Sync/Tree/Leaves.antt =====
-- The keys of a tree of src/sync/sync.c from left to right, and lists that differ by one key.
use lbard.Prelude.{
  ℕ, List, [], ◌∷◌, ◌++◌, ◌≡◌, refl, sym, ap, ◌∙◌, Bool, true, false, ◌==◌, if◌then◌else◌, All,
}
use mathlib.Core.Path.{subst}
use lbard.Sync.Tree.{Tree, empty, node, key_len_bits}
use lbard.Sync.Tree.Xor.{xor}

-- The keys of the leaves.
unfoldable pub leaves : Tree → List (List ℕ)
leaves empty = []
leaves (node n left right) =
    if n.message.prefix_len == key_len_bits then n.message.key ∷ [] else leaves left ++ leaves right

-- The second list is the first with a key put in.
abbrev pub Inserted : List ℕ → List (List ℕ) → List (List ℕ) → Type 0
Inserted key xs ys =
    (before : List (List ℕ)) × (after : List (List ℕ)) × (xs ≡ before ++ after)
    × (ys ≡ before ++ key ∷ after)

append_assoc : (xs ys zs : List (List ℕ)) → (xs ++ ys) ++ zs ≡ xs ++ (ys ++ zs)
append_assoc [] ys zs = refl
append_assoc (x ∷ xs) ys zs = ap (λ l. x ∷ l) (append_assoc xs ys zs)

pub Inserted_left :
    (key : List ℕ) (xs ys zs : List (List ℕ))
    → Inserted key xs ys
    → Inserted key (xs ++ zs) (ys ++ zs)
Inserted_left key xs ys zs (b, a, p, q) = (
  b,
  a ++ zs,
  ap (λ l. l ++ zs) p ∙ append_assoc b a zs,
  ap (λ l. l ++ zs) q ∙ append_assoc b (key ∷ a) zs,
)

pub Inserted_right :
    (key : List ℕ) (xs ys zs : List (List ℕ))
    → Inserted key xs ys
    → Inserted key (zs ++ xs) (zs ++ ys)
Inserted_right key xs ys zs (b, a, p, q) = (
  zs ++ b,
  a,
  ap (λ l. zs ++ l) p ∙ sym (append_assoc zs b a),
  ap (λ l. zs ++ l) q ∙ sym (append_assoc zs b (key ∷ a)),
)

module _ {κ} (P : List ℕ → Type κ) where
  pub All-append : (xs ys : List (List ℕ)) → All P xs → All P ys → All P (xs ++ ys)
  All-append [] ys h k = k
  All-append (x ∷ xs) ys h k = (h.0, All-append xs ys h.1 k)

  pub All-left : (xs ys : List (List ℕ)) → All P (xs ++ ys) → All P xs
  All-left [] ys h = tt
  All-left (x ∷ xs) ys h = (h.0, All-left xs ys h.1)

  pub All-right : (xs ys : List (List ℕ)) → All P (xs ++ ys) → All P ys
  All-right [] ys h = h
  All-right (x ∷ xs) ys h = All-right xs ys h.1

  pub All-cast : {xs ys : List (List ℕ)} → xs ≡ ys → All P xs → All P ys
  All-cast e h = subst (All P) e h

  pub All-Inserted :
      (key : List ℕ) (xs ys : List (List ℕ)) → Inserted key xs ys → P key → All P xs → All P ys
  All-Inserted key xs ys (b, a, p, q) h all =
      All-cast (sym q)
        (All-append b (key ∷ a) (All-left b a (All-cast p all)) (h, All-right b a (All-cast p all)))

  pub All-Inserted_old :
      (key : List ℕ) (xs ys : List (List ℕ)) → Inserted key xs ys → All P ys → All P xs
  All-Inserted_old key xs ys (b, a, p, q) all = All-cast (sym p) (
      All-append b a (All-left b (key ∷ a) (All-cast q all))
        (All-right b (key ∷ a) (All-cast q all)).1)

  pub All-map {μ} :
      (Q : List ℕ → Type μ)
      → ((k : List ℕ) → P k → Q k)
      → (xs : List (List ℕ)) → All P xs
      → All Q xs
  All-map Q f [] h = tt
  All-map Q f (x ∷ xs) h = (f x h.0, All-map Q f xs h.1)

-- The exclusive or of a test over a list.
abbrev pub parity : (List ℕ → Bool) → List (List ℕ) → Bool
parity f [] = false
parity f (x ∷ xs) = xor (f x) (parity f xs)

xor_swap : (a b c : Bool) → xor a (xor b c) ≡ xor b (xor a c)
xor_swap true true c = refl
xor_swap true false c = refl
xor_swap false b c = refl

parity-cons :
    (f : List ℕ → Bool) (key : List ℕ) (b a : List (List ℕ))
    → parity f (b ++ key ∷ a) ≡ xor (f key) (parity f (b ++ a))
parity-cons f key [] a = refl
parity-cons f key (x ∷ b) a =
    ap (xor (f x)) (parity-cons f key b a) ∙ xor_swap (f x) (f key) (parity f (b ++ a))

pub parity-Inserted :
    (f : List ℕ → Bool) (key : List ℕ) (xs ys : List (List ℕ))
    → Inserted key xs ys
    → parity f ys ≡ xor (f key) (parity f xs)
parity-Inserted f key xs ys (b, a, p, q) =
    ap (parity f) q ∙ parity-cons f key b a ∙ ap (λ l. xor (f key) (parity f l)) (sym p)

pub Inserted_cast :
    (key : List ℕ) (xs ys xs' ys' : List (List ℕ))
    → xs' ≡ xs
    → ys' ≡ ys
    → Inserted key xs ys
    → Inserted key xs' ys'
Inserted_cast key xs ys xs' ys' e f (b, a, p, q) = (b, a, e ∙ p, f ∙ q)
