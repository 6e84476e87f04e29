-- ===== src/Rhizome/Rank/Kinds.antt =====
-- src/rhizome/rank.c: the kinds of bundles that count, told from the texts themselves.
use lbard.Prelude.{
  ℕ, zero, suc, ◌+◌, List, [], ◌∷◌, ◌≡◌, refl, sym, ap, ap₂, ◌∙◌, Option, none, some, Bool, true,
  false, if◌then◌else◌, arith, ◌⊎◌, inl, inr, ◌↔◌, ◌==◌, ◌&&◌, ◌||◌, ==_iff, take, get_elem?, map,
}
use mathlib.Core.Option
use lbard.Rhizome.Rank.{to_lower, same_text, is_service, meshms, service_class, is_addressed}

-- The service of a bundle is "meshms" and a digit, in letters of either case.
unfoldable pub IsMeshms : ℕ → List ℕ → Type 0
IsMeshms digit service = map to_lower service ≡ meshms digit

-- The first 16 digits of a recipient are those of a peer.
pub IsAddressed : List (List ℕ) → Option (List ℕ) → Type 0
IsAddressed peers recipient =
    (text : List ℕ) × (i : ℕ) × (sid_prefix : List ℕ) × (recipient ≡ some text)
    × (get_elem? peers i ≡ some sid_prefix)
    × (take 16 text ≡ take 16 sid_prefix)

and_left : (a b : Bool) → (a && b) ≡ true → a ≡ true
and_left a b h = ground arith

and_right : (a b : Bool) → (a && b) ≡ true → b ≡ true
and_right a b h = ground arith

and_both : (a b : Bool) → a ≡ true → b ≡ true → (a && b) ≡ true
and_both a b h k = ground arith

not_true : (b : Bool) → ¬ (b ≡ true) → b ≡ false
not_true true h = absurd (h refl)
not_true false h = refl

same_truth : (a b : Bool) → (a ≡ true → b ≡ true) → (b ≡ true → a ≡ true) → a ≡ b
same_truth true b f g = sym (f refl)
same_truth false true f g = g refl
same_truth false false f g = refl

same_text-eq : (s t : List ℕ) → same_text s t ≡ true → s ≡ t
unfolding same_text
same_text-eq [] [] h = refl
same_text-eq [] (b ∷ t) h = absurd cc
same_text-eq (a ∷ s) [] h = absurd cc
same_text-eq (a ∷ s) (b ∷ t) h =
    ap₂ (λ x l. x ∷ l) ((==_iff a b).0 (and_left _ _ h)) (same_text-eq s t (and_right _ _ h))

same_text_refl : (s : List ℕ) → same_text s s ≡ true
unfolding same_text
same_text_refl [] = refl
same_text_refl (a ∷ s) = and_both _ _ ((==_iff a a).1 refl) (same_text_refl s)

is_service-lower :
    (name service : List ℕ) → is_service name service ≡ same_text name (map to_lower service)
unfolding is_service same_text
is_service-lower name [] = refl
is_service-lower [] (c ∷ service) = refl
is_service-lower (a ∷ name) (c ∷ service) =
    ap (λ t. a == to_lower c && t) (is_service-lower name service)

pub is_service-IsMeshms :
    (digit : ℕ) (service : List ℕ)
    → is_service (meshms digit) service ≡ true
    → IsMeshms digit service
unfolding IsMeshms
is_service-IsMeshms digit service h =
    sym (same_text-eq _ _ (sym (is_service-lower (meshms digit) service) ∙ h))

pub IsMeshms-is_service :
    (digit : ℕ) (service : List ℕ)
    → IsMeshms digit service
    → is_service (meshms digit) service ≡ true
unfolding IsMeshms
IsMeshms-is_service digit service h =
    is_service-lower (meshms digit) service
    ∙ ap (same_text (meshms digit)) h
    ∙ same_text_refl (meshms digit)

pub not_meshms :
    (digit : ℕ) (service : List ℕ)
    → ¬ IsMeshms digit service
    → is_service (meshms digit) service ≡ false
not_meshms digit service h = not_true _ (λ e. h (is_service-IsMeshms digit service e))

pub same_kind :
    (digit : ℕ) (s t : List ℕ)
    → (IsMeshms digit s ↔ IsMeshms digit t)
    → is_service (meshms digit) s ≡ is_service (meshms digit) t
same_kind digit s t h =
    same_truth _ _ (λ e. IsMeshms-is_service digit t (h.0 (is_service-IsMeshms digit s e)))
      (λ e. IsMeshms-is_service digit s (h.1 (is_service-IsMeshms digit t e)))

abbrev pub class_of : Bool → Bool → ℕ
class_of one two = (if one then 1 else 0) + (if two then 2 else 0)

pub service_class-is :
    (s : List ℕ) → service_class s ≡ class_of (is_service (meshms 49) s) (is_service (meshms 50) s)
unfolding service_class
service_class-is s = refl

or_cases : (a b : Bool) → (a || b) ≡ true → (a ≡ true) ⊎ (b ≡ true)
or_cases true b h = inl refl
or_cases false b h = inr h

or_right : (a b : Bool) → b ≡ true → (a || b) ≡ true
or_right true b h = refl
or_right false b h = h

is_addressed-IsAddressed :
    (peers : List (List ℕ)) (text : List ℕ)
    → is_addressed peers (some text) ≡ true
    → IsAddressed peers (some text)
unfolding is_addressed IsAddressed
is_addressed-IsAddressed [] text h = absurd cc
is_addressed-IsAddressed (p ∷ peers) text h =
    elim (or_cases (same_text (take 16 text) (take 16 p)) (is_addressed peers (some text)) h) [
      | inl e ↦ (text, 0, p, refl, refl, same_text-eq _ _ e)
      | inr e ↦
          let (t, i, prefix, a, b, c) = is_addressed-IsAddressed peers text e in
          (t, suc i, prefix, a, b, c)
    ]

found_at :
    (peers : List (List ℕ)) (text : List ℕ) (i : ℕ) (prefix : List ℕ)
    → get_elem? peers i ≡ some prefix
    → take 16 text ≡ take 16 prefix
    → is_addressed peers (some text) ≡ true
unfolding is_addressed
found_at [] text i prefix e same = absurd cc
found_at (p ∷ peers) text zero prefix e same =
    ap (λ t. t || is_addressed peers (some text))
      (ap (same_text (take 16 text)) (ap (take 16) (Option.some-injective p prefix e) ∙ sym same)
        ∙ same_text_refl (take 16 text))
found_at (p ∷ peers) text (suc i) prefix e same = or_right _ _ (found_at peers text i prefix e same)

pub IsAddressed-is_addressed :
    (peers : List (List ℕ)) (q : Option (List ℕ))
    → IsAddressed peers q
    → is_addressed peers q ≡ true
unfolding IsAddressed
IsAddressed-is_addressed peers q (text, i, prefix, a, b, c) =
    ap (is_addressed peers) a ∙ found_at peers text i prefix b c

pub not_addressed :
    (peers : List (List ℕ)) (r : Option (List ℕ))
    → ¬ IsAddressed peers r
    → is_addressed peers r ≡ false
not_addressed peers none h = unfold is_addressed in refl
not_addressed peers (some text) h = not_true _ (λ e. h (is_addressed-IsAddressed peers text e))
