-- ===== src/Rhizome/Rank/Order.antt =====
-- `calculate_bundle_intrinsic_priority`: what counts before what.
use lbard.Prelude.{
  ℕ, ◌+◌, ◌*◌, ◌^◌, ◌≤◌, ◌<◌, List, ◌≡◌, refl, Option, Bool, true, false, if◌then◌else◌, arith, ◌⊎◌,
  inl, inr, ◌↔◌,
}
use lbard.Rhizome.Rank.{
  length_to_priority, service_class, is_addressed, penalise, intrinsic_priority,
}
use lbard.Rhizome.Rank.Kinds.{
  IsMeshms, IsAddressed, IsMeshms-is_service, not_meshms, same_kind, service_class-is,
  IsAddressed-is_addressed, not_addressed,
}
use lbard.Rhizome.Rank.Length.{length_to_priority_antitone, length_to_priority-lt}

-- What counts before the length: the kind of MeshMS message first, then whether the bundle is
-- addressed to a peer.
unfoldable pub standing : List (List ℕ) → List ℕ → Option (List ℕ) → ℕ
standing peers service recipient =
    2 * service_class service + (if is_addressed peers recipient then 1 else 0)

sum_lem :
    (a c : ℕ) (b : Bool)
    → a + 0x4000 * c + (if b then 0x2000 else 0) ≡ a + 0x2000 * (2 * c + (if b then 1 else 0))
sum_lem a c true = omega arith
sum_lem a c false = omega arith

no_failures :
    (peers : List (List ℕ)) (l : ℕ) (s : List ℕ) (r : Option (List ℕ))
    → intrinsic_priority false peers l s r 0 ≡ length_to_priority l + 0x2000 * standing peers s r
unfolding intrinsic_priority penalise standing
no_failures peers l s r = sum_lem (length_to_priority l) (service_class s) (is_addressed peers r)

-- Bundle `t` for `q` counts before bundle `s` for `r`: it is a MeshMS2 message and the other is not;
-- or it is a MeshMS1 message and the other is neither; or they are of one kind, and only it is
-- addressed to a peer.
unfoldable pub CountsBefore :
    List (List ℕ) → List ℕ → Option (List ℕ) → List ℕ → Option (List ℕ) → Type 0
CountsBefore peers t q s r =
    (IsMeshms 50 t × ¬ IsMeshms 50 s)
    ⊎ ((IsMeshms 49 t × ¬ IsMeshms 49 s × ¬ IsMeshms 50 s)
        ⊎ ((IsMeshms 49 s ↔ IsMeshms 49 t)
            × (IsMeshms 50 s ↔ IsMeshms 50 t)
            × IsAddressed peers q
            × ¬ IsAddressed peers r))

standing-lt :
    (peers : List (List ℕ)) (s t : List ℕ) (r q : Option (List ℕ))
    → service_class s < service_class t
    → standing peers s r < standing peers t q
unfolding standing
standing-lt peers s t r q h = ground arith

standing-CountsBefore :
    (peers : List (List ℕ)) (s t : List ℕ) (r q : Option (List ℕ))
    → CountsBefore peers t q s r
    → standing peers s r < standing peers t q
unfolding CountsBefore
standing-CountsBefore peers s t r q (inl (two, other)) = standing-lt peers s t r q (
    ground (
      arith,
      service_class-is s,
      service_class-is t,
      IsMeshms-is_service 50 t two,
      not_meshms 50 s other,
    ))
standing-CountsBefore peers s t r q (inr (inl (one, no_one, no_two))) = standing-lt peers s t r q (
    ground (
      arith,
      service_class-is s,
      service_class-is t,
      IsMeshms-is_service 49 t one,
      not_meshms 49 s no_one,
      not_meshms 50 s no_two,
    ))
standing-CountsBefore peers s t r q (inr (inr (one, two, addressed, other))) =
    unfold standing in
    ground (
      arith,
      service_class-is s,
      service_class-is t,
      same_kind 49 s t one,
      same_kind 50 s t two,
      IsAddressed-is_addressed peers q addressed,
      not_addressed peers r other,
    )

-- Without failed inserts, and for lengths below 2 ^ 30, a bundle that counts before another one has
-- the higher priority, whichever is the longer: a MeshMS2 message before any other bundle, a
-- MeshMS1 message before what is no MeshMS message, and of two bundles of one kind the one that is
-- addressed to a peer, when the other is not.
pub intrinsic_priority-CountsBefore :
    (peers : List (List ℕ)) (l m : ℕ) (s t : List ℕ) (r q : Option (List ℕ))
    → l < 2 ^ 30
    → m < 2 ^ 30
    → CountsBefore peers t q s r
    → intrinsic_priority false peers l s r 0 < intrinsic_priority false peers m t q 0
intrinsic_priority-CountsBefore peers l m s t r q small short h = omega (
  arith,
  no_failures peers l s r,
  no_failures peers m t q,
  length_to_priority-lt l,
  standing-CountsBefore peers s t r q h,
)

-- Without failed inserts, of two bundles of the same standing and lengths below 2 ^ 30, the shorter
-- has at least the priority of the longer.
pub intrinsic_priority-length :
    (peers : List (List ℕ)) (l m : ℕ) (s t : List ℕ) (r q : Option (List ℕ))
    → standing peers s r ≡ standing peers t q
    → l ≤ m
    → m < 2 ^ 30
    → intrinsic_priority false peers m t q 0 ≤ intrinsic_priority false peers l s r 0
intrinsic_priority-length peers l m s t r q e h k =
    omega
      (arith, no_failures peers l s r, no_failures peers m t q, length_to_priority_antitone l m h k)

one_failure :
    (peers : List (List ℕ)) (l : ℕ) (s : List ℕ) (r : Option (List ℕ))
    → intrinsic_priority false peers l s r 1 ≡ penalise 1 (intrinsic_priority false peers l s r 0)
unfolding intrinsic_priority penalise
one_failure peers l s r = refl

-- After one failed insert each, a MeshMS2 bundle that is not addressed to a peer has a lower
-- priority than a bundle of the standing of MeshMS1, whatever the lengths.
pub intrinsic_priority_failed :
    (peers : List (List ℕ)) (l m : ℕ) (s t : List ℕ) (r q : Option (List ℕ))
    → standing peers s r ≡ 4
    → standing peers t q ≡ 2
    → intrinsic_priority false peers l s r 1 < intrinsic_priority false peers m t q 1
unfolding penalise
intrinsic_priority_failed peers l m s t r q e f = ground (
  arith,
  one_failure peers l s r,
  one_failure peers m t q,
  no_failures peers l s r,
  no_failures peers m t q,
  length_to_priority-lt l,
  length_to_priority-lt m,
)
