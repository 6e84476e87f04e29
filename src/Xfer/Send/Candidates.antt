-- ===== src/Xfer/Send/Candidates.antt =====
-- The candidates that `peer_update_send_point` chooses from.
use lbard.Prelude.{
  ℕ, zero, suc, ◌+◌, ◌-◌, ◌*◌, ◌/◌, ◌%◌, ◌<◌, List, [], ◌∷◌, ◌≡◌, ◌∙◌, Bool, true, false, not, ◌==◌,
  ◌&&◌, arith, ◌≢◌, All, if◌then◌else◌, ap, length, get_or, take, length-take, inl, inr, Bool-cases,
  ℕ_discrete,
}
use lbard.Xfer.Send.{bit_limit, collect, max_bit, send_candidates}

pub All-get_or :
    (P : ℕ → Type 0) (xs : List ℕ) (j d : ℕ) → All P xs → j < length xs → P (get_or xs j d)
All-get_or P [] j d h k = absurd (omega arith)
All-get_or P (x ∷ xs) zero d h k = h.0
All-get_or P (x ∷ xs) (suc j) d h k = All-get_or P xs j d h.1 (omega arith)

All-take : (P : ℕ → Type 0) (n : ℕ) (xs : List ℕ) → All P xs → All P (take n xs)
All-take P zero xs h = tt
All-take P (suc n) [] h = tt
All-take P (suc n) (x ∷ xs) h = (h.0, All-take P n xs h.1)

All-weaken : (P Q : ℕ → Type 0) (xs : List ℕ) → ((x : ℕ) → P x → Q x) → All P xs → All Q xs
All-weaken P Q [] f h = tt
All-weaken P Q (x ∷ xs) f h = (f x h.0, All-weaken P Q xs f h.1)

All-if :
    (P : ℕ → Type 0) (b : Bool) (xs ys : List ℕ)
    → All P xs
    → All P ys
    → All P (if b then xs else ys)
All-if P true xs ys h k = h
All-if P false xs ys h k = k

-- A number below a bound that passes a test.
abbrev pub Passes : (ℕ → Bool) → ℕ → ℕ → Type 0
Passes test bound v = (test v ≡ true) × (v < bound)

collect_one :
    (test : ℕ → Bool) (i bound : ℕ) (rest : List ℕ)
    → i < bound
    → All (Passes test bound) rest
    → All (Passes test bound) (if test i then i ∷ rest else rest)
collect_one test i bound rest h k = elim (Bool-cases (test i)) [
  | inl e ↦ rw (e) ((e, h), k)
  | inr e ↦ rw (e) k
]

step_more : (step k : ℕ) → step * suc k ≡ step + step * k
step_more step k = omega arith

-- What is collected passes the test.
pub collect-Passes :
    (test : ℕ → Bool) (step i count bound : ℕ)
    → ((k : ℕ) → k < count → i + step * k < bound)
    → All (Passes test bound) (collect test step i count)
unfolding collect
collect-Passes test step i zero bound h = tt
collect-Passes test step i (suc count) bound h =
    collect_one test i bound (collect test step (i + step) count) (omega (arith, h 0 (omega arith)))
      (collect-Passes test step (i + step) count bound
        (λ k p. omega (arith, h (suc k) (omega arith), step_more step k)))

collect_some :
    (test : ℕ → Bool) (i count k : ℕ)
    → k < count
    → test (i + k) ≡ true
    → 0 < length (collect test 1 i count)
unfolding collect
collect_some test i zero k h t = absurd (omega arith)
collect_some test i (suc count) zero h t = ground arith
collect_some test i (suc count) (suc k) h t = ground (arith, collect_some test (i + 1) count k)

and_left : (a b : Bool) → (a && b) ≡ true → a ≡ true
and_left a b h = ground arith

some_of : (xs ys : List ℕ) → 0 < length xs → 0 < length (if length ys == 0 then xs else ys)
some_of xs ys h = ground arith

-- A candidate is a number below the bound whose bit is clear.
pub send_candidates-Passes :
    (is_set : ℕ → Bool) (offset bound : ℕ)
    → All (Passes (λ i. not (is_set i)) bound) (send_candidates is_set offset bound)
unfolding send_candidates
send_candidates-Passes is_set offset bound =
    All-if (Passes (λ i. not (is_set i)) bound) (length (take 32 even) == 0) (take 32 all)
      (take 32 even)
      (All-take _ 32 all
        (collect-Passes (λ i. not (is_set i)) 1 0 bound bound (λ k p. omega arith)))
      (All-take _ 32 even (
        All-weaken (Passes is_even bound) _ even (λ x h. (and_left _ _ h.0, h.1))
          (collect-Passes is_even 2 (offset / 64 % 2) ((bound - offset / 64 % 2 + 1) / 2) bound
            (λ k p. omega arith))))
  where
    is_even : ℕ → Bool
    is_even i = not (is_set i) && not (i + 1 == bound)

    even : List ℕ
    even = collect is_even 2 (offset / 64 % 2) ((bound - offset / 64 % 2 + 1) / 2)

    all : List ℕ
    all = collect (λ i. not (is_set i)) 1 0 bound

zero_add : (i : ℕ) → 0 + i ≡ i
zero_add i = omega arith

pub send_candidates_some :
    (is_set : ℕ → Bool) (offset bound i : ℕ)
    → i < bound
    → is_set i ≡ false
    → 0 < length (send_candidates is_set offset bound)
unfolding send_candidates
send_candidates_some is_set offset bound i h e = some_of (take 32 _) (take 32 _) (
    omega (
      arith,
      length-take 32 (collect (λ i. not (is_set i)) 1 0 bound),
      collect_some (λ i. not (is_set i)) 0 bound i h
          (ap (λ v. not (is_set v)) (zero_add i) ∙ ap not e),
    ))

pub max_bit-lt : (body_len offset k : ℕ) → k < max_bit body_len offset → offset + k * 64 < body_len
unfolding max_bit
max_bit-lt body_len offset k h = ground arith

-- A block that begins in the body has a bit that is looked at, below the highest bit of a bitmap.
pub lt-max_bit :
    (body_len offset k : ℕ)
    → offset + k * 64 < body_len
    → k + 1 < bit_limit
    → k < max_bit body_len offset
unfolding max_bit
lt-max_bit body_len offset k h q = ground arith

pub not-true : (b : Bool) → not b ≡ true → b ≡ false
not-true b h = ground arith

pub collect_none :
    (is_set : ℕ → Bool) (count k : ℕ)
    → k < count
    → length (collect (λ i. not (is_set i)) 1 0 count) ≡ 0
    → is_set k ≡ true
collect_none is_set count k h e = elim (Bool-cases (is_set k)) [
  | inl t ↦ t
  | inr f ↦ absurd (
      omega (
        arith,
        collect_some (λ i. not (is_set i)) 0 count k h
            (ap (λ v. not (is_set v)) (zero_add k) ∙ ap not f),
      ))
]

true-false : (b : Bool) → b ≡ true → b ≢ false
true-false b h k = ground arith

pub none_left :
    (is_set : ℕ → Bool) (offset bound : ℕ)
    → ((i : ℕ) → i < bound → is_set i ≡ true)
    → length (send_candidates is_set offset bound) ≡ 0
none_left is_set offset bound h = elim (ℕ_discrete (length list) 0) [
  | yes e ↦ e
  | no e ↦ absurd (
      true-false (is_set (get_or list 0 0)) (h (get_or list 0 0) (good e).1)
        (not-true _ (good e).0))
]
  where
    list : List ℕ
    list = send_candidates is_set offset bound

    good : length list ≢ 0 → Passes (λ i. not (is_set i)) bound (get_or list 0 0)
    good e = All-get_or _ list 0 0 (send_candidates-Passes is_set offset bound) (omega arith)
