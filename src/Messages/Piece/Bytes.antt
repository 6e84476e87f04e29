-- ===== src/Messages/Piece/Bytes.antt =====
-- Numbers as bytes, and slices of lists that are put together.
use lbard.Prelude.{
  ℕ, zero, suc, ◌+◌, ◌*◌, ◌/◌, ◌^◌, ◌<◌, List, [], ◌∷◌, ◌++◌, ◌≡◌, refl, ap, ◌∙◌, arith, take, drop,
  length,
}
use lbard.Messages.Piece.{le_bytes, le_value}

pub le_value-le_bytes : (count v : ℕ) → v < 256 ^ count → le_value (le_bytes count v) ≡ v
unfolding le_value le_bytes
le_value-le_bytes zero v h = omega arith
le_value-le_bytes (suc count) v h =
    omega (arith, pow_more count, le_value-le_bytes count (v / 256) (omega (arith, pow_more count)))
  where
    pow_more : (k : ℕ) → 256 ^ suc k ≡ 256 * 256 ^ k
    pow_more k = omega arith

pub take-append : (n : ℕ) (xs ys : List ℕ) → length xs ≡ n → take n (xs ++ ys) ≡ xs
take-append zero [] ys h = refl
take-append zero (x ∷ xs) ys h = absurd (omega arith)
take-append (suc n) [] ys h = absurd (omega arith)
take-append (suc n) (x ∷ xs) ys h = ap (λ l. x ∷ l) (take-append n xs ys (omega arith))

suc_add : (n k : ℕ) → suc n + k ≡ suc (n + k)
suc_add n k = omega arith

pub drop-append : (n k : ℕ) (xs ys : List ℕ) → length xs ≡ n → drop (n + k) (xs ++ ys) ≡ drop k ys
drop-append n k [] ys h = ap (λ m. drop m ys) (omega arith)
drop-append zero k (x ∷ xs) ys h = absurd (omega arith)
drop-append (suc n) k (x ∷ xs) ys h = drop_suc n k x xs ys (drop-append n k xs ys (omega arith))
  where
    drop_suc :
        (n k x : ℕ) (xs ys : List ℕ)
        → drop (n + k) (xs ++ ys) ≡ drop k ys
        → drop (suc n + k) (x ∷ (xs ++ ys)) ≡ drop k ys
    drop_suc n k x xs ys e = ap (λ m. drop m (x ∷ (xs ++ ys))) (suc_add n k) ∙ e
