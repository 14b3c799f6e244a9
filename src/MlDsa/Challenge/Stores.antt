-- ===== src/MlDsa/Challenge/Stores.antt =====
-- Writing one element of an array.
use karudeb.Base.{ℕ, zero, suc, ◌+◌, ◌<◌, ◌≡◌, ◌≢◌, refl, ap, arith}
use karudeb.Base.{ℤ, pos, negsuc, List, [], ◌∷◌, length, get_or, All}
use karudeb.MlDsa.Challenge.{store}

module _ {ℓ} {A : Type ℓ} where
  pub length-store : (a : List A) (i : ℕ) (v : A) → length (store a i v) ≡ length a
  unfolding store
  length-store [] i v = refl
  length-store (x ∷ a) zero v = refl
  length-store (x ∷ a) (suc i) v = ap suc (length-store a i v)

  pub store_same : (a : List A) (i : ℕ) (v d : A) → i < length a → get_or (store a i v) i d ≡ v
  unfolding store
  store_same [] i v d h = absurd (omega arith)
  store_same (x ∷ a) zero v d h = refl
  store_same (x ∷ a) (suc i) v d h = store_same a i v d (omega arith)

  pub store_other :
      (a : List A) (i j : ℕ) (v d : A) → i ≢ j → get_or (store a i v) j d ≡ get_or a j d
  unfolding store
  store_other [] i j v d h = refl
  store_other (x ∷ a) zero zero v d h = absurd (h refl)
  store_other (x ∷ a) zero (suc j) v d h = refl
  store_other (x ∷ a) (suc i) zero v d h = refl
  store_other (x ∷ a) (suc i) (suc j) v d h = store_other a i j v d (λ e. h (ap suc e))

  pub All-store {κ} :
      (P : A → Type κ) (a : List A) (i : ℕ) (v : A) → P v → All P a → All P (store a i v)
  unfolding store
  All-store P [] i v p h = h
  All-store P (x ∷ a) zero v p h = (p, h.1)
  All-store P (x ∷ a) (suc i) v p h = (h.0, All-store P a i v p h.1)

-- The number of coefficients that are not zero.
abbrev pub nonzero : ℤ → ℕ
nonzero (pos zero) = 0
nonzero (pos (suc m)) = 1
nonzero (negsuc m) = 1

abbrev pub weight : List ℤ → ℕ
weight [] = 0
weight (c ∷ cs) = nonzero c + weight cs

pub weight-store :
    (a : List ℤ) (i : ℕ) (v : ℤ)
    → i < length a
    → weight (store a i v) + nonzero (get_or a i (pos 0)) ≡ weight a + nonzero v
unfolding store
weight-store [] i v h = absurd (omega arith)
weight-store (x ∷ a) zero v h = omega arith
weight-store (x ∷ a) (suc i) v h = omega (arith, weight-store a i v (omega arith))
