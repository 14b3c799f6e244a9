-- ===== src/Transform/Determined.antt =====
-- The check that the factors of a table can be inverted, by evaluation, and the rounds that it allows to undo.
use karudeb.Base.{ℕ, ◌+◌, ◌*◌, ◌<◌, ◌≡◌, sym, ap, ◌∙◌, arith, Bool, true, false, ◌&&◌, ◌==◌, ==_iff}
use karudeb.Base.{ℤ, pos, ◌*ℤ◌, residue, Congruent, List, [], ◌∷◌, map, length, All}
use karudeb.Transform.Layers.{Splits}
use karudeb.Transform.Unique.{Invertible, Determined, unique_round}
use karudeb.Transform.Roots.{&&-true, splits, Splits-of_test, residue-pos}

-- Each number of the second list is, by its factor, the inverse of the one in the first.
unfoldable pub all_inverse : ℕ → (ℤ → ℤ) → (ℤ → ℤ) → List ℤ → List ℤ → Bool
unfolding residue ◌*ℤ◌
all_inverse q w v [] us = true
all_inverse q w v (z ∷ zs) [] = false
all_inverse q w v (z ∷ zs) (u ∷ us) = (residue (w z *ℤ v u) q == 1) && all_inverse q w v zs us

module _ (q : ℕ) (two_le : 1 < q) (half : ℤ) (two_half : Congruent q (pos 2 *ℤ half) (pos 1))
    (w v : ℤ → ℤ) where
  all_inverse_sound : (zs us : List ℤ) → all_inverse q w v zs us ≡ true → All (Invertible q w) zs
  unfolding all_inverse
  all_inverse_sound [] us h = tt
  all_inverse_sound (z ∷ zs) [] h = absurd (ground arith)
  all_inverse_sound (z ∷ zs) (u ∷ us) h =
      let (first, rest) = &&-true _ _ h in
      let e : residue (w z *ℤ v u) q ≡ 1 = (==_iff _ _).0 first in
      ((v u, e ∙ sym (residue-pos 1 q two_le)), all_inverse_sound zs us rest)

  pub Determined-round :
      (n count len : ℕ) (zs us : List ℤ) (numbers : List ℕ)
      → length zs ≡ count
      → count * (len + len) ≡ n
      → splits q (λ _. pos 1) w len zs numbers ≡ true
      → all_inverse q w v zs us ≡ true
      → Determined q n (count + count) len (map pos numbers)
      → Determined q n count (len + len) (map pos numbers)
  Determined-round n count len zs us numbers e size test inverse below =
      let rs = map pos numbers in
      let split : Splits q (λ _. pos 1) w len zs rs =
        Splits-of_test q (omega arith) (λ _. pos 1) w len zs numbers test in
      let below' : Determined q n (length zs + length zs) len rs = rw e below in
      let above : Determined q n (length zs) (len + len) rs =
        unique_round q (omega arith) half two_half w len n zs rs
          (ap (λ (t : ℕ). t * (len + len)) e ∙ size) split (all_inverse_sound zs us inverse)
          below' in
      rw e at above
