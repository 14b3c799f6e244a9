-- ===== src/Transform/Roots.antt =====
-- The points of a transform and the check of the table of factors against them, by evaluation.
use karudeb.Base.{ℕ, zero, suc, ◌+◌, ◌*◌, ◌/◌, ◌%◌, ◌^◌, ◌<◌, ◌≡◌, refl, sym, ap, ◌∙◌, arith}
use karudeb.Base.{Bool, true, ◌&&◌, ◌==◌, ==_iff}
use karudeb.Base.{ℤ, pos, ◌-ℤ◌, ◌*ℤ◌, *ℤ_parts, eq_of_parts, residue, Congruent, Congruent-mul}
use karudeb.Base.{List, [], ◌∷◌, map, length, take, drop, All, div_parts}
use native.Mathlib.Nat.{mod-eq_of_lt}
use karudeb.Transform.Evaluate.{power}
use karudeb.Transform.Layers.{Splits}

-- The lowest `bits` bits of n in the opposite order.
unfoldable pub bit_reverse : ℕ → ℕ → ℕ
bit_reverse zero n = 0
bit_reverse (suc bits) n = n % 2 * 2 ^ bits + bit_reverse bits (n / 2)

unfoldable pub power_mod : ℕ → ℕ → ℕ → ℕ
power_mod q b zero = 1
power_mod q b (suc n) = b * power_mod q b n % q

unfoldable pub count_from : ℕ → ℕ → List ℕ
count_from zero i = []
count_from (suc left) i = i ∷ count_from left (i + 1)

-- The odd powers of a root of unity, in the order of the reversed bits.
unfoldable pub odd_powers : ℕ → ℕ → ℕ → List ℕ
unfolding bit_reverse power_mod count_from
odd_powers q zeta bits =
    map (λ i. power_mod q zeta (2 * bit_reverse bits i + 1)) (count_from (2 ^ bits) 0)

pub length-count_from : (left i : ℕ) → length (count_from left i) ≡ left
unfolding count_from
length-count_from zero i = refl
length-count_from (suc left) i = ap suc (length-count_from left (i + 1))

unfoldable pub all_equal : ℕ → ℕ → ℕ → ℕ → List ℕ → Bool
unfolding power_mod
all_equal q len u v [] = true
all_equal q len u v (r ∷ rs) = (power_mod q r len * u % q == v) && all_equal q len u v rs

-- The test of `Splits`.
unfoldable pub splits : ℕ → (ℤ → ℤ) → (ℤ → ℤ) → ℕ → List ℤ → List ℕ → Bool
unfolding all_equal residue ◌*ℤ◌ ◌-ℤ◌
splits q s w len [] rs = true
splits q s w len (z ∷ zs) rs =
    all_equal q len (residue (s z) q) (residue (w z) q) (take len rs)
    && (all_equal q len (residue (s z) q) (residue (pos 0 -ℤ w z) q) (take len (drop len rs))
        && splits q s w len zs (drop len (drop len rs)))

mod-lt : (n q : ℕ) → 0 < q → n % q < q
mod-lt n q h = omega arith

residue-mod : (n q : ℕ) → 0 < q → residue (pos n) q ≡ residue (pos (n % q)) q
unfolding residue
residue-mod n q h = sym (mod-eq_of_lt (mod-lt n q h))

power_mod-power :
    (q r n : ℕ) → 0 < q → residue (power (pos r) n) q ≡ residue (pos (power_mod q r n)) q
unfolding power power_mod residue
power_mod-power q r zero h = refl
power_mod-power q r (suc n) h =
    let p = power_mod q r n in
    let e : pos r *ℤ pos p ≡ pos (r * p) =
      eq_of_parts _ _ (omega (arith, *ℤ_parts (pos r) (pos p))) in
    Congruent-mul q h (pos r) (pos r) _ _ refl (power_mod-power q r n h)
    ∙ ap (λ t. residue t q) e
    ∙ residue-mod (r * p) q h

pub &&-true : (a b : Bool) → (a && b) ≡ true → (a ≡ true) × (b ≡ true)
&&-true a b h = ground arith

take-map : (n : ℕ) (rs : List ℕ) → take n (map pos rs) ≡ map pos (take n rs)
take-map zero rs = refl
take-map (suc n) [] = refl
take-map (suc n) (r ∷ rs) = ap (λ t. pos r ∷ t) (take-map n rs)

drop-map : (n : ℕ) (rs : List ℕ) → drop n (map pos rs) ≡ map pos (drop n rs)
drop-map zero rs = refl
drop-map (suc n) [] = refl
drop-map (suc n) (r ∷ rs) = drop-map n rs

pub residue-pos : (n q : ℕ) → n < q → residue (pos n) q ≡ n
unfolding residue
residue-pos n q h = mod-eq_of_lt h

module _ (q : ℕ) (q_pos : 0 < q) (s w : ℤ → ℤ) (len : ℕ) where
  residue_again : (x : ℤ) → residue (pos (residue x q)) q ≡ residue x q
  residue_again x = residue-pos (residue x q) q (div_parts x q q_pos).1

  product_residue :
      (r : ℕ) (x : ℤ)
      → residue (power (pos r) len *ℤ x) q ≡ residue (pos (power_mod q r len * residue x q % q)) q
  product_residue r x =
      let p = power_mod q r len in
      let e : pos p *ℤ pos (residue x q) ≡ pos (p * residue x q) =
        eq_of_parts _ _ (omega (arith, *ℤ_parts (pos p) (pos (residue x q)))) in
      Congruent-mul q q_pos _ _ _ _ (power_mod-power q r len q_pos) (sym (residue_again x))
      ∙ ap (λ t. residue t q) e
      ∙ residue-mod (p * residue x q) q q_pos

  pub all_equal_sound :
      (x v : ℤ) (rs : List ℕ)
      → all_equal q len (residue x q) (residue v q) rs ≡ true
      → All (λ r. Congruent q (power r len *ℤ x) v) (map pos rs)
  unfolding all_equal
  all_equal_sound x v [] h = tt
  all_equal_sound x v (r ∷ rs) h =
      let (first, rest) = &&-true _ _ h in
      let e : power_mod q r len * residue x q % q ≡ residue v q = (==_iff _ _).0 first in
      (
        product_residue r x ∙ ap (λ t. residue (pos t) q) e ∙ residue_again v,
        all_equal_sound x v rs rest,
      )

  pub Splits-of_test :
      (zs : List ℤ) (rs : List ℕ) → splits q s w len zs rs ≡ true → Splits q s w len zs (map pos rs)
  unfolding splits
  Splits-of_test [] rs h = tt
  Splits-of_test (z ∷ zs) rs h =
      let (low, others) = &&-true _ _ h in
      let (high, rest) = &&-true _ _ others in
      rw (take-map len rs, drop-map len rs, take-map len (drop len rs), drop-map len (drop len rs))
        (
          all_equal_sound (s z) (w z) (take len rs) low,
          all_equal_sound (s z) (pos 0 -ℤ w z) (take len (drop len rs)) high,
          Splits-of_test zs (drop len (drop len rs)) rest,
        )
