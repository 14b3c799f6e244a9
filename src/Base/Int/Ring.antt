-- ===== src/Base/Int/Ring.antt =====
-- The ring laws of the integers, and congruence modulo a number as a congruence of the ring.
use Prim.Native.Nat.{ℕ, ◌*◌, ◌<◌}
use mathlib.Core.Path.{◌≡◌, ap, ◌∙◌}
use native.Mathlib.Omega.{arith}
use karudeb.Base.Int.{
  ℤ, pos_part, neg_part, ◌+ℤ◌, ◌-ℤ◌, ◌*ℤ◌, +ℤ_parts, -ℤ_parts, *ℤ_parts, eq_of_parts, Within,
  Congruent, Congruent-of_multiple, multiple_of_Congruent, div, residue,
}

pub +ℤ_comm : (a b : ℤ) → a +ℤ b ≡ b +ℤ a
+ℤ_comm a b = eq_of_parts _ _ (omega (arith, +ℤ_parts a b, +ℤ_parts b a))

pub +ℤ_assoc : (a b c : ℤ) → a +ℤ b +ℤ c ≡ a +ℤ (b +ℤ c)
+ℤ_assoc a b c = eq_of_parts _ _ (omega (arith, +ℤ_parts))

pub *ℤ_comm : (a b : ℤ) → a *ℤ b ≡ b *ℤ a
*ℤ_comm a b = eq_of_parts _ _ (omega (arith, *ℤ_parts a b, *ℤ_parts b a))

-- An equation of numbers, multiplied by each part of an integer.
times_parts :
    (x y : ℕ) (c : ℤ)
    → x ≡ y
    → (x * pos_part c ≡ y * pos_part c) × (x * neg_part c ≡ y * neg_part c)
times_parts x y c e = (ap (λ t. t * pos_part c) e, ap (λ t. t * neg_part c) e)

pub *ℤ_assoc : (a b c : ℤ) → a *ℤ b *ℤ c ≡ a *ℤ (b *ℤ c)
*ℤ_assoc a b c = eq_of_parts _ _ (
    omega (
      arith,
      *ℤ_parts (a *ℤ b) c,
      *ℤ_parts a (b *ℤ c),
      times_parts _ _ c (*ℤ_parts a b),
      times_parts _ _ a (*ℤ_parts b c),
    ))

pub *ℤ-+ℤ : (a b c : ℤ) → a *ℤ (b +ℤ c) ≡ a *ℤ b +ℤ a *ℤ c
*ℤ-+ℤ a b c = eq_of_parts _ _ (
    omega (
      arith,
      *ℤ_parts a (b +ℤ c),
      *ℤ_parts a b,
      *ℤ_parts a c,
      +ℤ_parts (a *ℤ b) (a *ℤ c),
      times_parts _ _ a (+ℤ_parts b c),
    ))

pub *ℤ--ℤ : (a b c : ℤ) → a *ℤ (b -ℤ c) ≡ a *ℤ b -ℤ a *ℤ c
*ℤ--ℤ a b c = eq_of_parts _ _ (
    omega (
      arith,
      *ℤ_parts a (b -ℤ c),
      *ℤ_parts a b,
      *ℤ_parts a c,
      -ℤ_parts (a *ℤ b) (a *ℤ c),
      times_parts _ _ a (-ℤ_parts b c),
    ))

-- The absolute value of a product is at most the product of bounds.
pub product-Within : {m n : ℕ} (a b : ℤ) → Within m a → Within n b → Within (m * n) (a *ℤ b)
unfolding ◌*ℤ◌
product-Within a b h k = grind arith

module _ (q : ℕ) (q_pos : 0 < q) where
  pub Congruent-add :
      (a b c d : ℤ) → Congruent q a b → Congruent q c d → Congruent q (a +ℤ c) (b +ℤ d)
  Congruent-add a b c d h k =
      let m : ℤ = div a q -ℤ div b q in
      let n : ℤ = div c q -ℤ div d q in
      Congruent-of_multiple q _ _ (m +ℤ n) q_pos (
        omega (
          arith,
          +ℤ_parts a c,
          +ℤ_parts b d,
          ap (λ (t : ℕ). q * t) (+ℤ_parts m n),
          ap (λ (t : ℕ). q * t) (-ℤ_parts (div a q) (div b q)),
          ap (λ (t : ℕ). q * t) (-ℤ_parts (div c q) (div d q)),
          multiple_of_Congruent q a b q_pos h,
          multiple_of_Congruent q c d q_pos k,
        ))

  pub Congruent-sub :
      (a b c d : ℤ) → Congruent q a b → Congruent q c d → Congruent q (a -ℤ c) (b -ℤ d)
  Congruent-sub a b c d h k =
      let m : ℤ = div a q -ℤ div b q in
      let n : ℤ = div c q -ℤ div d q in
      Congruent-of_multiple q _ _ (m -ℤ n) q_pos (
        omega (
          arith,
          -ℤ_parts a c,
          -ℤ_parts b d,
          ap (λ (t : ℕ). q * t) (-ℤ_parts m n),
          ap (λ (t : ℕ). q * t) (-ℤ_parts (div a q) (div b q)),
          ap (λ (t : ℕ). q * t) (-ℤ_parts (div c q) (div d q)),
          multiple_of_Congruent q a b q_pos h,
          multiple_of_Congruent q c d q_pos k,
        ))

  pub Congruent-mul_right : (a b c : ℤ) → Congruent q a b → Congruent q (a *ℤ c) (b *ℤ c)
  Congruent-mul_right a b c h =
      let m : ℤ = div a q -ℤ div b q in
      Congruent-of_multiple q _ _ (m *ℤ c) q_pos (
        omega (
          arith,
          *ℤ_parts a c,
          *ℤ_parts b c,
          ap (λ (t : ℕ). q * t) (*ℤ_parts m c),
          times_parts _ _ c (ap (λ (t : ℕ). q * t) (-ℤ_parts (div a q) (div b q))),
          times_parts _ _ c (multiple_of_Congruent q a b q_pos h),
        ))

  pub Congruent-mul :
      (a b c d : ℤ) → Congruent q a b → Congruent q c d → Congruent q (a *ℤ c) (b *ℤ d)
  Congruent-mul a b c d h k =
      Congruent-mul_right a b c h
      ∙ ap (λ t. residue t q) (*ℤ_comm b c)
      ∙ Congruent-mul_right c d b k
      ∙ ap (λ t. residue t q) (*ℤ_comm d b)
