-- ===== src/Base/Int.antt =====
-- Signed integers over the native numbers, under the library's names, with the C operations that
-- round down: the arithmetic shift to the right and the residue.
pub mod Ring
use Prim.Native.Nat.{ℕ, suc, ◌+◌, ◌-◌, ◌*◌, ◌/◌, ◌%◌, ◌≤◌, ◌<◌}
use mathlib.Core.Path.{◌≡◌, refl, sym, ap, ◌≡⟨◌⟩◌, ◌∎}
use mathlib.Core.Logic.{◌⊎◌, inl, inr}
use mathlib.Core.Bool.{Bool}
use native.Mathlib.Nat.{mod-eq_of_lt, add-mul-mod_self_left}
use native.Mathlib.Omega.{arith}
use karudeb.Base.Tests.{ltb, leb, ◌==◌, if◌then◌else◌}

-- `negsuc n` is -(n + 1).
pub data ℤ : Type 0 where
  pos : ℕ → ℤ
  negsuc : ℕ → ℤ

abbrev pub pos_part : ℤ → ℕ
pos_part (pos n) = n
pos_part (negsuc n) = 0

abbrev pub neg_part : ℤ → ℕ
neg_part (pos n) = 0
neg_part (negsuc n) = suc n

-- a - b, as an integer.
abbrev pub sub_ℕ : ℕ → ℕ → ℤ
sub_ℕ a b = if leb b a then pos (a - b) else negsuc (b - a - 1)

infixl 65 ◌+ℤ◌ ◌-ℤ◌
infixl 70 ◌*ℤ◌
infix 50 ◌≤ℤ◌ ◌<ℤ◌
unfoldable pub ◌+ℤ◌ : ℤ → ℤ → ℤ
a +ℤ b = sub_ℕ (pos_part a + pos_part b) (neg_part a + neg_part b)

unfoldable pub ◌-ℤ◌ : ℤ → ℤ → ℤ
a -ℤ b = sub_ℕ (pos_part a + neg_part b) (neg_part a + pos_part b)

unfoldable pub ◌*ℤ◌ : ℤ → ℤ → ℤ
a *ℤ b =
    sub_ℕ (pos_part a * pos_part b + neg_part a * neg_part b)
      (pos_part a * neg_part b + neg_part a * pos_part b)

abbrev pub ◌≤ℤ◌ : ℤ → ℤ → Type 0
a ≤ℤ b = pos_part a + neg_part b ≤ pos_part b + neg_part a

abbrev pub ◌<ℤ◌ : ℤ → ℤ → Type 0
a <ℤ b = pos_part a + neg_part b < pos_part b + neg_part a

abbrev pub ltb_ℤ : ℤ → ℤ → Bool
ltb_ℤ a b = ltb (pos_part a + neg_part b) (pos_part b + neg_part a)

abbrev pub eqb_ℤ : ℤ → ℤ → Bool
eqb_ℤ a b = (pos_part a + neg_part b) == (pos_part b + neg_part a)

-- `a / d` rounded down, and the residue from 0 to d - 1, for 0 < d.
unfoldable pub div : ℤ → ℕ → ℤ
div (pos n) d = pos (n / d)
div (negsuc n) d = negsuc (n / d)

unfoldable pub residue : ℤ → ℕ → ℕ
residue (pos n) d = n % d
residue (negsuc n) d = d - 1 - n % d

-- Absolute value at most `b`.
abbrev pub Within : ℕ → ℤ → Type 0
Within b z = (pos_part z ≤ b) × (neg_part z ≤ b)

-- The same class modulo `q`.
abbrev pub Congruent : ℕ → ℤ → ℤ → Type 0
Congruent q a b = residue a q ≡ residue b q

pub one_part_zero : (a : ℤ) → (pos_part a ≡ 0) ⊎ (neg_part a ≡ 0)
one_part_zero (pos n) = inr refl
one_part_zero (negsuc n) = inl refl

pub +ℤ_parts :
    (a b : ℤ)
    → pos_part (a +ℤ b) + neg_part a + neg_part b ≡ neg_part (a +ℤ b) + pos_part a + pos_part b
unfolding ◌+ℤ◌
+ℤ_parts a b = ground arith

pub -ℤ_parts :
    (a b : ℤ)
    → pos_part (a -ℤ b) + neg_part a + pos_part b ≡ neg_part (a -ℤ b) + pos_part a + neg_part b
unfolding ◌-ℤ◌
-ℤ_parts a b = ground arith

pub *ℤ_parts :
    (a b : ℤ)
    → pos_part (a *ℤ b) + (pos_part a * neg_part b + neg_part a * pos_part b)
      ≡ neg_part (a *ℤ b) + (pos_part a * pos_part b + neg_part a * neg_part b)
unfolding ◌*ℤ◌
*ℤ_parts a b = ground arith

pub eq_of_parts : (a b : ℤ) → pos_part a + neg_part b ≡ pos_part b + neg_part a → a ≡ b
eq_of_parts a b h = ground arith

-- `div` and `residue` put a number together again.
pub div_parts :
    (z : ℤ) (d : ℕ)
    → 0 < d
    → (pos_part z + d * neg_part (div z d) ≡ neg_part z + d * pos_part (div z d) + residue z d)
      × (residue z d < d)
unfolding div residue
div_parts (pos n) d h = (omega arith, omega arith)
div_parts (negsuc n) d h = (ground arith, omega arith)

residue_unique : (q x y r s : ℕ) → r < q → s < q → r + q * x ≡ s + q * y → r ≡ s
residue_unique q x y r s hr hs e =
    r
    ≡⟨ sym (mod-eq_of_lt hr) ⟩ r % q
    ≡⟨ sym (add-mul-mod_self_left r q x) ⟩ (r + q * x) % q
    ≡⟨ ap (λ t. t % q) e ⟩ (s + q * y) % q
    ≡⟨ add-mul-mod_self_left s q y ⟩ s % q
    ≡⟨ mod-eq_of_lt hs ⟩ s ∎

-- Numbers that differ by a multiple of `q` are congruent.
pub Congruent-of_multiple :
    (q : ℕ) (a b k : ℤ)
    → 0 < q
    → pos_part a + neg_part b + q * neg_part k ≡ neg_part a + pos_part b + q * pos_part k
    → Congruent q a b
Congruent-of_multiple q a b k h e =
    residue_unique q (pos_part (div a q) + neg_part (div b q) + neg_part k)
      (neg_part (div a q) + pos_part (div b q) + pos_part k) (residue a q) (residue b q)
      (div_parts a q h).1 (div_parts b q h).1 (omega (arith, div_parts a q h, div_parts b q h))

-- Congruent numbers differ by a multiple of `q`.
pub multiple_of_Congruent :
    (q : ℕ) (a b : ℤ)
    → 0 < q
    → Congruent q a b
    → pos_part a + neg_part b + q * (neg_part (div a q) + pos_part (div b q))
      ≡ neg_part a + pos_part b + q * (pos_part (div a q) + neg_part (div b q))
multiple_of_Congruent q a b h e = omega (arith, div_parts a q h, div_parts b q h)
