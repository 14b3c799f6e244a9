-- ===== src/Transform/Evaluate.antt =====
-- A polynomial is the list of its coefficients, the constant one first. Its values are taken up to
-- congruence.
use karudeb.Base.{ℕ, zero, suc, ◌<◌, ◌≡◌, refl, sym, ap, ap₂, ◌∙◌, arith}
use karudeb.Base.{ℤ, pos, ◌+ℤ◌, ◌-ℤ◌, ◌*ℤ◌, +ℤ_parts, -ℤ_parts, *ℤ_parts, eq_of_parts}
use karudeb.Base.{+ℤ_assoc, *ℤ_comm, *ℤ_assoc, *ℤ-+ℤ, *ℤ--ℤ}
use karudeb.Base.{residue, Congruent, Congruent-add, Congruent-mul}
use karudeb.Base.{List, [], ◌∷◌, ◌++◌, length, zip_with, All}

-- The value at r.
unfoldable pub eval : ℤ → List ℤ → ℤ
eval r [] = pos 0
eval r (c ∷ cs) = c +ℤ r *ℤ eval r cs

unfoldable pub power : ℤ → ℕ → ℤ
power r zero = pos 1
power r (suc n) = r *ℤ power r n

pub zero-+ℤ : (a : ℤ) → pos 0 +ℤ a ≡ a
zero-+ℤ a = eq_of_parts _ _ (omega (arith, +ℤ_parts (pos 0) a))

pub one-*ℤ : (a : ℤ) → pos 1 *ℤ a ≡ a
one-*ℤ a = eq_of_parts _ _ (omega (arith, *ℤ_parts (pos 1) a))

pub *ℤ_one : (a : ℤ) → a *ℤ pos 1 ≡ a
*ℤ_one a = *ℤ_comm a (pos 1) ∙ one-*ℤ a

pub *ℤ_zero : (a : ℤ) → a *ℤ pos 0 ≡ pos 0
*ℤ_zero a = eq_of_parts _ _ (omega (arith, *ℤ_parts a (pos 0)))

-- The middle factors of two products change places.
pub *ℤ_swap : (a b c : ℤ) → a *ℤ (b *ℤ c) ≡ b *ℤ (a *ℤ c)
*ℤ_swap a b c = sym (*ℤ_assoc a b c) ∙ ap (λ t. t *ℤ c) (*ℤ_comm a b) ∙ *ℤ_assoc b a c

pub +ℤ_interchange : (a b c d : ℤ) → (a +ℤ b) +ℤ (c +ℤ d) ≡ (a +ℤ c) +ℤ (b +ℤ d)
+ℤ_interchange a b c d = eq_of_parts _ _ (omega (arith, +ℤ_parts))

pub eval-append :
    (r : ℤ) (lo hi : List ℤ) → eval r (lo ++ hi) ≡ eval r lo +ℤ power r (length lo) *ℤ eval r hi
unfolding eval power
eval-append r [] hi = sym (zero-+ℤ _ ∙ one-*ℤ _)
eval-append r (c ∷ lo) hi =
    let p = power r (length lo) in
    ap (λ t. c +ℤ r *ℤ t) (eval-append r lo hi)
    ∙ ap (λ t. c +ℤ t) (*ℤ-+ℤ r (eval r lo) (p *ℤ eval r hi))
    ∙ sym (+ℤ_assoc c _ _)
    ∙ ap (λ t. c +ℤ r *ℤ eval r lo +ℤ t) (sym (*ℤ_assoc r p (eval r hi)))

-- The same combination of the constant terms and of the rest.
combine :
    (u w x y r l h : ℤ)
    → u *ℤ x +ℤ w *ℤ y +ℤ r *ℤ (u *ℤ l +ℤ w *ℤ h) ≡ u *ℤ (x +ℤ r *ℤ l) +ℤ w *ℤ (y +ℤ r *ℤ h)
combine u w x y r l h =
    ap (λ t. u *ℤ x +ℤ w *ℤ y +ℤ t) (*ℤ-+ℤ r _ _ ∙ ap₂ ◌+ℤ◌ (*ℤ_swap r u l) (*ℤ_swap r w h))
    ∙ +ℤ_interchange (u *ℤ x) (w *ℤ y) (u *ℤ (r *ℤ l)) (w *ℤ (r *ℤ h))
    ∙ sym (ap₂ ◌+ℤ◌ (*ℤ-+ℤ u x (r *ℤ l)) (*ℤ-+ℤ w y (r *ℤ h)))

pub neg-mul : (s y : ℤ) → (pos 0 -ℤ s) *ℤ y ≡ pos 0 -ℤ s *ℤ y
neg-mul s y = *ℤ_comm (pos 0 -ℤ s) y ∙ *ℤ--ℤ y (pos 0) s ∙ ap₂ ◌-ℤ◌ (*ℤ_zero y) (*ℤ_comm y s)

-- s (x - y) as a combination of x and y.
pub difference_form : (s x y : ℤ) → s *ℤ x +ℤ (pos 0 -ℤ s) *ℤ y ≡ s *ℤ (x -ℤ y)
difference_form s x y =
    ap (λ t. s *ℤ x +ℤ t) (neg-mul s y)
    ∙ eq_of_parts _ _ (
        omega (
          arith,
          +ℤ_parts (s *ℤ x) (pos 0 -ℤ s *ℤ y),
          -ℤ_parts (pos 0) (s *ℤ y),
          -ℤ_parts (s *ℤ x) (s *ℤ y),
        ))
    ∙ sym (*ℤ--ℤ s x y)

pub minus_form : (x k y : ℤ) → x -ℤ k *ℤ y ≡ pos 1 *ℤ x +ℤ (pos 0 -ℤ k) *ℤ y
minus_form x k y =
    eq_of_parts _ _
      (omega (arith, -ℤ_parts x (k *ℤ y), +ℤ_parts x (pos 0 -ℤ k *ℤ y), -ℤ_parts (pos 0) (k *ℤ y)))
    ∙ sym (ap₂ ◌+ℤ◌ (one-*ℤ x) (neg-mul k y))

module _ (q : ℕ) (q_pos : 0 < q) where
  -- A function that combines two numbers up to congruence combines two polynomials.
  pub eval-zip_with :
      (P : ℤ → Type 0) (f : ℤ → ℤ → ℤ) (u w r : ℤ) (lo hi : List ℤ)
      → ((x y : ℤ) → P x → P y → Congruent q (f x y) (u *ℤ x +ℤ w *ℤ y))
      → length lo ≡ length hi
      → All P lo
      → All P hi
      → Congruent q (eval r (zip_with f lo hi)) (u *ℤ eval r lo +ℤ w *ℤ eval r hi)
  unfolding eval
  eval-zip_with P f u w r [] [] ok e hl hh =
      ap (λ t. residue t q) (sym (zero-+ℤ (pos 0)) ∙ sym (ap₂ ◌+ℤ◌ (*ℤ_zero u) (*ℤ_zero w)))
  eval-zip_with P f u w r [] (y ∷ hi) ok e hl hh = absurd (omega arith)
  eval-zip_with P f u w r (x ∷ lo) [] ok e hl hh = absurd (omega arith)
  eval-zip_with P f u w r (x ∷ lo) (y ∷ hi) ok e hl hh =
      let rest = eval-zip_with P f u w r lo hi ok (omega arith) hl.1 hh.1 in
      Congruent-add q q_pos _ _ _ _ (ok x y hl.0 hh.0) (Congruent-mul q q_pos r r _ _ refl rest)
      ∙ ap (λ t. residue t q) (combine u w x y r (eval r lo) (eval r hi))
