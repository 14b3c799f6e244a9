-- ===== src/Transform/Product.antt =====
-- The product of polynomials modulo X ^ n + 1, and its values where r ^ n is -1.
use karudeb.Base.{ℕ, suc, ◌+◌, ◌*◌, ◌%◌, ◌≤◌, ◌<◌, ◌≡◌, refl, sym, ap, ap₂, ◌∙◌, arith}
use karudeb.Base.{ℤ, pos, ◌+ℤ◌, ◌-ℤ◌, ◌*ℤ◌, +ℤ_parts, -ℤ_parts, eq_of_parts}
use karudeb.Base.{residue, Congruent, Congruent-add, Congruent-mul, *ℤ-+ℤ, *ℤ--ℤ, *ℤ_comm}
use karudeb.Base.{List, [], ◌∷◌, map, length, take, drop, zip_with, All}
use karudeb.Base.{◌-◌, length-map, length-take, length-drop, take-append-drop}
use karudeb.Transform.Evaluate.{
  eval, power, eval-append, one-*ℤ, *ℤ_one, zero-+ℤ, *ℤ_zero, *ℤ_swap, +ℤ_interchange, neg-mul,
}
use karudeb.Transform.Layers.{values}
use karudeb.Transform.Inverse.{residue-Congruent, residue-scale}

-- Sums and differences, where the shorter list counts as ending in zeros.
unfoldable pub plus : List ℤ → List ℤ → List ℤ
plus [] b = b
plus (x ∷ a) [] = x ∷ a
plus (x ∷ a) (y ∷ b) = (x +ℤ y) ∷ plus a b

unfoldable pub minus : List ℤ → List ℤ → List ℤ
minus [] b = map (λ y. pos 0 -ℤ y) b
minus (x ∷ a) [] = x ∷ a
minus (x ∷ a) (y ∷ b) = (x -ℤ y) ∷ minus a b

unfoldable pub times : List ℤ → List ℤ → List ℤ
times [] b = []
times (x ∷ a) b = plus (map (λ y. x *ℤ y) b) (pos 0 ∷ times a b)

-- X ^ n is -1, so the upper half is subtracted from the lower.
unfoldable pub negacyclic : ℕ → List ℤ → List ℤ → List ℤ
negacyclic n a b = let p = times a b in minus (take n p) (drop n p)

pub eval-plus : (r : ℤ) (a b : List ℤ) → eval r (plus a b) ≡ eval r a +ℤ eval r b
unfolding eval plus
eval-plus r [] b = sym (zero-+ℤ (eval r b))
eval-plus r (x ∷ a) [] = eq_of_parts _ _ (omega (arith, +ℤ_parts (x +ℤ r *ℤ eval r a) (pos 0)))
eval-plus r (x ∷ a) (y ∷ b) =
    ap (λ t. x +ℤ y +ℤ t) (ap (λ t. r *ℤ t) (eval-plus r a b) ∙ *ℤ-+ℤ r (eval r a) (eval r b))
    ∙ +ℤ_interchange x y (r *ℤ eval r a) (r *ℤ eval r b)

eval-negated : (r : ℤ) (b : List ℤ) → eval r (map (λ y. pos 0 -ℤ y) b) ≡ pos 0 -ℤ eval r b
unfolding eval
eval-negated r [] = eq_of_parts _ _ (omega (arith, -ℤ_parts (pos 0) (pos 0)))
eval-negated r (y ∷ b) =
    ap (λ t. pos 0 -ℤ y +ℤ t)
      (ap (λ t. r *ℤ t) (eval-negated r b)
        ∙ *ℤ--ℤ r (pos 0) (eval r b)
        ∙ ap (λ t. t -ℤ r *ℤ eval r b) (*ℤ_zero r))
    ∙ eq_of_parts _ _ (
        omega (
          arith,
          +ℤ_parts (pos 0 -ℤ y) (pos 0 -ℤ r *ℤ eval r b),
          +ℤ_parts y (r *ℤ eval r b),
          -ℤ_parts (pos 0) y,
          -ℤ_parts (pos 0) (r *ℤ eval r b),
          -ℤ_parts (pos 0) (y +ℤ r *ℤ eval r b),
        ))

eval-minus : (r : ℤ) (a b : List ℤ) → eval r (minus a b) ≡ eval r a -ℤ eval r b
unfolding eval minus
eval-minus r [] b = eval-negated r b
eval-minus r (x ∷ a) [] = eq_of_parts _ _ (omega (arith, -ℤ_parts (x +ℤ r *ℤ eval r a) (pos 0)))
eval-minus r (x ∷ a) (y ∷ b) =
    ap (λ t. x -ℤ y +ℤ t) (ap (λ t. r *ℤ t) (eval-minus r a b) ∙ *ℤ--ℤ r (eval r a) (eval r b))
    ∙ eq_of_parts _ _ (omega (arith, +ℤ_parts, -ℤ_parts))

pub eval-multiple : (r x : ℤ) (b : List ℤ) → eval r (map (λ y. x *ℤ y) b) ≡ x *ℤ eval r b
unfolding eval
eval-multiple r x [] = sym (*ℤ_zero x)
eval-multiple r x (y ∷ b) =
    ap (λ t. x *ℤ y +ℤ t) (ap (λ t. r *ℤ t) (eval-multiple r x b) ∙ *ℤ_swap r x (eval r b))
    ∙ sym (*ℤ-+ℤ x y (r *ℤ eval r b))

eval-times : (r : ℤ) (a b : List ℤ) → eval r (times a b) ≡ eval r a *ℤ eval r b
unfolding eval times
eval-times r [] b = sym (*ℤ_comm (pos 0) (eval r b) ∙ *ℤ_zero (eval r b))
eval-times r (x ∷ a) b =
    let y = eval r b in
    eval-plus r (map (λ y. x *ℤ y) b) (pos 0 ∷ times a b)
    ∙ ap₂ ◌+ℤ◌ (eval-multiple r x b ∙ *ℤ_comm x y) (
        zero-+ℤ (r *ℤ eval r (times a b))
        ∙ ap (λ t. r *ℤ t) (eval-times r a b ∙ *ℤ_comm (eval r a) y)
        ∙ *ℤ_swap r y (eval r a))
    ∙ sym (*ℤ-+ℤ y x (r *ℤ eval r a))
    ∙ *ℤ_comm y (x +ℤ r *ℤ eval r a)

-- The pointwise products of two lists of residues.
abbrev pub products : ℕ → List ℕ → List ℕ → List ℕ
products q = zip_with (λ u v. u * v % q)

pub length-plus :
    (a b : List ℤ) (m : ℕ)
    → length a ≤ m
    → length b ≤ m
    → (length a ≤ length (plus a b)) × (length (plus a b) ≤ m)
unfolding plus
length-plus [] b m h k = (omega arith, k)
length-plus (x ∷ a) [] m h k = (omega arith, h)
length-plus (x ∷ a) (y ∷ b) m h k =
    let rest = length-plus a b (m - 1) (omega arith) (omega arith) in (omega arith, omega arith)

pub length-times : (a b : List ℤ) → length (times a b) ≤ length a + length b
unfolding times
length-times [] b = omega arith
length-times (x ∷ a) b =
    let first : length (map (λ y. x *ℤ y) b) ≡ length b = length-map b (λ y. x *ℤ y) in
    let rest = length-times a b in
    (length-plus (map (λ y. x *ℤ y) b) (pos 0 ∷ times a b) (suc (length a) + length b) (omega arith)
      (omega arith)).1

pub length-le-times : (a b : List ℤ) → 0 < length a → length b ≤ length (times a b)
unfolding times
length-le-times [] b h = absurd (omega arith)
length-le-times (x ∷ a) b h =
    let first : length (map (λ y. x *ℤ y) b) ≡ length b = length-map b (λ y. x *ℤ y) in
    let both =
      length-plus (map (λ y. x *ℤ y) b) (pos 0 ∷ times a b) (length b + suc (length (times a b)))
        (omega arith) (omega arith) in
    omega (arith, both.0, first)

length-minus : (a b : List ℤ) → length b ≤ length a → length (minus a b) ≡ length a
unfolding minus
length-minus [] [] h = refl
length-minus [] (y ∷ b) h = absurd (omega arith)
length-minus (x ∷ a) [] h = refl
length-minus (x ∷ a) (y ∷ b) h = ap suc (length-minus a b (omega arith))

pub length-negacyclic :
    (n : ℕ) (a b : List ℤ) → 0 < n → length a ≡ n → length b ≡ n → length (negacyclic n a b) ≡ n
unfolding negacyclic
length-negacyclic n a b h e e' =
    let p = times a b in
    let above = length-times a b in
    let below = length-le-times a b (omega arith) in
    let low = length-take n p (omega arith) in
    length-minus (take n p) (drop n p) (omega (arith, length-drop n p, low, above)) ∙ low

pub residue-times : (q : ℕ) (x y : ℤ) → 0 < q → residue (x *ℤ y) q ≡ residue x q * residue y q % q
residue-times q x y h =
    Congruent-mul q h x (pos (residue x q)) y y (residue-Congruent q h x) refl
    ∙ residue-scale q h (residue x q) y

module _ (q n : ℕ) (q_pos : 0 < q) (n_pos : 0 < n) where
  -- Where r ^ n is -1, the upper part of a polynomial may be subtracted from its lower n coefficients.
  pub eval-folded :
      (r : ℤ) (p : List ℤ)
      → n ≤ length p
      → Congruent q (power r n *ℤ pos 1) (pos 0 -ℤ pos 1)
      → Congruent q (eval r (minus (take n p) (drop n p))) (eval r p)
  eval-folded r p e h =
      let low = eval r (take n p) in
      let high = eval r (drop n p) in
      let size : length (take n p) ≡ n = length-take n p e in
      let opposite : (pos 0 -ℤ pos 1) *ℤ high ≡ pos 0 -ℤ high =
        neg-mul (pos 1) high ∙ ap (λ t. pos 0 -ℤ t) (one-*ℤ high) in
      let back : low +ℤ (pos 0 -ℤ high) ≡ low -ℤ high =
        eq_of_parts _ _
          (omega (arith, +ℤ_parts low (pos 0 -ℤ high), -ℤ_parts (pos 0) high, -ℤ_parts low high)) in
      ap (λ t. residue t q)
        (eval-minus r (take n p) (drop n p) ∙ sym back ∙ ap (λ t. low +ℤ t) (sym opposite))
      ∙ Congruent-add q q_pos low low _ _ refl (
          Congruent-mul q q_pos _ _ high high (sym h ∙ ap (λ t. residue t q) (*ℤ_one (power r n)))
            refl)
      ∙ ap (λ t. residue t q)
          (ap (λ (t : ℕ). low +ℤ power r t *ℤ high) (sym size)
            ∙ sym (eval-append r (take n p) (drop n p))
            ∙ ap (eval r) (take-append-drop n p))

  eval-negacyclic :
      (r : ℤ) (a b : List ℤ)
      → length a ≡ n
      → length b ≡ n
      → Congruent q (power r n *ℤ pos 1) (pos 0 -ℤ pos 1)
      → Congruent q (eval r (negacyclic n a b)) (eval r a *ℤ eval r b)
  unfolding negacyclic
  eval-negacyclic r a b e e' h =
      eval-folded r (times a b) (omega (arith, length-le-times a b (omega arith))) h
      ∙ ap (λ t. residue t q) (eval-times r a b)

  pub values-negacyclic :
      (rs a b : List ℤ)
      → length a ≡ n
      → length b ≡ n
      → All (λ r. Congruent q (power r n *ℤ pos 1) (pos 0 -ℤ pos 1)) rs
      → values q rs (negacyclic n a b) ≡ products q (values q rs a) (values q rs b)
  values-negacyclic [] a b e e' h = refl
  values-negacyclic (r ∷ rs) a b e e' h =
      ap₂ ◌∷◌ (eval-negacyclic r a b e e' h.0 ∙ residue-times q (eval r a) (eval r b) q_pos)
        (values-negacyclic rs a b e e' h.1)
