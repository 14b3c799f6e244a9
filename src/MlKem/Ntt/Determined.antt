-- ===== src/MlKem/Ntt/Determined.antt =====
-- The points of mlkem_ntt.c determine a polynomial.
use karudeb.Base.{ℕ, ◌+◌, ◌-◌, ◌*◌, ◌≡◌, refl, sym, ◌∙◌, arith, true}
use karudeb.Base.{ℤ, pos, ◌*ℤ◌, residue, Congruent, List, length}
use karudeb.Transform.Layers.{values}
use karudeb.Transform.Forward.{points_all, points_one}
use karudeb.Transform.Unique.{residues, Determined}
use karudeb.Transform.Determined.{all_inverse, Determined-round}
use karudeb.Transform.Roots.{splits}
use karudeb.MlKem.Reduce.{q}
use karudeb.MlKem.Ntt.Roots.{roots, root_numbers, plain, opposite, length-roots}
use karudeb.MlKem.Ntt.Zetas.{mlkem_zetas}
use karudeb.Transform.Table.{ascending, descending, length-ascending}

two_half : Congruent q (pos 2 *ℤ pos 1665) (pos 1)
unfolding residue ◌*ℤ◌
two_half = refl

Determined-step :
    (count len : ℕ)
    → count * (len + len) ≡ 128
    → splits q (λ _. pos 1) plain len (ascending mlkem_zetas count count) root_numbers ≡ true
    → all_inverse q plain opposite
        (ascending mlkem_zetas count count)
        (descending mlkem_zetas count (count + count - 1))
      ≡ true
    → Determined q 128 (count + count) len roots
    → Determined q 128 count (len + len) roots
unfolding roots
Determined-step count len size test inverse below =
    Determined-round q (omega arith) (pos 1665) two_half plain opposite 128 count len
      (ascending mlkem_zetas count count) (descending mlkem_zetas count (count + count - 1))
      root_numbers (length-ascending mlkem_zetas count count) size test inverse below

-- Polynomials of 128 coefficients with the same values at all points are the same modulo q.
pub roots_determine :
    (a b : List ℤ)
    → length a ≡ 128
    → length b ≡ 128
    → values q roots a ≡ values q roots b
    → residues q a ≡ residues q b
unfolding splits all_inverse ascending descending root_numbers
roots_determine a b ha hb same =
    let d7 : Determined q 128 128 1 roots = λ a b ha hb h.
      sym (points_one q 128 roots a length-roots ha)
      ∙ h
      ∙ points_one q 128 roots b length-roots hb in
    let d6 = Determined-step 64 1 refl refl refl d7 in
    let d5 = Determined-step 32 2 refl refl refl d6 in
    let d4 = Determined-step 16 4 refl refl refl d5 in
    let d3 = Determined-step 8 8 refl refl refl d4 in
    let d2 = Determined-step 4 16 refl refl refl d3 in
    let d1 = Determined-step 2 32 refl refl refl d2 in
    let d0 = Determined-step 1 64 refl refl refl d1 in
    d0 a b ha hb (
      points_all q 128 roots a length-roots ha
      ∙ same
      ∙ sym (points_all q 128 roots b length-roots hb))
