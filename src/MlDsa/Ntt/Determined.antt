-- ===== src/MlDsa/Ntt/Determined.antt =====
-- The points of mldsa_ntt.c determine a polynomial.
use karudeb.Base.{ℕ, ◌+◌, ◌*◌, ◌≡◌, refl, sym, ◌∙◌, arith, true}
use karudeb.Base.{ℤ, pos, ◌*ℤ◌, residue, Congruent, List, length}
use karudeb.Transform.Layers.{values}
use karudeb.Transform.Forward.{points_all, points_one}
use karudeb.Transform.Unique.{residues, Determined}
use karudeb.Transform.Determined.{all_inverse, Determined-round}
use karudeb.Transform.Roots.{splits}
use karudeb.MlDsa.Params.{q}
use karudeb.MlDsa.Ntt.Roots.{
  roots, root_numbers, plain, ascending, descending, length-ascending, length-roots,
}

two_half : Congruent q (pos 2 *ℤ pos 4190209) (pos 1)
unfolding residue ◌*ℤ◌
two_half = refl

Determined-step :
    (count len : ℕ)
    → count * (len + len) ≡ 256
    → splits q (λ _. pos 1) plain len (ascending count count) root_numbers ≡ true
    → all_inverse q plain plain (ascending count count) (descending count (count + count)) ≡ true
    → Determined q 256 (count + count) len roots
    → Determined q 256 count (len + len) roots
unfolding roots
Determined-step count len size test inverse below =
    Determined-round q (omega arith) (pos 4190209) two_half plain plain 256 count len
      (ascending count count) (descending count (count + count)) root_numbers
      (length-ascending count count) size test inverse below

-- Polynomials of 256 coefficients with the same values at all points are the same modulo q.
pub roots_determine :
    (a b : List ℤ)
    → length a ≡ 256
    → length b ≡ 256
    → values q roots a ≡ values q roots b
    → residues q a ≡ residues q b
unfolding splits all_inverse ascending descending root_numbers
roots_determine a b ha hb same =
    let d8 : Determined q 256 256 1 roots = λ a b ha hb h.
      sym (points_one q 256 roots a length-roots ha)
      ∙ h
      ∙ points_one q 256 roots b length-roots hb in
    let d7 = Determined-step 128 1 refl refl refl d8 in
    let d6 = Determined-step 64 2 refl refl refl d7 in
    let d5 = Determined-step 32 4 refl refl refl d6 in
    let d4 = Determined-step 16 8 refl refl refl d5 in
    let d3 = Determined-step 8 16 refl refl refl d4 in
    let d2 = Determined-step 4 32 refl refl refl d3 in
    let d1 = Determined-step 2 64 refl refl refl d2 in
    let d0 = Determined-step 1 128 refl refl refl d1 in
    d0 a b ha hb (
      points_all q 256 roots a length-roots ha
      ∙ same
      ∙ sym (points_all q 256 roots b length-roots hb))
