-- ===== src/MlKem/Ntt/Convolution.antt =====
-- Multiplication of polynomials with the functions of mlkem_ntt.c.
use karudeb.Base.{ℕ, ◌-◌, ◌*◌, ◌^◌, ◌≡◌, refl, sym, ap, ap₂, ◌∙◌, arith, Bool, true, false}
use karudeb.Base.{
  ℤ, pos, ◌-ℤ◌, ◌*ℤ◌, residue, Within, Congruent, List, [], ◌∷◌, map, length, length-map, All,
}
use karudeb.Transform.Evaluate.{power}
use karudeb.Transform.Layers.{values, All-map}
use karudeb.Transform.Inverse.{scaled}
use karudeb.Transform.Product.{negacyclic, length-negacyclic}
use karudeb.Transform.Parity.{pick, pick-map, pick_inj, length-pick, All-pick}
use karudeb.Transform.Parity.Product.{mixed, values-pick-negacyclic}
use karudeb.Transform.Unique.{residues}
use karudeb.Transform.Roots.{all_equal, all_equal_sound}
use karudeb.MlKem.Reduce.{q, barrett_reduce}
use karudeb.MlKem.Reduce.Barrett.{barrett_reduce_lem}
use karudeb.MlKem.Ntt.{
  mlkem_ntt, mlkem_invntt, mlkem_poly_ntt, mlkem_poly_reduce, mlkem_poly_invntt_tomont,
  basemul_loop, poly_basemul_montgomery,
}
use karudeb.MlKem.Ntt.Roots.{roots, root_numbers}
use karudeb.MlKem.Ntt.Forward.{mlkem_ntt_lem}
use karudeb.MlKem.Ntt.Inverse.{mlkem_invntt_lem}
use karudeb.MlKem.Ntt.Determined.{roots_determine}
use karudeb.MlKem.Ntt.Product.{gammas, gammas-roots, basemul_loop_lem}

-- Every point is a root of Y ^ 128 + 1.
roots_negacyclic : All (λ r. Congruent q (power r 128 *ℤ pos 1) (pos 0 -ℤ pos 1)) roots
unfolding roots root_numbers all_equal residue ◌-ℤ◌
roots_negacyclic =
    all_equal_sound q (omega arith) (λ _. pos 1) (λ _. pos 1) 128 (pos 1) (pos 0 -ℤ pos 1)
      root_numbers refl

root_residues : map (λ r. residue r q) roots ≡ root_numbers
unfolding roots root_numbers residue
root_residues = refl

residues-map :
    (P : ℤ → Type 0) (f : ℤ → ℤ) (a : List ℤ)
    → ((x : ℤ) → P x → Congruent q (f x) x)
    → All P a
    → residues q (map f a) ≡ residues q a
residues-map P f [] ok h = refl
residues-map P f (x ∷ a) ok h = ap₂ ◌∷◌ (ok x h.0) (residues-map P f a ok h.1)

abbrev Short : ℤ → Type 0
Short = Within 32767

barrett : (c : ℤ) → Short c → Congruent q (barrett_reduce c) c × Within 4095 (barrett_reduce c)
barrett c h =
    let (same, small) = barrett_reduce_lem c (omega arith) (omega arith) in
    (same, (omega arith, omega arith))

-- The transform with the reductions that follow it.
reduced_ntt :
    (a : List ℤ)
    → length a ≡ 256
    → All (Within 9464) a
    → ((p : Bool) → residues q (pick p (mlkem_poly_ntt a)) ≡ values q roots (pick p a))
      × All (Within 4095) (mlkem_poly_ntt a)
      × (length (mlkem_poly_ntt a) ≡ 256)
unfolding mlkem_poly_ntt mlkem_poly_reduce
reduced_ntt a long small =
    let (same, range, size) = mlkem_ntt_lem 9464 a long small (omega arith) in
    let c = mlkem_ntt a in
    (
      λ p.
          ap (residues q) (pick-map p barrett_reduce c)
          ∙ residues-map Short barrett_reduce (pick p c) (λ x h. (barrett x h).0)
              (All-pick Short p c range)
          ∙ same p,
      All-map Short (Within 4095) barrett_reduce c (λ x h. (barrett x h).1) range,
      length-map c barrett_reduce ∙ size,
    )

-- For two polynomials of 256 coefficients of absolute value at most 9464, transforming both with
-- `mlkem_poly_ntt`, multiplying with `poly_basemul_montgomery` and transforming back gives modulo q their
-- product modulo X ^ 256 + 1, with coefficients smaller than q in absolute value.
pub basemul-product :
    (a b : List ℤ)
    → length a ≡ 256
    → length b ≡ 256
    → All (Within 9464) a
    → All (Within 9464) b
    → (let c =
          mlkem_poly_invntt_tomont
            (poly_basemul_montgomery (mlkem_poly_ntt a) (mlkem_poly_ntt b)) in
        (residues q c ≡ residues q (negacyclic 256 a b))
        × All (Within (q - 1)) c
        × (length c ≡ 256))
unfolding mlkem_poly_invntt_tomont poly_basemul_montgomery
basemul-product a b long long' small small' =
    let (va, ra, la) = reduced_ntt a long small in
    let (vb, rb, lb) = reduced_ntt b long' small' in
    let a' = mlkem_poly_ntt a in
    let b' = mlkem_poly_ntt b in
    let m = basemul_loop 64 0 a' b' in
    let (even, odd, range, size) = basemul_loop_lem 64 0 a' b' la lb ra rb in
    let (vc, rc, lc) = mlkem_invntt_lem (2 * q) m size range (omega arith) in
    let product = negacyclic 256 a b in
    let lp = length-negacyclic 256 a b (omega arith) long long' in
    let half : (p : Bool)
        → scaled q (2 ^ 16) (residues q (pick p m))
          ≡ mixed q p (gammas 64 0) (residues q (pick false a')) (residues q (pick true a'))
              (residues q (pick false b')) (residues q (pick true b'))
        → residues q (pick p (mlkem_invntt m)) ≡ residues q (pick p product) =
      λ p e.
        roots_determine (pick p (mlkem_invntt m)) (pick p product)
          (length-pick p 128 (mlkem_invntt m) lc) (length-pick p 128 product lp)
          (vc p
            ∙ e
            ∙ ap₂
                (λ (t u : List ℕ).
                  mixed q p (gammas 64 0) t (residues q (pick true a')) u
                    (residues q (pick true b')))
                (va false) (vb false)
            ∙ ap₂
                (λ (t u : List ℕ).
                  mixed q p (gammas 64 0) (values q roots (pick false a)) t
                    (values q roots (pick false b)) u)
                (va true) (vb true)
            ∙ ap
                (λ (t : List ℕ).
                  mixed q p t (values q roots (pick false a)) (values q roots (pick true a))
                    (values q roots (pick false b)) (values q roots (pick true b)))
                (gammas-roots ∙ sym root_residues)
            ∙ sym (
                values-pick-negacyclic q (omega arith) p 128 roots a b (omega arith) long long'
                  roots_negacyclic)) in
    (
      pick_inj (residues q (mlkem_invntt m)) (residues q product)
          (pick-map false _ (mlkem_invntt m) ∙ half false even ∙ sym (pick-map false _ product))
          (pick-map true _ (mlkem_invntt m) ∙ half true odd ∙ sym (pick-map true _ product)),
      rc,
      lc,
    )
