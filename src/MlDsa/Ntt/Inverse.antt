-- ===== src/MlDsa/Ntt/Inverse.antt =====
-- `mldsa_invntt` as interpolation.
use karudeb.Base.{ℕ, zero, suc, ◌+◌, ◌-◌, ◌*◌, ◌^◌, ◌≤◌, ◌<◌, ◌≡◌, refl, sym, ap, ◌∙◌, arith, true}
use karudeb.Base.{
  ℤ, pos, ◌-ℤ◌, ◌*ℤ◌, *ℤ_comm, *ℤ_assoc, residue, Within, Congruent, product-Within, *ℤ_parts,
  eq_of_parts,
}
use karudeb.Base.{List, ◌++◌, map, take, drop, length, All, zip_with, get_or, length-map}
use karudeb.Transform.Layers.{
  layer, values, points, Blocks-of_length, Splits, length-layer, All-layer, All-map,
}
use karudeb.Transform.Forward.{points_all, points_one}
use karudeb.Transform.Inverse.{
  scaled_one, scaled, inverse-points, scaled-scaled, scaled-residue, values-map,
}
use karudeb.Transform.Roots.{splits, Splits-of_test}
use karudeb.MlDsa.Params.{q}
use karudeb.MlDsa.Reduce.{montgomery_reduce}
use karudeb.MlDsa.Reduce.Montgomery.{montgomery_reduce-Congruent}
use karudeb.MlDsa.Ntt.{inverse_low, inverse_high, inverse_layer, inverse_loop, mldsa_invntt}
use karudeb.MlDsa.Ntt.Zetas.{zetas}
use karudeb.MlDsa.Ntt.Roots.{
  roots, root_numbers, rinv, plain, descending, length-descending, descending-Within, length-roots,
}
use karudeb.MlDsa.Ntt.Butterflies.{inverse_low_lem, inverse_high_lem, reduce_plain}

-- An array in the course of an inverse transform: its size, its range, and the values of its blocks,
-- which are `factor` times those of the start.
abbrev Stage : List ℕ → ℕ → ℕ → ℕ → ℕ → List ℤ → Type 0
Stage start factor count len b a =
    (length a ≡ 256) × All (Within b) a × (points q count len roots a ≡ scaled q factor start)

inverse_layer-layer :
    (left k len : ℕ) (a : List ℤ)
    → inverse_layer left k len a ≡ layer (λ _. inverse_low) inverse_high (descending left k) len a
unfolding inverse_layer layer descending
inverse_layer-layer zero k len a = refl
inverse_layer-layer (suc left) k len a =
    let lo = take len a in
    let hi = take len (drop len a) in
    let zeta = pos 0 -ℤ get_or zetas (k - 1) (pos 0) in
    ap (λ t. zip_with inverse_low lo hi ++ (zip_with (inverse_high zeta) lo hi ++ t))
      (inverse_layer-layer left (k - 1) len (drop len (drop len a)))

inverse_round :
    (start : List ℕ) (factor left k len b b' : ℕ) (a : List ℤ)
    → left * (len + len) ≡ 256
    → b + b ≤ b'
    → b' < 2 ^ 31
    → q ≤ b
    → splits q plain (λ _. pos 1) len (descending left k) root_numbers ≡ true
    → Stage start factor (left + left) len b a
    → Stage start (2 * factor) left (len + len) b' (inverse_layer left k len a)
inverse_round start factor left k len b b' a size wide fits large test (long, small, same) =
    let zs = descending left k in
    let f = λ (z x y : ℤ). inverse_low x y in
    let count : length zs ≡ left = length-descending left k in
    let blocks =
      Blocks-of_length len zs a (long ∙ sym size ∙ ap (λ (t : ℕ). t * (len + len)) (sym count)) in
    let hz = descending-Within left k in
    let split : Splits q plain (λ _. pos 1) len zs roots =
      unfold roots in Splits-of_test q (omega arith) plain (λ _. pos 1) len zs root_numbers test in
    let weaken : (c : ℤ) → Within (b + b) c → Within b' c = λ c hc. (omega arith, omega arith) in
    let h : b + b < 2 ^ 31 = omega arith in
    let values_doubled =
      inverse-points q (omega arith) (Within b) (Within (2 ^ 22)) plain f inverse_high
        (λ z x y hz hx hy. (inverse_low_lem b z x y hz hx hy h).0)
        (λ z x y hz hx hy. (inverse_high_lem b z x y hz hx hy h large).0) len zs roots a blocks
        split hz small in
    rw (inverse_layer-layer left k len a) (
      length-layer f inverse_high len zs a blocks ∙ long,
      All-layer (Within b) (Within b') (Within (2 ^ 22)) f inverse_high len zs a
          (λ z x y hz hx hy. (
            weaken (inverse_low x y) (inverse_low_lem b z x y hz hx hy h).1,
            weaken (inverse_high z x y) (inverse_high_lem b z x y hz hx hy h large).1,
          ))
          blocks hz small,
      ap (λ (t : ℕ). points q t (len + len) roots (layer f inverse_high zs len a)) (sym count)
          ∙ values_doubled
          ∙ ap (λ (t : ℕ). scaled q 2 (points q (t + t) len roots a)) count
          ∙ ap (scaled q 2) same
          ∙ scaled-scaled q (omega arith) 2 factor start,
    )

-- The last loop multiplies by f / 2 ^ 32, on numbers up to 256 q.
last_product :
    (c : ℤ)
    → Within (256 * q) c
    → Congruent q (montgomery_reduce (pos 41978 *ℤ c)) (pos (41978 * rinv) *ℤ c)
      × Within (q - 1) (montgomery_reduce (pos 41978 *ℤ c))
last_product c h =
    let f : Within 41978 (pos 41978) = omega arith in
    let p : Within (41978 * (256 * q)) (pos 41978 *ℤ c) = product-Within (pos 41978) c f h in
    let e : pos 41978 *ℤ pos rinv ≡ pos (41978 * rinv) =
      eq_of_parts _ _ (omega (arith, *ℤ_parts (pos 41978) (pos rinv))) in
    let (same, above, below) =
      montgomery_reduce-Congruent (pos 41978 *ℤ c) (omega arith, omega arith) in
    (
      reduce_plain (pos 41978 *ℤ c) (omega arith, omega arith)
          ∙ ap (λ u. residue u q)
              (*ℤ_assoc (pos 41978) c (pos rinv)
                ∙ ap (λ u. pos 41978 *ℤ u) (*ℤ_comm c (pos rinv))
                ∙ sym (*ℤ_assoc (pos 41978) (pos rinv) c)
                ∙ ap (λ u. u *ℤ c) e),
      (omega arith, omega arith),
    )

-- On 256 numbers of absolute value at most q, `mldsa_invntt` gives the polynomial whose values at the
-- points of `mldsa_ntt` are 2 ^ 32 times these numbers modulo q; the coefficients are smaller than q in
-- absolute value.
pub mldsa_invntt_lem :
    (a : List ℤ)
    → length a ≡ 256
    → All (Within q) a
    → (values q roots (mldsa_invntt a) ≡ scaled q (2 ^ 32) (map (λ c. residue c q) a))
      × All (Within (q - 1)) (mldsa_invntt a)
      × (length (mldsa_invntt a) ≡ 256)
unfolding mldsa_invntt inverse_loop splits descending root_numbers
mldsa_invntt_lem a long small =
    let v = map (λ c. residue c q) a in
    let s0 : Stage v 1 256 1 q a = (
      long,
      small,
      points_one q 256 roots a length-roots long ∙ sym (scaled_one q (omega arith) a),
    ) in
    let s1 =
      inverse_round v 1 128 256 1 q (2 * q) a refl (omega arith) (omega arith) (omega arith) refl
        s0 in
    let s2 =
      inverse_round v 2 64 128 2 (2 * q) (4 * q) _ refl (omega arith) (omega arith) (omega arith)
        refl s1 in
    let s3 =
      inverse_round v 4 32 64 4 (4 * q) (8 * q) _ refl (omega arith) (omega arith) (omega arith)
        refl s2 in
    let s4 =
      inverse_round v 8 16 32 8 (8 * q) (16 * q) _ refl (omega arith) (omega arith) (omega arith)
        refl s3 in
    let s5 =
      inverse_round v 16 8 16 16 (16 * q) (32 * q) _ refl (omega arith) (omega arith) (omega arith)
        refl s4 in
    let s6 =
      inverse_round v 32 4 8 32 (32 * q) (64 * q) _ refl (omega arith) (omega arith) (omega arith)
        refl s5 in
    let s7 =
      inverse_round v 64 2 4 64 (64 * q) (128 * q) _ refl (omega arith) (omega arith) (omega arith)
        refl s6 in
    let (long', small', same) =
      inverse_round v 128 1 2 128 (128 * q) (256 * q) _ refl (omega arith) (omega arith)
        (omega arith) refl s7 in
    let b = inverse_loop 8 256 1 a in
    (
      values-map q (omega arith) (Within (256 * q)) (λ c. montgomery_reduce (pos 41978 *ℤ c))
            (41978 * rinv) roots b (λ c h. (last_product c h).0) small'
          ∙ ap (scaled q (41978 * rinv)) (sym (points_all q 256 roots b length-roots long') ∙ same)
          ∙ scaled-scaled q (omega arith) (41978 * rinv) 256 v
          ∙ scaled-residue q (omega arith) (41978 * rinv * 256) (2 ^ 32) v refl,
      All-map (Within (256 * q)) (Within (q - 1)) _ b (λ c h. (last_product c h).1) small',
      length-map b _ ∙ long',
    )
