-- ===== src/MlKem/Ntt/Inverse.antt =====
-- `mlkem_invntt` as interpolation.
use karudeb.Base.{ℕ, zero, suc, ◌+◌, ◌-◌, ◌*◌, ◌^◌, ◌<◌, ◌≡◌, refl, sym, ap, ◌∙◌, arith, Bool, true}
use karudeb.Base.{
  ℤ, pos, ◌*ℤ◌, *ℤ_comm, *ℤ_assoc, *ℤ_parts, eq_of_parts, residue, Within, Congruent, List, ◌++◌,
  take, drop, length, All, zip_with, get_or, length-map,
}
use karudeb.Transform.Layers.{layer, values, points, Splits, length-layer, All-layer, All-map}
use karudeb.Transform.Forward.{points_all, points_one}
use karudeb.Transform.Inverse.{
  scaled, scaled_one, inverse-points, scaled-scaled, scaled-residue, values-map,
}
use karudeb.Transform.Parity.{pick, pick-layer, pick-map, length-pick, All-pick}
use karudeb.Transform.Roots.{splits, Splits-of_test}
use karudeb.Transform.Table.{descending, length-descending, descending-Within}
use karudeb.Transform.Unique.{residues}
use karudeb.MlKem.Reduce.{q, fqmul}
use karudeb.MlKem.Reduce.Products.{fqmul_lem}
use karudeb.MlKem.Ntt.{invntt_low, invntt_high, invntt_layer, invntt_loop, mlkem_invntt}
use karudeb.MlKem.Ntt.Zetas.{mlkem_zetas}
use karudeb.MlKem.Ntt.Roots.{roots, root_numbers, rinv, opposite, table-Within, length-roots}
use karudeb.MlKem.Ntt.Butterflies.{invntt_low_lem, invntt_high_lem, divided}
use karudeb.MlKem.Ntt.Forward.{parity-Blocks}

-- An array in the course of an inverse transform: its size, its range, and the values of the blocks of
-- its coefficients of either parity, which are `factor` times those of the start.
abbrev Stage : (Bool → List ℕ) → ℕ → ℕ → ℕ → ℕ → List ℤ → Type 0
Stage start factor count len b a =
    (length a ≡ 256)
    × All (Within b) a
    × ((p : Bool) → points q count len roots (pick p a) ≡ scaled q factor (start p))

invntt_layer-layer :
    (left k len : ℕ) (a : List ℤ)
    → invntt_layer left k len a
      ≡ layer (λ _. invntt_low) invntt_high (descending mlkem_zetas left k) len a
unfolding invntt_layer layer descending
invntt_layer-layer zero k len a = refl
invntt_layer-layer (suc left) k len a =
    let lo = take len a in
    let hi = take len (drop len a) in
    let zeta = get_or mlkem_zetas k (pos 0) in
    ap (λ t. zip_with invntt_low lo hi ++ (zip_with (invntt_high zeta) lo hi ++ t))
      (invntt_layer-layer left (k - 1) len (drop len (drop len a)))

invntt_round :
    (start : Bool → List ℕ) (factor left k m b : ℕ) (a : List ℤ)
    → left * (m + m) ≡ 128
    → b + b < 2 ^ 15
    → splits q opposite (λ _. pos 1) m (descending mlkem_zetas left k) root_numbers ≡ true
    → Stage start factor (left + left) m b a
    → Stage start (2 * factor) left (m + m) q (invntt_layer left k (m + m) a)
invntt_round start factor left k m b a size h test (long, small, same) =
    let zs = descending mlkem_zetas left k in
    let f = λ (z x y : ℤ). invntt_low x y in
    let count : length zs ≡ left = length-descending mlkem_zetas left k in
    let size' : length zs * (m + m) ≡ 128 = ap (λ (t : ℕ). t * (m + m)) count ∙ size in
    let blocks = (parity-Blocks true m zs a long size').0 in
    let hz = descending-Within 1664 mlkem_zetas left k table-Within in
    let split : Splits q opposite (λ _. pos 1) m zs roots =
      unfold roots in Splits-of_test q (omega arith) opposite (λ _. pos 1) m zs root_numbers test in
    let doubled : (p : Bool)
        → points q (length zs) (m + m) roots (layer f invntt_high zs m (pick p a))
          ≡ scaled q 2 (points q (length zs + length zs) m roots (pick p a)) =
      λ p.
        inverse-points q (omega arith) (Within b) (Within 1664) opposite f invntt_high
          (λ z x y hz hx hy. (invntt_low_lem b z x y hz hx hy h).0)
          (λ z x y hz hx hy. (invntt_high_lem b z x y hz hx hy h).0) m zs roots (pick p a)
          (parity-Blocks p m zs a long size').1 split hz (All-pick (Within b) p a small) in
    rw (invntt_layer-layer left k (m + m) a) (
      length-layer f invntt_high (m + m) zs a blocks ∙ long,
      All-layer (Within b) (Within q) (Within 1664) f invntt_high (m + m) zs a
          (λ z x y hz hx hy.
            ((invntt_low_lem b z x y hz hx hy h).1, (invntt_high_lem b z x y hz hx hy h).1))
          blocks hz small,
      λ p.
          ap (points q left (m + m) roots) (pick-layer p f invntt_high m zs a blocks)
          ∙ ap (λ (t : ℕ). points q t (m + m) roots (layer f invntt_high zs m (pick p a)))
              (sym count)
          ∙ doubled p
          ∙ ap (λ (t : ℕ). scaled q 2 (points q (t + t) m roots (pick p a))) count
          ∙ ap (scaled q 2) (same p)
          ∙ scaled-scaled q (omega arith) 2 factor (start p),
    )

-- The last loop multiplies by f / 2 ^ 16.
last_product :
    (c : ℤ)
    → Within q c
    → Congruent q (fqmul c (pos 1441)) (pos (1441 * rinv) *ℤ c)
      × Within (q - 1) (fqmul c (pos 1441))
last_product c h =
    let (same, above, below) = fqmul_lem q 1441 c (pos 1441) h (omega arith) (omega arith) in
    let e : pos 1441 *ℤ pos rinv ≡ pos (1441 * rinv) =
      eq_of_parts _ _ (omega (arith, *ℤ_parts (pos 1441) (pos rinv))) in
    (
      divided (fqmul c (pos 1441)) (c *ℤ pos 1441) same
          ∙ ap (λ u. residue u q)
              (*ℤ_assoc c (pos 1441) (pos rinv)
                ∙ ap (λ u. c *ℤ u) e
                ∙ *ℤ_comm c (pos (1441 * rinv))),
      (omega arith, omega arith),
    )

-- On 256 numbers of absolute value at most b, where 2 b is below 2 ^ 15, `mlkem_invntt` gives the polynomial
-- whose even coefficients have at the points of `mlkem_ntt` modulo q 2 ^ 16 times the numbers at the even
-- indices as values, and whose odd coefficients those at the odd indices; the coefficients are
-- smaller than q in absolute value.
pub mlkem_invntt_lem :
    (b : ℕ) (a : List ℤ)
    → length a ≡ 256
    → All (Within b) a
    → b + b < 2 ^ 15
    → ((p : Bool)
        → values q roots (pick p (mlkem_invntt a)) ≡ scaled q (2 ^ 16) (residues q (pick p a)))
      × All (Within (q - 1)) (mlkem_invntt a)
      × (length (mlkem_invntt a) ≡ 256)
unfolding mlkem_invntt invntt_loop splits descending root_numbers
mlkem_invntt_lem b a long small h =
    let v : Bool → List ℕ = λ p. residues q (pick p a) in
    let s0 : Stage v 1 128 1 b a = (
      long,
      small,
      λ p.
          points_one q 128 roots (pick p a) length-roots (length-pick p 128 a long)
          ∙ sym (scaled_one q (omega arith) (pick p a)),
    ) in
    let s1 = invntt_round v 1 64 127 1 b a refl h refl s0 in
    let s2 = invntt_round v 2 32 63 2 q _ refl (omega arith) refl s1 in
    let s3 = invntt_round v 4 16 31 4 q _ refl (omega arith) refl s2 in
    let s4 = invntt_round v 8 8 15 8 q _ refl (omega arith) refl s3 in
    let s5 = invntt_round v 16 4 7 16 q _ refl (omega arith) refl s4 in
    let s6 = invntt_round v 32 2 3 32 q _ refl (omega arith) refl s5 in
    let (long', small', same) = invntt_round v 64 1 1 64 q _ refl (omega arith) refl s6 in
    let c = invntt_loop 7 127 2 a in
    (
      λ p.
          ap (values q roots) (pick-map p (λ x. fqmul x (pos 1441)) c)
          ∙ values-map q (omega arith) (Within q) (λ x. fqmul x (pos 1441)) (1441 * rinv) roots
              (pick p c) (λ x h. (last_product x h).0) (All-pick (Within q) p c small')
          ∙ ap (scaled q (1441 * rinv)) (
              sym (points_all q 128 roots (pick p c) length-roots (length-pick p 128 c long'))
              ∙ same p)
          ∙ scaled-scaled q (omega arith) (1441 * rinv) 128 (v p)
          ∙ scaled-residue q (omega arith) (1441 * rinv * 128) (2 ^ 16) (v p) refl,
      All-map (Within q) (Within (q - 1)) _ c (λ x h. (last_product x h).1) small',
      length-map c _ ∙ long',
    )
