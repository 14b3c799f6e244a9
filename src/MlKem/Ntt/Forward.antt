-- ===== src/MlKem/Ntt/Forward.antt =====
-- `mlkem_ntt` as evaluation of the even and of the odd coefficients.
use karudeb.Base.{ℕ, zero, suc, ◌+◌, ◌*◌, ◌^◌, ◌≤◌, ◌<◌, ◌≡◌, refl, sym, ap, ◌∙◌, arith, Bool, true}
use karudeb.Base.{ℤ, pos, Within, List, ◌++◌, take, drop, length, All, zip_with, get_or}
use karudeb.Transform.Layers.{
  layer, values, points, Blocks, Blocks-of_length, Splits, length-layer, All-layer,
}
use karudeb.Transform.Forward.{forward-points, points_all, points_one}
use karudeb.Transform.Parity.{pick, pick-layer, length-pick, All-pick}
use karudeb.Transform.Roots.{splits, Splits-of_test}
use karudeb.Transform.Table.{ascending, length-ascending, ascending-Within}
use karudeb.Transform.Unique.{residues}
use karudeb.MlKem.Reduce.{q}
use karudeb.MlKem.Ntt.{ntt_low, ntt_high, ntt_layer, ntt_loop, mlkem_ntt}
use karudeb.MlKem.Ntt.Zetas.{mlkem_zetas}
use karudeb.MlKem.Ntt.Roots.{roots, root_numbers, plain, table-Within, length-roots}
use karudeb.MlKem.Ntt.Butterflies.{ntt_low_lem, ntt_high_lem}

-- An array in the course of a transform: its size, its range, and the values of the blocks of its
-- coefficients of either parity.
abbrev Stage : (Bool → List ℕ) → ℕ → ℕ → ℕ → List ℤ → Type 0
Stage target count len b a =
    (length a ≡ 256)
    × All (Within b) a
    × ((p : Bool) → points q count len roots (pick p a) ≡ target p)

ntt_layer-layer :
    (left k len : ℕ) (a : List ℤ)
    → ntt_layer left k len a ≡ layer ntt_low ntt_high (ascending mlkem_zetas left k) len a
unfolding ntt_layer layer ascending
ntt_layer-layer zero k len a = refl
ntt_layer-layer (suc left) k len a =
    let lo = take len a in
    let hi = take len (drop len a) in
    let zeta = get_or mlkem_zetas k (pos 0) in
    ap (λ t. zip_with (ntt_low zeta) lo hi ++ (zip_with (ntt_high zeta) lo hi ++ t))
      (ntt_layer-layer left (k + 1) len (drop len (drop len a)))

-- An array of 256 coefficients has a block for each factor, and so has each parity.
pub parity-Blocks :
    (p : Bool) (m : ℕ) (zs a : List ℤ)
    → length a ≡ 256
    → length zs * (m + m) ≡ 128
    → Blocks (m + m) zs a × Blocks m zs (pick p a)
parity-Blocks p m zs a long size =
    let e : length zs * (m + m + (m + m)) ≡ 256 = grind arith in
    (
      Blocks-of_length (m + m) zs a (long ∙ sym e),
      Blocks-of_length m zs (pick p a) (length-pick p 128 a long ∙ sym size),
    )

ntt_round :
    (target : Bool → List ℕ) (left k m b b' : ℕ) (a : List ℤ)
    → left * (m + m) ≡ 128
    → b + q ≤ b'
    → b' < 2 ^ 15
    → splits q (λ _. pos 1) plain m (ascending mlkem_zetas left k) root_numbers ≡ true
    → Stage target left (m + m) b a
    → Stage target (left + left) m b' (ntt_layer left k (m + m) a)
ntt_round target left k m b b' a size wide fits test (long, small, same) =
    let zs = ascending mlkem_zetas left k in
    let count : length zs ≡ left = length-ascending mlkem_zetas left k in
    let size' : length zs * (m + m) ≡ 128 = ap (λ (t : ℕ). t * (m + m)) count ∙ size in
    let blocks = (parity-Blocks true m zs a long size').0 in
    let hz = ascending-Within 1664 mlkem_zetas left k table-Within in
    let split : Splits q (λ _. pos 1) plain m zs roots =
      unfold roots in Splits-of_test q (omega arith) (λ _. pos 1) plain m zs root_numbers test in
    let weaken : (c : ℤ) → Within (b + q) c → Within b' c = λ c hc. (omega arith, omega arith) in
    let h : b + q < 2 ^ 15 = omega arith in
    let kept : (p : Bool)
        → points q (length zs) (m + m) roots (pick p a)
          ≡ points q (length zs + length zs) m roots (layer ntt_low ntt_high zs m (pick p a)) =
      λ p.
        forward-points q (omega arith) (Within b) (Within 1664) plain ntt_low ntt_high
          (λ z x y hz hx hy. (ntt_low_lem b z x y hz hx hy h).0)
          (λ z x y hz hx hy. (ntt_high_lem b z x y hz hx hy h).0) m zs roots (pick p a)
          (parity-Blocks p m zs a long size').1 split hz (All-pick (Within b) p a small) in
    rw (ntt_layer-layer left k (m + m) a) (
      length-layer ntt_low ntt_high (m + m) zs a blocks ∙ long,
      All-layer (Within b) (Within b') (Within 1664) ntt_low ntt_high (m + m) zs a
          (λ z x y hz hx hy. (
            weaken (ntt_low z x y) (ntt_low_lem b z x y hz hx hy h).1,
            weaken (ntt_high z x y) (ntt_high_lem b z x y hz hx hy h).1,
          ))
          blocks hz small,
      λ p.
          ap (points q (left + left) m roots) (pick-layer p ntt_low ntt_high m zs a blocks)
          ∙ ap (λ (t : ℕ). points q (t + t) m roots (layer ntt_low ntt_high zs m (pick p a)))
              (sym count)
          ∙ sym (kept p)
          ∙ ap (λ (t : ℕ). points q t (m + m) roots (pick p a)) count
          ∙ same p,
    )

-- On 256 numbers of absolute value at most b, where b + 7 q is below 2 ^ 15, the results of `mlkem_ntt` at
-- the even indices are modulo q the values of the even coefficients, as a polynomial of their own, at the
-- 128 odd powers of the root of unity 17 in the order of the reversed bits, and those at the odd indices
-- the values of the odd coefficients; the results are within b + 7 q.
pub mlkem_ntt_lem :
    (b : ℕ) (a : List ℤ)
    → length a ≡ 256
    → All (Within b) a
    → b + 7 * q < 2 ^ 15
    → ((p : Bool) → residues q (pick p (mlkem_ntt a)) ≡ values q roots (pick p a))
      × All (Within (b + 7 * q)) (mlkem_ntt a)
      × (length (mlkem_ntt a) ≡ 256)
unfolding mlkem_ntt ntt_loop splits ascending root_numbers
mlkem_ntt_lem b a long small h =
    let v : Bool → List ℕ = λ p. values q roots (pick p a) in
    let s0 : Stage v 1 128 b a = (
      long,
      small,
      λ p. points_all q 128 roots (pick p a) length-roots (length-pick p 128 a long),
    ) in
    let s1 = ntt_round v 1 1 64 b (b + q) a refl (omega arith) (omega arith) refl s0 in
    let s2 = ntt_round v 2 2 32 (b + q) (b + 2 * q) _ refl (omega arith) (omega arith) refl s1 in
    let s3 =
      ntt_round v 4 4 16 (b + 2 * q) (b + 3 * q) _ refl (omega arith) (omega arith) refl s2 in
    let s4 = ntt_round v 8 8 8 (b + 3 * q) (b + 4 * q) _ refl (omega arith) (omega arith) refl s3 in
    let s5 =
      ntt_round v 16 16 4 (b + 4 * q) (b + 5 * q) _ refl (omega arith) (omega arith) refl s4 in
    let s6 =
      ntt_round v 32 32 2 (b + 5 * q) (b + 6 * q) _ refl (omega arith) (omega arith) refl s5 in
    let (long', small', same) =
      ntt_round v 64 64 1 (b + 6 * q) (b + 7 * q) _ refl (omega arith) (omega arith) refl s6 in
    (
      λ p.
          sym (
            points_one q 128 roots (pick p (mlkem_ntt a)) length-roots
              (length-pick p 128 (mlkem_ntt a) long'))
          ∙ same p,
      small',
      long',
    )
