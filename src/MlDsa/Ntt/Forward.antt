-- ===== src/MlDsa/Ntt/Forward.antt =====
-- `mldsa_ntt` as evaluation.
use karudeb.Base.{ℕ, zero, suc, ◌+◌, ◌*◌, ◌^◌, ◌≤◌, ◌<◌, ◌≡◌, refl, sym, ap, ◌∙◌, arith, true}
use karudeb.Base.{
  ℤ, pos, residue, Within, List, ◌++◌, map, take, drop, length, All, zip_with, get_or,
}
use karudeb.Transform.Layers.{
  layer, values, points, Blocks-of_length, Splits, length-layer, All-layer,
}
use karudeb.Transform.Forward.{forward-points, points_all, points_one}
use karudeb.Transform.Roots.{splits, Splits-of_test}
use karudeb.MlDsa.Params.{q}
use karudeb.MlDsa.Ntt.{forward_low, forward_high, forward_layer, forward_loop, mldsa_ntt}
use karudeb.MlDsa.Ntt.Zetas.{zetas}
use karudeb.MlDsa.Ntt.Roots.{
  roots, root_numbers, plain, ascending, length-ascending, ascending-Within, length-roots,
}
use karudeb.MlDsa.Ntt.Butterflies.{forward_low_lem, forward_high_lem}

-- An array in the course of a transform: its size, its range, and the values of its blocks.
abbrev pub Stage : List ℕ → ℕ → ℕ → ℕ → List ℤ → Type 0
Stage target count len b a =
    (length a ≡ 256) × All (Within b) a × (points q count len roots a ≡ target)

forward_layer-layer :
    (left k len : ℕ) (a : List ℤ)
    → forward_layer left k len a ≡ layer forward_low forward_high (ascending left (k + 1)) len a
unfolding forward_layer layer ascending
forward_layer-layer zero k len a = refl
forward_layer-layer (suc left) k len a =
    let lo = take len a in
    let hi = take len (drop len a) in
    let zeta = get_or zetas (k + 1) (pos 0) in
    ap (λ t. zip_with (forward_low zeta) lo hi ++ (zip_with (forward_high zeta) lo hi ++ t))
      (forward_layer-layer left (k + 1) len (drop len (drop len a)))

forward_round :
    (target : List ℕ) (left k len b b' : ℕ) (a : List ℤ)
    → left * (len + len) ≡ 256
    → b + q ≤ b'
    → b' < 2 ^ 31
    → splits q (λ _. pos 1) plain len (ascending left (k + 1)) root_numbers ≡ true
    → Stage target left (len + len) b a
    → Stage target (left + left) len b' (forward_layer left k len a)
forward_round target left k len b b' a size wide fits test (long, small, same) =
    let zs = ascending left (k + 1) in
    let count : length zs ≡ left = length-ascending left (k + 1) in
    let blocks =
      Blocks-of_length len zs a (long ∙ sym size ∙ ap (λ (t : ℕ). t * (len + len)) (sym count)) in
    let hz = ascending-Within left (k + 1) in
    let split : Splits q (λ _. pos 1) plain len zs roots =
      unfold roots in Splits-of_test q (omega arith) (λ _. pos 1) plain len zs root_numbers test in
    let weaken : (c : ℤ) → Within (b + q) c → Within b' c = λ c hc. (omega arith, omega arith) in
    let h : b + q < 2 ^ 31 = omega arith in
    let values_kept =
      forward-points q (omega arith) (Within b) (Within (2 ^ 22)) plain forward_low forward_high
        (λ z x y hz hx hy. (forward_low_lem b z x y hz hx hy h).0)
        (λ z x y hz hx hy. (forward_high_lem b z x y hz hx hy h).0) len zs roots a blocks split hz
        small in
    rw (forward_layer-layer left k len a) (
      length-layer forward_low forward_high len zs a blocks ∙ long,
      All-layer (Within b) (Within b') (Within (2 ^ 22)) forward_low forward_high len zs a
          (λ z x y hz hx hy. (
            weaken (forward_low z x y) (forward_low_lem b z x y hz hx hy h).1,
            weaken (forward_high z x y) (forward_high_lem b z x y hz hx hy h).1,
          ))
          blocks hz small,
      ap (λ (t : ℕ). points q (t + t) len roots (layer forward_low forward_high zs len a))
            (sym count)
          ∙ sym values_kept
          ∙ ap (λ (t : ℕ). points q t (len + len) roots a) count
          ∙ same,
    )

-- On 256 numbers of absolute value at most b, where b + 8 q is below 2 ^ 31, `mldsa_ntt` gives modulo q the
-- values of the polynomial at the 256 odd powers of the root of unity 1753, in the order of the reversed
-- bits; the results are within b + 8 q.
pub mldsa_ntt_lem :
    (b : ℕ) (a : List ℤ)
    → length a ≡ 256
    → All (Within b) a
    → b + 8 * q < 2 ^ 31
    → (map (λ c. residue c q) (mldsa_ntt a) ≡ values q roots a)
      × All (Within (b + 8 * q)) (mldsa_ntt a)
      × (length (mldsa_ntt a) ≡ 256)
unfolding mldsa_ntt forward_loop splits ascending root_numbers
mldsa_ntt_lem b a long small h =
    let v = values q roots a in
    let s0 : Stage v 1 256 b a = (long, small, points_all q 256 roots a length-roots long) in
    let s1 = forward_round v 1 0 128 b (b + q) a refl (omega arith) (omega arith) refl s0 in
    let s2 =
      forward_round v 2 1 64 (b + q) (b + 2 * q) _ refl (omega arith) (omega arith) refl s1 in
    let s3 =
      forward_round v 4 3 32 (b + 2 * q) (b + 3 * q) _ refl (omega arith) (omega arith) refl s2 in
    let s4 =
      forward_round v 8 7 16 (b + 3 * q) (b + 4 * q) _ refl (omega arith) (omega arith) refl s3 in
    let s5 =
      forward_round v 16 15 8 (b + 4 * q) (b + 5 * q) _ refl (omega arith) (omega arith) refl s4 in
    let s6 =
      forward_round v 32 31 4 (b + 5 * q) (b + 6 * q) _ refl (omega arith) (omega arith) refl s5 in
    let s7 =
      forward_round v 64 63 2 (b + 6 * q) (b + 7 * q) _ refl (omega arith) (omega arith) refl s6 in
    let (long', small', same) =
      forward_round v 128 127 1 (b + 7 * q) (b + 8 * q) _ refl (omega arith) (omega arith) refl
        s7 in
    (sym (points_one q 256 roots (mldsa_ntt a) length-roots long') ∙ same, small', long')
