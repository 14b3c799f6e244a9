-- ===== src/MlDsa/Poly/Norm.antt =====
-- `poly_chknorm` decides the bound on the absolute values.
use karudeb.Base.{
  ℕ, ◌+◌, ◌-◌, ◌*◌, ◌/◌, ◌%◌, ◌^◌, ◌≤◌, ◌<◌, ◌≡◌, ◌⊎◌, inl, inr, refl, ap, ◌∙◌, arith,
}
use karudeb.Base.{ℤ, pos, negsuc, pos_part, neg_part, ◌-ℤ◌, ◌*ℤ◌, residue, div, i32, i32_fits}
use karudeb.Base.{List, [], ◌∷◌, All, Within, bit_and, to_u32, ones-bit_and, ltb_ℤ, true, false}
use karudeb.Base.{div_parts, eq_of_parts, -ℤ_parts, lt→ltb, le→ltb}
use Prim.Native.Nat.{bit_and-bitwise}
use karudeb.MlDsa.Params.{q}
use karudeb.MlDsa.Poly.{absolute, chknorm_loop, poly_chknorm}

absolute_pos : (n : ℕ) → n < 2 ^ 30 → absolute (pos n) ≡ pos n
unfolding absolute div residue
absolute_pos n h =
    let e : n / 2 ^ 31 ≡ 0 = omega arith in
    let none_set : i32 (pos (bit_and 0 (to_u32 (pos 2 *ℤ pos n)))) ≡ pos 0 =
      rw (bit_and-bitwise 0 (to_u32 (pos 2 *ℤ pos n)))
        (i32_fits (pos 0) (omega arith) (omega arith)) in
    let same : pos n -ℤ pos 0 ≡ pos n = eq_of_parts _ _ (omega (arith, -ℤ_parts (pos n) (pos 0))) in
    rw (e, none_set, same) (i32_fits (pos n) (omega arith) (omega arith))

-- The mask of a negative number keeps twice the number.
doubled : (n : ℕ) → n < 2 ^ 30 → i32 (pos (to_u32 (pos 2 *ℤ negsuc n))) ≡ negsuc (2 * n + 1)
unfolding i32 residue ◌*ℤ◌
doubled n h = ground arith

absolute_negsuc : (n : ℕ) → n < 2 ^ 30 → absolute (negsuc n) ≡ pos (n + 1)
unfolding absolute div
absolute_negsuc n h =
    let e : n / 2 ^ 31 ≡ 0 = omega arith in
    let all_set : to_u32 (negsuc 0) ≡ 2 ^ 32 - 1 = unfold residue in refl in
    let small : to_u32 (pos 2 *ℤ negsuc n) < 2 ^ 32 =
      omega (arith, div_parts (pos 2 *ℤ negsuc n) (2 ^ 32) (omega arith)) in
    let kept : to_u32 (pos 2 *ℤ negsuc n) % 2 ^ 32 ≡ to_u32 (pos 2 *ℤ negsuc n) = omega arith in
    let sum : negsuc n -ℤ negsuc (2 * n + 1) ≡ pos (n + 1) =
      eq_of_parts _ _ (omega (arith, -ℤ_parts (negsuc n) (negsuc (2 * n + 1)))) in
    rw
      (
        e,
        all_set,
        ones-bit_and 32 (2 ^ 32 - 1) (to_u32 (pos 2 *ℤ negsuc n)) refl,
        kept,
        doubled n h,
        sum,
      )
      (i32_fits (pos (n + 1)) (omega arith) (omega arith))

-- The absolute value of a coefficient.
magnitude : (c : ℤ) → Within (2 ^ 30 - 1) c → absolute c ≡ pos (pos_part c + neg_part c)
magnitude (pos n) h = absolute_pos n (omega arith) ∙ ap pos (omega arith)
magnitude (negsuc n) h = absolute_negsuc n (omega arith) ∙ ap pos (omega arith)

abbrev pub Below : ℕ → ℤ → Type 0
Below bound c = pos_part c + neg_part c < bound

loop_decides :
    (bound : ℕ) (a : List ℤ)
    → All (Within (2 ^ 30 - 1)) a
    → ((chknorm_loop a (pos bound) ≡ 0) × All (Below bound) a)
      ⊎ ((chknorm_loop a (pos bound) ≡ 1) × (¬ All (Below bound) a))
unfolding chknorm_loop
loop_decides bound [] h = inl (refl, tt)
loop_decides bound (c ∷ cs) (hc, h) = elim (small_or_large (pos_part c + neg_part c) bound) [
  | inl small ↦
      let test : ltb_ℤ (absolute c) (pos bound) ≡ true =
        rw (magnitude c hc) (lt→ltb _ _ (omega arith)) in
      elim (loop_decides bound cs h) [
        | inl (zero_given, below) ↦ inl (rw (test, zero_given) refl, (small, below))
        | inr (one_given, above) ↦ inr (rw (test, one_given) refl, λ all. above all.1)
      ]
  | inr large ↦
      let test : ltb_ℤ (absolute c) (pos bound) ≡ false =
        rw (magnitude c hc) (le→ltb _ _ (omega arith)) in
      inr (rw test refl, λ all. absurd (omega (arith, all.0)))
]
  where
    small_or_large : (x y : ℕ) → (x < y) ⊎ (y ≤ x)
    small_or_large x y = ground arith

-- A bound of at most (q - 1) / 8 above the absolute value of every coefficient.
abbrev pub IsShort : ℕ → List ℤ → Type 0
IsShort bound a = (bound ≤ (q - 1) / 8) × All (Below bound) a

-- On coefficients below 2^30 in absolute value, `poly_chknorm` gives 0 and the bound is at most
-- (q - 1) / 8 and above the absolute value of every coefficient, or it gives 1 and the bound is not.
pub poly_chknorm_lem :
    (a : List ℤ) (bound : ℕ)
    → All (Within (2 ^ 30 - 1)) a
    → ((poly_chknorm a (pos bound) ≡ 0) × IsShort bound a)
      ⊎ ((poly_chknorm a (pos bound) ≡ 1) × ¬ IsShort bound a)
unfolding poly_chknorm
poly_chknorm_lem a bound h = elim (wide_or_not bound) [
  | inl wide ↦
      let test : ltb_ℤ (pos ((q - 1) / 8)) (pos bound) ≡ true = lt→ltb _ _ (omega arith) in
      inr (rw test refl, λ short. absurd (omega (arith, short.0)))
  | inr narrow ↦
      let test : ltb_ℤ (pos ((q - 1) / 8)) (pos bound) ≡ false = le→ltb _ _ (omega arith) in
      elim (loop_decides bound a h) [
        | inl (zero_given, below) ↦ inl (rw (test, zero_given) refl, (narrow, below))
        | inr (one_given, above) ↦ inr (rw (test, one_given) refl, λ short. above short.1)
      ]
]
  where
    wide_or_not : (x : ℕ) → ((q - 1) / 8 < x) ⊎ (x ≤ (q - 1) / 8)
    wide_or_not x = ground arith
