-- ===== src/MlDsa/Rounding/HighBits.antt =====
-- The high and low bits of `decompose_32` and `decompose_88`.
use karudeb.Base.{ℕ, ◌+◌, ◌-◌, ◌*◌, ◌/◌, ◌%◌, ◌^◌, ◌≤◌, ◌<◌, ◌≡◌, ◌⊎◌, inl, inr, refl, arith}
use karudeb.Base.{ℤ, pos, negsuc, pos_part, neg_part, ◌+ℤ◌, ◌-ℤ◌, ◌*ℤ◌, eq_of_parts}
use karudeb.Base.{shr, residue, div, -ℤ_parts, one_part_zero}
use karudeb.Base.{and_mask, bit_and, bit_and_ones, bit_xor, i32, to_u32, holds_below, read_equation}
use karudeb.MlDsa.Params.{q}
use karudeb.MlDsa.Rounding.{decompose_32, decompose_88, low_bits}

-- The quotient by 2 * gamma2 that the code rounds, by its multiplications and shifts.
abbrev rounded_32 : ℕ → ℕ
rounded_32 n = ((n + 127) / 2 ^ 7 * 1025 + 2 ^ 21) / 2 ^ 22

rounded_32_bounds :
    (n : ℕ) → n < q → (523776 * rounded_32 n < n + 261888) × (n ≤ 523776 * rounded_32 n + 261888)
rounded_32_bounds n h = (omega arith, omega arith)

abbrev rounded_88 : ℕ → ℕ
rounded_88 n = ((n + 127) / 2 ^ 7 * 11275 + 2 ^ 23) / 2 ^ 24

rounded_88_bounds :
    (n : ℕ) → n < q → (190464 * rounded_88 n < n + 95232) × (n ≤ 190464 * rounded_88 n + 95232)
rounded_88_bounds n h = (omega arith, omega arith)

-- The mask that the code computes from the sign of an int32_t.
mask_zero : (v : ℤ) → neg_part v ≡ 0 → pos_part v < 2 ^ 31 → and_mask (shr v 31) q ≡ 0
unfolding div and_mask residue
mask_zero (pos n) h k = let e : n / 2 ^ 31 ≡ 0 = omega arith in rw e
mask_zero (negsuc n) h k = absurd (omega arith)

mask_all : (v : ℤ) → 0 < neg_part v → neg_part v ≤ 2 ^ 31 → and_mask (shr v 31) q ≡ q
unfolding div and_mask residue
mask_all (pos n) h k = absurd (omega arith)
mask_all (negsuc n) h k = let e : n / 2 ^ 31 ≡ 0 = omega arith in rw e

-- The correction of the low bits, which subtracts q from what lies above (q - 1) / 2.
corrected : (w : ℤ) → ℤ
corrected w = w -ℤ pos (and_mask (shr (pos ((q - 1) / 2) -ℤ w) 31) q)

corrected_small : (w : ℤ) → pos_part w ≤ (q - 1) / 2 → neg_part w < 2 ^ 31 - q → corrected w ≡ w
unfolding corrected
corrected_small w h k =
    let v : ℤ = pos ((q - 1) / 2) -ℤ w in
    rw
      (mask_zero v (omega (arith, -ℤ_parts (pos ((q - 1) / 2)) w, one_part_zero v, one_part_zero w))
        (omega (arith, -ℤ_parts (pos ((q - 1) / 2)) w, one_part_zero v, one_part_zero w)))
      (eq_of_parts (w -ℤ pos 0) w (omega (arith, -ℤ_parts w (pos 0))))

corrected_large : (n : ℕ) → n < q → (q - 1) / 2 < n → corrected (pos n) ≡ negsuc (q - 1 - n)
unfolding corrected
corrected_large n h k =
    let v : ℤ = pos ((q - 1) / 2) -ℤ pos n in
    rw
      (mask_all v (omega (arith, -ℤ_parts (pos ((q - 1) / 2)) (pos n), one_part_zero v))
        (omega (arith, -ℤ_parts (pos ((q - 1) / 2)) (pos n), one_part_zero v)))
      (eq_of_parts (pos n -ℤ pos q) _ (omega (arith, -ℤ_parts (pos n) (pos q))))

-- For a representative n, high bits a1 below a bound and low bits a0: either n = a1 * 2 gamma2 + a0 with
-- -gamma2 < a0 <= gamma2, or a1 = 0 and a0 = n - q with -gamma2 <= a0 <= 0.
abbrev pub IsDecomposition : ℕ → ℕ → ℕ → ℤ × ℤ → Type 0
IsDecomposition gamma2 bound n (a1, a0) =
    (neg_part a1 ≡ 0)
    × (pos_part a1 < bound)
    × (((n + neg_part a0 ≡ pos_part a1 * 2 * gamma2 + pos_part a0)
          × (pos_part a0 ≤ gamma2)
          × (neg_part a0 < gamma2))
        ⊎ ((a1 ≡ pos 0) × (n + neg_part a0 ≡ q) × (pos_part a0 ≡ 0) × (neg_part a0 ≤ gamma2)))

product : (h m : ℕ) → pos h *ℤ pos 2 *ℤ pos m ≡ pos (h * 2 * m)
unfolding ◌*ℤ◌
product h m = ground arith

-- The low bits of a quotient that was rounded to the nearest and did not wrap.
decomposed :
    (gamma2 bound n h : ℕ)
    → gamma2 < q / 2
    → h < bound
    → h * 2 * gamma2 < n + gamma2
    → n ≤ h * 2 * gamma2 + gamma2
    → IsDecomposition gamma2 bound n (pos h, low_bits (pos n) (pos h) gamma2)
unfolding low_bits
decomposed gamma2 bound n h g b below above =
    let w : ℤ = pos n -ℤ pos (h * 2 * gamma2) in
    let low : low_bits (pos n) (pos h) gamma2 ≡ w = rw (product h gamma2) (
      unfold corrected in
      corrected_small w (omega (arith, -ℤ_parts (pos n) (pos (h * 2 * gamma2)), one_part_zero w))
        (omega (arith, -ℤ_parts (pos n) (pos (h * 2 * gamma2)), one_part_zero w))) in
    (
      refl,
      b,
      inl (rw low (omega (arith, -ℤ_parts (pos n) (pos (h * 2 * gamma2)), one_part_zero w))),
    )

-- The low bits of the last quotient, which wraps to 0.
wrapped :
    (gamma2 bound n : ℕ)
    → n < q
    → (q - 1) / 2 < n
    → q ≤ n + gamma2
    → 0 < bound
    → IsDecomposition gamma2 bound n (pos 0, low_bits (pos n) (pos 0) gamma2)
unfolding low_bits
wrapped gamma2 bound n h k g b =
    let none_taken : pos n -ℤ pos 0 *ℤ pos 2 *ℤ pos gamma2 ≡ pos n =
      rw (product 0 gamma2)
        (eq_of_parts _ _ (omega (arith, -ℤ_parts (pos n) (pos (0 * 2 * gamma2))))) in
    let low : low_bits (pos n) (pos 0) gamma2 ≡ negsuc (q - 1 - n) =
      rw none_taken (unfold corrected in corrected_large n h k) in
    (refl, b, inr (refl, rw low (omega arith), rw low (omega arith), rw low (omega arith)))

pos_sum : (a b : ℕ) → pos a +ℤ pos b ≡ pos (a + b)
unfolding ◌+ℤ◌
pos_sum a b = ground arith

pos_product : (a b : ℕ) → pos a *ℤ pos b ≡ pos (a * b)
unfolding ◌*ℤ◌
pos_product a b = ground arith

-- The high bits of `decompose_32` and of `decompose_88`.
high_32 :
    (n : ℕ)
    → n < q
    → and_mask (shr (shr (pos n +ℤ pos 127) 7 *ℤ pos 1025 +ℤ pos (2 ^ 21)) 22) 15
      ≡ rounded_32 n % 16
unfolding and_mask div residue
high_32 n h =
    rw
      (
        pos_sum n 127,
        pos_product ((n + 127) / 2 ^ 7) 1025,
        pos_sum ((n + 127) / 2 ^ 7 * 1025) (2 ^ 21),
        bit_and_ones 4 (rounded_32 n % 2 ^ 32) 15 refl,
      )
      (omega arith)

decompose_32_value :
    (n : ℕ)
    → n < q
    → decompose_32 (pos n)
      ≡ (pos (rounded_32 n % 16), low_bits (pos n) (pos (rounded_32 n % 16)) 261888)
unfolding decompose_32
decompose_32_value n h = rw (high_32 n h) refl

lt_or_last : (x last : ℕ) → x ≤ last → (x < last) ⊎ (x ≡ last)
lt_or_last x last h = ground arith

-- On a standard representative n, `decompose_32` gives a1 and a0, with a1 below 16: either
-- n = a1 * 523776 + a0 and -261888 < a0 <= 261888, or a1 = 0, a0 = n - q and -261888 <= a0 <= 0.
pub decompose_32_lem : (n : ℕ) → n < q → IsDecomposition 261888 16 n (decompose_32 (pos n))
decompose_32_lem n h = elim (lt_or_last (rounded_32 n) 16 (omega arith)) [
  | inl less ↦
      let same : rounded_32 n % 16 ≡ rounded_32 n = omega arith in
      rw (decompose_32_value n h, same)
        (decomposed 261888 16 n (rounded_32 n) (omega arith) (omega arith) (omega arith)
          (omega arith))
  | inr last ↦
      let none_left : rounded_32 n % 16 ≡ 0 = omega arith in
      rw (decompose_32_value n h, none_left)
        (wrapped 261888 16 n h (omega arith) (omega arith) (omega arith))
]

-- The last step of the high bits of `decompose_88`, which sends 44 to 0.
wrap_88 : ℕ → ℤ
wrap_88 t =
    i32 (
      pos (bit_xor (to_u32 (pos t)) (bit_and (to_u32 (shr (pos 43 -ℤ pos t) 31)) (to_u32 (pos t)))))

wrap_88-small : (t : ℕ) → t < 44 → wrap_88 t ≡ pos t
unfolding wrap_88 holds_below i32 residue div ◌-ℤ◌
wrap_88-small t h = eq_of_parts (wrap_88 t) (pos t) (
    omega (
      arith,
      read_equation (λ i. pos_part (wrap_88 i)) (λ i. i) 44 t refl h,
      read_equation (λ i. neg_part (wrap_88 i)) (λ i. 0) 44 t refl h,
    ))

wrap_88-last : wrap_88 44 ≡ pos 0
unfolding wrap_88 i32 residue div ◌-ℤ◌
wrap_88-last = refl

decompose_88_value :
    (n : ℕ)
    → n < q
    → decompose_88 (pos n)
      ≡ (wrap_88 (rounded_88 n), low_bits (pos n) (wrap_88 (rounded_88 n)) 95232)
unfolding decompose_88 wrap_88 div
decompose_88_value n h =
    rw
      (
        pos_sum n 127,
        pos_product ((n + 127) / 2 ^ 7) 11275,
        pos_sum ((n + 127) / 2 ^ 7 * 11275) (2 ^ 23),
      )
      refl

-- On a standard representative n, `decompose_88` gives a1 and a0, with a1 below 44: either
-- n = a1 * 190464 + a0 and -95232 < a0 <= 95232, or a1 = 0, a0 = n - q and -95232 <= a0 <= 0.
pub decompose_88_lem : (n : ℕ) → n < q → IsDecomposition 95232 44 n (decompose_88 (pos n))
decompose_88_lem n h = elim (lt_or_last (rounded_88 n) 44 (omega arith)) [
  | inl less ↦
      rw (decompose_88_value n h, wrap_88-small (rounded_88 n) less)
        (decomposed 95232 44 n (rounded_88 n) (omega arith) (omega arith) (omega arith)
          (omega arith))
  | inr last ↦
      rw (decompose_88_value n h, last, wrap_88-last)
        (wrapped 95232 44 n h (omega arith) (omega arith) (omega arith))
]
