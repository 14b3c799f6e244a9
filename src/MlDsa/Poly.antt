-- ===== src/MlDsa/Poly.antt =====
-- The operations of tools/pqc/mldsa/mldsa_poly.c on all coefficients of a polynomial, which is the list
-- of its int32_t coefficients. A function that writes two polynomials gives the pair of them.
pub mod Product
pub mod Norm
pub mod Sum
use karudeb.Base.{ℕ, ◌+◌, ◌-◌, ◌/◌, ◌^◌, ◌==◌, if◌then◌else◌, map}
use karudeb.Base.{ℤ, pos, ◌+ℤ◌, ◌-ℤ◌, ◌*ℤ◌, ltb_ℤ, List, [], ◌∷◌, zip_with, i32, u32, shr}
use karudeb.Base.{bit_and, to_u32}
use karudeb.MlDsa.Params.{MldsaParam, q, d}
use karudeb.MlDsa.Reduce.{montgomery_reduce, reduce32, caddq}
use karudeb.MlDsa.Rounding.{
  power2round, decompose_32, decompose_88, make_hint, use_hint_32, use_hint_88,
}
use karudeb.MlDsa.Ntt.{mldsa_ntt, mldsa_invntt}

unfoldable pub mldsa_poly_reduce : List ℤ → List ℤ
mldsa_poly_reduce = map reduce32

unfoldable pub poly_caddq : List ℤ → List ℤ
poly_caddq = map caddq

unfoldable pub mldsa_poly_add : List ℤ → List ℤ → List ℤ
mldsa_poly_add a b = zip_with (λ x y. i32 (x +ℤ y)) a b

unfoldable pub mldsa_poly_sub : List ℤ → List ℤ → List ℤ
mldsa_poly_sub a b = zip_with (λ x y. i32 (x -ℤ y)) a b

unfoldable pub poly_shiftl : List ℤ → List ℤ
poly_shiftl = map (λ c. i32 (c *ℤ pos (2 ^ d)))

unfoldable pub mldsa_poly_ntt : List ℤ → List ℤ
mldsa_poly_ntt a = mldsa_ntt a

unfoldable pub mldsa_poly_invntt_tomont : List ℤ → List ℤ
mldsa_poly_invntt_tomont a = mldsa_invntt a

unfoldable pub poly_pointwise_montgomery : List ℤ → List ℤ → List ℤ
poly_pointwise_montgomery a b = zip_with (λ x y. montgomery_reduce (x *ℤ y)) a b

-- The pair (a1, a0).
unfoldable pub poly_power2round : List ℤ → List ℤ × List ℤ
poly_power2round a = (map (λ c. (power2round c).0) a, map (λ c. (power2round c).1) a)

-- The pair (a1, a0).
unfoldable pub poly_decompose : MldsaParam → List ℤ → List ℤ × List ℤ
poly_decompose par a =
    if par.gamma2 == ((q - 1) / 32)
    then (map (λ c. (decompose_32 c).0) a, map (λ c. (decompose_32 c).1) a)
    else (map (λ c. (decompose_88 c).0) a, map (λ c. (decompose_88 c).1) a)

-- The sum s of the hints, in unsigned int.
unfoldable pub hint_sum : ℕ → List ℕ → ℕ
hint_sum s [] = s
hint_sum s (h ∷ hs) = hint_sum (u32 (s + h)) hs

-- The pair (h, s).
unfoldable pub poly_make_hint : MldsaParam → List ℤ → List ℤ → List ℕ × ℕ
unfolding hint_sum
poly_make_hint par a0 a1 =
    let h = zip_with (λ x y. make_hint x y par.gamma2) a0 a1 in (h, hint_sum 0 h)

unfoldable pub poly_use_hint : MldsaParam → List ℤ → List ℕ → List ℤ
poly_use_hint par a h =
    if par.gamma2 == ((q - 1) / 32) then zip_with use_hint_32 a h else zip_with use_hint_88 a h

-- The absolute value in `poly_chknorm`: a - ((a >> 31) & 2 * a), on the 32-bit patterns.
unfoldable pub absolute : ℤ → ℤ
absolute a = let t = shr a 31 in i32 (a -ℤ i32 (pos (bit_and (to_u32 t) (to_u32 (pos 2 *ℤ a)))))

-- The loop of `poly_chknorm`.
unfoldable pub chknorm_loop : List ℤ → ℤ → ℕ
chknorm_loop [] bb = 0
chknorm_loop (c ∷ cs) bb = if ltb_ℤ (absolute c) bb then chknorm_loop cs bb else 1

unfoldable pub poly_chknorm : List ℤ → ℤ → ℕ
unfolding chknorm_loop
poly_chknorm a bb = if ltb_ℤ (pos ((q - 1) / 8)) bb then 1 else chknorm_loop a bb
