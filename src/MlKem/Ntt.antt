-- ===== src/MlKem/Ntt.antt =====
-- tools/pqc/mlkem/mlkem_ntt.c: the number-theoretic transform on int16_t coefficients. The loop over
-- a block of 2 len coefficients works on its two halves, element by element.
pub mod Zetas
pub mod Roots
pub mod Butterflies
pub mod Forward
pub mod Inverse
pub mod Determined
pub mod Product
pub mod Convolution
use karudeb.Base.{ℕ, zero, suc, ◌+◌, ◌-◌, ◌*◌, ◌/◌, ◌%◌, ◌^◌, ◌++◌, map}
use karudeb.Base.{ℤ, pos, ◌+ℤ◌, ◌-ℤ◌, ◌*ℤ◌, List, [], ◌∷◌, take, drop, zip_with, get_or, i16}
use karudeb.MlKem.Reduce.{q, montgomery_reduce, barrett_reduce, fqmul, basemul}
use Zetas.{mlkem_zetas}

-- mlkem_zetas[k]
abbrev pub zeta_at : ℕ → ℤ
zeta_at k = get_or mlkem_zetas k (pos 0)

-- What the inner loop of `mlkem_ntt` leaves in r[j] and in r[j + len].
unfoldable pub ntt_low : ℤ → ℤ → ℤ → ℤ
ntt_low zeta x y = let t = fqmul zeta y in i16 (x +ℤ t)

unfoldable pub ntt_high : ℤ → ℤ → ℤ → ℤ
ntt_high zeta x y = let t = fqmul zeta y in i16 (x -ℤ t)

-- The loop over `start`, with `left` blocks to go; each takes the next zeta.
unfoldable pub ntt_layer : ℕ → ℕ → ℕ → List ℤ → List ℤ
ntt_layer zero k len r = r
ntt_layer (suc left) k len r =
    let lo = take len r in
    let hi = take len (drop len r) in
    zip_with (ntt_low (zeta_at k)) lo hi
    ++ (zip_with (ntt_high (zeta_at k)) lo hi ++ ntt_layer left (k + 1) len (drop len (drop len r)))

-- The loop over len, halved each round, with `left` rounds to go: a layer has 128 / len blocks.
unfoldable pub ntt_loop : ℕ → ℕ → ℕ → List ℤ → List ℤ
ntt_loop zero k len r = r
ntt_loop (suc left) k len r =
    ntt_loop left (k + 128 / len) (len / 2) (ntt_layer (128 / len) k len r)

-- Seven rounds take len from 128 to 2.
unfoldable pub mlkem_ntt : List ℤ → List ℤ
mlkem_ntt r = ntt_loop 7 1 128 r

-- What the inner loop of `mlkem_invntt` leaves in r[j] and in r[j + len]. The sum is converted to
-- int16_t as the argument of `barrett_reduce`, the difference by the assignment.
unfoldable pub invntt_low : ℤ → ℤ → ℤ
invntt_low x y = let t = x in barrett_reduce (i16 (t +ℤ y))

unfoldable pub invntt_high : ℤ → ℤ → ℤ → ℤ
invntt_high zeta x y = let t = x in fqmul zeta (i16 (y -ℤ t))

unfoldable pub invntt_layer : ℕ → ℕ → ℕ → List ℤ → List ℤ
invntt_layer zero k len r = r
invntt_layer (suc left) k len r =
    let lo = take len r in
    let hi = take len (drop len r) in
    zip_with invntt_low lo hi
    ++ (zip_with (invntt_high (zeta_at k)) lo hi
        ++ invntt_layer left (k - 1) len (drop len (drop len r)))

unfoldable pub invntt_loop : ℕ → ℕ → ℕ → List ℤ → List ℤ
invntt_loop zero k len r = r
invntt_loop (suc left) k len r =
    invntt_loop left (k - 128 / len) (len * 2) (invntt_layer (128 / len) k len r)

-- Seven rounds take len from 2 to 128; f = 1441.
unfoldable pub mlkem_invntt : List ℤ → List ℤ
mlkem_invntt r = map (λ c. fqmul c (pos 1441)) (invntt_loop 7 127 2 r)

unfoldable pub mlkem_poly_reduce : List ℤ → List ℤ
mlkem_poly_reduce = map barrett_reduce

unfoldable pub mlkem_poly_ntt : List ℤ → List ℤ
mlkem_poly_ntt r = mlkem_poly_reduce (mlkem_ntt r)

unfoldable pub mlkem_poly_invntt_tomont : List ℤ → List ℤ
mlkem_poly_invntt_tomont r = mlkem_invntt r

-- `basemul` on four coefficients at a time; `left` counts the rounds, i the index.
unfoldable pub basemul_loop : ℕ → ℕ → List ℤ → List ℤ → List ℤ
basemul_loop (suc left) i (a0 ∷ a1 ∷ a2 ∷ a3 ∷ a) (b0 ∷ b1 ∷ b2 ∷ b3 ∷ b) =
    let r = basemul (a0, a1) (b0, b1) (zeta_at (64 + i)) in
    let s = basemul (a2, a3) (b2, b3) (pos 0 -ℤ zeta_at (64 + i)) in
    r.0 ∷ r.1 ∷ s.0 ∷ s.1 ∷ basemul_loop left (i + 1) a b
basemul_loop left i a b = []

unfoldable pub poly_basemul_montgomery : List ℤ → List ℤ → List ℤ
poly_basemul_montgomery a b = basemul_loop 64 0 a b

-- f = 2^32 mod q
unfoldable pub poly_tomont : List ℤ → List ℤ
poly_tomont = map (λ c. montgomery_reduce (c *ℤ pos (2 ^ 32 % q)))

unfoldable pub mlkem_poly_add : List ℤ → List ℤ → List ℤ
mlkem_poly_add a b = zip_with (λ x y. i16 (x +ℤ y)) a b

unfoldable pub mlkem_poly_sub : List ℤ → List ℤ → List ℤ
mlkem_poly_sub a b = zip_with (λ x y. i16 (x -ℤ y)) a b
