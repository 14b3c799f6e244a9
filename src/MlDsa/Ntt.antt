-- ===== src/MlDsa/Ntt.antt =====
-- tools/pqc/mldsa/mldsa_ntt.c: the number-theoretic transform on int32_t coefficients. The loop over a
-- block of 2 len coefficients works on its two halves, element by element.
pub mod Zetas
pub mod Roots
pub mod Butterflies
pub mod Forward
pub mod Inverse
pub mod Determined
use karudeb.Base.{ℕ, zero, suc, ◌+◌, ◌-◌, ◌*◌, ◌/◌, ◌++◌, map}
use karudeb.Base.{ℤ, pos, ◌+ℤ◌, ◌-ℤ◌, ◌*ℤ◌, List, take, drop, zip_with, get_or, i32}
use karudeb.MlDsa.Reduce.{montgomery_reduce}
use Zetas.{zetas}

-- zetas[k]
abbrev zeta_of : ℕ → ℤ
zeta_of k = get_or zetas k (pos 0)

-- What the inner loop of `mldsa_ntt` leaves in a[j] and in a[j + len].
unfoldable pub forward_low : ℤ → ℤ → ℤ → ℤ
forward_low zeta x y = let t = montgomery_reduce (zeta *ℤ y) in i32 (x +ℤ t)

unfoldable pub forward_high : ℤ → ℤ → ℤ → ℤ
forward_high zeta x y = let t = montgomery_reduce (zeta *ℤ y) in i32 (x -ℤ t)

-- The loop over `start`, with `left` blocks to go; ++k comes before the zeta is read.
unfoldable pub forward_layer : ℕ → ℕ → ℕ → List ℤ → List ℤ
forward_layer zero k len a = a
forward_layer (suc left) k len a =
    let lo = take len a in
    let hi = take len (drop len a) in
    zip_with (forward_low (zeta_of (k + 1))) lo hi
    ++ (zip_with (forward_high (zeta_of (k + 1))) lo hi
        ++ forward_layer left (k + 1) len (drop len (drop len a)))

-- The loop over len, with `left` rounds to go: a layer has 128 / len blocks.
unfoldable pub forward_loop : ℕ → ℕ → ℕ → List ℤ → List ℤ
forward_loop zero k len a = a
forward_loop (suc left) k len a =
    forward_loop left (k + 128 / len) (len / 2) (forward_layer (128 / len) k len a)

-- Eight rounds take len from 128 to 1.
unfoldable pub mldsa_ntt : List ℤ → List ℤ
mldsa_ntt a = forward_loop 8 0 128 a

unfoldable pub inverse_low : ℤ → ℤ → ℤ
inverse_low x y = let t = x in i32 (t +ℤ y)

unfoldable pub inverse_high : ℤ → ℤ → ℤ → ℤ
inverse_high zeta x y = let t = x in montgomery_reduce (zeta *ℤ i32 (t -ℤ y))

-- --k comes before the zeta is read and negated.
unfoldable pub inverse_layer : ℕ → ℕ → ℕ → List ℤ → List ℤ
inverse_layer zero k len a = a
inverse_layer (suc left) k len a =
    let lo = take len a in
    let hi = take len (drop len a) in
    let zeta = pos 0 -ℤ zeta_of (k - 1) in
    zip_with inverse_low lo hi
    ++ (zip_with (inverse_high zeta) lo hi
        ++ inverse_layer left (k - 1) len (drop len (drop len a)))

unfoldable pub inverse_loop : ℕ → ℕ → ℕ → List ℤ → List ℤ
inverse_loop zero k len a = a
inverse_loop (suc left) k len a =
    inverse_loop left (k - 128 / len) (len * 2) (inverse_layer (128 / len) k len a)

-- Eight rounds take len from 1 to 128; f = 41978.
unfoldable pub mldsa_invntt : List ℤ → List ℤ
mldsa_invntt a = map (λ c. montgomery_reduce (pos 41978 *ℤ c)) (inverse_loop 8 256 1 a)
