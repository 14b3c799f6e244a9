-- ===== src/MlDsa/Reduce.antt =====
-- The modular reductions of tools/pqc/mldsa/mldsa_reduce.h. The arithmetic of int32_t and int64_t is
-- exact here; the conversions that the assignments make are written out.
pub mod Canonical
pub mod Montgomery
use karudeb.Base.{ℤ, pos, ◌+ℤ◌, ◌-ℤ◌, ◌*ℤ◌, ◌^◌, i32, shr, and_mask}
use karudeb.MlDsa.Params.{q, qinv}

-- int32_t montgomery_reduce(int64_t a)
unfoldable pub montgomery_reduce : ℤ → ℤ
montgomery_reduce a = let t = i32 (i32 a *ℤ pos qinv) in i32 (shr (a -ℤ t *ℤ pos q) 32)

-- int32_t reduce32(int32_t a)
unfoldable pub reduce32 : ℤ → ℤ
reduce32 a = let t = shr (a +ℤ pos (2 ^ 22)) 23 in i32 (a -ℤ t *ℤ pos q)

-- int32_t caddq(int32_t a)
unfoldable pub caddq : ℤ → ℤ
caddq a = i32 (a +ℤ pos (and_mask (shr a 31) q))

-- int32_t freeze(int32_t a)
unfoldable pub freeze : ℤ → ℤ
freeze a = caddq (reduce32 a)
