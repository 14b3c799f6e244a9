-- ===== src/MlKem/Reduce.antt =====
-- The modular reductions of tools/pqc/mlkem/reduce.h on int16_t. `int` arithmetic is exact here; the
-- conversions to int16_t that the assignments make are written out.
pub mod Montgomery
pub mod Barrett
pub mod Products
use karudeb.Base.{ℕ, ◌*◌, ℤ, pos, negsuc, ◌+ℤ◌, ◌-ℤ◌, ◌*ℤ◌, i16, shr}

-- MLKEM_PAR_Q
abbrev pub q : ℕ
q = 3329

-- MLKEM_PAR_QINV, q^-1 mod 2^16
abbrev pub qinv : ℤ
qinv = negsuc 3326

-- int16_t montgomery_reduce(int32_t a)
unfoldable pub montgomery_reduce : ℤ → ℤ
montgomery_reduce a = let t = i16 (i16 a *ℤ qinv) in i16 (shr (a -ℤ t *ℤ pos q) 16)

-- The constant v of `barrett_reduce`, ((1 << 26) + q / 2) / q.
abbrev pub barrett_v : ℤ
barrett_v = pos 20159

-- int16_t barrett_reduce(int16_t a)
unfoldable pub barrett_reduce : ℤ → ℤ
barrett_reduce a =
    let t = i16 (shr (barrett_v *ℤ a +ℤ pos 33554432) 26) in
    let t' = i16 (t *ℤ pos q) in i16 (a -ℤ t')

-- int16_t fqmul(int16_t a, int16_t b)
unfoldable pub fqmul : ℤ → ℤ → ℤ
fqmul a b = montgomery_reduce (a *ℤ b)

-- basemul: the product of a0 + a1 X and b0 + b1 X modulo X^2 - zeta.
unfoldable pub basemul : ℤ × ℤ → ℤ × ℤ → ℤ → ℤ × ℤ
basemul (a0, a1) (b0, b1) zeta =
    let r0 = fqmul a1 b1 in
    let r0' = fqmul r0 zeta in
    let r0'' = i16 (r0' +ℤ fqmul a0 b0) in let r1 = fqmul a0 b1 in (r0'', i16 (r1 +ℤ fqmul a1 b0))
