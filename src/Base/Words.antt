-- ===== src/Base/Words.antt =====
-- Conversions to the fixed widths of C, and the shifts and masks of signed words.
use Prim.Native.Nat.{ℕ, ◌+◌, ◌≤◌, ◌<◌, ◌-◌, ◌*◌, ◌/◌, ◌%◌, ◌^◌, bit_and}
use karudeb.Base.Tests.{ltb, if◌then◌else◌}
use karudeb.Base.Int.{ℤ, pos, negsuc, pos_part, neg_part, residue, div, ◌+ℤ◌}
use karudeb.Base.Int.{eq_of_parts, one_part_zero}
use native.Mathlib.Omega.{arith}
use mathlib.Core.Path.{◌≡◌}

-- A conversion to an unsigned type keeps the value modulo 2 ^ w.
abbrev pub to_u8 : ℤ → ℕ
to_u8 z = residue z (2 ^ 8)

abbrev pub to_u16 : ℤ → ℕ
to_u16 z = residue z (2 ^ 16)

abbrev pub to_u32 : ℤ → ℕ
to_u32 z = residue z (2 ^ 32)

abbrev pub u8 : ℕ → ℕ
u8 n = n % 2 ^ 8

abbrev pub u16 : ℕ → ℕ
u16 n = n % 2 ^ 16

abbrev pub u32 : ℕ → ℕ
u32 n = n % 2 ^ 32

-- The number that a two's complement pattern with modulus 2 * half stands for.
abbrev pub signed : ℕ → ℕ → ℤ
signed half n = if ltb n half then pos n else negsuc (2 * half - n - 1)

-- A conversion to a signed type wraps around, as gcc defines it.
unfoldable pub i16 : ℤ → ℤ
i16 z = signed (2 ^ 15) (residue z (2 ^ 16))

unfoldable pub i32 : ℤ → ℤ
i32 z = signed (2 ^ 31) (residue z (2 ^ 32))

-- `z >> k` on a signed type is arithmetic.
abbrev pub shr : ℤ → ℕ → ℤ
shr z k = div z (2 ^ k)

-- `a & m` in `int`, for a mask m that is not negative.
unfoldable pub and_mask : ℤ → ℕ → ℕ
and_mask z m = bit_and (residue z (2 ^ 32)) m

infixl 75 ◌<<◌ ◌>>◌
abbrev pub ◌<<◌ : ℕ → ℕ → ℕ
x << k = x * 2 ^ k

abbrev pub ◌>>◌ : ℕ → ℕ → ℕ
x >> k = x / 2 ^ k

-- A conversion to int16_t changes a value by a multiple of 2 ^ 16, and one that fits not at all.
pub i16_parts :
    (z : ℤ)
    → (pos_part z + neg_part (i16 z) + 2 ^ 16 * neg_part (div (z +ℤ pos (2 ^ 15)) (2 ^ 16))
        ≡ neg_part z + pos_part (i16 z) + 2 ^ 16 * pos_part (div (z +ℤ pos (2 ^ 15)) (2 ^ 16)))
      × (pos_part (i16 z) < 2 ^ 15)
      × (neg_part (i16 z) ≤ 2 ^ 15)
unfolding i16 residue div ◌+ℤ◌
i16_parts z = (ground arith, ground arith, ground arith)

pub i16_fits : (z : ℤ) → pos_part z < 2 ^ 15 → neg_part z ≤ 2 ^ 15 → i16 z ≡ z
unfolding i16 residue
i16_fits z h k = ground arith

pub i32_parts :
    (z : ℤ)
    → (pos_part z + neg_part (i32 z) + 2 ^ 32 * neg_part (div (z +ℤ pos (2 ^ 31)) (2 ^ 32))
        ≡ neg_part z + pos_part (i32 z) + 2 ^ 32 * pos_part (div (z +ℤ pos (2 ^ 31)) (2 ^ 32)))
      × (pos_part (i32 z) < 2 ^ 31)
      × (neg_part (i32 z) ≤ 2 ^ 31)
unfolding i32 residue div ◌+ℤ◌
i32_parts z = (ground arith, ground arith, ground arith)

pub i32_fits : (z : ℤ) → pos_part z < 2 ^ 31 → neg_part z ≤ 2 ^ 31 → i32 z ≡ z
unfolding i32 residue
i32_fits z h k = ground arith

-- The conversion is the one number in range that differs by a multiple of 2 ^ 16.
pub i16_unique :
    (z w k : ℤ)
    → pos_part w < 2 ^ 15
    → neg_part w ≤ 2 ^ 15
    → pos_part z + neg_part w + 2 ^ 16 * neg_part k ≡ neg_part z + pos_part w + 2 ^ 16 * pos_part k
    → i16 z ≡ w
i16_unique z w k h h' e =
    eq_of_parts (i16 z) w (omega (arith, i16_parts z, one_part_zero w, one_part_zero (i16 z)))
