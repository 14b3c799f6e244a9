-- ===== src/MlDsa/Rounding.antt =====
-- The rounding of one coefficient in tools/pqc/mldsa/mldsa_poly.c: high and low bits, and hints. A
-- function that returns a1 and writes a0 gives the pair (a1, a0) here.
pub mod Power
pub mod HighBits
pub mod Hints
use karudeb.Base.{ℕ, ◌+◌, ◌-◌, ◌*◌, ◌/◌, ◌^◌, ◌==◌, if◌then◌else◌, not, ◌&&◌, ◌||◌}
use karudeb.Base.{ℤ, pos, ◌+ℤ◌, ◌-ℤ◌, ◌*ℤ◌, i32, shr, and_mask, to_u32, bit_and, bit_xor}
use karudeb.Base.{ltb_ℤ, eqb_ℤ}
use karudeb.MlDsa.Params.{q, d}

unfoldable pub power2round : ℤ → ℤ × ℤ
power2round a = let a1 = shr (a +ℤ pos (2 ^ (d - 1)) -ℤ pos 1) d in (a1, a -ℤ a1 *ℤ pos (2 ^ d))

-- The last step of both `decompose` functions: the low bits for the high bits a1.
unfoldable pub low_bits : ℤ → ℤ → ℕ → ℤ
low_bits a a1 gamma2 =
    let a0 = a -ℤ a1 *ℤ pos 2 *ℤ pos gamma2 in
    a0 -ℤ pos (and_mask (shr (pos ((q - 1) / 2) -ℤ a0) 31) q)

unfoldable pub decompose_32 : ℤ → ℤ × ℤ
decompose_32 a =
    let t = shr (a +ℤ pos 127) 7 in
    let t' = shr (t *ℤ pos 1025 +ℤ pos (2 ^ 21)) 22 in
    let a1 = pos (and_mask t' 15) in (a1, low_bits a a1 ((q - 1) / 32))

unfoldable pub decompose_88 : ℤ → ℤ × ℤ
decompose_88 a =
    let t = shr (a +ℤ pos 127) 7 in
    let t' = shr (t *ℤ pos 11275 +ℤ pos (2 ^ 23)) 24 in
    let mask = bit_and (to_u32 (shr (pos 43 -ℤ t') 31)) (to_u32 t') in
    let a1 = i32 (pos (bit_xor (to_u32 t') mask)) in (a1, low_bits a a1 ((q - 1) / 88))

unfoldable pub make_hint : ℤ → ℤ → ℕ → ℕ
make_hint a0 a1 gamma2 =
    let minus = pos 0 -ℤ pos gamma2 in
    if ltb_ℤ (pos gamma2) a0 || (ltb_ℤ a0 minus || (eqb_ℤ a0 minus && not (eqb_ℤ a1 (pos 0))))
    then 1
    else 0

unfoldable pub use_hint_32 : ℤ → ℕ → ℤ
use_hint_32 a hint =
    let a1 = (decompose_32 a).0 in
    let a0 = (decompose_32 a).1 in
    if hint == 0
    then a1
    else if ltb_ℤ (pos 0) a0
    then pos (and_mask (a1 +ℤ pos 1) 15)
    else pos (and_mask (a1 -ℤ pos 1) 15)

unfoldable pub use_hint_88 : ℤ → ℕ → ℤ
use_hint_88 a hint =
    let a1 = (decompose_88 a).0 in
    let a0 = (decompose_88 a).1 in
    if hint == 0
    then a1
    else if ltb_ℤ (pos 0) a0
    then (if eqb_ℤ a1 (pos 43) then pos 0 else a1 +ℤ pos 1)
    else (if eqb_ℤ a1 (pos 0) then pos 43 else a1 -ℤ pos 1)
