-- ===== src/MlDsa/Packing/Low.antt =====
-- `polyt0_pack` and `polyt0_unpack` of tools/pqc/mldsa/mldsa_poly.c: 13 bits for a coefficient.
pub mod Fields
pub mod RoundTrip
use karudeb.Base.{ℕ, ◌*◌, ◌/◌, ◌^◌, ◌<<◌, ◌>>◌}
use karudeb.Base.{ℤ, pos, ◌-ℤ◌, List, [], ◌∷◌, bit_and, bit_or, to_u32, u8, u32}

-- t[i] = (1 << (MLDSA_PAR_D - 1)) - coeff, in uint32_t
unfoldable pub t0_word : ℤ → ℕ
t0_word c = to_u32 (pos 4096 -ℤ c)

unfoldable pub polyt0_pack : List ℤ → List ℕ
polyt0_pack (c0 ∷ c1 ∷ c2 ∷ c3 ∷ c4 ∷ c5 ∷ c6 ∷ c7 ∷ cs) =
    let t0 = t0_word c0 in
    let t1 = t0_word c1 in
    let t2 = t0_word c2 in
    let t3 = t0_word c3 in
    let t4 = t0_word c4 in
    let t5 = t0_word c5 in
    let t6 = t0_word c6 in
    let t7 = t0_word c7 in
    u8 t0
    ∷ u8 (bit_or (u8 (t0 >> 8)) (u32 (t1 << 5)))
    ∷ u8 (t1 >> 3)
    ∷ u8 (bit_or (u8 (t1 >> 11)) (u32 (t2 << 2)))
    ∷ u8 (bit_or (u8 (t2 >> 6)) (u32 (t3 << 7)))
    ∷ u8 (t3 >> 1)
    ∷ u8 (bit_or (u8 (t3 >> 9)) (u32 (t4 << 4)))
    ∷ u8 (t4 >> 4)
    ∷ u8 (bit_or (u8 (t4 >> 12)) (u32 (t5 << 1)))
    ∷ u8 (bit_or (u8 (t5 >> 7)) (u32 (t6 << 6)))
    ∷ u8 (t6 >> 2)
    ∷ u8 (bit_or (u8 (t6 >> 10)) (u32 (t7 << 3)))
    ∷ u8 (t7 >> 5)
    ∷ polyt0_pack cs
polyt0_pack cs = []

-- The end of each coefficient: the mask, and (1 << (MLDSA_PAR_D - 1)) - coeff.
unfoldable pub t0_coefficient : ℕ → ℤ
t0_coefficient r = pos 4096 -ℤ pos (bit_and r 0x1fff)

unfoldable pub polyt0_unpack : List ℕ → List ℤ
unfolding t0_coefficient
polyt0_unpack (a0 ∷ a1 ∷ a2 ∷ a3 ∷ a4 ∷ a5 ∷ a6 ∷ a7 ∷ a8 ∷ a9 ∷ a10 ∷ a11 ∷ a12 ∷ rest) =
    t0_coefficient (bit_or a0 (a1 << 8))
    ∷ t0_coefficient (bit_or (bit_or (a1 >> 5) (a2 << 3)) (a3 << 11))
    ∷ t0_coefficient (bit_or (a3 >> 2) (a4 << 6))
    ∷ t0_coefficient (bit_or (bit_or (a4 >> 7) (a5 << 1)) (a6 << 9))
    ∷ t0_coefficient (bit_or (bit_or (a6 >> 4) (a7 << 4)) (a8 << 12))
    ∷ t0_coefficient (bit_or (a8 >> 1) (a9 << 7))
    ∷ t0_coefficient (bit_or (bit_or (a9 >> 6) (a10 << 2)) (a11 << 10))
    ∷ t0_coefficient (bit_or (a11 >> 3) (a12 << 5))
    ∷ polyt0_unpack rest
polyt0_unpack rest = []
