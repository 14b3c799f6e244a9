-- ===== src/MlDsa/Packing/Mask.antt =====
-- `polyz_pack` and `polyz_unpack` of tools/pqc/mldsa/mldsa_poly.c: 18 or 20 bits for a coefficient. For
-- another gamma1 the code writes nothing.
pub mod Narrow
pub mod Wide
use karudeb.Base.{ℕ, ◌*◌, ◌/◌, ◌^◌, ◌<<◌, ◌>>◌, ◌==◌, if◌then◌else◌}
use karudeb.Base.{ℤ, pos, ◌-ℤ◌, List, [], ◌∷◌, bit_and, bit_or, to_u32, u8, u32}
use karudeb.MlDsa.Params.{MldsaParam}

-- t[i] = gamma1 - coeff, in uint32_t
unfoldable pub z_word : ℕ → ℤ → ℕ
z_word gamma1 c = to_u32 (pos gamma1 -ℤ c)

unfoldable pub polyz_pack_17 : List ℤ → List ℕ
polyz_pack_17 (c0 ∷ c1 ∷ c2 ∷ c3 ∷ cs) =
    let t0 = z_word (2 ^ 17) c0 in
    let t1 = z_word (2 ^ 17) c1 in
    let t2 = z_word (2 ^ 17) c2 in
    let t3 = z_word (2 ^ 17) c3 in
    u8 t0
    ∷ u8 (t0 >> 8)
    ∷ u8 (bit_or (u8 (t0 >> 16)) (u32 (t1 << 2)))
    ∷ u8 (t1 >> 6)
    ∷ u8 (bit_or (u8 (t1 >> 14)) (u32 (t2 << 4)))
    ∷ u8 (t2 >> 4)
    ∷ u8 (bit_or (u8 (t2 >> 12)) (u32 (t3 << 6)))
    ∷ u8 (t3 >> 2)
    ∷ u8 (t3 >> 10)
    ∷ polyz_pack_17 cs
polyz_pack_17 cs = []

unfoldable pub polyz_pack_19 : List ℤ → List ℕ
polyz_pack_19 (c0 ∷ c1 ∷ cs) =
    let t0 = z_word (2 ^ 19) c0 in
    let t1 = z_word (2 ^ 19) c1 in
    u8 t0
    ∷ u8 (t0 >> 8)
    ∷ u8 (bit_or (u8 (t0 >> 16)) (u32 (t1 << 4)))
    ∷ u8 (t1 >> 4)
    ∷ u8 (t1 >> 12)
    ∷ polyz_pack_19 cs
polyz_pack_19 cs = []

unfoldable pub polyz_pack : MldsaParam → List ℤ → List ℕ
polyz_pack par a =
    if par.gamma1 == (2 ^ 17)
    then polyz_pack_17 a
    else if par.gamma1 == (2 ^ 19)
    then polyz_pack_19 a
    else []

unfoldable pub polyz_unpack_17 : List ℕ → List ℤ
polyz_unpack_17 (a0 ∷ a1 ∷ a2 ∷ a3 ∷ a4 ∷ a5 ∷ a6 ∷ a7 ∷ a8 ∷ rest) =
    (pos (2 ^ 17) -ℤ pos (bit_and (bit_or (bit_or a0 (a1 << 8)) (a2 << 16)) 0x3ffff))
    ∷ (pos (2 ^ 17) -ℤ pos (bit_and (bit_or (bit_or (a2 >> 2) (a3 << 6)) (a4 << 14)) 0x3ffff))
    ∷ (pos (2 ^ 17) -ℤ pos (bit_and (bit_or (bit_or (a4 >> 4) (a5 << 4)) (a6 << 12)) 0x3ffff))
    ∷ (pos (2 ^ 17) -ℤ pos (bit_and (bit_or (bit_or (a6 >> 6) (a7 << 2)) (a8 << 10)) 0x3ffff))
    ∷ polyz_unpack_17 rest
polyz_unpack_17 rest = []

unfoldable pub polyz_unpack_19 : List ℕ → List ℤ
polyz_unpack_19 (a0 ∷ a1 ∷ a2 ∷ a3 ∷ a4 ∷ rest) =
    (pos (2 ^ 19) -ℤ pos (bit_and (bit_or (bit_or a0 (a1 << 8)) (a2 << 16)) 0xfffff))
    ∷ (pos (2 ^ 19) -ℤ pos (bit_or (bit_or (a2 >> 4) (a3 << 4)) (a4 << 12)))
    ∷ polyz_unpack_19 rest
polyz_unpack_19 rest = []

unfoldable pub polyz_unpack : MldsaParam → List ℕ → List ℤ
polyz_unpack par a =
    if par.gamma1 == (2 ^ 17)
    then polyz_unpack_17 a
    else if par.gamma1 == (2 ^ 19)
    then polyz_unpack_19 a
    else []
