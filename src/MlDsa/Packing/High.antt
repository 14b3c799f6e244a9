-- ===== src/MlDsa/Packing/High.antt =====
-- `polyt1_pack`, `polyt1_unpack` and `polyw1_pack` of tools/pqc/mldsa/mldsa_poly.c. A shifted int32_t
-- keeps its lowest eight bits only, so the shifts are those of the 32-bit pattern.
pub mod RoundTrip
use karudeb.Base.{ℕ, ◌-◌, ◌*◌, ◌/◌, ◌^◌, ◌<<◌, ◌>>◌, ◌==◌, if◌then◌else◌}
use karudeb.Base.{ℤ, pos, List, [], ◌∷◌, bit_and, bit_or, to_u32, u8}
use karudeb.MlDsa.Params.{MldsaParam, q}

unfoldable pub polyt1_pack : List ℤ → List ℕ
polyt1_pack (c0 ∷ c1 ∷ c2 ∷ c3 ∷ cs) =
    let t0 = to_u32 c0 in
    let t1 = to_u32 c1 in
    let t2 = to_u32 c2 in
    let t3 = to_u32 c3 in
    u8 (t0 >> 0)
    ∷ u8 (bit_or (t0 >> 8) (t1 << 2))
    ∷ u8 (bit_or (t1 >> 6) (t2 << 4))
    ∷ u8 (bit_or (t2 >> 4) (t3 << 6))
    ∷ u8 (t3 >> 2)
    ∷ polyt1_pack cs
polyt1_pack cs = []

unfoldable pub polyt1_unpack : List ℕ → List ℤ
polyt1_unpack (a0 ∷ a1 ∷ a2 ∷ a3 ∷ a4 ∷ rest) =
    pos (bit_and (bit_or (a0 >> 0) (a1 << 8)) 0x3ff)
    ∷ pos (bit_and (bit_or (a1 >> 2) (a2 << 6)) 0x3ff)
    ∷ pos (bit_and (bit_or (a2 >> 4) (a3 << 4)) 0x3ff)
    ∷ pos (bit_and (bit_or (a3 >> 6) (a4 << 2)) 0x3ff)
    ∷ polyt1_unpack rest
polyt1_unpack rest = []

-- The coefficients of w1 to six and to four bits.
unfoldable pub polyw1_pack_88 : List ℤ → List ℕ
polyw1_pack_88 (c0 ∷ c1 ∷ c2 ∷ c3 ∷ cs) =
    let t0 = to_u32 c0 in
    let t1 = to_u32 c1 in
    let t2 = to_u32 c2 in
    let t3 = to_u32 c3 in
    u8 (bit_or (u8 t0) (t1 << 6))
    ∷ u8 (bit_or (u8 (t1 >> 2)) (t2 << 4))
    ∷ u8 (bit_or (u8 (t2 >> 4)) (t3 << 2))
    ∷ polyw1_pack_88 cs
polyw1_pack_88 cs = []

unfoldable pub polyw1_pack_32 : List ℤ → List ℕ
polyw1_pack_32 (c0 ∷ c1 ∷ cs) =
    let t0 = to_u32 c0 in let t1 = to_u32 c1 in u8 (bit_or t0 (t1 << 4)) ∷ polyw1_pack_32 cs
polyw1_pack_32 cs = []

unfoldable pub polyw1_pack : MldsaParam → List ℤ → List ℕ
polyw1_pack par a = if par.gamma2 == ((q - 1) / 88) then polyw1_pack_88 a else polyw1_pack_32 a
