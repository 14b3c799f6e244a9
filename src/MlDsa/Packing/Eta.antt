-- ===== src/MlDsa/Packing/Eta.antt =====
-- `polyeta_pack` and `polyeta_unpack` of tools/pqc/mldsa/mldsa_poly.c. For another eta than 2 and 4 the
-- code writes nothing.
pub mod RoundTrip
pub mod Pairs
use karudeb.Base.{ℕ, ◌*◌, ◌/◌, ◌^◌, ◌<<◌, ◌>>◌, ◌==◌, if◌then◌else◌}
use karudeb.Base.{ℤ, pos, ◌-ℤ◌, List, [], ◌∷◌, bit_and, bit_or, to_u8, u8}
use karudeb.MlDsa.Params.{MldsaParam}

-- t[i] = 2 - coeff, in uint8_t
unfoldable pub eta_byte : ℕ → ℤ → ℕ
eta_byte eta c = to_u8 (pos eta -ℤ c)

unfoldable pub polyeta_pack_2 : List ℤ → List ℕ
polyeta_pack_2 (c0 ∷ c1 ∷ c2 ∷ c3 ∷ c4 ∷ c5 ∷ c6 ∷ c7 ∷ cs) =
    let t0 = eta_byte 2 c0 in
    let t1 = eta_byte 2 c1 in
    let t2 = eta_byte 2 c2 in
    let t3 = eta_byte 2 c3 in
    let t4 = eta_byte 2 c4 in
    let t5 = eta_byte 2 c5 in
    let t6 = eta_byte 2 c6 in
    let t7 = eta_byte 2 c7 in
    u8 (bit_or (bit_or (t0 >> 0) (t1 << 3)) (t2 << 6))
    ∷ u8 (bit_or (bit_or (bit_or (t2 >> 2) (t3 << 1)) (t4 << 4)) (t5 << 7))
    ∷ u8 (bit_or (bit_or (t5 >> 1) (t6 << 2)) (t7 << 5))
    ∷ polyeta_pack_2 cs
polyeta_pack_2 cs = []

unfoldable pub polyeta_pack_4 : List ℤ → List ℕ
polyeta_pack_4 (c0 ∷ c1 ∷ cs) =
    let t0 = eta_byte 4 c0 in let t1 = eta_byte 4 c1 in u8 (bit_or t0 (t1 << 4)) ∷ polyeta_pack_4 cs
polyeta_pack_4 cs = []

unfoldable pub polyeta_pack : MldsaParam → List ℤ → List ℕ
polyeta_pack par a =
    if par.eta == 2 then polyeta_pack_2 a else if par.eta == 4 then polyeta_pack_4 a else []

unfoldable pub polyeta_unpack_2 : List ℕ → List ℤ
polyeta_unpack_2 (a0 ∷ a1 ∷ a2 ∷ rest) =
    (pos 2 -ℤ pos (bit_and (a0 >> 0) 7))
    ∷ (pos 2 -ℤ pos (bit_and (a0 >> 3) 7))
    ∷ (pos 2 -ℤ pos (bit_and (bit_or (a0 >> 6) (a1 << 2)) 7))
    ∷ (pos 2 -ℤ pos (bit_and (a1 >> 1) 7))
    ∷ (pos 2 -ℤ pos (bit_and (a1 >> 4) 7))
    ∷ (pos 2 -ℤ pos (bit_and (bit_or (a1 >> 7) (a2 << 1)) 7))
    ∷ (pos 2 -ℤ pos (bit_and (a2 >> 2) 7))
    ∷ (pos 2 -ℤ pos (bit_and (a2 >> 5) 7))
    ∷ polyeta_unpack_2 rest
polyeta_unpack_2 rest = []

unfoldable pub polyeta_unpack_4 : List ℕ → List ℤ
polyeta_unpack_4 [] = []
polyeta_unpack_4 (a ∷ rest) =
    (pos 4 -ℤ pos (bit_and a 0x0f)) ∷ (pos 4 -ℤ pos (a >> 4)) ∷ polyeta_unpack_4 rest

unfoldable pub polyeta_unpack : MldsaParam → List ℕ → List ℤ
polyeta_unpack par a =
    if par.eta == 2 then polyeta_unpack_2 a else if par.eta == 4 then polyeta_unpack_4 a else []
