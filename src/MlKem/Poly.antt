-- ===== src/MlKem/Poly.antt =====
-- tools/pqc/mlkem/mlkem_poly.c: a polynomial is the list of its coefficients, lowest first, and a
-- byte array is a list of numbers. A loop over groups of coefficients is a recursion on the list.
pub mod Bytes
pub mod Message
pub mod Compress
use karudeb.Base.{ℕ, zero, suc, ◌+◌, ◌-◌, ◌*◌, ◌/◌, ◌%◌, ◌^◌, ◌<<◌, ◌>>◌, ◌++◌}
use karudeb.Base.{
  ℤ, pos, negsuc, pos_part, neg_part, ◌+ℤ◌, ◌*ℤ◌, List, [], ◌∷◌, ◌==◌, if◌then◌else◌,
}
use karudeb.Base.{bit_and, bit_or, and_mask, shr, signed, to_u16, to_u32, i16, u8, u16, u32}
use karudeb.MlKem.Reduce.{q}
use karudeb.MlKem.Verify.{cmov_int16}
use karudeb.MlKem.Params.{MlkemParam}

-- t0 = coeff; t0 += ((int16_t) t0 >> 15) & MLKEM_PAR_Q, in uint16_t.
unfoldable pub standard : ℤ → ℕ
standard c = let t0 = to_u16 c in u16 (t0 + and_mask (shr (signed (2 ^ 15) t0) 15) q)

unfoldable pub poly_tobytes : List ℤ → List ℕ
poly_tobytes [] = []
poly_tobytes (c ∷ []) = []
poly_tobytes (c0 ∷ c1 ∷ cs) =
    let t0 = standard c0 in
    let t1 = standard c1 in
    u8 (t0 >> 0) ∷ u8 (bit_or (t0 >> 8) (t1 << 4)) ∷ u8 (t1 >> 4) ∷ poly_tobytes cs

unfoldable pub poly_frombytes : List ℕ → List ℤ
poly_frombytes [] = []
poly_frombytes (a0 ∷ []) = []
poly_frombytes (a0 ∷ a1 ∷ []) = []
poly_frombytes (a0 ∷ a1 ∷ a2 ∷ rest) =
    pos (bit_and (bit_or (a0 >> 0) (a1 << 8)) 0xfff)
    ∷ pos (bit_and (bit_or (a1 >> 4) (a2 << 4)) 0xfff)
    ∷ poly_frombytes rest

-- The inner loop of `poly_frommsg` over the bits j of one byte; `left` counts the rounds.
unfoldable pub frommsg_byte : ℕ → ℕ → ℕ → List ℤ
frommsg_byte zero j byte = []
frommsg_byte (suc left) j byte =
    cmov_int16 (pos 0) (pos ((q + 1) / 2)) (bit_and (byte >> j) 1) ∷ frommsg_byte left (j + 1) byte

unfoldable pub poly_frommsg : List ℕ → List ℤ
unfolding frommsg_byte
poly_frommsg [] = []
poly_frommsg (byte ∷ msg) = frommsg_byte 8 0 byte ++ poly_frommsg msg

-- The bit that `poly_tomsg` reads from a coefficient, in uint32_t.
unfoldable pub tomsg_bit : ℤ → ℕ
tomsg_bit c =
    let t = u32 (to_u32 c << 1) in
    let t' = u32 (t + 1665) in let t'' = u32 (t' * 80635) in bit_and (t'' >> 28) 1

unfoldable pub poly_tomsg : List ℤ → List ℕ
unfolding tomsg_bit
poly_tomsg (c0 ∷ c1 ∷ c2 ∷ c3 ∷ c4 ∷ c5 ∷ c6 ∷ c7 ∷ cs) =
    let m0 = u8 (bit_or 0 (tomsg_bit c0 << 0)) in
    let m1 = u8 (bit_or m0 (tomsg_bit c1 << 1)) in
    let m2 = u8 (bit_or m1 (tomsg_bit c2 << 2)) in
    let m3 = u8 (bit_or m2 (tomsg_bit c3 << 3)) in
    let m4 = u8 (bit_or m3 (tomsg_bit c4 << 4)) in
    let m5 = u8 (bit_or m4 (tomsg_bit c5 << 5)) in
    let m6 = u8 (bit_or m5 (tomsg_bit c6 << 6)) in
    u8 (bit_or m6 (tomsg_bit c7 << 7)) ∷ poly_tomsg cs
poly_tomsg cs = []

-- u = coeff; u += (u >> 15) & MLKEM_PAR_Q, in int32_t.
unfoldable pub lift : ℤ → ℤ
lift c = c +ℤ pos (and_mask (shr c 15) q)

-- One coefficient to 4 and to 5 bits, in uint32_t.
unfoldable pub compress_4 : ℤ → ℕ
compress_4 c =
    let d0 = to_u32 (lift c *ℤ pos (2 ^ 4)) in
    let d1 = u32 (d0 + 1665) in let d2 = u32 (d1 * 80635) in bit_and (d2 >> 28) 0xf

unfoldable pub compress_5 : ℤ → ℕ
compress_5 c =
    let d0 = to_u32 (lift c *ℤ pos (2 ^ 5)) in
    let d1 = u32 (d0 + 1664) in let d2 = u32 (d1 * 40318) in bit_and (d2 >> 27) 0x1f

unfoldable pub poly_compress_4 : List ℤ → List ℕ
poly_compress_4 (c0 ∷ c1 ∷ c2 ∷ c3 ∷ c4 ∷ c5 ∷ c6 ∷ c7 ∷ cs) =
    let t0 = compress_4 c0 in
    let t1 = compress_4 c1 in
    let t2 = compress_4 c2 in
    let t3 = compress_4 c3 in
    let t4 = compress_4 c4 in
    let t5 = compress_4 c5 in
    let t6 = compress_4 c6 in
    let t7 = compress_4 c7 in
    u8 (bit_or t0 (t1 << 4))
    ∷ u8 (bit_or t2 (t3 << 4))
    ∷ u8 (bit_or t4 (t5 << 4))
    ∷ u8 (bit_or t6 (t7 << 4))
    ∷ poly_compress_4 cs
poly_compress_4 cs = []

unfoldable pub poly_compress_5 : List ℤ → List ℕ
poly_compress_5 (c0 ∷ c1 ∷ c2 ∷ c3 ∷ c4 ∷ c5 ∷ c6 ∷ c7 ∷ cs) =
    let t0 = compress_5 c0 in
    let t1 = compress_5 c1 in
    let t2 = compress_5 c2 in
    let t3 = compress_5 c3 in
    let t4 = compress_5 c4 in
    let t5 = compress_5 c5 in
    let t6 = compress_5 c6 in
    let t7 = compress_5 c7 in
    u8 (bit_or (t0 >> 0) (t1 << 5))
    ∷ u8 (bit_or (bit_or (t1 >> 3) (t2 << 2)) (t3 << 7))
    ∷ u8 (bit_or (t3 >> 1) (t4 << 4))
    ∷ u8 (bit_or (bit_or (t4 >> 4) (t5 << 1)) (t6 << 6))
    ∷ u8 (bit_or (t6 >> 2) (t7 << 3))
    ∷ poly_compress_5 cs
poly_compress_5 cs = []

unfoldable pub poly_compress : MlkemParam → List ℤ → List ℕ
poly_compress par a = if par.dv == 4 then poly_compress_4 a else poly_compress_5 a

unfoldable pub poly_decompress_4 : List ℕ → List ℤ
poly_decompress_4 [] = []
poly_decompress_4 (a ∷ rest) =
    i16 (pos ((bit_and a 15 * q + 8) >> 4))
    ∷ i16 (pos (((a >> 4) * q + 8) >> 4))
    ∷ poly_decompress_4 rest

-- A coefficient from 5 bits, in uint32_t.
unfoldable pub decompress_5 : ℕ → ℤ
decompress_5 t = i16 (pos (u32 (bit_and t 31 * q + 16) >> 5))

unfoldable pub poly_decompress_5 : List ℕ → List ℤ
unfolding decompress_5
poly_decompress_5 (a0 ∷ a1 ∷ a2 ∷ a3 ∷ a4 ∷ rest) =
    decompress_5 (a0 >> 0)
    ∷ decompress_5 (u8 (bit_or (a0 >> 5) (a1 << 3)))
    ∷ decompress_5 (a1 >> 2)
    ∷ decompress_5 (u8 (bit_or (a1 >> 7) (a2 << 1)))
    ∷ decompress_5 (u8 (bit_or (a2 >> 4) (a3 << 4)))
    ∷ decompress_5 (a3 >> 1)
    ∷ decompress_5 (u8 (bit_or (a3 >> 6) (a4 << 2)))
    ∷ decompress_5 (a4 >> 3)
    ∷ poly_decompress_5 rest
poly_decompress_5 rest = []

unfoldable pub poly_decompress : MlkemParam → List ℕ → List ℤ
poly_decompress par a = if par.dv == 4 then poly_decompress_4 a else poly_decompress_5 a
