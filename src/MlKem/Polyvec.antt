-- ===== src/MlKem/Polyvec.antt =====
-- tools/pqc/mlkem/polyvec.c: a vector is the list of its par->k polynomials.
use karudeb.Base.{ℕ, zero, suc, ◌+◌, ◌*◌, ◌%◌, ◌^◌, ◌<<◌, ◌>>◌, ◌++◌, ◌==◌, if◌then◌else◌}
use karudeb.Base.{
  ℤ, pos, List, [], ◌∷◌, map, take, drop, zip_with, bit_and, bit_or, u8, u16, u32, i16,
}
use karudeb.MlKem.Reduce.{q}
use karudeb.MlKem.Params.{MlkemParam, poly_sz}
use karudeb.MlKem.Poly.{standard, poly_tobytes, poly_frombytes}
use karudeb.MlKem.Ntt.{
  mlkem_poly_ntt, mlkem_poly_invntt_tomont, poly_basemul_montgomery, mlkem_poly_add,
  mlkem_poly_reduce,
}

abbrev pub u64 : ℕ → ℕ
u64 n = n % 2 ^ 64

-- One coefficient to 11 and to 10 bits: t[k] in uint16_t, d0 in uint64_t.
unfoldable pub compress_11 : ℤ → ℕ
compress_11 c =
    let d0 = u64 (standard c << 11) in
    let d1 = u64 (d0 + 1664) in let d2 = u64 (d1 * 645084) in bit_and (d2 >> 31) 0x7ff

unfoldable pub compress_10 : ℤ → ℕ
compress_10 c =
    let d0 = u64 (standard c << 10) in
    let d1 = u64 (d0 + 1665) in let d2 = u64 (d1 * 1290167) in bit_and (d2 >> 32) 0x3ff

-- The loop over the groups of eight coefficients of one polynomial.
unfoldable pub compress_poly_11 : List ℤ → List ℕ
compress_poly_11 (c0 ∷ c1 ∷ c2 ∷ c3 ∷ c4 ∷ c5 ∷ c6 ∷ c7 ∷ cs) =
    let t0 = compress_11 c0 in
    let t1 = compress_11 c1 in
    let t2 = compress_11 c2 in
    let t3 = compress_11 c3 in
    let t4 = compress_11 c4 in
    let t5 = compress_11 c5 in
    let t6 = compress_11 c6 in
    let t7 = compress_11 c7 in
    u8 (t0 >> 0)
    ∷ u8 (bit_or (t0 >> 8) (t1 << 3))
    ∷ u8 (bit_or (t1 >> 5) (t2 << 6))
    ∷ u8 (t2 >> 2)
    ∷ u8 (bit_or (t2 >> 10) (t3 << 1))
    ∷ u8 (bit_or (t3 >> 7) (t4 << 4))
    ∷ u8 (bit_or (t4 >> 4) (t5 << 7))
    ∷ u8 (t5 >> 1)
    ∷ u8 (bit_or (t5 >> 9) (t6 << 2))
    ∷ u8 (bit_or (t6 >> 6) (t7 << 5))
    ∷ u8 (t7 >> 3)
    ∷ compress_poly_11 cs
compress_poly_11 cs = []

-- The loop over the groups of four coefficients of one polynomial.
unfoldable pub compress_poly_10 : List ℤ → List ℕ
compress_poly_10 (c0 ∷ c1 ∷ c2 ∷ c3 ∷ cs) =
    let t0 = compress_10 c0 in
    let t1 = compress_10 c1 in
    let t2 = compress_10 c2 in
    let t3 = compress_10 c3 in
    u8 (t0 >> 0)
    ∷ u8 (bit_or (t0 >> 8) (t1 << 2))
    ∷ u8 (bit_or (t1 >> 6) (t2 << 4))
    ∷ u8 (bit_or (t2 >> 4) (t3 << 6))
    ∷ u8 (t3 >> 2)
    ∷ compress_poly_10 cs
compress_poly_10 cs = []

-- The loop over the polynomials, which write one after the other.
abbrev each_poly {ℓ κ} : {A : Type ℓ} {B : Type κ} → (A → List B) → List A → List B
each_poly f [] = []
each_poly f (p ∷ ps) = f p ++ each_poly f ps

unfoldable pub polyvec_compress : MlkemParam → List (List ℤ) → List ℕ
polyvec_compress par a =
    if par.du == 11 then each_poly compress_poly_11 a else each_poly compress_poly_10 a

unfoldable pub decompress_11 : ℕ → ℤ
decompress_11 t = i16 (pos (u32 (bit_and t 0x7ff * q + 1024) >> 11))

unfoldable pub decompress_10 : ℕ → ℤ
decompress_10 t = i16 (pos (u32 (bit_and t 0x3ff * q + 512) >> 10))

unfoldable pub decompress_poly_11 : List ℕ → List ℤ
unfolding decompress_11
decompress_poly_11 (a0 ∷ a1 ∷ a2 ∷ a3 ∷ a4 ∷ a5 ∷ a6 ∷ a7 ∷ a8 ∷ a9 ∷ a10 ∷ rest) =
    decompress_11 (u16 (bit_or (a0 >> 0) (a1 << 8)))
    ∷ decompress_11 (u16 (bit_or (a1 >> 3) (a2 << 5)))
    ∷ decompress_11 (u16 (bit_or (bit_or (a2 >> 6) (a3 << 2)) (a4 << 10)))
    ∷ decompress_11 (u16 (bit_or (a4 >> 1) (a5 << 7)))
    ∷ decompress_11 (u16 (bit_or (a5 >> 4) (a6 << 4)))
    ∷ decompress_11 (u16 (bit_or (bit_or (a6 >> 7) (a7 << 1)) (a8 << 9)))
    ∷ decompress_11 (u16 (bit_or (a8 >> 2) (a9 << 6)))
    ∷ decompress_11 (u16 (bit_or (a9 >> 5) (a10 << 3)))
    ∷ decompress_poly_11 rest
decompress_poly_11 rest = []

unfoldable pub decompress_poly_10 : List ℕ → List ℤ
unfolding decompress_10
decompress_poly_10 (a0 ∷ a1 ∷ a2 ∷ a3 ∷ a4 ∷ rest) =
    decompress_10 (u16 (bit_or (a0 >> 0) (a1 << 8)))
    ∷ decompress_10 (u16 (bit_or (a1 >> 2) (a2 << 6)))
    ∷ decompress_10 (u16 (bit_or (a2 >> 4) (a3 << 4)))
    ∷ decompress_10 (u16 (bit_or (a3 >> 6) (a4 << 2)))
    ∷ decompress_poly_10 rest
decompress_poly_10 rest = []

-- `k` polynomials, each from `size` bytes at the front of what is left.
unfoldable pub from_slices : (List ℕ → List ℤ) → ℕ → ℕ → List ℕ → List (List ℤ)
from_slices f size zero a = []
from_slices f size (suc k) a = f (take size a) ∷ from_slices f size k (drop size a)

-- A polynomial takes 256 / 8 groups of 11 bytes, or 256 / 4 groups of 5 bytes.
unfoldable pub polyvec_decompress : MlkemParam → List ℕ → List (List ℤ)
polyvec_decompress par a =
    if par.du == 11
    then from_slices decompress_poly_11 352 par.k a
    else from_slices decompress_poly_10 320 par.k a

unfoldable pub polyvec_tobytes : List (List ℤ) → List ℕ
polyvec_tobytes a = each_poly poly_tobytes a

unfoldable pub polyvec_frombytes : MlkemParam → List ℕ → List (List ℤ)
unfolding from_slices
polyvec_frombytes par a = from_slices poly_frombytes poly_sz par.k a

unfoldable pub polyvec_ntt : List (List ℤ) → List (List ℤ)
polyvec_ntt = map mlkem_poly_ntt

unfoldable pub polyvec_invntt_tomont : List (List ℤ) → List (List ℤ)
polyvec_invntt_tomont = map mlkem_poly_invntt_tomont

-- The loop from i = 1 on: each product is added to r.
unfoldable pub basemul_acc : List ℤ → List (List ℤ) → List (List ℤ) → List ℤ
basemul_acc r (a ∷ as') (b ∷ bs) =
    let t = poly_basemul_montgomery a b in basemul_acc (mlkem_poly_add r t) as' bs
basemul_acc r [] bs = r
basemul_acc r (a ∷ as') [] = r

unfoldable pub polyvec_basemul_acc_montgomery : List (List ℤ) → List (List ℤ) → List ℤ
unfolding basemul_acc
polyvec_basemul_acc_montgomery (a ∷ as') (b ∷ bs) =
    mlkem_poly_reduce (basemul_acc (poly_basemul_montgomery a b) as' bs)
polyvec_basemul_acc_montgomery [] bs = []
polyvec_basemul_acc_montgomery (a ∷ as') [] = []

unfoldable pub polyvec_reduce : List (List ℤ) → List (List ℤ)
polyvec_reduce = map mlkem_poly_reduce

unfoldable pub polyvec_add : List (List ℤ) → List (List ℤ) → List (List ℤ)
polyvec_add a b = zip_with mlkem_poly_add a b
