-- ===== src/MlKem/Poly/Compress/Four.antt =====
-- Compression to four bits.
use karudeb.Base.{ℕ, ◌+◌, ◌-◌, ◌*◌, ◌/◌, ◌%◌, ◌^◌, ◌≤◌, ◌<◌, ◌≡◌, ap₂, refl, arith}
use karudeb.Base.{
  ℤ, pos, ◌+ℤ◌, ◌-ℤ◌, ◌*ℤ◌, residue, Within, div_parts, to_u32, u8, u32, i16, and_mask, div, leb,
  leb→le,
}
use karudeb.Base.{
  List, ◌∷◌, length, All, holds_below, read_table, read_equation, bit_and, bit_or, bit_or_above,
  bit_and_ones,
}
use karudeb.Base.{Fours, four, fours, Eights, eight, eights}
use karudeb.MlKem.Reduce.{q}
use karudeb.MlKem.Verify.Compare.{IsByte}
use karudeb.MlKem.Poly.{lift, compress_4, poly_compress_4, poly_decompress_4}
use karudeb.MlKem.Poly.Compress.{
  distance, AllClose, distance-canonical, lift-residue, rounded, rounded-lt,
}

-- `compress_4` on a representative.
from_standard : ℕ → ℕ
from_standard r = bit_and (u32 (u32 (to_u32 (pos r *ℤ pos 16) + 1665) * 80635) / 2 ^ 28) 0xf

-- The multiplication in the code divides by q, exactly on every representative.
from_standard-rounded : (r : ℕ) → r < q → from_standard r ≡ rounded 4 r
unfolding from_standard holds_below residue ◌*ℤ◌
from_standard-rounded r h = read_equation from_standard (rounded 4) 3329 r refl h

pub compress_4-rounded : (c : ℤ) → Within (q - 1) c → compress_4 c ≡ rounded 4 (residue c q)
unfolding compress_4 from_standard
compress_4-rounded c h =
    rw (lift-residue c h)
      (from_standard-rounded (residue c q) (omega (arith, div_parts c q (omega arith))))

-- What `poly_decompress` makes of four bits.
abbrev pub decompressed_4 : ℕ → ℤ
decompressed_4 t = i16 (pos ((t * q + 8) / 2 ^ 4))

near_rounded : (r : ℕ) → r < q → distance (decompressed_4 (rounded 4 r)) (pos r) ≤ 104
unfolding holds_below i16 residue ◌-ℤ◌
near_rounded r h =
    leb→le _ _
      (read_table (λ i. leb (distance (decompressed_4 (rounded 4 i)) (pos i)) 104) 3329 r refl h)

compress-decompressed_4 : (t : ℕ) → t < 16 → compress_4 (decompressed_4 t) ≡ t
unfolding holds_below i16 residue compress_4 lift ◌*ℤ◌ ◌+ℤ◌ and_mask div
compress-decompressed_4 t h =
    read_equation (λ i. compress_4 (decompressed_4 i)) (λ i. i) 16 t refl h

-- One coefficient there and back.
there_and_back :
    (c : ℤ)
    → Within (q - 1) c
    → (compress_4 c < 16) × (distance (decompressed_4 (compress_4 c)) c ≤ 104)
there_and_back c h =
    let r : ℕ = residue c q in
    let r_lt : r < q = omega (arith, div_parts c q (omega arith)) in
    rw (compress_4-rounded c h, ← distance-canonical (decompressed_4 (rounded 4 r)) c)
      (rounded-lt c 4 (omega arith), near_rounded r r_lt)

-- The two fields of a byte.
packed_byte : (t0 t1 : ℕ) → t0 < 16 → t1 < 16 → u8 (bit_or t0 (t1 * 2 ^ 4)) ≡ t0 + t1 * 16
packed_byte t0 t1 h k = ground (arith, bit_or_above 4 t0 t1)

decompress_byte :
    (t0 t1 : ℕ) (rest : List ℕ)
    → t0 < 16
    → t1 < 16
    → poly_decompress_4 (u8 (bit_or t0 (t1 * 2 ^ 4)) ∷ rest)
      ≡ decompressed_4 t0 ∷ decompressed_4 t1 ∷ poly_decompress_4 rest
unfolding poly_decompress_4
decompress_byte t0 t1 rest h k =
    let low : bit_and (t0 + t1 * 16) 15 ≡ t0 = ground (arith, bit_and_ones 4 (t0 + t1 * 16) 15) in
    let high : (t0 + t1 * 16) / 16 ≡ t1 = omega arith in rw (packed_byte t0 t1 h k, low, high)

back_and_forth :
    {p : List ℤ}
    → Eights ℤ p
    → All (Within (q - 1)) p
    → AllClose 104 (poly_decompress_4 (poly_compress_4 p)) p
unfolding poly_compress_4
back_and_forth Eights.done h = unfold poly_decompress_4 in tt
back_and_forth (eight c0 c1 c2 c3 c4 c5 c6 c7 p) (h0, (h1, (h2, (h3, (h4, (h5, (h6, (h7, h)))))))) =
    let (l0, d0) = there_and_back c0 h0 in
    let (l1, d1) = there_and_back c1 h1 in
    let (l2, d2) = there_and_back c2 h2 in
    let (l3, d3) = there_and_back c3 h3 in
    let (l4, d4) = there_and_back c4 h4 in
    let (l5, d5) = there_and_back c5 h5 in
    let (l6, d6) = there_and_back c6 h6 in
    let (l7, d7) = there_and_back c7 h7 in
    rw
      (
        decompress_byte (compress_4 c0) (compress_4 c1) _ l0 l1,
        decompress_byte (compress_4 c2) (compress_4 c3) _ l2 l3,
        decompress_byte (compress_4 c4) (compress_4 c5) _ l4 l5,
        decompress_byte (compress_4 c6) (compress_4 c7) _ l6 l7,
      )
      (d0, (d1, (d2, (d3, (d4, (d5, (d6, (d7, back_and_forth p h))))))))

-- Compressing to 4 bits and decompressing moves no coefficient by more than 104 modulo q, for a
-- multiple of eight coefficients strictly between -q and q.
pub decompress-compress_4 :
    (k : ℕ) (p : List ℤ)
    → length p ≡ 8 * k
    → All (Within (q - 1)) p
    → AllClose 104 (poly_decompress_4 (poly_compress_4 p)) p
decompress-compress_4 k p e h = back_and_forth (eights k p e) h

byte_again :
    (a : ℕ)
    → IsByte a
    → u8 (
        bit_or
          (compress_4 (decompressed_4 (bit_and a 15)))
          (compress_4 (decompressed_4 (a / 2 ^ 4)) * 2 ^ 4))
      ≡ a
byte_again a h =
    rw
      (
        bit_and_ones 4 a 15 refl,
        compress-decompressed_4 (a % 2 ^ 4) (omega arith),
        compress-decompressed_4 (a / 2 ^ 4) (omega arith),
        packed_byte (a % 2 ^ 4) (a / 2 ^ 4) (omega arith) (omega arith),
      )
      (omega arith)

bytes_again :
    {bytes : List ℕ}
    → Fours ℕ bytes
    → All IsByte bytes
    → poly_compress_4 (poly_decompress_4 bytes) ≡ bytes
unfolding poly_decompress_4 poly_compress_4
bytes_again Fours.done h = refl
bytes_again (four a0 a1 a2 a3 bytes) (h0, (h1, (h2, (h3, h)))) = ap₂ ◌∷◌ (byte_again a0 h0) (
    ap₂ ◌∷◌ (byte_again a1 h1)
      (ap₂ ◌∷◌ (byte_again a2 h2) (ap₂ ◌∷◌ (byte_again a3 h3) (bytes_again bytes h))))

-- Compressing to 4 bits gives back every byte array, of a multiple of four bytes, that was
-- decompressed.
pub compress-decompress_4 :
    (k : ℕ) (bytes : List ℕ)
    → length bytes ≡ 4 * k
    → All IsByte bytes
    → poly_compress_4 (poly_decompress_4 bytes) ≡ bytes
compress-decompress_4 k bytes e h = bytes_again (fours k bytes e) h
