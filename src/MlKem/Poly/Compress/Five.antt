-- ===== src/MlKem/Poly/Compress/Five.antt =====
-- Compression to five bits.
use karudeb.Base.{ℕ, ◌+◌, ◌-◌, ◌*◌, ◌/◌, ◌%◌, ◌^◌, ◌≤◌, ◌<◌, ◌≡◌, ap₂, ◌∙◌, refl, arith}
use karudeb.Base.{ℤ, pos, ◌+ℤ◌, ◌-ℤ◌, ◌*ℤ◌, residue, Within, div_parts, to_u32, u8, u32, i16}
use karudeb.Base.{List, ◌∷◌, length, All, bit_and, bit_or, bit_or_above, bit_and_ones}
use karudeb.Base.{and_mask, div, leb, leb→le, holds_below, read_table, read_equation}
use karudeb.Base.{Fives, five, fives, Eights, eight, eights}
use karudeb.MlKem.Reduce.{q}
use karudeb.MlKem.Verify.Compare.{IsByte}
use karudeb.MlKem.Poly.{lift, compress_5, decompress_5, poly_compress_5, poly_decompress_5}
use karudeb.MlKem.Poly.Compress.{
  distance, AllClose, distance-canonical, lift-residue, rounded, rounded-lt,
}

-- `compress_5` on a representative.
from_standard : ℕ → ℕ
from_standard r = bit_and (u32 (u32 (to_u32 (pos r *ℤ pos 32) + 1664) * 40318) / 2 ^ 27) 0x1f

-- The multiplication in the code divides by q, exactly on every representative.
from_standard-rounded : (r : ℕ) → r < q → from_standard r ≡ rounded 5 r
unfolding from_standard holds_below residue ◌*ℤ◌
from_standard-rounded r h = read_equation from_standard (rounded 5) 3329 r refl h

pub compress_5-rounded : (c : ℤ) → Within (q - 1) c → compress_5 c ≡ rounded 5 (residue c q)
unfolding compress_5 from_standard
compress_5-rounded c h =
    rw (lift-residue c h)
      (from_standard-rounded (residue c q) (omega (arith, div_parts c q (omega arith))))

-- What `poly_decompress` makes of five bits.
abbrev pub decompressed_5 : ℕ → ℤ
decompressed_5 t = i16 (pos (u32 (t * q + 16) / 2 ^ 5))

near_rounded : (r : ℕ) → r < q → distance (decompressed_5 (rounded 5 r)) (pos r) ≤ 52
unfolding holds_below i16 residue ◌-ℤ◌
near_rounded r h =
    leb→le _ _
      (read_table (λ i. leb (distance (decompressed_5 (rounded 5 i)) (pos i)) 52) 3329 r refl h)

compress-decompressed_5 : (t : ℕ) → t < 32 → compress_5 (decompressed_5 t) ≡ t
unfolding holds_below i16 residue compress_5 lift ◌*ℤ◌ ◌+ℤ◌ and_mask div
compress-decompressed_5 t h =
    read_equation (λ i. compress_5 (decompressed_5 i)) (λ i. i) 32 t refl h

-- One coefficient there and back.
there_and_back :
    (c : ℤ)
    → Within (q - 1) c
    → (compress_5 c < 32) × (distance (decompressed_5 (compress_5 c)) c ≤ 52)
there_and_back c h =
    let r : ℕ = residue c q in
    let r_lt : r < q = omega (arith, div_parts c q (omega arith)) in
    rw (compress_5-rounded c h, ← distance-canonical (decompressed_5 (rounded 5 r)) c)
      (rounded-lt c 5 (omega arith), near_rounded r r_lt)

-- The mask in the decompression of a field.
field : (x t : ℕ) → x % 32 ≡ t → decompress_5 x ≡ decompressed_5 t
unfolding decompress_5
field x t e = rw (bit_and_ones 5 x 31 refl, e)

-- Eight 5-bit fields of five bytes.
decompress_bytes :
    (a0 a1 a2 a3 a4 : ℕ) (rest : List ℕ)
    → IsByte a0
    → IsByte a1
    → IsByte a2
    → IsByte a3
    → IsByte a4
    → poly_decompress_5 (a0 ∷ a1 ∷ a2 ∷ a3 ∷ a4 ∷ rest)
      ≡ decompressed_5 (a0 % 32)
        ∷ decompressed_5 (a0 / 32 + a1 % 4 * 8)
        ∷ decompressed_5 (a1 / 4 % 32)
        ∷ decompressed_5 (a1 / 128 + a2 % 16 * 2)
        ∷ decompressed_5 (a2 / 16 + a3 % 2 * 16)
        ∷ decompressed_5 (a3 / 2 % 32)
        ∷ decompressed_5 (a3 / 64 + a4 % 8 * 4)
        ∷ decompressed_5 (a4 / 8)
        ∷ poly_decompress_5 rest
unfolding poly_decompress_5
decompress_bytes a0 a1 a2 a3 a4 rest h0 h1 h2 h3 h4 = rw (
  field (a0 / 2 ^ 0) (a0 % 32) (omega arith),
  field (u8 (bit_or (a0 / 2 ^ 5) (a1 * 2 ^ 3))) (a0 / 32 + a1 % 4 * 8)
      (omega (arith, bit_or_above 3 (a0 / 32) a1)),
  field (a1 / 2 ^ 2) (a1 / 4 % 32) (omega arith),
  field (u8 (bit_or (a1 / 2 ^ 7) (a2 * 2 ^ 1))) (a1 / 128 + a2 % 16 * 2)
      (omega (arith, bit_or_above 1 (a1 / 128) a2)),
  field (u8 (bit_or (a2 / 2 ^ 4) (a3 * 2 ^ 4))) (a2 / 16 + a3 % 2 * 16)
      (omega (arith, bit_or_above 4 (a2 / 16) a3)),
  field (a3 / 2 ^ 1) (a3 / 2 % 32) (omega arith),
  field (u8 (bit_or (a3 / 2 ^ 6) (a4 * 2 ^ 2))) (a3 / 64 + a4 % 8 * 4)
      (omega (arith, bit_or_above 2 (a3 / 64) a4)),
  field (a4 / 2 ^ 3) (a4 / 8) (omega arith),
)

-- Five bytes of eight 5-bit fields.
module _ (t0 t1 t2 t3 t4 t5 t6 t7 : ℕ) where
  abbrev byte_0 : ℕ
  byte_0 = t0 + t1 % 8 * 32

  abbrev byte_1 : ℕ
  byte_1 = t1 / 8 + t2 * 4 + t3 % 2 * 128

  abbrev byte_2 : ℕ
  byte_2 = t3 / 2 + t4 % 16 * 16

  abbrev byte_3 : ℕ
  byte_3 = t4 / 16 + t5 * 2 + t6 % 4 * 64

  abbrev byte_4 : ℕ
  byte_4 = t6 / 4 + t7 * 8

abbrev AreFields : ℕ → ℕ → ℕ → ℕ → ℕ → ℕ → ℕ → ℕ → Type 0
AreFields t0 t1 t2 t3 t4 t5 t6 t7 =
    (t0 < 32) × (t1 < 32) × (t2 < 32) × (t3 < 32) × (t4 < 32) × (t5 < 32) × (t6 < 32) × (t7 < 32)

packed_bytes :
    (t0 t1 t2 t3 t4 t5 t6 t7 : ℕ) (rest : List ℕ)
    → AreFields t0 t1 t2 t3 t4 t5 t6 t7
    → ◌≡◌ {A = List ℕ}
        (u8 (bit_or (t0 / 2 ^ 0) (t1 * 2 ^ 5))
          ∷ u8 (bit_or (bit_or (t1 / 2 ^ 3) (t2 * 2 ^ 2)) (t3 * 2 ^ 7))
          ∷ u8 (bit_or (t3 / 2 ^ 1) (t4 * 2 ^ 4))
          ∷ u8 (bit_or (bit_or (t4 / 2 ^ 4) (t5 * 2 ^ 1)) (t6 * 2 ^ 6))
          ∷ u8 (bit_or (t6 / 2 ^ 2) (t7 * 2 ^ 3))
          ∷ rest)
        (byte_0 t0 t1 t2 t3 t4 t5 t6 t7
          ∷ byte_1 t0 t1 t2 t3 t4 t5 t6 t7
          ∷ byte_2 t0 t1 t2 t3 t4 t5 t6 t7
          ∷ byte_3 t0 t1 t2 t3 t4 t5 t6 t7
          ∷ byte_4 t0 t1 t2 t3 t4 t5 t6 t7
          ∷ rest)
packed_bytes t0 t1 t2 t3 t4 t5 t6 t7 rest h = ap₂ ◌∷◌ (omega (arith, bit_or_above 5 (t0 / 1) t1)) (
    ap₂ ◌∷◌
      (rw
        (
          bit_or_above 2 (t1 / 2 ^ 3) t2 (omega arith),
          bit_or_above 7 (t1 / 2 ^ 3 + t2 * 2 ^ 2) t3 (omega arith),
        )
        (omega arith))
      (ap₂ ◌∷◌ (omega (arith, bit_or_above 4 (t3 / 2) t4)) (
        ap₂ ◌∷◌
          (rw
            (
              bit_or_above 1 (t4 / 2 ^ 4) t5 (omega arith),
              bit_or_above 6 (t4 / 2 ^ 4 + t5 * 2 ^ 1) t6 (omega arith),
            )
            (omega arith))
          (ap₂ ◌∷◌ (omega (arith, bit_or_above 3 (t6 / 4) t7)) refl))))

-- What was packed is unpacked.
unpack_packed :
    (t0 t1 t2 t3 t4 t5 t6 t7 : ℕ) (rest : List ℕ)
    → AreFields t0 t1 t2 t3 t4 t5 t6 t7
    → poly_decompress_5 (
        byte_0 t0 t1 t2 t3 t4 t5 t6 t7
        ∷ byte_1 t0 t1 t2 t3 t4 t5 t6 t7
        ∷ byte_2 t0 t1 t2 t3 t4 t5 t6 t7
        ∷ byte_3 t0 t1 t2 t3 t4 t5 t6 t7
        ∷ byte_4 t0 t1 t2 t3 t4 t5 t6 t7
        ∷ rest)
      ≡ decompressed_5 t0
        ∷ decompressed_5 t1
        ∷ decompressed_5 t2
        ∷ decompressed_5 t3
        ∷ decompressed_5 t4
        ∷ decompressed_5 t5
        ∷ decompressed_5 t6
        ∷ decompressed_5 t7
        ∷ poly_decompress_5 rest
unpack_packed t0 t1 t2 t3 t4 t5 t6 t7 rest h =
    decompress_bytes _ _ _ _ _ rest (omega arith) (omega arith) (omega arith) (omega arith)
      (omega arith)
    ∙ (again (omega arith) (
        again (omega arith) (
          again (omega arith) (
            again (omega arith) (
              again (omega arith)
                (again (omega arith) (again (omega arith) (again (omega arith) refl))))))))
  where
    again :
        {x t : ℕ} {p s : List ℤ} → x ≡ t → p ≡ s → (decompressed_5 x ∷ p) ≡ (decompressed_5 t ∷ s)
    again e h = ap₂ (λ x p. decompressed_5 x ∷ p) e h

back_and_forth :
    {p : List ℤ}
    → Eights ℤ p
    → All (Within (q - 1)) p
    → AllClose 52 (poly_decompress_5 (poly_compress_5 p)) p
unfolding poly_compress_5
back_and_forth Eights.done h = unfold poly_decompress_5 in tt
back_and_forth (eight c0 c1 c2 c3 c4 c5 c6 c7 p) (h0, (h1, (h2, (h3, (h4, (h5, (h6, (h7, h)))))))) =
    let (l0, d0) = there_and_back c0 h0 in
    let (l1, d1) = there_and_back c1 h1 in
    let (l2, d2) = there_and_back c2 h2 in
    let (l3, d3) = there_and_back c3 h3 in
    let (l4, d4) = there_and_back c4 h4 in
    let (l5, d5) = there_and_back c5 h5 in
    let (l6, d6) = there_and_back c6 h6 in
    let (l7, d7) = there_and_back c7 h7 in
    rw
      (
        packed_bytes (compress_5 c0) (compress_5 c1) (compress_5 c2) (compress_5 c3) (compress_5 c4)
            (compress_5 c5) (compress_5 c6) (compress_5 c7) _ (l0, l1, l2, l3, l4, l5, l6, l7),
        unpack_packed (compress_5 c0) (compress_5 c1) (compress_5 c2) (compress_5 c3)
            (compress_5 c4) (compress_5 c5) (compress_5 c6) (compress_5 c7) _
            (l0, l1, l2, l3, l4, l5, l6, l7),
      )
      (d0, (d1, (d2, (d3, (d4, (d5, (d6, (d7, back_and_forth p h))))))))

-- Compressing to 5 bits and decompressing moves no coefficient by more than 52 modulo q, for a
-- multiple of eight coefficients strictly between -q and q.
pub decompress-compress_5 :
    (k : ℕ) (p : List ℤ)
    → length p ≡ 8 * k
    → All (Within (q - 1)) p
    → AllClose 52 (poly_decompress_5 (poly_compress_5 p)) p
decompress-compress_5 k p e h = back_and_forth (eights k p e) h

bytes_again :
    {bytes : List ℕ}
    → Fives ℕ bytes
    → All IsByte bytes
    → poly_compress_5 (poly_decompress_5 bytes) ≡ bytes
unfolding poly_compress_5
bytes_again Fives.done h = unfold poly_decompress_5 in refl
bytes_again (five a0 a1 a2 a3 a4 {rest = bytes} w) (h0, (h1, (h2, (h3, (h4, h))))) =
    rw
      (
        decompress_bytes a0 a1 a2 a3 a4 bytes h0 h1 h2 h3 h4,
        compress-decompressed_5 (a0 % 32) (omega arith),
        compress-decompressed_5 (a0 / 32 + a1 % 4 * 8) (omega arith),
        compress-decompressed_5 (a1 / 4 % 32) (omega arith),
        compress-decompressed_5 (a1 / 128 + a2 % 16 * 2) (omega arith),
        compress-decompressed_5 (a2 / 16 + a3 % 2 * 16) (omega arith),
        compress-decompressed_5 (a3 / 2 % 32) (omega arith),
        compress-decompressed_5 (a3 / 64 + a4 % 8 * 4) (omega arith),
        compress-decompressed_5 (a4 / 8) (omega arith),
        packed_bytes (a0 % 32) (a0 / 32 + a1 % 4 * 8) (a1 / 4 % 32) (a1 / 128 + a2 % 16 * 2)
            (a2 / 16 + a3 % 2 * 16) (a3 / 2 % 32) (a3 / 64 + a4 % 8 * 4) (a4 / 8) _ (omega arith),
      )
      (ap₂ ◌∷◌ (omega arith) (
        ap₂ ◌∷◌ (omega arith) (
          ap₂ ◌∷◌ (omega arith) (ap₂ ◌∷◌ (omega arith) (ap₂ ◌∷◌ (omega arith) (bytes_again w h))))))

-- Compressing to 5 bits gives back every byte array, of a multiple of five bytes, that was
-- decompressed.
pub compress-decompress_5 :
    (k : ℕ) (bytes : List ℕ)
    → length bytes ≡ 5 * k
    → All IsByte bytes
    → poly_compress_5 (poly_decompress_5 bytes) ≡ bytes
compress-decompress_5 k bytes e h = bytes_again (fives k bytes e) h
