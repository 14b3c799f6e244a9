-- ===== src/MlDsa/Packing/Mask/Narrow.antt =====
-- `polyz_unpack` undoes `polyz_pack` where gamma1 is 2^17.
use karudeb.Base.{ℕ, ◌+◌, ◌*◌, ◌/◌, ◌%◌, ◌^◌, ◌<◌, ◌≡◌, refl, ap, arith}
use karudeb.Base.{ℤ, pos, negsuc, ◌-ℤ◌, ◌<ℤ◌, ◌≤ℤ◌, -ℤ_parts, to_u32, u8, u32}
use karudeb.Base.{List, ◌∷◌, length, All, bit_and, bit_or, bit_or_above, bit_and_ones, eq_of_parts}
use karudeb.Base.{one_part_zero, div_parts, Fours, four, fours}
use karudeb.MlDsa.Packing.Joined.{joined}
use karudeb.MlDsa.Packing.Mask.{polyz_pack_17, polyz_unpack_17, z_word}

-- From -2^17 + 1 to 2^17.
abbrev pub Fits18 : ℤ → Type 0
Fits18 c = (negsuc 131071 <ℤ c) × (c ≤ℤ pos (2 ^ 17))

word :
    (c : ℤ)
    → Fits18 c
    → (z_word (2 ^ 17) c < 2 ^ 18) × (pos (2 ^ 17) -ℤ pos (z_word (2 ^ 17) c) ≡ c)
unfolding z_word
word c h =
    let z : ℤ = pos (2 ^ 17) -ℤ c in
    (
      omega (
        arith,
        div_parts z (2 ^ 32) (omega arith),
        -ℤ_parts (pos (2 ^ 17)) c,
        one_part_zero c,
        one_part_zero z,
      ),
      eq_of_parts (pos (2 ^ 17) -ℤ pos (to_u32 z)) c (
          omega (
            arith,
            div_parts z (2 ^ 32) (omega arith),
            -ℤ_parts (pos (2 ^ 17)) c,
            one_part_zero c,
            one_part_zero z,
            -ℤ_parts (pos (2 ^ 17)) (pos (to_u32 z)),
          )),
    )

-- The bytes of several fields, as sums.
byte_2 :
    (t0 t1 : ℕ)
    → t0 < 2 ^ 18
    → t1 < 2 ^ 18
    → u8 (bit_or (u8 (t0 / 2 ^ 16)) (u32 (t1 * 2 ^ 2))) ≡ t0 / 65536 + t1 % 64 * 4
byte_2 t0 t1 h0 h1 =
    joined 2 (t0 / 2 ^ 16) t1 (omega arith) (omega arith) (omega arith) (omega arith) (omega arith)

byte_4 :
    (t1 t2 : ℕ)
    → t1 < 2 ^ 18
    → t2 < 2 ^ 18
    → u8 (bit_or (u8 (t1 / 2 ^ 14)) (u32 (t2 * 2 ^ 4))) ≡ t1 / 16384 + t2 % 16 * 16
byte_4 t1 t2 h1 h2 =
    joined 4 (t1 / 2 ^ 14) t2 (omega arith) (omega arith) (omega arith) (omega arith) (omega arith)

byte_6 :
    (t2 t3 : ℕ)
    → t2 < 2 ^ 18
    → t3 < 2 ^ 18
    → u8 (bit_or (u8 (t2 / 2 ^ 12)) (u32 (t3 * 2 ^ 6))) ≡ t2 / 4096 + t3 % 4 * 64
byte_6 t2 t3 h2 h3 =
    joined 6 (t2 / 2 ^ 12) t3 (omega arith) (omega arith) (omega arith) (omega arith) (omega arith)

-- Each field is read back from the bytes that hold it.
field_0 :
    (t0 t1 : ℕ)
    → t0 < 2 ^ 18
    → t1 < 2 ^ 18
    → bit_and
        (bit_or
          (bit_or (t0 % 256) ((t0 / 256 % 256) * 2 ^ 8))
          ((t0 / 65536 + t1 % 64 * 4) * 2 ^ 16))
        262143
      ≡ t0
field_0 t0 t1 h0 h1 =
    rw
      (
        bit_or_above 8 ((t0 % 256)) (t0 / 256 % 256) (omega arith),
        bit_or_above 16 ((t0 % 256) + (t0 / 256 % 256) * 2 ^ 8) (t0 / 65536 + t1 % 64 * 4)
            (omega arith),
        bit_and_ones 18
            ((t0 % 256) + (t0 / 256 % 256) * 2 ^ 8 + (t0 / 65536 + t1 % 64 * 4) * 2 ^ 16) 262143
            refl,
      )
      (omega arith)

field_1 :
    (t0 t1 t2 : ℕ)
    → t0 < 2 ^ 18
    → t1 < 2 ^ 18
    → t2 < 2 ^ 18
    → bit_and
        (bit_or
          (bit_or ((t0 / 65536 + t1 % 64 * 4) / 2 ^ 2) ((t1 / 64 % 256) * 2 ^ 6))
          ((t1 / 16384 + t2 % 16 * 16) * 2 ^ 14))
        262143
      ≡ t1
field_1 t0 t1 t2 h0 h1 h2 =
    rw
      (
        bit_or_above 6 ((t0 / 65536 + t1 % 64 * 4) / 2 ^ 2) (t1 / 64 % 256) (omega arith),
        bit_or_above 14 ((t0 / 65536 + t1 % 64 * 4) / 2 ^ 2 + (t1 / 64 % 256) * 2 ^ 6)
            (t1 / 16384 + t2 % 16 * 16) (omega arith),
        bit_and_ones 18
            ((t0 / 65536 + t1 % 64 * 4) / 2 ^ 2
              + (t1 / 64 % 256) * 2 ^ 6
              + (t1 / 16384 + t2 % 16 * 16) * 2 ^ 14)
            262143 refl,
      )
      (omega arith)

field_2 :
    (t1 t2 t3 : ℕ)
    → t1 < 2 ^ 18
    → t2 < 2 ^ 18
    → t3 < 2 ^ 18
    → bit_and
        (bit_or
          (bit_or ((t1 / 16384 + t2 % 16 * 16) / 2 ^ 4) ((t2 / 16 % 256) * 2 ^ 4))
          ((t2 / 4096 + t3 % 4 * 64) * 2 ^ 12))
        262143
      ≡ t2
field_2 t1 t2 t3 h1 h2 h3 =
    rw
      (
        bit_or_above 4 ((t1 / 16384 + t2 % 16 * 16) / 2 ^ 4) (t2 / 16 % 256) (omega arith),
        bit_or_above 12 ((t1 / 16384 + t2 % 16 * 16) / 2 ^ 4 + (t2 / 16 % 256) * 2 ^ 4)
            (t2 / 4096 + t3 % 4 * 64) (omega arith),
        bit_and_ones 18
            ((t1 / 16384 + t2 % 16 * 16) / 2 ^ 4
              + (t2 / 16 % 256) * 2 ^ 4
              + (t2 / 4096 + t3 % 4 * 64) * 2 ^ 12)
            262143 refl,
      )
      (omega arith)

field_3 :
    (t2 t3 : ℕ)
    → t2 < 2 ^ 18
    → t3 < 2 ^ 18
    → bit_and
        (bit_or
          (bit_or ((t2 / 4096 + t3 % 4 * 64) / 2 ^ 6) ((t3 / 4 % 256) * 2 ^ 2))
          ((t3 / 1024 % 256) * 2 ^ 10))
        262143
      ≡ t3
field_3 t2 t3 h2 h3 =
    rw
      (
        bit_or_above 2 ((t2 / 4096 + t3 % 4 * 64) / 2 ^ 6) (t3 / 4 % 256) (omega arith),
        bit_or_above 10 ((t2 / 4096 + t3 % 4 * 64) / 2 ^ 6 + (t3 / 4 % 256) * 2 ^ 2)
            (t3 / 1024 % 256) (omega arith),
        bit_and_ones 18
            ((t2 / 4096 + t3 % 4 * 64) / 2 ^ 6
              + (t3 / 4 % 256) * 2 ^ 2
              + (t3 / 1024 % 256) * 2 ^ 10)
            262143 refl,
      )
      (omega arith)

again : {p : List ℤ} → Fours ℤ p → All Fits18 p → polyz_unpack_17 (polyz_pack_17 p) ≡ p
unfolding polyz_pack_17 polyz_unpack_17
again Fours.done h = refl
again (four c0 c1 c2 c3 p) (h0, (h1, (h2, (h3, h)))) =
    let (k0, e0) = word c0 h0 in
    let (k1, e1) = word c1 h1 in
    let (k2, e2) = word c2 h2 in
    let (k3, e3) = word c3 h3 in
    rw
      (
        byte_2 (z_word (2 ^ 17) c0) (z_word (2 ^ 17) c1) k0 k1,
        byte_4 (z_word (2 ^ 17) c1) (z_word (2 ^ 17) c2) k1 k2,
        byte_6 (z_word (2 ^ 17) c2) (z_word (2 ^ 17) c3) k2 k3,
        field_0 (z_word (2 ^ 17) c0) (z_word (2 ^ 17) c1) k0 k1,
        e0,
        field_1 (z_word (2 ^ 17) c0) (z_word (2 ^ 17) c1) (z_word (2 ^ 17) c2) k0 k1 k2,
        e1,
        field_2 (z_word (2 ^ 17) c1) (z_word (2 ^ 17) c2) (z_word (2 ^ 17) c3) k1 k2 k3,
        e2,
        field_3 (z_word (2 ^ 17) c2) (z_word (2 ^ 17) c3) k2 k3,
        e3,
      )
      (ap (λ t. c0 ∷ t) (ap (λ t. c1 ∷ t) (ap (λ t. c2 ∷ t) (ap (λ t. c3 ∷ t) (again p h)))))

-- `polyz_unpack_17` reads back what `polyz_pack_17` wrote from a multiple of four coefficients from
-- -2^17 + 1 to 2^17.
pub z_unpack-pack_17 :
    (k : ℕ) (p : List ℤ) → length p ≡ 4 * k → All Fits18 p → polyz_unpack_17 (polyz_pack_17 p) ≡ p
z_unpack-pack_17 k p e h = again (fours k p e) h
