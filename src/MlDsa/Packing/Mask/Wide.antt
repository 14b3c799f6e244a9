-- ===== src/MlDsa/Packing/Mask/Wide.antt =====
-- `polyz_unpack` undoes `polyz_pack` where gamma1 is 2^19.
use karudeb.Base.{ℕ, ◌+◌, ◌*◌, ◌/◌, ◌%◌, ◌^◌, ◌<◌, ◌≡◌, refl, ap, arith}
use karudeb.Base.{ℤ, pos, negsuc, ◌-ℤ◌, ◌<ℤ◌, ◌≤ℤ◌, -ℤ_parts, to_u32, u8, u32}
use karudeb.Base.{List, ◌∷◌, length, All, bit_and, bit_or, bit_or_above, bit_and_ones, eq_of_parts}
use karudeb.Base.{one_part_zero, div_parts, Twos, two, twos}
use karudeb.MlDsa.Packing.Joined.{joined}
use karudeb.MlDsa.Packing.Mask.{polyz_pack_19, polyz_unpack_19, z_word}

-- From -2^19 + 1 to 2^19.
abbrev pub Fits20 : ℤ → Type 0
Fits20 c = (negsuc 524287 <ℤ c) × (c ≤ℤ pos (2 ^ 19))

word :
    (c : ℤ)
    → Fits20 c
    → (z_word (2 ^ 19) c < 2 ^ 20) × (pos (2 ^ 19) -ℤ pos (z_word (2 ^ 19) c) ≡ c)
unfolding z_word
word c h =
    let z : ℤ = pos (2 ^ 19) -ℤ c in
    (
      omega (
        arith,
        div_parts z (2 ^ 32) (omega arith),
        -ℤ_parts (pos (2 ^ 19)) c,
        one_part_zero c,
        one_part_zero z,
      ),
      eq_of_parts (pos (2 ^ 19) -ℤ pos (to_u32 z)) c (
          omega (
            arith,
            div_parts z (2 ^ 32) (omega arith),
            -ℤ_parts (pos (2 ^ 19)) c,
            one_part_zero c,
            one_part_zero z,
            -ℤ_parts (pos (2 ^ 19)) (pos (to_u32 z)),
          )),
    )

-- The bytes of several fields, as sums.
byte_2 :
    (t0 t1 : ℕ)
    → t0 < 2 ^ 20
    → t1 < 2 ^ 20
    → u8 (bit_or (u8 (t0 / 2 ^ 16)) (u32 (t1 * 2 ^ 4))) ≡ t0 / 65536 + t1 % 16 * 16
byte_2 t0 t1 h0 h1 =
    joined 4 (t0 / 2 ^ 16) t1 (omega arith) (omega arith) (omega arith) (omega arith) (omega arith)

-- Each field is read back from the bytes that hold it.
field_0 :
    (t0 t1 : ℕ)
    → t0 < 2 ^ 20
    → t1 < 2 ^ 20
    → bit_and
        (bit_or
          (bit_or (t0 % 256) ((t0 / 256 % 256) * 2 ^ 8))
          ((t0 / 65536 + t1 % 16 * 16) * 2 ^ 16))
        1048575
      ≡ t0
field_0 t0 t1 h0 h1 =
    rw
      (
        bit_or_above 8 ((t0 % 256)) (t0 / 256 % 256) (omega arith),
        bit_or_above 16 ((t0 % 256) + (t0 / 256 % 256) * 2 ^ 8) (t0 / 65536 + t1 % 16 * 16)
            (omega arith),
        bit_and_ones 20
            ((t0 % 256) + (t0 / 256 % 256) * 2 ^ 8 + (t0 / 65536 + t1 % 16 * 16) * 2 ^ 16) 1048575
            refl,
      )
      (omega arith)

field_1 :
    (t0 t1 : ℕ)
    → t0 < 2 ^ 20
    → t1 < 2 ^ 20
    → (bit_or
        (bit_or ((t0 / 65536 + t1 % 16 * 16) / 2 ^ 4) ((t1 / 16 % 256) * 2 ^ 4))
        ((t1 / 4096 % 256) * 2 ^ 12))
      ≡ t1
field_1 t0 t1 h0 h1 =
    rw
      (
        bit_or_above 4 ((t0 / 65536 + t1 % 16 * 16) / 2 ^ 4) (t1 / 16 % 256) (omega arith),
        bit_or_above 12 ((t0 / 65536 + t1 % 16 * 16) / 2 ^ 4 + (t1 / 16 % 256) * 2 ^ 4)
            (t1 / 4096 % 256) (omega arith),
      )
      (omega arith)

again : {p : List ℤ} → Twos ℤ p → All Fits20 p → polyz_unpack_19 (polyz_pack_19 p) ≡ p
unfolding polyz_pack_19 polyz_unpack_19
again Twos.done h = refl
again (two c0 c1 p) (h0, (h1, h)) =
    let (k0, e0) = word c0 h0 in
    let (k1, e1) = word c1 h1 in
    rw
      (
        byte_2 (z_word (2 ^ 19) c0) (z_word (2 ^ 19) c1) k0 k1,
        field_0 (z_word (2 ^ 19) c0) (z_word (2 ^ 19) c1) k0 k1,
        e0,
        field_1 (z_word (2 ^ 19) c0) (z_word (2 ^ 19) c1) k0 k1,
        e1,
      )
      (ap (λ t. c0 ∷ t) (ap (λ t. c1 ∷ t) (again p h)))

-- `polyz_unpack_19` reads back what `polyz_pack_19` wrote from an even number of coefficients from
-- -2^19 + 1 to 2^19.
pub z_unpack-pack_19 :
    (k : ℕ) (p : List ℤ) → length p ≡ 2 * k → All Fits20 p → polyz_unpack_19 (polyz_pack_19 p) ≡ p
z_unpack-pack_19 k p e h = again (twos k p e) h
