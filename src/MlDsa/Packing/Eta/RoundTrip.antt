-- ===== src/MlDsa/Packing/Eta/RoundTrip.antt =====
-- `polyeta_unpack` undoes `polyeta_pack` where eta is 2.
use karudeb.Base.{ℕ, ◌+◌, ◌*◌, ◌/◌, ◌%◌, ◌^◌, ◌<◌, ◌≡◌, refl, ap, arith}
use karudeb.Base.{ℤ, pos, ◌-ℤ◌, -ℤ_parts, to_u8, u8}
use karudeb.Base.{
  List, ◌∷◌, length, All, bit_and, bit_or, bit_or_above, bit_and_ones, eq_of_parts, Within,
}
use karudeb.Base.{one_part_zero, div_parts, Eights, eight, eights}
use karudeb.MlDsa.Packing.Eta.{polyeta_pack_2, polyeta_unpack_2, eta_byte}

word : (c : ℤ) → Within 2 c → (eta_byte 2 c < 2 ^ 3) × (pos 2 -ℤ pos (eta_byte 2 c) ≡ c)
unfolding eta_byte
word c h =
    let z : ℤ = pos 2 -ℤ c in
    (
      omega (
        arith,
        div_parts z (2 ^ 8) (omega arith),
        -ℤ_parts (pos 2) c,
        one_part_zero c,
        one_part_zero z,
      ),
      eq_of_parts (pos 2 -ℤ pos (to_u8 z)) c (
          omega (
            arith,
            div_parts z (2 ^ 8) (omega arith),
            -ℤ_parts (pos 2) c,
            one_part_zero c,
            one_part_zero z,
            -ℤ_parts (pos 2) (pos (to_u8 z)),
          )),
    )

-- The bytes of several fields, as sums.
byte_0 :
    (t0 t1 t2 : ℕ)
    → t0 < 2 ^ 3
    → t1 < 2 ^ 3
    → t2 < 2 ^ 3
    → u8 (bit_or (bit_or (t0 / 2 ^ 0) (t1 * 2 ^ 3)) (t2 * 2 ^ 6)) ≡ t0 + t1 * 8 + t2 % 4 * 64
byte_0 t0 t1 t2 h0 h1 h2 =
    rw
      (
        bit_or_above 3 (t0 / 2 ^ 0) t1 (omega arith),
        bit_or_above 6 (t0 / 2 ^ 0 + t1 * 2 ^ 3) t2 (omega arith),
      )
      (omega arith)

byte_1 :
    (t2 t3 t4 t5 : ℕ)
    → t2 < 2 ^ 3
    → t3 < 2 ^ 3
    → t4 < 2 ^ 3
    → t5 < 2 ^ 3
    → u8 (bit_or (bit_or (bit_or (t2 / 2 ^ 2) (t3 * 2 ^ 1)) (t4 * 2 ^ 4)) (t5 * 2 ^ 7))
      ≡ t2 / 4 + t3 * 2 + t4 * 16 + t5 % 2 * 128
byte_1 t2 t3 t4 t5 h2 h3 h4 h5 =
    rw
      (
        bit_or_above 1 (t2 / 2 ^ 2) t3 (omega arith),
        bit_or_above 4 (t2 / 2 ^ 2 + t3 * 2 ^ 1) t4 (omega arith),
        bit_or_above 7 (t2 / 2 ^ 2 + t3 * 2 ^ 1 + t4 * 2 ^ 4) t5 (omega arith),
      )
      (omega arith)

byte_2 :
    (t5 t6 t7 : ℕ)
    → t5 < 2 ^ 3
    → t6 < 2 ^ 3
    → t7 < 2 ^ 3
    → u8 (bit_or (bit_or (t5 / 2 ^ 1) (t6 * 2 ^ 2)) (t7 * 2 ^ 5)) ≡ t5 / 2 + t6 * 4 + t7 % 8 * 32
byte_2 t5 t6 t7 h5 h6 h7 =
    rw
      (
        bit_or_above 2 (t5 / 2 ^ 1) t6 (omega arith),
        bit_or_above 5 (t5 / 2 ^ 1 + t6 * 2 ^ 2) t7 (omega arith),
      )
      (omega arith)

-- Each field is read back from the bytes that hold it.
field_0 :
    (t0 t1 t2 : ℕ)
    → t0 < 2 ^ 3
    → t1 < 2 ^ 3
    → t2 < 2 ^ 3
    → bit_and ((t0 + t1 * 8 + t2 % 4 * 64) / 2 ^ 0) 7 ≡ t0
field_0 t0 t1 t2 h0 h1 h2 =
    rw (bit_and_ones 3 ((t0 + t1 * 8 + t2 % 4 * 64) / 2 ^ 0) 7 refl) (omega arith)

field_1 :
    (t0 t1 t2 : ℕ)
    → t0 < 2 ^ 3
    → t1 < 2 ^ 3
    → t2 < 2 ^ 3
    → bit_and ((t0 + t1 * 8 + t2 % 4 * 64) / 2 ^ 3) 7 ≡ t1
field_1 t0 t1 t2 h0 h1 h2 =
    rw (bit_and_ones 3 ((t0 + t1 * 8 + t2 % 4 * 64) / 2 ^ 3) 7 refl) (omega arith)

field_2 :
    (t0 t1 t2 t3 t4 t5 : ℕ)
    → t0 < 2 ^ 3
    → t1 < 2 ^ 3
    → t2 < 2 ^ 3
    → t3 < 2 ^ 3
    → t4 < 2 ^ 3
    → t5 < 2 ^ 3
    → bit_and
        (bit_or
          ((t0 + t1 * 8 + t2 % 4 * 64) / 2 ^ 6)
          ((t2 / 4 + t3 * 2 + t4 * 16 + t5 % 2 * 128) * 2 ^ 2))
        7
      ≡ t2
field_2 t0 t1 t2 t3 t4 t5 h0 h1 h2 h3 h4 h5 =
    rw
      (
        bit_or_above 2 ((t0 + t1 * 8 + t2 % 4 * 64) / 2 ^ 6)
            (t2 / 4 + t3 * 2 + t4 * 16 + t5 % 2 * 128) (omega arith),
        bit_and_ones 3
            ((t0 + t1 * 8 + t2 % 4 * 64) / 2 ^ 6
              + (t2 / 4 + t3 * 2 + t4 * 16 + t5 % 2 * 128) * 2 ^ 2)
            7 refl,
      )
      (omega arith)

field_3 :
    (t2 t3 t4 t5 : ℕ)
    → t2 < 2 ^ 3
    → t3 < 2 ^ 3
    → t4 < 2 ^ 3
    → t5 < 2 ^ 3
    → bit_and ((t2 / 4 + t3 * 2 + t4 * 16 + t5 % 2 * 128) / 2 ^ 1) 7 ≡ t3
field_3 t2 t3 t4 t5 h2 h3 h4 h5 =
    rw (bit_and_ones 3 ((t2 / 4 + t3 * 2 + t4 * 16 + t5 % 2 * 128) / 2 ^ 1) 7 refl) (omega arith)

field_4 :
    (t2 t3 t4 t5 : ℕ)
    → t2 < 2 ^ 3
    → t3 < 2 ^ 3
    → t4 < 2 ^ 3
    → t5 < 2 ^ 3
    → bit_and ((t2 / 4 + t3 * 2 + t4 * 16 + t5 % 2 * 128) / 2 ^ 4) 7 ≡ t4
field_4 t2 t3 t4 t5 h2 h3 h4 h5 =
    rw (bit_and_ones 3 ((t2 / 4 + t3 * 2 + t4 * 16 + t5 % 2 * 128) / 2 ^ 4) 7 refl) (omega arith)

field_5 :
    (t2 t3 t4 t5 t6 t7 : ℕ)
    → t2 < 2 ^ 3
    → t3 < 2 ^ 3
    → t4 < 2 ^ 3
    → t5 < 2 ^ 3
    → t6 < 2 ^ 3
    → t7 < 2 ^ 3
    → bit_and
        (bit_or
          ((t2 / 4 + t3 * 2 + t4 * 16 + t5 % 2 * 128) / 2 ^ 7)
          ((t5 / 2 + t6 * 4 + t7 % 8 * 32) * 2 ^ 1))
        7
      ≡ t5
field_5 t2 t3 t4 t5 t6 t7 h2 h3 h4 h5 h6 h7 =
    rw
      (
        bit_or_above 1 ((t2 / 4 + t3 * 2 + t4 * 16 + t5 % 2 * 128) / 2 ^ 7)
            (t5 / 2 + t6 * 4 + t7 % 8 * 32) (omega arith),
        bit_and_ones 3
            ((t2 / 4 + t3 * 2 + t4 * 16 + t5 % 2 * 128) / 2 ^ 7
              + (t5 / 2 + t6 * 4 + t7 % 8 * 32) * 2 ^ 1)
            7 refl,
      )
      (omega arith)

field_6 :
    (t5 t6 t7 : ℕ)
    → t5 < 2 ^ 3
    → t6 < 2 ^ 3
    → t7 < 2 ^ 3
    → bit_and ((t5 / 2 + t6 * 4 + t7 % 8 * 32) / 2 ^ 2) 7 ≡ t6
field_6 t5 t6 t7 h5 h6 h7 =
    rw (bit_and_ones 3 ((t5 / 2 + t6 * 4 + t7 % 8 * 32) / 2 ^ 2) 7 refl) (omega arith)

field_7 :
    (t5 t6 t7 : ℕ)
    → t5 < 2 ^ 3
    → t6 < 2 ^ 3
    → t7 < 2 ^ 3
    → bit_and ((t5 / 2 + t6 * 4 + t7 % 8 * 32) / 2 ^ 5) 7 ≡ t7
field_7 t5 t6 t7 h5 h6 h7 =
    rw (bit_and_ones 3 ((t5 / 2 + t6 * 4 + t7 % 8 * 32) / 2 ^ 5) 7 refl) (omega arith)

again : {p : List ℤ} → Eights ℤ p → All (Within 2) p → polyeta_unpack_2 (polyeta_pack_2 p) ≡ p
unfolding polyeta_pack_2 polyeta_unpack_2
again Eights.done h = refl
again (eight c0 c1 c2 c3 c4 c5 c6 c7 p) (h0, (h1, (h2, (h3, (h4, (h5, (h6, (h7, h)))))))) =
    let (k0, e0) = word c0 h0 in
    let (k1, e1) = word c1 h1 in
    let (k2, e2) = word c2 h2 in
    let (k3, e3) = word c3 h3 in
    let (k4, e4) = word c4 h4 in
    let (k5, e5) = word c5 h5 in
    let (k6, e6) = word c6 h6 in
    let (k7, e7) = word c7 h7 in
    rw
      (
        byte_0 (eta_byte 2 c0) (eta_byte 2 c1) (eta_byte 2 c2) k0 k1 k2,
        byte_1 (eta_byte 2 c2) (eta_byte 2 c3) (eta_byte 2 c4) (eta_byte 2 c5) k2 k3 k4 k5,
        byte_2 (eta_byte 2 c5) (eta_byte 2 c6) (eta_byte 2 c7) k5 k6 k7,
        field_0 (eta_byte 2 c0) (eta_byte 2 c1) (eta_byte 2 c2) k0 k1 k2,
        e0,
        field_1 (eta_byte 2 c0) (eta_byte 2 c1) (eta_byte 2 c2) k0 k1 k2,
        e1,
        field_2 (eta_byte 2 c0) (eta_byte 2 c1) (eta_byte 2 c2) (eta_byte 2 c3) (eta_byte 2 c4)
            (eta_byte 2 c5) k0 k1 k2 k3 k4 k5,
        e2,
        field_3 (eta_byte 2 c2) (eta_byte 2 c3) (eta_byte 2 c4) (eta_byte 2 c5) k2 k3 k4 k5,
        e3,
        field_4 (eta_byte 2 c2) (eta_byte 2 c3) (eta_byte 2 c4) (eta_byte 2 c5) k2 k3 k4 k5,
        e4,
        field_5 (eta_byte 2 c2) (eta_byte 2 c3) (eta_byte 2 c4) (eta_byte 2 c5) (eta_byte 2 c6)
            (eta_byte 2 c7) k2 k3 k4 k5 k6 k7,
        e5,
        field_6 (eta_byte 2 c5) (eta_byte 2 c6) (eta_byte 2 c7) k5 k6 k7,
        e6,
        field_7 (eta_byte 2 c5) (eta_byte 2 c6) (eta_byte 2 c7) k5 k6 k7,
        e7,
      )
      (ap (λ t. c0 ∷ t)
        (ap (λ t. c1 ∷ t)
          (ap (λ t. c2 ∷ t)
            (ap (λ t. c3 ∷ t)
              (ap (λ t. c4 ∷ t)
                (ap (λ t. c5 ∷ t) (ap (λ t. c6 ∷ t) (ap (λ t. c7 ∷ t) (again p h)))))))))

-- `polyeta_unpack_2` reads back what `polyeta_pack_2` wrote from a multiple of eight coefficients from
-- -2 to 2.
pub eta_unpack-pack_2 :
    (k : ℕ) (p : List ℤ)
    → length p ≡ 8 * k
    → All (Within 2) p
    → polyeta_unpack_2 (polyeta_pack_2 p) ≡ p
eta_unpack-pack_2 k p e h = again (eights k p e) h
