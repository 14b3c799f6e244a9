-- ===== src/MlDsa/Packing/Eta/Pairs.antt =====
-- `polyeta_unpack` undoes `polyeta_pack` where eta is 4.
use karudeb.Base.{ℕ, ◌+◌, ◌*◌, ◌/◌, ◌^◌, ◌<◌, ◌≡◌, refl, ap, arith}
use karudeb.Base.{ℤ, pos, ◌-ℤ◌, -ℤ_parts, to_u8, u8}
use karudeb.Base.{
  List, ◌∷◌, length, All, bit_and, bit_or, bit_or_above, bit_and_ones, eq_of_parts, Within,
}
use karudeb.Base.{one_part_zero, div_parts, Twos, two, twos}
use karudeb.MlDsa.Packing.Eta.{polyeta_pack_4, polyeta_unpack_4, eta_byte}

word : (c : ℤ) → Within 4 c → (eta_byte 4 c < 2 ^ 4) × (pos 4 -ℤ pos (eta_byte 4 c) ≡ c)
unfolding eta_byte
word c h =
    let z : ℤ = pos 4 -ℤ c in
    (
      omega (
        arith,
        div_parts z (2 ^ 8) (omega arith),
        -ℤ_parts (pos 4) c,
        one_part_zero c,
        one_part_zero z,
      ),
      eq_of_parts (pos 4 -ℤ pos (to_u8 z)) c (
          omega (
            arith,
            div_parts z (2 ^ 8) (omega arith),
            -ℤ_parts (pos 4) c,
            one_part_zero c,
            one_part_zero z,
            -ℤ_parts (pos 4) (pos (to_u8 z)),
          )),
    )

byte_0 : (t0 t1 : ℕ) → t0 < 2 ^ 4 → t1 < 2 ^ 4 → u8 (bit_or t0 (t1 * 2 ^ 4)) ≡ t0 + t1 * 16
byte_0 t0 t1 h0 h1 = rw (bit_or_above 4 t0 t1 h0) (omega arith)

low : (t0 t1 : ℕ) → t0 < 2 ^ 4 → bit_and (t0 + t1 * 16) 15 ≡ t0
low t0 t1 h0 = rw (bit_and_ones 4 (t0 + t1 * 16) 15 refl) (omega arith)

high : (t0 t1 : ℕ) → t0 < 2 ^ 4 → (t0 + t1 * 16) / 2 ^ 4 ≡ t1
high t0 t1 h0 = omega arith

again : {p : List ℤ} → Twos ℤ p → All (Within 4) p → polyeta_unpack_4 (polyeta_pack_4 p) ≡ p
unfolding polyeta_pack_4 polyeta_unpack_4
again Twos.done h = refl
again (two c0 c1 p) (h0, (h1, h)) =
    let (k0, e0) = word c0 h0 in
    let (k1, e1) = word c1 h1 in
    let t0 = eta_byte 4 c0 in
    let t1 = eta_byte 4 c1 in
    rw (byte_0 t0 t1 k0 k1, low t0 t1 k0, e0, high t0 t1 k0, e1)
      (ap (λ t. c0 ∷ t) (ap (λ t. c1 ∷ t) (again p h)))

-- `polyeta_unpack_4` reads back what `polyeta_pack_4` wrote from an even number of coefficients from -4
-- to 4.
pub eta_unpack-pack_4 :
    (k : ℕ) (p : List ℤ)
    → length p ≡ 2 * k
    → All (Within 4) p
    → polyeta_unpack_4 (polyeta_pack_4 p) ≡ p
eta_unpack-pack_4 k p e h = again (twos k p e) h
