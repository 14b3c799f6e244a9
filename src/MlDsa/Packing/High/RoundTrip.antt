-- ===== src/MlDsa/Packing/High/RoundTrip.antt =====
-- `polyt1_unpack` undoes `polyt1_pack`.
use karudeb.Base.{ℕ, ◌+◌, ◌*◌, ◌/◌, ◌%◌, ◌^◌, ◌<◌, ◌≡◌, refl, ap, arith}
use karudeb.Base.{ℤ, pos, negsuc, pos_part, neg_part, residue, to_u32, u8}
use karudeb.Base.{List, ◌∷◌, length, All, bit_and, bit_or, bit_or_above, bit_and_ones}
use karudeb.Base.{Fours, four, fours}
use karudeb.MlDsa.Packing.High.{polyt1_pack, polyt1_unpack}

-- A standard representative of 10 bits.
abbrev pub Fits10 : ℤ → Type 0
Fits10 c = (neg_part c ≡ 0) × (pos_part c < 2 ^ 10)

word : (c : ℤ) → Fits10 c → (to_u32 c < 2 ^ 10) × (pos (to_u32 c) ≡ c)
unfolding residue
word (pos n) h = (omega arith, ap pos (omega arith))
word (negsuc n) h = absurd (omega arith)

-- The bytes of several fields, as sums.
byte_1 :
    (t0 t1 : ℕ)
    → t0 < 2 ^ 10
    → t1 < 2 ^ 10
    → u8 (bit_or (t0 / 2 ^ 8) (t1 * 2 ^ 2)) ≡ t0 / 256 + t1 % 64 * 4
byte_1 t0 t1 h0 h1 = rw (bit_or_above 2 (t0 / 2 ^ 8) t1 (omega arith)) (omega arith)

byte_2 :
    (t1 t2 : ℕ)
    → t1 < 2 ^ 10
    → t2 < 2 ^ 10
    → u8 (bit_or (t1 / 2 ^ 6) (t2 * 2 ^ 4)) ≡ t1 / 64 + t2 % 16 * 16
byte_2 t1 t2 h1 h2 = rw (bit_or_above 4 (t1 / 2 ^ 6) t2 (omega arith)) (omega arith)

byte_3 :
    (t2 t3 : ℕ)
    → t2 < 2 ^ 10
    → t3 < 2 ^ 10
    → u8 (bit_or (t2 / 2 ^ 4) (t3 * 2 ^ 6)) ≡ t2 / 16 + t3 % 4 * 64
byte_3 t2 t3 h2 h3 = rw (bit_or_above 6 (t2 / 2 ^ 4) t3 (omega arith)) (omega arith)

-- Each field is read back from the bytes that hold it.
field_0 :
    (t0 t1 : ℕ)
    → t0 < 2 ^ 10
    → t1 < 2 ^ 10
    → bit_and (bit_or ((t0 / 2 ^ 0 % 256) / 2 ^ 0) ((t0 / 256 + t1 % 64 * 4) * 2 ^ 8)) 1023 ≡ t0
field_0 t0 t1 h0 h1 =
    rw
      (
        bit_or_above 8 ((t0 / 2 ^ 0 % 256) / 2 ^ 0) (t0 / 256 + t1 % 64 * 4) (omega arith),
        bit_and_ones 10 ((t0 / 2 ^ 0 % 256) / 2 ^ 0 + (t0 / 256 + t1 % 64 * 4) * 2 ^ 8) 1023 refl,
      )
      (omega arith)

field_1 :
    (t0 t1 t2 : ℕ)
    → t0 < 2 ^ 10
    → t1 < 2 ^ 10
    → t2 < 2 ^ 10
    → bit_and (bit_or ((t0 / 256 + t1 % 64 * 4) / 2 ^ 2) ((t1 / 64 + t2 % 16 * 16) * 2 ^ 6)) 1023
      ≡ t1
field_1 t0 t1 t2 h0 h1 h2 =
    rw
      (
        bit_or_above 6 ((t0 / 256 + t1 % 64 * 4) / 2 ^ 2) (t1 / 64 + t2 % 16 * 16) (omega arith),
        bit_and_ones 10 ((t0 / 256 + t1 % 64 * 4) / 2 ^ 2 + (t1 / 64 + t2 % 16 * 16) * 2 ^ 6) 1023
            refl,
      )
      (omega arith)

field_2 :
    (t1 t2 t3 : ℕ)
    → t1 < 2 ^ 10
    → t2 < 2 ^ 10
    → t3 < 2 ^ 10
    → bit_and (bit_or ((t1 / 64 + t2 % 16 * 16) / 2 ^ 4) ((t2 / 16 + t3 % 4 * 64) * 2 ^ 4)) 1023
      ≡ t2
field_2 t1 t2 t3 h1 h2 h3 =
    rw
      (
        bit_or_above 4 ((t1 / 64 + t2 % 16 * 16) / 2 ^ 4) (t2 / 16 + t3 % 4 * 64) (omega arith),
        bit_and_ones 10 ((t1 / 64 + t2 % 16 * 16) / 2 ^ 4 + (t2 / 16 + t3 % 4 * 64) * 2 ^ 4) 1023
            refl,
      )
      (omega arith)

field_3 :
    (t2 t3 : ℕ)
    → t2 < 2 ^ 10
    → t3 < 2 ^ 10
    → bit_and (bit_or ((t2 / 16 + t3 % 4 * 64) / 2 ^ 6) ((t3 / 2 ^ 2 % 256) * 2 ^ 2)) 1023 ≡ t3
field_3 t2 t3 h2 h3 =
    rw
      (
        bit_or_above 2 ((t2 / 16 + t3 % 4 * 64) / 2 ^ 6) (t3 / 2 ^ 2 % 256) (omega arith),
        bit_and_ones 10 ((t2 / 16 + t3 % 4 * 64) / 2 ^ 6 + (t3 / 2 ^ 2 % 256) * 2 ^ 2) 1023 refl,
      )
      (omega arith)

again : {p : List ℤ} → Fours ℤ p → All Fits10 p → polyt1_unpack (polyt1_pack p) ≡ p
unfolding polyt1_pack polyt1_unpack
again Fours.done h = refl
again (four c0 c1 c2 c3 p) (h0, (h1, (h2, (h3, h)))) =
    let (k0, e0) = word c0 h0 in
    let (k1, e1) = word c1 h1 in
    let (k2, e2) = word c2 h2 in
    let (k3, e3) = word c3 h3 in
    rw
      (
        byte_1 (to_u32 c0) (to_u32 c1) k0 k1,
        byte_2 (to_u32 c1) (to_u32 c2) k1 k2,
        byte_3 (to_u32 c2) (to_u32 c3) k2 k3,
        field_0 (to_u32 c0) (to_u32 c1) k0 k1,
        e0,
        field_1 (to_u32 c0) (to_u32 c1) (to_u32 c2) k0 k1 k2,
        e1,
        field_2 (to_u32 c1) (to_u32 c2) (to_u32 c3) k1 k2 k3,
        e2,
        field_3 (to_u32 c2) (to_u32 c3) k2 k3,
        e3,
      )
      (ap (λ t. c0 ∷ t) (ap (λ t. c1 ∷ t) (ap (λ t. c2 ∷ t) (ap (λ t. c3 ∷ t) (again p h)))))

-- `polyt1_unpack` reads back what `polyt1_pack` wrote from a multiple of four coefficients from 0 to
-- 2^10 - 1.
pub t1_unpack-pack :
    (k : ℕ) (p : List ℤ) → length p ≡ 4 * k → All Fits10 p → polyt1_unpack (polyt1_pack p) ≡ p
t1_unpack-pack k p e h = again (fours k p e) h
