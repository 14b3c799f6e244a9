-- ===== src/MlDsa/Packing/Low/Fields.antt =====
-- The eight fields of 13 bytes that `polyt0_pack` writes, read back.
use karudeb.Base.{ℕ, ◌+◌, ◌*◌, ◌/◌, ◌%◌, ◌^◌, ◌<◌, ◌≡◌, refl, ap, arith}
use karudeb.Base.{ℤ, pos, negsuc, ◌-ℤ◌, ◌<ℤ◌, ◌≤ℤ◌, -ℤ_parts, to_u32, u8, u32}
use karudeb.Base.{bit_or, bit_or_above, bit_and_ones, eq_of_parts}
use karudeb.Base.{one_part_zero, div_parts}
use karudeb.MlDsa.Packing.Joined.{joined}
use karudeb.MlDsa.Packing.Low.{t0_word, t0_coefficient}

-- From -2^12 + 1 to 2^12.
abbrev pub Fits13 : ℤ → Type 0
Fits13 c = (negsuc 4095 <ℤ c) × (c ≤ℤ pos 4096)

pub word : (c : ℤ) → Fits13 c → (t0_word c < 2 ^ 13) × (pos 4096 -ℤ pos (t0_word c) ≡ c)
unfolding t0_word
word c h = (
  omega (
    arith,
    div_parts (pos 4096 -ℤ c) (2 ^ 32) (omega arith),
    -ℤ_parts (pos 4096) c,
    one_part_zero c,
    one_part_zero (pos 4096 -ℤ c),
  ),
  eq_of_parts (pos 4096 -ℤ pos (to_u32 (pos 4096 -ℤ c))) c (
      omega (
        arith,
        div_parts (pos 4096 -ℤ c) (2 ^ 32) (omega arith),
        -ℤ_parts (pos 4096) c,
        one_part_zero c,
        one_part_zero (pos 4096 -ℤ c),
        -ℤ_parts (pos 4096) (pos (to_u32 (pos 4096 -ℤ c))),
      )),
)

-- The bytes of several fields, as sums.
pub byte_1 :
    (t0 t1 : ℕ)
    → t0 < 2 ^ 13
    → t1 < 2 ^ 13
    → u8 (bit_or (u8 (t0 / 2 ^ 8)) (u32 (t1 * 2 ^ 5))) ≡ t0 / 256 + t1 % 8 * 32
byte_1 t0 t1 h0 h1 =
    joined 5 (t0 / 2 ^ 8) t1 (omega arith) (omega arith) (omega arith) (omega arith) (omega arith)

pub byte_3 :
    (t1 t2 : ℕ)
    → t1 < 2 ^ 13
    → t2 < 2 ^ 13
    → u8 (bit_or (u8 (t1 / 2 ^ 11)) (u32 (t2 * 2 ^ 2))) ≡ t1 / 2048 + t2 % 64 * 4
byte_3 t1 t2 h1 h2 =
    joined 2 (t1 / 2 ^ 11) t2 (omega arith) (omega arith) (omega arith) (omega arith) (omega arith)

pub byte_4 :
    (t2 t3 : ℕ)
    → t2 < 2 ^ 13
    → t3 < 2 ^ 13
    → u8 (bit_or (u8 (t2 / 2 ^ 6)) (u32 (t3 * 2 ^ 7))) ≡ t2 / 64 + t3 % 2 * 128
byte_4 t2 t3 h2 h3 =
    joined 7 (t2 / 2 ^ 6) t3 (omega arith) (omega arith) (omega arith) (omega arith) (omega arith)

pub byte_6 :
    (t3 t4 : ℕ)
    → t3 < 2 ^ 13
    → t4 < 2 ^ 13
    → u8 (bit_or (u8 (t3 / 2 ^ 9)) (u32 (t4 * 2 ^ 4))) ≡ t3 / 512 + t4 % 16 * 16
byte_6 t3 t4 h3 h4 =
    joined 4 (t3 / 2 ^ 9) t4 (omega arith) (omega arith) (omega arith) (omega arith) (omega arith)

pub byte_8 :
    (t4 t5 : ℕ)
    → t4 < 2 ^ 13
    → t5 < 2 ^ 13
    → u8 (bit_or (u8 (t4 / 2 ^ 12)) (u32 (t5 * 2 ^ 1))) ≡ t4 / 4096 + t5 % 128 * 2
byte_8 t4 t5 h4 h5 =
    joined 1 (t4 / 2 ^ 12) t5 (omega arith) (omega arith) (omega arith) (omega arith) (omega arith)

pub byte_9 :
    (t5 t6 : ℕ)
    → t5 < 2 ^ 13
    → t6 < 2 ^ 13
    → u8 (bit_or (u8 (t5 / 2 ^ 7)) (u32 (t6 * 2 ^ 6))) ≡ t5 / 128 + t6 % 4 * 64
byte_9 t5 t6 h5 h6 =
    joined 6 (t5 / 2 ^ 7) t6 (omega arith) (omega arith) (omega arith) (omega arith) (omega arith)

pub byte_11 :
    (t6 t7 : ℕ)
    → t6 < 2 ^ 13
    → t7 < 2 ^ 13
    → u8 (bit_or (u8 (t6 / 2 ^ 10)) (u32 (t7 * 2 ^ 3))) ≡ t6 / 1024 + t7 % 32 * 8
byte_11 t6 t7 h6 h7 =
    joined 3 (t6 / 2 ^ 10) t7 (omega arith) (omega arith) (omega arith) (omega arith) (omega arith)

-- Each field is read back from the bytes that hold it.
pub field_0 :
    (t0 t1 : ℕ)
    → t0 < 2 ^ 13
    → t1 < 2 ^ 13
    → t0_coefficient (bit_or (t0 % 256) ((t0 / 256 + t1 % 8 * 32) * 2 ^ 8)) ≡ pos 4096 -ℤ pos t0
unfolding t0_coefficient
field_0 t0 t1 h0 h1 =
    rw
      (
        bit_or_above 8 ((t0 % 256)) (t0 / 256 + t1 % 8 * 32) (omega arith),
        bit_and_ones 13 ((t0 % 256) + (t0 / 256 + t1 % 8 * 32) * 2 ^ 8) 8191 refl,
      )
      (ap (λ t. pos 4096 -ℤ pos t) (omega arith))

pub field_1 :
    (t0 t1 t2 : ℕ)
    → t0 < 2 ^ 13
    → t1 < 2 ^ 13
    → t2 < 2 ^ 13
    → t0_coefficient (
        bit_or
          (bit_or ((t0 / 256 + t1 % 8 * 32) / 2 ^ 5) ((t1 / 8 % 256) * 2 ^ 3))
          ((t1 / 2048 + t2 % 64 * 4) * 2 ^ 11))
      ≡ pos 4096 -ℤ pos t1
unfolding t0_coefficient
field_1 t0 t1 t2 h0 h1 h2 =
    rw
      (
        bit_or_above 3 ((t0 / 256 + t1 % 8 * 32) / 2 ^ 5) (t1 / 8 % 256) (omega arith),
        bit_or_above 11 ((t0 / 256 + t1 % 8 * 32) / 2 ^ 5 + (t1 / 8 % 256) * 2 ^ 3)
            (t1 / 2048 + t2 % 64 * 4) (omega arith),
        bit_and_ones 13
            ((t0 / 256 + t1 % 8 * 32) / 2 ^ 5
              + (t1 / 8 % 256) * 2 ^ 3
              + (t1 / 2048 + t2 % 64 * 4) * 2 ^ 11)
            8191 refl,
      )
      (ap (λ t. pos 4096 -ℤ pos t) (omega arith))

pub field_2 :
    (t1 t2 t3 : ℕ)
    → t1 < 2 ^ 13
    → t2 < 2 ^ 13
    → t3 < 2 ^ 13
    → t0_coefficient (bit_or ((t1 / 2048 + t2 % 64 * 4) / 2 ^ 2) ((t2 / 64 + t3 % 2 * 128) * 2 ^ 6))
      ≡ pos 4096 -ℤ pos t2
unfolding t0_coefficient
field_2 t1 t2 t3 h1 h2 h3 =
    rw
      (
        bit_or_above 6 ((t1 / 2048 + t2 % 64 * 4) / 2 ^ 2) (t2 / 64 + t3 % 2 * 128) (omega arith),
        bit_and_ones 13 ((t1 / 2048 + t2 % 64 * 4) / 2 ^ 2 + (t2 / 64 + t3 % 2 * 128) * 2 ^ 6) 8191
            refl,
      )
      (ap (λ t. pos 4096 -ℤ pos t) (omega arith))

pub field_3 :
    (t2 t3 t4 : ℕ)
    → t2 < 2 ^ 13
    → t3 < 2 ^ 13
    → t4 < 2 ^ 13
    → t0_coefficient (
        bit_or
          (bit_or ((t2 / 64 + t3 % 2 * 128) / 2 ^ 7) ((t3 / 2 % 256) * 2 ^ 1))
          ((t3 / 512 + t4 % 16 * 16) * 2 ^ 9))
      ≡ pos 4096 -ℤ pos t3
unfolding t0_coefficient
field_3 t2 t3 t4 h2 h3 h4 =
    rw
      (
        bit_or_above 1 ((t2 / 64 + t3 % 2 * 128) / 2 ^ 7) (t3 / 2 % 256) (omega arith),
        bit_or_above 9 ((t2 / 64 + t3 % 2 * 128) / 2 ^ 7 + (t3 / 2 % 256) * 2 ^ 1)
            (t3 / 512 + t4 % 16 * 16) (omega arith),
        bit_and_ones 13
            ((t2 / 64 + t3 % 2 * 128) / 2 ^ 7
              + (t3 / 2 % 256) * 2 ^ 1
              + (t3 / 512 + t4 % 16 * 16) * 2 ^ 9)
            8191 refl,
      )
      (ap (λ t. pos 4096 -ℤ pos t) (omega arith))

pub field_4 :
    (t3 t4 t5 : ℕ)
    → t3 < 2 ^ 13
    → t4 < 2 ^ 13
    → t5 < 2 ^ 13
    → t0_coefficient (
        bit_or
          (bit_or ((t3 / 512 + t4 % 16 * 16) / 2 ^ 4) ((t4 / 16 % 256) * 2 ^ 4))
          ((t4 / 4096 + t5 % 128 * 2) * 2 ^ 12))
      ≡ pos 4096 -ℤ pos t4
unfolding t0_coefficient
field_4 t3 t4 t5 h3 h4 h5 =
    rw
      (
        bit_or_above 4 ((t3 / 512 + t4 % 16 * 16) / 2 ^ 4) (t4 / 16 % 256) (omega arith),
        bit_or_above 12 ((t3 / 512 + t4 % 16 * 16) / 2 ^ 4 + (t4 / 16 % 256) * 2 ^ 4)
            (t4 / 4096 + t5 % 128 * 2) (omega arith),
        bit_and_ones 13
            ((t3 / 512 + t4 % 16 * 16) / 2 ^ 4
              + (t4 / 16 % 256) * 2 ^ 4
              + (t4 / 4096 + t5 % 128 * 2) * 2 ^ 12)
            8191 refl,
      )
      (ap (λ t. pos 4096 -ℤ pos t) (omega arith))

pub field_5 :
    (t4 t5 t6 : ℕ)
    → t4 < 2 ^ 13
    → t5 < 2 ^ 13
    → t6 < 2 ^ 13
    → t0_coefficient
        (bit_or ((t4 / 4096 + t5 % 128 * 2) / 2 ^ 1) ((t5 / 128 + t6 % 4 * 64) * 2 ^ 7))
      ≡ pos 4096 -ℤ pos t5
unfolding t0_coefficient
field_5 t4 t5 t6 h4 h5 h6 =
    rw
      (
        bit_or_above 7 ((t4 / 4096 + t5 % 128 * 2) / 2 ^ 1) (t5 / 128 + t6 % 4 * 64) (omega arith),
        bit_and_ones 13 ((t4 / 4096 + t5 % 128 * 2) / 2 ^ 1 + (t5 / 128 + t6 % 4 * 64) * 2 ^ 7) 8191
            refl,
      )
      (ap (λ t. pos 4096 -ℤ pos t) (omega arith))

pub field_6 :
    (t5 t6 t7 : ℕ)
    → t5 < 2 ^ 13
    → t6 < 2 ^ 13
    → t7 < 2 ^ 13
    → t0_coefficient (
        bit_or
          (bit_or ((t5 / 128 + t6 % 4 * 64) / 2 ^ 6) ((t6 / 4 % 256) * 2 ^ 2))
          ((t6 / 1024 + t7 % 32 * 8) * 2 ^ 10))
      ≡ pos 4096 -ℤ pos t6
unfolding t0_coefficient
field_6 t5 t6 t7 h5 h6 h7 =
    rw
      (
        bit_or_above 2 ((t5 / 128 + t6 % 4 * 64) / 2 ^ 6) (t6 / 4 % 256) (omega arith),
        bit_or_above 10 ((t5 / 128 + t6 % 4 * 64) / 2 ^ 6 + (t6 / 4 % 256) * 2 ^ 2)
            (t6 / 1024 + t7 % 32 * 8) (omega arith),
        bit_and_ones 13
            ((t5 / 128 + t6 % 4 * 64) / 2 ^ 6
              + (t6 / 4 % 256) * 2 ^ 2
              + (t6 / 1024 + t7 % 32 * 8) * 2 ^ 10)
            8191 refl,
      )
      (ap (λ t. pos 4096 -ℤ pos t) (omega arith))

pub field_7 :
    (t6 t7 : ℕ)
    → t6 < 2 ^ 13
    → t7 < 2 ^ 13
    → t0_coefficient (bit_or ((t6 / 1024 + t7 % 32 * 8) / 2 ^ 3) ((t7 / 32 % 256) * 2 ^ 5))
      ≡ pos 4096 -ℤ pos t7
unfolding t0_coefficient
field_7 t6 t7 h6 h7 =
    rw
      (
        bit_or_above 5 ((t6 / 1024 + t7 % 32 * 8) / 2 ^ 3) (t7 / 32 % 256) (omega arith),
        bit_and_ones 13 ((t6 / 1024 + t7 % 32 * 8) / 2 ^ 3 + (t7 / 32 % 256) * 2 ^ 5) 8191 refl,
      )
      (ap (λ t. pos 4096 -ℤ pos t) (omega arith))
