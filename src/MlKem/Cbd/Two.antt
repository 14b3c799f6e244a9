-- ===== src/MlKem/Cbd/Two.antt =====
-- `cbd2`: each coefficient is a difference of two sums of two bits.
use karudeb.Base.{
  ℕ, zero, suc, ◌+◌, ◌*◌, ◌/◌, ◌%◌, ◌^◌, ◌≤◌, ◌<◌, ◌≡◌, ap, ap₂, ◌∙◌, sym, refl, arith,
}
use karudeb.Base.{ℤ, pos, ◌-ℤ◌, Within, i16, i16_fits, u32, one_part_zero, -ℤ_parts}
use karudeb.Base.{
  List, [], ◌∷◌, ◌++◌, All, All-append, bit_and, bit_or_above, bit_and_ones, bit_and_lowest,
}
use native.Mathlib.Nat.{div-div-eq-div-mul, add-zero}
use native.Mathlib.Numerals.{towards_suc}
use karudeb.MlKem.Verify.Compare.{IsByte}
use karudeb.MlKem.Cbd.{load32_littleendian, cbd2_word, cbd2}

-- The next eight coefficients are read from the bits of a number, four bits each.
abbrev pub from_bits_2 : ℕ → ℕ → List ℤ
from_bits_2 zero t = []
from_bits_2 (suc left) t =
    (pos (t % 2 + t / 2 % 2) -ℤ pos (t / 4 % 2 + t / 8 % 2)) ∷ from_bits_2 left (t / 16)

-- The mask of `k` bits, two places apart.
mask_2 : ℕ → ℕ
mask_2 zero = 0
mask_2 (suc k) = 4 * mask_2 k + 1

bit_and-mask : (t m : ℕ) → bit_and t (4 * m + 1) ≡ bit_and (t / 4) m * 4 + t % 2
bit_and-mask t m =
    ground (arith, bit_and_lowest t (4 * m + 1), bit_and_lowest (t / 2) ((4 * m + 1) / 2))

-- Sums of neighbouring bits in fields of two bits.
pair_sums : ℕ → ℕ → ℕ
pair_sums k t = bit_and t (mask_2 k) + bit_and (t / 2) (mask_2 k)

pair_sums-suc : (k t : ℕ) → pair_sums (suc k) t ≡ pair_sums k (t / 4) * 4 + (t % 2 + t / 2 % 2)
unfolding pair_sums mask_2
pair_sums-suc k t = ground (arith, bit_and-mask t (mask_2 k), bit_and-mask (t / 2) (mask_2 k))

-- The fields of two bits of the rest x of the sums, as the loop takes them.
differences_2 : ℕ → ℕ → List ℤ
differences_2 zero x = []
differences_2 (suc left) x = (pos (x % 4) -ℤ pos (x / 4 % 4)) ∷ differences_2 left (x / 16)

shift_by : (d s : ℕ) → (d / 2 ^ (s + 2) ≡ d / 2 ^ s / 4) × (d / 2 ^ (s + 4) ≡ d / 2 ^ s / 16)
shift_by d s = (
  sym (div-div-eq-div-mul d (2 ^ s) 4 ∙ ap (λ t. d / t) (simp towards_suc (omega arith))),
  sym (div-div-eq-div-mul d (2 ^ s) 16 ∙ ap (λ t. d / t) (simp towards_suc (omega arith))),
)

pub small_difference : (a b : ℕ) → a < 8 → b < 8 → i16 (pos a -ℤ pos b) ≡ pos a -ℤ pos b
small_difference a b h k =
    i16_fits _ (omega (arith, -ℤ_parts (pos a) (pos b), one_part_zero (pos a -ℤ pos b)))
      (omega (arith, -ℤ_parts (pos a) (pos b), one_part_zero (pos a -ℤ pos b)))

cbd2_word-differences : (left j d : ℕ) → cbd2_word left j d ≡ differences_2 left (d / 2 ^ (4 * j))
unfolding cbd2_word differences_2
cbd2_word-differences zero j d = refl
cbd2_word-differences (suc left) j d =
    let x : ℕ = d / 2 ^ (4 * j) in
    let next : 4 * (j + 1) ≡ 4 * j + 4 = omega arith in
    ap₂ ◌∷◌
      (rw
        (
          add-zero (4 * j),
          (shift_by d (4 * j)).0,
          bit_and_ones 2 x 3 refl,
          bit_and_ones 2 (x / 4) 3 refl,
        )
        (small_difference (x % 4) (x / 4 % 4) (omega arith) (omega arith)))
      (cbd2_word-differences left (j + 1) d
        ∙ ap (λ t. differences_2 left (d / 2 ^ t)) next
        ∙ ap (differences_2 left) (shift_by d (4 * j)).1)

differences-from_bits :
    (left t : ℕ) → differences_2 left (pair_sums (2 * left) t) ≡ from_bits_2 left t
unfolding differences_2
differences-from_bits zero t = refl
differences-from_bits (suc left) t =
    let two : 2 * suc left ≡ suc (suc (2 * left)) = omega arith in
    let rest : ℕ = pair_sums (2 * left) (t / 16) in
    let sums : pair_sums (2 * suc left) t
        ≡ rest * 16 + (t / 4 % 2 + t / 8 % 2) * 4 + (t % 2 + t / 2 % 2) =
      rw two (ground (arith, pair_sums-suc (suc (2 * left)) t, pair_sums-suc (2 * left) (t / 4))) in
    let low : pair_sums (2 * suc left) t % 4 ≡ t % 2 + t / 2 % 2 = omega arith in
    let high : pair_sums (2 * suc left) t / 4 % 4 ≡ t / 4 % 2 + t / 8 % 2 = omega arith in
    let next : pair_sums (2 * suc left) t / 16 ≡ rest = omega arith in
    rw (low, high, next)
      (ap (λ p. (pos (t % 2 + t / 2 % 2) -ℤ pos (t / 4 % 2 + t / 8 % 2)) ∷ p)
        (differences-from_bits left (t / 16)))

mask_bound : (k t : ℕ) → bit_and t (mask_2 k) ≤ mask_2 k
unfolding mask_2
mask_bound zero t = omega (arith, bit_and_ones 0 t 0 refl)
mask_bound (suc k) t = omega (arith, bit_and-mask t (mask_2 k), mask_bound k (t / 4))

-- Four bytes as one number, lowest byte first.
abbrev pub little_endian_32 : ℕ → ℕ → ℕ → ℕ → ℕ
little_endian_32 x0 x1 x2 x3 = x0 + x1 * 2 ^ 8 + x2 * 2 ^ 16 + x3 * 2 ^ 24

load32_lem :
    (x0 x1 x2 x3 : ℕ)
    → IsByte x0
    → IsByte x1
    → IsByte x2
    → load32_littleendian x0 x1 x2 x3 ≡ little_endian_32 x0 x1 x2 x3
unfolding load32_littleendian
load32_lem x0 x1 x2 x3 h0 h1 h2 = rw (
  bit_or_above 8 x0 x1 h0,
  bit_or_above 16 (x0 + x1 * 2 ^ 8) x2 (omega arith),
  bit_or_above 24 (x0 + x1 * 2 ^ 8 + x2 * 2 ^ 16) x3 (omega arith),
)

-- What `cbd2` is to compute: 32 bits at a time, eight coefficients.
abbrev pub binomial_2 : List ℕ → List ℤ
binomial_2 (x0 ∷ x1 ∷ x2 ∷ x3 ∷ buf) =
    from_bits_2 8 (little_endian_32 x0 x1 x2 x3) ++ binomial_2 buf
binomial_2 buf = []

word_lem :
    (t : ℕ)
    → cbd2_word 8 0 (u32 (bit_and t 0x55555555 + bit_and (t / 2 ^ 1) 0x55555555)) ≡ from_bits_2 8 t
unfolding mask_2 pair_sums
word_lem t =
    let fits : u32 (pair_sums 16 t) ≡ pair_sums 16 t =
      omega (arith, mask_bound 16 t, mask_bound 16 (t / 2)) in
    ap (cbd2_word 8 0) fits
    ∙ cbd2_word-differences 8 0 (pair_sums 16 t)
    ∙ ap (differences_2 8) (omega arith)
    ∙ differences-from_bits 8 t

-- On every byte array, `cbd2` makes eight coefficients of each four bytes: coefficient j is the sum
-- of bits 4 j and 4 j + 1 less the sum of bits 4 j + 2 and 4 j + 3.
pub cbd2-binomial : (buf : List ℕ) → All IsByte buf → cbd2 buf ≡ binomial_2 buf
unfolding cbd2
cbd2-binomial (x0 ∷ x1 ∷ x2 ∷ x3 ∷ buf) (h0, (h1, (h2, (h3, h)))) =
    rw (load32_lem x0 x1 x2 x3 h0 h1 h2, cbd2-binomial buf h)
      (ap (λ p. p ++ binomial_2 buf) (word_lem (little_endian_32 x0 x1 x2 x3)))
cbd2-binomial [] h = refl
cbd2-binomial (_ ∷ []) h = refl
cbd2-binomial (_ ∷ _ ∷ []) h = refl
cbd2-binomial (_ ∷ _ ∷ _ ∷ []) h = refl

from_bits-Within : (left t : ℕ) → All (Within 2) (from_bits_2 left t)
from_bits-Within zero t = tt
from_bits-Within (suc left) t =
    let a : ℕ = t % 2 + t / 2 % 2 in
    let b : ℕ = t / 4 % 2 + t / 8 % 2 in
    (
      omega (arith, -ℤ_parts (pos a) (pos b), one_part_zero (pos a -ℤ pos b)),
      from_bits-Within left (t / 16),
    )

binomial-Within : (buf : List ℕ) → All (Within 2) (binomial_2 buf)
binomial-Within (x0 ∷ x1 ∷ x2 ∷ x3 ∷ buf) =
    All-append (Within 2) (from_bits_2 8 (little_endian_32 x0 x1 x2 x3)) (binomial_2 buf)
      (from_bits-Within 8 _) (binomial-Within buf)
binomial-Within [] = tt
binomial-Within (_ ∷ []) = tt
binomial-Within (_ ∷ _ ∷ []) = tt
binomial-Within (_ ∷ _ ∷ _ ∷ []) = tt

-- Every coefficient from a byte array lies between -2 and 2.
cbd2-Within : (buf : List ℕ) → All IsByte buf → All (Within 2) (cbd2 buf)
cbd2-Within buf h = rw (cbd2-binomial buf h) (binomial-Within buf)
