-- ===== src/MlKem/Cbd/Three.antt =====
-- `cbd3`: each coefficient is a difference of two sums of three bits.
use karudeb.Base.{ℕ, zero, suc, ◌+◌, ◌*◌, ◌/◌, ◌%◌, ◌^◌, ◌≤◌, ◌≡◌, ap, ap₂, ◌∙◌, sym, refl, arith}
use karudeb.Base.{ℤ, pos, ◌-ℤ◌, Within, u32, one_part_zero, -ℤ_parts}
use karudeb.Base.{
  List, [], ◌∷◌, ◌++◌, All, All-append, bit_and, bit_or_above, bit_and_ones, bit_and_lowest,
}
use native.Mathlib.Nat.{div-div-eq-div-mul, add-zero}
use native.Mathlib.Numerals.{towards_suc}
use karudeb.MlKem.Verify.Compare.{IsByte}
use karudeb.MlKem.Cbd.{load24_littleendian, cbd3_word, cbd3}
use karudeb.MlKem.Cbd.Two.{small_difference}

-- The next coefficients are read from the bits of a number, six bits each.
abbrev pub from_bits_3 : ℕ → ℕ → List ℤ
from_bits_3 zero t = []
from_bits_3 (suc left) t =
    (pos (t % 2 + t / 2 % 2 + t / 4 % 2) -ℤ pos (t / 8 % 2 + t / 16 % 2 + t / 32 % 2))
    ∷ from_bits_3 left (t / 64)

-- The mask of `k` bits, three places apart.
mask_3 : ℕ → ℕ
mask_3 zero = 0
mask_3 (suc k) = 8 * mask_3 k + 1

bit_and-mask : (t m : ℕ) → bit_and t (8 * m + 1) ≡ bit_and (t / 8) m * 8 + t % 2
bit_and-mask t m = ground (
  arith,
  bit_and_lowest t (8 * m + 1),
  bit_and_lowest (t / 2) ((8 * m + 1) / 2),
  bit_and_lowest (t / 2 / 2) ((8 * m + 1) / 2 / 2),
)

-- Sums of three neighbouring bits in fields of three bits.
triple_sums : ℕ → ℕ → ℕ
triple_sums k t = bit_and t (mask_3 k) + bit_and (t / 2) (mask_3 k) + bit_and (t / 4) (mask_3 k)

triple_sums-suc :
    (k t : ℕ) → triple_sums (suc k) t ≡ triple_sums k (t / 8) * 8 + (t % 2 + t / 2 % 2 + t / 4 % 2)
unfolding triple_sums mask_3
triple_sums-suc k t = ground (
  arith,
  bit_and-mask t (mask_3 k),
  bit_and-mask (t / 2) (mask_3 k),
  bit_and-mask (t / 4) (mask_3 k),
)

-- The fields of three bits of the rest x of the sums, as the loop takes them.
differences_3 : ℕ → ℕ → List ℤ
differences_3 zero x = []
differences_3 (suc left) x = (pos (x % 8) -ℤ pos (x / 8 % 8)) ∷ differences_3 left (x / 64)

shift_by : (d s : ℕ) → (d / 2 ^ (s + 3) ≡ d / 2 ^ s / 8) × (d / 2 ^ (s + 6) ≡ d / 2 ^ s / 64)
shift_by d s = (
  sym (div-div-eq-div-mul d (2 ^ s) 8 ∙ ap (λ t. d / t) (simp towards_suc (omega arith))),
  sym (div-div-eq-div-mul d (2 ^ s) 64 ∙ ap (λ t. d / t) (simp towards_suc (omega arith))),
)

cbd3_word-differences : (left j d : ℕ) → cbd3_word left j d ≡ differences_3 left (d / 2 ^ (6 * j))
unfolding cbd3_word differences_3
cbd3_word-differences zero j d = refl
cbd3_word-differences (suc left) j d =
    let x : ℕ = d / 2 ^ (6 * j) in
    let next : 6 * (j + 1) ≡ 6 * j + 6 = omega arith in
    ap₂ ◌∷◌
      (rw
        (
          add-zero (6 * j),
          (shift_by d (6 * j)).0,
          bit_and_ones 3 x 7 refl,
          bit_and_ones 3 (x / 8) 7 refl,
        )
        (small_difference (x % 8) (x / 8 % 8) (omega arith) (omega arith)))
      (cbd3_word-differences left (j + 1) d
        ∙ ap (λ t. differences_3 left (d / 2 ^ t)) next
        ∙ ap (differences_3 left) (shift_by d (6 * j)).1)

differences-from_bits :
    (left t : ℕ) → differences_3 left (triple_sums (2 * left) t) ≡ from_bits_3 left t
unfolding differences_3
differences-from_bits zero t = refl
differences-from_bits (suc left) t =
    let two : 2 * suc left ≡ suc (suc (2 * left)) = omega arith in
    let rest : ℕ = triple_sums (2 * left) (t / 64) in
    let a : ℕ = t % 2 + t / 2 % 2 + t / 4 % 2 in
    let b : ℕ = t / 8 % 2 + t / 16 % 2 + t / 32 % 2 in
    let sums : triple_sums (2 * suc left) t ≡ rest * 64 + b * 8 + a =
      rw two
        (ground (arith, triple_sums-suc (suc (2 * left)) t, triple_sums-suc (2 * left) (t / 8))) in
    let low : triple_sums (2 * suc left) t % 8 ≡ a = omega arith in
    let high : triple_sums (2 * suc left) t / 8 % 8 ≡ b = omega arith in
    let next : triple_sums (2 * suc left) t / 64 ≡ rest = omega arith in
    rw (low, high, next) (ap (λ p. (pos a -ℤ pos b) ∷ p) (differences-from_bits left (t / 64)))

mask_bound : (k t : ℕ) → bit_and t (mask_3 k) ≤ mask_3 k
unfolding mask_3
mask_bound zero t = omega (arith, bit_and_ones 0 t 0 refl)
mask_bound (suc k) t = omega (arith, bit_and-mask t (mask_3 k), mask_bound k (t / 8))

-- Three bytes as one number, lowest byte first.
abbrev pub little_endian_24 : ℕ → ℕ → ℕ → ℕ
little_endian_24 x0 x1 x2 = x0 + x1 * 2 ^ 8 + x2 * 2 ^ 16

load24_lem :
    (x0 x1 x2 : ℕ)
    → IsByte x0
    → IsByte x1
    → load24_littleendian x0 x1 x2 ≡ little_endian_24 x0 x1 x2
unfolding load24_littleendian
load24_lem x0 x1 x2 h0 h1 =
    rw (bit_or_above 8 x0 x1 h0, bit_or_above 16 (x0 + x1 * 2 ^ 8) x2 (omega arith))

-- What `cbd3` is to compute: 24 bits at a time, four coefficients.
abbrev pub binomial_3 : List ℕ → List ℤ
binomial_3 (x0 ∷ x1 ∷ x2 ∷ buf) = from_bits_3 4 (little_endian_24 x0 x1 x2) ++ binomial_3 buf
binomial_3 buf = []

word_lem :
    (t : ℕ)
    → cbd3_word 4 0 (
        u32 (
          u32 (bit_and t 0x00249249 + bit_and (t / 2 ^ 1) 0x00249249)
          + bit_and (t / 2 ^ 2) 0x00249249))
      ≡ from_bits_3 4 t
unfolding mask_3 triple_sums
word_lem t =
    let m : ℕ = mask_3 8 in
    let fits : u32 (u32 (bit_and t m + bit_and (t / 2) m) + bit_and (t / 4) m) ≡ triple_sums 8 t =
      omega (arith, mask_bound 8 t, mask_bound 8 (t / 2), mask_bound 8 (t / 4)) in
    ap (cbd3_word 4 0) fits
    ∙ cbd3_word-differences 4 0 (triple_sums 8 t)
    ∙ ap (differences_3 4) (omega arith)
    ∙ differences-from_bits 4 t

-- On every byte array, `cbd3` makes four coefficients of each three bytes: coefficient j is the sum
-- of bits 6 j to 6 j + 2 less the sum of bits 6 j + 3 to 6 j + 5.
pub cbd3-binomial : (buf : List ℕ) → All IsByte buf → cbd3 buf ≡ binomial_3 buf
unfolding cbd3
cbd3-binomial (x0 ∷ x1 ∷ x2 ∷ buf) (h0, (h1, (h2, h))) =
    rw (load24_lem x0 x1 x2 h0 h1, cbd3-binomial buf h)
      (ap (λ p. p ++ binomial_3 buf) (word_lem (little_endian_24 x0 x1 x2)))
cbd3-binomial [] h = refl
cbd3-binomial (_ ∷ []) h = refl
cbd3-binomial (_ ∷ _ ∷ []) h = refl

from_bits-Within : (left t : ℕ) → All (Within 3) (from_bits_3 left t)
from_bits-Within zero t = tt
from_bits-Within (suc left) t =
    let a : ℕ = t % 2 + t / 2 % 2 + t / 4 % 2 in
    let b : ℕ = t / 8 % 2 + t / 16 % 2 + t / 32 % 2 in
    (
      omega (arith, -ℤ_parts (pos a) (pos b), one_part_zero (pos a -ℤ pos b)),
      from_bits-Within left (t / 64),
    )

binomial-Within : (buf : List ℕ) → All (Within 3) (binomial_3 buf)
binomial-Within (x0 ∷ x1 ∷ x2 ∷ buf) =
    All-append (Within 3) (from_bits_3 4 (little_endian_24 x0 x1 x2)) (binomial_3 buf)
      (from_bits-Within 4 _) (binomial-Within buf)
binomial-Within [] = tt
binomial-Within (_ ∷ []) = tt
binomial-Within (_ ∷ _ ∷ []) = tt

-- Every coefficient from a byte array lies between -3 and 3.
cbd3-Within : (buf : List ℕ) → All IsByte buf → All (Within 3) (cbd3 buf)
cbd3-Within buf h = rw (cbd3-binomial buf h) (binomial-Within buf)
