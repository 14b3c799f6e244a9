-- ===== src/Base/Xor.antt =====
-- `^`, the bounds of `&`, `|` and `^`, and when `|` and `^` are zero.
use Prim.Native.Nat.{ℕ, zero, suc, ◌+◌, ◌*◌, ◌/◌, ◌%◌, ◌^◌, ◌≤◌, ◌<◌, differ}
use Prim.Native.Nat.{bit_and, bit_or, bit_xor, bit_and-bitwise, bit_xor-bitwise}
use mathlib.Core.Path.{◌≡◌, refl}
use native.Mathlib.Nat.{pow-suc}
use native.Mathlib.Omega.{arith}
use karudeb.Base.Bits.{fuel_enough, bit_or_lowest, bit_and_lowest, double_field}

differ_bits : (x y : ℕ) → x < 2 → y < 2 → differ x y ≡ (x + y) % 2
differ_bits zero y h g = omega arith
differ_bits (suc zero) zero h g = refl
differ_bits (suc zero) (suc zero) h g = refl
differ_bits (suc zero) (suc (suc y)) h g = absurd (omega arith)
differ_bits (suc (suc x)) y h g = absurd (omega arith)

pub bit_xor_lowest : (a b : ℕ) → bit_xor a b ≡ bit_xor (a / 2) (b / 2) * 2 + (a % 2 + b % 2) % 2
bit_xor_lowest zero b = omega (arith, bit_xor-bitwise zero b, bit_xor-bitwise 0 (b / 2))
bit_xor_lowest (suc a) b = omega (
  arith,
  bit_xor-bitwise (suc a) b,
  bit_xor-bitwise (suc a / 2) (b / 2),
  differ_bits (suc a % 2) (b % 2) (omega arith) (omega arith),
  fuel_enough (λ y. y) differ a (suc a / 2) (suc a / 2) (b / 2) (omega arith) (omega arith),
)

-- Each law below goes by the digits, with a width `k` that holds the numbers.
pub bit_xor_lt : (k a b : ℕ) → a < 2 ^ k → b < 2 ^ k → bit_xor a b < 2 ^ k
bit_xor_lt zero zero zero h g = omega (arith, bit_xor-bitwise 0 0)
bit_xor_lt zero zero (suc b) h g = absurd (omega arith)
bit_xor_lt zero (suc a) b h g = absurd (omega arith)
bit_xor_lt (suc k) a b h g = omega (
  arith,
  bit_xor_lowest a b,
  pow-suc 2 k,
  bit_xor_lt k (a / 2) (b / 2) (omega (arith, pow-suc 2 k)) (omega (arith, pow-suc 2 k)),
)

pub bit_or_lt : (k a b : ℕ) → a < 2 ^ k → b < 2 ^ k → bit_or a b < 2 ^ k
bit_or_lt zero zero zero h g = omega arith
bit_or_lt zero zero (suc b) h g = absurd (omega arith)
bit_or_lt zero (suc a) b h g = absurd (omega arith)
bit_or_lt (suc k) a b h g = omega (
  arith,
  bit_or_lowest a b,
  pow-suc 2 k,
  bit_or_lt k (a / 2) (b / 2) (omega (arith, pow-suc 2 k)) (omega (arith, pow-suc 2 k)),
)

pub bit_and_lt : (k a b : ℕ) → a < 2 ^ k → b < 2 ^ k → bit_and a b < 2 ^ k
bit_and_lt zero zero zero h g = omega (arith, bit_and-bitwise 0 0)
bit_and_lt zero zero (suc b) h g = absurd (omega arith)
bit_and_lt zero (suc a) b h g = absurd (omega arith)
bit_and_lt (suc k) a b h g = omega (
  arith,
  bit_and_lowest a b,
  pow-suc 2 k,
  bit_and_lt k (a / 2) (b / 2) (omega (arith, pow-suc 2 k)) (omega (arith, pow-suc 2 k)),
)

-- `a ^ b` is zero exactly when a and b are the same.
pub bit_xor_zero : (k a b : ℕ) → a < 2 ^ k → b < 2 ^ k → bit_xor a b ≡ 0 → a ≡ b
bit_xor_zero zero a b h g e = omega arith
bit_xor_zero (suc k) a b h g e = omega (
  arith,
  bit_xor_lowest a b,
  pow-suc 2 k,
  bit_xor_zero k (a / 2) (b / 2) (omega (arith, pow-suc 2 k)) (omega (arith, pow-suc 2 k))
      (omega (arith, bit_xor_lowest a b)),
)

pub bit_xor_self : (k a : ℕ) → a < 2 ^ k → bit_xor a a ≡ 0
bit_xor_self zero zero h = omega (arith, bit_xor-bitwise 0 0)
bit_xor_self zero (suc a) h = absurd (omega arith)
bit_xor_self (suc k) a h =
    omega
      (arith, bit_xor_lowest a a, pow-suc 2 k, bit_xor_self k (a / 2) (omega (arith, pow-suc 2 k)))

pub bit_xor-zero_right : (k a : ℕ) → a < 2 ^ k → bit_xor a 0 ≡ a
bit_xor-zero_right zero zero h = omega (arith, bit_xor-bitwise 0 0)
bit_xor-zero_right zero (suc a) h = absurd (omega arith)
bit_xor-zero_right (suc k) a h = omega (
  arith,
  bit_xor_lowest a 0,
  pow-suc 2 k,
  bit_xor-zero_right k (a / 2) (omega (arith, pow-suc 2 k)),
)

-- `a ^ (a ^ b)` is b.
pub bit_xor_cancel : (k a b : ℕ) → a < 2 ^ k → b < 2 ^ k → bit_xor a (bit_xor a b) ≡ b
bit_xor_cancel zero zero zero h g =
    omega (arith, bit_xor-bitwise 0 0, bit_xor-bitwise 0 (bit_xor 0 0))
bit_xor_cancel zero zero (suc b) h g = absurd (omega arith)
bit_xor_cancel zero (suc a) b h g = absurd (omega arith)
bit_xor_cancel (suc k) a b h g = ground (
  arith,
  bit_xor_lowest a (bit_xor a b),
  bit_xor_lowest a b,
  pow-suc 2 k,
  bit_xor_cancel k (a / 2) (b / 2) (omega (arith, pow-suc 2 k)) (omega (arith, pow-suc 2 k)),
)

-- `a | b` is zero exactly when both are.
pub bit_or_zero : (k a b : ℕ) → a < 2 ^ k → b < 2 ^ k → bit_or a b ≡ 0 → (a ≡ 0) × (b ≡ 0)
bit_or_zero zero a b h g e = omega arith
bit_or_zero (suc k) a b h g e = omega (
  arith,
  bit_or_lowest a b,
  pow-suc 2 k,
  bit_or_zero k (a / 2) (b / 2) (omega (arith, pow-suc 2 k)) (omega (arith, pow-suc 2 k))
      (omega (arith, bit_or_lowest a b)),
)

-- Fields of `k` bits are combined on their own.
pub bit_xor_fields :
    (k q q' r r' : ℕ)
    → r < 2 ^ k
    → r' < 2 ^ k
    → bit_xor (q * 2 ^ k + r) (q' * 2 ^ k + r') ≡ bit_xor q q' * 2 ^ k + bit_xor r r'
bit_xor_fields zero q q' zero zero h g = ground arith
bit_xor_fields zero q q' zero (suc b) h g = absurd (omega arith)
bit_xor_fields zero q q' (suc a) b h g = absurd (omega arith)
bit_xor_fields (suc k) q q' r r' h g = ground (
  arith,
  bit_xor_lowest (q * 2 ^ suc k + r) (q' * 2 ^ suc k + r'),
  bit_xor_lowest r r',
  double_field q k,
  double_field q' k,
  double_field (bit_xor q q') k,
  pow-suc 2 k,
  bit_xor_fields k q q' (r / 2) (r' / 2) (omega (arith, pow-suc 2 k)) (omega (arith, pow-suc 2 k)),
)

-- A field of `k` bits below another one.
pub bit_xor_above : (k low high : ℕ) → low < 2 ^ k → bit_xor low (high * 2 ^ k) ≡ low + high * 2 ^ k
bit_xor_above zero zero high h = omega (arith, bit_xor-bitwise zero (high * 1))
bit_xor_above zero (suc low) high h = absurd (omega arith)
bit_xor_above (suc k) low high h = ground (
  arith,
  bit_xor_lowest low (high * 2 ^ suc k),
  double_field high k,
  pow-suc 2 k,
  bit_xor_above k (low / 2) high (omega (arith, pow-suc 2 k)),
)

xor_assoc : (fuel a b c : ℕ) → a + b + c ≤ fuel → bit_xor (bit_xor a b) c ≡ bit_xor a (bit_xor b c)
xor_assoc zero a b c h =
    let a_zero : a ≡ 0 = omega arith in
    let b_zero : b ≡ 0 = omega arith in
    let c_zero : c ≡ 0 = omega arith in
    let none_set : bit_xor 0 0 ≡ 0 = omega (arith, bit_xor-bitwise 0 0) in
    rw (a_zero, b_zero, c_zero, none_set) refl
xor_assoc (suc fuel) a b c h = ground (
  arith,
  bit_xor_lowest (bit_xor a b) c,
  bit_xor_lowest a (bit_xor b c),
  bit_xor_lowest a b,
  bit_xor_lowest b c,
  xor_assoc fuel (a / 2) (b / 2) (c / 2) (omega arith),
)

pub bit_xor_assoc : (a b c : ℕ) → bit_xor (bit_xor a b) c ≡ bit_xor a (bit_xor b c)
bit_xor_assoc a b c = xor_assoc (a + b + c) a b c (omega arith)

xor_none : (fuel a : ℕ) → a ≤ fuel → bit_xor a 0 ≡ a
xor_none zero a h =
    let a_zero : a ≡ 0 = omega arith in
    let none_set : bit_xor 0 0 ≡ 0 = omega (arith, bit_xor-bitwise 0 0) in rw a_zero none_set
xor_none (suc fuel) a h = omega (arith, bit_xor_lowest a 0, xor_none fuel (a / 2) (omega arith))

pub bit_xor_none : (a : ℕ) → bit_xor a 0 ≡ a
bit_xor_none a = xor_none a a (omega arith)

xor_same : (fuel a : ℕ) → a ≤ fuel → bit_xor a a ≡ 0
xor_same zero a h =
    let a_zero : a ≡ 0 = omega arith in
    let none_set : bit_xor 0 0 ≡ 0 = omega (arith, bit_xor-bitwise 0 0) in rw a_zero none_set
xor_same (suc fuel) a h = omega (arith, bit_xor_lowest a a, xor_same fuel (a / 2) (omega arith))

pub bit_xor_same : (a : ℕ) → bit_xor a a ≡ 0
bit_xor_same a = xor_same a a (omega arith)
