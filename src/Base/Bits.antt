-- ===== src/Base/Bits.antt =====
-- `|` of disjoint fields and `&` with a low mask, as arithmetic at every width.
use Prim.Native.Nat.{ℕ, zero, suc, ◌+◌, ◌*◌, ◌/◌, ◌%◌, ◌^◌, ◌≤◌, ◌<◌, min, max}
use Prim.Native.Nat.{digits, bit_and, bit_or, bit_and-bitwise, bit_or-bitwise}
use mathlib.Core.Path.{◌≡◌, refl, ap}
use native.Mathlib.Nat.{pow-suc, one-le-pow, le_refl}
use native.Mathlib.Omega.{arith}

-- The native operations recur on the digits of the first number, with that number as fuel. Two
-- fuels that both suffice give the same.
pub fuel_enough :
    (z : ℕ → ℕ) (op : ℕ → ℕ → ℕ) (n m a b : ℕ)
    → a ≤ n
    → a ≤ m
    → digits z op n a b ≡ digits z op m a b
fuel_enough z op zero zero a b h k = refl
fuel_enough z op (suc n) (suc m) (suc a) b h k =
    omega (arith, fuel_enough z op n m (suc a / 2) (b / 2) (omega arith) (omega arith))
fuel_enough z op (suc n) (suc m) zero b h k = refl
fuel_enough z op zero (suc m) zero b h k = refl
fuel_enough z op (suc n) zero zero b h k = refl
fuel_enough z op zero (suc m) (suc a) b h k = absurd (omega arith)
fuel_enough z op (suc n) zero (suc a) b h k = absurd (omega arith)

pub bit_or_lowest : (a b : ℕ) → bit_or a b ≡ bit_or (a / 2) (b / 2) * 2 + max (a % 2) (b % 2)
bit_or_lowest zero b = omega (arith, bit_or-bitwise zero b, bit_or-bitwise 0 (b / 2))
bit_or_lowest (suc a) b = omega (
  arith,
  bit_or-bitwise (suc a) b,
  bit_or-bitwise (suc a / 2) (b / 2),
  fuel_enough (λ y. y) max a (suc a / 2) (suc a / 2) (b / 2) (omega arith) (omega arith),
)

pub bit_and_lowest : (a b : ℕ) → bit_and a b ≡ bit_and (a / 2) (b / 2) * 2 + min (a % 2) (b % 2)
bit_and_lowest zero b = omega (arith, bit_and-bitwise zero b, bit_and-bitwise 0 (b / 2))
bit_and_lowest (suc a) b = omega (
  arith,
  bit_and-bitwise (suc a) b,
  bit_and-bitwise (suc a / 2) (b / 2),
  fuel_enough (λ y. 0) min a (suc a / 2) (suc a / 2) (b / 2) (omega arith) (omega arith),
)

pub double_field : (q k : ℕ) → q * 2 ^ suc k ≡ 2 * (q * 2 ^ k)
double_field q k = omega (arith, ap (λ (t : ℕ). q * t) (pow-suc 2 k))

-- A field of `k` bits below another one.
pub bit_or_above : (k low high : ℕ) → low < 2 ^ k → bit_or low (high * 2 ^ k) ≡ low + high * 2 ^ k
bit_or_above zero zero high h = omega (arith, bit_or-bitwise zero (high * 1))
bit_or_above zero (suc low) high h = absurd (omega arith)
bit_or_above (suc k) low high h = ground (
  arith,
  bit_or_lowest low (high * 2 ^ suc k),
  double_field high k,
  pow-suc 2 k,
  bit_or_above k (low / 2) high (omega (arith, pow-suc 2 k)),
)

bit_and_zero : (fuel a : ℕ) → a ≤ fuel → bit_and a 0 ≡ 0
bit_and_zero fuel zero h = bit_and-bitwise 0 0
bit_and_zero zero (suc a) h = absurd (omega arith)
bit_and_zero (suc fuel) (suc a) h =
    omega (arith, bit_and_lowest (suc a) 0, bit_and_zero fuel (suc a / 2) (omega arith))

bit_and_field : (k q r m : ℕ) → r < 2 ^ k → m + 1 ≡ 2 ^ k → bit_and (q * 2 ^ k + r) m ≡ r
bit_and_field zero q r zero h e = omega (arith, bit_and_zero _ (q * 2 ^ 0 + r) (le_refl _))
bit_and_field zero q r (suc m) h e = absurd (omega arith)
bit_and_field (suc k) q r m h e = ground (
  arith,
  bit_and_lowest (q * 2 ^ suc k + r) m,
  double_field q k,
  pow-suc 2 k,
  bit_and_field k q (r / 2) (m / 2) (omega (arith, pow-suc 2 k)) (omega (arith, pow-suc 2 k)),
)

-- A mask of `k` ones keeps the lowest `k` bits.
pub bit_and_ones : (k a m : ℕ) → m + 1 ≡ 2 ^ k → bit_and a m ≡ a % 2 ^ k
bit_and_ones k a m e = ground (arith, one-le-pow k 2, bit_and_field k (a / 2 ^ k) (a % 2 ^ k) m)

-- The same with the mask in front.
ones_field : (k q r m : ℕ) → r < 2 ^ k → m + 1 ≡ 2 ^ k → bit_and m (q * 2 ^ k + r) ≡ r
ones_field zero q r zero h e = omega (arith, bit_and-bitwise 0 (q * 2 ^ 0 + r))
ones_field zero q r (suc m) h e = absurd (omega arith)
ones_field (suc k) q r m h e = ground (
  arith,
  bit_and_lowest m (q * 2 ^ suc k + r),
  double_field q k,
  pow-suc 2 k,
  ones_field k q (r / 2) (m / 2) (omega (arith, pow-suc 2 k)) (omega (arith, pow-suc 2 k)),
)

pub ones-bit_and : (k m a : ℕ) → m + 1 ≡ 2 ^ k → bit_and m a ≡ a % 2 ^ k
ones-bit_and k m a e = ground (arith, one-le-pow k 2, ones_field k (a / 2 ^ k) (a % 2 ^ k) m)
