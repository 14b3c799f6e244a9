-- ===== src/MlDsa/Packing/Joined.antt =====
-- A byte that the packings write in two assignments: a low field, and then a field above it with `|=`.
use karudeb.Base.{ℕ, zero, suc, ◌+◌, ◌-◌, ◌*◌, ◌%◌, ◌^◌, ◌≤◌, ◌<◌, ◌≡◌, arith}
use karudeb.Base.{u8, u32, bit_or, bit_or_above}

-- The lowest byte of two fields, at each place of the upper one.
lowest_byte :
    (k x t : ℕ) → 1 ≤ k → k ≤ 7 → x < 2 ^ k → (x + t * 2 ^ k) % 256 ≡ x + t % 2 ^ (8 - k) * 2 ^ k
lowest_byte (suc zero) x t a b h = omega arith
lowest_byte (suc (suc zero)) x t a b h = omega arith
lowest_byte (suc (suc (suc zero))) x t a b h = omega arith
lowest_byte (suc (suc (suc (suc zero)))) x t a b h = omega arith
lowest_byte (suc (suc (suc (suc (suc zero))))) x t a b h = omega arith
lowest_byte (suc (suc (suc (suc (suc (suc zero)))))) x t a b h = omega arith
lowest_byte (suc (suc (suc (suc (suc (suc (suc zero))))))) x t a b h = omega arith
lowest_byte zero x t a b h = absurd (omega arith)
lowest_byte (suc (suc (suc (suc (suc (suc (suc (suc k)))))))) x t a b h = absurd (omega arith)

pub joined :
    (k x t : ℕ)
    → 1 ≤ k
    → k ≤ 7
    → x < 2 ^ k
    → x < 256
    → t * 2 ^ k < 2 ^ 32
    → u8 (bit_or (u8 x) (u32 (t * 2 ^ k))) ≡ x + t % 2 ^ (8 - k) * 2 ^ k
joined k x t a b h g l =
    let low : x % 2 ^ 8 ≡ x = omega arith in
    let high : t * 2 ^ k % 2 ^ 32 ≡ t * 2 ^ k = omega arith in
    rw (low, high, bit_or_above k x t h) (lowest_byte k x t a b h)
