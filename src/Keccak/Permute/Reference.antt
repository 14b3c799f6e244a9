-- ===== src/Keccak/Permute/Reference.antt =====
-- Keccak-f[1600] as FIPS 202 describes it: the five step mappings on lanes A[x, y], which stand at 5 y + x
-- in the state, and the round constants from their shift register.
use karudeb.Base.{ℕ, zero, suc, ◌+◌, ◌-◌, ◌*◌, ◌/◌, ◌%◌, ◌^◌, ◌==◌, if◌then◌else◌}
use karudeb.Base.{List, [], ◌∷◌, map, get_or, bit_and, bit_xor, ltb}

-- Bit z of x.
unfoldable pub bit : ℕ → ℕ → ℕ
bit z x = x / 2 ^ z % 2

-- The word whose bits are f 0, f 1 and so on, n bits.
unfoldable pub word : ℕ → (ℕ → ℕ) → ℕ
word zero f = 0
word (suc n) f = f 0 + 2 * word n (λ z. f (suc z))

-- Bit z of the lane turned by n is bit z - n modulo 64 of the lane.
unfoldable pub rotated : ℕ → ℕ → ℕ
rotated x n = word 64 (λ z. bit ((z + 64 - n) % 64) x)

unfoldable pub complement : ℕ → ℕ
complement x = word 64 (λ z. 1 - bit z x)

-- start, start + 1 and so on, n numbers.
unfoldable pub upto : ℕ → ℕ → List ℕ
upto zero start = []
upto (suc n) start = start ∷ upto n (start + 1)

abbrev pub lane : List ℕ → ℕ → ℕ → ℕ
lane a x y = get_or a (5 * (y % 5) + x % 5) 0

-- A new state from the lane at every x and y.
abbrev pub build : (ℕ → ℕ → ℕ) → List ℕ
build f = map (λ i. f (i % 5) (i / 5)) (upto 25 0)

-- The steps that turn or complement lanes take the operation, for which the reference puts in the two
-- above.
unfoldable pub theta : (ℕ → ℕ → ℕ) → List ℕ → List ℕ
unfolding upto
theta rotate a =
    let column =
      map
        (λ x.
          bit_xor (bit_xor (bit_xor (bit_xor (lane a x 0) (lane a x 1)) (lane a x 2)) (lane a x 3))
            (lane a x 4))
        (upto 5 0) in
    build (λ x y.
      bit_xor (lane a x y)
        (bit_xor (get_or column ((x + 4) % 5) 0) (rotate (get_or column ((x + 1) % 5) 0) 1)))

-- The offset at x and y: the t-th lane on the walk (x, y) ↦ (y, 2 x + 3 y) from (1, 0) is turned by
-- (t + 1) (t + 2) / 2.
unfoldable pub walk : ℕ → ℕ → ℕ → ℕ → ℕ → ℕ → ℕ
walk zero t x y to_x to_y = 0
walk (suc left) t x y to_x to_y =
    let rest = walk left (t + 1) y ((2 * x + 3 * y) % 5) to_x to_y in
    if (5 * y + x) == (5 * to_y + to_x) then (t + 1) * (t + 2) / 2 % 64 else rest

unfoldable pub offset : ℕ → ℕ → ℕ
unfolding walk
offset x y = walk 24 0 1 0 x y

unfoldable pub rho : (ℕ → ℕ → ℕ) → List ℕ → List ℕ
unfolding upto offset
rho rotate a = build (λ x y. rotate (lane a x y) (offset x y))

unfoldable pub pi : List ℕ → List ℕ
unfolding upto
pi a = build (λ x y. lane a (x + 3 * y) x)

unfoldable pub chi_step : (ℕ → ℕ) → List ℕ → List ℕ
unfolding upto
chi_step invert a =
    build (λ x y. bit_xor (lane a x y) (bit_and (invert (lane a (x + 1) y)) (lane a (x + 2) y)))

unfoldable pub iota : ℕ → List ℕ → List ℕ
iota rc [] = []
iota rc (a ∷ as') = bit_xor a rc ∷ as'

-- The bits of the shift register of x^8 + x^6 + x^5 + x^4 + 1, after t steps.
unfoldable pub shift_register : ℕ → ℕ
shift_register zero = 1
shift_register (suc t) = let r = shift_register t * 2 in if ltb r 256 then r else bit_xor r 0x171

-- Bit 2^j - 1 of the constant of round i is the lowest bit after 7 i + j steps.
unfoldable pub constant_bits : ℕ → ℕ → ℕ → ℕ
unfolding shift_register
constant_bits zero j i = 0
constant_bits (suc left) j i =
    shift_register (7 * i + j) % 2 * 2 ^ (2 ^ j - 1) + constant_bits left (j + 1) i

unfoldable pub steps : (ℕ → ℕ → ℕ) → (ℕ → ℕ) → ℕ → List ℕ → List ℕ
unfolding theta rho pi chi_step iota
steps rotate invert rc a = iota rc (chi_step invert (pi (rho rotate (theta rotate a))))

unfoldable pub reference_round : ℕ → List ℕ → List ℕ
unfolding constant_bits
reference_round i a = steps rotated complement (constant_bits 7 0 i) a

unfoldable pub reference_rounds : ℕ → ℕ → List ℕ → List ℕ
reference_rounds zero i a = a
reference_rounds (suc left) i a = reference_rounds left (i + 1) (reference_round i a)

unfoldable pub keccak_f : List ℕ → List ℕ
keccak_f a = reference_rounds 24 0 a
