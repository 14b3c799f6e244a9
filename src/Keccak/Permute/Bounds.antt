-- ===== src/Keccak/Permute/Bounds.antt =====
-- The step mappings of FIPS 202 on words of 64 bits, and with the operations of the code.
use karudeb.Base.{ℕ, zero, suc, ◌+◌, ◌*◌, ◌/◌, ◌%◌, ◌^◌, ◌<◌, ◌≡◌, refl, sym, ap, ap₂, ◌∙◌, arith}
use karudeb.Base.{
  List, [], ◌∷◌, map, get_or, All, All-get_or, bit_xor, bit_and, bit_xor_lt, bit_and_lt, ltb, true,
  holds_below, read_table,
}
use karudeb.Keccak.Permute.{rol, not_64}
use karudeb.Keccak.Permute.Bitwise.{
  rol-rotated, rotated-zero, rotated-lt, not_64-complement, complement-lt,
}
use karudeb.Keccak.Permute.Reference.{
  theta, rho, pi, chi_step, iota, constant_bits, steps, reference_round, offset, walk, upto, lane,
  rotated, complement,
}

-- Words of uint64_t.
abbrev pub AreWords : List ℕ → Type 0
AreWords = All (λ x. x < 2 ^ 64)

-- A lane turned as the code turns it: not at all where the offset is 0.
abbrev pub turn : ℕ → ℕ → ℕ
turn x zero = x
turn x (suc n) = rol x (suc n)

turn-rotated : (x n : ℕ) → x < 2 ^ 64 → n < 64 → turn x n ≡ rotated x n
turn-rotated x zero h k = sym (rotated-zero x h)
turn-rotated x (suc n) h k = rol-rotated x (suc n) h k

map_ext : (f g : ℕ → ℕ) (xs : List ℕ) → ((x : ℕ) → f x ≡ g x) → map f xs ≡ map g xs
map_ext f g [] same = refl
map_ext f g (x ∷ xs) same = ap₂ ◌∷◌ (same x) (map_ext f g xs same)

map-AreWords : (f : ℕ → ℕ) (xs : List ℕ) → ((x : ℕ) → f x < 2 ^ 64) → AreWords (map f xs)
map-AreWords f [] small = tt
map-AreWords f (x ∷ xs) small = (small x, map-AreWords f xs small)

lane-lt : (a : List ℕ) (x y : ℕ) → AreWords a → lane a x y < 2 ^ 64
lane-lt a x y h = All-get_or (λ w. w < 2 ^ 64) a (5 * (y % 5) + x % 5) 0 (omega arith) h

walk-lt : (left t x y to_x to_y : ℕ) → walk left t x y to_x to_y < 64
unfolding walk
walk-lt zero t x y to_x to_y = omega arith
walk-lt (suc left) t x y to_x to_y =
    ground (arith, walk-lt left (t + 1) y ((2 * x + 3 * y) % 5) to_x to_y)

offset-lt : (x y : ℕ) → offset x y < 64
unfolding offset
offset-lt x y = walk-lt 24 0 1 0 x y

columns : List ℕ → List ℕ
columns a =
    map
      (λ x.
        bit_xor (bit_xor (bit_xor (bit_xor (lane a x 0) (lane a x 1)) (lane a x 2)) (lane a x 3))
          (lane a x 4))
      (upto 5 0)

column-lt : (a : List ℕ) (i : ℕ) → AreWords a → get_or (columns a) i 0 < 2 ^ 64
unfolding columns
column-lt a i h =
    All-get_or (λ w. w < 2 ^ 64) _ i 0 (omega arith)
      (map-AreWords _ (upto 5 0) (λ x.
        bit_xor_lt 64 _ _
          (bit_xor_lt 64 _ _
            (bit_xor_lt 64 _ _ (bit_xor_lt 64 _ _ (lane-lt a x 0 h) (lane-lt a x 1 h))
              (lane-lt a x 2 h))
            (lane-lt a x 3 h))
          (lane-lt a x 4 h)))

theta_same : (a : List ℕ) → AreWords a → theta turn a ≡ theta rotated a
unfolding theta columns
theta_same a h = map_ext _ _ (upto 25 0) (λ i.
    ap (λ t. bit_xor (lane a (i % 5) (i / 5)) (bit_xor (get_or (columns a) ((i % 5 + 4) % 5) 0) t))
      (turn-rotated _ 1 (column-lt a ((i % 5 + 1) % 5) h) (omega arith)))

theta-AreWords : (a : List ℕ) → AreWords a → AreWords (theta rotated a)
unfolding theta columns
theta-AreWords a h = map-AreWords _ (upto 25 0) (λ i.
    bit_xor_lt 64 _ _ (lane-lt a (i % 5) (i / 5) h) (
      bit_xor_lt 64 _ _ (column-lt a ((i % 5 + 4) % 5) h)
        (rotated-lt (get_or (columns a) ((i % 5 + 1) % 5) 0) 1)))

rho_same : (a : List ℕ) → AreWords a → rho turn a ≡ rho rotated a
unfolding rho
rho_same a h =
    map_ext _ _ (upto 25 0)
      (λ i. turn-rotated _ _ (lane-lt a (i % 5) (i / 5) h) (offset-lt (i % 5) (i / 5)))

rho-AreWords : (a : List ℕ) → AreWords (rho rotated a)
unfolding rho
rho-AreWords a =
    map-AreWords _ (upto 25 0) (λ i. rotated-lt (lane a (i % 5) (i / 5)) (offset (i % 5) (i / 5)))

pi-AreWords : (a : List ℕ) → AreWords a → AreWords (pi a)
unfolding pi
pi-AreWords a h = map-AreWords _ (upto 25 0) (λ i. lane-lt a (i % 5 + 3 * (i / 5)) (i % 5) h)

chi_same : (a : List ℕ) → AreWords a → chi_step not_64 a ≡ chi_step complement a
unfolding chi_step
chi_same a h = map_ext _ _ (upto 25 0) (λ i.
    ap (λ t. bit_xor (lane a (i % 5) (i / 5)) (bit_and t (lane a (i % 5 + 2) (i / 5))))
      (not_64-complement _ (lane-lt a (i % 5 + 1) (i / 5) h)))

chi-AreWords : (a : List ℕ) → AreWords a → AreWords (chi_step complement a)
unfolding chi_step
chi-AreWords a h = map-AreWords _ (upto 25 0) (λ i.
    bit_xor_lt 64 _ _ (lane-lt a (i % 5) (i / 5) h) (
      bit_and_lt 64 _ _ (complement-lt (lane a (i % 5 + 1) (i / 5)))
        (lane-lt a (i % 5 + 2) (i / 5) h)))

iota-AreWords : (rc : ℕ) (a : List ℕ) → rc < 2 ^ 64 → AreWords a → AreWords (iota rc a)
unfolding iota
iota-AreWords rc [] h k = tt
iota-AreWords rc (x ∷ a) h k = (bit_xor_lt 64 x rc k.0 h, k.1)

-- On words the code's operations and those of the reference give the same round.
pub steps_same :
    (rc : ℕ) (a : List ℕ) → AreWords a → steps turn not_64 rc a ≡ steps rotated complement rc a
unfolding steps
steps_same rc a h =
    let turned = theta-AreWords a h in
    ap (λ t. iota rc (chi_step not_64 (pi (rho turn t)))) (theta_same a h)
    ∙ ap (λ t. iota rc (chi_step not_64 (pi t))) (rho_same (theta rotated a) turned)
    ∙ ap (iota rc) (
        chi_same (pi (rho rotated (theta rotated a)))
          (pi-AreWords (rho rotated (theta rotated a)) (rho-AreWords (theta rotated a))))

constants-lt : (i : ℕ) → i < 24 → constant_bits 7 0 i < 2 ^ 64
unfolding holds_below constant_bits
constants-lt i h =
    let test : ltb (constant_bits 7 0 i) (2 ^ 64) ≡ true =
      read_table (λ j. ltb (constant_bits 7 0 j) (2 ^ 64)) 24 i refl h in
    ground (arith, test)

pub reference_round-AreWords : (i : ℕ) (a : List ℕ) → i < 24 → AreWords (reference_round i a)
unfolding reference_round steps
reference_round-AreWords i a h =
    let turned = rho rotated (theta rotated a) in
    iota-AreWords (constant_bits 7 0 i) (chi_step complement (pi turned)) (constants-lt i h)
      (chi-AreWords (pi turned) (pi-AreWords turned (rho-AreWords (theta rotated a))))
