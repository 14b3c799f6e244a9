-- ===== src/MlDsa/Ntt/Roots.antt =====
-- The points at which mldsa_ntt.c takes the values of a polynomial, and the order of its factors.
use karudeb.Base.{ℕ, zero, suc, ◌+◌, ◌-◌, ◌≡◌, refl, ap}
use karudeb.Base.{
  ℤ, pos, ◌-ℤ◌, ◌*ℤ◌, Within, All, -ℤ_parts, one_part_zero, ◌^◌, arith, List, [], ◌∷◌, map, length,
  get_or,
}
use karudeb.Transform.Roots.{odd_powers}
use karudeb.MlDsa.Params.{q}
use karudeb.MlDsa.Ntt.Zetas.{zetas}

-- 1753 is the 512th root of unity of FIPS 204.
unfoldable pub root_numbers : List ℕ
unfolding odd_powers
root_numbers = odd_powers q 1753 8

unfoldable pub roots : List ℤ
roots = map pos root_numbers

-- 2^-32 modulo q: the zetas of the table are in Montgomery form.
abbrev pub rinv : ℕ
rinv = 8265825

abbrev pub plain : ℤ → ℤ
plain z = z *ℤ pos rinv

-- The factors zetas[k], zetas[k + 1], ...
unfoldable pub ascending : ℕ → ℕ → List ℤ
ascending zero k = []
ascending (suc left) k = get_or zetas k (pos 0) ∷ ascending left (k + 1)

-- The factors -zetas[k - 1], -zetas[k - 2], ...
unfoldable pub descending : ℕ → ℕ → List ℤ
descending zero k = []
descending (suc left) k = (pos 0 -ℤ get_or zetas (k - 1) (pos 0)) ∷ descending left (k - 1)

pub length-ascending : (left k : ℕ) → length (ascending left k) ≡ left
unfolding ascending
length-ascending zero k = refl
length-ascending (suc left) k = ap suc (length-ascending left (k + 1))

pub length-descending : (left k : ℕ) → length (descending left k) ≡ left
unfolding descending
length-descending zero k = refl
length-descending (suc left) k = ap suc (length-descending left (k - 1))

-- Every factor fits in 23 bits with its sign.
table_bound : All (Within (2 ^ 22)) zetas
table_bound = omega arith

get_or-Within : (b : ℕ) (zs : List ℤ) (k : ℕ) → All (Within b) zs → Within b (get_or zs k (pos 0))
get_or-Within b [] k h = omega arith
get_or-Within b (z ∷ zs) zero h = h.0
get_or-Within b (z ∷ zs) (suc k) h = get_or-Within b zs k h.1

pub ascending-Within : (left k : ℕ) → All (Within (2 ^ 22)) (ascending left k)
unfolding ascending
ascending-Within zero k = tt
ascending-Within (suc left) k =
    (get_or-Within (2 ^ 22) zetas k table_bound, ascending-Within left (k + 1))

negated : (b : ℕ) (z : ℤ) → Within b z → Within b (pos 0 -ℤ z)
negated b z h = omega (arith, -ℤ_parts (pos 0) z, one_part_zero z, one_part_zero (pos 0 -ℤ z))

pub descending-Within : (left k : ℕ) → All (Within (2 ^ 22)) (descending left k)
unfolding descending
descending-Within zero k = tt
descending-Within (suc left) k = (
  negated (2 ^ 22) _ (get_or-Within (2 ^ 22) zetas (k - 1) table_bound),
  descending-Within left (k - 1),
)

pub length-roots : length roots ≡ 256
unfolding roots root_numbers
length-roots = refl
