-- ===== src/Transform/Table.antt =====
-- The factors that a round reads from a table, upwards or downwards.
use karudeb.Base.{ℕ, zero, suc, ◌+◌, ◌-◌, ◌≡◌, refl, ap, arith}
use karudeb.Base.{ℤ, pos, Within, All, List, [], ◌∷◌, length, get_or}

-- table[k], table[k + 1], ...
unfoldable pub ascending : List ℤ → ℕ → ℕ → List ℤ
ascending table zero k = []
ascending table (suc left) k = get_or table k (pos 0) ∷ ascending table left (k + 1)

-- table[k], table[k - 1], ...
unfoldable pub descending : List ℤ → ℕ → ℕ → List ℤ
descending table zero k = []
descending table (suc left) k = get_or table k (pos 0) ∷ descending table left (k - 1)

pub length-ascending : (table : List ℤ) (left k : ℕ) → length (ascending table left k) ≡ left
unfolding ascending
length-ascending table zero k = refl
length-ascending table (suc left) k = ap suc (length-ascending table left (k + 1))

pub length-descending : (table : List ℤ) (left k : ℕ) → length (descending table left k) ≡ left
unfolding descending
length-descending table zero k = refl
length-descending table (suc left) k = ap suc (length-descending table left (k - 1))

pub get_or-Within :
    (b : ℕ) (zs : List ℤ) (k : ℕ) → All (Within b) zs → Within b (get_or zs k (pos 0))
get_or-Within b [] k h = omega arith
get_or-Within b (z ∷ zs) zero h = h.0
get_or-Within b (z ∷ zs) (suc k) h = get_or-Within b zs k h.1

pub ascending-Within :
    (b : ℕ) (table : List ℤ) (left k : ℕ)
    → All (Within b) table
    → All (Within b) (ascending table left k)
unfolding ascending
ascending-Within b table zero k h = tt
ascending-Within b table (suc left) k h =
    (get_or-Within b table k h, ascending-Within b table left (k + 1) h)

pub descending-Within :
    (b : ℕ) (table : List ℤ) (left k : ℕ)
    → All (Within b) table
    → All (Within b) (descending table left k)
unfolding descending
descending-Within b table zero k h = tt
descending-Within b table (suc left) k h =
    (get_or-Within b table k h, descending-Within b table left (k - 1) h)
