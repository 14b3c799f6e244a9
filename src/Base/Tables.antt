-- ===== src/Base/Tables.antt =====
-- A property of all numbers below a bound, by evaluation.
use Prim.Native.Nat.{ℕ, zero, suc, ◌<◌}
use mathlib.Core.Path.{◌≡◌}
use mathlib.Core.Bool.{Bool, true, ◌&&◌}
use native.Mathlib.Omega.{arith}
use karudeb.Base.Tests.{◌==◌, ==_iff}

unfoldable pub holds_below : (ℕ → Bool) → ℕ → Bool
holds_below test zero = true
holds_below test (suc n) = test n && holds_below test n

pub read_table : (test : ℕ → Bool) (n i : ℕ) → holds_below test n ≡ true → i < n → test i ≡ true
unfolding holds_below
read_table test zero i h lt = absurd (omega arith)
read_table test (suc n) i h lt = ground (arith, read_table test n i)

-- A table of equations.
pub read_equation :
    (f g : ℕ → ℕ) (n i : ℕ) → holds_below (λ j. f j == g j) n ≡ true → i < n → f i ≡ g i
read_equation f g n i h lt = (==_iff (f i) (g i)).0 (read_table (λ j. f j == g j) n i h lt)
