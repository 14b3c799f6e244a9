-- ===== src/MlDsa/Rounding/Hints/Narrow.antt =====
-- `use_hint_88` finds the high bits that `make_hint` was given.
use karudeb.Base.{ℕ, ◌+◌, ◌*◌, ◌%◌, ◌≤◌, ◌<◌, ◌≡◌, ◌⊎◌, inl, inr, refl, ap, ◌∙◌, sym, arith}
use karudeb.Base.{ℤ, pos, pos_part, neg_part, ◌+ℤ◌, ◌-ℤ◌, eq_of_parts, +ℤ_parts, ltb_ℤ, eqb_ℤ}
use karudeb.Base.{residue, div, div_parts, one_part_zero, true, false, if◌then◌else◌}
use mathlib.Core.Path.{subst}
use karudeb.MlDsa.Params.{q}
use karudeb.MlDsa.Rounding.{decompose_88, make_hint, use_hint_88}
use karudeb.MlDsa.Rounding.HighBits.{IsDecomposition, decompose_88_lem}
use karudeb.MlDsa.Rounding.Hints.{IsHintFor, make_hint-IsHintFor, wraps_once}

up :
    (b : ℕ)
    → b < 44
    → (if eqb_ℤ (pos b) (pos 43) then pos 0 else pos b +ℤ pos 1) ≡ pos ((b + 1) % 44)
unfolding ◌+ℤ◌
up b g = ground arith

down :
    (b : ℕ)
    → b < 44
    → (if eqb_ℤ (pos b) (pos 0) then pos 43 else pos b -ℤ pos 1) ≡ pos ((b + 43) % 44)
unfolding ◌-ℤ◌
down b g = ground arith

-- What the hint and the high bits of the shifted number are, by the side where the low bits leave.
abbrev Recovered : ℕ → ℕ → ℕ → ℤ → Type 0
Recovered a b h s0 =
    ((h ≡ 0) × (b ≡ a))
    ⊎ (((h ≡ 1) × (0 < pos_part s0) × ((b + 1) % 44 ≡ a))
        ⊎ ((h ≡ 1) × (pos_part s0 ≡ 0) × ((b + 43) % 44 ≡ a)))

-- A decomposition in numbers only.
abbrev Parts : ℕ → ℕ → ℤ → Type 0
Parts n a r0 =
    (a < 44)
    × (((n + neg_part r0 ≡ a * 190464 + pos_part r0)
          × (pos_part r0 ≤ 95232)
          × (neg_part r0 < 95232))
        ⊎ ((a ≡ 0) × (n + neg_part r0 ≡ q) × (pos_part r0 ≡ 0) × (neg_part r0 ≤ 95232)))

parts :
    (n : ℕ) (r1 r0 : ℤ)
    → IsDecomposition 95232 44 n (r1, r0)
    → (r1 ≡ pos (pos_part r1)) × Parts n (pos_part r1) r0
parts n r1 r0 (none_below, few, inl (e, l, g)) =
    (eq_of_parts _ _ (omega arith), (few, inl (omega arith, l, g)))
parts n r1 r0 (none_below, few, inr (e, total, l, g)) =
    (eq_of_parts _ _ (omega arith), (few, inr (ap pos_part e, total, l, g)))

-- The shifted number in terms of the high bits and the shifted low bits.
abbrev Near : ℕ → ℕ → ℤ → Type 0
Near m a y =
    (m + neg_part y ≡ a * 190464 + pos_part y)
    ⊎ ((m + neg_part y + q ≡ a * 190464 + pos_part y)
        ⊎ (m + neg_part y ≡ a * 190464 + pos_part y + q))

near :
    (n m a : ℕ) (r0 z : ℤ)
    → m < q
    → Parts n a r0
    → pos_part (r0 +ℤ z) + neg_part (r0 +ℤ z) < 190464
    → (m + neg_part z ≡ n + pos_part z)
      ⊎ ((m + neg_part z + q ≡ n + pos_part z) ⊎ (m + neg_part z ≡ n + pos_part z + q))
    → Near m a (r0 +ℤ z)
near n m a r0 z g d k w = omega (arith, d, +ℤ_parts r0 z, one_part_zero (r0 +ℤ z))

recovered :
    (m a b h : ℕ) (s0 y : ℤ)
    → m < q
    → a < 44
    → Parts m b s0
    → pos_part y + neg_part y < 190464
    → Near m a y
    → IsHintFor 95232 y a h
    → Recovered a b h s0
recovered m a b h s0 y g l e k w (inl i) =
    let same : b ≡ a = omega (arith, e, i, one_part_zero y, one_part_zero s0) in inl (i.0, same)
recovered m a b h s0 y g l e k w (inr (inl i)) =
    let low : pos_part s0 ≡ 0 = omega (arith, e, i, one_part_zero y, one_part_zero s0) in
    let one_up : (b + 43) % 44 ≡ a = omega (arith, e, i, one_part_zero y, one_part_zero s0) in
    inr (inr (i.0, low, one_up))
recovered m a b h s0 y g l e k w (inr (inr i)) =
    let high : 0 < pos_part s0 = omega (arith, e, i, one_part_zero y, one_part_zero s0) in
    let one_down : (b + 1) % 44 ≡ a = omega (arith, e, i, one_part_zero y, one_part_zero s0) in
    inr (inl (i.0, high, one_down))

chosen :
    (m h a : ℕ) (s1 s0 : ℤ)
    → decompose_88 (pos m) ≡ (s1, s0)
    → s1 ≡ pos (pos_part s1)
    → pos_part s1 < 44
    → Recovered a (pos_part s1) h s0
    → use_hint_88 (pos m) h ≡ pos a
unfolding use_hint_88
chosen m h a s1 s0 e k l (inl (none_set, same)) = rw (none_set, e) (k ∙ ap pos same)
chosen m h a s1 s0 e k l (inr (inl (set, above, value))) =
    let test : ltb_ℤ (pos 0) s0 ≡ true = ground arith in
    rw (set, e, test) (next (pos_part s1) k l ∙ ap pos value)
  where
    next :
        (b : ℕ)
        → s1 ≡ pos b
        → b < 44
        → (if eqb_ℤ s1 (pos 43) then pos 0 else s1 +ℤ pos 1) ≡ pos ((b + 1) % 44)
    next b f g = rw f (up b g)
chosen m h a s1 s0 e k l (inr (inr (set, below, value))) =
    let test : ltb_ℤ (pos 0) s0 ≡ false = ground arith in
    rw (set, e, test) (next (pos_part s1) k l ∙ ap pos value)
  where
    next :
        (b : ℕ)
        → s1 ≡ pos b
        → b < 44
        → (if eqb_ℤ s1 (pos 0) then pos 43 else s1 -ℤ pos 1) ≡ pos ((b + 43) % 44)
    next b f g = rw f (down b g)

-- For gamma2 = (q - 1) / 88: let n below q have the high bits r1 and the low bits r0, and let z be such
-- that r0 + z is below 2 * gamma2 in absolute value. Then `use_hint_88` gives r1 for the representative
-- of n + z and the hint that `make_hint` makes of r0 + z and r1.
pub use-make_hint_88 :
    (n : ℕ) (z : ℤ)
    → n < q
    → pos_part ((decompose_88 (pos n)).1 +ℤ z) + neg_part ((decompose_88 (pos n)).1 +ℤ z) < 190464
    → (let (r1, r0) = decompose_88 (pos n) in
        use_hint_88 (pos (residue (pos n +ℤ z) q)) (make_hint (r0 +ℤ z) r1 95232) ≡ r1)
use-make_hint_88 n z h k =
    let r1 = (decompose_88 (pos n)).0 in
    let r0 = (decompose_88 (pos n)).1 in
    let m = residue (pos n +ℤ z) q in
    let (sum, small) = div_parts (pos n +ℤ z) q (omega arith) in
    let s1 = (decompose_88 (pos m)).0 in
    let s0 = (decompose_88 (pos m)).1 in
    let (e, (few, d)) = parts n r1 r0 (decompose_88_lem n h) in
    let (e', (few', d')) = parts m s1 s0 (decompose_88_lem m small) in
    let short : pos_part z + neg_part z < q =
      omega (arith, k, d, +ℤ_parts r0 z, one_part_zero (r0 +ℤ z), one_part_zero z) in
    let shifted =
      near n m (pos_part r1) r0 z small (few, d) k
        (wraps_once n m z (div (pos n +ℤ z) q) h small short sum) in
    let hint : IsHintFor 95232 (r0 +ℤ z) (pos_part r1) (make_hint (r0 +ℤ z) r1 95232) =
      subst (λ (t : ℤ). IsHintFor 95232 (r0 +ℤ z) (pos_part r1) (make_hint (r0 +ℤ z) t 95232))
        (sym e) (make_hint-IsHintFor 95231 (r0 +ℤ z) (pos_part r1)) in
    chosen m (make_hint (r0 +ℤ z) r1 95232) (pos_part r1) s1 s0 refl e' few' (
      recovered m (pos_part r1) (pos_part s1) (make_hint (r0 +ℤ z) r1 95232) s0 (r0 +ℤ z) small few
        (few', d') k shifted hint)
    ∙ sym e
