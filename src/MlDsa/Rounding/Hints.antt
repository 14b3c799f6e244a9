-- ===== src/MlDsa/Rounding/Hints.antt =====
-- `use_hint_32` finds the high bits that `make_hint` was given.
pub mod Narrow
use karudeb.Base.{
  ℕ, zero, suc, ◌+◌, ◌-◌, ◌*◌, ◌/◌, ◌%◌, ◌^◌, ◌≤◌, ◌<◌, ◌≡◌, ◌≢◌, ◌⊎◌, inl, inr, refl, ap, ◌∙◌, sym,
  arith,
}
use karudeb.Base.{
  ℤ, pos, negsuc, pos_part, neg_part, ◌+ℤ◌, ◌-ℤ◌, eq_of_parts, +ℤ_parts, -ℤ_parts, ltb_ℤ, eqb_ℤ,
}
use karudeb.Base.{
  residue, div, div_parts, one_part_zero, and_mask, bit_and_ones, Bool-cases, true, false, not,
  ◌||◌, ◌==◌, if◌then◌else◌,
}
use mathlib.Core.Path.{subst}
use karudeb.MlDsa.Params.{q}
use karudeb.MlDsa.Rounding.{decompose_32, make_hint, use_hint_32}
use karudeb.MlDsa.Rounding.HighBits.{IsDecomposition, decompose_32_lem}

-- Low bits y that leave the interval of the high bits a above, or below.
abbrev pub IsHintFor : ℕ → ℤ → ℕ → ℕ → Type 0
IsHintFor gamma2 y a h =
    ((h ≡ 0) × (pos_part y ≤ gamma2) × ((neg_part y < gamma2) ⊎ ((neg_part y ≡ gamma2) × (a ≡ 0))))
    ⊎ (((h ≡ 1) × (gamma2 < pos_part y))
        ⊎ ((h ≡ 1) × (gamma2 ≤ neg_part y) × ((gamma2 < neg_part y) ⊎ (0 < a))))

lowest : (g : ℕ) → pos 0 -ℤ pos (suc g) ≡ negsuc g
lowest g = eq_of_parts _ _ (omega (arith, -ℤ_parts (pos 0) (pos (suc g))))

pub make_hint-IsHintFor :
    (g : ℕ) (y : ℤ) (a : ℕ) → IsHintFor (suc g) y a (make_hint y (pos a) (suc g))
unfolding make_hint
make_hint-IsHintFor g (pos y) a = rw (lowest g) (ground arith)
make_hint-IsHintFor g (negsuc y) a = rw (lowest g) (ground arith)

up : (a : ℕ) → pos (and_mask (pos a +ℤ pos 1) 15) ≡ pos ((a + 1) % 16)
unfolding and_mask ◌+ℤ◌ residue
up a = rw (bit_and_ones 4 (residue (pos a +ℤ pos 1) (2 ^ 32)) 15 refl) (ap pos (ground arith))

down : (a : ℕ) → a < 16 → pos (and_mask (pos a -ℤ pos 1) 15) ≡ pos ((a + 15) % 16)
unfolding and_mask ◌-ℤ◌ residue
down zero k = refl
down (suc a) k =
    rw (bit_and_ones 4 (residue (pos (suc a) -ℤ pos 1) (2 ^ 32)) 15 refl) (ap pos (ground arith))

-- The shifted representative, which may wrap once.
pub wraps_once :
    (n m : ℕ) (z t : ℤ)
    → n < q
    → m < q
    → pos_part z + neg_part z < q
    → pos_part (pos n +ℤ z) + q * neg_part t ≡ neg_part (pos n +ℤ z) + q * pos_part t + m
    → (m + neg_part z ≡ n + pos_part z)
      ⊎ ((m + neg_part z + q ≡ n + pos_part z) ⊎ (m + neg_part z ≡ n + pos_part z + q))
wraps_once n m z t h g k e =
    omega
      (arith, e, +ℤ_parts (pos n) z, one_part_zero (pos n +ℤ z), one_part_zero t, one_part_zero z)

-- What the hint and the high bits of the shifted number are, by the side where the low bits leave.
abbrev pub Recovered : ℕ → ℕ → ℕ → ℤ → Type 0
Recovered a b h s0 =
    ((h ≡ 0) × (b ≡ a))
    ⊎ (((h ≡ 1) × (0 < pos_part s0) × ((b + 1) % 16 ≡ a))
        ⊎ ((h ≡ 1) × (pos_part s0 ≡ 0) × ((b + 15) % 16 ≡ a)))

-- A decomposition in numbers only.
abbrev Parts : ℕ → ℕ → ℤ → Type 0
Parts n a r0 =
    (a < 16)
    × (((n + neg_part r0 ≡ a * 523776 + pos_part r0)
          × (pos_part r0 ≤ 261888)
          × (neg_part r0 < 261888))
        ⊎ ((a ≡ 0) × (n + neg_part r0 ≡ q) × (pos_part r0 ≡ 0) × (neg_part r0 ≤ 261888)))

parts :
    (n : ℕ) (r1 r0 : ℤ)
    → IsDecomposition 261888 16 n (r1, r0)
    → (r1 ≡ pos (pos_part r1)) × Parts n (pos_part r1) r0
parts n r1 r0 (none_below, few, inl (e, l, g)) =
    (eq_of_parts _ _ (omega arith), (few, inl (omega arith, l, g)))
parts n r1 r0 (none_below, few, inr (e, total, l, g)) =
    (eq_of_parts _ _ (omega arith), (few, inr (ap pos_part e, total, l, g)))

-- The shifted number in terms of the high bits and the shifted low bits.
abbrev Near : ℕ → ℕ → ℤ → Type 0
Near m a y =
    (m + neg_part y ≡ a * 523776 + pos_part y)
    ⊎ ((m + neg_part y + q ≡ a * 523776 + pos_part y)
        ⊎ (m + neg_part y ≡ a * 523776 + pos_part y + q))

near :
    (n m a : ℕ) (r0 z : ℤ)
    → m < q
    → Parts n a r0
    → pos_part (r0 +ℤ z) + neg_part (r0 +ℤ z) < 523776
    → (m + neg_part z ≡ n + pos_part z)
      ⊎ ((m + neg_part z + q ≡ n + pos_part z) ⊎ (m + neg_part z ≡ n + pos_part z + q))
    → Near m a (r0 +ℤ z)
near n m a r0 z g d k w = omega (arith, d, +ℤ_parts r0 z, one_part_zero (r0 +ℤ z))

recovered :
    (m a b h : ℕ) (s0 y : ℤ)
    → m < q
    → a < 16
    → Parts m b s0
    → pos_part y + neg_part y < 523776
    → Near m a y
    → IsHintFor 261888 y a h
    → Recovered a b h s0
recovered m a b h s0 y g l e k w (inl i) =
    let same : b ≡ a = omega (arith, e, i, one_part_zero y, one_part_zero s0) in inl (i.0, same)
recovered m a b h s0 y g l e k w (inr (inl i)) =
    let low : pos_part s0 ≡ 0 = omega (arith, e, i, one_part_zero y, one_part_zero s0) in
    let one_up : (b + 15) % 16 ≡ a = omega (arith, e, i, one_part_zero y, one_part_zero s0) in
    inr (inr (i.0, low, one_up))
recovered m a b h s0 y g l e k w (inr (inr i)) =
    let high : 0 < pos_part s0 = omega (arith, e, i, one_part_zero y, one_part_zero s0) in
    let one_down : (b + 1) % 16 ≡ a = omega (arith, e, i, one_part_zero y, one_part_zero s0) in
    inr (inl (i.0, high, one_down))

chosen :
    (m h a : ℕ) (s1 s0 : ℤ)
    → decompose_32 (pos m) ≡ (s1, s0)
    → s1 ≡ pos (pos_part s1)
    → pos_part s1 < 16
    → Recovered a (pos_part s1) h s0
    → use_hint_32 (pos m) h ≡ pos a
unfolding use_hint_32
chosen m h a s1 s0 e k l (inl (none_set, same)) = rw (none_set, e) (k ∙ ap pos same)
chosen m h a s1 s0 e k l (inr (inl (set, above, value))) =
    let test : ltb_ℤ (pos 0) s0 ≡ true = ground arith in
    rw (set, e, test)
      (ap (λ (t : ℤ). pos (and_mask (t +ℤ pos 1) 15)) k ∙ up (pos_part s1) ∙ ap pos value)
chosen m h a s1 s0 e k l (inr (inr (set, below, value))) =
    let test : ltb_ℤ (pos 0) s0 ≡ false = ground arith in
    rw (set, e, test)
      (ap (λ (t : ℤ). pos (and_mask (t -ℤ pos 1) 15)) k ∙ down (pos_part s1) l ∙ ap pos value)

-- For gamma2 = (q - 1) / 32: let n below q have the high bits r1 and the low bits r0, and let z be such
-- that r0 + z is below 2 * gamma2 in absolute value. Then `use_hint_32` gives r1 for the representative
-- of n + z and the hint that `make_hint` makes of r0 + z and r1.
pub use-make_hint_32 :
    (n : ℕ) (z : ℤ)
    → n < q
    → pos_part ((decompose_32 (pos n)).1 +ℤ z) + neg_part ((decompose_32 (pos n)).1 +ℤ z) < 523776
    → (let (r1, r0) = decompose_32 (pos n) in
        use_hint_32 (pos (residue (pos n +ℤ z) q)) (make_hint (r0 +ℤ z) r1 261888) ≡ r1)
use-make_hint_32 n z h k =
    let r1 = (decompose_32 (pos n)).0 in
    let r0 = (decompose_32 (pos n)).1 in
    let m = residue (pos n +ℤ z) q in
    let (sum, small) = div_parts (pos n +ℤ z) q (omega arith) in
    let s1 = (decompose_32 (pos m)).0 in
    let s0 = (decompose_32 (pos m)).1 in
    let (e, (few, d)) = parts n r1 r0 (decompose_32_lem n h) in
    let (e', (few', d')) = parts m s1 s0 (decompose_32_lem m small) in
    let short : pos_part z + neg_part z < q =
      omega (arith, k, d, +ℤ_parts r0 z, one_part_zero (r0 +ℤ z), one_part_zero z) in
    let shifted =
      near n m (pos_part r1) r0 z small (few, d) k
        (wraps_once n m z (div (pos n +ℤ z) q) h small short sum) in
    let hint : IsHintFor 261888 (r0 +ℤ z) (pos_part r1) (make_hint (r0 +ℤ z) r1 261888) =
      subst (λ (t : ℤ). IsHintFor 261888 (r0 +ℤ z) (pos_part r1) (make_hint (r0 +ℤ z) t 261888))
        (sym e) (make_hint-IsHintFor 261887 (r0 +ℤ z) (pos_part r1)) in
    chosen m (make_hint (r0 +ℤ z) r1 261888) (pos_part r1) s1 s0 refl e' few' (
      recovered m (pos_part r1) (pos_part s1) (make_hint (r0 +ℤ z) r1 261888) s0 (r0 +ℤ z) small few
        (few', d') k shifted hint)
    ∙ sym e
