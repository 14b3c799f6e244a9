-- ===== src/Transform/Forward.antt =====
-- The rounds of a forward transform.
use karudeb.Base.{ℕ, zero, suc, ◌+◌, ◌<◌, ◌≡◌, refl, sym, ap, ap₂, ◌∙◌, arith}
use karudeb.Base.{ℤ, pos, ◌+ℤ◌, ◌-ℤ◌, ◌*ℤ◌, residue, Congruent, Congruent-add, Congruent-mul}
use karudeb.Base.{List, [], ◌∷◌, ◌++◌, length, take, drop, zip_with, All}
use karudeb.Base.{take-append, drop-append, All-take, All-drop, +ℤ_comm, map}
use mathlib.Core.List.{map-append, append_assoc, append-nil}
use karudeb.Transform.Evaluate.{
  eval, power, eval-append, eval-zip_with, one-*ℤ, *ℤ_one, *ℤ_zero, zero-+ℤ,
}
use karudeb.Transform.Layers.{
  layer, values, points, Blocks, Splits, length-zip_with, halves, take_sum, drop_sum,
}

-- Polynomials that agree at each point of a kind have the same values there.
pub values-eq :
    (q : ℕ) (C : ℤ → Type 0) (rs a b : List ℤ)
    → ((r : ℤ) → C r → residue (eval r a) q ≡ residue (eval r b) q)
    → All C rs
    → values q rs a ≡ values q rs b
values-eq q C [] a b same h = refl
values-eq q C (r ∷ rs) a b same h = ap₂ ◌∷◌ (same r h.0) (values-eq q C rs a b same h.1)

-- The first two of the blocks.
pub points_two :
    (q n len : ℕ) (rs lo hi rest : List ℤ)
    → length lo ≡ len
    → length hi ≡ len
    → points q (suc (suc n)) len rs (lo ++ (hi ++ rest))
      ≡ values q (take len rs) lo
        ++ (values q (take len (drop len rs)) hi ++ points q n len (drop len (drop len rs)) rest)
unfolding points
points_two q n len rs lo hi rest e e' =
    let first = values q (take len rs) in
    let second = values q (take len (drop len rs)) in
    let others = points q n len (drop len (drop len rs)) in
    rw
      (
        take-append len lo (hi ++ rest) e,
        drop-append len lo (hi ++ rest) e,
        take-append len hi rest e',
        drop-append len hi rest e',
      )
      refl

-- The first block of twice the length, at the points of its halves.
pub points_block :
    (q n len : ℕ) (rs a : List ℤ)
    → points q (suc n) (len + len) rs a
      ≡ (values q (take len rs) (take len a ++ take len (drop len a))
          ++ values q (take len (drop len rs)) (take len a ++ take len (drop len a)))
        ++ points q n (len + len) (drop len (drop len rs)) (drop len (drop len a))
unfolding points
points_block q n len rs a =
    let lo = take len a in
    let hi = take len (drop len a) in
    rw (take_sum len len rs, take_sum len len a, drop_sum len len rs, drop_sum len len a)
      (ap (λ t. t ++ points q n (len + len) (drop len (drop len rs)) (drop len (drop len a)))
        (map-append (λ r. residue (eval r (lo ++ hi)) q) (take len rs) (take len (drop len rs))))

-- The same where the halves are known.
pub points_joined :
    (q n len : ℕ) (rs lo hi rest : List ℤ)
    → length lo ≡ len
    → length hi ≡ len
    → points q (suc n) (len + len) rs (lo ++ (hi ++ rest))
      ≡ (values q (take len rs) (lo ++ hi) ++ values q (take len (drop len rs)) (lo ++ hi))
        ++ points q n (len + len) (drop len (drop len rs)) rest
points_joined q n len rs lo hi rest e e' =
    let first = values q (take len rs) in
    let second = values q (take len (drop len rs)) in
    let others = points q n (len + len) (drop len (drop len rs)) in
    points_block q n len rs (lo ++ (hi ++ rest))
    ∙ ap₂
        (λ (t u : List ℤ).
          (first (t ++ take len u) ++ second (t ++ take len u)) ++ others (drop len u))
        (take-append len lo (hi ++ rest) e) (drop-append len lo (hi ++ rest) e)
    ∙ ap₂ (λ (t u : List ℤ). (first (lo ++ t) ++ second (lo ++ t)) ++ others u)
        (take-append len hi rest e') (drop-append len hi rest e')

pub double_suc : (n : ℕ) → suc n + suc n ≡ suc (suc (n + n))
double_suc n = omega arith

module _ (q : ℕ) (q_pos : 0 < q) (P : ℤ → Type 0) where
  -- At a point whose power is the factor, a half has the value of the whole block.
  half_value :
      (f : ℤ → ℤ → ℤ) (v r : ℤ) (len : ℕ) (lo hi : List ℤ)
      → ((x y : ℤ) → P x → P y → Congruent q (f x y) (pos 1 *ℤ x +ℤ v *ℤ y))
      → length lo ≡ len
      → length hi ≡ len
      → All P lo
      → All P hi
      → Congruent q (power r len *ℤ pos 1) v
      → residue (eval r (lo ++ hi)) q ≡ residue (eval r (zip_with f lo hi)) q
  half_value f v r len lo hi ok e e' hl hh hp =
      ap (λ t. residue t q)
        (eval-append r lo hi ∙ ap (λ (t : ℕ). eval r lo +ℤ power r t *ℤ eval r hi) e)
      ∙ Congruent-add q q_pos _ _ _ _ (ap (λ t. residue t q) (sym (one-*ℤ (eval r lo))))
          (Congruent-mul q q_pos _ _ _ _ (ap (λ t. residue t q) (sym (*ℤ_one _)) ∙ hp) refl)
      ∙ sym (eval-zip_with q q_pos P f (pos 1) v r lo hi ok (e ∙ sym e') hl hh)

  module _ (Z : ℤ → Type 0) (w : ℤ → ℤ) (f g : ℤ → ℤ → ℤ → ℤ)
      (low_ok : (z x y : ℤ) → Z z → P x → P y → Congruent q (f z x y) (pos 1 *ℤ x +ℤ w z *ℤ y))
      (high_ok : (z x y : ℤ)
        → Z z
        → P x
        → P y
        → Congruent q (g z x y) (pos 1 *ℤ x +ℤ (pos 0 -ℤ w z) *ℤ y))
      (len : ℕ) where
    -- A round halves the blocks and keeps the values.
    pub forward-points :
        (zs rs a : List ℤ)
        → Blocks len zs a
        → Splits q (λ _. pos 1) w len zs rs
        → All Z zs
        → All P a
        → points q (length zs) (len + len) rs a
          ≡ points q (length zs + length zs) len rs (layer f g zs len a)
    unfolding layer points
    forward-points [] rs a hb hs hz ha = refl
    forward-points (z ∷ zs) rs a hb hs hz ha =
        let lo = take len a in
        let hi = take len (drop len a) in
        let low = zip_with (f z) lo hi in
        let high = zip_with (g z) lo hi in
        let rs' = drop len (drop len rs) in
        let a' = drop len (drop len a) in
        let r1 = take len rs in
        let r2 = take len (drop len rs) in
        let (e, e') = halves len a hb.0 in
        let hd = All-drop P len a ha in
        let hl = All-take P len a ha in
        let hh = All-take P len (drop len a) hd in
        let ih = forward-points zs rs' a' hb.1 hs.2 hz.1 (All-drop P len (drop len a) hd) in
        let same_low : values q r1 (lo ++ hi) ≡ values q r1 low =
          values-eq q (λ r. Congruent q (power r len *ℤ pos 1) (w z)) r1 (lo ++ hi) low
            (λ r hp.
              half_value (f z) (w z) r len lo hi (λ x y hx hy. low_ok z x y hz.0 hx hy) e e' hl hh
                hp)
            hs.0 in
        let same_high : values q r2 (lo ++ hi) ≡ values q r2 high =
          values-eq q (λ r. Congruent q (power r len *ℤ pos 1) (pos 0 -ℤ w z)) r2 (lo ++ hi) high
            (λ r hp.
              half_value (g z) (pos 0 -ℤ w z) r len lo hi (λ x y hx hy. high_ok z x y hz.0 hx hy) e
                e' hl hh hp)
            hs.1 in
        points_block q (length zs) len rs a
        ∙ ap₂ ◌++◌ (ap₂ ◌++◌ same_low same_high) ih
        ∙ append_assoc (values q r1 low) (values q r2 high) _
        ∙ sym (
            points_two q (length zs + length zs) len rs low high (layer f g zs len a')
              (length-zip_with (f z) lo hi (e ∙ sym e') ∙ e)
              (length-zip_with (g z) lo hi (e ∙ sym e') ∙ e))
        ∙ ap (λ (t : ℕ). points q t len rs (low ++ (high ++ layer f g zs len a')))
            (sym (double_suc (length zs)))

take_all : (a : List ℤ) (n : ℕ) → length a ≡ n → take n a ≡ a
take_all [] zero e = refl
take_all [] (suc n) e = refl
take_all (x ∷ a) zero e = absurd (omega arith)
take_all (x ∷ a) (suc n) e = ap (λ t. x ∷ t) (take_all a n (omega arith))

-- A single block has the values of the whole polynomial.
pub points_all :
    (q len : ℕ) (rs a : List ℤ)
    → length rs ≡ len
    → length a ≡ len
    → points q 1 len rs a ≡ values q rs a
unfolding points
points_all q len rs a e e' =
    append-nil (values q (take len rs) (take len a))
    ∙ ap₂ (values q) (take_all rs len e) (take_all a len e')

-- A block of one coefficient has it as its value.
pub points_one :
    (q n : ℕ) (rs a : List ℤ)
    → length rs ≡ n
    → length a ≡ n
    → points q n 1 rs a ≡ map (λ c. residue c q) a
unfolding points eval
points_one q zero [] [] e e' = refl
points_one q zero (r ∷ rs) a e e' = absurd (omega arith)
points_one q zero [] (c ∷ a) e e' = absurd (omega arith)
points_one q (suc n) [] a e e' = absurd (omega arith)
points_one q (suc n) (r ∷ rs) [] e e' = absurd (omega arith)
points_one q (suc n) (r ∷ rs) (c ∷ a) e e' =
    ap₂ ◌∷◌ (ap (λ t. residue t q) (ap (λ t. c +ℤ t) (*ℤ_zero r) ∙ +ℤ_comm c (pos 0) ∙ zero-+ℤ c))
      (points_one q n rs a (omega arith) (omega arith))
