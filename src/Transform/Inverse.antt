-- ===== src/Transform/Inverse.antt =====
-- The rounds of an inverse transform, which undo those of a forward one up to a factor of two.
use karudeb.Base.{ℕ, ◌+◌, ◌*◌, ◌%◌, ◌<◌, ◌≡◌, refl, sym, ap, ap₂, ◌∙◌, arith}
use karudeb.Base.{ℤ, pos, ◌+ℤ◌, ◌-ℤ◌, ◌*ℤ◌, residue, Congruent, Congruent-add, Congruent-mul}
use karudeb.Base.{+ℤ_parts, -ℤ_parts, *ℤ_parts, eq_of_parts, *ℤ_assoc, *ℤ-+ℤ, div_parts}
use karudeb.Base.{List, [], ◌∷◌, ◌++◌, map, length, take, drop, zip_with, All}
use karudeb.Base.{All-take, All-drop}
use mathlib.Core.List.{map-append, append_assoc}
use native.Mathlib.Nat.{mod-eq_of_lt}
use karudeb.Transform.Evaluate.{
  eval, power, eval-append, eval-zip_with, one-*ℤ, neg-mul, difference_form, *ℤ_zero, *ℤ_swap,
}
use karudeb.Transform.Layers.{layer, values, points, Blocks, Splits, length-zip_with, halves}
use karudeb.Transform.Forward.{points_joined, double_suc}

-- Values times a number, modulo q.
abbrev pub scaled : ℕ → ℕ → List ℕ → List ℕ
scaled q c = map (λ v. c * v % q)

collect_low : (x y : ℤ) → x +ℤ y +ℤ pos 1 *ℤ (x -ℤ y) ≡ pos 2 *ℤ x
collect_low x y = eq_of_parts _ _ (
    omega (
      arith,
      +ℤ_parts (x +ℤ y) (pos 1 *ℤ (x -ℤ y)),
      +ℤ_parts x y,
      *ℤ_parts (pos 1) (x -ℤ y),
      -ℤ_parts x y,
      *ℤ_parts (pos 2) x,
    ))

collect_high : (x y : ℤ) → x +ℤ y +ℤ (pos 0 -ℤ pos 1) *ℤ (x -ℤ y) ≡ pos 2 *ℤ y
collect_high x y =
    ap (λ t. x +ℤ y +ℤ t) (neg-mul (pos 1) (x -ℤ y))
    ∙ eq_of_parts _ _ (
        omega (
          arith,
          +ℤ_parts (x +ℤ y) (pos 0 -ℤ pos 1 *ℤ (x -ℤ y)),
          +ℤ_parts x y,
          -ℤ_parts (pos 0) (pos 1 *ℤ (x -ℤ y)),
          *ℤ_parts (pos 1) (x -ℤ y),
          -ℤ_parts x y,
          *ℤ_parts (pos 2) y,
        ))

module _ (q : ℕ) (q_pos : 0 < q) where
  pub residue-Congruent : (x : ℤ) → Congruent q x (pos (residue x q))
  unfolding residue
  residue-Congruent x = sym (mod-eq_of_lt (div_parts x q q_pos).1)

  residue-product : (c n : ℕ) → residue (pos c *ℤ pos n) q ≡ c * n % q
  unfolding residue
  residue-product c n =
      let e : pos c *ℤ pos n ≡ pos (c * n) =
        eq_of_parts _ _ (omega (arith, *ℤ_parts (pos c) (pos n))) in
      ap (λ t. residue t q) e

  pub residue-scale : (c : ℕ) (x : ℤ) → residue (pos c *ℤ x) q ≡ c * residue x q % q
  residue-scale c x =
      Congruent-mul q q_pos (pos c) (pos c) x (pos (residue x q)) refl (residue-Congruent x)
      ∙ residue-product c (residue x q)

  pub mul-mod : (c n : ℕ) → c * (n % q) % q ≡ c * n % q
  unfolding residue
  mul-mod c n = sym (residue-scale c (pos n)) ∙ residue-product c n

  pub scaled-scaled : (c d : ℕ) (u : List ℕ) → scaled q c (scaled q d u) ≡ scaled q (c * d) u
  scaled-scaled c d [] = refl
  scaled-scaled c d (x ∷ u) =
      let e : c * (d * x) ≡ c * d * x = grind arith in
      ap₂ ◌∷◌ (mul-mod c (d * x) ∙ ap (λ (t : ℕ). t % q) e) (scaled-scaled c d u)

  -- The values of the block that a round makes of two halves, at a point whose power times the factor
  -- is c.
  block_value :
      (P : ℤ → Type 0) (f g : ℤ → ℤ → ℤ) (s c r : ℤ) (len : ℕ) (lo hi : List ℤ)
      → ((x y : ℤ) → P x → P y → Congruent q (f x y) (pos 1 *ℤ x +ℤ pos 1 *ℤ y))
      → ((x y : ℤ) → P x → P y → Congruent q (g x y) (s *ℤ x +ℤ (pos 0 -ℤ s) *ℤ y))
      → length lo ≡ len
      → length hi ≡ len
      → All P lo
      → All P hi
      → Congruent q (power r len *ℤ s) c
      → residue (eval r (zip_with f lo hi ++ zip_with g lo hi)) q
        ≡ residue (eval r lo +ℤ eval r hi +ℤ c *ℤ (eval r lo -ℤ eval r hi)) q
  block_value P f g s c r len lo hi f_ok g_ok e e' hl hh hc =
      let low = zip_with f lo hi in
      let x = eval r lo in
      let y = eval r hi in
      let size : length low ≡ len = length-zip_with f lo hi (e ∙ sym e') ∙ e in
      let sum : Congruent q (eval r low) (x +ℤ y) =
        eval-zip_with q q_pos P f (pos 1) (pos 1) r lo hi f_ok (e ∙ sym e') hl hh
        ∙ ap (λ t. residue t q) (ap₂ ◌+ℤ◌ (one-*ℤ x) (one-*ℤ y)) in
      let difference : Congruent q (eval r (zip_with g lo hi)) (s *ℤ (x -ℤ y)) =
        eval-zip_with q q_pos P g s (pos 0 -ℤ s) r lo hi g_ok (e ∙ sym e') hl hh
        ∙ ap (λ t. residue t q) (difference_form s x y) in
      ap (λ t. residue t q)
        (eval-append r low (zip_with g lo hi)
          ∙ ap (λ (t : ℕ). eval r low +ℤ power r t *ℤ eval r (zip_with g lo hi)) size)
      ∙ Congruent-add q q_pos _ _ _ _ sum (
          Congruent-mul q q_pos _ _ _ _ refl difference
          ∙ ap (λ t. residue t q) (sym (*ℤ_assoc (power r len) s (x -ℤ y)))
          ∙ Congruent-mul q q_pos _ _ _ _ hc refl)

  values-scaled :
      (C : ℤ → Type 0) (rs a b : List ℤ)
      → ((r : ℤ) → C r → residue (eval r a) q ≡ residue (pos 2 *ℤ eval r b) q)
      → All C rs
      → values q rs a ≡ scaled q 2 (values q rs b)
  values-scaled C [] a b same h = refl
  values-scaled C (r ∷ rs) a b same h =
      ap₂ ◌∷◌ (same r h.0 ∙ residue-scale 2 (eval r b)) (values-scaled C rs a b same h.1)

  module _ (P Z : ℤ → Type 0) (s : ℤ → ℤ) (f g : ℤ → ℤ → ℤ → ℤ)
      (low_ok : (z x y : ℤ) → Z z → P x → P y → Congruent q (f z x y) (pos 1 *ℤ x +ℤ pos 1 *ℤ y))
      (high_ok : (z x y : ℤ)
        → Z z
        → P x
        → P y
        → Congruent q (g z x y) (s z *ℤ x +ℤ (pos 0 -ℤ s z) *ℤ y))
      (len : ℕ) where
    -- A round joins the blocks in pairs and doubles the values.
    pub inverse-points :
        (zs rs a : List ℤ)
        → Blocks len zs a
        → Splits q s (λ _. pos 1) len zs rs
        → All Z zs
        → All P a
        → points q (length zs) (len + len) rs (layer f g zs len a)
          ≡ scaled q 2 (points q (length zs + length zs) len rs a)
    unfolding layer points
    inverse-points [] rs a hb hs hz ha = refl
    inverse-points (z ∷ zs) rs a hb hs hz ha =
        let lo = take len a in
        let hi = take len (drop len a) in
        let low = zip_with (f z) lo hi in
        let high = zip_with (g z) lo hi in
        let a' = drop len (drop len a) in
        let rs' = drop len (drop len rs) in
        let r1 = take len rs in
        let r2 = take len (drop len rs) in
        let (e, e') = halves len a hb.0 in
        let hd = All-drop P len a ha in
        let hl = All-take P len a ha in
        let hh = All-take P len (drop len a) hd in
        let ih = inverse-points zs rs' a' hb.1 hs.2 hz.1 (All-drop P len (drop len a) hd) in
        let value : (c r : ℤ)
            → Congruent q (power r len *ℤ s z) c
            → residue (eval r (low ++ high)) q
              ≡ residue (eval r lo +ℤ eval r hi +ℤ c *ℤ (eval r lo -ℤ eval r hi)) q =
          λ c r hc.
            block_value P (f z) (g z) (s z) c r len lo hi (λ x y hx hy. low_ok z x y hz.0 hx hy)
              (λ x y hx hy. high_ok z x y hz.0 hx hy) e e' hl hh hc in
        let same_low : values q r1 (low ++ high) ≡ scaled q 2 (values q r1 lo) =
          values-scaled (λ r. Congruent q (power r len *ℤ s z) (pos 1)) r1 (low ++ high) lo
            (λ r hp.
              value (pos 1) r hp ∙ ap (λ t. residue t q) (collect_low (eval r lo) (eval r hi)))
            hs.0 in
        let same_high : values q r2 (low ++ high) ≡ scaled q 2 (values q r2 hi) =
          values-scaled (λ r. Congruent q (power r len *ℤ s z) (pos 0 -ℤ pos 1)) r2 (low ++ high) hi
            (λ r hp.
              value (pos 0 -ℤ pos 1) r hp
              ∙ ap (λ t. residue t q) (collect_high (eval r lo) (eval r hi)))
            hs.1 in
        let double : ℕ → ℕ = λ v. 2 * v % q in
        let v1 = values q r1 lo in
        let v2 = values q r2 hi in
        let others = points q (length zs + length zs) len rs' a' in
        points_joined q (length zs) len rs low high (layer f g zs len a')
          (length-zip_with (f z) lo hi (e ∙ sym e') ∙ e)
          (length-zip_with (g z) lo hi (e ∙ sym e') ∙ e)
        ∙ ap₂ ◌++◌ (ap₂ ◌++◌ same_low same_high) ih
        ∙ append_assoc (scaled q 2 v1) (scaled q 2 v2) (scaled q 2 others)
        ∙ sym (
            map-append double v1 (v2 ++ others)
            ∙ ap (λ t. scaled q 2 v1 ++ t) (map-append double v2 others))
        ∙ ap (λ (t : ℕ). scaled q 2 (points q t len rs a)) (sym (double_suc (length zs)))

  -- A function that multiplies each coefficient multiplies the polynomial.
  pub eval-map :
      (P : ℤ → Type 0) (f : ℤ → ℤ) (u r : ℤ) (a : List ℤ)
      → ((x : ℤ) → P x → Congruent q (f x) (u *ℤ x))
      → All P a
      → Congruent q (eval r (map f a)) (u *ℤ eval r a)
  unfolding eval
  eval-map P f u r [] ok h = ap (λ t. residue t q) (sym (*ℤ_zero u))
  eval-map P f u r (x ∷ a) ok h =
      Congruent-add q q_pos _ _ _ _ (ok x h.0) (
        Congruent-mul q q_pos r r _ _ refl (eval-map P f u r a ok h.1)
        ∙ ap (λ t. residue t q) (*ℤ_swap r u (eval r a)))
      ∙ ap (λ t. residue t q) (sym (*ℤ-+ℤ u x (r *ℤ eval r a)))

  pub values-map :
      (P : ℤ → Type 0) (f : ℤ → ℤ) (c : ℕ) (rs a : List ℤ)
      → ((x : ℤ) → P x → Congruent q (f x) (pos c *ℤ x))
      → All P a
      → values q rs (map f a) ≡ scaled q c (values q rs a)
  values-map P f c [] a ok h = refl
  values-map P f c (r ∷ rs) a ok h =
      ap₂ ◌∷◌ (eval-map P f (pos c) r a ok h ∙ residue-scale c (eval r a))
        (values-map P f c rs a ok h)

  -- Factors that agree modulo q scale alike.
  pub scaled-residue : (c d : ℕ) (u : List ℕ) → c % q ≡ d % q → scaled q c u ≡ scaled q d u
  scaled-residue c d [] h = refl
  scaled-residue c d (x ∷ u) h =
      ap₂ ◌∷◌ (swap c ∙ ap (λ (t : ℕ). x * t % q) h ∙ sym (swap d)) (scaled-residue c d u h)
    where
      swap : (e : ℕ) → e * x % q ≡ x * (e % q) % q
      swap e = let f : e * x ≡ x * e = grind arith in ap (λ (t : ℕ). t % q) f ∙ sym (mul-mod x e)

  pub scaled_one : (a : List ℤ) → scaled q 1 (map (λ c. residue c q) a) ≡ map (λ c. residue c q) a
  scaled_one [] = refl
  scaled_one (c ∷ a) =
      ap₂ ◌∷◌ (sym (residue-scale 1 c) ∙ ap (λ t. residue t q) (one-*ℤ c)) (scaled_one a)
