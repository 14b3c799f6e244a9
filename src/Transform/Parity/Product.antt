-- ===== src/Transform/Parity/Product.antt =====
-- Products modulo X ^ (2 m) + 1 by the coefficients of even and of odd degree.
use karudeb.Base.{
  ℕ, zero, suc, ◌+◌, ◌≤◌, ◌<◌, ◌≡◌, refl, sym, ap, ap₂, ◌∙◌, arith, Bool, true, false,
}
use karudeb.Base.{ℤ, pos, ◌+ℤ◌, ◌-ℤ◌, ◌*ℤ◌, *ℤ-+ℤ, *ℤ_comm, +ℤ_comm, +ℤ_assoc}
use karudeb.Base.{
  residue, Congruent, Congruent-add, Congruent-mul, List, [], ◌∷◌, map, length, take, drop, All,
}
use karudeb.Transform.Evaluate.{eval, power, zero-+ℤ, *ℤ_zero, *ℤ_swap}
use karudeb.Transform.Layers.{values}
use karudeb.Transform.Inverse.{residue-Congruent}
use karudeb.Transform.Product.{
  plus, minus, times, negacyclic, eval-plus, eval-multiple, eval-folded, length-le-times,
}
use karudeb.Transform.Parity.{pick, pick-map, pick-take, pick-drop}

pick-plus : (p : Bool) (u v : List ℤ) → pick p (plus u v) ≡ plus (pick p u) (pick p v)
unfolding pick plus
pick-plus p [] v = refl
pick-plus false (x ∷ u) [] = refl
pick-plus true (x ∷ []) [] = refl
pick-plus true (x ∷ y ∷ u) [] = refl
pick-plus false (x ∷ u) (y ∷ v) = ap (λ t. (x +ℤ y) ∷ t) (pick-plus true u v)
pick-plus true (x ∷ u) (y ∷ v) = pick-plus false u v

pick-minus : (p : Bool) (u v : List ℤ) → pick p (minus u v) ≡ minus (pick p u) (pick p v)
unfolding pick minus
pick-minus p [] v = pick-map p (λ y. pos 0 -ℤ y) v
pick-minus false (x ∷ u) [] = refl
pick-minus true (x ∷ []) [] = refl
pick-minus true (x ∷ y ∷ u) [] = refl
pick-minus false (x ∷ u) (y ∷ v) = ap (λ t. (x -ℤ y) ∷ t) (pick-minus true u v)
pick-minus true (x ∷ u) (y ∷ v) = pick-minus false u v

length-le-pick : (p : Bool) (m : ℕ) (a : List ℤ) → m + m ≤ length a → m ≤ length (pick p a)
unfolding pick
length-le-pick p zero a h = omega arith
length-le-pick p (suc m) [] h = absurd (omega arith)
length-le-pick p (suc m) (x ∷ []) h = absurd (omega arith)
length-le-pick false (suc m) (x ∷ y ∷ a) h =
    let rest = length-le-pick false m a (omega arith) in omega (arith, rest)
length-le-pick true (suc m) (x ∷ y ∷ a) h =
    let rest = length-le-pick true m a (omega arith) in omega (arith, rest)

-- Products of values, by parity: with X ^ 2 = g, (x + y X) (u + v X) is x u + g y v + (x v + y u) X.
abbrev pub even_part : ℤ → ℤ → ℤ → ℤ → ℤ → ℤ
even_part g x y u v = x *ℤ u +ℤ g *ℤ (y *ℤ v)

abbrev pub odd_part : ℤ → ℤ → ℤ → ℤ → ℤ
odd_part x y u v = x *ℤ v +ℤ y *ℤ u

abbrev pub part : Bool → ℤ → ℤ → ℤ → ℤ → ℤ → ℤ
part false g x y u v = even_part g x y u v
part true g x y u v = odd_part x y u v

-- Products by a factor commute with the sums above.
grow_even :
    (r c x y u v : ℤ) → c *ℤ u +ℤ r *ℤ (x *ℤ v +ℤ y *ℤ u) ≡ (c +ℤ r *ℤ y) *ℤ u +ℤ r *ℤ (x *ℤ v)
grow_even r c x y u v =
    ap (λ t. c *ℤ u +ℤ t) (*ℤ-+ℤ r (x *ℤ v) (y *ℤ u) ∙ +ℤ_comm (r *ℤ (x *ℤ v)) (r *ℤ (y *ℤ u)))
    ∙ sym (+ℤ_assoc (c *ℤ u) (r *ℤ (y *ℤ u)) (r *ℤ (x *ℤ v)))
    ∙ ap (λ t. t +ℤ r *ℤ (x *ℤ v))
        (ap₂ ◌+ℤ◌ (*ℤ_comm c u) (ap (λ t. r *ℤ t) (*ℤ_comm y u) ∙ *ℤ_swap r u y)
          ∙ sym (*ℤ-+ℤ u c (r *ℤ y))
          ∙ *ℤ_comm u (c +ℤ r *ℤ y))

grow_odd : (r c x y u v : ℤ) → c *ℤ v +ℤ (x *ℤ u +ℤ r *ℤ (y *ℤ v)) ≡ (c +ℤ r *ℤ y) *ℤ v +ℤ x *ℤ u
grow_odd r c x y u v =
    ap (λ t. c *ℤ v +ℤ t) (+ℤ_comm (x *ℤ u) (r *ℤ (y *ℤ v)))
    ∙ sym (+ℤ_assoc (c *ℤ v) (r *ℤ (y *ℤ v)) (x *ℤ u))
    ∙ ap (λ t. t +ℤ x *ℤ u)
        (ap₂ ◌+ℤ◌ (*ℤ_comm c v) (ap (λ t. r *ℤ t) (*ℤ_comm y v) ∙ *ℤ_swap r v y)
          ∙ sym (*ℤ-+ℤ v c (r *ℤ y))
          ∙ *ℤ_comm v (c +ℤ r *ℤ y))

zero-*ℤ : (a : ℤ) → pos 0 *ℤ a ≡ pos 0
zero-*ℤ a = *ℤ_comm (pos 0) a ∙ *ℤ_zero a

eval-pick-times :
    (p : Bool) (r : ℤ) (a b : List ℤ)
    → eval r (pick p (times a b))
      ≡ part p r
          (eval r (pick false a))
          (eval r (pick true a))
          (eval r (pick false b))
          (eval r (pick true b))
unfolding times pick eval
eval-pick-times false r [] b =
    let v = eval r (pick true b) in
    sym (
      ap₂ ◌+ℤ◌ (zero-*ℤ (eval r (pick false b))) (ap (λ t. r *ℤ t) (zero-*ℤ v) ∙ *ℤ_zero r)
      ∙ zero-+ℤ (pos 0))
eval-pick-times true r [] b =
    sym (
      ap₂ ◌+ℤ◌ (zero-*ℤ (eval r (pick true b))) (zero-*ℤ (eval r (pick false b))) ∙ zero-+ℤ (pos 0))
eval-pick-times false r (c ∷ a) b =
    let x = eval r (pick false a) in
    let y = eval r (pick true a) in
    let u = eval r (pick false b) in
    let v = eval r (pick true b) in
    ap (eval r) (pick-plus false (map (λ t. c *ℤ t) b) (pos 0 ∷ times a b))
    ∙ eval-plus r (pick false (map (λ t. c *ℤ t) b)) (pos 0 ∷ pick true (times a b))
    ∙ ap₂ ◌+ℤ◌ (ap (eval r) (pick-map false (λ t. c *ℤ t) b) ∙ eval-multiple r c (pick false b)) (
        zero-+ℤ (r *ℤ eval r (pick true (times a b)))
        ∙ ap (λ t. r *ℤ t) (eval-pick-times true r a b))
    ∙ grow_even r c x y u v
eval-pick-times true r (c ∷ a) b =
    let x = eval r (pick false a) in
    let y = eval r (pick true a) in
    let u = eval r (pick false b) in
    let v = eval r (pick true b) in
    ap (eval r) (pick-plus true (map (λ t. c *ℤ t) b) (pos 0 ∷ times a b))
    ∙ eval-plus r (pick true (map (λ t. c *ℤ t) b)) (pick false (times a b))
    ∙ ap₂ ◌+ℤ◌ (ap (eval r) (pick-map true (λ t. c *ℤ t) b) ∙ eval-multiple r c (pick true b))
        (eval-pick-times false r a b)
    ∙ grow_odd r c x y u v

-- The residue of such a part, from the residues of its arguments.
abbrev pub mix : ℕ → Bool → ℕ → ℕ → ℕ → ℕ → ℕ → ℕ
mix q p g x y u v = residue (part p (pos g) (pos x) (pos y) (pos u) (pos v)) q

-- Entry by entry, on lists of residues.
unfoldable pub mixed : ℕ → Bool → List ℕ → List ℕ → List ℕ → List ℕ → List ℕ → List ℕ
mixed q p (g ∷ gs) (x ∷ xs) (y ∷ ys) (u ∷ us) (v ∷ vs) =
    mix q p g x y u v ∷ mixed q p gs xs ys us vs
mixed q p gs xs ys us vs = []

module _ (q : ℕ) (q_pos : 0 < q) where
  pub residue-part :
      (p : Bool) (g x y u v : ℤ)
      → residue (part p g x y u v) q
        ≡ mix q p (residue g q) (residue x q) (residue y q) (residue u q) (residue v q)
  residue-part false g x y u v =
      let c = residue-Congruent q q_pos in
      Congruent-add q q_pos _ _ _ _ (Congruent-mul q q_pos _ _ _ _ (c x) (c u))
        (Congruent-mul q q_pos _ _ _ _ (c g) (Congruent-mul q q_pos _ _ _ _ (c y) (c v)))
  residue-part true g x y u v =
      let c = residue-Congruent q q_pos in
      Congruent-add q q_pos _ _ _ _ (Congruent-mul q q_pos _ _ _ _ (c x) (c v))
        (Congruent-mul q q_pos _ _ _ _ (c y) (c u))

  value-pick :
      (p : Bool) (m : ℕ) (r : ℤ) (a b : List ℤ)
      → 0 < m
      → length a ≡ m + m
      → length b ≡ m + m
      → Congruent q (power r m *ℤ pos 1) (pos 0 -ℤ pos 1)
      → Congruent q (eval r (pick p (negacyclic (m + m) a b))) (
          part p r
            (eval r (pick false a))
            (eval r (pick true a))
            (eval r (pick false b))
            (eval r (pick true b)))
  unfolding negacyclic
  value-pick p m r a b h e e' hr =
      let c = times a b in
      let long = length-le-times a b (omega arith) in
      ap (λ t. residue (eval r t) q)
        (pick-minus p (take (m + m) c) (drop (m + m) c)
          ∙ ap₂ minus (pick-take p m c) (pick-drop p m c))
      ∙ eval-folded q m q_pos h r (pick p c) (length-le-pick p m c (omega arith)) hr
      ∙ ap (λ t. residue t q) (eval-pick-times p r a b)

  -- The values of a product modulo X ^ (2 m) + 1.
  pub values-pick-negacyclic :
      (p : Bool) (m : ℕ) (rs a b : List ℤ)
      → 0 < m
      → length a ≡ m + m
      → length b ≡ m + m
      → All (λ r. Congruent q (power r m *ℤ pos 1) (pos 0 -ℤ pos 1)) rs
      → values q rs (pick p (negacyclic (m + m) a b))
        ≡ mixed q p
            (map (λ r. residue r q) rs)
            (values q rs (pick false a))
            (values q rs (pick true a))
            (values q rs (pick false b))
            (values q rs (pick true b))
  unfolding mixed
  values-pick-negacyclic p m [] a b h e e' hr = refl
  values-pick-negacyclic p m (r ∷ rs) a b h e e' hr =
      ap₂ ◌∷◌
        (value-pick p m r a b h e e' hr.0
          ∙ residue-part p r (eval r (pick false a)) (eval r (pick true a)) (eval r (pick false b))
              (eval r (pick true b)))
        (values-pick-negacyclic p m rs a b h e e' hr.1)
