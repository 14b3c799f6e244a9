-- ===== src/Transform/Unique.antt =====
-- A polynomial is determined, modulo q, by its values: each round of the exact transform can be undone.
use karudeb.Base.{ℕ, ◌+◌, ◌*◌, ◌≤◌, ◌<◌, ◌≡◌, refl, sym, ap, ap₂, ◌∙◌, arith}
use karudeb.Base.{ℤ, pos, ◌+ℤ◌, ◌-ℤ◌, ◌*ℤ◌, +ℤ_parts, -ℤ_parts, *ℤ_parts, eq_of_parts}
use karudeb.Base.{
  residue, Congruent, Congruent-add, Congruent-sub, Congruent-mul, *ℤ_comm, *ℤ_assoc,
}
use karudeb.Base.{List, [], ◌∷◌, ◌++◌, map, length, take, drop, zip_with, All}
use karudeb.Base.{take-append-drop, length-map}
use mathlib.Core.List.{map-append}
use karudeb.Transform.Evaluate.{one-*ℤ, minus_form, *ℤ_swap}
use karudeb.Transform.Layers.{
  layer, points, Blocks, Splits, halves, length-zip_with, length-layer, Blocks-of_length,
}
use karudeb.Transform.Forward.{forward-points}

-- The exact butterflies.
exact_low : (ℤ → ℤ) → ℤ → ℤ → ℤ → ℤ
exact_low w z x y = pos 1 *ℤ x +ℤ w z *ℤ y

exact_high : (ℤ → ℤ) → ℤ → ℤ → ℤ → ℤ
exact_high w z x y = pos 1 *ℤ x +ℤ (pos 0 -ℤ w z) *ℤ y

abbrev pub residues : ℕ → List ℤ → List ℕ
residues q = map (λ c. residue c q)

all_unit : (a : List ℤ) → All (λ (_ : ℤ). Unit {0}) a
all_unit [] = tt
all_unit (x ∷ a) = (tt, all_unit a)

-- A number times which the plain factor is 1.
abbrev pub Invertible : ℕ → (ℤ → ℤ) → ℤ → Type 0
Invertible q w z = (v : ℤ) × Congruent q (w z *ℤ v) (pos 1)

-- Lists of n coefficients that have the same values in `count` blocks of `size` are the same modulo q.
abbrev pub Determined : ℕ → ℕ → ℕ → ℕ → List ℤ → Type 0
Determined q n count size rs =
    (a b : List ℤ)
    → length a ≡ n
    → length b ≡ n
    → points q count size rs a ≡ points q count size rs b
    → residues q a ≡ residues q b

append_inj : (u v s t : List ℕ) → length u ≡ length v → u ++ s ≡ v ++ t → (u ≡ v) × (s ≡ t)
append_inj [] [] s t e h = (refl, h)
append_inj [] (y ∷ v) s t e h = absurd (omega arith)
append_inj (x ∷ u) [] s t e h = absurd (omega arith)
append_inj (x ∷ u) (y ∷ v) s t e h =
    let rest = append_inj u v s t (omega arith) (cc) in (cc (rest.0), rest.1)

module _ (q : ℕ) (q_pos : 0 < q) (half : ℤ) (two_half : Congruent q (pos 2 *ℤ half) (pos 1)) where
  -- A factor with an inverse is cancelled.
  cancel :
      (c d x y : ℤ) → Congruent q (c *ℤ d) (pos 1) → Congruent q (c *ℤ x) (c *ℤ y) → Congruent q x y
  cancel c d x y h e = sym (undo x) ∙ Congruent-mul q q_pos d d _ _ refl e ∙ undo y
    where
      undo : (v : ℤ) → Congruent q (d *ℤ (c *ℤ v)) v
      undo v =
          ap (λ t. residue t q) (sym (*ℤ_assoc d c v) ∙ ap (λ t. t *ℤ v) (*ℤ_comm d c))
          ∙ Congruent-mul q q_pos _ _ v v h refl
          ∙ ap (λ t. residue t q) (one-*ℤ v)

  sum_of : (w x y : ℤ) → pos 1 *ℤ x +ℤ w *ℤ y +ℤ (pos 1 *ℤ x +ℤ (pos 0 -ℤ w) *ℤ y) ≡ pos 2 *ℤ x
  sum_of w x y =
      ap₂ ◌+ℤ◌ (ap (λ t. t +ℤ w *ℤ y) (one-*ℤ x)) (sym (minus_form x w y))
      ∙ eq_of_parts _ _ (
          omega (
            arith,
            +ℤ_parts (x +ℤ w *ℤ y) (x -ℤ w *ℤ y),
            +ℤ_parts x (w *ℤ y),
            -ℤ_parts x (w *ℤ y),
            *ℤ_parts (pos 2) x,
          ))

  difference_of :
      (w x y : ℤ) → pos 1 *ℤ x +ℤ w *ℤ y -ℤ (pos 1 *ℤ x +ℤ (pos 0 -ℤ w) *ℤ y) ≡ w *ℤ (pos 2 *ℤ y)
  difference_of w x y =
      ap₂ ◌-ℤ◌ (ap (λ t. t +ℤ w *ℤ y) (one-*ℤ x)) (sym (minus_form x w y))
      ∙ eq_of_parts _ (pos 2 *ℤ (w *ℤ y)) (
          omega (
            arith,
            -ℤ_parts (x +ℤ w *ℤ y) (x -ℤ w *ℤ y),
            +ℤ_parts x (w *ℤ y),
            -ℤ_parts x (w *ℤ y),
            *ℤ_parts (pos 2) (w *ℤ y),
          ))
      ∙ *ℤ_swap (pos 2) w y

  module _ (w : ℤ → ℤ) (len : ℕ) where
    butterfly_inj :
        (z x y x' y' : ℤ)
        → Invertible q w z
        → Congruent q (exact_low w z x y) (exact_low w z x' y')
        → Congruent q (exact_high w z x y) (exact_high w z x' y')
        → Congruent q x x' × Congruent q y y'
    unfolding exact_low exact_high
    butterfly_inj z x y x' y' (v, hv) low high =
        let twice : Congruent q (pos 2 *ℤ x) (pos 2 *ℤ x') =
          ap (λ t. residue t q) (sym (sum_of (w z) x y))
          ∙ Congruent-add q q_pos _ _ _ _ low high
          ∙ ap (λ t. residue t q) (sum_of (w z) x' y') in
        let scaled_twice : Congruent q (w z *ℤ (pos 2 *ℤ y)) (w z *ℤ (pos 2 *ℤ y')) =
          ap (λ t. residue t q) (sym (difference_of (w z) x y))
          ∙ Congruent-sub q q_pos _ _ _ _ low high
          ∙ ap (λ t. residue t q) (difference_of (w z) x' y') in
        (
          cancel (pos 2) half x x' two_half twice,
          cancel (pos 2) half y y' two_half
              (cancel (w z) v (pos 2 *ℤ y) (pos 2 *ℤ y') hv scaled_twice),
        )

    halves_inj :
        (z : ℤ) (lo hi lo' hi' : List ℤ)
        → Invertible q w z
        → (length hi ≡ length lo) × (length lo' ≡ length lo) × (length hi' ≡ length lo)
        → residues q (zip_with (exact_low w z) lo hi)
          ≡ residues q (zip_with (exact_low w z) lo' hi')
        → residues q (zip_with (exact_high w z) lo hi)
          ≡ residues q (zip_with (exact_high w z) lo' hi')
        → (residues q lo ≡ residues q lo') × (residues q hi ≡ residues q hi')
    halves_inj z [] [] [] [] hv e low high = (refl, refl)
    halves_inj z [] (_ ∷ _) lo' hi' hv e low high = absurd (omega arith)
    halves_inj z [] [] (_ ∷ _) hi' hv e low high = absurd (omega arith)
    halves_inj z [] [] [] (_ ∷ _) hv e low high = absurd (omega arith)
    halves_inj z (_ ∷ _) [] lo' hi' hv e low high = absurd (omega arith)
    halves_inj z (_ ∷ _) (_ ∷ _) [] hi' hv e low high = absurd (omega arith)
    halves_inj z (_ ∷ _) (_ ∷ _) (_ ∷ _) [] hv e low high = absurd (omega arith)
    halves_inj z (x ∷ lo) (y ∷ hi) (x' ∷ lo') (y' ∷ hi') hv e low high =
        let here = butterfly_inj z x y x' y' hv (cc) (cc) in
        let rest =
          halves_inj z lo hi lo' hi' hv (omega arith, omega arith, omega arith) (cc) (cc) in
        (ap₂ ◌∷◌ here.0 rest.0, ap₂ ◌∷◌ here.1 rest.1)

    residues-layer :
        (z : ℤ) (zs a : List ℤ)
        → (let lo = take len a in
            let hi = take len (drop len a) in
            let rest = layer (exact_low w) (exact_high w) zs len (drop len (drop len a)) in
            residues q (layer (exact_low w) (exact_high w) (z ∷ zs) len a)
            ≡ residues q (zip_with (exact_low w z) lo hi)
              ++ (residues q (zip_with (exact_high w z) lo hi) ++ residues q rest))
    unfolding layer
    residues-layer z zs a =
        let lo = take len a in
        let hi = take len (drop len a) in
        let res : ℤ → ℕ = λ c. residue c q in
        let low = zip_with (exact_low w z) lo hi in
        let high = zip_with (exact_high w z) lo hi in
        map-append res low
          (high ++ layer (exact_low w) (exact_high w) zs len (drop len (drop len a)))
        ∙ ap (λ t. residues q low ++ t) (map-append res high _)

    -- The three parts of an array.
    residues_parts :
        (a : List ℤ)
        → residues q a
          ≡ residues q (take len a)
            ++ (residues q (take len (drop len a)) ++ residues q (drop len (drop len a)))
    residues_parts a =
        let res : ℤ → ℕ = λ c. residue c q in
        ap (residues q) (
          sym (take-append-drop len a)
          ∙ ap (λ t. take len a ++ t) (sym (take-append-drop len (drop len a))))
        ∙ map-append res (take len a) _
        ∙ ap (λ t. residues q (take len a) ++ t) (map-append res (take len (drop len a)) _)

    layer_inj :
        (zs a b : List ℤ)
        → All (Invertible q w) zs
        → Blocks len zs a
        → Blocks len zs b
        → residues q (layer (exact_low w) (exact_high w) zs len a)
          ≡ residues q (layer (exact_low w) (exact_high w) zs len b)
        → residues q a ≡ residues q b
    layer_inj [] a b hv ha hb h = unfold layer in h
    layer_inj (z ∷ zs) a b hv ha hb h =
        let size : (f : ℤ → ℤ → ℤ) (c : List ℤ)
            → len + len ≤ length c
            → length (residues q (zip_with f (take len c) (take len (drop len c)))) ≡ len =
          λ f c hc.
            let (e, e') = halves len c hc in
            length-map (zip_with f (take len c) (take len (drop len c))) (λ t. residue t q)
            ∙ length-zip_with f (take len c) (take len (drop len c)) (e ∙ sym e')
            ∙ e in
        let (ea, ea') = halves len a ha.0 in
        let (eb, eb') = halves len b hb.0 in
        let (low, rest) =
          append_inj _ _ _ _ (size (exact_low w z) a ha.0 ∙ sym (size (exact_low w z) b hb.0))
            (sym (residues-layer z zs a) ∙ h ∙ residues-layer z zs b) in
        let (high, rest') =
          append_inj _ _ _ _ (size (exact_high w z) a ha.0 ∙ sym (size (exact_high w z) b hb.0))
            rest in
        let (lo, hi) =
          halves_inj z (take len a) (take len (drop len a)) (take len b) (take len (drop len b))
            hv.0 (ea' ∙ sym ea, eb ∙ sym ea, eb' ∙ sym ea) low high in
        let others =
          layer_inj zs (drop len (drop len a)) (drop len (drop len b)) hv.1 ha.1 hb.1 rest' in
        residues_parts a ∙ ap₂ ◌++◌ lo (ap₂ ◌++◌ hi others) ∙ sym (residues_parts b)

    pub unique_round :
        (n : ℕ) (zs rs : List ℤ)
        → length zs * (len + len) ≡ n
        → Splits q (λ _. pos 1) w len zs rs
        → All (Invertible q w) zs
        → Determined q n (length zs + length zs) len rs
        → Determined q n (length zs) (len + len) rs
    unique_round n zs rs size split hv below a b ha hb same =
        let blocks : (c : List ℤ) → length c ≡ n → Blocks len zs c =
          λ c hc. Blocks-of_length len zs c (hc ∙ sym size) in
        let any : (c : List ℤ) → All (λ (_ : ℤ). Unit {0}) c = all_unit in
        let kept : (c : List ℤ)
            → length c ≡ n
            → points q (length zs) (len + len) rs c
              ≡ points q (length zs + length zs) len rs
                  (layer (exact_low w) (exact_high w) zs len c) =
          λ c hc.
            forward-points q q_pos (λ _. Unit {0}) (λ _. Unit {0}) w (exact_low w) (exact_high w)
              (λ z x y hz hx hy. unfold exact_low in refl)
              (λ z x y hz hx hy. unfold exact_high in refl) len zs rs c (blocks c hc) split (any zs)
              (any c) in
        let long : (c : List ℤ)
            → length c ≡ n
            → length (layer (exact_low w) (exact_high w) zs len c) ≡ n =
          λ c hc. length-layer (exact_low w) (exact_high w) len zs c (blocks c hc) ∙ hc in
        layer_inj zs a b hv (blocks a ha) (blocks b hb)
          (below _ _ (long a ha) (long b hb) (sym (kept a ha) ∙ same ∙ kept b hb))
