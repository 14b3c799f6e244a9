-- ===== src/Transform/Layers.antt =====
-- One round of the loop over len: blocks of 2 len coefficients, each with a factor of its own.
use karudeb.Base.{ℕ, zero, suc, ◌+◌, ◌*◌, ◌≤◌, ◌≡◌, refl, sym, ap, ◌∙◌, arith}
use karudeb.Base.{ℤ, pos, ◌-ℤ◌, ◌*ℤ◌, residue, Congruent}
use karudeb.Base.{List, [], ◌∷◌, ◌++◌, map, length, take, drop, zip_with, All}
use karudeb.Base.{length-append, length-take, length-drop}
use karudeb.Base.{All-append, All-take, All-drop}
use karudeb.Transform.Evaluate.{eval, power}

-- f and g give the two halves of a block, z by z.
unfoldable pub layer : (ℤ → ℤ → ℤ → ℤ) → (ℤ → ℤ → ℤ → ℤ) → List ℤ → ℕ → List ℤ → List ℤ
layer f g [] len a = a
layer f g (z ∷ zs) len a =
    let lo = take len a in
    let hi = take len (drop len a) in
    zip_with (f z) lo hi ++ (zip_with (g z) lo hi ++ layer f g zs len (drop len (drop len a)))

-- The values of one polynomial at points, modulo q.
abbrev pub values : ℕ → List ℤ → List ℤ → List ℕ
values q rs a = map (λ r. residue (eval r a) q) rs

-- The values of `left` blocks of len coefficients, each at len points of its own.
unfoldable pub points : ℕ → ℕ → ℕ → List ℤ → List ℤ → List ℕ
points q zero len rs a = []
points q (suc left) len rs a =
    values q (take len rs) (take len a) ++ points q left len (drop len rs) (drop len a)

-- An array of a block for each factor.
abbrev pub Blocks : ℕ → List ℤ → List ℤ → Type 0
Blocks len [] a = length a ≡ 0
Blocks len (z ∷ zs) a = (len + len ≤ length a) × Blocks len zs (drop len (drop len a))

-- For each block there are len points r where r ^ len times s z is w z, and len points where it is the
-- opposite.
abbrev pub Splits : ℕ → (ℤ → ℤ) → (ℤ → ℤ) → ℕ → List ℤ → List ℤ → Type 0
Splits q s w len [] rs = Unit
Splits q s w len (z ∷ zs) rs =
    All (λ r. Congruent q (power r len *ℤ s z) (w z)) (take len rs)
    × All (λ r. Congruent q (power r len *ℤ s z) (pos 0 -ℤ w z)) (take len (drop len rs))
    × Splits q s w len zs (drop len (drop len rs))

pub Blocks-of_length :
    (len : ℕ) (zs a : List ℤ) → length a ≡ length zs * (len + len) → Blocks len zs a
Blocks-of_length len [] a h = omega (arith, h)
Blocks-of_length len (z ∷ zs) a h =
    let e : length a ≡ length zs * (len + len) + (len + len) = omega (arith, h) in
    (
      omega (arith, e),
      Blocks-of_length len zs (drop len (drop len a))
          (omega (arith, e, length-drop len (drop len a), length-drop len a)),
    )

pub length-zip_with :
    (f : ℤ → ℤ → ℤ) (lo hi : List ℤ) → length lo ≡ length hi → length (zip_with f lo hi) ≡ length lo
length-zip_with f [] hi e = refl
length-zip_with f (x ∷ lo) [] e = absurd (omega arith)
length-zip_with f (x ∷ lo) (y ∷ hi) e = ap suc (length-zip_with f lo hi (omega arith))

pub All-zip_with :
    (P P' : ℤ → Type 0) (f : ℤ → ℤ → ℤ) (lo hi : List ℤ)
    → ((x y : ℤ) → P x → P y → P' (f x y))
    → All P lo
    → All P hi
    → All P' (zip_with f lo hi)
All-zip_with P P' f [] hi ok hl hh = tt
All-zip_with P P' f (x ∷ lo) [] ok hl hh = tt
All-zip_with P P' f (x ∷ lo) (y ∷ hi) ok hl hh =
    (ok x y hl.0 hh.0, All-zip_with P P' f lo hi ok hl.1 hh.1)

-- The halves of the first block.
pub halves :
    (len : ℕ) (a : List ℤ)
    → len + len ≤ length a
    → (length (take len a) ≡ len) × (length (take len (drop len a)) ≡ len)
halves len a h = (
  length-take len a (omega arith),
  length-take len (drop len a) (omega (arith, length-drop len a)),
)

pub length-layer :
    (f g : ℤ → ℤ → ℤ → ℤ) (len : ℕ) (zs a : List ℤ)
    → Blocks len zs a
    → length (layer f g zs len a) ≡ length a
unfolding layer
length-layer f g len [] a h = refl
length-layer f g len (z ∷ zs) a h =
    let (e, e') = halves len a h.0 in
    let lo = zip_with (f z) (take len a) (take len (drop len a)) in
    let hi = zip_with (g z) (take len a) (take len (drop len a)) in
    let rest = layer f g zs len (drop len (drop len a)) in
    omega (
      arith,
      length-append lo (hi ++ rest),
      length-append hi rest,
      length-zip_with (f z) (take len a) (take len (drop len a)) (e ∙ sym e'),
      length-zip_with (g z) (take len a) (take len (drop len a)) (e ∙ sym e'),
      length-layer f g len zs (drop len (drop len a)) h.1,
      length-drop len (drop len a),
      length-drop len a,
      e,
      h.0,
    )

pub All-layer :
    (P P' Z : ℤ → Type 0) (f g : ℤ → ℤ → ℤ → ℤ) (len : ℕ) (zs a : List ℤ)
    → ((z x y : ℤ) → Z z → P x → P y → P' (f z x y) × P' (g z x y))
    → Blocks len zs a
    → All Z zs
    → All P a
    → All P' (layer f g zs len a)
unfolding layer
All-layer P P' Z f g len [] [] ok h hz ha = tt
All-layer P P' Z f g len [] (x ∷ a) ok h hz ha = absurd (omega arith)
All-layer P P' Z f g len (z ∷ zs) a ok h hz ha =
    let lo = take len a in
    let hi = take len (drop len a) in
    let hd = All-drop P len a ha in
    let hl = All-take P len a ha in
    let hh = All-take P len (drop len a) hd in
    All-append P' (zip_with (f z) lo hi) _
      (All-zip_with P P' (f z) lo hi (λ x y hx hy. (ok z x y hz.0 hx hy).0) hl hh)
      (All-append P' (zip_with (g z) lo hi) _
        (All-zip_with P P' (g z) lo hi (λ x y hx hy. (ok z x y hz.0 hx hy).1) hl hh)
        (All-layer P P' Z f g len zs (drop len (drop len a)) ok h.1 hz.1
          (All-drop P len (drop len a) hd)))

pub take_sum : (m n : ℕ) (a : List ℤ) → take (m + n) a ≡ take m a ++ take n (drop m a)
take_sum zero n a = let e : 0 + n ≡ n = omega arith in ap (λ (t : ℕ). take t a) e
take_sum (suc m) n [] =
    let e : suc m + n ≡ suc (m + n) = omega arith in
    ap (λ (t : ℕ). take {A = ℤ} t []) e ∙ sym (take_nothing n)
  where
    take_nothing : (k : ℕ) → take {A = ℤ} k [] ≡ []
    take_nothing zero = refl
    take_nothing (suc k) = refl
take_sum (suc m) n (x ∷ a) =
    let e : suc m + n ≡ suc (m + n) = omega arith in
    ap (λ (t : ℕ). take t (x ∷ a)) e ∙ ap (λ t. x ∷ t) (take_sum m n a)

pub drop_sum : (m n : ℕ) (a : List ℤ) → drop (m + n) a ≡ drop n (drop m a)
drop_sum zero n a = let e : 0 + n ≡ n = omega arith in ap (λ (t : ℕ). drop t a) e
drop_sum (suc m) n [] =
    let e : suc m + n ≡ suc (m + n) = omega arith in
    ap (λ (t : ℕ). drop {A = ℤ} t []) e ∙ sym (drop_nothing n)
  where
    drop_nothing : (k : ℕ) → drop {A = ℤ} k [] ≡ []
    drop_nothing zero = refl
    drop_nothing (suc k) = refl
drop_sum (suc m) n (x ∷ a) =
    let e : suc m + n ≡ suc (m + n) = omega arith in
    ap (λ (t : ℕ). drop t (x ∷ a)) e ∙ drop_sum m n a

pub All-map :
    (P P' : ℤ → Type 0) (f : ℤ → ℤ) (a : List ℤ)
    → ((x : ℤ) → P x → P' (f x))
    → All P a
    → All P' (map f a)
All-map P P' f [] ok h = tt
All-map P P' f (x ∷ a) ok h = (ok x h.0, All-map P P' f a ok h.1)
