-- ===== src/Transform/Parity.antt =====
-- The coefficients of even and of odd degree, which a transform that stops at blocks of two treats alike.
pub mod Product
use karudeb.Base.{
  ℕ, zero, suc, ◌+◌, ◌*◌, ◌≤◌, ◌<◌, ◌≡◌, refl, sym, ap, ap₂, ◌∙◌, arith, Bool, true, false, not,
}
use karudeb.Base.{ℤ, pos, ◌+ℤ◌, ◌-ℤ◌, ◌*ℤ◌, +ℤ_parts, eq_of_parts, *ℤ-+ℤ, *ℤ_comm}
use karudeb.Base.{List, [], ◌∷◌, ◌++◌, map, length, take, drop, zip_with, All, All-take, All-drop}
use karudeb.Base.{◌-◌, length-take, length-drop}
use karudeb.Transform.Evaluate.{eval, zero-+ℤ, *ℤ_zero, *ℤ_swap, +ℤ_interchange}
use karudeb.Transform.Layers.{layer, Blocks, halves, length-zip_with}
use karudeb.Transform.Forward.{double_suc}
use karudeb.Transform.Product.{plus, minus, times, eval-plus, eval-multiple}

-- The coefficients of even degree, or of odd degree for `true`.
unfoldable pub pick {ℓ} : {A : Type ℓ} → Bool → List A → List A
pick b [] = []
pick false (x ∷ a) = x ∷ pick true a
pick true (x ∷ a) = pick false a

pub pick-map {ℓ κ} :
    {A : Type ℓ} {B : Type κ} (p : Bool) (f : A → B) (a : List A)
    → pick p (map f a) ≡ map f (pick p a)
unfolding pick
pick-map p f [] = refl
pick-map false f (x ∷ a) = ap (λ t. f x ∷ t) (pick-map true f a)
pick-map true f (x ∷ a) = pick-map false f a

pub pick-zip_with :
    (p : Bool) (f : ℤ → ℤ → ℤ) (a b : List ℤ)
    → pick p (zip_with f a b) ≡ zip_with f (pick p a) (pick p b)
unfolding pick
pick-zip_with p f [] b = refl
pick-zip_with false f (x ∷ a) [] = refl
pick-zip_with true f (x ∷ []) [] = refl
pick-zip_with true f (x ∷ y ∷ a) [] = refl
pick-zip_with false f (x ∷ a) (y ∷ b) = ap (λ t. f x y ∷ t) (pick-zip_with true f a b)
pick-zip_with true f (x ∷ a) (y ∷ b) = pick-zip_with false f a b

pub pick-take : (p : Bool) (m : ℕ) (a : List ℤ) → pick p (take (m + m) a) ≡ take m (pick p a)
unfolding pick
pick-take p zero a = refl
pick-take false (suc m) [] = ap (λ (t : ℕ). pick false (take {A = ℤ} t [])) (double_suc m)
pick-take true (suc m) [] = ap (λ (t : ℕ). pick true (take {A = ℤ} t [])) (double_suc m)
pick-take false (suc m) (x ∷ []) =
    ap (λ (t : ℕ). pick false (take t (x ∷ []))) (double_suc m) ∙ ap (λ t. x ∷ t) (nothing m)
  where
    nothing : (k : ℕ) → [] ≡ take {A = ℤ} k []
    nothing zero = refl
    nothing (suc k) = refl
pick-take true (suc m) (x ∷ []) = ap (λ (t : ℕ). pick true (take t (x ∷ []))) (double_suc m)
pick-take false (suc m) (x ∷ y ∷ a) =
    ap (λ (t : ℕ). pick false (take t (x ∷ y ∷ a))) (double_suc m)
    ∙ ap (λ t. x ∷ t) (pick-take false m a)
pick-take true (suc m) (x ∷ y ∷ a) =
    ap (λ (t : ℕ). pick true (take t (x ∷ y ∷ a))) (double_suc m)
    ∙ ap (λ t. y ∷ t) (pick-take true m a)

pub pick-drop : (p : Bool) (m : ℕ) (a : List ℤ) → pick p (drop (m + m) a) ≡ drop m (pick p a)
unfolding pick
pick-drop p zero a = refl
pick-drop p (suc m) [] = ap (λ (t : ℕ). pick p (drop {A = ℤ} t [])) (double_suc m)
pick-drop false (suc m) (x ∷ []) =
    ap (λ (t : ℕ). pick false (drop t (x ∷ []))) (double_suc m) ∙ nothing m
  where
    nothing : (k : ℕ) → [] ≡ drop {A = ℤ} k []
    nothing zero = refl
    nothing (suc k) = refl
pick-drop true (suc m) (x ∷ []) = ap (λ (t : ℕ). pick true (drop t (x ∷ []))) (double_suc m)
pick-drop false (suc m) (x ∷ y ∷ a) =
    ap (λ (t : ℕ). pick false (drop t (x ∷ y ∷ a))) (double_suc m) ∙ pick-drop false m a
pick-drop true (suc m) (x ∷ y ∷ a) =
    ap (λ (t : ℕ). pick true (drop t (x ∷ y ∷ a))) (double_suc m) ∙ pick-drop true m a

pub pick-append :
    (p : Bool) (m : ℕ) (a b : List ℤ) → length a ≡ m + m → pick p (a ++ b) ≡ pick p a ++ pick p b
unfolding pick
pick-append p m [] b e = refl
pick-append p m (x ∷ []) b e = absurd (omega arith)
pick-append false m (x ∷ y ∷ a) b e = ap (λ t. x ∷ t) (pick-append false (m - 1) a b (omega arith))
pick-append true m (x ∷ y ∷ a) b e = ap (λ t. y ∷ t) (pick-append true (m - 1) a b (omega arith))

pub length-pick : (p : Bool) (m : ℕ) (a : List ℤ) → length a ≡ m + m → length (pick p a) ≡ m
unfolding pick
length-pick false m [] e = omega arith
length-pick true m [] e = omega arith
length-pick p m (x ∷ []) e = absurd (omega arith)
length-pick false m (x ∷ y ∷ a) e =
    let rest = length-pick false (m - 1) a (omega arith) in omega (arith, rest)
length-pick true m (x ∷ y ∷ a) e =
    let rest = length-pick true (m - 1) a (omega arith) in omega (arith, rest)

pub All-pick : (P : ℤ → Type 0) (p : Bool) (a : List ℤ) → All P a → All P (pick p a)
unfolding pick
All-pick P p [] h = tt
All-pick P false (x ∷ a) h = (h.0, All-pick P true a h.1)
All-pick P true (x ∷ a) h = All-pick P false a h.1

-- The two halves of the coefficients determine the list.
pub pick_inj : (u v : List ℕ) → pick false u ≡ pick false v → pick true u ≡ pick true v → u ≡ v
unfolding pick
pick_inj [] [] h k = refl
pick_inj [] (y ∷ v) h k = cc
pick_inj (x ∷ u) [] h k = cc
pick_inj (x ∷ u) (y ∷ v) h k =
    let rest : pick true u ≡ pick true v = cc in
    let first : x ≡ y = cc in ap₂ ◌∷◌ first (pick_inj u v k rest)

-- A round on blocks of even length is the same round on the coefficients of either parity.
pub pick-layer :
    (p : Bool) (f g : ℤ → ℤ → ℤ → ℤ) (m : ℕ) (zs a : List ℤ)
    → Blocks (m + m) zs a
    → pick p (layer f g zs (m + m) a) ≡ layer f g zs m (pick p a)
unfolding layer
pick-layer p f g m [] a h = refl
pick-layer p f g m (z ∷ zs) a h =
    let lo = take (m + m) a in
    let hi = take (m + m) (drop (m + m) a) in
    let a' = drop (m + m) (drop (m + m) a) in
    let (e, e') = halves (m + m) a h.0 in
    let low = zip_with (f z) lo hi in
    let high = zip_with (g z) lo hi in
    let lo_pick : pick p lo ≡ take m (pick p a) = pick-take p m a in
    let hi_pick : pick p hi ≡ take m (drop m (pick p a)) =
      pick-take p m (drop (m + m) a) ∙ ap (take m) (pick-drop p m a) in
    let rest_pick : pick p a' ≡ drop m (drop m (pick p a)) =
      pick-drop p m (drop (m + m) a) ∙ ap (drop m) (pick-drop p m a) in
    pick-append p m low (high ++ layer f g zs (m + m) a')
      (length-zip_with (f z) lo hi (e ∙ sym e') ∙ e)
    ∙ ap₂ ◌++◌ (pick-zip_with p (f z) lo hi ∙ ap₂ (zip_with (f z)) lo_pick hi_pick) (
        pick-append p m high (layer f g zs (m + m) a')
          (length-zip_with (g z) lo hi (e ∙ sym e') ∙ e)
        ∙ ap₂ ◌++◌ (pick-zip_with p (g z) lo hi ∙ ap₂ (zip_with (g z)) lo_pick hi_pick)
            (pick-layer p f g m zs a' h.1 ∙ ap (layer f g zs m) rest_pick))
