-- ===== src/MlDsa/Signature/Positions.antt =====
-- The hints of one polynomial as the list of the positions where it is not zero.
use karudeb.Base.{ℕ, zero, suc, ◌+◌, ◌-◌, ◌<◌, ◌≤◌, ◌≡◌, ◌⊎◌, inl, inr, refl, ap, ◌∙◌, sym, arith}
use karudeb.Base.{List, [], ◌∷◌, ◌++◌, length, get_or, replicate, All, length-append}
use karudeb.Base.{◌==◌, ltb, if◌then◌else◌, Bool-cases, false, Option, none, some}
use mathlib.Core.Path.{subst}
use karudeb.MlDsa.Params.{n}
use karudeb.MlDsa.Challenge.{store}
use karudeb.MlDsa.Signature.{decode_poly}

-- The positions of the coefficients that are not zero, the first being at j.
unfoldable pub ones : ℕ → List ℕ → List ℕ
ones j [] = []
ones j (c ∷ cs) = if c == 0 then ones (j + 1) cs else j ∷ ones (j + 1) cs

-- So many elements of an array.
unfoldable pub read : List ℕ → ℕ → ℕ → List ℕ
read sig k zero = []
read sig k (suc count) = get_or sig k 0 ∷ read sig (k + 1) count

-- The hints at the positions, none of which is below the floor or the position before it.
unfoldable pub place : ℕ → List ℕ → List ℕ → Option (List ℕ)
place floor [] p = some p
place floor (b ∷ bs) p = if ltb b floor then none else place (b + 1) bs (store p b 1)

-- What `decode_poly` compares the byte at j with.
abbrev pub IsFloor : List ℕ → ℕ → ℕ → ℕ → Type 0
IsFloor sig k j floor = ((k ≡ j) × (floor ≡ 0)) ⊎ ((k < j) × (floor ≡ get_or sig (j - 1) 0 + 1))

pub decode_poly-place :
    (sig : List ℕ) (k left j floor : ℕ) (p : List ℕ)
    → IsFloor sig k j floor
    → decode_poly sig k left j p ≡ place floor (read sig j left) p
unfolding decode_poly place read
decode_poly-place sig k zero j floor p h = refl
decode_poly-place sig k (suc left) j floor p h =
    let b = get_or sig j 0 in
    let next : get_or sig ((j + 1) - 1) 0 ≡ b =
      let same : (j + 1) - 1 ≡ j = omega arith in ap (λ (t : ℕ). get_or sig t 0) same in
    let rest : decode_poly sig k left (j + 1) (store p b 1)
        ≡ place (b + 1) (read sig (j + 1) left) (store p b 1) =
      decode_poly-place sig k left (j + 1) (b + 1) (store p b 1) (above h next) in
    ground (arith, rest, h)
  where
    above :
        IsFloor sig k j floor
        → get_or sig ((j + 1) - 1) 0 ≡ get_or sig j 0
        → IsFloor sig k (j + 1) (get_or sig j 0 + 1)
    above (inl (e, f)) g = inr (omega arith, omega (arith, g))
    above (inr (e, f)) g = inr (omega arith, omega (arith, g))

abbrev pub IsHint : List ℕ → Type 0
IsHint = All (λ c. c < 2)

store-append : (p q : List ℕ) (x v : ℕ) → store (p ++ (x ∷ q)) (length p) v ≡ p ++ (v ∷ q)
unfolding store
store-append [] q x v = refl
store-append (y ∷ p) q x v = ap (λ t. y ∷ t) (store-append p q x v)

append_one : (p q : List ℕ) (x : ℕ) → (p ++ (x ∷ [])) ++ q ≡ p ++ (x ∷ q)
append_one [] q x = refl
append_one (y ∷ p) q x = ap (λ t. y ∷ t) (append_one p q x)

-- Placing the positions of a polynomial gives the polynomial.
pub place-ones :
    (floor j : ℕ) (p cs : List ℕ)
    → IsHint cs
    → length p ≡ j
    → floor ≤ j
    → place floor (ones j cs) (p ++ replicate (length cs) 0) ≡ some (p ++ cs)
unfolding place ones
place-ones floor j p [] h e l = refl
place-ones floor j p (zero ∷ cs) h e l =
    ap (λ t. place floor (ones (j + 1) cs) t) (sym (append_one p (replicate (length cs) 0) 0))
    ∙ place-ones floor (j + 1) (p ++ (0 ∷ [])) cs h.1 (omega (arith, length-append p (0 ∷ [])))
        (omega arith)
    ∙ ap some (append_one p cs 0)
place-ones floor j p (suc c ∷ cs) h e l =
    let one : suc c ≡ 1 = omega arith in
    let inside : ltb j floor ≡ false = ground arith in
    let set : store (p ++ (0 ∷ replicate (length cs) 0)) j 1
        ≡ (p ++ (1 ∷ [])) ++ replicate (length cs) 0 =
      ap (λ (t : ℕ). store (p ++ (0 ∷ replicate (length cs) 0)) t 1) (sym e)
      ∙ store-append p (replicate (length cs) 0) 0 1
      ∙ sym (append_one p (replicate (length cs) 0) 1) in
    rw (one, inside, set)
      (place-ones (j + 1) (j + 1) (p ++ (1 ∷ [])) cs h.1 (omega (arith, length-append p (1 ∷ [])))
          (omega arith)
        ∙ ap some (append_one p cs 1))

-- Positions in increasing order from the floor on.
abbrev pub Increasing : ℕ → List ℕ → Type 0
Increasing floor [] = Unit
Increasing floor (b ∷ bs) = (floor ≤ b) × (b < n) × Increasing (b + 1) bs

pub place-Increasing :
    (floor : ℕ) (bs p p' : List ℕ)
    → All (λ b. b < n) bs
    → place floor bs p ≡ some p'
    → Increasing floor bs
unfolding place
place-Increasing floor [] p p' h e = tt
place-Increasing floor (b ∷ bs) p p' h e = elim (Bool-cases (ltb b floor)) [
  | inl low ↦ absurd (ground (arith, e, low))
  | inr high ↦
      let rest : place (b + 1) bs (store p b 1) ≡ some p' = ground (arith, e, high) in
      (ground arith, h.0, place-Increasing (b + 1) bs (store p b 1) p' h.1 rest)
]

-- The polynomial of such positions.
unfoldable pub poly_of : ℕ → ℕ → List ℕ → List ℕ
poly_of j zero bs = []
poly_of j (suc left) [] = 0 ∷ poly_of (j + 1) left []
poly_of j (suc left) (b ∷ bs) =
    let here = poly_of (j + 1) left bs in
    let later = poly_of (j + 1) left (b ∷ bs) in if b == j then 1 ∷ here else 0 ∷ later

pub poly_of-IsHint :
    (j left : ℕ) (bs : List ℕ) → (length (poly_of j left bs) ≡ left) × IsHint (poly_of j left bs)
unfolding poly_of
poly_of-IsHint j zero bs = (refl, tt)
poly_of-IsHint j (suc left) [] =
    let rest = poly_of-IsHint (j + 1) left [] in (ap suc rest.0, (omega arith, rest.1))
poly_of-IsHint j (suc left) (b ∷ bs) =
    let here = poly_of-IsHint (j + 1) left bs in
    let later = poly_of-IsHint (j + 1) left (b ∷ bs) in
    elim (Bool-cases (b == j)) [
      | inl e ↦ rw e (ap suc here.0, (omega arith, here.1))
      | inr e ↦ rw e (ap suc later.0, (omega arith, later.1))
    ]

pub ones-poly_of :
    (j left : ℕ) (bs : List ℕ) → Increasing j bs → j + left ≡ n → ones j (poly_of j left bs) ≡ bs
unfolding poly_of ones
ones-poly_of j zero [] h e = refl
ones-poly_of j zero (b ∷ bs) h e = absurd (omega (arith, h.0, h.1))
ones-poly_of j (suc left) [] h e = ones-poly_of (j + 1) left [] tt (omega arith)
ones-poly_of j (suc left) (b ∷ bs) h e = elim (Bool-cases (b == j)) [
  | inl same ↦
      let at : b ≡ j = ground arith in
      rw same (
        ap (λ (t : List ℕ). j ∷ t)
          (ones-poly_of (j + 1) left bs (subst (λ (t : ℕ). Increasing (t + 1) bs) at h.2)
            (omega arith))
        ∙ ap (λ (t : ℕ). t ∷ bs) (sym at))
  | inr other ↦
      rw other (ones-poly_of (j + 1) left (b ∷ bs) (ground (arith, h.0), h.1, h.2) (omega arith))
]
