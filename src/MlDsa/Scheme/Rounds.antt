-- ===== src/MlDsa/Scheme/Rounds.antt =====
-- What a round of `mldsa_sign_internal` that is not rejected gives.
use karudeb.Base.{◌%◌, ◌^◌}
use karudeb.Base.{ℕ, ◌+◌, ◌<◌, ◌≤◌, ◌≡◌, inl, inr, refl, arith}
use karudeb.Base.{ℤ, pos, ◌-ℤ◌, List, [], ◌∷◌, All, u32}
use karudeb.Base.{Option, none, some, ◌>>=◌, Bool-cases, ◌==◌, ltb, not, if◌then◌else◌}
use karudeb.MlDsa.Params.{MldsaParam}
use karudeb.MlDsa.Rounding.{make_hint}
use karudeb.MlDsa.Poly.{hint_sum, poly_make_hint}
use karudeb.MlDsa.Vectors.{polyvecl_chknorm, polyveck_chknorm, polyveck_add, polyveck_make_hint}
use karudeb.MlDsa.Signature.{pack_sig}
use karudeb.MlDsa.Scheme.{Signer, Round, rejected, signed, finish, sign_round}

abbrev sum : List ℕ → ℕ
sum [] = 0
sum (x ∷ xs) = x + sum xs

-- The number of hints that are 1.
abbrev pub hint_count : List (List ℕ) → ℕ
hint_count [] = 0
hint_count (p ∷ h) = sum p + hint_count h

hint_sum_lem : (s : ℕ) (p : List ℕ) → s < 2 ^ 32 → hint_sum s p ≡ (s + sum p) % 2 ^ 32
unfolding hint_sum
hint_sum_lem s [] h = omega arith
hint_sum_lem s (x ∷ p) h = omega (arith, hint_sum_lem (u32 (s + x)) p (omega arith))

abbrev pub IsHint : List ℕ → Type 0
IsHint = All (λ c. c < 2)

make_hint_small : (a0 a1 : ℤ) (gamma2 : ℕ) → make_hint a0 a1 gamma2 < 2
unfolding make_hint
make_hint_small a0 a1 gamma2 = ground arith

hints_small : (par : MldsaParam) (a0 a1 : List ℤ) → IsHint (poly_make_hint par a0 a1).0
unfolding poly_make_hint
hints_small par [] a1 = tt
hints_small par (x ∷ a0) [] = tt
hints_small par (x ∷ a0) (y ∷ a1) = (make_hint_small x y par.gamma2, hints_small par a0 a1)

-- The hints are 0 and 1, and the count is their sum in unsigned int.
make_hint_lem :
    (par : MldsaParam) (v0 v1 : List (List ℤ)) (s : ℕ)
    → s < 2 ^ 32
    → (let (h, count) = polyveck_make_hint par v0 v1 s in
        All IsHint h × (count ≡ (s + hint_count h) % 2 ^ 32))
unfolding polyveck_make_hint
make_hint_lem par [] v1 s g = (tt, omega arith)
make_hint_lem par (p0 ∷ v0) [] s g = (tt, omega arith)
make_hint_lem par (p0 ∷ v0) (p1 ∷ v1) s g =
    let (p, t) = poly_make_hint par p0 p1 in
    let added : t ≡ (0 + sum p) % 2 ^ 32 =
      unfold poly_make_hint in hint_sum_lem 0 (poly_make_hint par p0 p1).0 (omega arith) in
    let rest = make_hint_lem par v0 v1 (u32 (s + t)) (omega arith) in
    ((hints_small par p0 p1, rest.0), omega (arith, added, rest.1))

-- The signature's z passes the norm check, its hints are 0 and 1, and their number, in unsigned int, is
-- at most par->omega.
abbrev pub IsSafe : MldsaParam → List ℕ → Type 0
IsSafe par sig =
    (c : List ℕ) × (z : List (List ℤ)) × (h : List (List ℕ)) × (sig ≡ pack_sig par c z h)
    × (polyvecl_chknorm z (pos par.gamma1 -ℤ pos par.beta) ≡ 0)
    × All IsHint h
    × (hint_count h % 2 ^ 32 ≤ par.omega_)

abbrev SafeRound : MldsaParam → Round → Type 0
SafeRound par rejected = Unit
SafeRound par (signed sig) = IsSafe par sig

finish-SafeRound :
    (par : MldsaParam) (c : List ℕ) (z w0 ct0 w1 : List (List ℤ))
    → SafeRound par (finish par c z w0 ct0 w1)
unfolding finish
finish-SafeRound par c z w0 ct0 w1 =
    elim (Bool-cases (not (polyvecl_chknorm z (pos par.gamma1 -ℤ pos par.beta) == 0))) [
      | inl long ↦ rw long tt
      | inr short ↦
          let norm : polyvecl_chknorm z (pos par.gamma1 -ℤ pos par.beta) ≡ 0 = ground arith in
          rw short
            (elim (Bool-cases (not (polyveck_chknorm w0 (pos par.gamma2 -ℤ pos par.beta) == 0))) [
              | inl long ↦ rw long tt
              | inr low ↦
                  rw low (elim (Bool-cases (not (polyveck_chknorm ct0 (pos par.gamma2) == 0))) [
                    | inl long ↦ rw long tt
                    | inr high ↦ rw high (last norm)
                  ])
            ])
    ]
  where
    count : ℕ
    count = (polyveck_make_hint par (polyveck_add w0 ct0) w1 0).1

    hints : List (List ℕ)
    hints = (polyveck_make_hint par (polyveck_add w0 ct0) w1 0).0

    last :
        polyvecl_chknorm z (pos par.gamma1 -ℤ pos par.beta) ≡ 0
        → SafeRound par (if ltb par.omega_ count then rejected else signed (pack_sig par c z hints))
    last norm = elim (Bool-cases (ltb par.omega_ count)) [
      | inl many ↦ rw many tt
      | inr few ↦
          let made = make_hint_lem par (polyveck_add w0 ct0) w1 0 (omega arith) in
          let within : count ≤ par.omega_ = ground arith in
          rw few (c, z, hints, refl, norm, made.0, omega (arith, made.1, within))
    ]

abbrev pub SafeIf : MldsaParam → Option Round → Type 0
SafeIf par none = Unit
SafeIf par (some r) = SafeRound par r

bind-SafeIf :
    {A : Type 0} (par : MldsaParam) (o : Option A) (f : A → Option Round)
    → ((a : A) → SafeIf par (f a))
    → SafeIf par (o >>= f)
bind-SafeIf par none f h = tt
bind-SafeIf par (some a) f h = h a

pub sign_round-SafeIf :
    (fuel : ℕ) (par : MldsaParam) (s : Signer) (nonce : ℕ)
    → SafeIf par (sign_round fuel par s nonce)
unfolding sign_round
sign_round-SafeIf fuel par s nonce = search (bind-SafeIf, finish-SafeRound)
