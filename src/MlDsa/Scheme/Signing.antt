-- ===== src/MlDsa/Scheme/Signing.antt =====
-- The rejection loop of `mldsa_sign_internal` as a relation, and what a signature satisfies.
use karudeb.Base.{ℕ, zero, suc, ◌+◌, ◌≡◌, ◌⊎◌, inl, inr, refl, ap, ◌∙◌, arith}
use karudeb.Base.{List, u16}
use karudeb.Base.{Option, none, some, ◌>>=◌}
use mathlib.Core.Path.{subst}
use karudeb.MlDsa.Params.{MldsaParam}
use karudeb.MlDsa.Scheme.{
  Signer, Round, rejected, signed, sign_round, sign_loop, prepare, mldsa_sign_internal,
}
use karudeb.MlDsa.Scheme.Rounds.{IsSafe, SafeIf, sign_round-SafeIf}

-- The rounds of the loop: those from one nonce on end with a signature, the first one that is not
-- rejected.
pub data Signs (fuel : ℕ) (par : MldsaParam) (s : Signer) : ℕ → List ℕ → Type 0 where
  accept :
      {nonce : ℕ} {sig : List ℕ}
      → sign_round fuel par s nonce ≡ some (signed sig)
      → Signs fuel par s nonce sig
  retry :
      {nonce : ℕ} {sig : List ℕ}
      → sign_round fuel par s nonce ≡ some rejected
      → Signs fuel par s (u16 (nonce + 1)) sig
      → Signs fuel par s nonce sig

pub sign_loop-Signs :
    (fuel rounds : ℕ) (par : MldsaParam) (s : Signer) (nonce : ℕ) (sig : List ℕ)
    → sign_loop fuel rounds par s nonce ≡ some sig
    → Signs fuel par s nonce sig
unfolding sign_loop
sign_loop-Signs fuel zero par s nonce sig e = absurd (ground (arith, e))
sign_loop-Signs fuel (suc rounds) par s nonce sig e =
    from (sign_round fuel par s nonce) refl e
      (sign_loop-Signs fuel rounds par s (u16 (nonce + 1)) sig)
  where
    from :
        (o : Option Round)
        → sign_round fuel par s nonce ≡ o
        → (o >>= λ end_of_round. elim end_of_round [
          | rejected ↦ sign_loop fuel rounds par s (u16 (nonce + 1))
          | signed found ↦ some found
        ])
          ≡ some sig
        → (sign_loop fuel rounds par s (u16 (nonce + 1)) ≡ some sig
            → Signs fuel par s (u16 (nonce + 1)) sig)
        → Signs fuel par s nonce sig
    from none g h ih = absurd (ground (arith, h))
    from (some rejected) g h ih = retry g (ih h)
    from (some (signed found)) g h ih =
        let same : found ≡ sig = cc in accept (g ∙ ap (λ (t : List ℕ). some (signed t)) same)

Signs-IsSafe :
    (fuel : ℕ) (par : MldsaParam) (s : Signer) (nonce : ℕ) (sig : List ℕ)
    → Signs fuel par s nonce sig
    → IsSafe par sig
Signs-IsSafe fuel par s nonce sig (accept e) =
    subst (SafeIf par) e (sign_round-SafeIf fuel par s nonce)
Signs-IsSafe fuel par s nonce sig (retry e rest) =
    Signs-IsSafe fuel par s (u16 (nonce + 1)) sig rest

-- The rounds that are spent with no signature: all are rejected, or a challenge is not found.
pub data Fails (fuel : ℕ) (par : MldsaParam) (s : Signer) : ℕ → ℕ → Type 0 where
  spent : {nonce : ℕ} → Fails fuel par s zero nonce
  unsampled :
      {rounds nonce : ℕ} → sign_round fuel par s nonce ≡ none → Fails fuel par s (suc rounds) nonce
  again :
      {rounds nonce : ℕ}
      → sign_round fuel par s nonce ≡ some rejected
      → Fails fuel par s rounds (u16 (nonce + 1))
      → Fails fuel par s (suc rounds) nonce

sign_loop-Fails :
    (fuel rounds : ℕ) (par : MldsaParam) (s : Signer) (nonce : ℕ)
    → sign_loop fuel rounds par s nonce ≡ none
    → Fails fuel par s rounds nonce
unfolding sign_loop
sign_loop-Fails fuel zero par s nonce e = spent
sign_loop-Fails fuel (suc rounds) par s nonce e =
    from (sign_round fuel par s nonce) refl e (sign_loop-Fails fuel rounds par s (u16 (nonce + 1)))
  where
    from :
        (o : Option Round)
        → sign_round fuel par s nonce ≡ o
        → (o >>= λ end_of_round. elim end_of_round [
          | rejected ↦ sign_loop fuel rounds par s (u16 (nonce + 1))
          | signed found ↦ some found
        ])
          ≡ none
        → (sign_loop fuel rounds par s (u16 (nonce + 1)) ≡ none
            → Fails fuel par s rounds (u16 (nonce + 1)))
        → Fails fuel par s (suc rounds) nonce
    from none g h ih = unsampled g
    from (some rejected) g h ih = again g (ih h)
    from (some (signed found)) g h ih = absurd (ground (arith, h))

-- What a result of `mldsa_sign_internal` says.
abbrev pub SignOutcome : ℕ → ℕ → MldsaParam → List ℕ → List ℕ → List ℕ → Option (List ℕ) → Type 0
SignOutcome fuel rounds par sk m rnd none =
    (prepare fuel par sk m rnd ≡ none)
    ⊎ ((s : Signer) × (prepare fuel par sk m rnd ≡ some s) × Fails fuel par s rounds 0)
SignOutcome fuel rounds par sk m rnd (some sig) =
    (s : Signer) × (prepare fuel par sk m rnd ≡ some s) × Signs fuel par s 0 sig × IsSafe par sig

-- `mldsa_sign_internal` gives the signature of the first round that is not rejected, whose z passes the
-- norm check and whose hints are 0 and 1, their number in unsigned int at most par->omega. It gives none
-- only if the matrix was not sampled, a challenge was not found, or every round is rejected.
pub mldsa_sign_internal_lem :
    (fuel rounds : ℕ) (par : MldsaParam) (sk m rnd : List ℕ)
    → SignOutcome fuel rounds par sk m rnd (mldsa_sign_internal fuel rounds par sk m rnd)
unfolding mldsa_sign_internal
mldsa_sign_internal_lem fuel rounds par sk m rnd = from (prepare fuel par sk m rnd) refl
  where
    looped :
        (s : Signer)
        → prepare fuel par sk m rnd ≡ some s
        → (o : Option (List ℕ)) → sign_loop fuel rounds par s 0 ≡ o
        → SignOutcome fuel rounds par sk m rnd o
    looped s g none e = inr (s, g, sign_loop-Fails fuel rounds par s 0 e)
    looped s g (some sig) e =
        let signs = sign_loop-Signs fuel rounds par s 0 sig e in
        (s, g, signs, Signs-IsSafe fuel par s 0 sig signs)

    from :
        (o : Option Signer)
        → prepare fuel par sk m rnd ≡ o
        → SignOutcome fuel rounds par sk m rnd (o >>= λ s. sign_loop fuel rounds par s 0)
    from none g = inl g
    from (some s) g = looped s g (sign_loop fuel rounds par s 0) refl
