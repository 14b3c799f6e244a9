-- ===== src/MlDsa/Challenge/Weight.antt =====
-- The challenge polynomial has par->tau coefficients 1 and -1, and the others are zero.
use karudeb.Base.{All-get_or}
use karudeb.Base.{ℕ, zero, suc, ◌+◌, ◌-◌, ◌%◌, ◌<◌, ◌≤◌, ◌≡◌, ◌≢◌, ◌⊎◌, inl, inr}
use karudeb.Base.{refl, ap, ◌∙◌, sym, arith, bit_and_ones}
use karudeb.Base.{ℤ, pos, negsuc, ◌-ℤ◌, residue, i32, List, length, get_or, All}
use karudeb.Base.{replicate, length-replicate, take, drop, Option, none, some}
use karudeb.Base.{◌>>◌, ◌>>=◌}
use mathlib.Core.Path.{subst}
use karudeb.Keccak.Shake.{
  KeccakState, shake256_init, shake256_absorb, shake256_finalize, shake256_squeezeblocks,
}
use karudeb.MlDsa.Params.{MldsaParam, n}
use karudeb.MlDsa.Challenge.{store, sign_value, next_index, challenge_loop, poly_challenge}
use karudeb.MlDsa.Challenge.Stores.{
  length-store, store_same, store_other, All-store, nonzero, weight, weight-store,
}
use karudeb.MlDsa.Challenge.Stream.{
  after, byte_at, after-after, byte_at-after, Above, Found, next_index-Found,
}

abbrev pub IsSign : ℤ → Type 0
IsSign v = (v ≡ pos 1) ⊎ (v ≡ negsuc 0)

abbrev pub IsTernary : ℤ → Type 0
IsTernary v = (v ≡ pos 0) ⊎ IsSign v

sign_value-IsSign : (signs : ℕ) → IsSign (sign_value signs)
unfolding sign_value
sign_value-IsSign signs = elim (parity (signs % 2) (omega arith)) [
  | inl even ↦ inl (rw (bit_and_ones 1 signs 1 refl, even) (unfold residue i32 ◌-ℤ◌ in refl))
  | inr odd ↦ inr (rw (bit_and_ones 1 signs 1 refl, odd) (unfold residue i32 ◌-ℤ◌ in refl))
]
  where
    parity : (b : ℕ) → b < 2 → (b ≡ 0) ⊎ (b ≡ 1)
    parity b h = ground arith

nonzero_sign : (v : ℤ) → IsSign v → nonzero v ≡ 1
nonzero_sign v (inl e) = rw e refl
nonzero_sign v (inr e) = rw e refl

-- The invariant of the `for` loop: what it writes next is zero, and so is all behind that.
pub record IsPartial (i count : ℕ) (c : List ℤ) : Type 0 where
  pub size : length c ≡ n
  pub entries : All IsTernary c
  pub heavy : weight c ≡ count
  pub untouched : (j : ℕ) → i ≤ j → get_or c j (pos 0) ≡ pos 0

split : (a b : ℕ) → (a ≡ b) ⊎ (a ≢ b)
split a b = ground arith

-- Copying c[b] to c[i] and then writing c[b] is one coefficient more.
one_more :
    (i count b : ℕ) (c : List ℤ) (v : ℤ)
    → IsPartial i count c
    → i < n
    → b ≤ i
    → IsSign v
    → IsPartial (i + 1) (count + 1) (store (store c i (get_or c b (pos 0))) b v)
one_more i count b c v h g k s =
    let moved : ℤ = get_or c b (pos 0) in
    let c' = store c i moved in
    let size' : length c' ≡ n = length-store c i moved ∙ h.size in
    let empty : nonzero (get_or c i (pos 0)) ≡ 0 = ap nonzero (h.untouched i (omega arith)) in
    let kept : get_or c' b (pos 0) ≡ moved = same_or_moved in
    record {
      size = length-store c' b v ∙ size';
      entries = All-store IsTernary c' b v (inr s) (
          All-store IsTernary c i moved (All-get_or IsTernary c b (pos 0) (inl refl) h.entries)
            h.entries);
      heavy = omega (
        arith,
        h.heavy,
        empty,
        ap nonzero kept,
        nonzero_sign v s,
        weight-store c i moved (omega (arith, h.size)),
        weight-store c' b v (omega (arith, size')),
      );
      untouched = λ j l.
          store_other c' b j v (pos 0) (λ e. absurd (omega arith))
          ∙ store_other c i j moved (pos 0) (λ e. absurd (omega arith))
          ∙ h.untouched j (omega arith);
    }
  where
    same_or_moved : get_or (store c i (get_or c b (pos 0))) b (pos 0) ≡ get_or c b (pos 0)
    same_or_moved = elim (split b i) [
      | inl e ↦ rw e (store_same c i (get_or c i (pos 0)) (pos 0) (omega (arith, h.size)))
      | inr d ↦ store_other c i b (get_or c b (pos 0)) (pos 0) (λ e. d (sym e))
    ]

-- A polynomial with so many coefficients 1 and -1, the others zero; or, where there is none, so many
-- bytes of the stream in a row that are above one index of the loop.
abbrev pub IsChallenge : ℕ → List ℤ → Type 0
IsChallenge tau c = (length c ≡ n) × All IsTernary c × (weight c ≡ tau)

abbrev pub ChallengeOutcome : ℕ → ℕ → List ℕ × KeccakState → Option (List ℤ) → Type 0
ChallengeOutcome fuel tau x none = (i p : ℕ) × (n - tau ≤ i) × (i < n) × Above i p fuel x
ChallengeOutcome fuel tau x (some c) = IsChallenge tau c

stalled :
    (fuel tau i p : ℕ) (x : List ℕ × KeccakState)
    → n - tau ≤ i
    → i < n
    → Above i 0 fuel (after p x)
    → ChallengeOutcome fuel tau x none
stalled fuel tau i p x h g above = (
  i,
  p,
  h,
  g,
  λ k l m.
      let there : byte_at (k - p) (after p x) ≡ byte_at k x =
        let sum : p + (k - p) ≡ k = omega arith in
        byte_at-after p (k - p) x ∙ ap (λ (t : ℕ). byte_at t x) sum in
      omega (arith, there, above (k - p) (omega arith) (omega arith)),
)

challenge_loop_lem :
    (fuel tau left i count signs p : ℕ) (c : List ℤ) (x : List ℕ × KeccakState)
    → IsPartial i count c
    → i + left ≡ n
    → count + left ≡ tau
    → n - tau ≤ i
    → ChallengeOutcome fuel tau x (challenge_loop fuel left i signs c (after p x).0 (after p x).1)
unfolding challenge_loop
challenge_loop_lem fuel tau zero i count signs p c x h e g l =
    (h.size, h.entries, omega (arith, h.heavy))
challenge_loop_lem fuel tau (suc left) i count signs p c x h e g l =
    from
      (λ b q small.
        challenge_loop_lem fuel tau left (i + 1) (count + 1) (signs >> 1) (p + q)
          (store (store c i (get_or c b (pos 0))) b (sign_value signs)) x
          (one_more i count b c (sign_value signs) h (omega arith) small (sign_value-IsSign signs))
          (omega arith) (omega arith) (omega arith))
      (next_index fuel i (after p x).0 (after p x).1) (next_index-Found fuel i (after p x))
  where
    round_of : ℕ → List ℕ × KeccakState → Option (List ℤ)
    round_of b y =
        challenge_loop fuel left (i + 1) (signs >> 1)
          (store (store c i (get_or c b (pos 0))) b (sign_value signs)) y.0 y.1

    from :
        ((b q : ℕ) → b ≤ i → ChallengeOutcome fuel tau x (round_of b (after (p + q) x)))
        → (o : Option (ℕ × List ℕ × KeccakState)) → Found fuel i (after p x) o
        → ChallengeOutcome fuel tau x (o >>= λ next. round_of next.0 (next.1, next.2))
    from ih none above = stalled fuel tau i p x l (omega arith) above
    from ih (some (b, buf, state)) (small, q, rest) =
        subst (λ (t : List ℕ × KeccakState). ChallengeOutcome fuel tau x (round_of b t))
          (sym (rest ∙ after-after p q x)) (ih b q small)

-- The unread bytes and the state at the beginning of the loop of `poly_challenge`.
abbrev pub challenge_stream : MldsaParam → List ℕ → List ℕ × KeccakState
challenge_stream par seed =
    let state = shake256_finalize (shake256_absorb shake256_init (take par.cp_sz seed)) in
    let (buf, state') = shake256_squeezeblocks 1 state in (drop 8 buf, state')

nothing_yet : (tau : ℕ) → IsPartial (n - tau) 0 (replicate n (pos 0))
nothing_yet tau = record {
  size = length-replicate n (pos 0);
  entries = zeros n;
  heavy = no_weight n;
  untouched = λ j h. zero_at n j;
}
  where
    zeros : (k : ℕ) → All IsTernary (replicate k (pos 0))
    zeros zero = tt
    zeros (suc k) = (inl refl, zeros k)

    no_weight : (k : ℕ) → weight (replicate k (pos 0)) ≡ 0
    no_weight zero = refl
    no_weight (suc k) = omega (arith, no_weight k)

    zero_at : (k j : ℕ) → get_or (replicate k (pos 0)) j (pos 0) ≡ pos 0
    zero_at zero j = refl
    zero_at (suc k) zero = refl
    zero_at (suc k) (suc j) = zero_at k j

-- For tau of at most 256, `poly_challenge` gives a polynomial of 256 coefficients of which tau are 1 or
-- -1 and the others zero. It gives none only if its stream has, in a row, as many bytes as the fuel that
-- are above one index i of the loop, 256 - tau ≤ i < 256.
pub poly_challenge-IsChallenge :
    (fuel : ℕ) (par : MldsaParam) (seed : List ℕ)
    → par.tau ≤ n
    → ChallengeOutcome fuel par.tau (challenge_stream par seed) (poly_challenge fuel par seed)
unfolding poly_challenge after
poly_challenge-IsChallenge fuel par seed h =
    challenge_loop_lem fuel par.tau par.tau (n - par.tau) 0 _ 0 (replicate n (pos 0))
      (challenge_stream par seed) (nothing_yet par.tau) (omega arith) (omega arith) (omega arith)
