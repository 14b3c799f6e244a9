-- ===== src/Keccak/Permute/Laws.antt =====
-- The unrolled permutation is that of FIPS 202.
use karudeb.Base.{
  ℕ, zero, suc, ◌+◌, ◌*◌, ◌^◌, ◌≤◌, sym, All, ◌≡◌, refl, ap, ap₂, ◌∙◌, List, [], ◌∷◌, length,
  get_or, arith, ◌<◌, holds_below, read_equation,
}
use karudeb.Keccak.Permute.{
  Lanes, lanes, round, rounds, rol, not_64, round_constants, copy_from_state, copy_to_state,
  keccak_f1600_state_permute,
}
use karudeb.Keccak.Permute.Reference.{
  theta, rho, pi, chi_step, iota, constant_bits, steps, reference_round, reference_rounds, keccak_f,
  offset, upto,
}
use karudeb.Keccak.Permute.Bounds.{AreWords, turn, steps_same, reference_round-AreWords}
use mathlib.Core.Path.{subst}

-- The table of constants holds those of the shift register.
constants : (i : ℕ) → i < 24 → get_or round_constants i 0 ≡ constant_bits 7 0 i
unfolding holds_below constant_bits
constants i h =
    read_equation (λ j. get_or round_constants j 0) (λ j. constant_bits 7 0 j) 24 i refl h

-- One half of the loop's body is one round.
same_round :
    (rc : ℕ) (a : Lanes) → copy_to_state (round rc a) ≡ steps turn not_64 rc (copy_to_state a)
unfolding round copy_to_state theta rho pi chi_step iota steps upto offset rol
    karudeb.Keccak.Permute.chi
same_round rc
      (lanes aba abe abi abo abu aga age agi ago agu aka ake aki ako aku ama ame ami amo amu asa ase
        asi aso asu) =
    refl

-- Words i to i + n - 1 of a state.
words : ℕ → ℕ → List ℕ → List ℕ
words zero i s = []
words (suc n) i s = get_or s i 0 ∷ words n (suc i) s

words-cons : (n i x : ℕ) (s : List ℕ) → words n (suc i) (x ∷ s) ≡ words n i s
unfolding words
words-cons zero i x s = refl
words-cons (suc n) i x s = ap (λ t. get_or s i 0 ∷ t) (words-cons n (suc i) x s)

words-whole : (n : ℕ) (s : List ℕ) → length s ≡ n → words n 0 s ≡ s
unfolding words
words-whole zero [] e = refl
words-whole zero (x ∷ s) e = absurd (omega arith)
words-whole (suc n) [] e = absurd (omega arith)
words-whole (suc n) (x ∷ s) e = ap (λ t. x ∷ t) (words-cons n 0 x s ∙ words-whole n s (omega arith))

-- Copying a state of 25 words to the variables and back changes nothing.
pub copied_back : (s : List ℕ) → length s ≡ 25 → copy_to_state (copy_from_state s) ≡ s
unfolding copy_to_state copy_from_state words
copied_back s e = words-whole 25 s e

reference_same :
    (i : ℕ) (a : Lanes)
    → i < 24
    → AreWords (copy_to_state a)
    → copy_to_state (round (get_or round_constants i 0) a) ≡ reference_round i (copy_to_state a)
unfolding reference_round
reference_same i a h ws =
    same_round (get_or round_constants i 0) a
    ∙ ap (λ rc. steps turn not_64 rc (copy_to_state a)) (constants i h)
    ∙ steps_same (constant_bits 7 0 i) (copy_to_state a) ws

-- The rounds of `left` times the loop's body.
twice : ℕ → ℕ
twice zero = zero
twice (suc left) = suc (suc (twice left))

same_rounds :
    (left i : ℕ) (a : Lanes)
    → i + 2 * left ≤ 24
    → AreWords (copy_to_state a)
    → copy_to_state (rounds left i a) ≡ reference_rounds (twice left) i (copy_to_state a)
unfolding rounds reference_rounds twice
same_rounds zero i a h ws = refl
same_rounds (suc left) i a h ws =
    let e : Lanes = round (get_or round_constants i 0) a in
    let f : Lanes = round (get_or round_constants (i + 1) 0) e in
    let next : i + 2 ≡ i + 1 + 1 = omega arith in
    let first = reference_same i a (omega arith) ws in
    let middle =
      subst AreWords (sym first) (reference_round-AreWords i (copy_to_state a) (omega arith)) in
    let second = reference_same (i + 1) e (omega arith) middle in
    let last =
      subst AreWords (sym second)
        (reference_round-AreWords (i + 1) (copy_to_state e) (omega arith)) in
    same_rounds left (i + 2) f (omega arith) last
    ∙ ap₂ (λ j s. reference_rounds (twice left) j s) next
        (second ∙ ap (reference_round (i + 1)) first)

-- On every state of 25 words of 64 bits, the code computes Keccak-f[1600] of FIPS 202, with the rotation
-- and the complement bit by bit and the constants from their shift register.
pub state_permute-keccak_f :
    (s : List ℕ)
    → length s ≡ 25
    → All (λ x. x < 2 ^ 64) s
    → keccak_f1600_state_permute s ≡ keccak_f s
unfolding keccak_f1600_state_permute keccak_f twice
state_permute-keccak_f s e h =
    let back = copied_back s e in
    same_rounds 12 0 (copy_from_state s) (omega arith) (subst AreWords (sym back) h)
    ∙ ap (reference_rounds 24 0) back
