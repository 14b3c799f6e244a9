-- ===== src/MlDsa/Challenge.antt =====
-- `poly_challenge` of tools/pqc/mldsa/mldsa_poly.c. The unread bytes of its buffer, buf + pos, are a list;
-- `none` is fuel that ran out.
pub mod Stores
pub mod Stream
pub mod Weight
use karudeb.Base.{ℕ, zero, suc, ◌+◌, ◌-◌, ◌*◌, ◌^◌, ◌>>◌, ltb}
use karudeb.Base.{ℤ, pos, ◌-ℤ◌, List, [], ◌∷◌, take, drop, replicate, get_or, if◌then◌else◌}
use karudeb.Base.{bit_and, i32, residue, Option, none, some, ◌>>=◌}
use karudeb.Keccak.Sponge.{load64}
use karudeb.Keccak.Shake.{
  KeccakState, shake256_init, shake256_absorb, shake256_finalize, shake256_squeezeblocks,
}
use karudeb.MlDsa.Params.{MldsaParam, n}

-- a[i] = v
unfoldable pub store {ℓ} : {A : Type ℓ} → List A → ℕ → A → List A
store [] i v = []
store (x ∷ a) zero v = v ∷ a
store (x ∷ a) (suc i) v = x ∷ store a i v

-- A block more when none of the buffer is unread.
unfoldable pub refilled : List ℕ → KeccakState → List ℕ × KeccakState
refilled [] state = shake256_squeezeblocks 1 state
refilled (b ∷ buf) state = (b ∷ buf, state)

-- The `do` loop: the byte b, what is then unread, and the state.
unfoldable pub next_index : ℕ → ℕ → List ℕ → KeccakState → Option (ℕ × List ℕ × KeccakState)
next_index zero i buf state = none
next_index (suc fuel) i buf state =
    let (buf', state') = refilled buf state in
    let b = get_or buf' 0 0 in
    let rest = next_index fuel i (drop 1 buf') state' in
    if ltb i b then rest else some (b, drop 1 buf', state')

-- 1 - 2 * (signs & 1), in uint64_t
unfoldable pub sign_value : ℕ → ℤ
sign_value signs = i32 (pos (residue (pos 1 -ℤ pos (2 * bit_and signs 1)) (2 ^ 64)))

-- The `for` loop from i on, with `left` rounds to go.
unfoldable pub challenge_loop : ℕ → ℕ → ℕ → ℕ → List ℤ → List ℕ → KeccakState → Option (List ℤ)
challenge_loop fuel zero i signs c buf state = some c
challenge_loop fuel (suc left) i signs c buf state = do
  next ← next_index fuel i buf state
  let c' = store c i (get_or c next.0 (pos 0))
  let c'' = store c' next.0 (sign_value signs)
  challenge_loop fuel left (i + 1) (signs >> 1) c'' next.1 next.2

unfoldable pub poly_challenge : ℕ → MldsaParam → List ℕ → Option (List ℤ)
poly_challenge fuel par seed =
    let state = shake256_finalize (shake256_absorb shake256_init (take par.cp_sz seed)) in
    let (buf, state') = shake256_squeezeblocks 1 state in
    let signs = load64 buf in
    challenge_loop fuel par.tau (n - par.tau) signs (replicate n (pos 0)) (drop 8 buf) state'
