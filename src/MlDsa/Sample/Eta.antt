-- ===== src/MlDsa/Sample/Eta.antt =====
-- The numbers in the nibbles of a stream of bytes, for `poly_uniform_eta` of tools/pqc/mldsa/mldsa_poly.c.
use karudeb.Base.{ℕ, zero, suc, ◌+◌, ◌-◌, ◌/◌, ◌%◌, ◌<◌, ◌≡◌, refl, ap, ap₂, ◌∙◌, sym, arith}
use karudeb.Base.{ℤ, pos, ◌-ℤ◌, residue, i32, List, [], ◌∷◌, ◌++◌, length, take, All}
use karudeb.Base.{ltb, ltb→lt, ◌==◌, if◌then◌else◌, ◌&&◌, Bool-cases, ◌⊎◌, inl, inr, true, false}
use karudeb.Base.{bit_and, bit_and_ones}
use mathlib.Core.List.{append-nil, append_assoc}
use karudeb.Keccak.Shake.{KeccakState, shake256_squeezeblocks, shake256_rate}
use karudeb.Keccak.Sponge.Words.{IsByte}
use karudeb.Keccak.Sponge.{keccak_squeezeblocks}
use karudeb.Keccak.Sponge.Outputs.{squeezeblocks_bytes, squeezeblocks-append}
use karudeb.MlDsa.Params.{MldsaParam, n}
use karudeb.MlDsa.Reject.{rej_nibbles, eta_2_value, eta_4_value, rej_eta_2, rej_eta_4}
use karudeb.MlDsa.Symmetric.{dilithium_shake256_stream_init}
use karudeb.MlDsa.Sample.{eta_loop, poly_uniform_eta_2, poly_uniform_eta_4, poly_uniform_eta}
use karudeb.MlDsa.Sample.Uniform.{
  first_coefficients, take_again, length-take_lt, enough_lem, choice_lem,
}

-- The lower nibble of each byte comes first.
abbrev pub nibbles : List ℕ → List ℕ
nibbles [] = []
nibbles (b ∷ buf) = b % 16 ∷ b / 16 ∷ nibbles buf

-- The values of the numbers below a bound.
abbrev pub kept : ℕ → (ℕ → ℤ) → List ℕ → List ℤ
kept bound value [] = []
kept bound value (t ∷ ts) =
    if ltb t bound then value t ∷ kept bound value ts else kept bound value ts

eta_2_lem : (t : ℕ) → t < 15 → eta_2_value t ≡ pos 2 -ℤ pos (t % 5)
unfolding eta_2_value i32 residue ◌-ℤ◌
eta_2_lem t h = ground arith

eta_4_lem : (t : ℕ) → t < 9 → eta_4_value t ≡ pos 4 -ℤ pos t
unfolding eta_4_value i32 residue ◌-ℤ◌
eta_4_lem t h = ground arith

-- One number and the rest: what is written within the room.
step :
    (bound : ℕ) (value : ℕ → ℤ) (t room : ℕ) (out : ℕ → List ℤ) (rest : List ℤ)
    → ((r : ℕ) → out r ≡ take r rest)
    → (let taken = if ltb t bound && ltb 0 room then value t ∷ [] else [] in
        taken ++ out (room - length taken)
        ≡ take room (if ltb t bound then value t ∷ rest else rest))
step bound value t zero out rest ih = elim (Bool-cases (ltb t bound)) [
  | inl small ↦ rw small (ih 0)
  | inr large ↦ rw large (ih 0)
]
step bound value t (suc room) out rest ih =
    let some_room : ltb 0 (suc room) ≡ true = ground arith in
    let one_used : suc room - 1 ≡ room = omega arith in
    let none_used : suc room - 0 ≡ suc room = omega arith in
    elim (Bool-cases (ltb t bound)) [
      | inl small ↦ rw (small, some_room, one_used) (ap (λ u. value t ∷ u) (ih room))
      | inr large ↦ rw (large, none_used) (ih (suc room))
    ]

rej_nibbles-kept :
    (bound : ℕ) (value : ℕ → ℤ) (room : ℕ) (buf : List ℕ)
    → All IsByte buf
    → rej_nibbles bound value room buf ≡ take room (kept bound value (nibbles buf))
unfolding rej_nibbles
rej_nibbles-kept bound value zero [] h = refl
rej_nibbles-kept bound value (suc room) [] h = refl
rej_nibbles-kept bound value zero (b ∷ buf) h = refl
rej_nibbles-kept bound value (suc room) (b ∷ buf) (hb, h) =
    let low : bit_and b 0x0f ≡ b % 16 = bit_and_ones 4 b 0x0f refl in
    let full : (suc room == 0) ≡ false = ground arith in
    let one_used : suc room - 1 ≡ room = omega arith in
    let none_used : suc room - 0 ≡ suc room = omega arith in
    let second = λ (r : ℕ).
      step bound value (b / 16) r (λ r. rej_nibbles bound value r buf)
        (kept bound value (nibbles buf)) (λ r. rej_nibbles-kept bound value r buf h) in
    elim (Bool-cases (ltb (b % 16) bound)) [
      | inl small ↦ rw (low, full, small, one_used) (ap (λ t. value (b % 16) ∷ t) (second room))
      | inr large ↦ rw (low, full, large, none_used) (second (suc room))
    ]

kept-append :
    (bound : ℕ) (value : ℕ → ℤ) (a b : List ℕ)
    → kept bound value (a ++ b) ≡ kept bound value a ++ kept bound value b
kept-append bound value [] b = refl
kept-append bound value (t ∷ a) b = elim (Bool-cases (ltb t bound)) [
  | inl small ↦ rw small (ap (λ u. value t ∷ u) (kept-append bound value a b))
  | inr large ↦ rw large (kept-append bound value a b)
]

-- Values that agree below the bound.
kept-eq :
    (bound : ℕ) (value value' : ℕ → ℤ) (ts : List ℕ)
    → ((t : ℕ) → t < bound → value t ≡ value' t)
    → kept bound value ts ≡ kept bound value' ts
kept-eq bound value value' [] same = refl
kept-eq bound value value' (t ∷ ts) same = elim (Bool-cases (ltb t bound)) [
  | inl small ↦
      rw small (ap₂ ◌∷◌ (same t (ltb→lt t bound small)) (kept-eq bound value value' ts same))
  | inr large ↦ rw large (kept-eq bound value value' ts same)
]

nibbles-append : (a b : List ℕ) → nibbles (a ++ b) ≡ nibbles a ++ nibbles b
nibbles-append [] b = refl
nibbles-append (x ∷ a) b = ap (λ t. x % 16 ∷ x / 16 ∷ t) (nibbles-append a b)

no_blocks : (s : List ℕ) → (keccak_squeezeblocks 0 s shake256_rate).0 ≡ []
unfolding keccak_squeezeblocks
no_blocks s = refl

-- The numbers that a stream of blocks gives.
abbrev stream_values : ℕ → (ℕ → ℤ) → ℕ → List ℕ → List ℤ
stream_values bound value count s =
    kept bound value (nibbles (keccak_squeezeblocks count s shake256_rate).0)

stream_step :
    (bound : ℕ) (value : ℕ → ℤ) (fuel count : ℕ) (s : List ℕ)
    → stream_values bound value (count + fuel) s
      ≡ stream_values bound value count s
        ++ stream_values bound value fuel (keccak_squeezeblocks count s shake256_rate).1
stream_step bound value fuel count s =
    let first = keccak_squeezeblocks count s shake256_rate in
    let second = keccak_squeezeblocks fuel first.1 shake256_rate in
    ap (λ (t : List ℕ × List ℕ). kept bound value (nibbles t.0))
      (squeezeblocks-append count fuel s shake256_rate)
    ∙ ap (kept bound value) (nibbles-append first.0 second.0)
    ∙ kept-append bound value (nibbles first.0) (nibbles second.0)

eta_loop_lem :
    (bound : ℕ) (value : ℕ → ℤ) (fuel : ℕ) (a : List ℤ) (state : KeccakState)
    → eta_loop (rej_nibbles bound value) fuel (take n a) state
      ≡ first_coefficients (a ++ stream_values bound value fuel state.s)
unfolding eta_loop shake256_squeezeblocks
eta_loop_lem bound value zero a state =
    choice_lem a
    ∙ ap first_coefficients
        (sym (append-nil a) ∙ ap (λ t. a ++ kept bound value (nibbles t)) (sym (no_blocks state.s)))
eta_loop_lem bound value (suc fuel) a state =
    let first = keccak_squeezeblocks 1 state.s shake256_rate in
    let state' : KeccakState = record { s = first.1; pos = state.pos } in
    let new = kept bound value (nibbles first.0) in
    let all = stream_values bound value (suc fuel) state.s in
    let more = stream_values bound value fuel first.1 in
    let one_more : 1 + fuel ≡ suc fuel = omega arith in
    let split : all ≡ new ++ more =
      ap (λ (t : ℕ). stream_values bound value t state.s) (sym one_more)
      ∙ stream_step bound value fuel 1 state.s in
    let grown : take n a ++ rej_nibbles bound value (n - length (take n a)) first.0
        ≡ take n (a ++ new) =
      ap (λ t. take n a ++ t)
        (rej_nibbles-kept bound value (n - length (take n a)) first.0
          (squeezeblocks_bytes 1 state.s shake256_rate).1)
      ∙ take_again n a new in
    elim (Bool-cases (ltb (length a) n)) [
      | inl short ↦
          rw (length-take_lt n a, short, grown)
            (eta_loop_lem bound value fuel (a ++ new) state'
              ∙ ap first_coefficients (append_assoc a new more ∙ ap (λ t. a ++ t) (sym split)))
      | inr enough ↦ rw (length-take_lt n a, enough) (enough_lem a all enough)
    ]

-- The blocks that the code squeezes at first, and the rest on fuel.
whole_loop :
    (bound : ℕ) (value value' : ℕ → ℤ) (count fuel : ℕ) (start : KeccakState)
    → ((t : ℕ) → t < bound → value t ≡ value' t)
    → (let first = keccak_squeezeblocks count start.s shake256_rate in
        eta_loop
          (rej_nibbles bound value)
          fuel
          (rej_nibbles bound value n first.0)
          (record { s = first.1; pos = start.pos })
        ≡ first_coefficients (stream_values bound value' (count + fuel) start.s))
whole_loop bound value value' count fuel start same =
    let first = keccak_squeezeblocks count start.s shake256_rate in
    let state : KeccakState = record { s = first.1; pos = start.pos } in
    ap (λ t. eta_loop (rej_nibbles bound value) fuel t state)
      (rej_nibbles-kept bound value n first.0 (squeezeblocks_bytes count start.s shake256_rate).1)
    ∙ eta_loop_lem bound value fuel (kept bound value (nibbles first.0)) state
    ∙ ap first_coefficients (
        sym (stream_step bound value fuel count start.s)
        ∙ kept-eq bound value value'
            (nibbles (keccak_squeezeblocks (count + fuel) start.s shake256_rate).0) same)

-- For eta 2 the code takes the nibbles below 15 and writes 2 - t mod 5; for eta 4 those below 9, and 4 - t.
abbrev pub eta_values : ℕ → List ℕ → List ℤ
eta_values eta ts =
    if eta == 2 then kept 15 (λ t. pos 2 -ℤ pos (t % 5)) ts else kept 9 (λ t. pos 4 -ℤ pos t) ts

-- The blocks squeezed at first: one for eta 2 and two for eta 4.
abbrev pub first_blocks : ℕ → ℕ
first_blocks eta = if eta == 2 then 1 else 2

-- For eta 2 and for eta 4, every seed, nonce and fuel, `poly_uniform_eta` gives the first 256 values among
-- the nibbles of the stream, the lower one of a byte first: for eta 2 the value 2 - t mod 5 of each nibble t
-- below 15, for eta 4 the value 4 - t of each nibble t below 9. The stream is that of the blocks squeezed
-- at first, one for eta 2 and two for eta 4, and of `fuel` more; where they hold fewer than 256 values, the
-- result is `none`.
pub poly_uniform_eta_lem :
    (fuel : ℕ) (par : MldsaParam) (seed : List ℕ) (nonce : ℕ)
    → (par.eta ≡ 2) ⊎ (par.eta ≡ 4)
    → (let start = dilithium_shake256_stream_init seed nonce in
        let blocks = keccak_squeezeblocks (first_blocks par.eta + fuel) start.s shake256_rate in
        poly_uniform_eta fuel par seed nonce
        ≡ first_coefficients (eta_values par.eta (nibbles blocks.0)))
unfolding poly_uniform_eta poly_uniform_eta_2 poly_uniform_eta_4 shake256_squeezeblocks rej_eta_2
    rej_eta_4
poly_uniform_eta_lem fuel par seed nonce (inl two) =
    let start = dilithium_shake256_stream_init seed nonce in
    rw two (whole_loop 15 eta_2_value (λ t. pos 2 -ℤ pos (t % 5)) 1 fuel start eta_2_lem)
poly_uniform_eta_lem fuel par seed nonce (inr four) =
    let start = dilithium_shake256_stream_init seed nonce in
    rw four (whole_loop 9 eta_4_value (λ t. pos 4 -ℤ pos t) 2 fuel start eta_4_lem)
