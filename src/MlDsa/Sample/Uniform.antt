-- ===== src/MlDsa/Sample/Uniform.antt =====
-- The candidates of a stream of bytes, for `poly_uniform` of tools/pqc/mldsa/mldsa_poly.c.
use karudeb.Base.{ℕ, zero, suc, ◌+◌, ◌-◌, ◌*◌, ◌%◌, ◌^◌, ◌<◌, ◌≡◌, refl, ap, ◌∙◌, sym, arith}
use karudeb.Base.{ℤ, pos, List, [], ◌∷◌, ◌++◌, length, take, drop, All, length-append}
use karudeb.Base.{ltb, ◌==◌, if◌then◌else◌, Bool-cases, inl, inr, false, u16}
use karudeb.Base.{bit_and, bit_or, bit_or_above, bit_and_ones, Option, none, some}
use mathlib.Core.List.{append-nil, append_assoc}
use karudeb.Keccak.Shake.{KeccakState, shake128_squeezeblocks, shake128_rate}
use karudeb.Keccak.Sponge.Words.{IsByte}
use karudeb.Keccak.Sponge.{keccak_squeezeblocks}
use karudeb.Keccak.Sponge.Outputs.{squeezeblocks_bytes, squeezeblocks-append}
use karudeb.MlDsa.Params.{q, n}
use karudeb.MlDsa.Reject.{mldsa_rej_uniform}
use karudeb.MlDsa.Symmetric.{dilithium_shake128_stream_init}
use karudeb.MlDsa.Sample.{poly_uniform_nblocks, uniform_loop, poly_uniform}

-- The 23-bit numbers of a byte array, one in each three bytes.
abbrev pub candidates : List ℕ → List ℕ
candidates (b0 ∷ b1 ∷ b2 ∷ buf) = (b0 + b1 * 256 + b2 * 65536) % 2 ^ 23 ∷ candidates buf
candidates buf = []

-- Those below q, as coefficients.
abbrev pub accepted : List ℕ → List ℤ
accepted [] = []
accepted (c ∷ cs) = if ltb c q then pos c ∷ accepted cs else accepted cs

candidate :
    (b0 b1 b2 : ℕ)
    → b0 < 256
    → b1 < 256
    → bit_and (bit_or (bit_or b0 (b1 * 2 ^ 8)) (b2 * 2 ^ 16)) 0x7fffff
      ≡ (b0 + b1 * 256 + b2 * 65536) % 2 ^ 23
candidate b0 b1 b2 h g =
    rw
      (
        bit_or_above 8 b0 b1 (omega arith),
        bit_or_above 16 (b0 + b1 * 2 ^ 8) b2 (omega arith),
        bit_and_ones 23 (b0 + b1 * 2 ^ 8 + b2 * 2 ^ 16) 0x7fffff refl,
      )
      (omega arith)

mldsa_rej_uniform_lem :
    (room : ℕ) (buf : List ℕ)
    → All IsByte buf
    → mldsa_rej_uniform room buf ≡ take room (accepted (candidates buf))
unfolding mldsa_rej_uniform
mldsa_rej_uniform_lem zero [] h = refl
mldsa_rej_uniform_lem zero (_ ∷ []) h = refl
mldsa_rej_uniform_lem zero (_ ∷ _ ∷ []) h = refl
mldsa_rej_uniform_lem zero (_ ∷ _ ∷ _ ∷ _) h = refl
mldsa_rej_uniform_lem (suc room) [] h = refl
mldsa_rej_uniform_lem (suc room) (_ ∷ []) h = refl
mldsa_rej_uniform_lem (suc room) (_ ∷ _ ∷ []) h = refl
mldsa_rej_uniform_lem (suc room) (b0 ∷ b1 ∷ b2 ∷ buf) (h0, (h1, (h2, h))) =
    let c : ℕ = (b0 + b1 * 256 + b2 * 65536) % 2 ^ 23 in
    let some_room : (suc room == 0) ≡ false = ground arith in
    let one_used : suc room - 1 ≡ room = omega arith in
    let none_used : suc room - 0 ≡ suc room = omega arith in
    elim (Bool-cases (ltb c q)) [
      | inl small ↦
          rw (candidate b0 b1 b2 h0 h1, small, some_room, one_used)
            (ap (λ t. pos c ∷ t) (mldsa_rej_uniform_lem room buf h))
      | inr large ↦
          rw (candidate b0 b1 b2 h0 h1, large, some_room, none_used)
            (mldsa_rej_uniform_lem (suc room) buf h)
    ]

-- Arrays of three bytes a group join group by group.
candidates-append :
    (k : ℕ) (a b : List ℕ) → length a ≡ 3 * k → candidates (a ++ b) ≡ candidates a ++ candidates b
candidates-append k [] b h = refl
candidates-append k (_ ∷ []) b h = absurd (omega arith)
candidates-append k (_ ∷ _ ∷ []) b h = absurd (omega arith)
candidates-append k (x ∷ y ∷ z ∷ a) b h =
    ap (λ t. (x + y * 256 + z * 65536) % 2 ^ 23 ∷ t) (candidates-append (k - 1) a b (omega arith))

accepted-append : (a b : List ℕ) → accepted (a ++ b) ≡ accepted a ++ accepted b
accepted-append [] b = refl
accepted-append (c ∷ a) b = elim (Bool-cases (ltb c q)) [
  | inl small ↦ rw small (ap (λ t. pos c ∷ t) (accepted-append a b))
  | inr large ↦ rw large (accepted-append a b)
]

-- The first n of a list, where there are as many.
abbrev pub first_coefficients : List ℤ → Option (List ℤ)
first_coefficients a = if ltb (length a) n then none else some (take n a)

pub length-take_lt : (k : ℕ) (a : List ℤ) → ltb (length (take k a)) k ≡ ltb (length a) k
length-take_lt zero a = ground arith
length-take_lt (suc k) [] = refl
length-take_lt (suc k) (x ∷ a) = ground (arith, length-take_lt k a)

pub take_again :
    (k : ℕ) (a b : List ℤ) → take k a ++ take (k - length (take k a)) b ≡ take k (a ++ b)
take_again zero a b = refl
take_again (suc k) [] b =
    let none_used : suc k - 0 ≡ suc k = omega arith in ap (λ (t : ℕ). take t b) none_used
take_again (suc k) (x ∷ a) b =
    let same : suc k - suc (length (take k a)) ≡ k - length (take k a) = omega arith in
    ap (λ (t : ℕ). x ∷ (take k a ++ take t b)) same ∙ ap (λ t. x ∷ t) (take_again k a b)

take_more : (k : ℕ) (a b : List ℤ) → ltb (length a) k ≡ false → take k (a ++ b) ≡ take k a
take_more zero a b h = refl
take_more (suc k) [] b h = absurd (ground (arith, h))
take_more (suc k) (x ∷ a) b h = ap (λ t. x ∷ t) (take_more k a b (ground (arith, h)))

drop_all : (buf : List ℕ) → drop (length buf) buf ≡ []
drop_all [] = refl
drop_all (x ∷ buf) = drop_all buf

block_groups :
    (count : ℕ) (s : List ℕ)
    → (length (keccak_squeezeblocks count s shake128_rate).0 ≡ 3 * (56 * count))
block_groups count s = let h = squeezeblocks_bytes count s shake128_rate in omega (arith, h.0)

-- One more block adds the numbers it has.
pub stream_step :
    (fuel count : ℕ) (s : List ℕ)
    → (let first = keccak_squeezeblocks count s shake128_rate in
        accepted (candidates (keccak_squeezeblocks (count + fuel) s shake128_rate).0)
        ≡ accepted (candidates first.0)
          ++ accepted (candidates (keccak_squeezeblocks fuel first.1 shake128_rate).0))
stream_step fuel count s =
    let first = keccak_squeezeblocks count s shake128_rate in
    let second = keccak_squeezeblocks fuel first.1 shake128_rate in
    ap (λ (t : List ℕ × List ℕ). accepted (candidates t.0))
      (squeezeblocks-append count fuel s shake128_rate)
    ∙ ap accepted (candidates-append (56 * count) first.0 second.0 (block_groups count s))
    ∙ accepted-append (candidates first.0) (candidates second.0)

-- The buffer is whole groups of three, so nothing of it stays in front of the next block.
kept :
    (k : ℕ) (buf block : List ℕ)
    → length buf ≡ 3 * k
    → drop (length buf - length buf % 3) buf ++ block ≡ block
kept k buf block h =
    let all : length buf - length buf % 3 ≡ length buf = omega (arith, h) in
    ap (λ (t : ℕ). drop t buf ++ block) all ∙ ap (λ (t : List ℕ). t ++ block) (drop_all buf)

-- Once there are enough, what follows is not read.
pub enough_lem :
    (a b : List ℤ) → ltb (length a) n ≡ false → some (take n a) ≡ first_coefficients (a ++ b)
enough_lem a b h =
    let still : ltb (length (a ++ b)) n ≡ false = ground (arith, h, length-append a b) in
    ap some (sym (take_more n a b h))
    ∙ ap (λ t. if t then none else some (take n (a ++ b))) (sym still)

pub choice_lem :
    (a : List ℤ)
    → (if ltb (length (take n a)) n then none else some (take n a)) ≡ first_coefficients a
choice_lem a = ap (λ t. if t then none else some (take n a)) (length-take_lt n a)

no_blocks : (s : List ℕ) → (keccak_squeezeblocks 0 s shake128_rate).0 ≡ []
unfolding keccak_squeezeblocks
no_blocks s = refl

loop_lem :
    (fuel k : ℕ) (a : List ℤ) (buf : List ℕ) (state : KeccakState)
    → length buf ≡ 3 * k
    → uniform_loop fuel (take n a) buf state
      ≡ first_coefficients
          (a ++ accepted (candidates (keccak_squeezeblocks fuel state.s shake128_rate).0))
unfolding uniform_loop shake128_squeezeblocks
loop_lem zero k a buf state h =
    choice_lem a
    ∙ ap first_coefficients
        (sym (append-nil a) ∙ ap (λ t. a ++ accepted (candidates t)) (sym (no_blocks state.s)))
loop_lem (suc fuel) k a buf state h =
    let first = keccak_squeezeblocks 1 state.s shake128_rate in
    let state' : KeccakState = record { s = first.1; pos = state.pos } in
    let new = accepted (candidates first.0) in
    let more = accepted (candidates (keccak_squeezeblocks fuel first.1 shake128_rate).0) in
    let all = accepted (candidates (keccak_squeezeblocks (suc fuel) state.s shake128_rate).0) in
    let one_more : 1 + fuel ≡ suc fuel = omega arith in
    let split : all ≡ new ++ more =
      ap (λ (t : ℕ). accepted (candidates (keccak_squeezeblocks t state.s shake128_rate).0))
        (sym one_more)
      ∙ stream_step fuel 1 state.s in
    let grown : take n a ++ mldsa_rej_uniform (n - length (take n a)) first.0 ≡ take n (a ++ new) =
      ap (λ t. take n a ++ t)
        (mldsa_rej_uniform_lem (n - length (take n a)) first.0
          (squeezeblocks_bytes 1 state.s shake128_rate).1)
      ∙ take_again n a new in
    elim (Bool-cases (ltb (length a) n)) [
      | inl short ↦
          rw (length-take_lt n a, short, kept k buf first.0 h, grown)
            (loop_lem fuel 56 (a ++ new) first.0 state' (block_groups 1 state.s)
              ∙ ap first_coefficients (append_assoc a new more ∙ ap (λ t. a ++ t) (sym split)))
      | inr enough ↦ rw (length-take_lt n a, enough) (enough_lem a all enough)
    ]

-- For every seed, nonce and fuel, `poly_uniform` gives the first 256 numbers below q among the numbers of
-- 23 bits, one in each three bytes, of the first five blocks and `fuel` more blocks of its stream squeezed
-- in one go, and `none` where these hold fewer than 256.
pub poly_uniform_lem :
    (fuel : ℕ) (seed : List ℕ) (nonce : ℕ)
    → (let state = dilithium_shake128_stream_init seed (u16 nonce) in
        let blocks = keccak_squeezeblocks (poly_uniform_nblocks + fuel) state.s shake128_rate in
        poly_uniform fuel seed nonce ≡ first_coefficients (accepted (candidates blocks.0)))
unfolding poly_uniform shake128_squeezeblocks
poly_uniform_lem fuel seed nonce =
    let start = dilithium_shake128_stream_init seed (u16 nonce) in
    let first = keccak_squeezeblocks poly_uniform_nblocks start.s shake128_rate in
    ap (λ t. uniform_loop fuel t first.0 (record { s = first.1; pos = start.pos }))
      (mldsa_rej_uniform_lem n first.0
        (squeezeblocks_bytes poly_uniform_nblocks start.s shake128_rate).1)
    ∙ loop_lem fuel (56 * poly_uniform_nblocks) (accepted (candidates first.0)) first.0
        (record { s = first.1; pos = start.pos }) (block_groups poly_uniform_nblocks start.s)
    ∙ ap first_coefficients (sym (stream_step fuel poly_uniform_nblocks start.s))
