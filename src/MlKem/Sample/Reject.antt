-- ===== src/MlKem/Sample/Reject.antt =====
-- Rejection sampling takes the first acceptable 12-bit numbers of its input.
use karudeb.Base.{ℕ, zero, suc, ◌+◌, ◌-◌, ◌*◌, ◌/◌, ◌%◌, ◌<◌, ◌≡◌, refl, arith}
use karudeb.Base.{
  ℤ, pos, pos_part, neg_part, ltb→lt, List, [], ◌∷◌, ◌++◌, length, take, All, ltb, ◌==◌,
  if◌then◌else◌, ◌&&◌,
}
use karudeb.Base.{Bool-cases, inl, inr, true, false}
use karudeb.MlKem.Reduce.{q}
use karudeb.MlKem.Verify.Compare.{IsByte}
use karudeb.MlKem.Poly.Bytes.{unpack_pair}
use karudeb.MlKem.Sample.{mlkem_rej_uniform}

-- The 12-bit numbers of a byte array, two in each three bytes.
abbrev pub candidates : List ℕ → List ℕ
candidates (b0 ∷ b1 ∷ b2 ∷ buf) = (b0 + b1 % 16 * 256) ∷ (b1 / 16 + b2 * 16) ∷ candidates buf
candidates buf = []

-- Those below q, as coefficients.
abbrev pub accepted : List ℕ → List ℤ
accepted [] = []
accepted (c ∷ cs) = if ltb c q then pos c ∷ accepted cs else accepted cs

-- What one round writes for its two numbers, with room for `room`.
abbrev first_out : ℕ → List ℤ
first_out c = if ltb c q then pos c ∷ [] else []

abbrev second_out : ℕ → ℕ → List ℤ
second_out room c = if ltb 0 room && ltb c q then pos c ∷ [] else []

pair_accepted : ℕ → ℕ → List ℤ → List ℤ
pair_accepted c d rest =
    let rest' = if ltb d q then pos d ∷ rest else rest in if ltb c q then pos c ∷ rest' else rest'

round_takes :
    (room c d : ℕ) (rest : List ℤ)
    → let room1 = suc room - length (first_out c) in
      (if suc room == 0
        then []
        else first_out c ++ (second_out room1 d ++ take (room1 - length (second_out room1 d)) rest))
      ≡ take (suc room) (pair_accepted c d rest)
unfolding pair_accepted
round_takes zero c d rest = elim (Bool-cases (ltb c q)) [
  | inl yes0 ↦ rw yes0 refl
  | inr no0 ↦ elim (Bool-cases (ltb d q)) [
    | inl yes1 ↦ rw (no0, yes1) refl
    | inr no1 ↦ rw (no0, no1) refl
  ]
]
round_takes (suc room) c d rest =
    let some_room : (suc (suc room) == 0) ≡ false = ground arith in
    let none_used : suc (suc room) - 0 ≡ suc (suc room) = omega arith in
    let one_used : suc (suc room) - 1 ≡ suc room = omega arith in
    let two_used : suc room - 1 ≡ room = omega arith in
    let room_0 : ltb 0 (suc (suc room)) ≡ true = ground arith in
    let room_1 : ltb 0 (suc room) ≡ true = ground arith in
    let kept : suc room - 0 ≡ suc room = omega arith in
    elim (Bool-cases (ltb c q)) [
      | inl yes0 ↦ elim (Bool-cases (ltb d q)) [
        | inl yes1 ↦ rw (yes0, yes1, some_room, one_used, room_1, two_used) refl
        | inr no1 ↦ rw (yes0, no1, some_room, one_used, room_1, kept) refl
      ]
      | inr no0 ↦ elim (Bool-cases (ltb d q)) [
        | inl yes1 ↦ rw (no0, yes1, some_room, none_used, room_0, one_used) refl
        | inr no1 ↦ rw (no0, no1, some_room, none_used, room_0, none_used) refl
      ]
    ]

-- On every byte array, `mlkem_rej_uniform` with room for `room` coefficients gives the first `room`
-- of the 12-bit numbers below q, or all of them where there are fewer.
pub rej_uniform-accepted :
    (room : ℕ) (buf : List ℕ)
    → All IsByte buf
    → mlkem_rej_uniform room buf ≡ take room (accepted (candidates buf))
unfolding mlkem_rej_uniform
rej_uniform-accepted zero [] h = refl
rej_uniform-accepted zero (_ ∷ []) h = refl
rej_uniform-accepted zero (_ ∷ _ ∷ []) h = refl
rej_uniform-accepted zero (_ ∷ _ ∷ _ ∷ _) h = refl
rej_uniform-accepted (suc room) [] h = refl
rej_uniform-accepted (suc room) (_ ∷ []) h = refl
rej_uniform-accepted (suc room) (_ ∷ _ ∷ []) h = refl
rej_uniform-accepted (suc room) (b0 ∷ b1 ∷ b2 ∷ buf) (h0, (h1, (h2, h))) =
    let (low, high) = unpack_pair b0 b1 b2 h0 h1 h2 in
    let c : ℕ = b0 + b1 % 16 * 256 in
    let d : ℕ = b1 / 16 + b2 * 16 in
    let room1 : ℕ = suc room - length (first_out c) in
    rw (low, high, rej_uniform-accepted (room1 - length (second_out room1 d)) buf h)
      (unfold pair_accepted in round_takes room c d (accepted (candidates buf)))

-- Each coefficient that is taken lies from 0 to q - 1.
accepted_lt : (cs : List ℕ) → All (λ c. (neg_part c ≡ 0) × (pos_part c < q)) (accepted cs)
accepted_lt [] = tt
accepted_lt (c ∷ cs) = elim (Bool-cases (ltb c q)) [
  | inl small ↦ rw small ((refl, ltb→lt c q small), accepted_lt cs)
  | inr large ↦ rw large (accepted_lt cs)
]
