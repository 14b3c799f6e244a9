-- ===== src/Keccak/Sponge/Absorb.antt =====
-- `keccak_absorb` does what absorbing byte by byte does.
use karudeb.Base.{ℕ, zero, suc, ◌+◌, ◌-◌, ◌≤◌, ◌<◌, ◌≡◌, refl, ap, ◌∙◌, sym, arith}
use karudeb.Base.{
  List, [], ◌∷◌, ◌++◌, length, take, drop, length-drop, Bool-cases, inl, inr, leb, ◌==◌, false,
}
use mathlib.Core.Path.{subst}
use karudeb.Keccak.Permute.{keccak_f1600_state_permute}
use karudeb.Keccak.Sponge.{xor_byte, xor_bytes, absorb_loop, keccak_absorb}
use karudeb.Keccak.Sponge.Bytewise.{absorb_bytes, absorb_bytes-append}

-- Input that does not fill the block.
pub partial_block :
    (s : List ℕ) (pos r : ℕ) (input : List ℕ)
    → pos + length input < r
    → absorb_bytes s pos r input ≡ (xor_bytes s pos input, pos + length input)
unfolding absorb_bytes xor_bytes
partial_block s pos r [] h = ap (λ (t : ℕ). (s, t)) (omega arith)
partial_block s pos r (b ∷ input) h =
    let open_block : ((pos + 1) == r) ≡ false = ground arith in
    rw open_block (
      partial_block (xor_byte s pos b) (pos + 1) r input (omega arith)
      ∙ ap (λ (t : ℕ). (xor_bytes (xor_byte s pos b) (pos + 1) input, t)) (omega arith))

-- Input that fills it.
pub whole_block :
    (s : List ℕ) (pos r : ℕ) (input : List ℕ)
    → pos < r
    → r ≤ pos + length input
    → absorb_bytes s pos r input
      ≡ absorb_bytes
          (keccak_f1600_state_permute (xor_bytes s pos (take (r - pos) input)))
          0
          r
          (drop (r - pos) input)
unfolding absorb_bytes xor_bytes
whole_block s pos r [] h k = absurd (omega arith)
whole_block s pos r (b ∷ input) h k = elim (Bool-cases ((pos + 1) == r)) [
  | inl full ↦ let one : r - pos ≡ suc 0 = ground arith in rw (full, one) refl
  | inr open_block ↦
      let more : r - pos ≡ suc (r - (pos + 1)) = ground arith in
      rw (open_block, more)
        (whole_block (xor_byte s pos b) (pos + 1) r input (ground arith) (omega arith))
]

-- The loop followed by the tail, in general.
pub absorb_loop-absorb_bytes :
    (fuel : ℕ) (s : List ℕ) (pos r : ℕ) (input : List ℕ)
    → pos < r
    → length input < fuel
    → (let out = absorb_loop fuel s pos r input in
        ◌≡◌ {A = List ℕ × ℕ}
          (xor_bytes out.0 out.1 out.2, out.1 + length out.2)
          (absorb_bytes s pos r input))
unfolding absorb_loop
absorb_loop-absorb_bytes zero s pos r input h k = absurd (omega arith)
absorb_loop-absorb_bytes (suc fuel) s pos r input h k =
    elim (Bool-cases (leb r (pos + length input))) [
      | inl full ↦
          let shorter : length (drop (r - pos) input) ≡ length input - (r - pos) =
            length-drop (r - pos) input in
          let enough : length (drop (r - pos) input) < fuel = ground (arith, shorter) in
          rw full (
            absorb_loop-absorb_bytes fuel
              (keccak_f1600_state_permute (xor_bytes s pos (take (r - pos) input))) 0 r
              (drop (r - pos) input) (omega arith) enough
            ∙ sym (whole_block s pos r input h (ground arith)))
      | inr open_block ↦ rw open_block (sym (partial_block s pos r input (ground arith)))
    ]

-- For a position inside the block, `keccak_absorb` leaves the state and the position that absorbing
-- the input byte by byte leaves, with the permutation each time that a block is full.
pub keccak_absorb-absorb_bytes :
    (s : List ℕ) (pos r : ℕ) (input : List ℕ)
    → pos < r
    → keccak_absorb s pos r input ≡ absorb_bytes s pos r input
unfolding keccak_absorb
keccak_absorb-absorb_bytes s pos r input h =
    absorb_loop-absorb_bytes (length input + 2) s pos r input h (omega arith)

-- The position stays inside the block.
pub absorb_bytes-position :
    (s : List ℕ) (pos r : ℕ) (input : List ℕ) → pos < r → (absorb_bytes s pos r input).1 < r
unfolding absorb_bytes
absorb_bytes-position s pos r [] h = h
absorb_bytes-position s pos r (b ∷ input) h = elim (Bool-cases ((pos + 1) == r)) [
  | inl full ↦
      rw (full, absorb_bytes)
        (absorb_bytes-position (keccak_f1600_state_permute (xor_byte s pos b)) 0 r input
          (omega arith))
  | inr open_block ↦
      rw (open_block, absorb_bytes)
        (absorb_bytes-position (xor_byte s pos b) (pos + 1) r input (ground arith))
]

-- For a position inside the block, absorbing two pieces one after the other leaves the state and the
-- position that absorbing them as one leaves, and the position is inside the block again.
pub keccak_absorb-append :
    (s : List ℕ) (pos r : ℕ) (a b : List ℕ)
    → pos < r
    → (let once = keccak_absorb s pos r a in
        (keccak_absorb once.0 once.1 r b ≡ keccak_absorb s pos r (a ++ b)) × (once.1 < r))
keccak_absorb-append s pos r a b h =
    let first = keccak_absorb-absorb_bytes s pos r a h in
    let inside = absorb_bytes-position s pos r a h in
    let both : absorb_bytes (absorb_bytes s pos r a).0 (absorb_bytes s pos r a).1 r b
        ≡ absorb_bytes s pos r (a ++ b) =
      sym (absorb_bytes-append s pos r a b) in
    subst
      (λ (t : List ℕ × ℕ). (keccak_absorb t.0 t.1 r b ≡ keccak_absorb s pos r (a ++ b)) × (t.1 < r))
      (sym first)
      (
        keccak_absorb-absorb_bytes (absorb_bytes s pos r a).0 (absorb_bytes s pos r a).1 r b inside
            ∙ both
            ∙ sym (keccak_absorb-absorb_bytes s pos r (a ++ b) h),
        inside,
      )
