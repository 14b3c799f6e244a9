-- ===== src/MlDsa/Challenge/Stream.antt =====
-- The bytes that `next_index` reads, as one stream.
use karudeb.Base.{ℕ, zero, suc, ◌+◌, ◌<◌, ◌≤◌, ◌≡◌, refl, ap, ◌∙◌, arith}
use karudeb.Base.{List, get_or, drop, ltb, ltb→lt, Bool-cases, inl, inr, Option, none, some}
use karudeb.Keccak.Shake.{KeccakState}
use karudeb.MlDsa.Challenge.{refilled, next_index}

-- What is unread, and the state, after one byte.
abbrev pub advance : List ℕ × KeccakState → List ℕ × KeccakState
advance x = let (buf, state) = refilled x.0 x.1 in (drop 1 buf, state)

unfoldable pub after : ℕ → List ℕ × KeccakState → List ℕ × KeccakState
after zero x = x
after (suc p) x = after p (advance x)

-- The byte at a position of the stream.
unfoldable pub byte_at : ℕ → List ℕ × KeccakState → ℕ
byte_at p x = get_or (refilled (after p x).0 (after p x).1).0 0 0

pub after-after : (p k : ℕ) (x : List ℕ × KeccakState) → after k (after p x) ≡ after (p + k) x
unfolding after
after-after zero k x = let sum : k ≡ 0 + k = omega arith in ap (λ (t : ℕ). after t x) sum
after-after (suc p) k x =
    let sum : suc (p + k) ≡ suc p + k = omega arith in
    after-after p k (advance x) ∙ ap (λ (t : ℕ). after t x) sum

pub byte_at-after : (p k : ℕ) (x : List ℕ × KeccakState) → byte_at k (after p x) ≡ byte_at (p + k) x
unfolding byte_at
byte_at-after p k x =
    ap (λ (t : List ℕ × KeccakState). get_or (refilled t.0 t.1).0 0 0) (after-after p k x)

-- So many bytes from a position on that are above i.
abbrev pub Above : ℕ → ℕ → ℕ → List ℕ × KeccakState → Type 0
Above i p count x = (k : ℕ) → p ≤ k → k < p + count → i < byte_at k x

-- A byte that is at most i, with the stream behind it; or the fuel was spent on bytes above i.
abbrev pub Found : ℕ → ℕ → List ℕ × KeccakState → Option (ℕ × List ℕ × KeccakState) → Type 0
Found fuel i x none = Above i 0 fuel x
Found fuel i x (some (b, buf, state)) = (b ≤ i) × (p : ℕ) × ((buf, state) ≡ after p x)

skipped :
    (fuel i : ℕ) (x : List ℕ × KeccakState) (o : Option (ℕ × List ℕ × KeccakState))
    → i < byte_at 0 x
    → Found fuel i (advance x) o
    → Found (suc fuel) i x o
unfolding after byte_at
skipped fuel i x none h found = go
  where
    go : Above i 0 (suc fuel) x
    go zero k g = h
    go (suc j) k g = found j (omega arith) (omega arith)
skipped fuel i x (some (b, buf, state)) h (small, p, e) = (small, suc p, e)

pub next_index-Found :
    (fuel i : ℕ) (x : List ℕ × KeccakState) → Found fuel i x (next_index fuel i x.0 x.1)
unfolding next_index
next_index-Found zero i x = λ k h g. absurd (omega arith)
next_index-Found (suc fuel) i x =
    let b : ℕ = get_or (refilled x.0 x.1).0 0 0 in
    elim (Bool-cases (ltb i b)) [
      | inl above ↦
          let over : i < b = ltb→lt i b above in
          let first : i < byte_at 0 x = unfold after byte_at in over in
          rw above (skipped fuel i x _ first (next_index-Found fuel i (advance x)))
      | inr within ↦
          let under : b ≤ i = ground arith in
          let next : (drop 1 (refilled x.0 x.1).0, (refilled x.0 x.1).1) ≡ after 1 x =
            unfold after in refl in
          rw within (under, 1, next)
    ]
