-- ===== src/Keccak/Sponge/Squeeze.antt =====
-- `keccak_squeeze` does what squeezing byte by byte does.
use karudeb.Base.{ℕ, zero, suc, ◌+◌, ◌-◌, ◌≤◌, ◌<◌, ◌≡◌, refl, ap, ◌∙◌, sym, arith}
use karudeb.Base.{
  List, [], ◌∷◌, ◌++◌, length, Bool-cases, inl, inr, if◌then◌else◌, ltb, ◌==◌, false,
}
use karudeb.Keccak.Sponge.{byte_of, read_bytes, squeeze_loop, keccak_squeeze}
use karudeb.Keccak.Sponge.Bytewise.{refreshed, squeeze_bytes}

-- Bytes that the block still holds.
pub inside_block :
    (n : ℕ) (s : List ℕ) (pos r : ℕ)
    → pos + n ≤ r
    → squeeze_bytes n s pos r ≡ (read_bytes s pos n, s, pos + n)
unfolding squeeze_bytes read_bytes
inside_block zero s pos r h = ap (λ (t : ℕ). ([], s, t)) (omega arith)
inside_block (suc n) s pos r h =
    let unread : (pos == r) ≡ false = ground arith in
    let rest = inside_block n s (pos + 1) r (omega arith) in
    rw (unread, rest)
      (ap (λ (t : ℕ). (byte_of s pos ∷ read_bytes s (pos + 1) n, s, t)) (omega arith))

-- Squeezing n bytes and then m gives the bytes that squeezing n + m gives, and the same state.
pub squeeze_bytes-append :
    (n m : ℕ) (s : List ℕ) (pos r : ℕ)
    → (let a = squeeze_bytes n s pos r in
        let b = squeeze_bytes m a.1 a.2 r in squeeze_bytes (n + m) s pos r ≡ (a.0 ++ b.0, b.1, b.2))
unfolding squeeze_bytes
squeeze_bytes-append zero m s pos r =
    let sum : 0 + m ≡ m = omega arith in ap (λ (t : ℕ). squeeze_bytes t s pos r) sum
squeeze_bytes-append (suc n) m s pos r =
    let next = refreshed s pos r in
    let sum : suc n + m ≡ suc (n + m) = omega arith in
    ap (λ (t : ℕ). squeeze_bytes t s pos r) sum
    ∙ ap (λ (t : List ℕ × List ℕ × ℕ). (byte_of next.0 next.1 ∷ t.0, t.1, t.2))
        (squeeze_bytes-append n m next.0 (next.1 + 1) r)

-- The permutation at the end of a block may be done before the bytes are asked for.
pub squeeze_bytes-refreshed :
    (n : ℕ) (s : List ℕ) (pos r : ℕ)
    → 0 < n
    → 0 < r
    → (let next = refreshed s pos r in squeeze_bytes n s pos r ≡ squeeze_bytes n next.0 next.1 r)
unfolding squeeze_bytes
squeeze_bytes-refreshed zero s pos r h k = absurd (omega arith)
squeeze_bytes-refreshed (suc n) s pos r h k = elim (Bool-cases (pos == r)) [
  | inl full ↦ let unread : (0 == r) ≡ false = ground arith in rw (full, unread) refl
  | inr unread ↦ rw (unread, unread) refl
]

-- So the bytes that the block still holds come first.
pub squeeze_bytes-block :
    (count n : ℕ) (s : List ℕ) (pos r : ℕ)
    → pos + count ≤ r
    → count ≤ n
    → (let rest = squeeze_bytes (n - count) s (pos + count) r in
        squeeze_bytes n s pos r ≡ (read_bytes s pos count ++ rest.0, rest.1, rest.2))
squeeze_bytes-block count n s pos r h k =
    let sum : n ≡ count + (n - count) = omega arith in
    ap (λ (t : ℕ). squeeze_bytes t s pos r) sum
    ∙ squeeze_bytes-append count (n - count) s pos r
    ∙ ap
        (λ (a : List ℕ × List ℕ × ℕ).
          let b = squeeze_bytes (n - count) a.1 a.2 r in (a.0 ++ b.0, b.1, b.2))
        (inside_block count s pos r h)

pub squeeze_loop-squeeze_bytes :
    (fuel n : ℕ) (s : List ℕ) (pos r : ℕ)
    → n < fuel
    → 0 < r
    → pos ≤ r
    → squeeze_loop fuel n s pos r ≡ squeeze_bytes n s pos r
unfolding squeeze_loop
squeeze_loop-squeeze_bytes zero n s pos r h k g = absurd (omega arith)
squeeze_loop-squeeze_bytes (suc fuel) zero s pos r h k g = unfold squeeze_bytes in refl
squeeze_loop-squeeze_bytes (suc fuel) (suc n) s pos r h k g =
    let next = refreshed s pos r in
    let count : ℕ = if ltb (r - next.1) (suc n) then r - next.1 else suc n in
    let start : next.1 < r = ground arith in
    let some_byte : 0 < count = ground arith in
    let inside : next.1 + count ≤ r = ground arith in
    let enough : count ≤ suc n = ground arith in
    let unfinished : (suc n == 0) ≡ false = ground arith in
    rw unfinished (
      sym (
        squeeze_bytes-refreshed (suc n) s pos r (omega arith) k
        ∙ squeeze_bytes-block count (suc n) next.0 next.1 r inside enough
        ∙ ap
            (λ (rest : List ℕ × List ℕ × ℕ).
              (read_bytes next.0 next.1 count ++ rest.0, rest.1, rest.2))
            (sym (
              squeeze_loop-squeeze_bytes fuel (suc n - count) next.0 (next.1 + count) r
                (omega arith) k inside))))

-- For a position not past the block's end, `keccak_squeeze` gives the bytes, the state and the position
-- that reading byte by byte gives, with the permutation each time that a byte is wanted past the end.
pub keccak_squeeze-squeeze_bytes :
    (outlen : ℕ) (s : List ℕ) (pos r : ℕ)
    → 0 < r
    → pos ≤ r
    → keccak_squeeze outlen s pos r ≡ squeeze_bytes outlen s pos r
unfolding keccak_squeeze
keccak_squeeze-squeeze_bytes outlen s pos r h k =
    squeeze_loop-squeeze_bytes (outlen + 1) outlen s pos r (omega arith) h k

pub length-squeeze_bytes : (n : ℕ) (s : List ℕ) (pos r : ℕ) → length (squeeze_bytes n s pos r).0 ≡ n
unfolding squeeze_bytes
length-squeeze_bytes zero s pos r = refl
length-squeeze_bytes (suc n) s pos r =
    let next = refreshed s pos r in ap suc (length-squeeze_bytes n next.0 (next.1 + 1) r)

pub squeeze_bytes-position :
    (n : ℕ) (s : List ℕ) (pos r : ℕ) → 0 < r → pos ≤ r → (squeeze_bytes n s pos r).2 ≤ r
unfolding squeeze_bytes
squeeze_bytes-position zero s pos r h k = k
squeeze_bytes-position (suc n) s pos r h k =
    let next = refreshed s pos r in
    let inside : next.1 + 1 ≤ r = ground arith in
    squeeze_bytes-position n next.0 (next.1 + 1) r h inside

-- For a position not past the block's end, squeezing n bytes and then m gives the bytes, the state and
-- the position that squeezing n + m bytes gives.
pub keccak_squeeze-append :
    (n m : ℕ) (s : List ℕ) (pos r : ℕ)
    → 0 < r
    → pos ≤ r
    → (let first = keccak_squeeze n s pos r in
        let second = keccak_squeeze m first.1 first.2 r in
        keccak_squeeze (n + m) s pos r ≡ (first.0 ++ second.0, second.1, second.2))
keccak_squeeze-append n m s pos r h k =
    let first = keccak_squeeze-squeeze_bytes n s pos r h k in
    let a = squeeze_bytes n s pos r in
    let inside = squeeze_bytes-position n s pos r h k in
    keccak_squeeze-squeeze_bytes (n + m) s pos r h k
    ∙ squeeze_bytes-append n m s pos r
    ∙ ap (λ (t : List ℕ × List ℕ × ℕ). (a.0 ++ t.0, t.1, t.2))
        (sym (keccak_squeeze-squeeze_bytes m a.1 a.2 r h inside))
    ∙ ap (λ (t : List ℕ × List ℕ × ℕ). let b = keccak_squeeze m t.1 t.2 r in (t.0 ++ b.0, b.1, b.2))
        (sym first)
