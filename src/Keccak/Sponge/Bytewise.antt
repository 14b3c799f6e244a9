-- ===== src/Keccak/Sponge/Bytewise.antt =====
-- The sponge one byte at a time: what the buffered loops have to agree with.
use karudeb.Base.{ℕ, zero, suc, ◌+◌, ◌==◌, List, [], ◌∷◌, ◌++◌, if◌then◌else◌, ◌≡◌, refl}
use karudeb.Keccak.Permute.{keccak_f1600_state_permute}
use karudeb.Keccak.Sponge.{xor_byte, byte_of}

-- A byte goes to the position. A full block is permuted at once.
abbrev pub absorbed : List ℕ → ℕ → ℕ → ℕ → List ℕ × ℕ
absorbed s pos r b =
    if (pos + 1) == r
    then (keccak_f1600_state_permute (xor_byte s pos b), 0)
    else (xor_byte s pos b, pos + 1)

unfoldable pub absorb_bytes : List ℕ → ℕ → ℕ → List ℕ → List ℕ × ℕ
absorb_bytes s pos r [] = (s, pos)
absorb_bytes s pos r (b ∷ input) =
    let next = absorbed s pos r b in absorb_bytes next.0 next.1 r input

-- A block that was read to its end is permuted when the next byte is asked for.
abbrev pub refreshed : List ℕ → ℕ → ℕ → List ℕ × ℕ
refreshed s pos r = if pos == r then (keccak_f1600_state_permute s, 0) else (s, pos)

unfoldable pub squeeze_bytes : ℕ → List ℕ → ℕ → ℕ → List ℕ × List ℕ × ℕ
squeeze_bytes zero s pos r = ([], s, pos)
squeeze_bytes (suc n) s pos r =
    let (s', pos') = refreshed s pos r in
    let rest = squeeze_bytes n s' (pos' + 1) r in (byte_of s' pos' ∷ rest.0, rest.1, rest.2)

-- Absorbing two inputs one after the other is absorbing them together.
pub absorb_bytes-append :
    (s : List ℕ) (pos r : ℕ) (a b : List ℕ)
    → absorb_bytes s pos r (a ++ b)
      ≡ absorb_bytes (absorb_bytes s pos r a).0 (absorb_bytes s pos r a).1 r b
unfolding absorb_bytes
absorb_bytes-append s pos r [] b = refl
absorb_bytes-append s pos r (x ∷ a) b =
    let next = absorbed s pos r x in absorb_bytes-append next.0 next.1 r a b
