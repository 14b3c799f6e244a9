-- ===== src/MlKem/Verify.antt =====
-- tools/pqc/mlkem/verify.c: the comparison and the conditional moves that do not branch.
pub mod Compare
pub mod Move
use karudeb.Base.{ℕ, zero, suc, ◌+◌, ◌-◌, ◌/◌, ◌%◌, ◌^◌, ℤ, pos, List, [], ◌∷◌}
use karudeb.Base.{bit_and, bit_or, bit_xor, to_u32, i16, u8, u16}

-- The loop of `verify` with its accumulator r, a uint8_t; `len` counts the rounds left. Both arrays
-- hold len bytes at least, and the loop ends where one of them does.
unfoldable pub verify_loop : ℕ → List ℕ → List ℕ → ℕ → ℕ
verify_loop zero a b r = r
verify_loop (suc len) [] b r = r
verify_loop (suc len) (x ∷ a) [] r = r
verify_loop (suc len) (x ∷ a) (y ∷ b) r = verify_loop len a b (u8 (bit_or r (bit_xor x y)))

-- int verify(a, b, len): (-(uint64_t) r) >> 63
unfoldable pub verify : List ℕ → List ℕ → ℕ → ℕ
verify a b len = (2 ^ 64 - verify_loop len a b 0) % 2 ^ 64 / 2 ^ 63

-- The loop of `cmov`, with the mask b after its negation.
unfoldable pub cmov_loop : List ℕ → List ℕ → ℕ → ℕ → List ℕ
cmov_loop r x zero mask = r
cmov_loop [] x (suc len) mask = []
cmov_loop (r ∷ rs) [] (suc len) mask = r ∷ rs
cmov_loop (r ∷ rs) (x ∷ xs) (suc len) mask =
    u8 (bit_xor r (bit_and mask (bit_xor r x))) ∷ cmov_loop rs xs len mask

-- void cmov(r, x, len, b), on bytes; `b = -b` in uint8_t.
unfoldable pub cmov : List ℕ → List ℕ → ℕ → ℕ → List ℕ
unfolding cmov_loop
cmov r x len b = cmov_loop r x len (u8 (2 ^ 8 - b))

-- void cmov_int16(r, v, b); `b = -b` in uint16_t. The operators work on 32-bit patterns.
unfoldable pub cmov_int16 : ℤ → ℤ → ℕ → ℤ
cmov_int16 r v b =
    let mask = u16 (2 ^ 16 - b) in
    i16 (pos (bit_xor (to_u32 r) (bit_and mask (bit_xor (to_u32 r) (to_u32 v)))))
