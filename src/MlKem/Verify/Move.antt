-- ===== src/MlKem/Verify/Move.antt =====
-- `cmov` and `cmov_int16` keep their target for the bit 0 and replace it for the bit 1.
use karudeb.Base.{ℕ, zero, suc, ◌/◌, ◌%◌, ◌^◌, ◌≤◌, ◌<◌, ◌≡◌, refl, ap, ap₂, arith}
use karudeb.Base.{List, [], ◌∷◌, ◌++◌, length, take, drop, All, ℤ, pos, pos_part, neg_part}
use karudeb.Base.{div_parts, residue, to_u32, i16, u8}
use karudeb.Base.{bit_and, bit_xor, ones-bit_and, bit_xor_cancel, bit_xor-zero_right, bit_xor_lt}
use karudeb.Base.{bit_xor_fields}
use Prim.Native.Nat.{bit_and-bitwise}
use karudeb.MlKem.Verify.{cmov_loop, cmov, cmov_int16}
use karudeb.MlKem.Verify.Compare.{IsByte}

all_ones : (r x : ℕ) → IsByte r → IsByte x → u8 (bit_xor r (bit_and 0xff (bit_xor r x))) ≡ x
all_ones r x hr hx =
    ground (arith, ones-bit_and 8 0xff (bit_xor r x), bit_xor_lt 8 r x, bit_xor_cancel 8 r x)

no_ones : (r x : ℕ) → IsByte r → u8 (bit_xor r (bit_and 0 (bit_xor r x))) ≡ r
no_ones r x hr = rw (bit_and-bitwise 0 (bit_xor r x), bit_xor-zero_right 8 r hr) (omega arith)

cmov_keeps : (len : ℕ) (r x : List ℕ) → All IsByte r → cmov_loop r x len 0 ≡ r
unfolding cmov_loop
cmov_keeps zero r x h = refl
cmov_keeps (suc len) [] x h = refl
cmov_keeps (suc len) (r ∷ rs) [] h = refl
cmov_keeps (suc len) (r ∷ rs) (x ∷ xs) h = ap₂ ◌∷◌ (no_ones r x h.0) (cmov_keeps len rs xs h.1)

cmov_moves :
    (len : ℕ) (r x : List ℕ)
    → All IsByte r
    → All IsByte x
    → len ≤ length r
    → len ≤ length x
    → cmov_loop r x len 0xff ≡ take len x ++ drop len r
unfolding cmov_loop
cmov_moves zero r x hr hx kr kx = refl
cmov_moves (suc len) [] x hr hx kr kx = absurd (omega arith)
cmov_moves (suc len) (r ∷ rs) [] hr hx kr kx = absurd (omega arith)
cmov_moves (suc len) (r ∷ rs) (x ∷ xs) hr hx kr kx =
    ap₂ ◌∷◌ (all_ones r x hr.0 hx.0) (cmov_moves len rs xs hr.1 hx.1 (omega arith) (omega arith))

-- On byte arrays of at least len bytes, `cmov` with b = 0 leaves r as it is, and with b = 1 writes
-- the first len bytes of x over those of r and leaves the rest.
pub cmov_lem :
    (r x : List ℕ) (len : ℕ)
    → All IsByte r
    → All IsByte x
    → len ≤ length r
    → len ≤ length x
    → (cmov r x len 0 ≡ r) × (cmov r x len 1 ≡ take len x ++ drop len r)
unfolding cmov
cmov_lem r x len hr hx kr kx = (cmov_keeps len r x hr, cmov_moves len r x hr hx kr kx)

-- A 32-bit pattern as two halves of 16 bits.
mixed_halves : (r v : ℕ) → bit_xor r (bit_and 0xffff (bit_xor r v)) % 2 ^ 16 ≡ v % 2 ^ 16
mixed_halves r v = ground (
  arith,
  ones-bit_and 16 0xffff (bit_xor r v),
  bit_xor_fields 16 (r / 2 ^ 16) (v / 2 ^ 16) (r % 2 ^ 16) (v % 2 ^ 16),
  bit_xor_fields 16 (r / 2 ^ 16) 0 (r % 2 ^ 16) (bit_xor (r % 2 ^ 16) (v % 2 ^ 16)),
  bit_xor_cancel 16 (r % 2 ^ 16) (v % 2 ^ 16),
  bit_xor_lt 16 (r % 2 ^ 16) (v % 2 ^ 16),
)

-- The conversion to int16_t reads the low half of a pattern.
low_half :
    (p : ℕ) (v : ℤ)
    → pos_part v < 2 ^ 15
    → neg_part v ≤ 2 ^ 15
    → p % 2 ^ 16 ≡ to_u32 v % 2 ^ 16
    → i16 (pos p) ≡ v
unfolding i16 residue
low_half p v h k e = ground arith

-- On int16_t values, `cmov_int16` with b = 0 leaves r as it is, and with b = 1 gives v.
pub cmov_int16_lem :
    (r v : ℤ)
    → pos_part r < 2 ^ 15
    → neg_part r ≤ 2 ^ 15
    → pos_part v < 2 ^ 15
    → neg_part v ≤ 2 ^ 15
    → (cmov_int16 r v 0 ≡ r) × (cmov_int16 r v 1 ≡ v)
unfolding cmov_int16
cmov_int16_lem r v hr kr hv kv =
    let R = to_u32 r in
    let V = to_u32 v in
    let R_fits : R < 2 ^ 32 = omega (arith, div_parts r (2 ^ 32) (omega arith)) in
    let kept : bit_xor R (bit_and 0 (bit_xor R V)) ≡ R =
      rw (bit_and-bitwise 0 (bit_xor R V)) (bit_xor-zero_right 32 R R_fits) in
    (low_half _ r hr kr (ap (λ t. t % 2 ^ 16) kept), low_half _ v hv kv (mixed_halves R V))
