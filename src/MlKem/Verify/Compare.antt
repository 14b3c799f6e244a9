-- ===== src/MlKem/Verify/Compare.antt =====
-- `verify` decides whether two byte arrays agree.
use karudeb.Base.{ℕ, zero, suc, ◌^◌, ◌≤◌, ◌<◌, ◌≡◌, refl, ap₂, arith}
use karudeb.Base.{◌⊎◌, inl, inr, List, [], ◌∷◌, length, take, All, ◌≢◌}
use karudeb.Base.{
  u8, bit_or, bit_xor, bit_or_lt, bit_xor_lt, bit_or_zero, bit_xor_zero, bit_xor_self,
}
use karudeb.MlKem.Verify.{verify_loop, verify}

abbrev pub IsByte : ℕ → Type 0
IsByte b = b < 2 ^ 8

-- The accumulator stays a byte.
loop_IsByte : (len : ℕ) (a b : List ℕ) (r : ℕ) → IsByte r → IsByte (verify_loop len a b r)
unfolding verify_loop
loop_IsByte zero a b r h = h
loop_IsByte (suc len) [] b r h = h
loop_IsByte (suc len) (x ∷ a) [] r h = h
loop_IsByte (suc len) (x ∷ a) (y ∷ b) r h = loop_IsByte len a b _ (omega arith)

-- It ends at zero exactly when it started there and no pair differs.
loop_zero :
    (len : ℕ) (a b : List ℕ) (r : ℕ)
    → All IsByte a
    → All IsByte b
    → IsByte r
    → len ≤ length a
    → len ≤ length b
    → verify_loop len a b r ≡ 0
    → (r ≡ 0) × (take len a ≡ take len b)
unfolding verify_loop
loop_zero zero a b r ha hb hr ka kb e = (e, refl)
loop_zero (suc len) [] b r ha hb hr ka kb e = absurd (omega arith)
loop_zero (suc len) (x ∷ a) [] r ha hb hr ka kb e = absurd (omega arith)
loop_zero (suc len) (x ∷ a) (y ∷ b) r ha hb hr ka kb e =
    let fits : IsByte (bit_or r (bit_xor x y)) = bit_or_lt 8 r _ hr (bit_xor_lt 8 x y ha.0 hb.0) in
    let (acc, rest) = loop_zero len a b _ ha.1 hb.1 (omega arith) (omega arith) (omega arith) e in
    let (before, same) =
      bit_or_zero 8 r (bit_xor x y) hr (bit_xor_lt 8 x y ha.0 hb.0) (omega arith) in
    (before, ap₂ ◌∷◌ (bit_xor_zero 8 x y ha.0 hb.0 same) rest)

loop_same :
    (len : ℕ) (a b : List ℕ)
    → All IsByte a
    → len ≤ length a
    → len ≤ length b
    → take len a ≡ take len b
    → verify_loop len a b 0 ≡ 0
unfolding verify_loop
loop_same zero a b ha ka kb e = refl
loop_same (suc len) [] b ha ka kb e = absurd (omega arith)
loop_same (suc len) (x ∷ a) [] ha ka kb e = absurd (omega arith)
loop_same (suc len) (x ∷ a) (y ∷ b) ha ka kb e =
    let same : x ≡ y = cc in
    let none_set : u8 (bit_or 0 (bit_xor x y)) ≡ 0 =
      rw (← same) (rw (bit_xor_self 8 x ha.0) refl) in
    rw none_set (loop_same len a b ha.1 (omega arith) (omega arith) (cc))

-- On byte arrays of at least len bytes, `verify` gives 0 and the first len bytes agree, or it gives 1
-- and they do not.
pub verify_lem :
    (a b : List ℕ) (len : ℕ)
    → All IsByte a
    → All IsByte b
    → len ≤ length a
    → len ≤ length b
    → ((take len a ≡ take len b) × (verify a b len ≡ 0))
      ⊎ ((take len a ≢ take len b) × (verify a b len ≡ 1))
unfolding verify
verify_lem a b len ha hb ka kb = decided (verify_loop len a b 0) refl
  where
    decided :
        (r : ℕ)
        → verify_loop len a b 0 ≡ r
        → ((take len a ≡ take len b) × (verify a b len ≡ 0))
          ⊎ ((take len a ≢ take len b) × (verify a b len ≡ 1))
    decided zero e = inl ((loop_zero len a b 0 ha hb (omega arith) ka kb e).1, rw e refl)
    decided (suc r) e = inr (
      (λ same. absurd (omega (arith, loop_same len a b ha ka kb same))),
      omega (arith, loop_IsByte len a b 0 (omega arith)),
    )
