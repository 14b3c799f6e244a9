-- ===== src/MlKem/Poly/Bytes.antt =====
-- `poly_tobytes` and `poly_frombytes` undo one another.
use karudeb.Base.{ℕ, ◌+◌, ◌-◌, ◌*◌, ◌/◌, ◌%◌, ◌^◌, ◌<◌, ◌≡◌, refl, ap, ap₂, arith}
use karudeb.Base.{List, [], ◌∷◌, length, All, map, ℤ, pos, negsuc}
use karudeb.Base.{residue, div, div_parts, Within, shr, and_mask, u8}
use karudeb.Base.{bit_and, bit_or, bit_and_ones, bit_or_above}
use karudeb.MlKem.Reduce.{q}
use karudeb.MlKem.Verify.Compare.{IsByte}
use karudeb.MlKem.Poly.{standard, poly_tobytes, poly_frombytes}

-- The mask that the code computes from the sign of an int16_t.
pub sign_mask_pos : (n : ℕ) → n < 2 ^ 15 → and_mask (shr (pos n) 15) q ≡ 0
unfolding div and_mask residue
sign_mask_pos n h = let e : n / 2 ^ 15 ≡ 0 = omega arith in rw e

pub sign_mask_negsuc : (n : ℕ) → n < 2 ^ 15 → and_mask (shr (negsuc n) 15) q ≡ q
unfolding div and_mask residue
sign_mask_negsuc n h = let e : n / 2 ^ 15 ≡ 0 = omega arith in rw e

standard_pos : (n : ℕ) → n < 2 ^ 15 → standard (pos n) ≡ n
unfolding standard residue
standard_pos n h = ground (arith, sign_mask_pos n)

-- `standard` gives the representative from 0 to q - 1.
pub standard-residue : (c : ℤ) → Within (q - 1) c → standard c ≡ residue c q
unfolding standard residue
standard-residue (pos n) h = ground (arith, sign_mask_pos n)
standard-residue (negsuc n) h = ground (arith, sign_mask_negsuc n)

-- The two 12-bit fields of three bytes, as sums.
pub unpack_pair :
    (a0 a1 a2 : ℕ)
    → IsByte a0
    → IsByte a1
    → IsByte a2
    → (bit_and (bit_or (a0 / 2 ^ 0) (a1 * 2 ^ 8)) 0xfff ≡ a0 + a1 % 16 * 256)
      × (bit_and (bit_or (a1 / 2 ^ 4) (a2 * 2 ^ 4)) 0xfff ≡ a1 / 16 + a2 * 16)
unpack_pair a0 a1 a2 h0 h1 h2 = (
  ground
      (arith, bit_or_above 8 (a0 / 1) a1, bit_and_ones 12 (bit_or (a0 / 2 ^ 0) (a1 * 2 ^ 8)) 0xfff),
  ground (
    arith,
    bit_or_above 4 (a1 / 16) a2,
    bit_and_ones 12 (bit_or (a1 / 2 ^ 4) (a2 * 2 ^ 4)) 0xfff,
  ),
)

-- The middle byte of two packed 12-bit fields.
middle_byte :
    (t0 t1 : ℕ) → t0 < 2 ^ 12 → u8 (bit_or (t0 / 2 ^ 8) (t1 * 2 ^ 4)) ≡ t0 / 256 + t1 % 16 * 16
middle_byte t0 t1 h = ground (arith, bit_or_above 4 (t0 / 256) t1)

abbrev pub canonical : ℤ → ℤ
canonical c = pos (residue c q)

residue_lt : (c : ℤ) → residue c q < q
residue_lt c = omega (arith, div_parts c q (omega arith))

-- `poly_frombytes` reads back what `poly_tobytes` wrote from an even number of coefficients strictly
-- between -q and q, with every coefficient as its representative from 0 to q - 1.
pub frombytes-tobytes :
    (k : ℕ) (p : List ℤ)
    → length p ≡ 2 * k
    → All (Within (q - 1)) p
    → poly_frombytes (poly_tobytes p) ≡ map canonical p
unfolding poly_tobytes poly_frombytes
frombytes-tobytes k [] e h = refl
frombytes-tobytes k (c0 ∷ []) e h = absurd (omega arith)
frombytes-tobytes k (c0 ∷ c1 ∷ cs) e (h0, (h1, h)) =
    let t0 = residue c0 q in
    let t1 = residue c1 q in
    let k0 : t0 < q = residue_lt c0 in
    let k1 : t1 < q = residue_lt c1 in
    let fields =
      unpack_pair (t0 / 2 ^ 0 % 256) (t0 / 256 + t1 % 16 * 16) (t1 / 16 % 256) (omega arith)
        (omega arith) (omega arith) in
    rw (standard-residue c0 h0, standard-residue c1 h1, middle_byte t0 t1 (omega arith))
      (ap₂ ◌∷◌ (ap pos (omega (arith, fields)))
        (ap₂ ◌∷◌ (ap pos (omega (arith, fields))) (frombytes-tobytes (k - 1) cs (omega arith) h)))

-- `poly_tobytes` writes back every byte array of a multiple of three bytes from which
-- `poly_frombytes` read.
tobytes-frombytes :
    (k : ℕ) (bytes : List ℕ)
    → length bytes ≡ 3 * k
    → All IsByte bytes
    → poly_tobytes (poly_frombytes bytes) ≡ bytes
unfolding poly_tobytes poly_frombytes
tobytes-frombytes k [] e h = refl
tobytes-frombytes k (a0 ∷ []) e h = absurd (omega arith)
tobytes-frombytes k (a0 ∷ a1 ∷ []) e h = absurd (omega arith)
tobytes-frombytes k (a0 ∷ a1 ∷ a2 ∷ rest) e (h0, (h1, (h2, h))) =
    let (low, high) = unpack_pair a0 a1 a2 h0 h1 h2 in
    rw
      (
        low,
        high,
        standard_pos (a0 + a1 % 16 * 256) (omega arith),
        standard_pos (a1 / 16 + a2 * 16) (omega arith),
        middle_byte (a0 + a1 % 16 * 256) (a1 / 16 + a2 * 16) (omega arith),
      )
      (ap₂ ◌∷◌ (omega arith) (
        ap₂ ◌∷◌ (omega arith)
          (ap₂ ◌∷◌ (omega arith) (tobytes-frombytes (k - 1) rest (omega arith) h))))

-- Two coefficients become three bytes.
pub length-poly_tobytes : (k : ℕ) (p : List ℤ) → length p ≡ 2 * k → length (poly_tobytes p) ≡ 3 * k
unfolding poly_tobytes
length-poly_tobytes k [] e = omega arith
length-poly_tobytes k (c0 ∷ []) e = absurd (omega arith)
length-poly_tobytes k (c0 ∷ c1 ∷ cs) e = omega (arith, length-poly_tobytes (k - 1) cs (omega arith))
