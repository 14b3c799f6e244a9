-- ===== src/MlKem/Reduce/Products.antt =====
-- What `fqmul` and `basemul` compute: products with the Montgomery factor 2 ^ 16 divided out.
use karudeb.Base.{ℕ, ◌+◌, ◌*◌, ◌^◌, ◌≤◌, ◌≡◌, refl, sym, ap, ap₂, ◌∙◌, arith}
use karudeb.Base.{ℤ, pos, pos_part, neg_part, ◌+ℤ◌, ◌*ℤ◌, +ℤ_parts, one_part_zero}
use karudeb.Base.{residue, Within, Congruent, i16, i16_fits}
use karudeb.Base.{*ℤ_assoc, *ℤ_comm, *ℤ-+ℤ, product-Within, Congruent-add, Congruent-mul_right}
use karudeb.MlKem.Reduce.{q, fqmul, basemul}
use karudeb.MlKem.Reduce.Montgomery.{montgomery_reduce_lem}

-- For factors whose bounds multiply to at most 2 ^ 15 q, `fqmul a b` is congruent to
-- a b / 2 ^ 16 modulo q, and 2 ^ 16 times its absolute value is at most m n + 2 ^ 15 q.
pub fqmul_lem :
    (m n : ℕ) (a b : ℤ)
    → Within m a
    → Within n b
    → m * n ≤ 2 ^ 15 * q
    → Congruent q (fqmul a b *ℤ pos (2 ^ 16)) (a *ℤ b)
      × (2 ^ 16 * pos_part (fqmul a b) ≤ m * n + 2 ^ 15 * q)
      × (2 ^ 16 * neg_part (fqmul a b) ≤ m * n + 2 ^ 15 * q)
unfolding fqmul
fqmul_lem m n a b ha hb h =
    let p : Within (m * n) (a *ℤ b) = product-Within a b ha hb in
    let (c, above, below) = montgomery_reduce_lem (a *ℤ b) (omega arith, omega arith) in
    (c, omega arith, omega arith)

-- In particular the result lies between -q and q.
pub fqmul-Within :
    (m n : ℕ) (a b : ℤ) → Within m a → Within n b → m * n ≤ 2 ^ 15 * q → Within q (fqmul a b)
fqmul-Within m n a b ha hb h = omega (arith, fqmul_lem m n a b ha hb h)

sum_fits : (a b : ℤ) → Within q a → Within q b → (i16 (a +ℤ b) ≡ a +ℤ b) × Within (2 * q) (a +ℤ b)
sum_fits a b h k =
    let w : Within (2 * q) (a +ℤ b) =
      omega (arith, +ℤ_parts a b, one_part_zero a, one_part_zero b, one_part_zero (a +ℤ b)) in
    (i16_fits _ (omega arith) (omega arith), w)

-- (x + y) r for a sum of two terms with r divided out of each.
sum_scaled :
    (x y s t r : ℤ)
    → Congruent q (x *ℤ r) s
    → Congruent q (y *ℤ r) t
    → Congruent q ((x +ℤ y) *ℤ r) (s +ℤ t)
sum_scaled x y s t r h k =
    ap (λ u. residue u q) (*ℤ_comm (x +ℤ y) r ∙ *ℤ-+ℤ r x y ∙ ap₂ ◌+ℤ◌ (*ℤ_comm r x) (*ℤ_comm r y))
    ∙ Congruent-add q (omega arith) _ _ _ _ h k

-- Two Montgomery products in a row divide 2 ^ 16 out twice.
twice_scaled :
    (x y z a b : ℤ)
    → Congruent q (x *ℤ pos (2 ^ 16)) (y *ℤ z)
    → Congruent q (y *ℤ pos (2 ^ 16)) (a *ℤ b)
    → Congruent q (x *ℤ pos (2 ^ 16) *ℤ pos (2 ^ 16)) (a *ℤ b *ℤ z)
twice_scaled x y z a b h k =
    Congruent-mul_right q (omega arith) _ _ (pos (2 ^ 16)) h
    ∙ ap (λ u. residue u q) (*ℤ_assoc y z _ ∙ ap (λ u. y *ℤ u) (*ℤ_comm z _) ∙ sym (*ℤ_assoc y _ z))
    ∙ Congruent-mul_right q (omega arith) _ _ z k

-- For 12-bit coefficients and a factor zeta of at most 1664, `basemul` gives the product modulo
-- X ^ 2 - zeta / 2 ^ 16, divided by 2 ^ 16, within 2 q.
pub basemul_lem :
    (a0 a1 b0 b1 zeta : ℤ)
    → Within 4095 a0
    → Within 4095 a1
    → Within 4095 b0
    → Within 4095 b1
    → Within 1664 zeta
    → let r = basemul (a0, a1) (b0, b1) zeta in
      Congruent q
        (r.0 *ℤ pos (2 ^ 16) *ℤ pos (2 ^ 16))
        (a1 *ℤ b1 *ℤ zeta +ℤ a0 *ℤ b0 *ℤ pos (2 ^ 16))
      × Congruent q (r.1 *ℤ pos (2 ^ 16)) (a0 *ℤ b1 +ℤ a1 *ℤ b0)
      × Within (2 * q) r.0
      × Within (2 * q) r.1
unfolding basemul
basemul_lem a0 a1 b0 b1 zeta ha0 ha1 hb0 hb1 hz =
    let R = pos (2 ^ 16) in
    let inner = fqmul_lem 4095 4095 a1 b1 ha1 hb1 (omega arith) in
    let x1 = fqmul a1 b1 in
    let w1 : Within q x1 = fqmul-Within 4095 4095 a1 b1 ha1 hb1 (omega arith) in
    let outer = fqmul_lem q 1664 x1 zeta w1 hz (omega arith) in
    let low = fqmul_lem 4095 4095 a0 b0 ha0 hb0 (omega arith) in
    let cross = fqmul_lem 4095 4095 a0 b1 ha0 hb1 (omega arith) in
    let cross' = fqmul_lem 4095 4095 a1 b0 ha1 hb0 (omega arith) in
    let (fits0, bound0) =
      sum_fits (fqmul x1 zeta) (fqmul a0 b0) (omega (arith, outer.1)) (omega (arith, low.1)) in
    let (fits1, bound1) =
      sum_fits (fqmul a0 b1) (fqmul a1 b0) (omega (arith, cross)) (omega (arith, cross')) in
    (
      rw fits0 (
          Congruent-mul_right q (omega arith) _ _ R
            (sum_scaled (fqmul x1 zeta) (fqmul a0 b0) _ _ R refl refl)
          ∙ sum_scaled (fqmul x1 zeta *ℤ R) (fqmul a0 b0 *ℤ R) _ _ R
              (twice_scaled _ x1 zeta a1 b1 outer.0 inner.0)
              (Congruent-mul_right q (omega arith) _ _ R low.0)),
      rw fits1 (sum_scaled (fqmul a0 b1) (fqmul a1 b0) _ _ R cross.0 cross'.0),
      rw fits0 bound0,
      rw fits1 bound1,
    )
