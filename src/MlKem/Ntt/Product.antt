-- ===== src/MlKem/Ntt/Product.antt =====
-- The product of polynomials through the transforms of mlkem_ntt.c.
use karudeb.Base.{
  ℕ, zero, suc, ◌+◌, ◌*◌, ◌%◌, ◌^◌, ◌≡◌, refl, sym, ap, ap₂, ◌∙◌, arith, Bool, true, false,
}
use karudeb.Base.{
  ℤ, pos, ◌+ℤ◌, ◌-ℤ◌, ◌*ℤ◌, residue, Within, Congruent, Congruent-add, Congruent-mul, *ℤ_comm,
  *ℤ_assoc, *ℤ-+ℤ, +ℤ_comm, -ℤ_parts, one_part_zero,
}
use karudeb.Base.{List, [], ◌∷◌, length, All}
use karudeb.Transform.Evaluate.{*ℤ_one, *ℤ_swap}
use karudeb.Transform.Inverse.{scaled, residue-scale}
use karudeb.Transform.Parity.{pick}
use karudeb.Transform.Parity.Product.{part, mix, mixed, residue-part}
use karudeb.Transform.Unique.{residues}
use karudeb.Transform.Table.{get_or-Within}
use karudeb.MlKem.Reduce.{q, basemul}
use karudeb.MlKem.Reduce.Products.{basemul_lem}
use karudeb.MlKem.Ntt.{zeta_at, basemul_loop}
use karudeb.MlKem.Ntt.Zetas.{mlkem_zetas}
use karudeb.MlKem.Ntt.Roots.{root_numbers, rinv, plain, table-Within}
use karudeb.MlKem.Ntt.Butterflies.{divided, r_rinv}

-- The points that the loop of poly_basemul_montgomery uses, modulo q.
unfoldable pub gammas : ℕ → ℕ → List ℕ
unfolding residue ◌*ℤ◌ ◌-ℤ◌
gammas zero i = []
gammas (suc left) i =
    residue (plain (zeta_at (64 + i))) q
    ∷ residue (plain (pos 0 -ℤ zeta_at (64 + i))) q
    ∷ gammas left (i + 1)

pub gammas-roots : gammas 64 0 ≡ root_numbers
unfolding gammas root_numbers
gammas-roots = refl

-- (c z + d 2 ^ 16) / 2 ^ 16.
undo_even :
    (c d z : ℤ) → Congruent q ((c *ℤ z +ℤ d *ℤ pos (2 ^ 16)) *ℤ pos rinv) (d +ℤ plain z *ℤ c)
undo_even c d z =
    let k = pos rinv in
    let r = pos (2 ^ 16) in
    ap (λ t. residue t q)
      (*ℤ_comm (c *ℤ z +ℤ d *ℤ r) k
        ∙ *ℤ-+ℤ k (c *ℤ z) (d *ℤ r)
        ∙ +ℤ_comm (k *ℤ (c *ℤ z)) (k *ℤ (d *ℤ r))
        ∙ ap₂ ◌+ℤ◌ (*ℤ_comm k (d *ℤ r) ∙ *ℤ_assoc d r k)
            (*ℤ_swap k c z ∙ *ℤ_comm c (k *ℤ z) ∙ ap (λ t. t *ℤ c) (*ℤ_comm k z)))
    ∙ Congruent-add q (omega arith) _ _ _ _
        (Congruent-mul q (omega arith) d d _ _ refl (sym r_rinv) ∙ ap (λ t. residue t q) (*ℤ_one d))
        refl

abbrev component : Bool → ℤ × ℤ → ℤ
component false r = r.0
component true r = r.1

-- One product, times 2 ^ 16.
product_residue :
    (p : Bool) (z x y u v : ℤ)
    → Within 4095 x
    → Within 4095 y
    → Within 4095 u
    → Within 4095 v
    → Within 1664 z
    → 2 ^ 16 * residue (component p (basemul (x, y) (u, v) z)) q % q
      ≡ mix q p (residue (plain z) q) (residue x q) (residue y q) (residue u q) (residue v q)
product_residue p z x y u v hx hy hu hv hz =
    sym (residue-scale q (omega arith) (2 ^ 16) (component p (basemul (x, y) (u, v) z)))
    ∙ scaled_part p
    ∙ residue-part q (omega arith) p (plain z) x y u v
  where
    scaled_part :
        (p : Bool)
        → Congruent q
            (pos (2 ^ 16) *ℤ component p (basemul (x, y) (u, v) z))
            (part p (plain z) x y u v)
    scaled_part false =
        let r = (basemul (x, y) (u, v) z).0 in
        ap (λ t. residue t q) (*ℤ_comm (pos (2 ^ 16)) r)
        ∙ divided (r *ℤ pos (2 ^ 16)) _ (basemul_lem x y u v z hx hy hu hv hz).0
        ∙ undo_even (y *ℤ v) (x *ℤ u) z
    scaled_part true =
        let r = (basemul (x, y) (u, v) z).1 in
        ap (λ t. residue t q) (*ℤ_comm (pos (2 ^ 16)) r) ∙ (basemul_lem x y u v z hx hy hu hv hz).1

-- What the loop gives of either parity, times 2 ^ 16.
abbrev pub Mixes : Bool → ℕ → ℕ → List ℤ → List ℤ → Type 0
Mixes p left i a b =
    scaled q (2 ^ 16) (residues q (pick p (basemul_loop left i a b)))
    ≡ mixed q p (gammas left i) (residues q (pick false a)) (residues q (pick true a))
        (residues q (pick false b)) (residues q (pick true b))

negated : (z : ℤ) → Within 1664 z → Within 1664 (pos 0 -ℤ z)
negated z h = omega (arith, -ℤ_parts (pos 0) z, one_part_zero z, one_part_zero (pos 0 -ℤ z))

pub basemul_loop_lem :
    (left i : ℕ) (a b : List ℤ)
    → length a ≡ 4 * left
    → length b ≡ 4 * left
    → All (Within 4095) a
    → All (Within 4095) b
    → Mixes false left i a b
      × Mixes true left i a b
      × All (Within (2 * q)) (basemul_loop left i a b)
      × (length (basemul_loop left i a b) ≡ 4 * left)
unfolding basemul_loop gammas mixed pick
basemul_loop_lem zero i [] b ha hb ra rb = (refl, refl, tt, refl)
basemul_loop_lem zero i (x ∷ a) b ha hb ra rb = absurd (omega arith)
basemul_loop_lem (suc left) i [] b ha hb ra rb = absurd (omega arith)
basemul_loop_lem (suc left) i (_ ∷ []) b ha hb ra rb = absurd (omega arith)
basemul_loop_lem (suc left) i (_ ∷ _ ∷ []) b ha hb ra rb = absurd (omega arith)
basemul_loop_lem (suc left) i (_ ∷ _ ∷ _ ∷ []) b ha hb ra rb = absurd (omega arith)
basemul_loop_lem (suc left) i (_ ∷ _ ∷ _ ∷ _ ∷ _) [] ha hb ra rb = absurd (omega arith)
basemul_loop_lem (suc left) i (_ ∷ _ ∷ _ ∷ _ ∷ _) (_ ∷ []) ha hb ra rb = absurd (omega arith)
basemul_loop_lem (suc left) i (_ ∷ _ ∷ _ ∷ _ ∷ _) (_ ∷ _ ∷ []) ha hb ra rb = absurd (omega arith)
basemul_loop_lem (suc left) i (_ ∷ _ ∷ _ ∷ _ ∷ _) (_ ∷ _ ∷ _ ∷ []) ha hb ra rb =
    absurd (omega arith)
basemul_loop_lem (suc left) i (a0 ∷ a1 ∷ a2 ∷ a3 ∷ a) (b0 ∷ b1 ∷ b2 ∷ b3 ∷ b) ha hb
      (x0, (x1, (x2, (x3, ra)))) (y0, (y1, (y2, (y3, rb)))) =
    let z = zeta_at (64 + i) in
    let hz : Within 1664 z = get_or-Within 1664 mlkem_zetas (64 + i) table-Within in
    let hn = negated z hz in
    let rest = basemul_loop_lem left (i + 1) a b (omega arith) (omega arith) ra rb in
    let low = basemul_lem a0 a1 b0 b1 z x0 x1 y0 y1 hz in
    let high = basemul_lem a2 a3 b2 b3 (pos 0 -ℤ z) x2 x3 y2 y3 hn in
    let first = λ (p : Bool). product_residue p z a0 a1 b0 b1 x0 x1 y0 y1 hz in
    let second = λ (p : Bool). product_residue p (pos 0 -ℤ z) a2 a3 b2 b3 x2 x3 y2 y3 hn in
    (
      ap₂ ◌∷◌ (first false) (ap₂ ◌∷◌ (second false) rest.0),
      ap₂ ◌∷◌ (first true) (ap₂ ◌∷◌ (second true) rest.1),
      (low.2, (low.3, (high.2, (high.3, rest.2)))),
      omega (arith, rest.3),
    )
