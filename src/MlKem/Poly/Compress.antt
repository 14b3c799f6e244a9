-- ===== src/MlKem/Poly/Compress.antt =====
-- `poly_compress` and `poly_decompress`: how far a coefficient moves, and that bytes come back.
pub mod Four
pub mod Five
pub mod Laws
use karudeb.Base.{ℕ, ◌+◌, ◌-◌, ◌*◌, ◌/◌, ◌%◌, ◌^◌, ◌≤◌, ◌<◌, ◌≡◌, ap, ◌∙◌, sym, refl, arith}
use karudeb.Base.{ℤ, pos, negsuc, ◌+ℤ◌, ◌-ℤ◌, residue, div_parts, Within, Congruent, Congruent-sub}
use karudeb.Base.{List, [], ◌∷◌, ltb, if◌then◌else◌}
use native.Mathlib.Nat.{mod-lt}
use karudeb.MlKem.Reduce.{q}
use karudeb.MlKem.Poly.{lift}
use karudeb.MlKem.Poly.Bytes.{sign_mask_pos, sign_mask_negsuc}

-- The distance of two coefficients on the circle of residues modulo q.
abbrev pub around : ℕ → ℕ
around x = if ltb x 1665 then x else q - x

abbrev pub distance : ℤ → ℤ → ℕ
distance c d = around (residue (c -ℤ d) q)

-- A coefficient may be replaced by its representative.
pub distance-canonical : (c d : ℤ) → distance c (pos (residue d q)) ≡ distance c d
distance-canonical c d =
    ap around (Congruent-sub q (omega arith) c c (pos (residue d q)) d refl again)
  where
    again : Congruent q (pos (residue d q)) d
    again = unfold residue in omega (arith, div_parts d q (omega arith))

-- `lift` gives the representative from 0 to q - 1.
pub lift-residue : (c : ℤ) → Within (q - 1) c → lift c ≡ pos (residue c q)
unfolding lift residue ◌+ℤ◌
lift-residue (pos n) h = rw (sign_mask_pos n (omega arith)) (ground arith)
lift-residue (negsuc n) h = rw (sign_mask_negsuc n (omega arith)) (ground arith)

-- Rounding r 2 ^ d / q to the nearest number, modulo 2 ^ d.
abbrev pub rounded : ℕ → ℕ → ℕ
rounded d r = (2 ^ d * r + 1664) / q % 2 ^ d

-- Lists of one length whose coefficients are at most `bound` apart.
abbrev pub AllClose : ℕ → List ℤ → List ℤ → Type 0
AllClose bound [] [] = Unit {0}
AllClose bound (c ∷ p) (d ∷ p') = (distance c d ≤ bound) × AllClose bound p p'
AllClose bound [] (d ∷ p') = ⊥
AllClose bound (c ∷ p) [] = ⊥

pub rounded-lt : (c : ℤ) (d : ℕ) → 0 < 2 ^ d → rounded d (residue c q) < 2 ^ d
rounded-lt c d h = mod-lt _ h
