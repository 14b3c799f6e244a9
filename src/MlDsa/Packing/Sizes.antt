-- ===== src/MlDsa/Packing/Sizes.antt =====
-- The number of bytes that each packing writes.
use karudeb.Base.{ℕ, ◌*◌, ◌≡◌, refl, arith, ℤ, List, length}
use karudeb.Base.{Twos, two, twos, Fours, four, fours, Eights, eight, eights}
use karudeb.MlDsa.Packing.High.{polyt1_pack}
use karudeb.MlDsa.Packing.Low.{polyt0_pack}
use karudeb.MlDsa.Packing.Eta.{polyeta_pack_2, polyeta_pack_4}
use karudeb.MlDsa.Packing.Mask.{polyz_pack_17, polyz_pack_19}

t1_size : {p : List ℤ} → Fours ℤ p → 4 * length (polyt1_pack p) ≡ 5 * length p
unfolding polyt1_pack
t1_size Fours.done = refl
t1_size (four c0 c1 c2 c3 p) = omega (arith, t1_size p)

pub length-polyt1_pack : (k : ℕ) (p : List ℤ) → length p ≡ 4 * k → length (polyt1_pack p) ≡ 5 * k
length-polyt1_pack k p e = omega (arith, t1_size (fours k p e))

t0_size : {p : List ℤ} → Eights ℤ p → 8 * length (polyt0_pack p) ≡ 13 * length p
unfolding polyt0_pack
t0_size Eights.done = refl
t0_size (eight c0 c1 c2 c3 c4 c5 c6 c7 p) = omega (arith, t0_size p)

pub length-polyt0_pack : (k : ℕ) (p : List ℤ) → length p ≡ 8 * k → length (polyt0_pack p) ≡ 13 * k
length-polyt0_pack k p e = omega (arith, t0_size (eights k p e))

eta_2_size : {p : List ℤ} → Eights ℤ p → 8 * length (polyeta_pack_2 p) ≡ 3 * length p
unfolding polyeta_pack_2
eta_2_size Eights.done = refl
eta_2_size (eight c0 c1 c2 c3 c4 c5 c6 c7 p) = omega (arith, eta_2_size p)

pub length-polyeta_pack_2 :
    (k : ℕ) (p : List ℤ) → length p ≡ 8 * k → length (polyeta_pack_2 p) ≡ 3 * k
length-polyeta_pack_2 k p e = omega (arith, eta_2_size (eights k p e))

eta_4_size : {p : List ℤ} → Twos ℤ p → 2 * length (polyeta_pack_4 p) ≡ 1 * length p
unfolding polyeta_pack_4
eta_4_size Twos.done = refl
eta_4_size (two c0 c1 p) = omega (arith, eta_4_size p)

pub length-polyeta_pack_4 :
    (k : ℕ) (p : List ℤ) → length p ≡ 2 * k → length (polyeta_pack_4 p) ≡ 1 * k
length-polyeta_pack_4 k p e = omega (arith, eta_4_size (twos k p e))

z_17_size : {p : List ℤ} → Fours ℤ p → 4 * length (polyz_pack_17 p) ≡ 9 * length p
unfolding polyz_pack_17
z_17_size Fours.done = refl
z_17_size (four c0 c1 c2 c3 p) = omega (arith, z_17_size p)

pub length-polyz_pack_17 :
    (k : ℕ) (p : List ℤ) → length p ≡ 4 * k → length (polyz_pack_17 p) ≡ 9 * k
length-polyz_pack_17 k p e = omega (arith, z_17_size (fours k p e))

z_19_size : {p : List ℤ} → Twos ℤ p → 2 * length (polyz_pack_19 p) ≡ 5 * length p
unfolding polyz_pack_19
z_19_size Twos.done = refl
z_19_size (two c0 c1 p) = omega (arith, z_19_size p)

pub length-polyz_pack_19 :
    (k : ℕ) (p : List ℤ) → length p ≡ 2 * k → length (polyz_pack_19 p) ≡ 5 * k
length-polyz_pack_19 k p e = omega (arith, z_19_size (twos k p e))
