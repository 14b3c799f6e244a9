-- ===== src/MlKem/Cbd.antt =====
-- tools/pqc/mlkem/cbd.c: the centered binomial distribution from uniform bytes.
pub mod Two
pub mod Three
use karudeb.Base.{ℕ, zero, suc, ◌+◌, ◌*◌, ◌/◌, ◌%◌, ◌^◌, ◌<<◌, ◌>>◌, ◌++◌, ◌==◌, if◌then◌else◌}
use karudeb.Base.{ℤ, pos, ◌-ℤ◌, List, [], ◌∷◌, bit_and, bit_or, i16, u32}
use karudeb.MlKem.Params.{MlkemParam}

unfoldable pub load32_littleendian : ℕ → ℕ → ℕ → ℕ → ℕ
load32_littleendian x0 x1 x2 x3 =
    let r = x0 in
    let r' = bit_or r (x1 << 8) in let r'' = bit_or r' (x2 << 16) in bit_or r'' (x3 << 24)

unfoldable pub load24_littleendian : ℕ → ℕ → ℕ → ℕ
load24_littleendian x0 x1 x2 = let r = x0 in let r' = bit_or r (x1 << 8) in bit_or r' (x2 << 16)

-- The inner loop of `cbd2` at j, with `left` rounds to go.
unfoldable pub cbd2_word : ℕ → ℕ → ℕ → List ℤ
cbd2_word zero j d = []
cbd2_word (suc left) j d =
    let a = bit_and (d >> (4 * j + 0)) 0x3 in
    let b = bit_and (d >> (4 * j + 2)) 0x3 in i16 (pos a -ℤ pos b) ∷ cbd2_word left (j + 1) d

unfoldable pub cbd2 : List ℕ → List ℤ
cbd2 (x0 ∷ x1 ∷ x2 ∷ x3 ∷ buf) =
    let t = load32_littleendian x0 x1 x2 x3 in
    let d = bit_and t 0x55555555 in
    let d' = u32 (d + bit_and (t >> 1) 0x55555555) in cbd2_word 8 0 d' ++ cbd2 buf
cbd2 buf = []

-- The inner loop of `cbd3` at j, with `left` rounds to go.
unfoldable pub cbd3_word : ℕ → ℕ → ℕ → List ℤ
cbd3_word zero j d = []
cbd3_word (suc left) j d =
    let a = bit_and (d >> (6 * j + 0)) 0x7 in
    let b = bit_and (d >> (6 * j + 3)) 0x7 in i16 (pos a -ℤ pos b) ∷ cbd3_word left (j + 1) d

unfoldable pub cbd3 : List ℕ → List ℤ
cbd3 (x0 ∷ x1 ∷ x2 ∷ buf) =
    let t = load24_littleendian x0 x1 x2 in
    let d = bit_and t 0x00249249 in
    let d' = u32 (d + bit_and (t >> 1) 0x00249249) in
    let d'' = u32 (d' + bit_and (t >> 2) 0x00249249) in cbd3_word 4 0 d'' ++ cbd3 buf
cbd3 buf = []

unfoldable pub poly_cbd_eta1 : MlkemParam → List ℕ → List ℤ
poly_cbd_eta1 par buf = if par.eta1 == 2 then cbd2 buf else cbd3 buf

-- MLKEM_PAR_ETA2 is 2.
unfoldable pub poly_cbd_eta2 : List ℕ → List ℤ
poly_cbd_eta2 buf = cbd2 buf
