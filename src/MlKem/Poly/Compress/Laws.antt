-- ===== src/MlKem/Poly/Compress/Laws.antt =====
-- `poly_compress` and `poly_decompress` at either width.
use karudeb.Base.{ℕ, ◌-◌, ◌*◌, ◌≡◌, ℤ, List, length, All, Within}
use karudeb.Base.{◌==◌, if◌then◌else◌, Bool-cases, inl, inr}
use karudeb.MlKem.Reduce.{q}
use karudeb.MlKem.Params.{MlkemParam}
use karudeb.MlKem.Verify.Compare.{IsByte}
use karudeb.MlKem.Poly.{poly_compress, poly_decompress}
use karudeb.MlKem.Poly.Compress.{AllClose}
use karudeb.MlKem.Poly.Compress.Four.{decompress-compress_4, compress-decompress_4}
use karudeb.MlKem.Poly.Compress.Five.{decompress-compress_5, compress-decompress_5}

-- For a multiple of eight coefficients strictly between -q and q, `poly_decompress` of
-- `poly_compress` moves no coefficient by more than 104 modulo q where dv is 4, and by more than 52
-- otherwise.
pub decompress-compress :
    (par : MlkemParam) (k : ℕ) (p : List ℤ)
    → length p ≡ 8 * k
    → All (Within (q - 1)) p
    → AllClose (if par.dv == 4 then 104 else 52) (poly_decompress par (poly_compress par p)) p
unfolding poly_compress poly_decompress
decompress-compress par k p e h = elim (Bool-cases (par.dv == 4)) [
  | inl four ↦ rw four (decompress-compress_4 k p e h)
  | inr five ↦ rw five (decompress-compress_5 k p e h)
]

-- `poly_compress` gives back every byte array that was decompressed, of a multiple of four bytes
-- where dv is 4, and of five bytes otherwise.
pub compress-decompress :
    (par : MlkemParam) (k : ℕ) (bytes : List ℕ)
    → length bytes ≡ (if par.dv == 4 then 4 else 5) * k
    → All IsByte bytes
    → poly_compress par (poly_decompress par bytes) ≡ bytes
unfolding poly_compress poly_decompress
compress-decompress par k bytes e h = elim (Bool-cases (par.dv == 4)) [
  | inl four ↦ rw four (compress-decompress_4 k bytes (rw four at e) h)
  | inr five ↦ rw five (compress-decompress_5 k bytes (rw five at e) h)
]
