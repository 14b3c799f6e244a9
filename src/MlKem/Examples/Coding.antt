-- ===== src/MlKem/Examples/Coding.antt =====
-- mlkem_poly.c, cbd.c and the rejection sampling.
use karudeb.Base.{◌≡◌, refl, arith}
use karudeb.Base.{ℤ, pos, negsuc, residue, ◌+ℤ◌, List, [], ◌∷◌, i16}
use karudeb.MlKem.Params.{mlkem_768, mlkem_1024}
use karudeb.MlKem.Poly.{
  poly_tobytes, poly_frombytes, poly_compress, poly_decompress, poly_tomsg, poly_frommsg,
}
use karudeb.MlKem.Poly.Bytes.{frombytes-tobytes}
use karudeb.MlKem.Poly.Message.{AllNear, bits, tomsg-frommsg}
use karudeb.MlKem.Poly.Compress.{AllClose}
use karudeb.MlKem.Poly.Compress.Laws.{decompress-compress, compress-decompress}
use karudeb.MlKem.Verify.{cmov_int16}
use karudeb.MlKem.Cbd.{cbd2, cbd3}
use karudeb.MlKem.Cbd.Two.{cbd2-binomial, binomial_2}
use karudeb.MlKem.Cbd.Three.{cbd3-binomial, binomial_3}
use karudeb.MlKem.Sample.{mlkem_rej_uniform}
use karudeb.MlKem.Sample.Reject.{rej_uniform-accepted}

frombytes-tobytes_example :
    poly_frombytes (poly_tobytes (negsuc 0 ∷ pos 1665 ∷ [])) ≡ pos 3328 ∷ pos 1665 ∷ []
unfolding residue
frombytes-tobytes_example =
    frombytes-tobytes 1 (negsuc 0 ∷ pos 1665 ∷ []) (omega arith) (omega arith)

-- The bits of 0xa5 with some noise.
abbrev noisy : List ℤ
noisy = pos 1600 ∷ pos 12 ∷ negsuc 1599 ∷ negsuc 830 ∷ pos 831 ∷ pos 1664 ∷ pos 0 ∷ pos 834 ∷ []

noisy-bits : AllNear noisy (bits 0xa5 [])
unfolding residue ◌+ℤ◌ bits
noisy-bits = (
  (omega arith, (negsuc 64, omega arith, refl)),
  (
    (omega arith, (pos 12, omega arith, refl)),
    (
      (omega arith, (pos 64, omega arith, refl)),
      (
        (omega arith, (negsuc 830, omega arith, refl)),
        (
          (omega arith, (pos 831, omega arith, refl)),
          (
            (omega arith, (negsuc 0, omega arith, refl)),
            (
              (omega arith, (pos 0, omega arith, refl)),
              ((omega arith, (negsuc 830, omega arith, refl)), tt),
            ),
          ),
        ),
      ),
    ),
  ),
)

noisy_encoding : poly_frommsg (0xa5 ∷ []) ≡ bits 0xa5 []
unfolding poly_frommsg bits cmov_int16 i16 residue
noisy_encoding = refl

noisy-near : AllNear noisy (poly_frommsg (0xa5 ∷ []))
noisy-near = rw noisy_encoding noisy-bits

tomsg-frommsg_example : poly_tomsg noisy ≡ 0xa5 ∷ []
tomsg-frommsg_example = tomsg-frommsg (0xa5 ∷ []) noisy (omega arith) noisy-near

abbrev coefficients : List ℤ
coefficients = pos 0 ∷ pos 1 ∷ negsuc 0 ∷ pos 1664 ∷ negsuc 1663 ∷ pos 3328 ∷ pos 104 ∷ pos 105 ∷ []

decompress-compress_example :
    AllClose 104 (poly_decompress mlkem_768 (poly_compress mlkem_768 coefficients)) coefficients
decompress-compress_example =
    decompress-compress mlkem_768 1 coefficients (omega arith) (omega arith)

compress-decompress_example :
    poly_compress mlkem_1024 (poly_decompress mlkem_1024 (1 ∷ 2 ∷ 3 ∷ 4 ∷ 255 ∷ []))
    ≡ 1 ∷ 2 ∷ 3 ∷ 4 ∷ 255 ∷ []
compress-decompress_example =
    compress-decompress mlkem_1024 1 (1 ∷ 2 ∷ 3 ∷ 4 ∷ 255 ∷ []) (omega arith) (omega arith)

cbd2_example : cbd2 (1 ∷ 2 ∷ 3 ∷ 255 ∷ []) ≡ binomial_2 (1 ∷ 2 ∷ 3 ∷ 255 ∷ [])
cbd2_example = cbd2-binomial (1 ∷ 2 ∷ 3 ∷ 255 ∷ []) (omega arith)

cbd3_example : cbd3 (1 ∷ 2 ∷ 255 ∷ []) ≡ binomial_3 (1 ∷ 2 ∷ 255 ∷ [])
cbd3_example = cbd3-binomial (1 ∷ 2 ∷ 255 ∷ []) (omega arith)

-- The second number is 0xfff, which is refused.
rej_uniform_example :
    mlkem_rej_uniform 4 (1 ∷ 0xf0 ∷ 0xff ∷ 2 ∷ 0 ∷ 0 ∷ []) ≡ pos 1 ∷ pos 2 ∷ pos 0 ∷ []
rej_uniform_example = rej_uniform-accepted 4 (1 ∷ 0xf0 ∷ 0xff ∷ 2 ∷ 0 ∷ 0 ∷ []) (omega arith)
