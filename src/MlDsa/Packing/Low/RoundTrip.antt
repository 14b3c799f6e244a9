-- ===== src/MlDsa/Packing/Low/RoundTrip.antt =====
-- `polyt0_unpack` undoes `polyt0_pack`.
use karudeb.Base.{ℕ, ◌*◌, ◌≡◌, refl, ap}
use karudeb.Base.{ℤ}
use karudeb.Base.{List, ◌∷◌, length, All}
use karudeb.Base.{Eights, eight, eights}
use karudeb.MlDsa.Packing.Low.{polyt0_pack, polyt0_unpack, t0_word}
use karudeb.MlDsa.Packing.Low.Fields.{
  byte_1, byte_3, byte_4, byte_6, byte_8, byte_9, byte_11, Fits13, word, field_0, field_1, field_2,
  field_3, field_4, field_5, field_6, field_7,
}

again : {p : List ℤ} → Eights ℤ p → All Fits13 p → polyt0_unpack (polyt0_pack p) ≡ p
unfolding polyt0_pack polyt0_unpack
again Eights.done h = refl
again (eight c0 c1 c2 c3 c4 c5 c6 c7 p) (h0, (h1, (h2, (h3, (h4, (h5, (h6, (h7, h)))))))) =
    let (k0, e0) = word c0 h0 in
    let (k1, e1) = word c1 h1 in
    let (k2, e2) = word c2 h2 in
    let (k3, e3) = word c3 h3 in
    let (k4, e4) = word c4 h4 in
    let (k5, e5) = word c5 h5 in
    let (k6, e6) = word c6 h6 in
    let (k7, e7) = word c7 h7 in
    rw
      (
        byte_1 (t0_word c0) (t0_word c1) k0 k1,
        byte_3 (t0_word c1) (t0_word c2) k1 k2,
        byte_4 (t0_word c2) (t0_word c3) k2 k3,
        byte_6 (t0_word c3) (t0_word c4) k3 k4,
        byte_8 (t0_word c4) (t0_word c5) k4 k5,
        byte_9 (t0_word c5) (t0_word c6) k5 k6,
        byte_11 (t0_word c6) (t0_word c7) k6 k7,
        field_0 (t0_word c0) (t0_word c1) k0 k1,
        e0,
        field_1 (t0_word c0) (t0_word c1) (t0_word c2) k0 k1 k2,
        e1,
        field_2 (t0_word c1) (t0_word c2) (t0_word c3) k1 k2 k3,
        e2,
        field_3 (t0_word c2) (t0_word c3) (t0_word c4) k2 k3 k4,
        e3,
        field_4 (t0_word c3) (t0_word c4) (t0_word c5) k3 k4 k5,
        e4,
        field_5 (t0_word c4) (t0_word c5) (t0_word c6) k4 k5 k6,
        e5,
        field_6 (t0_word c5) (t0_word c6) (t0_word c7) k5 k6 k7,
        e6,
        field_7 (t0_word c6) (t0_word c7) k6 k7,
        e7,
      )
      (ap (λ t. c0 ∷ t)
        (ap (λ t. c1 ∷ t)
          (ap (λ t. c2 ∷ t)
            (ap (λ t. c3 ∷ t)
              (ap (λ t. c4 ∷ t)
                (ap (λ t. c5 ∷ t) (ap (λ t. c6 ∷ t) (ap (λ t. c7 ∷ t) (again p h)))))))))

-- `polyt0_unpack` reads back what `polyt0_pack` wrote from a multiple of eight coefficients from
-- -2^12 + 1 to 2^12.
pub t0_unpack-pack :
    (k : ℕ) (p : List ℤ) → length p ≡ 8 * k → All Fits13 p → polyt0_unpack (polyt0_pack p) ≡ p
t0_unpack-pack k p e h = again (eights k p e) h
