-- ===== src/MlKem/Poly/Message.antt =====
-- `poly_frommsg` and `poly_tomsg`: a message bit is recovered from any coefficient that is near
-- enough to the one that encodes it.
use karudeb.Base.{ℕ, zero, suc, ◌+◌, ◌*◌, ◌/◌, ◌%◌, ◌^◌, ◌<◌, ◌≡◌, refl, ap, arith}
use karudeb.Base.{List, [], ◌∷◌, All, ℤ, pos, negsuc, pos_part, neg_part, ltb, if◌then◌else◌}
use karudeb.Base.{residue, Within, Congruent, multiple_of_Congruent, one_part_zero, ◌+ℤ◌, +ℤ_parts}
use karudeb.Base.{u8, ◌==◌, ◌∙◌}
use karudeb.MlKem.Verify.{cmov_int16}
use karudeb.Base.{bit_and, bit_or, bit_and_ones, holds_below, read_equation}
use karudeb.MlKem.Reduce.{q}
use karudeb.MlKem.Verify.Compare.{IsByte}
use karudeb.MlKem.Verify.Move.{cmov_int16_lem}
use karudeb.MlKem.Poly.{tomsg_bit, poly_tomsg, poly_frommsg}

-- The bit that is nearest to a centered coefficient: 1 from 833 on, where q / 4 is 832.25.
abbrev pub nearest_bit : ℤ → ℕ
nearest_bit c = if ltb (pos_part c + neg_part c) 833 then 0 else 1

-- Exhaustively over the centered coefficients.
tomsg_bit_pos : (n : ℕ) → n < 1665 → tomsg_bit (pos n) ≡ nearest_bit (pos n)
unfolding tomsg_bit residue holds_below
tomsg_bit_pos n h = read_equation (λ i. tomsg_bit (pos i)) (λ i. nearest_bit (pos i)) 1665 n refl h

tomsg_bit_negsuc : (n : ℕ) → n < 1664 → tomsg_bit (negsuc n) ≡ nearest_bit (negsuc n)
unfolding tomsg_bit residue holds_below
tomsg_bit_negsuc n h =
    read_equation (λ i. tomsg_bit (negsuc i)) (λ i. nearest_bit (negsuc i)) 1664 n refl h

pub tomsg_bit-nearest : (c : ℤ) → Within 1664 c → tomsg_bit c ≡ nearest_bit c
tomsg_bit-nearest (pos n) h = tomsg_bit_pos n (omega arith)
tomsg_bit-nearest (negsuc n) h = tomsg_bit_negsuc n (omega arith)

-- A centered coefficient that differs modulo q by at most 831 from an encoded one.
abbrev pub Near : ℤ → ℤ → Type 0
Near c s = Within 1664 c × ((e : ℤ) × Within 831 e × Congruent q c (s +ℤ e))

abbrev pub AllNear : List ℤ → List ℤ → Type 0
AllNear [] [] = Unit {0}
AllNear (c ∷ p) (s ∷ m) = Near c s × AllNear p m
AllNear [] (s ∷ m) = ⊥
AllNear (c ∷ p) [] = ⊥

-- The coefficient that encodes a bit.
abbrev pub encoded : ℕ → ℤ
encoded b = if b == 0 then pos 0 else pos 1665

Near-bit : (c : ℤ) (b : ℕ) → b < 2 → Near c (encoded b) → tomsg_bit c ≡ b
Near-bit c zero h (w, (e, we, k)) = rw (tomsg_bit-nearest c w) (
    ground (
      arith,
      one_part_zero c,
      one_part_zero e,
      +ℤ_parts (pos 0) e,
      multiple_of_Congruent q c (pos 0 +ℤ e) (omega arith) k,
    ))
Near-bit c (suc zero) h (w, (e, we, k)) = rw (tomsg_bit-nearest c w) (
    ground (
      arith,
      one_part_zero c,
      one_part_zero e,
      +ℤ_parts (pos 1665) e,
      multiple_of_Congruent q c (pos 1665 +ℤ e) (omega arith) k,
    ))
Near-bit c (suc (suc b)) h n = absurd (omega arith)

moved : (b : ℕ) → b < 2 → cmov_int16 (pos 0) (pos 1665) b ≡ encoded b
moved zero h =
    (cmov_int16_lem (pos 0) (pos 1665) (omega arith) (omega arith) (omega arith) (omega arith)).0
moved (suc zero) h =
    (cmov_int16_lem (pos 0) (pos 1665) (omega arith) (omega arith) (omega arith) (omega arith)).1
moved (suc (suc b)) h = absurd (omega arith)

-- What `poly_frommsg` writes for bit j of a byte.
encoded_bit :
    (x j : ℕ) → cmov_int16 (pos 0) (pos 1665) (bit_and (x / 2 ^ j) 1) ≡ encoded (x / 2 ^ j % 2)
encoded_bit x j = rw (bit_and_ones 1 (x / 2 ^ j) 1 refl) (moved (x / 2 ^ j % 2) (omega arith))

-- One round of the inner loop of `poly_tomsg`: bit k joins the bits below it.
abbrev join : ℕ → ℕ → ℕ → ℕ
join k m b = u8 (bit_or m (b * 2 ^ k))

joined_byte :
    (x : ℕ)
    → IsByte x
    → join 7
        (join 6
          (join 5
            (join 4
              (join 3
                (join 2 (join 1 (join 0 0 (x / 2 ^ 0 % 2)) (x / 2 ^ 1 % 2)) (x / 2 ^ 2 % 2))
                (x / 2 ^ 3 % 2))
              (x / 2 ^ 4 % 2))
            (x / 2 ^ 5 % 2))
          (x / 2 ^ 6 % 2))
        (x / 2 ^ 7 % 2)
      ≡ x
unfolding holds_below
joined_byte x h =
    read_equation
      (λ i.
        join 7
          (join 6
            (join 5
              (join 4
                (join 3 (join 2 (join 1 (join 0 0 (i / 2 ^ 0 % 2)) (i / 2 ^ 1 % 2)) (i / 2 ^ 2 % 2))
                  (i / 2 ^ 3 % 2))
                (i / 2 ^ 4 % 2))
              (i / 2 ^ 5 % 2))
            (i / 2 ^ 6 % 2))
          (i / 2 ^ 7 % 2))
      (λ i. i) 256 x refl h

unfoldable pub bits : ℕ → List ℤ → List ℤ
bits x rest =
    encoded (x / 2 ^ 0 % 2)
    ∷ encoded (x / 2 ^ 1 % 2)
    ∷ encoded (x / 2 ^ 2 % 2)
    ∷ encoded (x / 2 ^ 3 % 2)
    ∷ encoded (x / 2 ^ 4 % 2)
    ∷ encoded (x / 2 ^ 5 % 2)
    ∷ encoded (x / 2 ^ 6 % 2)
    ∷ encoded (x / 2 ^ 7 % 2)
    ∷ rest

pub frommsg-bits : (x : ℕ) (msg : List ℕ) → poly_frommsg (x ∷ msg) ≡ bits x (poly_frommsg msg)
unfolding poly_frommsg bits
frommsg-bits x msg = rw (
  encoded_bit x 0,
  encoded_bit x 1,
  encoded_bit x 2,
  encoded_bit x 3,
  encoded_bit x 4,
  encoded_bit x 5,
  encoded_bit x 6,
  encoded_bit x 7,
)

-- Eight coefficients near the bits of a byte give the byte.
tomsg_step :
    (x : ℕ) (p s : List ℤ)
    → IsByte x
    → AllNear p (bits x s)
    → (rest : List ℤ) × AllNear rest s × (poly_tomsg p ≡ x ∷ poly_tomsg rest)
unfolding bits poly_tomsg
tomsg_step x (c0 ∷ c1 ∷ c2 ∷ c3 ∷ c4 ∷ c5 ∷ c6 ∷ c7 ∷ rest) s h
      (n0, (n1, (n2, (n3, (n4, (n5, (n6, (n7, near)))))))) =
    (
      rest,
      near,
      rw
          (
            Near-bit c0 (x / 2 ^ 0 % 2) (omega arith) n0,
            Near-bit c1 (x / 2 ^ 1 % 2) (omega arith) n1,
            Near-bit c2 (x / 2 ^ 2 % 2) (omega arith) n2,
            Near-bit c3 (x / 2 ^ 3 % 2) (omega arith) n3,
            Near-bit c4 (x / 2 ^ 4 % 2) (omega arith) n4,
            Near-bit c5 (x / 2 ^ 5 % 2) (omega arith) n5,
            Near-bit c6 (x / 2 ^ 6 % 2) (omega arith) n6,
            Near-bit c7 (x / 2 ^ 7 % 2) (omega arith) n7,
          )
          (ap (λ t. t ∷ poly_tomsg rest) (joined_byte x h)),
    )
tomsg_step x [] s h n = elim n [ ]
tomsg_step x (_ ∷ []) s h (_, n) = elim n [ ]
tomsg_step x (_ ∷ _ ∷ []) s h (_, (_, n)) = elim n [ ]
tomsg_step x (_ ∷ _ ∷ _ ∷ []) s h (_, (_, (_, n))) = elim n [ ]
tomsg_step x (_ ∷ _ ∷ _ ∷ _ ∷ []) s h (_, (_, (_, (_, n)))) = elim n [ ]
tomsg_step x (_ ∷ _ ∷ _ ∷ _ ∷ _ ∷ []) s h (_, (_, (_, (_, (_, n))))) = elim n [ ]
tomsg_step x (_ ∷ _ ∷ _ ∷ _ ∷ _ ∷ _ ∷ []) s h (_, (_, (_, (_, (_, (_, n)))))) = elim n [ ]
tomsg_step x (_ ∷ _ ∷ _ ∷ _ ∷ _ ∷ _ ∷ _ ∷ []) s h (_, (_, (_, (_, (_, (_, (_, n))))))) = elim n [ ]

-- `poly_tomsg` recovers every message from centered coefficients that differ modulo q by at most 831
-- from those which `poly_frommsg` gave.
pub tomsg-frommsg :
    (msg : List ℕ) (p : List ℤ) → All IsByte msg → AllNear p (poly_frommsg msg) → poly_tomsg p ≡ msg
tomsg-frommsg [] [] h n = unfold poly_tomsg in refl
tomsg-frommsg [] (c ∷ p) h n = absurd (unfold poly_frommsg in n)
tomsg-frommsg (x ∷ msg) p (hx, h) n =
    let (rest, near, e) = tomsg_step x p (poly_frommsg msg) hx (rw (frommsg-bits x msg) at n) in
    e ∙ ap (λ t. x ∷ t) (tomsg-frommsg msg rest h near)
