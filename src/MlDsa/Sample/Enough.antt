-- ===== src/MlDsa/Sample/Enough.antt =====
-- When the loop of `poly_uniform` of tools/pqc/mldsa/mldsa_poly.c ends.
use karudeb.Base.{ℕ, ◌+◌, ◌≤◌, ◌<◌, ◌≡◌, refl, ap, ◌∙◌, sym, arith}
use karudeb.Base.{ℤ, pos, List, [], ◌∷◌, length, length-take, take, All, All-take}
use karudeb.Base.{ltb, ltb→lt, Bool-cases, inl, inr, false, u16, some}
use karudeb.Keccak.Shake.{shake128_rate}
use karudeb.Keccak.Sponge.{keccak_squeezeblocks}
use karudeb.MlDsa.Params.{q, n}
use karudeb.MlDsa.Symmetric.{dilithium_shake128_stream_init}
use karudeb.MlDsa.Sample.{poly_uniform_nblocks, poly_uniform}
use karudeb.MlDsa.Sample.Uniform.{
  candidates, accepted, first_coefficients, poly_uniform_lem, stream_step, enough_lem,
}

-- A coefficient from 0 to q - 1.
abbrev pub IsCoefficient : ℤ → Type 0
IsCoefficient c = (m : ℕ) × (c ≡ pos m) × (m < q)

accepted-IsCoefficient : (cs : List ℕ) → All IsCoefficient (accepted cs)
accepted-IsCoefficient [] = tt
accepted-IsCoefficient (c ∷ cs) = elim (Bool-cases (ltb c q)) [
  | inl small ↦ rw small ((c, refl, ltb→lt c q small), accepted-IsCoefficient cs)
  | inr large ↦ rw large (accepted-IsCoefficient cs)
]

not_below : (a b : ℕ) → b ≤ a → ltb a b ≡ false
not_below a b h = ground arith

-- The numbers below q among the candidates of the first five blocks of the stream and `extra` more.
abbrev pub supply : ℕ → List ℕ → ℕ → List ℤ
supply extra seed nonce =
    let start = dilithium_shake128_stream_init seed (u16 nonce) in
    accepted
      (candidates (keccak_squeezeblocks (poly_uniform_nblocks + extra) start.s shake128_rate).0)

-- Once the first five blocks and `extra` more hold at least 256 numbers below q, `poly_uniform` ends: on
-- fuel for `extra` blocks and on any more fuel it gives one and the same polynomial, of 256 coefficients
-- from 0 to q - 1.
pub poly_uniform-ends :
    (extra more : ℕ) (seed : List ℕ) (nonce : ℕ)
    → n ≤ length (supply extra seed nonce)
    → (let a = take n (supply extra seed nonce) in
        (poly_uniform (extra + more) seed nonce ≡ some a) × (length a ≡ n) × All IsCoefficient a)
poly_uniform-ends extra more seed nonce h =
    let start = dilithium_shake128_stream_init seed (u16 nonce) in
    let count : ℕ = poly_uniform_nblocks + extra in
    let blocks = keccak_squeezeblocks count start.s shake128_rate in
    let later = accepted (candidates (keccak_squeezeblocks more blocks.1 shake128_rate).0) in
    let sum : poly_uniform_nblocks + (extra + more) ≡ count + more = omega arith in
    let enough = not_below (length (supply extra seed nonce)) n h in
    (
      poly_uniform_lem (extra + more) seed nonce
          ∙ ap
              (λ (t : ℕ).
                first_coefficients
                  (accepted (candidates (keccak_squeezeblocks t start.s shake128_rate).0)))
              sum
          ∙ ap first_coefficients (stream_step more count start.s)
          ∙ sym (enough_lem (supply extra seed nonce) later enough),
      length-take n (supply extra seed nonce) h,
      All-take IsCoefficient n (supply extra seed nonce)
          (accepted-IsCoefficient (candidates blocks.0)),
    )
