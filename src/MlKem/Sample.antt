-- ===== src/MlKem/Sample.antt =====
-- The samplers of tools/pqc/mlkem/mlkem_kpke.c and mlkem_poly.c: rejection sampling of uniform
-- polynomials, and noise.
pub mod Reject
use karudeb.Base.{ℕ, zero, suc, ◌+◌, ◌-◌, ◌*◌, ◌/◌, ◌^◌, ◌<<◌, ◌>>◌, ◌++◌, map}
use karudeb.Base.{ℤ, pos, List, [], ◌∷◌, take, length, ltb, leb, ◌&&◌, ◌==◌, if◌then◌else◌}
use karudeb.Base.{bit_and, bit_or, u8, Bool, Option, none, some, ◌>>=◌}
use karudeb.MlKem.Reduce.{q}
use karudeb.MlKem.Params.{MlkemParam, n}
use karudeb.MlKem.Symmetric.{Fips202, kyber_shake128_absorb, kyber_shake256_prf, xof_blockbytes}
use karudeb.MlKem.Cbd.{poly_cbd_eta1, poly_cbd_eta2}

-- mlkem_rej_uniform: `room` is len - ctr. The result is what is written to r, whose length is the
-- returned counter. The loop ends with the room, or when fewer than three bytes are left.
unfoldable pub mlkem_rej_uniform : ℕ → List ℕ → List ℤ
mlkem_rej_uniform room (b0 ∷ b1 ∷ b2 ∷ buf) =
    let val0 = bit_and (bit_or (b0 >> 0) (b1 << 8)) 0xfff in
    let val1 = bit_and (bit_or (b1 >> 4) (b2 << 4)) 0xfff in
    let out0 = if ltb val0 q then pos val0 ∷ [] else [] in
    let room1 = room - length out0 in
    let out1 = if ltb 0 room1 && ltb val1 q then pos val1 ∷ [] else [] in
    if room == 0 then [] else out0 ++ (out1 ++ mlkem_rej_uniform (room1 - length out1) buf)
mlkem_rej_uniform room buf = []

-- GEN_MATRIX_NBLOCKS
abbrev pub gen_matrix_nblocks : ℕ
gen_matrix_nblocks = (12 * n / 8 * 2 ^ 12 / q + xof_blockbytes) / xof_blockbytes

module _ (f : Fips202) where
  -- The `while` loop of `gen_matrix` on what is sampled so far; `none` is fuel that ran out.
  unfoldable pub refill : ℕ → List ℤ → f.State → Option (List ℤ)
  refill zero p state = if ltb (length p) n then none else some p
  refill (suc fuel) p state =
      let (buf, state') = f.shake128_squeezeblocks 1 state in
      let rest = refill fuel (p ++ mlkem_rej_uniform (n - length p) buf) state' in
      if ltb (length p) n then rest else some p

  -- One entry of the matrix, from a state that absorbed the seed and the indices.
  unfoldable pub gen_entry : ℕ → f.State → Option (List ℤ)
  unfolding refill
  gen_entry fuel state =
      let (buf, state') = f.shake128_squeezeblocks gen_matrix_nblocks state in
      refill fuel (mlkem_rej_uniform n buf) state'

  -- The loop over j, and the loop over i; `left` counts the rounds. The state absorbs i and j in this
  -- order for the transpose, and j and i for the matrix.
  unfoldable pub gen_row : ℕ → ℕ → ℕ → ℕ → List ℕ → Bool → Option (List (List ℤ))
  unfolding gen_entry
  gen_row fuel zero i j seed transposed = some []
  gen_row fuel (suc left) i j seed transposed = do
    p ←
        gen_entry fuel (
          if transposed then kyber_shake128_absorb f seed i j else kyber_shake128_absorb f seed j i)
    row ← gen_row fuel left i (j + 1) seed transposed
    some (p ∷ row)

  unfoldable pub gen_rows : ℕ → ℕ → ℕ → ℕ → List ℕ → Bool → Option (List (List (List ℤ)))
  unfolding gen_row
  gen_rows fuel k zero i seed transposed = some []
  gen_rows fuel k (suc left) i seed transposed = do
    row ← gen_row fuel k i 0 seed transposed
    rows ← gen_rows fuel k left (i + 1) seed transposed
    some (row ∷ rows)

  unfoldable pub gen_matrix : ℕ → MlkemParam → List ℕ → Bool → Option (List (List (List ℤ)))
  unfolding gen_rows
  gen_matrix fuel par seed transposed = gen_rows fuel par.k par.k 0 seed transposed

  unfoldable pub poly_getnoise_eta1 : MlkemParam → List ℕ → ℕ → List ℤ
  poly_getnoise_eta1 par seed nonce =
      poly_cbd_eta1 par (kyber_shake256_prf f (par.eta1 * (n / 4)) seed nonce)

  -- MLKEM_PAR_ETA2 * MLKEM_PAR_N / 4 bytes
  unfoldable pub poly_getnoise_eta2 : List ℕ → ℕ → List ℤ
  poly_getnoise_eta2 seed nonce = poly_cbd_eta2 (kyber_shake256_prf f (2 * n / 4) seed nonce)

  -- The loops over the polynomials of a vector, with nonce++ in uint8_t.
  unfoldable pub noise_eta1 : MlkemParam → ℕ → List ℕ → ℕ → List (List ℤ)
  unfolding poly_getnoise_eta1
  noise_eta1 par zero seed nonce = []
  noise_eta1 par (suc left) seed nonce =
      poly_getnoise_eta1 par seed nonce ∷ noise_eta1 par left seed (u8 (nonce + 1))

  unfoldable pub noise_eta2 : ℕ → List ℕ → ℕ → List (List ℤ)
  unfolding poly_getnoise_eta2
  noise_eta2 zero seed nonce = []
  noise_eta2 (suc left) seed nonce =
      poly_getnoise_eta2 seed nonce ∷ noise_eta2 left seed (u8 (nonce + 1))
