-- ===== src/MlDsa/Expand.antt =====
-- The sampling functions of tools/pqc/mldsa/polyvec.c.
use karudeb.Base.{ℕ, zero, suc, ◌+◌, ◌*◌, ◌<<◌, ℤ, List, [], ◌∷◌, u16, Option, some, ◌>>=◌}
use karudeb.MlDsa.Params.{MldsaParam}
use karudeb.MlDsa.Sample.{poly_uniform, poly_uniform_eta, poly_uniform_gamma1}

-- The loop over j, and the loop over i; `left` counts the rounds.
unfoldable pub expand_row : ℕ → ℕ → ℕ → ℕ → List ℕ → Option (List (List ℤ))
expand_row fuel zero i j rho = some []
expand_row fuel (suc left) i j rho = do
  p ← poly_uniform fuel rho ((i << 8) + j)
  row ← expand_row fuel left i (j + 1) rho
  some (p ∷ row)

unfoldable pub expand_rows : ℕ → ℕ → ℕ → ℕ → List ℕ → Option (List (List (List ℤ)))
expand_rows fuel ell zero i rho = some []
expand_rows fuel ell (suc left) i rho = do
  row ← expand_row fuel ell i 0 rho
  rows ← expand_rows fuel ell left (i + 1) rho
  some (row ∷ rows)

unfoldable pub polyvec_matrix_expand : ℕ → MldsaParam → List ℕ → Option (List (List (List ℤ)))
polyvec_matrix_expand fuel par rho = expand_rows fuel par.ell par.k 0 rho

-- The loop of both vectors, with nonce++ in uint16_t.
unfoldable pub eta_polys : ℕ → MldsaParam → ℕ → List ℕ → ℕ → Option (List (List ℤ))
eta_polys fuel par zero seed nonce = some []
eta_polys fuel par (suc left) seed nonce = do
  p ← poly_uniform_eta fuel par seed nonce
  v ← eta_polys fuel par left seed (u16 (nonce + 1))
  some (p ∷ v)

unfoldable pub polyvecl_uniform_eta : ℕ → MldsaParam → List ℕ → ℕ → Option (List (List ℤ))
polyvecl_uniform_eta fuel par seed nonce = eta_polys fuel par par.ell seed nonce

unfoldable pub polyveck_uniform_eta : ℕ → MldsaParam → List ℕ → ℕ → Option (List (List ℤ))
polyveck_uniform_eta fuel par seed nonce = eta_polys fuel par par.k seed nonce

unfoldable pub gamma1_polys : MldsaParam → ℕ → List ℕ → ℕ → ℕ → List (List ℤ)
gamma1_polys par zero seed nonce i = []
gamma1_polys par (suc left) seed nonce i =
    poly_uniform_gamma1 par seed (par.ell * nonce + i) ∷ gamma1_polys par left seed nonce (i + 1)

unfoldable pub polyvecl_uniform_gamma1 : MldsaParam → List ℕ → ℕ → List (List ℤ)
polyvecl_uniform_gamma1 par seed nonce = gamma1_polys par par.ell seed nonce 0
