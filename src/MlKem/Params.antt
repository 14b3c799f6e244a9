-- ===== src/MlKem/Params.antt =====
-- tools/pqc/mlkem/mlkem_params.h and the parameter sets of tools/pqc/mlkem/mlkem.c.
use karudeb.Base.{ℕ, List, [], ◌∷◌}

-- mlkem_param_t, less its name.
pub record MlkemParam : Type 0 where
  pub level : ℕ
  pub k : ℕ
  pub eta1 : ℕ
  pub du : ℕ
  pub dv : ℕ
  pub ek_sz : ℕ
  pub dk_sz : ℕ
  pub ct_sz : ℕ

abbrev pub mlkem_512 : MlkemParam
mlkem_512 = record {
  level = 1;
  k = 2;
  eta1 = 3;
  du = 10;
  dv = 4;
  ek_sz = 800;
  dk_sz = 1632;
  ct_sz = 768;
}

abbrev pub mlkem_768 : MlkemParam
mlkem_768 = record {
  level = 3;
  k = 3;
  eta1 = 2;
  du = 10;
  dv = 4;
  ek_sz = 1184;
  dk_sz = 2400;
  ct_sz = 1088;
}

abbrev pub mlkem_1024 : MlkemParam
mlkem_1024 = record {
  level = 5;
  k = 4;
  eta1 = 2;
  du = 11;
  dv = 5;
  ek_sz = 1568;
  dk_sz = 3168;
  ct_sz = 1568;
}

abbrev pub mlkem_par : List MlkemParam
mlkem_par = mlkem_512 ∷ mlkem_768 ∷ mlkem_1024 ∷ []

-- MLKEM_PAR_N, MLKEM_SYM_SZ, MLKEM_SS_SZ and MLKEM_POLY_SZ
abbrev pub n : ℕ
n = 256

abbrev pub sym_sz : ℕ
sym_sz = 32

abbrev pub ss_sz : ℕ
ss_sz = 32

abbrev pub poly_sz : ℕ
poly_sz = 384
