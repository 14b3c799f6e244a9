-- ===== src/MlDsa/Params.antt =====
-- tools/pqc/mldsa/mldsa_params.h, and the parameter sets of mldsa.c.
use karudeb.Base.{ℕ, ◌-◌, ◌/◌, ◌^◌, List, [], ◌∷◌}

-- mldsa_param_t, less its name.
pub record MldsaParam : Type 0 where
  pub level : ℕ
  pub k : ℕ
  pub ell : ℕ
  pub eta : ℕ
  pub tau : ℕ
  pub beta : ℕ
  pub gamma1 : ℕ
  pub gamma2 : ℕ
  pub omega_ : ℕ
  pub cp_sz : ℕ
  pub pzp_sz : ℕ
  pub w1p_sz : ℕ
  pub eta_sz : ℕ
  pub sk_sz : ℕ
  pub pk_sz : ℕ
  pub sig_sz : ℕ

-- MLDSA_PAR_Q
abbrev pub q : ℕ
q = 8380417

-- MLDSA_PAR_D
abbrev pub d : ℕ
d = 13

-- MLDSA_PAR_QINV
abbrev pub qinv : ℕ
qinv = 58728449

-- MLDSA_PAR_N
abbrev pub n : ℕ
n = 256

abbrev pub seed_sz : ℕ
seed_sz = 32

abbrev pub crh_sz : ℕ
crh_sz = 64

abbrev pub tr_sz : ℕ
tr_sz = 64

abbrev pub rnd_sz : ℕ
rnd_sz = 32

abbrev pub poly_t1_sz : ℕ
poly_t1_sz = 320

abbrev pub poly_t0_sz : ℕ
poly_t0_sz = 416

abbrev pub mldsa_44 : MldsaParam
mldsa_44 = record {
  level = 2;
  k = 4;
  ell = 4;
  eta = 2;
  tau = 39;
  beta = 78;
  gamma1 = 2 ^ 17;
  gamma2 = (q - 1) / 88;
  omega_ = 80;
  cp_sz = 32;
  pzp_sz = 576;
  w1p_sz = 192;
  eta_sz = 96;
  sk_sz = 2560;
  pk_sz = 1312;
  sig_sz = 2420;
}

abbrev pub mldsa_65 : MldsaParam
mldsa_65 = record {
  level = 3;
  k = 6;
  ell = 5;
  eta = 4;
  tau = 49;
  beta = 196;
  gamma1 = 2 ^ 19;
  gamma2 = (q - 1) / 32;
  omega_ = 55;
  cp_sz = 48;
  pzp_sz = 640;
  w1p_sz = 128;
  eta_sz = 128;
  sk_sz = 4032;
  pk_sz = 1952;
  sig_sz = 3309;
}

abbrev pub mldsa_87 : MldsaParam
mldsa_87 = record {
  level = 5;
  k = 8;
  ell = 7;
  eta = 2;
  tau = 60;
  beta = 120;
  gamma1 = 2 ^ 19;
  gamma2 = (q - 1) / 32;
  omega_ = 75;
  cp_sz = 64;
  pzp_sz = 640;
  w1p_sz = 128;
  eta_sz = 96;
  sk_sz = 4896;
  pk_sz = 2592;
  sig_sz = 4627;
}

abbrev pub mldsa_par : List MldsaParam
mldsa_par = mldsa_44 ∷ mldsa_65 ∷ mldsa_87 ∷ []
