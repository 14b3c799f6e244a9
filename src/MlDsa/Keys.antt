-- ===== src/MlDsa/Keys.antt =====
-- The encodings of the keys in tools/pqc/mldsa/mldsa.c. `pack_sk` writes rho, key and tr in this order.
pub mod RoundTrip
use karudeb.Base.{ℕ, zero, suc, ◌+◌, ◌*◌, ◌++◌, ℤ, List, [], ◌∷◌, take, drop}
use karudeb.MlDsa.Params.{MldsaParam, seed_sz, tr_sz, poly_t1_sz, poly_t0_sz}
use karudeb.MlDsa.Packing.Eta.{polyeta_pack, polyeta_unpack}
use karudeb.MlDsa.Packing.High.{polyt1_pack, polyt1_unpack}
use karudeb.MlDsa.Packing.Low.{polyt0_pack, polyt0_unpack}

-- The loops that write the polynomials of a vector one after the other, and that read k of them, each
-- from so many bytes.
unfoldable pub pack_each : (List ℤ → List ℕ) → List (List ℤ) → List ℕ
pack_each pack [] = []
pack_each pack (p ∷ v) = pack p ++ pack_each pack v

unfoldable pub unpack_each : (List ℕ → List ℤ) → ℕ → ℕ → List ℕ → List (List ℤ)
unpack_each unpack size zero bytes = []
unpack_each unpack size (suc k) bytes =
    unpack (take size bytes) ∷ unpack_each unpack size k (drop size bytes)

unfoldable pub pack_pk : List ℕ → List (List ℤ) → List ℕ
pack_pk rho t1 = take seed_sz rho ++ pack_each polyt1_pack t1

-- The pair (rho, t1).
unfoldable pub unpack_pk : MldsaParam → List ℕ → List ℕ × List (List ℤ)
unpack_pk par pk = (take seed_sz pk, unpack_each polyt1_unpack poly_t1_sz par.k (drop seed_sz pk))

-- The six parts of a secret key.
pub record SecretKey : Type 0 where
  pub rho : List ℕ
  pub tr : List ℕ
  pub key : List ℕ
  pub t0 : List (List ℤ)
  pub s1 : List (List ℤ)
  pub s2 : List (List ℤ)

unfoldable pub pack_sk : MldsaParam → SecretKey → List ℕ
pack_sk par s =
    take seed_sz s.rho
    ++ (take seed_sz s.key
        ++ (take tr_sz s.tr
            ++ (pack_each (polyeta_pack par) s.s1
                ++ (pack_each (polyeta_pack par) s.s2 ++ pack_each polyt0_pack s.t0))))

unfoldable pub unpack_sk : MldsaParam → List ℕ → SecretKey
unpack_sk par sk =
    let after_rho = drop seed_sz sk in
    let after_key = drop seed_sz after_rho in
    let after_tr = drop tr_sz after_key in
    let after_s1 = drop (par.ell * par.eta_sz) after_tr in
    let after_s2 = drop (par.k * par.eta_sz) after_s1 in
    record {
      rho = take seed_sz sk;
      tr = take tr_sz after_key;
      key = take seed_sz after_rho;
      t0 = unpack_each polyt0_unpack poly_t0_sz par.k after_s2;
      s1 = unpack_each (polyeta_unpack par) par.eta_sz par.ell after_tr;
      s2 = unpack_each (polyeta_unpack par) par.eta_sz par.k after_s1;
    }
