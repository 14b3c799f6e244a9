-- ===== src/MlKem/Kem/Decaps.antt =====
-- Implicit rejection: what `mlkem_decaps_internal` returns for a ciphertext that the re-encryption gives
-- back, and for any other.
use karudeb.Base.{ℕ, ◌*◌, ◌-◌, ◌≤◌, ◌≡◌, ◌≢◌, ◌⊎◌, inl, inr, ap, ◌∙◌, arith}
use mathlib.Core.List.{append-nil}
use karudeb.Base.{sym, drop-append}
use karudeb.Base.{List, [], ◌++◌, length, take, drop, All, some}
use karudeb.MlKem.Params.{MlkemParam, sym_sz, poly_sz}
use karudeb.MlKem.Symmetric.{Fips202, HasOutputs, kyber_shake256_rkprf}
use karudeb.MlKem.Verify.{cmov}
use karudeb.MlKem.Verify.Compare.{IsByte, verify_lem}
use karudeb.MlKem.Verify.Move.{cmov_lem}
use karudeb.MlKem.Kpke.{kpke_encrypt, kpke_decrypt}
use karudeb.MlKem.Kem.{mlkem_decaps_internal}

-- Moving a whole array replaces it.
pub moved_whole :
    (kp kr : List ℕ)
    → All IsByte kp
    → All IsByte kr
    → length kp ≡ 32
    → length kr ≡ 64
    → cmov kp kr 32 1 ≡ take 32 kr
moved_whole kp kr hp hr kl rl =
    (cmov_lem kp kr 32 hp hr (omega arith) (omega arith)).1
    ∙ (ap (λ t. take 32 kr ++ t) nothing_left ∙ append-nil (take 32 kr))
  where
    nothing_left : drop 32 kp ≡ []
    nothing_left = sym (ap (λ t. drop 32 t) (append-nil kp)) ∙ drop-append 32 kp [] kl

module _ (f : Fips202) (outputs : HasOutputs f) where
  -- The decrypted message, followed by the hash of the public key that dk stores.
  abbrev pub hashed : MlkemParam → List ℕ → List ℕ → List ℕ
  hashed par dk ct = kpke_decrypt f par dk ct ++ take sym_sz (drop (par.dk_sz - 2 * sym_sz) dk)

  -- Where the encryption that the code repeats gives cmp, with arrays of bytes that hold a ciphertext:
  -- the shared secret is the first half of the hash and ct agrees with cmp, or it is the rejection key,
  -- made of the last bytes of dk and of ct, and they do not agree.
  pub decaps-rejects :
      (fuel : ℕ) (par : MlkemParam) (dk ct cmp : List ℕ)
      → All IsByte ct
      → All IsByte cmp
      → par.ct_sz ≤ length ct
      → par.ct_sz ≤ length cmp
      → kpke_encrypt f fuel par
          (drop (par.k * poly_sz) dk)
          (hashed par dk ct)
          (drop sym_sz (f.sha3_512 (hashed par dk ct)))
        ≡ some cmp
      → ((take par.ct_sz ct ≡ take par.ct_sz cmp)
          × (mlkem_decaps_internal f fuel par dk ct
              ≡ some (take sym_sz (f.sha3_512 (hashed par dk ct)))))
        ⊎ ((take par.ct_sz ct ≢ take par.ct_sz cmp)
            × (mlkem_decaps_internal f fuel par dk ct
                ≡ some (kyber_shake256_rkprf f par (drop (par.dk_sz - sym_sz) dk) ct)))
  unfolding mlkem_decaps_internal
  decaps-rejects fuel par dk ct cmp hc hm kc km e =
      let kr : List ℕ = f.sha3_512 (hashed par dk ct) in
      let kp : List ℕ = kyber_shake256_rkprf f par (drop (par.dk_sz - sym_sz) dk) ct in
      let kr_bytes : All IsByte kr = outputs.bytes-sha3_512 (hashed par dk ct) in
      let kr_length : length kr ≡ 64 = outputs.length-sha3_512 (hashed par dk ct) in
      let kp_bytes : All IsByte kp = unfold kyber_shake256_rkprf in outputs.bytes-squeeze _ _ in
      let kp_length : length kp ≡ 32 = unfold kyber_shake256_rkprf in outputs.length-squeeze _ _ in
      elim (verify_lem ct cmp par.ct_sz hc hm kc km) [
        | inl (same, zero_given) ↦ inl (
          same,
          rw (e, zero_given) (ap some (moved_whole kp kr kp_bytes kr_bytes kp_length kr_length)),
        )
        | inr (differ, one_given) ↦ inr (
          differ,
          rw (e, one_given)
              (ap some (cmov_lem kp kr 32 kp_bytes kr_bytes (omega arith) (omega arith)).0),
        )
      ]
