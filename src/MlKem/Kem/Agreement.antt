-- ===== src/MlKem/Kem/Agreement.antt =====
-- Both sides of the key encapsulation get the same key, where decryption gives the message back.
use karudeb.Base.{ℕ, zero, suc, ◌+◌, ◌*◌, ◌-◌, ◌≤◌, ◌≡◌, refl, ap, ap₂, ◌∙◌, sym, arith}
use karudeb.Base.{ℤ, List, [], ◌∷◌, ◌++◌, length, take, drop, All, Option, none, some, ◌>>=◌}
use karudeb.Base.{
  take-append, drop-append, take-append_le, drop-append_le, length-drop, length-append,
}
use karudeb.Base.{bit_xor_same}
use mathlib.Core.Path.{subst}
use mathlib.Core.List.{append-nil, append_assoc}
use karudeb.MlKem.Params.{MlkemParam, sym_sz, poly_sz}
use karudeb.MlKem.Symmetric.{Fips202, HasOutputs, kyber_shake256_rkprf}
use karudeb.MlKem.Verify.{verify_loop, verify}
use karudeb.MlKem.Verify.Compare.{IsByte}
use karudeb.MlKem.Polyvec.{from_slices, polyvec_frombytes}
use karudeb.MlKem.Kpke.{unpack_ek, kpke_encrypt, kpke_decrypt}
use karudeb.MlKem.Kem.{mlkem_encaps_internal, mlkem_decaps_internal}
use karudeb.MlKem.Kem.Decaps.{moved_whole}

verify_loop_same : (len : ℕ) (a : List ℕ) → verify_loop len a a 0 ≡ 0
unfolding verify_loop
verify_loop_same zero a = refl
verify_loop_same (suc len) [] = refl
verify_loop_same (suc len) (x ∷ a) = rw (bit_xor_same x) (verify_loop_same len a)

verify_same : (a : List ℕ) (len : ℕ) → verify a a len ≡ 0
unfolding verify
verify_same a len = rw (verify_loop_same len a) refl

from_slices-append :
    (unpack : List ℕ → List ℤ) (size k : ℕ) (a rest : List ℕ)
    → k * size ≤ length a
    → from_slices unpack size k (a ++ rest) ≡ from_slices unpack size k a
unfolding from_slices
from_slices-append unpack size zero a rest h = refl
from_slices-append unpack size (suc k) a rest h =
    let first : size ≤ length a = omega arith in
    let left : k * size ≤ length (drop size a) = omega (arith, length-drop size a) in
    rw (take-append_le size a rest first, drop-append_le size a rest first)
      (ap (λ t. unpack (take size a) ∷ t)
        (from_slices-append unpack size k (drop size a) rest left))

-- What follows the public key is not read.
unpack_ek-append :
    (par : MlkemParam) (ek rest : List ℕ)
    → length ek ≡ par.k * poly_sz + sym_sz
    → unpack_ek par (ek ++ rest) ≡ unpack_ek par ek
unfolding unpack_ek polyvec_frombytes
unpack_ek-append par ek rest h =
    let seed : sym_sz ≤ length (drop (par.k * poly_sz) ek) =
      omega (arith, length-drop (par.k * poly_sz) ek) in
    rw
      (
        from_slices-append _ poly_sz par.k ek rest (omega arith),
        drop-append_le (par.k * poly_sz) ek rest (omega arith),
        take-append_le sym_sz (drop (par.k * poly_sz) ek) rest seed,
      )
      refl

take_whole : (k : ℕ) (a : List ℕ) → length a ≡ k → take k a ≡ a
take_whole k a h = ap (λ (t : List ℕ). take k t) (sym (append-nil a)) ∙ take-append k a [] h

-- The shared secret and the ciphertext.
abbrev answer : List ℕ → List ℕ → Option (List ℕ × List ℕ)
answer kr c = some (take sym_sz kr, c)

module _ (f : Fips202) (outputs : HasOutputs f) where
  encrypt-append :
      (fuel : ℕ) (par : MlkemParam) (ek rest m r : List ℕ)
      → length ek ≡ par.k * poly_sz + sym_sz
      → kpke_encrypt f fuel par (ek ++ rest) m r ≡ kpke_encrypt f fuel par ek m r
  unfolding kpke_encrypt
  encrypt-append fuel par ek rest m r h = rw (unpack_ek-append par ek rest h) refl

  -- The secret key as `mlkem_keygen_internal` puts it together.
  abbrev pub stored : List ℕ → List ℕ → List ℕ → List ℕ
  stored dkp ek z = dkp ++ (ek ++ (f.sha3_256 ek ++ z))

  -- The decapsulation of a ciphertext that is encrypted again.
  opened :
      (fuel : ℕ) (par : MlkemParam) (dk pk ct buf : List ℕ)
      → drop (par.k * poly_sz) dk ≡ pk
      → kpke_decrypt f par dk ct ++ take sym_sz (drop (par.dk_sz - 2 * sym_sz) dk) ≡ buf
      → kpke_encrypt f fuel par pk buf (drop sym_sz (f.sha3_512 buf)) ≡ some ct
      → mlkem_decaps_internal f fuel par dk ct ≡ some (take sym_sz (f.sha3_512 buf))
  unfolding mlkem_decaps_internal
  opened fuel par dk pk ct buf p e again =
      let kr : List ℕ = f.sha3_512 buf in
      let kp : List ℕ = kyber_shake256_rkprf f par (drop (par.dk_sz - sym_sz) dk) ct in
      let kp_bytes : All IsByte kp = unfold kyber_shake256_rkprf in outputs.bytes-squeeze _ _ in
      let kp_length : length kp ≡ 32 = unfold kyber_shake256_rkprf in outputs.length-squeeze _ _ in
      rw (e, p, again, verify_same ct par.ct_sz)
        (ap some (
          moved_whole kp kr kp_bytes (outputs.bytes-sha3_512 buf) kp_length
            (outputs.length-sha3_512 buf)))

  -- For keys as `mlkem_keygen_internal` puts them together, of the lengths of the parameter set: where
  -- `mlkem_encaps_internal` gives a shared secret and a ciphertext, and `kpke_decrypt` gives back the
  -- message from the ciphertext, `mlkem_decaps_internal` gives the same shared secret.
  pub decaps-encaps :
      (fuel : ℕ) (par : MlkemParam) (dkp ek z m ss ct : List ℕ)
      → length dkp ≡ par.k * poly_sz
      → length ek ≡ par.k * poly_sz + sym_sz
      → par.ek_sz ≡ par.k * poly_sz + sym_sz
      → par.dk_sz ≡ 2 * (par.k * poly_sz) + 3 * sym_sz
      → mlkem_encaps_internal f fuel par ek m ≡ some (ss, ct)
      → kpke_decrypt f par (stored dkp ek z) ct ≡ take sym_sz m
      → mlkem_decaps_internal f fuel par (stored dkp ek z) ct ≡ some ss
  unfolding mlkem_encaps_internal
  decaps-encaps fuel par dkp ek z m ss ct hd he pe pd sent received =
      from (kpke_encrypt f fuel par ek buf (drop sym_sz kr)) refl sent'
    where
      hash : List ℕ
      hash = f.sha3_256 ek

      buf : List ℕ
      buf = take sym_sz m ++ hash

      kr : List ℕ
      kr = f.sha3_512 buf

      sent' : (kpke_encrypt f fuel par ek buf (drop sym_sz kr) >>= answer kr) ≡ some (ss, ct)
      sent' =
          subst
            (λ (t : List ℕ).
              (kpke_encrypt f fuel par ek (take sym_sz m ++ f.sha3_256 t)
                  (drop sym_sz (f.sha3_512 (take sym_sz m ++ f.sha3_256 t)))
                >>= answer (f.sha3_512 (take sym_sz m ++ f.sha3_256 t)))
              ≡ some (ss, ct))
            (take_whole par.ek_sz ek (omega (arith, he, pe))) sent

      stored_hash : take sym_sz (drop (par.dk_sz - 2 * sym_sz) (stored dkp ek z)) ≡ hash
      stored_hash =
          let front : length (dkp ++ ek) ≡ par.dk_sz - 2 * sym_sz =
            omega (arith, length-append dkp ek, hd, he, pd) in
          ap (λ (t : List ℕ). take sym_sz (drop (par.dk_sz - 2 * sym_sz) t))
            (sym (append_assoc dkp ek (hash ++ z)))
          ∙ ap (λ (t : List ℕ). take sym_sz t)
              (drop-append (par.dk_sz - 2 * sym_sz) (dkp ++ ek) (hash ++ z) front)
          ∙ take-append sym_sz hash z (outputs.length-sha3_256 ek)

      from :
          (o : Option (List ℕ))
          → kpke_encrypt f fuel par ek buf (drop sym_sz kr) ≡ o
          → (o >>= answer kr) ≡ some (ss, ct)
          → mlkem_decaps_internal f fuel par (stored dkp ek z) ct ≡ some ss
      from none e g = absurd (ground (arith, g))
      from (some c) e g =
          let pair : (take sym_sz kr, c) ≡ (ss, ct) = cc in
          let again : kpke_encrypt f fuel par (ek ++ (hash ++ z)) buf (drop sym_sz kr) ≡ some ct =
            encrypt-append fuel par ek (hash ++ z) buf (drop sym_sz kr) he
            ∙ e
            ∙ ap (λ (t : List ℕ × List ℕ). some t.1) pair in
          opened fuel par (stored dkp ek z) (ek ++ (hash ++ z)) ct buf
            (drop-append (par.k * poly_sz) dkp (ek ++ (hash ++ z)) hd)
            (ap₂ (λ (t u : List ℕ). t ++ u) received stored_hash) again
          ∙ ap (λ (t : List ℕ × List ℕ). some t.0) pair
