-- ===== src/MlDsa/Examples/Scheme.antt =====
-- The theorems on keys, signatures, signing and verification at concrete inputs.
use karudeb.Base.{ℕ, ◌<◌, ◌≡◌, ◌⊎◌, inl, inr, refl, arith}
use karudeb.Base.{
  ℤ, pos, negsuc, List, [], ◌∷◌, ◌++◌, replicate, length-replicate, All-replicate, All, length,
  Within,
}
use karudeb.Base.{some}
use karudeb.MlDsa.Params.{mldsa_44, mldsa_65}
use karudeb.MlDsa.Challenge.{poly_challenge, store}
use karudeb.MlDsa.Challenge.Weight.{ChallengeOutcome, challenge_stream, poly_challenge-IsChallenge}
use karudeb.MlDsa.Keys.{SecretKey, pack_pk, unpack_pk, pack_sk, unpack_sk}
use karudeb.MlDsa.Packing.High.RoundTrip.{Fits10}
use karudeb.MlDsa.Packing.Low.Fields.{Fits13}
use karudeb.MlDsa.Packing.Mask.Narrow.{Fits18}
use karudeb.MlDsa.Keys.RoundTrip.{IsVector, IsSecretKey, unpack-pack_pk, unpack-pack_sk}
use karudeb.MlDsa.Signature.{
  encode_hints, decode_hints, decode_polys, decode_poly, some_extra, pack_sig, unpack_sig,
}
use karudeb.MlDsa.Signature.Canonical.{IsHints, decode_hints-canonical}
use karudeb.MlDsa.Signature.RoundTrip.{unpack-pack_sig}
use karudeb.MlDsa.Scheme.{mldsa_sign_internal, mldsa_verify_internal}
use karudeb.MlDsa.Scheme.Signing.{SignOutcome, mldsa_sign_internal_lem}
use karudeb.MlDsa.Scheme.Verifying.{
  IsSignatureArray, IsMalformed, Verifies, mldsa_verify_internal_lem,
}

poly_challenge_example :
    ChallengeOutcome 300 39
      (challenge_stream mldsa_44 (replicate 32 7))
      (poly_challenge 300 mldsa_44 (replicate 32 7))
poly_challenge_example = poly_challenge-IsChallenge 300 mldsa_44 (replicate 32 7) (omega arith)

constant_vector :
    (P : ℤ → Type 0) (k : ℕ) (c : ℤ) → P c → IsVector P k (replicate k (replicate 256 c))
constant_vector P k c h =
    let p : List ℤ = replicate 256 c in
    let each : (length p ≡ 256) × All P p = (length-replicate 256 c, All-replicate P 256 c h) in
    (length-replicate k p, All-replicate (λ p. (length p ≡ 256) × All P p) k p each)

abbrev public_vector : List (List ℤ)
public_vector = replicate 4 (replicate 256 (pos 1023))

pack_pk_example :
    unpack_pk mldsa_44 (pack_pk (replicate 32 200) public_vector)
    ≡ (replicate 32 200, public_vector)
pack_pk_example =
    unpack-pack_pk mldsa_44 (replicate 32 200) public_vector refl
      (constant_vector Fits10 4 (pos 1023) (omega arith))

abbrev secret_key : SecretKey
secret_key = record {
  rho = replicate 32 1;
  tr = replicate 64 2;
  key = replicate 32 3;
  t0 = replicate 6 (replicate 256 (negsuc 4094));
  s1 = replicate 5 (replicate 256 (negsuc 3));
  s2 = replicate 6 (replicate 256 (pos 4));
}

secret_key-IsSecretKey : IsSecretKey mldsa_65 secret_key
secret_key-IsSecretKey = record {
  sizes = inr (refl, refl);
  rho_size = refl;
  key_size = refl;
  tr_size = refl;
  low_parts = constant_vector Fits13 6 (negsuc 4094) (omega arith);
  secret = constant_vector (Within 4) 5 (negsuc 3) (omega arith);
  noise = constant_vector (Within 4) 6 (pos 4) (omega arith);
}

pack_sk_example : unpack_sk mldsa_65 (pack_sk mldsa_65 secret_key) ≡ secret_key
pack_sk_example = unpack-pack_sk mldsa_65 secret_key secret_key-IsSecretKey

abbrev no_hint : List ℕ
no_hint = replicate 256 0

-- A hint at 5 and one at 7.
abbrev two_hints : List ℕ
two_hints = 0 ∷ 0 ∷ 0 ∷ 0 ∷ 0 ∷ 1 ∷ 0 ∷ 1 ∷ replicate 248 0

abbrev hints : List (List ℕ)
hints = no_hint ∷ two_hints ∷ no_hint ∷ no_hint ∷ []

abbrev hint_bytes : List ℕ
hint_bytes = 5 ∷ 7 ∷ (replicate 78 0 ++ (0 ∷ 2 ∷ 2 ∷ 2 ∷ []))

decoded : decode_hints mldsa_44 hint_bytes ≡ some hints
unfolding decode_hints decode_polys decode_poly some_extra store
decoded = refl

is_byte : All (λ (b : ℕ). b < 256) hint_bytes
is_byte = omega arith

decode_hints_example : IsHints mldsa_44 hints × (encode_hints mldsa_44 hints ≡ hint_bytes)
decode_hints_example =
    decode_hints-canonical mldsa_44 hint_bytes hints (omega arith) refl is_byte decoded

abbrev masks : List (List ℤ)
masks = replicate 4 (replicate 256 (negsuc 131070))

pack_sig_example :
    unpack_sig mldsa_44 (pack_sig mldsa_44 (replicate 32 9) masks hints)
    ≡ some (replicate 32 9, masks, hints)
pack_sig_example =
    unpack-pack_sig mldsa_44 (replicate 32 9) masks hints (omega arith) refl
      (inl (refl, refl, constant_vector Fits18 4 (negsuc 131070) (omega arith)))
      decode_hints_example.0

mldsa_sign_internal_example :
    SignOutcome 300 20 mldsa_44
      (replicate 2560 0)
      (1 ∷ 2 ∷ [])
      (replicate 32 0)
      (mldsa_sign_internal 300 20 mldsa_44 (replicate 2560 0) (1 ∷ 2 ∷ []) (replicate 32 0))
mldsa_sign_internal_example =
    mldsa_sign_internal_lem 300 20 mldsa_44 (replicate 2560 0) (1 ∷ 2 ∷ []) (replicate 32 0)

abbrev zero_signature : List ℕ
zero_signature = replicate 2420 0

zero_signature-IsSignatureArray : IsSignatureArray mldsa_44 zero_signature
zero_signature-IsSignatureArray = record {
  few_hints = omega arith;
  size = length-replicate {A = ℕ} 2420 0;
  bytes = All-replicate (λ (b : ℕ). b < 256) 2420 0 (omega arith);
}

mldsa_verify_internal_example :
    ((mldsa_verify_internal 300 mldsa_44 (replicate 1312 0) (1 ∷ []) zero_signature 2420 ≡ some 0)
      × IsMalformed mldsa_44 zero_signature 2420)
    ⊎ Verifies 300 mldsa_44 (replicate 1312 0) (1 ∷ []) zero_signature 2420
mldsa_verify_internal_example =
    mldsa_verify_internal_lem 300 mldsa_44 (replicate 1312 0) (1 ∷ []) zero_signature 2420
      zero_signature-IsSignatureArray
