-- ===== src/MlKem/Examples/Scheme.antt =====
-- mlkem.c, over hash functions that give zeros.
use karudeb.Base.{ℕ, zero, suc, ◌*◌, ◌≡◌, refl, arith}
use karudeb.Base.{List, [], drop, replicate, length-replicate, All}
use karudeb.Base.{Option, none, some}
use karudeb.MlKem.Params.{mlkem_512, sym_sz, poly_sz}
use karudeb.MlKem.Reduce.{montgomery_reduce, barrett_reduce, fqmul, basemul}
use karudeb.MlKem.Poly.{
  standard, poly_tobytes, poly_frombytes, frommsg_byte, poly_frommsg, tomsg_bit, poly_tomsg, lift,
  compress_4, compress_5, poly_compress_4, poly_compress_5, poly_compress, poly_decompress_4,
  decompress_5, poly_decompress_5, poly_decompress,
}
use karudeb.MlKem.Ntt.{
  ntt_low, ntt_high, ntt_layer, ntt_loop, mlkem_ntt, invntt_low, invntt_high, invntt_layer,
  invntt_loop, mlkem_invntt, mlkem_poly_reduce, mlkem_poly_ntt, mlkem_poly_invntt_tomont,
  basemul_loop, poly_basemul_montgomery, poly_tomont, mlkem_poly_add, mlkem_poly_sub,
}
use karudeb.MlKem.Polyvec.{
  compress_11, compress_10, compress_poly_11, compress_poly_10, polyvec_compress, decompress_11,
  decompress_10, decompress_poly_11, decompress_poly_10, from_slices, polyvec_decompress,
  polyvec_tobytes, polyvec_frombytes, polyvec_ntt, polyvec_invntt_tomont, basemul_acc,
  polyvec_basemul_acc_montgomery, polyvec_reduce, polyvec_add,
}
use karudeb.MlKem.Cbd.{
  load32_littleendian, load24_littleendian, cbd2_word, cbd2, cbd3_word, cbd3, poly_cbd_eta1,
  poly_cbd_eta2,
}
use karudeb.MlKem.Sample.{
  mlkem_rej_uniform, refill, gen_entry, gen_row, gen_rows, gen_matrix, poly_getnoise_eta1,
  poly_getnoise_eta2, noise_eta1, noise_eta2,
}
use karudeb.MlKem.Kpke.{
  pack_ek, unpack_ek, pack_dk, unpack_dk, pack_ciphertext, unpack_ciphertext, kpke_keygen,
  kpke_encrypt, kpke_decrypt,
}
use karudeb.MlKem.Kem.{mlkem_keygen_internal, mlkem_encaps_internal, mlkem_decaps_internal}
use karudeb.MlKem.Symmetric.{
  Fips202, HasOutputs, kyber_shake128_absorb, kyber_shake256_prf, kyber_shake256_rkprf,
}
use karudeb.MlKem.Verify.{verify_loop, verify, cmov_loop, cmov, cmov_int16}
use karudeb.Base.{and_mask, div, holds_below, i16, i32, residue, ◌*ℤ◌, ◌+ℤ◌, ◌-ℤ◌}
use karudeb.MlKem.Verify.Compare.{IsByte}
use karudeb.MlKem.Kem.Agreement.{stored, decaps-encaps}
use karudeb.MlKem.Kem.Decaps.{hashed}

abbrev zeros : Fips202
zeros = record {
  State = Unit {0};
  sha3_256 = λ m. replicate 32 0;
  sha3_512 = λ m. replicate 64 0;
  shake256 = λ k m. replicate k 0;
  shake128_absorb_once = λ m. tt;
  shake128_squeezeblocks = λ k s. (replicate (168 * k) 0, tt);
  shake256_init = tt;
  shake256_absorb = λ s m. tt;
  shake256_finalize = λ s. tt;
  shake256_squeeze = λ k s. (replicate k 0, tt);
}

zero_bytes : (k : ℕ) → All IsByte (replicate k 0)
zero_bytes zero = tt
zero_bytes (suc k) = (omega arith, zero_bytes k)

zeros-HasOutputs : HasOutputs zeros
zeros-HasOutputs = record {
  length-sha3_256 = λ m. length-replicate {A = ℕ} 32 0;
  length-sha3_512 = λ m. length-replicate {A = ℕ} 64 0;
  length-shake256 = λ k m. length-replicate {A = ℕ} k 0;
  length-squeezeblocks = λ k s. length-replicate {A = ℕ} (168 * k) 0;
  length-squeeze = λ k s. length-replicate {A = ℕ} k 0;
  bytes-sha3_512 = λ m. zero_bytes 64;
  bytes-squeeze = λ k s. zero_bytes k;
}

abbrev from_some {ℓ} : {A : Type ℓ} → A → Option A → A
from_some d none = d
from_some d (some x) = x

abbrev secret_key : List ℕ
secret_key = replicate 1632 0

abbrev ciphertext : List ℕ
ciphertext = replicate 768 0

abbrev encrypted_again : Option (List ℕ)
encrypted_again =
    kpke_encrypt zeros 0 mlkem_512 (drop (mlkem_512.k * poly_sz) secret_key)
      (hashed zeros zeros-HasOutputs mlkem_512 secret_key ciphertext)
      (drop sym_sz (zeros.sha3_512 (hashed zeros zeros-HasOutputs mlkem_512 secret_key ciphertext)))

abbrev output : List ℕ
output = from_some [] encrypted_again

output_given : encrypted_again ≡ some output
unfolding kpke_encrypt gen_matrix mlkem_rej_uniform
output_given = refl

abbrev message : List ℕ
message = replicate 32 5

abbrev sent : Option (List ℕ × List ℕ)
sent = mlkem_encaps_internal zeros 0 mlkem_512 (replicate 800 0) message

abbrev sent_pair : List ℕ × List ℕ
sent_pair = from_some ([], []) sent

sent_given : sent ≡ some sent_pair
unfolding mlkem_encaps_internal kpke_encrypt gen_matrix mlkem_rej_uniform
sent_given = refl

abbrev zero_key : List ℕ
zero_key = stored zeros zeros-HasOutputs (replicate 768 0) (replicate 800 0) (replicate 32 0)

received : kpke_decrypt zeros mlkem_512 zero_key sent_pair.1 ≡ message
unfolding montgomery_reduce barrett_reduce fqmul basemul standard poly_tobytes poly_frombytes
    frommsg_byte poly_frommsg tomsg_bit poly_tomsg lift compress_4 compress_5 poly_compress_4
    poly_compress_5 poly_compress poly_decompress_4 decompress_5 poly_decompress_5 poly_decompress
    ntt_low ntt_high ntt_layer ntt_loop mlkem_ntt invntt_low invntt_high invntt_layer invntt_loop
    mlkem_invntt mlkem_poly_reduce mlkem_poly_ntt mlkem_poly_invntt_tomont basemul_loop
    poly_basemul_montgomery poly_tomont mlkem_poly_add mlkem_poly_sub compress_11 compress_10
    compress_poly_11 compress_poly_10 polyvec_compress decompress_11 decompress_10
    decompress_poly_11 decompress_poly_10 from_slices polyvec_decompress polyvec_tobytes
    polyvec_frombytes polyvec_ntt polyvec_invntt_tomont basemul_acc polyvec_basemul_acc_montgomery
    polyvec_reduce polyvec_add load32_littleendian load24_littleendian cbd2_word cbd2 cbd3_word cbd3
    poly_cbd_eta1 poly_cbd_eta2 mlkem_rej_uniform refill gen_entry gen_row gen_rows gen_matrix
    poly_getnoise_eta1 poly_getnoise_eta2 noise_eta1 noise_eta2 pack_ek unpack_ek pack_dk unpack_dk
    pack_ciphertext unpack_ciphertext kpke_keygen kpke_encrypt kpke_decrypt mlkem_keygen_internal
    mlkem_encaps_internal mlkem_decaps_internal kyber_shake128_absorb kyber_shake256_prf
    kyber_shake256_rkprf verify_loop verify cmov_loop cmov cmov_int16 and_mask div holds_below i16
    i32 residue ◌*ℤ◌ ◌+ℤ◌ ◌-ℤ◌
received = refl

decaps-encaps_example :
    mlkem_decaps_internal zeros 0 mlkem_512 zero_key sent_pair.1 ≡ some sent_pair.0
decaps-encaps_example =
    decaps-encaps zeros zeros-HasOutputs 0 mlkem_512 (replicate 768 0) (replicate 800 0)
      (replicate 32 0) message sent_pair.0 sent_pair.1 refl refl refl refl sent_given received
