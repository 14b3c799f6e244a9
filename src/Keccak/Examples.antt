-- ===== src/Keccak/Examples.antt =====
-- The theorems on the hash functions at concrete inputs, and known values of the rotation and the complement.
use karudeb.Base.{ℕ, All, ◌^◌, ◌+◌, ◌<◌, ◌≡◌, refl, arith, List, [], ◌∷◌, ◌++◌}
use karudeb.Keccak.Permute.{rol, not_64, keccak_f1600_state_permute}
use karudeb.Keccak.Permute.Reference.{keccak_f}
use karudeb.Keccak.Permute.Laws.{state_permute-keccak_f}
use karudeb.Keccak.Sponge.{keccak_absorb, keccak_squeeze}
use karudeb.Keccak.Sponge.Absorb.{keccak_absorb-append}
use karudeb.Keccak.Sponge.Squeeze.{keccak_squeeze-append}
use karudeb.Keccak.Shake.{
  shake256, shake256_init, shake256_absorb, shake256_finalize, shake256_squeeze,
}
use karudeb.Keccak.Shake.OneShot.{shake256_lem}

abbrev counting : List ℕ
counting =
    1 ∷ 2 ∷ 3 ∷ 4 ∷ 5 ∷ 6 ∷ 7 ∷ 8 ∷ 9 ∷ 10 ∷ 11 ∷ 12 ∷ 13 ∷ 14 ∷ 15 ∷ 16 ∷ 17 ∷ 18 ∷ 19 ∷ 20 ∷ 21
    ∷ 22 ∷ 23 ∷ 24 ∷ 25 ∷ []

rotation_wraps : rol 0x8000000000000003 4 ≡ 0x38
unfolding rol
rotation_wraps = refl

complement_bits : not_64 0xFFFF0000FFFF0001 ≡ 0xFFFF0000FFFE
unfolding not_64
complement_bits = refl

counting-AreWords : All (λ x. x < 2 ^ 64) counting
counting-AreWords = ground arith

state_permute_example : keccak_f1600_state_permute counting ≡ keccak_f counting
state_permute_example = state_permute-keccak_f counting refl counting-AreWords

keccak_absorb_example :
    let once = keccak_absorb counting 134 136 (1 ∷ 2 ∷ 3 ∷ []) in
    (keccak_absorb once.0 once.1 136 (4 ∷ 5 ∷ [])
      ≡ keccak_absorb counting 134 136 ((1 ∷ 2 ∷ 3 ∷ []) ++ (4 ∷ 5 ∷ [])))
    × (once.1 < 136)
keccak_absorb_example =
    keccak_absorb-append counting 134 136 (1 ∷ 2 ∷ 3 ∷ []) (4 ∷ 5 ∷ []) (omega arith)

keccak_squeeze_example :
    let first = keccak_squeeze 5 counting 136 136 in
    let second = keccak_squeeze 140 first.1 first.2 136 in
    keccak_squeeze (5 + 140) counting 136 136 ≡ (first.0 ++ second.0, second.1, second.2)
keccak_squeeze_example = keccak_squeeze-append 5 140 counting 136 136 (omega arith) (omega arith)

shake256_example :
    shake256 140 counting
    ≡ (shake256_squeeze 140 (shake256_finalize (shake256_absorb shake256_init counting))).0
shake256_example = shake256_lem 140 counting (omega arith)
