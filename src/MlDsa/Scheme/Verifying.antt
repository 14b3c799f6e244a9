-- ===== src/MlDsa/Scheme/Verifying.antt =====
-- What `mldsa_verify_internal` checks of a signature's encoding.
use karudeb.Base.{ℕ, ◌+◌, ◌*◌, ◌<◌, ◌≡◌, ◌≢◌, ◌⊎◌, inl, inr, refl, ap, ◌∙◌, arith}
use karudeb.Base.{ℤ, pos, ◌-ℤ◌, List, length, length-drop, take, drop, All, All-drop}
use karudeb.Base.{Option, none, some, Bool-cases, ◌==◌, true}
use karudeb.MlDsa.Params.{MldsaParam}
use karudeb.MlDsa.Packing.Mask.{polyz_unpack}
use karudeb.MlDsa.Vectors.{polyvecl_chknorm}
use karudeb.MlDsa.Keys.{unpack_each}
use karudeb.MlDsa.Signature.{encode_hints, decode_hints, unpack_sig}
use karudeb.MlDsa.Signature.Canonical.{IsHints, decode_hints-canonical, decode-encode_hints}
use karudeb.MlDsa.Scheme.{recompute, verify_parts, mldsa_verify_internal}

-- The parts of a signature: the challenge's seed, z, and the bytes of the hints.
abbrev pub seed_part : MldsaParam → List ℕ → List ℕ
seed_part par sig = take par.cp_sz sig

abbrev pub z_part : MldsaParam → List ℕ → List (List ℤ)
z_part par sig = unpack_each (polyz_unpack par) par.pzp_sz par.ell (drop par.cp_sz sig)

abbrev pub hint_part : MldsaParam → List ℕ → List ℕ
hint_part par sig = drop (par.ell * par.pzp_sz) (drop par.cp_sz sig)

abbrev pub z_norm : MldsaParam → List ℕ → ℕ
z_norm par sig = polyvecl_chknorm (z_part par sig) (pos par.gamma1 -ℤ pos par.beta)

-- Bytes of the length of a signature for the parameter set.
pub record IsSignatureArray (par : MldsaParam) (sig : List ℕ) : Type 0 where
  pub few_hints : par.omega_ < 256
  pub size : length sig ≡ par.cp_sz + par.ell * par.pzp_sz + (par.omega_ + par.k)
  pub bytes : All (λ b. b < 256) sig

-- The reasons to reject.
abbrev pub IsMalformed : MldsaParam → List ℕ → ℕ → Type 0
IsMalformed par sig sig_sz =
    (sig_sz ≢ par.sig_sz)
    ⊎ (((h : List (List ℕ)) → IsHints par h → encode_hints par h ≢ hint_part par sig)
        ⊎ (z_norm par sig ≢ 0))

-- The encoding is right, and the answer is that of the computation behind the checks.
abbrev pub Verifies : ℕ → MldsaParam → List ℕ → List ℕ → List ℕ → ℕ → Type 0
Verifies fuel par pk m sig sig_sz =
    (h : List (List ℕ)) × (sig_sz ≡ par.sig_sz)
    × IsHints par h
    × (encode_hints par h ≡ hint_part par sig)
    × (z_norm par sig ≡ 0)
    × (mldsa_verify_internal fuel par pk m sig sig_sz
        ≡ recompute fuel par pk m (seed_part par sig) (z_part par sig) h)

hint_size :
    (par : MldsaParam) (sig : List ℕ)
    → IsSignatureArray par sig
    → length (hint_part par sig) ≡ par.omega_ + par.k
hint_size par sig h = omega (
  arith,
  h.size,
  length-drop (par.ell * par.pzp_sz) (drop par.cp_sz sig),
  length-drop par.cp_sz sig,
)

hint_bytes :
    (par : MldsaParam) (sig : List ℕ)
    → IsSignatureArray par sig
    → All (λ b. b < 256) (hint_part par sig)
hint_bytes par sig h =
    All-drop (λ b. b < 256) (par.ell * par.pzp_sz) (drop par.cp_sz sig)
      (All-drop (λ b. b < 256) par.cp_sz sig h.bytes)

-- For par->omega below 256 and an array of bytes of the length that par->cp_sz, par->ell, par->pzp_sz,
-- par->omega and par->k give a signature, it is rejected with 0, and the given size is not par->sig_sz, or
-- the last bytes are not what `pack_sig` writes for any hints for the parameter set, or the norm check
-- fails for z; or its last bytes are what `pack_sig` writes for some hints, the size is right and the norm
-- check passes, and the answer is that of the computation on the challenge's seed, z and these hints.
pub mldsa_verify_internal_lem :
    (fuel : ℕ) (par : MldsaParam) (pk m sig : List ℕ) (sig_sz : ℕ)
    → IsSignatureArray par sig
    → ((mldsa_verify_internal fuel par pk m sig sig_sz ≡ some 0) × IsMalformed par sig sig_sz)
      ⊎ Verifies fuel par pk m sig sig_sz
unfolding mldsa_verify_internal verify_parts
mldsa_verify_internal_lem fuel par pk m sig sig_sz h = elim (Bool-cases (sig_sz == par.sig_sz)) [
  | inl same ↦
      let size : sig_sz ≡ par.sig_sz = ground arith in
      from_hints same size (decode_hints par (hint_part par sig)) refl
  | inr other ↦ inl (rw other refl, inl (ground arith))
]
  where
    from_norm :
        (sig_sz == par.sig_sz) ≡ true
        → sig_sz ≡ par.sig_sz
        → (hs : List (List ℕ)) → IsHints par hs
        → encode_hints par hs ≡ hint_part par sig
        → unpack_sig par sig ≡ some (seed_part par sig, z_part par sig, hs)
        → ((mldsa_verify_internal fuel par pk m sig sig_sz ≡ some 0) × IsMalformed par sig sig_sz)
          ⊎ Verifies fuel par pk m sig sig_sz
    from_norm same size hs valid bytes parts = elim (Bool-cases (z_norm par sig == 0)) [
      | inl short ↦
          let norm : z_norm par sig ≡ 0 = ground arith in
          inr (hs, size, valid, bytes, norm, rw (same, parts, short) refl)
      | inr long ↦ inl (rw (same, parts, long) refl, inr (inr (ground arith)))
    ]

    from_hints :
        (sig_sz == par.sig_sz) ≡ true
        → sig_sz ≡ par.sig_sz
        → (o : Option (List (List ℕ))) → decode_hints par (hint_part par sig) ≡ o
        → ((mldsa_verify_internal fuel par pk m sig sig_sz ≡ some 0) × IsMalformed par sig sig_sz)
          ⊎ Verifies fuel par pk m sig sig_sz
    from_hints same size none e =
        let parts : unpack_sig par sig ≡ none = unfold unpack_sig in rw e refl in
        inl (
          rw (same, parts) refl,
          inr (
              inl (λ hs valid bytes.
                let found = decode-encode_hints par hs h.few_hints valid in
                let back : decode_hints par (encode_hints par hs) ≡ none =
                  ap (λ (t : List ℕ). decode_hints par t) bytes ∙ e in
                absurd (ground (arith, found, back)))),
        )
    from_hints same size (some hs) e =
        let parts : unpack_sig par sig ≡ some (seed_part par sig, z_part par sig, hs) =
          unfold unpack_sig in rw e refl in
        let canonical =
          decode_hints-canonical par (hint_part par sig) hs h.few_hints (hint_size par sig h)
            (hint_bytes par sig h) e in
        from_norm same size hs canonical.0 canonical.1 parts
