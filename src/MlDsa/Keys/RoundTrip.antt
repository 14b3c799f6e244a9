-- ===== src/MlDsa/Keys/RoundTrip.antt =====
-- The keys are read back from their encodings.
use karudeb.Base.{ℕ, zero, suc, ◌*◌, ◌≡◌, ◌⊎◌, inl, inr, refl, ap, ap₂, ◌∙◌, sym, arith}
use karudeb.Base.{ℤ, List, [], ◌∷◌, ◌++◌, length, take, drop, All, Within}
use karudeb.Base.{length-append, take-append, drop-append}
use mathlib.Core.Path.{subst}
use karudeb.MlDsa.Params.{MldsaParam, n, seed_sz, tr_sz, poly_t1_sz, poly_t0_sz}
use karudeb.MlDsa.Packing.Eta.{polyeta_pack, polyeta_unpack}
use karudeb.MlDsa.Packing.Eta.RoundTrip.{eta_unpack-pack_2}
use karudeb.MlDsa.Packing.Eta.Pairs.{eta_unpack-pack_4}
use karudeb.MlDsa.Packing.High.{polyt1_pack, polyt1_unpack}
use karudeb.MlDsa.Packing.High.RoundTrip.{Fits10, t1_unpack-pack}
use karudeb.MlDsa.Packing.Low.{polyt0_pack, polyt0_unpack}
use karudeb.MlDsa.Packing.Low.Fields.{Fits13}
use karudeb.MlDsa.Packing.Low.RoundTrip.{t0_unpack-pack}
use karudeb.MlDsa.Packing.Sizes.{
  length-polyt1_pack, length-polyt0_pack, length-polyeta_pack_2, length-polyeta_pack_4,
}
use karudeb.MlDsa.Keys.{pack_each, unpack_each, pack_pk, unpack_pk, SecretKey, pack_sk, unpack_sk}

append_assoc : (a b c : List ℕ) → (a ++ b) ++ c ≡ a ++ (b ++ c)
append_assoc [] b c = refl
append_assoc (x ∷ a) b c = ap (λ t. x ∷ t) (append_assoc a b c)

-- A polynomial that comes back from so many bytes.
abbrev pub IsCoded : (List ℤ → List ℕ) → (List ℕ → List ℤ) → ℕ → List ℤ → Type 0
IsCoded pack unpack size p = (length (pack p) ≡ size) × (unpack (pack p) ≡ p)

pub length-pack_each :
    (pack : List ℤ → List ℕ) (unpack : List ℕ → List ℤ) (size : ℕ) (v : List (List ℤ))
    → All (IsCoded pack unpack size) v
    → length (pack_each pack v) ≡ length v * size
unfolding pack_each
length-pack_each pack unpack size [] h = omega arith
length-pack_each pack unpack size (p ∷ v) h = omega (
  arith,
  length-append (pack p) (pack_each pack v),
  h.0.0,
  length-pack_each pack unpack size v h.1,
)

pub unpack-pack_each :
    (pack : List ℤ → List ℕ) (unpack : List ℕ → List ℤ) (size : ℕ) (v : List (List ℤ))
    (rest : List ℕ)
    → All (IsCoded pack unpack size) v
    → unpack_each unpack size (length v) (pack_each pack v ++ rest) ≡ v
unfolding pack_each unpack_each
unpack-pack_each pack unpack size [] rest h = refl
unpack-pack_each pack unpack size (p ∷ v) rest h =
    let joined = append_assoc (pack p) (pack_each pack v) rest in
    let front = take-append size (pack p) (pack_each pack v ++ rest) h.0.0 in
    let back = drop-append size (pack p) (pack_each pack v ++ rest) h.0.0 in
    rw (joined, front, back, h.0.1)
      (ap (λ (t : List (List ℤ)). p ∷ t) (unpack-pack_each pack unpack size v rest h.1))

append-nil : (a : List ℕ) → a ++ [] ≡ a
append-nil [] = refl
append-nil (x ∷ a) = ap (λ t. x ∷ t) (append-nil a)

take_all : (k : ℕ) (a : List ℕ) → length a ≡ k → take k a ≡ a
take_all zero [] e = refl
take_all zero (x ∷ a) e = absurd (omega arith)
take_all (suc k) [] e = absurd (omega arith)
take_all (suc k) (x ∷ a) e = ap (λ t. x ∷ t) (take_all k a (omega arith))

-- A vector of count polynomials, each of 256 coefficients that satisfy the predicate.
abbrev pub IsVector : (ℤ → Type 0) → ℕ → List (List ℤ) → Type 0
IsVector P count v = (length v ≡ count) × All (λ p. (length p ≡ n) × All P p) v

pub all-IsCoded :
    (P : ℤ → Type 0) (pack : List ℤ → List ℕ) (unpack : List ℕ → List ℤ) (size : ℕ)
    → ((p : List ℤ) → length p ≡ n → All P p → IsCoded pack unpack size p)
    → (v : List (List ℤ)) → All (λ p. (length p ≡ n) × All P p) v
    → All (IsCoded pack unpack size) v
all-IsCoded P pack unpack size f [] h = tt
all-IsCoded P pack unpack size f (p ∷ v) h =
    (f p h.0.0 h.0.1, all-IsCoded P pack unpack size f v h.1)

t1-IsCoded :
    (v : List (List ℤ))
    → All (λ p. (length p ≡ n) × All Fits10 p) v
    → All (IsCoded polyt1_pack polyt1_unpack poly_t1_sz) v
t1-IsCoded =
    all-IsCoded Fits10 polyt1_pack polyt1_unpack poly_t1_sz
      (λ p e h. (length-polyt1_pack 64 p (omega arith), t1_unpack-pack 64 p (omega arith) h))

t0-IsCoded :
    (v : List (List ℤ))
    → All (λ p. (length p ≡ n) × All Fits13 p) v
    → All (IsCoded polyt0_pack polyt0_unpack poly_t0_sz) v
t0-IsCoded =
    all-IsCoded Fits13 polyt0_pack polyt0_unpack poly_t0_sz
      (λ p e h. (length-polyt0_pack 32 p (omega arith), t0_unpack-pack 32 p (omega arith) h))

-- A seed of 32 bytes and par->k polynomials of 256 coefficients from 0 to 1023 are read back by
-- `unpack_pk` from what `pack_pk` wrote.
pub unpack-pack_pk :
    (par : MldsaParam) (rho : List ℕ) (t1 : List (List ℤ))
    → length rho ≡ seed_sz
    → IsVector Fits10 par.k t1
    → unpack_pk par (pack_pk rho t1) ≡ (rho, t1)
unfolding pack_pk unpack_pk
unpack-pack_pk par rho t1 e (k, h) =
    let packed = pack_each polyt1_pack t1 in
    let whole : take seed_sz rho ≡ rho = take_all seed_sz rho e in
    let coded : unpack_each polyt1_unpack poly_t1_sz par.k packed ≡ t1 =
      ap₂ (λ (t : ℕ) (u : List ℕ). unpack_each polyt1_unpack poly_t1_sz t u) (sym k)
        (sym (append-nil packed))
      ∙ unpack-pack_each polyt1_pack polyt1_unpack poly_t1_sz t1 [] (t1-IsCoded t1 h) in
    rw (whole, take-append seed_sz rho packed e, drop-append seed_sz rho packed e, coded) refl

-- The size of a packed polynomial is that of its eta.
abbrev pub EtaSizes : MldsaParam → Type 0
EtaSizes par = ((par.eta ≡ 2) × (par.eta_sz ≡ 96)) ⊎ ((par.eta ≡ 4) × (par.eta_sz ≡ 128))

eta_one :
    (par : MldsaParam)
    → EtaSizes par
    → (p : List ℤ) → length p ≡ n
    → All (Within par.eta) p
    → IsCoded (polyeta_pack par) (polyeta_unpack par) par.eta_sz p
unfolding polyeta_pack polyeta_unpack
eta_one par (inl (e, size)) p l h =
    rw (e, size)
      (
        length-polyeta_pack_2 32 p (omega arith),
        eta_unpack-pack_2 32 p (omega arith) (subst (λ (t : ℕ). All (Within t) p) e h),
      )
eta_one par (inr (e, size)) p l h =
    rw (e, size)
      (
        length-polyeta_pack_4 128 p (omega arith),
        eta_unpack-pack_4 128 p (omega arith) (subst (λ (t : ℕ). All (Within t) p) e h),
      )

eta-IsCoded :
    (par : MldsaParam)
    → EtaSizes par
    → (v : List (List ℤ)) → All (λ p. (length p ≡ n) × All (Within par.eta) p) v
    → All (IsCoded (polyeta_pack par) (polyeta_unpack par) par.eta_sz) v
eta-IsCoded par sizes =
    all-IsCoded (Within par.eta) (polyeta_pack par) (polyeta_unpack par) par.eta_sz
      (eta_one par sizes)

-- A secret key for the parameter set.
pub record IsSecretKey (par : MldsaParam) (s : SecretKey) : Type 0 where
  pub sizes : EtaSizes par
  pub rho_size : length s.rho ≡ seed_sz
  pub key_size : length s.key ≡ seed_sz
  pub tr_size : length s.tr ≡ tr_sz
  pub low_parts : IsVector Fits13 par.k s.t0
  pub secret : IsVector (Within par.eta) par.ell s.s1
  pub noise : IsVector (Within par.eta) par.k s.s2

-- A vector at the head of an array: it is read back, and what follows is found behind it.
pub vector_first :
    (pack : List ℤ → List ℕ) (unpack : List ℕ → List ℤ) (size count : ℕ) (v : List (List ℤ))
    (rest : List ℕ)
    → length v ≡ count
    → All (IsCoded pack unpack size) v
    → (unpack_each unpack size count (pack_each pack v ++ rest) ≡ v)
      × (drop (count * size) (pack_each pack v ++ rest) ≡ rest)
vector_first pack unpack size count v rest e h = (
  subst (λ (t : ℕ). unpack_each unpack size t (pack_each pack v ++ rest) ≡ v) e
      (unpack-pack_each pack unpack size v rest h),
  drop-append (count * size) (pack_each pack v) rest
      (length-pack_each pack unpack size v h ∙ ap (λ (t : ℕ). t * size) e),
)

-- A seed at the head of an array.
pub seed_first :
    (size : ℕ) (a rest : List ℕ)
    → length a ≡ size
    → (take size (take size a ++ rest) ≡ a) × (drop size (take size a ++ rest) ≡ rest)
seed_first size a rest e =
    let whole = take_all size a e in rw whole (take-append size a rest e, drop-append size a rest e)

-- The parts of a secret key for the parameter set are read back by `unpack_sk` from what `pack_sk` wrote.
pub unpack-pack_sk :
    (par : MldsaParam) (s : SecretKey) → IsSecretKey par s → unpack_sk par (pack_sk par s) ≡ s
unfolding pack_sk unpack_sk
unpack-pack_sk par s h =
    let eta = polyeta_pack par in
    let low = pack_each polyt0_pack s.t0 in
    let r4 = pack_each eta s.s2 ++ low in
    let r3 = pack_each eta s.s1 ++ r4 in
    let r2 = take tr_sz s.tr ++ r3 in
    let r1 = take seed_sz s.key ++ r2 in
    let (rho, d0) = seed_first seed_sz s.rho r1 h.rho_size in
    let (key, d1) = seed_first seed_sz s.key r2 h.key_size in
    let (tr, d2) = seed_first tr_sz s.tr r3 h.tr_size in
    let (s1, d3) =
      vector_first eta (polyeta_unpack par) par.eta_sz par.ell s.s1 r4 h.secret.0
        (eta-IsCoded par h.sizes s.s1 h.secret.1) in
    let (s2, d4) =
      vector_first eta (polyeta_unpack par) par.eta_sz par.k s.s2 low h.noise.0
        (eta-IsCoded par h.sizes s.s2 h.noise.1) in
    let t0 : unpack_each polyt0_unpack poly_t0_sz par.k low ≡ s.t0 =
      ap (λ (t : List ℕ). unpack_each polyt0_unpack poly_t0_sz par.k t) (sym (append-nil low))
      ∙ (vector_first polyt0_pack polyt0_unpack poly_t0_sz par.k s.t0 [] h.low_parts.0
          (t0-IsCoded s.t0 h.low_parts.1)).0 in
    rw (rho, d0, key, d1, tr, d2, s1, d3, s2, d4, t0) refl
