-- ===== src/MlDsa/Signature/Canonical.antt =====
-- The two directions between hints and their encoding.
use karudeb.Base.{ℕ, zero, suc, ◌+◌, ◌-◌, ◌<◌, ◌≤◌, ◌≡◌, ◌⊎◌, inl, inr, refl, ap₂, ◌∙◌, sym, arith}
use karudeb.Base.{List, [], ◌∷◌, length, get_or, replicate, length-replicate, All, if◌then◌else◌}
use karudeb.Base.{Bool-cases, false, Option, none, some, ◌>>=◌}
use mathlib.Core.Path.{subst}
use karudeb.MlDsa.Params.{MldsaParam}
use karudeb.MlDsa.Signature.{encode_hints, decode_polys, decode_hints, some_extra}
use karudeb.MlDsa.Signature.Positions.{ones, read}
use karudeb.MlDsa.Signature.Encode.{total, Holds, IsEncoded, Sized, encode_polys-IsEncoded}
use karudeb.MlDsa.Signature.Decode.{
  Hints, decode_polys-Holds, DecodedIf, decode_polys-IsDecoded, Blank, some_extra-Blank,
  Blank-some_extra,
}

Hints-Sized : (h : List (List ℕ)) → Hints h → Sized h
Hints-Sized [] e = tt
Hints-Sized (p ∷ h) e = (e.0, Hints-Sized h e.2)

zero_at : (k m : ℕ) → get_or {A = ℕ} (replicate k 0) m 0 ≡ 0
zero_at zero m = refl
zero_at (suc k) zero = refl
zero_at (suc k) (suc m) = zero_at k m

-- Hints for the parameter set: par->k polynomials of coefficients 0 and 1, at most par->omega of them 1.
abbrev pub IsHints : MldsaParam → List (List ℕ) → Type 0
IsHints par h = (length h ≡ par.k) × Hints h × (total h ≤ par.omega_)

encode_hints-IsEncoded :
    (par : MldsaParam) (h : List (List ℕ))
    → par.omega_ < 256
    → IsHints par h
    → IsEncoded par.omega_ (replicate (par.omega_ + par.k) 0) 0 0 h (encode_hints par h)
unfolding encode_hints
encode_hints-IsEncoded par h small (e, valid, few) =
    encode_polys-IsEncoded par.omega_ (replicate (par.omega_ + par.k) 0) 0 0 h small
      (Hints-Sized h valid) (omega arith)
      (omega (arith, e, length-replicate {A = ℕ} (par.omega_ + par.k) 0))

encode_hints-Blank :
    (par : MldsaParam) (h : List (List ℕ))
    → par.omega_ < 256
    → IsHints par h
    → Blank (encode_hints par h) (total h) par.omega_
encode_hints-Blank par h small valid = λ m g l.
    (encode_hints-IsEncoded par h small valid).between m (omega arith) (omega arith)
    ∙ zero_at (par.omega_ + par.k) m

-- For par->omega below 256 and hints for the parameter set, decoding what `pack_sig` writes for the hints
-- gives the hints.
pub decode-encode_hints :
    (par : MldsaParam) (h : List (List ℕ))
    → par.omega_ < 256
    → IsHints par h
    → decode_hints par (encode_hints par h) ≡ some h
unfolding decode_hints
decode-encode_hints par h small (e, valid, few) =
    let sig = encode_hints par h in
    let held = (encode_hints-IsEncoded par h small (e, valid, few)).holds in
    let decoded : decode_polys par.omega_ sig 0 par.k 0 ≡ some (h, 0 + total h) =
      subst (λ (t : ℕ). decode_polys par.omega_ sig 0 t 0 ≡ some (h, 0 + total h)) e
        (decode_polys-Holds par.omega_ sig 0 0 h valid (omega arith) held) in
    let none_left : some_extra sig (par.omega_ - (0 + total h)) (0 + total h) ≡ false =
      Blank-some_extra sig (par.omega_ - (0 + total h)) (0 + total h)
        (λ m g l. encode_hints-Blank par h small (e, valid, few) m (omega arith) (omega arith)) in
    rw (decoded, none_left) refl

-- Two arrays that hold the same hints have the same bytes there.
read_at :
    (a b : List ℕ) (k count m : ℕ)
    → read a k count ≡ read b k count
    → k ≤ m
    → m < k + count
    → get_or a m 0 ≡ get_or b m 0
unfolding read
read_at a b k zero m e g l = absurd (omega arith)
read_at a b k (suc count) m e g l = elim (first_or_later k m g) [
  | inl first ↦
      let head : get_or a k 0 ≡ get_or b k 0 = cc in
      subst (λ (t : ℕ). get_or a t 0 ≡ get_or b t 0) first head
  | inr later ↦
      let tail : read a (k + 1) count ≡ read b (k + 1) count = cc in
      read_at a b (k + 1) count m tail later (omega arith)
]
  where
    first_or_later : (x y : ℕ) → x ≤ y → (x ≡ y) ⊎ (x + 1 ≤ y)
    first_or_later x y h = ground arith

same_positions :
    (omega_ : ℕ) (a b : List ℕ) (k i : ℕ) (h : List (List ℕ)) (m : ℕ)
    → Holds omega_ a k i h
    → Holds omega_ b k i h
    → k ≤ m
    → m < k + total h
    → get_or a m 0 ≡ get_or b m 0
unfolding Holds total
same_positions omega_ a b k i [] m x y g l = absurd (omega arith)
same_positions omega_ a b k i (p ∷ h) m x y g l = elim (here_or_later (k + length (ones 0 p)) m) [
  | inl here ↦ read_at a b k (length (ones 0 p)) m (x.0 ∙ sym y.0) g here
  | inr later ↦
      same_positions omega_ a b (k + length (ones 0 p)) (i + 1) h m x.2 y.2 later (omega arith)
]
  where
    here_or_later : (u v : ℕ) → (v < u) ⊎ (u ≤ v)
    here_or_later u v = ground arith

same_counts :
    (omega_ : ℕ) (a b : List ℕ) (k i : ℕ) (h : List (List ℕ)) (m : ℕ)
    → Holds omega_ a k i h
    → Holds omega_ b k i h
    → omega_ + i ≤ m
    → m < omega_ + i + length h
    → get_or a m 0 ≡ get_or b m 0
unfolding Holds
same_counts omega_ a b k i [] m x y g l = absurd (omega arith)
same_counts omega_ a b k i (p ∷ h) m x y g l = elim (first_or_later (omega_ + i) m g) [
  | inl first ↦ subst (λ (t : ℕ). get_or a t 0 ≡ get_or b t 0) first (x.1 ∙ sym y.1)
  | inr later ↦
      same_counts omega_ a b (k + length (ones 0 p)) (i + 1) h m x.2 y.2 (omega arith) (omega arith)
]
  where
    first_or_later : (u v : ℕ) → u ≤ v → (u ≡ v) ⊎ (u + 1 ≤ v)
    first_or_later u v h = ground arith

same_list :
    (a b : List ℕ)
    → length a ≡ length b
    → ((m : ℕ) → m < length a → get_or a m 0 ≡ get_or b m 0)
    → a ≡ b
same_list [] [] e h = refl
same_list [] (y ∷ b) e h = absurd (omega arith)
same_list (x ∷ a) [] e h = absurd (omega arith)
same_list (x ∷ a) (y ∷ b) e h =
    ap₂ (λ (u : ℕ) (v : List ℕ). u ∷ v) (h 0 (omega arith))
      (same_list a b (omega arith) (λ m g. h (suc m) (omega arith)))

-- An array that holds the hints, with zeros behind them, is their encoding.
same_encoding :
    (par : MldsaParam) (sig : List ℕ) (h : List (List ℕ))
    → par.omega_ < 256
    → length sig ≡ par.omega_ + par.k
    → IsHints par h
    → Holds par.omega_ sig 0 0 h
    → Blank sig (total h) par.omega_
    → encode_hints par h ≡ sig
same_encoding par sig h small size (e, valid, few) held blank =
    let encoded = encode_hints-IsEncoded par h small (e, valid, few) in
    let out = encode_hints par h in
    let size' : length out ≡ par.omega_ + par.k =
      encoded.size ∙ length-replicate {A = ℕ} (par.omega_ + par.k) 0 in
    let point : (m : ℕ) → m < length out → get_or out m 0 ≡ get_or sig m 0 = λ m g.
      elim (three_parts m) [
        | inl position ↦
            same_positions par.omega_ out sig 0 0 h m encoded.holds held (omega arith) (omega arith)
        | inr (inl between) ↦
            encode_hints-Blank par h small (e, valid, few) m between.0 between.1
            ∙ sym (blank m between.0 between.1)
        | inr (inr counter) ↦
            same_counts par.omega_ out sig 0 0 h m encoded.holds held (omega arith)
              (omega (arith, size', e))
      ] in
    same_list out sig (size' ∙ sym size) point
  where
    three_parts : (m : ℕ) → (m < total h) ⊎ (((total h ≤ m) × (m < par.omega_)) ⊎ (par.omega_ ≤ m))
    three_parts m = ground arith

canonical_from :
    (par : MldsaParam) (sig : List ℕ) (h : List (List ℕ)) (o : Option (List (List ℕ) × ℕ))
    → par.omega_ < 256
    → length sig ≡ par.omega_ + par.k
    → DecodedIf par.omega_ sig 0 par.k 0 o
    → (o >>= λ decoded.
        if some_extra sig (par.omega_ - decoded.1) decoded.1 then none else some decoded.0)
      ≡ some h
    → IsHints par h × (encode_hints par h ≡ sig)
canonical_from par sig h none small size decoded e = absurd (ground (arith, e))
canonical_from par sig h (some (found, last)) small size decoded e =
    elim (Bool-cases (some_extra sig (par.omega_ - last) last)) [
      | inl extra ↦ absurd (ground (arith, e, extra))
      | inr clean ↦
          let same : found ≡ h = ground (arith, e, clean) in
          let valid : IsHints par found =
            (decoded.size, decoded.hints, omega (arith, decoded.room)) in
          let zeros = some_extra-Blank sig (par.omega_ - last) last clean in
          let blank : Blank sig (total found) par.omega_ = λ m g l.
            zeros m (omega (arith, decoded.sum)) (omega (arith, decoded.sum, decoded.room)) in
          subst (λ (t : List (List ℕ)). IsHints par t × (encode_hints par t ≡ sig)) same
            (valid, same_encoding par sig found small size valid decoded.holds blank)
    ]

-- For par->omega below 256 and the par->omega + par->k bytes at a signature's end, if decoding them gives
-- hints, the hints are for the parameter set and `pack_sig` writes these very bytes for them.
pub decode_hints-canonical :
    (par : MldsaParam) (sig : List ℕ) (h : List (List ℕ))
    → par.omega_ < 256
    → length sig ≡ par.omega_ + par.k
    → All (λ b. b < 256) sig
    → decode_hints par sig ≡ some h
    → IsHints par h × (encode_hints par h ≡ sig)
unfolding decode_hints
decode_hints-canonical par sig h small size bytes decoded =
    canonical_from par sig h (decode_polys par.omega_ sig 0 par.k 0) small size
      (decode_polys-IsDecoded par.omega_ sig 0 par.k 0 bytes (omega arith)) decoded
