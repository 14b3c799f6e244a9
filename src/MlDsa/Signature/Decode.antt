-- ===== src/MlDsa/Signature/Decode.antt =====
-- `decode_polys` finds the hints that an array holds, and only those.
use karudeb.Base.{ℕ, zero, suc, ◌+◌, ◌-◌, ◌<◌, ◌≤◌, ◌≡◌, ◌⊎◌, refl, ap, ◌∙◌, sym, arith}
use karudeb.Base.{List, [], ◌∷◌, length, get_or, replicate, All, ◌==◌, ltb, ◌||◌}
use karudeb.Base.{Bool-cases, inl, inr, true, false, Option, none, some, ◌>>=◌}
use mathlib.Core.Path.{subst}
use karudeb.Base.{All-get_or}
use karudeb.MlDsa.Params.{n}
use karudeb.MlDsa.Signature.{decode_poly, decode_polys, some_extra}
use karudeb.MlDsa.Signature.Positions.{
  ones, read, place, decode_poly-place, IsHint, place-ones, place-Increasing, poly_of,
  poly_of-IsHint, ones-poly_of,
}
use karudeb.MlDsa.Signature.Encode.{total, Holds}

-- Polynomials of 256 coefficients, each 0 or 1.
abbrev pub Hints : List (List ℕ) → Type 0
Hints [] = Unit
Hints (p ∷ h) = (length p ≡ n) × IsHint p × Hints h

place_blank : (p : List ℕ) → length p ≡ n → IsHint p → place 0 (ones 0 p) (replicate n 0) ≡ some p
place_blank p e h =
    subst (λ (t : ℕ). place 0 (ones 0 p) (replicate t 0) ≡ some p) e
      (place-ones 0 0 [] p h refl (omega arith))

decode_one :
    (sig : List ℕ) (k limit : ℕ) (p : List ℕ)
    → length p ≡ n
    → IsHint p
    → read sig k (length (ones 0 p)) ≡ ones 0 p
    → limit ≡ k + length (ones 0 p)
    → decode_poly sig k (limit - k) k (replicate n 0) ≡ some p
decode_one sig k limit p e h r l =
    let count : limit - k ≡ length (ones 0 p) = omega arith in
    decode_poly-place sig k (limit - k) k 0 (replicate n 0) (inl (refl, refl))
    ∙ ap (λ (t : ℕ). place 0 (read sig k t) (replicate n 0)) count
    ∙ ap (λ (t : List ℕ). place 0 t (replicate n 0)) r
    ∙ place_blank p e h

pub decode_polys-Holds :
    (omega_ : ℕ) (sig : List ℕ) (k i : ℕ) (h : List (List ℕ))
    → Hints h
    → k + total h ≤ omega_
    → Holds omega_ sig k i h
    → decode_polys omega_ sig k (length h) i ≡ some (h, k + total h)
unfolding decode_polys Holds total
decode_polys-Holds omega_ sig k i [] e g held = ap (λ (t : ℕ). some ([], t)) (omega arith)
decode_polys-Holds omega_ sig k i (p ∷ h) e g held =
    let bs = ones 0 p in
    let limit = get_or sig (omega_ + i) 0 in
    let at : limit ≡ k + length bs = held.1 in
    let in_order : ltb limit k ≡ false = ground arith in
    let in_range : ltb omega_ limit ≡ false = ground arith in
    let one = decode_one sig k limit p e.0 e.1 held.0 at in
    let rest : decode_polys omega_ sig limit (length h) (i + 1) ≡ some (h, limit + total h) =
      decode_polys-Holds omega_ sig limit (i + 1) h e.2 (omega arith)
        (subst (λ (t : ℕ). Holds omega_ sig t (i + 1) h) (sym at) held.2) in
    rw (in_order, in_range, one, rest) (ap (λ (t : ℕ). some (p ∷ h, t)) (omega arith))

-- What a successful decoding says.
pub record IsDecoded (omega_ : ℕ) (sig : List ℕ) (k left i : ℕ) (h : List (List ℕ)) (last : ℕ)
    : Type 0 where
  pub size : length h ≡ left
  pub hints : Hints h
  pub holds : Holds omega_ sig k i h
  pub sum : last ≡ k + total h
  pub room : k + total h ≤ omega_

abbrev pub DecodedIf : ℕ → List ℕ → ℕ → ℕ → ℕ → Option (List (List ℕ) × ℕ) → Type 0
DecodedIf omega_ sig k left i none = Unit
DecodedIf omega_ sig k left i (some (h, last)) = IsDecoded omega_ sig k left i h last

abbrev OneIf : List ℕ → ℕ → ℕ → Option (List ℕ) → Type 0
OneIf sig k count none = Unit
OneIf sig k count (some p) =
    (length p ≡ n) × IsHint p × (read sig k count ≡ ones 0 p) × (length (ones 0 p) ≡ count)

length-read : (sig : List ℕ) (k count : ℕ) → length (read sig k count) ≡ count
unfolding read
length-read sig k zero = refl
length-read sig k (suc count) = ap suc (length-read sig (k + 1) count)

All-read :
    (P : ℕ → Type 0) (sig : List ℕ) (k count : ℕ) → P 0 → All P sig → All P (read sig k count)
unfolding read
All-read P sig k zero d h = tt
All-read P sig k (suc count) d h = (All-get_or P sig k 0 d h, All-read P sig (k + 1) count d h)

-- The positions that `decode_poly` takes are those of the polynomial that it gives.
decode_one_back :
    (sig : List ℕ) (k count : ℕ)
    → All (λ b. b < n) sig
    → OneIf sig k count (decode_poly sig k count k (replicate n 0))
decode_one_back sig k count h = from _ refl
  where
    bs : List ℕ
    bs = read sig k count

    placed : decode_poly sig k count k (replicate n 0) ≡ place 0 bs (replicate n 0)
    placed = decode_poly-place sig k count k 0 (replicate n 0) (inl (refl, refl))

    from :
        (o : Option (List ℕ)) → decode_poly sig k count k (replicate n 0) ≡ o → OneIf sig k count o
    from none e = tt
    from (some p) e =
        let up =
          place-Increasing 0 bs (replicate n 0) p
            (All-read (λ b. b < n) sig k count (omega arith) h) (sym placed ∙ e) in
        let same : ones 0 (poly_of 0 n bs) ≡ bs = ones-poly_of 0 n bs up (omega arith) in
        let valid = poly_of-IsHint 0 n bs in
        let found : some p ≡ some (poly_of 0 n bs) =
          sym e
          ∙ placed
          ∙ ap (λ (t : List ℕ). place 0 t (replicate n 0)) (sym same)
          ∙ place_blank (poly_of 0 n bs) valid.0 valid.1 in
        let equal : poly_of 0 n bs ≡ p = cc in
        subst (λ (t : List ℕ). OneIf sig k count (some t)) equal
          (valid.0, valid.1, sym same, ap length same ∙ length-read sig k count)

-- Every result of `decode_polys` says so.
pub decode_polys-IsDecoded :
    (omega_ : ℕ) (sig : List ℕ) (k left i : ℕ)
    → All (λ b. b < n) sig
    → k ≤ omega_
    → DecodedIf omega_ sig k left i (decode_polys omega_ sig k left i)
unfolding decode_polys Holds total
decode_polys-IsDecoded omega_ sig k zero i h g = record {
  size = refl;
  hints = tt;
  holds = tt;
  sum = omega arith;
  room = omega arith;
}
decode_polys-IsDecoded omega_ sig k (suc left) i h g =
    elim (Bool-cases (ltb limit k || ltb omega_ limit)) [
      | inl outside ↦ rw outside tt
      | inr inside ↦
          let low : k ≤ limit = ground arith in
          let high : limit ≤ omega_ = ground arith in
          rw inside (
            from (decode_poly sig k (limit - k) k (replicate n 0))
              (decode_polys omega_ sig limit left (i + 1)) low (decode_one_back sig k (limit - k) h)
              (decode_polys-IsDecoded omega_ sig limit left (i + 1) h high))
    ]
  where
    limit : ℕ
    limit = get_or sig (omega_ + i) 0

    from :
        (one : Option (List ℕ)) (more : Option (List (List ℕ) × ℕ))
        → k ≤ limit
        → OneIf sig k (limit - k) one
        → DecodedIf omega_ sig limit left (i + 1) more
        → DecodedIf omega_ sig k
            (suc left)
            i
            (one >>= λ p. more >>= λ rest. some (p ∷ rest.0, rest.1))
    from none more low a b = tt
    from (some p) none low a b = tt
    from (some p) (some (ps, last)) low (e, valid, bytes, count) b =
        let at : limit ≡ k + length (ones 0 p) = omega (arith, count) in
        record {
          size = ap suc b.size;
          hints = (e, valid, b.hints);
          holds = (
            ap (λ (t : ℕ). read sig k t) count ∙ bytes,
            at,
            subst (λ (t : ℕ). Holds omega_ sig t (i + 1) ps) at b.holds,
          );
          sum = omega (arith, b.sum);
          room = omega (arith, b.room);
        }

-- Zeros behind the positions.
abbrev pub Blank : List ℕ → ℕ → ℕ → Type 0
Blank sig k stop = (m : ℕ) → k ≤ m → m < stop → get_or sig m 0 ≡ 0

pub some_extra-Blank :
    (sig : List ℕ) (left k : ℕ) → some_extra sig left k ≡ false → Blank sig k (k + left)
unfolding some_extra
some_extra-Blank sig zero k e = λ m g l. absurd (omega arith)
some_extra-Blank sig (suc left) k e = elim (Bool-cases (get_or sig k 0 == 0)) [
  | inl blank ↦
      let rest : some_extra sig left (k + 1) ≡ false = ground (arith, e, blank) in
      λ m g l. elim (first_or_later k m g) [
        | inl first ↦ ap (λ (t : ℕ). get_or sig t 0) (sym first) ∙ ground (arith, blank)
        | inr later ↦ some_extra-Blank sig left (k + 1) rest m later (omega arith)
      ]
  | inr extra ↦ absurd (ground (arith, e, extra))
]
  where
    first_or_later : (a b : ℕ) → a ≤ b → (a ≡ b) ⊎ (a + 1 ≤ b)
    first_or_later a b h = ground arith

pub Blank-some_extra :
    (sig : List ℕ) (left k : ℕ) → Blank sig k (k + left) → some_extra sig left k ≡ false
unfolding some_extra
Blank-some_extra sig zero k h = refl
Blank-some_extra sig (suc left) k h =
    let first : get_or sig k 0 ≡ 0 = h k (omega arith) (omega arith) in
    let test : (get_or sig k 0 == 0) ≡ true = ground (arith, first) in
    rw test (Blank-some_extra sig left (k + 1) (λ m g l. h m (omega arith) (omega arith)))
