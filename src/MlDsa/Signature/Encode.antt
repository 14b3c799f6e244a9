-- ===== src/MlDsa/Signature/Encode.antt =====
-- `encode_polys` writes, for each polynomial, its positions behind those of the polynomials before it,
-- and the number of positions so far.
use karudeb.Base.{ℕ, zero, suc, ◌+◌, ◌%◌, ◌<◌, ◌≤◌, ◌≡◌, refl, ap₂, ◌∙◌, sym, arith}
use karudeb.Base.{List, [], ◌∷◌, length, get_or, ◌==◌, u8}
use karudeb.Base.{◌^◌, false}
use mathlib.Core.Path.{subst}
use karudeb.MlDsa.Params.{n}
use karudeb.MlDsa.Challenge.{store}
use karudeb.MlDsa.Challenge.Stores.{length-store, store_same, store_other}
use karudeb.MlDsa.Signature.{encode_poly, encode_polys}
use karudeb.MlDsa.Signature.Positions.{ones, read}

-- The bytes of a list, written one after the other from k on.
write_all : List ℕ → ℕ → List ℕ → List ℕ × ℕ
write_all sig k [] = (sig, k)
write_all sig k (b ∷ bs) = write_all (store sig k b) (k + 1) bs

encode_poly-write_all :
    (sig : List ℕ) (k j : ℕ) (cs : List ℕ)
    → j + length cs ≤ n
    → encode_poly sig k j cs ≡ write_all sig k (ones j cs)
unfolding encode_poly write_all ones
encode_poly-write_all sig k j [] h = refl
encode_poly-write_all sig k j (zero ∷ cs) h = encode_poly-write_all sig k (j + 1) cs (omega arith)
encode_poly-write_all sig k j (suc c ∷ cs) h =
    let fits : j % 2 ^ 8 ≡ j = omega arith in
    let set : (suc c == 0) ≡ false = ground arith in
    rw (set, fits) (encode_poly-write_all (store sig k j) (k + 1) (j + 1) cs (omega arith))

-- Two arrays agree outside a range, and the range holds the bytes.
pub record IsWritten (sig : List ℕ) (k : ℕ) (bs : List ℕ) (r : List ℕ × ℕ) : Type 0 where
  pub count : r.1 ≡ k + length bs
  pub size : length r.0 ≡ length sig
  pub before : (m : ℕ) → m < k → get_or r.0 m 0 ≡ get_or sig m 0
  pub behind : (m : ℕ) → k + length bs ≤ m → get_or r.0 m 0 ≡ get_or sig m 0
  pub bytes : read r.0 k (length bs) ≡ bs

write_all-IsWritten :
    (sig : List ℕ) (k : ℕ) (bs : List ℕ)
    → k + length bs ≤ length sig
    → IsWritten sig k bs (write_all sig k bs)
unfolding write_all read
write_all-IsWritten sig k [] h = record {
  count = omega arith;
  size = refl;
  before = λ m g. refl;
  behind = λ m g. refl;
  bytes = refl;
}
write_all-IsWritten sig k (b ∷ bs) h =
    let rest =
      write_all-IsWritten (store sig k b) (k + 1) bs (omega (arith, length-store sig k b)) in
    record {
      count = omega (arith, rest.count);
      size = rest.size ∙ length-store sig k b;
      before =
          λ m g. rest.before m (omega arith) ∙ store_other sig k m b 0 (λ e. absurd (omega arith));
      behind =
          λ m g. rest.behind m (omega arith) ∙ store_other sig k m b 0 (λ e. absurd (omega arith));
      bytes =
          ap₂ (λ (x : ℕ) (y : List ℕ). x ∷ y)
            (rest.before k (omega arith) ∙ store_same sig k b 0 (omega arith)) rest.bytes;
    }

-- The number of positions of all polynomials.
unfoldable pub total : List (List ℕ) → ℕ
total [] = 0
total (p ∷ h) = length (ones 0 p) + total h

-- An array holds the hints: the positions of each polynomial stand behind those before it, from k on,
-- and behind them all the numbers of positions so far, from the i-th on.
unfoldable pub Holds : ℕ → List ℕ → ℕ → ℕ → List (List ℕ) → Type 0
Holds omega_ sig k i [] = Unit
Holds omega_ sig k i (p ∷ h) =
    (read sig k (length (ones 0 p)) ≡ ones 0 p)
    × (get_or sig (omega_ + i) 0 ≡ k + length (ones 0 p))
    × Holds omega_ sig (k + length (ones 0 p)) (i + 1) h

pub read-eq :
    (a b : List ℕ) (k count : ℕ)
    → ((m : ℕ) → k ≤ m → m < k + count → get_or a m 0 ≡ get_or b m 0)
    → read a k count ≡ read b k count
unfolding read
read-eq a b k zero h = refl
read-eq a b k (suc count) h =
    ap₂ (λ (x : ℕ) (y : List ℕ). x ∷ y) (h k (omega arith) (omega arith))
      (read-eq a b (k + 1) count (λ m g l. h m (omega arith) (omega arith)))

-- What is left alone, and what is written.
pub record IsEncoded (omega_ : ℕ) (sig : List ℕ) (k i : ℕ) (h : List (List ℕ)) (r : List ℕ)
    : Type 0 where
  pub size : length r ≡ length sig
  pub before : (m : ℕ) → m < k → get_or r m 0 ≡ get_or sig m 0
  pub between : (m : ℕ) → k + total h ≤ m → m < omega_ + i → get_or r m 0 ≡ get_or sig m 0
  pub holds : Holds omega_ r k i h

abbrev pub Sized : List (List ℕ) → Type 0
Sized [] = Unit
Sized (p ∷ h) = (length p ≡ n) × Sized h

pub encode_polys-IsEncoded :
    (omega_ : ℕ) (sig : List ℕ) (k i : ℕ) (h : List (List ℕ))
    → omega_ < 256
    → Sized h
    → k + total h ≤ omega_
    → omega_ + i + length h ≤ length sig
    → IsEncoded omega_ sig k i h (encode_polys omega_ sig k i h)
unfolding encode_polys Holds total
encode_polys-IsEncoded omega_ sig k i [] small e g l = record {
  size = refl;
  before = λ m a. refl;
  between = λ m a b. refl;
  holds = tt;
}
encode_polys-IsEncoded omega_ sig k i (p ∷ h) small e g l =
    let bs = ones 0 p in
    let (sig', k') = encode_poly sig k 0 p in
    let written : IsWritten sig k bs (encode_poly sig k 0 p) =
      subst (IsWritten sig k bs) (sym (encode_poly-write_all sig k 0 p (omega (arith, e.0))))
        (write_all-IsWritten sig k bs (omega arith)) in
    let sig'' = store sig' (omega_ + i) (u8 k') in
    let size'' : length sig'' ≡ length sig =
      length-store sig' (omega_ + i) (u8 k') ∙ written.size in
    let count : k' ≡ k + length bs = written.count in
    let rest : IsEncoded omega_ sig'' k' (i + 1) h (encode_polys omega_ sig'' k' (i + 1) h) =
      encode_polys-IsEncoded omega_ sig'' k' (i + 1) h small e.1 (omega (arith, count))
        (omega (arith, size'')) in
    let r = encode_polys omega_ sig'' k' (i + 1) h in
    let low : (m : ℕ) → m < k' → get_or r m 0 ≡ get_or sig' m 0 = λ m a.
      rest.before m a
      ∙ store_other sig' (omega_ + i) m (u8 k') 0 (λ d. absurd (omega (arith, count))) in
    let mark : get_or r (omega_ + i) 0 ≡ k + length bs =
      rest.between (omega_ + i) (omega (arith, count)) (omega arith)
      ∙ store_same sig' (omega_ + i) (u8 k') 0 (omega (arith, written.size))
      ∙ omega (arith, count) in
    record {
      size = rest.size ∙ size'';
      before = λ m a. low m (omega (arith, count)) ∙ written.before m a;
      between = λ m a b.
          rest.between m (omega (arith, count)) (omega arith)
          ∙ store_other sig' (omega_ + i) m (u8 k') 0 (λ d. absurd (omega arith))
          ∙ written.behind m (omega arith);
      holds = (
        read-eq r sig' k (length bs) (λ m a b. low m (omega (arith, count))) ∙ written.bytes,
        mark,
        subst (λ (t : ℕ). Holds omega_ r t (i + 1) h) count rest.holds,
      );
    }
