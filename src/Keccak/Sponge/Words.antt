-- ===== src/Keccak/Sponge/Words.antt =====
-- The loops over whole words do what the loops over bytes do.
use karudeb.Base.{
  ℕ, zero, suc, ◌+◌, ◌*◌, ◌/◌, ◌%◌, ◌^◌, ◌<<◌, ◌>>◌, ◌≤◌, ◌<◌, ◌≡◌, refl, ap, ap₂, ◌∙◌, sym, arith,
}
use karudeb.Base.{
  List, [], ◌∷◌, ◌++◌, length, take, drop, get_or, All, length-take, length-drop, All-take,
  All-drop,
}
use karudeb.Base.{bit_or, bit_xor, bit_or_above, bit_xor_above, bit_xor_assoc, bit_xor_none, u8}
use native.Mathlib.Numerals.{towards_suc}
use karudeb.Keccak.Sponge.{
  load64_loop, load64, store64_loop, store64, xor_word, xor_byte, xor_bytes, xor_block, byte_of,
  read_bytes, store_block,
}

abbrev pub IsByte : ℕ → Type 0
IsByte b = b < 256

xor_word_twice :
    (s : List ℕ) (i v w : ℕ) → xor_word (xor_word s i v) i w ≡ xor_word s i (bit_xor v w)
unfolding xor_word
xor_word_twice [] i v w = refl
xor_word_twice (x ∷ s) zero v w = ap (λ (t : ℕ). t ∷ s) (bit_xor_assoc x v w)
xor_word_twice (x ∷ s) (suc i) v w = ap (λ t. x ∷ t) (xor_word_twice s i v w)

xor_word_none : (s : List ℕ) (i : ℕ) → xor_word s i 0 ≡ s
unfolding xor_word
xor_word_none [] i = refl
xor_word_none (x ∷ s) zero = ap (λ (t : ℕ). t ∷ s) (bit_xor_none x)
xor_word_none (x ∷ s) (suc i) = ap (λ t. x ∷ t) (xor_word_none s i)

-- Byte 8 * i + j of the state is byte j of word i.
place : (s : List ℕ) (i j b : ℕ) → j < 8 → xor_byte s (8 * i + j) b ≡ xor_word s i (b << (8 * j))
unfolding xor_byte
place s i j b h =
    let word : (8 * i + j) / 8 ≡ i = omega arith in
    let byte : (8 * i + j) % 8 ≡ j = omega arith in rw (word, byte) refl

-- A byte above a field.
fill : (p r b : ℕ) → r < p → b < 256 → r + b * p < 256 * p
fill p r b h g = grind arith

-- The rest of a word, from byte j on.
load_rest :
    (s : List ℕ) (i j r : ℕ) (bs : List ℕ)
    → r < 2 ^ (8 * j)
    → j + length bs ≤ 8
    → All IsByte bs
    → xor_word s i (load64_loop r (8 * j) bs) ≡ xor_bytes (xor_word s i r) (8 * i + j) bs
unfolding load64_loop xor_bytes
load_rest s i j r [] h g a = refl
load_rest s i j r (b ∷ bs) h g a =
    let next : 8 * j + 8 ≡ 8 * (j + 1) = omega arith in
    let index : (8 * i + j) + 1 ≡ 8 * i + (j + 1) = omega arith in
    let or_sum = bit_or_above (8 * j) r b h in
    let xor_sum = bit_xor_above (8 * j) r b h in
    let same : bit_or r (b << (8 * j)) ≡ bit_xor r (b << (8 * j)) = or_sum ∙ sym xor_sum in
    let power : 2 ^ (8 * j + 8) ≡ 256 * 2 ^ (8 * j) = simp towards_suc (omega arith) in
    let grown : bit_or r (b << (8 * j)) < 2 ^ (8 * (j + 1)) =
      let wide : 2 ^ (8 * (j + 1)) ≡ 256 * 2 ^ (8 * j) = ap (λ (t : ℕ). 2 ^ t) (sym next) ∙ power in
      omega (arith, or_sum, wide, fill (2 ^ (8 * j)) r b h a.0) in
    let written : xor_byte (xor_word s i r) (8 * i + j) b ≡ xor_word s i (bit_or r (b << (8 * j))) =
      place (xor_word s i r) i j b (omega arith)
      ∙ xor_word_twice s i r (b << (8 * j))
      ∙ ap (λ (t : ℕ). xor_word s i t) (sym same) in
    ap (λ (t : ℕ). xor_word s i (load64_loop (bit_or r (b << (8 * j))) t bs)) next
    ∙ load_rest s i (j + 1) (bit_or r (b << (8 * j))) bs grown (omega arith) a.1
    ∙ ap₂ (λ (t : List ℕ) (m : ℕ). xor_bytes t m bs) (sym written) (sym index)

load_word :
    (s : List ℕ) (i : ℕ) (input : List ℕ)
    → All IsByte input
    → xor_word s i (load64 input) ≡ xor_bytes s (8 * i) (take 8 input)
unfolding load64
load_word s i input a =
    let start : 8 * i + 0 ≡ 8 * i = omega arith in
    load_rest s i 0 0 (take 8 input) (omega arith) (short 8 input) (All-take IsByte 8 input a)
    ∙ ap₂ (λ (t : List ℕ) (m : ℕ). xor_bytes t m (take 8 input)) (xor_word_none s i) start
  where
    short : (k : ℕ) (x : List ℕ) → 0 + length (take k x) ≤ k
    short zero x = omega arith
    short (suc k) [] = omega arith
    short (suc k) (y ∷ x) = omega (arith, short k x)

take_nil : (m : ℕ) → take {A = ℕ} m [] ≡ []
take_nil zero = refl
take_nil (suc m) = refl

take_add : (k l : ℕ) (x : List ℕ) → take (k + l) x ≡ take k x ++ take l (drop k x)
take_add zero l x = ap (λ (t : ℕ). take t x) (omega arith)
take_add (suc k) l [] = take_nil (suc k + l) ∙ sym (take_nil l)
take_add (suc k) l (y ∷ x) =
    let more : suc k + l ≡ suc (k + l) = omega arith in
    ap (λ (t : ℕ). take t (y ∷ x)) more ∙ ap (λ t. y ∷ t) (take_add k l x)

xor_bytes-append :
    (s : List ℕ) (i : ℕ) (a b : List ℕ)
    → xor_bytes s i (a ++ b) ≡ xor_bytes (xor_bytes s i a) (i + length a) b
unfolding xor_bytes
xor_bytes-append s i [] b = let sum : i ≡ i + 0 = omega arith in ap (λ (t : ℕ). xor_bytes s t b) sum
xor_bytes-append s i (x ∷ a) b =
    let sum : (i + 1) + length a ≡ i + suc (length a) = omega arith in
    xor_bytes-append (xor_byte s i x) (i + 1) a b
    ∙ ap (λ (t : ℕ). xor_bytes (xor_bytes (xor_byte s i x) (i + 1) a) t b) sum

pub xor_block-xor_bytes :
    (left i : ℕ) (s input : List ℕ)
    → 8 * left ≤ length input
    → All IsByte input
    → xor_block left i s input ≡ xor_bytes s (8 * i) (take (8 * left) input)
unfolding xor_block
xor_block-xor_bytes zero i s input h a = unfold xor_bytes in refl
xor_block-xor_bytes (suc left) i s input h a =
    let s' = xor_word s i (load64 input) in
    let next : 8 * (i + 1) ≡ 8 * i + length (take 8 input) =
      omega (arith, length-take 8 input (omega arith)) in
    let more : 8 + 8 * left ≡ 8 * suc left = omega arith in
    xor_block-xor_bytes left (i + 1) s' (drop 8 input) (omega (arith, length-drop 8 input))
      (All-drop IsByte 8 input a)
    ∙ ap₂ (λ (t : List ℕ) (m : ℕ). xor_bytes t m (take (8 * left) (drop 8 input)))
        (load_word s i input a) next
    ∙ sym (xor_bytes-append s (8 * i) (take 8 input) (take (8 * left) (drop 8 input)))
    ∙ ap (λ (t : List ℕ). xor_bytes s (8 * i) t) (sym (take_add 8 (8 * left) input))
    ∙ ap (λ (t : ℕ). xor_bytes s (8 * i) (take t input)) more

-- The bytes of a word.
store_rest :
    (s : List ℕ) (i j left : ℕ)
    → j + left ≤ 8
    → store64_loop left j (get_or s i 0) ≡ read_bytes s (8 * i + j) left
unfolding store64_loop read_bytes byte_of
store_rest s i j zero h = refl
store_rest s i j (suc left) h =
    let word : (8 * i + j) / 8 ≡ i = omega arith in
    let byte : (8 * i + j) % 8 ≡ j = omega arith in
    let index : 8 * i + (j + 1) ≡ (8 * i + j) + 1 = omega arith in
    rw (word, byte)
      (ap (λ t. u8 (get_or s i 0 >> (8 * j)) ∷ t)
        (store_rest s i (j + 1) left (omega arith) ∙ ap (λ (t : ℕ). read_bytes s t left) index))

read_add :
    (s : List ℕ) (i k l : ℕ) → read_bytes s i (k + l) ≡ read_bytes s i k ++ read_bytes s (i + k) l
unfolding read_bytes
read_add s i zero l =
    let none_more : 0 + l ≡ l = omega arith in
    let same : i ≡ i + 0 = omega arith in ap₂ (λ (t : ℕ) (m : ℕ). read_bytes s m t) none_more same
read_add s i (suc k) l =
    let more : suc k + l ≡ suc (k + l) = omega arith in
    let index : (i + 1) + k ≡ i + suc k = omega arith in
    ap (λ (t : ℕ). read_bytes s i t) more
    ∙ ap (λ t. byte_of s i ∷ t)
        (read_add s (i + 1) k l ∙ ap (λ (t : ℕ). read_bytes s (i + 1) k ++ read_bytes s t l) index)

pub store_block-read_bytes :
    (left i : ℕ) (s : List ℕ) → store_block left i s ≡ read_bytes s (8 * i) (8 * left)
unfolding store_block
store_block-read_bytes zero i s = unfold read_bytes in refl
store_block-read_bytes (suc left) i s =
    let start : 8 * i + 0 ≡ 8 * i = omega arith in
    let next : 8 * (i + 1) ≡ 8 * i + 8 = omega arith in
    let more : 8 + 8 * left ≡ 8 * suc left = omega arith in
    let word : store64 (get_or s i 0) ≡ read_bytes s (8 * i) 8 =
      unfold store64 in store_rest s i 0 8 (omega arith) ∙ ap (λ (t : ℕ). read_bytes s t 8) start in
    ap₂ (λ (t m : List ℕ). t ++ m) word
      (store_block-read_bytes left (i + 1) s ∙ ap (λ (t : ℕ). read_bytes s t (8 * left)) next)
    ∙ sym (read_add s (8 * i) 8 (8 * left))
    ∙ ap (λ (t : ℕ). read_bytes s (8 * i) t) more
