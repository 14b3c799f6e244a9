-- ===== src/Keccak/Permute/Bitwise.antt =====
-- `ROL` and `~` of tools/pqc/mlkem/keccak.c, bit by bit.
use karudeb.Base.{
  ℕ, zero, suc, ◌+◌, ◌-◌, ◌*◌, ◌/◌, ◌%◌, ◌^◌, ◌<◌, ◌≡◌, refl, sym, ap, ap₂, ◌∙◌, arith,
}
use karudeb.Base.{bit_xor, bit_xor_fields, bit_xor_none, double_field}
use native.Mathlib.Nat.{
  pow-suc, mod-lt, div-add-mod', one-le-pow, div-div-eq-div-mul, div-lt_iff_lt-mul,
  mul-lt-mul_of_pos_right,
}
use Prim.Native.Nat.{bit_xor-bitwise}
use karudeb.Keccak.Permute.{rol, not_64}
use karudeb.Keccak.Permute.Reference.{bit, word, rotated, complement}

word-ext : (n : ℕ) (f g : ℕ → ℕ) → ((z : ℕ) → z < n → f z ≡ g z) → word n f ≡ word n g
unfolding word
word-ext zero f g same = refl
word-ext (suc n) f g same =
    ap₂ (λ b w. b + 2 * w) (same 0 (omega arith))
      (word-ext n (λ z. f (suc z)) (λ z. g (suc z)) (λ z h. same (suc z) (omega arith)))

word-lt : (n : ℕ) (f : ℕ → ℕ) → ((z : ℕ) → f z < 2) → word n f < 2 ^ n
unfolding word
word-lt zero f small = omega arith
word-lt (suc n) f small =
    omega (arith, small 0, pow-suc 2 n, word-lt n (λ z. f (suc z)) (λ z. small (suc z)))

-- The low m bits and those above.
word-split : (m n : ℕ) (f : ℕ → ℕ) → word (m + n) f ≡ word m f + 2 ^ m * word n (λ z. f (m + z))
unfolding word
word-split zero n f =
    let size : 0 + n ≡ n = omega arith in
    let shift = word-ext n (λ z. f (0 + z)) f (λ z h. ap f (omega arith)) in
    omega (arith, ap (λ k. word k f) size, shift)
word-split (suc m) n f =
    let size : suc m + n ≡ suc (m + n) = omega arith in
    let shift =
      word-ext n (λ z. f (suc m + z)) (λ z. f (suc (m + z))) (λ z h. ap f (omega arith)) in
    let above = word n (λ z. f (suc (m + z))) in
    ap (λ k. word k f) size
    ∙ ap (λ w. f 0 + 2 * w) (word-split m n (λ z. f (suc z)))
    ∙ double (word m (λ z. f (suc z))) above
    ∙ ap (λ w. f 0 + 2 * word m (λ z. f (suc z)) + 2 ^ suc m * w) (sym shift)
  where
    double : (w above : ℕ) → f 0 + 2 * (w + 2 ^ m * above) ≡ f 0 + 2 * w + 2 ^ suc m * above
    double w above =
        let e : 2 ^ suc m * above ≡ 2 * (2 ^ m * above) = grind (arith, pow-suc 2 m) in
        omega (arith, e)

pow-plus : (m n : ℕ) → 2 ^ (m + n) ≡ 2 ^ m * 2 ^ n
pow-plus m zero = let e : m + 0 ≡ m = omega arith in ap (λ k. 2 ^ k) e ∙ omega arith
pow-plus m (suc n) =
    let e : m + suc n ≡ suc (m + n) = omega arith in
    let two : 2 ^ m * 2 ^ suc n ≡ 2 * (2 ^ m * 2 ^ n) = grind (arith, pow-suc 2 n) in
    rw e (omega (arith, two, pow-suc 2 (m + n), pow-plus m n))

bit-half : (z x : ℕ) → bit (suc z) x ≡ bit z (x / 2)
unfolding bit
bit-half z x =
    let two : 2 ^ suc z ≡ 2 * 2 ^ z = omega (arith, pow-suc 2 z) in
    ap (λ d. x / d % 2) two ∙ ap (λ d. d % 2) (sym (div-div-eq-div-mul x 2 (2 ^ z)))

bit-above : (m z x : ℕ) → bit (m + z) x ≡ bit z (x / 2 ^ m)
unfolding bit
bit-above m z x =
    ap (λ d. x / d % 2) (pow-plus m z)
    ∙ ap (λ d. d % 2) (sym (div-div-eq-div-mul x (2 ^ m) (2 ^ z)))

bit-first : (x : ℕ) → bit 0 x ≡ x % 2
unfolding bit
bit-first x = omega arith

bit-lt : (z x : ℕ) → bit z x < 2
unfolding bit
bit-lt z x = omega arith

-- The low bits, whatever stands above them.
word-low : (n q r : ℕ) → r < 2 ^ n → word n (λ z. bit z (q * 2 ^ n + r)) ≡ r
unfolding word
word-low zero q r h = omega arith
word-low (suc n) q r h =
    let half : (q * 2 ^ suc n + r) / 2 ≡ q * 2 ^ n + r / 2 = omega (arith, double_field q n) in
    let shift =
      word-ext n (λ z. bit (suc z) (q * 2 ^ suc n + r)) (λ z. bit z (q * 2 ^ n + r / 2))
        (λ z g. bit-half z (q * 2 ^ suc n + r) ∙ ap (bit z) half) in
    omega (
      arith,
      bit-first (q * 2 ^ suc n + r),
      double_field q n,
      shift,
      word-low n q (r / 2) (omega (arith, pow-suc 2 n)),
    )

word-bits : (n x : ℕ) → word n (λ z. bit z x) ≡ x % 2 ^ n
word-bits n x =
    ap (λ t. word n (λ z. bit z t)) (sym (div-add-mod' x (2 ^ n)))
    ∙ word-low n (x / 2 ^ n) (x % 2 ^ n) (mod-lt x (one-le-pow n 2 (omega arith)))

widths : (m n : ℕ) → n + m ≡ 64 → 2 ^ 64 ≡ 2 ^ m * 2 ^ n
widths m n e = let both : 64 ≡ m + n = omega (arith, e) in ap (λ k. 2 ^ k) both ∙ pow-plus m n

above-lt : (m n x : ℕ) → n + m ≡ 64 → x < 2 ^ 64 → x / 2 ^ m < 2 ^ n
above-lt m n x e h =
    let swap : 2 ^ m * 2 ^ n ≡ 2 ^ n * 2 ^ m = grind arith in
    (div-lt_iff_lt-mul (one-le-pow m 2 (omega arith))).1 (omega (arith, widths m n e, swap, h))

-- Turning by n moves the low m bits, for n + m = 64, above the others.
rotated_lem : (x n m : ℕ) → n + m ≡ 64 → x < 2 ^ 64 → rotated x n ≡ x / 2 ^ m + 2 ^ n * (x % 2 ^ m)
unfolding rotated
rotated_lem x n m e h =
    let f : ℕ → ℕ = λ z. bit ((z + 64 - n) % 64) x in
    let low =
      word-ext n f (λ z. bit z (x / 2 ^ m))
        (λ z k.
          let i : (z + 64 - n) % 64 ≡ m + z = omega (arith, e) in
          ap (λ j. bit j x) i ∙ bit-above m z x) in
    let high =
      word-ext m (λ z. f (n + z)) (λ z. bit z x)
        (λ z k. let i : (n + z + 64 - n) % 64 ≡ z = omega (arith, e) in ap (λ j. bit j x) i) in
    let kept = word-low n 0 (x / 2 ^ m) (above-lt m n x e h) in
    let zero_above : 0 * 2 ^ n + x / 2 ^ m ≡ x / 2 ^ m = omega arith in
    ap (λ k. word k f) (sym e)
    ∙ word-split n m f
    ∙ ap₂ (λ a b. a + 2 ^ n * b) (low ∙ ap (λ t. word n (λ z. bit z t)) (sym zero_above) ∙ kept)
        (high ∙ word-bits m x)

shifted : (x n m : ℕ) → n + m ≡ 64 → (x * 2 ^ n) % 2 ^ 64 ≡ x % 2 ^ m * 2 ^ n
shifted x n m e =
    let high = x / 2 ^ m in
    let low = x % 2 ^ m in
    let fits : low * 2 ^ n < 2 ^ m * 2 ^ n =
      mul-lt-mul_of_pos_right (mod-lt x (one-le-pow m 2 (omega arith)))
        (one-le-pow n 2 (omega arith)) in
    let parts : (high * 2 ^ m + low) * 2 ^ n ≡ high * (2 ^ m * 2 ^ n) + low * 2 ^ n = grind arith in
    let whole : x * 2 ^ n ≡ high * 2 ^ 64 + low * 2 ^ n =
      ap (λ t. t * 2 ^ n) (sym (div-add-mod' x (2 ^ m)))
      ∙ parts
      ∙ ap (λ t. high * t + low * 2 ^ n) (sym (widths m n e)) in
    omega (arith, whole, fits, widths m n e)

pub rol-rotated : (x n : ℕ) → x < 2 ^ 64 → n < 64 → rol x n ≡ rotated x n
unfolding rol
rol-rotated x n h k =
    let m = 64 - n in
    let e : n + m ≡ 64 = omega arith in
    let fields =
      bit_xor_fields n (x % 2 ^ m) 0 0 (x / 2 ^ m) (one-le-pow n 2 (omega arith))
        (above-lt m n x e h) in
    let low : bit_xor (x % 2 ^ m) 0 ≡ x % 2 ^ m = bit_xor_none (x % 2 ^ m) in
    let high : bit_xor 0 (x / 2 ^ m) ≡ x / 2 ^ m = bit_xor-bitwise 0 (x / 2 ^ m) in
    let left : x % 2 ^ m * 2 ^ n + 0 ≡ x % 2 ^ m * 2 ^ n = omega arith in
    let right : 0 * 2 ^ n + x / 2 ^ m ≡ x / 2 ^ m = omega arith in
    let order : x % 2 ^ m * 2 ^ n + x / 2 ^ m ≡ x / 2 ^ m + 2 ^ n * (x % 2 ^ m) = grind arith in
    ap₂ bit_xor (shifted x n m e ∙ sym left) (sym right)
    ∙ fields
    ∙ ap₂ (λ a b. a * 2 ^ n + b) low high
    ∙ order
    ∙ sym (rotated_lem x n m e h)

pub rotated-zero : (x : ℕ) → x < 2 ^ 64 → rotated x 0 ≡ x
rotated-zero x h = rotated_lem x 0 64 refl h ∙ omega arith

pub rotated-lt : (x n : ℕ) → rotated x n < 2 ^ 64
unfolding rotated
rotated-lt x n = word-lt 64 _ (λ z. bit-lt ((z + 64 - n) % 64) x)

complement_low : (n x : ℕ) → word n (λ z. 1 - bit z x) + word n (λ z. bit z x) + 1 ≡ 2 ^ n
unfolding word
complement_low zero x = omega arith
complement_low (suc n) x =
    let zeros =
      word-ext n (λ z. 1 - bit (suc z) x) (λ z. 1 - bit z (x / 2))
        (λ z h. ap (λ b. 1 - b) (bit-half z x)) in
    let ones = word-ext n (λ z. bit (suc z) x) (λ z. bit z (x / 2)) (λ z h. bit-half z x) in
    omega (arith, zeros, ones, bit-lt 0 x, pow-suc 2 n, complement_low n (x / 2))

pub not_64-complement : (x : ℕ) → x < 2 ^ 64 → not_64 x ≡ complement x
unfolding not_64 complement
not_64-complement x h = omega (arith, complement_low 64 x, word-bits 64 x)

pub complement-lt : (x : ℕ) → complement x < 2 ^ 64
unfolding complement
complement-lt x = word-lt 64 _ (λ z. omega arith)
