-- ===== src/Base/Chunks.antt =====
-- Lists in groups of a fixed size, for loops that take so many elements a round.
use Prim.Native.Nat.{ℕ, ◌-◌, ◌*◌}
use mathlib.Core.Path.{◌≡◌}
use mathlib.Core.List.{List, [], ◌∷◌}
use native.Mathlib.Omega.{arith}
use karudeb.Base.Lists.{length}

pub data Fours {ℓ} (A : Type ℓ) : List A → Type ℓ where
  done : Fours A []
  four : (a b c d : A) {rest : List A} → Fours A rest → Fours A (a ∷ b ∷ c ∷ d ∷ rest)

pub data Fives {ℓ} (A : Type ℓ) : List A → Type ℓ where
  done : Fives A []
  five : (a b c d e : A) {rest : List A} → Fives A rest → Fives A (a ∷ b ∷ c ∷ d ∷ e ∷ rest)

pub data Eights {ℓ} (A : Type ℓ) : List A → Type ℓ where
  done : Eights A []
  eight :
      (a b c d e f g h : A) {rest : List A}
      → Eights A rest
      → Eights A (a ∷ b ∷ c ∷ d ∷ e ∷ f ∷ g ∷ h ∷ rest)

module _ {ℓ} {A : Type ℓ} where
  pub fours : (k : ℕ) (xs : List A) → length xs ≡ 4 * k → Fours A xs
  fours k [] e = Fours.done
  fours k (a ∷ b ∷ c ∷ d ∷ rest) e = four a b c d (fours (k - 1) rest (omega arith))
  fours k (_ ∷ []) e = absurd (omega arith)
  fours k (_ ∷ _ ∷ []) e = absurd (omega arith)
  fours k (_ ∷ _ ∷ _ ∷ []) e = absurd (omega arith)

  pub fives : (k : ℕ) (xs : List A) → length xs ≡ 5 * k → Fives A xs
  fives k [] e = Fives.done
  fives k (a ∷ b ∷ c ∷ d ∷ x ∷ rest) e = five a b c d x (fives (k - 1) rest (omega arith))
  fives k (_ ∷ []) e = absurd (omega arith)
  fives k (_ ∷ _ ∷ []) e = absurd (omega arith)
  fives k (_ ∷ _ ∷ _ ∷ []) e = absurd (omega arith)
  fives k (_ ∷ _ ∷ _ ∷ _ ∷ []) e = absurd (omega arith)

  pub eights : (k : ℕ) (xs : List A) → length xs ≡ 8 * k → Eights A xs
  eights k [] e = Eights.done
  eights k (a ∷ b ∷ c ∷ d ∷ x ∷ f ∷ g ∷ h ∷ rest) e =
      eight a b c d x f g h (eights (k - 1) rest (omega arith))
  eights k (_ ∷ []) e = absurd (omega arith)
  eights k (_ ∷ _ ∷ []) e = absurd (omega arith)
  eights k (_ ∷ _ ∷ _ ∷ []) e = absurd (omega arith)
  eights k (_ ∷ _ ∷ _ ∷ _ ∷ []) e = absurd (omega arith)
  eights k (_ ∷ _ ∷ _ ∷ _ ∷ _ ∷ []) e = absurd (omega arith)
  eights k (_ ∷ _ ∷ _ ∷ _ ∷ _ ∷ _ ∷ []) e = absurd (omega arith)
  eights k (_ ∷ _ ∷ _ ∷ _ ∷ _ ∷ _ ∷ _ ∷ []) e = absurd (omega arith)

pub data Twos {ℓ} (A : Type ℓ) : List A → Type ℓ where
  done : Twos A []
  two : (a b : A) {rest : List A} → Twos A rest → Twos A (a ∷ b ∷ rest)

pub twos {ℓ} : {A : Type ℓ} (k : ℕ) (xs : List A) → length xs ≡ 2 * k → Twos A xs
twos k [] e = Twos.done
twos k (a ∷ b ∷ rest) e = two a b (twos (k - 1) rest (omega arith))
twos k (_ ∷ []) e = absurd (omega arith)
