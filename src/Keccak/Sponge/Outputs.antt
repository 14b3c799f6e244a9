-- ===== src/Keccak/Sponge/Outputs.antt =====
-- The outputs of whole blocks: their lengths, that they are bytes, and how they join.
use karudeb.Base.{ℕ, zero, suc, ◌+◌, ◌*◌, ◌/◌, ◌≡◌, refl, ap, ◌∙◌, sym, arith}
use karudeb.Base.{List, ◌++◌, length, get_or, All, length-append, All-append}
use mathlib.Core.List.{append_assoc}
use karudeb.Keccak.Permute.{keccak_f1600_state_permute}
use karudeb.Keccak.Sponge.{store64_loop, store64, store_block, keccak_squeezeblocks}
use karudeb.Keccak.Sponge.Words.{IsByte}

store64_loop_bytes :
    (left i u : ℕ) → (length (store64_loop left i u) ≡ left) × All IsByte (store64_loop left i u)
unfolding store64_loop
store64_loop_bytes zero i u = (refl, tt)
store64_loop_bytes (suc left) i u =
    let rest = store64_loop_bytes left (i + 1) u in (ap suc rest.0, (omega arith, rest.1))

-- The bytes of a number of words.
pub store_block_bytes :
    (left i : ℕ) (s : List ℕ)
    → (length (store_block left i s) ≡ 8 * left) × All IsByte (store_block left i s)
unfolding store_block
store_block_bytes zero i s = (omega arith, tt)
store_block_bytes (suc left) i s =
    let word : (length (store64 (get_or s i 0)) ≡ 8) × All IsByte (store64 (get_or s i 0)) =
      unfold store64 in store64_loop_bytes 8 0 (get_or s i 0) in
    let rest = store_block_bytes left (i + 1) s in
    (
      omega (
        arith,
        length-append (store64 (get_or s i 0)) (store_block left (i + 1) s),
        word.0,
        rest.0,
      ),
      All-append IsByte (store64 (get_or s i 0)) (store_block left (i + 1) s) word.1 rest.1,
    )

pub squeezeblocks_bytes :
    (count : ℕ) (s : List ℕ) (r : ℕ)
    → (length (keccak_squeezeblocks count s r).0 ≡ 8 * (r / 8) * count)
      × All IsByte (keccak_squeezeblocks count s r).0
unfolding keccak_squeezeblocks
squeezeblocks_bytes zero s r = (omega arith, tt)
squeezeblocks_bytes (suc count) s r =
    let s' = keccak_f1600_state_permute s in
    let block = store_block_bytes (r / 8) 0 s' in
    let rest = squeezeblocks_bytes count s' r in
    (
      grind (
        arith,
        length-append (store_block (r / 8) 0 s') (keccak_squeezeblocks count s' r).0,
        block.0,
        rest.0,
      ),
      All-append IsByte (store_block (r / 8) 0 s') (keccak_squeezeblocks count s' r).0 block.1
          rest.1,
    )

-- Squeezing some blocks and then more is squeezing them together.
pub squeezeblocks-append :
    (a b : ℕ) (s : List ℕ) (r : ℕ)
    → (let first = keccak_squeezeblocks a s r in
        let second = keccak_squeezeblocks b first.1 r in
        keccak_squeezeblocks (a + b) s r ≡ (first.0 ++ second.0, second.1))
unfolding keccak_squeezeblocks
squeezeblocks-append zero b s r =
    let sum : 0 + b ≡ b = omega arith in ap (λ (t : ℕ). keccak_squeezeblocks t s r) sum
squeezeblocks-append (suc a) b s r =
    let s' = keccak_f1600_state_permute s in
    let block = store_block (r / 8) 0 s' in
    let first = keccak_squeezeblocks a s' r in
    let second = keccak_squeezeblocks b first.1 r in
    let sum : suc a + b ≡ suc (a + b) = omega arith in
    ap (λ (t : ℕ). keccak_squeezeblocks t s r) sum
    ∙ ap (λ (t : List ℕ × List ℕ). (block ++ t.0, t.1)) (squeezeblocks-append a b s' r)
    ∙ ap (λ (t : List ℕ). (t, second.1)) (sym (append_assoc block first.0 second.0))
