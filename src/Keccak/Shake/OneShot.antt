-- ===== src/Keccak/Shake/OneShot.antt =====
-- The one-shot functions do what the incremental ones do.
use karudeb.Base.{
  ℕ, zero, suc, ◌+◌, ◌-◌, ◌*◌, ◌/◌, ◌<<◌, ◌≤◌, ◌<◌, ◌≡◌, refl, ap, ap₂, ◌∙◌, sym, arith,
}
use karudeb.Base.{List, ◌++◌, length, take, drop, replicate, All, All-drop, length-drop}
use karudeb.Base.{Bool-cases, inl, inr, leb, ◌==◌, true}
use native.Mathlib.Nat.{div-mul-le_self}
use karudeb.Keccak.Permute.{keccak_f1600_state_permute}
use karudeb.Keccak.Sponge.{
  xor_byte, xor_bytes, xor_word, xor_block, absorb_blocks, keccak_init, keccak_finalize,
  keccak_absorb_once, read_bytes, keccak_squeeze, store_block, keccak_squeezeblocks,
}
use karudeb.Keccak.Sponge.Bytewise.{absorb_bytes, squeeze_bytes}
use karudeb.Keccak.Sponge.Absorb.{whole_block, partial_block, keccak_absorb-absorb_bytes}
use karudeb.Keccak.Sponge.Squeeze.{
  inside_block, squeeze_bytes-append, squeeze_bytes-refreshed, keccak_squeeze-squeeze_bytes,
}
use karudeb.Keccak.Sponge.Words.{IsByte, xor_block-xor_bytes, store_block-read_bytes}
use karudeb.Keccak.Shake.{
  shake256, shake256_init, shake256_absorb, shake256_finalize, shake256_squeeze,
  shake256_absorb_once, shake256_squeezeblocks,
}

-- The blocks, and the bytes behind them.
absorb_blocks-absorb_bytes :
    (fuel : ℕ) (s : List ℕ) (w : ℕ) (input : List ℕ)
    → 0 < w
    → length input < fuel
    → All IsByte input
    → (let out = absorb_blocks fuel s (8 * w) input in
        absorb_bytes s 0 (8 * w) input ≡ (xor_bytes out.0 0 out.1, length out.1))
unfolding absorb_blocks
absorb_blocks-absorb_bytes zero s w input h g a = absurd (omega arith)
absorb_blocks-absorb_bytes (suc fuel) s w input h g a =
    elim (Bool-cases (leb (8 * w) (length input))) [
      | inl full ↦
          let words : 8 * w / 8 ≡ w = omega arith in
          let fits : 8 * w ≤ length input = ground arith in
          let start : 8 * 0 ≡ 0 = omega arith in
          let size : 8 * w - 0 ≡ 8 * w = omega arith in
          let block : xor_block (8 * w / 8) 0 s input ≡ xor_bytes s 0 (take (8 * w) input) =
            ap (λ (t : ℕ). xor_block t 0 s input) words
            ∙ xor_block-xor_bytes w 0 s input fits a
            ∙ ap (λ (t : ℕ). xor_bytes s t (take (8 * w) input)) start in
          let next = keccak_f1600_state_permute (xor_block (8 * w / 8) 0 s input) in
          let rest =
            absorb_blocks-absorb_bytes fuel next w (drop (8 * w) input) h
              (omega (arith, length-drop (8 * w) input)) (All-drop IsByte (8 * w) input a) in
          rw full (
            whole_block s 0 (8 * w) input (omega arith) (omega arith)
            ∙ ap
                (λ (t : ℕ).
                  absorb_bytes (keccak_f1600_state_permute (xor_bytes s 0 (take t input))) 0 (8 * w)
                    (drop t input))
                size
            ∙ ap
                (λ (t : List ℕ).
                  absorb_bytes (keccak_f1600_state_permute t) 0 (8 * w) (drop (8 * w) input))
                (sym block)
            ∙ rest)
      | inr open_block ↦
          let sum : 0 + length input ≡ length input = omega arith in
          rw open_block (
            partial_block s 0 (8 * w) input (ground arith)
            ∙ ap (λ (t : ℕ). (xor_bytes s 0 input, t)) sum)
    ]

pub keccak_absorb_once_lem :
    (w p : ℕ) (input : List ℕ)
    → 0 < w
    → All IsByte input
    → (let (s, pos) = absorb_bytes (replicate 25 0) 0 (8 * w) input in
        keccak_absorb_once (8 * w) input p ≡ keccak_finalize s pos (8 * w) p)
unfolding keccak_absorb_once keccak_finalize
keccak_absorb_once_lem w p input h a =
    let out = absorb_blocks (length input + 1) (replicate 25 0) (8 * w) input in
    let absorbed =
      absorb_blocks-absorb_bytes (length input + 1) (replicate 25 0) w input h (omega arith) a in
    let last : (8 * w - 1) / 8 ≡ 8 * w / 8 - 1 = omega arith in
    ap (λ (t : ℕ). xor_word (xor_byte (xor_bytes out.0 0 out.1) (length out.1) p) t (1 << 63)) last
    ∙ ap (λ (t : List ℕ × ℕ). xor_word (xor_byte t.0 t.1 p) (8 * w / 8 - 1) (1 << 63))
        (sym absorbed)

-- Whole blocks are what squeezing that many bytes from the end of a block gives.
squeezeblocks-squeeze_bytes :
    (count : ℕ) (s : List ℕ) (w : ℕ)
    → 0 < w
    → (let out = keccak_squeezeblocks count s (8 * w) in
        squeeze_bytes (count * (8 * w)) s (8 * w) (8 * w) ≡ (out.0, out.1, 8 * w))
unfolding keccak_squeezeblocks
squeezeblocks-squeeze_bytes zero s w h =
    let none_left : 0 * (8 * w) ≡ 0 = omega arith in
    ap (λ (t : ℕ). squeeze_bytes t s (8 * w) (8 * w)) none_left ∙ unfold squeeze_bytes in refl
squeezeblocks-squeeze_bytes (suc count) s w h =
    let r = 8 * w in
    let s' = keccak_f1600_state_permute s in
    let words : r / 8 ≡ w = omega arith in
    let start : 8 * 0 ≡ 0 = omega arith in
    let finish : 0 + r ≡ r = omega arith in
    let full : (r == r) ≡ true = ground arith in
    let sum : suc count * r ≡ r + count * r = omega arith in
    let block : store_block (r / 8) 0 s' ≡ read_bytes s' 0 r =
      ap (λ (t : ℕ). store_block t 0 s') words
      ∙ store_block-read_bytes w 0 s'
      ∙ ap (λ (t : ℕ). read_bytes s' t r) start in
    let first : squeeze_bytes r s r r ≡ (store_block (r / 8) 0 s', s', r) =
      squeeze_bytes-refreshed r s r r (omega arith) (omega arith)
      ∙ rw full (
          inside_block r s' 0 r (omega arith)
          ∙ ap₂ (λ (t : List ℕ) (m : ℕ). (t, s', m)) (sym block) finish) in
    ap (λ (t : ℕ). squeeze_bytes t s r r) sum
    ∙ squeeze_bytes-append r (count * r) s r r
    ∙ ap
        (λ (a : List ℕ × List ℕ × ℕ).
          let b = squeeze_bytes (count * r) a.1 a.2 r in (a.0 ++ b.0, b.1, b.2))
        first
    ∙ ap (λ (b : List ℕ × List ℕ × ℕ). (store_block (r / 8) 0 s' ++ b.0, b.1, b.2))
        (squeezeblocks-squeeze_bytes count s' w h)

-- Whole blocks and then the rest of the bytes.
squeeze_in_two :
    (outlen : ℕ) (s : List ℕ) (w : ℕ)
    → 0 < w
    → (let count = outlen / (8 * w) in
        let blocks = keccak_squeezeblocks count s (8 * w) in
        blocks.0 ++ (keccak_squeeze (outlen - count * (8 * w)) blocks.1 (8 * w) (8 * w)).0
        ≡ (keccak_squeeze outlen s (8 * w) (8 * w)).0)
squeeze_in_two outlen s w h =
    let r = 8 * w in
    let count = outlen / r in
    let left = outlen - count * r in
    let blocks = keccak_squeezeblocks count s r in
    let below : count * r ≤ outlen = div-mul-le_self outlen r in
    let sum : outlen ≡ count * r + left = omega arith in
    let whole =
      keccak_squeeze-squeeze_bytes outlen s r r (omega arith) (omega arith)
      ∙ ap (λ (t : ℕ). squeeze_bytes t s r r) sum
      ∙ squeeze_bytes-append (count * r) left s r r
      ∙ ap
          (λ (a : List ℕ × List ℕ × ℕ).
            let b = squeeze_bytes left a.1 a.2 r in (a.0 ++ b.0, b.1, b.2))
          (squeezeblocks-squeeze_bytes count s w h) in
    ap (λ (t : List ℕ × List ℕ × ℕ). blocks.0 ++ t.0)
      (keccak_squeeze-squeeze_bytes left blocks.1 r r (omega arith) (omega arith))
    ∙ sym (ap (λ (t : List ℕ × List ℕ × ℕ). t.0) whole)

-- For an input of bytes, `shake256` gives the bytes that initialising, absorbing, finalizing and
-- squeezing give.
pub shake256_lem :
    (outlen : ℕ) (input : List ℕ)
    → All IsByte input
    → shake256 outlen input
      ≡ (shake256_squeeze outlen (shake256_finalize (shake256_absorb shake256_init input))).0
unfolding shake256 shake256_init shake256_absorb shake256_finalize shake256_squeeze
    shake256_absorb_once shake256_squeezeblocks keccak_init
shake256_lem outlen input a =
    let once = keccak_absorb_once_lem 17 0x1F input (omega arith) a in
    let stepwise = keccak_absorb-absorb_bytes (replicate 25 0) 0 136 input (omega arith) in
    squeeze_in_two outlen (keccak_absorb_once 136 input 0x1F) 17 (omega arith)
    ∙ ap (λ (t : List ℕ). (keccak_squeeze outlen t 136 136).0) once
    ∙ ap (λ (t : List ℕ × ℕ). (keccak_squeeze outlen (keccak_finalize t.0 t.1 136 0x1F) 136 136).0)
        (sym stepwise)
