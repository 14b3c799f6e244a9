-- ===== src/Keccak/Permute.antt =====
-- tools/pqc/mlkem/keccak.c, in its portable form, which tools/pqc/mldsa/keccak.c repeats: the permutation
-- of the 25 words of a state. The global count of the calls is left out.
pub mod Reference
pub mod Bitwise
pub mod Bounds
pub mod Laws
use karudeb.Base.{ℕ, zero, suc, ◌+◌, ◌-◌, ◌*◌, ◌/◌, ◌%◌, ◌^◌, ◌<<◌, ◌>>◌}
use karudeb.Base.{List, [], ◌∷◌, get_or, bit_and, bit_xor}

-- ~x and ROL(x, offset) on uint64_t
unfoldable pub not_64 : ℕ → ℕ
not_64 x = 2 ^ 64 - 1 - x

unfoldable pub rol : ℕ → ℕ → ℕ
rol x offset = bit_xor ((x << offset) % 2 ^ 64) (x >> (64 - offset))

-- x ^ (~y & z)
unfoldable pub chi : ℕ → ℕ → ℕ → ℕ
chi x y z = bit_xor x (bit_and (not_64 y) z)

-- KeccakF_RoundConstants
abbrev pub round_constants : List ℕ
round_constants =
    0x0000000000000001 ∷ 0x0000000000008082 ∷ 0x800000000000808a ∷ 0x8000000080008000
    ∷ 0x000000000000808b ∷ 0x0000000080000001 ∷ 0x8000000080008081 ∷ 0x8000000000008009
    ∷ 0x000000000000008a ∷ 0x0000000000000088 ∷ 0x0000000080008009 ∷ 0x000000008000000a
    ∷ 0x000000008000808b ∷ 0x800000000000008b ∷ 0x8000000000008089 ∷ 0x8000000000008003
    ∷ 0x8000000000008002 ∷ 0x8000000000000080 ∷ 0x000000000000800a ∷ 0x800000008000000a
    ∷ 0x8000000080008081 ∷ 0x8000000000008080 ∷ 0x0000000080000001 ∷ 0x8000000080008008 ∷ []

-- The local variables Aba to Asu.
pub data Lanes : Type 0 where
  lanes :
      (aba abe abi abo abu aga age agi ago agu aka ake aki ako aku ama ame ami amo amu asa ase asi
        aso asu : ℕ)
      → Lanes

-- One half of the loop's body, from the A variables to the E variables; the other half is the same
-- from E to A, with the next constant.
unfoldable pub round : ℕ → Lanes → Lanes
round rc
      (lanes aba abe abi abo abu aga age agi ago agu aka ake aki ako aku ama ame ami amo amu asa ase
        asi aso asu) =
    let ca = bit_xor (bit_xor (bit_xor (bit_xor aba aga) aka) ama) asa in
    let ce = bit_xor (bit_xor (bit_xor (bit_xor abe age) ake) ame) ase in
    let ci = bit_xor (bit_xor (bit_xor (bit_xor abi agi) aki) ami) asi in
    let co = bit_xor (bit_xor (bit_xor (bit_xor abo ago) ako) amo) aso in
    let cu = bit_xor (bit_xor (bit_xor (bit_xor abu agu) aku) amu) asu in
    let d_a = bit_xor cu (rol ce 1) in
    let d_e = bit_xor ca (rol ci 1) in
    let d_i = bit_xor ce (rol co 1) in
    let d_o = bit_xor ci (rol cu 1) in
    let d_u = bit_xor co (rol ca 1) in
    let ba = bit_xor aba d_a in
    let be = rol (bit_xor age d_e) 44 in
    let bi = rol (bit_xor aki d_i) 43 in
    let bo = rol (bit_xor amo d_o) 21 in
    let bu = rol (bit_xor asu d_u) 14 in
    let eba = bit_xor (chi ba be bi) rc in
    let ebe = chi be bi bo in
    let ebi = chi bi bo bu in
    let ebo = chi bo bu ba in
    let ebu = chi bu ba be in
    let ga = rol (bit_xor abo d_o) 28 in
    let ge = rol (bit_xor agu d_u) 20 in
    let gi = rol (bit_xor aka d_a) 3 in
    let go = rol (bit_xor ame d_e) 45 in
    let gu = rol (bit_xor asi d_i) 61 in
    let ega = chi ga ge gi in
    let ege = chi ge gi go in
    let egi = chi gi go gu in
    let ego = chi go gu ga in
    let egu = chi gu ga ge in
    let ka = rol (bit_xor abe d_e) 1 in
    let ke = rol (bit_xor agi d_i) 6 in
    let ki = rol (bit_xor ako d_o) 25 in
    let ko = rol (bit_xor amu d_u) 8 in
    let ku = rol (bit_xor asa d_a) 18 in
    let eka = chi ka ke ki in
    let eke = chi ke ki ko in
    let eki = chi ki ko ku in
    let eko = chi ko ku ka in
    let eku = chi ku ka ke in
    let ma = rol (bit_xor abu d_u) 27 in
    let me = rol (bit_xor aga d_a) 36 in
    let mi = rol (bit_xor ake d_e) 10 in
    let mo = rol (bit_xor ami d_i) 15 in
    let mu = rol (bit_xor aso d_o) 56 in
    let ema = chi ma me mi in
    let eme = chi me mi mo in
    let emi = chi mi mo mu in
    let emo = chi mo mu ma in
    let emu = chi mu ma me in
    let sa = rol (bit_xor abi d_i) 62 in
    let se = rol (bit_xor ago d_o) 55 in
    let si = rol (bit_xor aku d_u) 39 in
    let so = rol (bit_xor ama d_a) 41 in
    let su = rol (bit_xor ase d_e) 2 in
    let esa = chi sa se si in
    let ese = chi se si so in
    let esi = chi si so su in
    let eso = chi so su sa in
    let esu = chi su sa se in
    lanes eba ebe ebi ebo ebu ega ege egi ego egu eka eke eki eko eku ema eme emi emo emu esa ese
      esi eso esu

-- The loop, with `left` double rounds to go.
unfoldable pub rounds : ℕ → ℕ → Lanes → Lanes
rounds zero i a = a
rounds (suc left) i a =
    let e = round (get_or round_constants i 0) a in
    rounds left (i + 2) (round (get_or round_constants (i + 1) 0) e)

-- copyFromState and copyToState
unfoldable pub copy_from_state : List ℕ → Lanes
copy_from_state s =
    lanes (get_or s 0 0) (get_or s 1 0) (get_or s 2 0) (get_or s 3 0) (get_or s 4 0) (get_or s 5 0)
      (get_or s 6 0) (get_or s 7 0) (get_or s 8 0) (get_or s 9 0) (get_or s 10 0) (get_or s 11 0)
      (get_or s 12 0) (get_or s 13 0) (get_or s 14 0) (get_or s 15 0) (get_or s 16 0)
      (get_or s 17 0) (get_or s 18 0) (get_or s 19 0) (get_or s 20 0) (get_or s 21 0)
      (get_or s 22 0) (get_or s 23 0) (get_or s 24 0)

unfoldable pub copy_to_state : Lanes → List ℕ
copy_to_state
      (lanes aba abe abi abo abu aga age agi ago agu aka ake aki ako aku ama ame ami amo amu asa ase
        asi aso asu) =
    aba ∷ abe ∷ abi ∷ abo ∷ abu ∷ aga ∷ age ∷ agi ∷ ago ∷ agu ∷ aka ∷ ake ∷ aki ∷ ako ∷ aku ∷ ama
    ∷ ame ∷ ami ∷ amo ∷ amu ∷ asa ∷ ase ∷ asi ∷ aso ∷ asu ∷ []

unfoldable pub keccak_f1600_state_permute : List ℕ → List ℕ
keccak_f1600_state_permute state = copy_to_state (rounds 12 0 (copy_from_state state))
