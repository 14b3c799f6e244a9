-- ===== src/Keccak/Sponge.antt =====
-- The sponge of tools/pqc/mlkem/fips202.c, which tools/pqc/mldsa/fips202.c repeats. A state is the list of
-- its 25 words, and a function that returns the new position gives it with the state.
pub mod Bytewise
pub mod Absorb
pub mod Squeeze
pub mod Words
pub mod Outputs
use karudeb.Base.{ℕ, zero, suc, ◌+◌, ◌-◌, ◌*◌, ◌/◌, ◌%◌, ◌^◌, ◌<<◌, ◌>>◌, ◌++◌, ◌==◌, leb, ltb}
use karudeb.Base.{List, [], ◌∷◌, length, take, drop, replicate, get_or, if◌then◌else◌}
use karudeb.Base.{u8, bit_or, bit_xor}
use karudeb.Keccak.Permute.{keccak_f1600_state_permute}

-- The loop of `load64` over the bytes that are left, with r and 8 * i.
unfoldable pub load64_loop : ℕ → ℕ → List ℕ → ℕ
load64_loop r k [] = r
load64_loop r k (b ∷ x) = load64_loop (bit_or r (b << k)) (k + 8) x

unfoldable pub load64 : List ℕ → ℕ
load64 x = load64_loop 0 0 (take 8 x)

-- The loop of `store64`, with `left` bytes to go.
unfoldable pub store64_loop : ℕ → ℕ → ℕ → List ℕ
store64_loop zero i u = []
store64_loop (suc left) i u = u8 (u >> (8 * i)) ∷ store64_loop left (i + 1) u

unfoldable pub store64 : ℕ → List ℕ
store64 u = store64_loop 8 0 u

unfoldable pub keccak_init : List ℕ
keccak_init = replicate 25 0

-- s[i] ^= w
unfoldable pub xor_word : List ℕ → ℕ → ℕ → List ℕ
xor_word [] i w = []
xor_word (x ∷ s) zero w = bit_xor x w ∷ s
xor_word (x ∷ s) (suc i) w = x ∷ xor_word s i w

-- s[i / 8] ^= (uint64_t) b << 8 * (i % 8)
unfoldable pub xor_byte : List ℕ → ℕ → ℕ → List ℕ
xor_byte s i b = xor_word s (i / 8) (b << (8 * (i % 8)))

-- The loop that does so for consecutive bytes, from index i on.
unfoldable pub xor_bytes : List ℕ → ℕ → List ℕ → List ℕ
xor_bytes s i [] = s
xor_bytes s i (b ∷ input) = xor_bytes (xor_byte s i b) (i + 1) input

-- The `while` loop of `keccak_absorb`: the state, the position and the input that is left.
unfoldable pub absorb_loop : ℕ → List ℕ → ℕ → ℕ → List ℕ → List ℕ × ℕ × List ℕ
absorb_loop zero s pos r input = (s, pos, input)
absorb_loop (suc fuel) s pos r input =
    let block = xor_bytes s pos (take (r - pos) input) in
    let rest = absorb_loop fuel (keccak_f1600_state_permute block) 0 r (drop (r - pos) input) in
    if leb r (pos + length input) then rest else (s, pos, input)

-- Every round but the first takes a byte at least, so the fuel is enough.
unfoldable pub keccak_absorb : List ℕ → ℕ → ℕ → List ℕ → List ℕ × ℕ
keccak_absorb s pos r input =
    let (s', pos', input') = absorb_loop (length input + 2) s pos r input in
    (xor_bytes s' pos' input', pos' + length input')

unfoldable pub keccak_finalize : List ℕ → ℕ → ℕ → ℕ → List ℕ
keccak_finalize s pos r p = xor_word (xor_byte s pos p) (r / 8 - 1) (1 << 63)

-- s[i / 8] >> 8 * (i % 8), as a byte
unfoldable pub byte_of : List ℕ → ℕ → ℕ
byte_of s i = u8 (get_or s (i / 8) 0 >> (8 * (i % 8)))

-- The `for` loop of `keccak_squeeze`, with `left` bytes to go.
unfoldable pub read_bytes : List ℕ → ℕ → ℕ → List ℕ
read_bytes s i zero = []
read_bytes s i (suc left) = byte_of s i ∷ read_bytes s (i + 1) left

-- The `while` loop of `keccak_squeeze`: the output, the state and the position.
unfoldable pub squeeze_loop : ℕ → ℕ → List ℕ → ℕ → ℕ → List ℕ × List ℕ × ℕ
squeeze_loop zero outlen s pos r = ([], s, pos)
squeeze_loop (suc fuel) outlen s pos r =
    let (s', pos') = if pos == r then (keccak_f1600_state_permute s, 0) else (s, pos) in
    let count = if ltb (r - pos') outlen then r - pos' else outlen in
    let rest = squeeze_loop fuel (outlen - count) s' (pos' + count) r in
    if outlen == 0 then ([], s, pos) else (read_bytes s' pos' count ++ rest.0, rest.1, rest.2)

-- Every round gives a byte at least, so the fuel is enough.
unfoldable pub keccak_squeeze : ℕ → List ℕ → ℕ → ℕ → List ℕ × List ℕ × ℕ
keccak_squeeze outlen s pos r = squeeze_loop (outlen + 1) outlen s pos r

-- The `for` loop of a whole block, s[i] ^= load64(in + 8 * i), with `left` words to go.
unfoldable pub xor_block : ℕ → ℕ → List ℕ → List ℕ → List ℕ
xor_block zero i s input = s
xor_block (suc left) i s input = xor_block left (i + 1) (xor_word s i (load64 input)) (drop 8 input)

-- The `while` loop of `keccak_absorb_once`: the state and the input that is left.
unfoldable pub absorb_blocks : ℕ → List ℕ → ℕ → List ℕ → List ℕ × List ℕ
absorb_blocks zero s r input = (s, input)
absorb_blocks (suc fuel) s r input =
    let block = xor_block (r / 8) 0 s input in
    let rest = absorb_blocks fuel (keccak_f1600_state_permute block) r (drop r input) in
    if leb r (length input) then rest else (s, input)

unfoldable pub keccak_absorb_once : ℕ → List ℕ → ℕ → List ℕ
keccak_absorb_once r input p =
    let (s, rest) = absorb_blocks (length input + 1) (replicate 25 0) r input in
    let s' = xor_bytes s 0 rest in
    let s'' = xor_byte s' (length rest) p in xor_word s'' ((r - 1) / 8) (1 << 63)

-- The loop over the words of one block, with `left` words to go.
unfoldable pub store_block : ℕ → ℕ → List ℕ → List ℕ
store_block zero i s = []
store_block (suc left) i s = store64 (get_or s i 0) ++ store_block left (i + 1) s

-- The output and the state.
unfoldable pub keccak_squeezeblocks : ℕ → List ℕ → ℕ → List ℕ × List ℕ
keccak_squeezeblocks zero s r = ([], s)
keccak_squeezeblocks (suc nblocks) s r =
    let s' = keccak_f1600_state_permute s in
    let rest = keccak_squeezeblocks nblocks s' r in (store_block (r / 8) 0 s' ++ rest.0, rest.1)
