-- ===== src/MlDsa/Reject.antt =====
-- The rejection loops of tools/pqc/mldsa/mldsa_poly.c on an array of random bytes. `room` is len - ctr,
-- and the result is what is written to the array, whose length is the returned counter.
use karudeb.Base.{ℕ, ◌-◌, ◌*◌, ◌<<◌, ◌>>◌, ◌++◌, ◌==◌, ltb, ◌&&◌, if◌then◌else◌}
use karudeb.Base.{ℤ, pos, ◌-ℤ◌, List, [], ◌∷◌, length, bit_and, bit_or, to_u32, u32, i32}
use karudeb.MlDsa.Params.{q}

unfoldable pub mldsa_rej_uniform : ℕ → List ℕ → List ℤ
mldsa_rej_uniform room (b0 ∷ b1 ∷ b2 ∷ buf) =
    let t = bit_and (bit_or (bit_or b0 (b1 << 8)) (b2 << 16)) 0x7fffff in
    let out = if ltb t q then pos t ∷ [] else [] in
    if room == 0 then [] else out ++ mldsa_rej_uniform (room - length out) buf
mldsa_rej_uniform room buf = []

-- What `rej_eta_2` writes for a number below 15: the arithmetic is that of uint32_t.
unfoldable pub eta_2_value : ℕ → ℤ
eta_2_value t =
    let t' = to_u32 (pos t -ℤ pos (u32 ((u32 (205 * t) >> 10) * 5))) in
    i32 (pos (to_u32 (pos 2 -ℤ pos t')))

unfoldable pub eta_4_value : ℕ → ℤ
eta_4_value t = i32 (pos (to_u32 (pos 4 -ℤ pos t)))

-- The loop of both: a number is taken below the bound. The room is read before each of the two.
unfoldable pub rej_nibbles : ℕ → (ℕ → ℤ) → ℕ → List ℕ → List ℤ
rej_nibbles bound value room [] = []
rej_nibbles bound value room (b ∷ buf) =
    let t0 = bit_and b 0x0f in
    let t1 = b >> 4 in
    let out0 = if ltb t0 bound then value t0 ∷ [] else [] in
    let room1 = room - length out0 in
    let out1 = if ltb t1 bound && ltb 0 room1 then value t1 ∷ [] else [] in
    if room == 0 then [] else out0 ++ (out1 ++ rej_nibbles bound value (room1 - length out1) buf)

unfoldable pub rej_eta_2 : ℕ → List ℕ → List ℤ
rej_eta_2 room buf = rej_nibbles 15 eta_2_value room buf

unfoldable pub rej_eta_4 : ℕ → List ℕ → List ℤ
rej_eta_4 room buf = rej_nibbles 9 eta_4_value room buf
