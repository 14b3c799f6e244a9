-- ===== src/MlDsa/Signature.antt =====
-- The encoding of a signature in tools/pqc/mldsa/mldsa.c: c, z and the hints h.
pub mod Positions
pub mod Encode
pub mod Decode
pub mod Canonical
pub mod RoundTrip
use karudeb.Base.{ℕ, zero, suc, ◌+◌, ◌-◌, ◌*◌, ◌++◌, ◌==◌, ltb, leb, ◌&&◌, ◌||◌, if◌then◌else◌}
use karudeb.Base.{ℤ, List, [], ◌∷◌, take, drop, get_or, replicate, u8, Bool, true, false}
use karudeb.Base.{Option, none, some, ◌>>=◌}
use karudeb.MlDsa.Params.{MldsaParam, n}
use karudeb.MlDsa.Packing.Mask.{polyz_pack, polyz_unpack}
use karudeb.MlDsa.Challenge.{store}
use karudeb.MlDsa.Keys.{pack_each, unpack_each}

-- The loop over j of one polynomial: the array sig and the count k.
unfoldable pub encode_poly : List ℕ → ℕ → ℕ → List ℕ → List ℕ × ℕ
encode_poly sig k j [] = (sig, k)
encode_poly sig k j (c ∷ cs) =
    let next : List ℕ × ℕ = if c == 0 then (sig, k) else (store sig k (u8 j), k + 1) in
    encode_poly next.0 next.1 (j + 1) cs

-- The loop over i, on the par->omega + par->k last bytes of the signature.
unfoldable pub encode_polys : ℕ → List ℕ → ℕ → ℕ → List (List ℕ) → List ℕ
encode_polys omega_ sig k i [] = sig
encode_polys omega_ sig k i (p ∷ h) =
    let (sig', k') = encode_poly sig k 0 p in
    encode_polys omega_ (store sig' (omega_ + i) (u8 k')) k' (i + 1) h

unfoldable pub encode_hints : MldsaParam → List (List ℕ) → List ℕ
encode_hints par h = encode_polys par.omega_ (replicate (par.omega_ + par.k) 0) 0 0 h

unfoldable pub pack_sig : MldsaParam → List ℕ → List (List ℤ) → List (List ℕ) → List ℕ
pack_sig par c z h = take par.cp_sz c ++ (pack_each (polyz_pack par) z ++ encode_hints par h)

-- The loop from k to sig[par->omega + i] on the coefficients of one polynomial, with `left` rounds to go
-- from j on. A position that is not above the one before it is an error, `none`.
unfoldable pub decode_poly : List ℕ → ℕ → ℕ → ℕ → List ℕ → Option (List ℕ)
decode_poly sig k zero j p = some p
decode_poly sig k (suc left) j p =
    let rest = decode_poly sig k left (j + 1) (store p (get_or sig j 0) 1) in
    if ltb k j && leb (get_or sig j 0) (get_or sig (j - 1) 0) then none else rest

-- The loop over i, with `left` rounds to go: the hints and the last k.
unfoldable pub decode_polys : ℕ → List ℕ → ℕ → ℕ → ℕ → Option (List (List ℕ) × ℕ)
decode_polys omega_ sig k zero i = some ([], k)
decode_polys omega_ sig k (suc left) i =
    let limit = get_or sig (omega_ + i) 0 in
    let rest = (do
      p ← decode_poly sig k (limit - k) k (replicate n 0)
      more ← decode_polys omega_ sig limit left (i + 1)
      some (p ∷ more.0, more.1)) in
    if ltb limit k || ltb omega_ limit then none else rest

-- The last loop: whether one of the `left` bytes from j on is not zero.
unfoldable pub some_extra : List ℕ → ℕ → ℕ → Bool
some_extra sig zero j = false
some_extra sig (suc left) j = if get_or sig j 0 == 0 then some_extra sig left (j + 1) else true

unfoldable pub decode_hints : MldsaParam → List ℕ → Option (List (List ℕ))
decode_hints par sig = do
  decoded ← decode_polys par.omega_ sig 0 par.k 0
  if some_extra sig (par.omega_ - decoded.1) decoded.1 then none else some decoded.0

-- The parts of a signature, or `none` where the code returns 1.
unfoldable pub unpack_sig : MldsaParam → List ℕ → Option (List ℕ × List (List ℤ) × List (List ℕ))
unpack_sig par sig =
    let after_c = drop par.cp_sz sig in
    let after_z = drop (par.ell * par.pzp_sz) after_c in
    do
      h ← decode_hints par after_z
      some (take par.cp_sz sig, unpack_each (polyz_unpack par) par.pzp_sz par.ell after_c, h)
