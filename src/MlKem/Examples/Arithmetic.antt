-- ===== src/MlKem/Examples/Arithmetic.antt =====
-- reduce.h, verify.c.
use karudeb.Base.{ℕ, ◌+◌, ◌*◌, ◌^◌, ◌≤◌, ◌≡◌, refl, arith, ◌≢◌}
use karudeb.Base.{
  pos, negsuc, pos_part, neg_part, ◌+ℤ◌, ◌-ℤ◌, ◌*ℤ◌, residue, div, Congruent, Within,
}
use karudeb.Base.{◌⊎◌, i16, List, [], ◌∷◌, take}
use karudeb.MlKem.Reduce.{q, montgomery_reduce, barrett_reduce}
use karudeb.MlKem.Reduce.Montgomery.{montgomery_reduce_lem}
use karudeb.MlKem.Reduce.Barrett.{barrett_reduce_lem}
use karudeb.MlKem.Verify.{verify, cmov}
use karudeb.MlKem.Verify.Compare.{verify_lem}
use karudeb.MlKem.Verify.Move.{cmov_lem}

-- 2^16 in Montgomery form is 1.
montgomery_one : montgomery_reduce (pos 65536) ≡ pos 1
unfolding montgomery_reduce i16 residue div ◌-ℤ◌ ◌*ℤ◌
montgomery_one = refl

-- The product q t wraps here, and the result is right.
barrett_wraps : barrett_reduce (pos 32767) ≡ negsuc 522
unfolding barrett_reduce i16 residue div ◌-ℤ◌ ◌*ℤ◌ ◌+ℤ◌
barrett_wraps = refl

montgomery_reduce_example :
    Congruent q (montgomery_reduce (pos 1000000) *ℤ pos (2 ^ 16)) (pos 1000000)
    × (2 ^ 16 * pos_part (montgomery_reduce (pos 1000000)) ≤ 1000000 + 2 ^ 15 * q)
    × (2 ^ 16 * neg_part (montgomery_reduce (pos 1000000)) ≤ 0 + 2 ^ 15 * q)
montgomery_reduce_example = montgomery_reduce_lem (pos 1000000) (omega arith, omega arith)

barrett_reduce_example :
    Congruent q (barrett_reduce (pos 32767)) (pos 32767) × Within 1664 (barrett_reduce (pos 32767))
barrett_reduce_example = barrett_reduce_lem (pos 32767) (omega arith) (omega arith)

abbrev stored : List ℕ
stored = 7 ∷ 200 ∷ 31 ∷ []

abbrev sent : List ℕ
sent = 7 ∷ 201 ∷ 31 ∷ []

verify_example :
    ((take 3 stored ≡ take 3 sent) × (verify stored sent 3 ≡ 0))
    ⊎ ((take 3 stored ≢ take 3 sent) × (verify stored sent 3 ≡ 1))
verify_example = verify_lem stored sent 3 (omega arith) (omega arith) (omega arith) (omega arith)

cmov_example : (cmov stored sent 2 0 ≡ stored) × (cmov stored sent 2 1 ≡ 7 ∷ 201 ∷ 31 ∷ [])
cmov_example = cmov_lem stored sent 2 (omega arith) (omega arith) (omega arith) (omega arith)
