-- ===== src/MlDsa/Examples/Hints.antt =====
-- The theorems on hints at concrete inputs.
use karudeb.Base.{◌+◌, ◌<◌, ◌≡◌, arith, ℤ, pos, negsuc, pos_part, neg_part, ◌+ℤ◌, ◌-ℤ◌, ◌*ℤ◌}
use karudeb.Base.{residue, div, i32, and_mask}
use karudeb.MlDsa.Params.{q}
use karudeb.MlDsa.Rounding.{
  decompose_32, decompose_88, low_bits, make_hint, use_hint_32, use_hint_88,
}
use karudeb.MlDsa.Rounding.Hints.{use-make_hint_32}
use karudeb.MlDsa.Rounding.Hints.Narrow.{use-make_hint_88}

abbrev shift : ℤ
shift = negsuc 299999

within_32 :
    pos_part ((decompose_32 (pos 8000000)).1 +ℤ shift)
      + neg_part ((decompose_32 (pos 8000000)).1 +ℤ shift)
    < 523776
unfolding decompose_32 low_bits ◌+ℤ◌ ◌-ℤ◌ ◌*ℤ◌ and_mask residue div i32
within_32 = omega arith

use-make_hint_32_example :
    let (r1, r0) = decompose_32 (pos 8000000) in
    use_hint_32 (pos (residue (pos 8000000 +ℤ shift) q)) (make_hint (r0 +ℤ shift) r1 261888) ≡ r1
use-make_hint_32_example = use-make_hint_32 8000000 shift (omega arith) within_32

within_88 :
    pos_part ((decompose_88 (pos 100)).1 +ℤ pos 100000)
      + neg_part ((decompose_88 (pos 100)).1 +ℤ pos 100000)
    < 190464
unfolding decompose_88 low_bits ◌+ℤ◌ ◌-ℤ◌ ◌*ℤ◌ and_mask residue div i32
within_88 = omega arith

use-make_hint_88_example :
    let (r1, r0) = decompose_88 (pos 100) in
    use_hint_88 (pos (residue (pos 100 +ℤ pos 100000) q)) (make_hint (r0 +ℤ pos 100000) r1 95232)
    ≡ r1
use-make_hint_88_example = use-make_hint_88 100 (pos 100000) (omega arith) within_88
