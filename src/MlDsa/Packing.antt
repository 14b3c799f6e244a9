-- ===== src/MlDsa/Packing.antt =====
-- The bit packings of tools/pqc/mldsa/mldsa_poly.c: the secret vectors, the two parts of t, the
-- signature's z, and w1.
pub mod Joined
pub mod Eta
pub mod High
pub mod Low
pub mod Mask
pub mod Sizes
