-- ===== src/Keccak.antt =====
-- The hash functions of tools/pqc/mlkem and tools/pqc/mldsa, which hold the same files fips202.c and
-- keccak.c.
pub mod Permute
pub mod Sponge
pub mod Shake
mod Examples
