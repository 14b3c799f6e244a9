-- ===== src/MlKem.antt =====
-- ML-KEM: the scalar code of tools/pqc/mlkem, one module for each of its files.
pub mod Reduce
pub mod Verify
pub mod Params
pub mod Poly
pub mod Cbd
pub mod Ntt
pub mod Polyvec
pub mod Symmetric
pub mod Hashes
pub mod Sample
pub mod Kpke
pub mod Kem
mod Examples
