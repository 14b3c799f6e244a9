-- ===== src/MlDsa.antt =====
-- ML-DSA: the scalar code of tools/pqc/mldsa, one module for each part of its files.
pub mod Params
pub mod Reduce
pub mod Rounding
pub mod Ntt
pub mod Packing
pub mod Reject
pub mod Poly
pub mod Vectors
pub mod Symmetric
pub mod Sample
pub mod Challenge
pub mod Expand
pub mod Keys
pub mod Signature
pub mod Scheme
mod Examples
