-- ===== src/Transform.antt =====
-- Polynomials and number-theoretic transforms in general, for both directories of tools/pqc.
pub mod Evaluate
pub mod Layers
pub mod Forward
pub mod Inverse
pub mod Roots
pub mod Product
pub mod Unique
pub mod Parity
pub mod Table
pub mod Determined
