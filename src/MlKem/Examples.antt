-- ===== src/MlKem/Examples.antt =====
-- Tests of the ML-KEM code on inputs that can be followed by hand, and the theorems at such inputs.
mod Transforms
mod Arithmetic
mod Coding
mod Scheme
