-- ===== src/Galois8.antt =====
-- The field GF(2^8): build.rs, which generates the tables, and src/galois_8.
pub mod Tables
pub mod Arith
pub mod Logs
pub mod Laws
pub mod Polynomial
pub mod Powers
pub mod Nibbles
pub mod Byte
