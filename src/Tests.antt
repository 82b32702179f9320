-- ===== src/Tests.antt =====
-- Concrete inputs at which the theorems apply: a field with two elements, and small codecs over it.
pub mod Gf2
pub mod Samples
pub mod Mirror
pub mod Recovered
pub mod Refused
pub mod Witnesses
