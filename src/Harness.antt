-- ===== src/Harness.antt =====
-- The battery harness (src/harness): the draws that its instances are made of.
pub mod Rng
