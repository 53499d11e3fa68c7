-- ===== src/Decision.antt =====
-- The decision policies (src/decision): the threshold on a coalition's value, and the one that compares
-- the magnitudes of coalitions.
pub mod Magnitude
pub mod Threshold
