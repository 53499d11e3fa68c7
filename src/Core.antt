-- ===== src/Core.antt =====
-- What the tasks of src/core share: the draining of a channel after a cancel.
pub mod Drain
