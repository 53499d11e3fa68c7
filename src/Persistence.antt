-- ===== src/Persistence.antt =====
-- The persistence layer (src/persistence): the record envelope, the frames and their hash chain, the
-- segmented file store with its recovery, the wire forms of events and decisions, and replay.
pub mod Envelope
pub mod Errors
pub mod Wire
pub mod Chain
pub mod Framing
pub mod Store
pub mod Forwarding
pub mod Replay
