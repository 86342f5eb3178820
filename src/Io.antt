-- ===== src/Io.antt =====
-- alsfvm/src/io: writers that pass a write on to another writer at some of the time steps.
pub mod FixedInterval
pub mod Coarse
pub mod Queue
