-- ===== src/Uq.antt =====
-- alsuq: the distribution of the samples of an ensemble over groups of processes.
pub mod Generator
pub mod LoadBalancer
pub mod Runner
pub mod Samples
pub mod Statistics
