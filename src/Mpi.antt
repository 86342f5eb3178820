-- ===== src/Mpi.antt =====
-- alsfvm/include/alsfvm/mpi, alsfvm/src/mpi and alsfvm/src/mpi/domain: the decomposition of a grid
-- over a Cartesian arrangement of processes, and the exchange of cells between neighbours.
pub mod Cartesian
pub mod Ranks
pub mod Positions
pub mod Displacements
pub mod Segments
pub mod Decomposition
pub mod Exchange
