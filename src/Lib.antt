-- ===== src/Lib.antt =====
-- Verification of alsvinn, a simulator of hyperbolic conservation laws on structured grids, which runs
-- on many processes (alsfvm) and over ensembles of samples (alsuq).
--
-- The parts and their files:
--   Base: names that all modules share; ℤ for the C++ `int` and `long` (unbounded), an interface for
--     the floating point numbers, and results of code that may throw.
--   Memory: alsfvm/src/memory/HostMemory.cpp and alsfvm/include/alsfvm/memory/View.hpp. A block of
--     values is a list, and a cell is at z * nx * ny + y * nx + x, computed modulo 2 ^ 64.
--   Vec: alsutils/include/alsutils/vec3.hpp and vec6.hpp.
--   Grid: alsfvm/src/grid/Grid.cpp.
--   Volume: alsfvm/src/volume/Volume.cpp and alsfvm/include/alsfvm/volume/volume_foreach.hpp. A volume
--     has a block of memory for each variable.
--   Boundary: alsfvm/src/boundary/BoundaryCPU.cpp with Neumann.hpp and Periodic.hpp, which fill the ghost
--     cells of a volume. The coordinates are of type `size_t` and wrap round as in the source. Outside is
--     alsfvm/include/alsfvm/boundary/ValueAtBoundary.hpp.
--   Mpi: Cartesian, Ranks, Positions and Segments (alsfvm/include/alsfvm/mpi/cartesian), Decomposition
--     (alsfvm/src/mpi/domain/CartesianDecomposition.cpp), and Exchange
--     (alsfvm/src/mpi/CartesianCellExchanger.cpp), whose requests are values of a list. Layers says
--     which cells a datatype covers.
--   Views: alsfvm/include/alsfvm/equation/*/Views.hpp. The variables of a volume are read and written as
--     one struct for each cell.
--   Boxes: loops over `int` coordinates.
--   Numflux: alsfvm/src/numflux/NumericalFluxCPU.cpp and numflux_util.hpp, with an interface that a
--     system uses and one that a reconstruction fills. The scalar equations and their fluxes are in
--     Numflux/Scalar, and the Euler equations in three dimensions in Numflux/Euler
--     (alsfvm/include/alsfvm/equation/euler/Euler.hpp) with the HLL flux. The square root and the
--     logarithm are arguments.
--   Reconstruction: alsfvm/src/reconstruction, NoReconstruction.cpp, ReconstructionCPU.cpp, ENOCPU.cpp and
--     WENOCPU.cpp. The arrays of ENOCPU are passed in and out.
--   Integrator: alsfvm/src/integrator, the time step and one substep of each of the four methods.
--   Simulator: alsfvm/src/simulator/Simulator.cpp, which calls an integrator, a boundary, the check of the
--     constraints and the writers in turn, and ConservedSystem.cpp, which computes the numerical flux
--     while the ghost cells are exchanged: the central sweep reads a volume that agrees with the exchanged
--     one on the inner cells.
--   Io: writers of alsfvm/src/io that decide when another writer is called.
--   Uq: alsuq/src/mpi/SimpleLoadBalancer.cpp, which deals the samples out to the processes, Runner
--     (alsuq/src/run/Runner.cpp) and Statistics (alsuq/src/stats), with the reduction of the sums over the
--     processes and the structure functions of StructureBasic.cpp. `MPI_Reduce` is a parameter. Generator
--     (alsuq/src/generator/STLMersenne.cpp) and Samples (alsuq/src/samples, alsuq/src/distribution) are the
--     random parameters of the samples; the runner passes the state of the generator on.
--   Tests: the theorems at concrete inputs.
--
-- Loops are structural recursion on the number of rounds, so no fuel is needed, but for the loop that makes
-- a position positive, whose rounds suffice where they are more than the steps below zero, and the steps of a
-- simulation, which go on until its end time: the rounds suffice where they are as many as the units of
-- time that are left, and each time step is at least one unit. An object that the
-- source changes through a pointer is passed in and out; where two pointers may meet (the queue of
-- volumes), the model keeps the indices of the shared objects.
--
-- Parameters of the model are MPI (the rank of a process in a communicator that MPI_Comm_split makes),
-- the build option for CUDA, the floating point operations (laws of their order are named hypotheses,
-- which the integers satisfy), and the virtual interfaces of a simulation (the system, the adjusters,
-- the boundary, the cell computer and the writers) and of a run (the generator of samples, the creator of
-- simulators and the statistics), the engine of random numbers (`discard` and a draw, with what the C++
-- library says of them), the equation and the flux between two cells, and the diffusion.
--
-- Not modelled: code for graphics processors, files in HDF5 and NetCDF, the set-up from XML and Python,
-- the eigenvectors and the other fluxes of the Euler equations, diffusion, the other
-- statistics of an ensemble, random numbers from loaded libraries, and the interpolation between volumes of
-- different sizes.
pub mod Base
pub mod Memory
pub mod Vec
pub mod Boxes
pub mod Views
pub mod Numflux
pub mod Reconstruction
pub mod Grid
pub mod Volume
pub mod Boundary
pub mod Mpi
pub mod Integrator
pub mod Simulator
pub mod Io
pub mod Uq
pub mod Tests
