-- ===== src/Tests.antt =====
-- The theorems of the library at concrete inputs.
pub mod Processes
pub mod Cells
pub mod Runs
pub mod Row
mod Fluxes
mod Systems
mod Reconstructions
mod Scalar
mod Euler
mod Ensemble
mod Random
mod Structures
mod Stencils
