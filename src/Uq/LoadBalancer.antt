-- ===== src/Uq/LoadBalancer.antt =====
-- alsuq/src/mpi/SimpleLoadBalancer.cpp: the samples of one process.
pub mod Chunks
use alsvinn.Base.{
  ℕ, zero, suc, ◌+◌, ◌*◌, ◌/◌, ◌%◌, List, [], ◌∷◌, ◌++◌, Bool, true, false, ◌==◌, length, get_elem?,
  Result, ok, err, ◌>>=◌, ◌>>◌, guard, Option, some, none, or_undefined, processors_mismatch,
  samples_not_divisible, balancing_failed, leb, not, if◌then◌else◌,
}
use alsvinn.Vec.{Vec3, vec3}

-- What `makeSubConfiguration` is called with: the colour and the key of the process.
pub record SubConfiguration : Type 0 where
  pub colour : ℕ
  pub key : ℕ

pub record Balance : Type 0 where
  pub samples : List ℕ
  pub statistical : SubConfiguration
  pub spatial : SubConfiguration

-- The loop that collects `rounds` samples from the `i`-th on
unfoldable pub collect : List ℕ → ℕ → ℕ → Result (List ℕ)
collect samples zero i = ok []
collect samples (suc rounds) i =
    let rest = collect samples rounds (suc i) in
    guard (not (leb (length samples) i)) balancing_failed
    >> (or_undefined (get_elem? samples i) >>= λ a. rest >>= λ more. ok (a ∷ more))

-- `sub_rank` is the rank of a process in the communicator that `MPI_Comm_split` makes for its colour
-- and key. The processor numbers are not negative.
unfoldable pub load_balance : (SubConfiguration → ℕ) → List ℕ → ℕ → Vec3 ℕ → ℕ → ℕ → Result Balance
unfolding collect
load_balance sub_rank samples multi_sample spatial processes global_rank =
    let per_sample = spatial.x * spatial.y * spatial.z in
    let per_process = length samples / multi_sample in
    let statistical_rank = global_rank / per_sample in
    let spatial_rank = global_rank % per_sample in
    let statistical : SubConfiguration = record { colour = spatial_rank; key = statistical_rank } in
    guard (multi_sample * spatial.x * spatial.y * spatial.z == processes) processors_mismatch
    >> (guard (length samples % multi_sample == 0) samples_not_divisible
        >> (collect samples per_process (per_process * sub_rank statistical) >>= λ mine. ok record {
          samples = mine;
          statistical = statistical;
          spatial = record { colour = statistical_rank; key = spatial_rank };
        }))
