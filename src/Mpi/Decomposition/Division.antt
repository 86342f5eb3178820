-- ===== src/Mpi/Decomposition/Division.antt =====
-- The check that the processes divide the cells (alsfvm/src/mpi/domain/CartesianDecomposition.cpp).
use alsvinn.Base.{
  ℕ, zero, suc, ◌%◌, ◌≤◌, ◌<◌, ◌≡◌, ◌≢◌, arith, ok, err, try_range, uneven_decomposition,
}
use alsvinn.Base.Int.{◌%ℤ◌, pos}
use alsvinn.Vec.{Vec3, comp, map3}
use alsvinn.Mpi.Decomposition.{check_divisible}

-- At least one process in each direction
abbrev pub HasProcesses : Vec3 ℕ → Type 0
HasProcesses n = (1 ≤ n.x) × (1 ≤ n.y) × (1 ≤ n.z)

-- The first axis that the processes do not divide.
module _ (d n : Vec3 ℕ) where
  pub check_divisible-ok :
      HasProcesses n
      → (comp d 0 % comp n 0 ≡ 0)
      → (comp d 1 % comp n 1 ≡ 0)
      → (comp d 2 % comp n 2 ≡ 0)
      → check_divisible (map3 pos d) (map3 pos n) ≡ ok tt
  unfolding check_divisible try_range ◌%ℤ◌
  check_divisible-ok (px, py, pz) a b c = ground arith

  pub check_divisible-err :
      HasProcesses n
      → (i : ℕ) → i < 3
      → comp d i % comp n i ≢ 0
      → ((j : ℕ) → j < i → comp d j % comp n j ≡ 0)
      → check_divisible (map3 pos d) (map3 pos n) ≡ err (uneven_decomposition i)
  unfolding check_divisible try_range ◌%ℤ◌
  check_divisible-err (px, py, pz) zero h bad good = ground arith
  check_divisible-err (px, py, pz) (suc zero) h bad good = ground (arith, good 0 (omega arith))
  check_divisible-err (px, py, pz) (suc (suc zero)) h bad good =
      ground (arith, good 0 (omega arith), good 1 (omega arith))
  check_divisible-err (px, py, pz) (suc (suc (suc i))) h bad good = absurd (omega arith)
