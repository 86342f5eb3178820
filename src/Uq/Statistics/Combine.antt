-- ===== src/Uq/Statistics/Combine.antt =====
-- `combineStatistics` of alsuq/src/stats/StatisticsHelper.cpp: the sums of the processes are added up on
-- process 0, and divided by the number of samples. Memory is on the host.
pub mod Calls
pub mod Ensemble
use Prim.Native.String.{String}
use alsvinn.Base.{
  ℕ, zero, suc, ◌+◌, ◌*◌, List, [], ◌∷◌, ◌++◌, if◌then◌else◌, length, Result, ok, ◌>>=◌,
}
use alsvinn.Base.Int.{ℤ, pos, eqb_ℤ}
use alsvinn.Base.Real.{Real, num}
use alsvinn.Memory.{Memory, make_memory, copy_from, div_scalar}
use alsvinn.Volume.{Volume}
use alsvinn.Uq.Statistics.{StatisticsSnapshot, Snapshots}

-- `MPI_Reduce` is a parameter: `receive k b` is what the receive buffer of this process holds after its
-- call `k`, where it held `b`. The buffers that the process sends are listed beside the new snapshots.
module _ {R : Type 0} ⦃r : Real R⦄ (rank : ℤ) (samples : ℕ) (receive : ℕ → List R → List R) where
  -- `makeInstance` and `MPI_Reduce` into it
  unfoldable pub data_reduced : ℕ → Memory R → Memory R
  unfolding make_memory
  data_reduced k m =
      let fresh = make_memory m.nx m.ny m.nz in record fresh { cells = receive k fresh.cells }

  unfoldable pub combine_area : ℕ → Memory R → Result (Memory R)
  unfolding data_reduced copy_from div_scalar
  combine_area k m = do
    m' ← if eqb_ℤ rank (pos 0) then copy_from m (data_reduced k m) else ok m
    ok (div_scalar m' (num samples))

  -- The loop over the variables of a volume, from the call `k` on
  unfoldable pub combine_areas : ℕ → List (Memory R) → Result (List (List R) × List (Memory R))
  unfolding combine_area
  combine_areas k [] = ok ([], [])
  combine_areas k (m ∷ ms) = do
    m' ← combine_area k m
    (sent, ms') ← combine_areas (suc k) ms
    ok (m.cells ∷ sent, m' ∷ ms')

  -- The loop over the names of a time. A snapshot has one volume.
  unfoldable pub combine_names :
      ℕ
      → List (String × StatisticsSnapshot R)
      → Result (List (List R) × List (String × StatisticsSnapshot R))
  unfolding combine_areas
  combine_names k [] = ok ([], [])
  combine_names k ((name, x) ∷ m) = do
    (sent, areas) ← combine_areas k x.volume.areas
    (sent', m') ← combine_names (k + length sent) m
    ok (sent ++ sent', (name, record x { volume = record x.volume { areas = areas } }) ∷ m')

  unfoldable pub combine_times : ℕ → Snapshots R → Result (List (List R) × Snapshots R)
  unfolding combine_names
  combine_times k [] = ok ([], [])
  combine_times k ((t, m) ∷ s) = do
    (sent, m') ← combine_names k m
    (sent', s') ← combine_times (k + length sent) s
    ok (sent ++ sent', (t, m') ∷ s')

  -- `combineStatistics`
  unfoldable pub combine_statistics : Snapshots R → Result (List (List R) × Snapshots R)
  unfolding combine_times
  combine_statistics s = combine_times 0 s
