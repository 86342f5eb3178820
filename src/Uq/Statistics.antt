-- ===== src/Uq/Statistics.antt =====
-- alsuq/src/stats: StatisticsHelper.cpp, StatisticsSnapshot.cpp, MeanVariance.cpp and OnePointMoment.cpp:
-- sums over the samples, one for each time and each name.
pub mod Stored
pub mod Sums
pub mod FixedInterval
pub mod Combine
pub mod Structure
use Prim.Native.String.{String}
use text.Mathlib.Text.{◌==◌ as str_eq}
use alsvinn.Base.{
  ℕ, zero, suc, List, [], ◌∷◌, map, Bool, true, false, not, ◌&&◌, ltb, if◌then◌else◌, Option, none,
  some, Result, ok, err, undefined, ◌>>=◌, or_undefined, try_each,
}
use alsvinn.Base.Int.{ℤ, pos, eqb_ℤ}
use alsvinn.Base.Real.{Real, num, fmin}
use alsvinn.Grid.{Grid}
use alsvinn.Memory.{Memory, copy_from, div_scalar, make_memory}
use alsvinn.Volume.{
  Volume, make_instance, make_zero_volume, add_volume, add_power_volume, subtract_power_volume,
}
use alsvinn.Integrator.{TimestepInformation}

pub record StatisticsSnapshot (R : Type 0) : Type 0 where
  pub timestep_information : TimestepInformation R
  pub volume : Volume R

-- A `std::map`, as a list of keys and values in the order in which the keys came, where the source goes
-- through them in the order of the keys; a key is found by a test.
module _ {K V : Type 0} where
  unfoldable pub map_find : (K → Bool) → List (K × V) → Option V
  map_find is_key [] = none
  map_find is_key ((k, v) ∷ rest) = if is_key k then some v else map_find is_key rest

  -- `map[key] = value`
  unfoldable pub map_set : (K → Bool) → K → V → List (K × V) → List (K × V)
  map_set is_key key value [] = (key, value) ∷ []
  map_set is_key key value ((k, v) ∷ rest) =
      let rest' = map_set is_key key value rest in
      if is_key k then (k, value) ∷ rest else (k, v) ∷ rest'

abbrev pub Snapshots : Type 0 → Type 0
Snapshots R = List (R × List (String × StatisticsSnapshot R))

module _ {R : Type 0} ⦃r : Real R⦄ where
  -- Two keys of a `std::map<real, ...>` are the same key.
  unfoldable pub same_time : R → R → Bool
  same_time t t' = not (r.lt t t') && not (r.lt t' t)

  unfoldable pub at_time : Snapshots R → R → List (String × StatisticsSnapshot R)
  unfolding map_find same_time
  at_time s t = or_empty (map_find (same_time t) s)
    where
      or_empty :
          Option (List (String × StatisticsSnapshot R)) → List (String × StatisticsSnapshot R)
      or_empty none = []
      or_empty (some m) = m

  -- `snapshots[time][name]`, where it is there, and its assignment
  unfoldable pub get_snapshot : Snapshots R → R → String → Option (StatisticsSnapshot R)
  unfolding map_find at_time
  get_snapshot s t name = map_find (str_eq name) (at_time s t)

  unfoldable pub set_snapshot : Snapshots R → R → String → StatisticsSnapshot R → Snapshots R
  unfolding map_set at_time same_time
  set_snapshot s t name snapshot =
      map_set (same_time t) t (map_set (str_eq name) name snapshot (at_time s t)) s

  -- `findOrCreateSnapshot` for volumes of the size of the conserved variables: the snapshots with the
  -- wanted one among them
  unfoldable pub find_or_create_snapshot :
      String → TimestepInformation R → Volume R → Snapshots R → Snapshots R
  unfolding get_snapshot set_snapshot make_instance make_zero_volume
  find_or_create_snapshot name t conserved s = create (get_snapshot s t.current_time name)
    where
      create : Option (StatisticsSnapshot R) → Snapshots R
      create (some snapshot) = s
      create none =
          set_snapshot s t.current_time name (record {
            timestep_information = t;
            volume = make_zero_volume (make_instance conserved);
          })

  -- `*snapshot.getVolumes().getConservedVolume() op= ...`
  unfoldable pub change_volume :
      String → R → (Volume R → Result (Volume R)) → Snapshots R → Result (Snapshots R)
  unfolding get_snapshot set_snapshot
  change_volume name t op s = do
    snapshot ← or_undefined (get_snapshot s t name)
    volume ← op snapshot.volume
    ok (set_snapshot s t name (record snapshot { volume = volume }))

  -- `MeanVariance::computeStatistics`
  unfoldable pub compute_mean_variance :
      TimestepInformation R → Volume R → Snapshots R → Result (Snapshots R)
  unfolding find_or_create_snapshot change_volume add_volume add_power_volume
  compute_mean_variance t conserved s =
      change_volume "mean" t.current_time (λ mean. add_volume mean conserved)
        (find_or_create_snapshot "variance" t conserved
          (find_or_create_snapshot "mean" t conserved s))
      >>= change_volume "variance" t.current_time
          (λ variance. add_power_volume variance conserved (num 2))

  -- `OnePointMoment::computeStatistics`, for the name "m" + std::to_string(p)
  unfoldable pub compute_moment :
      String → ℕ → TimestepInformation R → Volume R → Snapshots R → Result (Snapshots R)
  unfolding find_or_create_snapshot change_volume add_power_volume
  compute_moment name p t conserved s =
      change_volume name t.current_time (λ m. add_power_volume m conserved (num p))
        (find_or_create_snapshot name t conserved s)

  -- `MeanVariance::finalizeStatistics`
  finalize_names :
      List (String × StatisticsSnapshot R) → Result (List (String × StatisticsSnapshot R))
  unfolding map_find map_set subtract_power_volume
  finalize_names m = do
    moment ← or_undefined (map_find (str_eq "variance") m)
    mean ← or_undefined (map_find (str_eq "mean") m)
    volume ← subtract_power_volume moment.volume mean.volume (num 2)
    ok (map_set (str_eq "variance") "variance" (record moment { volume = volume }) m)

  unfoldable pub finalize_mean_variance : Snapshots R → Result (Snapshots R)
  unfolding finalize_names
  finalize_mean_variance [] = ok []
  finalize_mean_variance ((t, m) ∷ rest) = do
    m' ← finalize_names m
    rest' ← finalize_mean_variance rest
    ok ((t, m') ∷ rest')
