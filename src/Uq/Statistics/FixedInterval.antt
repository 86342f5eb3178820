-- ===== src/Uq/Statistics/FixedInterval.antt =====
-- alsuq/src/stats/FixedIntervalStatistics.cpp: the inner statistics are computed when the next save time is
-- reached, and the count of saves starts anew with a sample at time 0. `W` is the state of the inner
-- statistics.
use alsvinn.Base.{ℕ, suc, ltb, Bool, if◌then◌else◌, Result, ok, ◌>>=◌}
use alsvinn.Base.Int.{pos}
use alsvinn.Base.Real.{Real, num, fmin}
use alsvinn.Grid.{Grid}
use alsvinn.Volume.{Volume}
use alsvinn.Integrator.{TimestepInformation}
use alsvinn.Simulator.{Writer}

pub record FixedIntervalStatistics (R W : Type 0) : Type 0 where
  pub time_interval : R
  pub write_initial_timestep : Bool
  pub number_saved : ℕ
  pub statistics : W

-- `size_t(!writeInitialTimestep)`
unfoldable pub first_save : Bool → ℕ
first_save write_initial_timestep = if write_initial_timestep then 0 else 1

module _ {R W : Type 0} ⦃r : Real R⦄ where
  unfoldable pub make_fixed_interval_statistics : W → R → Bool → FixedIntervalStatistics R W
  unfolding first_save
  make_fixed_interval_statistics statistics interval write_initial_timestep = record {
    time_interval = interval;
    write_initial_timestep = write_initial_timestep;
    number_saved = first_save write_initial_timestep;
    statistics = statistics;
  }

  -- `numberSaved * timeInterval`
  unfoldable pub next_save_time : FixedIntervalStatistics R W → R
  next_save_time f = r.mul (num f.number_saved) f.time_interval

  unfoldable pub adjust_timestep : FixedIntervalStatistics R W → R → TimestepInformation R → R
  unfolding next_save_time fmin
  adjust_timestep f dt t =
      if ltb 0 f.number_saved then fmin dt (r.sub (next_save_time f) t.current_time) else dt

  -- `if (currentTime == 0)`: a new sample has started.
  unfoldable pub restart : R → FixedIntervalStatistics R W → FixedIntervalStatistics R W
  unfolding first_save
  restart time f =
      if r.beq time (r.of_int (pos 0))
      then (record f { number_saved = first_save f.write_initial_timestep })
      else f

  unfoldable pub compute_if_due :
      Writer R W
      → Volume R
      → Grid R
      → TimestepInformation R
      → FixedIntervalStatistics R W
      → Result (FixedIntervalStatistics R W)
  unfolding next_save_time
  compute_if_due compute v g t f =
      if r.le (next_save_time f) t.current_time
      then (compute v g t f.statistics >>= λ statistics.
          ok record f { statistics = statistics; number_saved = suc f.number_saved })
      else ok f

  -- `computeStatistics`
  unfoldable pub compute_statistics :
      Writer R W
      → Volume R
      → Grid R
      → TimestepInformation R
      → FixedIntervalStatistics R W
      → Result (FixedIntervalStatistics R W)
  unfolding restart compute_if_due
  compute_statistics compute v g t f = compute_if_due compute v g t (restart t.current_time f)
