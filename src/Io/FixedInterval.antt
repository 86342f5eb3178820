-- ===== src/Io/FixedInterval.antt =====
-- alsfvm/src/io/FixedIntervalWriter.cpp: a write is passed on when the next save time is reached, and
-- the time step is cut so that it does not pass the next save time. `W` is the state of the inner
-- writer.
pub mod Schedule
use alsvinn.Base.{
  ℕ, zero, suc, ltb, List, [], ◌∷◌, Bool, true, false, if◌then◌else◌, Result, ok, ◌>>=◌,
}
use alsvinn.Base.Real.{Real, num, fmin}
use alsvinn.Grid.{Grid}
use alsvinn.Volume.{Volume}
use alsvinn.Integrator.{TimestepInformation}
use alsvinn.Simulator.{Writer}

pub record FixedIntervalWriter (R W : Type 0) : Type 0 where
  pub time_interval : R
  pub number_saved : ℕ
  pub start_time : R
  pub inner : W

module _ {R W : Type 0} ⦃r : Real R⦄ where
  unfoldable pub make_fixed_interval_writer : W → R → Bool → R → FixedIntervalWriter R W
  make_fixed_interval_writer inner interval write_initial_timestep start = record {
    time_interval = interval;
    number_saved = if write_initial_timestep then 0 else 1;
    start_time = start;
    inner = inner;
  }

  -- `numberSaved * timeInterval + startTime`
  unfoldable pub next_save_time : FixedIntervalWriter R W → R
  next_save_time w = r.add (r.mul (num w.number_saved) w.time_interval) w.start_time

  unfoldable pub write :
      Writer R W
      → Volume R
      → Grid R
      → TimestepInformation R
      → FixedIntervalWriter R W
      → Result (FixedIntervalWriter R W)
  unfolding next_save_time
  write inner_write v g t w =
      if r.le (next_save_time w) t.current_time
      then (inner_write v g t w.inner >>= λ inner.
          ok record w { inner = inner; number_saved = suc w.number_saved })
      else ok w

  unfoldable pub adjust_timestep : FixedIntervalWriter R W → R → TimestepInformation R → R
  unfolding next_save_time fmin
  adjust_timestep w dt t =
      if ltb 0 w.number_saved then fmin dt (r.sub (next_save_time w) t.current_time) else dt
