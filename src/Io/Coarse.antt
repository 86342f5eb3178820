-- ===== src/Io/Coarse.antt =====
-- alsfvm/src/io/CoarseGrainingIntervalWriter.cpp and TimeIntegratedWriter.cpp.
use alsvinn.Base.{
  ℕ, suc, ltb, ◌==◌, Bool, true, false, ◌&&◌, not, if◌then◌else◌, Result, ok, ◌>>=◌, Option, some,
  none, or_undefined,
}
use alsvinn.Base.Int.{ℤ, pos, ◌+ℤ◌, ◌-ℤ◌, eqb_ℤ}
use alsvinn.Base.Real.{Real, num, fmin}
use alsvinn.Grid.{Grid}
use alsvinn.Volume.{
  Volume, make_instance, make_zero_volume, add_linear_combination_volume, scale_volume,
}
use alsvinn.Integrator.{TimestepInformation}
use alsvinn.Simulator.{Writer}

-- Around each save time the writer saves at smaller distances as well.
pub record CoarseGrainingIntervalWriter (R W : Type 0) : Type 0 where
  pub time_interval : R
  pub number_of_coarse_saves : ℤ
  pub number_of_skips : ℤ
  pub number_saved : ℕ
  pub number_small_saved : ℤ
  pub first : Bool
  pub dx : R
  pub inner : W

-- The writer of the integral of the volumes over a window of time
pub record TimeIntegratedWriter (R W : Type 0) : Type 0 where
  pub time : R
  pub time_radius : R
  pub integrated : Option (Volume R)
  pub last_time : R
  pub written : Bool
  pub inner : W

module _ {R W : Type 0} ⦃r : Real R⦄ where
  unfoldable pub coarse_save_time : CoarseGrainingIntervalWriter R W → R
  unfolding ◌+ℤ◌
  coarse_save_time w =
      r.add (r.mul (num w.number_saved) w.time_interval)
        (r.mul (r.mul (r.of_int (w.number_of_skips +ℤ pos 1)) w.dx) (r.of_int w.number_small_saved))

  -- The counters after the test of the time
  unfoldable pub advance_counters :
      CoarseGrainingIntervalWriter R W → CoarseGrainingIntervalWriter R W
  unfolding ◌+ℤ◌ ◌-ℤ◌
  advance_counters w =
      let low = pos 0 -ℤ w.number_of_coarse_saves in
      let saved = if w.number_saved == 0 then 1 else w.number_saved in
      let small = if w.first then low else w.number_small_saved in
      if eqb_ℤ small (w.number_of_coarse_saves +ℤ pos 1)
      then record w { number_saved = suc saved; number_small_saved = low; first = false }
      else record w { number_saved = saved; number_small_saved = small; first = false }

  unfoldable pub coarse_write :
      Writer R W
      → Volume R
      → Grid R
      → TimestepInformation R
      → CoarseGrainingIntervalWriter R W
      → Result (CoarseGrainingIntervalWriter R W)
  unfolding coarse_save_time advance_counters ◌+ℤ◌
  coarse_write inner_write v g t w0 =
      let w = record w0 { dx = g.cell_lengths.x } in
      if r.le (coarse_save_time w) t.current_time
      then (inner_write v g t w.inner >>= λ inner. ok (
          advance_counters
            (record w { inner = inner; number_small_saved = w.number_small_saved +ℤ pos 1 })))
      else ok (advance_counters w)

  unfoldable pub coarse_adjust_timestep :
      CoarseGrainingIntervalWriter R W → R → TimestepInformation R → R
  unfolding coarse_save_time fmin
  coarse_adjust_timestep w dt t =
      if ltb 0 w.number_saved then fmin dt (r.sub (coarse_save_time w) t.current_time) else dt

  -- The volume that the integral is collected in, which is made on the first write in the window
  unfoldable pub integrate :
      Volume R
      → TimestepInformation R
      → TimeIntegratedWriter R W
      → Result (TimeIntegratedWriter R W)
  unfolding make_instance make_zero_volume add_linear_combination_volume
  integrate v t w =
      let sum : Volume R = elim w.integrated [
        | none ↦ make_zero_volume (make_instance v)
        | some s ↦ s
      ] in
      add_linear_combination_volume sum (num 1) (r.sub t.current_time w.last_time) v (num 0) v
        (num 0) v (num 0) v
      >>= λ s. ok record w { integrated = some s }

  unfoldable pub write_integral :
      Writer R W
      → Grid R
      → TimestepInformation R
      → TimeIntegratedWriter R W
      → Result (TimeIntegratedWriter R W)
  unfolding scale_volume
  write_integral inner_write g t w =
      if not w.written && r.le (r.add w.time w.time_radius) t.current_time
      then (or_undefined w.integrated >>= λ s.
          let scaled = scale_volume s (r.div (r.div (num 1) (num 2)) w.time_radius) in
          inner_write scaled g record { current_time = w.time; number_of_steps_performed = 0 }
            w.inner
          >>= λ inner. ok record w { integrated = some scaled; written = true; inner = inner })
      else ok w

  unfoldable pub time_integrated_write :
      Writer R W
      → Volume R
      → Grid R
      → TimestepInformation R
      → TimeIntegratedWriter R W
      → Result (TimeIntegratedWriter R W)
  unfolding integrate write_integral
  time_integrated_write inner_write v g t w =
      (if r.lt (r.abs (r.sub t.current_time w.time)) w.time_radius then integrate v t w else ok w)
      >>= λ w1.
          write_integral inner_write g t w1 >>= λ w2. ok record w2 { last_time = t.current_time }
