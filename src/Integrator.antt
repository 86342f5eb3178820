-- ===== src/Integrator.antt =====
-- alsfvm/src/integrator: Integrator.cpp, ForwardEuler.cpp, RungeKutta2.cpp, RungeKutta3.cpp and
-- RungeKutta4.cpp, and alsfvm/src/simulator/TimestepInformation.cpp. The system, the adjusters and the
-- boundary are virtual interfaces, and stand here as functions.
use alsvinn.Base.{
  ℕ, suc, List, [], ◌∷◌, ltb, ◌==◌, if◌then◌else◌, Result, ok, ◌>>=◌, or_undefined, get_elem?, set,
  for_range,
}
use alsvinn.Base.Int.{negsuc}
use alsvinn.Base.Real.{Real, num}
use alsvinn.Vec.{Vec3, comp}
use alsvinn.Volume.{Volume, add_volume, scale_volume, add_linear_combination_volume}

pub record TimestepInformation (R : Type 0) : Type 0 where
  pub current_time : R
  pub number_of_steps_performed : ℕ

-- What `operator()` of a `System` does to its input (whose ghost cells it may exchange) and its output,
-- and the wave speeds that it finds.
pub record SystemResult (R : Type 0) : Type 0 where
  pub input : Volume R
  pub output : Volume R
  pub wave_speeds : Vec3 R

abbrev pub System : Type 0 → Type 0
System R = Volume R → Volume R → Result (SystemResult R)

pub record Adjusters (R : Type 0) : Type 0 where
  pub timestep : List (R → TimestepInformation R → R)
  pub wave_speed : List (R → R)

pub data Method : Type 0 where
  forward_euler runge_kutta2 runge_kutta3 runge_kutta4 : Method

unfoldable pub get_number_of_substeps : Method → ℕ
get_number_of_substeps forward_euler = 1
get_number_of_substeps runge_kutta2 = 2
get_number_of_substeps runge_kutta3 = 3
get_number_of_substeps runge_kutta4 = 4

module _ {R : Type 0} ⦃r : Real R⦄ where
  unfoldable pub increment_time : TimestepInformation R → R → TimestepInformation R
  increment_time t dt = record {
    current_time = r.add t.current_time dt;
    number_of_steps_performed = suc t.number_of_steps_performed;
  }

  unfoldable pub adjust_timestep :
      List (R → TimestepInformation R → R) → R → TimestepInformation R → R
  adjust_timestep [] dt t = dt
  adjust_timestep (a ∷ as') dt t = adjust_timestep as' (a dt t) t

  unfoldable pub adjust_wave_speed : List (R → R) → R → R
  adjust_wave_speed [] speed = speed
  adjust_wave_speed (a ∷ as') speed = adjust_wave_speed as' (a speed)

  unfoldable pub compute_timestep : Adjusters R → Vec3 R → Vec3 R → R → TimestepInformation R → R
  unfolding adjust_timestep adjust_wave_speed for_range
  compute_timestep adjusters wave_speeds cell_lengths cfl t =
      let total =
        for_range 3 0
          (λ d sum.
            if r.beq (comp cell_lengths d) (num 0)
            then sum
            else r.add sum (
                r.div (adjust_wave_speed adjusters.wave_speed (comp wave_speeds d))
                  (comp cell_lengths d)))
          (num 0) in
      adjust_timestep adjusters.timestep (r.div cfl total) t

  ratio : ℕ → ℕ → R
  ratio a b = r.div (num a) (num b)

  -- What each method does with the output of the system in the given substep: `scale` is
  -- `cellScaling.x`, `volumes` are the results of the substeps so far.
  forward_euler_stage : R → List (Volume R) → Volume R → Result (Volume R)
  unfolding add_volume scale_volume
  forward_euler_stage scale volumes out = do
    first ← or_undefined (get_elem? volumes 0)
    add_volume (scale_volume out scale) first

  runge_kutta2_stage : R → List (Volume R) → ℕ → Volume R → Result (Volume R)
  unfolding add_volume scale_volume ratio
  runge_kutta2_stage scale volumes substep out = do
    first ← or_undefined (get_elem? volumes 0)
    last ← or_undefined (get_elem? volumes substep)
    sum ← add_volume (scale_volume out scale) last
    if substep == 1
        then (add_volume sum first >>= λ both. ok (scale_volume both (ratio 1 2)))
        else ok sum

  runge_kutta3_stage : R → List (Volume R) → ℕ → Volume R → Result (Volume R)
  unfolding add_volume scale_volume ratio
  runge_kutta3_stage scale volumes substep out = do
    first ← or_undefined (get_elem? volumes 0)
    last ← or_undefined (get_elem? volumes substep)
    sum ← add_volume (scale_volume out scale) last
    if substep == 1
        then (add_volume (scale_volume sum (ratio 1 3)) first >>= λ both.
            ok (scale_volume both (ratio 3 4)))
        else if substep == 2
        then (add_volume (scale_volume sum (num 2)) first >>= λ both.
            ok (scale_volume both (ratio 1 3)))
        else ok sum

  runge_kutta4_stage : R → List (Volume R) → ℕ → Volume R → Result (Volume R)
  unfolding add_volume scale_volume add_linear_combination_volume ratio
  runge_kutta4_stage scale volumes substep out = do
    let scaled = if ltb substep 3 then scale_volume out scale else out
    let halved = if ltb substep 2 then scale_volume scaled (ratio 1 2) else scaled
    first ← or_undefined (get_elem? volumes 0)
    added ← if ltb substep 3 then add_volume halved first else ok halved
    if substep == 3
        then (or_undefined (get_elem? volumes 1) >>= λ v1.
            or_undefined (get_elem? volumes 2) >>= λ v2.
            or_undefined (get_elem? volumes 3) >>= λ v3.
            add_linear_combination_volume added (r.mul (ratio 1 6) scale) (ratio 1 3) v1 (ratio 2 3)
              v2 (ratio 1 3) v3 (r.div (r.of_int (negsuc 0)) (num 3)) first)
        else ok added

  unfoldable pub combine_stage : Method → R → List (Volume R) → ℕ → Volume R → Result (Volume R)
  unfolding forward_euler_stage runge_kutta2_stage runge_kutta3_stage runge_kutta4_stage
  combine_stage forward_euler scale volumes substep out = forward_euler_stage scale volumes out
  combine_stage runge_kutta2 scale volumes substep out =
      runge_kutta2_stage scale volumes substep out
  combine_stage runge_kutta3 scale volumes substep out =
      runge_kutta3_stage scale volumes substep out
  combine_stage runge_kutta4 scale volumes substep out =
      runge_kutta4_stage scale volumes substep out

  -- `performSubstep`: the system is applied to the result of the last substep, with
  -- `volumes[substep + 1]` as its output, and the first substep alone computes the time step. (The
  -- one substep of `ForwardEuler` computes it likewise.) The result has the new volumes and `dt`.
  unfoldable pub perform_substep :
      Method
      → System R
      → Adjusters R
      → Vec3 R
      → R
      → TimestepInformation R
      → ℕ
      → List (Volume R) × R
      → Result (List (Volume R) × R)
  unfolding compute_timestep combine_stage
  perform_substep method system adjusters cell_lengths cfl t substep (volumes, dt) = do
    input ← or_undefined (get_elem? volumes substep)
    output ← or_undefined (get_elem? volumes (suc substep))
    result ← system input output
    let updated = set volumes substep result.input
    let dt' =
        if substep == 0
        then compute_timestep adjusters result.wave_speeds cell_lengths cfl t
        else dt
    next ← combine_stage method (r.div dt' cell_lengths.x) updated substep result.output
    ok (set updated (suc substep) next, dt')
