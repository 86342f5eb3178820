-- ===== src/Tests/Runs.antt =====
-- One step of a simulation of one cell, and writers with a schedule and with a queue.
use alsvinn.Base.{
  ◌⊎◌, ◌*◌, ℕ, suc, ◌+◌, ◌≤◌, ◌≡◌, refl, arith, List, [], ◌∷◌, map, true, Option, some, none, ok,
  IfOk, Result, for_range, ok-injective, sym, ap, ◌<◌, subst, ◌∙◌, false,
}
use alsvinn.Base.{try_each}
use alsvinn.Base.Int.{ℤ, pos, pos_part, neg_part, negsuc, leb_ℤ, ◌+ℤ◌, ◌-ℤ◌, ◌*ℤ◌, ◌/ℤ◌}
use alsvinn.Base.Real.{int_real, ◌≼◌, ℤ-IsOrdered}
use alsvinn.Vec.{vec3, all6}
use alsvinn.Grid.{Grid, periodic}
use alsvinn.Volume.{Volume, make_zero_volume, make_instance}
use alsvinn.Uq.Statistics.{compute_mean_variance, get_snapshot, same_time}
use alsvinn.Uq.Statistics.Sums.{HoldSums, at, compute_mean_variance-HoldSums}
use alsvinn.Integrator.{TimestepInformation, SystemResult, forward_euler, increment_time}
use alsvinn.Integrator as integrator
use alsvinn.Integrator.{compute_timestep, adjust_wave_speed}
use alsvinn.Uq.Runner.{Runner, Statistic, Progress, run, add_statistics, run_steps}
use alsvinn.Uq.Runner.Termination.{IsSteady, time_of, HasEnded, run_steps-HasEnded}
use alsvinn.Uq.Runner.Whole.{Leads, HasRun, run-HasRun}
use alsvinn.Simulator.{Writer, Components, State, at_end, perform_step}
use alsvinn.Simulator.Step.{IsStep, perform_step-IsStep}
use alsvinn.Io.FixedInterval.{FixedIntervalWriter, next_save_time, adjust_timestep}
use alsvinn.Io.FixedInterval.Schedule.{AllReal, AllBelow, IsTimeLeft, adjust_timestep-AllBelow}
use alsvinn.Io.Queue.{QueueWriter, make_queue_writer, write, pop}
use alsvinn.Io.Queue.Aliasing.{Reaches, start, wrote, pop-last}

abbrev one_cell : ℤ → Volume ℤ
one_cell a = record {
  names = "u" ∷ [];
  areas = record { nx = 1; ny = 1; nz = 1; cells = a ∷ []; on_host = true } ∷ [];
  nx = 1;
  ny = 1;
  nz = 1;
  ngx = 0;
  ngy = 0;
  ngz = 0;
}

abbrev line : Grid ℤ
line = record {
  origin = vec3 (pos 0) (pos 0) (pos 0);
  top = vec3 (pos 1) (pos 0) (pos 0);
  dimensions = vec3 (pos 1) (pos 1) (pos 1);
  cell_lengths = vec3 (pos 1) (pos 0) (pos 0);
  boundary_conditions = all6 periodic;
  global_position = vec3 (pos 0) (pos 0) (pos 0);
  global_size = vec3 (pos 1) (pos 1) (pos 1);
}

-- A system with the constant right-hand side 3 and wave speed 1.
abbrev components : Components ℤ ℕ
components = record {
  method = forward_euler;
  system = λ input output. ok record {
    input = input;
    output = one_cell (pos 3);
    wave_speeds = vec3 (pos 1) (pos 0) (pos 0);
  };
  adjusters = record { timestep = []; wave_speed = [] };
  boundary = λ v g. ok v;
  obeys_constraints = λ v. true;
  writers = (λ v g t w. ok (suc w)) ∷ [];
  finalizers = [];
  grid = line;
  cfl_number = pos 1;
  end_time = pos 10;
}

abbrev state_at : ℤ → ℤ → ℤ → ℕ → State ℤ ℕ
state_at a b time steps = record {
  conserved_volumes = one_cell a ∷ one_cell b ∷ [];
  timestep_information = record { current_time = time; number_of_steps_performed = steps };
  written = steps;
}

step_ok :
    perform_step components (state_at (pos 5) (pos 0) (pos 0) 0)
    ≡ ok (state_at (pos 8) (pos 5) (pos 1) 1)
unfolding perform_step ◌+ℤ◌ ◌*ℤ◌ ◌/ℤ◌
step_ok = refl

perform_step-IsStep_example :
    IsStep components (state_at (pos 5) (pos 0) (pos 0) 0) (state_at (pos 8) (pos 5) (pos 1) 1)
    × ((v : Volume ℤ) × (some (one_cell (pos 8)) ≡ some v) × (true ≡ true))
perform_step-IsStep_example =
    perform_step-IsStep components (state_at (pos 5) (pos 0) (pos 0) 0)
      (state_at (pos 8) (pos 5) (pos 1) 1) step_ok

abbrev every_four : FixedIntervalWriter ℤ ℕ
every_four = record { time_interval = pos 4; number_saved = 2; start_time = pos 0; inner = 0 }

abbrev at_six : TimestepInformation ℤ
at_six = record { current_time = pos 6; number_of_steps_performed = 3 }

every_four-AllReal : AllReal ℤ-IsOrdered (every_four ∷ []) at_six
unfolding AllReal next_save_time ◌-ℤ◌ ◌+ℤ◌ ◌*ℤ◌
every_four-AllReal = (refl, tt)

adjust_timestep-AllBelow_example :
    let dt' = integrator.adjust_timestep (map adjust_timestep (every_four ∷ [])) (pos 5) at_six in
    (dt' ≼ pos 5)
    × AllBelow ℤ-IsOrdered dt' (every_four ∷ []) at_six
    × ((dt' ≡ pos 5) ⊎ IsTimeLeft ℤ-IsOrdered dt' (every_four ∷ []) at_six)
adjust_timestep-AllBelow_example =
    adjust_timestep-AllBelow ℤ-IsOrdered (every_four ∷ []) (pos 5) at_six refl every_four-AllReal

abbrev queue_with : ℕ → List ℕ → QueueWriter ℕ
queue_with v waiting = record {
  queue_size = 2;
  next_index = 0;
  allocated = v ∷ [];
  waiting = waiting;
}

two_writes : Reaches 0 2 (queue_with 8 (0 ∷ 0 ∷ [])) (some 8)
unfolding write make_queue_writer
two_writes = wrote (wrote start 7 (omega arith) refl) 8 (omega arith) refl

pop_ok : pop (queue_with 8 (0 ∷ 0 ∷ [])) ≡ ok (8, queue_with 8 (0 ∷ []))
unfolding pop
pop_ok = refl

abbrev last_written : Option ℕ
last_written = some 8

-- The volume of the first write, 7, is lost.
pop-last_example : last_written ≡ some 8
pop-last_example =
    pop-last 0 (queue_with 8 (0 ∷ 0 ∷ [])) (queue_with 8 (0 ∷ [])) 8 last_written two_writes pop_ok

below_end : (t : ℤ) → leb_ℤ (pos 10) t ≡ false → pos_part t < 10
below_end t h = ground arith

one_later :
    (t dt : ℤ)
    → leb_ℤ (pos 0) t ≡ true
    → dt ≡ pos 1
    → (leb_ℤ (pos 0) (t +ℤ dt) ≡ true) × (pos_part t < pos_part (t +ℤ dt))
unfolding ◌+ℤ◌
one_later (pos n) (pos m) h e = let e' = ap pos_part e in (ground (arith, e'), ground (arith, e'))
one_later (pos n) (negsuc m) h e = absurd (omega (arith, ap neg_part e))
one_later (negsuc n) dt h e = absurd (ground (arith, h))

-- `components` with other writers
abbrev writing :
    List (Writer ℤ ℕ) → List (Grid ℤ → TimestepInformation ℤ → ℕ → Result ℕ) → Components ℤ ℕ
writing ws fs = record components { writers = ws; finalizers = fs }

-- The time steps have length 1, from time 0 to time 10.
writing_steady :
    (ws : List (Writer ℤ ℕ)) (fs : List (Grid ℤ → TimestepInformation ℤ → ℕ → Result ℕ))
    → IsSteady (writing ws fs)
unfolding compute_timestep at_end for_range adjust_timestep adjust_wave_speed ◌+ℤ◌ ◌*ℤ◌ ◌/ℤ◌
writing_steady ws fs = record {
  admissible = λ t. leb_ℤ (pos 0) t;
  units = pos_part;
  limit = 10;
  before_end = λ s fine e. below_end (time_of s) e;
  advances = λ s dt fine e (input, output, result, _, _, given, step).
      one_later (time_of s) dt fine (
        step
        ∙ ap (λ (v : SystemResult ℤ). pos 1 /ℤ (pos 0 +ℤ v.wave_speeds.x /ℤ pos 1))
            (sym (ok-injective _ result given)));
}

components_steady : IsSteady components
unfolding writing_steady
components_steady = writing_steady components.writers components.finalizers

-- It counts what it is given, and is written as ten times that.
abbrev counter : Statistic ℤ ℕ
counter = record {
  write = λ v g t w. ok (suc w);
  finalize_writer = λ g t w. ok w;
  adjuster = none;
  combine_statistics = λ w. ok w;
  finalize_statistics = λ w. ok w;
  write_statistics = λ g w. ok (10 * w);
}

abbrev two_samples : Runner ℤ ℕ ℕ
two_samples = record {
  parameter_names = "a" ∷ [];
  generate = λ name sample g. ok (pos g ∷ [], suc g);
  create_simulator = λ parameters sample w.
      ok (components, record (state_at (pos 5) (pos 0) (pos 0) 0) { written = w });
  sample_numbers = 7 ∷ 8 ∷ [];
  statistics = counter ∷ [];
  rank = pos 0;
}

two_samples_rounds :
    (w : ℕ) (c : Components ℤ ℕ) (s : State ℤ ℕ)
    → ◌≡◌ {A = Result (Components ℤ ℕ × State ℤ ℕ)}
        (ok (components, record (state_at (pos 5) (pos 0) (pos 0) 0) { written = w }))
        (ok (c, s))
    → (steady : IsSteady (add_statistics (counter ∷ []) c)) × (steady.admissible (time_of s) ≡ true)
      × (steady.limit ≤ 10 + steady.units (time_of s))
unfolding add_statistics writing_steady
two_samples_rounds w c s e =
    subst
      (λ (p : Components ℤ ℕ × State ℤ ℕ).
        (steady : IsSteady (add_statistics (counter ∷ []) p.0)) × (steady.admissible (time_of p.1)
          ≡ true)
        × (steady.limit ≤ 10 + steady.units (time_of p.1)))
      (ok-injective _ _ e) (writing_steady _ _, refl, omega arith)

abbrev nothing_done : Progress ℤ ℕ ℕ
nothing_done = record { random = 0; written = 0; timesteps_performed_total = 0; grid = none }

run-HasRun_example :
    IfOk (Leads (HasRun two_samples nothing_done)) (run two_samples 10 nothing_done)
run-HasRun_example =
    run-HasRun two_samples 10 (λ parameters sample w c s e. two_samples_rounds w c s e) nothing_done

finished_run :
    run_steps components 10 (state_at (pos 5) (pos 0) (pos 0) 0, 3)
    ≡ ok (some (state_at (pos 35) (pos 32) (pos 10) 10, 13))
unfolding run_steps perform_step ◌+ℤ◌ ◌*ℤ◌ ◌/ℤ◌
finished_run = refl

run_steps-HasEnded_example :
    IfOk
      (HasEnded components (state_at (pos 5) (pos 0) (pos 0) 0) 3)
      (run_steps components 10 (state_at (pos 5) (pos 0) (pos 0) 0, 3))
unfolding components_steady
run_steps-HasEnded_example =
    run_steps-HasEnded components components_steady 10 3 (state_at (pos 5) (pos 0) (pos 0) 0) refl
      (omega arith)

one_time : same_time (pos 0) (pos 0) ≡ true
unfolding same_time
one_time = refl

compute_mean_variance-HoldSums_example :
    IfOk
      (HoldSums
        (pos 0)
        one_time
        ((0, one_cell (pos 2)) ∷ (0, one_cell (pos 3)) ∷ [])
        (make_zero_volume (make_instance (one_cell (pos 2))))
        (make_zero_volume (make_instance (one_cell (pos 2)))))
      (try_each
        (λ (p : ℕ × Volume ℤ). compute_mean_variance (at (pos 0) one_time p.0) p.1)
        ((0, one_cell (pos 2)) ∷ (0, one_cell (pos 3)) ∷ [])
        [])
unfolding get_snapshot
compute_mean_variance-HoldSums_example =
    compute_mean_variance-HoldSums (pos 0) one_time 0 (one_cell (pos 2))
      ((0, one_cell (pos 3)) ∷ []) []
