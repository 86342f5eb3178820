-- ===== src/Uq/Runner/Termination.antt =====
-- The loop of steps in Runner::run (alsuq/src/run/Runner.cpp) ends.
use Prim.Native.String.{String}
use alsvinn.Base.{
  ℕ, zero, suc, ◌+◌, ◌≤◌, ◌<◌, ◌≡◌, inl, inr, refl, ap, sym, subst, List, Bool, true, false,
  Bool-cases, Option, some, ok, get_elem?, try_each, IfOk, if_ok, IfOk-self, IfOk-any, IfOk-bind,
  IfOk-map, IfOk-or_undefined, arith,
}
use alsvinn.Base.Real.{Real}
use alsvinn.Integrator.{increment_time}
use alsvinn.Simulator.{Components, State, Writer, at_end, perform_step, call_writers}
use alsvinn.Simulator.Step.{IsFirstTimestep, perform_step-IsStep}
use alsvinn.Uq.Runner.{Runner, run_steps, add_statistics}

abbrev pub time_of : {R W : Type 0} → State R W → R
time_of s = s.timestep_information.current_time

abbrev pub steps_of : {R W : Type 0} → State R W → ℕ
steps_of s = s.timestep_information.number_of_steps_performed

module _ {R W : Type 0} ⦃r : Real R⦄ where
  -- Time counted in whole units: before the end there are fewer than `limit` of them, and each time
  -- step from an admissible time before the end is at least one unit long, and leads to another.
  pub record IsSteady (c : Components R W) : Type 0 where
    pub admissible : R → Bool
    pub units : R → ℕ
    pub limit : ℕ
    pub before_end :
        (s : State R W)
        → admissible (time_of s) ≡ true
        → at_end c s ≡ false
        → units (time_of s) < limit
    pub advances :
        (s : State R W) (dt : R)
        → admissible (time_of s) ≡ true
        → at_end c s ≡ false
        → IsFirstTimestep c s dt
        → (admissible (r.add (time_of s) dt) ≡ true)
          × (units (time_of s) < units (r.add (time_of s) dt))

  -- The loop has ended, at the end of the simulation, and has counted the steps of the simulation.
  abbrev pub HasEnded : Components R W → State R W → ℕ → Option (State R W × ℕ) → Type 0
  HasEnded c s total outcome =
      (s' : State R W) × (total' : ℕ) × (outcome ≡ some (s', total'))
      × (at_end c s' ≡ true)
      × (total' + steps_of s ≡ total + steps_of s')

  module _ (c : Components R W) (steady : IsSteady c) where
    -- Where the rounds suffice for the units of time that are left, the loop of steps ends at the end of
    -- the simulation, unless a step throws.
    pub run_steps-HasEnded :
        (fuel total : ℕ) (s : State R W)
        → steady.admissible (time_of s) ≡ true
        → steady.limit ≤ fuel + steady.units (time_of s)
        → IfOk (HasEnded c s total) (run_steps c fuel (s, total))
    unfolding run_steps increment_time
    run_steps-HasEnded zero total s fine enough = elim (Bool-cases (at_end c s)) [
      | inl e ↦ rw e (if_ok (s, total, refl, e, refl))
      | inr e ↦ absurd (omega (arith, steady.before_end s fine e))
    ]
    run_steps-HasEnded (suc fuel) total s fine enough = elim (Bool-cases (at_end c s)) [
      | inl e ↦ rw e (if_ok (s, total, refl, e, refl))
      | inr e ↦ rw e (
          IfOk-bind (IfOk-self (perform_step c s)) λ s1 step.
            let ((dt, first, time, _), _) = perform_step-IsStep c s s1 step in
            let (fine', longer) = steady.advances s dt fine e first in
            let later = ap (λ t. steady.units t.current_time) time in
            let counted = ap (λ t. t.number_of_steps_performed) time in
            IfOk-map
              (run_steps-HasEnded fuel (suc total) s1
                (subst (λ t. steady.admissible t.current_time ≡ true) (sym time) fine')
                (omega (arith, later, longer)))
              λ outcome (s', total', e0, e1, e2). (s', total', e0, e1, omega (arith, counted)))
    ]

  pub call_writers_time :
      (c : Components R W) (s : State R W) → IfOk (λ s'. time_of s' ≡ time_of s) (call_writers c s)
  unfolding call_writers
  call_writers_time c s = IfOk-bind (IfOk-or_undefined (get_elem? s.conserved_volumes 0)) λ v _.
      IfOk-bind
        (IfOk-any
          (try_each (λ (w : Writer R W). w v c.grid s.timestep_information) c.writers s.written))
        λ written _. if_ok refl

module _ {R W G : Type 0} ⦃r : Real R⦄ where
  -- The rounds suffice for every simulator that the runner may create.
  abbrev pub HasRounds : Runner R W G → ℕ → Type 0
  HasRounds runner fuel =
      (parameters : List (String × List R)) (sample : ℕ) (w : W) (c : Components R W)
      (s : State R W)
      → runner.create_simulator parameters sample w ≡ ok (c, s)
      → (steady : IsSteady (add_statistics runner.statistics c)) × (steady.admissible (time_of s)
          ≡ true)
        × (steady.limit ≤ fuel + steady.units (time_of s))
