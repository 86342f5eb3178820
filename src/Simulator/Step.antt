-- ===== src/Simulator/Step.antt =====
-- A step of the simulation as a whole (alsfvm/src/simulator/Simulator.cpp).
use alsvinn.Base.{
  ℕ, suc, pred, ◌<◌, ◌≡◌, refl, sym, ◌∙◌, subst, arith, List, Bool, true, false, ◌==◌,
  if◌then◌else◌, ok, guard, get_elem?, set, length, length-set, try_range, try_each, IfOk,
  IfOk-self, IfOk-bind, IfOk-map, IfOk-any, if_ok, if_err, IfOk-value, IfOk-or_undefined,
  try_range-IfOk, constraints_violated, some,
}
use alsvinn.Base.Real.{Real, num}
use alsvinn.Volume.{Volume}
use alsvinn.Integrator.{
  TimestepInformation, SystemResult, Method, forward_euler, runge_kutta2, runge_kutta3,
  runge_kutta4, get_number_of_substeps, increment_time, compute_timestep, perform_substep,
}
use alsvinn.Simulator.{
  Components, State, Writer, swap_ends, substep_with_boundary, increment_solution,
  check_constraints, call_writers, perform_step,
}

length-swap_ends : {A : Type 0} (l : List A) → IfOk (λ l'. length l' ≡ length l) (swap_ends l)
unfolding swap_ends
length-swap_ends l = IfOk-bind (IfOk-or_undefined (get_elem? l 0)) λ first _.
    IfOk-bind (IfOk-or_undefined (get_elem? l (pred (length l))))
      λ last _. if_ok (length-set (set l 0 last) (pred (length l)) first ∙ length-set l 0 last)

not_first : {A : Type 0} (k : ℕ) (a b : A) → 0 < k → (if k == 0 then a else b) ≡ b
not_first k a b h = ground arith

has_substep : (m : Method) → (n : ℕ) × (get_number_of_substeps m ≡ suc n)
unfolding get_number_of_substeps
has_substep forward_euler = (0, refl)
has_substep runge_kutta2 = (1, refl)
has_substep runge_kutta3 = (2, refl)
has_substep runge_kutta4 = (3, refl)

module _ {R W : Type 0} ⦃r : Real R⦄ (c : Components R W) where
  -- The system has been applied to the first two volumes, and `dt` follows from its wave speeds.
  abbrev pub IsFirstTimestep : State R W → R → Type 0
  IsFirstTimestep s dt =
      (input : Volume R) × (output : Volume R) × (result : SystemResult R) × (get_elem?
          s.conserved_volumes 0
        ≡ some input)
      × (get_elem? s.conserved_volumes 1 ≡ some output)
      × (c.system input output ≡ ok result)
      × (dt
          ≡ compute_timestep c.adjusters result.wave_speeds c.grid.cell_lengths c.cfl_number
              s.timestep_information)

  -- The time step after a substep.
  IsTimestep : TimestepInformation R → ℕ → List (Volume R) → R → R → Type 0
  IsTimestep t k volumes dt dt' =
      (input : Volume R) × (output : Volume R) × (result : SystemResult R) × (get_elem? volumes k
        ≡ some input)
      × (get_elem? volumes (suc k) ≡ some output)
      × (c.system input output ≡ ok result)
      × (dt' ≡ (
          if k == 0
          then compute_timestep c.adjusters result.wave_speeds c.grid.cell_lengths c.cfl_number t
          else dt))

  AfterSubstep : TimestepInformation R → ℕ → List (Volume R) → R → List (Volume R) × R → Type 0
  unfolding IsTimestep
  AfterSubstep t k volumes dt (volumes', dt') =
      (length volumes' ≡ length volumes) × IsTimestep t k volumes dt dt'

  perform_substep_lem :
      (t : TimestepInformation R) (k : ℕ) (volumes : List (Volume R)) (dt : R)
      → IfOk (AfterSubstep t k volumes dt) (
          perform_substep c.method c.system c.adjusters c.grid.cell_lengths c.cfl_number t k
            (volumes, dt))
  unfolding perform_substep AfterSubstep IsTimestep
  perform_substep_lem t k volumes dt =
      IfOk-bind (IfOk-or_undefined (get_elem? volumes k)) λ input e0.
        IfOk-bind (IfOk-or_undefined (get_elem? volumes (suc k))) λ output e1.
          IfOk-bind (IfOk-self (c.system input output)) λ result e2.
            IfOk-bind (IfOk-any _) λ next _. if_ok (
              length-set (set volumes k result.input) (suc k) next
                  ∙ length-set volumes k result.input,
              (input, output, result, e0, e1, e2, refl),
            )

  substep_lem :
      (t : TimestepInformation R) (k : ℕ) (volumes : List (Volume R)) (dt : R)
      → IfOk (AfterSubstep t k volumes dt) (substep_with_boundary c t k (volumes, dt))
  unfolding substep_with_boundary AfterSubstep
  substep_lem t k volumes dt = IfOk-bind (perform_substep_lem t k volumes dt) λ s after.
      IfOk-bind (IfOk-or_undefined (get_elem? s.0 (suc k))) λ next _.
        IfOk-bind (IfOk-any (c.boundary next c.grid))
          λ bounded _. if_ok (length-set s.0 (suc k) bounded ∙ after.0, after.1)

  -- The later substeps keep the time step of the first.
  all_substeps_lem :
      (t : TimestepInformation R) (n : ℕ) (volumes : List (Volume R)) (dt : R)
      → IfOk
          (AfterSubstep t 0 volumes dt)
          (try_range (suc n) 0 (substep_with_boundary c t) (volumes, dt))
  unfolding try_range AfterSubstep IsTimestep
  all_substeps_lem t n volumes dt = IfOk-bind (substep_lem t 0 volumes dt) λ first after.
      try_range-IfOk (AfterSubstep t 0 volumes dt) (substep_with_boundary c t) n 1 first
        (λ k s later (len, (input, output, result, e0, e1, e2, e3)).
          IfOk-map (substep_lem t k s.0 s.1) λ s' (len', (_, _, _, _, _, _, e)).
            (len' ∙ len, (input, output, result, e0, e1, e2, e ∙ not_first k _ _ later ∙ e3)))
        after

  -- What a step keeps and changes.
  abbrev pub IsStep : State R W → State R W → Type 0
  IsStep s s' =
      (dt : R) × IsFirstTimestep s dt
      × (s'.timestep_information ≡ increment_time s.timestep_information dt)
      × (length s'.conserved_volumes ≡ length s.conserved_volumes)

  increment_solution_lem :
      (s : State R W) → IfOk (λ s'. IsStep s s' × (s'.written ≡ s.written)) (increment_solution c s)
  unfolding increment_solution AfterSubstep IsTimestep
  increment_solution_lem s =
      let t = s.timestep_information in
      let (n, e) = has_substep c.method in
      let loop =
        subst
          (λ (rounds : ℕ).
            IfOk (AfterSubstep t 0 s.conserved_volumes (num 0))
              (try_range rounds 0 (substep_with_boundary c t) (s.conserved_volumes, num 0)))
          (sym e) (all_substeps_lem t n s.conserved_volumes (num 0)) in
      IfOk-bind loop λ after (len, (input, output, result, e0, e1, e2, e3)).
        IfOk-bind (length-swap_ends after.0) λ swapped len'.
          if_ok ((after.1, (input, output, result, e0, e1, e2, e3), refl, len' ∙ len), refl)

  guard-true : (b : Bool) → IfOk (λ _. b ≡ true) (guard b constraints_violated)
  guard-true true = if_ok refl
  guard-true false = if_err

  perform_step_lem :
      (s : State R W)
      → IfOk
          (λ s'.
            IsStep s s'
            × ((v : Volume R) × (get_elem? s'.conserved_volumes 0 ≡ some v)
                × (c.obeys_constraints v ≡ true)))
          (perform_step c s)
  unfolding perform_step check_constraints call_writers
  perform_step_lem s = IfOk-bind (increment_solution_lem s) λ s1 (step, _).
      IfOk-bind
        (IfOk-bind
          {Q = λ _.
            (v : Volume R) × (get_elem? s1.conserved_volumes 0 ≡ some v)
            × (c.obeys_constraints v ≡ true)}
          (IfOk-or_undefined (get_elem? s1.conserved_volumes 0))
          λ v e. IfOk-map (guard-true (c.obeys_constraints v)) λ _ obeys. (v, e, obeys))
        λ _ good. IfOk-bind (IfOk-or_undefined (get_elem? s1.conserved_volumes 0)) λ v _.
          IfOk-bind
            (IfOk-any (
              try_each (λ (w : Writer R W). w v c.grid s1.timestep_information) c.writers
                s1.written))
            λ written _. if_ok (step, good)

  -- A step that ends normally performs one step: the first volume has gone through the system, the
  -- time has advanced by the time step that its wave speeds give (whatever the number of substeps),
  -- one more step is counted, the number of volumes is kept, and the new state obeys the
  -- constraints.
  pub perform_step-IsStep :
      (s s' : State R W)
      → perform_step c s ≡ ok s'
      → IsStep s s'
        × ((v : Volume R) × (get_elem? s'.conserved_volumes 0 ≡ some v)
            × (c.obeys_constraints v ≡ true))
  perform_step-IsStep s s' = IfOk-value s' (perform_step_lem s)
