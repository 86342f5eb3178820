-- ===== src/Simulator.antt =====
-- alsfvm/src/simulator/Simulator.cpp: one step of a simulation, its constraints and its writers. The
-- boundary, the cell computer and the writers are virtual interfaces, and stand here as functions; `W`
-- is the state of all the writers together.
pub mod Step
pub mod ConservedSystem
use alsvinn.Base.{
  ℕ, zero, suc, ◌+◌, ◌-◌, List, [], ◌∷◌, Bool, true, false, if◌then◌else◌, Result, ok, err, ◌>>=◌,
  ◌>>◌, guard, or_undefined, get_elem?, set, length, try_range, try_each, constraints_violated,
  pred,
}
use alsvinn.Base.Real.{Real, num}
use alsvinn.Vec.{Vec3}
use alsvinn.Grid.{Grid}
use alsvinn.Volume.{Volume}
use alsvinn.Integrator.{
  TimestepInformation, System, Adjusters, Method, get_number_of_substeps, increment_time,
  perform_substep,
}

abbrev pub Writer : Type 0 → Type 0 → Type 0
Writer R W = Volume R → Grid R → TimestepInformation R → W → Result W

-- The components that a simulator is made with
pub record Components (R W : Type 0) : Type 0 where
  pub method : Method
  pub system : System R
  pub adjusters : Adjusters R
  pub boundary : Volume R → Grid R → Result (Volume R)
  pub obeys_constraints : Volume R → Bool
  pub writers : List (Writer R W)
  pub finalizers : List (Grid R → TimestepInformation R → W → Result W)
  pub grid : Grid R
  pub cfl_number : R
  pub end_time : R

pub record State (R W : Type 0) : Type 0 where
  pub conserved_volumes : List (Volume R)
  pub timestep_information : TimestepInformation R
  pub written : W

-- `conservedVolumes[0].swap(conservedVolumes.back())`
unfoldable pub swap_ends : {A : Type 0} → List A → Result (List A)
swap_ends l = or_undefined (get_elem? l 0) >>= λ first.
    or_undefined (get_elem? l (pred (length l))) >>= λ last.
    ok (set (set l 0 last) (pred (length l)) first)

module _ {R W : Type 0} ⦃r : Real R⦄ (c : Components R W) where
  unfoldable pub at_end : State R W → Bool
  at_end s = r.le c.end_time s.timestep_information.current_time

  -- One round of the loop of `incrementSolution`
  unfoldable pub substep_with_boundary :
      TimestepInformation R → ℕ → List (Volume R) × R → Result (List (Volume R) × R)
  unfolding perform_substep
  substep_with_boundary t substep s = do
    (volumes, dt) ←
        perform_substep c.method c.system c.adjusters c.grid.cell_lengths c.cfl_number t substep s
    next ← or_undefined (get_elem? volumes (suc substep))
    bounded ← c.boundary next c.grid
    ok (set volumes (suc substep) bounded, dt)

  unfoldable pub increment_solution : State R W → Result (State R W)
  unfolding substep_with_boundary get_number_of_substeps try_range swap_ends increment_time
  increment_solution s = do
    (volumes, dt) ←
        try_range (get_number_of_substeps c.method) 0 (substep_with_boundary s.timestep_information)
          (s.conserved_volumes, num 0)
    swapped ← swap_ends volumes
    ok record s {
      conserved_volumes = swapped;
      timestep_information = increment_time s.timestep_information dt;
    }

  unfoldable pub check_constraints : State R W → Result (Unit {0})
  check_constraints s = do
    v ← or_undefined (get_elem? s.conserved_volumes 0)
    guard (c.obeys_constraints v) constraints_violated

  unfoldable pub call_writers : State R W → Result (State R W)
  unfolding try_each
  call_writers s = do
    v ← or_undefined (get_elem? s.conserved_volumes 0)
    written ← try_each (λ (w : Writer R W). w v c.grid s.timestep_information) c.writers s.written
    ok record s { written = written }

  unfoldable pub perform_step : State R W → Result (State R W)
  unfolding increment_solution check_constraints call_writers
  perform_step s = do s' ← increment_solution s; check_constraints s' >> call_writers s'

  -- `finalize`
  unfoldable pub finalize : State R W → Result (State R W)
  unfolding try_each
  finalize s = do
    written ← try_each (λ f. f c.grid s.timestep_information) c.finalizers s.written
    ok record s { written = written }
