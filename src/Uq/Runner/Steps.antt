-- ===== src/Uq/Runner/Steps.antt =====
-- The loop of steps in Runner::run (alsuq/src/run/Runner.cpp), of any length.
use alsvinn.Base.{
  ℕ, zero, suc, ◌≡◌, inl, inr, true, false, Bool-cases, Option, none, some, ok, IfOk, if_ok,
  IfOk-self, IfOk-bind, IfOk-map,
}
use alsvinn.Base.Real.{Real}
use alsvinn.Simulator.{Components, State, at_end, perform_step}
use alsvinn.Uq.Runner.{run_steps}

module _ {R W : Type 0} ⦃r : Real R⦄ where
  -- A loop of steps up to the end of the simulation, of any length, that counts them
  pub data HasLooped (c : Components R W) : State R W → ℕ → State R W → ℕ → Type 0 where
    over : (s : State R W) (total : ℕ) → at_end c s ≡ true → HasLooped c s total s total
    one_more :
        (s s1 s2 : State R W) (total total2 : ℕ)
        → at_end c s ≡ false
        → perform_step c s ≡ ok s1
        → HasLooped c s1 (suc total) s2 total2
        → HasLooped c s total s2 total2

  -- The loop of `run_steps`, where its rounds suffice
  abbrev pub IsLoop : Components R W → State R W → ℕ → Option (State R W × ℕ) → Type 0
  IsLoop c s total none = Unit
  IsLoop c s total (some (s2, total2)) = HasLooped c s total s2 total2

  pub run_steps-HasLooped :
      (c : Components R W) (fuel : ℕ) (s : State R W) (total : ℕ)
      → IfOk (IsLoop c s total) (run_steps c fuel (s, total))
  unfolding run_steps
  run_steps-HasLooped c zero s total = elim (Bool-cases (at_end c s)) [
    | inl e ↦ rw e (if_ok (over s total e))
    | inr e ↦ rw e (if_ok tt)
  ]
  run_steps-HasLooped c (suc fuel) s total = elim (Bool-cases (at_end c s)) [
    | inl e ↦ rw e (if_ok (over s total e))
    | inr e ↦ rw e (
        IfOk-bind (IfOk-self (perform_step c s))
          λ s1 step. IfOk-map (run_steps-HasLooped c fuel s1 (suc total)) (extend s1 e step))
  ]
    where
      extend :
          (s1 : State R W)
          → at_end c s ≡ false
          → perform_step c s ≡ ok s1
          → (o : Option (State R W × ℕ)) → IsLoop c s1 (suc total) o
          → IsLoop c s total o
      extend s1 e step none h = tt
      extend s1 e step (some (s2, total2)) h = one_more s s1 s2 total total2 e step h
