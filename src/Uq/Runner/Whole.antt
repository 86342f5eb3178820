-- ===== src/Uq/Runner/Whole.antt =====
-- Runner::run (alsuq/src/run/Runner.cpp) as a whole, without a number of rounds.
use Prim.Native.String.{String}
use alsvinn.Base.{
  ℕ, ◌≡◌, refl, ap, sym, subst, List, [], ◌∷◌, true, Option, some, ok, IfOk, if_ok, IfOk-self,
  IfOk-bind, IfOk-map, IfOk-value, arith,
}
use alsvinn.Base.Real.{Real}
use alsvinn.Simulator.{Components, State, call_writers, finalize}
use alsvinn.Uq.Runner.{
  Runner, Progress, run_steps, add_statistics, run_sample, run_samples, run, generate_all,
}
use alsvinn.Uq.Runner.Termination.{HasRounds, run_steps-HasEnded, call_writers_time}
use alsvinn.Uq.Runner.Steps.{HasLooped, IsLoop, run_steps-HasLooped}
use alsvinn.Uq.Runner.Joined.{
  with_statistics, HasFinished, finish-HasFinished, add_statistics-with_statistics,
}

-- The loops have ended, with what `P` describes.
abbrev pub Leads : {A : Type 0} → (A → Type 0) → Option A → Type 0
Leads {A = A} P o = (a : A) × (o ≡ some a) × P a

module _ {R W G : Type 0} ⦃r : Real R⦄ (runner : Runner R W G) where
  -- The round of a sample: the parameters are generated, a simulator is made of them, the statistics
  -- join its writers and adjusters, all writers are called once, the simulation runs to its end, and
  -- is finalized.
  pub record HasSimulated (sample : ℕ) (p q : Progress R W G) : Type 0 where
    pub parameters : List (String × List R)
    pub components : Components R W
    pub created : State R W
    pub started : State R W
    pub ended : State R W
    pub finished : State R W
    pub generates :
        generate_all runner.generate sample runner.parameter_names p.random
        ≡ ok (parameters, q.random)
    pub creates : runner.create_simulator parameters sample p.written ≡ ok (components, created)
    pub starts : call_writers (with_statistics runner.statistics components) created ≡ ok started
    pub loops :
        HasLooped
          (with_statistics runner.statistics components)
          started
          p.timesteps_performed_total
          ended
          q.timesteps_performed_total
    pub finishes : finalize (with_statistics runner.statistics components) ended ≡ ok finished
    pub keeps : (q.written ≡ finished.written) × (q.grid ≡ some components.grid)

  -- Every sample has its round, in order.
  pub data HasSimulatedAll : List ℕ → Progress R W G → Progress R W G → Type 0 where
    all_simulated : (p : Progress R W G) → HasSimulatedAll [] p p
    simulated :
        (sample : ℕ) (samples : List ℕ) (p p1 q : Progress R W G)
        → HasSimulated sample p p1
        → HasSimulatedAll samples p1 q
        → HasSimulatedAll (sample ∷ samples) p q

  -- A whole run: every sample has its round, and then the statistics finish.
  abbrev pub HasRun : Progress R W G → Progress R W G → Type 0
  HasRun p q =
      (q1 : Progress R W G) × HasSimulatedAll runner.sample_numbers p q1
      × HasFinished runner.rank q1.grid runner.statistics q1.written q.written
      × (q ≡ record q1 { written = q.written })

  module _ (fuel : ℕ) (rounds : HasRounds runner fuel) where
    simulate-HasLooped :
        (parameters : List (String × List R)) (sample : ℕ) (w : W) (c : Components R W)
        (s s1 : State R W) (total : ℕ)
        → runner.create_simulator parameters sample w ≡ ok (c, s)
        → call_writers (add_statistics runner.statistics c) s ≡ ok s1
        → IfOk
            (λ o.
              (s2 : State R W) × (total2 : ℕ) × (o ≡ some (s2, total2))
              × HasLooped (add_statistics runner.statistics c) s1 total s2 total2)
            (run_steps (add_statistics runner.statistics c) fuel (s1, total))
    simulate-HasLooped parameters sample w c s s1 total created called =
        let (steady, fine, enough) = rounds parameters sample w c s created in
        let same =
          IfOk-value s1 (call_writers_time (add_statistics runner.statistics c) s) called in
        let all = add_statistics runner.statistics c in
        IfOk-map (IfOk-self (run_steps all fuel (s1, total))) λ o e.
          let (s2, total2, known, _, _) =
            IfOk-value o
              (run_steps-HasEnded all steady fuel total s1
                (subst (λ t. steady.admissible t ≡ true) (sym same) fine)
                (omega (arith, ap steady.units same)))
              e in
          (
            s2,
            total2,
            known,
            subst (IsLoop all s1 total) known
                (IfOk-value o (run_steps-HasLooped all fuel s1 total) e),
          )

    run_sample-HasSimulated :
        (sample : ℕ) (p : Progress R W G)
        → IfOk (Leads (HasSimulated sample p)) (run_sample runner fuel sample p)
    unfolding run_sample
    run_sample-HasSimulated sample p =
        IfOk-bind (IfOk-self (generate_all runner.generate sample runner.parameter_names p.random))
          λ (parameters, random) generates.
            IfOk-bind (IfOk-self (runner.create_simulator parameters sample p.written))
              λ (c, s) creates.
                let all = add_statistics runner.statistics c in
                let same = add_statistics-with_statistics runner.statistics c in
                IfOk-bind (IfOk-self (call_writers all s)) λ s1 starts.
                  IfOk-bind
                    (simulate-HasLooped parameters sample p.written c s s1
                      p.timesteps_performed_total creates starts)
                    λ o (s2, total, known, loops). rw known (
                      IfOk-bind (IfOk-self (finalize all s2)) λ s3 finishes. if_ok (
                        _,
                        refl,
                        record {
                          parameters = parameters;
                          components = c;
                          created = s;
                          started = s1;
                          ended = s2;
                          finished = s3;
                          generates = generates;
                          creates = creates;
                          starts = subst (λ a. call_writers a s ≡ ok s1) same starts;
                          loops =
                              subst (λ a. HasLooped a s1 p.timesteps_performed_total s2 total) same
                                loops;
                          finishes = subst (λ a. finalize a s2 ≡ ok s3) same finishes;
                          keeps = (refl, refl);
                        },
                      ))

    run_samples-HasSimulatedAll :
        (samples : List ℕ) (p : Progress R W G)
        → IfOk (Leads (HasSimulatedAll samples p)) (run_samples runner fuel samples p)
    unfolding run_samples
    run_samples-HasSimulatedAll [] p = if_ok (p, refl, all_simulated p)
    run_samples-HasSimulatedAll (sample ∷ samples) p =
        IfOk-bind (run_sample-HasSimulated sample p) λ o (p1, known, one). rw known (
          IfOk-map (run_samples-HasSimulatedAll samples p1)
            λ o' (q, known', all). (q, known', simulated sample samples p p1 q one all))

    -- Where the rounds suffice for every simulator that may be created, a run throws or is a whole run:
    -- for each sample in order the parameters are generated, a simulator is created with the statistics
    -- behind its own writers and adjusters, its writers are called, it steps until its end, each step
    -- counted, and is finalized; then each statistic in order combines, and on process 0 is also
    -- finalized and written.
    pub run-HasRun : (p : Progress R W G) → IfOk (Leads (HasRun p)) (run runner fuel p)
    unfolding run
    run-HasRun p =
        IfOk-bind (run_samples-HasSimulatedAll runner.sample_numbers p) λ o (q, known, all).
          rw known (
            IfOk-bind (finish-HasFinished runner.rank q.grid runner.statistics q.written)
              λ w finish. if_ok (_, refl, (q, all, finish, refl)))
