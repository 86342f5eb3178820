-- ===== src/Uq/Runner.antt =====
-- alsuq/src/run/Runner.cpp: a simulation for each sample, run to its end, and the statistics of them all.
-- The creator of simulators and the statistics are virtual interfaces, and stand here as functions, as
-- does the generator of samples (Samples.antt); `W` is the state of the statistics and `G` that of the
-- generator.
pub mod Termination
pub mod Steps
pub mod Joined
pub mod Whole
use Prim.Native.String.{String}
use alsvinn.Base.{
  ℕ, zero, suc, List, [], ◌∷◌, ◌++◌, map, Bool, true, false, if◌then◌else◌, Option, none, some,
  Result, ok, err, undefined, ◌>>=◌, or_undefined, try_each,
}
use alsvinn.Base.Int.{ℤ, pos, eqb_ℤ}
use alsvinn.Base.Real.{Real}
use alsvinn.Grid.{Grid}
use alsvinn.Integrator.{TimestepInformation, Adjusters}
use alsvinn.Simulator.{Components, State, Writer, at_end, perform_step, call_writers, finalize}

pub record Statistic (R W : Type 0) : Type 0 where
  pub write : Writer R W
  pub finalize_writer : Grid R → TimestepInformation R → W → Result W
  pub adjuster : Option (R → TimestepInformation R → R)
  pub combine_statistics : W → Result W
  pub finalize_statistics : W → Result W
  pub write_statistics : Grid R → W → Result W

pub record Runner (R W G : Type 0) : Type 0 where
  pub parameter_names : List String
  pub generate : String → ℕ → G → Result (List R × G)
  pub create_simulator : List (String × List R) → ℕ → W → Result (Components R W × State R W)
  pub sample_numbers : List ℕ
  pub statistics : List (Statistic R W)
  pub rank : ℤ

-- What `run` has done after some samples
pub record Progress (R W G : Type 0) : Type 0 where
  pub random : G
  pub written : W
  pub timesteps_performed_total : ℕ
  pub grid : Option (Grid R)

-- The loop over the parameters: `addParameter` for each of them
unfoldable pub generate_all :
    {R G : Type 0}
    → (String → ℕ → G → Result (List R × G))
    → ℕ
    → List String
    → G
    → Result (List (String × List R) × G)
generate_all generate sample [] g = ok ([], g)
generate_all generate sample (name ∷ names) g = do
  (samples, g1) ← generate name sample g
  (rest, g2) ← generate_all generate sample names g1
  ok ((name, samples) ∷ rest, g2)

-- What follows loops that have ended
abbrev pub when_ended : {A B : Type 0} → Option A → (A → Result (Option B)) → Result (Option B)
when_ended none next = ok none
when_ended (some a) next = next a

module _ {R W : Type 0} ⦃r : Real R⦄ where
  -- `while (!simulator->atEnd())`, with a number of rounds; `none` when they do not suffice. The
  -- number beside the state is `timestepsPerformedTotal`.
  unfoldable pub run_steps : Components R W → ℕ → State R W × ℕ → Result (Option (State R W × ℕ))
  unfolding at_end perform_step
  run_steps c zero (s, total) = if at_end c s then ok (some (s, total)) else ok none
  run_steps c (suc fuel) (s, total) =
      if at_end c s
      then ok (some (s, total))
      else perform_step c s >>= λ s'. run_steps c fuel (s', suc total)

  -- `addWriter` and `addTimestepAdjuster`
  unfoldable pub add_statistic : Components R W → Statistic R W → Components R W
  add_statistic c statistic = record c {
    writers = c.writers ++ (statistic.write ∷ []);
    finalizers = c.finalizers ++ (statistic.finalize_writer ∷ []);
    adjusters = record {
      timestep = c.adjusters.timestep ++ adjusters_of statistic.adjuster;
      wave_speed = c.adjusters.wave_speed;
    };
  }
    where
      adjusters_of : Option (R → TimestepInformation R → R) → List (R → TimestepInformation R → R)
      adjusters_of none = []
      adjusters_of (some adjuster) = adjuster ∷ []

  unfoldable pub add_statistics : List (Statistic R W) → Components R W → Components R W
  unfolding add_statistic
  add_statistics [] c = c
  add_statistics (statistic ∷ rest) c = add_statistics rest (add_statistic c statistic)

  -- The loop over the statistics: `*grid` is undefined where no sample has been run.
  pub finish_statistic : ℤ → Option (Grid R) → Statistic R W → W → Result W
  finish_statistic rank grid statistic w = do
    combined ← statistic.combine_statistics w
    if eqb_ℤ rank (pos 0)
        then (statistic.finalize_statistics combined >>= λ finalized.
            or_undefined grid >>= λ g. statistic.write_statistics g finalized)
        else ok combined

module _ {R W G : Type 0} ⦃r : Real R⦄ where
  -- One round of the loop over the samples: `none` when the rounds do not suffice
  run_sample : Runner R W G → ℕ → ℕ → Progress R W G → Result (Option (Progress R W G))
  unfolding generate_all add_statistics call_writers run_steps finalize
  run_sample runner fuel sample p = do
    (parameters, random) ← generate_all runner.generate sample runner.parameter_names p.random
    (c, s) ← runner.create_simulator parameters sample p.written
    s1 ← call_writers (add_statistics runner.statistics c) s
    outcome ← run_steps (add_statistics runner.statistics c) fuel (s1, p.timesteps_performed_total)
    when_ended outcome λ (s2, total). finalize (add_statistics runner.statistics c) s2 >>= λ s3.
        ok (
          some record {
            random = random;
            written = s3.written;
            timesteps_performed_total = total;
            grid = some c.grid;
          })

  run_samples : Runner R W G → ℕ → List ℕ → Progress R W G → Result (Option (Progress R W G))
  unfolding run_sample
  run_samples runner fuel [] p = ok (some p)
  run_samples runner fuel (sample ∷ samples) p = do
    outcome ← run_sample runner fuel sample p
    when_ended outcome (run_samples runner fuel samples)

  unfoldable pub run : Runner R W G → ℕ → Progress R W G → Result (Option (Progress R W G))
  unfolding run_samples finish_statistic try_each
  run runner fuel p = do
    outcome ← run_samples runner fuel runner.sample_numbers p
    when_ended outcome λ q.
        try_each (finish_statistic runner.rank q.grid) runner.statistics q.written >>= λ written.
        ok (some (record q { written = written }))
