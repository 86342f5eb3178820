-- ===== src/Uq/Runner/Joined.antt =====
-- The statistics that Runner::run (alsuq/src/run/Runner.cpp) adds to a simulator, and what they do at
-- the end.
use alsvinn.Base.{
  ◌≡◌, inl, inr, refl, ap, ◌∙◌, List, [], ◌∷◌, ◌++◌, map, true, false, Bool-cases, Option, none,
  some, ok, try_each, IfOk, if_ok, IfOk-self, IfOk-bind, IfOk-map, IfOk-or_undefined,
}
use mathlib.Core.List.{append-nil, append_assoc}
use alsvinn.Base.Int.{ℤ, pos, eqb_ℤ}
use alsvinn.Base.Real.{Real}
use alsvinn.Grid.{Grid}
use alsvinn.Integrator.{TimestepInformation}
use alsvinn.Simulator.{Components}
use alsvinn.Uq.Runner.{Statistic, add_statistic, add_statistics, finish_statistic}

abbrev adjuster_and : {A : Type 0} → Option A → List A → List A
adjuster_and none rest = rest
adjuster_and (some adjuster) rest = adjuster ∷ rest

and_one :
    {A : Type 0} (o : Option A) (ts rest : List A)
    → (ts ++ adjuster_and o []) ++ rest ≡ ts ++ adjuster_and o rest
and_one none ts rest = ap (λ us. us ++ rest) (append-nil ts)
and_one (some t) ts rest = append_assoc ts (t ∷ []) rest

module _ {R W : Type 0} ⦃r : Real R⦄ where
  -- The time step adjusters among the statistics
  abbrev adjusters_in : List (Statistic R W) → List (R → TimestepInformation R → R)
  adjusters_in [] = []
  adjusters_in (statistic ∷ rest) = adjuster_and statistic.adjuster (adjusters_in rest)

  -- The components of a simulator with the statistics behind its own writers and adjusters
  abbrev pub with_statistics : List (Statistic R W) → Components R W → Components R W
  with_statistics statistics c = record c {
    writers = c.writers ++ map (λ (a : Statistic R W). a.write) statistics;
    finalizers = c.finalizers ++ map (λ (a : Statistic R W). a.finalize_writer) statistics;
    adjusters = record {
      timestep = c.adjusters.timestep ++ adjusters_in statistics;
      wave_speed = c.adjusters.wave_speed;
    };
  }

  -- What a statistic does at the end: it combines, and process 0 also finalizes and writes it.
  pub data HasFinishedOne (rank : ℤ) (grid : Option (Grid R)) (a : Statistic R W)
      : W → W → Type 0 where
    combined :
        (w w1 : W)
        → eqb_ℤ rank (pos 0) ≡ false
        → a.combine_statistics w ≡ ok w1
        → HasFinishedOne rank grid a w w1
    written_out :
        (w w1 w2 w3 : W) (g : Grid R)
        → eqb_ℤ rank (pos 0) ≡ true
        → a.combine_statistics w ≡ ok w1
        → a.finalize_statistics w1 ≡ ok w2
        → grid ≡ some g
        → a.write_statistics g w2 ≡ ok w3
        → HasFinishedOne rank grid a w w3

  -- All statistics do so, in order.
  pub data HasFinished (rank : ℤ) (grid : Option (Grid R))
      : List (Statistic R W) → W → W → Type 0 where
    all_finished : (w : W) → HasFinished rank grid [] w w
    finished :
        (a : Statistic R W) (rest : List (Statistic R W)) (w w1 w' : W)
        → HasFinishedOne rank grid a w w1
        → HasFinished rank grid rest w1 w'
        → HasFinished rank grid (a ∷ rest) w w'

  finish_statistic-HasFinishedOne :
      (rank : ℤ) (grid : Option (Grid R)) (a : Statistic R W) (w : W)
      → IfOk (HasFinishedOne rank grid a w) (finish_statistic rank grid a w)
  unfolding finish_statistic
  finish_statistic-HasFinishedOne rank grid a w = elim (Bool-cases (eqb_ℤ rank (pos 0))) [
    | inl e ↦ rw e (
        IfOk-bind (IfOk-self (a.combine_statistics w)) λ w1 e1.
          IfOk-bind (IfOk-self (a.finalize_statistics w1)) λ w2 e2.
            IfOk-bind (IfOk-or_undefined grid) λ g e3.
              IfOk-map (IfOk-self (a.write_statistics g w2))
                λ w3 e4. written_out w w1 w2 w3 g e e1 e2 e3 e4)
    | inr e ↦
        rw e (IfOk-bind (IfOk-self (a.combine_statistics w)) λ w1 e1. if_ok (combined w w1 e e1))
  ]

  pub finish-HasFinished :
      (rank : ℤ) (grid : Option (Grid R)) (statistics : List (Statistic R W)) (w : W)
      → IfOk
          (HasFinished rank grid statistics w)
          (try_each (finish_statistic rank grid) statistics w)
  unfolding try_each
  finish-HasFinished rank grid [] w = if_ok (all_finished w)
  finish-HasFinished rank grid (a ∷ rest) w =
      IfOk-bind (finish_statistic-HasFinishedOne rank grid a w) λ w1 one.
        IfOk-map (finish-HasFinished rank grid rest w1) λ w' all. finished a rest w w1 w' one all

  one_statistic :
      (a : Statistic R W) (o : Option (R → TimestepInformation R → R)) (c : Components R W)
      → add_statistic c (record a { adjuster = o })
        ≡ with_statistics (record a { adjuster = o } ∷ []) c
  unfolding add_statistic
  one_statistic a none c = refl
  one_statistic a (some t) c = refl

  pub add_statistics-with_statistics :
      (statistics : List (Statistic R W)) (c : Components R W)
      → add_statistics statistics c ≡ with_statistics statistics c
  unfolding add_statistics
  add_statistics-with_statistics [] c =
      rw (append-nil c.writers, append-nil c.finalizers, append-nil c.adjusters.timestep) refl
  add_statistics-with_statistics (a ∷ rest) c =
      add_statistics-with_statistics rest (add_statistic c a)
      ∙ ap (with_statistics rest) (one_statistic a a.adjuster c)
      ∙ rw
          (
            append_assoc c.writers (a.write ∷ []) (map (λ (b : Statistic R W). b.write) rest),
            append_assoc c.finalizers (a.finalize_writer ∷ [])
                (map (λ (b : Statistic R W). b.finalize_writer) rest),
            and_one a.adjuster c.adjusters.timestep (adjusters_in rest),
          )
          refl
