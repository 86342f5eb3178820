-- ===== src/Uq/Statistics/Sums.antt =====
-- MeanVariance::computeStatistics (alsuq/src/stats/MeanVariance.cpp) over the samples at one time.
use alsvinn.Uq.Statistics.Stored.{variance_apart, mean_apart, get-set_same, get-set_other}
use Prim.Native.String.{String}
use text.Mathlib.Text.{◌==◌ as str_eq}
use alsvinn.Base.{
  ℕ, ◌≡◌, refl, ap, sym, subst, ◌∙◌, List, [], ◌∷◌, true, false, Option-cases, inl, inr, Option,
  none, some, Result, ok, err, ◌>>=◌, try_each, IfOk, if_ok, IfOk-self, IfOk-bind, IfOk-map,
}
use alsvinn.Base.Real.{Real, num}
use alsvinn.Volume.{Volume, make_instance, make_zero_volume, add_volume, add_power_volume}
use alsvinn.Integrator.{TimestepInformation}
use alsvinn.Uq.Statistics.{
  StatisticsSnapshot, Snapshots, same_time, get_snapshot, find_or_create_snapshot, change_volume,
  compute_mean_variance,
}

module _ {R : Type 0} ⦃r : Real R⦄ (time : R) (same : same_time time time ≡ true) where
  -- The snapshot of the name holds the volume.
  abbrev pub HoldsVolume : Snapshots R → String → Volume R → Type 0
  HoldsVolume s name v =
      (x : StatisticsSnapshot R) × (get_snapshot s time name ≡ some x) × (x.volume ≡ v)

  -- The volume that a sum starts with: what the snapshot holds, or zeros
  abbrev pub start_volume : Option (StatisticsSnapshot R) → Volume R → Volume R
  start_volume (some x) u = x.volume
  start_volume none u = make_zero_volume (make_instance u)

  abbrev pub at : ℕ → TimestepInformation R
  at steps = record { current_time = time; number_of_steps_performed = steps }

  found :
      (name other : String) (steps : ℕ) (u : Volume R) (s : Snapshots R)
      → str_eq name name ≡ true
      → ((k : String) → str_eq name k ≡ true → str_eq other k ≡ false)
      → HoldsVolume
          (find_or_create_snapshot name (at steps) u s)
          name
          (start_volume (get_snapshot s time name) u)
        × (get_snapshot (find_or_create_snapshot name (at steps) u s) time other
            ≡ get_snapshot s time other)
  unfolding find_or_create_snapshot
  found name other steps u s self apart = elim (Option-cases (get_snapshot s time name)) [
    | inr (x, e) ↦ rw e ((x, e, refl), refl)
    | inl e ↦ rw e (
      (_, get-set_same time same s name _ self, refl),
      get-set_other time same s name other _ self apart,
    )
  ]

  changed :
      (name other : String) (op : Volume R → Result (Volume R)) (s : Snapshots R) (v : Volume R)
      → str_eq name name ≡ true
      → ((k : String) → str_eq name k ≡ true → str_eq other k ≡ false)
      → HoldsVolume s name v
      → IfOk
          (λ s'.
            (v' : Volume R) × (op v ≡ ok v')
            × HoldsVolume s' name v'
            × (get_snapshot s' time other ≡ get_snapshot s time other))
          (change_volume name time op s)
  unfolding change_volume
  changed name other op s v self apart (x, e, e') = rw e (
      IfOk-bind (IfOk-self (op x.volume)) λ v' done. if_ok (
        v',
        ap op (sym e') ∙ done,
        (_, get-set_same time same s name _ self, refl),
        get-set_other time same s name other _ self apart,
      ))

  -- The sums over samples, one after the other
  abbrev pub sum_up :
      (Volume R → Volume R → Result (Volume R)) → List (ℕ × Volume R) → Volume R → Result (Volume R)
  sum_up op [] v = ok v
  sum_up op ((steps, u) ∷ rest) v = op v u >>= sum_up op rest

  abbrev pub square_sum : Volume R → Volume R → Result (Volume R)
  square_sum v u = add_power_volume v u (num 2)

  -- The snapshots hold both sums over the samples, from the given volumes on.
  abbrev pub HoldSums : List (ℕ × Volume R) → Volume R → Volume R → Snapshots R → Type 0
  HoldSums samples v w s =
      (mean : Volume R) × (moment : Volume R) × HoldsVolume s "mean" mean
      × HoldsVolume s "variance" moment
      × (sum_up add_volume samples v ≡ ok mean)
      × (sum_up square_sum samples w ≡ ok moment)

  moved :
      (s s' : Snapshots R) (name : String) (v : Volume R)
      → get_snapshot s' time name ≡ get_snapshot s time name
      → HoldsVolume s name v
      → HoldsVolume s' name v
  moved s s' name v e (x, e', e'') = (x, e ∙ e', e'')

  compute_step :
      (steps : ℕ) (u : Volume R) (s : Snapshots R)
      → IfOk
          (HoldSums
            ((steps, u) ∷ [])
            (start_volume (get_snapshot s time "mean") u)
            (start_volume (get_snapshot s time "variance") u))
          (compute_mean_variance (at steps) u s)
  unfolding compute_mean_variance
  compute_step steps u s =
      let s1 = find_or_create_snapshot "mean" (at steps) u s in
      let s2 = find_or_create_snapshot "variance" (at steps) u s1 in
      let (mean1, other1) = found "mean" "variance" steps u s refl variance_apart in
      let (moment2, other2) = found "variance" "mean" steps u s1 refl mean_apart in
      let moment2' = subst (λ o. HoldsVolume s2 "variance" (start_volume o u)) other1 moment2 in
      IfOk-bind
        (changed "mean" "variance" (λ mean. add_volume mean u) s2 _ refl variance_apart
          (moved s1 s2 "mean" _ other2 mean1))
        λ s3 (mean, e, held, kept).
          IfOk-map
            (changed "variance" "mean" (λ moment. square_sum moment u) s3 _ refl mean_apart
              (moved s2 s3 "variance" _ kept moment2'))
            λ s4 (moment, e', held', kept').
              (mean, moment, moved s3 s4 "mean" mean kept' held, held', rw e refl, rw e' refl)

  sum_up-cons :
      (op : Volume R → Volume R → Result (Volume R)) (steps : ℕ) (u : Volume R)
      (samples : List (ℕ × Volume R)) (v a b : Volume R)
      → sum_up op ((steps, u) ∷ []) v ≡ ok a
      → sum_up op samples a ≡ ok b
      → sum_up op ((steps, u) ∷ samples) v ≡ ok b
  sum_up-cons op steps u samples v a b e f = rw (sym (bind_ok (op v u)) ∙ e) f
    where
      bind_ok : (m : Result (Volume R)) → (m >>= λ x. ok x) ≡ m
      bind_ok (ok x) = refl
      bind_ok (err x) = refl

  started :
      (s : Snapshots R) (name : String) (v u : Volume R)
      → HoldsVolume s name v
      → start_volume (get_snapshot s time name) u ≡ v
  started s name v u (x, e, e') = rw e e'

  sums_from :
      (samples : List (ℕ × Volume R)) (s : Snapshots R) (v w : Volume R)
      → HoldsVolume s "mean" v
      → HoldsVolume s "variance" w
      → IfOk
          (HoldSums samples v w)
          (try_each (λ (p : ℕ × Volume R). compute_mean_variance (at p.0) p.1) samples s)
  unfolding try_each
  sums_from [] s v w held held' = if_ok (v, w, held, held', refl, refl)
  sums_from ((steps, u) ∷ samples) s v w held held' =
      IfOk-bind (compute_step steps u s) λ s1 (mean, moment, held1, held1', e, e').
        IfOk-map (sums_from samples s1 mean moment held1 held1')
          λ s2 (mean', moment', held2, held2', f, f'). (
            mean',
            moment',
            held2,
            held2',
            sum_up-cons add_volume steps u samples v mean mean'
                (subst (λ a. sum_up add_volume ((steps, u) ∷ []) a ≡ ok mean)
                  (started s "mean" v u held) e)
                f,
            sum_up-cons square_sum steps u samples w moment moment'
                (subst (λ a. sum_up square_sum ((steps, u) ∷ []) a ≡ ok moment)
                  (started s "variance" w u held') e')
                f',
          )

  -- After the samples of one time, "mean" holds their sum and "variance" the sum of their squares, from
  -- what the snapshots of that time held on, or from zeros.
  pub compute_mean_variance-HoldSums :
      (steps : ℕ) (u : Volume R) (samples : List (ℕ × Volume R)) (s : Snapshots R)
      → IfOk
          (HoldSums
            ((steps, u) ∷ samples)
            (start_volume (get_snapshot s time "mean") u)
            (start_volume (get_snapshot s time "variance") u))
          (try_each
            (λ (p : ℕ × Volume R). compute_mean_variance (at p.0) p.1)
            ((steps, u) ∷ samples)
            s)
  unfolding try_each
  compute_mean_variance-HoldSums steps u samples s =
      IfOk-bind (compute_step steps u s) λ s1 (mean, moment, held1, held1', e, e').
        IfOk-map (sums_from samples s1 mean moment held1 held1')
          λ s2 (mean', moment', held2, held2', f, f'). (
            mean',
            moment',
            held2,
            held2',
            sum_up-cons add_volume steps u samples _ mean mean' e f,
            sum_up-cons square_sum steps u samples _ moment moment' e' f',
          )
