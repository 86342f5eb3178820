-- ===== src/Uq/Samples/Ensemble.antt =====
-- The random parameters of the consecutive samples of a process: the calls of the generator in
-- Runner::run (alsuq/src/run/Runner.cpp) with a single uniform parameter.
use Prim.Native.String.{String}
use text.Mathlib.TextEquality.{eq_iff}
use alsvinn.Base.{
  ℕ, zero, suc, ◌*◌, ◌≡◌, refl, ap, ap₂, ◌∙◌, arith, List, [], ◌∷◌, Result, ok, ◌>>=◌, Gives, gives,
  Gives-bind,
}
use alsvinn.Base.Real.{Real}
use alsvinn.Uq.Generator.{Engine, Instance}
use alsvinn.Uq.Generator.Stream.{IsStream}
use alsvinn.Uq.Runner.{generate_all}
use alsvinn.Uq.Samples.{Entry, uniform, make_entry, fill, generate_parameter}
use alsvinn.Uq.Samples.Rows.{row_of, stretch, AtRow, fill-IsRow}
use alsvinn.Uq.Statistics.{map_find}

-- The samples first, first + 1, ..., as `samplesForProc` lists them
unfoldable pub samples_from : ℕ → ℕ → List ℕ
samples_from first zero = []
samples_from first (suc n) = first ∷ samples_from (suc first) n

module _ {R G : Type 0} where
  -- The parameters of each sample, in the order of the loops of Runner::run
  unfoldable pub parameters_of :
      (String → ℕ → G → Result (List R × G))
      → List String
      → List ℕ
      → G
      → Result (List (List (String × List R)) × G)
  unfolding generate_all
  parameters_of generate names [] g = ok ([], g)
  parameters_of generate names (sample ∷ samples) g =
      generate_all generate sample names g >>= λ (parameters, g1).
      parameters_of generate names samples g1 >>= λ (rest, g2). ok (parameters ∷ rest, g2)

-- A map with one parameter
abbrev pub only : {R : Type 0} → String → ℕ → R → R → List (String × Entry R)
only name d a b = (name, make_entry d (uniform a b)) ∷ []

module _ {E R : Type 0} ⦃r : Real R⦄ (library : Engine E R) (start : E) (name : String) where
  -- The rows of the stream from a row on, one for each of n samples
  unfoldable pub rows_from : ℕ → R → R → ℕ → ℕ → List (List (String × List R))
  rows_from d a b row zero = []
  rows_from d a b row (suc n) =
      ((name, stretch library start a b (row * d) d) ∷ []) ∷ rows_from d a b (suc row) n

module _ {E R : Type 0} ⦃r : Real R⦄ {library : Engine E R} (stream : IsStream library) (start : E)
    (name : String) (d : ℕ) (a b : R) where
  only_found :
      (sample : ℕ) (g : Instance E)
      → generate_parameter library (only name d a b) name sample g
        ≡ fill library (make_entry d (uniform a b)) sample d 0 g
  unfolding generate_parameter map_find
  only_found sample g = rw (generate_parameter, map_find, (eq_iff name name).1 refl) refl

  one_sample :
      (sample t : ℕ) (g : Instance E)
      → AtRow library start d t g
      → Gives
          (λ (parameters, g').
            (parameters ≡ (name, stretch library start a b (row_of t sample * d) d) ∷ [])
            × AtRow library start d (suc (row_of t sample)) g')
          (generate_all (generate_parameter library (only name d a b)) sample (name ∷ []) g)
  unfolding generate_all
  one_sample sample t g at_row = rw (only_found sample g) (
      Gives-bind (fill-IsRow stream start a b d sample t g at_row)
        λ (xs, g1) (xs_are, after). gives (ap (λ ys. (name, ys) ∷ []) xs_are, after))

  -- With one uniform parameter, and the generator at the start of a row, the parameters of consecutive
  -- samples are consecutive rows of the stream. The first of them is the row that the generator has
  -- reached, or the row of the sample before the first one if that is later.
  pub parameters_of-rows_from :
      (n first t : ℕ) (g : Instance E)
      → AtRow library start d t g
      → Gives
          (λ (ps, g'). ps ≡ rows_from library start name d a b (row_of t first) n)
          (parameters_of
            (generate_parameter library (only name d a b))
            (name ∷ [])
            (samples_from first n)
            g)
  unfolding parameters_of samples_from rows_from
  parameters_of-rows_from zero first t g at_row = gives refl
  parameters_of-rows_from (suc n) first t g at_row =
      Gives-bind (one_sample first t g at_row) λ (ps, g1) (ps_are, after).
        Gives-bind (parameters_of-rows_from n (suc first) (suc (row_of t first)) g1 after)
          λ (rest, g2) rest_are. gives (
            ap₂ ◌∷◌ ps_are
              (rest_are ∙ ap (λ row. rows_from library start name d a b row n) (later first t)))
    where
      later : (m k : ℕ) → row_of (suc (row_of k m)) (suc m) ≡ suc (row_of k m)
      later m k = ground arith
