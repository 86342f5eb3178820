-- ===== src/Uq/Samples.antt =====
-- alsuq/src/samples/SampleGenerator.cpp and alsuq/src/distribution: the random parameters of a sample.
-- The entries of the map of parameters share the one instance of the generator (Generator.antt), and
-- differ in the dimension they were made with.
pub mod Ensemble
pub mod Rows
use Prim.Native.String.{String}
use text.Mathlib.Text.{◌==◌ as str_eq}
use alsvinn.Base.{
  ℕ, zero, suc, List, [], ◌∷◌, Bool, leb, not, if◌then◌else◌, Option, none, some, Result, ok, err,
  ◌>>=◌, map, one_dimension_only, unknown_parameter,
}
use alsvinn.Base.Real.{Real, num}
use alsvinn.Uq.Generator.{Engine, Instance, generate}
use alsvinn.Uq.Statistics.{map_find}

-- The distributions. A `function` is that of `FunctionDistribution`, whose numbers come from elsewhere.
pub data Distribution (R : Type 0) : Type 0 where
  uniform : (a b : R) → Distribution R
  uniform_1d : (a delta_x : R) → Distribution R
  function : (ℕ → ℕ → R) → Distribution R

-- `generators[parameter]`, where the generator is an `STLMersenne` and stands as its dimension
pub record Entry (R : Type 0) : Type 0 where
  pub dimension : ℕ
  pub generator : ℕ
  pub distribution : Distribution R

-- The entry that `Setup::makeSampleGenerator` makes for a parameter
abbrev pub make_entry : {R : Type 0} → ℕ → Distribution R → Entry R
make_entry length distribution = record {
  dimension = length;
  generator = length;
  distribution = distribution;
}

-- `SampleGenerator::getParameterList`
unfoldable pub get_parameter_list : {R : Type 0} → List (String × Entry R) → List String
get_parameter_list generators = map (λ p. p.0) generators

module _ {R : Type 0} ⦃r : Real R⦄ where
  -- The constructor of `Uniform1D`
  unfoldable pub make_uniform_1d : ℕ → R → R → Distribution R
  make_uniform_1d number_of_samples a b = uniform_1d a (r.div (r.sub b a) (num number_of_samples))

  -- `Uniform::scale`
  unfoldable pub scale : R → R → R → R
  scale a b x = r.add (r.mul x (r.sub b a)) a

  -- `a + deltaX * (sample + 0.5)`
  unfoldable pub sample_midpoint : R → R → ℕ → R
  sample_midpoint a delta_x sample =
      r.add a (r.mul delta_x (r.add (num sample) (r.div (num 1) (num 2))))

  module _ {E : Type 0} (library : Engine E R) where
    -- `distribution->generate(*generator, component, sample)`
    unfoldable pub draw_from : Distribution R → ℕ → ℕ → ℕ → Instance E → Result (R × Instance E)
    unfolding generate scale sample_midpoint
    draw_from (uniform a b) dimension component sample g =
        generate library dimension component sample g >>= λ (x, g'). ok (scale a b x, g')
    draw_from (uniform_1d a delta_x) dimension component sample g =
        if not (leb component 0)
        then err one_dimension_only
        else ok (sample_midpoint a delta_x sample, g)
    draw_from (function f) dimension component sample g = ok (f component sample, g)

    -- The loop that fills `samples`, from the i-th component on
    unfoldable pub fill : Entry R → ℕ → ℕ → ℕ → Instance E → Result (List R × Instance E)
    unfolding draw_from
    fill entry sample zero i g = ok ([], g)
    fill entry sample (suc rounds) i g =
        draw_from entry.distribution entry.generator i sample g >>= λ (x, g1).
        fill entry sample rounds (suc i) g1 >>= λ (xs, g2). ok (x ∷ xs, g2)

    -- `SampleGenerator::generate`
    unfoldable pub generate_parameter :
        List (String × Entry R) → String → ℕ → Instance E → Result (List R × Instance E)
    unfolding fill map_find
    generate_parameter generators parameter sample g =
        elim (map_find (str_eq parameter) generators) [
          | none ↦ err unknown_parameter
          | some entry ↦ fill entry sample entry.dimension 0 g
        ]
