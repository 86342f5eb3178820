-- ===== src/Uq/Generator/Calls.antt =====
-- The calls of all generators of a process, which share one engine
-- (alsuq/src/generator/STLMersenne.cpp).
use alsvinn.Base.{
  ℕ, suc, ◌≤◌, ◌<◌, ◌≡◌, refl, ap₂, subst, List, [], ◌∷◌, map, All, Result, ok, ◌>>=◌, Gives, gives,
  Gives-bind,
}
use alsvinn.Uq.Generator.{Engine, Instance, generate}
use alsvinn.Uq.Generator.Stream.{IsStream, Follows, number, generate-HandsOut}

-- A call of `generate`, on a generator with a dimension
pub record Call : Type 0 where
  pub dimension : ℕ
  pub component : ℕ
  pub sample : ℕ

abbrev pub IsFit : Call → Type 0
IsFit c = c.component < c.dimension

-- Places in order, none of them twice and none before a place
abbrev pub IsIncreasing : ℕ → List ℕ → Type 0
IsIncreasing from [] = Unit
IsIncreasing from (place ∷ places) = (from ≤ place) × IsIncreasing (suc place) places

module _ {E R : Type 0} (library : Engine E R) where
  unfoldable pub generate_each : List Call → Instance E → Result (List R × Instance E)
  unfolding generate
  generate_each [] g = ok ([], g)
  generate_each (c ∷ calls) g = generate library c.dimension c.component c.sample g >>= λ (x, g1).
      generate_each calls g1 >>= λ (xs, g2). ok (x ∷ xs, g2)

module _ {E R : Type 0} {library : Engine E R} (stream : IsStream library) (start : E) where
  -- Whatever the samples and the dimensions of the calls are, and the components below the dimensions, the
  -- numbers are those at increasing places of the stream: none is handed out twice.
  pub generate_each-IsIncreasing :
      (calls : List Call) (g : Instance E)
      → All IsFit calls
      → Follows library start g
      → Gives
          (λ (xs, g').
            (places : List ℕ) × (xs ≡ map (number library start) places)
            × IsIncreasing g.generated places)
          (generate_each library calls g)
  unfolding generate_each
  generate_each-IsIncreasing [] g fits follows = gives ([], refl, tt)
  generate_each-IsIncreasing (c ∷ calls) g (fit, fits) follows =
      Gives-bind (generate-HandsOut stream start c.dimension c.component c.sample g follows fit)
        λ (x, g1) out.
          Gives-bind (generate_each-IsIncreasing calls g1 fits out.follows)
            λ (xs, g2) (places, xs_are, up). gives (
              out.place ∷ places,
              ap₂ ◌∷◌ out.value xs_are,
              (out.next_free.not_before, subst (λ k. IsIncreasing k places) out.counted up),
            )
