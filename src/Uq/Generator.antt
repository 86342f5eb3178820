-- ===== src/Uq/Generator.antt =====
-- alsuq/src/generator/STLMersenne.cpp: random numbers from the one engine of the process, with the
-- number of those handed out. `E` is the state of the engine.
pub mod Calls
pub mod Stream
use alsvinn.Base.{
  ℕ, suc, ◌+◌, ◌-◌, ◌*◌, ◌/◌, ◌%◌, Bool, ltb, leb, if◌then◌else◌, Result, ok, err,
  component_too_high, unknown_generator,
}

-- `std::mt19937_64` with `std::uniform_real_distribution<real>`, which are the C++ library's:
-- `discard`, and a number with the engine after it.
pub record Engine (E R : Type 0) : Type 0 where
  pub discard : ℕ → E → E
  pub draw : E → R × E

-- The static pair of `getGeneratorInstance`. The number of random numbers handed out is a `long` that
-- starts at 0 and only grows.
pub record Instance (E : Type 0) : Type 0 where
  pub engine : E
  pub generated : ℕ

module _ {E R : Type 0} (library : Engine E R) where
  skip : ℕ → Instance E → Instance E
  skip n g = record { engine = library.discard n g.engine; generated = g.generated + n }

  -- The numbers of earlier samples are left out. For sample 0 the source compares with -1 and the model
  -- with 0: neither is above a quotient.
  unfoldable pub match_sample : ℕ → ℕ → Instance E → Instance E
  unfolding skip
  match_sample dimension sample g =
      if ltb (g.generated / dimension) (sample - 1)
      then skip ((sample - 1) * dimension - g.generated) g
      else g

  -- The numbers of earlier components are left out, where the same holds of component 0.
  unfoldable pub match_component : ℕ → ℕ → Instance E → Instance E
  unfolding skip
  match_component dimension component g =
      if ltb (g.generated % dimension) (component - 1)
      then skip (component - 1 - g.generated % dimension) g
      else g

  unfoldable pub next_number : Instance E → R × Instance E
  next_number g =
      let (x, after) = library.draw g.engine in
      (x, record { engine = after; generated = suc g.generated })

  -- `STLMersenne::generate`
  unfoldable pub generate : ℕ → ℕ → ℕ → Instance E → Result (R × Instance E)
  unfolding match_sample match_component next_number
  generate dimension component sample g =
      if leb dimension component
      then err component_too_high
      else ok (next_number (match_component dimension component (match_sample dimension sample g)))
