-- ===== src/Uq/Generator/Stream.antt =====
-- Which numbers of the engine's stream the generator hands out.
use alsvinn.Base.{
  ℕ, suc, ◌+◌, ◌-◌, ◌*◌, ◌/◌, ◌%◌, ◌≤◌, ◌<◌, ◌≡◌, ◌∙◌, refl, sym, ap, arith, lt→leb, Gives, gives,
}
use alsvinn.Uq.Generator.{Engine, Instance, match_sample, match_component, next_number, generate}

-- What the C++ library says of its engine: `discard(n)` is a step for each of n numbers, and a `float`
-- or a `double` takes one of them.
pub record IsStream {E R : Type 0} (library : Engine E R) : Type 0 where
  pub discard_add :
      (m n : ℕ) (e : E) → library.discard (m + n) e ≡ library.discard n (library.discard m e)
  pub draw_one : (e : E) → (library.draw e).1 ≡ library.discard 1 e

module _ {E R : Type 0} (library : Engine E R) where
  -- The number at a place of the stream that starts with an engine
  abbrev pub number : E → ℕ → R
  number start place = (library.draw (library.discard place start)).0

  -- The count of the generator is its place in the stream.
  abbrev pub Follows : E → Instance E → Type 0
  Follows start g = g.engine ≡ library.discard g.generated start

-- The first place, from the next one on, of the sample before the given one or of a later sample, and
-- of the component before the given one or of a later component. (Sample 0 and component 0 count as
-- their own predecessors.)
pub record IsNextFree (dimension component sample from place : ℕ) : Type 0 where
  pub not_before : from ≤ place
  pub in_sample : sample - 1 ≤ place / dimension
  pub in_component : component - 1 ≤ place % dimension
  pub least :
      (q : ℕ) → from ≤ q → sample - 1 ≤ q / dimension → component - 1 ≤ q % dimension → place ≤ q

div_lt : (c d t : ℕ) → 1 ≤ d → c / d < t → c < t * d
div_lt c d t pos h = grind arith

div_ge : (c d t : ℕ) → 1 ≤ d → t ≤ c / d → t * d ≤ c
div_ge c d t pos h = grind arith

le_div : (c d t : ℕ) → 1 ≤ d → t * d ≤ c → t ≤ c / d
le_div c d t pos h = grind arith

-- The place of a component in the sample of `c`
slot_div : (c d r : ℕ) → r < d → (c + (r - c % d)) / d ≡ c / d
slot_div c d r h = grind arith

slot_mod : (c d r : ℕ) → r < d → r ≤ (c + (r - c % d)) % d
slot_mod c d r h = grind arith

slot_least : (c d r q : ℕ) → r < d → c ≤ q → r ≤ q % d → c + (r - c % d) ≤ q
slot_least c d r q h l m = grind arith

-- What a call gives: the number at the first free place, and that place is the last one handed out.
pub record HandsOut {E R : Type 0} (library : Engine E R) (start : E)
    (dimension component sample from : ℕ) (result : R × Instance E) : Type 0 where
  pub place : ℕ
  pub next_free : IsNextFree dimension component sample from place
  pub value : result.0 ≡ number library start place
  pub counted : result.1.generated ≡ suc place
  pub follows : Follows library start result.1

module _ {E R : Type 0} {library : Engine E R} (stream : IsStream library) (start : E) where
  skip-Follows :
      (n : ℕ) (g : Instance E)
      → Follows library start g
      → library.discard n g.engine ≡ library.discard (g.generated + n) start
  skip-Follows n g follows =
      ap (library.discard n) follows ∙ sym (stream.discard_add g.generated n start)

  match_sample_lem :
      (d sample : ℕ) (g : Instance E)
      → 1 ≤ d
      → Follows library start g
      → Follows library start (match_sample library d sample g)
        × (g.generated ≤ (match_sample library d sample g).generated)
        × (sample - 1 ≤ (match_sample library d sample g).generated / d)
        × ((q : ℕ)
            → g.generated ≤ q
            → sample - 1 ≤ q / d
            → (match_sample library d sample g).generated ≤ q)
  unfolding match_sample
  match_sample_lem d sample g pos follows = ground (
    arith,
    skip-Follows ((sample - 1) * d - g.generated) g follows,
    div_lt g.generated d (sample - 1) pos,
    le_div g.generated d (sample - 1) pos,
    le_div (g.generated + ((sample - 1) * d - g.generated)) d (sample - 1) pos,
    λ (q : ℕ). div_ge q d (sample - 1) pos,
  )

  match_component_lem :
      (d component : ℕ) (g : Instance E)
      → component < d
      → Follows library start g
      → Follows library start (match_component library d component g)
        × ((match_component library d component g).generated
            ≡ g.generated + (component - 1 - g.generated % d))
  unfolding match_component
  match_component_lem d component g fits follows =
      ground (arith, skip-Follows (component - 1 - g.generated % d) g follows)

  next_number-HandsOut :
      (d component sample from : ℕ) (g : Instance E)
      → Follows library start g
      → IsNextFree d component sample from g.generated
      → HandsOut library start d component sample from (next_number library g)
  unfolding next_number
  next_number-HandsOut d component sample from g follows free = record {
    place = g.generated;
    next_free = free;
    value = ap (λ e. (library.draw e).0) follows;
    counted = refl;
    follows =
        stream.draw_one g.engine
        ∙ skip-Follows 1 g follows
        ∙ ap (λ n. library.discard n start) (omega arith);
  }

  slot-IsNextFree :
      (d component sample from c : ℕ)
      → component < d
      → from ≤ c
      → sample - 1 ≤ c / d
      → ((q : ℕ) → from ≤ q → sample - 1 ≤ q / d → c ≤ q)
      → IsNextFree d component sample from (c + (component - 1 - c % d))
  slot-IsNextFree d component sample from c fits later reached first = record {
    not_before = omega arith;
    in_sample = omega (arith, slot_div c d (component - 1) (omega arith));
    in_component = slot_mod c d (component - 1) (omega arith);
    least = λ q lo in_s in_c. slot_least c d (component - 1) q (omega arith) (first q lo in_s) in_c;
  }

  -- Where the count is the place in the stream, a call for a component below the dimension does not throw
  -- and gets the number at the first free place.
  pub generate-HandsOut :
      (d component sample : ℕ) (g : Instance E)
      → Follows library start g
      → component < d
      → Gives
          (HandsOut library start d component sample g.generated)
          (generate library d component sample g)
  unfolding generate
  generate-HandsOut d component sample g follows fits =
      let (follows1, later, reached, first) = match_sample_lem d sample g (omega arith) follows in
      let (follows2, slot) =
        match_component_lem d component (match_sample library d sample g) fits follows1 in
      rw (lt→leb component d fits) (
        gives (
          next_number-HandsOut d component sample g.generated _ follows2
            (rw slot (slot-IsNextFree d component sample g.generated _ fits later reached first))))
