-- ===== src/Uq/Samples/Rows.antt =====
-- The numbers of the engine's stream that a uniform parameter takes, sample by sample.
use alsvinn.Base.{
  ℕ, zero, suc, ◌+◌, ◌-◌, ◌*◌, ◌/◌, ◌%◌, ◌≤◌, ◌<◌, max, ◌⊎◌, inl, inr, ◌≡◌, refl, sym, ap, ap₂, ◌∙◌,
  subst, arith, List, [], ◌∷◌, Gives, gives, Gives-bind, Gives-map,
}
use alsvinn.Base.Real.{Real}
use alsvinn.Uq.Generator.{Engine, Instance}
use alsvinn.Uq.Generator.Stream.{IsStream, IsNextFree, Follows, number, generate-HandsOut}
use alsvinn.Uq.Samples.{uniform, make_entry, scale, fill, draw_from}

div_row : (t d i : ℕ) → i < d → (t * d + i) / d ≡ t
div_row t d i h = grind arith

mod_row : (t d i : ℕ) → i < d → (t * d + i) % d ≡ i
mod_row t d i h = grind arith

row_ge : (c d t : ℕ) → 1 ≤ d → t ≤ c / d → t * d ≤ c
row_ge c d t pos h = grind arith

row_mono : (t m d : ℕ) → t ≤ m → t * d ≤ m * d
row_mono t m d h = grind arith

-- The row a call takes its number from: the one reached, unless the sample starts later.
abbrev pub row_of : ℕ → ℕ → ℕ
row_of t sample = max t (sample - 1)

-- A call for a component, in order, gets its place in that row.
next_free_row :
    (d sample t i place : ℕ)
    → i < d
    → (sample - 1 ≤ t) ⊎ (i ≡ 0)
    → IsNextFree d i sample (t * d + i) place
    → place ≡ row_of t sample * d + i
next_free_row d sample t i place fits start free = at_row (row_of t sample) (ground arith)
  where
    at_row :
        (m : ℕ)
        → (t ≤ m) × (sample - 1 ≤ m) × ((m ≡ t) ⊎ ((i ≡ 0) × (m ≡ sample - 1)))
        → place ≡ m * d + i
    at_row m (above, reached, cause) = ground (
      arith,
      free.not_before,
      ap (λ (n : ℕ). n * d),
      row_ge place d (sample - 1) (omega arith) free.in_sample,
      free.least (m * d + i) (omega (arith, row_mono t m d above))
          (omega (arith, div_row m d i fits)) (omega (arith, mod_row m d i fits)),
    )

module _ {E R : Type 0} ⦃r : Real R⦄ (library : Engine E R) (start : E) where
  -- `rounds` numbers of the stream from a place on, scaled to the interval from a to b
  unfoldable pub stretch : R → R → ℕ → ℕ → List R
  stretch a b place zero = []
  stretch a b place (suc rounds) =
      scale a b (number library start place) ∷ stretch a b (suc place) rounds

  -- The generator is at the start of a row.
  abbrev pub AtRow : ℕ → ℕ → Instance E → Type 0
  AtRow d t g = Follows library start g × (g.generated ≡ t * d)

  -- The values are a whole row, and the generator is at the start of the next one.
  abbrev pub IsRow : R → R → ℕ → ℕ → List R × Instance E → Type 0
  IsRow a b d t (xs, g) = (xs ≡ stretch a b (t * d) d) × AtRow d (suc t) g

module _ {E R : Type 0} ⦃r : Real R⦄ {library : Engine E R} (stream : IsStream library) (start : E)
    (a b : R) (d sample : ℕ) where
  -- One number has been taken, at a place.
  abbrev Took : ℕ → R × Instance E → Type 0
  Took place (x, g) =
      (x ≡ scale a b (number library start place))
      × Follows library start g
      × (g.generated ≡ suc place)

  abbrev IsStretch : ℕ → ℕ → List R × Instance E → Type 0
  IsStretch place rounds (xs, g) =
      (xs ≡ stretch library start a b place rounds)
      × Follows library start g
      × (g.generated ≡ place + rounds)

  draw_from-Took :
      (t i place : ℕ) (g : Instance E)
      → i < d
      → (sample - 1 ≤ t) ⊎ (i ≡ 0)
      → Follows library start g
      → g.generated ≡ t * d + i
      → row_of t sample * d + i ≡ place
      → Gives (Took place) (draw_from library (uniform a b) d i sample g)
  unfolding draw_from
  draw_from-Took t i place g fits begun follows counted there =
      Gives-bind (generate-HandsOut stream start d i sample g follows fits) λ (x, g1) out.
        let same =
          next_free_row d sample t i out.place fits begun
            (subst (λ c. IsNextFree d i sample c out.place) counted out.next_free)
          ∙ there in
        gives (
          ap (scale a b) (out.value ∙ ap (number library start) same),
          out.follows,
          out.counted ∙ ap suc same,
        )

  fill-IsStretch :
      (t rounds i place : ℕ) (g : Instance E)
      → i + rounds ≡ d
      → sample - 1 ≤ t
      → Follows library start g
      → g.generated ≡ place
      → place ≡ t * d + i
      → Gives (IsStretch place rounds) (fill library (make_entry d (uniform a b)) sample rounds i g)
  unfolding fill stretch
  fill-IsStretch t zero i place g total reached follows counted there =
      gives (refl, follows, omega (arith, counted))
  fill-IsStretch t (suc rounds) i place g total reached follows counted there =
      Gives-bind
        (draw_from-Took t i place g (omega arith) (inl reached) follows (counted ∙ there)
          (ground (arith, there)))
        λ (x, g1) (x_is, follows1, counted1).
          Gives-bind
            (fill-IsStretch t rounds (suc i) (suc place) g1 (omega arith) reached follows1 counted1
              (omega arith))
            λ (xs, g2) (xs_are, follows2, counted2).
              gives (ap₂ ◌∷◌ x_is xs_are, follows2, omega (arith, counted2))

  fill_row :
      (t rounds : ℕ) (g : Instance E)
      → rounds ≡ d
      → AtRow library start d t g
      → Gives
          (IsStretch (row_of t sample * d) rounds)
          (fill library (make_entry d (uniform a b)) sample rounds 0 g)
  unfolding fill stretch
  fill_row t zero g total (follows, counted) =
      gives (refl, follows, counted ∙ no_room d t (row_of t sample) (sym total))
    where
      no_room : (n k m : ℕ) → n ≡ 0 → k * n ≡ m * n + 0
      no_room n k m e = rw e (omega arith)
  fill_row t (suc rounds) g total (follows, counted) =
      Gives-bind
        (draw_from-Took t 0 (row_of t sample * d) g (omega arith) (inr refl) follows
          (omega (arith, counted)) (omega arith))
        λ (x, g1) (x_is, follows1, counted1).
          Gives-bind
            (fill-IsStretch (row_of t sample) rounds 1 (suc (row_of t sample * d)) g1 (omega arith)
              (ground arith) follows1 counted1 (omega arith))
            λ (xs, g2) (xs_are, follows2, counted2).
              gives (ap₂ ◌∷◌ x_is xs_are, follows2, omega (arith, counted2))

  -- A sample takes the whole row that the generator has reached, or else the row before the sample's
  -- own, and leaves the generator at the start of the next row.
  pub fill-IsRow :
      (t : ℕ) (g : Instance E)
      → AtRow library start d t g
      → Gives
          (IsRow library start a b d (row_of t sample))
          (fill library (make_entry d (uniform a b)) sample d 0 g)
  fill-IsRow t g at_row =
      Gives-map (fill_row t d g refl at_row)
        λ (xs, g1) (xs_are, follows, counted). (xs_are, (follows, omega (arith, counted)))
