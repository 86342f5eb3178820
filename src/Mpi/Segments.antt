-- ===== src/Mpi/Segments.antt =====
-- The loops of `computeDisplacements` and `computeLengths` in three dimensions (displacements.hpp and
-- lengths.hpp).
use alsvinn.Mpi.Displacements.{
  progression, displacements-progression, size, minus, start-x_low3, start-x_high3, step-x_low3,
  step-x_high3, start-y_low3, start-y_high3, step-y_low3, step-y_high3, start-z_low, start-z_high,
}
use alsvinn.Base.{
  ℕ, suc, ◌+◌, ◌-◌, ◌*◌, ◌≤◌, ◌<◌, ◌≡◌, refl, ap, [], ◌∷◌, arith, replicate, subst, sym,
}
use alsvinn.Base.Int.{ℤ, pos, ◌*ℤ◌, pos-*ℤ-pos, pos_part, *ℤ-minus_one}
use alsvinn.Mpi.Cartesian.{
  displacement_at, displacements_from, compute_displacements, compute_number_of_segments,
  compute_lengths, length_of,
}

-- What a side of a volume sends: `rounds` segments of `length` cells, `stride` apart, from `first` on.
unfoldable pub IsLayer : (nx ny nz g b side stride first rounds length : ℕ) → Type 0
IsLayer nx ny nz g b side stride first rounds length =
    (compute_displacements side 3 (size nx ny nz g b) (pos g) (pos b)
      ≡ progression stride first rounds 0)
    × (compute_lengths side 3 (size nx ny nz g b) (pos g) ≡ replicate rounds (pos length))

module _ (nx ny nz g b : ℕ) where
  from_rounds :
      (side stride first rounds : ℕ) (base : ℤ)
      → compute_number_of_segments side 3 (size nx ny nz g b) ≡ pos rounds
      → ((p : ℤ) → displacement_at side 3 (size nx ny nz g b) (pos g) base 0 p ≡ pos first)
      → ((k : ℕ)
          → displacement_at side 3
              (size nx ny nz g b)
              (pos g)
              base
              (suc k)
              (pos (k * stride + first))
            ≡ pos (suc k * stride + first))
      → displacements_from side 3
          (size nx ny nz g b)
          (pos g)
          base
          (pos_part (compute_number_of_segments side 3 (size nx ny nz g b)))
          0
          (pos 0)
        ≡ progression stride first rounds 0
  from_rounds side stride first rounds base e start step =
      subst
        (λ (c : ℤ).
          displacements_from side 3 (size nx ny nz g b) (pos g) base (pos_part c) 0 (pos 0)
          ≡ progression stride first rounds 0)
        (sym e)
        (displacements-progression side 3 (size nx ny nz g b) (pos g) base stride first start step
          rounds)

  -- A side in z has one segment, and never takes the step.
  from_one_round :
      (side first : ℕ) (base : ℤ)
      → compute_number_of_segments side 3 (size nx ny nz g b) ≡ pos 1
      → ((p : ℤ) → displacement_at side 3 (size nx ny nz g b) (pos g) base 0 p ≡ pos first)
      → displacements_from side 3
          (size nx ny nz g b)
          (pos g)
          base
          (pos_part (compute_number_of_segments side 3 (size nx ny nz g b)))
          0
          (pos 0)
        ≡ progression 0 first 1 0
  unfolding displacements_from progression
  from_one_round side first base e start =
      let f : first ≡ 0 * 0 + first = omega arith in
      rw (e, start (pos 0)) (ap (λ (t : ℕ). pos t ∷ []) f)

  rounds-x : (s : ℕ) → s < 2 → compute_number_of_segments s 3 (size nx ny nz g b) ≡ pos (ny * nz)
  unfolding compute_number_of_segments
  rounds-x s h = grind (arith, pos-*ℤ-pos)

  product_3 : pos g *ℤ pos nx *ℤ pos ny ≡ pos (g * nx * ny)
  product_3 = rw (pos-*ℤ-pos g nx, pos-*ℤ-pos (g * nx) ny) refl

  abbrev IsSegments : ℕ → ℕ → ℕ → ℕ → ℕ → Type 0
  IsSegments = IsLayer nx ny nz g b

  pub layer-x_low : IsSegments 0 nx b (ny * nz) g
  unfolding compute_displacements compute_lengths length_of IsLayer
  layer-x_low =
      let x0 = rounds-x 0 (omega arith) in
      (
        from_rounds 0 nx b (ny * nz) (pos b) x0 (start-x_low3 nx ny nz g b)
            (λ k. step-x_low3 nx ny nz g b k b),
        ap (λ (c : ℤ). replicate (pos_part c) (pos g)) x0,
      )

  pub layer-x_high : g + b ≤ nx → IsSegments 1 nx (nx - g - b) (ny * nz) g
  unfolding compute_displacements compute_lengths length_of IsLayer
  layer-x_high hx =
      let x1 = rounds-x 1 (omega arith) in
      (
        rw (*ℤ-minus_one (pos b)) (
            from_rounds 1 nx (nx - g - b) (ny * nz) (minus nx ny nz g b) x1
              (start-x_high3 nx ny nz g b hx) (λ k. step-x_high3 nx ny nz g b k (nx - g - b))),
        ap (λ (c : ℤ). replicate (pos_part c) (pos g)) x1,
      )

  pub layer-y_low : IsSegments 2 (nx * ny) (b * nx) nz (g * nx)
  unfolding compute_displacements compute_lengths length_of IsLayer
  layer-y_low = (
    from_rounds 2 (nx * ny) (b * nx) nz (pos b) refl (start-y_low3 nx ny nz g b)
        (λ k. step-y_low3 nx ny nz g b k (b * nx)),
    ap (replicate nz) (pos-*ℤ-pos g nx),
  )

  pub layer-y_high : g + b ≤ ny → IsSegments 3 (nx * ny) ((ny - g - b) * nx) nz (g * nx)
  unfolding compute_displacements compute_lengths length_of IsLayer
  layer-y_high hy = (
    rw (*ℤ-minus_one (pos b)) (
        from_rounds 3 (nx * ny) ((ny - g - b) * nx) nz (minus nx ny nz g b) refl
          (start-y_high3 nx ny nz g b hy) (λ k. step-y_high3 nx ny nz g b k ((ny - g - b) * nx))),
    ap (replicate nz) (pos-*ℤ-pos g nx),
  )

  pub layer-z_low : IsSegments 4 0 (b * (nx * ny)) 1 (g * nx * ny)
  unfolding compute_displacements compute_lengths length_of IsLayer
  layer-z_low = (
    from_one_round 4 (b * (nx * ny)) (pos b) refl (start-z_low nx ny nz g b),
    ap (replicate 1) product_3,
  )

  pub layer-z_high : g + b ≤ nz → IsSegments 5 0 ((nz - g - b) * (nx * ny)) 1 (g * nx * ny)
  unfolding compute_displacements compute_lengths length_of IsLayer
  layer-z_high hz = (
    rw (*ℤ-minus_one (pos b)) (
        from_one_round 5 ((nz - g - b) * (nx * ny)) (minus nx ny nz g b) refl
          (start-z_high nx ny nz g b hz)),
    ap (replicate 1) product_3,
  )

  -- In three dimensions the segments of a side are the rows of one layer of cells: where the `g`
  -- layers that start `b` cells inside each side fit, a side in x has ny * nz segments of g cells, nx
  -- apart; a side in y has nz segments of g * nx cells, nx * ny apart; a side in z has one segment of
  -- g * nx * ny cells. A lower side starts at its layer b, an upper one at its extent less g + b.
  pub compute_displacements-IsLayer :
      g + b ≤ nx
      → g + b ≤ ny
      → g + b ≤ nz
      → IsLayer nx ny nz g b 0 nx b (ny * nz) g
        × IsLayer nx ny nz g b 1 nx (nx - g - b) (ny * nz) g
        × IsLayer nx ny nz g b 2 (nx * ny) (b * nx) nz (g * nx)
        × IsLayer nx ny nz g b 3 (nx * ny) ((ny - g - b) * nx) nz (g * nx)
        × IsLayer nx ny nz g b 4 0 (b * (nx * ny)) 1 (g * nx * ny)
        × IsLayer nx ny nz g b 5 0 ((nz - g - b) * (nx * ny)) 1 (g * nx * ny)
  compute_displacements-IsLayer hx hy hz =
      (layer-x_low, layer-x_high hx, layer-y_low, layer-y_high hy, layer-z_low, layer-z_high hz)
