-- ===== src/Reconstruction/Weno.antt =====
-- alsfvm/src/reconstruction/WENOCPU.cpp with WENOCoefficients.cpp, for the orders 2 and 3. A cell is a
-- struct `C` of all variables, with the sum and the product by a number; `indicator` reads the variable
-- that chooses the weights.
pub mod Reach
pub mod Promise
use alsvinn.Base.{
  ℕ, zero, suc, ◌+◌, ◌-◌, ◌*◌, ◌^◌, ◌==◌, Bool, true, List, [], ◌∷◌, map, get_or, ltb, ◌&&◌,
  if◌then◌else◌, Result, ok, undefined, unsupported_direction, guard, ◌>>=◌, ◌>>◌, for_range,
}
use alsvinn.Base.Int.{ℤ, pos, ◌+ℤ◌, ◌-ℤ◌}
use alsvinn.Base.Real.{Real, num}
use alsvinn.Vec.{Vec3, vec3}
use alsvinn.Boxes.{try_nest}
use alsvinn.Views.{Shape, Views, index, fetch, set_view_at}
use alsvinn.Numflux.{Reconstruction, along}
use alsvinn.Reconstruction.Coefficients.{eno_values}

-- The cells at the offsets from `lo` on
unfoldable pub read_cells : {C : Type 0} → Shape → ℕ → Views C → Vec3 ℤ → ℤ → ℕ → Result (List C)
unfolding fetch index along
read_cells g d input c lo zero = ok []
read_cells g d input c lo (suc n) = do
  a ← fetch input (index g (along d lo c))
  rest ← read_cells g d input c (lo +ℤ pos 1) n
  ok (a ∷ rest)

-- `WENOCoefficients<order>`
pub record WenoOrder (R : Type 0) : Type 0 where
  pub order : ℕ
  pub coefficients : List R
  pub compute_beta : ℕ → List R → R

module _ {R : Type 0} ⦃r : Real R⦄ where
  square : R → R
  square a = r.pow a (num 2)

  quarter_sum : R → R → R
  unfolding square
  quarter_sum a b =
      r.add (r.mul (r.div (num 13) (num 12)) (square a)) (r.mul (r.div (num 1) (num 4)) (square b))

  -- `WENOCoefficients<2>::computeBeta` and `WENOCoefficients<3>::computeBeta`
  beta_of_2 : ℕ → List R → R
  beta_of_2 i v =
      let at : ℕ → R = λ j. get_or v j (num 0) in
      let beta = if i == 0 then r.sub (at 2) (at 1) else r.sub (at 1) (at 0) in r.mul beta beta

  beta_of_3 : ℕ → List R → R
  unfolding quarter_sum
  beta_of_3 i v =
      let at : ℕ → R = λ j. get_or v j (num 0) in
      if i == 0
      then (quarter_sum (r.add (r.sub (at 2) (r.mul (num 2) (at 3))) (at 4))
          (r.add (r.sub (r.mul (num 3) (at 2)) (r.mul (num 4) (at 3))) (at 4)))
      else if i == 1
      then (quarter_sum (r.add (r.sub (at 1) (r.mul (num 2) (at 2))) (at 3)) (r.sub (at 1) (at 3)))
      else (quarter_sum (r.add (r.sub (at 0) (r.mul (num 2) (at 1))) (at 2))
          (r.add (r.sub (at 0) (r.mul (num 4) (at 1))) (r.mul (num 3) (at 2))))

  unfoldable pub weno_of_2 : WenoOrder R
  unfolding beta_of_2
  weno_of_2 = record {
    order = 2;
    coefficients = r.div (num 2) (num 3) ∷ r.div (num 1) (num 3) ∷ [];
    compute_beta = beta_of_2;
  }

  unfoldable pub weno_of_3 : WenoOrder R
  unfolding beta_of_3
  weno_of_3 = record {
    order = 3;
    coefficients = r.div (num 3) (num 10) ∷ r.div (num 3) (num 5) ∷ r.div (num 1) (num 10) ∷ [];
    compute_beta = beta_of_3;
  }

  epsilon : R
  epsilon = r.div (num 1) (num (10 ^ 8))

  module _ (w : WenoOrder R) where
    -- `right[i]` and `left[i]` of `computeAlpha`
    unfoldable pub alpha_right : List R → ℕ → R
    unfolding epsilon
    alpha_right stencil i =
        r.div (get_or w.coefficients i (num 0))
          (r.pow (r.add (w.compute_beta i stencil) epsilon) (num 2))

    unfoldable pub alpha_left : List R → ℕ → R
    unfolding epsilon
    alpha_left stencil i =
        r.div (get_or w.coefficients (w.order - 1 - i) (num 0))
          (r.pow (r.add (w.compute_beta i stencil) epsilon) (num 2))

    -- `sum += alpha[i]`, from the last `i` down to 0
    unfoldable pub sum_alpha : (ℕ → R) → ℕ → R → R
    sum_alpha alpha zero sum = sum
    sum_alpha alpha (suc i) sum = sum_alpha alpha i (r.add sum (alpha i))

    -- The assertions
    unfoldable pub weno_fits : Shape → ℕ → Bool
    weno_fits g d =
        ltb (if d == 0 then 2 * w.order else 0) g.nx
        && ((if d == 1 then ltb (2 * w.order) g.ny else true)
            && (if d == 2 then ltb (2 * w.order) g.nz else true))

    module _ {C : Type 0} (nought : C) (plus : C → C → C) (scale : R → C → C)
        (indicator : ℕ → C → R) where
      -- The loop over the stencils, for the cells from `order - 1` before the middle one on
      unfoldable pub weno_values : ℕ → List C → C × C
      unfolding alpha_left alpha_right sum_alpha eno_values for_range
      weno_values variable cells =
          let stencil = map (indicator variable) cells in
          let left_sum = sum_alpha (alpha_left stencil) w.order (num 0) in
          let right_sum = sum_alpha (alpha_right stencil) w.order (num 0) in
          for_range w.order 0
            (λ shift values.
              let parts = eno_values nought plus scale w.order shift cells in
              (
                plus values.0 (scale (r.div (alpha_left stencil shift) left_sum) parts.0),
                plus values.1 (scale (r.div (alpha_right stencil shift) right_sum) parts.1),
              ))
            (nought, nought)

      -- The body of the loop over the cells
      unfoldable pub weno_cell :
          Shape → ℕ → ℕ → Views C → Vec3 ℤ → Views C × Views C → Result (Views C × Views C)
      unfolding read_cells weno_values set_view_at index
      weno_cell g d variable input c (left, right) = do
        cells ← read_cells g d input c (pos 1 -ℤ pos w.order) (2 * w.order - 1)
        left' ← set_view_at left (index g c) (weno_values variable cells).0
        right' ← set_view_at right (index g c) (weno_values variable cells).1
        ok (left', right')

      -- The cells that the loop visits: it leaves `start` and `end` aside.
      unfoldable pub weno_loop :
          Shape → ℕ → ℕ → Views C → Views C × Views C → Result (Views C × Views C)
      unfolding weno_cell try_nest along
      weno_loop g d variable input outputs =
          try_nest (along d (pos w.order -ℤ pos 1) (vec3 (pos 0) (pos 0) (pos 0)))
            (along d (pos 1 -ℤ pos w.order) (vec3 (pos g.nx) (pos g.ny) (pos g.nz)))
            (weno_cell g d variable input) outputs

      -- `WENOCPU::performReconstruction`
      unfoldable pub perform_weno :
          Views C → ℕ → ℕ → Views C → Views C → Vec3 ℤ → Vec3 ℤ → Result (Views C × Views C)
      unfolding weno_loop weno_fits
      perform_weno input d variable left right start end =
          guard (ltb d 3) unsupported_direction
          >> guard (weno_fits input.shape d) undefined
          >> weno_loop input.shape d variable input (left, right)

      unfoldable pub weno_cpu : Reconstruction C
      unfolding perform_weno
      weno_cpu = record {
        perform_reconstruction = perform_weno;
        get_number_of_ghost_cells = w.order;
      }
