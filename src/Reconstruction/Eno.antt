-- ===== src/Reconstruction/Eno.antt =====
-- alsfvm/src/reconstruction/ENOCPU.cpp. The arrays of divided differences are the state that the object
-- keeps; they are passed in and out. A cell is a struct `C` of all variables, with the sum and the
-- product by a number; `indicator` reads the variable that chooses the stencil.
pub mod Bounds
pub mod Differences
pub mod Shift
pub mod Promise
use alsvinn.Base.{
  ℕ, zero, suc, ◌+◌, ◌-◌, ◌*◌, ◌==◌, Bool, true, not, ◌&&◌, ltb, if◌then◌else◌, List, [], ◌∷◌, map,
  length, replicate, Result, ok, err, undefined, unsupported_direction, guard, ◌>>=◌, ◌>>◌,
}
use alsvinn.Base.Int.{ℤ, pos, negsuc, ◌+ℤ◌, ◌-ℤ◌}
use alsvinn.Base.Real.{Real, num}
use alsvinn.Vec.{Vec3, vec3}
use alsvinn.Boxes.{try_nest}
use alsvinn.Views.{Shape, Views, index, fetch, set_view_at}
use alsvinn.Numflux.{Reconstruction, along}
use alsvinn.Reconstruction.Coefficients.{edge_values}
use alsvinn.Reconstruction.Weno.{read_cells}

-- One coordinate of the loops' bounds. `used` is `true` for x, `ny > 1` for y and `nz > 1` for z.
unfoldable pub difference_start : ℕ → ℕ → Bool → Bool → ℤ → ℤ
difference_start order level used here start =
    pos (if here then level else if used then order else 0) +ℤ start

unfoldable pub difference_end : ℕ → ℕ → Bool → Bool → ℕ → ℤ → ℤ
difference_end order level used here n end =
    pos n -ℤ pos (if here then level - 1 else if used then order - 1 else 0) +ℤ end

unfoldable pub eno_start : ℕ → Bool → Bool → ℤ → ℤ
eno_start order used here start =
    pos (if used then (if here then order - 1 else order) else 0) +ℤ start

unfoldable pub eno_end : ℕ → Bool → Bool → ℕ → ℤ → ℤ
eno_end order used here n end =
    pos n -ℤ pos (if used then (if here then order - 1 else order) else 0) +ℤ end

-- Such a bound in each direction
abbrev pub starts : (Bool → Bool → ℤ → ℤ) → Shape → ℕ → Vec3 ℤ → Vec3 ℤ
starts bound g d start =
    vec3 (bound true (d == 0) start.x) (bound (ltb 1 g.ny) (d == 1) start.y)
      (bound (ltb 1 g.nz) (d == 2) start.z)

abbrev pub ends : (Bool → Bool → ℕ → ℤ → ℤ) → Shape → ℕ → Vec3 ℤ → Vec3 ℤ
ends bound g d end =
    vec3 (bound true (d == 0) g.nx end.x) (bound (ltb 1 g.ny) (d == 1) g.ny end.y)
      (bound (ltb 1 g.nz) (d == 2) g.nz end.z)

-- The assertions of `computeDividedDifferences`
unfoldable pub difference_fits : ℕ → ℕ → Shape → Bool
difference_fits level d g =
    ltb (if d == 0 then 2 * level else 0) g.nx
    && (ltb (if d == 1 then 2 * level else 0) g.ny && ltb (if d == 2 then 2 * level else 0) g.nz)

-- Those of `performReconstruction`
unfoldable pub eno_fits : ℕ → ℕ → Shape → Bool
eno_fits order d g =
    ltb (if d == 0 then 2 * order else 0) g.nx
    && ((if d == 1 then ltb (2 * order) g.ny else true)
        && (if d == 2 then ltb (2 * order) g.nz else true))

module _ {R : Type 0} ⦃r : Real R⦄ where
  -- `pointerOut[indexLeft] = pointerIn[indexRight] - pointerIn[indexLeft]`
  unfoldable pub difference_cell : Shape → ℕ → Views R → Vec3 ℤ → Views R → Result (Views R)
  unfolding fetch set_view_at index along
  difference_cell g d input c out = do
    right ← fetch input (index g c)
    left ← fetch input (index g (along d (negsuc 0) c))
    set_view_at out (index g (along d (negsuc 0) c)) (r.sub right left)

  -- `computeDividedDifferences`
  unfoldable pub compute_divided_differences :
      ℕ → ℕ → ℕ → Shape → Views R → Views R → Vec3 ℤ → Vec3 ℤ → Result (Views R)
  unfolding difference_fits difference_start difference_end difference_cell try_nest
  compute_divided_differences order level d g input out start end =
      guard (difference_fits level d g) undefined
      >> try_nest (starts (difference_start order level) g d start)
          (ends (difference_end order level) g d end) (difference_cell g d input) out

  -- The arrays from one level on, each made from the one before
  unfoldable pub compute_levels :
      ℕ → ℕ → ℕ → Views R → List (Views R) → Vec3 ℤ → Vec3 ℤ → Result (List (Views R))
  compute_levels order level d input [] start end = ok []
  compute_levels order level d input (out ∷ outs) start end = do
    out' ← compute_divided_differences order level d input.shape input out start end
    outs' ← compute_levels order (suc level) d out' outs start end
    ok (out' ∷ outs')

  -- `makeDividedDifferenceArrays`
  unfoldable pub make_divided_difference_arrays : ℕ → Shape → List (Views R)
  make_divided_difference_arrays order g =
      replicate (order - 1) (record { shape = g; cells = replicate (g.nx * g.ny * g.nz) (num 0) })

  -- The arrays are made anew where their size is not that of the input. There is none for order 1,
  -- and the code reads it nevertheless.
  unfoldable pub sized_arrays : ℕ → Shape → ℕ → List (Views R) → Result (List (Views R))
  unfolding make_divided_difference_arrays
  sized_arrays order g size [] = err undefined
  sized_arrays order g size (a ∷ as') =
      ok (if size == length a.cells then a ∷ as' else make_divided_difference_arrays order g)

  -- The loop over the levels: the shift grows where the difference on the left is the smaller one.
  unfoldable pub read_shift : Shape → ℕ → Vec3 ℤ → List (Views R) → ℕ → Result ℕ
  unfolding fetch index along
  read_shift g d c [] shift = ok shift
  read_shift g d c (a ∷ as') shift = do
    right ← fetch a (index g c)
    left ← fetch a (index g (along d (negsuc 0) c))
    read_shift g d c as' (if r.lt (r.abs left) (r.abs right) then suc shift else shift)

  module _ (order : ℕ) {C : Type 0} (nought : C) (plus : C → C → C) (scale : R → C → C)
      (indicator : ℕ → C → R) where
    -- The body of the loop over the cells. The assertions that the values are numbers are left out.
    unfoldable pub eno_cell :
        Shape
        → ℕ
        → List (Views R)
        → Views C
        → Vec3 ℤ
        → Views C × Views C
        → Result (Views C × Views C)
    unfolding read_shift read_cells edge_values set_view_at index
    eno_cell g d arrays input c (left, right) = do
      shift ← read_shift g d c arrays 0
      us ← read_cells g d input c (pos 0 -ℤ pos shift) order
      left' ← set_view_at left (index g c) (edge_values nought plus scale order shift us).0
      right' ← set_view_at right (index g c) (edge_values nought plus scale order shift us).1
      ok (left', right')

    -- `ENOCPU::performReconstruction`: the new arrays, and the two outputs
    unfoldable pub perform_eno :
        List (Views R)
        → Views C
        → ℕ
        → ℕ
        → Views C
        → Views C
        → Vec3 ℤ
        → Vec3 ℤ
        → Result (List (Views R) × (Views C × Views C))
    unfolding sized_arrays compute_levels eno_fits eno_start eno_end eno_cell try_nest
    perform_eno arrays input d variable left right start end = do
      let g = input.shape
      guard (ltb d 3) unsupported_direction
      sized ← sized_arrays order g (length input.cells) arrays
      arrays' ←
          compute_levels order 1 d
            (record { shape = g; cells = map (indicator variable) input.cells }) sized start end
      guard (eno_fits order d g) undefined
      outputs ←
          try_nest (starts (eno_start order) g d start) (ends (eno_end order) g d end)
            (eno_cell g d arrays' input) (left, right)
      ok (arrays', outputs)

    -- The reconstruction with given arrays, which leaves the new ones aside
    unfoldable pub eno_cpu : List (Views R) → Reconstruction C
    unfolding perform_eno
    eno_cpu arrays = record {
      perform_reconstruction = λ input d variable left right start end.
          perform_eno arrays input d variable left right start end >>= λ s. ok s.1;
      get_number_of_ghost_cells = order;
    }
