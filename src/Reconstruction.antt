-- ===== src/Reconstruction.antt =====
-- alsfvm/src/reconstruction: NoReconstruction.cpp, which copies the cells, and ReconstructionCPU.cpp with
-- a function of three cells (MC.hpp, MM.hpp).
pub mod Sweeps
pub mod Copy
pub mod Homogeneous
pub mod Coefficients
pub mod Weno
pub mod Eno
pub mod ThreePoint
use alsvinn.Base.{
  ℕ, ◌*◌, Bool, true, ◌&&◌, ltb, ◌==◌, if◌then◌else◌, Result, ok, undefined, unsupported_direction,
  ◌>>=◌, ◌>>◌, guard,
}
use alsvinn.Base.Int.{ℤ, pos, negsuc}
use alsvinn.Base.Real.{Real, num, fmin}
use alsvinn.Vec.{Vec3, vec3}
use alsvinn.Boxes.{try_nest}
use alsvinn.Views.{Shape, Views, index, fetch, set_view_at, dimensions}
use alsvinn.Numflux.{Reconstruction, along, lower, upper}

module _ {C : Type 0} where
  -- `pointerLeft[index] = pointerIn[index]`, and the same for `pointerRight`, in every variable
  pub copy_cell : Shape → Views C → Vec3 ℤ → Views C × Views C → Result (Views C × Views C)
  unfolding fetch set_view_at index
  copy_cell g input c (left, right) = do
    a ← fetch input (index g c)
    left' ← set_view_at left (index g c) a
    right' ← set_view_at right (index g c) a
    ok (left', right')

  -- The loop of `for_each_cell_index`, ghost cells included. All variables of a cell are copied together.
  pub copy_loop : Shape → Views C → Views C × Views C → Result (Views C × Views C)
  unfolding try_nest copy_cell
  copy_loop g input =
      try_nest (vec3 (pos 0) (pos 0) (pos 0)) (vec3 (pos g.nx) (pos g.ny) (pos g.nz))
        (copy_cell g input)

  -- `NoReconstruction::performReconstruction`, whatever the direction and the region
  pub copy_cells :
      Views C → ℕ → ℕ → Views C → Views C → Vec3 ℤ → Vec3 ℤ → Result (Views C × Views C)
  unfolding copy_loop
  copy_cells input direction indicator left right start end =
      copy_loop input.shape input (left, right)

  unfoldable pub no_reconstruction : Reconstruction C
  unfolding copy_cells
  no_reconstruction = record { perform_reconstruction = copy_cells; get_number_of_ghost_cells = 1 }

-- `ReconstructionType::reconstruct` of a template argument that reads the cell before, the cell and the
-- cell after, and `getNumberOfGhostCells`
pub record Limiter (C : Type 0) : Type 0 where
  pub reconstruct : C → C → C → C × C
  pub ghost_layers : ℕ

-- The shape with the ghost cells of the reconstruction: `ngx`, `ngy`, `ngz`
unfoldable pub own_shape : Shape → ℕ → Shape
unfolding dimensions
own_shape g layers = record g {
  ngx = layers;
  ngy = if ltb 1 (dimensions g) then layers else 0;
  ngz = if ltb 2 (dimensions g) then layers else 0;
}

-- The assertions of `performReconstruction`
unfoldable pub has_interior : Shape → ℕ → Bool
has_interior h d =
    ltb (if d == 0 then 4 else 0) h.nx
    && ((if d == 1 then ltb (2 * h.ngy) h.ny else true)
        && (if d == 2 then ltb (2 * h.ngz) h.nz else true))

module _ {C : Type 0} (limiter : Limiter C) where
  -- `reconstruct(eq, viewIn, x, y, z, viewLeft, viewRight, xDir, yDir, zDir)`
  pub reconstruct_cell :
      Shape → ℕ → Views C → Vec3 ℤ → Views C × Views C → Result (Views C × Views C)
  unfolding fetch set_view_at index along
  reconstruct_cell g d input c (left, right) = do
    before ← fetch input (index g (along d (negsuc 0) c))
    middle ← fetch input (index g c)
    after ← fetch input (index g (along d (pos 1) c))
    left' ← set_view_at left (index g c) (limiter.reconstruct before middle after).0
    right' ← set_view_at right (index g c) (limiter.reconstruct before middle after).1
    ok (left', right')

  -- The loop: from `(ngx - directionVector.x) + start.x` to `nx - (ngx - directionVector.x) + end.x`, and
  -- the same for y and z
  pub reconstruct_loop :
      Shape → ℕ → Views C → Vec3 ℤ → Vec3 ℤ → Views C × Views C → Result (Views C × Views C)
  unfolding try_nest reconstruct_cell along lower upper own_shape has_interior
  reconstruct_loop g d input start end outputs =
      let h = own_shape g limiter.ghost_layers in
      guard (has_interior h d) undefined
      >> try_nest (along d (negsuc 0) (lower h start)) (along d (pos 1) (upper h end))
          (reconstruct_cell g d input) outputs

  -- `ReconstructionCPU::performReconstruction`
  pub perform_limited :
      Views C → ℕ → ℕ → Views C → Views C → Vec3 ℤ → Vec3 ℤ → Result (Views C × Views C)
  unfolding reconstruct_loop
  perform_limited input d indicator left right start end =
      guard (ltb d 3) unsupported_direction
      >> reconstruct_loop input.shape d input start end (left, right)

  unfoldable pub reconstruction_cpu : Reconstruction C
  unfolding perform_limited
  reconstruction_cpu = record {
    perform_reconstruction = perform_limited;
    get_number_of_ghost_cells = limiter.ghost_layers;
  }

module _ {R : Type 0} ⦃r : Real R⦄ where
  -- `sign` (sign.hpp) and the two versions of `minmod` (minmod.hpp). The minimum is
  -- that of C++, where the source takes that of C: they differ on NaN alone.
  unfoldable pub sign : R → R
  sign a = if r.lt (num 0) a then num 1 else if r.beq a (num 0) then num 0 else r.of_int (negsuc 0)

  unfoldable pub minmod : R → R → R
  unfolding sign fmin
  minmod a b = if r.beq (sign a) (sign b) then r.mul (sign a) (fmin (r.abs a) (r.abs b)) else num 0

  unfoldable pub minmod3 : R → R → R → R
  unfolding sign fmin
  minmod3 a b c =
      if r.beq (sign a) (sign b) && r.beq (sign b) (sign c)
      then r.mul (sign a) (fmin (r.abs a) (fmin (r.abs b) (r.abs c)))
      else num 0

  -- (middle - sigma / 2, middle + sigma / 2)
  from_slope : R → R → R × R
  from_slope middle sigma = (r.sub middle (r.div sigma (num 2)), r.add middle (r.div sigma (num 2)))

  -- `MC::reconstruct` and `MM::reconstruct`, for one variable
  unfoldable pub mc : Limiter R
  unfolding minmod3 from_slope
  mc = record {
    reconstruct = λ left middle right. from_slope middle (
        minmod3 (r.mul (num 2) (r.sub right middle)) (r.div (r.sub right left) (num 2))
          (r.mul (num 2) (r.sub middle left)));
    ghost_layers = 2;
  }

  unfoldable pub mm : Limiter R
  unfolding minmod from_slope
  mm = record {
    reconstruct =
        λ left middle right. from_slope middle (minmod (r.sub right middle) (r.sub middle left));
    ghost_layers = 2;
  }

  -- `n / (3 * (ALSFVM_WENO_EPSILON + b) * (ALSFVM_WENO_EPSILON + b))`
  weno_alpha : R → ℕ → R → R
  weno_alpha epsilon n b = r.div (num n) (r.mul (r.mul (num 3) (r.add epsilon b)) (r.add epsilon b))

  square : R → R
  square a = r.mul a a

  -- `WENO2::reconstruct`, for one variable, which is also the weight
  unfoldable pub weno2 : R → Limiter R
  unfolding weno_alpha square
  weno2 epsilon = record {
    reconstruct = λ left middle right.
        let b0 = square (r.sub right middle) in
        let b1 = square (r.sub middle left) in
        let a0_left = weno_alpha epsilon 1 b0 in
        let a1_left = weno_alpha epsilon 2 b1 in
        let w0_left = r.div a0_left (r.add a0_left a1_left) in
        let w1_left = r.div a1_left (r.add a0_left a1_left) in
        let a0_right = weno_alpha epsilon 2 b0 in
        let a1_right = weno_alpha epsilon 1 b1 in
        let w0_right = r.div a0_right (r.add a0_right a1_right) in
        let w1_right = r.div a1_right (r.add a0_right a1_right) in
        let half = r.div (num 1) (num 2) in
        (
          r.mul half (
              r.sub
                (r.add (r.mul w1_left left) (r.mul (r.add (r.mul (num 3) w0_left) w1_left) middle))
                (r.mul w0_left right)),
          r.mul half (
              r.sub
                (r.add (r.mul w0_right right)
                  (r.mul (r.add (r.mul (num 3) w1_right) w0_right) middle))
                (r.mul w1_right left)),
        );
    ghost_layers = 2;
  }
