-- ===== src/Boundary.antt =====
-- alsfvm/src/boundary/BoundaryCPU.cpp, alsfvm/include/alsfvm/boundary/Neumann.hpp and Periodic.hpp:
-- filling the ghost cells of a volume.
pub mod Word
pub mod Patch
pub mod Sweep
pub mod Sides
pub mod Fold
pub mod Mirror
pub mod Outside
use Prim.Native.String.{String}
use text.Mathlib.Text.{◌==◌ as str_eq}
use alsvinn.Base.{
  ℕ, zero, suc, ◌+◌, ◌-◌, ◌*◌, ◌%◌, List, [], ◌∷◌, Bool, true, false, ◌&&◌, ◌||◌, ltb, ◌==◌, to_nat,
  if◌then◌else◌, length, get_elem?, Result, ok, err, undefined, too_few_cells, unknown_boundary,
  unknown_platform, guard, or_undefined, ◌>>=◌, ◌>>◌, try_range,
}
use alsvinn.Base.Int.{ℤ, pos, ◌+ℤ◌, ◌-ℤ◌, ◌*ℤ◌}
use alsvinn.Grid.{
  Grid, BoundaryType, periodic, neumann, mpi_bc, get_boundary_condition, get_active_dimension,
}
use alsvinn.Memory.{Memory, size_mod, sub_size, read, write}
use alsvinn.Volume.{Volume, total_x, total_y, total_z}
use alsvinn.Volume.ForEach.{to_size}

-- The two instances of the template `BoundaryCPU`
pub data Kind : Type 0 where
  neumann_kind periodic_kind : Kind

-- a * b in `size_t`
unfoldable pub mul_size : ℕ → ℕ → ℕ
mul_size a b = (a * b) % size_mod

unfoldable pub add_size : ℕ → ℕ → ℕ
add_size a b = (a + b) % size_mod

-- A direction, as the three flags xDir, yDir and zDir
abbrev pub flag : ℕ → ℕ → ℕ
flag d axis = to_nat (d == axis)

-- -1 on the top side and 1 on the other
abbrev pub sign : Bool → ℤ
sign true = ℤ.negsuc 0
sign false = pos 1

-- The two coordinates of `Periodic::applyBoundary` along one axis:
-- `c - sign * boundaryCell * flag` and `c + sign * (-boundaryCell + n) * flag`
outward : ℕ → ℤ → ℤ → ℕ → ℕ
unfolding ◌-ℤ◌ ◌*ℤ◌ to_size
outward c s g f = to_size (pos c -ℤ s *ℤ g *ℤ pos f)

inward : ℕ → ℤ → ℤ → ℤ → ℕ → ℕ
unfolding ◌+ℤ◌ ◌-ℤ◌ ◌*ℤ◌ to_size
inward c s g n f = to_size (pos c +ℤ s *ℤ ((pos 0 -ℤ g) +ℤ n) *ℤ pos f)

-- The first coordinate of the loop over one axis, and its number of rounds: the layer next to the
-- ghost cells on the axis of the side, and everything on the other axes.
unfoldable pub first_of_axis : ℕ → ℕ → Bool → ℕ → ℕ → ℕ
unfolding sub_size
first_of_axis d axis top ghosts n =
    if d == axis then (if top then sub_size (sub_size n ghosts) 1 else ghosts) else 0

unfoldable pub rounds_of_axis : ℕ → ℕ → ℕ → ℕ
rounds_of_axis d axis n = if d == axis then 1 else n

module _ {R : Type 0} where
  -- `Neumann::applyBoundary`. The coordinates are `size_t`, so that `sign`, an `int`, is converted and
  -- every operation wraps around.
  unfoldable pub neumann_cell : ℕ → Bool → ℕ → ℕ → ℕ → ℕ → Memory R → Result (Memory R)
  unfolding sub_size mul_size add_size to_size
  neumann_cell d top x y z ghost_cell m = do
    let s = to_size (sign top)
    let out = mul_size s ghost_cell
    let inner = mul_size s (sub_size ghost_cell 1)
    value ←
        read m (add_size x (mul_size inner (flag d 0))) (add_size y (mul_size inner (flag d 1)))
          (add_size z (mul_size inner (flag d 2)))
    write (sub_size x (mul_size out (flag d 0))) (sub_size y (mul_size out (flag d 1)))
        (sub_size z (mul_size out (flag d 2))) value m

  -- `Periodic::applyBoundary`, which computes in `int`; the coordinates that `View::at` takes are
  -- converted to `size_t`.
  unfoldable pub periodic_cell : ℕ → Bool → ℕ → ℕ → ℕ → ℕ → ℕ → Memory R → Result (Memory R)
  unfolding ◌+ℤ◌ ◌-ℤ◌ ◌*ℤ◌ outward inward
  periodic_cell d top x y z ghost_cell ghosts m = do
    let s = sign top
    let g = pos ghost_cell
    let nx = pos m.nx -ℤ pos 2 *ℤ pos ghosts
    let ny = pos m.ny -ℤ pos 2 *ℤ pos ghosts
    let nz = pos m.nz -ℤ pos 2 *ℤ pos ghosts
    value ←
        read m (inward x s g nx (flag d 0)) (inward y s g ny (flag d 1))
          (inward z s g nz (flag d 2))
    write (outward x s g (flag d 0)) (outward y s g (flag d 1)) (outward z s g (flag d 2)) value m

  -- The loops of `applyBoundary` for one variable and one side
  unfoldable pub apply_cell : Kind → ℕ → Bool → ℕ → ℕ → ℕ → ℕ → ℕ → Memory R → Result (Memory R)
  unfolding neumann_cell periodic_cell
  apply_cell neumann_kind d top ghosts z y x ghost_cell m = neumann_cell d top x y z ghost_cell m
  apply_cell periodic_kind d top ghosts z y x ghost_cell m =
      periodic_cell d top x y z ghost_cell ghosts m

  unfoldable pub apply_side : Kind → ℕ → Bool → ℕ → ℕ → ℕ → ℕ → Memory R → Result (Memory R)
  unfolding apply_cell first_of_axis rounds_of_axis try_range
  apply_side kind d top ghosts nx ny nz =
      try_range (rounds_of_axis d 2 nz) (first_of_axis d 2 top ghosts nz) λ z.
        try_range (rounds_of_axis d 1 ny) (first_of_axis d 1 top ghosts ny) λ y.
          try_range (rounds_of_axis d 0 nx) (first_of_axis d 0 top ghosts nx)
            λ x. try_range ghosts 1 (apply_cell kind d top ghosts z y x)

  -- One round of the loop over the two sides of a direction
  unfoldable pub apply_unless_mpi :
      Kind → ℕ → Bool → ℕ → ℕ → ℕ → ℕ → Grid R → Memory R → Result (Memory R)
  unfolding get_boundary_condition apply_side
  apply_unless_mpi kind d top ghosts nx ny nz g m =
      elim (get_boundary_condition g (2 * d + to_nat top)) [
        | mpi_bc ↦ ok m
        | _ ↦ apply_side kind d top ghosts nx ny nz m
      ]

  -- The loop over the directions, for one variable
  unfoldable pub apply_area : Kind → ℕ → ℕ → ℕ → ℕ → ℕ → Grid R → Memory R → Result (Memory R)
  unfolding apply_unless_mpi try_range
  apply_area kind dimensions ghosts nx ny nz g = try_range dimensions 0 λ d m.
      apply_unless_mpi kind d false ghosts nx ny nz g m
      >>= apply_unless_mpi kind d true ghosts nx ny nz g

  apply_areas : Kind → ℕ → ℕ → ℕ → ℕ → ℕ → Grid R → List (Memory R) → Result (List (Memory R))
  unfolding apply_area
  apply_areas kind dimensions ghosts nx ny nz g [] = ok []
  apply_areas kind dimensions ghosts nx ny nz g (m ∷ ms) = do
    m' ← apply_area kind dimensions ghosts nx ny nz g m
    ms' ← apply_areas kind dimensions ghosts nx ny nz g ms
    ok (m' ∷ ms')

  -- `applyBoundary` and `BoundaryCPU::applyBoundaryConditions`; the result is the new volume.
  unfoldable pub apply_boundary_conditions : Kind → ℕ → Volume R → Grid R → Result (Volume R)
  unfolding apply_areas total_x total_y total_z get_active_dimension
  apply_boundary_conditions kind ghosts v g =
      let nx = total_x v in
      let ny = total_y v in
      let nz = total_z v in
      let dimensions = get_active_dimension g in
      if ltb nx (2 * ghosts)
        || (ltb 1 dimensions && ltb ny (2 * ghosts))
        || (ltb 2 dimensions && ltb nz (2 * ghosts))
      then err too_few_cells
      else (or_undefined (get_elem? v.areas 0) >>= λ first.
          guard (nx == first.nx) undefined
          >> guard (ny == first.ny) undefined
          >> (apply_areas kind dimensions ghosts nx ny nz g v.areas >>= λ as'.
              ok (record v { areas = as' })))

-- `BoundaryFactory::createBoundary`, in a build without CUDA
unfoldable pub create_boundary : String → String → Result Kind
create_boundary platform name =
    if str_eq platform "cpu"
    then (if str_eq name "neumann"
        then ok neumann_kind
        else if str_eq name "periodic"
        then ok periodic_kind
        else err unknown_boundary)
    else err unknown_platform
