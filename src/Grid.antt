-- ===== src/Grid.antt =====
-- alsfvm/src/grid/Grid.cpp and alsfvm/include/alsfvm/boundary/Type.hpp: the uniform grid, its active
-- dimension, its cell lengths and its cell midpoints.
use alsvinn.Base.{ℕ, zero, suc, ◌+◌, ◌*◌, List, [], ◌∷◌, if◌then◌else◌, set, replicate, for_range}
use alsvinn.Base.Int.{ℤ, pos, pos_part, ltb_ℤ, eqb_ℤ}
use alsvinn.Base.Real.{Real, num}
use alsvinn.Vec.{Vec3, vec3, zip3, map3, Vec6, comp6, all6}

-- `boundary::Type`
pub data BoundaryType : Type 0 where
  periodic neumann mpi_bc : BoundaryType

abbrev pub all_periodic : Vec6 BoundaryType
all_periodic = all6 periodic

abbrev pub all_neumann : Vec6 BoundaryType
all_neumann = all6 neumann

pub record Grid (R : Type 0) : Type 0 where
  pub origin : Vec3 R
  pub top : Vec3 R
  pub dimensions : Vec3 ℤ
  pub cell_lengths : Vec3 R
  pub boundary_conditions : Vec6 BoundaryType
  pub global_position : Vec3 ℤ
  pub global_size : Vec3 ℤ

module _ {R : Type 0} where
  unfoldable pub get_active_dimension : Grid R → ℕ
  get_active_dimension g =
      if ltb_ℤ (pos 1) g.dimensions.z then 3 else if ltb_ℤ (pos 1) g.dimensions.y then 2 else 1

  unfoldable pub get_boundary_condition : Grid R → ℕ → BoundaryType
  get_boundary_condition g side = comp6 g.boundary_conditions side

  -- The sides from `side` on, `rounds` of them
  conditions_from : Grid R → ℕ → ℕ → List BoundaryType
  unfolding get_boundary_condition
  conditions_from g zero side = []
  conditions_from g (suc rounds) side =
      get_boundary_condition g side ∷ conditions_from g rounds (suc side)

  unfoldable pub get_active_boundary_conditions : Grid R → List BoundaryType
  unfolding get_active_dimension conditions_from
  get_active_boundary_conditions g = conditions_from g (2 * get_active_dimension g) 0

module _ {R : Type 0} ⦃r : Real R⦄ where
  unfoldable pub compute_cell_lengths : Vec3 R → Vec3 R → Vec3 ℤ → Vec3 R
  compute_cell_lengths origin top dimensions =
      let lengths = zip3 r.div (zip3 r.sub top origin) (map3 r.of_int dimensions) in
      vec3 lengths.x (if eqb_ℤ dimensions.y (pos 1) then num 1 else lengths.y)
        (if eqb_ℤ dimensions.z (pos 1) then num 1 else lengths.z)

  -- The constructors of `Grid`, from the most detailed to the shortest.
  unfoldable pub make_grid_with_lengths :
      Vec3 R → Vec3 R → Vec3 ℤ → Vec6 BoundaryType → Vec3 ℤ → Vec3 ℤ → Vec3 R → Grid R
  make_grid_with_lengths origin top dimensions conditions position size lengths = record {
    origin = origin;
    top = top;
    dimensions = dimensions;
    cell_lengths = lengths;
    boundary_conditions = conditions;
    global_position = position;
    global_size = size;
  }

  unfoldable pub make_grid_at :
      Vec3 R → Vec3 R → Vec3 ℤ → Vec6 BoundaryType → Vec3 ℤ → Vec3 ℤ → Grid R
  unfolding make_grid_with_lengths compute_cell_lengths
  make_grid_at origin top dimensions conditions position size =
      make_grid_with_lengths origin top dimensions conditions position size
        (compute_cell_lengths origin top dimensions)

  unfoldable pub make_grid : Vec3 R → Vec3 R → Vec3 ℤ → Vec6 BoundaryType → Grid R
  unfolding make_grid_at
  make_grid origin top dimensions conditions =
      make_grid_at origin top dimensions conditions (vec3 (pos 0) (pos 0) (pos 0)) dimensions

  -- The position that the loops of `getCellMidpoints` compute for the cell (x, y, z)
  unfoldable pub midpoint : Grid R → ℕ → ℕ → ℕ → Vec3 R
  midpoint g x y z =
      let l = g.cell_lengths in
      zip3 r.add
        (zip3 r.add g.origin (vec3 (r.mul l.x (num x)) (r.mul l.y (num y)) (r.mul l.z (num z))))
        (map3 (λ c. r.div c (num 2)) l)

  -- `getCellMidpoints`, without the cache: a vector of the size of the grid, filled by three loops.
  -- The dimensions of a grid are not negative.
  unfoldable pub get_cell_midpoints : Grid R → List (Vec3 R)
  unfolding midpoint for_range
  get_cell_midpoints g =
      let nx = pos_part g.dimensions.x in
      let ny = pos_part g.dimensions.y in
      let nz = pos_part g.dimensions.z in
      for_range nz 0
        (λ z.
          for_range ny 0
            (λ y. for_range nx 0 (λ x acc. set acc (z * nx * ny + y * nx + x) (midpoint g x y z))))
        (replicate (nx * ny * nz) (vec3 (num 0) (num 0) (num 0)))
