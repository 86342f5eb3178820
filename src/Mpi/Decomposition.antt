-- ===== src/Mpi/Decomposition.antt =====
-- alsfvm/src/mpi/domain/CartesianDecomposition.cpp: `decompose`, which cuts a grid into one box of
-- cells for each process and finds the neighbours of a box.
pub mod Neighbours
pub mod Division
pub mod Described
pub mod Sides
pub mod Answers
pub mod Tiles
use alsvinn.Base.{
  ℕ, zero, suc, ◌+◌, ◌-◌, ◌*◌, ◌/◌, ◌%◌, Bool, true, false, ◌&&◌, ◌||◌, not, ltb, ◌==◌,
  if◌then◌else◌, Result, ok, err, ◌>>=◌, ◌>>◌, guard, try_range, for_range, uneven_decomposition,
  negative_neighbour, no_cuda, undefined,
}
use alsvinn.Base.Int.{ℤ, pos, negsuc, ◌+ℤ◌, ◌-ℤ◌, ◌*ℤ◌, ◌/ℤ◌, ◌%ℤ◌, ltb_ℤ, eqb_ℤ}
use alsvinn.Base.Real.{Real, num}
use alsvinn.Vec.{Vec3, vec3, comp, set_comp, zip3, map3, Vec6, set_comp6, all6}
use alsvinn.Grid.{
  BoundaryType, periodic, neumann, mpi_bc, Grid, get_active_dimension, get_boundary_condition,
  make_grid_with_lengths,
}
use alsvinn.Mpi.Cartesian.{get_coordinates, get_rank_index}

-- `mpi::Configuration`: the rank of the process, and whether the platform is "cpu"
pub record Configuration : Type 0 where
  pub rank : ℤ
  pub is_cpu : Bool

-- `DomainInformation`, with the neighbours that its cell exchanger is made with
pub record DomainInformation (R : Type 0) : Type 0 where
  pub grid : Grid R
  pub neighbours : Vec6 ℤ

abbrev pub is_periodic : BoundaryType → Bool
is_periodic periodic = true
is_periodic neumann = false
is_periodic mpi_bc = false

-- The processes must divide the cells in each direction. (A remainder by 0 is undefined.)
unfoldable pub check_divisible : Vec3 ℤ → Vec3 ℤ → Result (Unit {0})
unfolding try_range ◌%ℤ◌
check_divisible dimensions processors =
    try_range 3 0
      (λ i _.
        guard (not (eqb_ℤ (comp processors i) (pos 0))) undefined
        >> guard (eqb_ℤ (comp dimensions i %ℤ comp processors i) (pos 0)) (uneven_decomposition i))
      tt

-- A process at coordinate `c` of `p` along the axis of the side is outermost on that side.
unfoldable pub is_outermost : ℕ → ℤ → ℤ → Bool
unfolding ◌-ℤ◌
is_outermost side c p =
    (side % 2 == 0 && eqb_ℤ c (pos 0)) || (side % 2 == 1 && eqb_ℤ c (p -ℤ pos 1))

-- Such a process keeps the boundary condition of the grid, unless it wraps round to another process.
unfoldable pub keeps_boundary : ℕ → BoundaryType → ℤ → ℤ → Bool
unfolding is_outermost
keeps_boundary side condition c p =
    is_outermost side c p && (not (is_periodic condition) || eqb_ℤ p (pos 1))

unfoldable pub shifted : ℕ → ℤ → ℤ → ℤ
unfolding ◌+ℤ◌ ◌%ℤ◌
shifted side c p =
    let moved = c +ℤ (if side % 2 == 0 then negsuc 0 else pos 1) in
    (if ltb_ℤ moved (pos 0) then moved +ℤ p else moved) %ℤ p

-- -1 where the boundary is kept, and else the neighbour's rank
unfoldable pub neighbour_entry : Bool → ℤ → Result ℤ
neighbour_entry true index = ok (negsuc 0)
neighbour_entry false index = guard (not (ltb_ℤ index (pos 0))) negative_neighbour >> ok index

module _ {R : Type 0} where
  -- `neighbours[side]` of the process at `position`
  unfoldable pub neighbour_of : Grid R → Vec3 ℤ → Vec3 ℤ → ℕ → Result ℤ
  unfolding keeps_boundary shifted get_rank_index get_boundary_condition neighbour_entry
  neighbour_of g processors position side =
      let axis = side / 2 in
      let c = comp position axis in
      let p = comp processors axis in
      neighbour_entry (keeps_boundary side (get_boundary_condition g side) c p)
        (get_rank_index (set_comp position axis (shifted side c p)) processors)

  -- `boundaryConditions[side]`
  unfoldable pub condition_of : Grid R → Vec3 ℤ → Vec3 ℤ → ℕ → BoundaryType
  unfolding keeps_boundary get_boundary_condition
  condition_of g processors position side =
      let axis = side / 2 in
      let condition = get_boundary_condition g side in
      if keeps_boundary side condition (comp position axis) (comp processors axis)
      then condition
      else mpi_bc

  -- One round of the loop over the active sides
  unfoldable pub decompose_side :
      Grid R
      → Vec3 ℤ
      → Vec3 ℤ
      → ℕ
      → Vec6 ℤ × Vec6 BoundaryType
      → Result (Vec6 ℤ × Vec6 BoundaryType)
  unfolding neighbour_of condition_of
  decompose_side g processors position side (neighbours, conditions) =
      neighbour_of g processors position side >>= λ index. ok (
        set_comp6 neighbours side index,
        set_comp6 conditions side (condition_of g processors position side),
      )

  -- The box of cells of a process
  unfoldable pub cells_per_processor : Grid R → Vec3 ℤ → Vec3 ℤ
  unfolding ◌/ℤ◌
  cells_per_processor g processors = zip3 ◌/ℤ◌ g.dimensions processors

  unfoldable pub start_index : Grid R → Vec3 ℤ → ℤ → Vec3 ℤ
  unfolding cells_per_processor get_coordinates ◌*ℤ◌
  start_index g processors rank =
      zip3 ◌*ℤ◌ (cells_per_processor g processors) (get_coordinates rank processors)

module _ {R : Type 0} ⦃r : Real R⦄ where
  -- `has_cuda` is the build option ALSVINN_HAVE_CUDA.
  unfoldable pub decompose : Bool → Vec3 ℤ → Configuration → Grid R → Result (DomainInformation R)
  unfolding check_divisible decompose_side cells_per_processor start_index get_coordinates
      get_active_dimension make_grid_with_lengths try_range for_range
  decompose has_cuda processors configuration g =
      let position = get_coordinates configuration.rank processors in
      let cells = cells_per_processor g processors in
      let index = start_index g processors configuration.rank in
      let start = zip3 r.add (zip3 r.mul g.cell_lengths (map3 r.of_int index)) g.origin in
      let active = get_active_dimension g in
      let end_position =
        for_range (3 - active) active (λ d e. set_comp e d (comp start d))
          (zip3 r.add start (zip3 r.mul g.cell_lengths (map3 r.of_int cells))) in
      check_divisible g.dimensions processors
      >> (try_range (2 * active) 0 (decompose_side g processors position)
            (all6 (pos 0), all6 mpi_bc)
          >>= λ sides.
              guard (configuration.is_cpu || has_cuda) no_cuda
              >> ok record {
                grid =
                    make_grid_with_lengths start end_position cells sides.1 index g.dimensions
                      g.cell_lengths;
                neighbours = sides.0;
              })
