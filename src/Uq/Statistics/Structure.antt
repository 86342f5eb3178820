-- ===== src/Uq/Statistics/Structure.antt =====
-- alsuq/src/stats/StructureBasic.cpp: for each distance h, the mean over the inner cells of the p-th
-- power of the difference of two values that are h cells apart in one direction.
pub mod Separate
pub mod Periodic
use Prim.Native.String.{String}
use alsvinn.Base.{
  Option, none, some, ℕ, zero, suc, ◌*◌, List, [], ◌∷◌, map, Result, ok, err, undefined, ◌>>=◌,
  try_range, unsupported_structure,
}
use alsvinn.Base.Int.{ℤ, pos, pos_part, ◌+ℤ◌, ◌*ℤ◌}
use alsvinn.Base.Real.{Real, num}
use alsvinn.Vec.{Vec3, vec3, map3, zip3}
use alsvinn.Boxes.{try_nest}
use alsvinn.Memory.{Memory, read, write}
use alsvinn.Volume.{Volume, make_volume, make_zero_volume}
use alsvinn.Integrator.{TimestepInformation}
use alsvinn.Uq.Statistics.{StatisticsSnapshot, Snapshots, get_snapshot, set_snapshot, change_volume}
use alsvinn.Volume.ForEach.{to_size}
use alsvinn.Grid.{Grid, BoundaryType, periodic, neumann, get_boundary_condition}
use alsvinn.Boundary.{Kind, neumann_kind, periodic_kind}
use alsvinn.Boundary.Outside.{value_at_boundary}
use alsvinn.Numflux.{direction_vector}

-- What `computeStructure` reads of a volume: the boundary condition it is instantiated for, with the
-- rounds of the loop in it, the numbers of inner cells and of ghost cells, and the parameters.
pub record Parameters (R : Type 0) : Type 0 where
  pub kind : Kind
  pub fuel : ℕ
  pub cells : Vec3 ℕ
  pub ghosts : Vec3 ℕ
  pub direction : ℕ
  pub p : R
  pub number_of_h : ℕ

module _ {R : Type 0} ⦃r : Real R⦄ where
  -- `std::pow(std::abs(u_ijk - u_ijk_h), p) / (nx * ny * nz)`
  unfoldable pub share : Parameters R → R → R → R
  share s u v = r.div (r.pow (r.abs (r.sub u v)) s.p) (num (s.cells.x * s.cells.y * s.cells.z))

  -- `inputView.at(i + ngx, j + ngy, k + ngz)`
  unfoldable pub value_in : Parameters R → Memory R → Vec3 ℤ → Result R
  unfolding to_size read
  value_in s input c =
      read input (to_size (c.x +ℤ pos s.ghosts.x)) (to_size (c.y +ℤ pos s.ghosts.y))
        (to_size (c.z +ℤ pos s.ghosts.z))

  -- What a cell adds at the distance h: its value against that at `ivec3{i, j, k} + h * directionVector`
  unfoldable pub summand : Parameters R → Memory R → Vec3 ℤ → ℕ → Result R
  unfolding share value_in value_at_boundary direction_vector
  summand s input c h = do
    u ← value_in s input c
    v ←
        value_at_boundary s.kind s.fuel input
          (zip3 ◌+ℤ◌ c (map3 (λ d. pos h *ℤ d) (direction_vector s.direction))) (map3 pos s.cells)
          (map3 pos s.ghosts)
    ok (share s u v)

  -- `outputView.at(h, 0, 0) += ...`
  unfoldable pub add_at : ℕ → R → Memory R → Result (Memory R)
  unfolding read write
  add_at h x output = read output h 0 0 >>= λ old. write h 0 0 (r.add old x) output

  -- The loop over h at one cell
  unfoldable pub add_cell : Parameters R → Memory R → Vec3 ℤ → Memory R → Result (Memory R)
  unfolding summand add_at try_range
  add_cell s input c =
      try_range s.number_of_h 0 λ h output. summand s input c h >>= λ x. add_at h x output

  -- The loops over the inner cells, for one variable
  unfoldable pub compute_variable : Parameters R → Memory R → Memory R → Result (Memory R)
  unfolding add_cell try_nest
  compute_variable s input =
      try_nest (vec3 (pos 0) (pos 0) (pos 0)) (map3 pos s.cells) (add_cell s input)

  -- `computeStructure`: the loop over the variables of the input
  unfoldable pub compute_structure :
      Parameters R → List (Memory R) → List (Memory R) → Result (List (Memory R))
  unfolding compute_variable
  compute_structure s [] outputs = ok outputs
  compute_structure s (input ∷ inputs) [] = err undefined
  compute_structure s (input ∷ inputs) (output ∷ outputs) =
      compute_variable s input output >>= λ output'.
      compute_structure s inputs outputs >>= λ rest. ok (output' ∷ rest)

  -- The instance that `computeStatistics` chooses. It asks for the condition at the side whose number
  -- is the direction's.
  unfoldable pub boundary_kind : Grid R → ℕ → Result Kind
  unfolding get_boundary_condition
  boundary_kind grid direction = elim (get_boundary_condition grid direction) [
    | periodic ↦ ok periodic_kind
    | neumann ↦ ok neumann_kind
    | _ ↦ err unsupported_structure
  ]

  -- `makeInstance(nx, ny, nz, "default")`, without ghost cells
  unfoldable pub make_sized_instance : Volume R → ℕ → ℕ → ℕ → Volume R
  unfolding make_volume
  make_sized_instance v nx ny nz = make_volume v.names nx ny nz 0

  -- `findOrCreateSnapshot` for volumes of another size. The grid that is made for the output is left out.
  unfoldable pub find_or_create_sized :
      String → TimestepInformation R → Volume R → ℕ → ℕ → ℕ → Snapshots R → Snapshots R
  unfolding get_snapshot set_snapshot make_sized_instance make_zero_volume
  find_or_create_sized name t conserved nx ny nz s = create (get_snapshot s t.current_time name)
    where
      create : Option (StatisticsSnapshot R) → Snapshots R
      create (some snapshot) = s
      create none = set_snapshot s t.current_time name (record {
        timestep_information = t;
        volume = make_zero_volume (make_sized_instance conserved nx ny nz);
      })

  -- What is computed for the volume of the snapshot
  unfoldable pub add_structure : ℕ → R → ℕ → ℕ → Grid R → Volume R → Volume R → Result (Volume R)
  unfolding boundary_kind compute_structure
  add_structure direction p number_of_h fuel grid conserved structure = do
    kind ← boundary_kind grid direction
    areas ←
        compute_structure
          (record {
            kind = kind;
            fuel = fuel;
            cells = vec3 conserved.nx conserved.ny conserved.nz;
            ghosts = vec3 conserved.ngx conserved.ngy conserved.ngz;
            direction = direction;
            p = p;
            number_of_h = number_of_h;
          })
          conserved.areas structure.areas
    ok (record structure { areas = areas })

  -- `StructureBasic::computeStatistics`, for the name "structure_basic_" + std::to_string(p)
  unfoldable pub compute_structure_basic :
      String
      → ℕ
      → R
      → ℕ
      → ℕ
      → Grid R
      → TimestepInformation R
      → Volume R
      → Snapshots R
      → Result (Snapshots R)
  unfolding find_or_create_sized change_volume add_structure
  compute_structure_basic name direction p number_of_h fuel grid t conserved s =
      change_volume name t.current_time (add_structure direction p number_of_h fuel grid conserved)
        (find_or_create_sized name t conserved number_of_h 1 1 s)
