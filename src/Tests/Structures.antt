-- ===== src/Tests/Structures.antt =====
-- The theorems about values beyond the block and about structure functions at concrete inputs.
use alsvinn.Base.{ℕ, ◌≡◌, refl, arith, [], ◌∷◌, true, ok}
use alsvinn.Base.Int.{ℤ, pos, negsuc, ◌+ℤ◌, ◌-ℤ◌, ◌*ℤ◌, ◌/ℤ◌, ◌%ℤ◌}
use alsvinn.Base.Real.{int_real}
use alsvinn.Vec.{Vec3, vec3, map3}
use alsvinn.Boxes.Both.{Both}
use alsvinn.Memory.{Memory, read, index}
use alsvinn.Boundary.{periodic_kind}
use alsvinn.Boundary.Outside.{periodic_value, neumann_value, read_view}
use alsvinn.Boundary.Outside.Wrapped.{IsWrapped, inner, periodic_value-IsWrapped}
use alsvinn.Uq.Statistics.Structure.{
  Parameters, compute_variable, boundary_kind, compute_structure_basic,
}
use alsvinn.Volume.{Volume}
use alsvinn.Grid.{Grid, periodic, neumann}
use alsvinn.Integrator.{TimestepInformation}
use alsvinn.Uq.Statistics.Structure.Separate.{HoldsAt, sum_at}
use alsvinn.Uq.Statistics.Structure.Periodic.{compute_variable-periodic}

-- A row of the cells 10, 20, 30 and 40 between ghost cells that hold 99
abbrev ring : Memory ℤ
ring = record {
  nx = 6;
  ny = 1;
  nz = 1;
  cells = pos 99 ∷ pos 10 ∷ pos 20 ∷ pos 30 ∷ pos 40 ∷ pos 99 ∷ [];
  on_host = true;
}

abbrev four_cells : Vec3 ℕ
four_cells = vec3 4 1 1

abbrev one_ghost : Vec3 ℕ
one_ghost = vec3 1 0 0

-- Position -3 is cell 1, and position 4 is cell 0.
before_ring :
    periodic_value 4 ring
      (vec3 (negsuc 2) (pos 0) (pos 0))
      (map3 pos four_cells)
      (map3 pos one_ghost)
    ≡ ok (pos 20)
unfolding periodic_value ◌+ℤ◌ ◌%ℤ◌
before_ring = refl

-- With Neumann boundary conditions position 4 is the first ghost cell.
behind_row :
    neumann_value ring (vec3 (pos 4) (pos 0) (pos 0)) (map3 pos four_cells) (map3 pos one_ghost)
    ≡ ok (pos 99)
unfolding neumann_value ◌+ℤ◌
behind_row = refl

periodic_value-IsWrapped_example :
    (r : Vec3 ℕ) × IsWrapped four_cells (vec3 (negsuc 2) (pos 0) (pos 0)) r
    × ((r' : Vec3 ℕ) → IsWrapped four_cells (vec3 (negsuc 2) (pos 0) (pos 0)) r' → r' ≡ r)
    × (periodic_value 4 ring
          (vec3 (negsuc 2) (pos 0) (pos 0))
          (map3 pos four_cells)
          (map3 pos one_ghost)
        ≡ read_view ring (inner r one_ghost))
periodic_value-IsWrapped_example =
    periodic_value-IsWrapped 4 ring (vec3 (negsuc 2) (pos 0) (pos 0)) four_cells one_ghost
      (omega arith, omega arith, omega arith) (omega arith, omega arith, omega arith)

abbrev settings : Parameters ℤ
settings = record {
  kind = periodic_kind;
  fuel = 1;
  cells = four_cells;
  ghosts = one_ghost;
  direction = 0;
  p = pos 2;
  number_of_h = 3;
}

abbrev no_sums : Memory ℤ
no_sums = record { nx = 3; ny = 1; nz = 1; cells = pos 0 ∷ pos 0 ∷ pos 0 ∷ []; on_host = true }

-- The means of the squares of the differences: 0, then of 10, 10, 10 and 30, then of 20 each
sums :
    compute_variable settings ring no_sums
    ≡ ok (record no_sums { cells = pos 0 ∷ pos 300 ∷ pos 400 ∷ [] })
unfolding compute_variable ◌+ℤ◌ ◌-ℤ◌ ◌*ℤ◌ ◌/ℤ◌ ◌%ℤ◌
sums = refl

compute_variable-periodic_example :
    Both
      (HoldsAt settings ring 1)
      (compute_variable settings ring no_sums)
      (sum_at settings ring 1 (pos 0))
unfolding read index
compute_variable-periodic_example =
    compute_variable-periodic settings ring
      (record {
        allocated = record { cells_length = refl; fits = omega arith };
        has_cells = (omega arith, omega arith, omega arith);
        x_size = refl;
        y_size = refl;
        z_size = refl;
      })
      refl (omega arith) 1 (omega arith) no_sums (pos 0)
      (
        record {
          allocated = record { cells_length = refl; fits = omega arith };
          one_for_each = refl;
          flat = (refl, refl);
        },
        refl,
      )

-- A grid of the unit cube with periodic sides in the first direction, and Neumann conditions elsewhere
abbrev grid : Grid ℤ
grid = record {
  origin = vec3 (pos 0) (pos 0) (pos 0);
  top = vec3 (pos 1) (pos 1) (pos 1);
  dimensions = vec3 (pos 4) (pos 4) (pos 1);
  cell_lengths = vec3 (pos 1) (pos 1) (pos 1);
  boundary_conditions = record {
    x = periodic;
    y = periodic;
    z = neumann;
    v = neumann;
    w = neumann;
    u = neumann;
  };
  global_position = vec3 (pos 0) (pos 0) (pos 0);
  global_size = vec3 (pos 4) (pos 4) (pos 1);
}

-- In the second direction the condition of the first is taken.
second_direction : boundary_kind grid 1 ≡ ok periodic_kind
unfolding boundary_kind
second_direction = refl

-- The statistics of one sample of the row, from no snapshots on
abbrev row : Volume ℤ
row = record {
  names = "u" ∷ [];
  areas = ring ∷ [];
  nx = 4;
  ny = 1;
  nz = 1;
  ngx = 1;
  ngy = 0;
  ngz = 0;
}

abbrev at_start : TimestepInformation ℤ
at_start = record { current_time = pos 0; number_of_steps_performed = 0 }

first_sample :
    compute_structure_basic "structure_basic_2" 0 (pos 2) 3 1 grid at_start row []
    ≡ ok (
        (
          pos 0,
          (
            "structure_basic_2",
            record {
              timestep_information = at_start;
              volume = record {
                names = "u" ∷ [];
                areas = record no_sums { cells = pos 0 ∷ pos 300 ∷ pos 400 ∷ [] } ∷ [];
                nx = 3;
                ny = 1;
                nz = 1;
                ngx = 0;
                ngy = 0;
                ngz = 0;
              };
            },
          )
              ∷ [],
        )
        ∷ [])
unfolding compute_structure_basic ◌+ℤ◌ ◌-ℤ◌ ◌*ℤ◌ ◌/ℤ◌ ◌%ℤ◌
first_sample = refl
