-- ===== src/Tests/Cells.antt =====
-- A row of six cells, two of them ghost cells, and the boundary conditions on it.
use alsvinn.Base.{ℕ, zero, suc, refl, arith, [], ◌∷◌, true, Gives}
use alsvinn.Base.Int.{pos}
use alsvinn.Vec.{vec3, all6}
use alsvinn.Grid.{Grid, periodic}
use alsvinn.Memory.{Memory, write}
use alsvinn.Memory.Access.{IsAllocated, IsWritten, write-IsWritten}
use alsvinn.Boundary.{periodic_kind, apply_area}
use alsvinn.Boundary.Sweep.{IsSized}
use alsvinn.Boundary.Sides.{IsMapped}
use alsvinn.Boundary.Fold.{folded}
use alsvinn.Boundary.Mirror.{HasRoom, apply_area-folded}

abbrev cells : Memory ℕ
cells = record { nx = 6; ny = 1; nz = 1; cells = 0 ∷ 1 ∷ 2 ∷ 3 ∷ 4 ∷ 0 ∷ []; on_host = true }

cells-IsAllocated : IsAllocated cells
cells-IsAllocated = record { cells_length = refl; fits = omega arith }

cells-IsSized : IsSized cells
cells-IsSized = record { nx_lt = omega arith; ny_lt = omega arith; nz_lt = omega arith }

abbrev ring : Grid ℕ
ring = record {
  origin = vec3 0 0 0;
  top = vec3 4 0 0;
  dimensions = vec3 (pos 4) (pos 1) (pos 1);
  cell_lengths = vec3 1 1 1;
  boundary_conditions = all6 periodic;
  global_position = vec3 (pos 0) (pos 0) (pos 0);
  global_size = vec3 (pos 4) (pos 1) (pos 1);
}

write-IsWritten_example : Gives (IsWritten 2 0 0 7 cells) (write 2 0 0 7 cells)
write-IsWritten_example =
    write-IsWritten cells 2 0 0 7 cells-IsAllocated
      record { x_lt = omega arith; y_lt = omega arith; z_lt = omega arith }

cells_room : HasRoom cells 1 1
cells_room zero h = omega arith
cells_room (suc d) h = absurd (omega arith)

apply_area-folded_example :
    Gives
      (IsMapped (folded periodic_kind ring 1 1 cells) cells)
      (apply_area periodic_kind 1 1 6 1 1 ring cells)
apply_area-folded_example =
    apply_area-folded periodic_kind 1 1 ring cells (omega arith) cells-IsSized cells-IsAllocated
      cells_room
