-- ===== src/Tests/Reconstructions.antt =====
-- The theorems about reconstructions at concrete inputs.
use alsvinn.Base.{ℕ, zero, suc, ◌≤◌, ◌<◌, ◌≡◌, refl, true, arith}
use alsvinn.Base.Int.{ℤ, pos}
use alsvinn.Base.Real.{int_real}
use alsvinn.Views.{Shape, dimensions}
use alsvinn.Numflux.Interface.{layers, IsReconstruction}
use alsvinn.Reconstruction.{no_reconstruction, mm, reconstruction_cpu, own_shape, has_interior}
use alsvinn.Reconstruction.Copy.{copied, no_reconstruction-IsReconstruction}
use alsvinn.Reconstruction.ThreePoint.{limited_at, reconstruction_cpu-IsReconstruction}
use alsvinn.Tests.Row.{line, line_ghost}

abbrev wide_line : Shape
wide_line = record { nx = 9; ny = 1; nz = 1; ngx = 2; ngy = 0; ngz = 0 }

wide_line_ghost : (d : ℕ) → d < 1 → 2 ≤ layers wide_line d
wide_line_ghost zero h = omega arith
wide_line_ghost (suc d) h = absurd (omega arith)

own_layers : own_shape wide_line (mm {R = ℤ}).ghost_layers ≡ wide_line
unfolding own_shape mm dimensions
own_layers = refl

wide_line_interior : (d : ℕ) → d < 1 → has_interior wide_line d ≡ true
unfolding has_interior
wide_line_interior zero h = refl
wide_line_interior (suc d) h = absurd (omega arith)

reconstruction_cpu-IsReconstruction_example :
    IsReconstruction wide_line 1 1 1
      (λ u d c. (limited_at mm (pos 0) wide_line u d c).0)
      (λ u d c. (limited_at mm (pos 0) wide_line u d c).1)
      (reconstruction_cpu mm)
reconstruction_cpu-IsReconstruction_example =
    reconstruction_cpu-IsReconstruction mm (pos 0) wide_line (omega arith) 1 (omega arith)
      own_layers wide_line_ghost wide_line_interior

no_reconstruction-IsReconstruction_example :
    IsReconstruction line 1 1 0 (copied (pos 0) line) (copied (pos 0) line) no_reconstruction
no_reconstruction-IsReconstruction_example =
    no_reconstruction-IsReconstruction (pos 0) line (omega arith) 1 1 line_ghost
