-- ===== src/Tests/Row.antt =====
-- A row of five cells, of a scalar equation with an upwind flux, for the tests.
use alsvinn.Base.{ℕ, zero, suc, ◌≤◌, ◌<◌, refl, [], ◌∷◌, arith}
use alsvinn.Base.Int.{ℤ, pos, ◌+ℤ◌, ◌*ℤ◌}
use alsvinn.Base.Real.{int_real}
use alsvinn.Vec.{Vec3}
use alsvinn.Views.{Shape, Views, IsSized}
use alsvinn.Numflux.{Equation, Flux, two_point, FluxVolumes}
use alsvinn.Numflux.Values.{flux_of}
use alsvinn.Numflux.Interface.{layers, IsPart, IsValid, IsReconstruction, IsNumericalFlux, origin}
use alsvinn.Numflux.Directions.{total_flux, cpu_flux, cpu_flux-IsNumericalFlux}
use alsvinn.Reconstruction.{no_reconstruction}
use alsvinn.Reconstruction.Copy.{copied, no_reconstruction-IsReconstruction}

abbrev pub line : Shape
line = record { nx = 5; ny = 1; nz = 1; ngx = 1; ngy = 0; ngz = 0 }

abbrev pub advection : Equation ℤ ℤ ℤ
advection = record { nought = pos 0; plus = ◌+ℤ◌; scale = ◌*ℤ◌; to_all = λ a. a }

abbrev pub upwind : Flux ℤ ℤ ℤ
upwind = two_point λ d l r. (l, pos 1)

abbrev pub row : ℤ → ℤ → ℤ → ℤ → ℤ → Views ℤ
row a b c d e = record { shape = line; cells = a ∷ b ∷ c ∷ d ∷ e ∷ [] }

abbrev pub given : Views ℤ
given = row (pos 0) (pos 3) (pos 5) (pos 4) (pos 0)

abbrev pub cleared : Views ℤ
cleared = row (pos 0) (pos 0) (pos 0) (pos 0) (pos 0)

abbrev pub volumes : FluxVolumes ℤ
volumes = record { left = cleared; right = cleared; temporary = cleared }

pub volumes-IsValid : IsValid line volumes
volumes-IsValid = record { left = (refl, refl); right = (refl, refl); temporary = (refl, refl) }

pub line_ghost : (d : ℕ) → d < 1 → 1 ≤ layers line d
line_ghost zero h = omega arith
line_ghost (suc d) h = absurd (omega arith)

pub copying :
    IsReconstruction line 1 1 0 (copied (pos 0) line) (copied (pos 0) line) no_reconstruction
copying = no_reconstruction-IsReconstruction (pos 0) line (omega arith) 1 1 line_ghost

pub whole : IsPart origin origin
whole = ((omega arith, omega arith), (omega arith, omega arith), (omega arith, omega arith))

pub sized : IsSized line given
sized = (refl, refl)

pub line-IsNumericalFlux :
    IsNumericalFlux line
      (λ u. total_flux advection upwind (copied (pos 0) line) (copied (pos 0) line) u 1)
      (cpu_flux 1 advection upwind no_reconstruction)
line-IsNumericalFlux =
    cpu_flux-IsNumericalFlux advection upwind line (omega arith) 1 0 (copied (pos 0) line)
      (copied (pos 0) line) no_reconstruction copying line_ghost

abbrev pub exchanged : Views ℤ
exchanged = row (pos 4) (pos 3) (pos 5) (pos 4) (pos 3)

abbrev pub fluxes_of : Vec3 ℤ → ℤ × ℤ
fluxes_of = flux_of advection upwind 0 (copied (pos 0) line given 0) (copied (pos 0) line given 0)
