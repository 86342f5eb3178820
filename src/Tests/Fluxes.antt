-- ===== src/Tests/Fluxes.antt =====
-- The theorems about NumericalFluxCPU at concrete inputs.
use alsvinn.Base.{◌≡◌, refl, ok, Gives, arith}
use alsvinn.Base.Int.{ℤ, pos, negsuc, ◌+ℤ◌, ◌*ℤ◌, ◌-ℤ◌}
use alsvinn.Base.Real.{int_real, fmax, ◌≼◌, ℤ-IsOrdered}
use alsvinn.Vec.{Vec3, vec3}
use alsvinn.Views.{IsSized}
use alsvinn.Numflux.{along, lower, upper, direction_vector, flux_at, compute_net_flux, compute_flux}
use alsvinn.Numflux.Net.Whole.{compute_net_flux-IsNetFlux, compute_net_flux-wave_speed}
use alsvinn.Numflux.Net.{InSweep, IsNetFlux}
use alsvinn.Numflux.Values.{flux_at-ok}
use alsvinn.Numflux.Interface.{IsValid, IsFilled, IsNumericalFlux, origin}
use alsvinn.Numflux.Regions.{sweep-inside}
use alsvinn.Numflux.Directions.{
  total_flux, cpu_flux, cpu_flux-IsNumericalFlux, compute_flux-IsFilled,
}
use alsvinn.Reconstruction.{no_reconstruction}
use alsvinn.Reconstruction.Copy.{copied, copied-Holds, wide-inside}
use alsvinn.Tests.Row.{
  fluxes_of, line, advection, upwind, row, given, cleared, volumes, volumes-IsValid, line_ghost,
  copying, whole, sized,
}

-- `computeFlux` does not fail on the row.
compute_flux-IsFilled_example :
    Gives
      (λ s.
        IsValid line s.volumes
        × IsFilled line
            (total_flux advection upwind (copied (pos 0) line) (copied (pos 0) line) given 1)
            origin
            origin
            cleared
            s.output)
      (compute_flux advection upwind 1 no_reconstruction volumes given
        (vec3 (pos 0) (pos 0) (pos 0))
        cleared
        origin
        origin)
compute_flux-IsFilled_example =
    compute_flux-IsFilled advection upwind line (omega arith) 1 0 (copied (pos 0) line)
      (copied (pos 0) line) no_reconstruction copying line_ghost given cleared origin origin
      (refl, refl) whole volumes (vec3 (pos 0) (pos 0) (pos 0)) volumes-IsValid (refl, refl)

compute_flux_ok :
    compute_flux advection upwind 1 no_reconstruction volumes given
      (vec3 (pos 0) (pos 0) (pos 0))
      cleared
      origin
      origin
    ≡ ok (record {
      volumes = record {
        left = given;
        right = given;
        temporary = row (pos 0) (negsuc 2) (negsuc 4) (negsuc 3) (pos 0);
      };
      output = row (pos 0) (negsuc 2) (negsuc 1) (pos 1) (pos 0);
      wave_speed = vec3 (pos 1) (pos 0) (pos 0);
    })
unfolding compute_flux no_reconstruction ◌+ℤ◌ ◌*ℤ◌ ◌-ℤ◌ fmax
compute_flux_ok = refl

given_fluxes :
    (c : Vec3 ℤ)
    → InSweep line 0 origin origin c
    → flux_at advection upwind 0 given given line c ≡ ok (fluxes_of c)
given_fluxes =
    flux_at-ok advection upwind 0 line given given (copied (pos 0) line given 0)
      (copied (pos 0) line given 0) (lower line origin) (upper line origin)
      λ c at.
        let held =
          copied-Holds (pos 0) line (omega arith) given sized c
            (wide-inside line 0 1 origin origin (omega arith) whole c at) in
        (held, held)

compute_net_flux-IsNetFlux_example :
    Gives
      (λ res.
        IsNetFlux advection upwind line (λ c. (fluxes_of c).0) 0 origin origin cleared res.0
        × IsSized line res.1.0)
      (compute_net_flux advection upwind 0 given given cleared cleared origin origin)
compute_net_flux-IsNetFlux_example =
    compute_net_flux-IsNetFlux advection upwind line (omega arith) 0 origin origin
      (sweep-inside line 0 origin origin (omega arith) whole) (λ c. (fluxes_of c).0) given given
      (λ c. (fluxes_of c).1) given_fluxes cleared cleared (refl, refl) (refl, refl)

first_cell : InSweep line 0 origin origin (vec3 (pos 1) (pos 0) (pos 0))
unfolding along direction_vector lower upper ◌+ℤ◌ ◌-ℤ◌ ◌*ℤ◌
first_cell = ((omega arith, omega arith), (omega arith, omega arith), (omega arith, omega arith))

compute_net_flux-wave_speed_example :
    Gives
      (λ res. pos 1 ≼ res.1.1)
      (compute_net_flux advection upwind 0 given given cleared cleared origin origin)
compute_net_flux-wave_speed_example =
    compute_net_flux-wave_speed advection upwind line (omega arith) 0 origin origin
      (sweep-inside line 0 origin origin (omega arith) whole) (λ c. (fluxes_of c).0) given given
      (λ c. (fluxes_of c).1) given_fluxes ℤ-IsOrdered (λ c. refl) refl cleared cleared (refl, refl)
      (refl, refl) (vec3 (pos 1) (pos 0) (pos 0)) first_cell

cpu_flux-IsNumericalFlux_example :
    IsNumericalFlux line
      (λ u. total_flux advection upwind (copied (pos 0) line) (copied (pos 0) line) u 1)
      (cpu_flux 1 advection upwind no_reconstruction)
cpu_flux-IsNumericalFlux_example =
    cpu_flux-IsNumericalFlux advection upwind line (omega arith) 1 0 (copied (pos 0) line)
      (copied (pos 0) line) no_reconstruction copying line_ghost
