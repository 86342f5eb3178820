-- ===== src/Simulator/ConservedSystem.antt =====
-- alsfvm/src/simulator/ConservedSystem.cpp: the numerical flux of all inner cells, of which the central
-- ones are computed while the ghost cells are exchanged, and the sides after that.
pub mod Cover
pub mod Overlap
use alsvinn.Base.{
  ℕ, ◌-◌, ◌*◌, ◌==◌, max, Option, none, some, if◌then◌else◌, Result, ok, ◌>>=◌, try_range,
}
use alsvinn.Base.Int.{ℤ, pos, ◌+ℤ◌, ◌-ℤ◌, ◌*ℤ◌}
use alsvinn.Base.Real.{Real, num, fmax}
use alsvinn.Vec.{Vec3, vec3, comp, set_comp, zip3, map3}
use alsvinn.Views.{Shape, Views, ghost_cells, total_dimensions, dimensions}
use alsvinn.Numflux.{FluxVolumes, FluxResult, NumericalFlux}

-- The cell exchanger may be a null pointer. `applyDiffusion(output, conservedVariables)` returns the new
-- output.
pub record ConservedSystem (R C : Type 0) : Type 0 where
  pub numerical_flux : NumericalFlux R C
  pub exchange : Option (Views C → Result (Views C))
  pub apply_diffusion : Views C → Views C → Result (Views C)
  pub diffusion_ghost_cells : ℕ

-- What a call changes: the flux's own volumes, the conserved variables, the output, and the speeds
pub record SystemOutput (R C : Type 0) : Type 0 where
  pub volumes : FluxVolumes C
  pub conserved : Views C
  pub output : Views C
  pub wave_speed : Vec3 R

abbrev pub no_offset : Vec3 ℤ
no_offset = vec3 (pos 0) (pos 0) (pos 0)

-- `endBottom` and `startTop`
unfoldable pub end_bottom : Shape → ℕ → Vec3 ℤ
unfolding ghost_cells total_dimensions
end_bottom g d =
    set_comp no_offset d ((pos 0 -ℤ comp (total_dimensions g) d) +ℤ pos 3 *ℤ comp (ghost_cells g) d)

unfoldable pub start_top : Shape → ℕ → Vec3 ℤ
unfolding ghost_cells total_dimensions
start_top g d =
    set_comp no_offset d (comp (total_dimensions g) d -ℤ pos 3 *ℤ comp (ghost_cells g) d)

module _ {R C : Type 0} ⦃r : Real R⦄ (system : ConservedSystem R C) where
  -- One call of `computeFlux` for a side, with `waveSpeedSides` as the wave speed of the state
  compute_side : Views C → Vec3 ℤ → Vec3 ℤ → FluxResult R C → Result (FluxResult R C)
  compute_side conserved start end s = do
    side ←
        system.numerical_flux.compute s.volumes conserved (vec3 (num 0) (num 0) (num 0)) s.output
          start end
    ok record side { wave_speed = zip3 fmax s.wave_speed side.wave_speed }

  compute_sides : Views C → Shape → ℕ → FluxResult R C → Result (FluxResult R C)
  unfolding compute_side end_bottom start_top
  compute_sides conserved g d s =
      compute_side conserved no_offset (end_bottom g d) s
      >>= compute_side conserved (start_top g d) no_offset

  unfoldable pub run_exchange : Option (Views C → Result (Views C)) → Views C → Result (Views C)
  run_exchange none conserved = ok conserved
  run_exchange (some exchange) conserved = exchange conserved

  -- `operator()`. The central cells are computed in one thread while another exchanges cells of
  -- `conserved`; `seen` is what the first thread reads of it.
  call_system :
      Shape → FluxVolumes C → Views C → Views C → Vec3 R → Views C → Result (SystemOutput R C)
  unfolding ghost_cells dimensions compute_sides run_exchange try_range
  call_system g volumes seen conserved wave_speed output = do
    central ←
        system.numerical_flux.compute volumes seen wave_speed output (ghost_cells g)
          (map3 (λ n. pos 0 -ℤ n) (ghost_cells g))
    conserved' ← run_exchange system.exchange conserved
    sides ←
        try_range (dimensions g) 0 (compute_sides conserved' g)
          (record central { wave_speed = vec3 (num 0) (num 0) (num 0) })
    output' ← system.apply_diffusion sides.output conserved'
    ok record {
      volumes = sides.volumes;
      conserved = conserved';
      output = output';
      wave_speed = zip3 fmax central.wave_speed sides.wave_speed;
    }

  unfoldable pub call_operator :
      FluxVolumes C → Views C → Views C → Vec3 R → Views C → Result (SystemOutput R C)
  unfolding call_system
  call_operator volumes seen conserved wave_speed output =
      call_system output.shape volumes seen conserved wave_speed output

  -- `getNumberOfGhostCells`
  unfoldable pub number_of_ghost_cells : ℕ
  number_of_ghost_cells =
      max system.numerical_flux.number_of_ghost_cells system.diffusion_ghost_cells
