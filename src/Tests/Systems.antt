-- ===== src/Tests/Systems.antt =====
-- The theorems about ConservedSystem and about whole rows of cells at concrete inputs.
use alsvinn.Base.{ℕ, zero, suc, ◌*◌, ◌≤◌, ◌<◌, ◌≡◌, refl, some, ok, get_elem?, Gives, ◌>>=◌, arith}
use alsvinn.Base.Int.{ℤ, pos, negsuc, ◌+ℤ◌, ◌*ℤ◌, ◌-ℤ◌, ◌≤ℤ◌, int_laws, eq_of_parts, minus_one-*ℤ}
use alsvinn.Base.Real.{int_real}
use alsvinn.Vec.{vec3}
use alsvinn.Views.{Views, dimensions, index, index-place, part-lt, part-zero}
use alsvinn.Numflux.{along, lower, upper, direction_vector, negate, compute_flux}
use alsvinn.Numflux.Interface.{layers, IsFilled, AgreeInside, origin}
use alsvinn.Numflux.Regions.{region-inside}
use alsvinn.Numflux.Directions.{total_flux, cpu_flux}
use alsvinn.Numflux.Neighbours.{prev}
use alsvinn.Numflux.Periodic.{LooksSame, read_total, compute_flux-conserves}
use alsvinn.Reconstruction.Homogeneous.{copied-IsHomogeneous}
use alsvinn.Numflux.Conservation.{IsAdditive}
use alsvinn.Reconstruction.{no_reconstruction}
use alsvinn.Reconstruction.Copy.{copied}
use alsvinn.Simulator.ConservedSystem.{ConservedSystem, run_exchange, call_operator}
use alsvinn.Simulator.ConservedSystem.Cover.{IsThick, totals}
use alsvinn.Simulator.ConservedSystem.Overlap.{call_operator-overlap}
use alsvinn.Tests.Row.{
  line, advection, upwind, row, given, cleared, volumes, volumes-IsValid, line_ghost, copying,
  whole, sized, line-IsNumericalFlux, exchanged,
}

line-IsThick : IsThick line
unfolding dimensions
line-IsThick = record { thick = thick; flat = flat }
  where
    thick : (d : ℕ) → d < 1 → 3 * layers line d ≤ totals line d
    thick zero h = omega arith
    thick (suc d) h = absurd (omega arith)

    flat : (d : ℕ) → 1 ≤ d → layers line d ≡ 0
    flat zero h = absurd (omega arith)
    flat (suc zero) h = refl
    flat (suc (suc d)) h = refl

-- Cell exchange in a ring of one process, and no diffusion
abbrev ring : ConservedSystem ℤ ℤ
ring = record {
  numerical_flux = cpu_flux 1 advection upwind no_reconstruction;
  exchange = some (λ u. ok (row (pos 4) (pos 3) (pos 5) (pos 4) (pos 3)));
  apply_diffusion = λ output u. ok output;
  diffusion_ghost_cells = 0;
}

run_exchange_ok : run_exchange ring ring.exchange given ≡ ok exchanged
unfolding run_exchange
run_exchange_ok = refl

same_inside : (i : ℕ) → 1 ≤ i → i < 4 → get_elem? given.cells i ≡ get_elem? exchanged.cells i
same_inside zero p q = absurd (omega arith)
same_inside (suc zero) p q = refl
same_inside (suc (suc zero)) p q = refl
same_inside (suc (suc (suc zero))) p q = refl
same_inside (suc (suc (suc (suc i)))) p q = absurd (omega arith)

exchanged-agrees : AgreeInside line given exchanged
unfolding lower upper ◌+ℤ◌ ◌-ℤ◌
exchanged-agrees c ((x0, x1), (y0, y1), (z0, z1)) =
    let e =
      index-place line (omega arith) c
        (region-inside line origin origin whole c ((x0, x1), (y0, y1), (z0, z1))) in
    same_inside (index line c) (omega (arith, e))
      (omega (arith, e, part-lt c.x 4 (omega arith) x1, part-zero c.y y0, part-zero c.z z0))

call_operator-overlap_example :
    (swept : Views ℤ) × IsFilled line
      (total_flux advection upwind (copied (pos 0) line) (copied (pos 0) line) exchanged 1)
      origin
      origin
      cleared
      swept
    × ((call_operator ring volumes given given (vec3 (pos 0) (pos 0) (pos 0)) cleared >>= λ res.
          ok res.output)
        ≡ ok swept)
call_operator-overlap_example =
    call_operator-overlap line (omega arith) line-IsThick ring
      (λ u. total_flux advection upwind (copied (pos 0) line) (copied (pos 0) line) u 1)
      line-IsNumericalFlux cleared exchanged (refl, refl) volumes given given
      (vec3 (pos 0) (pos 0) (pos 0)) volumes-IsValid sized (refl, refl) run_exchange_ok
      exchanged-agrees

IsAdditive-row : IsAdditive advection upwind
unfolding negate
IsAdditive-row = record {
  assoc = λ a b c. eq_of_parts _ _ (omega int_laws);
  nought_plus = λ a. eq_of_parts _ _ (omega int_laws);
  plus_nought = λ a. eq_of_parts _ _ (omega int_laws);
  comm = λ a b. eq_of_parts _ _ (omega int_laws);
  negate_plus = λ a. rw (minus_one-*ℤ a) (eq_of_parts _ _ (omega int_laws));
  negate_negate =
      λ a. rw (minus_one-*ℤ a, minus_one-*ℤ (pos 0 -ℤ a)) (eq_of_parts _ _ (omega int_laws));
}

-- The ghost cells of the row repeat its inner cells.
exchanged-LooksSame :
    LooksSame line exchanged 0 1 (prev 0 (lower line origin)) (along 0 (pos 2) (lower line origin))
unfolding along direction_vector lower index ◌+ℤ◌ ◌*ℤ◌ ◌-ℤ◌
exchanged-LooksSame s (low, high) = near s low high
  where
    near :
        (s : ℤ)
        → pos 0 ≤ℤ s
        → s ≤ℤ pos 1
        → get_elem? exchanged.cells (index line (along 0 s (prev 0 (lower line origin))))
          ≡ get_elem? exchanged.cells (index line (along 0 s (along 0 (pos 2) (lower line origin))))
    near (pos zero) h k = refl
    near (pos (suc zero)) h k = refl
    near (pos (suc (suc n))) h k = absurd (omega arith)
    near (negsuc n) h k = absurd (omega arith)

compute_flux-conserves_example :
    Gives
      (λ s. read_total advection line s.output 0 3 (lower line origin) ≡ ok (pos 0))
      (compute_flux advection upwind 1 no_reconstruction volumes exchanged
        (vec3 (pos 0) (pos 0) (pos 0))
        cleared
        origin
        origin)
compute_flux-conserves_example =
    compute_flux-conserves advection upwind IsAdditive-row line (omega arith) 0
      (copied (pos 0) line) (copied (pos 0) line) (copied-IsHomogeneous (pos 0) line)
      no_reconstruction copying line_ghost 2 exchanged cleared volumes
      (vec3 (pos 0) (pos 0) (pos 0)) (omega arith, omega arith, omega arith) (refl, refl)
      (refl, refl) volumes-IsValid exchanged-LooksSame
