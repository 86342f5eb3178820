-- ===== src/Numflux/Directions.antt =====
-- `NumericalFluxCPU::computeFlux` (alsfvm/src/numflux/NumericalFluxCPU.cpp): a reconstruction and a net
-- flux in each direction.
use alsvinn.Base.{
  ℕ, zero, suc, ◌+◌, ◌≤◌, ◌<◌, ◌≡◌, refl, ap, ap₂, sym, subst, ◌∙◌, true, Gives, gives, Gives-bind,
  try_range-Gives, arith,
}
use alsvinn.Base.Int.{ℤ}
use alsvinn.Base.Real.{Real}
use alsvinn.Vec.{Vec3}
use alsvinn.Views.{Shape, Views, Fits, IsSized}
use alsvinn.Numflux.{
  Equation, Flux, two_point, four_point, six_point, Reconstruction, FluxVolumes, FluxResult,
  NumericalFlux, lower, upper, negate, get_number_of_ghost_cells, add_direction, compute_flux,
  same_totals,
}
use alsvinn.Numflux.Neighbours.{prev, InBox-prev, InBox-widen, InBox-narrow}
use alsvinn.Numflux.Net.{InSweep, InRegion, net}
use alsvinn.Numflux.Net.Whole.{compute_net_flux-IsNetFlux}
use alsvinn.Numflux.Values.{width, flux_of, flux_at-ok, flux_of-local}
use alsvinn.Numflux.Interface.{
  layers, IsPart, IsFilled, IsValid, IsReconstruction, IsNumericalFlux, ghosts, minus_ghosts,
  AgreeInside,
}
use alsvinn.Numflux.Regions.{sweep-inside, central-inside}
use alsvinn.Numflux.Zero.{make_zero-IsFilled}

width_pos : {R C A : Type 0} (flux : Flux R C A) → 1 ≤ width flux
width_pos (two_point _) = omega arith
width_pos (four_point _) = omega arith
width_pos (six_point _) = omega arith

module _ {R C A : Type 0} ⦃r : Real R⦄ (eq : Equation R C A) (flux : Flux R C A)
    (left_of right_of : Views C → ℕ → Vec3 ℤ → C) where
  -- The flux between a cell and the next one, for the values of a reconstruction
  abbrev pub interface_flux : Views C → ℕ → Vec3 ℤ → C
  interface_flux u d c = (flux_of eq flux d (left_of u d) (right_of u d) c).0

  -- The sum of the net fluxes in the first directions
  abbrev pub total_flux : Views C → ℕ → Vec3 ℤ → C
  total_flux u zero c = eq.nought
  total_flux u (suc d) c = eq.plus (total_flux u d c) (net eq flux (interface_flux u d) d c)

module _ {R C A : Type 0} ⦃r : Real R⦄ (eq : Equation R C A) (flux : Flux R C A) (g : Shape)
    (fits : Fits g) where
  same_totals_refl : (h : Shape) → same_totals eq flux h h ≡ true
  unfolding same_totals
  same_totals_refl h = ground arith

  same_totals-eq : (h h' : Shape) → h ≡ h' → same_totals eq flux h h' ≡ true
  same_totals-eq h h' e = subst (λ k. same_totals eq flux h k ≡ true) e (same_totals_refl h)

  module _ (dimension reach : ℕ) (left_of right_of : Views C → ℕ → Vec3 ℤ → C)
      (reconstruction : Reconstruction C)
      (laws : IsReconstruction g dimension (width flux) reach left_of right_of reconstruction)
      (ghost : (d : ℕ) → d < dimension → width flux + reach ≤ layers g d) where
    abbrev flux_value : Views C → ℕ → Vec3 ℤ → C
    flux_value = interface_flux eq flux left_of right_of

    abbrev total : Views C → ℕ → Vec3 ℤ → C
    total = total_flux eq flux left_of right_of

    module _ (u out : Views C) (start end : Vec3 ℤ) (u_sized : IsSized g u)
        (part : IsPart start end) where
      -- The outcome after the first directions
      abbrev Reached : ℕ → FluxResult R C → Type 0
      Reached d s = IsValid g s.volumes × IsFilled g (total u d) start end out s.output

      add_direction-Reached :
          (d : ℕ) (s : FluxResult R C)
          → d < dimension
          → Reached d s
          → Gives (Reached (suc d)) (add_direction eq flux reconstruction u start end d s)
      unfolding add_direction
      add_direction-Reached d s below (valid, filled) =
          Gives-bind
            (laws.performs u s.volumes.left s.volumes.right d start end u_sized valid.left
              valid.right below part)
            λ (left, right) (l_sized, r_sized, known).
              Gives-bind
                (compute_net_flux-IsNetFlux eq flux g fits d start end
                  (sweep-inside g d start end (omega (arith, ghost d below, width_pos flux)) part)
                  (flux_value u d) left right
                  (λ c. (flux_of eq flux d (left_of u d) (right_of u d) c).1)
                  (flux_at-ok eq flux d g left right (left_of u d) (right_of u d) _ _ known)
                  s.output s.volumes.temporary filled.sized valid.temporary)
                λ (output, (temporary, speed)) (net_flux, t_sized). gives (
                  record { left = l_sized; right = r_sized; temporary = t_sized },
                  record {
                    sized = net_flux.sized;
                    filled = λ c at. net_flux.added c at (total u d c) (filled.filled c at);
                    kept = λ j apart. net_flux.kept j apart ∙ filled.kept j apart;
                  },
                )

      -- `computeFlux` does not fail, sets each cell of the region to the sum of the net fluxes of the
      -- directions, whatever it held, and leaves the other cells.
      pub compute_flux-IsFilled :
          (v : FluxVolumes C) (speed : Vec3 R)
          → IsValid g v
          → IsSized g out
          → Gives
              (Reached dimension)
              (compute_flux eq flux dimension reconstruction v u speed out start end)
      unfolding compute_flux
      compute_flux-IsFilled v speed valid sized =
          rw (same_totals-eq u.shape v.left.shape (u_sized.0 ∙ sym valid.left.0)) (
            Gives-bind (make_zero-IsFilled eq flux g fits start end out part sized)
              λ cleared zeroed.
                try_range-Gives Reached dimension (add_direction eq flux reconstruction u start end)
                  dimension 0 _ (omega arith)
                  (λ d s lo below reached. add_direction-Reached d s below reached) (valid, zeroed))

    local-total :
        (u u' : Views C)
        → AgreeInside g u u'
        → (c : Vec3 ℤ) → InRegion g (ghosts g) (minus_ghosts g) c
        → (d : ℕ) → d ≤ dimension
        → total u d c ≡ total u' d c
    local-total u u' agree c at zero h = refl
    local-total u u' agree c at (suc d) h =
        ap₂ eq.plus (local-total u u' agree c at d (omega arith)) (
          ap₂ (λ a b. eq.plus (negate eq flux a) (negate eq flux (negate eq flux b)))
            (same c (InBox-widen d _ _ c at))
            (same (prev d c) (InBox-narrow d _ _ (prev d c) (InBox-prev d _ _ c at))))
      where
        same :
            (b : Vec3 ℤ)
            → InSweep g d (ghosts g) (minus_ghosts g) b
            → flux_value u d b ≡ flux_value u' d b
        same b at' =
            ap (λ (p : C × R). p.0)
              (flux_of-local eq flux d (left_of u d) (right_of u d) (left_of u' d) (right_of u' d)
                (lower g (ghosts g)) (upper g (minus_ghosts g))
                (laws.local u u' d _ _
                  (λ b' far. agree b' (central-inside g d _ (ghost d h) b' far)))
                b at')

-- A `NumericalFluxCPU`, as a system uses it
abbrev pub cpu_flux :
    {R C A : Type 0} ⦃r : Real R⦄
    → ℕ
    → Equation R C A
    → Flux R C A
    → Reconstruction C
    → NumericalFlux R C
cpu_flux dimension eq flux reconstruction = record {
  compute = compute_flux eq flux dimension reconstruction;
  number_of_ghost_cells = get_number_of_ghost_cells eq flux reconstruction;
}

pub cpu_flux-IsNumericalFlux :
    {R C A : Type 0} ⦃r : Real R⦄ (eq : Equation R C A) (flux : Flux R C A) (g : Shape)
    (fits : Fits g) (dimension reach : ℕ) (left_of right_of : Views C → ℕ → Vec3 ℤ → C)
    (reconstruction : Reconstruction C)
    (laws : IsReconstruction g dimension (width flux) reach left_of right_of reconstruction)
    → ((d : ℕ) → d < dimension → width flux + reach ≤ layers g d)
    → IsNumericalFlux g
        (λ u. total_flux eq flux left_of right_of u dimension)
        (cpu_flux dimension eq flux reconstruction)
cpu_flux-IsNumericalFlux eq flux g fits dimension reach left_of right_of reconstruction laws ghost =
    record {
      computes = λ v u speed out start end valid u_sized sized part.
          compute_flux-IsFilled eq flux g fits dimension reach left_of right_of reconstruction laws
            ghost u out start end u_sized part v speed valid sized;
      local = λ u u' agree c at.
          local-total eq flux g fits dimension reach left_of right_of reconstruction laws ghost u u'
            agree c at dimension (omega arith);
    }
