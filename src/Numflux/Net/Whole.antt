-- ===== src/Numflux/Net/Whole.antt =====
-- `computeNetFlux` as a whole (alsfvm/src/numflux/NumericalFluxCPU.cpp).
use alsvinn.Base.{ℕ, ◌≡◌, sym, subst, ok, Gives, gives, Gives-bind, Gives-all, Gives-map}
use alsvinn.Base.Int.{ℤ}
use alsvinn.Base.Real.{Real, num, ◌≼◌, IsOrdered, le_fmax, fmax-num}
use alsvinn.Vec.{Vec3}
use alsvinn.Boxes.{try_nest, try_nest-once}
use alsvinn.Views.{Shape, Views, Fits, IsSized}
use alsvinn.Numflux.{
  Equation, Flux, lower, upper, flux_at, flux_step, compute_net_flux, net_flux_loops,
}
use alsvinn.Numflux.Neighbours.{prev}
use alsvinn.Numflux.Net.{InSweep, SweepIsInside, IsNetFlux}
use alsvinn.Numflux.Net.Fluxes.{flux_step-Gives, flux_sweep}
use alsvinn.Numflux.Net.Updates.{update_sweep}

module _ {R C A : Type 0} ⦃r : Real R⦄ (eq : Equation R C A) (flux : Flux R C A) (g : Shape)
    (fits : Fits g) (d : ℕ) (start end : Vec3 ℤ) (inside : SweepIsInside g d start end)
    (f : Vec3 ℤ → C) where
  module _ (left right : Views C) (w : Vec3 ℤ → R)
      (fluxes : (c : Vec3 ℤ)
        → InSweep g d start end c
        → flux_at eq flux d left right g c ≡ ok (f c, w c)) where
    -- `computeNetFlux` does not fail, and adds to each cell of the region the flux into it and out of
    -- it; it leaves the other cells.
    pub compute_net_flux-IsNetFlux :
        (out temporary : Views C)
        → IsSized g out
        → IsSized g temporary
        → Gives
            (λ res. IsNetFlux eq flux g f d start end out res.0 × IsSized g res.1.0)
            (compute_net_flux eq flux d left right out temporary start end)
    unfolding compute_net_flux net_flux_loops
    compute_net_flux-IsNetFlux out temporary sized sized' =
        subst
          (λ h.
            Gives (λ res. IsNetFlux eq flux g f d start end out res.0 × IsSized g res.1.0)
              (net_flux_loops eq flux h d left right out temporary start end))
          (sym sized.0)
          (Gives-bind
            (flux_sweep eq flux g fits d start end inside f left right w fluxes (temporary, num 0)
              sized')
            λ t holds.
              Gives-bind (update_sweep eq flux g fits d start end inside f t.0 holds out sized)
                λ out' net_flux. gives (net_flux, holds.0))

    -- The wave speed that it returns is above the wave speed of each flux.
    pub compute_net_flux-wave_speed :
        (laws : IsOrdered R) (reals : (c : Vec3 ℤ) → w c ≼ w c)
        (nought : ◌≼◌ {R = R} (num 0) (num 0)) (out temporary : Views C)
        → IsSized g out
        → IsSized g temporary
        → (c : Vec3 ℤ) → InSweep g d start end c
        → Gives
            (λ res. w c ≼ res.1.1)
            (compute_net_flux eq flux d left right out temporary start end)
    unfolding compute_net_flux net_flux_loops
    compute_net_flux-wave_speed laws reals nought out temporary sized sized' c at =
        subst
          (λ h.
            Gives (λ res. w c ≼ res.1.1)
              (net_flux_loops eq flux h d left right out temporary start end))
          (sym sized.0)
          (Gives-bind
            (Gives-all
              (flux_sweep eq flux g fits d start end inside f left right w fluxes (temporary, num 0)
                sized')
              λ (_ : Unit {0}). speed_sweep)
            λ t (holds, speed).
              Gives-bind (update_sweep eq flux g fits d start end inside f t.0 holds out sized)
                λ out' net_flux. gives (speed tt))
      where
        IsReal : Views C × R → Type 0
        IsReal t = IsSized g t.0 × (t.1 ≼ t.1)

        IsAbove : Views C × R → Type 0
        IsAbove t = IsReal t × (w c ≼ t.1)

        step :
            (c' : Vec3 ℤ)
            → InSweep g d start end c'
            → (t : Views C × R) → IsReal t
            → Gives
                (λ t'. IsReal t' × (t.1 ≼ t'.1) × (w c' ≼ t'.1))
                (flux_step eq flux d left right g c' t)
        step c' at' t (known, real) =
            Gives-map
              (flux_step-Gives eq flux g fits d start end inside f left right w fluxes c' at' t
                known)
              λ t' (wrote, e).
                let (above, above') = le_fmax laws t.1 (w c') real (reals c') in
                let both : (t'.1 ≼ t'.1) × ((t.1 ≼ t'.1) × (w c' ≼ t'.1)) =
                  subst (λ v. (v ≼ v) × ((t.1 ≼ v) × (w c' ≼ v))) (sym e)
                    (fmax-num laws t.1 (w c') real (reals c'), (above, above')) in
                ((wrote.0, both.0), both.1.0, both.1.1)

        speed_sweep :
            Gives
              (λ t. w c ≼ t.1)
              (try_nest
                (prev d (lower g start))
                (upper g end)
                (flux_step eq flux d left right g)
                (temporary, num 0))
        speed_sweep =
            Gives-map
              (try_nest-once IsReal IsAbove (flux_step eq flux d left right g) c _ _ _ at
                (λ c' at' ne t known. Gives-map (step c' at' t known) (λ t' q. q.0))
                (λ c' at' ne t (known, above).
                  Gives-map (step c' at' t known) (λ t' q. (q.0, laws.le_trans _ _ _ above q.1)))
                (λ t known. Gives-map (step c at t known) (λ t' q. (q.0, q.2))) (sized', nought))
              (λ t q. q.1)
