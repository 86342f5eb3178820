-- ===== src/Numflux/Net/Fluxes.antt =====
-- The first loop of `computeNetFlux` (alsfvm/src/numflux/NumericalFluxCPU.cpp).
use alsvinn.Base.{ℕ, ◌≡◌, refl, ◌∙◌, Result, ok, Gives, gives, Gives-bind, Gives-all, Gives-map}
use alsvinn.Base.Int.{ℤ}
use alsvinn.Base.Real.{Real, fmax}
use alsvinn.Vec.{Vec3}
use alsvinn.Boxes.{InBox, try_nest, try_nest-keep, try_nest-once}
use alsvinn.Views.{
  Shape, Views, index, Fits, IsSized, Holds, Wrote, index-lt, index-injective, set_view_at-Gives,
}
use alsvinn.Numflux.{Equation, Flux, lower, upper, negate, flux_at, flux_step}
use alsvinn.Numflux.Neighbours.{prev}
use alsvinn.Numflux.Net.{InSweep, SweepIsInside, HoldsFluxes}

module _ {R C A : Type 0} ⦃r : Real R⦄ (eq : Equation R C A) (flux : Flux R C A) (g : Shape)
    (fits : Fits g) (d : ℕ) (start end : Vec3 ℤ) (inside : SweepIsInside g d start end)
    (f : Vec3 ℤ → C) where
  module _ (left right : Views C) (w : Vec3 ℤ → R)
      (fluxes : (c : Vec3 ℤ)
        → InSweep g d start end c
        → flux_at eq flux d left right g c ≡ ok (f c, w c)) where
    pub flux_step-Gives :
        (c : Vec3 ℤ)
        → InSweep g d start end c
        → (s : Views C × R) → IsSized g s.0
        → Gives
            (λ t. Wrote g s.0 (index g c) (negate eq flux (f c)) t.0 × (t.1 ≡ fmax s.1 (w c)))
            (flux_step eq flux d left right g c s)
    unfolding flux_step
    flux_step-Gives c at s sized = rw (fluxes c at) (
        Gives-bind (set_view_at-Gives g s.0 (index g c) _ sized (index-lt g fits c (inside c at)))
          λ t wrote. gives (wrote, refl))

    pub flux_sweep :
        (s : Views C × R)
        → IsSized g s.0
        → Gives
            (λ t. HoldsFluxes eq flux g f d start end t.0)
            (try_nest (prev d (lower g start)) (upper g end) (flux_step eq flux d left right g) s)
    flux_sweep s sized =
        Gives-map
          (Gives-all {I = (c : Vec3 ℤ) × InSweep g d start end c}
            (try_nest-keep (λ t. IsSized g t.0) body lo hi s
              (λ c at t known. Gives-map (flux_step-Gives c at t known) (λ t' wrote. wrote.0.0))
              sized)
            (λ (c, at). cell c at))
          (λ t (known, each). (known, λ c at. each (c, at)))
      where
        lo : Vec3 ℤ
        lo = prev d (lower g start)

        hi : Vec3 ℤ
        hi = upper g end

        body : Vec3 ℤ → Views C × R → Result (Views C × R)
        body = flux_step eq flux d left right g

        Done : Vec3 ℤ → Views C × R → Type 0
        Done c t = IsSized g t.0 × Holds g t.0 c (negate eq flux (f c))

        cell :
            (c : Vec3 ℤ)
            → InBox lo hi c
            → Gives (λ t. Holds g t.0 c (negate eq flux (f c))) (try_nest lo hi body s)
        cell c at =
            Gives-map
              (try_nest-once (λ t. IsSized g t.0) (Done c) body c lo hi s at
                (λ c' at' ne t known.
                  Gives-map (flux_step-Gives c' at' t known) (λ t' wrote. wrote.0.0))
                (λ c' at' ne t done. Gives-map (flux_step-Gives c' at' t done.0) λ t' wrote. (
                  wrote.0.0,
                  wrote.0.2 (index g c)
                        (λ e. ne (index-injective g fits c' c (inside c' at') (inside c at) e))
                      ∙ done.1,
                ))
                (λ t known.
                  Gives-map (flux_step-Gives c at t known) λ t' wrote. (wrote.0.0, wrote.0.1))
                sized)
              (λ t done. done.1)
