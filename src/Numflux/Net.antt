-- ===== src/Numflux/Net.antt =====
-- The two loops of `computeNetFlux` (alsfvm/src/numflux/NumericalFluxCPU.cpp) at each cell: what they visit
-- and what they compute.
pub mod Fluxes
pub mod Updates
pub mod Whole
use alsvinn.Base.{
  ℕ, ◌≡◌, ◌≢◌, refl, sym, subst, ◌∙◌, Result, ok, Gives, gives, Gives-bind, Gives-all, Gives-map,
  get_elem?, get_elem?_of_lt, arith,
}
use alsvinn.Base.Int.{ℤ}
use alsvinn.Base.Real.{Real, num, fmax, ◌≼◌, IsOrdered, le_fmax, fmax-num}
use alsvinn.Vec.{Vec3}
use alsvinn.Boxes.{InBox, try_nest, try_nest-keep, try_nest-once}
use alsvinn.Views.{
  Shape, Views, index, fetch, Fits, InBlock, IsSized, Holds, Wrote, index-lt, index-injective,
  set_view_at-Gives, add_to_view_at-Gives,
}
use alsvinn.Numflux.{
  Equation, Flux, lower, upper, negate, flux_at, flux_step, update_step, compute_net_flux,
  net_flux_loops,
}
use alsvinn.Numflux.Neighbours.{
  next, prev, next-prev, next-injective, InBox-prev, InBox-widen, InBox-narrow, InBox-next,
  InBox-back,
}

-- The cells of the first loop
abbrev pub InSweep : Shape → ℕ → Vec3 ℤ → Vec3 ℤ → Vec3 ℤ → Type 0
InSweep g d start end = InBox (prev d (lower g start)) (upper g end)

-- The cells whose net flux is computed
abbrev pub InRegion : Shape → Vec3 ℤ → Vec3 ℤ → Vec3 ℤ → Type 0
InRegion g start end = InBox (lower g start) (upper g end)

abbrev pub SweepIsInside : Shape → ℕ → Vec3 ℤ → Vec3 ℤ → Type 0
SweepIsInside g d start end = (c : Vec3 ℤ) → InSweep g d start end c → InBlock g c

module _ {R C A : Type 0} ⦃r : Real R⦄ (eq : Equation R C A) (flux : Flux R C A) where
  -- The sum of the flux in and the flux out of a cell, where `f c` is the flux between `c` and the
  -- next cell
  abbrev pub net : (Vec3 ℤ → C) → ℕ → Vec3 ℤ → C
  net f d c = eq.plus (negate eq flux (f c)) (negate eq flux (negate eq flux (f (prev d c))))

  -- `out'` is `out` with the net flux added to each cell of the region.
  pub record IsNetFlux (g : Shape) (f : Vec3 ℤ → C) (d : ℕ) (start end : Vec3 ℤ)
      (out out' : Views C) : Type 0 where
    pub sized : IsSized g out'
    pub added :
        (c : Vec3 ℤ)
        → InRegion g start end c
        → (old : C) → Holds g out c old
        → Holds g out' c (eq.plus old (net f d c))
    pub kept :
        (j : ℕ)
        → ((c : Vec3 ℤ) → InRegion g start end c → index g c ≢ j)
        → get_elem? out'.cells j ≡ get_elem? out.cells j

  -- The volume holds the negated fluxes.
  abbrev pub HoldsFluxes : Shape → (Vec3 ℤ → C) → ℕ → Vec3 ℤ → Vec3 ℤ → Views C → Type 0
  HoldsFluxes g f d start end t =
      IsSized g t × ((c : Vec3 ℤ) → InSweep g d start end c → Holds g t c (negate eq flux (f c)))
