-- ===== src/Numflux/Zero.antt =====
-- `makeZero` of alsfvm/src/numflux/NumericalFluxCPU.cpp at each cell.
use alsvinn.Base.{ℕ, ◌≡◌, ◌≢◌, refl, sym, subst, ◌∙◌, Gives, Gives-map, Gives-all, get_elem?}
use alsvinn.Base.Int.{ℤ}
use alsvinn.Base.Real.{Real}
use alsvinn.Vec.{Vec3}
use alsvinn.Boxes.{InBox, try_nest, try_nest-keep, try_nest-once}
use alsvinn.Views.{
  Shape, Views, index, Fits, InBlock, IsSized, Holds, index-lt, index-injective, set_view_at,
  set_view_at-Gives, Wrote,
}
use alsvinn.Numflux.{Equation, Flux, lower, upper, make_zero, zero_loop}
use alsvinn.Numflux.Net.{InRegion}
use alsvinn.Numflux.Interface.{IsPart, IsFilled}
use alsvinn.Numflux.Regions.{region-inside}

module _ {R C A : Type 0} ⦃r : Real R⦄ (eq : Equation R C A) (flux : Flux R C A) (g : Shape)
    (fits : Fits g) where
  -- `makeZero` fills the region with zeros.
  zero_loop-IsFilled :
      (start end : Vec3 ℤ) (out : Views C)
      → IsPart start end
      → IsSized g out
      → Gives (IsFilled g (λ c. eq.nought) start end out) (zero_loop eq flux g start end out)
  unfolding zero_loop
  zero_loop-IsFilled start end out part sized =
      Gives-map
        (Gives-all {I = (j : ℕ) × ((c : Vec3 ℤ) → InRegion g start end c → index g c ≢ j)}
          (Gives-all {I = (c : Vec3 ℤ) × InRegion g start end c}
            (try_nest-keep (IsSized g) _ _ _ out
              (λ c at t known. Gives-map (write c at t known) (λ t' wrote. wrote.0)) sized)
            (λ (c, at). cell c at))
          (λ (j, apart). kept j apart))
        (λ t ((known, each), rest). record {
          sized = known;
          filled = λ c at. each (c, at);
          kept = λ j apart. rest (j, apart);
        })
    where
      lo : Vec3 ℤ
      lo = lower g start

      hi : Vec3 ℤ
      hi = upper g end

      inside : (c : Vec3 ℤ) → InBox lo hi c → InBlock g c
      inside = region-inside g start end part

      write :
          (c : Vec3 ℤ)
          → InBox lo hi c
          → (t : Views C) → IsSized g t
          → Gives (Wrote g t (index g c) eq.nought) (set_view_at t (index g c) eq.nought)
      write c at t known =
          set_view_at-Gives g t (index g c) eq.nought known (index-lt g fits c (inside c at))

      Zeroed : Vec3 ℤ → Views C → Type 0
      Zeroed c t = IsSized g t × Holds g t c eq.nought

      cell :
          (c : Vec3 ℤ)
          → InBox lo hi c
          → Gives
              (λ t. Holds g t c eq.nought)
              (try_nest lo hi (λ c v. set_view_at v (index g c) eq.nought) out)
      cell c at =
          Gives-map
            (try_nest-once (IsSized g) (Zeroed c) _ c lo hi out at
              (λ c' at' ne t known. Gives-map (write c' at' t known) (λ t' wrote. wrote.0))
              (λ c' at' ne t done. Gives-map (write c' at' t done.0) λ t' wrote. (
                wrote.0,
                wrote.2 (index g c)
                      (λ e. ne (index-injective g fits c' c (inside c' at') (inside c at) e))
                    ∙ done.1,
              ))
              (λ t known. Gives-map (write c at t known) λ t' wrote. (wrote.0, wrote.1)) sized)
            (λ t done. done.1)

      Same : ℕ → Views C → Type 0
      Same j t = IsSized g t × (get_elem? t.cells j ≡ get_elem? out.cells j)

      kept :
          (j : ℕ)
          → ((c : Vec3 ℤ) → InBox lo hi c → index g c ≢ j)
          → Gives
              (λ t. get_elem? t.cells j ≡ get_elem? out.cells j)
              (try_nest lo hi (λ c v. set_view_at v (index g c) eq.nought) out)
      kept j apart =
          Gives-map
            (try_nest-keep (Same j) _ lo hi out
              (λ c at t (known, q).
                Gives-map (write c at t known) λ t' wrote. (wrote.0, wrote.2 j (apart c at) ∙ q))
              (sized, refl))
            (λ t q. q.1)

  pub make_zero-IsFilled :
      (start end : Vec3 ℤ) (out : Views C)
      → IsPart start end
      → IsSized g out
      → Gives (IsFilled g (λ c. eq.nought) start end out) (make_zero eq flux out start end)
  unfolding make_zero
  make_zero-IsFilled start end out part sized =
      subst
        (λ h. Gives (IsFilled g (λ c. eq.nought) start end out) (zero_loop eq flux h start end out))
        (sym sized.0) (zero_loop-IsFilled start end out part sized)
