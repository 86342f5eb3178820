-- ===== src/Reconstruction/Weno/Promise.antt =====
-- WENOCPU (alsfvm/src/reconstruction/WENOCPU.cpp) as a reconstruction.
use alsvinn.Base.{
  ℕ, suc, ◌+◌, ◌-◌, ◌*◌, ◌≤◌, ◌<◌, ◌≡◌, ap, sym, subst, true, ltb, Gives, Gives-map, get_elem?,
  Result, undefined, unsupported_direction, guard, ◌>>◌, lt→ltb, arith,
}
use alsvinn.Base.Int.{ℤ, pos, ◌-ℤ◌, int_laws}
use alsvinn.Base.Real.{Real}
use alsvinn.Vec.{Vec3}
use alsvinn.Boxes.{InBox}
use alsvinn.Views.{Shape, Views, index, Fits, InBlock, IsSized, Holds}
use alsvinn.Numflux.{along, lower, upper}
use alsvinn.Numflux.Neighbours.{along-zero}
use alsvinn.Numflux.Values.{InWide}
use alsvinn.Numflux.Interface.{layers, IsReconstruction}
use alsvinn.Reconstruction.Sweeps.{AreSized, AtCell, Stored, store-Stored, sweep}
use alsvinn.Reconstruction.Copy.{copied, get_or-cong}
use alsvinn.Reconstruction.Weno.{
  WenoOrder, weno_values, weno_cell, weno_loop, weno_fits, perform_weno, weno_cpu,
}
use alsvinn.Reconstruction.Weno.Reach.{
  read_cells-cells_from, IsNear, along-wider, cells_from, cells_from-cong, first_cell, last_cell,
  near-InBlock, region-InLoop,
}

module _ {R C : Type 0} ⦃r : Real R⦄ (w : WenoOrder R) (nought : C) (plus : C → C → C)
    (scale : R → C → C) (indicator : ℕ → C → R) (g : Shape) (fits : Fits g) (k : ℕ)
    (order : w.order ≡ suc k) where
  -- The values that the weights give
  pub weno_at : Views C → ℕ → Vec3 ℤ → C × C
  unfolding cells_from
  weno_at u d c =
      weno_values w nought plus scale indicator 0
        (cells_from (copied nought g u 0) d c (pos 1 -ℤ pos w.order) (2 * w.order - 1))

  weno_at-local :
      (u u' : Views C) (d n : ℕ) (lo hi : Vec3 ℤ)
      → ((c : Vec3 ℤ)
          → InWide d (n + k) lo hi c
          → get_elem? u.cells (index g c) ≡ get_elem? u'.cells (index g c))
      → (c : Vec3 ℤ) → InWide d n lo hi c
      → weno_at u d c ≡ weno_at u' d c
  unfolding weno_at
  weno_at-local u u' d n lo hi agree c at = ap (weno_values w nought plus scale indicator 0) (
      cells_from-cong (copied nought g u 0) (copied nought g u' 0) d c (pos 1 -ℤ pos w.order)
        (pos k) (2 * w.order - 1) (omega (int_laws, order))
        λ s below above.
          get_or-cong u.cells u'.cells (index g (along d s c)) nought
            (agree (along d s c) (along-wider d n k lo hi c s at (omega (int_laws, order), above))))

  module _ (u : Views C) (u_sized : IsSized g u) (d : ℕ) where
    first : Vec3 ℤ
    first = first_cell w.order d

    last : Vec3 ℤ
    last = last_cell w.order g d

    stencil_inside :
        (c : Vec3 ℤ) → InBox first last c → (s : ℤ) → IsNear k s → InBlock g (along d s c)
    unfolding first last
    stencil_inside c at s near =
        near-InBlock g d k c s (subst (λ o. InBox (first_cell o d) (last_cell o g d) c) order at)
          near

    inside : (c : Vec3 ℤ) → InBox first last c → InBlock g c
    inside c at =
        subst (InBlock g) (along-zero d c)
          (stencil_inside c at (pos 0) (omega int_laws, omega int_laws))

    weno_cell-Stored :
        (c : Vec3 ℤ)
        → InBox first last c
        → (s : Views C × Views C) → AreSized g fits s
        → Gives
            (Stored g fits first last inside (weno_at u d) c s)
            (weno_cell w nought plus scale indicator g d 0 u c s)
    unfolding weno_cell weno_at
    weno_cell-Stored c at s sized =
        rw
          (read_cells-cells_from nought g fits u u_sized d c (pos k) (pos 1 -ℤ pos w.order)
            (2 * w.order - 1) (omega (int_laws, order))
            (λ o below above. stencil_inside c at o (omega (int_laws, order), above)))
          (store-Stored g fits first last inside (weno_at u d) c at s sized)

    weno_sweep :
        (s : Views C × Views C)
        → AreSized g fits s
        → Gives
            (λ s'.
              AreSized g fits s'
              × ((c : Vec3 ℤ)
                  → InBox first last c
                  → AtCell g fits first last inside (weno_at u d) c s'))
            (weno_loop w nought plus scale indicator g d 0 u s)
    unfolding weno_loop first last first_cell last_cell
    weno_sweep s sized =
        sweep g fits first last inside (weno_at u d)
          (weno_cell w nought plus scale indicator g d 0 u) weno_cell-Stored s sized

  -- `WENOCPU` of order k + 1 keeps the promise of a reconstruction of width `n` and reach `k`, where each
  -- direction has n + k ghost layers and the assertions hold.
  pub weno_cpu-IsReconstruction :
      (dimension n : ℕ)
      → dimension ≤ 3
      → ((d : ℕ) → d < dimension → n + k ≤ layers g d)
      → ((d : ℕ) → d < dimension → weno_fits w g d ≡ true)
      → IsReconstruction g dimension n k
          (λ u d c. (weno_at u d c).0)
          (λ u d c. (weno_at u d c).1)
          (weno_cpu w nought plus scale indicator)
  unfolding weno_cpu perform_weno first last
  weno_cpu-IsReconstruction dimension n most ghost asserted = record {
    performs = λ u left right d start end u_sized l_sized r_sized below part.
        subst (λ h. Gives (IsDone u d start end) (perform_in h u d left right)) (sym u_sized.0)
          (rw (lt→ltb d 3 (omega arith), asserted d below)
            (Gives-map (weno_sweep u u_sized d (left, right) (l_sized, r_sized))
              λ s ((l, r), known). (
                l,
                r,
                λ c at. known c (
                    subst (λ o. InBox (first_cell o d) (last_cell o g d) c) (sym order)
                      (region-InLoop g d n k start end c (ghost d below) part at)),
              )));
    local = λ u u' d lo hi agree c at.
        let same = weno_at-local u u' d n lo hi agree c at in
        (ap (λ (p : C × C). p.0) same, ap (λ (p : C × C). p.1) same);
  }
    where
      IsDone : Views C → ℕ → Vec3 ℤ → Vec3 ℤ → Views C × Views C → Type 0
      IsDone u d start end s =
          IsSized g s.0
          × IsSized g s.1
          × ((c : Vec3 ℤ)
              → InWide d n (lower g start) (upper g end) c
              → Holds g s.0 c (weno_at u d c).0 × Holds g s.1 c (weno_at u d c).1)

      perform_in : Shape → Views C → ℕ → Views C → Views C → Result (Views C × Views C)
      perform_in h u d left right =
          guard (ltb d 3) unsupported_direction
          >> guard (weno_fits w h d) undefined
          >> weno_loop w nought plus scale indicator h d 0 u (left, right)
