-- ===== src/Reconstruction/ThreePoint.antt =====
-- ReconstructionCPU (alsfvm/src/reconstruction/ReconstructionCPU.cpp) with a function of three cells.
use alsvinn.Base.{
  ℕ, ◌≤◌, ◌<◌, ◌≡◌, ap, sym, subst, Bool, true, false, ◌==◌, ltb, to_nat, Gives, Gives-map,
  get_elem?, arith, Result, undefined, unsupported_direction, guard, ◌>>◌, lt→ltb,
}
use alsvinn.Base.Int.{ℤ, pos, negsuc, ◌+ℤ◌, ◌-ℤ◌, ◌*ℤ◌, ◌≤ℤ◌, ◌<ℤ◌, int_laws, one-*ℤ, zero-*ℤ}
use alsvinn.Vec.{Vec3}
use alsvinn.Boxes.{InBox, try_nest}
use alsvinn.Views.{Shape, Views, index, fetch, Fits, InBlock, IsSized, Holds}
use alsvinn.Numflux.{along, direction_vector, lower, upper}
use alsvinn.Numflux.Neighbours.{next, prev, along-zero}
use alsvinn.Numflux.Values.{InWide}
use alsvinn.Numflux.Interface.{layers, IsPart, IsReconstruction}
use alsvinn.Reconstruction.{
  Limiter, own_shape, has_interior, reconstruct_cell, reconstruct_loop, perform_limited,
  reconstruction_cpu,
}
use alsvinn.Reconstruction.Sweeps.{AreSized, AtCell, Stored, store-Stored, sweep}
use alsvinn.Reconstruction.Copy.{copied, copied-Holds, get_or-cong, wide-inside}

-- One coordinate of a neighbour, or of the cell
near_part :
    (e : Bool) (lo hi a s : ℤ)
    → (lo +ℤ pos (to_nat e) *ℤ (pos 0 -ℤ pos 1)) ≤ℤ a
    → a <ℤ (hi +ℤ pos (to_nat e) *ℤ pos 1)
    → negsuc 0 ≤ℤ s
    → s ≤ℤ pos 1
    → ((lo +ℤ pos (to_nat e) *ℤ (pos 0 -ℤ pos 2)) ≤ℤ (a +ℤ pos (to_nat e) *ℤ s))
      × ((a +ℤ pos (to_nat e) *ℤ s) <ℤ (hi +ℤ pos (to_nat e) *ℤ pos 2))
near_part true lo hi a s h k p q =
    let h' = subst (λ b. (lo +ℤ b) ≤ℤ a) (one-*ℤ (pos 0 -ℤ pos 1)) h in
    let k' = subst (λ b. a <ℤ (hi +ℤ b)) (one-*ℤ (pos 1)) k in
    rw (one-*ℤ (pos 0 -ℤ pos 2), one-*ℤ s, one-*ℤ (pos 2)) (omega int_laws, omega int_laws)
near_part false lo hi a s h k p q =
    let h' = subst (λ b. (lo +ℤ b) ≤ℤ a) (zero-*ℤ (pos 0 -ℤ pos 1)) h in
    let k' = subst (λ b. a <ℤ (hi +ℤ b)) (zero-*ℤ (pos 1)) k in
    rw (zero-*ℤ (pos 0 -ℤ pos 2), zero-*ℤ s, zero-*ℤ (pos 2)) (omega int_laws, omega int_laws)

-- A cell of a box that is longer by 1, and its neighbours, are in the box that is longer by 2.
near-InWide :
    (d : ℕ) (lo hi c : Vec3 ℤ) (s : ℤ)
    → InWide d 1 lo hi c
    → negsuc 0 ≤ℤ s
    → s ≤ℤ pos 1
    → InWide d 2 lo hi (along d s c)
unfolding along direction_vector
near-InWide d lo hi c s ((x0, x1), (y0, y1), (z0, z1)) p q = (
  near_part (d == 0) lo.x hi.x c.x s x0 x1 p q,
  near_part (d == 1) lo.y hi.y c.y s y0 y1 p q,
  near_part (d == 2) lo.z hi.z c.z s z0 z1 p q,
)

middle-InWide : (d : ℕ) (lo hi c : Vec3 ℤ) → InWide d 1 lo hi c → InWide d 2 lo hi c
middle-InWide d lo hi c at =
    subst (InWide d 2 lo hi) (along-zero d c)
      (near-InWide d lo hi c (pos 0) at (omega arith) (omega arith))

-- The values that the function of the three cells gives
abbrev pub limited_at : {C : Type 0} → Limiter C → C → Shape → Views C → ℕ → Vec3 ℤ → C × C
limited_at limiter nought g u d c =
    limiter.reconstruct (copied nought g u d (prev d c)) (copied nought g u d c)
      (copied nought g u d (next d c))

module _ {C : Type 0} (limiter : Limiter C) (nought : C) (g : Shape) (fits : Fits g) where
  abbrev value_at : Views C → Vec3 ℤ → C
  value_at u = copied nought g u 0

  abbrev limited : Views C → ℕ → Vec3 ℤ → C × C
  limited = limited_at limiter nought g

  limited-local :
      (u u' : Views C) (d : ℕ) (lo hi : Vec3 ℤ)
      → ((c : Vec3 ℤ)
          → InWide d 2 lo hi c
          → get_elem? u.cells (index g c) ≡ get_elem? u'.cells (index g c))
      → (c : Vec3 ℤ) → InWide d 1 lo hi c
      → limited u d c ≡ limited u' d c
  limited-local u u' d lo hi agree c at =
      let same : (b : Vec3 ℤ) → InWide d 2 lo hi b → value_at u b ≡ value_at u' b =
        λ b near. get_or-cong u.cells u'.cells (index g b) nought (agree b near) in
      let before =
        same (prev d c) (near-InWide d lo hi c (negsuc 0) at (omega arith) (omega arith)) in
      let middle = same c (middle-InWide d lo hi c at) in
      let after = same (next d c) (near-InWide d lo hi c (pos 1) at (omega arith) (omega arith)) in
      λ i. limiter.reconstruct (before i) (middle i) (after i)

  module _ (u left right : Views C) (d : ℕ) (start end : Vec3 ℤ) (u_sized : IsSized g u)
      (ghost : 2 ≤ layers g d) (part : IsPart start end) where
    lo : Vec3 ℤ
    lo = along d (pos 0 -ℤ pos 1) (lower g start)

    hi : Vec3 ℤ
    hi = along d (pos 1) (upper g end)

    inside : (c : Vec3 ℤ) → InWide d 2 (lower g start) (upper g end) c → InBlock g c
    inside = wide-inside g d 2 start end ghost part

    at_middle : (c : Vec3 ℤ) → InBox lo hi c → InBlock g c
    unfolding lo hi
    at_middle c at = inside c (middle-InWide d _ _ c at)

    reconstruct_cell-Stored :
        (c : Vec3 ℤ)
        → InBox lo hi c
        → (s : Views C × Views C) → AreSized g fits s
        → Gives
            (Stored g fits lo hi at_middle (limited u d) c s)
            (reconstruct_cell limiter g d u c s)
    unfolding reconstruct_cell fetch lo hi
    reconstruct_cell-Stored c at s sized =
        let before = inside _ (near-InWide d _ _ c (negsuc 0) at (omega arith) (omega arith)) in
        let after = inside _ (near-InWide d _ _ c (pos 1) at (omega arith) (omega arith)) in
        rw
          (
            copied-Holds nought g fits u u_sized (prev d c) before,
            copied-Holds nought g fits u u_sized c (at_middle c at),
            copied-Holds nought g fits u u_sized (next d c) after,
          )
          (store-Stored g fits lo hi at_middle (limited u d) c at s sized)

    limited_sweep :
        IsSized g left
        → IsSized g right
        → Gives
            (λ s.
              AreSized g fits s
              × ((c : Vec3 ℤ)
                  → InWide d 1 (lower g start) (upper g end) c
                  → AtCell g fits lo hi at_middle (limited u d) c s))
            (try_nest
              (along d (pos 0 -ℤ pos 1) (lower g start))
              (along d (pos 1) (upper g end))
              (reconstruct_cell limiter g d u)
              (left, right))
    unfolding lo hi
    limited_sweep l_sized r_sized =
        sweep g fits lo hi at_middle (limited u d) (reconstruct_cell limiter g d u)
          reconstruct_cell-Stored (left, right) (l_sized, r_sized)

  -- `ReconstructionCPU` keeps the promise of a reconstruction of width 1 and reach 1 where the volume has
  -- the ghost layers of the reconstruction, at least two, in each direction, and the assertion that there
  -- are inner cells holds.
  pub reconstruction_cpu-IsReconstruction :
      (dimension : ℕ)
      → dimension ≤ 3
      → own_shape g limiter.ghost_layers ≡ g
      → ((d : ℕ) → d < dimension → 2 ≤ layers g d)
      → ((d : ℕ) → d < dimension → has_interior g d ≡ true)
      → IsReconstruction g dimension 1 1
          (λ u d c. (limited_at limiter nought g u d c).0)
          (λ u d c. (limited_at limiter nought g u d c).1)
          (reconstruction_cpu limiter)
  unfolding reconstruction_cpu perform_limited reconstruct_loop ◌-ℤ◌
  reconstruction_cpu-IsReconstruction dimension most own ghost interior = record {
    performs = λ u left right d start end u_sized l_sized r_sized below part.
        subst (λ k. Gives (AreLimited u d start end) (perform_in k u d left right start end))
          (sym u_sized.0)
          (rw (lt→ltb d 3 (omega arith)) (
            subst (λ h. Gives (AreLimited u d start end) (loop_in h u d left right start end))
              (sym own)
              (rw (interior d below) (
                Gives-map
                  (limited_sweep u left right d start end u_sized (ghost d below) part l_sized
                    r_sized)
                  (λ s ((l, r), known). (l, r, known))))));
    local = λ u u' d lo hi agree c at.
        let same = limited-local u u' d lo hi agree c at in
        (ap (λ (p : C × C). p.0) same, ap (λ (p : C × C). p.1) same);
  }
    where
      AreLimited : Views C → ℕ → Vec3 ℤ → Vec3 ℤ → Views C × Views C → Type 0
      AreLimited u d start end s =
          IsSized g s.0
          × IsSized g s.1
          × ((c : Vec3 ℤ)
              → InWide d 1 (lower g start) (upper g end) c
              → Holds g s.0 c (limited u d c).0 × Holds g s.1 c (limited u d c).1)

      loop_in :
          Shape → Views C → ℕ → Views C → Views C → Vec3 ℤ → Vec3 ℤ → Result (Views C × Views C)
      loop_in h u d left right start end =
          guard (has_interior h d) undefined
          >> try_nest (along d (negsuc 0) (lower h start)) (along d (pos 1) (upper h end))
              (reconstruct_cell limiter g d u) (left, right)

      perform_in :
          Shape → Views C → ℕ → Views C → Views C → Vec3 ℤ → Vec3 ℤ → Result (Views C × Views C)
      perform_in k u d left right start end =
          guard (ltb d 3) unsupported_direction
          >> reconstruct_loop limiter k d u start end (left, right)
