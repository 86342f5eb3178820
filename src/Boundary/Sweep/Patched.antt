-- ===== src/Boundary/Sweep/Patched.antt =====
-- The loops over one side of `applyBoundary` (alsfvm/src/boundary/BoundaryCPU.cpp).
use alsvinn.Base.{ℕ, ◌*◌, ◌≤◌, ◌<◌, ◌≡◌, Bool, arith, Gives}
use alsvinn.Vec.{vec3, set_comp}
use alsvinn.Memory.{Memory}
use alsvinn.Memory.Access.{IsAllocated, IsSameShape}
use alsvinn.Boundary.{Kind, apply_cell, apply_side}
use alsvinn.Boundary.Patch.{same_point, IsPatched, IsSound, IsSound-same, try_range-IsPatched}
use alsvinn.Boundary.Word.{edge}
use alsvinn.Boundary.Sweep.{
  is_ghost, source_of, extent, IsSized, side-IsSound, side_targets, IsVisited, round-IsPatched,
}

module _ {R : Type 0} (kind : Kind) (top : Bool) (ghosts d : ℕ) (inside : d < 3) (m : Memory R)
    (s : IsSized m) (e : 3 * ghosts ≤ extent m d) where
  -- The same round on a block of the shape of `m`.
  shaped_round :
      (m' : Memory R) (x y z g : ℕ)
      → IsSameShape m m'
      → IsAllocated m'
      → 1 ≤ g
      → g ≤ ghosts
      → IsVisited m kind top ghosts d x y z
      → Gives
          (IsPatched
            (is_ghost d top ghosts (extent m d))
            (source_of kind d top ghosts (extent m d))
            (same_point (set_comp (vec3 x y z) d (edge top ghosts (extent m d) g)))
            m')
          (apply_cell kind d top ghosts z y x g m')
  shaped_round m' x y z g shape a lo hi v =
      let same : extent m' d ≡ extent m d = rw (shape.same_nx, shape.same_ny, shape.same_nz) in
      rw (← same) (
        round-IsPatched m' kind top ghosts d x y z g inside
          (record { nx_lt = omega arith; ny_lt = omega arith; nz_lt = omega arith }) a (omega arith)
          lo hi
          (record {
            x_lo = rw shape.same_nx v.x_lo;
            x_hi = rw shape.same_nx v.x_hi;
            y_lo = rw shape.same_ny v.y_lo;
            y_hi = rw shape.same_ny v.y_hi;
            z_lo = rw shape.same_nz v.z_lo;
            z_hi = rw shape.same_nz v.z_hi;
          }))

  shape_trans : (m' m'' : Memory R) → IsSameShape m m' → IsSameShape m' m'' → IsSameShape m m''
  shape_trans m' m'' a b = record {
    same_nx = omega arith;
    same_ny = omega arith;
    same_nz = omega arith;
  }

  shape-IsSound :
      (m' : Memory R)
      → IsSameShape m m'
      → IsSound (is_ghost d top ghosts (extent m d)) (source_of kind d top ghosts (extent m d)) m'
  shape-IsSound m' shape = IsSound-same _ _ m m' shape (side-IsSound m kind top ghosts d e)

  pub side-IsPatched :
      IsAllocated m
      → Gives
          (IsPatched
            (is_ghost d top ghosts (extent m d))
            (source_of kind d top ghosts (extent m d))
            (side_targets top ghosts d m.nx m.ny m.nz)
            m)
          (apply_side kind d top ghosts m.nx m.ny m.nz m)
  unfolding apply_side
  side-IsPatched a =
      try_range-IsPatched _ _ _ _ _ _ m (side-IsSound m kind top ghosts d e) a λ z m1 zlo zhi s1 a1.
        try_range-IsPatched _ _ _ _ _ _ m1 (shape-IsSound m1 s1) a1 λ y m2 ylo yhi s2 a2.
          let s2' = shape_trans m1 m2 s1 s2 in
          try_range-IsPatched _ _ _ _ _ _ m2 (shape-IsSound m2 s2') a2 λ x m3 xlo xhi s3 a3.
            let s3' = shape_trans m2 m3 s2' s3 in
            try_range-IsPatched _ _ _ _ _ _ m3 (shape-IsSound m3 s3') a3 λ g m4 glo ghi s4 a4.
              shaped_round m4 x y z g (shape_trans m3 m4 s3' s4) a4 glo (omega arith)
                (record { x_lo = xlo; x_hi = xhi; y_lo = ylo; y_hi = yhi; z_lo = zlo; z_hi = zhi })
