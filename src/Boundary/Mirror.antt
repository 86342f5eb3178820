-- ===== src/Boundary/Mirror.antt =====
-- `applyBoundary` on one variable, in all directions (alsfvm/src/boundary/BoundaryCPU.cpp).
use alsvinn.Boundary.Fold.{fold_axis, folded, axis-x, axis-y, axis-z}
use alsvinn.Base.{
  ℕ, zero, suc, ◌*◌, ◌≤◌, ◌<◌, ◌≡◌, refl, ◌∙◌, inl, inr, Bool, true, false, ap, arith, Bool-cases,
  ◌>>=◌, Gives, Gives-map, Gives-bind, try_range-Gives,
}
use alsvinn.Vec.{set_comp}
use alsvinn.Grid.{Grid}
use alsvinn.Memory.{Memory}
use alsvinn.Memory.Access.{IsAllocated, IsSameShape}
use alsvinn.Boundary.{Kind, apply_unless_mpi, apply_area}
use alsvinn.Boundary.Patch.{Point, IsPoint, read_at, IsInside-same}
use alsvinn.Boundary.Sweep.{is_ghost, extent, IsSized, side-IsSound}
use alsvinn.Boundary.Sides.{
  IsMapped, IsMapped-refl, IsMapped-trans, side_point, is_filled, unless_mpi-IsMapped,
}

module _ {R : Type 0} (kind : Kind) (ghosts d : ℕ) (inside : d < 3) (m : Memory R)
    (g : Grid R) where
  abbrev axis_point : Point → Point
  axis_point p =
      side_point kind (is_filled g d false) d false ghosts (extent m d)
        (side_point kind (is_filled g d true) d true ghosts (extent m d) p)

  side_point-IsPoint :
      (on top : Bool) (p : Point)
      → 3 * ghosts ≤ extent m d
      → IsPoint m p
      → IsPoint m (side_point kind on d top ghosts (extent m d) p)
  side_point-IsPoint true top p e i = elim (Bool-cases (is_ghost d top ghosts (extent m d) p)) [
    | inl h ↦ rw h (side-IsSound m kind top ghosts d e p i h).0
    | inr h ↦ rw h i
  ]
  side_point-IsPoint false top p e i = i

  closed :
      (top : Bool) (m' : Memory R) (p : Point)
      → IsSized m
      → 3 * ghosts ≤ extent m d
      → IsSameShape m m'
      → IsPoint m' p
      → IsPoint m' (side_point kind (is_filled g d top) d top ghosts (extent m d) p)
  closed top m' p s e shape i =
      let back : IsSameShape m' m = record {
        same_nx = omega arith;
        same_ny = omega arith;
        same_nz = omega arith;
      } in
      IsInside-same shape (side_point-IsPoint (is_filled g d top) top p e (IsInside-same back i))

  shaped_side :
      (m' : Memory R) (top : Bool)
      → IsSized m
      → 3 * ghosts ≤ extent m d
      → IsSameShape m m'
      → IsAllocated m'
      → Gives
          (IsMapped (side_point kind (is_filled g d top) d top ghosts (extent m d)) m')
          (apply_unless_mpi kind d top ghosts m.nx m.ny m.nz g m')
  shaped_side m' top s e shape a =
      let same : extent m' d ≡ extent m d = rw (shape.same_nx, shape.same_ny, shape.same_nz) in
      rw (← same, ← shape.same_nx, ← shape.same_ny, ← shape.same_nz)
        (unless_mpi-IsMapped kind ghosts d inside m' top g
          (record { nx_lt = omega arith; ny_lt = omega arith; nz_lt = omega arith }) (omega arith)
          a)

  -- One round of the loop over the directions, on a block of the shape of `m`.
  axis-IsMapped :
      (m' : Memory R)
      → IsSized m
      → 3 * ghosts ≤ extent m d
      → IsSameShape m m'
      → IsAllocated m'
      → Gives (IsMapped axis_point m') (
          apply_unless_mpi kind d false ghosts m.nx m.ny m.nz g m'
          >>= apply_unless_mpi kind d true ghosts m.nx m.ny m.nz g)
  axis-IsMapped m' s e shape a = Gives-bind (shaped_side m' false s e shape a) λ m1 first.
      let shape' : IsSameShape m m1 = record {
        same_nx = omega (arith, first.shape.same_nx, shape.same_nx);
        same_ny = omega (arith, first.shape.same_ny, shape.same_ny);
        same_nz = omega (arith, first.shape.same_nz, shape.same_nz);
      } in
      Gives-map (shaped_side m1 true s e shape' first.allocated)
        λ m2 second. IsMapped-trans _ _ m' m1 m2 (λ p i. closed true m' p s e shape i) first second

-- The map of the first `k` directions.
abbrev upto : {R : Type 0} → Kind → Grid R → ℕ → Memory R → ℕ → Point → Point
upto kind g ghosts m zero p = p
upto kind g ghosts m (suc k) p = upto kind g ghosts m k (
    side_point kind (is_filled g k false) k false ghosts (extent m k)
      (side_point kind (is_filled g k true) k true ghosts (extent m k) p))

-- At least as many inner layers as ghost layers, in each of the first `dimensions` directions.
abbrev pub HasRoom : {R : Type 0} → Memory R → ℕ → ℕ → Type 0
HasRoom m ghosts dimensions = (d : ℕ) → d < dimensions → 3 * ghosts ≤ extent m d

module _ {R : Type 0} (kind : Kind) (ghosts dimensions : ℕ) (g : Grid R) (m : Memory R)
    (few : dimensions ≤ 3) (s : IsSized m) (a : IsAllocated m)
    (room : HasRoom m ghosts dimensions) where
  area-IsMapped :
      Gives
        (IsMapped (upto kind g ghosts m dimensions) m)
        (apply_area kind dimensions ghosts m.nx m.ny m.nz g m)
  unfolding apply_area
  area-IsMapped =
      try_range-Gives (λ k m'. IsMapped (upto kind g ghosts m k) m m') dimensions _ dimensions 0 m
        (omega arith)
        (λ d m' lo hi before.
          Gives-map
            (axis-IsMapped kind ghosts d (omega arith) m g m' s (room d hi) before.shape
              before.allocated)
            λ m'' after.
              IsMapped-trans _ _ m m' m''
                (λ p i.
                  side_point-IsPoint kind ghosts d (omega arith) m g _ false _ (room d hi)
                    (side_point-IsPoint kind ghosts d (omega arith) m g _ true p (room d hi) i))
                before after)
        (IsMapped-refl m a)

  upto-folded :
      (k : ℕ) (p : Point)
      → k ≤ 3
      → HasRoom m ghosts k
      → IsPoint m p
      → upto kind g ghosts m k p ≡ folded kind g k ghosts m p
  upto-folded zero p h r i = refl
  upto-folded (suc zero) p h r i =
      axis-x kind (is_filled g 0 false) (is_filled g 0 true) ghosts m.nx p (r 0 (omega arith))
        i.x_lt
  upto-folded (suc (suc zero)) p h r i =
      let q : Point =
        set_comp p 1 (fold_axis kind (is_filled g 1 false) (is_filled g 1 true) ghosts m.ny p.y) in
      rw
        (axis-y kind (is_filled g 1 false) (is_filled g 1 true) ghosts m.ny p (r 1 (omega arith))
          i.y_lt)
        (axis-x kind (is_filled g 0 false) (is_filled g 0 true) ghosts m.nx q (r 0 (omega arith))
          i.x_lt)
  upto-folded (suc (suc (suc zero))) p h r i =
      let o : Point =
        set_comp p 2 (fold_axis kind (is_filled g 2 false) (is_filled g 2 true) ghosts m.nz p.z) in
      let q : Point =
        set_comp o 1 (fold_axis kind (is_filled g 1 false) (is_filled g 1 true) ghosts m.ny o.y) in
      rw
        (
          axis-z kind (is_filled g 2 false) (is_filled g 2 true) ghosts m.nz p (r 2 (omega arith))
              i.z_lt,
          axis-y kind (is_filled g 1 false) (is_filled g 1 true) ghosts m.ny o (r 1 (omega arith))
              i.y_lt,
        )
        (axis-x kind (is_filled g 0 false) (is_filled g 0 true) ghosts m.nx q (r 0 (omega arith))
          i.x_lt)
  upto-folded (suc (suc (suc (suc k)))) p h r i = absurd (omega arith)

  -- The ghost cells of one variable are filled without a failure, and afterwards every cell, corners
  -- included, holds what the cell at its folded coordinates held before; so the inner cells keep
  -- their values. There are at least as many inner layers as ghost layers in each direction.
  pub apply_area-folded :
      Gives
        (IsMapped (folded kind g dimensions ghosts m) m)
        (apply_area kind dimensions ghosts m.nx m.ny m.nz g m)
  apply_area-folded = Gives-map area-IsMapped λ m' w. record {
    shape = w.shape;
    allocated = w.allocated;
    value = λ p i. w.value p i ∙ ap (read_at m) (upto-folded dimensions p few room i);
  }
