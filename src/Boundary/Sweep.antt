-- ===== src/Boundary/Sweep.antt =====
-- One side of `applyBoundary` (alsfvm/src/boundary/BoundaryCPU.cpp).
pub mod Patched
pub mod Covered
use alsvinn.Base.{
  ℕ, zero, suc, ◌+◌, ◌-◌, ◌*◌, ◌≤◌, ◌<◌, ◌≡◌, Bool, true, false, ltb, leb, arith, Gives,
}
use alsvinn.Vec.{vec3, comp, set_comp}
use alsvinn.Memory.{Memory, size_mod}
use alsvinn.Memory.Access.{IsAllocated, IsSameShape}
use alsvinn.Boundary.{
  Kind, neumann_kind, periodic_kind, apply_cell, apply_side, first_of_axis, rounds_of_axis,
}
use alsvinn.Boundary.Patch.{
  Point, IsPoint, same_point, any_range, any_range_intro, IsPatched, IsSound, IsSound-same,
  try_range-IsPatched, copy_cell-IsPatched,
}
use alsvinn.Boundary.Word.{
  anchor, edge, fold_side, apply_cell-x, apply_cell-y, apply_cell-z, first_of_axis-eq-anchor,
}

-- The ghost coordinates at one end of an axis of `n` cells, and the ghost cells of a side.
abbrev pub in_layer : Bool → ℕ → ℕ → ℕ → Bool
in_layer true ghosts n c = leb (n - ghosts) c
in_layer false ghosts n c = ltb c ghosts

abbrev pub is_ghost : ℕ → Bool → ℕ → ℕ → Point → Bool
is_ghost d top ghosts n p = in_layer top ghosts n (comp p d)

abbrev pub source_of : Kind → ℕ → Bool → ℕ → ℕ → Point → Point
source_of kind d top ghosts n p = set_comp p d (fold_side kind top ghosts n (comp p d))

abbrev pub extent : {R : Type 0} → Memory R → ℕ → ℕ
extent m d = comp (vec3 m.nx m.ny m.nz) d

-- The source of a ghost coordinate lies among the inner ones.
pub fold_side-inner :
    (kind : Kind) (top : Bool) (ghosts n c : ℕ)
    → 3 * ghosts ≤ n
    → c < n
    → in_layer top ghosts n c ≡ true
    → (ghosts ≤ fold_side kind top ghosts n c) × (fold_side kind top ghosts n c < n - ghosts)
unfolding fold_side
fold_side-inner neumann_kind true ghosts n c h k t = ground arith
fold_side-inner neumann_kind false ghosts n c h k t = ground arith
fold_side-inner periodic_kind true ghosts n c h k t = ground arith
fold_side-inner periodic_kind false ghosts n c h k t = ground arith

inner-not-in_layer :
    (top : Bool) (ghosts n c : ℕ) → ghosts ≤ c → c < n - ghosts → in_layer top ghosts n c ≡ false
inner-not-in_layer true ghosts n c lo hi = ground arith
inner-not-in_layer false ghosts n c lo hi = ground arith

edge-in_layer :
    (top : Bool) (ghosts n g : ℕ)
    → 3 * ghosts ≤ n
    → 1 ≤ g
    → g ≤ ghosts
    → (edge top ghosts n g < n) × (in_layer top ghosts n (edge top ghosts n g) ≡ true)
edge-in_layer true ghosts n g h lo hi = ground arith
edge-in_layer false ghosts n g h lo hi = ground arith

-- The distance at which the innermost loop reaches a ghost coordinate.
distance : Bool → ℕ → ℕ → ℕ → ℕ
distance true ghosts n c = c + 1 - (n - ghosts)
distance false ghosts n c = ghosts - c

distance_lem :
    (top : Bool) (ghosts n c : ℕ)
    → 3 * ghosts ≤ n
    → c < n
    → in_layer top ghosts n c ≡ true
    → (1 ≤ distance top ghosts n c)
      × (distance top ghosts n c < 1 + ghosts)
      × (edge top ghosts n (distance top ghosts n c) ≡ c)
unfolding distance
distance_lem true ghosts n c h k t = ground arith
distance_lem false ghosts n c h k t = ground arith

-- Each extent of the block fits a `size_t`.
pub record IsSized {R : Type 0} (m : Memory R) : Type 0 where
  pub nx_lt : m.nx < size_mod
  pub ny_lt : m.ny < size_mod
  pub nz_lt : m.nz < size_mod

module _ {R : Type 0} (m : Memory R) (kind : Kind) (top : Bool) (ghosts : ℕ) where
  pub side-IsSound :
      (d : ℕ)
      → 3 * ghosts ≤ extent m d
      → IsSound (is_ghost d top ghosts (extent m d)) (source_of kind d top ghosts (extent m d)) m
  side-IsSound zero h p i g =
      let (lo, hi) = fold_side-inner kind top ghosts m.nx p.x h i.x_lt g in
      (
        record { x_lt = omega arith; y_lt = i.y_lt; z_lt = i.z_lt },
        inner-not-in_layer top ghosts m.nx _ lo hi,
      )
  side-IsSound (suc zero) h p i g =
      let (lo, hi) = fold_side-inner kind top ghosts m.ny p.y h i.y_lt g in
      (
        record { x_lt = i.x_lt; y_lt = omega arith; z_lt = i.z_lt },
        inner-not-in_layer top ghosts m.ny _ lo hi,
      )
  side-IsSound (suc (suc d)) h p i g =
      let (lo, hi) = fold_side-inner kind top ghosts m.nz p.z h i.z_lt g in
      (
        record { x_lt = i.x_lt; y_lt = i.y_lt; z_lt = omega arith },
        inner-not-in_layer top ghosts m.nz _ lo hi,
      )

  -- The coordinates that the three outer loops of a side go through.
  record IsVisited (d x y z : ℕ) : Type 0 where
    x_lo : first_of_axis d 0 top ghosts m.nx ≤ x
    x_hi : x < first_of_axis d 0 top ghosts m.nx + rounds_of_axis d 0 m.nx
    y_lo : first_of_axis d 1 top ghosts m.ny ≤ y
    y_hi : y < first_of_axis d 1 top ghosts m.ny + rounds_of_axis d 1 m.ny
    z_lo : first_of_axis d 2 top ghosts m.nz ≤ z
    z_hi : z < first_of_axis d 2 top ghosts m.nz + rounds_of_axis d 2 m.nz

  -- One round of the innermost loop, whose three outer loops are at (x, y, z).
  round-IsPatched :
      (d x y z g : ℕ)
      → d < 3
      → IsSized m
      → IsAllocated m
      → 3 * ghosts ≤ extent m d
      → 1 ≤ g
      → g ≤ ghosts
      → IsVisited d x y z
      → Gives
          (IsPatched
            (is_ghost d top ghosts (extent m d))
            (source_of kind d top ghosts (extent m d))
            (same_point (set_comp (vec3 x y z) d (edge top ghosts (extent m d) g)))
            m)
          (apply_cell kind d top ghosts z y x g m)
  unfolding first_of_axis rounds_of_axis
  round-IsPatched zero x y z g h s a e lo hi v =
      let start = first_of_axis-eq-anchor 0 top ghosts m.nx s.nx_lt e (omega arith) in
      let x_eq : x ≡ anchor top ghosts m.nx = omega (arith, v.x_lo, v.x_hi, start) in
      let (in_lt, ghost) = edge-in_layer top ghosts m.nx g e lo hi in
      let here : IsPoint m (vec3 (edge top ghosts m.nx g) y z) = record {
        x_lt = in_lt;
        y_lt = omega (arith, v.y_hi);
        z_lt = omega (arith, v.z_hi);
      } in
      rw
        (
          x_eq,
          apply_cell-x m ghosts g y z (omega (arith, v.y_hi)) (omega (arith, v.z_hi)) lo hi kind top
              s.nx_lt e,
        )
        (copy_cell-IsPatched _ _ (vec3 (edge top ghosts m.nx g) y z) m a here
          (side-IsSound 0 e _ here ghost).0 ghost)
  round-IsPatched (suc zero) x y z g h s a e lo hi v =
      let start = first_of_axis-eq-anchor 1 top ghosts m.ny s.ny_lt e (omega arith) in
      let y_eq : y ≡ anchor top ghosts m.ny = omega (arith, v.y_lo, v.y_hi, start) in
      let (in_lt, ghost) = edge-in_layer top ghosts m.ny g e lo hi in
      let here : IsPoint m (vec3 x (edge top ghosts m.ny g) z) = record {
        x_lt = omega (arith, v.x_hi);
        y_lt = in_lt;
        z_lt = omega (arith, v.z_hi);
      } in
      rw
        (
          y_eq,
          apply_cell-y m ghosts g x z (omega (arith, v.x_hi)) (omega (arith, v.z_hi)) lo hi kind top
              s.ny_lt e,
        )
        (copy_cell-IsPatched _ _ (vec3 x (edge top ghosts m.ny g) z) m a here
          (side-IsSound 1 e _ here ghost).0 ghost)
  round-IsPatched (suc (suc zero)) x y z g h s a e lo hi v =
      let start = first_of_axis-eq-anchor 2 top ghosts m.nz s.nz_lt e (omega arith) in
      let z_eq : z ≡ anchor top ghosts m.nz = omega (arith, v.z_lo, v.z_hi, start) in
      let (in_lt, ghost) = edge-in_layer top ghosts m.nz g e lo hi in
      let here : IsPoint m (vec3 x y (edge top ghosts m.nz g)) = record {
        x_lt = omega (arith, v.x_hi);
        y_lt = omega (arith, v.y_hi);
        z_lt = in_lt;
      } in
      rw
        (
          z_eq,
          apply_cell-z m ghosts g x y (omega (arith, v.x_hi)) (omega (arith, v.y_hi)) lo hi kind top
              s.nz_lt e,
        )
        (copy_cell-IsPatched _ _ (vec3 x y (edge top ghosts m.nz g)) m a here
          (side-IsSound 2 e _ here ghost).0 ghost)
  round-IsPatched (suc (suc (suc d))) x y z g h s a e lo hi v = absurd (omega arith)

-- The assignments of a whole side: some round of the four loops assigns the cell.
abbrev pub side_targets : Bool → ℕ → ℕ → ℕ → ℕ → ℕ → Point → Bool
side_targets top ghosts d nx ny nz p =
    any_range (rounds_of_axis d 2 nz) (first_of_axis d 2 top ghosts nz) λ z.
      any_range (rounds_of_axis d 1 ny) (first_of_axis d 1 top ghosts ny) λ y.
        any_range (rounds_of_axis d 0 nx) (first_of_axis d 0 top ghosts nx) λ x.
          any_range ghosts 1
            λ g. same_point (set_comp (vec3 x y z) d (edge top ghosts (comp (vec3 nx ny nz) d) g)) p
