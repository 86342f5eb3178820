-- ===== src/Uq/Statistics/Structure/Periodic.antt =====
-- The structure function of alsuq/src/stats/StructureBasic.cpp with periodic boundary conditions.
use native.Mathlib.Nat.{mod-eq_of_lt}
use alsvinn.Base.{
  ℕ, ◌+◌, ◌*◌, ◌≤◌, ◌<◌, ◌≡◌, refl, ◌∙◌, arith, Bool, to_nat, ◌==◌, get_elem?_of_lt, ok,
}
use alsvinn.Base.Int.{
  ℤ, pos, pos_part, neg_part, ◌+ℤ◌, ◌*ℤ◌, ◌≤ℤ◌, int_laws, pos-*ℤ-pos, eq_of_parts,
}
use alsvinn.Base.Real.{Real}
use alsvinn.Vec.{Vec3, vec3, map3, zip3}
use alsvinn.Boxes.{InBox}
use alsvinn.Boxes.Both.{Both}
use alsvinn.Memory.{Memory, size_mod}
use alsvinn.Memory.Access.{IsAllocated, IsInside, read-ok, index-eq-place}
use alsvinn.Views.{part-lt, part-zero, to_size-pos}
use alsvinn.Volume.ForEach.{to_size}
use alsvinn.Numflux.{direction_vector}
use alsvinn.Boundary.{periodic_kind}
use alsvinn.Boundary.Outside.{value_at_boundary, read_view}
use alsvinn.Boundary.Outside.Wrapped.{HasCells, IsEnough, inner, periodic_value-IsWrapped}
use alsvinn.Uq.Statistics.Structure.{Parameters, share, summand, value_in, compute_variable}
use alsvinn.Uq.Statistics.Structure.Separate.{HoldsAt, IsReadable, sum_at, compute_variable-Both}

-- A block for the inner cells and the layers of ghost cells on both sides
pub record IsInput {R : Type 0} (cells ghosts : Vec3 ℕ) (m : Memory R) : Type 0 where
  pub allocated : IsAllocated m
  pub has_cells : HasCells cells
  pub x_size : m.nx ≡ cells.x + 2 * ghosts.x
  pub y_size : m.ny ≡ cells.y + 2 * ghosts.y
  pub z_size : m.nz ≡ cells.z + 2 * ghosts.z

small : (x y z nx ny nz : ℕ) → x < nx → y < ny → z < nz → nx * ny * nz < size_mod → x < size_mod
small x y z nx ny nz hx hy hz fits = grind arith

module _ {R : Type 0} (m : Memory R) (cells ghosts : Vec3 ℕ) (input : IsInput cells ghosts m) where
  inner_inside :
      (x y z : ℕ)
      → x < cells.x
      → y < cells.y
      → z < cells.z
      → IsInside m (x + ghosts.x) (y + ghosts.y) (z + ghosts.z)
  inner_inside x y z hx hy hz = record {
    x_lt = omega (arith, input.x_size);
    y_lt = omega (arith, input.y_size);
    z_lt = omega (arith, input.z_size);
  }

  inner_size :
      (x y z : ℕ)
      → x < cells.x
      → y < cells.y
      → z < cells.z
      → (x + ghosts.x < size_mod) × (y + ghosts.y < size_mod) × (z + ghosts.z < size_mod)
  inner_size x y z hx hy hz =
      let at = inner_inside x y z hx hy hz in
      let fits = input.allocated.fits in
      (
        small _ _ _ m.nx m.ny m.nz at.x_lt at.y_lt at.z_lt fits,
        small _ _ _ m.ny m.nx m.nz at.y_lt at.x_lt at.z_lt (omega (arith, fits)),
        small _ _ _ m.nz m.nx m.ny at.z_lt at.x_lt at.y_lt (omega (arith, fits)),
      )

  -- The value of an inner cell, read by its coordinates and by its place
  value_ok :
      (x y z : ℕ)
      → x < cells.x
      → y < cells.y
      → z < cells.z
      → (v : R) × (read_view m (inner (vec3 x y z) ghosts) ≡ ok v)
  unfolding read_view to_size
  value_ok x y z hx hy hz =
      let (sx, sy, sz) = inner_size x y z hx hy hz in
      let below = (index-eq-place m _ _ _ input.allocated (inner_inside x y z hx hy hz)).1 in
      let (v, e) = get_elem?_of_lt m.cells _ below in
      (v, rw (mod-eq_of_lt sx, mod-eq_of_lt sy, mod-eq_of_lt sz, e) refl)

  inner_coordinate :
      (a : ℤ) (g : ℕ)
      → pos 0 ≤ℤ a
      → pos_part a + g < size_mod
      → to_size (a +ℤ pos g) ≡ pos_part a + g
  inner_coordinate a g low fits =
      rw (eq_of_parts (a +ℤ pos g) (pos (pos_part a + g)) (omega (int_laws, part-zero a low)))
        (to_size-pos (pos (pos_part a + g)) (omega arith) fits)

module _ {R : Type 0} ⦃r : Real R⦄ (s : Parameters R) (m : Memory R)
    (input : IsInput s.cells s.ghosts m) where
  value_in-ok :
      (c : Vec3 ℤ)
      → InBox (vec3 (pos 0) (pos 0) (pos 0)) (map3 pos s.cells) c
      → (u : R) × (value_in s m c ≡ ok u)
  unfolding value_in
  value_in-ok c ((x0, x1), (y0, y1), (z0, z1)) =
      let hx = part-lt c.x s.cells.x x0 x1 in
      let hy = part-lt c.y s.cells.y y0 y1 in
      let hz = part-lt c.z s.cells.z z0 z1 in
      let (sx, sy, sz) = inner_size m s.cells s.ghosts input _ _ _ hx hy hz in
      rw
        (
          inner_coordinate m s.cells s.ghosts input c.x s.ghosts.x x0 sx,
          inner_coordinate m s.cells s.ghosts input c.y s.ghosts.y y0 sy,
          inner_coordinate m s.cells s.ghosts input c.z s.ghosts.z z0 sz,
        )
        (read-ok m _ _ _ input.allocated (inner_inside m s.cells s.ghosts input _ _ _ hx hy hz))

  -- The value at a position beyond the block is that of an inner cell.
  beyond :
      (position : Vec3 ℤ)
      → s.kind ≡ periodic_kind
      → IsEnough s.fuel position
      → (v : R) × (value_at_boundary s.kind s.fuel m position (map3 pos s.cells) (map3 pos s.ghosts)
          ≡ ok v)
  unfolding value_at_boundary
  beyond position same enough =
      let (cell, wrapped, _, there) =
        periodic_value-IsWrapped s.fuel m position s.cells s.ghosts input.has_cells enough in
      let (hx, hy, hz) = wrapped.is_inner in
      let (v, at_v) = value_ok m s.cells s.ghosts input cell.x cell.y cell.z hx hy hz in
      (v, rw same (there ∙ at_v))

  -- A position that lies h cells after an inner cell, or at it, is not below zero.
  not_below :
      (a : ℤ) (h : ℕ) (on : Bool)
      → pos 0 ≤ℤ a
      → 1 ≤ s.fuel
      → neg_part (a +ℤ pos h *ℤ pos (to_nat on)) < s.fuel
  unfolding ◌+ℤ◌
  not_below a h on low rounds = rw (pos-*ℤ-pos h (to_nat on)) (still_above a (h * to_nat on) low)
    where
      still_above : (a : ℤ) (n : ℕ) → pos 0 ≤ℤ a → neg_part (a +ℤ pos n) < s.fuel
      still_above a n low = ground (arith, rounds)

  -- With periodic boundary conditions every value that the loops read is there.
  periodic_readable : s.kind ≡ periodic_kind → 1 ≤ s.fuel → IsReadable s m
  unfolding summand direction_vector
  periodic_readable same rounds c h ((x0, x1), (y0, y1), (z0, z1)) h_lt =
      let (u, at_u) = value_in-ok c ((x0, x1), (y0, y1), (z0, z1)) in
      let (v, at_v) = beyond (after c h) same (
        not_below c.x h (s.direction == 0) x0 rounds,
        not_below c.y h (s.direction == 1) y0 rounds,
        not_below c.z h (s.direction == 2) z0 rounds,
      ) in
      rw (at_u, at_v) (share s u v, refl)
    where
      after : Vec3 ℤ → ℕ → Vec3 ℤ
      after c h = zip3 ◌+ℤ◌ c (map3 (λ d. pos h *ℤ d) (direction_vector s.direction))

  -- With periodic boundary conditions and at least one round, on a block with cells in each direction,
  -- the loops end normally, and leave at each distance what a loop for that distance alone computes from
  -- the value that the output held there.
  pub compute_variable-periodic :
      s.kind ≡ periodic_kind
      → 1 ≤ s.fuel
      → (h : ℕ) → h < s.number_of_h
      → (output : Memory R) (old : R) → HoldsAt s m h output old
      → Both (HoldsAt s m h) (compute_variable s m output) (sum_at s m h old)
  compute_variable-periodic same rounds h h_lt =
      compute_variable-Both s m (periodic_readable same rounds) h h_lt
