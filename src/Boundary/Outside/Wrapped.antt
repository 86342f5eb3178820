-- ===== src/Boundary/Outside/Wrapped.antt =====
-- The periodic position of alsfvm/include/alsfvm/boundary/ValueAtBoundary.hpp.
use native.Mathlib.Nat.{mod-add-div', mod-lt}
use alsvinn.Base.{
  ℕ, zero, suc, ◌+◌, ◌*◌, ◌/◌, ◌%◌, ◌≤◌, ◌<◌, ◌≡◌, refl, ap, arith, true, false, Option, some,
}
use alsvinn.Base.Int.{ℤ, pos, negsuc, pos_part, neg_part, ◌+ℤ◌, ◌%ℤ◌, ltb_ℤ, int_laws, pos-+ℤ-pos}
use alsvinn.Vec.{Vec3, vec3, map3}
use alsvinn.Memory.{Memory}
use alsvinn.Memory.Layout.{row-injective}
use alsvinn.Boundary.Outside.{make_positive, periodic_coordinate, periodic_value, read_view}

-- The position and `r` differ by a multiple of `n`.
pub record IsSameMod (n : ℕ) (position : ℤ) (r : ℕ) : Type 0 where
  pub up : ℕ
  pub down : ℕ
  pub differs : pos_part position + up * n ≡ r + neg_part position + down * n

-- The loop has ended at a position that is not negative, and that is the old one with a multiple of `n`
-- added.
abbrev IsRaised : ℕ → ℤ → Option ℤ → Type 0
IsRaised n position outcome =
    (m k : ℕ) × (outcome ≡ some (pos m)) × (pos_part position + k * n ≡ m + neg_part position)

not_below_zero : (m : ℕ) → ltb_ℤ (pos m) (pos 0) ≡ false
not_below_zero m = ground arith

raise :
    (n k m : ℕ) (position : ℤ)
    → pos_part (position +ℤ pos n) + k * n ≡ m + neg_part (position +ℤ pos n)
    → pos_part position + suc k * n ≡ m + neg_part position
raise n k m position e = omega (int_laws, e)

below_zero : (m : ℕ) → ltb_ℤ (negsuc m) (pos 0) ≡ true
below_zero m = ground arith

fewer_below : (m n fuel : ℕ) → 1 ≤ n → suc m < suc fuel → neg_part (negsuc m +ℤ pos n) < fuel
unfolding ◌+ℤ◌
fewer_below m n fuel some_cells enough = ground arith

-- Where there is a cell, one more round than there are steps below zero is enough.
make_positive-IsRaised :
    (n fuel : ℕ) (position : ℤ)
    → 1 ≤ n
    → neg_part position < fuel
    → IsRaised n position (make_positive fuel position (pos n))
unfolding make_positive
make_positive-IsRaised n zero position some_cells enough = elim enough [ ]
make_positive-IsRaised n (suc fuel) (pos m) some_cells enough =
    rw (not_below_zero m) (m, 0, refl, omega arith)
make_positive-IsRaised n (suc fuel) (negsuc m) some_cells enough =
    let (top, k, ended, raised) =
      make_positive-IsRaised n fuel (negsuc m +ℤ pos n) some_cells
        (fewer_below m n fuel some_cells enough) in
    rw (below_zero m) (top, suc k, ended, raise n k top (negsuc m) raised)

-- The coordinate is that of an inner cell whose position differs from the given one by a multiple of
-- the number of inner cells.
pub periodic_coordinate-IsSameMod :
    (n ghosts fuel : ℕ) (position : ℤ)
    → 1 ≤ n
    → neg_part position < fuel
    → (r : ℕ) × (periodic_coordinate fuel position (pos n) (pos ghosts) ≡ some (pos (r + ghosts)))
      × (r < n)
      × IsSameMod n position r
unfolding periodic_coordinate ◌%ℤ◌
periodic_coordinate-IsSameMod n ghosts fuel position some_cells enough =
    let (m, k, ended, raised) = make_positive-IsRaised n fuel position some_cells enough in
    (
      m % n,
      rw ended (ap some (pos-+ℤ-pos (m % n) ghosts)),
      mod-lt m (omega arith),
      record { up = k; down = m / n; differs = omega (arith, raised, mod-add-div' m n) },
    )

-- One position below `n` at most differs from a position by a multiple of `n`.
IsSameMod-unique :
    (n r r' : ℕ) (position : ℤ)
    → r < n
    → r' < n
    → IsSameMod n position r
    → IsSameMod n position r'
    → r ≡ r'
IsSameMod-unique n r r' position fits fits' same same' =
    (row-injective n r (same.down + same'.up) r' (same'.down + same.up) fits fits'
      (omega (arith, same.differs, same'.differs))).0

-- The cells at the positions of `r` in each direction, beside the ghost cells
abbrev pub inner : Vec3 ℕ → Vec3 ℕ → Vec3 ℤ
inner r ghosts = vec3 (pos (r.x + ghosts.x)) (pos (r.y + ghosts.y)) (pos (r.z + ghosts.z))

-- The inner cell that a position stands for
pub record IsWrapped (n : Vec3 ℕ) (position : Vec3 ℤ) (r : Vec3 ℕ) : Type 0 where
  pub is_inner : (r.x < n.x) × (r.y < n.y) × (r.z < n.z)
  pub is_same :
      IsSameMod n.x position.x r.x × IsSameMod n.y position.y r.y × IsSameMod n.z position.z r.z

-- The rounds are enough for the steps below zero in each direction.
abbrev pub IsEnough : ℕ → Vec3 ℤ → Type 0
IsEnough fuel position =
    (neg_part position.x < fuel) × (neg_part position.y < fuel) × (neg_part position.z < fuel)

abbrev pub HasCells : Vec3 ℕ → Type 0
HasCells n = (1 ≤ n.x) × (1 ≤ n.y) × (1 ≤ n.z)

-- Where each direction has cells, and more rounds than there are steps below zero, the loops end, and the
-- value at a position is that of the one inner cell that differs from it by whole periods.
pub periodic_value-IsWrapped :
    {R : Type 0} (fuel : ℕ) (view : Memory R) (position : Vec3 ℤ) (n ghosts : Vec3 ℕ)
    → HasCells n
    → IsEnough fuel position
    → (r : Vec3 ℕ) × IsWrapped n position r
      × ((r' : Vec3 ℕ) → IsWrapped n position r' → r' ≡ r)
      × (periodic_value fuel view position (map3 pos n) (map3 pos ghosts)
          ≡ read_view view (inner r ghosts))
unfolding periodic_value
periodic_value-IsWrapped fuel view position n ghosts (nx, ny, nz) (fx, fy, fz) =
    let (x, at_x, x_lt, same_x) =
      periodic_coordinate-IsSameMod n.x ghosts.x fuel position.x nx fx in
    let (y, at_y, y_lt, same_y) =
      periodic_coordinate-IsSameMod n.y ghosts.y fuel position.y ny fy in
    let (z, at_z, z_lt, same_z) =
      periodic_coordinate-IsSameMod n.z ghosts.z fuel position.z nz fz in
    (
      vec3 x y z,
      record { is_inner = (x_lt, y_lt, z_lt); is_same = (same_x, same_y, same_z) },
      (λ r w i.
          vec3 (IsSameMod-unique n.x r.x x position.x w.is_inner.0 x_lt w.is_same.0 same_x i)
            (IsSameMod-unique n.y r.y y position.y w.is_inner.1 y_lt w.is_same.1 same_y i)
            (IsSameMod-unique n.z r.z z position.z w.is_inner.2 z_lt w.is_same.2 same_z i)),
      rw (at_x, at_y, at_z) refl,
    )
