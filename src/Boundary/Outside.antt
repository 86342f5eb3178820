-- ===== src/Boundary/Outside.antt =====
-- alsfvm/include/alsfvm/boundary/ValueAtBoundary.hpp: the value at a position inside or outside the
-- block of inner cells. A position is an `int` for each direction, and `n` a number of inner cells.
pub mod Wrapped
use alsvinn.Base.{
  ℕ, zero, suc, Option, none, some, if◌then◌else◌, Result, ◌>>=◌, or_undefined, get_elem?,
}
use alsvinn.Base.Int.{ℤ, pos, ◌+ℤ◌, ◌%ℤ◌, ltb_ℤ}
use alsvinn.Vec.{Vec3, vec3}
use alsvinn.Memory.{Memory, index}
use alsvinn.Volume.ForEach.{to_size}
use alsvinn.Boundary.{Kind, neumann_kind, periodic_kind}

-- `while (position < 0) position += N`, with a number of rounds; `none` when they do not suffice.
unfoldable pub make_positive : ℕ → ℤ → ℤ → Option ℤ
make_positive zero position n = none
make_positive (suc fuel) position n =
    let rest = make_positive fuel (position +ℤ n) n in
    if ltb_ℤ position (pos 0) then rest else some position

-- `makePositive(position, N) % N + ghosts`, in one direction
unfoldable pub periodic_coordinate : ℕ → ℤ → ℤ → ℤ → Option ℤ
unfolding make_positive
periodic_coordinate fuel position n ghosts = wrap (make_positive fuel position n)
  where
    wrap : Option ℤ → Option ℤ
    wrap none = none
    wrap (some q) = some (q %ℤ n +ℤ ghosts)

-- `max(0, min(position, N)) + ghosts`, in one direction
unfoldable pub neumann_coordinate : ℤ → ℤ → ℤ → ℤ
neumann_coordinate position n ghosts =
    at_least_zero (if ltb_ℤ n position then n else position) +ℤ ghosts
  where
    at_least_zero : ℤ → ℤ
    at_least_zero a = if ltb_ℤ (pos 0) a then a else pos 0

module _ {R : Type 0} where
  -- `view.at(view.index(x, y, z))`
  unfoldable pub read_view : Memory R → Vec3 ℤ → Result R
  unfolding to_size index
  read_view view c =
      or_undefined (get_elem? view.cells (index view (to_size c.x) (to_size c.y) (to_size c.z)))

  -- `ValueAtBoundary<PERIODIC>::getValueAtBoundary`. Loops that do not end are undefined behaviour.
  unfoldable pub periodic_value : ℕ → Memory R → Vec3 ℤ → Vec3 ℤ → Vec3 ℤ → Result R
  unfolding periodic_coordinate read_view
  periodic_value fuel view position n ghosts = do
    x ← or_undefined (periodic_coordinate fuel position.x n.x ghosts.x)
    y ← or_undefined (periodic_coordinate fuel position.y n.y ghosts.y)
    z ← or_undefined (periodic_coordinate fuel position.z n.z ghosts.z)
    read_view view (vec3 x y z)

  -- `ValueAtBoundary<NEUMANN>::getValueAtBoundary`
  unfoldable pub neumann_value : Memory R → Vec3 ℤ → Vec3 ℤ → Vec3 ℤ → Result R
  unfolding neumann_coordinate read_view
  neumann_value view position n ghosts = read_view view (
      vec3 (neumann_coordinate position.x n.x ghosts.x) (neumann_coordinate position.y n.y ghosts.y)
        (neumann_coordinate position.z n.z ghosts.z))

  -- `getValueAtBoundary` for either of the two boundary conditions
  unfoldable pub value_at_boundary : Kind → ℕ → Memory R → Vec3 ℤ → Vec3 ℤ → Vec3 ℤ → Result R
  unfolding periodic_value neumann_value
  value_at_boundary periodic_kind fuel view position n ghosts =
      periodic_value fuel view position n ghosts
  value_at_boundary neumann_kind fuel view position n ghosts = neumann_value view position n ghosts
