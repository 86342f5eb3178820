-- ===== src/Boundary/Word.antt =====
-- The `size_t` arithmetic of `Neumann::applyBoundary` and the `int` arithmetic of
-- `Periodic::applyBoundary` (alsfvm/include/alsfvm/boundary).
use alsvinn.Base.{ℕ, ◌+◌, ◌-◌, ◌*◌, ◌≤◌, ◌<◌, ◌≡◌, refl, Bool, true, false, arith, if◌then◌else◌}
use alsvinn.Base.Int.{
  ℤ, pos, ◌-ℤ◌, ◌*ℤ◌, int_laws, *ℤ-one, one-*ℤ, *ℤ-zero, minus_one-*ℤ, pos-*ℤ-pos,
}
use alsvinn.Vec.{vec3}
use alsvinn.Memory.{Memory, size_mod, sub_size}
use alsvinn.Volume.ForEach.{to_size}
use alsvinn.Boundary.{
  Kind, neumann_kind, periodic_kind, sign, mul_size, add_size, outward, inward, apply_cell,
}
use alsvinn.Boundary.Patch.{copy_cell}

-- The layer next to the ghost cells, and the ghost cell at distance `g` from it, along an axis of `n`
-- cells with `ghosts` ghost cells at each end.
abbrev pub anchor : Bool → ℕ → ℕ → ℕ
anchor true ghosts n = n - ghosts - 1
anchor false ghosts n = ghosts

abbrev pub edge : Bool → ℕ → ℕ → ℕ → ℕ
edge true ghosts n g = n - ghosts - 1 + g
edge false ghosts n g = ghosts - g

-- The coordinate from which the ghost cell at `c` is filled: the mirror image at the boundary, or the
-- cell one period away.
unfoldable pub fold_side : Kind → Bool → ℕ → ℕ → ℕ → ℕ
fold_side neumann_kind true ghosts n c = 2 * (n - ghosts) - 1 - c
fold_side neumann_kind false ghosts n c = 2 * ghosts - 1 - c
fold_side periodic_kind true ghosts n c = c - (n - 2 * ghosts)
fold_side periodic_kind false ghosts n c = c + (n - 2 * ghosts)

pub first_of_axis-eq-anchor :
    (d : ℕ) (top : Bool) (ghosts n : ℕ)
    → n < size_mod
    → 3 * ghosts ≤ n
    → 0 < n
    → (if top then sub_size (sub_size n ghosts) 1 else ghosts) ≡ anchor top ghosts n
unfolding sub_size
first_of_axis-eq-anchor d true ghosts n small enough some_cells = ground arith
first_of_axis-eq-anchor d false ghosts n small enough some_cells = refl

to_size-pos : (k : ℕ) → k < size_mod → (z : ℤ) → z ≡ pos k → to_size z ≡ k
unfolding to_size
to_size-pos k small z e = rw e (omega arith)

-- An axis other than that of the side: the coordinate stays.
module _ (c : ℕ) (small : c < size_mod) where
  neumann_in_still : (w : ℕ) → add_size c (mul_size w 0) ≡ c
  unfolding add_size mul_size
  neumann_in_still w = omega arith

  neumann_out_still : (w : ℕ) → sub_size c (mul_size w 0) ≡ c
  unfolding sub_size mul_size
  neumann_out_still w = omega arith

  outward_still : (s g : ℤ) → outward c s g 0 ≡ c
  unfolding outward
  outward_still s g = rw *ℤ-zero (to_size-pos c small _ (omega int_laws))

  inward_still : (s g n : ℤ) → inward c s g n 0 ≡ c
  unfolding inward
  inward_still s g n = rw *ℤ-zero (to_size-pos c small _ (omega int_laws))

-- The axis of the side.
module _ (ghosts n g : ℕ) (small : n < size_mod) (enough : 3 * ghosts ≤ n) (lo : 1 ≤ g)
    (hi : g ≤ ghosts) where
  neumann_in :
      (top : Bool)
      → add_size (anchor top ghosts n) (mul_size (mul_size (to_size (sign top)) (sub_size g 1)) 1)
        ≡ fold_side neumann_kind top ghosts n (edge top ghosts n g)
  unfolding add_size mul_size sub_size to_size fold_side
  neumann_in true = omega arith
  neumann_in false = omega arith

  neumann_out :
      (top : Bool)
      → sub_size (anchor top ghosts n) (mul_size (mul_size (to_size (sign top)) g) 1)
        ≡ edge top ghosts n g
  unfolding mul_size sub_size to_size
  neumann_out true = omega arith
  neumann_out false = omega arith

  periodic_out :
      (top : Bool) → outward (anchor top ghosts n) (sign top) (pos g) 1 ≡ edge top ghosts n g
  unfolding outward
  periodic_out true = ground arith
  periodic_out false = ground arith

  periodic_in :
      (top : Bool)
      → inward (anchor top ghosts n) (sign top) (pos g) (pos n -ℤ pos 2 *ℤ pos ghosts) 1
        ≡ fold_side periodic_kind top ghosts n (edge top ghosts n g)
  unfolding inward fold_side
  periodic_in true =
      rw (*ℤ-one, minus_one-*ℤ, pos-*ℤ-pos 2 ghosts)
        (to_size-pos (n - ghosts - 1 + g - (n - 2 * ghosts)) (omega arith) _ (omega int_laws))
  periodic_in false =
      rw (*ℤ-one, one-*ℤ, pos-*ℤ-pos 2 ghosts)
        (to_size-pos (ghosts - g + (n - 2 * ghosts)) (omega arith) _ (omega int_laws))

-- The assignment of one round of the innermost loop, on each axis.
module _ {R : Type 0} (m : Memory R) (ghosts g a b : ℕ) (fits_a : a < size_mod)
    (fits_b : b < size_mod) (lo : 1 ≤ g) (hi : g ≤ ghosts) where
  pub apply_cell-x :
      (kind : Kind) (top : Bool)
      → m.nx < size_mod
      → 3 * ghosts ≤ m.nx
      → let c = edge top ghosts m.nx g in
        apply_cell kind 0 top ghosts b a (anchor top ghosts m.nx) g m
        ≡ copy_cell (vec3 c a b) (vec3 (fold_side kind top ghosts m.nx c) a b) m
  unfolding apply_cell copy_cell
  apply_cell-x neumann_kind top small enough = rw (
    neumann_in ghosts m.nx g small enough lo hi top,
    neumann_out ghosts m.nx g small enough lo hi top,
    neumann_in_still a fits_a,
    neumann_in_still b fits_b,
    neumann_out_still a fits_a,
    neumann_out_still b fits_b,
  )
  apply_cell-x periodic_kind top small enough = rw (
    periodic_in ghosts m.nx g small enough lo hi top,
    periodic_out ghosts m.nx g small enough lo hi top,
    inward_still a fits_a,
    inward_still b fits_b,
    outward_still a fits_a,
    outward_still b fits_b,
  )

  pub apply_cell-y :
      (kind : Kind) (top : Bool)
      → m.ny < size_mod
      → 3 * ghosts ≤ m.ny
      → let c = edge top ghosts m.ny g in
        apply_cell kind 1 top ghosts b (anchor top ghosts m.ny) a g m
        ≡ copy_cell (vec3 a c b) (vec3 a (fold_side kind top ghosts m.ny c) b) m
  unfolding apply_cell copy_cell
  apply_cell-y neumann_kind top small enough = rw (
    neumann_in ghosts m.ny g small enough lo hi top,
    neumann_out ghosts m.ny g small enough lo hi top,
    neumann_in_still a fits_a,
    neumann_in_still b fits_b,
    neumann_out_still a fits_a,
    neumann_out_still b fits_b,
  )
  apply_cell-y periodic_kind top small enough = rw (
    periodic_in ghosts m.ny g small enough lo hi top,
    periodic_out ghosts m.ny g small enough lo hi top,
    inward_still a fits_a,
    inward_still b fits_b,
    outward_still a fits_a,
    outward_still b fits_b,
  )

  pub apply_cell-z :
      (kind : Kind) (top : Bool)
      → m.nz < size_mod
      → 3 * ghosts ≤ m.nz
      → let c = edge top ghosts m.nz g in
        apply_cell kind 2 top ghosts (anchor top ghosts m.nz) b a g m
        ≡ copy_cell (vec3 a b c) (vec3 a b (fold_side kind top ghosts m.nz c)) m
  unfolding apply_cell copy_cell
  apply_cell-z neumann_kind top small enough = rw (
    neumann_in ghosts m.nz g small enough lo hi top,
    neumann_out ghosts m.nz g small enough lo hi top,
    neumann_in_still a fits_a,
    neumann_in_still b fits_b,
    neumann_out_still a fits_a,
    neumann_out_still b fits_b,
  )
  apply_cell-z periodic_kind top small enough = rw (
    periodic_in ghosts m.nz g small enough lo hi top,
    periodic_out ghosts m.nz g small enough lo hi top,
    inward_still a fits_a,
    inward_still b fits_b,
    outward_still a fits_a,
    outward_still b fits_b,
  )
