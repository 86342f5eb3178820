-- ===== src/Memory/Access.antt =====
-- Reads and writes through `View::at` (alsfvm/include/alsfvm/memory/View.hpp).
use native.Mathlib.Nat.{mod-eq_of_lt}
use alsvinn.Base.{
  ℕ, ◌*◌, ◌<◌, ◌≡◌, refl, ◌∙◌, sym, inl, inr, Bool, true, false, ◌&&◌, some, arith, lt→ltb, ◌==◌,
  if◌then◌else◌, Bool-cases, length, get_elem?, set, get_elem?_of_lt, get_elem?-set_self,
  get_elem?-set_ne, length-set, ok, Gives, gives,
}
use alsvinn.Memory.{Memory, size_mod, index, read, write}
use alsvinn.Memory.Layout.{place, place-lt, place-injective}

-- A block whose buffer has a cell for each coordinate, and whose size a `size_t` can hold.
pub record IsAllocated {R : Type 0} (m : Memory R) : Type 0 where
  pub cells_length : length m.cells ≡ m.nx * m.ny * m.nz
  pub fits : m.nx * m.ny * m.nz < size_mod

pub record IsInside {R : Type 0} (m : Memory R) (x y z : ℕ) : Type 0 where
  pub x_lt : x < m.nx
  pub y_lt : y < m.ny
  pub z_lt : z < m.nz

-- The block `m'` has the shape of `m`.
pub record IsSameShape {R : Type 0} (m m' : Memory R) : Type 0 where
  pub same_nx : m'.nx ≡ m.nx
  pub same_ny : m'.ny ≡ m.ny
  pub same_nz : m'.nz ≡ m.nz

abbrev pub same_cell : ℕ → ℕ → ℕ → ℕ → ℕ → ℕ → Bool
same_cell x y z x' y' z' = x == x' && y == y' && z == z'

pub same_cell_iff :
    (x y z x' y' z' : ℕ)
    → ((same_cell x y z x' y' z' ≡ true) → (x ≡ x') × (y ≡ y') × (z ≡ z'))
      × ((same_cell x y z x' y' z' ≡ false) → ¬ ((x ≡ x') × (y ≡ y') × (z ≡ z')))
same_cell_iff x y z x' y' z' = (ground arith, λ h k. ground arith)

-- What an assignment to a cell does to a block.
pub record IsWritten {R : Type 0} (x y z : ℕ) (v : R) (m m' : Memory R) : Type 0 where
  pub shape : IsSameShape m m'
  pub allocated : IsAllocated m'
  pub value :
      (x' y' z' : ℕ)
      → IsInside m x' y' z'
      → read m' x' y' z' ≡ (if same_cell x y z x' y' z' then ok v else read m x' y' z')

module _ {R : Type 0} where
  pub index-eq-place :
      (m : Memory R) (x y z : ℕ)
      → IsAllocated m
      → IsInside m x y z
      → (index m x y z ≡ place m.nx m.ny x y z) × (index m x y z < length m.cells)
  unfolding index
  index-eq-place m x y z a i =
      let below = place-lt m.nx m.ny m.nz x y z i.x_lt i.y_lt i.z_lt in
      let fits : place m.nx m.ny x y z < size_mod = omega (arith, a.fits) in
      let same = mod-eq_of_lt fits in (same, rw same (omega (arith, a.cells_length)))

  -- A cell of the block can be read.
  pub read-ok :
      (m : Memory R) (x y z : ℕ)
      → IsAllocated m
      → IsInside m x y z
      → (v : R) × (read m x y z ≡ ok v)
  unfolding read
  read-ok m x y z a i =
      let (v, e) = get_elem?_of_lt m.cells (index m x y z) (index-eq-place m x y z a i).1 in
      (v, rw (lt→ltb _ _ i.x_lt, lt→ltb _ _ i.y_lt, lt→ltb _ _ i.z_lt, e))

  index-injective :
      (m : Memory R) (x y z x' y' z' : ℕ)
      → IsAllocated m
      → IsInside m x y z
      → IsInside m x' y' z'
      → index m x y z ≡ index m x' y' z'
      → (x ≡ x') × (y ≡ y') × (z ≡ z')
  index-injective m x y z x' y' z' a i j e =
      place-injective m.nx m.ny x y z x' y' z' i.x_lt j.x_lt i.y_lt j.y_lt
        (sym (index-eq-place m x y z a i).0 ∙ e ∙ (index-eq-place m x' y' z' a j).0)

  get_elem?-set_cell :
      (m : Memory R) (x y z x' y' z' : ℕ) (v : R)
      → IsAllocated m
      → IsInside m x y z
      → IsInside m x' y' z'
      → get_elem? (set m.cells (index m x y z) v) (index m x' y' z')
        ≡ (if same_cell x y z x' y' z' then some v else get_elem? m.cells (index m x' y' z'))
  get_elem?-set_cell m x y z x' y' z' v a i j = elim (Bool-cases (same_cell x y z x' y' z')) [
    | inl same ↦
        let (ex, ey, ez) = (same_cell_iff x y z x' y' z').0 same in
        rw (same, ← ex, ← ey, ← ez)
          (get_elem?-set_self m.cells (index m x y z) v (index-eq-place m x y z a i).1)
    | inr other ↦ rw other (
        get_elem?-set_ne m.cells (index m x y z) (index m x' y' z') v
          (λ e. (same_cell_iff x y z x' y' z').1 other (index-injective m x y z x' y' z' a i j e)))
  ]

  read-set_cell :
      (m : Memory R) (x y z x' y' z' : ℕ) (v : R)
      → IsAllocated m
      → IsInside m x y z
      → IsInside m x' y' z'
      → read (record m { cells = set m.cells (index m x y z) v }) x' y' z'
        ≡ (if same_cell x y z x' y' z' then ok v else read m x' y' z')
  unfolding read index
  read-set_cell m x y z x' y' z' v a i j =
      rw
        (
          lt→ltb _ _ j.x_lt,
          lt→ltb _ _ j.y_lt,
          lt→ltb _ _ j.z_lt,
          get_elem?-set_cell m x y z x' y' z' v a i j,
        )
        (elim (Bool-cases (same_cell x y z x' y' z')) [ inl e ↦ rw e | inr e ↦ rw e ])

  -- A write to a cell of the block succeeds, and afterwards that cell holds the value and every
  -- other cell what it held.
  pub write-IsWritten :
      (m : Memory R) (x y z : ℕ) (v : R)
      → IsAllocated m
      → IsInside m x y z
      → Gives (IsWritten x y z v m) (write x y z v m)
  unfolding write
  write-IsWritten m x y z v a i =
      rw
        (
          lt→ltb _ _ i.x_lt,
          lt→ltb _ _ i.y_lt,
          lt→ltb _ _ i.z_lt,
          lt→ltb _ _ (index-eq-place m x y z a i).1,
        )
        (gives (record {
          shape = record { same_nx = refl; same_ny = refl; same_nz = refl };
          allocated = record {
            cells_length = length-set m.cells (index m x y z) v ∙ a.cells_length;
            fits = a.fits;
          };
          value = λ x' y' z' j. read-set_cell m x y z x' y' z' v a i j;
        }))
