-- ===== src/Boundary/Sides.antt =====
-- One direction of `applyBoundary` (alsfvm/src/boundary/BoundaryCPU.cpp).
use alsvinn.Base.{
  ℕ, ◌+◌, ◌*◌, ◌≤◌, ◌<◌, ◌≡◌, refl, ◌∙◌, inl, inr, Bool, true, false, ◌&&◌, to_nat, if◌then◌else◌,
  arith, Bool-cases, ok, Gives, gives, Gives-map,
}
use alsvinn.Grid.{Grid, BoundaryType, periodic, neumann, mpi_bc, get_boundary_condition}
use alsvinn.Memory.{Memory}
use alsvinn.Memory.Access.{IsAllocated, IsSameShape}
use alsvinn.Boundary.{Kind, apply_side, apply_unless_mpi}
use alsvinn.Boundary.Patch.{Point, IsPoint, read_at, IsInside-same}
use alsvinn.Boundary.Sweep.Patched.{side-IsPatched}
use alsvinn.Boundary.Sweep.Covered.{covered}
use alsvinn.Boundary.Sweep.{is_ghost, source_of, extent, IsSized, side_targets}

-- Every cell of `m'` holds what the cell that `F` names held in `m`.
pub record IsMapped {R : Type 0} (F : Point → Point) (m m' : Memory R) : Type 0 where
  pub shape : IsSameShape m m'
  pub allocated : IsAllocated m'
  pub value : (p : Point) → IsPoint m p → read_at m' p ≡ read_at m (F p)

-- The map of one side; `on` tells whether the side is filled at all.
abbrev pub side_point : Kind → Bool → ℕ → Bool → ℕ → ℕ → Point → Point
side_point kind on d top ghosts n p =
    if on && is_ghost d top ghosts n p then source_of kind d top ghosts n p else p

abbrev pub is_filled : {R : Type 0} → Grid R → ℕ → Bool → Bool
is_filled g d top = elim (get_boundary_condition g (2 * d + to_nat top)) [
  | mpi_bc ↦ false
  | _ ↦ true
]

pub IsMapped-refl : {R : Type 0} (m : Memory R) → IsAllocated m → IsMapped (λ p. p) m m
IsMapped-refl m a = record {
  shape = record { same_nx = refl; same_ny = refl; same_nz = refl };
  allocated = a;
  value = λ p i. refl;
}

pub IsMapped-trans :
    {R : Type 0} (F G : Point → Point) (m m' m'' : Memory R)
    → ((p : Point) → IsPoint m p → IsPoint m (G p))
    → IsMapped F m m'
    → IsMapped G m' m''
    → IsMapped (λ p. F (G p)) m m''
IsMapped-trans F G m m' m'' closed a b = record {
  shape = record { same_nx = omega arith; same_ny = omega arith; same_nz = omega arith };
  allocated = b.allocated;
  value = λ p i. b.value p (IsInside-same a.shape i) ∙ a.value (G p) (closed p i);
}

module _ {R : Type 0} (kind : Kind) (ghosts d : ℕ) (inside : d < 3) (m : Memory R) where
  side-IsMapped :
      (top : Bool)
      → IsSized m
      → 3 * ghosts ≤ extent m d
      → IsAllocated m
      → Gives
          (IsMapped (side_point kind true d top ghosts (extent m d)) m)
          (apply_side kind d top ghosts m.nx m.ny m.nz m)
  side-IsMapped top s e a = Gives-map (side-IsPatched kind top ghosts d inside m s e a) λ m' w.
      record {
        shape = w.shape;
        allocated = w.allocated;
        value = λ p i. elim (Bool-cases (is_ghost d top ghosts (extent m d) p)) [
          | inl g ↦ rw (w.value p i, covered kind top ghosts m s p i d inside e g, g)
          | inr g ↦ elim (Bool-cases (side_targets top ghosts d m.nx m.ny m.nz p)) [
            | inl t ↦ cc (w.within p i t)
            | inr t ↦ rw (w.value p i, t, g)
          ]
        ];
      }

  -- A side whose condition is MPI_BC is left as it is.
  pub unless_mpi-IsMapped :
      (top : Bool) (g : Grid R)
      → IsSized m
      → 3 * ghosts ≤ extent m d
      → IsAllocated m
      → Gives
          (IsMapped (side_point kind (is_filled g d top) d top ghosts (extent m d)) m)
          (apply_unless_mpi kind d top ghosts m.nx m.ny m.nz g m)
  unfolding apply_unless_mpi
  unless_mpi-IsMapped top g s e a = go (get_boundary_condition g (2 * d + to_nat top))
    where
      go :
          (c : BoundaryType)
          → Gives
              (IsMapped
                (side_point kind (elim c [ mpi_bc ↦ false | _ ↦ true ]) d top ghosts (extent m d))
                m)
              (elim c [ mpi_bc ↦ ok m | _ ↦ apply_side kind d top ghosts m.nx m.ny m.nz m ])
      go periodic = side-IsMapped top s e a
      go neumann = side-IsMapped top s e a
      go mpi_bc = gives (IsMapped-refl m a)
