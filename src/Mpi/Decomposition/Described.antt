-- ===== src/Mpi/Decomposition/Described.antt =====
-- One side of the box of a process, described by the coordinates of the process
-- (alsfvm/src/mpi/domain/CartesianDecomposition.cpp).
use alsvinn.Base.{
  ℕ, suc, ◌-◌, ◌/◌, ◌%◌, ◌<◌, ◌≡◌, ◌≢◌, refl, sym, ◌∙◌, ap, arith, Bool, true, false, ◌⊎◌, inl, inr,
  Bool-cases, if◌then◌else◌, ok, ok-injective,
}
use alsvinn.Base.Int.{ℤ, pos, negsuc, ◌-ℤ◌}
use alsvinn.Vec.{Vec3, comp, set_comp, map3}
use alsvinn.Grid.{BoundaryType, periodic, neumann, mpi_bc, Grid, get_boundary_condition}
use alsvinn.Mpi.Positions.{rank_of, IsInside, comp-pos, IsInside-comp}
use alsvinn.Mpi.Decomposition.{is_outermost, keeps_boundary, neighbour_of, condition_of}
use alsvinn.Mpi.Decomposition.Neighbours.{next, neighbour_of-kept, neighbour_of-next}

-- Even sides are the lower ones.
abbrev pub IsLower : ℕ → Type 0
IsLower side = side % 2 ≡ 0

abbrev pub IsUpper : ℕ → Type 0
IsUpper side = side % 2 ≡ 1

-- The rank of the process whose coordinate along the axis of the side is `a`
abbrev pub rank_at : Vec3 ℕ → Vec3 ℕ → ℕ → ℕ → ℤ
rank_at n c side a = pos (rank_of n (set_comp c (side / 2) a))

-- The neighbour and the condition of a side, for a process at `c` among `n`: inside the arrangement the
-- process one below or one above; at its edge the process at the other end if the grid is periodic and
-- there are several processes, and otherwise none and the condition of the grid.
pub data IsSide {R : Type 0} (g : Grid R) (n c : Vec3 ℕ) (side : ℕ) (nb : ℤ) (bc : BoundaryType)
    : Type 0 where
  one_below :
      {a : ℕ}
      → IsLower side
      → comp c (side / 2) ≡ suc a
      → nb ≡ rank_at n c side a
      → bc ≡ mpi_bc
      → IsSide g n c side nb bc
  one_above :
      IsUpper side
      → suc (comp c (side / 2)) < comp n (side / 2)
      → nb ≡ rank_at n c side (suc (comp c (side / 2)))
      → bc ≡ mpi_bc
      → IsSide g n c side nb bc
  last_process :
      {a : ℕ}
      → IsLower side
      → comp c (side / 2) ≡ 0
      → get_boundary_condition g side ≡ periodic
      → comp n (side / 2) ≡ suc (suc a)
      → nb ≡ rank_at n c side (suc a)
      → bc ≡ mpi_bc
      → IsSide g n c side nb bc
  first_process :
      {a : ℕ}
      → IsUpper side
      → suc (comp c (side / 2)) ≡ comp n (side / 2)
      → get_boundary_condition g side ≡ periodic
      → comp n (side / 2) ≡ suc (suc a)
      → nb ≡ rank_at n c side 0
      → bc ≡ mpi_bc
      → IsSide g n c side nb bc
  edge :
      (IsLower side × (comp c (side / 2) ≡ 0))
        ⊎ (IsUpper side × (suc (comp c (side / 2)) ≡ comp n (side / 2)))
      → (get_boundary_condition g side ≢ periodic) ⊎ (comp n (side / 2) ≡ 1)
      → nb ≡ negsuc 0
      → bc ≡ get_boundary_condition g side
      → IsSide g n c side nb bc

-- What `keeps_boundary` decides
kept_cases :
    (side c p : ℕ) (b : BoundaryType)
    → c < p
    → keeps_boundary side b (pos c) (pos p) ≡ true
    → (((side % 2 ≡ 0) × (c ≡ 0)) ⊎ ((side % 2 ≡ 1) × (suc c ≡ p))) × ((b ≢ periodic) ⊎ (p ≡ 1))
unfolding keeps_boundary is_outermost ◌-ℤ◌
kept_cases side c p periodic h k = ground arith
kept_cases side c p neumann h k = (ground arith, inl λ e. cc)
kept_cases side c p mpi_bc h k = (ground arith, inl λ e. cc)

-- Where `next` goes when the boundary is not kept
abbrev Moves : ℕ → ℕ → ℕ → BoundaryType → Type 0
Moves side c p b =
    ((side % 2 ≡ 0) × (c ≡ suc (c - 1)) × (next side c p ≡ c - 1))
    ⊎ ((side % 2 ≡ 1) × (suc c < p) × (next side c p ≡ suc c))
    ⊎ ((side % 2 ≡ 0)
        × (c ≡ 0)
        × (b ≡ periodic)
        × (p ≡ suc (suc (p - 2)))
        × (next side c p ≡ suc (p - 2)))
    ⊎ ((side % 2 ≡ 1)
        × (suc c ≡ p)
        × (b ≡ periodic)
        × (p ≡ suc (suc (p - 2)))
        × (next side c p ≡ 0))

moved_cases :
    (side c p : ℕ) (b : BoundaryType)
    → c < p
    → keeps_boundary side b (pos c) (pos p) ≡ false
    → Moves side c p b
unfolding keeps_boundary is_outermost ◌-ℤ◌
moved_cases side c p periodic h k = ground arith
moved_cases side c p neumann h k = ground arith
moved_cases side c p mpi_bc h k = ground arith

module _ {R : Type 0} (g : Grid R) (n c : Vec3 ℕ) (inside : IsInside n c) (side : ℕ) where
  abbrev keeps : Bool
  keeps =
      keeps_boundary side (get_boundary_condition g side) (pos (comp c (side / 2)))
        (pos (comp n (side / 2)))

  condition_of-keeps :
      condition_of g (map3 pos n) (map3 pos c) side
      ≡ (if keeps then get_boundary_condition g side else mpi_bc)
  unfolding condition_of
  condition_of-keeps = rw (comp-pos c (side / 2), comp-pos n (side / 2)) refl

  -- The model's neighbour and condition are those described.
  pub neighbour_of-IsSide :
      (q : ℤ)
      → neighbour_of g (map3 pos n) (map3 pos c) side ≡ ok q
      → IsSide g n c side q (condition_of g (map3 pos n) (map3 pos c) side)
  neighbour_of-IsSide q e = rw condition_of-keeps (elim (Bool-cases keeps) [
    | inl k ↦
        let (outer, cause) =
          kept_cases side _ _ (get_boundary_condition g side) (IsInside-comp n c (side / 2) inside)
            k in
        rw k (edge outer cause (ok-injective _ _ (sym e ∙ neighbour_of-kept g n c side k)) refl)
    | inr k ↦
        let at = ok-injective _ _ (sym e ∙ neighbour_of-next g n c side inside k) in
        rw k (
          moved at (
            moved_cases side _ _ (get_boundary_condition g side)
              (IsInside-comp n c (side / 2) inside) k))
  ])
    where
      to :
          {a : ℕ}
          → q ≡ rank_at n c side (next side (comp c (side / 2)) (comp n (side / 2)))
          → next side (comp c (side / 2)) (comp n (side / 2)) ≡ a
          → q ≡ rank_at n c side a
      to at there = at ∙ ap (rank_at n c side) there

      moved :
          q ≡ rank_at n c side (next side (comp c (side / 2)) (comp n (side / 2)))
          → Moves side (comp c (side / 2)) (comp n (side / 2)) (get_boundary_condition g side)
          → IsSide g n c side q mpi_bc
      moved at (inl (low, is, there)) = one_below low is (to at there) refl
      moved at (inr (inl (up, is, there))) = one_above up is (to at there) refl
      moved at (inr (inr (inl (low, is, wraps, several, there)))) =
          last_process low is wraps several (to at there) refl
      moved at (inr (inr (inr (up, is, wraps, several, there)))) =
          first_process up is wraps several (to at there) refl
