-- ===== src/Boundary/Fold.antt =====
-- The cell from which `applyBoundary` (alsfvm/src/boundary/BoundaryCPU.cpp) fills a cell, axis by axis.
use alsvinn.Base.{
  ℕ, ◌*◌, ◌≤◌, ◌<◌, ◌≡◌, refl, inl, inr, Bool, true, false, ◌&&◌, ltb, if◌then◌else◌, arith,
  Bool-cases,
}
use alsvinn.Vec.{vec3, set_comp}
use alsvinn.Grid.{Grid}
use alsvinn.Memory.{Memory}
use alsvinn.Boundary.{Kind}
use alsvinn.Boundary.Patch.{Point}
use alsvinn.Boundary.Word.{fold_side}
use alsvinn.Boundary.Sweep.{in_layer, fold_side-inner}
use alsvinn.Boundary.Sides.{side_point, is_filled}

-- One coordinate under one side; `on` tells whether the side is filled at all.
abbrev pub side_map : Kind → Bool → Bool → ℕ → ℕ → ℕ → ℕ
side_map kind on top ghosts n c =
    if on && in_layer top ghosts n c then fold_side kind top ghosts n c else c

-- One coordinate under both sides of its axis: a ghost coordinate of a side that is filled goes to its
-- mirror image or period, and every other coordinate stays.
abbrev pub fold_axis : Kind → Bool → Bool → ℕ → ℕ → ℕ → ℕ
fold_axis kind bottom_on top_on ghosts n c =
    if bottom_on && in_layer false ghosts n c
    then fold_side kind false ghosts n c
    else if top_on && in_layer true ghosts n c
    then fold_side kind true ghosts n c
    else c

-- The cell from which `applyBoundary` fills the cell `p`, axis by axis.
abbrev pub folded : {R : Type 0} → Kind → Grid R → ℕ → ℕ → Memory R → Point → Point
folded kind g dimensions ghosts m p = vec3 (axis 0 m.nx p.x) (axis 1 m.ny p.y) (axis 2 m.nz p.z)
  where
    axis : ℕ → ℕ → ℕ → ℕ
    axis d n c =
        if ltb d dimensions
        then fold_axis kind (is_filled g d false) (is_filled g d true) ghosts n c
        else c

pub side_map_twice :
    (kind : Kind) (bottom_on top_on : Bool) (ghosts n c : ℕ)
    → 3 * ghosts ≤ n
    → c < n
    → side_map kind bottom_on false ghosts n (side_map kind top_on true ghosts n c)
      ≡ fold_axis kind bottom_on top_on ghosts n c
side_map_twice kind bottom_on top_on ghosts n c h k =
    ground (arith, fold_side-inner kind true ghosts n c h k)

pub side_point-x :
    (kind : Kind) (on top : Bool) (ghosts n : ℕ) (p : Point)
    → side_point kind on 0 top ghosts n p ≡ set_comp p 0 (side_map kind on top ghosts n p.x)
side_point-x kind on top ghosts n p = elim (Bool-cases (on && in_layer top ghosts n p.x)) [
  | inl e ↦ rw e
  | inr e ↦ rw e
]

pub axis-x :
    (kind : Kind) (bottom_on top_on : Bool) (ghosts n : ℕ) (p : Point)
    → 3 * ghosts ≤ n
    → p.x < n
    → side_point kind bottom_on 0 false ghosts n (side_point kind top_on 0 true ghosts n p)
      ≡ set_comp p 0 (fold_axis kind bottom_on top_on ghosts n p.x)
axis-x kind bottom_on top_on ghosts n p h k =
    rw
      (
        side_point-x kind top_on true ghosts n p,
        side_point-x kind bottom_on false ghosts n _,
        side_map_twice kind bottom_on top_on ghosts n p.x h k,
      )
      refl

pub side_point-y :
    (kind : Kind) (on top : Bool) (ghosts n : ℕ) (p : Point)
    → side_point kind on 1 top ghosts n p ≡ set_comp p 1 (side_map kind on top ghosts n p.y)
side_point-y kind on top ghosts n p = elim (Bool-cases (on && in_layer top ghosts n p.y)) [
  | inl e ↦ rw e
  | inr e ↦ rw e
]

pub axis-y :
    (kind : Kind) (bottom_on top_on : Bool) (ghosts n : ℕ) (p : Point)
    → 3 * ghosts ≤ n
    → p.y < n
    → side_point kind bottom_on 1 false ghosts n (side_point kind top_on 1 true ghosts n p)
      ≡ set_comp p 1 (fold_axis kind bottom_on top_on ghosts n p.y)
axis-y kind bottom_on top_on ghosts n p h k =
    rw
      (
        side_point-y kind top_on true ghosts n p,
        side_point-y kind bottom_on false ghosts n _,
        side_map_twice kind bottom_on top_on ghosts n p.y h k,
      )
      refl

pub side_point-z :
    (kind : Kind) (on top : Bool) (ghosts n : ℕ) (p : Point)
    → side_point kind on 2 top ghosts n p ≡ set_comp p 2 (side_map kind on top ghosts n p.z)
side_point-z kind on top ghosts n p = elim (Bool-cases (on && in_layer top ghosts n p.z)) [
  | inl e ↦ rw e
  | inr e ↦ rw e
]

pub axis-z :
    (kind : Kind) (bottom_on top_on : Bool) (ghosts n : ℕ) (p : Point)
    → 3 * ghosts ≤ n
    → p.z < n
    → side_point kind bottom_on 2 false ghosts n (side_point kind top_on 2 true ghosts n p)
      ≡ set_comp p 2 (fold_axis kind bottom_on top_on ghosts n p.z)
axis-z kind bottom_on top_on ghosts n p h k =
    rw
      (
        side_point-z kind top_on true ghosts n p,
        side_point-z kind bottom_on false ghosts n _,
        side_map_twice kind bottom_on top_on ghosts n p.z h k,
      )
      refl
