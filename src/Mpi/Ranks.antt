-- ===== src/Mpi/Ranks.antt =====
-- Ranks and positions in the arrangement of the processes (rank_component.hpp, rank_index.hpp).
use native.Mathlib.Nat.{mod-add-div', div-div-eq-div-mul, mod-lt, div-lt_iff_lt-mul}
use alsvinn.Base.{ℕ, zero, suc, ◌+◌, ◌*◌, ◌/◌, ◌%◌, ◌<◌, ◌≡◌, refl, sym, ◌∙◌, ap, arith}
use alsvinn.Base.Int.{pos, pos-+ℤ-pos, pos-*ℤ-pos, ◌+ℤ◌, ◌-ℤ◌}
use alsvinn.Memory.Layout.{row-injective}
use alsvinn.Vec.{vec3}
use alsvinn.Mpi.Cartesian.{get_coordinates, get_rank_index, wrap}

pub wrap_inside : (c n : ℕ) → c < n → wrap (pos c) (pos n) ≡ pos c
unfolding wrap ◌+ℤ◌ ◌-ℤ◌
wrap_inside c n h = ground arith

-- Three digits and the number that they stand for.
digits_value : (px py r : ℕ) → r % px + r / px % py * px + r / (px * py) * px * py ≡ r
digits_value px py r = rw (← div-div-eq-div-mul r px py) (
    omega (
      arith,
      mod-add-div' r px,
      mod-add-div' (r / px) py,
      ap (λ (t : ℕ). t * px) (mod-add-div' (r / px) py),
    ))

digits_of :
    (px py x y z : ℕ)
    → x < px
    → y < py
    → let r = x + y * px + z * px * py in (r % px ≡ x) × (r / px % py ≡ y) × (r / (px * py) ≡ z)
digits_of px py x y z hx hy =
    let r = x + y * px + z * px * py in
    let low =
      row-injective px (r % px) (r / px) x (z * py + y) (mod-lt r (omega arith)) hx
        (omega (arith, mod-add-div' r px)) in
    let high =
      row-injective py (r / px % py) (r / px / py) y z (mod-lt (r / px) (omega arith)) hy
        (omega (arith, mod-add-div' (r / px) py, low.1)) in
    (low.0, high.0, sym (div-div-eq-div-mul r px py) ∙ high.1)

pub get_coordinates-pos :
    (px py pz r : ℕ)
    → get_coordinates (pos r) (vec3 (pos px) (pos py) (pos pz))
      ≡ vec3 (pos (r % px)) (pos (r / px % py)) (pos (r / (px * py)))
unfolding get_coordinates
get_coordinates-pos px py pz r = rw (pos-*ℤ-pos px py)

-- The rank of a position inside the arrangement.
pub get_rank_index-pos :
    (px py pz x y z : ℕ)
    → x < px
    → y < py
    → z < pz
    → get_rank_index (vec3 (pos x) (pos y) (pos z)) (vec3 (pos px) (pos py) (pos pz))
      ≡ pos (x + y * px + z * px * py)
unfolding get_rank_index
get_rank_index-pos px py pz x y z hx hy hz = rw (
  wrap_inside x px hx,
  wrap_inside y py hy,
  wrap_inside z pz hz,
  pos-*ℤ-pos y px,
  pos-*ℤ-pos z px,
  pos-*ℤ-pos (z * px) py,
  pos-+ℤ-pos x (y * px),
  pos-+ℤ-pos (x + y * px) (z * px * py),
)

factors_pos : (a b c r : ℕ) → r < a * b * c → (0 < a) × (0 < b) × (0 < a * b)
factors_pos zero b c r h = absurd (omega arith)
factors_pos (suc a) zero c r h = absurd (omega arith)
factors_pos (suc a) (suc b) c r h = (omega arith, omega arith, grind arith)

pub coordinates_bounds :
    (px py pz r : ℕ) → r < px * py * pz → (r % px < px) × (r / px % py < py) × (r / (px * py) < pz)
coordinates_bounds px py pz r h =
    let (hx, hy, hxy) = factors_pos px py pz r h in
    (mod-lt r hx, mod-lt (r / px) hy, (div-lt_iff_lt-mul hxy).1 (omega arith))

-- `getCoordinates` and `getRankIndex` are inverse to one another: between the ranks below
-- nx * ny * nz and the positions whose coordinates are below nx, ny and nz.
pub rank-coordinates :
    (px py pz : ℕ)
    → let n = vec3 (pos px) (pos py) (pos pz) in
      ((r : ℕ) → r < px * py * pz → get_rank_index (get_coordinates (pos r) n) n ≡ pos r)
      × ((x y z : ℕ)
          → x < px
          → y < py
          → z < pz
          → let c = vec3 (pos x) (pos y) (pos z) in get_coordinates (get_rank_index c n) n ≡ c)
rank-coordinates px py pz = (
  λ r h.
      let (bx, by, bz) = coordinates_bounds px py pz r h in
      rw
        (
          get_coordinates-pos px py pz r,
          get_rank_index-pos px py pz (r % px) (r / px % py) (r / (px * py)) bx by bz,
        )
        (ap pos (digits_value px py r)),
  λ x y z hx hy hz.
      let (ex, ey, ez) = digits_of px py x y z hx hy in
      rw
        (
          get_rank_index-pos px py pz x y z hx hy hz,
          get_coordinates-pos px py pz (x + y * px + z * px * py),
          ex,
          ey,
          ez,
        )
        refl,
)
