-- ===== src/Mpi/Decomposition/Tiles.antt =====
-- The boxes of cells of the processes (alsfvm/src/mpi/domain/CartesianDecomposition.cpp).
use native.Mathlib.Nat.{mod-add-div', mod-lt, div-lt_iff_lt-mul, mul-div_cancel_left}
use alsvinn.Base.{
  ℕ, zero, suc, ◌+◌, ◌-◌, ◌*◌, ◌/◌, ◌%◌, ◌≤◌, ◌<◌, ◌≡◌, refl, sym, ◌∙◌, ap, arith, subst,
}
use mathlib.Core.Path.{ap₂}
use alsvinn.Base.Int.{ℤ, pos, pos_part, ◌+ℤ◌, ◌*ℤ◌, ◌/ℤ◌, ◌≤ℤ◌, ◌<ℤ◌, int_laws, pos-*ℤ-pos}
use alsvinn.Memory.Layout.{row-injective}
use alsvinn.Vec.{Vec3, vec3, map3, zip3}
use alsvinn.Grid.{Grid}
use alsvinn.Mpi.Decomposition.{cells_per_processor, start_index}
use alsvinn.Mpi.Positions.{
  IsInside, rank_of, rank_of-lt, coordinates, get_coordinates-map, coordinates-rank_of,
  rank_of-coordinates,
}

-- The box from `start` on, `cells` long, contains the coordinate `c`.
abbrev pub IsBetween : ℤ → ℤ → ℕ → Type 0
IsBetween start cells c = (start ≤ℤ pos c) × (pos c <ℤ (start +ℤ cells))

IsBetween-bounds : (s l c : ℕ) → IsBetween (pos s) (pos l) c → (s ≤ c) × (c < s + l)
IsBetween-bounds s l c (h, k) = omega (int_laws)

bounds-IsBetween : (s l c : ℕ) → s ≤ c → c < s + l → IsBetween (pos s) (pos l) c
bounds-IsBetween s l c h k = (omega arith, omega int_laws)

-- The box that contains a coordinate is the one of its quotient.
quotient-IsBetween : (n w c : ℕ) → c < n * w → (c / w < n) × IsBetween (pos (w * (c / w))) (pos w) c
quotient-IsBetween n zero c h = absurd (omega arith)
quotient-IsBetween n (suc w) c h =
    let hw : 0 < suc w = omega arith in
    (
      (div-lt_iff_lt-mul hw).1 h,
      bounds-IsBetween (suc w * (c / suc w)) (suc w) c (omega (arith, mod-add-div' c (suc w)))
          (omega (arith, mod-add-div' c (suc w), mod-lt c hw)),
    )

IsBetween-quotient : (w c k : ℕ) → IsBetween (pos (w * k)) (pos w) c → k ≡ c / w
IsBetween-quotient w c k h =
    let (lo, hi) = IsBetween-bounds (w * k) w c h in
    let hw : 0 < w = omega arith in
    (row-injective w (c - w * k) k (c % w) (c / w) (omega arith) (mod-lt c hw)
      (omega (arith, mod-add-div' c w))).1

coordinates_back : (n q : Vec3 ℕ) → IsInside n q → coordinates n (rank_of n q) ≡ q
coordinates_back n q h =
    ap (map3 pos_part) (sym (get_coordinates-map n (rank_of n q)) ∙ coordinates-rank_of n q h)

module _ {R : Type 0} (g : Grid R) (n w : Vec3 ℕ)
    (sizes : g.dimensions ≡ vec3 (pos (n.x * w.x)) (pos (n.y * w.y)) (pos (n.z * w.z)))
    (positive : (0 < n.x) × (0 < n.y) × (0 < n.z)) where
  -- The box of the process of rank `r` contains the cell `c` of the grid.
  abbrev pub Contains : ℕ → Vec3 ℕ → Type 0
  Contains r c =
      let start = start_index g (map3 pos n) (pos r) in
      let cells = cells_per_processor g (map3 pos n) in
      IsBetween start.x cells.x c.x × IsBetween start.y cells.y c.y × IsBetween start.z cells.z c.z

  cells_lem : cells_per_processor g (map3 pos n) ≡ map3 pos w
  unfolding cells_per_processor ◌/ℤ◌
  cells_lem =
      rw
        (
          sizes,
          mul-div_cancel_left w.x positive.0,
          mul-div_cancel_left w.y positive.1,
          mul-div_cancel_left w.z positive.2,
        )
        refl

  start_lem :
      (r : ℕ)
      → let c = coordinates n r in
        start_index g (map3 pos n) (pos r)
        ≡ vec3 (pos (w.x * c.x)) (pos (w.y * c.y)) (pos (w.z * c.z))
  unfolding start_index
  start_lem r =
      let c = coordinates n r in
      ap₂ (zip3 ◌*ℤ◌) cells_lem (get_coordinates-map n r)
      ∙ rw (pos-*ℤ-pos w.x c.x, pos-*ℤ-pos w.y c.y, pos-*ℤ-pos w.z c.z) refl

  -- The box of a rank, by the coordinates of the rank.
  IsAt : Vec3 ℕ → Vec3 ℕ → Type 0
  IsAt at c =
      IsBetween (pos (w.x * at.x)) (pos w.x) c.x
      × IsBetween (pos (w.y * at.y)) (pos w.y) c.y
      × IsBetween (pos (w.z * at.z)) (pos w.z) c.z

  Contains-IsAt : (r : ℕ) (c : Vec3 ℕ) → Contains r c ≡ IsAt (coordinates n r) c
  unfolding IsAt
  Contains-IsAt r c = rw (start_lem r, cells_lem) refl

  IsInside-quotient :
      (c : Vec3 ℕ)
      → IsInside (vec3 (n.x * w.x) (n.y * w.y) (n.z * w.z)) c
      → IsInside n (vec3 (c.x / w.x) (c.y / w.y) (c.z / w.z))
        × IsAt (vec3 (c.x / w.x) (c.y / w.y) (c.z / w.z)) c
  unfolding IsAt
  IsInside-quotient c h =
      let (ax, bx) = quotient-IsBetween n.x w.x c.x h.0 in
      let (ay, by) = quotient-IsBetween n.y w.y c.y h.1 in
      let (az, bz) = quotient-IsBetween n.z w.z c.z h.2 in ((ax, ay, az), (bx, by, bz))

  -- The boxes of the processes cover the grid and do not overlap: every cell of a grid that the
  -- processes divide in each direction is in the box of exactly one rank.
  pub boxes_tile :
      (c : Vec3 ℕ)
      → IsInside (vec3 (n.x * w.x) (n.y * w.y) (n.z * w.z)) c
      → (r : ℕ) × (r < n.x * n.y * n.z)
        × Contains r c
        × ((r' : ℕ) → r' < n.x * n.y * n.z → Contains r' c → r' ≡ r)
  unfolding IsAt
  boxes_tile c h =
      let q = vec3 (c.x / w.x) (c.y / w.y) (c.z / w.z) in
      let (hq, at) = IsInside-quotient c h in
      let r = rank_of n q in
      (
        r,
        rank_of-lt n q hq,
        subst (λ (X : Type 0). X) (sym (Contains-IsAt r c))
            (subst (λ (v : Vec3 ℕ). IsAt v c) (sym (coordinates_back n q hq)) at),
        λ r' h' inside.
            let (bx, by, bz) = subst (λ (X : Type 0). X) (Contains-IsAt r' c) inside in
            let k = coordinates n r' in
            sym (rank_of-coordinates n r' h')
            ∙ rw
                (
                  IsBetween-quotient w.x c.x k.x bx,
                  IsBetween-quotient w.y c.y k.y by,
                  IsBetween-quotient w.z c.z k.z bz,
                )
                refl,
      )
