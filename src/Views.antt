-- ===== src/Views.antt =====
-- alsfvm/include/alsfvm/equation/burgers/Views.hpp and its kin for the other equations: the variables of
-- a volume, read and written as one struct `C` for each cell.
use native.Mathlib.Nat.{mul-le-mul, le_refl, mod-eq_of_lt}
use alsvinn.Base.{
  ℕ, ◌*◌, ◌-◌, ◌==◌, if◌then◌else◌, ◌≤◌, ◌<◌, ◌≡◌, subst, sym, ◌∙◌, ◌≢◌, List, Result, ok,
  undefined, ltb, length, get_elem?, set, some, guard, or_undefined, ◌>>=◌, ◌>>◌, arith, length-set,
  lt→ltb, get_elem?-set_self, get_elem?-set_ne, Gives, gives,
}
use alsvinn.Base.Int.{ℤ, pos, negsuc, pos_part, neg_part, ◌≤ℤ◌, ◌<ℤ◌, eq_of_parts}
use alsvinn.Vec.{Vec3, vec3}
use alsvinn.Boxes.{InBox}
use alsvinn.Memory.{size_mod}
use alsvinn.Memory.Layout.{place, place-lt, place-injective}
use alsvinn.Volume.ForEach.{to_size, place_size}

-- The numbers of cells in each direction, ghost cells included, and the layers of ghost cells.
pub record Shape : Type 0 where
  pub nx : ℕ
  pub ny : ℕ
  pub nz : ℕ
  pub ngx : ℕ
  pub ngy : ℕ
  pub ngz : ℕ

pub record Views (C : Type 0) : Type 0 where
  pub shape : Shape
  pub cells : List C

-- `getNumberOfGhostCells`, `getTotalDimensions` and `getDimensions` of a volume
unfoldable pub ghost_cells : Shape → Vec3 ℤ
ghost_cells g = vec3 (pos g.ngx) (pos g.ngy) (pos g.ngz)

unfoldable pub total_dimensions : Shape → Vec3 ℤ
total_dimensions g = vec3 (pos g.nx) (pos g.ny) (pos g.nz)

unfoldable pub dimensions : Shape → ℕ
dimensions g = if g.ny - 2 * g.ngy == 1 then 1 else if g.nz - 2 * g.ngz == 1 then 2 else 3

-- `views.index(x, y, z)`: the coordinates are converted from `int` to `size_t`.
unfoldable pub index : Shape → Vec3 ℤ → ℕ
unfolding place_size to_size
index g c = place_size g.nx g.ny (to_size c.x) (to_size c.y) (to_size c.z)

module _ {C : Type 0} where
  -- `fetchConservedVariables` and `setViewAt`
  unfoldable pub fetch : Views C → ℕ → Result C
  fetch v i = or_undefined (get_elem? v.cells i)

  unfoldable pub set_view_at : Views C → ℕ → C → Result (Views C)
  set_view_at v i a =
      guard (ltb i (length v.cells)) undefined >> ok (record v { cells = set v.cells i a })

  -- `addToViewAt`, for the `+` of the struct
  unfoldable pub add_to_view_at : (C → C → C) → Views C → ℕ → C → Result (Views C)
  unfolding fetch set_view_at
  add_to_view_at add v i a = fetch v i >>= λ old. set_view_at v i (add old a)

-- The places of a volume of this shape fit in `size_t`.
abbrev pub Fits : Shape → Type 0
Fits g = g.nx * g.ny * g.nz ≤ size_mod

abbrev pub InBlock : Shape → Vec3 ℤ → Type 0
InBlock g = InBox (vec3 (pos 0) (pos 0) (pos 0)) (vec3 (pos g.nx) (pos g.ny) (pos g.nz))

abbrev pub IsSized : {C : Type 0} → Shape → Views C → Type 0
IsSized g v = (v.shape ≡ g) × (length v.cells ≡ g.nx * g.ny * g.nz)

-- The volume holds `a` at the cell.
abbrev pub Holds : {C : Type 0} → Shape → Views C → Vec3 ℤ → C → Type 0
Holds g v c a = get_elem? v.cells (index g c) ≡ some a

pub vec3-ext : (c c' : Vec3 ℤ) → c.x ≡ c'.x → c.y ≡ c'.y → c.z ≡ c'.z → c ≡ c'
vec3-ext c c' x y z = λ i. vec3 (x i) (y i) (z i)

pub part-lt : (a : ℤ) (n : ℕ) → pos 0 ≤ℤ a → a <ℤ pos n → pos_part a < n
part-lt a n h k = ground arith

pub part-zero : (a : ℤ) → pos 0 ≤ℤ a → neg_part a ≡ 0
part-zero a h = ground arith

le-times : (a n m : ℕ) → a < n → m ≤ m * n
le-times a n m h = omega (arith, mul-le-mul (le_refl m) (one_le a n h))
  where
    one_le : (a n : ℕ) → a < n → 1 ≤ n
    one_le a n h = omega arith

pub to_size-pos : (a : ℤ) → pos 0 ≤ℤ a → pos_part a < size_mod → to_size a ≡ pos_part a
unfolding to_size
to_size-pos (pos n) h k = mod-eq_of_lt k
to_size-pos (negsuc n) h k = absurd (omega arith)

module _ (g : Shape) (fits : Fits g) where
  pub index-place :
      (c : Vec3 ℤ)
      → InBlock g c
      → index g c ≡ place g.nx g.ny (pos_part c.x) (pos_part c.y) (pos_part c.z)
  unfolding index place_size
  index-place c ((x0, x1), (y0, y1), (z0, z1)) =
      let x_lt = part-lt c.x g.nx x0 x1 in
      let y_lt = part-lt c.y g.ny y0 y1 in
      let z_lt = part-lt c.z g.nz z0 z1 in
      let below =
        place-lt g.nx g.ny g.nz (pos_part c.x) (pos_part c.y) (pos_part c.z) x_lt y_lt z_lt in
      let y_le = le-times (pos_part c.x) g.nx (pos_part c.y) x_lt in
      let z_le = le-times (pos_part c.x) g.nx (pos_part c.z) x_lt in
      let z_le' = le-times (pos_part c.y) g.ny (pos_part c.z * g.nx) y_lt in
      rw
        (
          to_size-pos c.x x0 (omega arith),
          to_size-pos c.y y0 (omega arith),
          to_size-pos c.z z0 (omega arith),
        )
        (mod-eq_of_lt (omega arith))

  pub index-lt : (c : Vec3 ℤ) → InBlock g c → index g c < g.nx * g.ny * g.nz
  index-lt c ((x0, x1), (y0, y1), (z0, z1)) =
      subst (λ i. i < g.nx * g.ny * g.nz) (sym (index-place c ((x0, x1), (y0, y1), (z0, z1))))
        (place-lt g.nx g.ny g.nz (pos_part c.x) (pos_part c.y) (pos_part c.z) (part-lt _ _ x0 x1)
          (part-lt _ _ y0 y1) (part-lt _ _ z0 z1))

  pub index-injective :
      (c c' : Vec3 ℤ) → InBlock g c → InBlock g c' → index g c ≡ index g c' → c ≡ c'
  index-injective c c' ((x0, x1), (y0, y1), (z0, z1)) ((x0', x1'), (y0', y1'), (z0', z1')) e =
      let same =
        place-injective g.nx g.ny (pos_part c.x) (pos_part c.y) (pos_part c.z) (pos_part c'.x)
          (pos_part c'.y) (pos_part c'.z) (part-lt _ _ x0 x1) (part-lt _ _ x0' x1')
          (part-lt _ _ y0 y1) (part-lt _ _ y0' y1')
          (sym (index-place c ((x0, x1), (y0, y1), (z0, z1)))
            ∙ e
            ∙ index-place c' ((x0', x1'), (y0', y1'), (z0', z1'))) in
      vec3-ext c c'
        (eq_of_parts c.x c'.x (omega (arith, same.0, part-zero c.x x0, part-zero c'.x x0')))
        (eq_of_parts c.y c'.y (omega (arith, same.1, part-zero c.y y0, part-zero c'.y y0')))
        (eq_of_parts c.z c'.z (omega (arith, same.2, part-zero c.z z0, part-zero c'.z z0')))

-- The volume after one write.
abbrev pub Wrote : {C : Type 0} → Shape → Views C → ℕ → C → Views C → Type 0
Wrote g v i a v' =
    IsSized g v'
    × (get_elem? v'.cells i ≡ some a)
    × ((j : ℕ) → i ≢ j → get_elem? v'.cells j ≡ get_elem? v.cells j)

module _ {C : Type 0} (g : Shape) where
  pub set_view_at-Gives :
      (v : Views C) (i : ℕ) (a : C)
      → IsSized g v
      → i < g.nx * g.ny * g.nz
      → Gives (Wrote g v i a) (set_view_at v i a)
  unfolding set_view_at
  set_view_at-Gives v i a (same, size) h =
      let below : i < length v.cells = omega (arith, size) in
      rw (lt→ltb i (length v.cells) below) (
        gives (
          (same, length-set v.cells i a ∙ size),
          get_elem?-set_self v.cells i a below,
          λ j ne. get_elem?-set_ne v.cells i j a ne,
        ))

  pub add_to_view_at-Gives :
      (add : C → C → C) (v : Views C) (i : ℕ) (old a : C)
      → IsSized g v
      → i < g.nx * g.ny * g.nz
      → get_elem? v.cells i ≡ some old
      → Gives (Wrote g v i (add old a)) (add_to_view_at add v i a)
  unfolding add_to_view_at fetch
  add_to_view_at-Gives add v i old a sized h e = rw e (set_view_at-Gives v i (add old a) sized h)
