-- ===== src/Reconstruction/Weno/Reach.antt =====
-- The cells that the stencils of WENOCPU (alsfvm/src/reconstruction/WENOCPU.cpp) reach.
use alsvinn.Reconstruction.Weno.{read_cells}
use alsvinn.Reconstruction.Copy.{copied, copied-Holds}
use alsvinn.Base.{
  ok, ℕ, zero, suc, ◌+◌, ◌≤◌, ◌≡◌, refl, ap₂, subst, Bool, true, false, ◌==◌, to_nat, List, [], ◌∷◌,
}
use alsvinn.Base.Int.{ℤ, pos, ◌+ℤ◌, ◌-ℤ◌, ◌*ℤ◌, ◌≤ℤ◌, ◌<ℤ◌, int_laws, one-*ℤ, zero-*ℤ}
use alsvinn.Vec.{Vec3, vec3}
use alsvinn.Boxes.{InBox}
use alsvinn.Views.{Views, Fits, IsSized, fetch, Shape, InBlock}
use alsvinn.Numflux.{along, direction_vector, lower, upper}
use alsvinn.Numflux.Values.{InWide}
use alsvinn.Numflux.Interface.{layers, IsPart}
use alsvinn.Numflux.Regions.{layers-cases}

-- The offset is at most `k` cells away.
abbrev pub IsNear : ℕ → ℤ → Type 0
IsNear k s = ((pos 0 -ℤ pos k) ≤ℤ s) × (s ≤ℤ pos k)

-- One coordinate of a cell that is `s` away from a cell of the loop
loop_part :
    (e : Bool) (n k : ℕ) (a s : ℤ)
    → (pos 0 +ℤ pos (to_nat e) *ℤ (pos (suc k) -ℤ pos 1)) ≤ℤ a
    → a <ℤ (pos n +ℤ pos (to_nat e) *ℤ (pos 1 -ℤ pos (suc k)))
    → IsNear k s
    → (pos 0 ≤ℤ (a +ℤ pos (to_nat e) *ℤ s)) × ((a +ℤ pos (to_nat e) *ℤ s) <ℤ pos n)
loop_part true n k a s p q (u, v) =
    let p' = subst (λ b. (pos 0 +ℤ b) ≤ℤ a) (one-*ℤ (pos (suc k) -ℤ pos 1)) p in
    let q' = subst (λ b. a <ℤ (pos n +ℤ b)) (one-*ℤ (pos 1 -ℤ pos (suc k))) q in
    rw (one-*ℤ s) (omega int_laws, omega int_laws)
loop_part false n k a s p q (u, v) =
    let p' = subst (λ b. (pos 0 +ℤ b) ≤ℤ a) (zero-*ℤ (pos (suc k) -ℤ pos 1)) p in
    let q' = subst (λ b. a <ℤ (pos n +ℤ b)) (zero-*ℤ (pos 1 -ℤ pos (suc k))) q in
    rw (zero-*ℤ s) (omega int_laws, omega int_laws)

-- One coordinate of a cell of a widened region is one of a cell of the loop.
region_part :
    (e : Bool) (n ng w k : ℕ) (start end a : ℤ)
    → (e ≡ true → w + k ≤ ng)
    → pos 0 ≤ℤ start
    → end ≤ℤ pos 0
    → (pos ng +ℤ start +ℤ pos (to_nat e) *ℤ (pos 0 -ℤ pos w)) ≤ℤ a
    → a <ℤ (pos n -ℤ pos ng +ℤ end +ℤ pos (to_nat e) *ℤ pos w)
    → ((pos 0 +ℤ pos (to_nat e) *ℤ (pos (suc k) -ℤ pos 1)) ≤ℤ a)
      × (a <ℤ (pos n +ℤ pos (to_nat e) *ℤ (pos 1 -ℤ pos (suc k))))
region_part true n ng w k start end a ghost s0 e0 p q =
    let p' = subst (λ b. (pos ng +ℤ start +ℤ b) ≤ℤ a) (one-*ℤ (pos 0 -ℤ pos w)) p in
    let q' = subst (λ b. a <ℤ (pos n -ℤ pos ng +ℤ end +ℤ b)) (one-*ℤ (pos w)) q in
    let thick = ghost refl in
    rw (one-*ℤ (pos (suc k) -ℤ pos 1), one-*ℤ (pos 1 -ℤ pos (suc k)))
      (omega int_laws, omega int_laws)
region_part false n ng w k start end a ghost s0 e0 p q =
    let p' = subst (λ b. (pos ng +ℤ start +ℤ b) ≤ℤ a) (zero-*ℤ (pos 0 -ℤ pos w)) p in
    let q' = subst (λ b. a <ℤ (pos n -ℤ pos ng +ℤ end +ℤ b)) (zero-*ℤ (pos w)) q in
    rw (zero-*ℤ (pos (suc k) -ℤ pos 1), zero-*ℤ (pos 1 -ℤ pos (suc k)))
      (omega int_laws, omega int_laws)

-- One coordinate of a cell that is `s` away from a cell of a widened box
wider_part :
    (e : Bool) (w k : ℕ) (lo hi a s : ℤ)
    → (lo +ℤ pos (to_nat e) *ℤ (pos 0 -ℤ pos w)) ≤ℤ a
    → a <ℤ (hi +ℤ pos (to_nat e) *ℤ pos w)
    → IsNear k s
    → ((lo +ℤ pos (to_nat e) *ℤ (pos 0 -ℤ pos (w + k))) ≤ℤ (a +ℤ pos (to_nat e) *ℤ s))
      × ((a +ℤ pos (to_nat e) *ℤ s) <ℤ (hi +ℤ pos (to_nat e) *ℤ pos (w + k)))
wider_part true w k lo hi a s p q (u, v) =
    let p' = subst (λ b. (lo +ℤ b) ≤ℤ a) (one-*ℤ (pos 0 -ℤ pos w)) p in
    let q' = subst (λ b. a <ℤ (hi +ℤ b)) (one-*ℤ (pos w)) q in
    rw (one-*ℤ (pos 0 -ℤ pos (w + k)), one-*ℤ s, one-*ℤ (pos (w + k)))
      (omega int_laws, omega int_laws)
wider_part false w k lo hi a s p q (u, v) =
    let p' = subst (λ b. (lo +ℤ b) ≤ℤ a) (zero-*ℤ (pos 0 -ℤ pos w)) p in
    let q' = subst (λ b. a <ℤ (hi +ℤ b)) (zero-*ℤ (pos w)) q in
    rw (zero-*ℤ (pos 0 -ℤ pos (w + k)), zero-*ℤ s, zero-*ℤ (pos (w + k)))
      (omega int_laws, omega int_laws)

pub along-wider :
    (d w k : ℕ) (lo hi c : Vec3 ℤ) (s : ℤ)
    → InWide d w lo hi c
    → IsNear k s
    → InWide d (w + k) lo hi (along d s c)
unfolding along direction_vector
along-wider d w k lo hi c s ((x0, x1), (y0, y1), (z0, z1)) near = (
  wider_part (d == 0) w k lo.x hi.x c.x s x0 x1 near,
  wider_part (d == 1) w k lo.y hi.y c.y s y0 y1 near,
  wider_part (d == 2) w k lo.z hi.z c.z s z0 z1 near,
)

-- The cells of the stencil, one after the other
unfoldable pub cells_from : {C : Type 0} → (Vec3 ℤ → C) → ℕ → Vec3 ℤ → ℤ → ℕ → List C
cells_from value d c lo zero = []
cells_from value d c lo (suc n) = value (along d lo c) ∷ cells_from value d c (lo +ℤ pos 1) n

pub cells_from-cong :
    {C : Type 0} (f f' : Vec3 ℤ → C) (d : ℕ) (c : Vec3 ℤ) (lo hi : ℤ) (n : ℕ)
    → (lo +ℤ pos n) ≤ℤ (hi +ℤ pos 1)
    → ((s : ℤ) → lo ≤ℤ s → s ≤ℤ hi → f (along d s c) ≡ f' (along d s c))
    → cells_from f d c lo n ≡ cells_from f' d c lo n
unfolding cells_from
cells_from-cong f f' d c lo hi zero end same = refl
cells_from-cong f f' d c lo hi (suc n) end same =
    ap₂ ◌∷◌ (same lo (omega int_laws) (omega int_laws)) (
      cells_from-cong f f' d c (lo +ℤ pos 1) hi n (omega int_laws) (λ s h. same s (omega int_laws)))

-- The box of the loop
unfoldable pub first_cell : ℕ → ℕ → Vec3 ℤ
first_cell order d = along d (pos order -ℤ pos 1) (vec3 (pos 0) (pos 0) (pos 0))

unfoldable pub last_cell : ℕ → Shape → ℕ → Vec3 ℤ
last_cell order g d = along d (pos 1 -ℤ pos order) (vec3 (pos g.nx) (pos g.ny) (pos g.nz))

pub near-InBlock :
    (g : Shape) (d k : ℕ) (c : Vec3 ℤ) (s : ℤ)
    → InBox (first_cell (suc k) d) (last_cell (suc k) g d) c
    → IsNear k s
    → InBlock g (along d s c)
unfolding first_cell last_cell along direction_vector
near-InBlock g d k c s ((x0, x1), (y0, y1), (z0, z1)) near = (
  loop_part (d == 0) g.nx k c.x s x0 x1 near,
  loop_part (d == 1) g.ny k c.y s y0 y1 near,
  loop_part (d == 2) g.nz k c.z s z0 z1 near,
)

pub region-InLoop :
    (g : Shape) (d w k : ℕ) (start end c : Vec3 ℤ)
    → w + k ≤ layers g d
    → IsPart start end
    → InWide d w (lower g start) (upper g end) c
    → InBox (first_cell (suc k) d) (last_cell (suc k) g d) c
unfolding first_cell last_cell along direction_vector lower upper
region-InLoop g d w k start end c ghost ((sx, ex), (sy, ey), (sz, ez))
      ((x0, x1), (y0, y1), (z0, z1)) =
    let (gx, gy, gz) = layers-cases g d (w + k) ghost in
    (
      region_part (d == 0) g.nx g.ngx w k start.x end.x c.x gx sx ex x0 x1,
      region_part (d == 1) g.ny g.ngy w k start.y end.y c.y gy sy ey y0 y1,
      region_part (d == 2) g.nz g.ngz w k start.z end.z c.z gz sz ez z0 z1,
    )

module _ {C : Type 0} (nought : C) (g : Shape) (fits : Fits g) (u : Views C) (u_sized : IsSized g u)
    (d : ℕ) (c : Vec3 ℤ) (hi : ℤ) where
  -- A stencil that lies in the block is read.
  pub read_cells-cells_from :
      (lo : ℤ) (n : ℕ)
      → (lo +ℤ pos n) ≤ℤ (hi +ℤ pos 1)
      → ((s : ℤ) → lo ≤ℤ s → s ≤ℤ hi → InBlock g (along d s c))
      → read_cells g d u c lo n ≡ ok (cells_from (copied nought g u 0) d c lo n)
  unfolding read_cells cells_from fetch
  read_cells-cells_from lo zero end near = refl
  read_cells-cells_from lo (suc n) end near =
      rw
        (
          copied-Holds nought g fits u u_sized (along d lo c)
              (near lo (omega int_laws) (omega int_laws)),
          read_cells-cells_from (lo +ℤ pos 1) n (omega int_laws) (λ s h. near s (omega int_laws)),
        )
        refl
