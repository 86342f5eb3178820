-- ===== src/Reconstruction/Eno/Bounds.antt =====
-- The cells that the loops of ENOCPU (alsfvm/src/reconstruction/ENOCPU.cpp) visit and reach.
use alsvinn.Base.{ℕ, suc, ◌≤◌, ◌≡◌, refl, Bool, true, false, ◌==◌, ltb, to_nat, subst}
use alsvinn.Base.Int.{ℤ, pos, negsuc, ◌+ℤ◌, ◌-ℤ◌, ◌*ℤ◌, ◌≤ℤ◌, ◌<ℤ◌, int_laws, one-*ℤ, zero-*ℤ}
use alsvinn.Vec.{Vec3}
use alsvinn.Boxes.{InBox}
use alsvinn.Views.{Shape, InBlock}
use alsvinn.Numflux.{along, direction_vector, lower, upper}
use alsvinn.Numflux.Values.{InWide}
use alsvinn.Numflux.Interface.{IsPart}
use alsvinn.Reconstruction.Eno.{difference_start, difference_end, eno_start, eno_end, starts, ends}
use alsvinn.Reconstruction.Weno.Reach.{IsNear}

-- The cells of the loops of one level, and of the loop over the stencils
abbrev pub InLevel : ℕ → ℕ → Shape → ℕ → Vec3 ℤ → Vec3 ℤ → Vec3 ℤ → Type 0
InLevel order level g d start end =
    InBox (starts (difference_start order level) g d start)
      (ends (difference_end order level) g d end)

abbrev pub InSweep : ℕ → Shape → ℕ → Vec3 ℤ → Vec3 ℤ → Vec3 ℤ → Type 0
InSweep order g d start end =
    InBox (starts (eno_start order) g d start) (ends (eno_end order) g d end)

-- The direction has more than one cell.
abbrev pub IsUsed : Shape → ℕ → Type 0
IsUsed g d = ((d == 1) ≡ true → ltb 1 g.ny ≡ true) × ((d == 2) ≡ true → ltb 1 g.nz ≡ true)

-- The directions with more than one cell have `order` layers of ghost cells.
abbrev pub HasLayers : ℕ → Shape → Type 0
HasLayers order g =
    (order ≤ g.ngx) × (ltb 1 g.ny ≡ true → order ≤ g.ngy) × (ltb 1 g.nz ≡ true → order ≤ g.ngz)

-- A cell of the sweep, and the one after it, are in the loop of each level.
sweep_level :
    (e used : Bool) (order L n : ℕ) (start end a s : ℤ)
    → 1 ≤ L
    → suc L ≤ order
    → eno_start order used e start ≤ℤ a
    → a <ℤ eno_end order used e n end
    → pos 0 ≤ℤ s
    → s ≤ℤ pos 1
    → (e ≡ true → used ≡ true)
    → (difference_start order L used e start ≤ℤ (a +ℤ pos (to_nat e) *ℤ s))
      × ((a +ℤ pos (to_nat e) *ℤ s) <ℤ difference_end order L used e n end)
unfolding difference_start difference_end eno_start eno_end
sweep_level true true order L n start end a s h k p q u v w =
    rw (one-*ℤ s) (omega int_laws, omega int_laws)
sweep_level true false order L n start end a s h k p q u v w = cc (w refl)
sweep_level false true order L n start end a s h k p q u v w =
    rw (zero-*ℤ s) (omega int_laws, omega int_laws)
sweep_level false false order L n start end a s h k p q u v w =
    rw (zero-*ℤ s) (omega int_laws, omega int_laws)

-- A cell of the loop of a level, and the one after it, are in the loop of the level before.
level_down :
    (e used : Bool) (order L n : ℕ) (start end a s : ℤ)
    → 1 ≤ L
    → difference_start order (suc L) used e start ≤ℤ a
    → a <ℤ difference_end order (suc L) used e n end
    → pos 0 ≤ℤ s
    → s ≤ℤ pos 1
    → (difference_start order L used e start ≤ℤ (a +ℤ pos (to_nat e) *ℤ s))
      × ((a +ℤ pos (to_nat e) *ℤ s) <ℤ difference_end order L used e n end)
unfolding difference_start difference_end
level_down true true order L n start end a s h p q u v =
    rw (one-*ℤ s) (omega int_laws, omega int_laws)
level_down true false order L n start end a s h p q u v =
    rw (one-*ℤ s) (omega int_laws, omega int_laws)
level_down false true order L n start end a s h p q u v =
    rw (zero-*ℤ s) (omega int_laws, omega int_laws)
level_down false false order L n start end a s h p q u v =
    rw (zero-*ℤ s) (omega int_laws, omega int_laws)

-- A cell of the loop of a level, and the one before it, are in the block.
level_inside :
    (e used : Bool) (order L n : ℕ) (start end a s : ℤ)
    → 1 ≤ L
    → pos 0 ≤ℤ start
    → end ≤ℤ pos 0
    → difference_start order L used e start ≤ℤ a
    → a <ℤ difference_end order L used e n end
    → negsuc 0 ≤ℤ s
    → s ≤ℤ pos 0
    → (pos 0 ≤ℤ (a +ℤ pos (to_nat e) *ℤ s)) × ((a +ℤ pos (to_nat e) *ℤ s) <ℤ pos n)
unfolding difference_start difference_end
level_inside true true order L n start end a s h s0 e0 p q u v =
    rw (one-*ℤ s) (omega int_laws, omega int_laws)
level_inside true false order L n start end a s h s0 e0 p q u v =
    rw (one-*ℤ s) (omega int_laws, omega int_laws)
level_inside false true order L n start end a s h s0 e0 p q u v =
    rw (zero-*ℤ s) (omega int_laws, omega int_laws)
level_inside false false order L n start end a s h s0 e0 p q u v =
    rw (zero-*ℤ s) (omega int_laws, omega int_laws)

-- A cell that is near a cell of the sweep is in the block.
sweep_inside :
    (e used : Bool) (k n : ℕ) (start end a s : ℤ)
    → pos 0 ≤ℤ start
    → end ≤ℤ pos 0
    → eno_start (suc k) used e start ≤ℤ a
    → a <ℤ eno_end (suc k) used e n end
    → IsNear k s
    → (e ≡ true → used ≡ true)
    → (pos 0 ≤ℤ (a +ℤ pos (to_nat e) *ℤ s)) × ((a +ℤ pos (to_nat e) *ℤ s) <ℤ pos n)
unfolding eno_start eno_end
sweep_inside true true k n start end a s s0 e0 p q (u, v) w =
    rw (one-*ℤ s) (omega int_laws, omega int_laws)
sweep_inside true false k n start end a s s0 e0 p q (u, v) w = cc (w refl)
sweep_inside false true k n start end a s s0 e0 p q (u, v) w =
    rw (zero-*ℤ s) (omega int_laws, omega int_laws)
sweep_inside false false k n start end a s s0 e0 p q (u, v) w =
    rw (zero-*ℤ s) (omega int_laws, omega int_laws)

-- A cell of a region, or next to it in the direction, is in the sweep.
region_part :
    (e used : Bool) (order n ng : ℕ) (start end a : ℤ)
    → 1 ≤ order
    → (used ≡ true → order ≤ ng)
    → (e ≡ true → used ≡ true)
    → (pos ng +ℤ start +ℤ pos (to_nat e) *ℤ (pos 0 -ℤ pos 1)) ≤ℤ a
    → a <ℤ (pos n -ℤ pos ng +ℤ end +ℤ pos (to_nat e) *ℤ pos 1)
    → (eno_start order used e start ≤ℤ a) × (a <ℤ eno_end order used e n end)
unfolding eno_start eno_end
region_part true true order n ng start end a h l w p q =
    let thick = l refl in
    let p' = subst (λ b. (pos ng +ℤ start +ℤ b) ≤ℤ a) (one-*ℤ (pos 0 -ℤ pos 1)) p in
    let q' = subst (λ b. a <ℤ (pos n -ℤ pos ng +ℤ end +ℤ b)) (one-*ℤ (pos 1)) q in
    (omega int_laws, omega int_laws)
region_part true false order n ng start end a h l w p q = cc (w refl)
region_part false true order n ng start end a h l w p q =
    let thick = l refl in
    let p' = subst (λ b. (pos ng +ℤ start +ℤ b) ≤ℤ a) (zero-*ℤ (pos 0 -ℤ pos 1)) p in
    let q' = subst (λ b. a <ℤ (pos n -ℤ pos ng +ℤ end +ℤ b)) (zero-*ℤ (pos 1)) q in
    (omega int_laws, omega int_laws)
region_part false false order n ng start end a h l w p q =
    let p' = subst (λ b. (pos ng +ℤ start +ℤ b) ≤ℤ a) (zero-*ℤ (pos 0 -ℤ pos 1)) p in
    let q' = subst (λ b. a <ℤ (pos n -ℤ pos ng +ℤ end +ℤ b)) (zero-*ℤ (pos 1)) q in
    (omega int_laws, omega int_laws)

module _ (g : Shape) (d : ℕ) (start end c : Vec3 ℤ) where
  pub sweep-InLevel :
      (order L : ℕ) (s : ℤ)
      → 1 ≤ L
      → suc L ≤ order
      → IsUsed g d
      → InSweep order g d start end c
      → pos 0 ≤ℤ s
      → s ≤ℤ pos 1
      → InLevel order L g d start end (along d s c)
  unfolding along direction_vector
  sweep-InLevel order L s h k (wy, wz) ((x0, x1), (y0, y1), (z0, z1)) u v = (
    sweep_level (d == 0) true order L g.nx start.x end.x c.x s h k x0 x1 u v (λ _. refl),
    sweep_level (d == 1) (ltb 1 g.ny) order L g.ny start.y end.y c.y s h k y0 y1 u v wy,
    sweep_level (d == 2) (ltb 1 g.nz) order L g.nz start.z end.z c.z s h k z0 z1 u v wz,
  )

  pub InLevel-down :
      (order L : ℕ) (s : ℤ)
      → 1 ≤ L
      → InLevel order (suc L) g d start end c
      → pos 0 ≤ℤ s
      → s ≤ℤ pos 1
      → InLevel order L g d start end (along d s c)
  unfolding along direction_vector
  InLevel-down order L s h ((x0, x1), (y0, y1), (z0, z1)) u v = (
    level_down (d == 0) true order L g.nx start.x end.x c.x s h x0 x1 u v,
    level_down (d == 1) (ltb 1 g.ny) order L g.ny start.y end.y c.y s h y0 y1 u v,
    level_down (d == 2) (ltb 1 g.nz) order L g.nz start.z end.z c.z s h z0 z1 u v,
  )

  module _ (part : IsPart start end) where
    pub level-InBlock :
        (order L : ℕ) (s : ℤ)
        → 1 ≤ L
        → InLevel order L g d start end c
        → negsuc 0 ≤ℤ s
        → s ≤ℤ pos 0
        → InBlock g (along d s c)
    unfolding along direction_vector
    level-InBlock order L s h ((x0, x1), (y0, y1), (z0, z1)) u v =
        let ((sx, ex), (sy, ey), (sz, ez)) = part in
        (
          level_inside (d == 0) true order L g.nx start.x end.x c.x s h sx ex x0 x1 u v,
          level_inside (d == 1) (ltb 1 g.ny) order L g.ny start.y end.y c.y s h sy ey y0 y1 u v,
          level_inside (d == 2) (ltb 1 g.nz) order L g.nz start.z end.z c.z s h sz ez z0 z1 u v,
        )

    pub sweep-InBlock :
        (k : ℕ) (s : ℤ)
        → IsUsed g d
        → InSweep (suc k) g d start end c
        → IsNear k s
        → InBlock g (along d s c)
    unfolding along direction_vector
    sweep-InBlock k s (wy, wz) ((x0, x1), (y0, y1), (z0, z1)) near =
        let ((sx, ex), (sy, ey), (sz, ez)) = part in
        (
          sweep_inside (d == 0) true k g.nx start.x end.x c.x s sx ex x0 x1 near (λ _. refl),
          sweep_inside (d == 1) (ltb 1 g.ny) k g.ny start.y end.y c.y s sy ey y0 y1 near wy,
          sweep_inside (d == 2) (ltb 1 g.nz) k g.nz start.z end.z c.z s sz ez z0 z1 near wz,
        )

  pub region-InSweep :
      (order : ℕ)
      → 1 ≤ order
      → HasLayers order g
      → IsUsed g d
      → InWide d 1 (lower g start) (upper g end) c
      → InSweep order g d start end c
  unfolding along direction_vector lower upper
  region-InSweep order h (lx, ly, lz) (wy, wz) ((x0, x1), (y0, y1), (z0, z1)) = (
    region_part (d == 0) true order g.nx g.ngx start.x end.x c.x h (λ _. lx) (λ _. refl) x0 x1,
    region_part (d == 1) (ltb 1 g.ny) order g.ny g.ngy start.y end.y c.y h ly wy y0 y1,
    region_part (d == 2) (ltb 1 g.nz) order g.nz g.ngz start.z end.z c.z h lz wz z0 z1,
  )
