-- ===== src/Numflux/Regions.antt =====
-- The regions that the sweeps of NumericalFluxCPU (alsfvm/src/numflux/NumericalFluxCPU.cpp) visit stay in
-- the block of cells.
use alsvinn.Base.{ℕ, zero, suc, ◌≤◌, ◌≡◌, refl, subst, Bool, true, false, ◌==◌, to_nat, arith}
use alsvinn.Base.Int.{ℤ, pos, negsuc, ◌+ℤ◌, ◌-ℤ◌, ◌*ℤ◌, ◌≤ℤ◌, ◌<ℤ◌, int_laws, one-*ℤ, zero-*ℤ}
use alsvinn.Vec.{Vec3}
use alsvinn.Views.{Shape, InBlock}
use alsvinn.Numflux.{along, direction_vector, lower, upper}
use alsvinn.Numflux.Neighbours.{down}
use alsvinn.Numflux.Net.{InRegion, SweepIsInside}
use alsvinn.Numflux.Values.{InWide}
use alsvinn.Numflux.Interface.{layers, IsPart, origin, ghosts, minus_ghosts}

-- One coordinate of a cell of a sweep
inside_part :
    (e : Bool) (n ng : ℕ) (start end i : ℤ)
    → (e ≡ true → 1 ≤ ng)
    → pos 0 ≤ℤ start
    → end ≤ℤ pos 0
    → ((pos ng +ℤ start) +ℤ pos (to_nat e) *ℤ negsuc 0) ≤ℤ i
    → i <ℤ (pos n -ℤ pos ng +ℤ end)
    → (pos 0 ≤ℤ i) × (i <ℤ pos n)
inside_part true n ng start end i ghost s0 e0 p q =
    let one = ghost refl in (omega (int_laws, down (pos ng +ℤ start) 1), omega int_laws)
inside_part false n ng start end i ghost s0 e0 p q =
    (omega (int_laws, down (pos ng +ℤ start) 0), omega int_laws)

-- The direction is one of the three, and a bound of its ghost layers is one of the layers of each
-- coordinate that moves.
pub layers-cases :
    (g : Shape) (d m : ℕ)
    → m ≤ layers g d
    → ((d == 0) ≡ true → m ≤ g.ngx) × ((d == 1) ≡ true → m ≤ g.ngy) × ((d == 2) ≡ true → m ≤ g.ngz)
layers-cases g zero m h = (λ e. h, λ e. ground arith, λ e. ground arith)
layers-cases g (suc zero) m h = (λ e. ground arith, λ e. h, λ e. ground arith)
layers-cases g (suc (suc d)) m h = (λ e. ground arith, λ e. ground arith, λ e. h)

-- The sweep of a direction with a ghost layer stays in the block.
pub sweep-inside :
    (g : Shape) (d : ℕ) (start end : Vec3 ℤ)
    → 1 ≤ layers g d
    → IsPart start end
    → SweepIsInside g d start end
unfolding along direction_vector lower upper
sweep-inside g d start end ghost part c at =
    let ((x0, x1), (y0, y1), (z0, z1)) = at in
    let ((sx, ex), (sy, ey), (sz, ez)) = part in
    let (gx, gy, gz) = layers-cases g d 1 ghost in
    (
      inside_part (d == 0) g.nx g.ngx start.x end.x c.x gx sx ex x0 x1,
      inside_part (d == 1) g.ny g.ngy start.y end.y c.y gy sy ey y0 y1,
      inside_part (d == 2) g.nz g.ngz start.z end.z c.z gz sz ez z0 z1,
    )

-- One coordinate of a cell that the central region needs
central_bound :
    (n ng m : ℕ) (i : ℤ)
    → m ≤ ng
    → ((pos ng +ℤ pos ng) +ℤ (pos 0 -ℤ pos m)) ≤ℤ i
    → i <ℤ (pos n -ℤ pos ng +ℤ (pos 0 -ℤ pos ng) +ℤ pos m)
    → ((pos ng +ℤ pos 0) ≤ℤ i) × (i <ℤ (pos n -ℤ pos ng +ℤ pos 0))
central_bound n ng m i h p q = (omega int_laws, omega int_laws)

central_part :
    (e : Bool) (n ng m : ℕ) (i : ℤ)
    → (e ≡ true → m ≤ ng)
    → (pos ng +ℤ pos ng +ℤ pos (to_nat e) *ℤ (pos 0 -ℤ pos m)) ≤ℤ i
    → i <ℤ (pos n -ℤ pos ng +ℤ (pos 0 -ℤ pos ng) +ℤ pos (to_nat e) *ℤ pos m)
    → ((pos ng +ℤ pos 0) ≤ℤ i) × (i <ℤ (pos n -ℤ pos ng +ℤ pos 0))
unfolding ◌-ℤ◌
central_part true n ng m i ghost p q =
    central_bound n ng m i (ghost refl) (subst (λ a. (pos ng +ℤ pos ng +ℤ a) ≤ℤ i) (one-*ℤ _) p)
      (subst (λ a. i <ℤ (pos n -ℤ pos ng +ℤ (pos 0 -ℤ pos ng) +ℤ a)) (one-*ℤ _) q)
central_part false n ng m i ghost p q =
    central_bound n ng 0 i (omega arith) (subst (λ a. (pos ng +ℤ pos ng +ℤ a) ≤ℤ i) (zero-*ℤ _) p)
      (subst (λ a. i <ℤ (pos n -ℤ pos ng +ℤ (pos 0 -ℤ pos ng) +ℤ a)) (zero-*ℤ _) q)

pub central-inside :
    (g : Shape) (d m : ℕ)
    → m ≤ layers g d
    → (c : Vec3 ℤ) → InWide d m (lower g (ghosts g)) (upper g (minus_ghosts g)) c
    → InRegion g origin origin c
unfolding along direction_vector lower upper
central-inside g d m ghost c at =
    let ((x0, x1), (y0, y1), (z0, z1)) = at in
    let (gx, gy, gz) = layers-cases g d m ghost in
    (
      central_part (d == 0) g.nx g.ngx m c.x gx x0 x1,
      central_part (d == 1) g.ny g.ngy m c.y gy y0 y1,
      central_part (d == 2) g.nz g.ngz m c.z gz z0 z1,
    )

-- A region of inner cells is in the block.
pub region-inside :
    (g : Shape) (start end : Vec3 ℤ)
    → IsPart start end
    → (c : Vec3 ℤ) → InRegion g start end c
    → InBlock g c
unfolding lower upper
region-inside g start end ((sx, ex), (sy, ey), (sz, ez)) c ((x0, x1), (y0, y1), (z0, z1)) = (
  (omega int_laws, omega int_laws),
  (omega int_laws, omega int_laws),
  (omega int_laws, omega int_laws),
)
