-- ===== src/Numflux/Interface.antt =====
-- What a numerical flux (alsfvm/include/alsfvm/numflux/NumericalFlux.hpp) promises to a system, and
-- what a reconstruction (alsfvm/include/alsfvm/reconstruction/Reconstruction.hpp) promises to a flux.
use alsvinn.Base.{ℕ, zero, suc, ◌+◌, ◌<◌, ◌≡◌, ◌≢◌, Gives, get_elem?}
use alsvinn.Base.Int.{ℤ, pos, ◌-ℤ◌, ◌≤ℤ◌}
use alsvinn.Vec.{Vec3, vec3}
use alsvinn.Views.{Shape, Views, index, IsSized, Holds}
use alsvinn.Numflux.{FluxVolumes, Reconstruction, NumericalFlux, lower, upper}
use alsvinn.Numflux.Net.{InRegion}
use alsvinn.Numflux.Values.{InWide}

abbrev pub layers : Shape → ℕ → ℕ
layers g zero = g.ngx
layers g (suc zero) = g.ngy
layers g (suc (suc _)) = g.ngz

-- The region is a part of the inner cells.
abbrev pub IsPart : Vec3 ℤ → Vec3 ℤ → Type 0
IsPart start end =
    ((pos 0 ≤ℤ start.x) × (end.x ≤ℤ pos 0))
    × ((pos 0 ≤ℤ start.y) × (end.y ≤ℤ pos 0))
    × ((pos 0 ≤ℤ start.z) × (end.z ≤ℤ pos 0))

abbrev pub origin : Vec3 ℤ
origin = vec3 (pos 0) (pos 0) (pos 0)

abbrev pub ghosts : Shape → Vec3 ℤ
ghosts g = vec3 (pos g.ngx) (pos g.ngy) (pos g.ngz)

-- `-1 * ghostCells`
abbrev pub minus_ghosts : Shape → Vec3 ℤ
minus_ghosts g = vec3 (pos 0 -ℤ pos g.ngx) (pos 0 -ℤ pos g.ngy) (pos 0 -ℤ pos g.ngz)

-- Two volumes with the same inner cells
abbrev pub AgreeInside : {C : Type 0} → Shape → Views C → Views C → Type 0
AgreeInside g u u' =
    (c : Vec3 ℤ)
    → InRegion g origin origin c
    → get_elem? u.cells (index g c) ≡ get_elem? u'.cells (index g c)

-- `out'` is `out` with the given values in the region.
pub record IsFilled {C : Type 0} (g : Shape) (value : Vec3 ℤ → C) (start end : Vec3 ℤ)
    (out out' : Views C) : Type 0 where
  pub sized : IsSized g out'
  pub filled : (c : Vec3 ℤ) → InRegion g start end c → Holds g out' c (value c)
  pub kept :
      (j : ℕ)
      → ((c : Vec3 ℤ) → InRegion g start end c → index g c ≢ j)
      → get_elem? out'.cells j ≡ get_elem? out.cells j

pub record IsValid {C : Type 0} (g : Shape) (v : FluxVolumes C) : Type 0 where
  pub left : IsSized g v.left
  pub right : IsSized g v.right
  pub temporary : IsSized g v.temporary

-- The output in a region is `value` at each of its cells, which far enough inside depends on the
-- inner cells alone.
pub record IsNumericalFlux {R C : Type 0} (g : Shape) (value : Views C → Vec3 ℤ → C)
    (f : NumericalFlux R C) : Type 0 where
  pub computes :
      (v : FluxVolumes C) (u : Views C) (speed : Vec3 R) (out : Views C) (start end : Vec3 ℤ)
      → IsValid g v
      → IsSized g u
      → IsSized g out
      → IsPart start end
      → Gives
          (λ s. IsValid g s.volumes × IsFilled g (value u) start end out s.output)
          (f.compute v u speed out start end)
  pub local :
      (u u' : Views C)
      → AgreeInside g u u'
      → (c : Vec3 ℤ) → InRegion g (ghosts g) (minus_ghosts g) c
      → value u c ≡ value u' c

-- For each cell of the region, and `n` more at both ends, the reconstruction computes the values
-- `left_of` and `right_of`, from cells of the same row at most `reach` away.
pub record IsReconstruction {C : Type 0} (g : Shape) (dimension n reach : ℕ)
    (left_of right_of : Views C → ℕ → Vec3 ℤ → C) (reconstruction : Reconstruction C) : Type 0 where
  pub performs :
      (u left right : Views C) (d : ℕ) (start end : Vec3 ℤ)
      → IsSized g u
      → IsSized g left
      → IsSized g right
      → d < dimension
      → IsPart start end
      → Gives
          (λ s.
            IsSized g s.0
            × IsSized g s.1
            × ((c : Vec3 ℤ)
                → InWide d n (lower g start) (upper g end) c
                → Holds g s.0 c (left_of u d c) × Holds g s.1 c (right_of u d c)))
          (reconstruction.perform_reconstruction u d 0 left right start end)
  pub local :
      (u u' : Views C) (d : ℕ) (lo hi : Vec3 ℤ)
      → ((c : Vec3 ℤ)
          → InWide d (n + reach) lo hi c
          → get_elem? u.cells (index g c) ≡ get_elem? u'.cells (index g c))
      → (c : Vec3 ℤ) → InWide d n lo hi c
      → (left_of u d c ≡ left_of u' d c) × (right_of u d c ≡ right_of u' d c)
