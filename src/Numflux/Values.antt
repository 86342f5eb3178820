-- ===== src/Numflux/Values.antt =====
-- The flux between two cells (`computeFluxForStencil` of alsfvm/include/alsfvm/numflux/numflux_util.hpp)
-- as a function of the reconstructed values, and the cells that its stencil reaches.
use alsvinn.Base.{ℕ, ◌≡◌, refl, to_nat, ◌==◌, Bool, true, false, ok}
use alsvinn.Base.Int.{ℤ, pos, negsuc, ◌+ℤ◌, ◌-ℤ◌, ◌*ℤ◌, ◌≤ℤ◌, ◌<ℤ◌, int_laws, one-*ℤ, zero-*ℤ}
use alsvinn.Base.Real.{Real}
use alsvinn.Vec.{Vec3}
use alsvinn.Boxes.{InBox}
use alsvinn.Views.{Shape, Views, fetch, Holds}
use alsvinn.Numflux.{
  Equation, Flux, two_point, four_point, six_point, along, direction_vector, get_stencil, flux_at,
  compute_flux_for_stencil,
}
use alsvinn.Numflux.Neighbours.{prev, down}

-- Half of the number of cells in the stencil
abbrev pub width : {R C A : Type 0} → Flux R C A → ℕ
width (two_point _) = 1
width (four_point _) = 2
width (six_point _) = 3

-- The box, longer by `n` cells at both ends in the direction
abbrev pub InWide : ℕ → ℕ → Vec3 ℤ → Vec3 ℤ → Vec3 ℤ → Type 0
InWide d n lo hi = InBox (along d (pos 0 -ℤ pos n) lo) (along d (pos n) hi)

-- One coordinate, in the direction or not
wide_part :
    (e : Bool) (lo hi a s : ℤ) (n : ℕ)
    → (lo +ℤ pos (to_nat e) *ℤ negsuc 0) ≤ℤ a
    → a <ℤ hi
    → (pos 1 -ℤ pos n) ≤ℤ s
    → s ≤ℤ pos n
    → ((lo +ℤ pos (to_nat e) *ℤ (pos 0 -ℤ pos n)) ≤ℤ (a +ℤ pos (to_nat e) *ℤ s))
      × ((a +ℤ pos (to_nat e) *ℤ s) <ℤ (hi +ℤ pos (to_nat e) *ℤ pos n))
wide_part true lo hi a s n h k p q =
    rw (one-*ℤ (pos 0 -ℤ pos n), one-*ℤ s, one-*ℤ (pos n))
      (omega (int_laws, down lo 1), omega (int_laws, down lo 1))
wide_part false lo hi a s n h k p q =
    rw (zero-*ℤ (pos 0 -ℤ pos n), zero-*ℤ s, zero-*ℤ (pos n))
      (omega (int_laws, down lo 0), omega (int_laws, down lo 0))

-- A cell of the stencil of a cell of the sweep is in the box of the sweep, longer by `n`.
along-InWide :
    (d n : ℕ) (lo hi c : Vec3 ℤ) (s : ℤ)
    → InBox (prev d lo) hi c
    → (pos 1 -ℤ pos n) ≤ℤ s
    → s ≤ℤ pos n
    → InWide d n lo hi (along d s c)
unfolding along direction_vector
along-InWide d n lo hi c s ((x0, x1), (y0, y1), (z0, z1)) p q = (
  wide_part (d == 0) lo.x hi.x c.x s n x0 x1 p q,
  wide_part (d == 1) lo.y hi.y c.y s n y0 y1 p q,
  wide_part (d == 2) lo.z hi.z c.z s n z0 z1 p q,
)

module _ {R C A : Type 0} ⦃r : Real R⦄ (eq : Equation R C A) where
  -- The flux and the wave speed for the values left and right of each cell
  abbrev pub flux_of : Flux R C A → ℕ → (Vec3 ℤ → C) → (Vec3 ℤ → C) → Vec3 ℤ → C × R
  flux_of (two_point f) d l r c =
      f d (eq.to_all (r (along d (pos 0) c))) (eq.to_all (l (along d (pos 1) c)))
  flux_of (four_point f) d l r c =
      f d (eq.to_all (l (along d (negsuc 0) c))) (eq.to_all (l (along d (pos 0) c)))
        (eq.to_all (l (along d (pos 1) c))) (eq.to_all (l (along d (pos 2) c)))
  flux_of (six_point f) d l r c =
      f d (eq.to_all (l (along d (negsuc 1) c))) (eq.to_all (l (along d (negsuc 0) c)))
        (eq.to_all (l (along d (pos 0) c))) (eq.to_all (l (along d (pos 1) c)))
        (eq.to_all (l (along d (pos 2) c))) (eq.to_all (l (along d (pos 3) c)))

  pub flux_at-ok :
      (flux : Flux R C A) (d : ℕ) (g : Shape) (left right : Views C) (l r : Vec3 ℤ → C)
      → (lo hi : Vec3 ℤ)
      → ((c : Vec3 ℤ)
          → InWide d (width flux) lo hi c
          → Holds g left c (l c) × Holds g right c (r c))
      → (c : Vec3 ℤ) → InBox (prev d lo) hi c
      → flux_at eq flux d left right g c ≡ ok (flux_of flux d l r c)
  unfolding flux_at get_stencil compute_flux_for_stencil fetch
  flux_at-ok (two_point f) d g left right l r lo hi known c at =
      rw
        (
          (at_offset (pos 1) (omega int_laws) (omega int_laws)).0,
          (at_offset (pos 0) (omega int_laws) (omega int_laws)).1,
        )
        refl
    where
      at_offset :
          (s : ℤ)
          → (pos 1 -ℤ pos 1) ≤ℤ s
          → s ≤ℤ pos 1
          → Holds g left (along d s c) (l (along d s c))
            × Holds g right (along d s c) (r (along d s c))
      at_offset s p q = known (along d s c) (along-InWide d 1 lo hi c s at p q)
  flux_at-ok (four_point f) d g left right l r lo hi known c at =
      rw
        (
          at_offset (negsuc 0) (omega int_laws) (omega int_laws),
          at_offset (pos 0) (omega int_laws) (omega int_laws),
          at_offset (pos 1) (omega int_laws) (omega int_laws),
          at_offset (pos 2) (omega int_laws) (omega int_laws),
        )
        refl
    where
      at_offset :
          (s : ℤ)
          → (pos 1 -ℤ pos 2) ≤ℤ s
          → s ≤ℤ pos 2
          → Holds g left (along d s c) (l (along d s c))
      at_offset s p q = (known (along d s c) (along-InWide d 2 lo hi c s at p q)).0
  flux_at-ok (six_point f) d g left right l r lo hi known c at =
      rw
        (
          at_offset (negsuc 1) (omega int_laws) (omega int_laws),
          at_offset (negsuc 0) (omega int_laws) (omega int_laws),
          at_offset (pos 0) (omega int_laws) (omega int_laws),
          at_offset (pos 1) (omega int_laws) (omega int_laws),
          at_offset (pos 2) (omega int_laws) (omega int_laws),
          at_offset (pos 3) (omega int_laws) (omega int_laws),
        )
        refl
    where
      at_offset :
          (s : ℤ)
          → (pos 1 -ℤ pos 3) ≤ℤ s
          → s ≤ℤ pos 3
          → Holds g left (along d s c) (l (along d s c))
      at_offset s p q = (known (along d s c) (along-InWide d 3 lo hi c s at p q)).0

  -- The flux between two cells depends on the values in the reach of its stencil alone.
  pub flux_of-local :
      (flux : Flux R C A) (d : ℕ) (l r l' r' : Vec3 ℤ → C) (lo hi : Vec3 ℤ)
      → ((c : Vec3 ℤ) → InWide d (width flux) lo hi c → (l c ≡ l' c) × (r c ≡ r' c))
      → (c : Vec3 ℤ) → InBox (prev d lo) hi c
      → flux_of flux d l r c ≡ flux_of flux d l' r' c
  flux_of-local (two_point f) d l r l' r' lo hi same c at =
      rw
        (
          (at_offset (pos 1) (omega int_laws) (omega int_laws)).0,
          (at_offset (pos 0) (omega int_laws) (omega int_laws)).1,
        )
        refl
    where
      at_offset :
          (s : ℤ)
          → (pos 1 -ℤ pos 1) ≤ℤ s
          → s ≤ℤ pos 1
          → (l (along d s c) ≡ l' (along d s c)) × (r (along d s c) ≡ r' (along d s c))
      at_offset s p q = same (along d s c) (along-InWide d 1 lo hi c s at p q)
  flux_of-local (four_point f) d l r l' r' lo hi same c at =
      rw
        (
          at_offset (negsuc 0) (omega int_laws) (omega int_laws),
          at_offset (pos 0) (omega int_laws) (omega int_laws),
          at_offset (pos 1) (omega int_laws) (omega int_laws),
          at_offset (pos 2) (omega int_laws) (omega int_laws),
        )
        refl
    where
      at_offset : (s : ℤ) → (pos 1 -ℤ pos 2) ≤ℤ s → s ≤ℤ pos 2 → l (along d s c) ≡ l' (along d s c)
      at_offset s p q = (same (along d s c) (along-InWide d 2 lo hi c s at p q)).0
  flux_of-local (six_point f) d l r l' r' lo hi same c at =
      rw
        (
          at_offset (negsuc 1) (omega int_laws) (omega int_laws),
          at_offset (negsuc 0) (omega int_laws) (omega int_laws),
          at_offset (pos 0) (omega int_laws) (omega int_laws),
          at_offset (pos 1) (omega int_laws) (omega int_laws),
          at_offset (pos 2) (omega int_laws) (omega int_laws),
          at_offset (pos 3) (omega int_laws) (omega int_laws),
        )
        refl
    where
      at_offset : (s : ℤ) → (pos 1 -ℤ pos 3) ≤ℤ s → s ≤ℤ pos 3 → l (along d s c) ≡ l' (along d s c)
      at_offset s p q = (same (along d s c) (along-InWide d 3 lo hi c s at p q)).0
