-- ===== src/Boundary/Sweep/Covered.antt =====
-- The cells that the loops over one side of `applyBoundary` assign (alsfvm/src/boundary/BoundaryCPU.cpp).
use alsvinn.Base.{ℕ, zero, suc, ◌+◌, ◌*◌, ◌≤◌, ◌<◌, ◌≡◌, Bool, true, arith}
use alsvinn.Vec.{vec3, set_comp}
use alsvinn.Memory.{Memory}
use alsvinn.Boundary.{Kind, first_of_axis, rounds_of_axis}
use alsvinn.Boundary.Patch.{Point, IsPoint, same_point, any_range_intro}
use alsvinn.Boundary.Word.{anchor, edge, first_of_axis-eq-anchor}
use alsvinn.Boundary.Sweep.{
  is_ghost, extent, IsSized, side_targets, IsVisited, distance, distance_lem,
}

same_point_self : (p q : Point) → p ≡ q → same_point p q ≡ true
same_point_self p q e = rw e (ground arith)

-- Every ghost cell of the side is assigned in some round.
module _ {R : Type 0} (kind : Kind) (top : Bool) (ghosts : ℕ) (m : Memory R) (s : IsSized m)
    (p : Point) (i : IsPoint m p) where
  in_targets :
      (d z y x g : ℕ)
      → IsVisited m kind top ghosts d x y z
      → 1 ≤ g
      → g < 1 + ghosts
      → set_comp (vec3 x y z) d (edge top ghosts (extent m d) g) ≡ p
      → side_targets top ghosts d m.nx m.ny m.nz p ≡ true
  in_targets d z y x g v lo hi e = any_range_intro _ _ z _ v.z_lo v.z_hi (
      any_range_intro _ _ y _ v.y_lo v.y_hi (
        any_range_intro _ _ x _ v.x_lo v.x_hi
          (any_range_intro _ _ g _ lo hi (same_point_self _ _ e))))

  pub covered :
      (d : ℕ)
      → d < 3
      → 3 * ghosts ≤ extent m d
      → is_ghost d top ghosts (extent m d) p ≡ true
      → side_targets top ghosts d m.nx m.ny m.nz p ≡ true
  unfolding first_of_axis rounds_of_axis
  covered zero h e g =
      let start = first_of_axis-eq-anchor 0 top ghosts m.nx s.nx_lt e (omega (arith, i.x_lt)) in
      let (lo, hi, at) = distance_lem top ghosts m.nx p.x e i.x_lt g in
      in_targets 0 p.z p.y (anchor top ghosts m.nx) (distance top ghosts m.nx p.x)
        (record {
          x_lo = omega (arith, start);
          x_hi = omega (arith, start);
          y_lo = omega arith;
          y_hi = omega (arith, i.y_lt);
          z_lo = omega arith;
          z_hi = omega (arith, i.z_lt);
        })
        lo hi (λ k. record { x = at k; y = p.y; z = p.z })
  covered (suc zero) h e g =
      let start = first_of_axis-eq-anchor 1 top ghosts m.ny s.ny_lt e (omega (arith, i.y_lt)) in
      let (lo, hi, at) = distance_lem top ghosts m.ny p.y e i.y_lt g in
      in_targets 1 p.z (anchor top ghosts m.ny) p.x (distance top ghosts m.ny p.y)
        (record {
          x_lo = omega arith;
          x_hi = omega (arith, i.x_lt);
          y_lo = omega (arith, start);
          y_hi = omega (arith, start);
          z_lo = omega arith;
          z_hi = omega (arith, i.z_lt);
        })
        lo hi (λ k. record { x = p.x; y = at k; z = p.z })
  covered (suc (suc zero)) h e g =
      let start = first_of_axis-eq-anchor 2 top ghosts m.nz s.nz_lt e (omega (arith, i.z_lt)) in
      let (lo, hi, at) = distance_lem top ghosts m.nz p.z e i.z_lt g in
      in_targets 2 (anchor top ghosts m.nz) p.y p.x (distance top ghosts m.nz p.z)
        (record {
          x_lo = omega arith;
          x_hi = omega (arith, i.x_lt);
          y_lo = omega arith;
          y_hi = omega (arith, i.y_lt);
          z_lo = omega (arith, start);
          z_hi = omega (arith, start);
        })
        lo hi (λ k. record { x = p.x; y = p.y; z = at k })
  covered (suc (suc (suc d))) h e g = absurd (omega arith)
