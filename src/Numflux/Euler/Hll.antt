-- ===== src/Numflux/Euler/Hll.antt =====
-- alsfvm/include/alsfvm/numflux/euler/HLL.hpp: the flux of Harten, van Leer and Lax, in three dimensions,
-- with the arithmetic of alsfvm/include/alsfvm/equation/euler/ConservedVariables.hpp. `fmax` and `fmin` of C
-- are `std::max` and `std::min` here: they differ on NaN alone.
pub mod Consistency
use alsvinn.Base.{ℕ, if◌then◌else◌}
use alsvinn.Base.Real.{Real, num, fmin, fmax}
use alsvinn.Vec.{Vec3, vec3, comp}
use alsvinn.Numflux.Euler.{ConservedVariables, AllVariables, scale3, div3, point_flux}

module _ {R : Type 0} ⦃r : Real R⦄ where
  -- The arithmetic on structs, component by component
  unfoldable pub subtract : ConservedVariables R → ConservedVariables R → ConservedVariables R
  subtract a b = record {
    rho = r.sub a.rho b.rho;
    m = vec3 (r.sub a.m.x b.m.x) (r.sub a.m.y b.m.y) (r.sub a.m.z b.m.z);
    energy = r.sub a.energy b.energy;
  }

  unfoldable pub sum : ConservedVariables R → ConservedVariables R → ConservedVariables R
  sum a b = record {
    rho = r.add a.rho b.rho;
    m = vec3 (r.add a.m.x b.m.x) (r.add a.m.y b.m.y) (r.add a.m.z b.m.z);
    energy = r.add a.energy b.energy;
  }

  unfoldable pub scaled : R → ConservedVariables R → ConservedVariables R
  unfolding scale3
  scaled s a = record { rho = r.mul s a.rho; m = scale3 s a.m; energy = r.mul s a.energy }

  unfoldable pub divided : ConservedVariables R → R → ConservedVariables R
  unfolding div3
  divided a s = record { rho = r.div a.rho s; m = div3 a.m s; energy = r.div a.energy s }

  -- `ConservedVariables(0, rvec(0), 0)`
  unfoldable pub no_flux : ConservedVariables R
  no_flux = record { rho = num 0; m = vec3 (num 0) (num 0) (num 0); energy = num 0 }

  module _ (sqrt : R → R) (gamma : R) (d : ℕ) where
    -- `computeHLLSpeeds`, the component `d` of the velocities alone
    unfoldable pub compute_hll_speeds : AllVariables R → AllVariables R → R × R
    compute_hll_speeds left right =
        let wave_left = sqrt left.conserved.rho in
        let wave_right = sqrt right.conserved.rho in
        let rho = r.div (r.add left.conserved.rho right.conserved.rho) (num 2) in
        let u =
          r.div
            (r.add (r.mul (comp left.extra.u d) wave_left)
              (r.mul (comp right.extra.u d) wave_right))
            (r.add wave_left wave_right) in
        let p =
          r.div (r.add (r.mul left.extra.p wave_left) (r.mul right.extra.p wave_right))
            (r.add wave_left wave_right) in
        let cs = sqrt (r.div (r.mul gamma p) rho) in
        (
          fmin
              (r.sub (comp left.extra.u d)
                (sqrt (r.div (r.mul gamma left.extra.p) left.conserved.rho)))
              (r.sub u cs),
          fmax
              (r.add (comp right.extra.u d)
                (sqrt (r.div (r.mul gamma right.extra.p) right.conserved.rho)))
              (r.add u cs),
        )

    -- The last branch: both speeds point away from the interface.
    unfoldable pub hll_average : R → R → AllVariables R → AllVariables R → ConservedVariables R
    unfolding point_flux subtract sum scaled divided
    hll_average sl sr left right =
        divided
          (sum
            (subtract (scaled sr (point_flux gamma d left)) (scaled sl (point_flux gamma d right)))
            (scaled (r.mul sr sl) (subtract right.conserved left.conserved)))
          (r.sub sr sl)

    -- `computeFlux<direction>`: the flux and the wave speed
    unfoldable pub compute_hll_flux : AllVariables R → AllVariables R → ConservedVariables R × R
    unfolding compute_hll_speeds hll_average no_flux point_flux fmax
    compute_hll_flux left right =
        let (sl, sr) = compute_hll_speeds left right in
        (
          if r.beq sl (num 0)
              then no_flux
              else if r.lt (num 0) sl
              then point_flux gamma d left
              else if r.lt sr (num 0)
              then point_flux gamma d right
              else hll_average sl sr left right,
          fmax (r.abs sl) (r.abs sr),
        )
