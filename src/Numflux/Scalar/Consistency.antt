-- ===== src/Numflux/Scalar/Consistency.antt =====
-- The scalar fluxes (alsfvm/include/alsfvm/numflux) between two cells with one value.
use alsvinn.Base.{◌≡◌, true}
use alsvinn.Base.Real.{Real, num, ◌≼◌, IsOrdered}
use alsvinn.Numflux.Scalar.{
  ScalarEquation, FluxName, central_flux, rusanov_flux, entropy_conservative_flux, upwind_flux,
  cubic_roe_flux, godunov_flux, half,
}

-- The laws of exact arithmetic that the fluxes rely on, which floating point numbers have up to rounding
pub record IsExact (R : Type 0) ⦃r : Real R⦄ : Type 0 where
  pub ordered : IsOrdered R
  pub nought_real : ◌≼◌ {R = R} (num 0) (num 0)
  pub half_sum : (x : R) → x ≼ x → r.mul half (r.add x x) ≡ x
  pub sub_self : (x : R) → x ≼ x → r.sub x x ≡ num 0
  pub mul_zero : (a : R) → r.mul a (num 0) ≡ num 0
  pub sub_zero : (x : R) → x ≼ x → r.sub x (num 0) ≡ x
  pub beq_refl : (x : R) → x ≼ x → r.beq x x ≡ true
  pub antisym : (x y : R) → x ≼ y → y ≼ x → x ≡ y

module _ {R : Type 0} ⦃r : Real R⦄ (laws : IsExact R) (eq : ScalarEquation R) where
  open laws use {ordered, nought_real, half_sum, sub_self, mul_zero, sub_zero, beq_refl, antisym}

  -- The flux function has no NaN, and is least at 0.
  pub record IsLeastAtZero : Type 0 where
    pub real : (u : R) → u ≼ u → eq.point_flux u ≼ eq.point_flux u
    pub least : (u : R) → u ≼ u → eq.point_flux (num 0) ≼ eq.point_flux u

  -- What a flux asks of the flux function at the value of the two cells: no NaN for those that
  -- average it, to be least at 0 for Godunov, and nothing for the others.
  unfoldable pub Suits : FluxName → R → Type 0
  Suits central_flux u = eq.point_flux u ≼ eq.point_flux u
  Suits rusanov_flux u = eq.point_flux u ≼ eq.point_flux u
  Suits entropy_conservative_flux u = Unit
  Suits upwind_flux u = Unit
  Suits cubic_roe_flux u = Unit
  Suits godunov_flux u = IsLeastAtZero
