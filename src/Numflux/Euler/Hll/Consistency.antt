-- ===== src/Numflux/Euler/Hll/Consistency.antt =====
-- The flux of alsfvm/include/alsfvm/numflux/euler/HLL.hpp between two cells with one value.
use alsvinn.Base.{ℕ, ◌≡◌, ◌≢◌, refl, ap, sym, ◌∙◌, Bool-cases, inl, inr, if◌then◌else◌}
use alsvinn.Base.Real.{Real, num}
use alsvinn.Numflux.Euler.{AllVariables, scale3, div3, point_flux}
use alsvinn.Numflux.Euler.RoundTrip.{IsField}
use alsvinn.Numflux.Euler.Hll.{
  subtract, sum, scaled, divided, no_flux, compute_hll_speeds, hll_average, compute_hll_flux,
}

-- More laws of exact arithmetic
pub record HasDifferences (R : Type 0) ⦃r : Real R⦄ : Type 0 where
  pub sub_self : (x : R) → r.sub x x ≡ num 0
  pub mul_zero : (x : R) → r.mul x (num 0) ≡ num 0
  pub add_zero : (x : R) → r.add x (num 0) ≡ x
  pub sub_mul : (x y z : R) → r.mul (r.sub x y) z ≡ r.sub (r.mul x z) (r.mul y z)

module _ {R : Type 0} ⦃r : Real R⦄ (laws : IsField R) (differences : HasDifferences R) where
  open laws use {mul_comm, mul_div}
  open differences use {sub_self, mul_zero, add_zero, sub_mul}

  -- One component of the average
  average_component :
      (sl sr f u : R)
      → r.sub sr sl ≢ num 0
      → r.div
          (r.add (r.sub (r.mul sr f) (r.mul sl f)) (r.mul (r.mul sr sl) (r.sub u u)))
          (r.sub sr sl)
        ≡ f
  average_component sl sr f u apart =
      ap (λ x. r.div (r.add (r.sub (r.mul sr f) (r.mul sl f)) x) (r.sub sr sl))
        (ap (r.mul (r.mul sr sl)) (sub_self u) ∙ mul_zero (r.mul sr sl))
      ∙ ap (λ x. r.div x (r.sub sr sl))
          (add_zero (r.sub (r.mul sr f) (r.mul sl f))
            ∙ sym (sub_mul sr sl f)
            ∙ mul_comm (r.sub sr sl) f)
      ∙ mul_div f (r.sub sr sl) apart

  -- The same for a component of a vector, which stands on the left of its factor
  average_vector :
      (sl sr f u : R)
      → r.sub sr sl ≢ num 0
      → r.div
          (r.add (r.sub (r.mul f sr) (r.mul f sl)) (r.mul (r.sub u u) (r.mul sr sl)))
          (r.sub sr sl)
        ≡ f
  average_vector sl sr f u apart =
      rw (mul_comm f sr, mul_comm f sl, mul_comm (r.sub u u) (r.mul sr sl))
        (average_component sl sr f u apart)

  module _ (sqrt : R → R) (gamma : R) (d : ℕ) (v : AllVariables R) where
    hll_average_self :
        (sl sr : R)
        → r.sub sr sl ≢ num 0
        → hll_average sqrt gamma d sl sr v v ≡ point_flux gamma d v
    unfolding hll_average subtract sum scaled divided scale3 div3
    hll_average_self sl sr apart =
        let f = point_flux gamma d v in
        let c = v.conserved in
        rw
          (
            average_component sl sr f.rho c.rho apart,
            average_vector sl sr f.m.x c.m.x apart,
            average_vector sl sr f.m.y c.m.y apart,
            average_vector sl sr f.m.z c.m.z apart,
            average_component sl sr f.energy c.energy apart,
          )
          refl

    -- In exact arithmetic, the flux between two cells with one value is the flux function at that value,
    -- where the two speeds differ and the left one is not 0. It is 0 where the left speed is 0.
    pub compute_hll_flux_self :
        r.sub (compute_hll_speeds sqrt gamma d v v).1 (compute_hll_speeds sqrt gamma d v v).0
          ≢ num 0
        → (compute_hll_flux sqrt gamma d v v).0 ≡ (
            if r.beq (compute_hll_speeds sqrt gamma d v v).0 (num 0)
            then no_flux
            else point_flux gamma d v)
    unfolding compute_hll_flux
    compute_hll_flux_self apart =
        let sl = (compute_hll_speeds sqrt gamma d v v).0 in
        let sr = (compute_hll_speeds sqrt gamma d v v).1 in
        elim (Bool-cases (r.beq sl (num 0))) [
          | inl e ↦ rw e refl
          | inr e ↦ elim (Bool-cases (r.lt (num 0) sl)) [
            | inl e' ↦ rw (e, e') refl
            | inr e' ↦ elim (Bool-cases (r.lt sr (num 0))) [
              | inl e'' ↦ rw (e, e', e'') refl
              | inr e'' ↦ rw (e, e', e'') (hll_average_self sl sr apart)
            ]
          ]
        ]
