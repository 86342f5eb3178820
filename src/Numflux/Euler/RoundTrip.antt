-- ===== src/Numflux/Euler/RoundTrip.antt =====
-- `computeConserved` and `computePrimitiveVariables` of alsfvm/include/alsfvm/equation/euler/Euler.hpp.
use alsvinn.Base.{◌≡◌, ◌≢◌, refl, ap, ap₂, sym, ◌∙◌}
use alsvinn.Base.Real.{Real, num}
use alsvinn.Vec.{Vec3}
use alsvinn.Numflux.Scalar.{half}
use alsvinn.Numflux.Euler.{
  ConservedVariables, PrimitiveVariables, scale3, div3, dot3, pressure, compute_conserved,
  compute_primitive_variables,
}

-- The laws of exact arithmetic, which floating point numbers have up to rounding
pub record IsField (R : Type 0) ⦃r : Real R⦄ : Type 0 where
  pub add_sub : (x y : R) → r.sub (r.add x y) y ≡ x
  pub sub_add : (x y : R) → r.add (r.sub x y) y ≡ x
  pub mul_comm : (x y : R) → r.mul x y ≡ r.mul y x
  pub mul_assoc : (x y z : R) → r.mul (r.mul x y) z ≡ r.mul x (r.mul y z)
  pub distrib : (x y z : R) → r.mul (r.add x y) z ≡ r.add (r.mul x z) (r.mul y z)
  pub mul_div : (x y : R) → y ≢ num 0 → r.div (r.mul x y) y ≡ x
  pub div_mul : (x y : R) → y ≢ num 0 → r.mul (r.div x y) y ≡ x

module _ {R : Type 0} ⦃r : Real R⦄ (laws : IsField R) where
  open laws use {add_sub, sub_add, mul_comm, mul_assoc, distrib, mul_div, div_mul}

  scaled_square : (x s : R) → r.mul (r.mul x s) (r.mul x s) ≡ r.mul (r.mul x x) (r.mul s s)
  scaled_square x s =
      mul_assoc x s (r.mul x s)
      ∙ ap (r.mul x) (sym (mul_assoc s x s) ∙ ap (λ y. r.mul y s) (mul_comm s x) ∙ mul_assoc x s s)
      ∙ sym (mul_assoc x x (r.mul s s))

  dot-scale : (s : R) (a : Vec3 R) → dot3 (scale3 s a) (scale3 s a) ≡ r.mul (dot3 a a) (r.mul s s)
  unfolding dot3 scale3
  dot-scale s a =
      ap₂ r.add
        (ap₂ r.add (scaled_square a.x s) (scaled_square a.y s)
          ∙ sym (distrib (r.mul a.x a.x) (r.mul a.y a.y) (r.mul s s)))
        (scaled_square a.z s)
      ∙ sym (distrib (r.add (r.mul a.x a.x) (r.mul a.y a.y)) (r.mul a.z a.z) (r.mul s s))

  -- The kinetic energy from the momentum is that from the velocity.
  kinetic :
      (rho : R) (a : Vec3 R)
      → rho ≢ num 0
      → r.div (r.mul half (dot3 (scale3 rho a) (scale3 rho a))) rho
        ≡ r.mul (r.mul half rho) (dot3 a a)
  kinetic rho a rho-≢ =
      ap (λ x. r.div (r.mul half x) rho) (dot-scale rho a ∙ sym (mul_assoc (dot3 a a) rho rho))
      ∙ ap (λ x. r.div x rho) (sym (mul_assoc half (r.mul (dot3 a a) rho) rho))
      ∙ mul_div (r.mul half (r.mul (dot3 a a) rho)) rho rho-≢
      ∙ ap (r.mul half) (mul_comm (dot3 a a) rho)
      ∙ sym (mul_assoc half rho (dot3 a a))

  module _ (gamma : R) (gas : r.sub gamma (num 1) ≢ num 0) where
    pressure_back :
        (v : PrimitiveVariables R)
        → v.rho ≢ num 0
        → pressure gamma (compute_conserved gamma v) ≡ v.p
    unfolding pressure compute_conserved
    pressure_back v rho-≢ =
        ap (λ k. r.mul (r.sub gamma (num 1)) (r.sub (compute_conserved gamma v).energy k))
          (kinetic v.rho v.u rho-≢)
        ∙ ap (r.mul (r.sub gamma (num 1)))
            (add_sub (r.div v.p (r.sub gamma (num 1))) (r.mul (r.mul half v.rho) (dot3 v.u v.u)))
        ∙ mul_comm (r.sub gamma (num 1)) (r.div v.p (r.sub gamma (num 1)))
        ∙ div_mul v.p (r.sub gamma (num 1)) gas

    momentum_back : (rho : R) (a : Vec3 R) → rho ≢ num 0 → scale3 rho (div3 a rho) ≡ a
    unfolding scale3 div3
    momentum_back rho a h = rw (div_mul a.x rho h, div_mul a.y rho h, div_mul a.z rho h) refl

    velocity_back : (rho : R) (a : Vec3 R) → rho ≢ num 0 → div3 (scale3 rho a) rho ≡ a
    unfolding scale3 div3
    velocity_back rho a h = rw (mul_div a.x rho h, mul_div a.y rho h, mul_div a.z rho h) refl

    energy_back :
        (c : ConservedVariables R)
        → c.rho ≢ num 0
        → (compute_conserved gamma (compute_primitive_variables gamma c)).energy ≡ c.energy
    unfolding pressure compute_conserved compute_primitive_variables
    energy_back c h =
        let e = r.sub c.energy (r.div (r.mul half (dot3 c.m c.m)) c.rho) in
        ap₂ r.add
          (ap (λ x. r.div x (r.sub gamma (num 1))) (mul_comm (r.sub gamma (num 1)) e)
            ∙ mul_div e (r.sub gamma (num 1)) gas)
          (sym (kinetic c.rho (div3 c.m c.rho) h)
            ∙ ap (λ m. r.div (r.mul half (dot3 m m)) c.rho) (momentum_back c.rho c.m h))
        ∙ sub_add c.energy (r.div (r.mul half (dot3 c.m c.m)) c.rho)

    -- In exact arithmetic, where gamma is not 1, the primitive and the conserved variables of a cell
    -- whose density is not 0 determine each other: `computePrimitiveVariables` undoes
    -- `computeConserved`, and the other way round.
    pub primitive-conserved :
        ((v : PrimitiveVariables R)
          → v.rho ≢ num 0
          → compute_primitive_variables gamma (compute_conserved gamma v) ≡ v)
        × ((c : ConservedVariables R)
            → c.rho ≢ num 0
            → compute_conserved gamma (compute_primitive_variables gamma c) ≡ c)
    unfolding compute_conserved compute_primitive_variables
    primitive-conserved = (
      λ v h.
          ap₂ (λ u p. record { rho = v.rho; u = u; p = p }) (velocity_back v.rho v.u h)
            (pressure_back v h),
      λ c h.
          ap₂ (λ m e. record { rho = c.rho; m = m; energy = e }) (momentum_back c.rho c.m h)
            (energy_back c h),
    )
