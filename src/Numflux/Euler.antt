-- ===== src/Numflux/Euler.antt =====
-- alsfvm/include/alsfvm/equation/euler/Euler.hpp in three dimensions: the Euler equations of a gas. The
-- square root and the logarithm of the C++ library, and `std::isfinite`, are arguments.
pub mod RoundTrip
pub mod Hll
use alsvinn.Base.{ℕ, zero, suc, Bool, ◌&&◌, ◌==◌, if◌then◌else◌, List, [], ◌∷◌}
use alsvinn.Base.Real.{Real, num}
use alsvinn.Vec.{Vec3, vec3, comp, set_comp, map3, zip3, dot}
use alsvinn.Numflux.Scalar.{half}

pub record ConservedVariables (R : Type 0) : Type 0 where
  pub rho : R
  pub m : Vec3 R
  pub energy : R

pub record ExtraVariables (R : Type 0) : Type 0 where
  pub p : R
  pub u : Vec3 R

pub record AllVariables (R : Type 0) : Type 0 where
  pub conserved : ConservedVariables R
  pub extra : ExtraVariables R

pub record PrimitiveVariables (R : Type 0) : Type 0 where
  pub rho : R
  pub u : Vec3 R
  pub p : R

pub record TecnoVariables (R : Type 0) : Type 0 where
  pub z1 : R
  pub z_velocity : Vec3 R
  pub z5 : R

-- `state_vector`, of five components
pub record StateVector (R : Type 0) : Type 0 where
  pub first : R
  pub middle : Vec3 R
  pub last : R

module _ {R : Type 0} ⦃r : Real R⦄ where
  -- `scalar * a`, `a / scalar` and `a.dot(b)`
  unfoldable pub scale3 : R → Vec3 R → Vec3 R
  scale3 s a = vec3 (r.mul a.x s) (r.mul a.y s) (r.mul a.z s)

  unfoldable pub div3 : Vec3 R → R → Vec3 R
  div3 a s = vec3 (r.div a.x s) (r.div a.y s) (r.div a.z s)

  unfoldable pub dot3 : Vec3 R → Vec3 R → R
  dot3 a b = r.add (r.add (r.mul a.x b.x) (r.mul a.y b.y)) (r.mul a.z b.z)

  -- `-a`, but for the sign of 0
  minus : R → R
  minus a = r.sub (num 0) a

  module _ (gamma : R) where
    -- (gamma - 1) * (E - 0.5 * m.dot(m) / rho)
    unfoldable pub pressure : ConservedVariables R → R
    unfolding dot3 half
    pressure c =
        r.mul (r.sub gamma (num 1)) (r.sub c.energy (r.div (r.mul half (dot3 c.m c.m)) c.rho))

    unfoldable pub compute_extra : ConservedVariables R → ExtraVariables R
    unfolding pressure div3
    compute_extra c = record { p = pressure c; u = div3 c.m c.rho }

    unfoldable pub extra_of_primitive : PrimitiveVariables R → ExtraVariables R
    extra_of_primitive v = record { p = v.p; u = v.u }

    unfoldable pub make_all_variables : R → Vec3 R → R → AllVariables R
    unfolding compute_extra
    make_all_variables rho m energy = all_of (record { rho = rho; m = m; energy = energy })
      where
        all_of : ConservedVariables R → AllVariables R
        all_of c = record { conserved = c; extra = compute_extra c }

    unfoldable pub compute_conserved : PrimitiveVariables R → ConservedVariables R
    unfolding scale3 dot3 half
    compute_conserved v = record {
      rho = v.rho;
      m = scale3 v.rho v.u;
      energy = r.add (r.div v.p (r.sub gamma (num 1))) (r.mul (r.mul half v.rho) (dot3 v.u v.u));
    }

    unfoldable pub compute_primitive_variables : ConservedVariables R → PrimitiveVariables R
    unfolding pressure div3
    compute_primitive_variables c = record { rho = c.rho; u = div3 c.m c.rho; p = pressure c }

    -- `computePointFlux<direction>`
    unfoldable pub point_flux : ℕ → AllVariables R → ConservedVariables R
    unfolding scale3
    point_flux d v =
        let m = scale3 (comp v.extra.u d) v.conserved.m in
        record {
          rho = comp v.conserved.m d;
          m = set_comp m d (r.add (comp m d) v.extra.p);
          energy = r.mul (r.add v.conserved.energy v.extra.p) (comp v.extra.u d);
        }

    unfoldable pub compute_point_flux : ℕ → ConservedVariables R → ConservedVariables R
    unfolding make_all_variables point_flux
    compute_point_flux d c = point_flux d (make_all_variables c.rho c.m c.energy)

    unfoldable pub compute_wave_speed : (R → R) → ℕ → ConservedVariables R → ExtraVariables R → R
    compute_wave_speed sqrt d c v =
        r.add (r.abs (comp v.u d)) (sqrt (r.div (r.mul gamma v.p) c.rho))

    unfoldable pub obeys_constraints : (R → Bool) → ConservedVariables R → ExtraVariables R → Bool
    obeys_constraints isfinite c v =
        isfinite c.rho && (r.beq c.rho c.rho && (r.lt (num 0) c.rho && r.lt (num 0) v.p))

    unfoldable pub compute_tecno_variables : (R → R) → ConservedVariables R → TecnoVariables R
    unfolding compute_primitive_variables scale3
    compute_tecno_variables sqrt c =
        let v = compute_primitive_variables c in
        record {
          z1 = sqrt (r.div v.rho v.p);
          z_velocity = scale3 (sqrt (r.div v.rho v.p)) v.u;
          z5 = sqrt (r.mul v.rho v.p);
        }

    unfoldable pub compute_entropy_variables : (R → R) → ConservedVariables R → StateVector R
    unfolding compute_primitive_variables div3 dot3 minus
    compute_entropy_variables log c =
        let v = compute_primitive_variables c in
        let s = r.sub (log v.p) (r.mul gamma (log c.rho)) in
        record {
          first =
              r.sub (r.div (r.sub gamma s) (r.sub gamma (num 1)))
                (r.div (r.mul c.rho (dot3 v.u v.u)) (r.mul (num 2) v.p));
          middle = div3 c.m v.p;
          last = r.div (minus c.rho) v.p;
        }

    unfoldable pub compute_entropy_potential : ConservedVariables R → Vec3 R
    compute_entropy_potential c = c.m

    -- The rotation of `computeEigenValues` and `computeEigenVectorMatrix`
    unfoldable pub rotated : ℕ → ConservedVariables R → ConservedVariables R
    unfolding minus
    rotated zero c = c
    rotated (suc zero) c = record c { m = vec3 c.m.y (minus c.m.x) c.m.z }
    rotated (suc (suc d)) c = record c { m = vec3 c.m.z c.m.y (minus c.m.x) }

    unfoldable pub compute_eigen_values : (R → R) → ℕ → ConservedVariables R → StateVector R
    unfolding rotated compute_primitive_variables
    compute_eigen_values sqrt d c =
        let v = compute_primitive_variables (rotated d c) in
        let a = sqrt (r.div (r.mul gamma v.p) c.rho) in
        record { first = r.sub v.u.x a; middle = vec3 v.u.x v.u.x v.u.x; last = r.add v.u.x a }
