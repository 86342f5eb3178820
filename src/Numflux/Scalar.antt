-- ===== src/Numflux/Scalar.antt =====
-- The scalar equations (alsfvm/include/alsfvm/equation: burgers, linear, cubic, buckleyleverett) and their
-- fluxes (alsfvm/include/alsfvm/numflux: Central.hpp, Rusanov.hpp, ScalarEntropyConservativeFlux.hpp,
-- TecnoCombined4.hpp, TecnoCombined6.hpp, and those of single equations). The variable `u` is the struct.
-- `fmax` and `fmin` of C are `std::max` and `std::min` here: they differ on NaN alone.
pub mod Consistency
use alsvinn.Base.{ℕ, suc, Bool, true, false, not, if◌then◌else◌}
use alsvinn.Base.Int.{ℤ, pos, negsuc}
use alsvinn.Base.Real.{Real, num, fmin, fmax}
use alsvinn.Numflux.{Equation, Flux, two_point, four_point, six_point}

-- What the fluxes use of a scalar equation: `computePointFlux`, `computeWaveSpeed`,
-- `computeEigenValues`, `computeEntropyVariables` and `computeEntropyPotential`
pub record ScalarEquation (R : Type 0) : Type 0 where
  pub point_flux : R → R
  pub wave_speed : R → R
  pub eigenvalue : R → R
  pub entropy_variable : R → R
  pub entropy_potential : R → R

pub data FluxName : Type 0 where
  central_flux rusanov_flux entropy_conservative_flux upwind_flux cubic_roe_flux : FluxName
  godunov_flux : FluxName

module _ {R : Type 0} ⦃r : Real R⦄ where
  fraction : ℤ → ℕ → R
  fraction a b = r.div (r.of_int a) (num b)

  unfoldable pub half : R
  unfolding fraction
  half = fraction (pos 1) 2

  -- (1 / (entropyUpperBound - u)) - 1 / (u - entropyLowerBound), with the bounds 2 and 0
  unfoldable pub log_entropy_variable : R → R
  log_entropy_variable u = r.sub (r.div (num 1) (r.sub (num 2) u)) (r.div (num 1) (r.sub u (num 0)))

  -- The potential of it, with the logarithm of the C++ library as an argument
  unfoldable pub log_entropy_potential : (R → R) → R → R
  unfolding log_entropy_variable half
  log_entropy_potential log u = r.sub (r.mul (r.mul (r.mul (log_entropy_variable u) half) u) u) (
      r.sub (r.sub (r.mul (r.of_int (negsuc 1)) u) (r.mul (num 2) (log (r.sub (num 2) u))))
        (r.mul (num 0) (log (r.sub u (num 0)))))

  module _ (log : R → R) where
    unfoldable pub burgers : ScalarEquation R
    unfolding log_entropy_variable log_entropy_potential
    burgers = record {
      point_flux = λ u. r.div (r.mul u u) (num 2);
      wave_speed = r.abs;
      eigenvalue = λ u. u;
      entropy_variable = log_entropy_variable;
      entropy_potential = log_entropy_potential log;
    }

    unfoldable pub linear : ScalarEquation R
    unfolding log_entropy_variable log_entropy_potential
    linear = record {
      point_flux = λ u. u;
      wave_speed = λ u. num 1;
      eigenvalue = λ u. num 1;
      entropy_variable = log_entropy_variable;
      entropy_potential = log_entropy_potential log;
    }

    unfoldable pub cubic : ScalarEquation R
    unfolding log_entropy_variable log_entropy_potential
    cubic = record {
      point_flux = λ u. r.div (r.mul (r.mul u u) u) (num 3);
      wave_speed = λ u. r.abs (r.mul u u);
      eigenvalue = λ u. r.mul u u;
      entropy_variable = log_entropy_variable;
      entropy_potential = log_entropy_potential log;
    }

    -- u * u + (1 - u) * (1 - u)
    buckley_denominator : R → R
    buckley_denominator u = r.add (r.mul u u) (r.mul (r.sub (num 1) u) (r.sub (num 1) u))

    -- 2 * u * (u * u + (1 - u) * (1 - u)) - u * u * (2 * u - 2 * (1 - u))
    buckley_numerator : R → R
    unfolding buckley_denominator
    buckley_numerator u =
        r.sub (r.mul (r.mul (num 2) u) (buckley_denominator u))
          (r.mul (r.mul u u) (r.sub (r.mul (num 2) u) (r.mul (num 2) (r.sub (num 1) u))))

    unfoldable pub buckley_leverett : ScalarEquation R
    unfolding buckley_denominator buckley_numerator log_entropy_variable log_entropy_potential
    buckley_leverett = record {
      point_flux = λ u. r.div (r.mul u u) (buckley_denominator u);
      wave_speed = λ u.
          r.div (r.abs (buckley_numerator u))
            (r.mul (buckley_denominator u) (buckley_denominator u));
      eigenvalue =
          λ u. r.div (buckley_numerator u) (r.mul (buckley_denominator u) (buckley_denominator u));
      entropy_variable = log_entropy_variable;
      entropy_potential = log_entropy_potential log;
    }

  -- `setViewAt`, `addToViewAt` and the default constructor, for one variable
  unfoldable pub scalar_equation : Equation R R R
  scalar_equation = record { nought = num 0; plus = r.add; scale = r.mul; to_all = λ u. u }

  module _ (eq : ScalarEquation R) where
    -- fmax(computeWaveSpeed(left), computeWaveSpeed(right))
    greater_speed : R → R → R
    unfolding fmax
    greater_speed left right = fmax (eq.wave_speed left) (eq.wave_speed right)

    -- 0.5 * (fluxLeft + fluxRight)
    average : R → R → R
    unfolding half
    average left right = r.mul half (r.add (eq.point_flux left) (eq.point_flux right))

    unfoldable pub central : R → R → R × R
    unfolding average greater_speed
    central left right = (average left right, greater_speed left right)

    unfoldable pub rusanov : R → R → R × R
    unfolding average greater_speed fmax half
    rusanov left right =
        let eigen_max = fmax (r.abs (eq.eigenvalue left)) (r.abs (eq.eigenvalue right)) in
        (
          r.sub (average left right) (r.mul (r.mul half eigen_max) (r.sub right left)),
          greater_speed left right,
        )

    unfoldable pub entropy_conservative : R → R → R × R
    unfolding greater_speed
    entropy_conservative left right = (
      if r.beq left right
          then eq.point_flux left
          else r.div (r.sub (eq.entropy_potential right) (eq.entropy_potential left))
              (r.sub (eq.entropy_variable right) (eq.entropy_variable left)),
      greater_speed left right,
    )

    -- `linear::Upwind`
    unfoldable pub upwind : R → R → R × R
    unfolding greater_speed
    upwind left right = (eq.point_flux left, greater_speed left right)

    -- `burgers::Godunov` and `buckleyleverett::Godunov`
    unfoldable pub godunov : R → R → R × R
    unfolding greater_speed fmin fmax
    godunov left right = (
      fmax (eq.point_flux (fmax left (num 0))) (eq.point_flux (fmin right (num 0))),
      greater_speed left right,
    )

    -- `burgers::Roe`
    unfoldable pub burgers_roe : R → R → R × R
    unfolding greater_speed fmin fmax
    burgers_roe left right = (
      if r.le (r.sub (num 0) right) left
          then eq.point_flux (fmax left (num 0))
          else eq.point_flux (fmin right (num 0)),
      greater_speed left right,
    )

    -- `cubic::Roe`
    unfoldable pub cubic_roe : R → R → R × R
    unfolding greater_speed
    cubic_roe left right =
        let speed =
          if not (r.beq left right)
          then r.div (r.sub (eq.point_flux left) (eq.point_flux right)) (r.sub left right)
          else r.mul left left in
        (
          if r.le (num 0) speed then eq.point_flux left else eq.point_flux right,
          greater_speed left right,
        )

  -- The fluxes of two cells, by name
  unfoldable pub named_flux : FluxName → ScalarEquation R → R → R → R × R
  unfolding central rusanov entropy_conservative upwind cubic_roe godunov
  named_flux central_flux eq = central eq
  named_flux rusanov_flux eq = rusanov eq
  named_flux entropy_conservative_flux eq = entropy_conservative eq
  named_flux upwind_flux eq = upwind eq
  named_flux cubic_roe_flux eq = cubic_roe eq
  named_flux godunov_flux eq = godunov eq

  -- The combinations of a flux between two cells, with the greatest of its wave speeds
  module _ (base : R → R → R × R) where
    unfoldable pub tecno4 : R → R → R → R → R × R
    unfolding fraction fmax
    tecno4 minus1 here plus1 plus2 =
        let (a, wa) = base here plus1 in
        let (b, wb) = base minus1 plus1 in
        let (c, wc) = base here plus2 in
        (
          r.sub (r.mul (fraction (pos 4) 3) a) (r.mul (fraction (pos 1) 6) (r.add b c)),
          fmax (fmax (fmax (num 0) wa) wb) wc,
        )

    unfoldable pub tecno6 : R → R → R → R → R → R → R × R
    unfolding fraction fmax
    tecno6 minus2 minus1 here plus1 plus2 plus3 =
        let (a, wa) = base here plus1 in
        let (b, wb) = base minus1 plus1 in
        let (c, wc) = base here plus2 in
        let (d, wd) = base minus2 plus1 in
        let (e, we) = base minus1 plus2 in
        let (f, wf) = base here plus3 in
        (
          r.add (r.sub (r.mul (fraction (pos 3) 2) a) (r.mul (fraction (pos 3) 10) (r.add b c)))
              (r.mul (fraction (pos 1) 30) (r.add (r.add d e) f)),
          fmax (fmax (fmax (fmax (fmax (fmax (num 0) wa) wb) wc) wd) we) wf,
        )
