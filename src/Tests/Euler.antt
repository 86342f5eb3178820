-- ===== src/Tests/Euler.antt =====
-- The Euler equations over the numbers modulo 3, where a half is 2.
use alsvinn.Base.{ℕ, zero, suc, ◌≡◌, ◌≢◌, refl, ap, ◌∙◌, Bool, true, false}
use alsvinn.Base.Int.{ℤ, pos, negsuc}
use alsvinn.Base.Real.{Real, fmin, fmax}
use alsvinn.Vec.{vec3}
use alsvinn.Numflux.Euler.{
  AllVariables, ConservedVariables, PrimitiveVariables, compute_conserved,
  compute_primitive_variables, make_all_variables, point_flux,
}
use alsvinn.Numflux.Euler.Hll.{compute_hll_speeds, compute_hll_flux}
use alsvinn.Numflux.Euler.Hll.Consistency.{HasDifferences, compute_hll_flux_self}
use alsvinn.Numflux.Euler.RoundTrip.{IsField, primitive-conserved}

data Three : Type 0 where
  nought one two : Three

abbrev next : Three → Three
next nought = one
next one = two
next two = nought

abbrev of_nat : ℕ → Three
of_nat zero = nought
of_nat (suc n) = next (of_nat n)

abbrev plus : Three → Three → Three
plus nought b = b
plus one b = next b
plus two b = next (next b)

abbrev opposite : Three → Three
opposite nought = nought
opposite one = two
opposite two = one

abbrev times : Three → Three → Three
times nought b = nought
times one b = b
times two b = opposite b

abbrev same : Three → Three → Bool
same nought nought = true
same one one = true
same two two = true
same _ _ = false

abbrev of_integer : ℤ → Three
of_integer (pos n) = of_nat n
of_integer (negsuc n) = opposite (next (of_nat n))

-- No number is below another, and the inverse of 1 or 2 is itself.
instance abbrev mod_three : Real Three
mod_three = record {
  of_int = of_integer;
  add = plus;
  sub = λ a b. plus a (opposite b);
  mul = times;
  div = times;
  pow = times;
  abs = λ a. a;
  lt = λ a b. false;
  le = same;
  beq = same;
}

add_sub : (x y : Three) → plus (plus x y) (opposite y) ≡ x
add_sub nought nought = refl
add_sub nought one = refl
add_sub nought two = refl
add_sub one nought = refl
add_sub one one = refl
add_sub one two = refl
add_sub two nought = refl
add_sub two one = refl
add_sub two two = refl

sub_add : (x y : Three) → plus (plus x (opposite y)) y ≡ x
sub_add nought nought = refl
sub_add nought one = refl
sub_add nought two = refl
sub_add one nought = refl
sub_add one one = refl
sub_add one two = refl
sub_add two nought = refl
sub_add two one = refl
sub_add two two = refl

mul_comm : (x y : Three) → times x y ≡ times y x
mul_comm nought nought = refl
mul_comm nought one = refl
mul_comm nought two = refl
mul_comm one nought = refl
mul_comm one one = refl
mul_comm one two = refl
mul_comm two nought = refl
mul_comm two one = refl
mul_comm two two = refl

mul_assoc : (x y z : Three) → times (times x y) z ≡ times x (times y z)
mul_assoc nought y z = refl
mul_assoc one y z = refl
mul_assoc two nought z = refl
mul_assoc two one z = refl
mul_assoc two two nought = refl
mul_assoc two two one = refl
mul_assoc two two two = refl

distrib : (x y z : Three) → times (plus x y) z ≡ plus (times x z) (times y z)
distrib nought nought nought = refl
distrib nought nought one = refl
distrib nought nought two = refl
distrib nought one nought = refl
distrib nought one one = refl
distrib nought one two = refl
distrib nought two nought = refl
distrib nought two one = refl
distrib nought two two = refl
distrib one nought nought = refl
distrib one nought one = refl
distrib one nought two = refl
distrib one one nought = refl
distrib one one one = refl
distrib one one two = refl
distrib one two nought = refl
distrib one two one = refl
distrib one two two = refl
distrib two nought nought = refl
distrib two nought one = refl
distrib two nought two = refl
distrib two one nought = refl
distrib two one one = refl
distrib two one two = refl
distrib two two nought = refl
distrib two two one = refl
distrib two two two = refl

mul_div : (x y : Three) → y ≢ nought → times (times x y) y ≡ x
mul_div nought nought h = absurd (h refl)
mul_div one nought h = absurd (h refl)
mul_div two nought h = absurd (h refl)
mul_div nought one h = refl
mul_div nought two h = refl
mul_div one one h = refl
mul_div one two h = refl
mul_div two one h = refl
mul_div two two h = refl

mod_three-IsField : IsField Three
mod_three-IsField = record {
  add_sub = add_sub;
  sub_add = sub_add;
  mul_comm = mul_comm;
  mul_assoc = mul_assoc;
  distrib = distrib;
  mul_div = mul_div;
  div_mul = mul_div;
}

one_apart : one ≢ nought
one_apart e = cc

primitive-conserved_example :
    ((v : PrimitiveVariables Three)
      → v.rho ≢ nought
      → compute_primitive_variables two (compute_conserved two v) ≡ v)
    × ((c : ConservedVariables Three)
        → c.rho ≢ nought
        → compute_conserved two (compute_primitive_variables two c) ≡ c)
primitive-conserved_example = primitive-conserved mod_three-IsField two one_apart

-- The velocity (1, 2, 0), the density 2 and the pressure 1
conserved_ok :
    compute_conserved two (record { rho = two; u = vec3 one two nought; p = one })
    ≡ record { rho = two; m = vec3 two one nought; energy = nought }
unfolding compute_conserved
conserved_ok = refl

opposite-times : (y z : Three) → times (opposite y) z ≡ opposite (times y z)
opposite-times nought z = refl
opposite-times one z = refl
opposite-times two nought = refl
opposite-times two one = refl
opposite-times two two = refl

sub_self : (x : Three) → plus x (opposite x) ≡ nought
sub_self nought = refl
sub_self one = refl
sub_self two = refl

mul_zero : (x : Three) → times x nought ≡ nought
mul_zero nought = refl
mul_zero one = refl
mul_zero two = refl

add_zero : (x : Three) → plus x nought ≡ x
add_zero nought = refl
add_zero one = refl
add_zero two = refl

mod_three-HasDifferences : HasDifferences Three
mod_three-HasDifferences = record {
  sub_self = sub_self;
  mul_zero = mul_zero;
  add_zero = add_zero;
  sub_mul = λ x y z. distrib x (opposite y) z ∙ ap (plus (times x z)) (opposite-times y z);
}

-- A gas at rest, and one that moves at the speed of sound, with the identity for the square root
abbrev resting : AllVariables Three
unfolding make_all_variables
resting = make_all_variables two one (vec3 nought nought nought) one

abbrev sonic : AllVariables Three
unfolding make_all_variables
sonic = make_all_variables two one (vec3 two nought nought) nought

compute_hll_flux_self_example :
    (compute_hll_flux (λ x. x) two 0 resting resting).0 ≡ point_flux two 0 resting
unfolding compute_hll_speeds make_all_variables fmax fmin
compute_hll_flux_self_example =
    compute_hll_flux_self mod_three-IsField mod_three-HasDifferences (λ x. x) two 0 resting
      one_apart

-- The flux of mass at the speed of sound is not 0, but that of HLL is.
sonic_mass : (point_flux two 0 sonic).rho ≡ two
unfolding point_flux make_all_variables
sonic_mass = refl

sonic_hll_mass : (compute_hll_flux (λ x. x) two 0 sonic sonic).0.rho ≡ nought
unfolding compute_hll_flux make_all_variables fmin
sonic_hll_mass = refl
