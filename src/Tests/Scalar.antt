-- ===== src/Tests/Scalar.antt =====
-- The scalar fluxes over fixed-point numbers: the integer n stands for n / 2, and products and quotients
-- are cut to a multiple of a half.
use alsvinn.Base.{if◌then◌else◌}
use alsvinn.Base.Int.{ℤ, pos, ◌+ℤ◌, ◌-ℤ◌, ◌*ℤ◌, ◌/ℤ◌, ltb_ℤ, leb_ℤ, eqb_ℤ}
use alsvinn.Base.Real.{Real}

instance abbrev fixed_point : Real ℤ
fixed_point = record {
  of_int = λ n. pos 2 *ℤ n;
  add = ◌+ℤ◌;
  sub = ◌-ℤ◌;
  mul = λ a b. a *ℤ b /ℤ pos 2;
  div = λ a b. pos 2 *ℤ a /ℤ b;
  pow = λ a b. a;
  abs = λ a. if ltb_ℤ a (pos 0) then pos 0 -ℤ a else a;
  lt = ltb_ℤ;
  le = leb_ℤ;
  beq = eqb_ℤ;
}
