-- ===== src/Base/Real.antt =====
-- What the code does with a `real` (`float` or `double`). The arithmetic is the hardware's, so the
-- type and its operations are a parameter.
use Prim.Native.Nat.{ℕ, zero, suc}
use mathlib.Core.Path.{◌≡◌}
use mathlib.Core.Logic.{◌⊎◌}
use mathlib.Core.Bool.{Bool, true, not}
use native.Mathlib.Omega.{arith}
use alsvinn.Base.Tests.{if◌then◌else◌}
use alsvinn.Base.Int.{ℤ, pos, pos_part, ◌+ℤ◌, ◌-ℤ◌, ◌*ℤ◌, ◌/ℤ◌, ltb_ℤ, leb_ℤ, eqb_ℤ}

pub record Real (R : Type 0) : Type 0 where
  pub of_int : ℤ → R
  pub add : R → R → R
  pub sub : R → R → R
  pub mul : R → R → R
  pub div : R → R → R
  pub pow : R → R → R
  pub abs : R → R
  pub lt : R → R → Bool
  pub le : R → R → Bool
  pub beq : R → R → Bool

module _ {R : Type 0} ⦃r : Real R⦄ where
  -- `std::min` and `std::max`
  unfoldable pub fmin : R → R → R
  fmin a b = if r.lt b a then b else a

  unfoldable pub fmax : R → R → R
  fmax a b = if r.lt a b then b else a

  abbrev pub num : ℕ → R
  num n = r.of_int (pos n)

  infix 4 ◌≼◌
  abbrev pub ◌≼◌ : R → R → Type 0
  x ≼ y = r.le x y ≡ true

-- The order of IEEE 754. NaN is the value that is not `<=` itself, and the order is total only away
-- from it.
pub record IsOrdered (R : Type 0) ⦃r : Real R⦄ : Type 0 where
  pub refl_of_le : (x y : R) → x ≼ y → (x ≼ x) × (y ≼ y)
  pub le_trans : (x y z : R) → x ≼ y → y ≼ z → x ≼ z
  pub lt-eq-not-le : (x y : R) → x ≼ x → y ≼ y → r.lt x y ≡ not (r.le y x)
  pub le_total : (x y : R) → x ≼ x → y ≼ y → (x ≼ y) ⊎ (y ≼ x)
  pub lt-num : (x y : R) → r.lt x y ≡ true → (x ≼ x) × (y ≼ y)

module _ {R : Type 0} ⦃r : Real R⦄ (laws : IsOrdered R) where
  open laws use {refl_of_le, le_trans, lt-eq-not-le, le_total}

  -- A minimum is below both of its arguments, where neither is NaN.
  pub fmin_le : (a b : R) → a ≼ a → b ≼ b → (fmin a b ≼ a) × (fmin a b ≼ b)
  unfolding fmin
  fmin_le a b ha hb = ground (arith, lt-eq-not-le b a hb ha, le_total a b ha hb)

  -- A maximum is above both of its arguments, where neither is NaN, and is not NaN then.
  pub le_fmax : (a b : R) → a ≼ a → b ≼ b → (a ≼ fmax a b) × (b ≼ fmax a b)
  unfolding fmax
  le_fmax a b ha hb = ground (arith, lt-eq-not-le a b ha hb, le_total a b ha hb)

  pub fmax-num : (a b : R) → a ≼ a → b ≼ b → fmax a b ≼ fmax a b
  unfolding fmax
  fmax-num a b ha hb = ground arith

-- The laws can be met: the integers, with the division of C++.
abbrev pub int_pow : ℤ → ℕ → ℤ
int_pow a zero = pos 1
int_pow a (suc n) = a *ℤ int_pow a n

instance abbrev pub int_real : Real ℤ
int_real = record {
  of_int = λ z. z;
  add = ◌+ℤ◌;
  sub = ◌-ℤ◌;
  mul = ◌*ℤ◌;
  div = ◌/ℤ◌;
  pow = λ a b. int_pow a (pos_part b);
  abs = λ a. if ltb_ℤ a (pos 0) then pos 0 -ℤ a else a;
  lt = ltb_ℤ;
  le = leb_ℤ;
  beq = eqb_ℤ;
}

pub ℤ-IsOrdered : IsOrdered ℤ
ℤ-IsOrdered = record {
  refl_of_le = λ x y h. ground arith;
  le_trans = λ x y z h k. ground arith;
  lt-eq-not-le = λ x y h k. ground arith;
  le_total = λ x y h k. ground arith;
  lt-num = λ x y h. ground arith;
}
