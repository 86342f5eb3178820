-- ===== src/Mpi/Displacements.antt =====
-- The first displacement of a side and the step to the next one (displacements.hpp in
-- alsfvm/include/alsfvm/mpi/cartesian).
use native.Mathlib.Nat.{mul-le-mul, le_refl}
use alsvinn.Base.{
  ltb, ◌==◌, ℕ, zero, suc, ◌+◌, ◌-◌, ◌*◌, ◌≤◌, ◌≡◌, refl, ap, List, [], ◌∷◌, arith, true, false,
}
use alsvinn.Base.Int.{ℤ, pos, int_laws, ◌-ℤ◌, int_products}
use alsvinn.Vec.{Vec3, vec3}
use alsvinn.Mpi.Cartesian.{displacement_at, displacements_from}

-- `rounds` displacements from the `k`-th on, `stride` apart
unfoldable pub progression : ℕ → ℕ → ℕ → ℕ → List ℤ
progression stride first zero k = []
progression stride first (suc rounds) k =
    pos (k * stride + first) ∷ progression stride first rounds (suc k)

-- A loop whose body adds `stride` in every round but the first.
module _ (side dimensions : ℕ) (n : Vec3 ℤ) (ghosts base : ℤ) (stride first : ℕ)
    (start : (p : ℤ) → displacement_at side dimensions n ghosts base 0 p ≡ pos first)
    (step : (k : ℕ)
      → displacement_at side dimensions n ghosts base (suc k) (pos (k * stride + first))
        ≡ pos (suc k * stride + first)) where
  pub later-progression :
      (rounds k : ℕ)
      → displacements_from side dimensions n ghosts base rounds (suc k) (pos (k * stride + first))
        ≡ progression stride first rounds (suc k)
  unfolding displacements_from progression
  later-progression zero k = refl
  later-progression (suc rounds) k =
      rw (step k) (ap (◌∷◌ (pos (suc k * stride + first))) (later-progression rounds (suc k)))

  pub displacements-progression :
      (rounds : ℕ)
      → displacements_from side dimensions n ghosts base rounds 0 (pos 0)
        ≡ progression stride first rounds 0
  unfolding displacements_from progression
  displacements-progression zero = refl
  displacements-progression (suc rounds) =
      let e : pos first ≡ pos (0 * stride + first) = ap pos (omega arith) in
      rw (start (pos 0), e) (ap (◌∷◌ (pos (0 * stride + first))) (later-progression rounds 0))

pub sub-mul : (n g b c : ℕ) → g + b ≤ n → (n - g - b) * c + g * c + b * c ≡ n * c
sub-mul n g b c h =
    let e : n ≡ (n - g - b) + g + b = omega arith in omega (arith, ap (λ (t : ℕ). t * c) e)

pub later_round : (k : ℕ) → ltb 0 (suc k) ≡ true
later_round k = ground arith

pub not_first : (k : ℕ) → (suc k == 0) ≡ false
not_first k = ground arith

ruleset later = (later_round, not_first)

-- The first displacement of a side and the step to the next one, for a volume of `nx * ny * nz` cells.
module _ (nx ny nz g b : ℕ) where
  abbrev pub size : Vec3 ℤ
  size = vec3 (pos nx) (pos ny) (pos nz)

  abbrev pub minus : ℤ
  minus = pos 0 -ℤ pos b

  pub start-x_low3 : (p : ℤ) → displacement_at 0 3 size (pos g) (pos b) 0 p ≡ pos (b)
  unfolding displacement_at
  start-x_low3 p = omega int_laws

  pub start-x_high3 :
      g + b ≤ nx → (p : ℤ) → displacement_at 1 3 size (pos g) minus 0 p ≡ pos (nx - g - b)
  unfolding displacement_at
  start-x_high3 h p = omega int_laws

  pub step-x_low3 :
      (k first : ℕ)
      → displacement_at 0 3 size (pos g) (pos b) (suc k) (pos (k * (nx) + first))
        ≡ pos (suc k * (nx) + first)
  unfolding displacement_at
  step-x_low3 k first = simp later (omega int_laws)

  pub step-x_high3 :
      (k first : ℕ)
      → displacement_at 1 3 size (pos g) minus (suc k) (pos (k * (nx) + first))
        ≡ pos (suc k * (nx) + first)
  unfolding displacement_at
  step-x_high3 k first = simp later (omega int_laws)

  pub start-y_low3 : (p : ℤ) → displacement_at 2 3 size (pos g) (pos b) 0 p ≡ pos (b * nx)
  unfolding displacement_at
  start-y_low3 p = simp int_products (omega int_laws)

  pub start-y_high3 :
      g + b ≤ ny → (p : ℤ) → displacement_at 3 3 size (pos g) minus 0 p ≡ pos ((ny - g - b) * nx)
  unfolding displacement_at
  start-y_high3 h p =
      simp int_products (omega (int_laws, mul-le-mul h (le_refl nx), sub-mul ny g b nx h))

  pub step-y_low3 :
      (k first : ℕ)
      → displacement_at 2 3 size (pos g) (pos b) (suc k) (pos (k * (nx * ny) + first))
        ≡ pos (suc k * (nx * ny) + first)
  unfolding displacement_at
  step-y_low3 k first = simp (later, int_products) (omega int_laws)

  pub step-y_high3 :
      (k first : ℕ)
      → displacement_at 3 3 size (pos g) minus (suc k) (pos (k * (nx * ny) + first))
        ≡ pos (suc k * (nx * ny) + first)
  unfolding displacement_at
  step-y_high3 k first = simp (later, int_products) (omega int_laws)

  pub start-z_low : (p : ℤ) → displacement_at 4 3 size (pos g) (pos b) 0 p ≡ pos (b * (nx * ny))
  unfolding displacement_at
  start-z_low p = simp int_products (omega int_laws)

  pub start-z_high :
      g + b ≤ nz
      → (p : ℤ) → displacement_at 5 3 size (pos g) minus 0 p ≡ pos ((nz - g - b) * (nx * ny))
  unfolding displacement_at
  start-z_high h p =
      simp int_products
        (omega (int_laws, mul-le-mul h (le_refl (nx * ny)), sub-mul nz g b (nx * ny) h))
