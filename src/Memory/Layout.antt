-- ===== src/Memory/Layout.antt =====
-- The row-major layout z * nx * ny + y * nx + x (alsfvm/include/alsfvm/memory/View.hpp).
use native.Mathlib.Decide.{dec_le}
use native.Mathlib.Nat.{mul-le-mul, le_refl}
use alsvinn.Base.{ℕ, suc, ◌+◌, ◌*◌, ◌≤◌, ◌<◌, ◌≡◌, ap, arith}

abbrev pub place : ℕ → ℕ → ℕ → ℕ → ℕ → ℕ
place nx ny x y z = z * nx * ny + y * nx + x

pub row-lt : (a b n m : ℕ) → a < n → b < m → b * n + a < m * n
row-lt a b n m ha hb = grind arith

row-le : (n a b a' b' : ℕ) → a < n → b * n + a ≡ b' * n + a' → b' ≤ b
row-le n a b a' b' h e = elim (dec_le b' b) [
  | yes le ↦ le
  | no gt ↦ let up : suc b ≤ b' = omega arith in absurd (omega (arith, mul-le-mul up (le_refl n)))
]

pub row-injective :
    (n a b a' b' : ℕ) → a < n → a' < n → b * n + a ≡ b' * n + a' → (a ≡ a') × (b ≡ b')
row-injective n a b a' b' h h' e =
    let below = row-le n a b a' b' h e in
    let above = row-le n a' b' a b h' (omega arith) in
    let same : b ≡ b' = omega arith in (omega (arith, ap (λ (t : ℕ). t * n) same), same)

place-rows : (nx ny x y z : ℕ) → place nx ny x y z ≡ (z * ny + y) * nx + x
place-rows nx ny x y z = omega arith

-- A cell of the block has a place below the size of the block.
pub place-lt : (nx ny nz x y z : ℕ) → x < nx → y < ny → z < nz → place nx ny x y z < nx * ny * nz
place-lt nx ny nz x y z hx hy hz =
    omega (arith, row-lt x (z * ny + y) nx (nz * ny) hx (row-lt y z ny nz hy hz))

-- Two cells of the block with one place are one cell.
pub place-injective :
    (nx ny x y z x' y' z' : ℕ)
    → x < nx
    → x' < nx
    → y < ny
    → y' < ny
    → place nx ny x y z ≡ place nx ny x' y' z'
    → (x ≡ x') × (y ≡ y') × (z ≡ z')
place-injective nx ny x y z x' y' z' hx hx' hy hy' e =
    let outer = row-injective nx x (z * ny + y) x' (z' * ny + y') hx hx' (omega arith) in
    let inner = row-injective ny y z y' z' hy hy' outer.1 in (outer.0, inner.0, inner.1)
