-- ===== src/Mpi/Exchange/Layers.antt =====
-- The cells that a datatype of alsfvm/src/mpi/CartesianCellExchanger.cpp covers, in three dimensions.
use native.Mathlib.Nat.{mul-le-mul, le_refl}
use alsvinn.Base.{
  ℕ, zero, suc, ◌+◌, ◌-◌, ◌*◌, ◌/◌, ◌%◌, ◌≤◌, ◌<◌, ◌≡◌, ap, arith, subst, List, [], ◌∷◌, ◌⊎◌, inl,
  inr, replicate, ◌==◌, if◌then◌else◌,
}
use alsvinn.Base.Int.{ℤ, pos, ◌+ℤ◌, ◌≤ℤ◌, ◌<ℤ◌, int_laws}
use alsvinn.Memory.Layout.{place, row-injective, row-lt}
use alsvinn.Vec.{Vec3, vec3, comp}
use alsvinn.Mpi.Cartesian.{compute_displacements, compute_lengths}
use alsvinn.Mpi.Displacements.{progression, size}
use alsvinn.Mpi.Segments.{
  IsLayer, layer-x_low, layer-x_high, layer-y_low, layer-y_high, layer-z_low, layer-z_high,
}

-- A place is in one of the blocks, which have their offsets in one list and their lengths in the other.
abbrev pub IsCovered : List ℤ → List ℤ → ℕ → Type 0
IsCovered [] lengths p = ⊥
IsCovered (o ∷ offsets) [] p = ⊥
IsCovered (o ∷ offsets) (l ∷ lengths) p =
    ((o ≤ℤ pos p) × (pos p <ℤ (o +ℤ l))) ⊎ IsCovered offsets lengths p

-- Segments of `len` cells, `stride` apart
IsInSegment : ℕ → ℕ → ℕ → ℕ → ℕ → ℕ → Type 0
IsInSegment stride first len from to p =
    (j : ℕ) × (from ≤ j) × (j < to) × (j * stride + first ≤ p) × (p < j * stride + first + len)

module _ (stride first len p : ℕ) where
  to_segment :
      (rounds k : ℕ)
      → IsCovered (progression stride first rounds k) (replicate rounds (pos len)) p
      → IsInSegment stride first len k (k + rounds) p
  unfolding progression IsInSegment
  to_segment zero k h = absurd h
  to_segment (suc rounds) k (inl (lo, hi)) =
      (k, omega arith, omega arith, omega int_laws, omega int_laws)
  to_segment (suc rounds) k (inr h) =
      let (j, from, to, lo, hi) = to_segment rounds (suc k) h in
      (j, omega arith, omega arith, lo, hi)

  from_segment :
      (rounds k : ℕ)
      → IsInSegment stride first len k (k + rounds) p
      → IsCovered (progression stride first rounds k) (replicate rounds (pos len)) p
  unfolding progression IsInSegment
  from_segment zero k (j, from, to, lo, hi) = absurd (omega arith)
  from_segment (suc rounds) k (j, from, to, lo, hi) = elim (eq_or_above k j from) [
    | inl e ↦ inl (omega (int_laws, at e), omega (int_laws, at e))
    | inr above ↦ inr (from_segment rounds (suc k) (j, above, omega arith, lo, hi))
  ]
    where
      at : k ≡ j → k * stride ≡ j * stride
      at e = ap (λ (t : ℕ). t * stride) e

      eq_or_above : (a b : ℕ) → a ≤ b → (a ≡ b) ⊎ (suc a ≤ b)
      eq_or_above a b h = ground arith

-- Whole rows of n cells
row_above : (n lo a r : ℕ) → r < n → lo * n ≤ a * n + r → lo ≤ a
row_above n lo a r h k = grind arith

row_below : (n m a r : ℕ) → a * n + r < m * n → a < m
row_below n m a r k = grind arith

row_mono : (n lo a r : ℕ) → lo ≤ a → lo * n ≤ a * n + r
row_mono n lo a r h = grind arith

row_in : (n m a r : ℕ) → r < n → a < m → a * n + r < m * n
row_in n m a r h k = grind arith

sum_rows : (n lo g : ℕ) → (lo + g) * n ≡ lo * n + g * n
sum_rows n lo g = omega arith

-- The three kinds of layers: which cells of a block the segments hold.
module _ (nx ny nz x y z lo g : ℕ) (hx : x < nx) (hy : y < ny) (hz : z < nz) where
  abbrev p : ℕ
  p = place nx ny x y z

  layer_x :
      lo + g ≤ nx
      → (IsInSegment nx lo g 0 (ny * nz) p → (lo ≤ x) × (x < lo + g))
        × ((lo ≤ x) × (x < lo + g) → IsInSegment nx lo g 0 (ny * nz) p)
  unfolding IsInSegment
  layer_x fits = (
    λ (j, from, to, low, high).
        let same =
          (row-injective nx x (z * ny + y) (p - j * nx) j hx (omega arith) (omega arith)).0 in
        (omega arith, omega arith),
    λ (low, high).
        (z * ny + y, omega arith, omega (arith, row-lt y z ny nz hy hz), omega arith, omega arith),
  )

  layer_y :
      lo + g ≤ ny
      → (IsInSegment (nx * ny) (lo * nx) (g * nx) 0 nz p → (lo ≤ y) × (y < lo + g))
        × ((lo ≤ y) × (y < lo + g) → IsInSegment (nx * ny) (lo * nx) (g * nx) 0 nz p)
  unfolding IsInSegment
  layer_y fits = (
    λ (j, from, to, low, high).
        let top : lo * nx + g * nx ≤ nx * ny =
          omega (arith, mul-le-mul fits (le_refl nx), sum_rows nx lo g) in
        let same =
          (row-injective (nx * ny) (y * nx + x) z (p - j * (nx * ny)) j
            (omega (arith, row-lt x y nx ny hx hy)) (omega arith) (omega arith)).0 in
        (
          row_above nx lo y x hx (omega (arith, same)),
          row_below nx (lo + g) y x (omega (arith, same, sum_rows nx lo g)),
        ),
    λ (low, high). (
      z,
      omega arith,
      hz,
      omega (arith, row_mono nx lo y x low),
      omega (arith, row_in nx (lo + g) y x hx high, sum_rows nx lo g),
    ),
  )

  layer_z :
      (IsInSegment 0 (lo * (nx * ny)) (g * nx * ny) 0 1 p → (lo ≤ z) × (z < lo + g))
      × ((lo ≤ z) × (z < lo + g) → IsInSegment 0 (lo * (nx * ny)) (g * nx * ny) 0 1 p)
  unfolding IsInSegment
  layer_z =
      let small : y * nx + x < nx * ny = omega (arith, row-lt x y nx ny hx hy) in
      (
        λ (j, from, to, low, high). (
          row_above (nx * ny) lo z (y * nx + x) small (omega arith),
          row_below (nx * ny) (lo + g) z (y * nx + x) (omega (arith, sum_rows (nx * ny) lo g)),
        ),
        λ (low, high). (
          0,
          omega arith,
          omega arith,
          omega (arith, row_mono (nx * ny) lo z (y * nx + x) low),
          omega
              (arith, row_in (nx * ny) (lo + g) z (y * nx + x) small high, sum_rows (nx * ny) lo g),
        ),
      )

-- The blocks hold the cells whose coordinate along an axis is one of the g from `lo` on, and no others.
abbrev pub IsBand : Vec3 ℕ → List ℤ → List ℤ → ℕ → ℕ → ℕ → Type 0
IsBand n offsets lengths axis lo g =
    (c : Vec3 ℕ)
    → c.x < n.x
    → c.y < n.y
    → c.z < n.z
    → (IsCovered offsets lengths (place n.x n.y c.x c.y c.z)
        → (lo ≤ comp c axis) × (comp c axis < lo + g))
      × ((lo ≤ comp c axis) × (comp c axis < lo + g)
          → IsCovered offsets lengths (place n.x n.y c.x c.y c.z))

-- The first layer of a side, for g layers that lie b layers inside the block
abbrev pub first_layer : ℕ → ℕ → ℕ → ℕ → ℕ
first_layer side extent g b = if side % 2 == 0 then b else extent - g - b

module _ (nx ny nz g b : ℕ) where
  to_band :
      (side stride first rounds len axis lo : ℕ)
      → IsLayer nx ny nz g b side stride first rounds len
      → ((c : Vec3 ℕ)
          → c.x < nx
          → c.y < ny
          → c.z < nz
          → (IsInSegment stride first len 0 rounds (place nx ny c.x c.y c.z)
              → (lo ≤ comp c axis) × (comp c axis < lo + g))
            × ((lo ≤ comp c axis) × (comp c axis < lo + g)
                → IsInSegment stride first len 0 rounds (place nx ny c.x c.y c.z)))
      → IsBand
          (vec3 nx ny nz)
          (compute_displacements side 3 (size nx ny nz g b) (pos g) (pos b))
          (compute_lengths side 3 (size nx ny nz g b) (pos g))
          axis
          lo
          g
  unfolding IsLayer
  to_band side stride first rounds len axis lo (at, long) both c hx hy hz =
      let (into, back) = both c hx hy hz in
      rw (at, long)
        (
          (λ h. into (
              subst (λ t. IsInSegment stride first len 0 t (place nx ny c.x c.y c.z)) (omega arith)
                (to_segment stride first len (place nx ny c.x c.y c.z) rounds 0 h))),
          (λ h. from_segment stride first len (place nx ny c.x c.y c.z) rounds 0 (
              subst (λ t. IsInSegment stride first len 0 t (place nx ny c.x c.y c.z)) (omega arith)
                (back h))),
        )

  -- The datatype of each side of a block of nx * ny * nz cells
  pub side-IsBand :
      (side : ℕ)
      → side < 6
      → g + b ≤ comp (vec3 nx ny nz) (side / 2)
      → IsBand
          (vec3 nx ny nz)
          (compute_displacements side 3 (size nx ny nz g b) (pos g) (pos b))
          (compute_lengths side 3 (size nx ny nz g b) (pos g))
          (side / 2)
          (first_layer side (comp (vec3 nx ny nz) (side / 2)) g b)
          g
  side-IsBand zero h fits =
      to_band 0 _ _ _ _ 0 b (layer-x_low nx ny nz g b)
        (λ c hx hy hz. layer_x nx ny nz c.x c.y c.z b g hx hy hz (omega arith))
  side-IsBand (suc zero) h fits =
      to_band 1 _ _ _ _ 0 (nx - g - b) (layer-x_high nx ny nz g b fits)
        (λ c hx hy hz. layer_x nx ny nz c.x c.y c.z (nx - g - b) g hx hy hz (omega arith))
  side-IsBand (suc (suc zero)) h fits =
      to_band 2 _ _ _ _ 1 b (layer-y_low nx ny nz g b)
        (λ c hx hy hz. layer_y nx ny nz c.x c.y c.z b g hx hy hz (omega arith))
  side-IsBand (suc (suc (suc zero))) h fits =
      to_band 3 _ _ _ _ 1 (ny - g - b) (layer-y_high nx ny nz g b fits)
        (λ c hx hy hz. layer_y nx ny nz c.x c.y c.z (ny - g - b) g hx hy hz (omega arith))
  side-IsBand (suc (suc (suc (suc zero)))) h fits =
      to_band 4 _ _ _ _ 2 b (layer-z_low nx ny nz g b)
        (λ c hx hy hz. layer_z nx ny nz c.x c.y c.z b g hx hy hz)
  side-IsBand (suc (suc (suc (suc (suc zero))))) h fits =
      to_band 5 _ _ _ _ 2 (nz - g - b) (layer-z_high nx ny nz g b fits)
        (λ c hx hy hz. layer_z nx ny nz c.x c.y c.z (nz - g - b) g hx hy hz)
  side-IsBand (suc (suc (suc (suc (suc (suc side)))))) h fits = absurd (omega arith)
