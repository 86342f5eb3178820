-- ===== src/Reconstruction/Coefficients/Exact.antt =====
-- The coefficients of alsfvm/src/reconstruction/ENOCoefficients.cpp against the averages of polynomials.
use alsvinn.Base.{
  ℕ, zero, suc, ◌/◌, ◌≤◌, ◌<◌, ◌≡◌, ◌⊎◌, inl, inr, refl, List, [], ◌∷◌, Bool, true, false, ◌&&◌,
  ◌==◌, if◌then◌else◌, arith,
}
use alsvinn.Base.Int.{ℤ, pos, ◌+ℤ◌, ◌-ℤ◌, ◌*ℤ◌, eqb_ℤ, eq_of_parts}
use alsvinn.Reconstruction.Coefficients.{Fraction, eno_row}

abbrev power : ℤ → ℕ → ℤ
power a zero = pos 1
power a (suc n) = a *ℤ power a n

-- `m + 1` times the average of x ^ m over the cell from `a` to `a + 1`
unfoldable pub cell_average : ℕ → ℤ → ℤ
unfolding ◌+ℤ◌ ◌-ℤ◌ ◌*ℤ◌
cell_average m a = power (a +ℤ pos 1) (suc m) -ℤ power a (suc m)

-- 12 times the sum of the coefficients times these averages, for cells from `a` on
unfoldable pub sum_averages : ℕ → ℤ → List Fraction → ℤ
unfolding cell_average
sum_averages m a [] = pos 0
sum_averages m a ((n, d) ∷ row) =
    n *ℤ pos (12 / d) *ℤ cell_average m a +ℤ sum_averages m (a +ℤ pos 1) row

abbrev all_below : ℕ → (ℕ → Bool) → Bool
all_below zero p = true
all_below (suc n) p = p n && all_below n p

all_below-at : (n : ℕ) (p : ℕ → Bool) → all_below n p ≡ true → (i : ℕ) → i < n → p i ≡ true
all_below-at zero p all i h = absurd (omega arith)
all_below-at (suc n) p all i h =
    let (here, rest) = split (p n) all in
    elim (last i n h) [ inl e ↦ rw e here | inr below ↦ all_below-at n p rest i below ]
  where
    split : (b : Bool) → (b && all_below n p) ≡ true → (b ≡ true) × (all_below n p ≡ true)
    split true e = (refl, e)
    split false e = cc

    last : (i n : ℕ) → i < suc n → (i ≡ n) ⊎ (i < n)
    last i n h = ground arith

-- What the value at the edge 0 makes of the sum: x ^ m is 1 there for m = 0, and 0 otherwise.
abbrev pub edge_value : ℕ → ℤ
edge_value m = if m == 0 then pos 12 else pos 0

abbrev is_exact : ℕ → ℕ → ℕ → Bool
is_exact k s m = eqb_ℤ (sum_averages m (pos 0 -ℤ pos s) (eno_row (suc k) s)) (edge_value m)

abbrev row_is_exact : ℕ → ℕ → Bool
row_is_exact k s = all_below (suc k) (is_exact k s)

abbrev order_is_exact : ℕ → Bool
order_is_exact k = all_below (suc (suc k)) (row_is_exact k)

all_exact : all_below 4 order_is_exact ≡ true
unfolding sum_averages eno_row ◌+ℤ◌ ◌-ℤ◌ ◌*ℤ◌
all_exact = refl

equal_of_test : (a b : ℤ) → eqb_ℤ a b ≡ true → a ≡ b
equal_of_test a b e = eq_of_parts a b (ground arith)

-- Row `s` of the coefficients of an order takes the averages, over the cells from `s` cells before an edge
-- on, of a polynomial of a degree below the order to its value at the edge (stated for x ^ m, the
-- edge at 0 and cells of length 1, with both sides multiplied by 12 * (m + 1)).
pub eno_row-exact :
    (order s m : ℕ)
    → 1 ≤ order
    → order ≤ 4
    → s ≤ order
    → m < order
    → sum_averages m (pos 0 -ℤ pos s) (eno_row order s) ≡ edge_value m
eno_row-exact zero s m h1 h4 hs hm = absurd (omega arith)
eno_row-exact (suc k) s m h1 h4 hs hm = equal_of_test _ _ (
    all_below-at (suc k) (is_exact k s)
      (all_below-at (suc (suc k)) (row_is_exact k)
        (all_below-at 4 order_is_exact all_exact k (omega arith)) s (omega arith))
      m hm)
