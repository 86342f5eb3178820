-- ===== src/Reconstruction/Coefficients.antt =====
-- alsfvm/src/reconstruction/ENOCoefficients.cpp: the coefficients that take the averages of `order` cells to
-- the value at an edge, and the sums over a stencil that ENOCPU.cpp and WENOCPU.cpp form with them.
pub mod Exact
use alsvinn.Base.{ℕ, zero, suc, ◌-◌, List, [], ◌∷◌, map, get_or, take, drop}
use alsvinn.Base.Int.{ℤ, pos, negsuc}
use alsvinn.Base.Real.{Real, num}

-- A quotient of two numerals
abbrev pub Fraction : Type 0
Fraction = ℤ × ℕ

rows_of_1 : List (List Fraction)
rows_of_1 = ((pos 1, 1) ∷ []) ∷ ((pos 1, 1) ∷ []) ∷ []

rows_of_2 : List (List Fraction)
rows_of_2 =
    ((pos 3, 2) ∷ (negsuc 0, 2) ∷ [])
    ∷ ((pos 1, 2) ∷ (pos 1, 2) ∷ [])
    ∷ ((negsuc 0, 2) ∷ (pos 3, 2) ∷ [])
    ∷ []

rows_of_3 : List (List Fraction)
rows_of_3 =
    ((pos 11, 6) ∷ (negsuc 6, 6) ∷ (pos 1, 3) ∷ [])
    ∷ ((pos 1, 3) ∷ (pos 5, 6) ∷ (negsuc 0, 6) ∷ [])
    ∷ ((negsuc 0, 6) ∷ (pos 5, 6) ∷ (pos 1, 3) ∷ [])
    ∷ ((pos 1, 3) ∷ (negsuc 6, 6) ∷ (pos 11, 6) ∷ [])
    ∷ []

rows_of_4 : List (List Fraction)
rows_of_4 =
    ((pos 25, 12) ∷ (negsuc 22, 12) ∷ (pos 13, 12) ∷ (negsuc 0, 4) ∷ [])
    ∷ ((pos 1, 4) ∷ (pos 13, 12) ∷ (negsuc 4, 12) ∷ (pos 1, 12) ∷ [])
    ∷ ((negsuc 0, 12) ∷ (pos 7, 12) ∷ (pos 7, 12) ∷ (negsuc 0, 12) ∷ [])
    ∷ ((pos 1, 12) ∷ (negsuc 4, 12) ∷ (pos 13, 12) ∷ (pos 1, 4) ∷ [])
    ∷ ((negsuc 0, 4) ∷ (pos 13, 12) ∷ (negsuc 22, 12) ∷ (pos 25, 12) ∷ [])
    ∷ []

-- `ENOCoeffiecients<order>::coefficients`, for the orders 1 to 4
unfoldable pub eno_coefficients : ℕ → List (List Fraction)
unfolding rows_of_1 rows_of_2 rows_of_3 rows_of_4
eno_coefficients order = get_or ([] ∷ rows_of_1 ∷ rows_of_2 ∷ rows_of_3 ∷ rows_of_4 ∷ []) order []

-- `ENOCoeffiecients<order>::coefficients[row]`
unfoldable pub eno_row : ℕ → ℕ → List Fraction
unfolding eno_coefficients
eno_row order row = get_or (eno_coefficients order) row []

module _ {R C : Type 0} ⦃r : Real R⦄ (nought : C) (plus : C → C → C) (scale : R → C → C) where
  quotient : Fraction → R
  quotient (a, b) = r.div (r.of_int a) (num b)

  -- `value += coefficients[j] * cells[j]`, from j = 0 on
  unfoldable pub weigh : List R → List C → C → C
  weigh [] us value = value
  weigh (c ∷ cs) [] value = value
  weigh (c ∷ cs) (u ∷ us) value = weigh cs us (plus value (scale c u))

  -- `leftValue` and `rightValue` of a stencil of `order` cells
  unfoldable pub edge_values : ℕ → ℕ → List C → C × C
  unfolding weigh eno_row quotient
  edge_values order shift us = (
    weigh (map quotient (eno_row order shift)) us nought,
    weigh (map quotient (eno_row order (suc shift))) us nought,
  )

  -- The same, where the cells start `order - 1` cells before the middle one, and the stencil `shift`
  -- cells before it
  unfoldable pub eno_values : ℕ → ℕ → List C → C × C
  unfolding edge_values
  eno_values order shift cells =
      edge_values order shift (take order (drop (order - 1 - shift) cells))
