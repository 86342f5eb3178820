-- ===== src/Tests/Stencils.antt =====
-- The theorems about ENOCPU and WENOCPU at concrete inputs, over a line of nine cells.
use alsvinn.Base.{ℕ, zero, suc, ◌<◌, ◌≤◌, ◌≡◌, refl, List, [], ◌∷◌, true, arith}
use alsvinn.Base.Int.{ℤ, pos, negsuc, ◌+ℤ◌, ◌-ℤ◌, ◌*ℤ◌}
use alsvinn.Base.Real.{int_real}
use alsvinn.Views.{Shape, Views}
use alsvinn.Numflux.Interface.{layers, IsReconstruction}
use alsvinn.Reconstruction.Coefficients.{eno_row}
use alsvinn.Reconstruction.Coefficients.Exact.{sum_averages, eno_row-exact}
use alsvinn.Reconstruction.Weno.{weno_of_2, weno_fits, weno_cpu}
use alsvinn.Reconstruction.Weno.Promise.{weno_at, weno_cpu-IsReconstruction}
use alsvinn.Reconstruction.Eno.{difference_fits, eno_fits, eno_cpu}
use alsvinn.Reconstruction.Eno.Bounds.{IsUsed, HasLayers}
use alsvinn.Reconstruction.Eno.Promise.{eno_at, AreUsable, eno_cpu-IsReconstruction}

abbrev line : Shape
line = record { nx = 9; ny = 1; nz = 1; ngx = 2; ngy = 0; ngz = 0 }

-- The third row of the coefficients of order 3 gives the square its value at the edge.
eno_row-exact_example : sum_averages 2 (negsuc 1) (eno_row 3 2) ≡ pos 0
unfolding ◌-ℤ◌
eno_row-exact_example = eno_row-exact 3 2 2 (omega arith) (omega arith) (omega arith) (omega arith)

order_of_2 : (weno_of_2 {R = ℤ}).order ≡ 2
unfolding weno_of_2
order_of_2 = refl

line-layers : (d : ℕ) → d < 1 → 2 ≤ layers line d
line-layers zero h = omega arith
line-layers (suc d) h = absurd (omega arith)

line_fits : (d : ℕ) → d < 1 → weno_fits (weno_of_2 {R = ℤ}) line d ≡ true
unfolding weno_fits weno_of_2
line_fits zero h = refl
line_fits (suc d) h = absurd (omega arith)

weno_cpu-IsReconstruction_example :
    IsReconstruction line 1 1 1
      (λ u d c.
        (weno_at weno_of_2 (pos 0) ◌+ℤ◌ ◌*ℤ◌ (λ v a. a) line (omega arith) 1 order_of_2 u d c).0)
      (λ u d c.
        (weno_at weno_of_2 (pos 0) ◌+ℤ◌ ◌*ℤ◌ (λ v a. a) line (omega arith) 1 order_of_2 u d c).1)
      (weno_cpu weno_of_2 (pos 0) ◌+ℤ◌ ◌*ℤ◌ (λ v a. a))
weno_cpu-IsReconstruction_example =
    weno_cpu-IsReconstruction weno_of_2 (pos 0) ◌+ℤ◌ ◌*ℤ◌ (λ v a. a) line (omega arith) 1 order_of_2
      1 1 (omega arith) line-layers line_fits

line-IsUsed : (d : ℕ) → d < 1 → IsUsed line d
line-IsUsed zero h = (λ e. cc, λ e. cc)
line-IsUsed (suc d) h = absurd (omega arith)

line-HasLayers : HasLayers 2 line
line-HasLayers = (omega arith, λ e. cc, λ e. cc)

line_asserted : (d : ℕ) → d < 1 → (K : ℕ) → K < 2 → difference_fits K d line ≡ true
unfolding difference_fits
line_asserted zero h zero k = refl
line_asserted zero h (suc zero) k = refl
line_asserted zero h (suc (suc K)) k = absurd (omega arith)
line_asserted (suc d) h K k = absurd (omega arith)

line_interior : (d : ℕ) → d < 1 → eno_fits 2 d line ≡ true
unfolding eno_fits
line_interior zero h = refl
line_interior (suc d) h = absurd (omega arith)

-- An array of another size, which the call makes anew
abbrev small : List (Views ℤ)
small = record { shape = record line { nx = 3 }; cells = pos 1 ∷ pos 1 ∷ pos 1 ∷ [] } ∷ []

small-AreUsable : AreUsable 1 (pos 0) ◌+ℤ◌ ◌*ℤ◌ (λ v (a : ℤ). a) line (omega arith) small
small-AreUsable e = absurd (omega (arith, e))

eno_cpu-IsReconstruction_example :
    IsReconstruction line 1 1 1
      (λ u d c. (eno_at 1 (pos 0) ◌+ℤ◌ ◌*ℤ◌ (λ v a. a) line (omega arith) u d c).0)
      (λ u d c. (eno_at 1 (pos 0) ◌+ℤ◌ ◌*ℤ◌ (λ v a. a) line (omega arith) u d c).1)
      (eno_cpu 2 (pos 0) ◌+ℤ◌ ◌*ℤ◌ (λ v a. a) small)
eno_cpu-IsReconstruction_example =
    eno_cpu-IsReconstruction 1 (pos 0) ◌+ℤ◌ ◌*ℤ◌ (λ v a. a) line (omega arith) 1 (omega arith)
      (omega arith) line-HasLayers line-IsUsed line_asserted line_interior small small-AreUsable
