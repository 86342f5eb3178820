-- ===== src/Numflux/Conservation.antt =====
-- Sums of net fluxes along a row of cells, as `computeNetFlux` adds them up
-- (alsfvm/src/numflux/NumericalFluxCPU.cpp).
use alsvinn.Base.{ℕ, zero, suc, ◌≡◌, sym, ap, ap₂, ◌∙◌}
use alsvinn.Base.Int.{ℤ}
use alsvinn.Base.Real.{Real}
use alsvinn.Vec.{Vec3}
use alsvinn.Numflux.{Equation, Flux, negate}
use alsvinn.Numflux.Neighbours.{next, prev, prev-next}
use alsvinn.Numflux.Net.{net}

-- The laws of addition that floating point numbers have up to rounding
pub record IsAdditive {R C A : Type 0} ⦃r : Real R⦄ (eq : Equation R C A) (flux : Flux R C A)
    : Type 0 where
  pub assoc : (a b c : C) → eq.plus (eq.plus a b) c ≡ eq.plus a (eq.plus b c)
  pub nought_plus : (a : C) → eq.plus eq.nought a ≡ a
  pub plus_nought : (a : C) → eq.plus a eq.nought ≡ a
  pub comm : (a b : C) → eq.plus a b ≡ eq.plus b a
  pub negate_plus : (a : C) → eq.plus (negate eq flux a) a ≡ eq.nought
  pub negate_negate : (a : C) → negate eq flux (negate eq flux a) ≡ a

module _ {R C A : Type 0} ⦃r : Real R⦄ (eq : Equation R C A) (flux : Flux R C A) (f : Vec3 ℤ → C)
    (d : ℕ) where
  -- The sum of the net fluxes of `n` cells of a row, and the last of `suc n` cells
  abbrev pub row_sum : ℕ → Vec3 ℤ → C
  row_sum zero c = eq.nought
  row_sum (suc n) c = eq.plus (net eq flux f d c) (row_sum n (next d c))

  abbrev pub last_of : ℕ → Vec3 ℤ → Vec3 ℤ
  last_of zero c = c
  last_of (suc n) c = last_of n (next d c)

  module _ (laws : IsAdditive eq flux) where
    open laws use {assoc, nought_plus, plus_nought, comm, negate_plus, negate_negate}

    shorten : (a b e : C) → eq.plus (eq.plus (negate eq flux a) b) (eq.plus e a) ≡ eq.plus e b
    shorten a b e =
        ap₂ eq.plus (comm (negate eq flux a) b) (comm e a)
        ∙ assoc b (negate eq flux a) (eq.plus a e)
        ∙ ap (eq.plus b) (
            sym (assoc (negate eq flux a) a e)
            ∙ ap (λ x. eq.plus x e) (negate_plus a)
            ∙ nought_plus e)
        ∙ comm b e

    -- The sum telescopes, for any assignment of fluxes to cells.
    pub row_sum-boundary :
        (n : ℕ) (c : Vec3 ℤ)
        → row_sum (suc n) c ≡ eq.plus (negate eq flux (f (last_of n c))) (f (prev d c))
    row_sum-boundary zero c =
        plus_nought _ ∙ ap (eq.plus (negate eq flux (f c))) (negate_negate (f (prev d c)))
    row_sum-boundary (suc n) c =
        ap₂ eq.plus (ap (eq.plus (negate eq flux (f c))) (negate_negate (f (prev d c)))) (
          row_sum-boundary n (next d c)
          ∙ ap (λ b. eq.plus (negate eq flux (f (last_of n (next d c)))) (f b)) (prev-next d c))
        ∙ shorten (f c) (f (prev d c)) (negate eq flux (f (last_of n (next d c))))
