-- ===== src/Reconstruction/Eno/Shift.antt =====
-- The shift of the stencil that ENOCPU (alsfvm/src/reconstruction/ENOCPU.cpp) chooses.
use alsvinn.Base.{
  ℕ, zero, suc, ◌+◌, ◌≤◌, ◌≡◌, inl, inr, refl, ap₂, sym, subst, ◌∙◌, if◌then◌else◌, Bool-cases,
  arith,
}
use alsvinn.Base.Int.{ℤ, pos, negsuc, ◌+ℤ◌, ◌≤ℤ◌, int_laws}
use alsvinn.Base.Real.{Real}
use alsvinn.Vec.{Vec3}
use alsvinn.Numflux.{along}
use alsvinn.Numflux.Neighbours.{along-along, prev, along-zero}
use alsvinn.Reconstruction.Eno.Differences.{difference}

-- The shift that the levels of differences of a function choose at a cell
unfoldable pub choose_shift : {R : Type 0} ⦃r : Real R⦄ → ℕ → ℕ → (Vec3 ℤ → R) → Vec3 ℤ → ℕ → ℕ
choose_shift zero d f c shift = shift
choose_shift ⦃r⦄ (suc n) d f c shift = choose_shift n d (difference d f) c (
    if r.lt (r.abs (difference d f (prev d c))) (r.abs (difference d f c))
    then suc shift
    else shift)

module _ {R : Type 0} ⦃r : Real R⦄ (d : ℕ) where
  pub choose_shift_bounds :
      (n : ℕ) (f : Vec3 ℤ → R) (c : Vec3 ℤ) (shift : ℕ)
      → (shift ≤ choose_shift n d f c shift) × (choose_shift n d f c shift ≤ shift + n)
  unfolding choose_shift
  choose_shift_bounds zero f c shift = (omega arith, omega arith)
  choose_shift_bounds (suc n) f c shift =
      elim (Bool-cases (r.lt (r.abs (difference d f (prev d c))) (r.abs (difference d f c)))) [
        | inl e ↦ rw e (
            let (low, high) = choose_shift_bounds n (difference d f) c (suc shift) in
            (omega arith, omega arith))
        | inr e ↦ rw e (
            let (low, high) = choose_shift_bounds n (difference d f) c shift in
            (omega arith, omega arith))
      ]

  -- The functions agree from the cell before on, `n` cells far.
  abbrev pub AgreeNear : ℕ → (Vec3 ℤ → R) → (Vec3 ℤ → R) → Vec3 ℤ → Type 0
  AgreeNear n f f' c = (s : ℤ) → negsuc 0 ≤ℤ s → s ≤ℤ pos n → f (along d s c) ≡ f' (along d s c)

  difference-AgreeNear :
      (n : ℕ) (f f' : Vec3 ℤ → R) (c : Vec3 ℤ)
      → AgreeNear (suc n) f f' c
      → AgreeNear n (difference d f) (difference d f') c
  difference-AgreeNear n f f' c same s low high =
      ap₂ r.sub
        (subst (λ b. f b ≡ f' b) (sym (along-along d s (pos 1) c))
          (same (s +ℤ pos 1) (omega int_laws) (omega int_laws)))
        (same s low (omega arith))

  pub choose_shift-cong :
      (n : ℕ) (f f' : Vec3 ℤ → R) (c : Vec3 ℤ) (shift : ℕ)
      → AgreeNear n f f' c
      → choose_shift n d f c shift ≡ choose_shift n d f' c shift
  unfolding choose_shift
  choose_shift-cong zero f f' c shift same = refl
  choose_shift-cong (suc n) f f' c shift same =
      let near = difference-AgreeNear n f f' c same in
      let here =
        subst (λ b. difference d f b ≡ difference d f' b) (along-zero d c)
          (near (pos 0) (omega int_laws) (omega int_laws)) in
      let before = near (negsuc 0) (omega int_laws) (omega int_laws) in
      ap₂
        (λ x y.
          choose_shift n d (difference d f) c
            (if r.lt (r.abs x) (r.abs y) then suc shift else shift))
        before here
      ∙ choose_shift-cong n (difference d f) (difference d f') c _ near
