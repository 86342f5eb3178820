-- ===== src/Numflux/Periodic.antt =====
-- `NumericalFluxCPU::computeFlux` (alsfvm/src/numflux/NumericalFluxCPU.cpp) on a row of cells whose ghost
-- cells repeat the inner ones.
use alsvinn.Base.{
  ℕ, zero, suc, ◌+◌, ◌≤◌, ◌<◌, ◌≡◌, refl, ap, ap₂, sym, ◌∙◌, subst, get_elem?, Result, ok, ◌>>=◌,
  ◌*◌, Gives, Gives-map, arith,
}
use alsvinn.Base.Int.{ℤ, pos, negsuc, ◌+ℤ◌, ◌-ℤ◌, ◌≤ℤ◌, int_laws, one-*ℤ, zero-*ℤ, eq_of_parts}
use alsvinn.Base.Real.{Real}
use alsvinn.Vec.{Vec3}
use alsvinn.Views.{Shape, Views, index, Fits, IsSized, Holds, fetch}
use alsvinn.Numflux.{
  Equation, Flux, two_point, four_point, six_point, Reconstruction, FluxVolumes, along,
  direction_vector, lower, upper, compute_flux, negate,
}
use alsvinn.Numflux.Neighbours.{next, prev, along-zero, along-along}
use alsvinn.Numflux.Net.{InRegion, net}
use alsvinn.Numflux.Values.{width, flux_of}
use alsvinn.Numflux.Interface.{layers, IsPart, IsValid, IsReconstruction, origin}
use alsvinn.Numflux.Directions.{interface_flux, total_flux, compute_flux-IsFilled}
use alsvinn.Numflux.Conservation.{IsAdditive, row_sum, last_of, row_sum-boundary}

-- The offset is in the reach of a stencil of `w` cells on each side of an interface.
abbrev InReach : ℕ → ℤ → Type 0
InReach w s = ((pos 1 -ℤ pos w) ≤ℤ s) × (s ≤ℤ pos w)

-- The volume looks the same from both cells, within the reach.
abbrev pub LooksSame : {C : Type 0} → Shape → Views C → ℕ → ℕ → Vec3 ℤ → Vec3 ℤ → Type 0
LooksSame g u d w c c' =
    (s : ℤ)
    → InReach w s
    → get_elem? u.cells (index g (along d s c)) ≡ get_elem? u.cells (index g (along d s c'))

-- What a reconstruction makes of cells does not depend on where they are.
abbrev pub IsHomogeneous :
    {C : Type 0} → Shape → ℕ → (left_of right_of : Views C → ℕ → Vec3 ℤ → C) → Type 0
IsHomogeneous {C} g reach left_of right_of =
    (u : Views C) (d : ℕ) (c c' : Vec3 ℤ)
    → ((s : ℤ)
        → (pos 0 -ℤ pos reach) ≤ℤ s
        → s ≤ℤ pos reach
        → get_elem? u.cells (index g (along d s c)) ≡ get_elem? u.cells (index g (along d s c')))
    → (left_of u d c ≡ left_of u d c') × (right_of u d c ≡ right_of u d c')

module _ {R C A : Type 0} ⦃r : Real R⦄ (eq : Equation R C A) (d : ℕ) (l r' : Vec3 ℤ → C)
    (c c' : Vec3 ℤ) where
  flux_of-same :
      (flux : Flux R C A)
      → ((s : ℤ)
          → InReach (width flux) s
          → (l (along d s c) ≡ l (along d s c')) × (r' (along d s c) ≡ r' (along d s c')))
      → flux_of eq flux d l r' c ≡ flux_of eq flux d l r' c'
  flux_of-same (two_point f) same =
      ap₂ (λ a b. f d (eq.to_all a) (eq.to_all b)) (same (pos 0) (omega int_laws, omega int_laws)).1
        (same (pos 1) (omega int_laws, omega int_laws)).0
  flux_of-same (four_point f) same =
      let at : (s : ℤ) → InReach 2 s → l (along d s c) ≡ l (along d s c') = λ s h. (same s h).0 in
      λ i.
        f d (eq.to_all (at (negsuc 0) (omega int_laws, omega int_laws) i))
          (eq.to_all (at (pos 0) (omega int_laws, omega int_laws) i))
          (eq.to_all (at (pos 1) (omega int_laws, omega int_laws) i))
          (eq.to_all (at (pos 2) (omega int_laws, omega int_laws) i))
  flux_of-same (six_point f) same =
      let at : (s : ℤ) → InReach 3 s → l (along d s c) ≡ l (along d s c') = λ s h. (same s h).0 in
      λ i.
        f d (eq.to_all (at (negsuc 1) (omega int_laws, omega int_laws) i))
          (eq.to_all (at (negsuc 0) (omega int_laws, omega int_laws) i))
          (eq.to_all (at (pos 0) (omega int_laws, omega int_laws) i))
          (eq.to_all (at (pos 1) (omega int_laws, omega int_laws) i))
          (eq.to_all (at (pos 2) (omega int_laws, omega int_laws) i))
          (eq.to_all (at (pos 3) (omega int_laws, omega int_laws) i))

module _ {R C A : Type 0} (eq : Equation R C A) where
  -- The sum of the values of `n` cells of a row
  abbrev pub row_total : (Vec3 ℤ → C) → ℕ → ℕ → Vec3 ℤ → C
  row_total value d zero c = eq.nought
  row_total value d (suc n) c = eq.plus (value c) (row_total value d n (next d c))

  -- The same sum, of what a volume holds
  abbrev pub read_total : Shape → Views C → ℕ → ℕ → Vec3 ℤ → Result C
  read_total g out d zero c = ok eq.nought
  read_total g out d (suc n) c = do
    a ← fetch out (index g c)
    rest ← read_total g out d n (next d c)
    ok (eq.plus a rest)

module _ {R C A : Type 0} ⦃r : Real R⦄ (eq : Equation R C A) (flux : Flux R C A)
    (laws : IsAdditive eq flux) where
  open laws use {negate_plus, nought_plus}

  -- Where the flux out of the last cell of a row is that into the first one, the net fluxes cancel.
  row_sum-closed :
      (f : Vec3 ℤ → C) (d n : ℕ) (c : Vec3 ℤ)
      → f (prev d c) ≡ f (last_of eq flux f d n c)
      → row_sum eq flux f d (suc n) c ≡ eq.nought
  row_sum-closed f d n c same =
      row_sum-boundary eq flux f d laws n c
      ∙ ap (eq.plus (negate eq flux (f (last_of eq flux f d n c)))) same
      ∙ negate_plus (f (last_of eq flux f d n c))

  row_total-net :
      (value f : Vec3 ℤ → C) (d n : ℕ) (c : Vec3 ℤ)
      → ((b : Vec3 ℤ) → value b ≡ net eq flux f d b)
      → row_total eq value d n c ≡ row_sum eq flux f d n c
  row_total-net value f d zero c same = refl
  row_total-net value f d (suc n) c same =
      ap₂ eq.plus (same c) (row_total-net value f d n (next d c) same)

  read_total-ok :
      (g : Shape) (out : Views C) (value f : Vec3 ℤ → C) (d n : ℕ) (c : Vec3 ℤ)
      → ((i : ℕ) → i < n → Holds g out (last_of eq flux f d i c) (value (last_of eq flux f d i c)))
      → read_total eq g out d n c ≡ ok (row_total eq value d n c)
  unfolding fetch
  read_total-ok g out value f d zero c held = refl
  read_total-ok g out value f d (suc n) c held =
      rw
        (
          held 0 (omega arith),
          read_total-ok g out value f d n (next d c) (λ i below. held (suc i) (omega arith)),
        )
        refl

  last_of-along :
      (f : Vec3 ℤ → C) (d i : ℕ) (c : Vec3 ℤ) → last_of eq flux f d i c ≡ along d (pos i) c
  last_of-along f d zero c = sym (along-zero d c)
  last_of-along f d (suc i) c =
      last_of-along f d i (next d c)
      ∙ along-along d (pos 1) (pos i) c
      ∙ ap (λ s. along d s c) (eq_of_parts _ _ (omega int_laws))

  -- `n` inner cells in a line, and the ghost cells at its ends
  abbrev pub IsLine : Shape → ℕ → Type 0
  IsLine g n = (g.nx ≡ n + 2 * g.ngx) × (2 * g.ngy < g.ny) × (2 * g.ngz < g.nz)

  line-InRegion :
      (g : Shape) (n i : ℕ)
      → IsLine g n
      → i < n
      → InRegion g origin origin (along 0 (pos i) (lower g origin))
  unfolding along direction_vector lower upper
  line-InRegion g n i (x, y, z) below =
      rw (one-*ℤ (pos i), zero-*ℤ (pos i))
        (
          (omega int_laws, omega int_laws),
          (omega int_laws, omega int_laws),
          (omega int_laws, omega int_laws),
        )

  module _ (g : Shape) (fits : Fits g) (reach : ℕ) (left_of right_of : Views C → ℕ → Vec3 ℤ → C)
      (homogeneous : IsHomogeneous g reach left_of right_of) where
    interface_flux-same :
        (u : Views C) (d : ℕ) (c c' : Vec3 ℤ)
        → LooksSame g u d (width flux + reach) c c'
        → interface_flux eq flux left_of right_of u d c
          ≡ interface_flux eq flux left_of right_of u d c'
    interface_flux-same u d c c' same =
        ap (λ (p : C × R). p.0)
          (flux_of-same eq d (left_of u d) (right_of u d) c c' flux λ s (low, high).
            homogeneous u d (along d s c) (along d s c') λ t below above.
              ap (λ b. get_elem? u.cells (index g b)) (along-along d s t c)
              ∙ same (s +ℤ t) (omega int_laws, omega int_laws)
              ∙ sym (ap (λ b. get_elem? u.cells (index g b)) (along-along d s t c')))

    -- On a line of cells with the ghost cells of a periodic boundary, and with a reconstruction whose values
    -- do not depend on where the cells are, `computeFlux` does not fail, and in exact addition the
    -- values that it leaves in the inner cells add up to 0.
    pub compute_flux-conserves :
        (reconstruction : Reconstruction C)
        → IsReconstruction g 1 (width flux) reach left_of right_of reconstruction
        → ((d : ℕ) → d < 1 → width flux + reach ≤ layers g d)
        → (n : ℕ) (u out : Views C) (v : FluxVolumes C) (speed : Vec3 R) → IsLine g (suc n)
        → IsSized g u
        → IsSized g out
        → IsValid g v
        → LooksSame g u 0
            (width flux + reach)
            (prev 0 (lower g origin))
            (along 0 (pos n) (lower g origin))
        → Gives
            (λ s. read_total eq g s.output 0 (suc n) (lower g origin) ≡ ok eq.nought)
            (compute_flux eq flux 1 reconstruction v u speed out origin origin)
    compute_flux-conserves reconstruction promise ghost n u out v speed line u_sized sized valid
          same =
        let f = interface_flux eq flux left_of right_of u 0 in
        let first = lower g origin in
        let total = total_flux eq flux left_of right_of u 1 in
        Gives-map
          (compute_flux-IsFilled eq flux g fits 1 reach left_of right_of reconstruction promise
            ghost u out origin origin u_sized whole v speed valid sized)
          λ s (_, filled).
            read_total-ok g s.output total f 0 (suc n) first (λ i below.
              filled.filled (last_of eq flux f 0 i first) (
                subst (InRegion g origin origin) (sym (last_of-along f 0 i first))
                  (line-InRegion g (suc n) i line below)))
            ∙ ap ok (
                row_total-net total f 0 (suc n) first (λ b. nought_plus (net eq flux f 0 b))
                ∙ row_sum-closed f 0 n first (
                    interface_flux-same u 0 (prev 0 first) (along 0 (pos n) first) same
                    ∙ ap f (sym (last_of-along f 0 n first))))
      where
        whole : IsPart origin origin
        whole = ((omega arith, omega arith), (omega arith, omega arith), (omega arith, omega arith))
