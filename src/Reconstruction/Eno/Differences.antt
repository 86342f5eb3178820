-- ===== src/Reconstruction/Eno/Differences.antt =====
-- The divided differences of ENOCPU (alsfvm/src/reconstruction/ENOCPU.cpp).
use alsvinn.Base.{
  ℕ, zero, suc, ◌+◌, ◌≤◌, ◌<◌, ◌≡◌, ◌≢◌, ap, sym, subst, ◌∙◌, true, List, [], ◌∷◌, Gives, gives,
  Gives-bind, Gives-map, Result, ok, ◌>>=◌, arith,
}
use alsvinn.Base.Int.{ℤ, pos, negsuc, int_laws}
use alsvinn.Base.Real.{Real}
use alsvinn.Vec.{Vec3}
use alsvinn.Boxes.Every.{Settles, try_nest-every}
use alsvinn.Views.{
  Shape, Views, index, fetch, Fits, InBlock, IsSized, Holds, index-lt, index-injective,
  set_view_at-Gives,
}
use alsvinn.Numflux.Neighbours.{next, prev, next-prev, prev-next, along-zero}
use alsvinn.Numflux.Interface.{IsPart}
use alsvinn.Reconstruction.Eno.{
  starts, ends, difference_start, difference_end, difference_fits, difference_cell,
  compute_divided_differences, compute_levels,
}
use alsvinn.Reconstruction.Eno.Bounds.{InLevel, InLevel-down, level-InBlock}

abbrev pub AllSized : {R : Type 0} → Shape → ℕ → List (Views R) → Type 0
AllSized g zero [] = Unit {0}
AllSized g zero (a ∷ as') = ⊥
AllSized g (suc n) [] = ⊥
AllSized g (suc n) (a ∷ as') = IsSized g a × AllSized g n as'

-- The difference of a function of the cells, at a cell and the one after it
abbrev pub difference : {R : Type 0} ⦃r : Real R⦄ → ℕ → (Vec3 ℤ → R) → Vec3 ℤ → R
difference ⦃r⦄ d f c = r.sub (f (next d c)) (f c)

module _ (g : Shape) (fits : Fits g) (order d : ℕ) (start end : Vec3 ℤ)
    (part : IsPart start end) where
  prev-InBlock :
      (L : ℕ) → 1 ≤ L → (c : Vec3 ℤ) → InLevel order L g d start end c → InBlock g (prev d c)
  prev-InBlock L h c at =
      level-InBlock g d start end c part order L (negsuc 0) h at (omega int_laws) (omega int_laws)

  prev-apart :
      (L : ℕ)
      → 1 ≤ L
      → (c c' : Vec3 ℤ) → InLevel order L g d start end c
      → InLevel order L g d start end c'
      → c ≢ c'
      → index g (prev d c) ≢ index g (prev d c')
  prev-apart L h c c' at at' ne e =
      let same =
        index-injective g fits (prev d c) (prev d c') (prev-InBlock L h c at)
          (prev-InBlock L h c' at') e in
      ne (sym (next-prev d c) ∙ ap (next d) same ∙ next-prev d c')

module _ {R : Type 0} ⦃r : Real R⦄ (g : Shape) (fits : Fits g) (order d : ℕ) (start end : Vec3 ℤ)
    (part : IsPart start end) where
  -- A volume holds the function at the cells of a level, and at those before them.
  abbrev pub Knows : ℕ → (Vec3 ℤ → R) → Views R → Type 0
  Knows L f v =
      (c : Vec3 ℤ)
      → InLevel order L g d start end c
      → Holds g v c (f c) × Holds g v (prev d c) (f (prev d c))

  -- An array holds the differences of the level.
  abbrev pub HasDifferences : ℕ → (Vec3 ℤ → R) → Views R → Type 0
  HasDifferences L f v =
      IsSized g v
      × ((c : Vec3 ℤ)
          → InLevel order L g d start end c
          → Holds g v (prev d c) (difference d f (prev d c)))

  -- So do `n` arrays, from the level `L` on.
  abbrev pub AllDiffer : ℕ → ℕ → (Vec3 ℤ → R) → List (Views R) → Type 0
  AllDiffer zero L f [] = Unit {0}
  AllDiffer zero L f (a ∷ as') = ⊥
  AllDiffer (suc n) L f [] = ⊥
  AllDiffer (suc n) L f (a ∷ as') = HasDifferences L f a × AllDiffer n (suc L) (difference d f) as'

  module _ (L : ℕ) (h : 1 ≤ L) (f : Vec3 ℤ → R) (input : Views R) (known : Knows L f input) where
    abbrev AtPrev : Vec3 ℤ → Views R → Type 0
    AtPrev c v = Holds g v (prev d c) (difference d f (prev d c))

    difference_cell-Settles :
        (c : Vec3 ℤ)
        → InLevel order L g d start end c
        → (v : Views R) → IsSized g v
        → Gives
            (Settles
              (IsSized g)
              AtPrev
              (starts (difference_start order L) g d start)
              (ends (difference_end order L) g d end)
              c
              v)
            (difference_cell g d input c v)
    unfolding difference_cell fetch
    difference_cell-Settles c at v sized =
        rw ((known c at).0, (known c at).1)
          (Gives-map
            (set_view_at-Gives g v (index g (prev d c)) (r.sub (f c) (f (prev d c))) sized
              (index-lt g fits (prev d c) (prev-InBlock g fits order d start end part L h c at)))
            λ v' (sized', here, others). (
              sized',
              subst (λ b. Holds g v' (prev d c) (r.sub (f b) (f (prev d c)))) (sym (next-prev d c))
                  here,
              λ c' at' ne held.
                  others (index g (prev d c'))
                    (prev-apart g fits order d start end part L h c c' at at' ne)
                  ∙ held,
            ))

    level-HasDifferences :
        (out : Views R)
        → IsSized g out
        → difference_fits L d g ≡ true
        → Gives (HasDifferences L f) (compute_divided_differences order L d g input out start end)
    unfolding compute_divided_differences
    level-HasDifferences out sized asserted = rw asserted (
        try_nest-every (IsSized g) AtPrev _ _ (difference_cell g d input) difference_cell-Settles
          out sized)

  -- What a level needs of the differences of the one before
  Knows-next :
      (L : ℕ) (f : Vec3 ℤ → R) (v : Views R)
      → 1 ≤ L
      → HasDifferences L f v
      → Knows (suc L) (difference d f) v
  Knows-next L f v h (sized, held) c at = (
    subst (λ b. Holds g v b (difference d f b)) (prev-next d c)
        (held (next d c)
          (InLevel-down g d start end c order L (pos 1) h at (omega int_laws) (omega int_laws))),
    held c (
        subst (InLevel order L g d start end) (along-zero d c)
          (InLevel-down g d start end c order L (pos 0) h at (omega int_laws) (omega int_laws))),
  )

  -- Every array holds the differences of its level.
  pub compute_levels-AllDiffer :
      (n L : ℕ) (f : Vec3 ℤ → R) (input : Views R) (outs : List (Views R))
      → 1 ≤ L
      → ((K : ℕ) → K < L + n → difference_fits K d g ≡ true)
      → IsSized g input
      → Knows L f input
      → AllSized g n outs
      → Gives (AllDiffer n L f) (compute_levels order L d input outs start end)
  unfolding compute_levels
  compute_levels-AllDiffer zero L f input [] h asserted sized known all = gives tt
  compute_levels-AllDiffer zero L f input (out ∷ outs) h asserted sized known all = absurd all
  compute_levels-AllDiffer (suc n) L f input [] h asserted sized known all = absurd all
  compute_levels-AllDiffer (suc n) L f input (out ∷ outs) h asserted sized known (out_sized, all) =
      subst (λ k. Gives (AllDiffer (suc n) L f) (levels_in k)) (sym sized.0)
        (Gives-bind
          (level-HasDifferences L h f input known out out_sized (asserted L (omega arith)))
          λ out' made.
            Gives-bind
              (compute_levels-AllDiffer n (suc L) (difference d f) out' outs (omega arith)
                (λ K below. asserted K (omega arith)) made.0 (Knows-next L f out' h made) all)
              λ outs' rest. gives (made, rest))
    where
      levels_in : Shape → Result (List (Views R))
      levels_in k = compute_divided_differences order L d k input out start end >>= λ out'.
          compute_levels order (suc L) d out' outs start end >>= λ outs'. ok (out' ∷ outs')

  pub AllDiffer-AllSized :
      (n L : ℕ) (f : Vec3 ℤ → R) (arrays : List (Views R))
      → AllDiffer n L f arrays
      → AllSized g n arrays
  AllDiffer-AllSized zero L f [] all = tt
  AllDiffer-AllSized zero L f (a ∷ as') all = absurd all
  AllDiffer-AllSized (suc n) L f [] all = absurd all
  AllDiffer-AllSized (suc n) L f (a ∷ as') (here, rest) =
      (here.0, AllDiffer-AllSized n (suc L) (difference d f) as' rest)
