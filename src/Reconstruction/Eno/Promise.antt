-- ===== src/Reconstruction/Eno/Promise.antt =====
-- ENOCPU (alsfvm/src/reconstruction/ENOCPU.cpp) as a reconstruction.
use alsvinn.Base.{
  ℕ, zero, suc, ◌+◌, ◌*◌, ◌≤◌, ◌<◌, ◌≡◌, inl, inr, refl, ap, sym, subst, ◌∙◌, true, ◌==◌, ltb, List,
  [], ◌∷◌, map, length, replicate, length-replicate, get_elem?, some, Option, none, Gives, gives,
  Gives-bind, Result, ok, undefined, unsupported_direction, guard, ◌>>=◌, lt→ltb, Bool-cases,
  ==_iff, arith,
}
use alsvinn.Base.Int.{ℤ, pos, negsuc, ◌-ℤ◌, int_laws}
use alsvinn.Base.Real.{Real, num}
use alsvinn.Vec.{Vec3}
use alsvinn.Boxes.{try_nest}
use alsvinn.Views.{Shape, Views, index, fetch, Fits, InBlock, IsSized, Holds}
use alsvinn.Numflux.{along}
use alsvinn.Numflux.Neighbours.{next, prev, prev-next, along-zero}
use alsvinn.Numflux.Values.{InWide}
use alsvinn.Numflux.Interface.{IsPart, IsReconstruction}
use alsvinn.Reconstruction.Sweeps.{AreSized, Stored, store-Stored, sweep}
use alsvinn.Reconstruction.Copy.{copied, copied-Holds, get_or-cong}
use alsvinn.Reconstruction.Coefficients.{edge_values}
use alsvinn.Reconstruction.Weno.Reach.{
  IsNear, along-wider, cells_from, cells_from-cong, read_cells-cells_from,
}
use alsvinn.Reconstruction.Eno.{
  starts, ends, eno_start, eno_end, difference_fits, eno_fits, compute_levels,
  make_divided_difference_arrays, sized_arrays, read_shift, eno_cell, perform_eno, eno_cpu,
}
use alsvinn.Reconstruction.Eno.Bounds.{
  InLevel, InSweep, IsUsed, HasLayers, sweep-InLevel, level-InBlock, sweep-InBlock, region-InSweep,
}
use alsvinn.Reconstruction.Eno.Differences.{
  difference, Knows, AllDiffer, AllSized, compute_levels-AllDiffer, AllDiffer-AllSized,
}
use alsvinn.Reconstruction.Eno.Shift.{choose_shift, choose_shift_bounds, choose_shift-cong}

module _ {R C : Type 0} ⦃r : Real R⦄ (k : ℕ) (nought : C) (plus : C → C → C) (scale : R → C → C)
    (indicator : ℕ → C → R) (g : Shape) (fits : Fits g) where
  -- What chooses the stencil
  abbrev pub indicated : Views C → Vec3 ℤ → R
  indicated u c = indicator 0 (copied nought g u 0 c)

  -- The values that the chosen stencil gives
  abbrev pub eno_at : Views C → ℕ → Vec3 ℤ → C × C
  eno_at u d c =
      let shift = choose_shift k d (indicated u) c 0 in
      edge_values nought plus scale (suc k) shift
        (cells_from (copied nought g u 0) d c (pos 0 -ℤ pos shift) (suc k))

  eno_at-local :
      (u u' : Views C) (d : ℕ) (lo hi : Vec3 ℤ)
      → ((c : Vec3 ℤ)
          → InWide d (1 + k) lo hi c
          → get_elem? u.cells (index g c) ≡ get_elem? u'.cells (index g c))
      → (c : Vec3 ℤ) → InWide d 1 lo hi c
      → 1 ≤ k
      → eno_at u d c ≡ eno_at u' d c
  eno_at-local u u' d lo hi agree c at h =
      let same : (s : ℤ)
          → IsNear k s
          → copied nought g u 0 (along d s c) ≡ copied nought g u' 0 (along d s c) =
        λ s near.
          get_or-cong u.cells u'.cells (index g (along d s c)) nought
            (agree (along d s c) (along-wider d 1 k lo hi c s at near)) in
      let shifts : choose_shift k d (indicated u) c 0 ≡ choose_shift k d (indicated u') c 0 =
        choose_shift-cong d k (indicated u) (indicated u') c 0
          (λ s low high. ap (indicator 0) (same s (omega int_laws, high))) in
      let bound = (choose_shift_bounds d k (indicated u) c 0).1 in
      ap (edge_values nought plus scale (suc k) (choose_shift k d (indicated u) c 0)) (
        cells_from-cong (copied nought g u 0) (copied nought g u' 0) d c
          (pos 0 -ℤ pos (choose_shift k d (indicated u) c 0)) (pos k) (suc k) (omega int_laws)
          (λ s low high. same s (omega int_laws, high)))
      ∙ ap
          (λ shift.
            edge_values nought plus scale (suc k) shift
              (cells_from (copied nought g u' 0) d c (pos 0 -ℤ pos shift) (suc k)))
          shifts

  -- Arrays that a call may start with: where their first has the size of the block, all have its shape.
  abbrev pub AreUsable : List (Views R) → Type 0
  AreUsable [] = ⊥
  AreUsable (a ∷ as') = length a.cells ≡ g.nx * g.ny * g.nz → AllSized g k (a ∷ as')

  all_fresh : (n : ℕ) (v : Views R) → IsSized g v → AllSized g n (replicate n v)
  all_fresh zero v sized = tt
  all_fresh (suc n) v sized = (sized, all_fresh n v sized)

  sized_arrays-AllSized :
      (arrays : List (Views R))
      → AreUsable arrays
      → Gives (AllSized g k) (sized_arrays (suc k) g (g.nx * g.ny * g.nz) arrays)
  unfolding sized_arrays make_divided_difference_arrays
  sized_arrays-AllSized [] usable = absurd usable
  sized_arrays-AllSized (a ∷ as') usable =
      elim (Bool-cases (g.nx * g.ny * g.nz == length a.cells)) [
        | inl e ↦ rw e (gives (usable (sym ((==_iff (g.nx * g.ny * g.nz) (length a.cells)).0 e))))
        | inr e ↦ rw e (
            gives (
              subst (λ n. AllSized g k (replicate n fresh)) (omega arith)
                (all_fresh k fresh (refl, length-replicate (g.nx * g.ny * g.nz) (num 0)))))
      ]
    where
      fresh : Views R
      fresh = record { shape = g; cells = replicate (g.nx * g.ny * g.nz) (num 0) }

  module _ (u : Views C) (u_sized : IsSized g u) (d : ℕ) (start end : Vec3 ℤ)
      (part : IsPart start end) (used : IsUsed g d) where
    abbrev AllMade : ℕ → ℕ → (Vec3 ℤ → R) → List (Views R) → Type 0
    AllMade = AllDiffer g fits (suc k) d start end part

    read_shift-choose_shift :
        (n L : ℕ) (f : Vec3 ℤ → R) (c : Vec3 ℤ) (arrays : List (Views R)) (shift : ℕ)
        → InSweep (suc k) g d start end c
        → 1 ≤ L
        → L + n ≤ suc k
        → AllMade n L f arrays
        → read_shift g d c arrays shift ≡ ok (choose_shift n d f c shift)
    unfolding read_shift choose_shift fetch
    read_shift-choose_shift zero L f c [] shift at h most all = refl
    read_shift-choose_shift zero L f c (a ∷ as') shift at h most all = absurd all
    read_shift-choose_shift (suc n) L f c [] shift at h most all = absurd all
    read_shift-choose_shift (suc n) L f c (a ∷ as') shift at h most ((sized, held), rest) =
        let right : Holds g a c (difference d f c) =
          subst (λ b. Holds g a b (difference d f b)) (prev-next d c)
            (held (next d c) (
              sweep-InLevel g d start end c (suc k) L (pos 1) h (omega arith) used at
                (omega int_laws) (omega int_laws))) in
        let left : Holds g a (prev d c) (difference d f (prev d c)) = held c (
          subst (InLevel (suc k) L g d start end) (along-zero d c) (
            sweep-InLevel g d start end c (suc k) L (pos 0) h (omega arith) used at (omega int_laws)
              (omega int_laws))) in
        rw (right, left)
          (read_shift-choose_shift n (suc L) (difference d f) c as' _ at (omega arith) (omega arith)
            rest)

    inside : (c : Vec3 ℤ) → InSweep (suc k) g d start end c → InBlock g c
    inside c at =
        subst (InBlock g) (along-zero d c)
          (sweep-InBlock g d start end c part k (pos 0) used at (omega int_laws, omega int_laws))

    module _ (arrays : List (Views R)) (made : AllMade k 1 (indicated u) arrays) where
      eno_cell-Stored :
          (c : Vec3 ℤ)
          → InSweep (suc k) g d start end c
          → (s : Views C × Views C) → AreSized g fits s
          → Gives
              (Stored g fits
                (starts (eno_start (suc k)) g d start)
                (ends (eno_end (suc k)) g d end)
                inside
                (eno_at u d)
                c
                s)
              (eno_cell (suc k) nought plus scale indicator g d arrays u c s)
      unfolding eno_cell
      eno_cell-Stored c at s sized =
          let bound = (choose_shift_bounds d k (indicated u) c 0).1 in
          rw
            (
              read_shift-choose_shift k 1 (indicated u) c arrays 0 at (omega arith) (omega arith)
                  made,
              read_cells-cells_from nought g fits u u_sized d c (pos k)
                  (pos 0 -ℤ pos (choose_shift k d (indicated u) c 0)) (suc k) (omega int_laws)
                  (λ o low high.
                    sweep-InBlock g d start end c part k o used at (omega int_laws, high)),
            )
            (store-Stored g fits _ _ inside (eno_at u d) c at s sized)

    indicator_area : Views R
    indicator_area = record { shape = g; cells = map (indicator 0) u.cells }

    length-map : {A B : Type 0} (h : A → B) (xs : List A) → length (map h xs) ≡ length xs
    length-map h [] = refl
    length-map h (x ∷ xs) = ap suc (length-map h xs)

    get_elem?-map :
        {A B : Type 0} (h : A → B) (xs : List A) (i : ℕ) (a : A)
        → get_elem? xs i ≡ some a
        → get_elem? (map h xs) i ≡ some (h a)
    get_elem?-map h [] i a e = cc
    get_elem?-map h (x ∷ xs) zero a e =
        ap (λ (o : Option _). elim o [ none ↦ none | some b ↦ some (h b) ]) e
    get_elem?-map h (x ∷ xs) (suc i) a e = get_elem?-map h xs i a e

    indicator_area-Knows : Knows g fits (suc k) d start end part 1 (indicated u) indicator_area
    unfolding indicator_area
    indicator_area-Knows c at = (
      held c (
          subst (InBlock g) (along-zero d c) (
            level-InBlock g d start end c part (suc k) 1 (pos 0) (omega arith) at (omega int_laws)
              (omega int_laws))),
      held (prev d c) (
          level-InBlock g d start end c part (suc k) 1 (negsuc 0) (omega arith) at (omega int_laws)
            (omega int_laws)),
    )
      where
        held : (b : Vec3 ℤ) → InBlock g b → Holds g indicator_area b (indicated u b)
        held b in_block =
            get_elem?-map (indicator 0) u.cells (index g b) (copied nought g u 0 b)
              (copied-Holds nought g fits u u_sized b in_block)

    -- A call leaves arrays that the next call may start with, and the values of the chosen stencils.
    abbrev IsDone : List (Views R) × (Views C × Views C) → Type 0
    IsDone p =
        AllSized g k p.0
        × AreSized g fits p.1
        × ((c : Vec3 ℤ)
            → InSweep (suc k) g d start end c
            → Holds g p.1.0 c (eno_at u d c).0 × Holds g p.1.1 c (eno_at u d c).1)

    module _ (asserted : (K : ℕ) → K < suc k → difference_fits K d g ≡ true)
        (interior : eno_fits (suc k) d g ≡ true) (below : d < 3) (arrays : List (Views R))
        (usable : AreUsable arrays) (s : Views C × Views C) (sized : AreSized g fits s) where
      perform_in : Shape → ℕ → Result (List (Views R) × (Views C × Views C))
      perform_in h size = guard (ltb d 3) unsupported_direction >>= λ _.
          sized_arrays (suc k) h size arrays >>= λ fresh.
          compute_levels (suc k) 1 d (record { shape = h; cells = map (indicator 0) u.cells }) fresh
            start end
          >>= λ arrays'. guard (eno_fits (suc k) d h) undefined >>= λ _.
              try_nest (starts (eno_start (suc k)) h d start) (ends (eno_end (suc k)) h d end)
                (eno_cell (suc k) nought plus scale indicator h d arrays' u) s
              >>= λ outputs. ok (arrays', outputs)

      perform_in-IsDone : Gives IsDone (perform_in g (g.nx * g.ny * g.nz))
      unfolding perform_in indicator_area
      perform_in-IsDone = rw (lt→ltb d 3 below) (
          Gives-bind (sized_arrays-AllSized arrays usable) λ fresh all.
            Gives-bind
              (compute_levels-AllDiffer g fits (suc k) d start end part k 1 (indicated u)
                indicator_area fresh (omega arith) (λ K h. asserted K (omega arith))
                (refl, length-map (indicator 0) u.cells ∙ u_sized.1) indicator_area-Knows all)
              λ arrays' made. rw interior (
                Gives-bind
                  (sweep g fits _ _ inside (eno_at u d)
                    (eno_cell (suc k) nought plus scale indicator g d arrays' u)
                    (eno_cell-Stored arrays' made) s sized)
                  λ outputs (sized', known). gives (
                    AllDiffer-AllSized g fits (suc k) d start end part k 1 (indicated u) arrays'
                        made,
                    sized',
                    known,
                  )))

      pub perform_eno-IsDone :
          Gives IsDone
            (perform_eno (suc k) nought plus scale indicator arrays u d 0 s.0 s.1 start end)
      unfolding perform_eno perform_in
      perform_eno-IsDone =
          subst (λ h. Gives IsDone (perform_in h (length u.cells))) (sym u_sized.0)
            (subst (λ n. Gives IsDone (perform_in g n)) (sym u_sized.1) perform_in-IsDone)

  -- `ENOCPU` of order k + 1 keeps the promise of a reconstruction of width 1 and reach `k`, whatever its
  -- arrays of differences held before, where the order is at least 2, each direction with more than
  -- one cell has k + 1 ghost layers, and the assertions hold.
  pub eno_cpu-IsReconstruction :
      (dimension : ℕ)
      → dimension ≤ 3
      → 1 ≤ k
      → HasLayers (suc k) g
      → ((d : ℕ) → d < dimension → IsUsed g d)
      → ((d : ℕ) → d < dimension → (K : ℕ) → K < suc k → difference_fits K d g ≡ true)
      → ((d : ℕ) → d < dimension → eno_fits (suc k) d g ≡ true)
      → (arrays : List (Views R)) → AreUsable arrays
      → IsReconstruction g dimension 1 k
          (λ u d c. (eno_at u d c).0)
          (λ u d c. (eno_at u d c).1)
          (eno_cpu (suc k) nought plus scale indicator arrays)
  unfolding eno_cpu
  eno_cpu-IsReconstruction dimension most h layers_of used asserted interior arrays usable =
      record {
        performs = λ u left right d start end u_sized l_sized r_sized below part.
            Gives-bind
              (perform_eno-IsDone u u_sized d start end part (used d below) (asserted d below)
                (interior d below) (omega arith) arrays usable (left, right) (l_sized, r_sized))
              λ p (_, (l, r), known). gives (
                l,
                r,
                λ c at. known c (
                    region-InSweep g d start end c (suc k) (omega arith) layers_of (used d below)
                      at),
              );
        local = λ u u' d lo hi agree c at.
            let same = eno_at-local u u' d lo hi agree c at h in
            (ap (λ (p : C × C). p.0) same, ap (λ (p : C × C). p.1) same);
      }
