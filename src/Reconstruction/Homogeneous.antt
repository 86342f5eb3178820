-- ===== src/Reconstruction/Homogeneous.antt =====
-- The values of NoReconstruction.cpp and ReconstructionCPU.cpp (alsfvm/src/reconstruction) do not depend
-- on where the cells are.
use alsvinn.Base.{ℕ, ◌≡◌, ap, sym, ◌∙◌, get_elem?}
use alsvinn.Base.Int.{ℤ, pos, negsuc, int_laws}
use alsvinn.Vec.{Vec3}
use alsvinn.Views.{Shape, Views, index}
use alsvinn.Numflux.{along}
use alsvinn.Numflux.Neighbours.{along-zero}
use alsvinn.Numflux.Periodic.{IsHomogeneous}
use alsvinn.Reconstruction.{Limiter}
use alsvinn.Reconstruction.Copy.{copied, get_or-eq}
use alsvinn.Reconstruction.ThreePoint.{limited_at}

module _ {C : Type 0} (nought : C) (g : Shape) where
  copied-same :
      (u : Views C) (d : ℕ) (c c' : Vec3 ℤ) (s : ℤ)
      → get_elem? u.cells (index g (along d s c)) ≡ get_elem? u.cells (index g (along d s c'))
      → copied nought g u d (along d s c) ≡ copied nought g u d (along d s c')
  copied-same u d c c' s =
      get_or-eq u.cells u.cells (index g (along d s c)) (index g (along d s c')) nought

  middle-same :
      (u : Views C) (d : ℕ) (c c' : Vec3 ℤ)
      → get_elem? u.cells (index g (along d (pos 0) c))
        ≡ get_elem? u.cells (index g (along d (pos 0) c'))
      → copied nought g u d c ≡ copied nought g u d c'
  middle-same u d c c' same =
      ap (copied nought g u d) (sym (along-zero d c))
      ∙ copied-same u d c c' (pos 0) same
      ∙ ap (copied nought g u d) (along-zero d c')

  pub copied-IsHomogeneous : IsHomogeneous g 0 (copied nought g) (copied nought g)
  copied-IsHomogeneous u d c c' same =
      let here = middle-same u d c c' (same (pos 0) (omega int_laws) (omega int_laws)) in
      (here, here)

  pub limited_at-IsHomogeneous :
      (limiter : Limiter C)
      → IsHomogeneous g 1
          (λ u d c. (limited_at limiter nought g u d c).0)
          (λ u d c. (limited_at limiter nought g u d c).1)
  limited_at-IsHomogeneous limiter u d c c' same =
      let before =
        copied-same u d c c' (negsuc 0) (same (negsuc 0) (omega int_laws) (omega int_laws)) in
      let here = middle-same u d c c' (same (pos 0) (omega int_laws) (omega int_laws)) in
      let after = copied-same u d c c' (pos 1) (same (pos 1) (omega int_laws) (omega int_laws)) in
      (
        λ i. (limiter.reconstruct (before i) (here i) (after i)).0,
        λ i. (limiter.reconstruct (before i) (here i) (after i)).1,
      )
