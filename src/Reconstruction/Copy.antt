-- ===== src/Reconstruction/Copy.antt =====
-- NoReconstruction (alsfvm/src/reconstruction/NoReconstruction.cpp) as a reconstruction of any width.
use alsvinn.Base.{
  ℕ, ◌≤◌, ◌<◌, ◌≡◌, refl, ap, sym, subst, ◌∙◌, Bool, true, false, ◌==◌, to_nat, Gives, Gives-map,
  get_elem?, get_or, some, none, Option, List, [], ◌∷◌, arith, suc, zero, length,
}
use alsvinn.Base.Int.{ℤ, pos, ◌+ℤ◌, ◌-ℤ◌, ◌*ℤ◌, ◌≤ℤ◌, ◌<ℤ◌, int_laws, one-*ℤ, zero-*ℤ}
use alsvinn.Vec.{Vec3, vec3}
use alsvinn.Views.{Shape, Views, index, fetch, Fits, InBlock, IsSized, Holds, index-lt}
use alsvinn.Numflux.{along, direction_vector, lower, upper}
use alsvinn.Numflux.Values.{InWide}
use alsvinn.Numflux.Interface.{layers, IsPart, IsReconstruction}
use alsvinn.Numflux.Regions.{layers-cases}
use alsvinn.Reconstruction.Sweeps.{store-Stored, sweep}
use alsvinn.Reconstruction.{copy_cell, copy_loop, copy_cells, no_reconstruction}

pub get_elem?-get_or :
    {A : Type 0} (xs : List A) (i : ℕ) (d : A)
    → i < length xs
    → get_elem? xs i ≡ some (get_or xs i d)
get_elem?-get_or [] i d h = absurd (omega arith)
get_elem?-get_or (x ∷ xs) zero d h = refl
get_elem?-get_or (x ∷ xs) (suc i) d h = get_elem?-get_or xs i d (omega arith)

abbrev value_or : {A : Type 0} → A → Option A → A
value_or d none = d
value_or d (some a) = a

get_or-value :
    {A : Type 0} (xs : List A) (i : ℕ) (d : A) → get_or xs i d ≡ value_or d (get_elem? xs i)
get_or-value [] i d = refl
get_or-value (x ∷ xs) zero d = refl
get_or-value (x ∷ xs) (suc i) d = get_or-value xs i d

pub get_or-eq :
    {A : Type 0} (xs ys : List A) (i j : ℕ) (d : A)
    → get_elem? xs i ≡ get_elem? ys j
    → get_or xs i d ≡ get_or ys j d
get_or-eq xs ys i j d e = get_or-value xs i d ∙ ap (value_or d) e ∙ sym (get_or-value ys j d)

pub get_or-cong :
    {A : Type 0} (xs ys : List A) (i : ℕ) (d : A)
    → get_elem? xs i ≡ get_elem? ys i
    → get_or xs i d ≡ get_or ys i d
get_or-cong xs ys i = get_or-eq xs ys i i

-- One coordinate of a cell of a widened region
wide_bound :
    (n ng m : ℕ) (start end i : ℤ)
    → m ≤ ng
    → pos 0 ≤ℤ start
    → end ≤ℤ pos 0
    → (pos ng +ℤ start +ℤ (pos 0 -ℤ pos m)) ≤ℤ i
    → i <ℤ (pos n -ℤ pos ng +ℤ end +ℤ pos m)
    → (pos 0 ≤ℤ i) × (i <ℤ pos n)
wide_bound n ng m start end i h s0 e0 p q = (omega int_laws, omega int_laws)

wide_part :
    (e : Bool) (n ng m : ℕ) (start end i : ℤ)
    → (e ≡ true → m ≤ ng)
    → pos 0 ≤ℤ start
    → end ≤ℤ pos 0
    → (pos ng +ℤ start +ℤ pos (to_nat e) *ℤ (pos 0 -ℤ pos m)) ≤ℤ i
    → i <ℤ (pos n -ℤ pos ng +ℤ end +ℤ pos (to_nat e) *ℤ pos m)
    → (pos 0 ≤ℤ i) × (i <ℤ pos n)
unfolding ◌-ℤ◌
wide_part true n ng m start end i ghost s0 e0 p q =
    wide_bound n ng m start end i (ghost refl) s0 e0
      (subst (λ a. (pos ng +ℤ start +ℤ a) ≤ℤ i) (one-*ℤ _) p)
      (subst (λ a. i <ℤ (pos n -ℤ pos ng +ℤ end +ℤ a)) (one-*ℤ _) q)
wide_part false n ng m start end i ghost s0 e0 p q =
    wide_bound n ng 0 start end i (omega arith) s0 e0
      (subst (λ a. (pos ng +ℤ start +ℤ a) ≤ℤ i) (zero-*ℤ _) p)
      (subst (λ a. i <ℤ (pos n -ℤ pos ng +ℤ end +ℤ a)) (zero-*ℤ _) q)

pub wide-inside :
    (g : Shape) (d m : ℕ) (start end : Vec3 ℤ)
    → m ≤ layers g d
    → IsPart start end
    → (c : Vec3 ℤ) → InWide d m (lower g start) (upper g end) c
    → InBlock g c
unfolding along direction_vector lower upper
wide-inside g d m start end ghost ((sx, ex), (sy, ey), (sz, ez)) c ((x0, x1), (y0, y1), (z0, z1)) =
    let (gx, gy, gz) = layers-cases g d m ghost in
    (
      wide_part (d == 0) g.nx g.ngx m start.x end.x c.x gx sx ex x0 x1,
      wide_part (d == 1) g.ny g.ngy m start.y end.y c.y gy sy ey y0 y1,
      wide_part (d == 2) g.nz g.ngz m start.z end.z c.z gz sz ez z0 z1,
    )

-- What the input holds at a cell
abbrev pub copied : {C : Type 0} → C → Shape → Views C → ℕ → Vec3 ℤ → C
copied nought g u d c = get_or u.cells (index g c) nought

module _ {C : Type 0} (nought : C) (g : Shape) (fits : Fits g) where
  pub copied-Holds :
      (u : Views C) → IsSized g u → (c : Vec3 ℤ) → InBlock g c → Holds g u c (copied nought g u 0 c)
  copied-Holds u sized c at =
      get_elem?-get_or u.cells (index g c) nought (omega (arith, index-lt g fits c at, sized.1))

  abbrev AreCopied : Views C → Views C × Views C → Type 0
  AreCopied u s =
      IsSized g s.0
      × IsSized g s.1
      × ((c : Vec3 ℤ)
          → InBlock g c
          → Holds g s.0 c (copied nought g u 0 c) × Holds g s.1 c (copied nought g u 0 c))

  copy_cells-AreCopied :
      (u left right : Views C) (d : ℕ) (start end : Vec3 ℤ)
      → IsSized g u
      → IsSized g left
      → IsSized g right
      → Gives (AreCopied u) (copy_cells u d 0 left right start end)
  unfolding copy_cells copy_loop copy_cell fetch
  copy_cells-AreCopied u left right d start end u_sized l_sized r_sized =
      subst (λ h. Gives (AreCopied u) (copy_loop h u (left, right))) (sym u_sized.0)
        (Gives-map
          (sweep g fits first last (λ c at. at) value (copy_cell g u)
            (λ c at s sized.
              rw (copied-Holds u u_sized c at)
                (store-Stored g fits first last (λ b in_block. in_block) value c at s sized))
            (left, right) (l_sized, r_sized))
          (λ s ((l, r), each). (l, r, each)))
    where
      first : Vec3 ℤ
      first = vec3 (pos 0) (pos 0) (pos 0)

      last : Vec3 ℤ
      last = vec3 (pos g.nx) (pos g.ny) (pos g.nz)

      value : Vec3 ℤ → C × C
      value c = (copied nought g u 0 c, copied nought g u 0 c)

  -- `NoReconstruction` keeps the promise of a reconstruction where the direction has the ghost layers.
  pub no_reconstruction-IsReconstruction :
      (dimension n : ℕ)
      → ((d : ℕ) → d < dimension → n ≤ layers g d)
      → IsReconstruction g dimension n 0
          (copied nought g)
          (copied nought g)
          (no_reconstruction {C = C})
  unfolding no_reconstruction
  no_reconstruction-IsReconstruction dimension n ghost = record {
    performs = λ u left right d start end u_sized l_sized r_sized below part.
        Gives-map (copy_cells-AreCopied u left right d start end u_sized l_sized r_sized)
          λ s (l, r, known).
            (l, r, λ c at. known c (wide-inside g d n start end (ghost d below) part c at));
    local = λ u u' d lo hi agree c at.
        let same =
          get_or-cong u.cells u'.cells (index g c) nought
            (agree c (subst (λ m. InWide d m lo hi c) (omega arith) at)) in
        (same, same);
  }
