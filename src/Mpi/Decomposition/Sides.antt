-- ===== src/Mpi/Decomposition/Sides.antt =====
-- `decompose` as a whole (alsfvm/src/mpi/domain/CartesianDecomposition.cpp).
use native.Mathlib.Nat.{mod-add-div'}
use alsvinn.Base.{
  ℕ, zero, suc, ◌*◌, ◌/◌, ◌%◌, ◌≤◌, ◌<◌, ◌≡◌, refl, sym, ◌∙◌, ap, ap₂, arith, subst, Bool, true,
  Bool-cases, inl, inr, Result, ok, ◌>>=◌, try_range, Gives, gives, Gives-bind, try_range-Gives,
  ◌⊎◌,
}
use alsvinn.Base.Int.{◌/ℤ◌, ◌*ℤ◌, pos-*ℤ-pos, ℤ, pos, negsuc}
use alsvinn.Base.Real.{Real}
use alsvinn.Vec.{Vec3, comp, map3, vec3, zip3, Vec6, comp6, set_comp6, all6}
use alsvinn.Grid.{
  BoundaryType, mpi_bc, Grid, get_active_dimension, get_boundary_condition, make_grid_with_lengths,
}
use alsvinn.Mpi.Cartesian.{get_coordinates}
use alsvinn.Mpi.Decomposition.{
  DomainInformation, check_divisible, decompose, decompose_side, neighbour_of, condition_of,
  keeps_boundary, cells_per_processor, start_index,
}
use alsvinn.Mpi.Positions.{coordinates, get_coordinates-map, coordinates-IsInside}
use alsvinn.Mpi.Decomposition.Described.{IsSide, neighbour_of-IsSide}
use alsvinn.Mpi.Decomposition.Division.{HasProcesses, check_divisible-ok}
use alsvinn.Mpi.Decomposition.Neighbours.{neighbour_of-kept, neighbour_of-next}

lt_or_eq : (s k : ℕ) → s < suc k → (s < k) ⊎ (s ≡ k)
lt_or_eq s k h = ground arith

-- Writing one component of six leaves the others.
comp6-set_comp6 : {A : Type 0} (v : Vec6 A) (k : ℕ) (a : A) → k < 6 → comp6 (set_comp6 v k a) k ≡ a
comp6-set_comp6 v zero a h = refl
comp6-set_comp6 v (suc zero) a h = refl
comp6-set_comp6 v (suc (suc zero)) a h = refl
comp6-set_comp6 v (suc (suc (suc zero))) a h = refl
comp6-set_comp6 v (suc (suc (suc (suc zero)))) a h = refl
comp6-set_comp6 v (suc (suc (suc (suc (suc k))))) a h = refl

comp6-set_comp6_ne :
    {A : Type 0} (v : Vec6 A) (k j : ℕ) (a : A)
    → j < k
    → k < 6
    → comp6 (set_comp6 v k a) j ≡ comp6 v j
comp6-set_comp6_ne v k j a h hk = ground arith

module _ {R : Type 0} (g : Grid R) (n : Vec3 ℕ) (r : ℕ) (small : r < n.x * n.y * n.z) where
  abbrev position : Vec3 ℤ
  position = get_coordinates (pos r) (map3 pos n)

  -- The two arrays agree with `neighbour_of` and `condition_of` below `side`.
  pub IsFilled : ℕ → Vec6 ℤ × Vec6 BoundaryType → Type 0
  IsFilled side (nb, bc) =
      (s : ℕ)
      → s < side
      → (neighbour_of g (map3 pos n) position s ≡ ok (comp6 nb s))
        × (comp6 bc s ≡ condition_of g (map3 pos n) position s)

  neighbour_of-ok : (side : ℕ) → (q : ℤ) × (neighbour_of g (map3 pos n) position side ≡ ok q)
  neighbour_of-ok side =
      let c = coordinates n r in
      let k =
        keeps_boundary side (get_boundary_condition g side) (pos (comp c (side / 2)))
          (pos (comp n (side / 2))) in
      let ask = λ (t : Vec3 ℤ). (q : ℤ) × (neighbour_of g (map3 pos n) t side ≡ ok q) in
      let answer : ask (map3 pos c) = elim (Bool-cases k) [
        | inl kept ↦ (negsuc 0, neighbour_of-kept g n c side kept)
        | inr moves ↦ (_, neighbour_of-next g n c side (coordinates-IsInside n r small) moves)
      ] in
      subst ask (sym (get_coordinates-map n r)) answer

  decompose_side-Gives :
      (side : ℕ) (s : Vec6 ℤ × Vec6 BoundaryType)
      → side < 6
      → IsFilled side s
      → Gives (IsFilled (suc side)) (decompose_side g (map3 pos n) position side s)
  unfolding decompose_side IsFilled
  decompose_side-Gives side (nb, bc) h filled =
      let (q, e) = neighbour_of-ok side in
      let new = condition_of g (map3 pos n) position side in
      let nb' = set_comp6 nb side q in
      let bc' = set_comp6 bc side new in
      let result : Gives (IsFilled (suc side)) (ok (nb', bc')) = gives (λ s below.
        elim (lt_or_eq s side below) [
          | inl lt ↦
              let (a, b) = filled s lt in
              (
                a ∙ ap ok (sym (comp6-set_comp6_ne nb side s q lt h)),
                comp6-set_comp6_ne bc side s new lt h ∙ b,
              )
          | inr eq ↦
              subst
                (λ (t : ℕ).
                  (neighbour_of g (map3 pos n) position t ≡ ok (comp6 nb' t))
                  × (comp6 bc' t ≡ condition_of g (map3 pos n) position t))
                (sym eq)
                (e ∙ ap ok (sym (comp6-set_comp6 nb side q h)), comp6-set_comp6 bc side new h)
        ]) in
      subst
        (λ (m : Result ℤ).
          Gives (IsFilled (suc side)) (m >>= λ index. ok (set_comp6 nb side index, bc')))
        (sym e) result

  pub fill_sides-Gives :
      (rounds : ℕ)
      → rounds ≤ 6
      → Gives
          (IsFilled rounds)
          (try_range rounds 0 (decompose_side g (map3 pos n) position) (all6 (pos 0), all6 mpi_bc))
  unfolding IsFilled
  fill_sides-Gives rounds h =
      try_range-Gives IsFilled rounds (decompose_side g (map3 pos n) position) rounds 0 _
        (omega arith) (λ k t lo hi. decompose_side-Gives k t (omega arith))
        (λ s below. absurd (omega arith))

pub active_bound : {R : Type 0} (g : Grid R) → 2 * get_active_dimension g ≤ 6
unfolding get_active_dimension
active_bound g = ground arith

-- What `decompose` returns for the process of a rank: the neighbour and the condition of each active
-- side, and in each direction the number of cells of the box, its first cell and the number of cells of
-- the whole grid.
abbrev pub IsDecomposed : {R : Type 0} → Grid R → (d n : Vec3 ℕ) → ℕ → DomainInformation R → Type 0
IsDecomposed g d n r info =
    let c = coordinates n r in
    ((side : ℕ)
      → side < 2 * get_active_dimension g
      → IsSide g n c side (comp6 info.neighbours side) (comp6 info.grid.boundary_conditions side))
    × ((a : ℕ)
        → a < 3
        → (cells : ℕ) × (cells * comp n a ≡ comp d a)
          × (comp info.grid.dimensions a ≡ pos cells)
          × (comp info.grid.global_position a ≡ pos (cells * comp c a)))
    × (info.grid.global_size ≡ map3 pos d)

-- The processes divide the cells in each direction.
abbrev pub IsEven : Vec3 ℕ → Vec3 ℕ → Type 0
IsEven d n = (d.x % n.x ≡ 0) × (d.y % n.y ≡ 0) × (d.z % n.z ≡ 0)

quotient : (a b : ℕ) → a % b ≡ 0 → a / b * b ≡ a
quotient a b e = omega (arith, e, mod-add-div' a b)

-- An arrangement with a rank has a process in each direction.
pub processes : (n : Vec3 ℕ) (r : ℕ) → r < n.x * n.y * n.z → HasProcesses n
processes n r h = (grind arith, grind arith, grind arith)

module _ {R : Type 0} (g : Grid R) (d n : Vec3 ℕ) (sizes : g.dimensions ≡ map3 pos d) where
  cells_per_processor-map : cells_per_processor g (map3 pos n) ≡ map3 pos (zip3 ◌/◌ d n)
  unfolding cells_per_processor ◌/ℤ◌
  cells_per_processor-map = ap (λ (t : Vec3 ℤ). zip3 ◌/ℤ◌ t (map3 pos n)) sizes

  start_index-map :
      (r : ℕ)
      → start_index g (map3 pos n) (pos r) ≡ map3 pos (zip3 ◌*◌ (zip3 ◌/◌ d n) (coordinates n r))
  unfolding start_index
  start_index-map r =
      ap₂ (zip3 ◌*ℤ◌) cells_per_processor-map (get_coordinates-map n r)
      ∙ products (zip3 ◌/◌ d n) (coordinates n r)
    where
      products : (v w : Vec3 ℕ) → zip3 ◌*ℤ◌ (map3 pos v) (map3 pos w) ≡ map3 pos (zip3 ◌*◌ v w)
      products v w i = vec3 (pos-*ℤ-pos v.x w.x i) (pos-*ℤ-pos v.y w.y i) (pos-*ℤ-pos v.z w.z i)

  box :
      (r : ℕ)
      → IsEven d n
      → (a : ℕ) → a < 3
      → (cells : ℕ) × (cells * comp n a ≡ comp d a)
        × (comp (cells_per_processor g (map3 pos n)) a ≡ pos cells)
        × (comp (start_index g (map3 pos n) (pos r)) a ≡ pos (cells * comp (coordinates n r) a))
  box r (ex, ey, ez) a h = rw (cells_per_processor-map, start_index-map r) (of_axis a h)
    where
      of_axis :
          (a : ℕ)
          → a < 3
          → (cells : ℕ) × (cells * comp n a ≡ comp d a)
            × (comp (map3 pos (zip3 ◌/◌ d n)) a ≡ pos cells)
            × (comp (map3 pos (zip3 ◌*◌ (zip3 ◌/◌ d n) (coordinates n r))) a
                ≡ pos (cells * comp (coordinates n r) a))
      of_axis zero h = (d.x / n.x, quotient d.x n.x ex, refl, refl)
      of_axis (suc zero) h = (d.y / n.y, quotient d.y n.y ey, refl, refl)
      of_axis (suc (suc a)) h = (d.z / n.z, quotient d.z n.z ez, refl, refl)

  described :
      (r : ℕ)
      → r < n.x * n.y * n.z
      → (side : ℕ) (q : ℤ) (b : BoundaryType)
      → neighbour_of g (map3 pos n) (get_coordinates (pos r) (map3 pos n)) side ≡ ok q
      → b ≡ condition_of g (map3 pos n) (get_coordinates (pos r) (map3 pos n)) side
      → IsSide g n (coordinates n r) side q b
  described r h side q b e f =
      subst (IsSide g n (coordinates n r) side q)
        (sym (f ∙ ap (λ t. condition_of g (map3 pos n) t side) (get_coordinates-map n r)))
        (neighbour_of-IsSide g n (coordinates n r) (coordinates-IsInside n r h) side q
          (ap (λ t. neighbour_of g (map3 pos n) t side) (sym (get_coordinates-map n r)) ∙ e))

module _ {R : Type 0} ⦃real : Real R⦄ (g : Grid R) (d n : Vec3 ℕ)
    (sizes : g.dimensions ≡ map3 pos d) where
  pub even_check : HasProcesses n → IsEven d n → check_divisible g.dimensions (map3 pos n) ≡ ok tt
  even_check some_processes (ex, ey, ez) =
      ap (λ (t : Vec3 ℤ). check_divisible t (map3 pos n)) sizes
      ∙ check_divisible-ok d n some_processes ex ey ez

  -- On a grid that the processes divide in each direction `decompose` does not throw, for any process
  -- on the CPU. Each active side of the result has the neighbour and the condition that the place of the
  -- process in the arrangement asks for, and the box has its share of the cells in each direction and
  -- starts behind those of the processes before.
  pub decompose-Gives :
      (has_cuda : Bool) (r : ℕ)
      → r < n.x * n.y * n.z
      → IsEven d n
      → Gives
          (IsDecomposed g d n r)
          (decompose has_cuda (map3 pos n) record { rank = pos r; is_cpu = true } g)
  unfolding decompose make_grid_with_lengths IsFilled
  decompose-Gives has_cuda r h even = rw (even_check (processes n r h) even) (
      Gives-bind (fill_sides-Gives g n r h (2 * get_active_dimension g) (active_bound g))
        λ s filled. gives (
          (λ side lt. let (e, f) = filled side lt in described g d n sizes r h side _ _ e f),
          box g d n sizes r even,
          sizes,
        ))
