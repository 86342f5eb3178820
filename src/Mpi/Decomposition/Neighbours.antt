-- ===== src/Mpi/Decomposition/Neighbours.antt =====
-- The neighbours of a process (alsfvm/src/mpi/domain/CartesianDecomposition.cpp).
use native.Mathlib.Nat.{mod_self, mod-eq_of_lt}
use alsvinn.Base.{
  ℕ, suc, ◌+◌, ◌-◌, ◌*◌, ◌/◌, ◌%◌, ◌<◌, ◌≡◌, sym, ◌∙◌, ap, arith, subst, Bool, true, false, ◌==◌,
  inl, inr, Bool-cases, if◌then◌else◌, ok,
}
use alsvinn.Base.Int.{ℤ, pos, negsuc, ◌+ℤ◌, ◌-ℤ◌, ◌%ℤ◌}
use alsvinn.Vec.{Vec3, comp, set_comp, map3}
use alsvinn.Grid.{BoundaryType, Grid, get_boundary_condition}
use alsvinn.Mpi.Cartesian.{get_coordinates, get_rank_index}
use alsvinn.Mpi.Positions.{
  rank_of, IsInside, comp-pos, set_comp-pos, comp-set_comp, set_comp-back, IsInside-comp,
  IsInside-set_comp, get_rank_index-map, rank_of-lt, coordinates, get_coordinates-map,
  coordinates-IsInside, rank_of-coordinates, coordinates-rank_of,
}
use alsvinn.Mpi.Decomposition.{
  is_periodic, is_outermost, keeps_boundary, shifted, neighbour_entry, neighbour_of,
}

-- The coordinate next to `c` of `p`, round the end.
abbrev pub next : ℕ → ℕ → ℕ → ℕ
next side c p =
    if side % 2 == 0 then (if c == 0 then p - 1 else c - 1) else (if suc c == p then 0 else suc c)

shifted-next : (side c p : ℕ) → c < p → shifted side (pos c) (pos p) ≡ pos (next side c p)
unfolding shifted ◌+ℤ◌ ◌%ℤ◌
shifted-next side c p h = ground (
  arith,
  mod-eq_of_lt {n = c - 1} {m = p},
  mod-eq_of_lt {n = p - 1} {m = p},
  mod-eq_of_lt {n = suc c} {m = p},
  mod_self p,
)

next_lt : (side c p : ℕ) → c < p → next side c p < p
next_lt side c p h = ground arith

abbrev pub opposite : ℕ → ℕ
opposite side = (side % 2 + 1) % 2 + side / 2 * 2

next-opposite : (side c p : ℕ) → c < p → next (opposite side) (next side c p) p ≡ c
next-opposite side c p h = ground arith

keeps_opposite :
    (side c p : ℕ) (b b' : BoundaryType)
    → c < p
    → is_periodic b ≡ is_periodic b'
    → keeps_boundary side b (pos c) (pos p) ≡ false
    → keeps_boundary (opposite side) b' (pos (next side c p)) (pos p) ≡ false
unfolding keeps_boundary is_outermost ◌-ℤ◌
keeps_opposite side c p b b' h e k = ground arith

neighbour_entry-pos : (a : ℕ) → neighbour_entry false (pos a) ≡ ok (pos a)
unfolding neighbour_entry
neighbour_entry-pos a = ground arith

module _ {R : Type 0} (g : Grid R) (n : Vec3 ℕ) where
  -- The neighbour of a process that keeps no boundary on the side.
  pub neighbour_of-next :
      (c : Vec3 ℕ) (side : ℕ)
      → IsInside n c
      → let d = side / 2 in
        keeps_boundary side (get_boundary_condition g side) (pos (comp c d)) (pos (comp n d))
          ≡ false
        → neighbour_of g (map3 pos n) (map3 pos c) side
          ≡ ok (pos (rank_of n (set_comp c d (next side (comp c d) (comp n d)))))
  unfolding neighbour_of
  neighbour_of-next c side h k =
      let d = side / 2 in
      let inside = IsInside-comp n c d h in
      let a = next side (comp c d) (comp n d) in
      let P = λ (t : ℤ) (u : ℤ).
        neighbour_entry (keeps_boundary side (get_boundary_condition g side) t u)
          (get_rank_index (set_comp (map3 pos c) d (shifted side t u)) (map3 pos n))
        ≡ ok (pos (rank_of n (set_comp c d a))) in
      let e : P (pos (comp c d)) (pos (comp n d)) =
        rw
          (
            k,
            shifted-next side (comp c d) (comp n d) inside,
            set_comp-pos c d a,
            get_rank_index-map n (set_comp c d a)
                (IsInside-set_comp n c d a h (next_lt side (comp c d) (comp n d) inside)),
          )
          (neighbour_entry-pos (rank_of n (set_comp c d a))) in
      rw (comp-pos c d, comp-pos n d) e

  neighbour_of-axis :
      (c : Vec3 ℕ) (side d : ℕ)
      → side / 2 ≡ d
      → IsInside n c
      → keeps_boundary side (get_boundary_condition g side) (pos (comp c d)) (pos (comp n d))
        ≡ false
      → neighbour_of g (map3 pos n) (map3 pos c) side
        ≡ ok (pos (rank_of n (set_comp c d (next side (comp c d) (comp n d)))))
  neighbour_of-axis c side d e h =
      subst
        (λ (t : ℕ).
          keeps_boundary side (get_boundary_condition g side) (pos (comp c t)) (pos (comp n t))
            ≡ false
          → neighbour_of g (map3 pos n) (map3 pos c) side
            ≡ ok (pos (rank_of n (set_comp c t (next side (comp c t) (comp n t))))))
        e (neighbour_of-next c side h)

  pub neighbour_of-kept :
      (c : Vec3 ℕ) (side : ℕ)
      → let d = side / 2 in
        keeps_boundary side (get_boundary_condition g side) (pos (comp c d)) (pos (comp n d)) ≡ true
        → neighbour_of g (map3 pos n) (map3 pos c) side ≡ ok (negsuc 0)
  unfolding neighbour_of neighbour_entry
  neighbour_of-kept c side k =
      let d = side / 2 in
      let e =
        ap
          (λ (b : Bool). neighbour_entry b (
            get_rank_index
              (set_comp (map3 pos c) d (shifted side (comp (map3 pos c) d) (comp (map3 pos n) d)))
              (map3 pos n)))
          (subst
            (λ (t : ℤ).
              keeps_boundary side (get_boundary_condition g side) t (comp (map3 pos n) d) ≡ true)
            (sym (comp-pos c d))
            (subst
              (λ (t : ℤ).
                keeps_boundary side (get_boundary_condition g side) (pos (comp c d)) t ≡ true)
              (sym (comp-pos n d)) k)) in
      e

module _ {R : Type 0} (g : Grid R) (n : Vec3 ℕ) where
  abbrev pub IsPaired : ℕ → Type 0
  IsPaired side =
      is_periodic (get_boundary_condition g side)
      ≡ is_periodic (get_boundary_condition g (opposite side))

  -- The neighbour on the side finds the process on its opposite side.
  back_lem :
      (c : Vec3 ℕ) (side : ℕ)
      → IsInside n c
      → IsPaired side
      → let d = side / 2 in
        keeps_boundary side (get_boundary_condition g side) (pos (comp c d)) (pos (comp n d))
          ≡ false
        → neighbour_of g
            (map3 pos n)
            (map3 pos (set_comp c d (next side (comp c d) (comp n d))))
            (opposite side)
          ≡ ok (pos (rank_of n c))
  back_lem c side h paired moves =
      let d = side / 2 in
      let k = comp c d in
      let m = comp n d in
      let a = next side k m in
      let c' = set_comp c d a in
      let inside = IsInside-comp n c d h in
      let h' = IsInside-set_comp n c d a h (next_lt side k m inside) in
      let there = comp-set_comp c d a in
      let stays =
        subst
          (λ (t : ℕ).
            keeps_boundary (opposite side) (get_boundary_condition g (opposite side)) (pos t)
              (pos m)
            ≡ false)
          (sym there)
          (keeps_opposite side k m (get_boundary_condition g side)
            (get_boundary_condition g (opposite side)) inside paired moves) in
      let e : next (opposite side) (comp c' d) m ≡ k =
        ap (λ (t : ℕ). next (opposite side) t m) there ∙ next-opposite side k m inside in
      neighbour_of-axis g n c' (opposite side) d (omega arith) h' stays
      ∙ ap (λ (t : ℕ). ok (pos (rank_of n (set_comp c' d t)))) e
      ∙ ap (λ (t : Vec3 ℕ). ok (pos (rank_of n t))) (set_comp-back c d a)

  opposite_neighbour :
      (c : Vec3 ℕ) (side q : ℕ)
      → IsInside n c
      → IsPaired side
      → neighbour_of g (map3 pos n) (map3 pos c) side ≡ ok (pos q)
      → (c' : Vec3 ℕ) × IsInside n c'
        × (q ≡ rank_of n c')
        × (neighbour_of g (map3 pos n) (map3 pos c') (opposite side) ≡ ok (pos (rank_of n c)))
  opposite_neighbour c side q h paired e =
      let d = side / 2 in
      let k = comp c d in
      let m = comp n d in
      let b = get_boundary_condition g side in
      let a = next side k m in
      let c' = set_comp c d a in
      let inside = IsInside-comp n c d h in
      let h' = IsInside-set_comp n c d a h (next_lt side k m inside) in
      elim (Bool-cases (keeps_boundary side b (pos k) (pos m))) [
        | inl kept ↦ cc (neighbour_of-kept g n c side kept, e)
        | inr moves ↦
            (c', h', cc (neighbour_of-next g n c side h moves, e), back_lem c side h paired moves)
      ]

  -- The neighbours of `decompose` are mutual: if process r finds process q on a side, then q is a
  -- process of the arrangement, and q finds r on the opposite side, where the grid is periodic on
  -- both of the two sides or on neither.
  pub neighbour_of-opposite :
      (r q side : ℕ)
      → r < n.x * n.y * n.z
      → IsPaired side
      → neighbour_of g (map3 pos n) (get_coordinates (pos r) (map3 pos n)) side ≡ ok (pos q)
      → (q < n.x * n.y * n.z)
        × (neighbour_of g (map3 pos n) (get_coordinates (pos q) (map3 pos n)) (opposite side)
            ≡ ok (pos r))
  neighbour_of-opposite r q side h paired e =
      let c = coordinates n r in
      let at = λ (t : Vec3 ℤ) (s : ℕ). neighbour_of g (map3 pos n) t s in
      let (c', h', eq, back) =
        opposite_neighbour c side q (coordinates-IsInside n r h) paired
          (ap (λ (t : Vec3 ℤ). at t side) (sym (get_coordinates-map n r)) ∙ e) in
      let there : get_coordinates (pos q) (map3 pos n) ≡ map3 pos c' =
        ap (λ (t : ℕ). get_coordinates (pos t) (map3 pos n)) eq ∙ coordinates-rank_of n c' h' in
      (
        subst (λ (t : ℕ). t < n.x * n.y * n.z) (sym eq) (rank_of-lt n c' h'),
        ap (λ (t : Vec3 ℤ). at t (opposite side)) there
            ∙ back
            ∙ ap (λ (t : ℕ). ok (pos t)) (rank_of-coordinates n r h),
      )
