-- ===== src/Simulator/ConservedSystem/Cover.antt =====
-- The central sweep and the sides of ConservedSystem::operator()
-- (alsfvm/src/simulator/ConservedSystem.cpp) cover the inner cells.
use native.Mathlib.Decide.{dec_le}
use alsvinn.Base.{ℕ, zero, suc, ◌+◌, ◌*◌, ◌≤◌, ◌<◌, ◌≡◌, ap, subst, ◌⊎◌, inl, inr, arith}
use alsvinn.Base.Int.{
  ℤ, pos, pos_part, neg_part, ◌+ℤ◌, ◌-ℤ◌, ◌*ℤ◌, ◌≤ℤ◌, ◌<ℤ◌, int_laws, pos-*ℤ-pos,
}
use alsvinn.Vec.{Vec3, comp}
use alsvinn.Views.{Shape, ghost_cells, total_dimensions, dimensions}
use alsvinn.Numflux.{lower, upper}
use alsvinn.Numflux.Net.{InRegion}
use alsvinn.Numflux.Interface.{layers, IsPart, origin, ghosts, minus_ghosts}
use alsvinn.Simulator.ConservedSystem.{end_bottom, start_top, no_offset}

abbrev pub totals : Shape → ℕ → ℕ
totals g zero = g.nx
totals g (suc zero) = g.ny
totals g (suc (suc _)) = g.nz

-- Wide enough for two sides and a part between them in each direction, and no ghost cells in the others.
pub record IsThick (g : Shape) : Type 0 where
  pub thick : (d : ℕ) → d < dimensions g → 3 * layers g d ≤ totals g d
  pub flat : (d : ℕ) → dimensions g ≤ d → layers g d ≡ 0

abbrev pub Inner : Shape → Vec3 ℤ → Type 0
Inner g = InRegion g origin origin

abbrev pub Bottom : Shape → ℕ → Vec3 ℤ → Type 0
Bottom g d = InRegion g no_offset (end_bottom g d)

abbrev pub Top : Shape → ℕ → Vec3 ℤ → Type 0
Top g d = InRegion g (start_top g d) no_offset

abbrev pub Central : Shape → Vec3 ℤ → Type 0
Central g = InRegion g (ghosts g) (minus_ghosts g)

-- The cells that the central sweep and the sides of the first directions cover
abbrev pub Covered : Shape → ℕ → Vec3 ℤ → Type 0
Covered g zero c = Central g c
Covered g (suc d) c = (Covered g d c ⊎ Bottom g d c) ⊎ Top g d c

-- Between the sides of one direction
abbrev MiddlePart : ℕ → ℕ → ℤ → Type 0
MiddlePart n ng i = (pos (ng + ng) ≤ℤ i) × (i <ℤ (pos n -ℤ pos (ng + ng)))

middle_of :
    (n ng : ℕ) (i : ℤ)
    → (pos ng +ℤ pos 0) ≤ℤ i
    → i <ℤ (pos n -ℤ pos ng +ℤ pos 0)
    → (i <ℤ (pos n -ℤ pos ng +ℤ (pos 0 -ℤ pos n +ℤ pos 3 *ℤ pos ng)))
      ⊎ (((pos ng +ℤ (pos n -ℤ pos 3 *ℤ pos ng)) ≤ℤ i) ⊎ MiddlePart n ng i)
middle_of n ng i p q = elim (dec_le (pos_part i + suc 0) (ng + ng + neg_part i)) [
  | yes h ↦ inl (omega (int_laws, ap pos_part (pos-*ℤ-pos 3 ng), ap neg_part (pos-*ℤ-pos 3 ng)))
  | no h ↦ elim (dec_le (n + neg_part i) (pos_part i + ng + ng)) [
    | yes k ↦
        inr (inl (omega (int_laws, ap pos_part (pos-*ℤ-pos 3 ng), ap neg_part (pos-*ℤ-pos 3 ng))))
    | no k ↦ inr (inr (omega int_laws, omega int_laws))
  ]
]

-- A cell between the sides of the direction, or of one of its sides
abbrev pub Middle : Shape → ℕ → Vec3 ℤ → Type 0
Middle g d c = MiddlePart (totals g d) (layers g d) (comp c d)

edge : (g : Shape) (d : ℕ) (c : Vec3 ℤ) → Inner g c → (Bottom g d c ⊎ Top g d c) ⊎ Middle g d c
unfolding lower upper end_bottom start_top ghost_cells total_dimensions
edge g zero c ((x0, x1), y, z) = elim (middle_of g.nx g.ngx c.x x0 x1) [
  | inl h ↦ inl (inl ((x0, h), y, z))
  | inr (inl h) ↦ inl (inr ((h, x1), y, z))
  | inr (inr h) ↦ inr h
]
edge g (suc zero) c (x, (y0, y1), z) = elim (middle_of g.ny g.ngy c.y y0 y1) [
  | inl h ↦ inl (inl (x, (y0, h), z))
  | inr (inl h) ↦ inl (inr (x, (h, y1), z))
  | inr (inr h) ↦ inr h
]
edge g (suc (suc d)) c (x, y, (z0, z1)) = elim (middle_of g.nz g.ngz c.z z0 z1) [
  | inl h ↦ inl (inl (x, y, (z0, h)))
  | inr (inl h) ↦ inl (inr (x, y, (h, z1)))
  | inr (inr h) ↦ inr h
]

flat_part :
    (n ng : ℕ) (i : ℤ)
    → ng ≡ 0
    → (pos ng +ℤ pos 0) ≤ℤ i
    → i <ℤ (pos n -ℤ pos ng +ℤ pos 0)
    → MiddlePart n ng i
flat_part n ng i none p q = (omega int_laws, omega int_laws)

flat_middle : (g : Shape) (d : ℕ) (c : Vec3 ℤ) → layers g d ≡ 0 → Inner g c → Middle g d c
unfolding lower upper
flat_middle g zero c none ((x0, x1), y, z) = flat_part g.nx g.ngx c.x none x0 x1
flat_middle g (suc zero) c none (x, (y0, y1), z) = flat_part g.ny g.ngy c.y none y0 y1
flat_middle g (suc (suc d)) c none (x, y, (z0, z1)) = flat_part g.nz g.ngz c.z none z0 z1

Covered-Central : (g : Shape) (k : ℕ) (c : Vec3 ℤ) → Central g c → Covered g k c
Covered-Central g zero c h = h
Covered-Central g (suc k) c h = inl (inl (Covered-Central g k c h))

Covered-side : (g : Shape) (k d : ℕ) (c : Vec3 ℤ) → d < k → Bottom g d c ⊎ Top g d c → Covered g k c
Covered-side g zero d c h side = absurd (omega arith)
Covered-side g (suc k) d c h side = elim (dec_le k d) [
  | yes same ↦
      let e : d ≡ k = omega arith in
      elim side [
        | inl bottom ↦ inl (inr (subst (λ i. Bottom g i c) e bottom))
        | inr top ↦ inr (subst (λ i. Top g i c) e top)
      ]
  | no below ↦ inl (inl (Covered-side g k d c (omega arith) side))
]

middle-Central : (g : Shape) (c : Vec3 ℤ) → Middle g 0 c → Middle g 1 c → Middle g 2 c → Central g c
unfolding lower upper
middle-Central g c (x0, x1) (y0, y1) (z0, z1) = (
  (omega int_laws, omega int_laws),
  (omega int_laws, omega int_laws),
  (omega int_laws, omega int_laws),
)

-- The central sweep and the sides cover the inner cells.
pub sides_cover : (g : Shape) → IsThick g → (c : Vec3 ℤ) → Inner g c → Covered g (dimensions g) c
sides_cover g thick c at = elim (part 0) [
  | inl h ↦ h
  | inr x ↦ elim (part 1) [
    | inl h ↦ h
    | inr y ↦ elim (part 2) [
      | inl h ↦ h
      | inr z ↦ Covered-Central g (dimensions g) c (middle-Central g c x y z)
    ]
  ]
]
  where
    part : (d : ℕ) → Covered g (dimensions g) c ⊎ Middle g d c
    part d = elim (dec_le (suc d) (dimensions g)) [
      | no flat ↦ inr (flat_middle g d c (thick.flat d (omega arith)) at)
      | yes below ↦ elim (edge g d c at) [
        | inl side ↦ inl (Covered-side g (dimensions g) d c below side)
        | inr middle ↦ inr middle
      ]
    ]

pub bottom-IsPart :
    (g : Shape) (d : ℕ) → IsThick g → d < dimensions g → IsPart no_offset (end_bottom g d)
unfolding end_bottom ghost_cells total_dimensions
bottom-IsPart g d thick below = by_direction d (thick.thick d below)
  where
    not_above : (n ng : ℕ) → 3 * ng ≤ n → (pos 0 -ℤ pos n +ℤ pos 3 *ℤ pos ng) ≤ℤ pos 0
    not_above n ng h =
        omega (int_laws, ap pos_part (pos-*ℤ-pos 3 ng), ap neg_part (pos-*ℤ-pos 3 ng))

    by_direction : (d : ℕ) → 3 * layers g d ≤ totals g d → IsPart no_offset (end_bottom g d)
    by_direction zero h = (
      (omega arith, not_above g.nx g.ngx h),
      (omega arith, omega arith),
      (omega arith, omega arith),
    )
    by_direction (suc zero) h = (
      (omega arith, omega arith),
      (omega arith, not_above g.ny g.ngy h),
      (omega arith, omega arith),
    )
    by_direction (suc (suc d)) h = (
      (omega arith, omega arith),
      (omega arith, omega arith),
      (omega arith, not_above g.nz g.ngz h),
    )

pub top-IsPart :
    (g : Shape) (d : ℕ) → IsThick g → d < dimensions g → IsPart (start_top g d) no_offset
unfolding start_top ghost_cells total_dimensions
top-IsPart g d thick below = by_direction d (thick.thick d below)
  where
    not_below : (n ng : ℕ) → 3 * ng ≤ n → pos 0 ≤ℤ (pos n -ℤ pos 3 *ℤ pos ng)
    not_below n ng h =
        omega (int_laws, ap pos_part (pos-*ℤ-pos 3 ng), ap neg_part (pos-*ℤ-pos 3 ng))

    by_direction : (d : ℕ) → 3 * layers g d ≤ totals g d → IsPart (start_top g d) no_offset
    by_direction zero h = (
      (not_below g.nx g.ngx h, omega arith),
      (omega arith, omega arith),
      (omega arith, omega arith),
    )
    by_direction (suc zero) h = (
      (omega arith, omega arith),
      (not_below g.ny g.ngy h, omega arith),
      (omega arith, omega arith),
    )
    by_direction (suc (suc d)) h = (
      (omega arith, omega arith),
      (omega arith, omega arith),
      (not_below g.nz g.ngz h, omega arith),
    )

pub central-IsPart : (g : Shape) → IsPart (ghosts g) (minus_ghosts g)
central-IsPart g =
    ((omega arith, omega int_laws), (omega arith, omega int_laws), (omega arith, omega int_laws))

pub whole-IsPart : IsPart origin origin
whole-IsPart = ((omega arith, omega arith), (omega arith, omega arith), (omega arith, omega arith))
