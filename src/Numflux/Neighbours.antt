-- ===== src/Numflux/Neighbours.antt =====
-- The cells before and after a cell in a direction, as `along` of NumericalFluxCPU computes them.
use alsvinn.Base.{Bool, true, false, ◌==◌, to_nat, ℕ, ◌+◌, ◌≡◌, ap}
use alsvinn.Base.Int.{
  one-*ℤ, zero-*ℤ, eq_of_parts, ℤ, pos, negsuc, pos_part, neg_part, ◌+ℤ◌, ◌*ℤ◌, int_laws, *ℤ-one,
  *ℤ-minus_one, *ℤ-zero,
}
use alsvinn.Vec.{Vec3}
use alsvinn.Boxes.{InBox}
use alsvinn.Views.{vec3-ext}
use alsvinn.Numflux.{along, direction_vector}

abbrev pub next : ℕ → Vec3 ℤ → Vec3 ℤ
next d = along d (pos 1)

abbrev pub prev : ℕ → Vec3 ℤ → Vec3 ℤ
prev d = along d (negsuc 0)

-- One coordinate moves by 0 or 1.
up :
    (a : ℤ) (e : ℕ)
    → pos_part (a +ℤ pos e *ℤ pos 1) + neg_part a ≡ neg_part (a +ℤ pos e *ℤ pos 1) + pos_part a + e
up a e = rw (*ℤ-one (pos e)) (omega int_laws)

pub down :
    (a : ℤ) (e : ℕ)
    → pos_part (a +ℤ pos e *ℤ negsuc 0) + neg_part a + e
      ≡ neg_part (a +ℤ pos e *ℤ negsuc 0) + pos_part a
down a e = rw (*ℤ-minus_one (pos e)) (omega int_laws)

ruleset moves = (int_laws, up, down)

pub next-prev : (d : ℕ) (c : Vec3 ℤ) → next d (prev d c) ≡ c
unfolding along direction_vector
next-prev d c = vec3-ext (next d (prev d c)) c (omega moves) (omega moves) (omega moves)

pub prev-next : (d : ℕ) (c : Vec3 ℤ) → prev d (next d c) ≡ c
unfolding along direction_vector
prev-next d c = vec3-ext (prev d (next d c)) c (omega moves) (omega moves) (omega moves)

same_place : (a : ℤ) (e : ℕ) → a +ℤ pos e *ℤ pos 0 ≡ a
same_place a e = rw (*ℤ-zero (pos e)) (omega int_laws)

pub along-zero : (d : ℕ) (c : Vec3 ℤ) → along d (pos 0) c ≡ c
unfolding along direction_vector
along-zero d c =
    vec3-ext (along d (pos 0) c) c (same_place c.x _) (same_place c.y _) (same_place c.z _)

along_part :
    (e : Bool) (a s t : ℤ)
    → a +ℤ pos (to_nat e) *ℤ s +ℤ pos (to_nat e) *ℤ t ≡ a +ℤ pos (to_nat e) *ℤ (s +ℤ t)
along_part true a s t = rw (one-*ℤ s, one-*ℤ t, one-*ℤ (s +ℤ t)) (eq_of_parts _ _ (omega int_laws))
along_part false a s t =
    rw (zero-*ℤ s, zero-*ℤ t, zero-*ℤ (s +ℤ t)) (eq_of_parts _ _ (omega int_laws))

pub along-along : (d : ℕ) (s t : ℤ) (c : Vec3 ℤ) → along d t (along d s c) ≡ along d (s +ℤ t) c
unfolding along direction_vector
along-along d s t c =
    vec3-ext _ _ (along_part (d == 0) c.x s t) (along_part (d == 1) c.y s t)
      (along_part (d == 2) c.z s t)

same_start : (a b : ℤ) (e : ℕ) → a +ℤ pos e *ℤ pos 1 ≡ b +ℤ pos e *ℤ pos 1 → a ≡ b
same_start a b e same = omega (moves, ap pos_part same, ap neg_part same)

pub next-injective : (d : ℕ) (c c' : Vec3 ℤ) → next d c ≡ next d c' → c ≡ c'
unfolding along direction_vector
next-injective d c c' e =
    vec3-ext c c' (same_start _ _ _ (ap (λ (v : Vec3 ℤ). v.x) e))
      (same_start _ _ _ (ap (λ (v : Vec3 ℤ). v.y) e))
      (same_start _ _ _ (ap (λ (v : Vec3 ℤ). v.z) e))

module _ (d : ℕ) (lo hi c : Vec3 ℤ) where
  pub InBox-prev : InBox lo hi c → InBox (prev d lo) (prev d hi) (prev d c)
  unfolding along direction_vector
  InBox-prev ((x0, x1), (y0, y1), (z0, z1)) =
      ((omega moves, omega moves), (omega moves, omega moves), (omega moves, omega moves))

  pub InBox-widen : InBox lo hi c → InBox (prev d lo) hi c
  unfolding along direction_vector
  InBox-widen ((x0, x1), (y0, y1), (z0, z1)) =
      ((omega moves, x1), (omega moves, y1), (omega moves, z1))

  pub InBox-narrow : InBox lo (prev d hi) c → InBox lo hi c
  unfolding along direction_vector
  InBox-narrow ((x0, x1), (y0, y1), (z0, z1)) =
      ((x0, omega moves), (y0, omega moves), (z0, omega moves))

  pub InBox-next : InBox lo (prev d hi) c → InBox lo hi (next d c)
  unfolding along direction_vector
  InBox-next ((x0, x1), (y0, y1), (z0, z1)) =
      ((omega moves, omega moves), (omega moves, omega moves), (omega moves, omega moves))

  pub InBox-back : InBox (prev d lo) (prev d hi) c → InBox lo hi (next d c)
  unfolding along direction_vector
  InBox-back ((x0, x1), (y0, y1), (z0, z1)) =
      ((omega moves, omega moves), (omega moves, omega moves), (omega moves, omega moves))
