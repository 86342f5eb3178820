-- ===== src/Boxes.antt =====
-- Loops over `int` coordinates, one, or three nested with the first coordinate innermost, and the
-- boxes of cells that they visit.
pub mod Both
pub mod Every
use native.Mathlib.Omega.{arith}
use native.Mathlib.Decide.{dec_le}
use alsvinn.Base.{
  ℕ, zero, suc, ◌+◌, ◌≡◌, subst, sym, ap, ◌∙◌, ◌≢◌, ◌⊎◌, inl, inr, Result, ok, ◌>>=◌, Gives, gives,
  Gives-bind,
}
use alsvinn.Base.Int.{ℤ, pos, pos_part, neg_part, ◌+ℤ◌, ◌-ℤ◌, ◌≤ℤ◌, ◌<ℤ◌, int_laws, eq_of_parts}
use alsvinn.Vec.{Vec3, vec3}

-- `rounds` rounds of `for (int i = lo; ...; ++i)`
unfoldable pub try_rounds {ℓ} : {S : Type ℓ} → ℕ → ℤ → (ℤ → S → Result S) → S → Result S
try_rounds zero lo body s = ok s
try_rounds (suc n) lo body s = body lo s >>= try_rounds n (lo +ℤ pos 1) body

-- `for (int i = lo; i < hi; ++i)`
unfoldable pub try_int {ℓ} : {S : Type ℓ} → ℤ → ℤ → (ℤ → S → Result S) → S → Result S
unfolding try_rounds
try_int lo hi = try_rounds (pos_part (hi -ℤ lo)) lo

-- `for z, for y, for x`, each from `lo` up to `hi`
unfoldable pub try_nest {ℓ} :
    {S : Type ℓ} → Vec3 ℤ → Vec3 ℤ → (Vec3 ℤ → S → Result S) → S → Result S
unfolding try_int
try_nest lo hi body =
    try_int lo.z hi.z λ z. try_int lo.y hi.y λ y. try_int lo.x hi.x λ x. body (vec3 x y z)

abbrev pub InBox : Vec3 ℤ → Vec3 ℤ → Vec3 ℤ → Type 0
InBox lo hi c =
    ((lo.x ≤ℤ c.x) × (c.x <ℤ hi.x))
    × ((lo.y ≤ℤ c.y) × (c.y <ℤ hi.y))
    × ((lo.z ≤ℤ c.z) × (c.z <ℤ hi.z))

-- `hi - lo` is `n`.
abbrev Spans : ℤ → ℕ → ℤ → Type 0
Spans lo n hi = pos_part lo + neg_part hi + n ≡ pos_part hi + neg_part lo

Spans-suc : (lo hi : ℤ) (n : ℕ) → Spans lo (suc n) hi → Spans (lo +ℤ pos 1) n hi
Spans-suc lo hi n e = omega int_laws

Spans-sub : (lo hi : ℤ) → lo ≤ℤ hi → Spans lo (pos_part (hi -ℤ lo)) hi
unfolding ◌-ℤ◌
Spans-sub lo hi h = ground arith

no_rounds : (lo hi : ℤ) → hi ≤ℤ lo → pos_part (hi -ℤ lo) ≡ 0
unfolding ◌-ℤ◌
no_rounds lo hi h = ground arith

ne_of_gt : (a b : ℤ) → a <ℤ b → a ≢ b
ne_of_gt a b h e = omega (arith, ap pos_part e, ap neg_part e)

decide_ℤ : (a b : ℤ) → (a ≡ b) ⊎ (a ≢ b)
decide_ℤ a b = elim (dec_le (pos_part a + neg_part b) (pos_part b + neg_part a)) [
  | no gt ↦ inr λ e. omega (arith, ap pos_part e, ap neg_part e)
  | yes le ↦ elim (dec_le (pos_part b + neg_part a) (pos_part a + neg_part b)) [
    | yes ge ↦ inl (eq_of_parts a b (omega arith))
    | no lt ↦ inr λ e. omega (arith, ap pos_part e, ap neg_part e)
  ]
]

above_of_ne : (a b : ℤ) → a ≤ℤ b → a ≢ b → (a +ℤ pos 1) ≤ℤ b
above_of_ne a b h other = elim (dec_le (pos_part b + neg_part a) (pos_part a + neg_part b)) [
  | yes ge ↦ absurd (other (eq_of_parts a b (omega arith)))
  | no lt ↦ omega int_laws
]

-- Membership in a box can be decided.
decide_part : (lo hi a : ℤ) → ((lo ≤ℤ a) × (a <ℤ hi)) ⊎ ((lo ≤ℤ a) × (a <ℤ hi) → ⊥)
decide_part lo hi a = elim (dec_le (pos_part lo + neg_part a) (pos_part a + neg_part lo)) [
  | no lt ↦ inr λ h. omega (arith, h.0)
  | yes le ↦ elim (dec_le (suc (pos_part a + neg_part hi)) (pos_part hi + neg_part a)) [
    | yes below ↦ inl (le, below)
    | no above ↦ inr λ h. omega (arith, h.1)
  ]
]

pub decide_box : (lo hi c : Vec3 ℤ) → InBox lo hi c ⊎ (InBox lo hi c → ⊥)
decide_box lo hi c = elim (decide_part lo.x hi.x c.x) [
  | inr x ↦ inr λ h. x h.0
  | inl x ↦ elim (decide_part lo.y hi.y c.y) [
    | inr y ↦ inr λ h. y h.1
    | inl y ↦ elim (decide_part lo.z hi.z c.z) [ inr z ↦ inr λ h. z h.2 | inl z ↦ inl (x, y, z) ]
  ]
]

module _ {ℓ κ} {S : Type ℓ} where
  rounds-keep :
      (P : S → Type κ) (body : ℤ → S → Result S) (n : ℕ) (lo hi : ℤ) (s : S)
      → Spans lo n hi
      → ((i : ℤ) → lo ≤ℤ i → i <ℤ hi → (t : S) → P t → Gives P (body i t))
      → P s
      → Gives P (try_rounds n lo body s)
  unfolding try_rounds
  rounds-keep P body zero lo hi s e keep p = gives p
  rounds-keep P body (suc n) lo hi s e keep p =
      Gives-bind (keep lo (omega arith) (omega arith) s p) λ t q.
        rounds-keep P body n (lo +ℤ pos 1) hi t (Spans-suc lo hi n e)
          (λ i h k. keep i (omega int_laws) k) q

  -- A round for `target` takes `P` to `Q`, and the others keep both.
  rounds-once :
      (P Q : S → Type κ) (body : ℤ → S → Result S) (target : ℤ) (n : ℕ) (lo hi : ℤ) (s : S)
      → Spans lo n hi
      → lo ≤ℤ target
      → target <ℤ hi
      → ((i : ℤ) → lo ≤ℤ i → i <ℤ hi → i ≢ target → (t : S) → P t → Gives P (body i t))
      → ((i : ℤ) → lo ≤ℤ i → i <ℤ hi → i ≢ target → (t : S) → Q t → Gives Q (body i t))
      → ((t : S) → P t → Gives Q (body target t))
      → P s
      → Gives Q (try_rounds n lo body s)
  unfolding try_rounds
  rounds-once P Q body target zero lo hi s e below above keep_p keep_q step p = absurd (omega arith)
  rounds-once P Q body target (suc n) lo hi s e below above keep_p keep_q step p =
      elim (decide_ℤ lo target) [
        | inl same ↦ Gives-bind (subst (λ i. Gives Q (body i s)) (sym same) (step s p)) λ t q.
            rounds-keep Q body n (lo +ℤ pos 1) hi t (Spans-suc lo hi n e)
              (λ i h k.
                keep_q i (omega int_laws) k
                  (λ f. omega (int_laws, ap pos_part (f ∙ sym same), ap neg_part (f ∙ sym same))))
              q
        | inr other ↦ Gives-bind (keep_p lo (omega arith) (omega arith) other s p) λ t q.
            rounds-once P Q body target n (lo +ℤ pos 1) hi t (Spans-suc lo hi n e)
              (above_of_ne lo target below other) above (λ i h. keep_p i (omega int_laws))
              (λ i h. keep_q i (omega int_laws)) step q
      ]

  pub try_int-keep :
      (P : S → Type κ) (body : ℤ → S → Result S) (lo hi : ℤ) (s : S)
      → ((i : ℤ) → lo ≤ℤ i → i <ℤ hi → (t : S) → P t → Gives P (body i t))
      → P s
      → Gives P (try_int lo hi body s)
  unfolding try_int try_rounds
  try_int-keep P body lo hi s keep p =
      elim (dec_le (pos_part lo + neg_part hi) (pos_part hi + neg_part lo)) [
        | yes le ↦ rounds-keep P body (pos_part (hi -ℤ lo)) lo hi s (Spans-sub lo hi le) keep p
        | no gt ↦
            subst (λ n. Gives P (try_rounds n lo body s)) (sym (no_rounds lo hi (omega arith)))
              (gives p)
      ]

  pub try_int-once :
      (P Q : S → Type κ) (body : ℤ → S → Result S) (target : ℤ) (lo hi : ℤ) (s : S)
      → lo ≤ℤ target
      → target <ℤ hi
      → ((i : ℤ) → lo ≤ℤ i → i <ℤ hi → i ≢ target → (t : S) → P t → Gives P (body i t))
      → ((i : ℤ) → lo ≤ℤ i → i <ℤ hi → i ≢ target → (t : S) → Q t → Gives Q (body i t))
      → ((t : S) → P t → Gives Q (body target t))
      → P s
      → Gives Q (try_int lo hi body s)
  unfolding try_int
  try_int-once P Q body target lo hi s below above =
      rounds-once P Q body target (pos_part (hi -ℤ lo)) lo hi s (Spans-sub lo hi (omega arith))
        below above

  -- What the body keeps at every cell of a box, the loop over the box keeps.
  pub try_nest-keep :
      (P : S → Type κ) (body : Vec3 ℤ → S → Result S) (lo hi : Vec3 ℤ) (s : S)
      → ((c : Vec3 ℤ) → InBox lo hi c → (t : S) → P t → Gives P (body c t))
      → P s
      → Gives P (try_nest lo hi body s)
  unfolding try_nest
  try_nest-keep P body lo hi s keep = try_int-keep P _ lo.z hi.z s λ z z0 z1 t.
      try_int-keep P _ lo.y hi.y t λ y y0 y1 u.
        try_int-keep P _ lo.x hi.x u λ x x0 x1. keep (vec3 x y z) ((x0, x1), (y0, y1), (z0, z1))

  -- The body at one cell of the box takes `P` to `Q`, and at the other cells it keeps both.
  pub try_nest-once :
      (P Q : S → Type κ) (body : Vec3 ℤ → S → Result S) (target lo hi : Vec3 ℤ) (s : S)
      → InBox lo hi target
      → ((c : Vec3 ℤ) → InBox lo hi c → c ≢ target → (t : S) → P t → Gives P (body c t))
      → ((c : Vec3 ℤ) → InBox lo hi c → c ≢ target → (t : S) → Q t → Gives Q (body c t))
      → ((t : S) → P t → Gives Q (body target t))
      → P s
      → Gives Q (try_nest lo hi body s)
  unfolding try_nest
  try_nest-once P Q body target lo hi s ((x0, x1), (y0, y1), (z0, z1)) keep_p keep_q step =
      try_int-once P Q _ target.z lo.z hi.z s z0 z1 (plane P keep_p) (plane Q keep_q) λ t.
        try_int-once P Q _ target.y lo.y hi.y t y0 y1 (row P keep_p) (row Q keep_q)
          λ u. try_int-once P Q _ target.x lo.x hi.x u x0 x1 (cell P keep_p) (cell Q keep_q) step
    where
      Keeps : (S → Type κ) → Type (ℓ ⊔ κ)
      Keeps T = (c : Vec3 ℤ) → InBox lo hi c → c ≢ target → (t : S) → T t → Gives T (body c t)

      plane :
          (T : S → Type κ)
          → Keeps T
          → (z : ℤ) → lo.z ≤ℤ z
          → z <ℤ hi.z
          → z ≢ target.z
          → (t : S) → T t
          → Gives T (try_int lo.y hi.y (λ y. try_int lo.x hi.x λ x. body (vec3 x y z)) t)
      plane T keep z z0' z1' ne t = try_int-keep T _ lo.y hi.y t λ y y0' y1' u.
          try_int-keep T _ lo.x hi.x u λ x x0' x1'.
            keep (vec3 x y z) ((x0', x1'), (y0', y1'), (z0', z1'))
              (λ e. ne (ap (λ (c : Vec3 ℤ). c.z) e))

      row :
          (T : S → Type κ)
          → Keeps T
          → (y : ℤ) → lo.y ≤ℤ y
          → y <ℤ hi.y
          → y ≢ target.y
          → (t : S) → T t
          → Gives T (try_int lo.x hi.x (λ x. body (vec3 x y target.z)) t)
      row T keep y y0' y1' ne t = try_int-keep T _ lo.x hi.x t λ x x0' x1'.
          keep (vec3 x y target.z) ((x0', x1'), (y0', y1'), (z0, z1))
            (λ e. ne (ap (λ (c : Vec3 ℤ). c.y) e))

      cell :
          (T : S → Type κ)
          → Keeps T
          → (x : ℤ) → lo.x ≤ℤ x
          → x <ℤ hi.x
          → x ≢ target.x
          → (t : S) → T t
          → Gives T (body (vec3 x target.y target.z) t)
      cell T keep x x0' x1' ne =
          keep (vec3 x target.y target.z) ((x0', x1'), (y0, y1), (z0, z1))
            (λ e. ne (ap (λ (c : Vec3 ℤ). c.x) e))
