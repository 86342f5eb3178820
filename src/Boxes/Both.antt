-- ===== src/Boxes/Both.antt =====
-- Two loops over the same cells, round by round.
use native.Mathlib.Decide.{dec_le}
use alsvinn.Base.{ℕ, zero, suc, ◌+◌, sym, subst, arith, Result, ok, ◌>>=◌}
use alsvinn.Base.Int.{ℤ, pos, pos_part, neg_part, ◌+ℤ◌, ◌-ℤ◌, ◌≤ℤ◌, ◌<ℤ◌, int_laws}
use alsvinn.Vec.{Vec3, vec3}
use alsvinn.Boxes.{InBox, try_rounds, try_int, try_nest, Spans, Spans-suc, Spans-sub, no_rounds}

-- Both runs end normally, with related values.
pub data Both {ℓ ℓ' κ} {S : Type ℓ} {T : Type ℓ'} (Rel : S → T → Type κ)
    : Result S → Result T → Type (ℓ ⊔ ℓ' ⊔ κ) where
  both : {s : S} {t : T} → Rel s t → Both Rel (ok s) (ok t)

module _ {ℓ ℓ' κ} {S : Type ℓ} {T : Type ℓ'} {Rel : S → T → Type κ} where
  pub Both-bind :
      {a : Result S} {b : Result T} {f : S → Result S} {g : T → Result T}
      → Both Rel a b
      → ((s : S) (t : T) → Rel s t → Both Rel (f s) (g t))
      → Both Rel (a >>= f) (b >>= g)
  Both-bind (both h) k = k _ _ h

module _ {ℓ ℓ' κ} {S : Type ℓ} {T : Type ℓ'} (Rel : S → T → Type κ) where
  rounds-Both :
      (f : ℤ → S → Result S) (g : ℤ → T → Result T) (n : ℕ) (lo hi : ℤ) (s : S) (t : T)
      → Spans lo n hi
      → ((i : ℤ) → lo ≤ℤ i → i <ℤ hi → (s : S) (t : T) → Rel s t → Both Rel (f i s) (g i t))
      → Rel s t
      → Both Rel (try_rounds n lo f s) (try_rounds n lo g t)
  unfolding try_rounds
  rounds-Both f g zero lo hi s t e keep h = both h
  rounds-Both f g (suc n) lo hi s t e keep h =
      Both-bind (keep lo (omega arith) (omega arith) s t h) λ s' t' h'.
        rounds-Both f g n (lo +ℤ pos 1) hi s' t' (Spans-suc lo hi n e)
          (λ i le. keep i (omega int_laws)) h'

  try_int-Both :
      (f : ℤ → S → Result S) (g : ℤ → T → Result T) (lo hi : ℤ) (s : S) (t : T)
      → ((i : ℤ) → lo ≤ℤ i → i <ℤ hi → (s : S) (t : T) → Rel s t → Both Rel (f i s) (g i t))
      → Rel s t
      → Both Rel (try_int lo hi f s) (try_int lo hi g t)
  unfolding try_int try_rounds
  try_int-Both f g lo hi s t keep h =
      elim (dec_le (pos_part lo + neg_part hi) (pos_part hi + neg_part lo)) [
        | yes le ↦ rounds-Both f g (pos_part (hi -ℤ lo)) lo hi s t (Spans-sub lo hi le) keep h
        | no gt ↦
            subst (λ n. Both Rel (try_rounds n lo f s) (try_rounds n lo g t))
              (sym (no_rounds lo hi (omega arith))) (both h)
      ]

  -- What a round of both keeps at every cell of a box, the loops over the box keep.
  pub try_nest-Both :
      (f : Vec3 ℤ → S → Result S) (g : Vec3 ℤ → T → Result T) (lo hi : Vec3 ℤ) (s : S) (t : T)
      → ((c : Vec3 ℤ) → InBox lo hi c → (s : S) (t : T) → Rel s t → Both Rel (f c s) (g c t))
      → Rel s t
      → Both Rel (try_nest lo hi f s) (try_nest lo hi g t)
  unfolding try_nest
  try_nest-Both f g lo hi s t keep = try_int-Both _ _ lo.z hi.z s t λ z z0 z1 s1 t1.
      try_int-Both _ _ lo.y hi.y s1 t1 λ y y0 y1 s2 t2.
        try_int-Both _ _ lo.x hi.x s2 t2 λ x x0 x1. keep (vec3 x y z) ((x0, x1), (y0, y1), (z0, z1))
