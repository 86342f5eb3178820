-- ===== src/Io/FixedInterval/Schedule.antt =====
-- Several fixed interval writers as adjusters of one time step (alsfvm/src/io/FixedIntervalWriter.cpp
-- and alsfvm/src/integrator/Integrator.cpp).
use alsvinn.Base.{ltb, ◌<◌, ◌≡◌, refl, ◌∙◌, ◌⊎◌, arith, List, [], ◌∷◌, map, inl, inr, Bool-cases}
use alsvinn.Base.Real.{Real, ◌≼◌, IsOrdered, fmin, fmin_le}
use alsvinn.Integrator.{TimestepInformation}
use alsvinn.Integrator as integrator
use alsvinn.Io.FixedInterval.{FixedIntervalWriter, next_save_time, adjust_timestep}

module _ {R W : Type 0} ⦃r : Real R⦄ (laws : IsOrdered R) where
  open laws use {le_trans, refl_of_le}

  -- The next save time of `w` is a number, and so is the time left to it.
  abbrev pub IsReal : FixedIntervalWriter R W → TimestepInformation R → Type 0
  IsReal w t = r.sub (next_save_time w) t.current_time ≼ r.sub (next_save_time w) t.current_time

  unfoldable pub AllReal : List (FixedIntervalWriter R W) → TimestepInformation R → Type 0
  AllReal [] t = Unit
  AllReal (w ∷ ws) t = IsReal w t × AllReal ws t

  -- `dt` is at most the time left to the next save of each writer that has saved or skipped its first.
  unfoldable pub AllBelow : R → List (FixedIntervalWriter R W) → TimestepInformation R → Type 0
  AllBelow dt [] t = Unit
  AllBelow dt (w ∷ ws) t =
      (0 < w.number_saved → dt ≼ r.sub (next_save_time w) t.current_time) × AllBelow dt ws t

  adjust_le :
      (w : FixedIntervalWriter R W) (dt : R) (t : TimestepInformation R)
      → dt ≼ dt
      → IsReal w t
      → (adjust_timestep w dt t ≼ dt)
        × (0 < w.number_saved → adjust_timestep w dt t ≼ r.sub (next_save_time w) t.current_time)
  unfolding adjust_timestep
  adjust_le w dt t h k =
      let low = fmin_le laws dt (r.sub (next_save_time w) t.current_time) h k in
      elim (Bool-cases (ltb 0 w.number_saved)) [
        | inl e ↦ rw e (low.0, λ _. low.1)
        | inr e ↦ rw e (h, λ saved. absurd (ground arith))
      ]

  -- `dt` is the time left to the next save of a writer that has saved or skipped its first save.
  unfoldable pub IsTimeLeft : R → List (FixedIntervalWriter R W) → TimestepInformation R → Type 0
  IsTimeLeft dt [] t = ⊥
  IsTimeLeft dt (w ∷ ws) t =
      ((0 < w.number_saved) × (dt ≡ r.sub (next_save_time w) t.current_time)) ⊎ IsTimeLeft dt ws t

  adjust_either :
      (w : FixedIntervalWriter R W) (dt : R) (t : TimestepInformation R)
      → (adjust_timestep w dt t ≡ dt)
        ⊎ ((0 < w.number_saved)
            × (adjust_timestep w dt t ≡ r.sub (next_save_time w) t.current_time))
  unfolding adjust_timestep fmin
  adjust_either w dt t = ground arith

  -- Over the fixed interval writers that a simulator has as adjusters, the adjusted time step is at
  -- most the given one, and at most the time left to the next save of each writer that has saved or
  -- skipped its first save; and it is the given one or one of those times left. A writer that has yet
  -- to make its first save does not limit it. (No value is NaN.)
  pub adjust_timestep-AllBelow :
      (ws : List (FixedIntervalWriter R W)) (dt : R) (t : TimestepInformation R)
      → dt ≼ dt
      → AllReal ws t
      → let dt' = integrator.adjust_timestep (map adjust_timestep ws) dt t in
        (dt' ≼ dt) × AllBelow dt' ws t × ((dt' ≡ dt) ⊎ IsTimeLeft dt' ws t)
  unfolding integrator.adjust_timestep AllBelow AllReal IsTimeLeft
  adjust_timestep-AllBelow [] dt t h k = (h, tt, inl refl)
  adjust_timestep-AllBelow (w ∷ ws) dt t h (k, ks) =
      let (a, b) = adjust_le w dt t h k in
      let (c, d, e) =
        adjust_timestep-AllBelow ws (adjust_timestep w dt t) t (refl_of_le _ _ a).0 ks in
      (
        le_trans _ _ _ c a,
        ((λ saved. le_trans _ _ _ c (b saved)), d),
        elim e [
          | inr left ↦ inr (inr left)
          | inl same ↦ elim (adjust_either w dt t) [
            | inl kept ↦ inl (same ∙ kept)
            | inr (saved, cut) ↦ inr (inl (saved, same ∙ cut))
          ]
        ],
      )
