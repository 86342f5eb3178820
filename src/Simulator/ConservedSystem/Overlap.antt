-- ===== src/Simulator/ConservedSystem/Overlap.antt =====
-- ConservedSystem::operator() (alsfvm/src/simulator/ConservedSystem.cpp) against one sweep over all
-- inner cells after the exchange.
use alsvinn.Base.{
  ℕ, suc, ◌<◌, ◌≡◌, ◌≢◌, refl, ap, sym, subst, ◌∙◌, ◌⊎◌, inl, inr, Result, ok, ◌>>=◌, Gives, gives,
  Gives-bind, Gives-value, get_elem?, some, err, try_range-Gives, arith,
}
use alsvinn.Base.Int.{ℤ, int_laws}
use alsvinn.Base.Real.{Real, num}
use alsvinn.Vec.{Vec3, vec3}
use alsvinn.Boxes.{decide_box}
use alsvinn.Views.{
  Shape, Views, index, ghost_cells, dimensions, Fits, InBlock, IsSized, Holds, index-injective,
}
use alsvinn.Numflux.{FluxVolumes, FluxResult, lower, upper}
use alsvinn.Numflux.Net.{InRegion}
use alsvinn.Numflux.Interface.{
  IsPart, IsFilled, IsValid, IsNumericalFlux, AgreeInside, origin, ghosts, minus_ghosts,
}
use alsvinn.Numflux.Regions.{region-inside}
use alsvinn.Simulator.ConservedSystem.{
  ConservedSystem, SystemOutput, compute_side, compute_sides, run_exchange, call_system,
  call_operator,
}
use alsvinn.Simulator.ConservedSystem.Cover.{
  IsThick, Inner, Covered, sides_cover, bottom-IsPart, top-IsPart, central-IsPart, whole-IsPart,
}

module _ {R C : Type 0} ⦃r : Real R⦄ (g : Shape) (fits : Fits g) (thick : IsThick g)
    (system : ConservedSystem R C) (value : Views C → Vec3 ℤ → C)
    (laws : IsNumericalFlux g value system.numerical_flux) (output conserved' : Views C)
    (sized' : IsSized g conserved') where
  -- The output holds the value of the flux at the inner cells that `D` describes, and outside of the
  -- inner cells what it held.
  pub record IsDone (D : Vec3 ℤ → Type 0) (s : FluxResult R C) : Type 0 where
    pub valid : IsValid g s.volumes
    pub sized : IsSized g s.output
    pub done : (c : Vec3 ℤ) → Inner g c → D c → Holds g s.output c (value conserved' c)
    pub kept :
        (j : ℕ)
        → ((c : Vec3 ℤ) → Inner g c → index g c ≢ j)
        → get_elem? s.output.cells j ≡ get_elem? output.cells j

  -- A part of the inner cells is a part of them.
  part-Inner :
      (start end : Vec3 ℤ) → IsPart start end → (c : Vec3 ℤ) → InRegion g start end c → Inner g c
  unfolding lower upper
  part-Inner start end ((sx, ex), (sy, ey), (sz, ez)) c ((x0, x1), (y0, y1), (z0, z1)) = (
    (omega int_laws, omega int_laws),
    (omega int_laws, omega int_laws),
    (omega int_laws, omega int_laws),
  )

  -- A sweep of a part adds its cells to those that are done.
  filled-IsDone :
      (D : Vec3 ℤ → Type 0) (s t : FluxResult R C) (start end : Vec3 ℤ) (filling : Vec3 ℤ → C)
      → IsPart start end
      → ((c : Vec3 ℤ) → InRegion g start end c → filling c ≡ value conserved' c)
      → IsDone D s
      → IsValid g t.volumes
      → IsFilled g filling start end s.output t.output
      → IsDone (λ c. D c ⊎ InRegion g start end c) t
  filled-IsDone D s t start end filling part same before valid filled = record {
    valid = valid;
    sized = filled.sized;
    done = λ c at d. elim (decide_box (lower g start) (upper g end) c) [
      | inl here ↦ filled.filled c here ∙ ap some (same c here)
      | inr away ↦ elim d [
        | inr here ↦ absurd (away here)
        | inl known ↦
            filled.kept (index g c) (λ c' at' e. away (
              subst (InRegion g start end)
                (index-injective g fits c' c (region-inside g start end part c' at') (inner c at) e)
                at'))
            ∙ before.done c at known
      ]
    ];
    kept = λ j apart.
        filled.kept j (λ c at. apart c (part-Inner start end part c at)) ∙ before.kept j apart;
  }
    where
      inner : (c : Vec3 ℤ) → Inner g c → InBlock g c
      inner = region-inside g origin origin whole-IsPart

  compute_side-IsDone :
      (D : Vec3 ℤ → Type 0) (start end : Vec3 ℤ) (s : FluxResult R C)
      → IsPart start end
      → IsDone D s
      → Gives
          (IsDone (λ c. D c ⊎ InRegion g start end c))
          (compute_side system conserved' start end s)
  unfolding compute_side
  compute_side-IsDone D start end s part before =
      Gives-bind
        (laws.computes s.volumes conserved' _ s.output start end before.valid sized' before.sized
          part)
        λ side (valid, filled).
          gives (
            filled-IsDone D s _ start end (value conserved') part (λ c at. refl) before valid
              filled)

  compute_sides-IsDone :
      (d : ℕ) (s : FluxResult R C)
      → d < dimensions g
      → IsDone (Covered g d) s
      → Gives (IsDone (Covered g (suc d))) (compute_sides system conserved' g d s)
  unfolding compute_sides
  compute_sides-IsDone d s below before =
      Gives-bind (compute_side-IsDone (Covered g d) _ _ s (bottom-IsPart g d thick below) before)
        λ t next. compute_side-IsDone _ _ _ t (top-IsPart g d thick below) next

  -- `operator()` hands to the diffusion what one sweep over all inner cells of the exchanged variables
  -- computes, whatever part of the exchange the central sweep sees.
  pub call_operator-overlap :
      (v : FluxVolumes C) (seen conserved : Views C) (speed : Vec3 R)
      → IsValid g v
      → IsSized g seen
      → IsSized g output
      → run_exchange system system.exchange conserved ≡ ok conserved'
      → AgreeInside g seen conserved'
      → (swept : Views C) × IsFilled g (value conserved') origin origin output swept
        × ((call_operator system v seen conserved speed output >>= λ res. ok res.output)
            ≡ system.apply_diffusion swept conserved')
  unfolding call_operator call_system ghost_cells
  call_operator-overlap v seen conserved speed valid seen_sized sized exchanged agree =
      let (central, e, (valid', filled)) = Gives-value (
        laws.computes v seen speed output (ghosts g) (minus_ghosts g) valid seen_sized sized
          (central-IsPart g)) in
      let start : FluxResult R C = record { volumes = v; output = output; wave_speed = speed } in
      let before : FluxResult R C = record central { wave_speed = vec3 (num 0) (num 0) (num 0) } in
      let nothing : IsDone (λ c. ⊥) start = record {
        valid = valid;
        sized = sized;
        done = λ c at none. absurd none;
        kept = λ j apart. refl;
      } in
      let first =
        filled-IsDone (λ c. ⊥) start before (ghosts g) (minus_ghosts g) (value seen)
          (central-IsPart g) (laws.local seen conserved' agree) nothing valid' filled in
      let (sides, e', covered) = Gives-value (
        try_range-Gives (λ d. IsDone (Covered g d)) (dimensions g)
          (compute_sides system conserved' g) (dimensions g) 0 before (omega arith)
          (λ d s lo below p. compute_sides-IsDone d s below p)
          record {
            valid = valid';
            sized = filled.sized;
            done = λ c at h. first.done c at (inr h);
            kept = first.kept;
          }) in
      (
        sides.output,
        record {
          sized = covered.sized;
          filled = λ c at. covered.done c at (sides_cover g thick c at);
          kept = covered.kept;
        },
        subst
            (λ h.
              (call_system system h v seen conserved speed output >>= λ res. ok res.output)
              ≡ system.apply_diffusion sides.output conserved')
            (sym sized.0)
            (rw (e, exchanged, e')
              (output_of sides.volumes _ (system.apply_diffusion sides.output conserved'))),
      )
    where
      output_of :
          (volumes : FluxVolumes C) (speeds : Vec3 R) (m : Result (Views C))
          → ((m >>= λ output'. ok (record {
            volumes = volumes;
            conserved = conserved';
            output = output';
            wave_speed = speeds;
          }))
              >>= λ (res : SystemOutput R C). ok res.output)
            ≡ m
      output_of volumes speeds (ok a) = refl
      output_of volumes speeds (err a) = refl
