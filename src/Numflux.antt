-- ===== src/Numflux.antt =====
-- alsfvm/src/numflux/NumericalFluxCPU.cpp and alsfvm/include/alsfvm/numflux/numflux_util.hpp: the net flux
-- into each cell, one direction after the other. The equation and the flux between two cells are
-- template parameters of the source, and stand here as records.
pub mod Neighbours
pub mod Net
pub mod Values
pub mod Interface
pub mod Regions
pub mod Zero
pub mod Directions
pub mod Conservation
pub mod Periodic
pub mod Scalar
pub mod Euler
use alsvinn.Base.{
  ℕ, zero, suc, ◌+◌, ◌*◌, ◌-◌, ◌&&◌, try_range, List, [], ◌∷◌, map, Bool, true, false, not, ◌||◌,
  ◌==◌, ltb, to_nat, length, max, if◌then◌else◌, Result, ok, err, undefined, ◌>>=◌, ◌>>◌, guard,
  replicate,
}
use alsvinn.Base.Int.{ℤ, pos, negsuc, ◌+ℤ◌, ◌-ℤ◌, ◌*ℤ◌}
use alsvinn.Base.Real.{Real, num, fmax}
use alsvinn.Vec.{Vec3, vec3, zip3, set_comp}
use alsvinn.Boxes.{try_nest}
use alsvinn.Views.{Shape, Views, index, fetch, set_view_at, add_to_view_at}

-- What the fluxes use of an equation with conserved variables `C` and all variables `A`:
-- `fetchAllVariables` computes `A` from the conserved variables of a cell.
pub record Equation (R C A : Type 0) : Type 0 where
  pub nought : C
  pub plus : C → C → C
  pub scale : R → C → C
  pub to_all : C → A

-- A flux with its stencil: `computeFlux<direction>` returns the wave speed, and the flux.
pub data Flux (R C A : Type 0) : Type 0 where
  two_point : (ℕ → A → A → C × R) → Flux R C A
  four_point : (ℕ → A → A → A → A → C × R) → Flux R C A
  six_point : (ℕ → A → A → A → A → A → A → C × R) → Flux R C A

-- `directionVector` and `xDir`, `yDir`, `zDir`
unfoldable pub direction_vector : ℕ → Vec3 ℤ
direction_vector d = vec3 (pos (to_nat (d == 0))) (pos (to_nat (d == 1))) (pos (to_nat (d == 2)))

-- What a numerical flux uses of a reconstruction: `performReconstruction(input, direction,
-- indicatorVariable, left, right, start, end)` fills `left` and `right`.
pub record Reconstruction (C : Type 0) : Type 0 where
  pub perform_reconstruction :
      Views C → ℕ → ℕ → Views C → Views C → Vec3 ℤ → Vec3 ℤ → Result (Views C × Views C)
  pub get_number_of_ghost_cells : ℕ

-- The volumes that a `NumericalFluxCPU` owns
pub record FluxVolumes (C : Type 0) : Type 0 where
  pub left : Views C
  pub right : Views C
  pub temporary : Views C

pub record FluxResult (R C : Type 0) : Type 0 where
  pub volumes : FluxVolumes C
  pub output : Views C
  pub wave_speed : Vec3 R

-- What a system uses of a numerical flux with volumes of its own: `computeFlux(conservedVariables,
-- waveSpeed, true, output, start, end)`
pub record NumericalFlux (R C : Type 0) : Type 0 where
  pub compute :
      FluxVolumes C → Views C → Vec3 R → Views C → Vec3 ℤ → Vec3 ℤ → Result (FluxResult R C)
  pub number_of_ghost_cells : ℕ

-- (x + xDir * s, y + yDir * s, z + zDir * s)
unfoldable pub along : ℕ → ℤ → Vec3 ℤ → Vec3 ℤ
unfolding direction_vector
along d s c = zip3 (λ a e. a +ℤ e *ℤ s) c (direction_vector d)

-- The first cell of a sweep, and the cell after the last one: (ngx + start.x, ...) and
-- (nx - ngx + end.x, ...)
unfoldable pub lower : Shape → Vec3 ℤ → Vec3 ℤ
lower g start = vec3 (pos g.ngx +ℤ start.x) (pos g.ngy +ℤ start.y) (pos g.ngz +ℤ start.z)

unfoldable pub upper : Shape → Vec3 ℤ → Vec3 ℤ
upper g end =
    vec3 (pos g.nx -ℤ pos g.ngx +ℤ end.x) (pos g.ny -ℤ pos g.ngy +ℤ end.y)
      (pos g.nz -ℤ pos g.ngz +ℤ end.z)

module _ {R C A : Type 0} where
  unfoldable pub get_stencil : Flux R C A → List ℤ
  get_stencil (two_point _) = pos 0 ∷ pos 1 ∷ []
  get_stencil (four_point _) = negsuc 0 ∷ pos 0 ∷ pos 1 ∷ pos 2 ∷ []
  get_stencil (six_point _) = negsuc 1 ∷ negsuc 0 ∷ pos 0 ∷ pos 1 ∷ pos 2 ∷ pos 3 ∷ []

  -- The three overloads of `computeFluxForStencil`, for stencils of two, four and six cells
  unfoldable pub compute_flux_for_stencil :
      Equation R C A → Flux R C A → ℕ → List ℕ → Views C → Views C → Result (C × R)
  unfolding fetch
  compute_flux_for_stencil eq (two_point f) d (i0 ∷ i1 ∷ []) left right = do
    right_j ← fetch left i1
    left_j ← fetch right i0
    ok (f d (eq.to_all left_j) (eq.to_all right_j))
  compute_flux_for_stencil eq (four_point f) d (i0 ∷ i1 ∷ i2 ∷ i3 ∷ []) left right = do
    u0 ← fetch left i0
    u1 ← fetch left i1
    u2 ← fetch left i2
    u3 ← fetch left i3
    ok (f d (eq.to_all u0) (eq.to_all u1) (eq.to_all u2) (eq.to_all u3))
  compute_flux_for_stencil eq (six_point f) d (i0 ∷ i1 ∷ i2 ∷ i3 ∷ i4 ∷ i5 ∷ []) left right = do
    u0 ← fetch left i0
    u1 ← fetch left i1
    u2 ← fetch left i2
    u3 ← fetch left i3
    u4 ← fetch left i4
    u5 ← fetch left i5
    ok (
        f d (eq.to_all u0) (eq.to_all u1) (eq.to_all u2) (eq.to_all u3) (eq.to_all u4)
          (eq.to_all u5))
  compute_flux_for_stencil eq _ d _ left right = err undefined

module _ {R C A : Type 0} ⦃r : Real R⦄ (eq : Equation R C A) (flux : Flux R C A) where
  -- (-1.0) * u
  unfoldable pub negate : C → C
  negate = eq.scale (r.of_int (negsuc 0))

  -- The flux between a cell and the next one in the direction
  unfoldable pub flux_at : ℕ → Views C → Views C → Shape → Vec3 ℤ → Result (C × R)
  unfolding compute_flux_for_stencil along index get_stencil
  flux_at d left right g c =
      compute_flux_for_stencil eq flux d (map (λ s. index g (along d s c)) (get_stencil flux)) left
        right

  -- The bodies of the two loops of `computeNetFlux`
  unfoldable pub flux_step :
      ℕ → Views C → Views C → Shape → Vec3 ℤ → Views C × R → Result (Views C × R)
  unfolding flux_at negate set_view_at index
  flux_step d left right g c (temporary, wave_speed) = do
    (f, local) ← flux_at d left right g c
    temporary' ← set_view_at temporary (index g c) (negate f)
    ok (temporary', fmax wave_speed local)

  unfoldable pub update_step : ℕ → Views C → Shape → Vec3 ℤ → Views C → Result (Views C)
  unfolding fetch add_to_view_at index along negate
  update_step d temporary g c out = do
    let right_index = index g (along d (pos 1) c)
    middle_right ← fetch temporary right_index
    middle ← fetch temporary (index g c)
    add_to_view_at eq.plus out right_index (eq.plus middle_right (negate middle))

  -- `computeNetFlux<Flux, Equation, direction>`, for a volume `out` of the given shape: the new `out`
  -- and `temporaryVolume`, and the wave speed
  net_flux_loops :
      Shape
      → ℕ
      → Views C
      → Views C
      → Views C
      → Views C
      → Vec3 ℤ
      → Vec3 ℤ
      → Result (Views C × (Views C × R))
  unfolding try_nest flux_step update_step along lower upper
  net_flux_loops g d left right out temporary start end = do
    let first = along d (negsuc 0) (lower g start)
    (temporary', wave_speed) ←
        try_nest first (upper g end) (flux_step d left right g) (temporary, num 0)
    out' ← try_nest first (along d (negsuc 0) (upper g end)) (update_step d temporary' g) out
    ok (out', (temporary', wave_speed))

  unfoldable pub compute_net_flux :
      ℕ → Views C → Views C → Views C → Views C → Vec3 ℤ → Vec3 ℤ → Result (Views C × (Views C × R))
  unfolding net_flux_loops
  compute_net_flux d left right out = net_flux_loops out.shape d left right out

  -- `makeZero`
  zero_loop : Shape → Vec3 ℤ → Vec3 ℤ → Views C → Result (Views C)
  unfolding try_nest lower upper set_view_at index
  zero_loop g start end =
      try_nest (lower g start) (upper g end) λ c v. set_view_at v (index g c) eq.nought

  unfoldable pub make_zero : Views C → Vec3 ℤ → Vec3 ℤ → Result (Views C)
  unfolding zero_loop
  make_zero out start end = zero_loop out.shape start end out

  -- `createVolumes`: as for every volume, no ghost cells in a direction with one cell
  unfoldable pub create_volumes : ℕ → ℕ → ℕ → ℕ → FluxVolumes C
  create_volumes nx ny nz ngc =
      let g : Shape = record {
        nx = nx + 2 * ngc;
        ny = ny + 2 * (if ltb 1 ny then ngc else 0);
        nz = nz + 2 * (if ltb 1 nz then ngc else 0);
        ngx = ngc;
        ngy = if ltb 1 ny then ngc else 0;
        ngz = if ltb 1 nz then ngc else 0;
      } in
      let v : Views C = record { shape = g; cells = replicate (g.nx * g.ny * g.nz) eq.nought } in
      record { left = v; right = v; temporary = v }

  same_totals : Shape → Shape → Bool
  same_totals g h = g.nx == h.nx && g.ny == h.ny && g.nz == h.nz

  -- `NumericalFluxCPU::getNumberOfGhostCells`
  unfoldable pub get_number_of_ghost_cells : Reconstruction C → ℕ
  unfolding get_stencil
  get_number_of_ghost_cells reconstruction =
      max (length (get_stencil flux) - 1) reconstruction.get_number_of_ghost_cells

  -- Reconstruction and net flux in one direction
  unfoldable pub add_direction :
      Reconstruction C → Views C → Vec3 ℤ → Vec3 ℤ → ℕ → FluxResult R C → Result (FluxResult R C)
  unfolding compute_net_flux
  add_direction reconstruction conserved start end d s = do
    (left, right) ←
        reconstruction.perform_reconstruction conserved d 0 s.volumes.left s.volumes.right start end
    (output, (temporary, speed)) ←
        compute_net_flux d left right s.output s.volumes.temporary start end
    ok record {
      volumes = record { left = left; right = right; temporary = temporary };
      output = output;
      wave_speed = set_comp s.wave_speed d speed;
    }

  -- `computeFlux`, for the template parameter `dimension` of 1, 2 or 3
  unfoldable pub compute_flux :
      ℕ
      → Reconstruction C
      → FluxVolumes C
      → Views C
      → Vec3 R
      → Views C
      → Vec3 ℤ
      → Vec3 ℤ
      → Result (FluxResult R C)
  unfolding create_volumes same_totals make_zero add_direction try_range
  compute_flux dimension reconstruction volumes conserved wave_speed output start end =
      let g = conserved.shape in
      let volumes' =
        if same_totals g volumes.left.shape
        then volumes
        else create_volumes (g.nx - 2 * g.ngx) (g.ny - 2 * g.ngy) (g.nz - 2 * g.ngz) g.ngx in
      make_zero output start end >>= λ cleared.
      try_range dimension 0 (add_direction reconstruction conserved start end)
        (record { volumes = volumes'; output = cleared; wave_speed = wave_speed })
