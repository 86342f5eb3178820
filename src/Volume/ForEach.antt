-- ===== src/Volume/ForEach.antt =====
-- alsfvm/include/alsfvm/volume/volume_foreach.hpp: the loops over the cells of a volume. A loop takes
-- the function to call as a step on a state `S`, and returns the state after the last call.
use alsvinn.Base.{
  ℕ, ◌+◌, ◌-◌, ◌*◌, ◌%◌, List, [], ◌∷◌, ◌==◌, ltb, to_nat, if◌then◌else◌, length, get_elem?, set,
  for_range, Result, ok, err, undefined, unsupported_direction, variables_mismatch, guard,
  or_undefined, ◌>>=◌, ◌>>◌,
}
use alsvinn.Base.Int.{ℤ, pos, negsuc, pos_part}
use alsvinn.Base.Real.{Real}
use alsvinn.Vec.{Vec3, vec3}
use alsvinn.Grid.{Grid, get_cell_midpoints}
use alsvinn.Memory.{Memory, size_mod, sub_size, index}
use alsvinn.Volume.{Volume, total_x, total_y, total_z, get_number_of_variables}

-- The conversion of an `int` to `size_t`
unfoldable pub to_size : ℤ → ℕ
to_size (pos n) = n % size_mod
to_size (negsuc n) = size_mod - 1 - n % size_mod

-- k * nx * ny + j * nx + i, in `size_t`
unfoldable pub place_size : ℕ → ℕ → ℕ → ℕ → ℕ → ℕ
place_size nx ny i j k = (k * nx * ny + j * nx + i) % size_mod

-- Three nested loops, the first coordinate innermost: `for (c = start; c < end; c++)` in `size_t`
abbrev pub nest : {S : Type 0} → Vec3 ℕ → Vec3 ℕ → (ℕ → ℕ → ℕ → S → S) → S → S
nest start end body = for_range (end.z - start.z) start.z λ k.
    for_range (end.y - start.y) start.y λ j. for_range (end.x - start.x) start.x λ i. body i j k

module _ {R : Type 0} where
  unfoldable pub for_each_cell_index :
      {S : Type 0} → Volume R → (ℕ → S → S) → Vec3 ℤ → Vec3 ℤ → S → S
  unfolding total_x total_y total_z sub_size to_size place_size
  for_each_cell_index v function offset_start offset_end =
      let nx = total_x v in
      let ny = total_y v in
      nest (vec3 (to_size offset_start.x) (to_size offset_start.y) (to_size offset_start.z))
        (vec3 (sub_size nx (to_size offset_end.x)) (sub_size ny (to_size offset_end.y))
          (sub_size (total_z v) (to_size offset_end.z)))
        λ i j k. function (place_size nx ny i j k)

  -- The template over a direction; the function takes the left, the middle and the right index.
  cells_with_neighbours :
      {S : Type 0} → Memory R → Volume R → ℕ → (ℕ → ℕ → ℕ → S → S) → Vec3 ℤ → Vec3 ℤ → S → S
  unfolding total_x total_y total_z sub_size to_size index
  cells_with_neighbours view v direction function offset_start offset_end =
      let dx = to_nat (direction == 0) in
      let dy = to_nat (direction == 1) in
      let dz = to_nat (direction == 2) in
      nest (vec3 (to_size offset_start.x) (to_size offset_start.y) (to_size offset_start.z))
        (vec3 (sub_size (total_x v) (to_size offset_end.x))
          (sub_size (total_y v) (to_size offset_end.y))
          (sub_size (total_z v) (to_size offset_end.z)))
        λ x y z.
          function (index view (sub_size x dx) (sub_size y dy) (sub_size z dz)) (index view x y z)
            (index view (x + dx) (y + dy) (z + dz))

  unfoldable pub for_each_cell_index_with_neighbours :
      {S : Type 0} → ℕ → Volume R → (ℕ → ℕ → ℕ → S → S) → Vec3 ℤ → Vec3 ℤ → S → Result S
  unfolding cells_with_neighbours
  for_each_cell_index_with_neighbours direction v function offset_start offset_end s =
      if ltb direction 3
      then (or_undefined (get_elem? v.areas 0) >>= λ view.
          ok (cells_with_neighbours view v direction function offset_start offset_end s))
      else err unsupported_direction

  -- The template over a direction, with the depth of the layer that is left out on both ends
  internal_with_neighbours : {S : Type 0} → Volume R → ℕ → (ℕ → ℕ → ℕ → S → S) → ℕ → S → S
  unfolding total_x total_y total_z sub_size place_size
  internal_with_neighbours v direction function ghost_layer =
      let dx = to_nat (direction == 0) in
      let dy = to_nat (direction == 1) in
      let dz = to_nat (direction == 2) in
      let nx = total_x v in
      let ny = total_y v in
      nest (vec3 (ghost_layer * dx) (ghost_layer * dy) (ghost_layer * dz))
        (vec3 (sub_size nx (ghost_layer * dx)) (sub_size ny (ghost_layer * dy))
          (sub_size (total_z v) (ghost_layer * dz)))
        λ x y z.
          function (place_size nx ny (sub_size x dx) (sub_size y dy) (sub_size z dz))
            (place_size nx ny x y z) (place_size nx ny (x + dx) (y + dy) (z + dz))

  unfoldable pub for_each_internal_with_neighbours :
      {S : Type 0} → Volume R → ℕ → (ℕ → ℕ → ℕ → S → S) → ℕ → S → Result S
  unfolding internal_with_neighbours
  for_each_internal_with_neighbours v direction function ghost_layer s =
      if ltb direction 3
      then ok (internal_with_neighbours v direction function ghost_layer s)
      else err unsupported_direction

  -- The version over the inner cells alone
  unfoldable pub for_each_internal_volume_index : {S : Type 0} → Volume R → (ℕ → S → S) → S → S
  unfolding total_x total_y total_z sub_size place_size
  for_each_internal_volume_index v function =
      let nx = total_x v in
      let ny = total_y v in
      nest (vec3 v.ngx v.ngy v.ngz)
        (vec3 (sub_size nx v.ngx) (sub_size ny v.ngy) (sub_size (total_z v) v.ngz))
        λ x y z. function (place_size nx ny x y z)

  -- `expandVariableStruct`: the values of all variables at one index
  unfoldable pub expand : List (Memory R) → ℕ → Result (List R)
  expand [] i = ok []
  expand (m ∷ ms) i = do v ← or_undefined (get_elem? m.cells i); vs ← expand ms i; ok (v ∷ vs)

  -- `saveVariableStruct`: writes the components of a struct to the variables at one index
  unfoldable pub save : List R → ℕ → List (Memory R) → Result (List (Memory R))
  save [] i ms = ok ms
  save (v ∷ vs) i [] = err undefined
  save (v ∷ vs) i (m ∷ ms) =
      guard (ltb i (length m.cells)) undefined
      >> (save vs i ms >>= λ rest. ok (record m { cells = set m.cells i v } ∷ rest))

  -- The step of `transform_volume` at one index
  transform_at :
      (List R → List R) → List (Memory R) → ℕ → Result (List (Memory R)) → Result (List (Memory R))
  unfolding expand save
  transform_at function areas i state = do
    out ← state
    values ← expand areas i
    save (function values) i out

  -- `transform_volume`, for structs of `struct_size` components; the result is the new `out`
  unfoldable pub transform_volume : ℕ → (List R → List R) → Volume R → Volume R → Result (Volume R)
  unfolding for_each_cell_index transform_at get_number_of_variables
  transform_volume struct_size function v out =
      guard (struct_size == get_number_of_variables v) variables_mismatch
      >> (for_each_cell_index v (transform_at function v.areas) origin origin (ok out.areas)
          >>= λ as'. ok (record out { areas = as' }))
    where
      origin : Vec3 ℤ
      origin = vec3 (pos 0) (pos 0) (pos 0)

module _ {R : Type 0} ⦃r : Real R⦄ where
  midpoint_step :
      {S : Type 0}
      → Volume R
      → Grid R
      → (Vec3 R → ℕ → ℕ → ℕ → ℕ → S → S)
      → List (Vec3 R)
      → ℕ
      → ℕ
      → ℕ
      → Result S
      → Result S
  unfolding place_size total_x total_y
  midpoint_step v g function midpoints i j k state = do
    s ← state
    let nxg = pos_part g.dimensions.x
    let nyg = pos_part g.dimensions.y
    let at = ((k - v.ngz) * nxg * nyg + (j - v.ngy) * nxg + (i - v.ngx)) % size_mod
    m ← or_undefined (get_elem? midpoints at)
    ok (function m (place_size (total_x v) (total_y v) i j k) (i - v.ngx) (j - v.ngy) (k - v.ngz) s)

  -- `for_each_midpoint`: the function takes the midpoint of the cell, its index in the volume, and its
  -- coordinates among the inner cells.
  unfoldable pub for_each_midpoint :
      {S : Type 0} → Volume R → Grid R → (Vec3 R → ℕ → ℕ → ℕ → ℕ → S → S) → S → Result S
  unfolding midpoint_step total_x total_y total_z sub_size
  for_each_midpoint v g function s =
      nest (vec3 v.ngx v.ngy v.ngz)
        (vec3 (sub_size (total_x v) v.ngx) (sub_size (total_y v) v.ngy)
          (sub_size (total_z v) v.ngz))
        (midpoint_step v g function (get_cell_midpoints g)) (ok s)
