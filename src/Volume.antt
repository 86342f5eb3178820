-- ===== src/Volume.antt =====
-- alsfvm/src/volume/Volume.cpp: a block of memory for each variable, with ghost cells round the inner
-- cells, and the arithmetic on whole volumes.
pub mod ForEach
use Prim.Native.String.{String}
use text.Mathlib.Text.{◌==◌ as str_eq}
use alsvinn.Base.{
  ℕ, zero, suc, ◌+◌, ◌*◌, List, [], ◌∷◌, map, Bool, true, false, not, ◌&&◌, ltb, ◌==◌,
  if◌then◌else◌, length, get_elem?, Result, ok, err, undefined, variables_mismatch,
  unknown_variable, size_mismatch, guard, or_undefined, ◌>>=◌, ◌>>◌, ◌++◌, drop, leb, replicate,
}
use alsvinn.Base.Int.{ℤ, pos}
use alsvinn.Base.Real.{Real}
use alsvinn.Vec.{Vec3, vec3}
use alsvinn.Memory.{
  Memory, make_memory, add_memory, mul_scalar, make_zero, copy_from_host, get_size,
  add_linear_combination, add_power, add_power_factor, subtract_power,
}

pub record Volume (R : Type 0) : Type 0 where
  pub names : List String
  pub areas : List (Memory R)
  pub nx : ℕ
  pub ny : ℕ
  pub nz : ℕ
  pub ngx : ℕ
  pub ngy : ℕ
  pub ngz : ℕ

-- The first place of the name, counted from `i` on
index_from : String → List String → ℕ → Result ℕ
index_from name [] i = err unknown_variable
index_from name (n ∷ ns) i = if str_eq n name then ok i else index_from name ns (suc i)

any_name : String → List String → Bool
any_name name [] = false
any_name name (n ∷ ns) = if str_eq n name then true else any_name name ns

module _ {R : Type 0} where
  unfoldable pub total_x : Volume R → ℕ
  total_x v = v.nx + 2 * v.ngx

  unfoldable pub total_y : Volume R → ℕ
  total_y v = v.ny + 2 * v.ngy

  unfoldable pub total_z : Volume R → ℕ
  total_z v = v.nz + 2 * v.ngz

  unfoldable pub get_number_of_variables : Volume R → ℕ
  get_number_of_variables v = length v.names

  -- `getTotalDimensions` and `getSize`
  unfoldable pub get_total_dimensions : Volume R → Vec3 ℤ
  unfolding total_x total_y total_z
  get_total_dimensions v = vec3 (pos (total_x v)) (pos (total_y v)) (pos (total_z v))

  unfoldable pub get_inner_size : Volume R → Vec3 ℤ
  get_inner_size v = vec3 (pos v.nx) (pos v.ny) (pos v.nz)

  unfoldable pub get_number_of_ghost_cells : Volume R → Vec3 ℤ
  get_number_of_ghost_cells v = vec3 (pos v.ngx) (pos v.ngy) (pos v.ngz)

  unfoldable pub get_dimensions : Volume R → ℕ
  get_dimensions v = if v.ny == 1 then 1 else if v.nz == 1 then 2 else 3

  unfoldable pub get_index_from_name : Volume R → String → Result ℕ
  unfolding index_from
  get_index_from_name v name = index_from name v.names 0

  unfoldable pub has_variable : Volume R → String → Bool
  unfolding any_name
  has_variable v name = any_name name v.names

  set_areas : Volume R → List (Memory R) → Volume R
  set_areas v as' = record v { areas = as' }

  -- `for (i = 0; i < memoryAreas.size(); i++) op(*memoryAreas[i], *other[i])`
  zip_areas :
      (Memory R → Memory R → Result (Memory R))
      → List (Memory R)
      → List (Memory R)
      → Result (List (Memory R))
  zip_areas op [] other = ok []
  zip_areas op (m ∷ ms) [] = err undefined
  zip_areas op (m ∷ ms) (o ∷ os) = do m' ← op m o; ms' ← zip_areas op ms os; ok (m' ∷ ms')

  combine : (Memory R → Memory R → Result (Memory R)) → Volume R → Volume R → Result (Volume R)
  unfolding zip_areas set_areas
  combine op v other = zip_areas op v.areas other.areas >>= λ as'. ok (set_areas v as')

  -- `CHECK_SIZE_THIS`
  check_size_this : Volume R → Volume R → Result (Unit {0})
  unfolding total_x total_y total_z
  check_size_this v other =
      guard (length v.names == length other.names) variables_mismatch
      >> guard (total_x v == total_x other) size_mismatch
      >> guard (total_y v == total_y other) size_mismatch
      >> guard (total_z v == total_z other) size_mismatch

module _ {R : Type 0} ⦃r : Real R⦄ where
  -- The constructor: no ghost cells in a direction with one cell
  unfoldable pub make_volume : List String → ℕ → ℕ → ℕ → ℕ → Volume R
  unfolding make_memory
  make_volume names nx ny nz ng =
      let ngy = if ltb 1 ny then ng else 0 in
      let ngz = if ltb 1 nz then ng else 0 in
      record {
        names = names;
        areas = map (λ _. make_memory (nx + 2 * ng) (ny + 2 * ngy) (nz + 2 * ngz)) names;
        nx = nx;
        ny = ny;
        nz = nz;
        ngx = ng;
        ngy = ngy;
        ngz = ngz;
      }

  -- `makeInstance()`
  unfoldable pub make_instance : Volume R → Volume R
  unfolding make_volume
  make_instance v = make_volume v.names v.nx v.ny v.nz v.ngx

  -- The loop of `copyTo` over the variables: `copyToHost` fills the buffer, which has to be long
  -- enough, and `copyFromHost` copies as much of it as both sides have room for.
  copy_areas : List R → List String → List (Memory R) → List (Memory R) → Result (List (Memory R))
  unfolding get_size copy_from_host
  copy_areas buffer [] ms os = ok os
  copy_areas buffer (n ∷ ns) (m ∷ ms) (o ∷ os) =
      let buffer' = m.cells ++ drop (get_size m) buffer in
      guard (leb (get_size m) (length buffer)) undefined
      >> (copy_areas buffer' ns ms os >>= λ rest. ok (copy_from_host buffer' o ∷ rest))
  copy_areas buffer (n ∷ ns) _ _ = err undefined

  -- `copyTo`: each variable of `v` goes to the variable of `other` with the same index. The result is
  -- the new `other`.
  unfoldable pub copy_to : Volume R → Volume R → Result (Volume R)
  unfolding copy_areas set_areas get_size
  copy_to v other =
      if length v.names == 0
      then ok other
      else or_undefined (get_elem? v.areas 0) >>= λ first.
          copy_areas (replicate (get_size first) (r.of_int (pos 0))) v.names v.areas other.areas
          >>= λ as'. ok (set_areas other as')

  -- `operator+=`, `operator*=`, `makeZero`
  unfoldable pub add_volume : Volume R → Volume R → Result (Volume R)
  unfolding combine add_memory
  add_volume = combine add_memory

  unfoldable pub scale_volume : Volume R → R → Volume R
  unfolding set_areas mul_scalar
  scale_volume v c = set_areas v (map (λ m. mul_scalar m c) v.areas)

  unfoldable pub make_zero_volume : Volume R → Volume R
  unfolding set_areas make_zero
  make_zero_volume v = set_areas v (map make_zero v.areas)

  -- `addPower` and `subtractPower`
  unfoldable pub add_power_volume : Volume R → Volume R → R → Result (Volume R)
  unfolding combine add_power
  add_power_volume v other power = combine (λ m o. add_power m o power) v other

  unfoldable pub add_power_factor_volume : Volume R → Volume R → R → R → Result (Volume R)
  unfolding combine add_power_factor
  add_power_factor_volume v other power factor =
      combine (λ m o. add_power_factor m o power factor) v other

  unfoldable pub subtract_power_volume : Volume R → Volume R → R → Result (Volume R)
  unfolding combine subtract_power
  subtract_power_volume v other power = combine (λ m o. subtract_power m o power) v other

  -- The loop of `addLinearCombination` over the variables
  linear_areas :
      R
      → R
      → List (Memory R)
      → R
      → List (Memory R)
      → R
      → List (Memory R)
      → R
      → List (Memory R)
      → List (Memory R)
      → Result (List (Memory R))
  unfolding add_linear_combination
  linear_areas a1 a2 v2 a3 v3 a4 v4 a5 v5 [] = ok []
  linear_areas a1 a2 (m2 ∷ v2) a3 (m3 ∷ v3) a4 (m4 ∷ v4) a5 (m5 ∷ v5) (m ∷ ms) = do
    m' ← add_linear_combination m a1 a2 m2 a3 m3 a4 m4 a5 m5
    ms' ← linear_areas a1 a2 v2 a3 v3 a4 v4 a5 v5 ms
    ok (m' ∷ ms')
  linear_areas a1 a2 _ a3 _ a4 _ a5 _ (m ∷ ms) = err undefined

  unfoldable pub add_linear_combination_volume :
      Volume R → R → R → Volume R → R → Volume R → R → Volume R → R → Volume R → Result (Volume R)
  unfolding check_size_this linear_areas set_areas
  add_linear_combination_volume v a1 a2 v2 a3 v3 a4 v4 a5 v5 =
      check_size_this v v2
      >> check_size_this v v3
      >> check_size_this v v4
      >> check_size_this v v5
      >> (linear_areas a1 a2 v2.areas a3 v3.areas a4 v4.areas a5 v5.areas v.areas >>= λ as'.
          ok (set_areas v as'))
