-- ===== src/Memory.antt =====
-- alsfvm/src/memory/HostMemory.cpp, alsfvm/src/memory/Memory.cpp, alsfvm/include/alsfvm/memory/View.hpp
-- and index.hpp: a block of `nx * ny * nz` values in host memory, the arithmetic on whole blocks, and
-- the view of a block as a three-dimensional array.
pub mod Layout
pub mod Access
use alsvinn.Base.{
  ℕ, zero, suc, ◌+◌, ◌-◌, ◌*◌, ◌%◌, ◌^◌, List, [], ◌∷◌, map, Bool, true, false, ◌&&◌, Option, none,
  some, ltb, ◌==◌, if◌then◌else◌, length, get_elem?, set, replicate, Result, ok, err, Error,
  undefined, not_on_host, size_mismatch, guard, or_undefined, ◌>>=◌, ◌>>◌, ◌++◌, take, drop, min,
}
use alsvinn.Base.Int.{pos}
use alsvinn.Base.Real.{Real}

-- The modulus of `size_t`.
abbrev pub size_mod : ℕ
size_mod = 2 ^ 64

-- `a - b` in `size_t`, which wraps around.
unfoldable pub sub_size : ℕ → ℕ → ℕ
sub_size a b = (a + (size_mod - b % size_mod)) % size_mod

pub record Memory (R : Type 0) : Type 0 where
  pub nx : ℕ
  pub ny : ℕ
  pub nz : ℕ
  pub cells : List R
  pub on_host : Bool

module _ {R : Type 0} where
  unfoldable pub get_size : Memory R → ℕ
  get_size m = m.nx * m.ny * m.nz

  -- `View::index`, computed in `size_t`
  unfoldable pub index : Memory R → ℕ → ℕ → ℕ → ℕ
  index m x y z = (z * m.nx * m.ny + y * m.nx + x) % size_mod

  in_range : Memory R → ℕ → ℕ → ℕ → Bool
  in_range m x y z = ltb x m.nx && ltb y m.ny && ltb z m.nz

  -- `View::at`, as a value and as the target of an assignment. The assertions on the coordinates are
  -- failures of the model, also where a release build leaves them out.
  unfoldable pub read : Memory R → ℕ → ℕ → ℕ → Result R
  unfolding in_range
  read m x y z =
      if in_range m x y z then or_undefined (get_elem? m.cells (index m x y z)) else err undefined

  unfoldable pub write : ℕ → ℕ → ℕ → R → Memory R → Result (Memory R)
  unfolding in_range
  write x y z v m =
      if in_range m x y z && ltb (index m x y z) (length m.cells)
      then ok (record m { cells = set m.cells (index m x y z) v })
      else err undefined

  -- `data[i] = op(data[i], pointer[i])` for the cells of a block, from its first cell on
  unfoldable pub zip_cells : (R → R → R) → List R → List R → Result (List R)
  zip_cells op [] other = ok []
  zip_cells op (x ∷ xs) [] = err undefined
  zip_cells op (x ∷ xs) (y ∷ ys) = zip_cells op xs ys >>= λ rest. ok (op x y ∷ rest)

  set_cells : Memory R → List R → Memory R
  set_cells m cs = record m { cells = cs }

  -- The guards `CHECK_SIZE_AND_HOST`
  check_size_and_host : Memory R → Memory R → Result (Unit {0})
  unfolding get_size
  check_size_and_host m other =
      guard other.on_host not_on_host >> guard (get_size m == get_size other) size_mismatch

  -- `copyFromHost`: copies what both the buffer and the block have room for
  unfoldable pub copy_from_host : List R → Memory R → Memory R
  unfolding get_size set_cells
  copy_from_host buffer m =
      let n = min (length buffer) (get_size m) in set_cells m (take n buffer ++ drop n m.cells)

  -- `copyFrom`
  unfoldable pub copy_from : Memory R → Memory R → Result (Memory R)
  unfolding check_size_and_host set_cells
  copy_from m other = check_size_and_host m other >> ok (set_cells m other.cells)

module _ {R : Type 0} ⦃r : Real R⦄ where
  -- `HostMemory(nx, ny, nz)`, whose cells start as 42
  unfoldable pub make_memory : ℕ → ℕ → ℕ → Memory R
  make_memory nx ny nz = record {
    nx = nx;
    ny = ny;
    nz = nz;
    cells = replicate (nx * ny * nz) (r.of_int (pos 42));
    on_host = true;
  }

  -- `operator+=(const Memory<T>&)`, which does not compare the sizes
  unfoldable pub add_memory : Memory R → Memory R → Result (Memory R)
  unfolding zip_cells set_cells
  add_memory m other =
      guard other.on_host not_on_host
      >> (zip_cells r.add m.cells other.cells >>= λ cs. ok (set_cells m cs))

  -- `operator*=`, `-=` and `/=` on two blocks
  combine_memory : (R → R → R) → Memory R → Memory R → Result (Memory R)
  unfolding get_size zip_cells set_cells
  combine_memory op m other =
      guard other.on_host not_on_host
      >> guard (get_size other == get_size m) size_mismatch
      >> (zip_cells op m.cells other.cells >>= λ cs. ok (set_cells m cs))

  unfoldable pub mul_memory : Memory R → Memory R → Result (Memory R)
  unfolding combine_memory
  mul_memory = combine_memory r.mul

  unfoldable pub sub_memory : Memory R → Memory R → Result (Memory R)
  unfolding combine_memory
  sub_memory = combine_memory r.sub

  unfoldable pub div_memory : Memory R → Memory R → Result (Memory R)
  unfolding combine_memory
  div_memory = combine_memory r.div

  -- The operators with a scalar, and `makeZero`
  unfoldable pub add_scalar : Memory R → R → Memory R
  unfolding set_cells
  add_scalar m c = set_cells m (map (λ x. r.add x c) m.cells)

  unfoldable pub mul_scalar : Memory R → R → Memory R
  unfolding set_cells
  mul_scalar m c = set_cells m (map (λ x. r.mul x c) m.cells)

  unfoldable pub sub_scalar : Memory R → R → Memory R
  unfolding set_cells
  sub_scalar m c = set_cells m (map (λ x. r.sub x c) m.cells)

  unfoldable pub div_scalar : Memory R → R → Memory R
  unfolding set_cells
  div_scalar m c = set_cells m (map (λ x. r.div x c) m.cells)

  unfoldable pub make_zero : Memory R → Memory R
  unfolding set_cells
  make_zero m = set_cells m (map (λ _. r.of_int (pos 0)) m.cells)

  -- `data[i] = a1 * d1[i] + a2 * d2[i] + ...`, cell by cell
  linear_cells : R → R → R → R → R → (d1 d2 d3 d4 d5 : List R) → Result (List R)
  linear_cells a1 a2 a3 a4 a5 [] d2 d3 d4 d5 = ok []
  linear_cells a1 a2 a3 a4 a5 (x1 ∷ d1) (x2 ∷ d2) (x3 ∷ d3) (x4 ∷ d4) (x5 ∷ d5) =
      linear_cells a1 a2 a3 a4 a5 d1 d2 d3 d4 d5 >>= λ rest. ok (
        r.add (r.add (r.add (r.add (r.mul a1 x1) (r.mul a2 x2)) (r.mul a3 x3)) (r.mul a4 x4))
          (r.mul a5 x5)
        ∷ rest)
  linear_cells a1 a2 a3 a4 a5 (x1 ∷ d1) _ _ _ _ = err undefined

  unfoldable pub add_linear_combination :
      Memory R → R → R → Memory R → R → Memory R → R → Memory R → R → Memory R → Result (Memory R)
  unfolding check_size_and_host linear_cells set_cells
  add_linear_combination m a1 a2 v2 a3 v3 a4 v4 a5 v5 =
      check_size_and_host m v2
      >> check_size_and_host m v3
      >> check_size_and_host m v4
      >> check_size_and_host m v5
      >> (linear_cells a1 a2 a3 a4 a5 m.cells v2.cells v3.cells v4.cells v5.cells >>= λ cs.
          ok (set_cells m cs))

  -- `addPower` and `subtractPower`
  unfoldable pub add_power : Memory R → Memory R → R → Result (Memory R)
  unfolding check_size_and_host zip_cells set_cells
  add_power m other power =
      check_size_and_host m other
      >> (zip_cells (λ x y. r.add x (r.pow y power)) m.cells other.cells >>= λ cs.
          ok (set_cells m cs))

  unfoldable pub add_power_factor : Memory R → Memory R → R → R → Result (Memory R)
  unfolding check_size_and_host zip_cells set_cells
  add_power_factor m other power factor =
      check_size_and_host m other
      >> (zip_cells (λ x y. r.add x (r.mul factor (r.pow y power))) m.cells other.cells >>= λ cs.
          ok (set_cells m cs))

  unfoldable pub subtract_power : Memory R → Memory R → R → Result (Memory R)
  unfolding check_size_and_host zip_cells set_cells
  subtract_power m other power =
      check_size_and_host m other
      >> (zip_cells (λ x y. r.sub x (r.pow y power)) m.cells other.cells >>= λ cs.
          ok (set_cells m cs))
