-- ===== src/Mpi/Decomposition/Answers.antt =====
-- Every outcome of `decompose` (alsfvm/src/mpi/domain/CartesianDecomposition.cpp).
use alsvinn.Base.{
  ℕ, zero, suc, ◌*◌, ◌%◌, ◌<◌, ◌≡◌, ◌≢◌, ap, ◌∙◌, arith, Bool, true, false, ◌⊎◌, inl, inr, refl,
  Result, ok, err, uneven_decomposition, no_cuda, Gives, gives, ◌>>=◌,
}
use alsvinn.Base.Int.{ℤ, pos}
use alsvinn.Base.Real.{Real}
use alsvinn.Vec.{Vec3, comp, map3}
use alsvinn.Grid.{Grid, get_active_dimension}
use alsvinn.Mpi.Decomposition.{DomainInformation, check_divisible, decompose}
use alsvinn.Mpi.Decomposition.Division.{check_divisible-err}
use alsvinn.Mpi.Decomposition.Sides.{
  IsDecomposed, IsEven, decompose-Gives, processes, even_check, fill_sides-Gives, active_bound,
}

-- The first direction whose cells the processes do not divide
abbrev pub IsFirstUneven : Vec3 ℕ → Vec3 ℕ → ℕ → Type 0
IsFirstUneven d n i =
    (i < 3) × (comp d i % comp n i ≢ 0) × ((j : ℕ) → j < i → comp d j % comp n j ≡ 0)

-- What `decompose` answers: an exception for the first direction that the processes do not divide, an
-- exception where a device is asked for in a build without CUDA, and otherwise the box.
pub data IsAnswer {R : Type 0} (g : Grid R) (d n : Vec3 ℕ) (r : ℕ) (has_cuda is_cpu : Bool)
    : Result (DomainInformation R) → Type 0 where
  not_divided :
      (i : ℕ)
      → IsFirstUneven d n i
      → IsAnswer g d n r has_cuda is_cpu (err (uneven_decomposition i))
  no_device :
      IsEven d n
      → is_cpu ≡ false
      → has_cuda ≡ false
      → IsAnswer g d n r has_cuda is_cpu (err no_cuda)
  divided :
      {info : DomainInformation R}
      → IsEven d n
      → (is_cpu ≡ true) ⊎ (has_cuda ≡ true)
      → IsDecomposed g d n r info
      → IsAnswer g d n r has_cuda is_cpu (ok info)

zero_or_not : (a : ℕ) → (a ≡ 0) ⊎ (a ≢ 0)
zero_or_not zero = inl refl
zero_or_not (suc a) = inr (λ e. omega (arith, e))

IsEven-cases : (d n : Vec3 ℕ) → IsEven d n ⊎ ((i : ℕ) × IsFirstUneven d n i)
IsEven-cases d n = elim (zero_or_not (d.x % n.x)) [
  | inr x ↦ inr (0, (omega arith, x, λ j h. absurd (omega arith)))
  | inl x ↦ elim (zero_or_not (d.y % n.y)) [
    | inr y ↦ inr (1, (omega arith, y, first x))
    | inl y ↦ elim (zero_or_not (d.z % n.z)) [
      | inr z ↦ inr (2, (omega arith, z, second x y))
      | inl z ↦ inl (x, y, z)
    ]
  ]
]
  where
    first : d.x % n.x ≡ 0 → (j : ℕ) → j < 1 → comp d j % comp n j ≡ 0
    first x zero h = x
    first x (suc j) h = absurd (omega arith)

    second : d.x % n.x ≡ 0 → d.y % n.y ≡ 0 → (j : ℕ) → j < 2 → comp d j % comp n j ≡ 0
    second x y zero h = x
    second x y (suc zero) h = y
    second x y (suc (suc j)) h = absurd (omega arith)

-- What comes before a failing check does not change that it fails.
fails_after :
    {A B : Type 0} {P : A → Type 0} {run : Result A}
    → Gives P run
    → ◌≡◌ {A = Result B} (run >>= λ s. err no_cuda) (err no_cuda)
fails_after (gives p) = refl

module _ {R : Type 0} ⦃real : Real R⦄ (g : Grid R) (d n : Vec3 ℕ)
    (sizes : g.dimensions ≡ map3 pos d) (r : ℕ) (small : r < n.x * n.y * n.z) where
  abbrev run : Bool → Bool → Result (DomainInformation R)
  run has_cuda is_cpu = decompose has_cuda (map3 pos n) record { rank = pos r; is_cpu = is_cpu } g

  run_uneven :
      (has_cuda is_cpu : Bool) (i : ℕ)
      → IsFirstUneven d n i
      → run has_cuda is_cpu ≡ err (uneven_decomposition i)
  unfolding decompose
  run_uneven has_cuda is_cpu i (lt, bad, good) =
      rw
        (ap (λ (t : Vec3 ℤ). check_divisible t (map3 pos n)) sizes
          ∙ check_divisible-err d n (processes n r small) i lt bad good)
        refl

  run_without_device : IsEven d n → run false false ≡ err no_cuda
  unfolding decompose
  run_without_device even =
      rw (even_check g d n sizes (processes n r small) even)
        (fails_after (fill_sides-Gives g n r small (2 * get_active_dimension g) (active_bound g)))

  run_on_device : run true false ≡ run true true
  unfolding decompose
  run_on_device = refl

  found :
      (has_cuda is_cpu : Bool)
      → IsEven d n
      → (is_cpu ≡ true) ⊎ (has_cuda ≡ true)
      → {answer : Result (DomainInformation R)} → Gives (IsDecomposed g d n r) answer
      → IsAnswer g d n r has_cuda is_cpu answer
  found has_cuda is_cpu even device (gives info) = divided even device info

  -- For a rank of the arrangement `decompose` has these outcomes alone: it throws for the first
  -- direction that the processes do not divide; where they divide all of them it throws if a device is
  -- asked for in a build without CUDA, and otherwise returns the box of the process.
  pub decompose-IsAnswer :
      (has_cuda is_cpu : Bool)
      → IsAnswer g d n r has_cuda is_cpu
          (decompose has_cuda (map3 pos n) record { rank = pos r; is_cpu = is_cpu } g)
  decompose-IsAnswer has_cuda is_cpu = elim (IsEven-cases d n) [
    | inr (i, uneven) ↦ rw (run_uneven has_cuda is_cpu i uneven) (not_divided i uneven)
    | inl even ↦ at has_cuda is_cpu even
  ]
    where
      at :
          (has_cuda is_cpu : Bool)
          → IsEven d n
          → IsAnswer g d n r has_cuda is_cpu (run has_cuda is_cpu)
      at has_cuda true even =
          found has_cuda true even (inl refl) (decompose-Gives g d n sizes has_cuda r small even)
      at true false even =
          rw run_on_device
            (found true false even (inr refl) (decompose-Gives g d n sizes true r small even))
      at false false even = rw (run_without_device even) (no_device even refl refl)
