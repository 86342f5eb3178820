-- ===== src/Boundary/Patch.antt =====
-- Assignments to the cells of a block, alone and in loops (alsfvm/include/alsfvm/memory/View.hpp and
-- the loops of alsfvm/src/boundary/BoundaryCPU.cpp).
use native.Mathlib.Decide.{dec_le}
use alsvinn.Base.{
  ℕ, zero, suc, ◌+◌, ◌≤◌, ◌<◌, ◌≡◌, refl, inl, inr, Bool, true, false, ◌||◌, if◌then◌else◌, arith,
  Bool-cases, Result, ok, ◌>>=◌, Gives, gives, Gives-bind, Gives-map, try_range,
}
use alsvinn.Vec.{Vec3}
use alsvinn.Memory.{Memory, read, write}
use alsvinn.Memory.Access.{
  IsAllocated, IsInside, IsSameShape, IsWritten, same_cell, same_cell_iff, read-ok, write-IsWritten,
}

abbrev pub Point : Type 0
Point = Vec3 ℕ

-- `data[target] = data[source]`
unfoldable pub copy_cell : {R : Type 0} → Point → Point → Memory R → Result (Memory R)
copy_cell target source m =
    read m source.x source.y source.z >>= λ v. write target.x target.y target.z v m

abbrev pub read_at : {R : Type 0} → Memory R → Point → Result R
read_at m p = read m p.x p.y p.z

abbrev pub IsPoint : {R : Type 0} → Memory R → Point → Type 0
IsPoint m p = IsInside m p.x p.y p.z

abbrev pub same_point : Point → Point → Bool
same_point p q = same_cell p.x p.y p.z q.x q.y q.z

pub IsInside-same :
    {R : Type 0} {m m' : Memory R} {x y z : ℕ}
    → IsSameShape m m'
    → IsInside m x y z
    → IsInside m' x y z
IsInside-same s i = record { x_lt = omega arith; y_lt = omega arith; z_lt = omega arith }

pub any_range : ℕ → ℕ → (ℕ → Bool) → Bool
any_range zero i t = false
any_range (suc n) i t = any_range n (suc i) t || t i

pub any_range_intro :
    (n i k : ℕ) (t : ℕ → Bool) → i ≤ k → k < i + n → t k ≡ true → any_range n i t ≡ true
unfolding any_range
any_range_intro zero i k t lo hi h = absurd (omega arith)
any_range_intro (suc n) i k t lo hi h = elim (dec_le k i) [
  | yes e ↦ let same : k ≡ i = omega arith in ground (arith, rw same at h)
  | no gt ↦ rw (any_range_intro n (suc i) k t (omega arith) (omega arith) h) (ground arith)
]

pub any_range_elim :
    (n i : ℕ) (t : ℕ → Bool)
    → any_range n i t ≡ true
    → (k : ℕ) × (i ≤ k) × (k < i + n) × (t k ≡ true)
unfolding any_range
any_range_elim zero i t h = cc
any_range_elim (suc n) i t h = elim (Bool-cases (t i)) [
  | inl e ↦ (i, omega arith, omega arith, e)
  | inr e ↦
      let (k, lo, hi, q) = any_range_elim n (suc i) t (ground arith) in
      (k, omega arith, omega arith, q)
]

-- `Ghost` holds the cells that may be assigned, and `source` the cell from which each is filled.
module _ {R : Type 0} (Ghost : Point → Bool) (source : Point → Point) where
  pub record IsPatched (D : Point → Bool) (m m' : Memory R) : Type 0 where
    pub shape : IsSameShape m m'
    pub allocated : IsAllocated m'
    pub within : (p : Point) → IsPoint m p → D p ≡ true → Ghost p ≡ true
    pub value :
        (p : Point)
        → IsPoint m p
        → read_at m' p ≡ (if D p then read_at m (source p) else read_at m p)

  -- The source of a ghost cell is a cell of the block, and no ghost cell.
  abbrev pub IsSound : Memory R → Type 0
  IsSound m =
      (p : Point) → IsPoint m p → Ghost p ≡ true → IsPoint m (source p) × (Ghost (source p) ≡ false)

  pub IsPatched-none : (m : Memory R) → IsAllocated m → IsPatched (λ _. false) m m
  IsPatched-none m a = record {
    shape = record { same_nx = refl; same_ny = refl; same_nz = refl };
    allocated = a;
    within = λ p i h. cc;
    value = λ p i. refl;
  }

  trans_value :
      (D E : Point → Bool) (m m' m'' : Memory R) (p : Point)
      → IsSound m
      → IsPatched D m m'
      → IsPatched E m' m''
      → IsPoint m p
      → read_at m'' p ≡ (if E p || D p then read_at m (source p) else read_at m p)
  trans_value D E m m' m'' p sound a b i =
      let j : IsPoint m' p = IsInside-same a.shape i in
      elim (Bool-cases (E p)) [
        | inl e ↦
            let (inside, outer) = sound p i (b.within p j e) in
            let free : D (source p) ≡ false = elim (Bool-cases (D (source p))) [
              | inl d ↦ cc (a.within (source p) inside d)
              | inr d ↦ d
            ] in
            rw (b.value p j, e, a.value (source p) inside, free)
        | inr e ↦ rw (b.value p j, e) (a.value p i)
      ]

  -- Two batches of assignments, one after the other.
  pub IsPatched-trans :
      (D E : Point → Bool) (m m' m'' : Memory R)
      → IsSound m
      → IsPatched D m m'
      → IsPatched E m' m''
      → IsPatched (λ p. E p || D p) m m''
  IsPatched-trans D E m m' m'' sound a b = record {
    shape = record { same_nx = omega arith; same_ny = omega arith; same_nz = omega arith };
    allocated = b.allocated;
    within = λ p i h. ground (arith, a.within p i, b.within p (IsInside-same a.shape i));
    value = λ p i. trans_value D E m m' m'' p sound a b i;
  }

  pub IsSound-same : (m m' : Memory R) → IsSameShape m m' → IsSound m → IsSound m'
  IsSound-same m m' s sound p i g =
      let back : IsSameShape m' m = record {
        same_nx = omega arith;
        same_ny = omega arith;
        same_nz = omega arith;
      } in
      let (inside, outer) = sound p (IsInside-same back i) g in (IsInside-same s inside, outer)

  -- A loop whose rounds are batches of assignments.
  pub try_range-IsPatched :
      (D : ℕ → Point → Bool) (body : ℕ → Memory R → Result (Memory R)) (n i : ℕ) (m : Memory R)
      → IsSound m
      → IsAllocated m
      → ((k : ℕ) (m' : Memory R)
          → i ≤ k
          → k < i + n
          → IsSameShape m m'
          → IsAllocated m'
          → Gives (IsPatched (D k) m') (body k m'))
      → Gives (IsPatched (λ p. any_range n i (λ k. D k p)) m) (try_range n i body m)
  unfolding try_range any_range
  try_range-IsPatched D body zero i m sound a step = gives (IsPatched-none m a)
  try_range-IsPatched D body (suc n) i m sound a step =
      Gives-bind (step i m (omega arith) (omega arith) (omega arith) a) λ m' first.
        Gives-map
          (try_range-IsPatched D body n (suc i) m' (IsSound-same m m' first.shape sound)
            first.allocated (λ k m'' lo hi s. step k m'' (omega arith) (omega arith) (omega arith)))
          λ m'' rest. IsPatched-trans (D i) _ m m' m'' sound first rest

  -- A single assignment.
  pub copy_cell-IsPatched :
      (target : Point) (m : Memory R)
      → IsAllocated m
      → IsPoint m target
      → IsPoint m (source target)
      → Ghost target ≡ true
      → Gives (IsPatched (same_point target) m) (copy_cell target (source target) m)
  unfolding copy_cell
  copy_cell-IsPatched target m a i j g =
      let s = source target in
      let (v, e) = read-ok m s.x s.y s.z a j in
      rw e (
        Gives-map (write-IsWritten m target.x target.y target.z v a i) λ m' w. record {
          shape = w.shape;
          allocated = w.allocated;
          within = λ p k h. within_of p h;
          value = λ p k. value_of v m' e w p k;
        })
    where
      point_eq : (p : Point) → same_point target p ≡ true → target ≡ p
      point_eq p h =
          let (ex, ey, ez) = (same_cell_iff target.x target.y target.z p.x p.y p.z).0 h in
          λ d. record { x = ex d; y = ey d; z = ez d }

      within_of : (p : Point) → same_point target p ≡ true → Ghost p ≡ true
      within_of p h = rw (point_eq p h) at g

      value_of :
          (v : R) (m' : Memory R)
          → read_at m (source target) ≡ ok v
          → IsWritten target.x target.y target.z v m m'
          → (p : Point) → IsPoint m p
          → read_at m' p ≡ (if same_point target p then read_at m (source p) else read_at m p)
      value_of v m' e w p k = elim (Bool-cases (same_point target p)) [
        | inl h ↦ rw (w.value p.x p.y p.z k, h, ← point_eq p h, e)
        | inr h ↦ rw (w.value p.x p.y p.z k, h)
      ]
