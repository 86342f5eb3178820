-- ===== src/Uq/Statistics/Structure/Separate.antt =====
-- The distances of alsuq/src/stats/StructureBasic.cpp do not touch one another.
use alsvinn.Base.{
  ℕ, suc, ◌≤◌, ◌<◌, ◌≡◌, refl, ap, sym, ◌∙◌, arith, inl, inr, Bool-cases, ltb, lt→ltb, le→ltb, ◌==◌,
  ==_iff, if◌then◌else◌, Result, ok, ◌>>=◌, try_range-Gives, Gives, gives, Gives-map, ok-injective,
}
use alsvinn.Base.Int.{ℤ, pos}
use alsvinn.Base.Real.{Real}
use alsvinn.Vec.{Vec3, vec3, map3}
use alsvinn.Boxes.{InBox, try_nest}
use alsvinn.Boxes.Both.{Both, both, try_nest-Both}
use alsvinn.Memory.{Memory, read}
use alsvinn.Memory.Access.{IsAllocated, IsInside, same_cell, read-ok, write-IsWritten}
use alsvinn.Uq.Statistics.Structure.{Parameters, summand, add_at, add_cell, compute_variable}

-- A block for a value at each distance
pub record IsOutput {R : Type 0} (number_of_h : ℕ) (m : Memory R) : Type 0 where
  pub allocated : IsAllocated m
  pub one_for_each : m.nx ≡ number_of_h
  pub flat : (m.ny ≡ 1) × (m.nz ≡ 1)

module _ {R : Type 0} ⦃r : Real R⦄ (s : Parameters R) (input : Memory R) where
  -- Only the sum at the distance h
  unfoldable pub sum_at : ℕ → R → Result R
  unfolding summand try_nest
  sum_at h =
      try_nest (vec3 (pos 0) (pos 0) (pos 0)) (map3 pos s.cells)
        λ c x. summand s input c h >>= λ more. ok (r.add x more)

  -- Each value that the loops read is there.
  abbrev pub IsReadable : Type 0
  IsReadable =
      (c : Vec3 ℤ) (h : ℕ)
      → InBox (vec3 (pos 0) (pos 0) (pos 0)) (map3 pos s.cells) c
      → h < s.number_of_h
      → (x : R) × (summand s input c h ≡ ok x)

  -- The block holds a value at the distance h.
  abbrev pub HoldsAt : ℕ → Memory R → R → Type 0
  HoldsAt h m x = IsOutput s.number_of_h m × (read m h 0 0 ≡ ok x)

module _ {R : Type 0} ⦃r : Real R⦄ where
  inside : (n k : ℕ) (m : Memory R) → IsOutput n m → k < n → IsInside m k 0 0
  inside n k m out fits = record {
    x_lt = omega (arith, out.one_for_each);
    y_lt = omega (arith, out.flat);
    z_lt = omega (arith, out.flat);
  }

  add_at-Gives :
      (n k h : ℕ) (x old : R) (m : Memory R)
      → IsOutput n m
      → k < n
      → h < n
      → read m h 0 0 ≡ ok old
      → Gives
          (λ m'. IsOutput n m' × (read m' h 0 0 ≡ ok (if k == h then r.add old x else old)))
          (add_at k x m)
  unfolding add_at
  add_at-Gives n k h x old m out k_lt h_lt held =
      let (old_k, at_k) = read-ok m k 0 0 out.allocated (inside n k m out k_lt) in
      rw at_k (
        Gives-map (write-IsWritten m k 0 0 (r.add old_k x) out.allocated (inside n k m out k_lt))
          λ m' w. (
            record {
              allocated = w.allocated;
              one_for_each = w.shape.same_nx ∙ out.one_for_each;
              flat = (w.shape.same_ny ∙ out.flat.0, w.shape.same_nz ∙ out.flat.1);
            },
            at_h old_k at_k m' (w.value h 0 0 (inside n h m out h_lt)),
          ))
    where
      at_h :
          (old_k : R)
          → read m k 0 0 ≡ ok old_k
          → (m' : Memory R)
          → read m' h 0 0 ≡ (if same_cell k 0 0 h 0 0 then ok (r.add old_k x) else read m h 0 0)
          → read m' h 0 0 ≡ ok (if k == h then r.add old x else old)
      at_h old_k at_k m' value = elim (Bool-cases (k == h)) [
        | inl e ↦
            let same =
              ok-injective old_k old
                (sym at_k ∙ ap (λ i. read m i 0 0) ((==_iff k h).0 e) ∙ held) in
            rw e ((rw e at value) ∙ ap (λ v. ok (r.add v x)) same)
        | inr e ↦ rw e ((rw e at value) ∙ held)
      ]

  -- The value at the distance h before and after the round for the distance k
  one_more :
      (h k : ℕ) (x y more : R)
      → (k ≡ h → y ≡ more)
      → (if k == h
          then r.add (if ltb h k then r.add x more else x) y
          else (if ltb h k then r.add x more else x))
        ≡ (if ltb h (suc k) then r.add x more else x)
  one_more h k x y more same = ground (arith, same)

module _ {R : Type 0} ⦃r : Real R⦄ (s : Parameters R) (input : Memory R)
    (readable : IsReadable s input) (h : ℕ) (h_lt : h < s.number_of_h) where
  -- One cell adds its share to the sum at the distance h, whatever it adds at the others.
  add_cell-Both :
      (c : Vec3 ℤ)
      → InBox (vec3 (pos 0) (pos 0) (pos 0)) (map3 pos s.cells) c
      → (m : Memory R) (x : R) → HoldsAt s input h m x
      → Both
          (HoldsAt s input h)
          (add_cell s input c m)
          (summand s input c h >>= λ more. ok (r.add x more))
  unfolding add_cell
  add_cell-Both c at m x (out, held) =
      let (more, given) = readable c h at h_lt in
      rw given (
        to_Both more (
          try_range-Gives (λ k t. HoldsAt s input h t (if ltb h k then r.add x more else x))
            s.number_of_h _ s.number_of_h 0 m (omega arith) (step more given)
            (out, held ∙ ap ok (rw (le→ltb h 0 (omega arith)) refl))))
    where
      step :
          (more : R)
          → summand s input c h ≡ ok more
          → (k : ℕ) (t : Memory R) → 0 ≤ k
          → k < s.number_of_h
          → HoldsAt s input h t (if ltb h k then r.add x more else x)
          → Gives
              (λ t'. HoldsAt s input h t' (if ltb h (suc k) then r.add x more else x))
              (summand s input c k >>= λ y. add_at k y t)
      step more given k t lo k_lt (out', held') =
          let (y, y_given) = readable c k at k_lt in
          rw y_given (
            Gives-map (add_at-Gives s.number_of_h k h y _ t out' k_lt h_lt held') λ t' (o, v). (
              o,
              v
                  ∙ ap ok (
                      one_more h k x y more
                        λ e. ok-injective y more (sym y_given ∙ ap (summand s input c) e ∙ given)),
            ))

      to_Both :
          (more : R) {run : Result (Memory R)}
          → Gives (λ t. HoldsAt s input h t (if ltb h s.number_of_h then r.add x more else x)) run
          → Both (HoldsAt s input h) run (ok (r.add x more))
      to_Both more (gives held') = both (rw (lt→ltb h s.number_of_h h_lt) at held')

  -- The loop for all distances leaves, at the distance h, what a loop for h alone computes.
  pub compute_variable-Both :
      (output : Memory R) (old : R)
      → HoldsAt s input h output old
      → Both (HoldsAt s input h) (compute_variable s input output) (sum_at s input h old)
  unfolding compute_variable sum_at
  compute_variable-Both output old =
      try_nest-Both (HoldsAt s input h) _ _ _ _ output old add_cell-Both
