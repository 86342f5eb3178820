-- ===== src/Uq/Statistics/Combine/Calls.antt =====
-- The calls of `MPI_Reduce` in `combineStatistics` (alsuq/src/stats/StatisticsHelper.cpp), and what they
-- make of the snapshots.
use Prim.Native.String.{String}
use alsvinn.Base.{
  ℕ, zero, suc, ◌+◌, ◌*◌, ◌≡◌, refl, ap, sym, ◌∙◌, List, [], ◌∷◌, ◌++◌, map, Bool-cases, inl, inr,
  if◌then◌else◌, Option, none, some, length, get_elem?, replicate, ok, Gives, gives, Gives-bind,
  Gives-map, ==_refl, arith,
}
use alsvinn.Base.Int.{ℤ, pos, eqb_ℤ}
use alsvinn.Base.Real.{Real, num}
use alsvinn.Memory.{Memory, make_memory, copy_from, div_scalar, get_size}
use alsvinn.Uq.Statistics.{StatisticsSnapshot, Snapshots}
use alsvinn.Uq.Statistics.Combine.{
  data_reduced, combine_area, combine_areas, combine_names, combine_times, combine_statistics,
}

module _ {R : Type 0} where
  -- The areas of the snapshots of a time, and of all times, in the order of the loops
  areas_at : List (String × StatisticsSnapshot R) → List (Memory R)
  areas_at [] = []
  areas_at ((name, x) ∷ m) = x.volume.areas ++ areas_at m

  unfoldable pub areas_of : Snapshots R → List (Memory R)
  unfolding areas_at
  areas_of [] = []
  areas_of ((t, m) ∷ s) = areas_at m ++ areas_of s

  -- The times and names that the snapshots are kept under
  abbrev names_at : List (String × StatisticsSnapshot R) → List String
  names_at m = map (λ p. p.0) m

  abbrev pub keys : Snapshots R → List (R × List String)
  keys s = map (λ p. (p.0, names_at p.1)) s

  unfoldable pub cells_of : List (Memory R) → List (List R)
  cells_of ms = map (λ m. m.cells) ms

  module _ ⦃r : Real R⦄ (rank : ℤ) (samples : ℕ) (receive : ℕ → List R → List R) where
    -- What becomes of the area of call `k`: process 0 divides what it has received, another process
    -- what it has sent.
    unfoldable pub combined : ℕ → Memory R → Memory R
    combined k m = record m {
      cells =
          map (λ x. r.div x (num samples))
            (if eqb_ℤ rank (pos 0)
              then receive k (replicate (m.nx * m.ny * m.nz) (r.of_int (pos 42)))
              else m.cells);
    }

    each_area : ℕ → List (Memory R) → List (Memory R)
    each_area k [] = []
    each_area k (m ∷ ms) = combined k m ∷ each_area (suc k) ms

    -- The calls from `k` on send the areas, and leave the combined ones.
    IsCombined : ℕ → List (Memory R) → List (List R) → List (Memory R) → Type 0
    IsCombined k ms sent ms' = (sent ≡ cells_of ms) × (ms' ≡ each_area k ms)

    each_area-append :
        (k : ℕ) (xs ys : List (Memory R))
        → each_area k (xs ++ ys) ≡ each_area k xs ++ each_area (k + length (cells_of xs)) ys
    unfolding each_area cells_of
    each_area-append k [] ys = ap (λ n. each_area n ys) (omega arith)
    each_area-append k (x ∷ xs) ys =
        ap (λ l. combined k x ∷ l)
          (each_area-append (suc k) xs ys
            ∙ ap (λ n. each_area (suc k) xs ++ each_area n ys) (omega arith))

    cells_of-append : (xs ys : List (Memory R)) → cells_of (xs ++ ys) ≡ cells_of xs ++ cells_of ys
    unfolding cells_of
    cells_of-append [] ys = refl
    cells_of-append (x ∷ xs) ys = ap (λ l. x.cells ∷ l) (cells_of-append xs ys)

    IsCombined-nil : (k : ℕ) → IsCombined k [] [] []
    unfolding IsCombined each_area cells_of
    IsCombined-nil k = (refl, refl)

    IsCombined-append :
        (k : ℕ) (xs ys xs' ys' : List (Memory R)) (sent sent' : List (List R))
        → IsCombined k xs sent xs'
        → IsCombined (k + length sent) ys sent' ys'
        → IsCombined k (xs ++ ys) (sent ++ sent') (xs' ++ ys')
    unfolding IsCombined
    IsCombined-append k xs ys xs' ys' sent sent' (e, f) (e', f') = (
      rw e (rw e' (sym (cells_of-append xs ys))),
      rw f (rw f' (rw e (sym (each_area-append k xs ys)))),
    )

    combine_area_lem :
        (k : ℕ) (m : Memory R) → combine_area rank samples receive k m ≡ ok (combined k m)
    unfolding combine_area combined data_reduced copy_from make_memory div_scalar get_size
    combine_area_lem k m = elim (Bool-cases (eqb_ℤ rank (pos 0))) [
      | inl e ↦ rw e (rw (==_refl (m.nx * m.ny * m.nz)) refl)
      | inr e ↦ rw e refl
    ]

    combine_areas-IsCombined :
        (k : ℕ) (ms : List (Memory R))
        → Gives (λ p. IsCombined k ms p.0 p.1) (combine_areas rank samples receive k ms)
    unfolding combine_areas IsCombined each_area cells_of
    combine_areas-IsCombined k [] = gives (refl, refl)
    combine_areas-IsCombined k (m ∷ ms) = rw (combine_area_lem k m) (
        Gives-bind (combine_areas-IsCombined (suc k) ms)
          λ p (e, f). gives (ap (λ l. m.cells ∷ l) e, ap (λ l. combined k m ∷ l) f))

    combine_names-IsCombined :
        (k : ℕ) (m : List (String × StatisticsSnapshot R))
        → Gives
            (λ p. IsCombined k (areas_at m) p.0 (areas_at p.1) × (names_at p.1 ≡ names_at m))
            (combine_names rank samples receive k m)
    unfolding combine_names areas_at
    combine_names-IsCombined k [] = gives (IsCombined-nil k, refl)
    combine_names-IsCombined k ((name, x) ∷ m) =
        Gives-bind (combine_areas-IsCombined k x.volume.areas) λ (sent, areas) first.
          Gives-bind (combine_names-IsCombined (k + length sent) m) λ (sent', m') (rest, same).
            gives (IsCombined-append k _ _ _ _ sent sent' first rest, ap (λ l. name ∷ l) same)

    combine_times-IsCombined :
        (k : ℕ) (s : Snapshots R)
        → Gives
            (λ p. IsCombined k (areas_of s) p.0 (areas_of p.1) × (keys p.1 ≡ keys s))
            (combine_times rank samples receive k s)
    unfolding combine_times areas_of
    combine_times-IsCombined k [] = gives (IsCombined-nil k, refl)
    combine_times-IsCombined k ((t, m) ∷ s) =
        Gives-bind (combine_names-IsCombined k m) λ (sent, m') (first, same).
          Gives-bind (combine_times-IsCombined (k + length sent) s) λ (sent', s') (rest, same').
            gives (
              IsCombined-append k _ _ _ _ sent sent' first rest,
              ap (λ l. (t, l) ∷ keys s') same ∙ ap (λ l. (t, names_at m) ∷ l) same',
            )

    get_elem?-each_area :
        (k i : ℕ) (ms : List (Memory R)) (m : Memory R)
        → get_elem? ms i ≡ some m
        → get_elem? (each_area k ms) i ≡ some (combined (k + i) m)
    unfolding each_area
    get_elem?-each_area k i [] m e = cc
    get_elem?-each_area k zero (x ∷ ms) m e =
        ap (λ n. some (combined n x)) (omega arith) ∙ ap (combine_some (k + 0)) e
      where
        combine_some : ℕ → Option (Memory R) → Option (Memory R)
        combine_some n none = none
        combine_some n (some y) = some (combined n y)
    get_elem?-each_area k (suc i) (x ∷ ms) m e =
        get_elem?-each_area (suc k) i ms m e ∙ ap (λ n. some (combined n m)) (omega arith)

    length-each_area : (k : ℕ) (ms : List (Memory R)) → length (each_area k ms) ≡ length ms
    unfolding each_area
    length-each_area k [] = refl
    length-each_area k (m ∷ ms) = ap suc (length-each_area (suc k) ms)

    -- The process sends its areas in order, whatever it receives.
    abbrev pub SendsAll : Snapshots R → List (List R) → Type 0
    SendsAll s sent = sent ≡ cells_of (areas_of s)

    -- The snapshots keep their times and names, and area `k` is what call `k` makes of it.
    abbrev pub KeepsAll : Snapshots R → Snapshots R → Type 0
    KeepsAll s s' =
        (keys s' ≡ keys s)
        × (length (areas_of s') ≡ length (areas_of s))
        × ((k : ℕ) (m : Memory R)
            → get_elem? (areas_of s) k ≡ some m
            → get_elem? (areas_of s') k ≡ some (combined k m))

    -- `combineStatistics` does not fail. It sends each area of the snapshots once, in order, whatever the
    -- rank and whatever it receives. The snapshots keep their times and names, and the area of call `k`
    -- holds, divided by the number of samples, what call `k` has received on process 0, and what it
    -- held on another process.
    pub combine_statistics-KeepsAll :
        (s : Snapshots R)
        → Gives (λ p. SendsAll s p.0 × KeepsAll s p.1) (combine_statistics rank samples receive s)
    unfolding combine_statistics IsCombined
    combine_statistics-KeepsAll s =
        Gives-map (combine_times-IsCombined 0 s) λ (sent, s') ((e, f), same). (
          e,
          (
            same,
            ap length f ∙ length-each_area 0 (areas_of s),
            λ k m at.
                ap (λ l. get_elem? l k) f
                ∙ get_elem?-each_area 0 k (areas_of s) m at
                ∙ ap (λ n. some (combined n m)) (omega arith),
          ),
        )
