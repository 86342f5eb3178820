-- ===== src/Uq/Statistics/Combine/Ensemble.antt =====
-- `combineStatistics` (alsuq/src/stats/StatisticsHelper.cpp) on all processes of a run.
use alsvinn.Base.{
  ℕ, zero, suc, ◌≡◌, refl, ap, sym, ◌∙◌, List, [], ◌∷◌, map, some, get_elem?, replicate, ok, Gives,
  Gives-value, ok-injective, Gives-map, ◌*◌,
}
use alsvinn.Base.Int.{ℤ, pos}
use alsvinn.Base.Real.{Real, num}
use alsvinn.Memory.{Memory}
use alsvinn.Uq.Statistics.{Snapshots}
use alsvinn.Uq.Statistics.Combine.{combine_statistics}
use alsvinn.Uq.Statistics.Combine.Calls.{areas_of, cells_of, combined, combine_statistics-KeepsAll}

module _ {R : Type 0} where
  -- The buffer of a call: empty past the last one
  abbrev pub buffer : ℕ → List (List R) → List R
  buffer k [] = []
  buffer zero (b ∷ bs) = b
  buffer (suc k) (b ∷ bs) = buffer k bs

  -- The values of area `k` of the snapshots
  unfoldable pub area_values : ℕ → Snapshots R → List R
  unfolding areas_of
  area_values k s = buffer k (cells_of (areas_of s))

  module _ ⦃r : Real R⦄ (samples : ℕ) where
    -- A process of some rank has sent the buffers, whatever it has received.
    abbrev pub HasSent : Snapshots R → List (List R) → Type 0
    HasSent s sent =
        (rank : ℤ) × (receive : ℕ → List R → List R) × (s' : Snapshots R) × (combine_statistics rank
            samples receive s
          ≡ ok (sent, s'))

    abbrev pub AllSent : List (Snapshots R) → List (List (List R)) → Type 0
    AllSent [] [] = Unit {0}
    AllSent (s ∷ ss) (sent ∷ sents) = HasSent s sent × AllSent ss sents
    AllSent [] (sent ∷ sents) = ⊥
    AllSent (s ∷ ss) [] = ⊥

    sent_lem :
        (s : Snapshots R) (sent : List (List R)) → HasSent s sent → sent ≡ cells_of (areas_of s)
    sent_lem s sent (rank, receive, s', e) =
        let (p, e', (all, kept)) =
          Gives-value (combine_statistics-KeepsAll rank samples receive s) in
        ap (λ q. q.0) (ok-injective (sent, s') p (sym e ∙ e')) ∙ all

    all_sent_lem :
        (k : ℕ) (ss : List (Snapshots R)) (sents : List (List (List R)))
        → AllSent ss sents
        → map (buffer k) sents ≡ map (area_values k) ss
    unfolding area_values
    all_sent_lem k [] [] h = refl
    all_sent_lem k [] (sent ∷ sents) h = absurd h
    all_sent_lem k (s ∷ ss) [] h = absurd h
    all_sent_lem k (s ∷ ss) (sent ∷ sents) (h, hs) =
        ap (λ l. buffer k l ∷ map (buffer k) sents) (sent_lem s sent h)
        ∙ ap (λ l. area_values k s ∷ l) (all_sent_lem k ss sents hs)

    -- Where all processes have run `combineStatistics`, and each receive buffer of process 0 holds the
    -- reduction of what the processes have sent in that call, an area of process 0 ends up with the
    -- reduction of that area of all processes, divided by the number of samples.
    pub combine_statistics-ensemble :
        (reduce : List (List R) → List R) (receive : ℕ → List R → List R) (ss : List (Snapshots R))
        (sents : List (List (List R)))
        → AllSent ss sents
        → ((k : ℕ) (b : List R) → receive k b ≡ reduce (map (buffer k) sents))
        → (s : Snapshots R)
        → Gives
            (λ p.
              (k : ℕ) (m : Memory R)
              → get_elem? (areas_of s) k ≡ some m
              → get_elem? (areas_of p.1) k
                ≡ some (record m {
                  cells = map (λ x. r.div x (num samples)) (reduce (map (area_values k) ss));
                }))
            (combine_statistics (pos 0) samples receive s)
    unfolding combined
    combine_statistics-ensemble reduce receive ss sents sent received s =
        Gives-map (combine_statistics-KeepsAll (pos 0) samples receive s)
          λ (_, s') (_, (_, _, kept)) k m at.
            kept k m at
            ∙ ap (λ l. some (record m { cells = map (λ x. r.div x (num samples)) l }))
                (received k (replicate (m.nx * m.ny * m.nz) (r.of_int (pos 42)))
                  ∙ ap reduce (all_sent_lem k ss sents sent))
