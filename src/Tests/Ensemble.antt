-- ===== src/Tests/Ensemble.antt =====
-- The theorems about statistics of several processes at concrete inputs.
use alsvinn.Base.{ℕ, ◌≡◌, refl, List, [], ◌∷◌, map, true, some, get_elem?, ok, Gives}
use alsvinn.Base.Int.{ℤ, pos, ◌+ℤ◌, ◌/ℤ◌}
use alsvinn.Base.Real.{int_real}
use alsvinn.Memory.{Memory}
use alsvinn.Uq.Statistics.{Snapshots}
use alsvinn.Uq.Statistics.Combine.{combine_statistics}
use alsvinn.Uq.Statistics.Combine.Calls.{areas_of}
use alsvinn.Uq.Statistics.Combine.Ensemble.{
  buffer, area_values, AllSent, combine_statistics-ensemble,
}

-- The sum over the samples of one process
abbrev sum_of : ℤ → Snapshots ℤ
sum_of a =
    (
      pos 0,
      (
        "mean",
        record {
          timestep_information = record { current_time = pos 0; number_of_steps_performed = 0 };
          volume = record {
            names = "u" ∷ [];
            areas = record { nx = 1; ny = 1; nz = 1; cells = a ∷ []; on_host = true } ∷ [];
            nx = 1;
            ny = 1;
            nz = 1;
            ngx = 0;
            ngy = 0;
            ngz = 0;
          };
        },
      )
          ∷ [],
    )
    ∷ []

abbrev sent_by : ℤ → List (List ℤ)
sent_by a = (a ∷ []) ∷ []

abbrev first_value : List ℤ → ℤ
first_value [] = pos 0
first_value (x ∷ xs) = x

abbrev add_up : List (List ℤ) → List ℤ
add_up [] = pos 0 ∷ []
add_up (b ∷ bs) = (first_value b +ℤ first_value (add_up bs)) ∷ []

abbrev received : ℕ → List ℤ → List ℤ
received k b = add_up (map (buffer k) (sent_by (pos 3) ∷ sent_by (pos 7) ∷ []))

both_sent :
    AllSent 5 (sum_of (pos 3) ∷ sum_of (pos 7) ∷ []) (sent_by (pos 3) ∷ sent_by (pos 7) ∷ [])
unfolding combine_statistics
both_sent = ((pos 0, received, _, refl), ((pos 1, (λ k b. b), _, refl), tt))

-- The sums 3 and 7 of two processes give the mean 2 of five samples.
combined_mean :
    combine_statistics (pos 0) 5 received (sum_of (pos 3)) ≡ ok (sent_by (pos 3), sum_of (pos 2))
unfolding combine_statistics ◌+ℤ◌ ◌/ℤ◌
combined_mean = refl

combine_statistics-ensemble_example :
    Gives
      (λ p.
        (k : ℕ) (m : Memory ℤ)
        → get_elem? (areas_of (sum_of (pos 3))) k ≡ some m
        → get_elem? (areas_of p.1) k
          ≡ some (record m {
            cells =
                map
                  (λ x. x /ℤ pos 5)
                  (add_up (map (area_values k) (sum_of (pos 3) ∷ sum_of (pos 7) ∷ [])));
          }))
      (combine_statistics (pos 0) 5 received (sum_of (pos 3)))
combine_statistics-ensemble_example =
    combine_statistics-ensemble 5 add_up received (sum_of (pos 3) ∷ sum_of (pos 7) ∷ [])
      (sent_by (pos 3) ∷ sent_by (pos 7) ∷ []) both_sent (λ k b. refl) (sum_of (pos 3))
