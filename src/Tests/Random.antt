-- ===== src/Tests/Random.antt =====
-- The theorems about random parameters at concrete inputs: an engine that counts.
use alsvinn.Base.{
  ℕ, suc, ◌+◌, ◌≡◌, refl, arith, List, [], ◌∷◌, map, ok, err, component_too_high, Gives,
}
use alsvinn.Base.Int.{ℤ, pos}
use alsvinn.Base.Real.{int_real}
use alsvinn.Uq.Generator.{Engine, Instance, generate}
use alsvinn.Uq.Generator.Stream.{IsStream, HandsOut, number, generate-HandsOut}
use alsvinn.Uq.Generator.Calls.{Call, IsIncreasing, generate_each, generate_each-IsIncreasing}
use alsvinn.Uq.Samples.{generate_parameter}
use alsvinn.Uq.Samples.Ensemble.{
  samples_from, parameters_of, rows_from, only, parameters_of-rows_from,
}

abbrev counter : Engine ℕ ℤ
counter = record { discard = λ n e. e + n; draw = λ e. (pos e, suc e) }

counter-IsStream : IsStream counter
counter-IsStream = record { discard_add = λ m n e. omega arith; draw_one = λ e. omega arith }

abbrev fresh : Instance ℕ
fresh = record { engine = 0; generated = 0 }

-- On a fresh generator of dimension 3, component 2 of sample 4 skips to component 1 of sample 3.
skipped : generate counter 3 2 4 fresh ≡ ok (pos 10, record { engine = 11; generated = 11 })
unfolding generate
skipped = refl

no_such_component : generate counter 3 3 0 fresh ≡ err component_too_high
unfolding generate
no_such_component = refl

generate-HandsOut_example : Gives (HandsOut counter 0 3 2 4 0) (generate counter 3 2 4 fresh)
generate-HandsOut_example = generate-HandsOut counter-IsStream 0 3 2 4 fresh refl (omega arith)

abbrev three_calls : List Call
three_calls =
    record { dimension = 3; component = 1; sample = 2 }
    ∷ (record { dimension = 2; component = 0; sample = 0 }
        ∷ (record { dimension = 3; component = 2; sample = 2 } ∷ []))

generate_each-IsIncreasing_example :
    Gives
      (λ (xs, g'). (places : List ℕ) × (xs ≡ map (number counter 0) places) × IsIncreasing 0 places)
      (generate_each counter three_calls fresh)
generate_each-IsIncreasing_example =
    generate_each-IsIncreasing counter-IsStream 0 three_calls fresh
      (omega arith, (omega arith, (omega arith, tt))) refl

-- Two processes with two samples each: samples 0 and 1 take rows 0 and 1 of the stream, but samples 2
-- and 3 take rows 1 and 2, so that samples 1 and 2 have the same parameter.
parameters_of-rows_from_example :
    Gives
      (λ (ps, g'). ps ≡ rows_from counter 0 "X" 2 (pos 0) (pos 1) 1 2)
      (parameters_of
        (generate_parameter counter (only "X" 2 (pos 0) (pos 1)))
        ("X" ∷ [])
        (samples_from 2 2)
        fresh)
parameters_of-rows_from_example =
    parameters_of-rows_from counter-IsStream 0 "X" 2 (pos 0) (pos 1) 2 2 0 fresh (refl, refl)
