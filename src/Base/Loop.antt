-- ===== src/Base/Loop.antt =====
-- Counting loops and their invariant rule.
use Prim.Native.Nat.{ℕ, zero, suc, ◌+◌, ◌≤◌, ◌<◌}
use mathlib.Core.Path.{◌≡◌, subst}
use native.Mathlib.Omega.{arith}

-- `for (i = start; i < start + rounds; ++i) state = step(i, state)`
unfoldable pub for_range {ℓ} : {S : Type ℓ} → ℕ → ℕ → (ℕ → S → S) → S → S
for_range zero start step state = state
for_range (suc rounds) start step state = for_range rounds (suc start) step (step start state)

-- What each round takes from one index to the next holds at the index after the last.
pub for_range_inv {ℓ κ} :
    {S : Type ℓ} (P : ℕ → S → Type κ) (step : ℕ → S → S) (rounds start stop : ℕ) (state : S)
    → start + rounds ≡ stop
    → ((k : ℕ) (t : S) → start ≤ k → k < stop → P k t → P (suc k) (step k t))
    → P start state
    → P stop (for_range rounds start step state)
unfolding for_range
for_range_inv P step zero start stop state e keep h = subst (λ k. P k state) (omega arith) h
for_range_inv P step (suc rounds) start stop state e keep h =
    for_range_inv P step rounds (suc start) stop (step start state) (omega arith)
      (λ k t lo. keep k t (omega arith)) (keep start state (omega arith) (omega arith) h)
