-- ===== src/Coordinator/Budgets/Tests.antt =====
-- The budgets of the loop, at concrete inputs.
use nexus_runtime.Prelude.{ℕ, ◌≡◌, refl, [], ◌∷◌, some}
use nexus_runtime.Prelude.Int.{pos}
use nexus_runtime.Python.Number.{int_of}
use nexus_runtime.Python.Value.{int}
use nexus_runtime.Python.Raise.{ok, err}
use nexus_runtime.Coordinator.Budgets.{
  runtime_error, Usage, Ceilings, consumed, remaining, check_receipt, attempt,
}
use nexus_runtime.Coordinator.Budgets.Bounded.{fresh, another, InBudget, Attempts-InBudget}

abbrev ceilings : Ceilings
ceilings = record { maximum_calls = pos 3; maximum_attempts = pos 2 }

abbrev used : ℕ → Usage
used n = record { provider_calls = int (pos n); provider_attempt_count = int (pos 1) }

first_round : attempt ceilings [] (some (used 2)) ≡ ok (used 2 ∷ [])
unfolding attempt remaining consumed check_receipt int_of
first_round = refl

-- one call is left of three
exceeded :
    attempt ceilings (used 2 ∷ []) (some (used 2))
    ≡ err (runtime_error "provider execution receipt exceeded aggregate call budget")
unfolding attempt remaining consumed check_receipt int_of
exceeded = refl

Attempts-InBudget_example : InBudget ceilings (used 2 ∷ [])
Attempts-InBudget_example = Attempts-InBudget ceilings (another fresh (some (used 2)) first_round)
