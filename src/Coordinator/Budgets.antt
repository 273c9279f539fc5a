-- ===== src/Coordinator/Budgets.antt =====
-- execution_coordination/coordinator.py: the calls and attempts that the receipts of a task have used, and
-- what is left of its budgets before and after a worker runs (execute_attempt).
pub mod Bounded
mod Tests
use nexus_runtime.Prelude.{
  ℕ, ◌+◌, ◌-◌, String, Bool, true, false, ◌&&◌, ◌||◌, not, List, [], ◌∷◌, ◌++◌, Option, none, some,
  leb, if◌then◌else◌,
}
use nexus_runtime.Prelude.Int.{ℤ, pos, negsuc, sub_ℕ, pos_part, neg_part, le_ℤ}
use nexus_runtime.Python.Number.{int_of}
use nexus_runtime.Python.Value.{Value, int, or_else, is_null}
use nexus_runtime.Python.Raise.{Result, ok, err, ◌>>=◌, ◌>>◌, require}

-- `RuntimeError` with its message, or what `int()` raises.
pub data BudgetError : Type 0 where
  runtime_error : String → BudgetError
  no_number : BudgetError

-- What a worker's receipt says of its calls and attempts.
pub record Usage : Type 0 where
  pub provider_calls : Value
  pub provider_attempt_count : Value

-- The ceilings of a task: `maximum_provider_calls` and `maximum_attempts_per_task`.
pub record Ceilings : Type 0 where
  pub maximum_calls : ℤ
  pub maximum_attempts : ℤ

-- `int(v)`
abbrev pub number_of : Value → Result BudgetError ℤ
unfolding int_of
number_of v = elim (int_of v) [ none ↦ err no_number | some n ↦ ok n ]

-- `max(0, int(v or 0))`
abbrev pub count_of : Value → Result BudgetError ℕ
count_of v = do n ← number_of (or_else v (int (pos 0))); ok (pos_part n)

-- `sum(max(0, int(v or 0)) for v in values)`
unfoldable pub consumed : List Value → Result BudgetError ℕ
consumed [] = ok 0
consumed (v ∷ rest) = do n ← count_of v; others ← consumed rest; ok (n + others)

-- `ceiling - used`
abbrev pub left_of : ℤ → ℕ → ℤ
left_of ceiling used = sub_ℕ (pos_part ceiling) (neg_part ceiling + used)

abbrev pub calls_of : List Usage → List Value
calls_of [] = []
calls_of (u ∷ rest) = u.provider_calls ∷ calls_of rest

abbrev pub attempts_of : List Usage → List Value
attempts_of [] = []
attempts_of (u ∷ rest) = u.provider_attempt_count ∷ attempts_of rest

-- what is left of both budgets, where something is left of each
unfoldable pub remaining : Ceilings → List Usage → Result BudgetError (ℤ × ℤ)
unfolding consumed
remaining ceilings receipts = do
  calls ← consumed (calls_of receipts)
  attempts ← consumed (attempts_of receipts)
  require (le_ℤ (pos 1) (left_of ceilings.maximum_calls calls))
      (runtime_error "maximum_provider_calls aggregate budget exhausted")
  require (le_ℤ (pos 1) (left_of ceilings.maximum_attempts attempts))
      (runtime_error "maximum_provider_attempts aggregate budget exhausted")
  ok (left_of ceilings.maximum_calls calls, left_of ceilings.maximum_attempts attempts)

-- `0 <= n <= most`
abbrev pub within : ℤ → ℤ → Bool
within n most = le_ℤ (pos 0) n && le_ℤ n most

-- a count that is not `None` is within what is left
abbrev pub attempts_within : Value → ℤ → Result BudgetError (Unit {0})
attempts_within v most = if is_null v then ok tt else (do
  n ← number_of v
  require (within n most)
      (runtime_error "provider execution receipt exceeded aggregate attempt budget"))

-- the checks on the receipt of a worker
unfoldable pub check_receipt : ℤ × ℤ → Usage → Result BudgetError (Unit {0})
check_receipt (calls, attempts) receipt = do
  reported ← number_of receipt.provider_calls
  require (within reported calls)
      (runtime_error "provider execution receipt exceeded aggregate call budget")
  attempts_within receipt.provider_attempt_count attempts

-- One round of the loop, with what the worker returns: the receipts after it, the new one at the end.
unfoldable pub attempt : Ceilings → List Usage → Option Usage → Result BudgetError (List Usage)
unfolding remaining check_receipt
attempt ceilings receipts answer = do
  budgets ← remaining ceilings receipts
  elim answer [
    | none ↦ err (runtime_error "worker invocation produced no execution receipt")
    | some receipt ↦ do check_receipt budgets receipt; ok (receipts ++ receipt ∷ [])
  ]
