-- ===== src/Retry/Budget.antt =====
-- task_retry/attempt_budget.py: how many attempts a task may have.
use Prim.Native.String.{◌++◌ as concat}
use nexus_runtime.Prelude.{
  ◌≡◌, String, Bool, true, Option, none, some, if◌then◌else◌, Bool-cases, inl, inr, ap, subst,
}
use nexus_runtime.Prelude.Int.{ℤ, pos, le_ℤ}
use nexus_runtime.Python.Value.{Value, bool, Fields, get, has, Runtime}
use nexus_runtime.Python.Number.{int_of}
use nexus_runtime.Python.Raise.{Result, ok, err, ok-injective}

-- `int(raw)`, where a boolean is refused
abbrev pub budget_number : Value → Option ℤ
budget_number (bool b) = none
budget_number raw = int_of raw

abbrev pub at_least_one : String → Option ℤ → Result String ℤ
at_least_one message none = err message
at_least_one message (some value) = if le_ℤ (pos 1) value then ok value else err message

module _ (rt : Runtime) where
  -- `resolve_maximum_attempts`; an error is the message of a `ValueError`
  unfoldable pub resolve_maximum_attempts : Fields → ℤ → Result String ℤ
  resolve_maximum_attempts request default =
      if has "maximum_attempts_per_task" request
      then (let raw = get "maximum_attempts_per_task" request in
          at_least_one (concat "ATTEMPT_BUDGET_INVALID:" (rt.repr raw)) (budget_number raw))
      else ok default

  at_least_one-positive :
      (message : String) (found : Option ℤ) {n : ℤ}
      → at_least_one message found ≡ ok n
      → (found ≡ some n) × (le_ℤ (pos 1) n ≡ true)
  at_least_one-positive message none h = cc
  at_least_one-positive message (some value) {n} h = elim (Bool-cases (le_ℤ (pos 1) value)) [
    | inl fits ↦
        let same : value ≡ n = ok-injective (rw fits at h) in
        (ap some same, subst (λ m. le_ℤ (pos 1) m ≡ true) same fits)
    | inr small ↦ absurd (cc (rw small at h))
  ]

  -- A budget is at least 1 where the default is, and it is either the default, for a request that
  -- does not name one, or the number that the request names.
  pub resolve_maximum_attempts-ok :
      (request : Fields) (default : ℤ) {n : ℤ}
      → le_ℤ (pos 1) default ≡ true
      → resolve_maximum_attempts request default ≡ ok n
      → (le_ℤ (pos 1) n ≡ true)
        × (if has "maximum_attempts_per_task" request
            then budget_number (get "maximum_attempts_per_task" request)
            else some default)
          ≡ some n
  unfolding resolve_maximum_attempts
  resolve_maximum_attempts-ok request default {n} positive h =
      let named : Bool = has "maximum_attempts_per_task" request in
      elim (Bool-cases named) [
        | inl there ↦
            let (found, fits) = at_least_one-positive _ _ (rw there at h) in (fits, rw there found)
        | inr missing ↦
            let same : default ≡ n = ok-injective (rw missing at h) in
            (subst (λ m. le_ℤ (pos 1) m ≡ true) same positive, rw missing (ap some same))
      ]
