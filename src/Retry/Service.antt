-- ===== src/Retry/Service.antt =====
-- task_retry/retry_service.py: whether a task is retried, and with which request. The ports are
-- those of task_retry/ports.py; what stands behind them is not in this repository.
pub mod Gates
pub mod Dispatch
pub mod Submit
use Prim.Native.String.{◌++◌ as concat, count}
use nexus_runtime.Prelude.{
  ℕ, zero, suc, String, Bool, true, false, ◌&&◌, ◌||◌, not, List, [], ◌∷◌, ltb, ◌==◌, elem, Option,
  none, some, if◌then◌else◌,
}
use nexus_runtime.Prelude.Int.{ℤ, pos, negsuc, le_ℤ}
use nexus_runtime.Python.Value.{
  Value, null, bool, int, str, list, dict, object, Items, nil, cons, Fields, end, field, get, has,
  put, is_null, is_dict, truthy, or_else, to_text, text_or_empty, Runtime, fields_of,
}
use nexus_runtime.Python.Equality.{size}
use nexus_runtime.Python.Raise.{Result, ok, err, ◌>>=◌, ◌>>◌, require}
use nexus_runtime.Retry.Reconciliation.{
  Decision, eligible, is_false, evaluate_bounded_reconciliation, build_repair_request_metadata,
}

-- The exceptions that reach the service, with their messages.
pub data Failure : Type 0 where
  key_error runtime_error type_error value_error attribute_error : String → Failure

-- The four ports.
pub record Ports : Type 0 where
  pub read_snapshot : String → Option Fields
  pub maximum_attempts : Value → Result Failure ℤ
  pub build_retry_request : Fields → Result Failure Fields
  pub workforce_inputs : Fields → Result Failure (Value × Value)
  pub recover_predecessor : Fields → Fields → String → Result Failure (Option Fields)
  pub validate_predecessor : Fields → Fields → Result Failure (Option Fields)
  pub validate_repair : Fields → Result Failure (Option Fields)
  pub rebind_fresh_attempt : Fields → Fields → Result Failure Value
  pub validate_fresh : Fields → Fields → Result Failure Value
  pub submit : Fields → Result Failure Fields

-- `retry_task` ends before it submits: with an answer, or with an exception.
pub data Stop : Type 0 where
  answer : Fields → Stop
  failed : Failure → Stop

abbrev pub Step {ℓ} : Type ℓ → Type ℓ
Step A = Result Stop A

-- an exception that the service does not catch
abbrev pub call {ℓ} : {A : Type ℓ} → Result Failure A → Step A
call (ok a) = ok a
call (err e) = err (failed e)

-- `TERMINAL_STATUSES`
abbrev pub terminal_statuses : List String
terminal_statuses =
    "FINAL_BLOCK" ∷ "RETAINED_FOR_REVIEW" ∷ "REJECTED" ∷ "SUPERSEDED" ∷ "INTEGRATED"
    ∷ "INTEGRATION_FAILED" ∷ "CANCELLED" ∷ "REHEARSAL_VERIFIED" ∷ "DIRECT_COMPLETED"
    ∷ "DIRECT_RECONCILE_REQUIRED" ∷ "INTEGRATED_AND_CLEANED" ∷ []

-- `INTEGRATION_INTERMEDIATE_STATUSES`
abbrev pub integration_intermediate_statuses : List String
integration_intermediate_statuses =
    "INTEGRATION_FAILED_PRE_APPLY" ∷ "INTEGRATION_VERIFY_FAILED_AFTER_APPLY"
    ∷ "INTEGRATED_TARGET_RETAINED" ∷ []

-- `RETRYABLE_TASK_STATUSES`
abbrev pub retryable_task_statuses : List String
retryable_task_statuses = "FINAL_BLOCK" ∷ "CANCELLED" ∷ []

abbrev pub cleaned : List String
cleaned = "REMOVED" ∷ "ALREADY_REMOVED" ∷ "TARGET_CLEANED" ∷ []

-- the statuses that end a task for good
abbrev pub absorbing : String → Bool
absorbing status =
    elem status terminal_statuses
    && not (elem status retryable_task_statuses)
    && not (elem status ("RETAINED_FOR_REVIEW" ∷ "INTEGRATION_FAILED" ∷ []))

item_count : Items → ℕ
item_count nil = 0
item_count (cons v vs) = suc (item_count vs)

-- `len(v or ())`
unfoldable pub length_of : Value → Result Failure ℕ
unfolding item_count
length_of (list vs) = ok (item_count vs)
length_of (dict fs) = ok (size fs)
length_of (str s) = ok (count s)
length_of v = if truthy v then err (type_error "object has no len()") else ok 0

-- `isinstance(v, Mapping)`, or stop
abbrev pub mapping : Value → Stop → Step Fields
mapping (dict fs) stop = ok fs
mapping _ stop = err stop

abbrev code_of : Value → Result Failure Value
code_of (dict fs) = ok (get "code" fs)
code_of _ = err (attribute_error "object has no attribute 'get'")

-- `(state.get("blocker") or {}).get("code")`
abbrev pub blocker_code : Fields → Result Failure Value
blocker_code state = code_of (or_else (get "blocker" state) (dict end))

module _ (rt : Runtime) where
  -- `str(state.get("status") or "UNKNOWN")`
  abbrev pub status_of : Fields → String
  status_of state = to_text rt (or_else (get "status" state) (str "UNKNOWN"))

  -- `_meta`
  abbrev pub meta : String → Fields → Value → Value → Value → Fields
  meta task_id state attempt_id decision blocker = fields_of (
      ("task_id", str task_id)
      ∷ ("previous_status", str (status_of state))
      ∷ ("previous_attempt_id", attempt_id)
      ∷ ("decision", decision)
      ∷ ("blocker", blocker)
      ∷ [])

  -- `{**state, "retry": {**meta, "decision": decision, "blocker": blocker}}`
  abbrev pub blocked : String → Fields → String → String → Stop
  blocked task_id state decision blocker = answer (
      put "retry" (dict (meta task_id state (get "attempt_id" state) (str decision) (str blocker)))
        state)
