-- ===== src/Retry/Service/Dispatch.antt =====
-- The rest of `retry_task` (task_retry/retry_service.py): the dispatch envelope, the bounded repair,
-- the rebinding of a fresh attempt, and the one submission.
use nexus_runtime.Prelude.{
  ℕ, String, Bool, true, false, ◌&&◌, ◌||◌, not, [], ◌∷◌, ◌==◌, Option, none, some, if◌then◌else◌,
}
use nexus_runtime.Prelude.Int.{pos}
use nexus_runtime.Python.Value.{
  Value, null, bool, int, str, dict, Fields, end, get, has, put, is_null, is_dict, text_or_empty,
  Runtime, fields_of,
}
use nexus_runtime.Python.Raise.{Result, ok, err, ◌>>=◌, ◌>>◌, require}
use nexus_runtime.Retry.Reconciliation.{Decision, eligible, evaluate_bounded_reconciliation}
use nexus_runtime.Retry.Service.{
  Failure, key_error, runtime_error, type_error, value_error, Ports, Stop, answer, failed, Step,
  call, mapping, meta, blocked,
}

-- a source of the envelope that holds the key must hold a dictionary
abbrev pub envelope_ok : Fields → Bool
envelope_ok source =
    not (has "canonical_dispatch_envelope" source)
    || is_dict (get "canonical_dispatch_envelope" source)

abbrev pub envelope_present : Fields → Fields → Bool
envelope_present request state =
    not (is_null (get "canonical_dispatch_envelope" request))
    || not (is_null (get "canonical_dispatch_envelope" state))

-- `except RuntimeError`
abbrev pub catch_runtime {ℓ} : {A : Type ℓ} → Result Failure A → (String → Step A) → Step A
catch_runtime (ok a) handler = ok a
catch_runtime (err (runtime_error e)) handler = handler e
catch_runtime (err e) handler = err (failed e)

-- `except (TypeError, ValueError)`
abbrev pub catch_type_value {ℓ} : {A : Type ℓ} → Result Failure A → (String → Step A) → Step A
catch_type_value (ok a) handler = ok a
catch_type_value (err (type_error e)) handler = handler e
catch_type_value (err (value_error e)) handler = handler e
catch_type_value (err e) handler = err (failed e)

abbrev sha_value : Option String → Value
sha_value none = null
sha_value (some s) = str s

abbrev round_value : Option ℕ → Value
round_value none = null
round_value (some n) = int (pos n)

-- `BoundedReconciliationDecision.to_dict`
abbrev pub decision_to_dict : Decision → Fields
decision_to_dict d = fields_of (
    ("schema", str "nexus.runtime.bounded_reconciliation_decision.v1")
    ∷ ("disposition", str d.disposition)
    ∷ ("reason", str d.reason)
    ∷ ("residual_packet_sha256", sha_value d.residual_packet_sha256)
    ∷ ("current_repair_round", int (pos d.current_repair_round))
    ∷ ("next_repair_round", round_value d.next_repair_round)
    ∷ ("required_next_gate", str d.required_next_gate)
    ∷ ("replan_requested", bool d.replan_requested)
    ∷ ("eligible", bool (eligible d))
    ∷ ("runtime_is_planner_authority", bool false)
    ∷ ("runtime_is_completion_authority", bool false)
    ∷ [])

-- What the repair branch finds: the decision, the repair's dispatch, and the request with its worker.
pub record Repair : Type 0 where
  pub decision : Decision
  pub dispatch : Fields
  pub request : Fields

-- `repair_dispatch or predecessor`; the dispatch of a repair is never empty
abbrev pub rebind_source : Option Repair → Option Fields → Option Fields
rebind_source none predecessor = predecessor
rebind_source (some r) predecessor = some r.dispatch

abbrev pub request_of : Option Repair → Fields → Fields
request_of none request = request
request_of (some r) request = r.request

-- `fresh[key]`
abbrev pub item : String → Fields → Step Value
item key fs = if has key fs then ok (get key fs) else err (failed (key_error key))

abbrev dispatch_fields : Option Fields → Fields
dispatch_fields none = end
dispatch_fields (some fs) = fs

module _ (rt : Runtime) (ports : Ports) where
  open ports use {
    read_snapshot, build_retry_request, workforce_inputs, recover_predecessor, validate_predecessor,
    validate_repair, rebind_fresh_attempt, validate_fresh, submit,
  }

  abbrev recovered : String → Fields → String → Option Fields → Step (Option Fields)
  recovered task_id state why none = err (blocked rt task_id state "BLOCK" why)
  recovered task_id state why (some fs) = ok (some fs)

  abbrev has_envelope : Option Fields → Bool
  has_envelope none = true
  has_envelope (some fs) = is_dict (get "canonical_dispatch_envelope" fs)

  -- the dispatch of the previous attempt, where one is needed
  unfoldable pub find_predecessor : String → Fields → Fields → Step (Option Fields)
  find_predecessor task_id state request = do
    require (not (envelope_present request state) || (envelope_ok request && envelope_ok state))
        (blocked rt task_id state "BLOCK" "WORKFORCE_DISPATCH_ENVELOPE_INVALID")
    inputs ← call (workforce_inputs request)
    predecessor ←
        (if envelope_present request state || not (is_null inputs.0) || not (is_null inputs.1)
          then catch_runtime (validate_predecessor request state) (λ why. do
            found ← call (recover_predecessor state request why)
            recovered task_id state why found)
          else ok none)
    require (has_envelope predecessor)
        (blocked rt task_id state "BLOCK" "WORKFORCE_DISPATCH_ENVELOPE_MISSING")
    ok predecessor

  -- the answer that a repair is refused with
  abbrev pub repair_refused : String → Fields → Decision → Stop
  repair_refused task_id state d =
      let verdict =
        if d.disposition == "REPAIR_BUDGET_EXHAUSTED"
        then "BLOCKED_REPAIR_BUDGET_EXHAUSTED"
        else "BLOCKED_BOUNDED_RECONCILIATION" in
      answer (
        put "retry"
          (dict (
            put "bounded_reconciliation" (dict (decision_to_dict d))
              (meta rt task_id state (get "attempt_id" state) (str verdict) (str d.reason))))
          state)

  -- the repair branch, where the acceptance decision is `REPAIRABLE`
  unfoldable pub plan_repair : String → Fields → Fields → Step Repair
  plan_repair task_id state request = do
    mapping (get "planner_output" request)
        (blocked rt task_id state "BLOCK" "WORKFORCE_ADMISSION_BINDING_MISSING")
    let d : Decision =
        evaluate_bounded_reconciliation rt (dict state) (get "verifier_residual" state)
    require (eligible d) (repair_refused task_id state d)
    dispatch ←
        catch_runtime (validate_repair request) (λ why. err (blocked rt task_id state "BLOCK" why))
    let worker : String = text_or_empty rt (get "worker_id" (dispatch_fields dispatch))
    require (not (worker == ""))
        (blocked rt task_id state "BLOCK" "WORKFORCE_REPAIR_WORKER_MISSING")
    ok (record {
      decision = d;
      dispatch = dispatch_fields dispatch;
      request = put "repair_worker_id" (str worker) request;
    })

  unfoldable pub check_repair : String → Fields → Fields → Step (Option Repair)
  check_repair task_id state request =
      if text_or_empty rt (get "acceptance_decision" state) == "REPAIRABLE"
      then (do r ← plan_repair task_id state request; ok (some r))
      else ok none
