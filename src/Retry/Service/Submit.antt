-- ===== src/Retry/Service/Submit.antt =====
-- The end of `retry_task` (task_retry/retry_service.py): the request of the fresh attempt, and its one
-- submission.
pub mod Safety
use Prim.Native.String.{◌++◌ as concat}
use nexus_runtime.Prelude.{ℕ, String, List, [], ◌∷◌, Option, none, some}
use nexus_runtime.Prelude.Int.{pos}
use nexus_runtime.Python.Value.{
  Value, null, int, str, list, dict, Items, nil, cons, Fields, get, put, text_or_empty, Runtime,
}
use nexus_runtime.Python.Raise.{Result, ok, err, ◌>>=◌, ◌>>◌}
use nexus_runtime.Retry.Reconciliation.{build_repair_request_metadata}
use nexus_runtime.Retry.Service.{
  Failure, key_error, value_error, Ports, Stop, answer, failed, Step, call, length_of, mapping,
  meta, blocked,
}
use nexus_runtime.Retry.Service.Gates.{check_gates}
use nexus_runtime.Retry.Service.Dispatch.{
  catch_type_value, Repair, rebind_source, request_of, item, find_predecessor, check_repair,
}

-- The request to submit, and the metadata of a repair.
pub record Prepared : Type 0 where
  pub request : Fields
  pub metadata : Option Fields

-- a `BoundedReconciliationError` is a `ValueError`, and nothing here catches it
abbrev pub raised_value {ℓ} : {A : Type ℓ} → Result String A → Step A
raised_value (ok a) = ok a
raised_value (err e) = err (failed (value_error e))

abbrev pub add_metadata : Option Fields → Fields → Fields
add_metadata none meta = meta
add_metadata (some m) meta = put "bounded_reconciliation" (dict m) meta

module _ (rt : Runtime) (ports : Ports) where
  open ports use {read_snapshot, build_retry_request, rebind_fresh_attempt, validate_fresh, submit}

  -- bind the request to a fresh attempt of the given dispatch
  unfoldable pub rebind : String → Fields → Fields → Option Fields → Step Fields
  rebind task_id state request none = ok request
  rebind task_id state request (some source) = do
    rebound ←
        catch_type_value (rebind_fresh_attempt request source)
          (λ why. err (blocked rt task_id state "BLOCK" (concat "WORKFORCE_REBIND_FAILED:" why)))
    bound ← mapping rebound (blocked rt task_id state "BLOCK" "WORKFORCE_REBIND_FAILED")
    checked ← call (validate_fresh bound state)
    fresh ← mapping checked (blocked rt task_id state "BLOCK" "WORKFORCE_REBIND_FAILED")
    provider ← item "provider" fresh
    model ← item "model" fresh
    worker ← item "worker_id" fresh
    ok (
        put "canonical_dispatch_envelope" (get "canonical_dispatch_envelope" fresh) (
          put "workforce_dispatch" (dict fresh) (
            put "worker_order" (list (cons provider nil)) (
              put "worker_id" worker
                (put "model" model (put "provider" provider (put "worker" provider bound)))))))

  -- the metadata of a repair goes into its request
  unfoldable pub with_metadata : Fields → Option Repair → Fields → Step Prepared
  with_metadata state none request = ok (record { request = request; metadata = none })
  with_metadata state (some r) request = do
    m ← raised_value (
        build_repair_request_metadata r.decision (str (text_or_empty rt (get "attempt_id" state)))
          (str (text_or_empty rt (get "attempt_id" request))))
    ok (record { request = put "bounded_reconciliation" (dict m) request; metadata = some m })

  -- all that comes before the submission
  unfoldable pub prepare : String → Fields → Step Prepared
  prepare task_id state = do
    request ← check_gates rt ports task_id state
    predecessor ← find_predecessor rt ports task_id state request
    repair ← check_repair rt ports task_id state request
    built ← call (build_retry_request (put "request" (dict (request_of repair request)) state))
    bound ← rebind task_id state built (rebind_source repair predecessor)
    with_metadata state repair bound

  -- the submission's result, with what was done
  unfoldable pub submit_prepared : String → Fields → Prepared → Result Failure Fields
  submit_prepared task_id state p = do
    result ← submit p.request
    attempts ← length_of (get "attempts" result)
    ok (
        put "retry"
          (dict (
            add_metadata p.metadata (
              put "attempts" (int (pos attempts)) (
                put "new_idempotency_key" (get "idempotency_key" result) (
                  put "new_action_id" (get "action_id" result) (
                    put "new_attempt_id" (get "attempt_id" result) (
                      meta rt task_id state (get "attempt_id" state) (str "REUSED_TASK_ID")
                        null)))))))
          result)

  -- what a caller gets, with the requests that were submitted
  unfoldable pub finish : String → Fields → Step Prepared → Result Failure Fields × List Fields
  finish task_id state (ok p) = (submit_prepared task_id state p, p.request ∷ [])
  finish task_id state (err (answer fs)) = (ok fs, [])
  finish task_id state (err (failed e)) = (err e, [])

  unfoldable pub retry_snapshot : String → Option Fields → Result Failure Fields × List Fields
  retry_snapshot task_id none = (err (key_error (concat "unknown task_id: " task_id)), [])
  retry_snapshot task_id (some state) = finish task_id state (prepare task_id state)

  -- `RetryService.retry_task`
  unfoldable pub retry_task : String → Result Failure Fields × List Fields
  retry_task task_id = retry_snapshot task_id (read_snapshot task_id)
