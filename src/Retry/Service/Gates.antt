-- ===== src/Retry/Service/Gates.antt =====
-- The checks of `retry_task` on the task's own state (task_retry/retry_service.py), in their order.
use Prim.Native.String.{◌++◌ as concat}
use nexus_runtime.Prelude.{String, ◌||◌, not, ◌==◌, elem, if◌then◌else◌}
use nexus_runtime.Prelude.Int.{ℤ, pos, le_ℤ}
use nexus_runtime.Python.Value.{
  null, str, dict, Fields, end, get, put, or_else, text_or_empty, Runtime,
}
use nexus_runtime.Python.Raise.{Result, ok, err, ◌>>=◌, ◌>>◌, require}
use nexus_runtime.Retry.Reconciliation.{is_false}
use nexus_runtime.Retry.Service.{
  Failure, Ports, Stop, answer, Step, call, integration_intermediate_statuses,
  retryable_task_statuses, cleaned, absorbing, length_of, mapping, blocker_code, status_of, meta,
  blocked,
}

-- `except Exception`
abbrev pub budget : Result Failure ℤ → Stop → Step ℤ
budget (ok n) stop = ok n
budget (err e) stop = err stop

module _ (rt : Runtime) (ports : Ports) where
  open ports use {maximum_attempts}

  -- a snapshot that was found invalid is given back
  unfoldable pub check_valid : String → Fields → Step (Unit {0})
  check_valid task_id state =
      if is_false (get "state_valid" state)
      then (do
        code ← call (blocker_code state)
        err (
            answer (
              put "retry" (dict (meta rt task_id state null (str "BLOCKED_INVALID_STATE") code))
                state)))
      else ok tt

  -- the attempt budget: `len(state.get("attempts") or ()) >= maximum`
  unfoldable pub check_budget : String → Fields → Step (Unit {0})
  check_budget task_id state = do
    maximum ←
        budget (maximum_attempts (or_else (get "request" state) (dict end)))
          (blocked rt task_id state "BLOCK" "ATTEMPT_BUDGET_UNAVAILABLE")
    used ← call (length_of (get "attempts" state))
    require (not (le_ℤ maximum (pos used)))
        (blocked rt task_id state "BLOCK" "ATTEMPT_BUDGET_EXHAUSTED")

  -- the status decides: only a blocked or cancelled task is retried
  unfoldable pub check_status : String → Fields → Step (Unit {0})
  check_status task_id state = do
    let status : String = status_of rt state
    require (not (status == "RETAINED_FOR_REVIEW")) (
        blocked rt task_id state "BLOCKED_RETAINED_REVIEW"
          "human disposition or retained-candidate recovery is required before retry; clean no-Candidate retention may retry only after formal cleanup")
    require (not (elem status integration_intermediate_statuses || status == "INTEGRATION_FAILED"))
        (blocked rt task_id state "BLOCKED_INTEGRATION_FAILURE"
          "integration failure requires dedicated integration retry; generic task retry is forbidden")
    require (not (absorbing status)) (
        blocked rt task_id state "BLOCKED_ABSORBING_STATUS" (
          concat "task is in absorbing terminal status "
            (concat status "; same-semantic task retry is forbidden")))
    require (elem status retryable_task_statuses) (
        blocked rt task_id state "NO_DUPLICATE_ACTIVE_TASK" (
          concat "task is "
            (concat status "; wait for its existing attempt instead of resubmitting")))

  -- the checks before the durable request is used; it is what they return
  unfoldable pub check_gates : String → Fields → Step Fields
  check_gates task_id state = do
    check_valid task_id state
    check_budget task_id state
    check_status task_id state
    require (elem (text_or_empty rt (get "cleanup_decision" state)) cleaned) (
        blocked rt task_id state "BLOCKED_TARGET_DISPOSITION"
          "previous Target disposition is not removed/cleaned")
    mapping (get "request" state) (
        blocked rt task_id state "BLOCKED_MISSING_REQUEST"
          "durable request is missing; cannot safely reconstruct the task")
