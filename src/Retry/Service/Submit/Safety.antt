-- ===== src/Retry/Service/Submit/Safety.antt =====
-- When a retry is submitted (task_retry/retry_service.py).
use nexus_runtime.Prelude.{
  ℕ, ◌≡◌, refl, String, Bool, true, false, ◌||◌, not, List, [], ◌∷◌, elem, ◌==◌, Option, none, some,
  arith, Bool-cases, inl, inr,
}
use nexus_runtime.Prelude.Int.{ℤ, pos, le_ℤ}
use nexus_runtime.Python.Value.{dict, Fields, end, get, or_else, text_or_empty, Runtime}
use nexus_runtime.Python.Raise.{Result, ok, err, ◌>>◌, require, >>=-eq-ok, require-eq-ok}
use nexus_runtime.Retry.Reconciliation.{eligible, evaluate_bounded_reconciliation, is_false}
use nexus_runtime.Retry.Service.{
  Failure, Ports, Stop, answer, failed, Step, call, retryable_task_statuses, cleaned, length_of,
  mapping, blocked, blocker_code, status_of, absorbing, integration_intermediate_statuses,
}
use nexus_runtime.Retry.Service.Gates.{check_valid, budget, check_budget, check_status, check_gates}
use nexus_runtime.Retry.Service.Dispatch.{Repair, find_predecessor, plan_repair, check_repair}
use nexus_runtime.Retry.Service.Submit.{Prepared, prepare, finish, retry_snapshot, retry_task}

call-eq-ok {ℓ} : {A : Type ℓ} (m : Result Failure A) {a : A} → call m ≡ ok a → m ≡ ok a
call-eq-ok (ok b) h = cc
call-eq-ok (err e) h = cc

require-then-ok {ℓ} :
    {A : Type ℓ} (b : Bool) (stop : Stop) (rest : Step A) {a : A}
    → (require b stop >> rest) ≡ ok a
    → (b ≡ true) × (rest ≡ ok a)
require-then-ok b stop rest h =
    let (_, h1, h2) = >>=-eq-ok (require b stop) (λ _. rest) h in (require-eq-ok b stop h1, h2)

budget-eq-ok : (m : Result Failure ℤ) (stop : Stop) {n : ℤ} → budget m stop ≡ ok n → m ≡ ok n
budget-eq-ok (ok n) stop h = cc
budget-eq-ok (err e) stop h = cc

not-eq-true : (b : Bool) → not b ≡ true → b ≡ false
not-eq-true b h = ground arith

module _ (rt : Runtime) (ports : Ports) where
  -- The attempts are fewer than the contract allows.
  pub record InBudget (state : Fields) : Type 0 where
    pub maximum : ℤ
    pub used : ℕ
    pub has_maximum : ports.maximum_attempts (or_else (get "request" state) (dict end)) ≡ ok maximum
    pub has_used : length_of (get "attempts" state) ≡ ok used
    pub fewer : le_ℤ maximum (pos used) ≡ false

  -- What the state of a task says when it is retried.
  pub record Retryable (state : Fields) : Type 0 where
    pub valid : is_false (get "state_valid" state) ≡ false
    pub in_budget : InBudget state
    pub status : elem (status_of rt state) retryable_task_statuses ≡ true
    pub cleanup : elem (text_or_empty rt (get "cleanup_decision" state)) cleaned ≡ true
    pub repair :
        (text_or_empty rt (get "acceptance_decision" state) == "REPAIRABLE") ≡ true
        → eligible (evaluate_bounded_reconciliation rt (dict state) (get "verifier_residual" state))
          ≡ true

  check_valid-ok :
      (task_id : String) (state : Fields) {u : Unit {0}}
      → check_valid rt ports task_id state ≡ ok u
      → is_false (get "state_valid" state) ≡ false
  unfolding check_valid
  check_valid-ok task_id state h = elim (Bool-cases (is_false (get "state_valid" state))) [
    | inl invalid ↦
        absurd (let (a, _, h1) = >>=-eq-ok (call (blocker_code state)) _ (rw invalid at h) in cc)
    | inr other ↦ other
  ]

  check_budget-ok :
      (task_id : String) (state : Fields) {u : Unit {0}}
      → check_budget rt ports task_id state ≡ ok u
      → InBudget state
  unfolding check_budget
  check_budget-ok task_id state h =
      let (maximum, h1, rest) =
        >>=-eq-ok
          (budget (ports.maximum_attempts (or_else (get "request" state) (dict end)))
            (blocked rt task_id state "BLOCK" "ATTEMPT_BUDGET_UNAVAILABLE"))
          _ h in
      let (used, h2, last) = >>=-eq-ok (call (length_of (get "attempts" state))) _ rest in
      record {
        maximum = maximum;
        used = used;
        has_maximum = budget-eq-ok _ _ h1;
        has_used = call-eq-ok _ h2;
        fewer = not-eq-true _ (require-eq-ok (not (le_ℤ maximum (pos used))) _ last);
      }

  check_status-ok :
      (task_id : String) (state : Fields) {u : Unit {0}}
      → check_status rt ports task_id state ≡ ok u
      → elem (status_of rt state) retryable_task_statuses ≡ true
  unfolding check_status
  check_status-ok task_id state h =
      let status : String = status_of rt state in
      let (_, h1) = require-then-ok (not (status == "RETAINED_FOR_REVIEW")) _ _ h in
      let (_, h2) =
        require-then-ok
          (not (elem status integration_intermediate_statuses || status == "INTEGRATION_FAILED")) _
          _ h1 in
      let (_, h3) = require-then-ok (not (absorbing status)) _ _ h2 in
      require-eq-ok (elem status retryable_task_statuses) _ h3

  check_repair-ok :
      (task_id : String) (state request : Fields) {r : Option Repair}
      → check_repair rt ports task_id state request ≡ ok r
      → (text_or_empty rt (get "acceptance_decision" state) == "REPAIRABLE") ≡ true
      → eligible (evaluate_bounded_reconciliation rt (dict state) (get "verifier_residual" state))
        ≡ true
  unfolding check_repair plan_repair
  check_repair-ok task_id state request h repairable =
      let (_, h1, _) =
        >>=-eq-ok (plan_repair rt ports task_id state request) _ (rw repairable at h) in
      let (_, _, h2) = >>=-eq-ok (mapping (get "planner_output" request) _) _ h1 in
      (require-then-ok
        (eligible (evaluate_bounded_reconciliation rt (dict state) (get "verifier_residual" state)))
        _ _ h2).0

  -- whatever is prepared for submission comes from a state that may be retried
  prepare-Retryable :
      (task_id : String) (state : Fields) {p : Prepared}
      → prepare rt ports task_id state ≡ ok p
      → Retryable state
  unfolding prepare check_gates
  prepare-Retryable task_id state h =
      let (request, gates, h1) = >>=-eq-ok (check_gates rt ports task_id state) _ h in
      let (_, valid, g1) = >>=-eq-ok (check_valid rt ports task_id state) _ gates in
      let (_, in_budget, g2) = >>=-eq-ok (check_budget rt ports task_id state) _ g1 in
      let (_, status, g3) = >>=-eq-ok (check_status rt ports task_id state) _ g2 in
      let (cleanup, _) =
        require-then-ok (elem (text_or_empty rt (get "cleanup_decision" state)) cleaned) _ _ g3 in
      let (_, _, h2) = >>=-eq-ok (find_predecessor rt ports task_id state request) _ h1 in
      let (_, repair, _) = >>=-eq-ok (check_repair rt ports task_id state request) _ h2 in
      record {
        valid = check_valid-ok task_id state valid;
        in_budget = check_budget-ok task_id state in_budget;
        status = check_status-ok task_id state status;
        cleanup = cleanup;
        repair = check_repair-ok task_id state request repair;
      }

  finish-submits :
      (task_id : String) (state : Fields) (r : Step Prepared) (request : Fields)
      (more : List Fields)
      → (finish rt ports task_id state r).1 ≡ request ∷ more
      → ((p : Prepared) × (r ≡ ok p)) × (more ≡ [])
  unfolding finish
  finish-submits task_id state (ok p) request more h = ((p, refl), cc)
  finish-submits task_id state (err (answer fs)) request more h = absurd (cc)
  finish-submits task_id state (err (failed e)) request more h = absurd (cc)

  snapshot-submits :
      (task_id : String) (snapshot : Option Fields) (request : Fields) (more : List Fields)
      → (retry_snapshot rt ports task_id snapshot).1 ≡ request ∷ more
      → (more ≡ []) × ((state : Fields) × (snapshot ≡ some state) × Retryable state)
  unfolding retry_snapshot
  snapshot-submits task_id none request more h = absurd (cc)
  snapshot-submits task_id (some state) request more h =
      let ((p, prepared), alone) =
        finish-submits task_id state (prepare rt ports task_id state) request more h in
      (alone, (state, refl, prepare-Retryable task_id state prepared))

  -- A call submits at most one request, and only for a known task whose state is valid, with fewer
  -- attempts than allowed, blocked or cancelled and cleaned up; where its acceptance decision is
  -- `REPAIRABLE`, only with a repair that the bounded reconciliation admits.
  pub retry_task-submits :
      (task_id : String) (request : Fields) (more : List Fields)
      → (retry_task rt ports task_id).1 ≡ request ∷ more
      → (more ≡ [])
        × ((state : Fields) × (ports.read_snapshot task_id ≡ some state) × Retryable state)
  unfolding retry_task
  retry_task-submits task_id request more h =
      snapshot-submits task_id (ports.read_snapshot task_id) request more h
