-- ===== src/Retry/Tests.antt =====
-- A repair and a retry at concrete inputs.
use nexus_runtime.Prelude.{
  ◌≡◌, refl, String, true, false, List, [], ◌∷◌, Option, none, some, if◌then◌else◌,
}
use nexus_runtime.Prelude.Int.{pos, le_ℤ}
use nexus_runtime.Python.Value.{
  null, bool, int, str, list, dict, nil, cons, Fields, end, get, has, put, fields_of, Runtime,
}
use nexus_runtime.Python.Raise.{ok}
use nexus_runtime.Python.Number.{int_of}
use nexus_runtime.Retry.Budget.{
  budget_number, resolve_maximum_attempts, resolve_maximum_attempts-ok,
}
use nexus_runtime.Retry.Packet.{
  Packet, from_mapping, from_fields, build, text, sha256, string_tuple, packet_schema,
}
use nexus_runtime.Retry.Reconciliation.{
  eligible, exhausted, current_repair_round, check_packet, evaluate_fields,
  evaluate_bounded_reconciliation, build_repair_request_metadata,
}
use nexus_runtime.Retry.Reconciliation.Eligible.{Repairable, eligible-Repairable}
use nexus_runtime.Retry.Reconciliation.OneRound.{one_repair_round}
use nexus_runtime.Retry.Service.{Ports, length_of}
use nexus_runtime.Retry.Service.Gates.{check_valid, check_budget, check_status, check_gates}
use nexus_runtime.Retry.Service.Dispatch.{find_predecessor, plan_repair, check_repair}
use nexus_runtime.Retry.Service.Submit.{
  rebind, with_metadata, prepare, finish, retry_snapshot, retry_task,
}
use nexus_runtime.Retry.Service.Submit.Safety.{Retryable, retry_task-submits}

abbrev digits : String
digits = "0123456789abcdef0123456789abcdef0123456789abcdef0123456789abcdef"

abbrev plain : Runtime
plain = record {
  digest = λ v. digits;
  ascii_digest = λ v. digits;
  render = λ v. "?";
  repr = λ v. "?";
  upper = λ s. s;
  lower = λ s. s;
}

abbrev residual : Fields
residual = fields_of (
    ("schema", str packet_schema)
    ∷ ("task_id", str "task")
    ∷ ("predecessor_attempt_id", str "attempt-1")
    ∷ ("candidate_id", str "candidate")
    ∷ ("candidate_sha256", str digits)
    ∷ ("source_revision", str "rev")
    ∷ ("verifier_id", str "verifier")
    ∷ ("verifier_version", str "1")
    ∷ ("verifier_receipt_ref", str "receipt")
    ∷ ("failure_class", str "CLEAN_SEMANTIC_REJECT")
    ∷ ("residual_family", str "family")
    ∷ ("failed_invariants", list (cons (str "b") (cons (str "a") nil)))
    ∷ ("counterexample_refs", list nil)
    ∷ ("repair_target", str "IMPLEMENTATION")
    ∷ ("claim_ceiling", str "ceiling")
    ∷ ("packet_sha256", str digits)
    ∷ [])

abbrev identity : Fields
identity = fields_of (
    ("candidate_id", str "candidate")
    ∷ ("candidate_sha256", str digits)
    ∷ ("source_revision", str "rev")
    ∷ [])

abbrev verifier : Fields
verifier = fields_of (
    ("verifier_id", str "verifier")
    ∷ ("verifier_version", str "1")
    ∷ ("receipt_ref", str "receipt")
    ∷ [])

abbrev request : Fields
request = fields_of (("goal", str "goal") ∷ [])

abbrev state : Fields
state = fields_of (
    ("task_id", str "task")
    ∷ ("attempt_id", str "attempt-1")
    ∷ ("status", str "FINAL_BLOCK")
    ∷ ("acceptance_decision", str "REPAIRABLE")
    ∷ ("has_unresolved_external_effect", bool false)
    ∷ ("active_effect_count", int (pos 0))
    ∷ ("candidate_identity", dict identity)
    ∷ ("verifier_identity", dict verifier)
    ∷ ("request", dict request)
    ∷ [])

admitted : eligible (evaluate_bounded_reconciliation plain (dict state) (dict residual)) ≡ true
unfolding evaluate_bounded_reconciliation evaluate_fields check_packet current_repair_round
    from_mapping from_fields build text sha256 string_tuple
admitted = refl

abbrev packet : Packet
packet = record {
  task_id = "task";
  predecessor_attempt_id = "attempt-1";
  candidate_id = "candidate";
  candidate_sha256 = "sha256:0123456789abcdef0123456789abcdef0123456789abcdef0123456789abcdef";
  source_revision = "rev";
  verifier_id = "verifier";
  verifier_version = "1";
  verifier_receipt_ref = "receipt";
  failure_class = "CLEAN_SEMANTIC_REJECT";
  residual_family = "family";
  failed_invariants = "a" ∷ "b" ∷ [];
  counterexample_refs = [];
  repair_target = "IMPLEMENTATION";
  claim_ceiling = "ceiling";
  packet_sha256 = "sha256:0123456789abcdef0123456789abcdef0123456789abcdef0123456789abcdef";
}

residual-packet : from_mapping plain (dict residual) ≡ ok packet
unfolding from_mapping from_fields build text sha256 string_tuple
residual-packet = refl

state-Repairable : Repairable plain state request identity verifier packet packet.candidate_sha256
unfolding current_repair_round sha256
state-Repairable = record {
  has_request = refl;
  first_round = refl;
  conditions = record {
    status = refl;
    acceptance = refl;
    semantic = refl;
    no_external_effect = refl;
    no_active_effect = refl;
    has_identity = refl;
    has_verifier = refl;
    candidate_digest = refl;
    same_identities = (refl, (refl, (refl, (refl, (refl, (refl, (refl, (refl, tt))))))));
  };
}

eligible-Repairable_example :
    (request identity verifier : Fields) × (p : Packet) × (candidate : String) × (from_mapping plain
        (dict residual)
      ≡ ok p)
    × Repairable plain state request identity verifier p candidate
eligible-Repairable_example = eligible-Repairable plain state (dict residual) admitted

abbrev metadata : Fields
metadata = fields_of (
    ("schema", str "nexus.runtime.bounded_reconciliation_request.v1")
    ∷ ("predecessor_attempt_id", str "attempt-1")
    ∷ ("successor_attempt_id", str "attempt-2")
    ∷ ("residual_packet_sha256", str packet.packet_sha256)
    ∷ ("repair_round", int (pos 1))
    ∷ ("max_repair_rounds", int (pos 1))
    ∷ ("required_post_repair_gate", str "EXTERNAL_VERIFIER")
    ∷ ("replan_on_exhaustion", str "REQUEST_ONLY")
    ∷ ("runtime_is_planner_authority", bool false)
    ∷ ("runtime_is_completion_authority", bool false)
    ∷ [])

first_repair :
    build_repair_request_metadata
      (evaluate_bounded_reconciliation plain (dict state) (dict residual))
      (str "attempt-1")
      (str "attempt-2")
    ≡ ok metadata
unfolding evaluate_bounded_reconciliation evaluate_fields check_packet current_repair_round
    from_mapping from_fields build text sha256 string_tuple build_repair_request_metadata
first_repair = refl

abbrev second_request : Fields
second_request = put "bounded_reconciliation" (dict metadata) request

one_repair_round_example :
    evaluate_bounded_reconciliation plain
      (dict (put "request" (dict second_request) state))
      (dict residual)
    ≡ exhausted 1
one_repair_round_example =
    one_repair_round plain state (dict residual) (str "attempt-1") (str "attempt-2") {m = metadata}
      admitted first_repair (put "request" (dict second_request) state) second_request
      (dict residual) refl refl

abbrev planned : Fields
planned = fields_of (("planner_output", dict end) ∷ [])

abbrev blocked_state : Fields
blocked_state =
    put "verifier_residual" (dict residual)
      (put "request" (dict planned) (put "cleanup_decision" (str "REMOVED") state))

abbrev dispatch : Fields
dispatch =
    fields_of
      (("worker_id", str "worker") ∷ ("provider", str "provider") ∷ ("model", str "model") ∷ [])

abbrev ports : Ports
ports = record {
  read_snapshot = λ _. some blocked_state;
  maximum_attempts = λ _. ok (pos 2);
  build_retry_request = λ _. ok (fields_of (("attempt_id", str "attempt-2") ∷ []));
  workforce_inputs = λ _. ok (null, null);
  recover_predecessor = λ _ _ _. ok none;
  validate_predecessor = λ _ _. ok none;
  validate_repair = λ _. ok (some dispatch);
  rebind_fresh_attempt = λ r _. ok (dict r);
  validate_fresh = λ _ _. ok (dict dispatch);
  submit = λ r. ok r;
}

abbrev submitted : Fields
submitted = fields_of (
    ("attempt_id", str "attempt-2")
    ∷ ("worker", str "provider")
    ∷ ("provider", str "provider")
    ∷ ("model", str "model")
    ∷ ("worker_id", str "worker")
    ∷ ("worker_order", list (cons (str "provider") nil))
    ∷ ("workforce_dispatch", dict dispatch)
    ∷ ("canonical_dispatch_envelope", null)
    ∷ ("bounded_reconciliation", dict metadata)
    ∷ [])

one_submission : (retry_task plain ports "task").1 ≡ submitted ∷ []
unfolding retry_task retry_snapshot finish prepare check_gates check_valid check_budget check_status
    find_predecessor check_repair plan_repair rebind with_metadata length_of
    evaluate_bounded_reconciliation evaluate_fields check_packet current_repair_round from_mapping
    from_fields build text sha256 string_tuple build_repair_request_metadata
one_submission = refl

retry_task-submits_example :
    (◌≡◌ {A = List Fields} [] [])
    × ((s : Fields) × (◌≡◌ {A = Option Fields} (some blocked_state) (some s))
        × Retryable plain ports s)
retry_task-submits_example = retry_task-submits plain ports "task" submitted [] one_submission

abbrev budgeted : Fields
budgeted = fields_of (("maximum_attempts_per_task", int (pos 3)) ∷ [])

budget_of_three : resolve_maximum_attempts plain budgeted (pos 5) ≡ ok (pos 3)
unfolding resolve_maximum_attempts int_of
budget_of_three = refl

resolve_maximum_attempts-ok_example :
    (le_ℤ (pos 1) (pos 3) ≡ true)
    × ((if has "maximum_attempts_per_task" budgeted
          then budget_number (get "maximum_attempts_per_task" budgeted)
          else some (pos 5))
        ≡ some (pos 3))
resolve_maximum_attempts-ok_example =
    resolve_maximum_attempts-ok plain budgeted (pos 5) refl budget_of_three
