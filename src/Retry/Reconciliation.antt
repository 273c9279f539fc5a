-- ===== src/Retry/Reconciliation.antt =====
-- task_retry/bounded_reconciliation.py: whether one verifier-driven repair may be submitted.
pub mod Eligible
pub mod OneRound
use Prim.Native.String.{◌++◌ as concat}
use nexus_runtime.Prelude.{
  ℕ, zero, suc, ◌+◌, String, Bool, true, false, ◌&&◌, not, List, [], ◌∷◌, ltb, ◌==◌, Option, none,
  some, if◌then◌else◌,
}
use nexus_runtime.Prelude.Int.{ℤ, pos, negsuc}
use nexus_runtime.Python.Value.{
  Value, null, bool, int, str, list, dict, Fields, get, has, is_str, eq_text, text_or_empty,
  Runtime, fields_of,
}
use nexus_runtime.Python.Number.{int_of}
use nexus_runtime.Python.Raise.{Result, ok, err, ◌>>=◌, ◌>>◌, require}
use nexus_runtime.Retry.Packet.{Packet, from_mapping, sha256, text}

-- `BoundedReconciliationDecision`
pub record Decision : Type 0 where
  pub disposition : String
  pub reason : String
  pub residual_packet_sha256 : Option String
  pub current_repair_round : ℕ
  pub next_repair_round : Option ℕ
  pub required_next_gate : String
  pub replan_requested : Bool

-- the property `eligible`
abbrev pub eligible : Decision → Bool
eligible d = d.disposition == "REPAIR_ELIGIBLE"

-- `MAX_REPAIR_ROUNDS_V1`
abbrev pub max_repair_rounds : ℕ
max_repair_rounds = 1

-- `_ineligible`
abbrev pub ineligible : String → Option String → ℕ → Decision
ineligible reason packet_sha round = record {
  disposition = "REPAIR_INELIGIBLE";
  reason = reason;
  residual_packet_sha256 = packet_sha;
  current_repair_round = round;
  next_repair_round = none;
  required_next_gate = "STOP_EXISTING_AUTHORITY_PATH";
  replan_requested = false;
}

-- the decision when the repair rounds are used up
abbrev pub exhausted : ℕ → Decision
exhausted round = record {
  disposition = "REPAIR_BUDGET_EXHAUSTED";
  reason = "repair_round_budget_exhausted";
  residual_packet_sha256 = none;
  current_repair_round = round;
  next_repair_round = none;
  required_next_gate = "REPLAN_REQUEST";
  replan_requested = true;
}

abbrev pub eligible_decision : Packet → ℕ → Decision
eligible_decision p round = record {
  disposition = "REPAIR_ELIGIBLE";
  reason = "clean_semantic_reject_bound_and_budgeted";
  residual_packet_sha256 = some p.packet_sha256;
  current_repair_round = round;
  next_repair_round = some (round + 1);
  required_next_gate = "SUBMIT_FRESH_REPAIR_ATTEMPT";
  replan_requested = false;
}

round_of_int : Option ℤ → Result String ℕ
round_of_int none = err "existing repair_round is malformed"
round_of_int (some (pos n)) = ok n
round_of_int (some (negsuc n)) = err "existing repair_round is negative"

round_of : Value → Result String ℕ
unfolding round_of_int int_of
round_of (bool b) = err "existing repair_round is malformed"
round_of v = round_of_int (int_of v)

-- `previous.get("repair_round", 0)`
abbrev round_field : Fields → Value
round_field fs = if has "repair_round" fs then get "repair_round" fs else int (pos 0)

-- `_current_repair_round`
previous_round : Value → Result String ℕ
unfolding round_of
previous_round null = ok 0
previous_round (dict previous) = round_of (round_field previous)
previous_round _ = err "existing bounded_reconciliation metadata is malformed"

unfoldable pub current_repair_round : Fields → Result String ℕ
unfolding previous_round
current_repair_round request = previous_round (get "bounded_reconciliation" request)

-- An early return is an error here, and `settle` makes both ends the decision.
abbrev pub Step {ℓ} : Type ℓ → Type ℓ
Step A = Result Decision A

abbrev pub settle : Step Decision → Decision
settle (ok d) = d
settle (err d) = d

abbrev pub otherwise {ℓ} : {A : Type ℓ} → Result String A → (String → Decision) → Step A
otherwise (ok a) f = ok a
otherwise (err e) f = err (f e)

abbrev pub mapping : Value → Decision → Step Fields
mapping (dict fs) d = ok fs
mapping _ d = err d

-- `state.get("has_unresolved_external_effect") is not False`
abbrev pub is_false : Value → Bool
is_false (bool b) = not b
is_false _ = false

-- an integer, not a boolean, that is 0
abbrev pub is_zero : Value → Bool
is_zero (int (pos zero)) = true
is_zero _ = false

-- the loop over `bindings`: the first field where packet and state differ
abbrev pub check_bindings : List (String × Value × String) → (String → Decision) → Step (Unit {0})
check_bindings [] f = ok tt
check_bindings ((observed, expected, name) ∷ rest) f =
    if eq_text expected observed
    then check_bindings rest f
    else err (f (concat "residual_binding_mismatch:" name))

abbrev pub bindings : Packet → Fields → Fields → Fields → String → List (String × Value × String)
bindings p state identity verifier candidate_sha256 =
    (p.task_id, get "task_id" state, "task_id")
    ∷ (p.predecessor_attempt_id, get "attempt_id" state, "predecessor_attempt_id")
    ∷ (p.candidate_id, get "candidate_id" identity, "candidate_id")
    ∷ (p.candidate_sha256, str candidate_sha256, "candidate_sha256")
    ∷ (p.source_revision, get "source_revision" identity, "source_revision")
    ∷ (p.verifier_id, get "verifier_id" verifier, "verifier_id")
    ∷ (p.verifier_version, get "verifier_version" verifier, "verifier_version")
    ∷ (p.verifier_receipt_ref, get "receipt_ref" verifier, "verifier_receipt_ref")
    ∷ []

module _ (rt : Runtime) where
  -- the checks on a well-formed packet
  unfoldable pub check_packet : Fields → Packet → ℕ → Step Decision
  check_packet state p round = do
    let no : String → Decision = λ reason. ineligible reason (some p.packet_sha256) round
    require (text_or_empty rt (get "status" state) == "FINAL_BLOCK")
        (no "predecessor_not_terminal_repairable_status")
    require (text_or_empty rt (get "acceptance_decision" state) == "REPAIRABLE")
        (no "acceptance_decision_not_repairable")
    require (p.failure_class == "CLEAN_SEMANTIC_REJECT")
        (no (concat "failure_class_not_semantic:" p.failure_class))
    require (is_false (get "has_unresolved_external_effect" state))
        (no "unresolved_external_effect_not_proven_false")
    require (is_zero (get "active_effect_count" state))
        (no "active_predecessor_effect_not_proven_zero")
    identity ← mapping (get "candidate_identity" state) (no "candidate_identity_missing")
    verifier ← mapping (get "verifier_identity" state) (no "verifier_identity_missing")
    candidate ←
        otherwise (sha256 (get "candidate_sha256" identity) "candidate_identity.candidate_sha256")
          (λ _. no "candidate_identity_sha256_invalid")
    check_bindings (bindings p state identity verifier candidate) no
    ok (eligible_decision p round)

  unfoldable pub evaluate_fields : Fields → Value → Step Decision
  evaluate_fields state residual = do
    request ← mapping (get "request" state) (ineligible "DURABLE_REQUEST_MISSING" none 0)
    round ← otherwise (current_repair_round request) (λ e. ineligible e none 0)
    require (ltb round max_repair_rounds) (exhausted round)
    packet ←
        otherwise (from_mapping rt residual)
          (λ e. ineligible (concat "residual_packet_invalid:" e) none round)
    check_packet state packet round

  -- `evaluate_bounded_reconciliation`
  unfoldable pub evaluate_bounded_reconciliation : Value → Value → Decision
  evaluate_bounded_reconciliation (dict state) residual = settle (evaluate_fields state residual)
  evaluate_bounded_reconciliation _ residual = ineligible "STATE_NOT_MAPPING" none 0

abbrev sha_value : Option String → Value
sha_value none = null
sha_value (some s) = str s

abbrev or_missing : Option ℕ → Result String ℕ
or_missing none = err "repair request metadata requires an eligible reconciliation decision"
or_missing (some n) = ok n

abbrev next_round : Decision → Result String ℕ
next_round d =
    if eligible d
    then or_missing d.next_repair_round
    else err "repair request metadata requires an eligible reconciliation decision"

-- `build_repair_request_metadata`
unfoldable pub build_repair_request_metadata : Decision → Value → Value → Result String Fields
build_repair_request_metadata d predecessor successor = do
  round ← next_round d
  before ← text predecessor "predecessor_attempt_id"
  after ← text successor "successor_attempt_id"
  sha ← text (sha_value d.residual_packet_sha256) "residual_packet_sha256"
  ok (
      fields_of (
        ("schema", str "nexus.runtime.bounded_reconciliation_request.v1")
        ∷ ("predecessor_attempt_id", str before)
        ∷ ("successor_attempt_id", str after)
        ∷ ("residual_packet_sha256", str sha)
        ∷ ("repair_round", int (pos round))
        ∷ ("max_repair_rounds", int (pos max_repair_rounds))
        ∷ ("required_post_repair_gate", str "EXTERNAL_VERIFIER")
        ∷ ("replan_on_exhaustion", str "REQUEST_ONLY")
        ∷ ("runtime_is_planner_authority", bool false)
        ∷ ("runtime_is_completion_authority", bool false)
        ∷ []))
