-- ===== src/Coordinator/Outcomes.antt =====
-- execution_coordination/coordinator.py: what is recorded of the model calls of a task, and when a
-- deterministic receipt takes the place of a call (_record_model_call_outcome,
-- _consume_model_call_verdict).
pub mod Consumed
pub mod Totals
pub mod Ledger
mod Tests
use nexus_runtime.Prelude.{
  String, Bool, true, false, ◌&&◌, ◌||◌, not, List, [], ◌∷◌, Option, none, some, ◌==◌,
  if◌then◌else◌,
}
use nexus_runtime.Prelude.Int.{ℤ, pos, negsuc, ◌+ℤ◌, le_ℤ, eq_ℤ}
use nexus_runtime.Python.Number.{int_of}
use nexus_runtime.Python.Value.{
  Value, null, bool, int, str, list, dict, Items, nil, cons, Fields, end, get, put, truthy, eq_text,
  is_null, or_else, Runtime,
}
use nexus_runtime.Python.Raise.{Result, ok, err, ◌>>=◌, ◌>>◌, require}
use nexus_runtime.Decision.ModelCall.{Verdict, is_end, worker_seam}
use nexus_runtime.Decision.ModelCall.Telemetry.{Telemetry, make_telemetry, telemetry_to_dict}
use nexus_runtime.Coordinator.Effects.{StatePort, or_empty, fields_in}

-- `ModelCallResolutionError` of the record, what `int()` raises, and what the state port raises.
pub data OutcomeError : Type 0 where
  bad_record port_failed : String → OutcomeError
  no_number : OutcomeError

-- What is recorded: the keyword arguments of `_record_model_call_outcome`.
pub record Outcome : Type 0 where
  pub outcome : String
  pub model_calls_required : ℤ
  pub model_calls_invoked : ℤ
  pub model_calls_avoided : ℤ
  pub model_avoided : Bool
  pub resolution_override : Option String
  pub reason_override : Option String

-- The attempt that is recorded.
pub record Place : Type 0 where
  pub task_id : String
  pub attempt_id : String
  pub provider : String

abbrev pub text_override : Option String → String → String
text_override none s = s
text_override (some t) s = if t == "" then s else t

-- the arguments of `ModelCallTelemetryRecord(…)`
abbrev pub record_for : Verdict → Outcome → Telemetry (Option Bool)
record_for v o = record {
  outcome = o.outcome;
  resolution = text_override o.resolution_override v.resolution;
  reason = text_override o.reason_override v.reason;
  resolver_id = v.resolver_id;
  seam = v.seam;
  structured_state_digest = v.structured_state_digest;
  model_avoided = o.model_avoided;
  resolver_failure = v.resolver_failure;
  model_calls_required = o.model_calls_required;
  model_calls_invoked = o.model_calls_invoked;
  model_calls_avoided = o.model_calls_avoided;
  model_calls_not_eliminated = none;
}

-- `list(v) if isinstance(v, list) else []`
abbrev pub items_in : Value → Items
items_in (list vs) = vs
items_in _ = nil

-- `entries.append(v)`
abbrev pub append : Value → Items → Items
append v nil = cons v nil
append v (cons w vs) = cons w (append v vs)

-- the entry of the history
abbrev pub entry_for : Place → Telemetry Bool → Fields
unfolding telemetry_to_dict
entry_for place t = put "seam" (str worker_seam) (
    put "provider" (str place.provider) (
      put "attempt_id" (str place.attempt_id)
        (put "task_id" (str place.task_id) (telemetry_to_dict t))))

abbrev pub counted : Option ℤ → Result OutcomeError ℤ
counted none = err no_number
counted (some n) = ok n

-- `int(totals.get(key) or 0)`
abbrev pub total_of : String → Fields → Result OutcomeError ℤ
total_of key totals = counted (int_of (or_else (get key totals) (int (pos 0))))

-- `totals[key] = int(totals.get(key) or 0) + n`
abbrev pub added_to : String → ℤ → Fields → Result OutcomeError Fields
added_to key n totals = do old ← total_of key totals; ok (put key (int (old +ℤ n)) totals)

-- the totals with the calls of one more record
abbrev pub with_calls : Telemetry Bool → Fields → Result OutcomeError Fields
with_calls t totals = do
  totals1 ← added_to "model_calls_required" t.model_calls_required totals
  totals2 ← added_to "model_calls_invoked" t.model_calls_invoked totals1
  added_to "model_calls_avoided" t.model_calls_avoided totals2

-- the totals, and whether a call is left
abbrev pub with_flag : Fields → Result OutcomeError Fields
with_flag totals = do
  invoked ← total_of "model_calls_invoked" totals
  required ← total_of "model_calls_required" totals
  avoided ← total_of "model_calls_avoided" totals
  ok (
      put "model_calls_not_eliminated" (bool (le_ℤ (pos 1) invoked || not (le_ℤ required avoided)))
        totals)

unfoldable pub totals_with : Telemetry Bool → Fields → Result OutcomeError Fields
totals_with t totals = with_calls t totals >>= with_flag

abbrev pub telemetry_made : Result String (Telemetry Bool) → Result OutcomeError (Telemetry Bool)
telemetry_made (ok t) = ok t
telemetry_made (err message) = err (bad_record message)

-- A worker's receipt: the attributes that are read by `getattr`, where it has them.
pub record WorkerReceipt : Type 0 where
  pub outcome : Option Value
  pub evidence_complete : Option Value
  pub provider_calls : Option Value
  pub provider_attempt_count : Option Value

-- `getattr(receipt, name, default)`
abbrev pub attribute : Option Value → Value → Value
attribute none default = default
attribute (some v) default = v

-- a number, or 1 where `int()` raises
abbrev pub or_one : Option ℤ → ℤ
or_one none = pos 1
or_one (some n) = n

-- `int(v or 0)`, or 1 where it raises
abbrev pub reported : Value → ℤ
reported v = or_one (int_of (or_else v (int (pos 0))))

-- the receipt says that the work is done, with its evidence
abbrev pub is_complete : WorkerReceipt → Bool
is_complete r =
    eq_text (attribute r.outcome null) "EXECUTION_COMPLETED"
    && truthy (attribute r.evidence_complete (bool false))

-- the receipt says that no provider was called
abbrev pub claims_no_calls : WorkerReceipt → Bool
claims_no_calls r =
    eq_ℤ (reported (attribute r.provider_calls (int (pos 0)))) (pos 0)
    && (is_null (attribute r.provider_attempt_count (int (pos 0)))
        || eq_ℤ (reported (attribute r.provider_attempt_count (int (pos 0)))) (pos 0))

-- What becomes of a verdict: the model is called, for this reason where the verdict was resolved, or a
-- receipt takes its place.
pub data Choice : Type 0 where
  model_path : Choice
  preserved : String → Choice
  consume : WorkerReceipt → Choice

abbrev pub choose_receipt : Result String (Option WorkerReceipt) → Choice
choose_receipt (ok (some r)) =
    if is_complete r
    then (if claims_no_calls r
        then consume r
        else preserved "deterministic_receipt_claims_provider_calls:existing model path preserved")
    else preserved "deterministic_receipt_unusable:existing model path preserved"
choose_receipt _ = preserved "deterministic_receipt_unusable:existing model path preserved"

-- the checks on a verdict, with `contract.receipt_from_state`
unfoldable pub choose : (Fields → Result String (Option WorkerReceipt)) → Verdict → Choice
choose receipt_from_state v =
    if v.resolution == "RESOLVED_DETERMINISTICALLY"
    then (if is_end v.deterministic_receipt
        then preserved "deterministic_receipt_missing:existing model path preserved"
        else choose_receipt (receipt_from_state v.deterministic_receipt))
    else model_path

abbrev pub required : Outcome
required = record {
  outcome = "MODEL_REQUIRED";
  model_calls_required = pos 1;
  model_calls_invoked = pos 0;
  model_calls_avoided = pos 0;
  model_avoided = false;
  resolution_override = none;
  reason_override = none;
}

abbrev pub still_required : String → Outcome
still_required reason = record required {
  resolution_override = some "INSUFFICIENT_STRUCTURED_STATE";
  reason_override = some reason;
}

abbrev pub resolved : Outcome
resolved = record required { outcome = "DETERMINISTIC_RESOLVED"; model_calls_required = pos 0 }

abbrev pub avoided : Outcome
avoided = record resolved {
  outcome = "MODEL_AVOIDED";
  model_calls_avoided = pos 1;
  model_avoided = true;
}

module _ {World : Type 0} (rt : Runtime) (port : StatePort World) (place : Place)
    (verdict : Verdict) where
  -- what is to be stored after an outcome: the history and the totals
  unfoldable pub durable_proof : Outcome → Fields → Result OutcomeError (Items × Fields)
  unfolding totals_with
  durable_proof o state = do
    t ← telemetry_made (make_telemetry rt (record_for verdict o))
    totals ← totals_with t (fields_in (get "model_call_avoidance" state))
    ok (append (dict (entry_for place t)) (items_in (get "model_call_resolutions" state)), totals)

  -- `{**state, **durable_proof}`
  abbrev pub with_proof : Items × Fields → Fields → Fields
  with_proof (entries, totals) state =
      put "model_call_avoidance" (dict totals) (put "model_call_resolutions" (list entries) state)

  -- the outcome of `mutate_metadata`, and the snapshot after it
  abbrev pub snapshot_after : Result String (Unit {0}) × World → Result OutcomeError Fields × World
  snapshot_after (ok done, w) = (ok (or_empty (port.read_snapshot place.task_id w)), w)
  snapshot_after (err message, w) = (err (port_failed message), w)

  abbrev pub store_proof : Bool → Items × Fields → World → Result OutcomeError Fields × World
  store_proof gated proof w =
      if gated
      then snapshot_after (port.mutate_metadata place.task_id (with_proof proof end) w)
      else (ok (with_proof proof (or_empty (port.read_snapshot place.task_id w))), w)

  -- `_record_model_call_outcome`, where the flag says that a gate is there
  unfoldable pub record_model_call_outcome :
      Bool → Outcome → World → Result OutcomeError Fields × World
  unfolding durable_proof
  record_model_call_outcome gated o w =
      elim (durable_proof o (or_empty (port.read_snapshot place.task_id w))) [
        | err e ↦ (err e, w)
        | ok proof ↦ store_proof gated proof w
      ]

  -- a record, then the snapshot with the receipt
  abbrev pub then_snapshot :
      Option WorkerReceipt
      → Result OutcomeError Fields × World
      → Result OutcomeError (Fields × Option WorkerReceipt) × World
  then_snapshot receipt (ok state, w) =
      (ok (or_empty (port.read_snapshot place.task_id w), receipt), w)
  then_snapshot receipt (err e, w) = (err e, w)

  -- what follows the first record
  abbrev pub act_on :
      Bool
      → Choice
      → Result OutcomeError Fields × World
      → Result OutcomeError (Fields × Option WorkerReceipt) × World
  unfolding record_model_call_outcome
  act_on gated choice (err e, w) = (err e, w)
  act_on gated model_path (ok state, w) = (ok (state, none), w)
  act_on gated (preserved reason) (ok state, w) =
      then_snapshot none (record_model_call_outcome gated (still_required reason) w)
  act_on gated (consume r) (ok state, w) =
      then_snapshot (some r) (record_model_call_outcome gated avoided w)

  abbrev pub first_outcome : Outcome
  first_outcome = if verdict.resolution == "RESOLVED_DETERMINISTICALLY" then resolved else required

  -- `_consume_model_call_verdict`
  unfoldable pub consume_model_call_verdict :
      (Fields → Result String (Option WorkerReceipt))
      → Bool
      → World
      → Result OutcomeError (Fields × Option WorkerReceipt) × World
  unfolding record_model_call_outcome choose
  consume_model_call_verdict receipt_from_state gated w =
      act_on gated (choose receipt_from_state verdict)
        (record_model_call_outcome gated first_outcome w)
