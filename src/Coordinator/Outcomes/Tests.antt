-- ===== src/Coordinator/Outcomes/Tests.antt =====
-- The record of model calls and the use of a deterministic receipt, at concrete inputs.
use nexus_runtime.Prelude.{String, true, ◌≡◌, refl, ap, sym, [], ◌∷◌, Option, none, some}
use nexus_runtime.Prelude.Int.{pos}
use nexus_runtime.Python.Number.{int_of}
use nexus_runtime.Python.Value.{bool, int, str, Fields, end, get, fields_of, Runtime}
use nexus_runtime.Python.Raise.{Result, ok, err}
use nexus_runtime.Decision.ModelCall.{Verdict}
use nexus_runtime.Decision.ModelCall.Telemetry.{make_telemetry, telemetry_to_dict}
use nexus_runtime.Coordinator.Effects.{StatePort}
use nexus_runtime.Coordinator.Outcomes.{
  OutcomeError, Place, WorkerReceipt, choose, required, totals_with, durable_proof,
  record_model_call_outcome, consume_model_call_verdict,
}
use nexus_runtime.Coordinator.Outcomes.Consumed.{Decided, consume_model_call_verdict-Decided}
use nexus_runtime.Coordinator.Outcomes.Ledger.{
  IsStored, IsBalanced, Leaves, record_model_call_outcome-Leaves,
}

abbrev plain : Runtime
plain = record {
  digest = λ v. "digest";
  ascii_digest = λ v. "digest";
  render = λ v. "?";
  repr = λ v. "?";
  upper = λ s. s;
  lower = λ s. s;
}

-- the state is the one document of the task, and a mutation replaces it
abbrev memory : StatePort Fields
memory = record { mutate_metadata = λ task new w. (ok tt, new); read_snapshot = λ task w. some w }

memory-IsStored : IsStored memory
memory-IsStored task new w w' key done there = ap (λ o. get key o.1) (sym done)

abbrev place : Place
place = record { task_id = "task"; attempt_id = "attempt"; provider = "codex" }

abbrev verdict : Verdict
verdict = record {
  resolution = "RESOLVED_DETERMINISTICALLY";
  reason = "known";
  resolver_id = "resolver";
  seam = "seam";
  structured_state_digest = "digest";
  deterministic_receipt = fields_of (("outcome", str "EXECUTION_COMPLETED") ∷ []);
  resolver_failure = none;
}

abbrev receipt : WorkerReceipt
receipt = record {
  outcome = some (str "EXECUTION_COMPLETED");
  evidence_complete = some (bool true);
  provider_calls = some (int (pos 0));
  provider_attempt_count = none;
}

abbrev read_receipt : Fields → Result String (Option WorkerReceipt)
read_receipt fs = ok (some receipt)

empty-IsBalanced : IsBalanced end
unfolding int_of
empty-IsBalanced = record { required = refl; invoked = refl; avoided = refl }

record_model_call_outcome-Leaves_example :
    Leaves plain memory place verdict
      (record_model_call_outcome plain memory place verdict true required end)
record_model_call_outcome-Leaves_example =
    record_model_call_outcome-Leaves plain memory place verdict memory-IsStored true required end
      empty-IsBalanced

abbrev run : Result OutcomeError (Fields × Option WorkerReceipt) × Fields
unfolding consume_model_call_verdict
run = consume_model_call_verdict plain memory place verdict read_receipt true end

abbrev final_state : Fields
unfolding run
final_state = elim run.0 [ ok (state, answer) ↦ state | err e ↦ end ]

taken_over :
    consume_model_call_verdict plain memory place verdict read_receipt true end
    ≡ (ok (final_state, some receipt), run.1)
unfolding final_state run consume_model_call_verdict record_model_call_outcome durable_proof
    totals_with choose make_telemetry telemetry_to_dict int_of
taken_over = refl

consume_model_call_verdict-Decided_example : Decided read_receipt verdict (some receipt)
consume_model_call_verdict-Decided_example =
    consume_model_call_verdict-Decided plain memory place verdict read_receipt true end final_state
      (some receipt) run.1 taken_over
