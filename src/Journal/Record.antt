-- ===== src/Journal/Record.antt =====
-- The records of kernel/events/effect_journal.py, the digests that bind them, and the checks on
-- identities and results. A record is a JSON object with exactly the twelve required fields.
use nexus_runtime.Prelude.{String, Bool, ◌&&◌, ◌||◌, List, [], ◌∷◌, all, if◌then◌else◌}
use nexus_runtime.Python.Value.{
  Value, str, dict, Fields, end, field, has, get, is_text, is_json, has_all, keys_in, positive_int,
  eq_text, Runtime, fields_of,
}
use nexus_runtime.Python.Equality.{eq_value}
use nexus_runtime.Python.Raise.{Result, ok, err, ◌>>◌, require}
use nexus_runtime.Journal.Error.{Error, effect_journal_error, effect_identity_mismatch}
use nexus_runtime.Journal.Generation.{or_raise}
use Prim.Native.String.{◌++◌ as concat}

pub record Record : Type 0 where
  pub schema : Value
  pub operation_id : Value
  pub subject : Value
  pub request_digest : Value
  pub generation : Value
  pub project_root : Value
  pub effect_id : Value
  pub state : Value
  pub result : Value
  pub result_digest : Value
  pub reason : Value
  pub record_digest : Value

abbrev pub schema_name : String
schema_name = "nexus.runtime_effect_journal.v1"

abbrev pub unsigned_fields : Record → Fields
unsigned_fields r = fields_of (
    ("schema", r.schema)
    ∷ ("operation_id", r.operation_id)
    ∷ ("subject", r.subject)
    ∷ ("request_digest", r.request_digest)
    ∷ ("generation", r.generation)
    ∷ ("project_root", r.project_root)
    ∷ ("effect_id", r.effect_id)
    ∷ ("state", r.state)
    ∷ ("result", r.result)
    ∷ ("result_digest", r.result_digest)
    ∷ ("reason", r.reason)
    ∷ [])

-- the record as `json.dump` writes it, and as `json.load` gives it back
abbrev pub encode : Record → Value
encode r = dict (field "record_digest" r.record_digest (unsigned_fields r))

abbrev pub decode : Fields → Record
decode fs = record {
  schema = get "schema" fs;
  operation_id = get "operation_id" fs;
  subject = get "subject" fs;
  request_digest = get "request_digest" fs;
  generation = get "generation" fs;
  project_root = get "project_root" fs;
  effect_id = get "effect_id" fs;
  state = get "state" fs;
  result = get "result" fs;
  result_digest = get "result_digest" fs;
  reason = get "reason" fs;
  record_digest = get "record_digest" fs;
}

-- `_STATES`
abbrev pub states : List String
states = "PENDING" ∷ "DISPATCHED" ∷ "COMPLETED" ∷ "UNKNOWN" ∷ []

abbrev pub completed : Record → Bool
completed r = eq_text r.state "COMPLETED"

-- `_safe_result`, on the values of the model, whose mappings are dicts with text keys
unfoldable pub safe_result : Value → Result Error Value
safe_result (dict end) = err (effect_journal_error "EFFECT_RESULT_MALFORMED")
safe_result (dict fs) =
    if is_json (dict fs)
    then ok (dict fs)
    else err (effect_journal_error "EFFECT_RESULT_UNSERIALIZABLE")
safe_result _ = err (effect_journal_error "EFFECT_RESULT_MALFORMED")

-- The six fields that an observation of an effect must have.
abbrev pub observation_keys : List String
observation_keys =
    "operation_id" ∷ "effect_id" ∷ "subject" ∷ "request_digest" ∷ "generation" ∷ "result" ∷ []

-- `_observed_result`
unfoldable pub observed_result : Record → Value → Result Error Value
observed_result r (dict fs) =
    if has_all observation_keys fs
      && keys_in observation_keys fs
      && eq_value (get "operation_id" fs) r.operation_id
      && eq_value (get "effect_id" fs) r.effect_id
      && eq_value (get "subject" fs) r.subject
      && eq_value (get "request_digest" fs) r.request_digest
      && eq_value (get "generation" fs) r.generation
    then safe_result (get "result" fs)
    else err (effect_identity_mismatch "EFFECT_OBSERVATION_MISMATCH")
observed_result r _ = err (effect_journal_error "EFFECT_OBSERVATION_MALFORMED")

-- the `required` set of `operation_digest`
abbrev pub identity_keys : List String
identity_keys =
    "task_id" ∷ "workspace_revision" ∷ "planner_decision_id" ∷ "action" ∷ "subject_revision"
    ∷ "request_digest" ∷ []

-- `identity.get("attempt_number", identity.get("attempt"))`
abbrev pub attempt_of : Fields → Value
attempt_of fs = if has "attempt_number" fs then get "attempt_number" fs else get "attempt" fs

module _ (rt : Runtime) where
  -- `_digest_record`
  abbrev pub digest_record : Record → Value
  digest_record r = str (rt.digest (dict (unsigned_fields r)))

  -- `record["record_digest"] = _digest_record(record)`
  abbrev pub sign : Record → Record
  sign r = record r { record_digest = digest_record r }

  abbrev pub identity_malformed : Error
  identity_malformed = effect_journal_error "EFFECT_IDENTITY_MALFORMED"

  -- `operation_digest`, on a dictionary that is not empty
  unfoldable pub digest_identity : Fields → Result Error String
  digest_identity fs = do
    require
        (has_all identity_keys fs
          && (has "attempt_number" fs || has "attempt" fs)
          && keys_in ("attempt_number" ∷ "attempt" ∷ identity_keys) fs)
        identity_malformed
    or_raise (positive_int (attempt_of fs)) identity_malformed
    require (all (λ k. is_text (get k fs)) identity_keys) identity_malformed
    require (is_json (dict fs)) (effect_journal_error "EFFECT_IDENTITY_UNSERIALIZABLE")
    ok (rt.digest (dict fs))

  unfoldable pub operation_digest : Value → Result Error String
  unfolding digest_identity
  operation_digest (dict end) = err (effect_journal_error "EFFECT_IDENTITY_REQUIRED")
  operation_digest (dict fs) = digest_identity fs
  operation_digest _ = err (effect_journal_error "EFFECT_IDENTITY_REQUIRED")

-- `"effect-" + operation_digest(identity)`
abbrev pub effect_id_of : String → String
effect_id_of op = concat "effect-" op
