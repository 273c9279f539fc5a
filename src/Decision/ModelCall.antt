-- ===== src/Decision/ModelCall.antt =====
-- execution_coordination/model_call_resolution.py: whether a model call is needed at all.
pub mod FailSafe
pub mod Telemetry
use Prim.Native.String.{◌++◌ as concat}
use nexus_runtime.Prelude.{
  String, Bool, true, false, ◌&&◌, ◌||◌, not, List, [], ◌∷◌, elem, Option, none, some, ◌==◌,
  if◌then◌else◌,
}
use nexus_runtime.Python.Text.{strip, is_blank, is_empty}
use nexus_runtime.Python.Value.{
  Value, null, str, dict, Fields, end, field, get, is_dict, or_else, to_text, Runtime, fields_of,
}
use nexus_runtime.Python.Raise.{Result, ok, err, ◌>>=◌, ◌>>◌, require}
use nexus_runtime.Decision.Json.{required_text, normalize, normalize_fields, authority_key}

-- `_RESOLUTION_STATUSES`
abbrev pub resolution_statuses : List String
resolution_statuses =
    "RESOLVED_DETERMINISTICALLY" ∷ "MODEL_NEEDED" ∷ "INSUFFICIENT_STRUCTURED_STATE" ∷ []

-- `_ENVELOPE_AUTHORIZATION_TOKENS`
abbrev pub envelope_tokens : List String
envelope_tokens =
    "authoriz" ∷ "approv" ∷ "permission" ∷ "permit" ∷ "admission" ∷ "allow" ∷ "grant" ∷ "certif"
    ∷ []

-- `WORKER_INVOCATION_SEAM`
abbrev pub worker_seam : String
worker_seam = "execution_coordinator.worker_invocation"

-- `ModelCallNeedVerdict`
pub record Verdict : Type 0 where
  pub resolution : String
  pub reason : String
  pub resolver_id : String
  pub seam : String
  pub structured_state_digest : String
  pub deterministic_receipt : Fields
  pub resolver_failure : Option String

-- What a call of the resolver ends with: `None`, a verdict, a mapping, another value, or an exception
-- with its class and message.
pub data Answer : Type 0 where
  abstained other : Answer
  verdict : Verdict → Answer
  mapping : Fields → Answer
  raised : String → String → Answer

-- The host's resolver: its `resolver_id` (`None` where it has none), its class, and its method.
pub record Resolver : Type 0 where
  pub resolver_id : Value
  pub class_name : String
  pub resolve : Fields → String → Answer

abbrev pub failure_value : Option String → Value
failure_value none = null
failure_value (some s) = str s

-- `ModelCallNeedVerdict.to_dict`
abbrev pub verdict_to_dict : Verdict → Fields
verdict_to_dict v = fields_of (
    ("schema", str "nexus.runtime.model_call_resolution.v1")
    ∷ ("resolution", str v.resolution)
    ∷ ("reason", str v.reason)
    ∷ ("resolver_id", str v.resolver_id)
    ∷ ("seam", str v.seam)
    ∷ ("structured_state_digest", str v.structured_state_digest)
    ∷ ("deterministic_receipt", dict v.deterministic_receipt)
    ∷ ("resolver_failure", failure_value v.resolver_failure)
    ∷ [])

-- `text or default`
abbrev pub text_or : String → String → String
text_or s default = if is_empty s then default else s

abbrev own_identity : Value → String → String
unfolding is_blank strip
own_identity (str s) class_name = if is_blank s then class_name else strip s
own_identity _ class_name = class_name

-- `_resolver_identity`
unfoldable pub resolver_identity : Option Resolver → String
unfolding is_blank strip
resolver_identity none = "unbound"
resolver_identity (some r) = own_identity r.resolver_id r.class_name

-- the receipt of a verdict, where one is given
abbrev pub receipt_of : Option Fields → Result String Fields
unfolding normalize
receipt_of none = ok end
receipt_of (some fs) = normalize_fields fs "deterministic_receipt" end

abbrev pub is_end : Fields → Bool
is_end end = true
is_end (field k v fs) = false

abbrev pub given_receipt : Value → Option Fields
given_receipt (dict fs) = some fs
given_receipt _ = none

abbrev pub given_reason : Value → String → String
unfolding is_blank
given_reason (str s) status =
    if is_blank s
    then (if status == "RESOLVED_DETERMINISTICALLY"
        then "deterministic_result_available"
        else "model_path_preserved")
    else s
given_reason _ status =
    if status == "RESOLVED_DETERMINISTICALLY"
    then "deterministic_result_available"
    else "model_path_preserved"

abbrev pub refuse : Option String → Result String (Unit {0})
refuse none = ok tt
refuse (some key) = err (concat "verdict must not carry authorization content: " key)

abbrev pub fallback : String → String
fallback on_invalid =
    if elem on_invalid ("MODEL_NEEDED" ∷ "INSUFFICIENT_STRUCTURED_STATE" ∷ [])
    then on_invalid
    else "MODEL_NEEDED"

abbrev pub seam_name : String → String
unfolding strip
seam_name seam = text_or (strip seam) worker_seam

module _ (rt : Runtime) where
  abbrev pub unknown_status : String → String
  unknown_status status = concat "unknown model call resolution status: " (rt.repr (str status))

  -- `ModelCallNeedVerdict.build`
  unfoldable pub build_verdict :
      String → String → String → String → String → Option Fields → Result String Verdict
  unfolding strip required_text normalize
  build_verdict resolution reason resolver_id seam digest given = do
    require (elem (strip resolution) resolution_statuses) (unknown_status resolution)
    receipt ← receipt_of given
    require (is_end receipt || not (is_empty (strip digest)))
        "resolved verdict requires a structured state digest"
    why ← required_text (str reason) "reason"
    who ← required_text (str resolver_id) "resolver_id"
    place ← required_text (str seam) "seam"
    ok (record {
      resolution = strip resolution;
      reason = why;
      resolver_id = who;
      seam = place;
      structured_state_digest = strip digest;
      deterministic_receipt = receipt;
      resolver_failure = none;
    })

  -- `_structured_state_digest`
  unfoldable pub state_digest : Fields → Result String String
  unfolding normalize
  state_digest state = do
    normalized ← normalize_fields state "structured_state" end
    ok (rt.digest (dict normalized))

  abbrev pub status_of : Fields → String
  unfolding strip
  status_of payload =
      strip
        (to_text rt (or_else (get "resolution" payload) (or_else (get "status" payload) (str ""))))

  -- `_normalize_verdict_payload`
  unfoldable pub normalize_verdict_payload :
      Fields → Option Resolver → String → String → Result String Verdict
  unfolding authority_key build_verdict resolver_identity strip is_blank
  normalize_verdict_payload payload resolver seam digest = do
    let status : String = status_of payload
    refuse (authority_key rt envelope_tokens payload)
    require
        (not (status == "RESOLVED_DETERMINISTICALLY")
          || is_dict (get "deterministic_receipt" payload))
        "resolved verdict requires a deterministic receipt mapping"
    require (elem status resolution_statuses) (unknown_status status)
    build_verdict status (given_reason (get "reason" payload) status)
        (to_text rt (or_else (get "resolver_id" payload) (str (resolver_identity resolver))))
        (to_text rt (or_else (get "seam" payload) (str seam))) digest
        (given_receipt (get "deterministic_receipt" payload))

  -- the verdict where the resolver gave none
  abbrev pub insufficient : String → Option Resolver → String → String → Option String → Verdict
  unfolding resolver_identity
  insufficient reason resolver seam digest failure = record {
    resolution = "INSUFFICIENT_STRUCTURED_STATE";
    reason = reason;
    resolver_id = resolver_identity resolver;
    seam = seam;
    structured_state_digest = digest;
    deterministic_receipt = end;
    resolver_failure = failure;
  }

  abbrev pub accept : Option Resolver → String → String → Result String Verdict → Verdict
  unfolding resolver_identity
  accept resolver seam digest (ok v) = v
  accept resolver seam digest (err e) =
      insufficient (concat "model_call_resolver_verdict_rejected:" e) resolver seam digest (some e)

  -- what is made of the resolver's answer
  unfoldable pub settle_answer : Option Resolver → String → String → Answer → Verdict
  unfolding normalize_verdict_payload
  settle_answer resolver seam digest (raised name message) =
      insufficient (concat "model_call_resolver_failed:" name) resolver seam digest
        (some (concat name (concat ":" message)))
  settle_answer resolver seam digest abstained =
      insufficient "model_call_resolver_abstained" resolver seam digest none
  settle_answer resolver seam digest other =
      insufficient "model_call_resolver_verdict_malformed" resolver seam digest
        (some "verdict_not_a_mapping")
  settle_answer resolver seam digest (verdict v) =
      accept resolver seam digest
        (normalize_verdict_payload (verdict_to_dict v) resolver seam digest)
  settle_answer resolver seam digest (mapping payload) =
      accept resolver seam digest (normalize_verdict_payload payload resolver seam digest)

  unfoldable pub ask : Option Resolver → Fields → String → String → Verdict
  unfolding settle_answer
  ask none state seam digest = insufficient "model_call_resolver_not_bound" none seam digest none
  ask (some r) state seam digest = settle_answer (some r) seam digest (r.resolve state seam)

  abbrev pub with_digest :
      Option Resolver → Fields → String → String → Result String String → Verdict
  unfolding ask resolver_identity
  with_digest resolver state seam on_invalid (ok digest) = ask resolver state seam digest
  with_digest resolver state seam on_invalid (err e) = record {
    resolution = fallback on_invalid;
    reason = concat "structured_state_unusable:" e;
    resolver_id = resolver_identity resolver;
    seam = seam;
    structured_state_digest = "";
    deterministic_receipt = end;
    resolver_failure = some "structured_state_unusable";
  }

  -- `resolve_model_call_need`
  unfoldable pub resolve_model_call_need : Option Resolver → Fields → String → String → Verdict
  unfolding state_digest ask strip
  resolve_model_call_need resolver state seam on_invalid =
      with_digest resolver state (seam_name seam) on_invalid (state_digest state)
