-- ===== src/Decision/ModelCall/Telemetry.antt =====
-- execution_coordination/model_call_resolution.py: the record of one evaluation.
use Prim.Native.String.{◌++◌ as concat}
use nexus_runtime.Prelude.{
  ◌≡◌, String, Bool, true, false, ◌||◌, not, List, [], ◌∷◌, elem, Option, none, some, ◌==◌, arith,
  if◌then◌else◌, subst,
}
use nexus_runtime.Prelude.Int.{ℤ, pos, le_ℤ}
use nexus_runtime.Python.Value.{bool, int, str, Fields, Runtime, fields_of}
use nexus_runtime.Python.Raise.{Result, ok, ◌>>◌, require, >>=-eq-ok, require-eq-ok, ok-injective}
use nexus_runtime.Decision.ModelCall.{resolution_statuses, failure_value}

-- `_OUTCOME_KINDS`
abbrev pub outcome_kinds : List String
outcome_kinds = "DETERMINISTIC_RESOLVED" ∷ "MODEL_REQUIRED" ∷ "MODEL_INVOKED" ∷ "MODEL_AVOIDED" ∷ []

-- `ModelCallTelemetryRecord`; `A` is what its last field may be
pub record Telemetry (A : Type 0) : Type 0 where
  pub outcome : String
  pub resolution : String
  pub reason : String
  pub resolver_id : String
  pub seam : String
  pub structured_state_digest : String
  pub model_avoided : Bool
  pub resolver_failure : Option String
  pub model_calls_required : ℤ
  pub model_calls_invoked : ℤ
  pub model_calls_avoided : ℤ
  pub model_calls_not_eliminated : A

-- `n >= 1`, `n > 0`
abbrev pub some_calls : ℤ → Bool
some_calls n = le_ℤ (pos 1) n

abbrev pub expected_not_eliminated : {A : Type 0} → Telemetry A → Bool
expected_not_eliminated t =
    some_calls t.model_calls_invoked || not (le_ℤ t.model_calls_required t.model_calls_avoided)

abbrev same_bool : Bool → Bool → Bool
same_bool a b = if a then b else not b

abbrev pub agrees : Option Bool → Bool → Bool
agrees none expected = true
agrees (some given) expected = same_bool given expected

abbrev pub recorded : Telemetry (Option Bool) → Telemetry Bool
recorded t = record {
  outcome = t.outcome;
  resolution = t.resolution;
  reason = t.reason;
  resolver_id = t.resolver_id;
  seam = t.seam;
  structured_state_digest = t.structured_state_digest;
  model_avoided = t.model_avoided;
  resolver_failure = t.resolver_failure;
  model_calls_required = t.model_calls_required;
  model_calls_invoked = t.model_calls_invoked;
  model_calls_avoided = t.model_calls_avoided;
  model_calls_not_eliminated = expected_not_eliminated t;
}

-- What a record says of the calls.
pub record Honest (t : Telemetry Bool) : Type 0 where
  pub eliminated :
      t.model_calls_not_eliminated ≡ false
      → (le_ℤ t.model_calls_invoked (pos 0) ≡ true)
        × (le_ℤ t.model_calls_required t.model_calls_avoided ≡ true)
  pub invoked : (t.outcome == "MODEL_INVOKED") ≡ true → t.model_calls_not_eliminated ≡ true
  pub avoided : (t.outcome == "MODEL_AVOIDED") ≡ true → le_ℤ (pos 1) t.model_calls_avoided ≡ true

counts-Honest :
    (t : Telemetry (Option Bool))
    → (not t.model_avoided || some_calls t.model_calls_avoided) ≡ true
    → (not (t.outcome == "MODEL_AVOIDED") || t.model_avoided) ≡ true
    → (not (t.outcome == "MODEL_INVOKED") || some_calls t.model_calls_invoked) ≡ true
    → Honest (recorded t)
counts-Honest t counted avoided invoked = record {
  eliminated = ground arith;
  invoked = λ h. ground arith;
  avoided = λ h. ground arith;
}

module _ (rt : Runtime) where
  -- `ModelCallTelemetryRecord(…)` with its `__post_init__`
  unfoldable pub make_telemetry : Telemetry (Option Bool) → Result String (Telemetry Bool)
  make_telemetry t = do
    require (elem t.outcome outcome_kinds)
        (concat "unknown model call telemetry outcome: " (rt.repr (str t.outcome)))
    require (elem t.resolution resolution_statuses)
        (concat "unknown model call resolution status: " (rt.repr (str t.resolution)))
    require (le_ℤ (pos 0) t.model_calls_required) "model_calls_required must be non-negative"
    require (le_ℤ (pos 0) t.model_calls_invoked) "model_calls_invoked must be non-negative"
    require (le_ℤ (pos 0) t.model_calls_avoided) "model_calls_avoided must be non-negative"
    require (not t.model_avoided || some_calls t.model_calls_avoided)
        "model_avoided requires model_calls_avoided >= 1"
    require (not (t.outcome == "MODEL_AVOIDED") || t.model_avoided)
        "MODEL_AVOIDED requires model_avoided=true"
    require (not (t.outcome == "MODEL_INVOKED") || some_calls t.model_calls_invoked)
        "MODEL_INVOKED requires model_calls_invoked >= 1"
    require (agrees t.model_calls_not_eliminated (expected_not_eliminated t))
        "model_calls_not_eliminated must match required/invoked/avoided counts"
    ok (recorded t)

  -- A record that is made is honest: that no call is left is said only where none was made and as many
  -- were avoided as required, never where the model was invoked, and an avoided call is counted.
  pub make_telemetry-Honest :
      (given : Telemetry (Option Bool)) {t : Telemetry Bool}
      → make_telemetry given ≡ ok t
      → Honest t
  unfolding make_telemetry
  make_telemetry-Honest given {t} h =
      let (_, _, h1) = >>=-eq-ok (require (elem given.outcome outcome_kinds) _) _ h in
      let (_, _, h2) = >>=-eq-ok (require (elem given.resolution resolution_statuses) _) _ h1 in
      let (_, _, h3) = >>=-eq-ok (require (le_ℤ (pos 0) given.model_calls_required) _) _ h2 in
      let (_, _, h4) = >>=-eq-ok (require (le_ℤ (pos 0) given.model_calls_invoked) _) _ h3 in
      let (_, _, h5) = >>=-eq-ok (require (le_ℤ (pos 0) given.model_calls_avoided) _) _ h4 in
      let (_, counted, h6) =
        >>=-eq-ok (require (not given.model_avoided || some_calls given.model_calls_avoided) _) _
          h5 in
      let (_, avoided, h7) =
        >>=-eq-ok (require (not (given.outcome == "MODEL_AVOIDED") || given.model_avoided) _) _
          h6 in
      let (_, invoked, h8) =
        >>=-eq-ok
          (require (not (given.outcome == "MODEL_INVOKED") || some_calls given.model_calls_invoked)
            _)
          _ h7 in
      let (_, _, last) =
        >>=-eq-ok
          (require (agrees given.model_calls_not_eliminated (expected_not_eliminated given)) _) _
          h8 in
      subst Honest (ok-injective last) (
        counts-Honest given (require-eq-ok _ _ counted) (require-eq-ok _ _ avoided)
          (require-eq-ok _ _ invoked))

-- `ModelCallTelemetryRecord.to_dict`
unfoldable pub telemetry_to_dict : Telemetry Bool → Fields
telemetry_to_dict t = fields_of (
    ("schema", str "nexus.runtime.model_call_resolution_telemetry.v1")
    ∷ ("outcome", str t.outcome)
    ∷ ("resolution", str t.resolution)
    ∷ ("reason", str t.reason)
    ∷ ("resolver_id", str t.resolver_id)
    ∷ ("seam", str t.seam)
    ∷ ("structured_state_digest", str t.structured_state_digest)
    ∷ ("model_avoided", bool t.model_avoided)
    ∷ ("resolver_failure", failure_value t.resolver_failure)
    ∷ ("model_calls_required", int t.model_calls_required)
    ∷ ("model_calls_invoked", int t.model_calls_invoked)
    ∷ ("model_calls_avoided", int t.model_calls_avoided)
    ∷ ("model_calls_not_eliminated", bool t.model_calls_not_eliminated)
    ∷ [])
