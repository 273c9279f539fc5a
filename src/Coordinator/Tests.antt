-- ===== src/Coordinator/Tests.antt =====
-- The gate on effects, and the escalation of a task, at concrete inputs.
use nexus_runtime.Prelude.{ℕ, String, true, false, ◌≡◌, refl, [], ◌∷◌, none, some, leb, ◌==◌}
use nexus_runtime.Python.Text.{strip, is_blank, contains}
use nexus_runtime.Python.Value.{
  Value, null, bool, str, list, nil, cons, dict, Fields, end, put, get, fields_of, Runtime,
}
use nexus_runtime.Python.Raise.{ok}
use nexus_runtime.Decision.Json.{required_text, normalize}
use nexus_runtime.Decision.Authority.{
  aware, Calendar, EffectAuthorization, authorization_to_dict, authorization_of,
  build_authorization, optional_text, normalize_effects, normalize_domains, parse_expiry, unexpired,
  assert_identity, verify_authority,
}
use nexus_runtime.Coordinator.Effects.{
  StatePort, Settings, request_identity_value, requested_authorization, durable_authorization,
  bind_authorization, verify_effect_authority, ensure_effect_authorization, ensure_tool_projection,
}
use nexus_runtime.Coordinator.Effects.Gated.{Gated, ensure_effect_authorization-Gated}
use nexus_runtime.Coordinator.Effects.Projected.{Projected, ensure_tool_projection-Projected}
use nexus_runtime.Coordinator.Escalation.{
  Receipt, decide_after, failure_is_deterministic, next_ready_provider,
}
use nexus_runtime.Coordinator.Escalation.Bounded.{Escalates, decide_after-Escalates}
use nexus_runtime.Coordinator.Escalation.Ready.{Searches, next_ready_provider-Searches}

abbrev plain : Runtime
plain = record {
  digest = λ v. "digest";
  ascii_digest = λ v. "digest";
  render = λ v. "?";
  repr = λ v. "?";
  upper = λ s. s;
  lower = λ s. s;
}

abbrev days : Calendar
days = record { Instant = ℕ; from_iso = λ s. aware 10; reached = λ now expiry. leb expiry now }

-- the state is the one document of the task
abbrev memory : StatePort Fields
memory = record {
  mutate_metadata = λ task new w. (
    ok tt,
    put "effect_authorization" (get "effect_authorization" new)
        (put "effect_authorization_hash" (get "effect_authorization_hash" new) w),
  );
  read_snapshot = λ task w. some w;
}

abbrev settings : Settings
settings = record { effect_authority = some (λ a. ok (bool true)); require_effect_authority = true }

abbrev granted : EffectAuthorization
granted = record {
  authority_id = "authority";
  authority_ref = "ref";
  operation_id = "operation";
  attempt_id = "attempt";
  repository = "repository";
  effects = fields_of (("fs", bool true) ∷ []);
  source_revision = none;
  base_revision = none;
  workspace_id = none;
  target_id = none;
  expires_at = none;
  authorization_hash = "digest";
}

abbrev request : Fields
request = fields_of (
    ("operation_id", str "operation")
    ∷ ("repository", str "repository")
    ∷ ("effect_authorization", dict (authorization_to_dict granted))
    ∷ [])

abbrev bound : Fields
bound = fields_of (
    ("effect_authorization_hash", str "digest")
    ∷ ("effect_authorization", dict (authorization_to_dict granted))
    ∷ [])

gate_passed :
    ensure_effect_authorization plain days memory "task" settings "attempt" request end true 1 2 end
    ≡ (ok (bound, some granted), bound)
unfolding ensure_effect_authorization requested_authorization bind_authorization
    durable_authorization verify_effect_authority verify_authority request_identity_value
    authorization_of build_authorization assert_identity unexpired parse_expiry optional_text
    normalize_effects normalize_domains normalize required_text strip is_blank
gate_passed = refl

ensure_effect_authorization-Gated_example :
    Gated plain days memory "task" settings "attempt" request end true 1 2 end (
      ensure_effect_authorization plain days memory "task" settings "attempt" request end true 1 2
        end)
ensure_effect_authorization-Gated_example =
    ensure_effect_authorization-Gated plain days memory "task" settings "attempt" request end true 1
      2 end

abbrev json : Value → String
json (str s) = s
json _ = "?"

abbrev tools_asked : Fields
tools_asked = fields_of (
    (
      "tool_projection_requests",
      dict (
          fields_of (
            (
              "worker",
              dict (
                  fields_of (
                    ("backend_id", str "backend")
                    ∷ ("selected_tools", list (cons (str "edit") nil))
                    ∷ ("selected_effects", dict granted.effects)
                    ∷ [])),
            )
            ∷ [])),
    )
    ∷ [])

ensure_tool_projection-Projected_example :
    Projected plain days json memory "task" tools_asked bound
      (some granted)
      "worker"
      true
      1
      2
      3
      bound
      (ensure_tool_projection plain days memory "task" json tools_asked bound
        (some granted)
        "worker"
        true
        1
        2
        3
        bound)
ensure_tool_projection-Projected_example =
    ensure_tool_projection-Projected plain days json memory "task" tools_asked bound (some granted)
      "worker" true 1 2 3 bound

abbrev failed : String → Receipt
failed name = record {
  provider = str name;
  outcome = str "FAILED";
  evidence_complete = bool false;
  timed_out = bool false;
  failure_reason = str "no answer";
  commit_created = null;
  merge_performed = null;
  push_performed = null;
}

escalates :
    (decide_after plain ("cheap" ∷ "strong" ∷ []) (failed "cheap") ("cheap" ∷ [])).action
    ≡ "ESCALATE"
unfolding decide_after failure_is_deterministic contains
escalates = refl

decide_after-Escalates_example :
    (p : String) × ((decide_after plain
        ("cheap" ∷ "strong" ∷ [])
        (failed "cheap")
        ("cheap" ∷ [])).next_provider
      ≡ some p)
    × Escalates plain ("cheap" ∷ "strong" ∷ []) (failed "cheap") ("cheap" ∷ []) p
decide_after-Escalates_example =
    decide_after-Escalates plain ("cheap" ∷ "strong" ∷ []) (failed "cheap") ("cheap" ∷ []) escalates

-- the first provider was tried, the second is not ready
next_ready_provider-Searches_example :
    Searches
      (λ p. ok tt)
      (λ p. p == "d")
      ("b" ∷ [])
      ("b" ∷ "c" ∷ "d" ∷ [])
      (next_ready_provider (λ p. ok tt) (λ p. p == "d") ("b" ∷ "c" ∷ "d" ∷ []) ("b" ∷ []))
next_ready_provider-Searches_example =
    next_ready_provider-Searches (λ p. ok tt) (λ p. p == "d") ("b" ∷ []) ("b" ∷ "c" ∷ "d" ∷ [])
