-- ===== src/Coordinator/Effects.antt =====
-- execution_coordination/coordinator.py: the gates on effects, _ensure_effect_authorization and
-- _ensure_tool_projection.
pub mod Gated
pub mod Projected
use Prim.Native.String.{◌++◌ as concat}
use nexus_runtime.Prelude.{
  String, Bool, true, false, ◌||◌, not, List, [], ◌∷◌, Option, none, some, ◌==◌, if◌then◌else◌,
}
use nexus_runtime.Python.Text.{strip, is_blank}
use nexus_runtime.Python.Value.{
  Value, str, dict, Fields, end, get, has, put, truthy, is_null, eq_text, fields_of, Runtime,
}
use nexus_runtime.Python.Raise.{Result, ok, err, ◌>>=◌, ◌>>◌, require}
use nexus_runtime.Decision.Authority.{
  Calendar, EffectAuthorization, authorization_to_dict, authorization_of, assert_fresh, unexpired,
  Identity, assert_identity, verify_authority,
}
use nexus_runtime.Decision.Authority.Projection.{
  Projection, projection_to_dict, build_projection, projection_of,
}

-- `MissingExecutionBindingError`, and what the state port raises.
pub data GateError : Type 0 where
  missing_binding : String → GateError
  port_error : String → GateError

-- `except EffectAuthorizationError as exc: raise MissingExecutionBindingError(str(exc))`
abbrev pub rebound {ℓ} : {A : Type ℓ} → Result String A → Result GateError A
rebound (ok a) = ok a
rebound (err message) = err (missing_binding message)

-- The two calls of `ExecutionStatePort` that the gates make. `read_snapshot` may find nothing.
pub record StatePort (World : Type 0) : Type 0 where
  pub mutate_metadata : String → Fields → World → Result String (Unit {0}) × World
  pub read_snapshot : String → World → Option Fields

-- `read_snapshot(task_id) or {}`
abbrev pub or_empty : Option Fields → Fields
or_empty none = end
or_empty (some fs) = fs

abbrev pub as_dict : Value → String → Result GateError Fields
as_dict (dict fs) message = ok fs
as_dict _ message = err (missing_binding message)

-- `dict(v) if isinstance(v, Mapping) else {}`
abbrev pub fields_in : Value → Fields
fields_in (dict fs) = fs
fields_in _ = end

abbrev pub needed {ℓ} : {A : Type ℓ} → Option A → String → Result GateError A
needed (some a) message = ok a
needed none message = err (missing_binding message)

stripped_text : Value → Option String
unfolding strip is_blank
stripped_text (str s) = if is_blank s then none else some (strip s)
stripped_text _ = none

-- `_request_identity_value`
unfoldable pub request_identity_value : Fields → String → Option String
unfolding stripped_text
request_identity_value request key = stripped_text (get key request)

-- `_effect_authorization_requested`
abbrev pub effect_authorization_requested : Fields → Fields → Bool
effect_authorization_requested request state =
    truthy (get "effect_authorization_required" request)
    || (has "effect_authorization" request
        || (has "tool_projection_requests" request || has "effect_authorization" state))

-- the coordinator's own settings
pub record Settings : Type 0 where
  pub effect_authority : Option (EffectAuthorization → Result String Value)
  pub require_effect_authority : Bool

-- the port's answer, where there is a port
abbrev pub asked_of :
    Option (EffectAuthorization → Result String Value)
    → Bool
    → EffectAuthorization
    → Result GateError (Unit {0})
unfolding verify_authority
asked_of none required a = require (not required) (
    missing_binding
      "effect authorization authority not verified: no effect authority port configured")
asked_of (some verifier) required a = elim (verify_authority verifier a) [
  | err message ↦
      err (missing_binding (concat "effect authorization authority not verified: " message))
  | ok accepted ↦
      require accepted
        (missing_binding "effect authorization authority not verified: port did not return True")
]

-- `_verify_effect_authority`
unfoldable pub verify_effect_authority :
    Settings → EffectAuthorization → Result GateError (Unit {0})
unfolding asked_of
verify_effect_authority s a = asked_of s.effect_authority s.require_effect_authority a

module _ (rt : Runtime) (calendar : Calendar) where
  open calendar use {Instant}

  -- what the request must be for its authorization to hold
  abbrev pub identity_asked : Fields → String → String → String → Identity
  unfolding request_identity_value
  identity_asked request attempt_id operation_id repository = record {
    attempt = attempt_id;
    operation = some operation_id;
    in_repository = some repository;
    source = request_identity_value request "source_revision";
    base = request_identity_value request "base_revision";
    workspace = request_identity_value request "workspace_id";
    target = request_identity_value request "target_id";
  }

  -- the authorization that the request carries
  unfoldable pub requested_authorization :
      Settings → String → Fields → Instant → Result GateError EffectAuthorization
  unfolding request_identity_value authorization_of unexpired assert_identity
      verify_effect_authority
  requested_authorization settings attempt_id request now = do
    raw ←
        as_dict (get "effect_authorization" request)
          "effect authorization is required before runtime side effects"
    operation_id ←
        needed (request_identity_value request "operation_id")
          "effect authorization requires request operation_id and repository identity"
    repository ←
        needed (request_identity_value request "repository")
          "effect authorization requires request operation_id and repository identity"
    requested ← rebound (authorization_of rt calendar (dict raw))
    rebound (assert_fresh rt calendar requested now)
    rebound (assert_identity requested (identity_asked request attempt_id operation_id repository))
    verify_effect_authority settings requested
    ok requested

  -- the authorization that the state keeps is the one requested
  unfoldable pub durable_authorization :
      EffectAuthorization → Fields → Instant → Result GateError EffectAuthorization
  unfolding authorization_of unexpired
  durable_authorization requested state now = do
    raw ← as_dict (get "effect_authorization" state) "durable effect authorization is malformed"
    durable ← rebound (authorization_of rt calendar (dict raw))
    rebound (assert_fresh rt calendar durable now)
    require (durable.authorization_hash == requested.authorization_hash)
        (missing_binding "effect authorization substitution or widening detected")
    require (eq_text (get "effect_authorization_hash" state) durable.authorization_hash)
        (missing_binding "durable effect authorization hash binding mismatch")
    ok durable

  -- the provider's entry of `tool_projection_requests`, projected
  unfoldable pub requested_projection :
      (Value → String)
      → EffectAuthorization
      → Fields
      → String
      → Instant
      → Result GateError Projection
  unfolding build_projection
  requested_projection canonical_json a request provider now = do
    requests ←
        as_dict (get "tool_projection_requests" request)
          "tool_projection_requests are required for effect-authorized worker execution"
    raw ←
        as_dict (get provider requests)
          (concat "tool projection request missing for provider: " provider)
    rebound (
        build_projection rt calendar canonical_json a now (
          fields_of (
            ("provider", str provider)
            ∷ ("backend_id", get "backend_id" raw)
            ∷ ("selected_tools", get "selected_tools" raw)
            ∷ ("selected_effects", get "selected_effects" raw)
            ∷ [])))

  -- the projection that the state keeps is the one requested
  unfoldable pub durable_projection :
      (Value → String)
      → EffectAuthorization
      → Projection
      → Value
      → Instant
      → Result GateError Projection
  unfolding projection_of
  durable_projection canonical_json a projection existing now = do
    raw ← as_dict existing "durable tool projection is malformed"
    durable ← rebound (projection_of rt calendar canonical_json (dict raw) a now)
    require (durable.projection_hash == projection.projection_hash)
        (missing_binding "tool projection substitution or widening detected")
    ok durable

  -- the authorization is in force, and the request projects it for the provider
  unfoldable pub project :
      (Value → String)
      → EffectAuthorization
      → Fields
      → String
      → Instant
      → Instant
      → Result GateError Projection
  unfolding unexpired requested_projection
  project canonical_json a request provider now later = do
    rebound (assert_fresh rt calendar a now)
    requested_projection canonical_json a request provider later

  -- the projections that the state keeps, by provider
  abbrev pub manifests_of : Fields → Fields
  manifests_of state = fields_in (get "tool_projection_manifests" state)

  module _ {World : Type 0} (port : StatePort World) (task_id : String) where
    open port use {mutate_metadata, read_snapshot}

    -- The state is read again after it was written.
    abbrev pub snapshot : World → Fields
    snapshot w = or_empty (read_snapshot task_id w)

    abbrev pub Gate : Type 0 → Type 0
    Gate A = Result GateError (Fields × Option A) × World

    abbrev pub passed : {A : Type 0} → Fields → Result GateError A → World → Gate A
    passed state (ok a) w = (ok (state, some a), w)
    passed state (err e) w = (err e, w)

    -- `mutate_metadata`, and what follows it on the state that is left
    abbrev pub then_snapshot :
        {A : Type 0} → Result String (Unit {0}) × World → (Fields → World → Gate A) → Gate A
    then_snapshot (err message, w) next = (err (port_error message), w)
    then_snapshot (ok u, w) next = next (snapshot w) w

    -- the state keeps the authorization from its first use on
    unfoldable pub bind_authorization :
        EffectAuthorization → Fields → Bool → Instant → World → Gate EffectAuthorization
    unfolding durable_authorization
    bind_authorization requested state allow_create now w =
        if not (is_null (get "effect_authorization" state))
        then passed state (durable_authorization requested state now) w
        else if not allow_create
        then (
          err (
              missing_binding
                "durable effect authorization is missing after execution may have started"),
          w,
        )
        else then_snapshot
            (mutate_metadata task_id
              (fields_of (
                ("effect_authorization", dict (authorization_to_dict requested))
                ∷ ("effect_authorization_hash", str requested.authorization_hash)
                ∷ []))
              w)
            (λ state' w'. passed state' (durable_authorization requested state' now) w')

    -- `_ensure_effect_authorization`; the two instants are those of its two readings of the clock
    unfoldable pub ensure_effect_authorization :
        Settings
        → String
        → Fields
        → Fields
        → Bool
        → Instant
        → Instant
        → World
        → Gate EffectAuthorization
    unfolding requested_authorization bind_authorization
    ensure_effect_authorization settings attempt_id request state allow_create now later w =
        if not (settings.require_effect_authority || effect_authorization_requested request state)
        then (ok (state, none), w)
        else elim (requested_authorization settings attempt_id request now) [
          | err e ↦ (err e, w)
          | ok requested ↦ bind_authorization requested state allow_create later w
        ]

    -- the state keeps one projection for each provider from its first use on
    unfoldable pub bind_projection :
        (Value → String)
        → EffectAuthorization
        → Projection
        → Fields
        → String
        → Bool
        → Instant
        → World
        → Gate Projection
    unfolding durable_projection
    bind_projection canonical_json a projection state provider allow_create now w =
        let manifests : Fields = manifests_of state in
        if not (is_null (get provider manifests))
        then passed state
            (durable_projection canonical_json a projection (get provider manifests) now) w
        else if not allow_create
        then (
          err (
              missing_binding
                "durable tool projection is missing after execution may have started"),
          w,
        )
        else then_snapshot
            (mutate_metadata task_id
              (fields_of (
                (
                  "tool_projection_manifests",
                  dict (put provider (dict (projection_to_dict projection)) manifests),
                )
                ∷ []))
              w)
            (λ state' w'. (ok (state', some projection), w'))

    -- `_ensure_tool_projection`; the instants are those of its readings of the clock
    unfoldable pub ensure_tool_projection :
        (Value → String)
        → Fields
        → Fields
        → Option EffectAuthorization
        → String
        → Bool
        → Instant
        → Instant
        → Instant
        → World
        → Gate Projection
    unfolding project bind_projection
    ensure_tool_projection json request state none provider allow_create now later last w =
        (ok (state, none), w)
    ensure_tool_projection json request state (some a) provider allow_create now later last w =
        elim (project json a request provider now later) [
          | err e ↦ (err e, w)
          | ok projection ↦ bind_projection json a projection state provider allow_create last w
        ]
