-- ===== src/Decision/Authority/Projection.antt =====
-- execution_coordination/effect_authorization.py: ToolProjectionManifest, the part of an authorization
-- that a provider's tools are given.
use nexus_runtime.Prelude.{String, Bool, true, false, List, [], ◌∷◌, ◌==◌}
use nexus_runtime.Python.Value.{
  Value, str, list, dict, Fields, get, put, eq_text, same_keys, items_of, Runtime, fields_of,
}
use nexus_runtime.Python.Order.{sorted_set}
use nexus_runtime.Python.Raise.{Result, ok, err, ◌>>=◌, ◌>>◌, require}
use nexus_runtime.Decision.Json.{required_text, texts_of}
use nexus_runtime.Decision.Authority.{
  Calendar, EffectAuthorization, normalize_effects, assert_integrity, assert_fresh, unexpired,
}
use nexus_runtime.Decision.Authority.Subset.{is_subset}

-- `_TOOL_PROJECTION_FIELDS`
abbrev pub projection_fields : List String
projection_fields =
    "schema" ∷ "authorization_hash" ∷ "operation_id" ∷ "attempt_id" ∷ "provider" ∷ "backend_id"
    ∷ "selected_tools" ∷ "selected_effects" ∷ "authority_kind" ∷ "projection_hash" ∷ []

-- not `not tools`
abbrev pub not_empty : List String → Bool
not_empty [] = false
not_empty (s ∷ rest) = true

-- `_normalize_tools`
unfoldable pub normalize_tools : Value → Result String (List String)
unfolding texts_of sorted_set
normalize_tools (list vs) = do
  tools ← texts_of vs "selected_tools.item"
  require (not_empty (sorted_set tools)) "selected_tools must be non-empty"
  ok (sorted_set tools)
normalize_tools _ = err "selected_tools must be a sequence"

-- `ToolProjectionManifest`
pub record Projection : Type 0 where
  pub authorization_hash : String
  pub operation_id : String
  pub attempt_id : String
  pub provider : String
  pub backend_id : String
  pub selected_tools : List String
  pub selected_effects : Fields
  pub projection_hash : String

-- what the hash of a projection is taken of: `to_dict` without the hash
abbrev pub projected : Projection → Fields
projected p = fields_of (
    ("schema", str "nexus.runtime.tool_projection_manifest.v1")
    ∷ ("authorization_hash", str p.authorization_hash)
    ∷ ("operation_id", str p.operation_id)
    ∷ ("attempt_id", str p.attempt_id)
    ∷ ("provider", str p.provider)
    ∷ ("backend_id", str p.backend_id)
    ∷ ("selected_tools", list (items_of p.selected_tools))
    ∷ ("selected_effects", dict p.selected_effects)
    ∷ ("authority_kind", str "DERIVED_PROJECTION_ONLY")
    ∷ [])

-- `ToolProjectionManifest.to_dict`
abbrev pub projection_to_dict : Projection → Fields
projection_to_dict p = put "projection_hash" (str p.projection_hash) (projected p)

-- `json.dumps` and the dates are Python's.
module _ (rt : Runtime) (calendar : Calendar) (canonical_json : Value → String) where
  open calendar use {Instant}

  abbrev pub projection_hash_of : Projection → String
  projection_hash_of p = rt.digest (dict (projected p))

  -- `ToolProjectionManifest.build`, whose keyword arguments are the entries of a mapping
  unfoldable pub build_projection :
      EffectAuthorization → Instant → Fields → Result String Projection
  unfolding unexpired required_text normalize_tools normalize_effects is_subset
  build_projection a now given = do
    assert_integrity rt calendar a
    assert_fresh rt calendar a now
    provider ← required_text (get "provider" given) "provider"
    backend_id ← required_text (get "backend_id" given) "backend_id"
    tools ← normalize_tools (get "selected_tools" given)
    effects ← normalize_effects (get "selected_effects" given) "selected_effects"
    require (is_subset canonical_json (dict effects) (dict a.effects))
        "tool projection widens authorized effects"
    let unsigned : Projection = record {
      authorization_hash = a.authorization_hash;
      operation_id = a.operation_id;
      attempt_id = a.attempt_id;
      provider = provider;
      backend_id = backend_id;
      selected_tools = tools;
      selected_effects = effects;
      projection_hash = "";
    }
    ok (record unsigned { projection_hash = projection_hash_of unsigned })

  -- `ToolProjectionManifest.from_mapping`
  unfoldable pub projection_of : Value → EffectAuthorization → Instant → Result String Projection
  unfolding build_projection required_text
  projection_of (dict payload) a now = do
    require (same_keys projection_fields payload) "tool projection fields mismatch"
    require (eq_text (get "schema" payload) "nexus.runtime.tool_projection_manifest.v1")
        "tool projection schema mismatch"
    require (eq_text (get "authority_kind" payload) "DERIVED_PROJECTION_ONLY")
        "tool projection cannot become authority"
    require (eq_text (get "authorization_hash" payload) a.authorization_hash)
        "tool projection authorization hash mismatch"
    built ← build_projection a now payload
    require (eq_text (get "operation_id" payload) a.operation_id)
        "tool projection operation identity mismatch"
    require (eq_text (get "attempt_id" payload) a.attempt_id)
        "tool projection attempt identity mismatch"
    observed ← required_text (get "projection_hash" payload) "projection_hash"
    require (observed == built.projection_hash) "tool projection hash mismatch"
    ok built
  projection_of _ a now = err "tool projection manifest must be a mapping"
