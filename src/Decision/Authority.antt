-- ===== src/Decision/Authority.antt =====
-- execution_coordination/effect_authorization.py: what an external authority lets an attempt do.
pub mod Subset
pub mod Narrowing
pub mod Projection
pub mod Authorized
pub mod Derived
mod Tests
use nexus_runtime.Prelude.{
  String, Bool, true, false, ◌&&◌, not, List, [], ◌∷◌, elem, Option, none, some, ◌==◌,
  if◌then◌else◌,
}
use nexus_runtime.Python.Value.{
  Value, null, bool, str, list, dict, Items, nil, cons, Fields, end, field, get, has, put, eq_text,
  same_keys, Runtime, fields_of, is_dict,
}
use nexus_runtime.Python.Equality.{eq_value}
use nexus_runtime.Python.Raise.{Result, ok, err, ◌>>=◌, ◌>>◌, require}
use nexus_runtime.Decision.Json.{required_text, normalize}
use Prim.Native.String.{◌++◌ as concat}

-- `_EFFECT_AUTHORIZATION_FIELDS`
abbrev pub authorization_fields : List String
authorization_fields =
    "schema" ∷ "authority_id" ∷ "authority_ref" ∷ "operation_id" ∷ "attempt_id" ∷ "repository"
    ∷ "source_revision" ∷ "base_revision" ∷ "workspace_id" ∷ "target_id" ∷ "expires_at" ∷ "effects"
    ∷ "authorization_hash" ∷ []

-- `_optional_text`
unfoldable pub optional_text : Value → String → Result String (Option String)
unfolding required_text
optional_text null name = ok none
optional_text v name = do s ← required_text v name; ok (some s)

-- `_normalize_effects`, entry by entry
unfoldable pub normalize_domains : Fields → String → Fields → Result String Fields
unfolding required_text normalize
normalize_domains end name built = ok built
normalize_domains (field k v fs) name built = do
  domain ← required_text (str k) (concat name ".domain")
  constraints ← normalize v (concat name (concat "." domain))
  normalize_domains fs name (put domain constraints built)

abbrev pub some_fields : Fields → Bool
some_fields end = false
some_fields (field k v fs) = true

-- `_normalize_effects`
unfoldable pub normalize_effects : Value → String → Result String Fields
unfolding normalize_domains
normalize_effects (dict fs) name = do
  require (some_fields fs) (concat name " must be a non-empty mapping")
  normalize_domains fs name end
normalize_effects _ name = err (concat name " must be a non-empty mapping")

-- Dates are Python's: what `datetime.fromisoformat` makes of a text (nothing, a date without a time
-- zone, or an instant, in UTC), and `now >= expiry`.
pub data Parsed (Instant : Type 0) : Type 0 where
  not_iso naive : Parsed Instant
  aware : Instant → Parsed Instant

abbrev pub instant_of : {I : Type 0} → Parsed I → Result String I
instant_of not_iso = err "expires_at must be ISO-8601"
instant_of naive = err "expires_at must include timezone"
instant_of (aware t) = ok t

pub record Calendar : Type 1 where
  pub Instant : Type 0
  pub from_iso : String → Parsed Instant
  pub reached : Instant → Instant → Bool

-- `EffectAuthorization`
pub record EffectAuthorization : Type 0 where
  pub authority_id : String
  pub authority_ref : String
  pub operation_id : String
  pub attempt_id : String
  pub repository : String
  pub effects : Fields
  pub source_revision : Option String
  pub base_revision : Option String
  pub workspace_id : Option String
  pub target_id : Option String
  pub expires_at : Option String
  pub authorization_hash : String

abbrev pub optional : Option String → Value
optional none = null
optional (some s) = str s

-- what the hash of an authorization is taken of: `to_dict` without the hash
abbrev pub authorized : EffectAuthorization → Fields
authorized a = fields_of (
    ("schema", str "nexus.runtime.effect_authorization.v1")
    ∷ ("authority_id", str a.authority_id)
    ∷ ("authority_ref", str a.authority_ref)
    ∷ ("operation_id", str a.operation_id)
    ∷ ("attempt_id", str a.attempt_id)
    ∷ ("repository", str a.repository)
    ∷ ("source_revision", optional a.source_revision)
    ∷ ("base_revision", optional a.base_revision)
    ∷ ("workspace_id", optional a.workspace_id)
    ∷ ("target_id", optional a.target_id)
    ∷ ("expires_at", optional a.expires_at)
    ∷ ("effects", dict a.effects)
    ∷ [])

-- `EffectAuthorization.to_dict`
abbrev pub authorization_to_dict : EffectAuthorization → Fields
authorization_to_dict a = put "authorization_hash" (str a.authorization_hash) (authorized a)

-- The texts of `assert_identity`; `none` is not compared.
pub record Identity : Type 0 where
  pub attempt : String
  pub operation : Option String
  pub in_repository : Option String
  pub source : Option String
  pub base : Option String
  pub workspace : Option String
  pub target : Option String

abbrev pub same_option : Option String → Option String → Bool
same_option none none = true
same_option (some s) (some t) = s == t
same_option _ _ = false

-- one round of the loop
abbrev pub check_field : String → Option String → Option String → Result String (Unit {0})
check_field name none own = ok tt
check_field name (some s) own =
    require (same_option own (some s)) (concat "effect authorization identity mismatch: " name)

-- `EffectAuthorization.assert_identity`
unfoldable pub assert_identity : EffectAuthorization → Identity → Result String (Unit {0})
assert_identity a i = do
  check_field "attempt_id" (some i.attempt) (some a.attempt_id)
  check_field "operation_id" i.operation (some a.operation_id)
  check_field "repository" i.in_repository (some a.repository)
  check_field "source_revision" i.source a.source_revision
  check_field "base_revision" i.base a.base_revision
  check_field "workspace_id" i.workspace a.workspace_id
  check_field "target_id" i.target a.target_id

-- `answer is True`
abbrev pub is_true : Value → Bool
is_true (bool b) = b
is_true _ = false

-- `EffectAuthorityPort.verify`, with what the host's verifier returns or raises
unfoldable pub verify_authority :
    (EffectAuthorization → Result String Value) → EffectAuthorization → Result String Bool
verify_authority verifier a = do
  answer ← verifier a
  require (is_true answer) "effect authorization authority rejected the authorization"
  ok true

module _ (rt : Runtime) (calendar : Calendar) where
  open calendar use {Instant, from_iso, reached}

  -- `_parse_expiry`
  unfoldable pub parse_expiry : String → Result String Instant
  parse_expiry text = instant_of (from_iso text)

  -- an expiry, where there is one, can be read
  abbrev pub check_expiry : Option String → Result String (Unit {0})
  unfolding parse_expiry
  check_expiry none = ok tt
  check_expiry (some text) = do parse_expiry text; ok tt

  -- `_content_hash` of the authorization
  abbrev pub hash_of : EffectAuthorization → String
  hash_of a = rt.digest (dict (authorized a))

  -- `EffectAuthorization.build`; the keyword arguments are the entries of a mapping, `None` where one
  -- is missing
  unfoldable pub build_authorization : Fields → Result String EffectAuthorization
  unfolding required_text optional_text normalize_effects parse_expiry
  build_authorization given = do
    authority_id ← required_text (get "authority_id" given) "authority_id"
    authority_ref ← required_text (get "authority_ref" given) "authority_ref"
    operation_id ← required_text (get "operation_id" given) "operation_id"
    attempt_id ← required_text (get "attempt_id" given) "attempt_id"
    repository ← required_text (get "repository" given) "repository"
    source_revision ← optional_text (get "source_revision" given) "source_revision"
    base_revision ← optional_text (get "base_revision" given) "base_revision"
    workspace_id ← optional_text (get "workspace_id" given) "workspace_id"
    target_id ← optional_text (get "target_id" given) "target_id"
    expires_at ← optional_text (get "expires_at" given) "expires_at"
    effects ← normalize_effects (get "effects" given) "effects"
    check_expiry expires_at
    let unsigned : EffectAuthorization = record {
      authority_id = authority_id;
      authority_ref = authority_ref;
      operation_id = operation_id;
      attempt_id = attempt_id;
      repository = repository;
      effects = effects;
      source_revision = source_revision;
      base_revision = base_revision;
      workspace_id = workspace_id;
      target_id = target_id;
      expires_at = expires_at;
      authorization_hash = "";
    }
    ok (record unsigned { authorization_hash = hash_of unsigned })

  -- `EffectAuthorization.from_mapping`
  unfoldable pub authorization_of : Value → Result String EffectAuthorization
  unfolding build_authorization required_text
  authorization_of (dict payload) = do
    require (same_keys authorization_fields payload) "effect authorization fields mismatch"
    require (eq_text (get "schema" payload) "nexus.runtime.effect_authorization.v1")
        "effect authorization schema mismatch"
    built ← build_authorization payload
    observed ← required_text (get "authorization_hash" payload) "authorization_hash"
    require (observed == built.authorization_hash) "effect authorization hash mismatch"
    ok built
  authorization_of _ = err "effect_authorization must be a mapping"

  -- `EffectAuthorization.assert_integrity`
  abbrev pub assert_integrity : EffectAuthorization → Result String (Unit {0})
  assert_integrity a =
      require (hash_of a == a.authorization_hash)
        "effect authorization content mutated after hashing"

  -- `EffectAuthorization.assert_fresh`, of the authorization's expiry
  unfoldable pub unexpired : Option String → Instant → Result String (Unit {0})
  unfolding parse_expiry
  unexpired none now = ok tt
  unexpired (some text) now = do
    expiry ← parse_expiry text
    require (not (reached now expiry)) "effect authorization expired"

  -- `EffectAuthorization.assert_fresh`
  abbrev pub assert_fresh : EffectAuthorization → Instant → Result String (Unit {0})
  unfolding unexpired
  assert_fresh a now = unexpired a.expires_at now
