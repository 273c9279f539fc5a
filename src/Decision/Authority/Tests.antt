-- ===== src/Decision/Authority/Tests.antt =====
-- An authorization and its projections at concrete inputs.
use nexus_runtime.Prelude.{ℕ, String, true, false, ◌≡◌, refl, [], ◌∷◌, none, some, leb}
use nexus_runtime.Python.Text.{strip, is_blank}
use nexus_runtime.Python.Value.{Value, bool, str, list, dict, nil, cons, Fields, fields_of, Runtime}
use nexus_runtime.Python.Equality.{eq_value}
use nexus_runtime.Python.Order.{sorted_set}
use nexus_runtime.Python.Raise.{ok}
use nexus_runtime.Decision.Json.{required_text, texts_of, normalize}
use nexus_runtime.Decision.Json.Normal.{is_required}
use nexus_runtime.Decision.Authority.{
  aware, Calendar, EffectAuthorization, authorization_to_dict, build_authorization,
  authorization_of, optional_text, normalize_effects, normalize_domains, parse_expiry, unexpired,
}
use nexus_runtime.Decision.Authority.Subset.{is_subset}
use nexus_runtime.Decision.Authority.Narrowing.{find, FitsIn, is_subset-Within}
use nexus_runtime.Decision.Authority.Authorized.{HasPlainDigests, InForce, authorization_of-to_dict}
use nexus_runtime.Decision.Authority.Projection.{Projection, normalize_tools, build_projection}
use nexus_runtime.Decision.Authority.Derived.{
  asked, Derived, build_projection-Derived, build_projection-all,
}

abbrev plain : Runtime
plain = record {
  digest = λ v. "digest";
  ascii_digest = λ v. "digest";
  render = λ v. "?";
  repr = λ v. "?";
  upper = λ s. s;
  lower = λ s. s;
}

-- every date is day 10
abbrev days : Calendar
days = record { Instant = ℕ; from_iso = λ s. aware 10; reached = λ now expiry. leb expiry now }

abbrev json : Value → String
json (str s) = s
json _ = "?"

abbrev writes : String → Value
writes path = dict (fields_of (("write", list (cons (str path) nil)) ∷ []))

abbrev reads_and_writes : Fields
reads_and_writes = fields_of (
    (
      "fs",
      dict (
          fields_of
            (("read", bool true) ∷ ("write", list (cons (str "a") (cons (str "b") nil))) ∷ [])),
    )
    ∷ [])

abbrev only_writes : Fields
only_writes = fields_of (("fs", writes "b") ∷ [])

only_writes_within : is_subset json (dict only_writes) (dict reads_and_writes) ≡ true
unfolding is_subset
only_writes_within = refl

-- more than the ceiling is not within it
all_not_within : is_subset json (dict reads_and_writes) (dict only_writes) ≡ false
unfolding is_subset
all_not_within = refl

is_subset-Within_example :
    (allowed : Value) × (find ("fs" ∷ "write" ∷ []) (dict reads_and_writes) ≡ some allowed)
    × FitsIn json (list (cons (str "b") nil)) allowed
is_subset-Within_example =
    is_subset-Within json (dict only_writes) (dict reads_and_writes) only_writes_within
      ("fs" ∷ "write" ∷ []) (list (cons (str "b") nil)) refl

abbrev given : Fields
given = fields_of (
    ("authority_id", str " authority ")
    ∷ ("authority_ref", str "ref")
    ∷ ("operation_id", str "operation")
    ∷ ("attempt_id", str "attempt")
    ∷ ("repository", str "repository")
    ∷ ("expires_at", str "day 10")
    ∷ ("effects", dict reads_and_writes)
    ∷ [])

abbrev granted : EffectAuthorization
granted = record {
  authority_id = "authority";
  authority_ref = "ref";
  operation_id = "operation";
  attempt_id = "attempt";
  repository = "repository";
  effects = reads_and_writes;
  source_revision = none;
  base_revision = none;
  workspace_id = none;
  target_id = none;
  expires_at = some "day 10";
  authorization_hash = "digest";
}

granted_built : build_authorization plain days given ≡ ok granted
unfolding build_authorization required_text optional_text normalize_effects normalize_domains
    normalize parse_expiry strip is_blank
granted_built = refl

digest_plain : HasPlainDigests plain
unfolding strip is_blank
digest_plain v = refl

authorization_of-to_dict_example :
    authorization_of plain days (dict (authorization_to_dict granted)) ≡ ok granted
authorization_of-to_dict_example =
    authorization_of-to_dict plain days given granted digest_plain granted_built

abbrev tools : Value
tools = list (cons (str "write") nil)

tools_chosen : normalize_tools tools ≡ ok ("write" ∷ [])
unfolding normalize_tools texts_of sorted_set required_text strip is_blank
tools_chosen = refl

abbrev projection : Projection
projection = record {
  authorization_hash = "digest";
  operation_id = "operation";
  attempt_id = "attempt";
  provider = "provider";
  backend_id = "backend";
  selected_tools = "write" ∷ [];
  selected_effects = only_writes;
  projection_hash = "digest";
}

projection_built :
    build_projection plain days json granted 9 (asked "provider" "backend" tools only_writes)
    ≡ ok projection
unfolding build_projection unexpired parse_expiry is_subset eq_value normalize_tools
    normalize_effects normalize_domains normalize texts_of sorted_set required_text strip is_blank
projection_built = refl

build_projection-Derived_example : Derived plain days json granted 9 projection
build_projection-Derived_example =
    build_projection-Derived plain days json granted 9
      (asked "provider" "backend" tools only_writes) projection projection_built

still-InForce : InForce plain days granted 9
still-InForce text h = (10, refl, refl)

provider_plain : is_required "provider" ≡ true
unfolding strip is_blank
provider_plain = refl

backend_plain : is_required "backend" ≡ true
unfolding strip is_blank
backend_plain = refl

build_projection-all_example :
    (p : Projection) × (build_projection plain days json granted 9
        (asked "provider" "backend" tools reads_and_writes)
      ≡ ok p)
    × (p.selected_effects ≡ reads_and_writes)
    × (p.selected_tools ≡ "write" ∷ [])
build_projection-all_example =
    build_projection-all plain days json given granted 9 "provider" "backend" tools ("write" ∷ [])
      granted_built still-InForce provider_plain backend_plain tools_chosen
