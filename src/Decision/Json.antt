-- ===== src/Decision/Json.antt =====
-- execution_coordination/model_call_resolution.py, bounded_decision.py and effect_authorization.py: the
-- checks on JSON values that they have in common, with the same messages.
pub mod Normal
pub mod Tokens
use Prim.Native.String.{◌++◌ as concat}
use nexus_runtime.Prelude.{String, Bool, List, [], ◌∷◌, any, Option, none, some, if◌then◌else◌}
use nexus_runtime.Python.Text.{strip, is_blank, contains}
use nexus_runtime.Python.Value.{
  Value, str, list, dict, object, Items, nil, cons, Fields, end, field, put, Runtime,
}
use nexus_runtime.Python.Raise.{Result, ok, err, ◌>>=◌}

-- `_required_text`, `_text`
unfoldable pub required_text : Value → String → Result String String
unfolding is_blank
required_text (str s) name =
    if is_blank s then err (concat name " must be a non-empty string") else ok (strip s)
required_text _ name = err (concat name " must be a non-empty string")

-- the texts of a sequence
unfoldable pub texts_of : Items → String → Result String (List String)
unfolding required_text
texts_of nil name = ok []
texts_of (cons v vs) name = do t ← required_text v name; ts ← texts_of vs name; ok (t ∷ ts)

-- `_normalize_json_value`, `_json_value`; a dictionary is built entry by entry
unfoldable mutual
  unfolding required_text

  pub normalize : Value → String → Result String Value
  normalize (list vs) name = do items ← normalize_items vs name; ok (list items)
  normalize (dict fs) name = do fields ← normalize_fields fs name end; ok (dict fields)
  normalize (object n) name = err (concat name " contains unsupported JSON value")
  normalize v name = ok v

  pub normalize_items : Items → String → Result String Items
  normalize_items nil name = ok nil
  normalize_items (cons v vs) name = do
    item ← normalize v name
    items ← normalize_items vs name
    ok (cons item items)

  pub normalize_fields : Fields → String → Fields → Result String Fields
  normalize_fields end name built = ok built
  normalize_fields (field k v fs) name built = do
    key ← required_text (str k) (concat name ".key")
    item ← normalize v (concat name (concat "." k))
    normalize_fields fs name (put key item built)

module _ (rt : Runtime) (tokens : List String) where
  -- the key holds one of the tokens, in any case
  abbrev pub suspicious : String → Bool
  unfolding contains
  suspicious key = any (λ token. contains token (rt.lower key)) tokens

  -- `_envelope_carries_authorization`, `_contains_authority_key`: the first such key
  unfoldable pub authority_key : Fields → Option String
  unfolding contains
  authority_key end = none
  authority_key (field k v fs) = if suspicious k then some k else authority_key fs
