-- ===== src/Python/Value.antt =====
-- The dynamic values of Python: JSON values with integers for numbers, and opaque objects. Floating
-- point numbers are left out, and so are mappings that are no dict or have a key that is not a text;
-- `object` stands for any other value, no mapping or list, that JSON cannot hold.
use nexus_runtime.Prelude.{
  ℕ, zero, String, Bool, true, false, ◌&&◌, ◌||◌, not, List, [], ◌∷◌, suc, Option, none, some, elem,
  ◌==◌, if◌then◌else◌,
}
use nexus_runtime.Prelude.Int.{ℤ, pos}
use nexus_runtime.Python.Text.{is_empty, is_blank}

mutual
  pub data Value : Type 0 where
    null : Value
    bool : Bool → Value
    int : ℤ → Value
    str : String → Value
    list : Items → Value
    dict : Fields → Value
    object : ℕ → Value

  pub data Items : Type 0 where
    nil : Items
    cons : Value → Items → Items

  pub data Fields : Type 0 where
    end : Fields
    field : String → Value → Fields → Fields

abbrev pub fields_of : List (String × Value) → Fields
fields_of [] = end
fields_of ((k, v) ∷ rest) = field k v (fields_of rest)

abbrev pub items_of : List String → Items
items_of [] = nil
items_of (s ∷ rest) = cons (str s) (items_of rest)

-- `k in d`
abbrev pub has : String → Fields → Bool
has k end = false
has k (field j v rest) = j == k || has k rest

-- `d.get(k)`; `None` where the key is missing
abbrev pub get : String → Fields → Value
get k end = null
get k (field j v rest) = if j == k then v else get k rest

-- `d[k] = v`: a key that is there keeps its place
abbrev pub put : String → Value → Fields → Fields
put k v end = field k v end
put k v (field j w rest) = if j == k then field j v rest else field j w (put k v rest)

-- every key of the dictionary is listed
abbrev pub keys_in : List String → Fields → Bool
keys_in ks end = true
keys_in ks (field k v rest) = elem k ks && keys_in ks rest

-- every listed key is in the dictionary: `set(ks) <= set(d)`
abbrev pub has_all : List String → Fields → Bool
has_all [] fs = true
has_all (k ∷ ks) fs = has k fs && has_all ks fs

-- `set(d) == set(ks)`
abbrev pub same_keys : List String → Fields → Bool
same_keys ks fs = has_all ks fs && keys_in ks fs

-- `bool(v)`
abbrev pub truthy : Value → Bool
truthy null = false
truthy (bool b) = b
truthy (int (pos zero)) = false
truthy (int _) = true
truthy (str s) = not (is_empty s)
truthy (list nil) = false
truthy (list _) = true
truthy (dict end) = false
truthy (dict _) = true
truthy (object _) = true

-- `v or d`
abbrev pub or_else : Value → Value → Value
or_else v d = if truthy v then v else d

-- `v is None`
abbrev pub is_null : Value → Bool
is_null null = true
is_null _ = false

-- `isinstance(v, str)`
abbrev pub is_str : Value → Bool
is_str (str s) = true
is_str _ = false

-- `isinstance(v, Mapping)`
abbrev pub is_dict : Value → Bool
is_dict (dict fs) = true
is_dict _ = false

-- `isinstance(v, str) and v != ""`
abbrev pub is_text : Value → Bool
is_text (str s) = not (is_empty s)
is_text _ = false

-- `isinstance(v, int) and not isinstance(v, bool) and v >= 1`
abbrev pub positive_int : Value → Option ℕ
positive_int (int (pos (suc n))) = some (suc n)
positive_int _ = none

-- `isinstance(v, str) and v.strip()`
unfoldable pub named : Value → Option String
named (str s) = if is_blank s then none else some s
named _ = none

-- `v == s` for a text `s`
abbrev pub eq_text : Value → String → Bool
eq_text (str t) s = t == s
eq_text _ s = false

-- `v` can be looked up in a set: lists and dictionaries raise `TypeError` there
abbrev pub hashable : Value → Bool
hashable (list _) = false
hashable (dict _) = false
hashable _ = true

-- What `json.dumps` accepts.
unfoldable mutual
  pub is_json : Value → Bool
  is_json (list xs) = is_json_items xs
  is_json (dict fs) = is_json_fields fs
  is_json (object n) = false
  is_json _ = true

  pub is_json_items : Items → Bool
  is_json_items nil = true
  is_json_items (cons v xs) = is_json v && is_json_items xs

  pub is_json_fields : Fields → Bool
  is_json_fields end = true
  is_json_fields (field k v fs) = is_json v && is_json_fields fs

-- What the code takes from Python's run time: the digest of a value's canonical JSON (`json.dumps`
-- with sorted keys, then SHA-256), with `ensure_ascii=False` and with the default, `str()` of numbers
-- and containers, `repr()`, and the case tables.
pub record Runtime : Type 0 where
  pub digest : Value → String
  pub ascii_digest : Value → String
  pub render : Value → String
  pub repr : Value → String
  pub upper : String → String
  pub lower : String → String

-- `str(v)`
abbrev pub to_text : Runtime → Value → String
to_text rt null = "None"
to_text rt (bool true) = "True"
to_text rt (bool false) = "False"
to_text rt (str s) = s
to_text rt v = rt.render v

-- `str(v or "")`
abbrev pub text_or_empty : Runtime → Value → String
text_or_empty rt v = if truthy v then to_text rt v else ""
