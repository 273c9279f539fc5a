-- ===== src/Decision/Authority/Subset.antt =====
-- execution_coordination/effect_authorization.py: `_is_subset`, and what it says of every path.
use nexus_runtime.Prelude.{String, Bool, true, false, ◌&&◌, List, [], ◌∷◌, elem}
use nexus_runtime.Python.Value.{
  Value, list, dict, Items, nil, cons, Fields, end, field, get, has, is_dict,
}
use nexus_runtime.Python.Equality.{eq_value}

abbrev pub entries : Value → Fields
entries (dict fs) = fs
entries _ = end

abbrev pub is_list : Value → Bool
is_list (list vs) = true
is_list _ = false

abbrev pub items : Value → Items
items (list vs) = vs
items _ = nil

-- every text is listed
abbrev pub all_in : List String → List String → Bool
all_in [] ts = true
all_in (s ∷ ss) ts = elem s ts && all_in ss ts

-- The canonical JSON of a value is `json.dumps`'s.
module _ (canonical_json : Value → String) where
  abbrev pub canonical_items : Items → List String
  canonical_items nil = []
  canonical_items (cons v vs) = canonical_json v ∷ canonical_items vs

  -- `_is_subset`
  unfoldable mutual
    unfolding eq_value

    pub is_subset : Value → Value → Bool
    is_subset (dict fs) ceiling = is_dict ceiling && subset_fields fs (entries ceiling)
    is_subset (list vs) ceiling =
        is_list ceiling && all_in (canonical_items vs) (canonical_items (items ceiling))
    is_subset v ceiling = eq_value v ceiling

    pub subset_fields : Fields → Fields → Bool
    subset_fields end gs = true
    subset_fields (field k v fs) gs = (has k gs && is_subset v (get k gs)) && subset_fields fs gs
