-- ===== src/ExecutionState/Json.antt =====
-- What a state is after it was written by `json.dump` with sorted keys and read again: the keys of each
-- dictionary are in order.
use nexus_runtime.Prelude.{
  String, true, false, ◌≡◌, refl, ◌∙◌, ◌==◌, ==→≡, eq_iff, Bool-cases, inl, inr, if◌then◌else◌,
  arith,
}
use nexus_runtime.Python.Text.{less}
use nexus_runtime.Python.TextOrder.{less_asym}
use nexus_runtime.Python.Value.{
  Value, null, bool, int, str, list, dict, object, Items, nil, cons, Fields, end, field, get,
}

-- a key stays in front of the keys that it does not follow
unfoldable pub place_field : String → Value → Fields → Fields
place_field k v end = field k v end
place_field k v (field j w fs) =
    if less j k then field j w (place_field k v fs) else field k v (field j w fs)

unfoldable mutual
  unfolding place_field

  pub sort_keys : Value → Value
  sort_keys (list vs) = list (sort_items vs)
  sort_keys (dict fs) = dict (sort_fields fs)
  sort_keys null = null
  sort_keys (bool b) = bool b
  sort_keys (int n) = int n
  sort_keys (str s) = str s
  sort_keys (object n) = object n

  pub sort_items : Items → Items
  sort_items nil = nil
  sort_items (cons v vs) = cons (sort_keys v) (sort_items vs)

  pub sort_fields : Fields → Fields
  sort_fields end = end
  sort_fields (field k v fs) = place_field k (sort_keys v) (sort_fields fs)

less_irrefl : (s : String) → less s s ≡ false
less_irrefl s = elim (Bool-cases (less s s)) [ inl h ↦ less_asym s s h | inr h ↦ h ]

-- a text before another one is another text
different : (i k : String) → less i k ≡ true → (i == k) ≡ false
different i k before = elim (Bool-cases (i == k)) [
  | inr other ↦ other
  | inl same ↦ absurd (cc (==→≡ i k same, before, less_irrefl k))
]

get-place_field :
    (j k : String) (v : Value) (fs : Fields)
    → get j (place_field k v fs) ≡ (if k == j then v else get j fs)
unfolding place_field
get-place_field j k v end = refl
get-place_field j k v (field i w fs) = elim (Bool-cases (less i k)) [
  | inr not_before ↦ rw not_before
  | inl before ↦ rw before (
      ground
        (arith, get-place_field j k v fs, eq_iff i j, eq_iff k j, eq_iff i k, different i k before))
]

-- A key has the value that it had, with its keys in order.
pub get-sort_fields : (j : String) (fs : Fields) → get j (sort_fields fs) ≡ sort_keys (get j fs)
unfolding sort_keys
get-sort_fields j end = refl
get-sort_fields j (field k v fs) =
    get-place_field j k (sort_keys v) (sort_fields fs) ∙ ground (arith, get-sort_fields j fs)
