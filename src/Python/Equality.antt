-- ===== src/Python/Equality.antt =====
-- Python's `==` on values: `True == 1`, and dictionaries are compared without their order.
use nexus_runtime.Prelude.{ℕ, suc, Bool, true, false, ◌&&◌, ◌≡◌, refl, eqb, ◌==◌}
use nexus_runtime.Prelude.Int.{ℤ, pos, eq_ℤ}
use nexus_runtime.Python.Value.{
  Value, null, bool, int, str, list, dict, object, Items, nil, cons, Fields, end, field, has, get,
}

abbrev pub number_of_bool : Bool → ℤ
number_of_bool true = pos 1
number_of_bool false = pos 0

abbrev pub size : Fields → ℕ
size end = 0
size (field k v fs) = suc (size fs)

unfoldable mutual
  pub eq_value : Value → Value → Bool
  eq_value null null = true
  eq_value (bool a) (bool b) = eq_ℤ (number_of_bool a) (number_of_bool b)
  eq_value (bool a) (int n) = eq_ℤ (number_of_bool a) n
  eq_value (int m) (bool b) = eq_ℤ m (number_of_bool b)
  eq_value (int m) (int n) = eq_ℤ m n
  eq_value (str s) (str t) = s == t
  eq_value (list xs) (list ys) = eq_items xs ys
  eq_value (dict fs) (dict gs) = eqb (size fs) (size gs) && sub_fields fs gs
  eq_value (object m) (object n) = eqb m n
  eq_value _ _ = false

  pub eq_items : Items → Items → Bool
  eq_items nil nil = true
  eq_items (cons v xs) (cons w ys) = eq_value v w && eq_items xs ys
  eq_items _ _ = false

  -- every entry of the first has an equal one in the second
  pub sub_fields : Fields → Fields → Bool
  sub_fields end gs = true
  sub_fields (field k v fs) gs = has k gs && eq_value v (get k gs) && sub_fields fs gs

bool_is_number : eq_value (bool true) (int (pos 1)) ≡ true
unfolding eq_value
bool_is_number = refl

order_is_ignored :
    eq_value
      (dict (field "a" null (field "b" null end)))
      (dict (field "b" null (field "a" null end)))
    ≡ true
unfolding eq_value
order_is_ignored = refl
