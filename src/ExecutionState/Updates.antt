-- ===== src/ExecutionState/Updates.antt =====
-- What an update makes of a state (execution_state/store.py, `mutate_locked`).
use nexus_runtime.Prelude.{
  String, Bool, true, ◌||◌, ◌≡◌, refl, subst, ap, ◌∙◌, ◌==◌, eq_iff, if◌then◌else◌, arith,
}
use nexus_runtime.Python.Value.{Value, null, Fields, end, field, get, has, put, is_null}
use nexus_runtime.Python.Raise.{ok, require, >>=-eq-ok, require-eq-ok, ok-injective}
use nexus_runtime.ExecutionState.Store.{Update, merge, call, put_all, updated}

-- The value that a key has after an update, if it had this value before.
abbrev pub latest : String → Fields → Value → Value
latest key end before = before
latest key (field k v update) before = latest key update (if k == key then v else before)

-- The changed state holds the update's values, and those of the current one where the update has
-- none; or it is what the function made of the current one, without returning a value.
abbrev pub Updates : Update → Fields → Fields → Type 0
Updates (merge update) current changed =
    (key : String)
    → (get key changed ≡ latest key update (get key current))
      × (has key changed ≡ (has key update || has key current))
Updates (call f) current changed = f current ≡ ok (changed, null)

get-put :
    (key k : String) (v : Value) (fs : Fields)
    → get key (put k v fs) ≡ (if k == key then v else get key fs)
get-put key k v end = refl
get-put key k v (field j w fs) =
    ground (arith, get-put key k v fs, eq_iff j k, eq_iff j key, eq_iff k key)

has-put :
    (key k : String) (v : Value) (fs : Fields) → has key (put k v fs) ≡ ((k == key) || has key fs)
has-put key k v end = refl
has-put key k v (field j w fs) =
    ground (arith, has-put key k v fs, eq_iff j k, eq_iff j key, eq_iff k key)

or_swap : (a b c : Bool) → (a || (b || c)) ≡ ((b || a) || c)
or_swap a b c = ground arith

put_all-Updates :
    (update current : Fields) (key : String)
    → (get key (put_all update current) ≡ latest key update (get key current))
      × (has key (put_all update current) ≡ (has key update || has key current))
put_all-Updates end current key = (refl, refl)
put_all-Updates (field k v update) current key =
    let (value, there) = put_all-Updates update (put k v current) key in
    (
      value ∙ ap (latest key update) (get-put key k v current),
      there
          ∙ ap (λ b. has key update || b) (has-put key k v current)
          ∙ or_swap (has key update) (k == key) (has key current),
    )

is_null→≡ : (v : Value) → is_null v ≡ true → v ≡ null
is_null→≡ null h = refl
is_null→≡ _ h = absurd (cc)

pub updated-Updates :
    (update : Update) (current : Fields) {changed : Fields}
    → updated update current ≡ ok changed
    → Updates update current changed
updated-Updates (merge update) current h =
    subst (Updates (merge update) current) (ok-injective h) (put_all-Updates update current)
updated-Updates (call f) current {changed} h =
    let ((state, answer), made, h1) = >>=-eq-ok (f current) _ h in
    let (u, silent, h2) = >>=-eq-ok (require (is_null answer) _) _ h1 in
    made
    ∙ ap (λ (a : Value). ok (state, a)) (is_null→≡ answer (require-eq-ok (is_null answer) _ silent))
    ∙ ap (λ (s : Fields). ok (s, null)) (ok-injective h2)
