-- ===== src/ExecutionState/Passes.antt =====
-- What the validator and the hook make of a state before it is written (execution_state/store.py,
-- `write_locked`).
use nexus_runtime.Prelude.{
  String, Bool, true, false, not, ◌≡◌, ◌≢◌, ◌⊎◌, inl, inr, refl, sym, subst, ap, Option, none, some,
  if◌then◌else◌,
}
use nexus_runtime.Python.Value.{Value, null, bool, int, str, list, dict, object, Fields, get}
use nexus_runtime.Python.Raise.{ok, require, >>=-eq-ok, require-eq-ok, ok-injective}
use nexus_runtime.ExecutionState.Store.{is_false, accepted, hooked, or_given}

-- What the validator, if it is used, makes of a state that it does not call invalid.
abbrev pub Validated : Bool → Option Fields → Fields → Fields → Type 0
Validated on answer given valid =
    ((on ≡ false) × (valid ≡ given))
    ⊎ ((on ≡ true) × (answer ≡ some valid) × (get "state_valid" valid ≢ bool false))

-- What the hook before a write, if there is one and it returns a state, makes of a state.
abbrev pub Hooked : Option (String → Fields → Option Fields) → String → Fields → Fields → Type 0
Hooked none task_id valid state = state ≡ valid
Hooked (some hook) task_id valid state =
    (hook task_id valid ≡ some state) ⊎ ((hook task_id valid ≡ none) × (state ≡ valid))

is_false-ne : (v : Value) → not (is_false v) ≡ true → v ≢ bool false
is_false-ne (bool false) h e = cc
is_false-ne v h e = cc (subst (λ x. not (is_false x) ≡ true) e h)

ne-is_false : (v : Value) → v ≢ bool false → not (is_false v) ≡ true
ne-is_false (bool false) h = absurd (h refl)
ne-is_false (bool true) h = refl
ne-is_false null h = refl
ne-is_false (int n) h = refl
ne-is_false (str s) h = refl
ne-is_false (list vs) h = refl
ne-is_false (dict fs) h = refl
ne-is_false (object n) h = refl

pub validated-ok :
    (on : Bool) (answer : Option Fields) (given valid : Fields)
    → (if on then accepted answer else ok given) ≡ ok valid
    → Validated on answer given valid
validated-ok false answer given valid h = inl (refl, ok-injective (sym h))
validated-ok true none given valid h = absurd (cc)
validated-ok true (some fs) given valid h =
    let (u, passed, h1) = >>=-eq-ok (require (not (is_false (get "state_valid" fs))) _) _ h in
    let same = ok-injective h1 in
    inr (
      refl,
      ap some same,
      subst (λ x. get "state_valid" x ≢ bool false) same
          (is_false-ne (get "state_valid" fs) (require-eq-ok _ _ passed)),
    )

pub ok-validated :
    (on : Bool) (answer : Option Fields) (given valid : Fields)
    → Validated on answer given valid
    → (if on then accepted answer else ok given) ≡ ok valid
ok-validated on answer given valid (inl (off, same)) = rw off (ap ok (sym same))
ok-validated on answer given valid (inr (is_on, answered, passes)) =
    rw is_on (rw answered (rw (ne-is_false (get "state_valid" valid) passes) refl))

pub hooked-Hooked :
    (o : Option (String → Fields → Option Fields)) (task_id : String) (valid : Fields)
    → Hooked o task_id valid (hooked o task_id valid)
hooked-Hooked none task_id valid = refl
hooked-Hooked (some hook) task_id valid = given_by (hook task_id valid)
  where
    given_by :
        (o : Option Fields)
        → (o ≡ some (or_given o valid)) ⊎ ((o ≡ none) × (or_given o valid ≡ valid))
    given_by none = inr (refl, refl)
    given_by (some state) = inl refl

pub Hooked-hooked :
    (o : Option (String → Fields → Option Fields)) (task_id : String) (valid state : Fields)
    → Hooked o task_id valid state
    → hooked o task_id valid ≡ state
Hooked-hooked none task_id valid state h = sym h
Hooked-hooked (some hook) task_id valid state (inl made) = rw made refl
Hooked-hooked (some hook) task_id valid state (inr (silent, same)) = rw silent (sym same)
