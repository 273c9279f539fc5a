-- ===== src/ExecutionState/ReadBack.antt =====
-- A state that was written is read back (execution_state/store.py).
use nexus_runtime.Prelude.{
  String, Bool, true, false, not, ◌&&◌, ◌≡◌, refl, subst, ◌∙◌, none, some, lookup, lookup-insert,
  eq_refl, Bool-cases, inl, inr,
}
use nexus_runtime.Python.Value.{Value, null, dict, Fields, get, eq_text, is_json_fields, Runtime}
use nexus_runtime.Python.Raise.{Result, ok, err, require, >>=-eq-ok, ok-injective}
use nexus_runtime.ExecutionState.Json.{sort_keys, sort_fields, get-sort_fields}
use nexus_runtime.ExecutionState.Ids.{StoreError}
use nexus_runtime.ExecutionState.Store.{
  parsed, Disk, Layout, Checks, default_validate, blocked_state, default_error_receipt, is_status,
  is_false, accepted, checked, state_path, load_state, to_write, replaced, write_state,
}
use nexus_runtime.ExecutionState.Archive.{read_snapshot}

-- `ExecutionStateStore(state_dir)`
abbrev pub defaults : Checks
defaults = record {
  validator = λ task_id payload path. default_validate task_id payload path;
  error_receipt = default_error_receipt;
  before_write = none;
  validate_writes = true;
}

-- the state names its task and has a status
abbrev is_state : String → Fields → Bool
is_state task_id fs = eq_text (get "task_id" fs) task_id && is_status (get "status" fs)

eq_text-sort_keys : (v : Value) (s : String) → eq_text (sort_keys v) s ≡ eq_text v s
unfolding sort_keys
eq_text-sort_keys null s = refl
eq_text-sort_keys _ s = refl

is_status-sort_keys : (v : Value) → is_status (sort_keys v) ≡ is_status v
unfolding sort_keys
is_status-sort_keys null = refl
is_status-sort_keys _ = refl

is_state-sort_fields :
    (task_id : String) (fs : Fields) → is_state task_id (sort_fields fs) ≡ is_state task_id fs
is_state-sort_fields task_id fs = rw (
  get-sort_fields "task_id" fs,
  get-sort_fields "status" fs,
  eq_text-sort_keys (get "task_id" fs) task_id,
  is_status-sort_keys (get "status" fs),
)

validated_state :
    (task_id : String) (fs : Fields) (path : String)
    → is_state task_id fs ≡ true
    → default_validate task_id fs path ≡ some fs
unfolding default_validate
validated_state task_id fs path h = rw h

refused_state :
    (task_id : String) (fs : Fields) (path : String)
    → is_state task_id fs ≡ false
    → default_validate task_id fs path ≡ some (blocked_state task_id path)
unfolding default_validate
refused_state task_id fs path h = rw h

accepted_state :
    (task_id : String) (fs : Fields) (path : String) {valid : Fields}
    → accepted (default_validate task_id fs path) ≡ ok valid
    → (is_state task_id fs ≡ true) × (fs ≡ valid)
accepted_state task_id fs path {valid} h = elim (Bool-cases (is_state task_id fs)) [
  | inl holds ↦
      let passed : accepted (some fs) ≡ ok valid =
        subst (λ o. accepted o ≡ ok valid) (validated_state task_id fs path holds) h in
      let (u, _, same) = >>=-eq-ok (require (not (is_false (get "state_valid" fs))) _) _ passed in
      (holds, ok-injective same)
  | inr fails ↦
      absurd (cc (subst (λ o. accepted o ≡ ok valid) (refused_state task_id fs path fails) h))
]

module _ (rt : Runtime) (layout : Layout) (task_id : String) where
  -- what a write of the default store says of what it wrote
  written_state :
      (state : Fields) {normalized : Fields}
      → to_write rt layout defaults task_id state ≡ ok normalized
      → (path : String) × (state_path rt layout defaults task_id ≡ ok path)
        × (is_state task_id normalized ≡ true)
  unfolding to_write
  written_state state h =
      let (path, at, h1) = >>=-eq-ok (state_path rt layout defaults task_id) _ h in
      let (valid, passed, h2) = >>=-eq-ok (checked rt layout defaults task_id state path) _ h1 in
      let (u, json, h3) = >>=-eq-ok (require (is_json_fields valid) _) _ h2 in
      let (holds, same) = accepted_state task_id state path passed in
      (path, at, subst (λ x. is_state task_id x ≡ true) (same ∙ ok-injective h3) holds)

  -- the outcome of a write, from what is to be written
  abbrev outcome : Result StoreError Fields → Disk → Result StoreError Fields × Disk
  outcome r disk = elim r [
    | err e ↦ (err e, disk)
    | ok normalized ↦ (ok normalized, replaced rt layout defaults task_id normalized disk)
  ]

  -- a valid state that lies in the task's file is the snapshot
  snapshot_of_state :
      (fs : Fields) (disk : Disk) {path : String}
      → state_path rt layout defaults task_id ≡ ok path
      → is_state task_id fs ≡ true
      → lookup task_id disk.active ≡ some (parsed (dict fs))
      → read_snapshot rt layout defaults task_id disk ≡ ok (some fs)
  unfolding read_snapshot load_state
  snapshot_of_state fs disk {path} at holds found =
      rw (at, found, validated_state task_id fs path holds)

  snapshot_after :
      (state normalized : Fields) (disk : Disk) (r : Result StoreError Fields)
      → to_write rt layout defaults task_id state ≡ r
      → (outcome r disk).0 ≡ ok normalized
      → read_snapshot rt layout defaults task_id (outcome r disk).1
        ≡ ok (some (sort_fields normalized))
  snapshot_after state normalized disk (err e) h done = absurd (cc)
  snapshot_after state normalized disk (ok n) h done =
      let same : n ≡ normalized = ok-injective done in
      let (path, at, holds) = written_state state h in
      subst
        (λ x.
          read_snapshot rt layout defaults task_id (outcome (ok n) disk).1
          ≡ ok (some (sort_fields x)))
        same
        (snapshot_of_state (sort_fields n) (replaced rt layout defaults task_id n disk) at
          (is_state-sort_fields task_id n ∙ holds)
          (lookup-insert task_id task_id (parsed (dict (sort_fields n))) disk.active
            ∙ rw (eq_refl task_id)))

  -- After a write of the default store that ends well, the snapshot of the task is the state that the
  -- write returns, with its keys in order.
  pub write_state-read_snapshot :
      (state normalized : Fields) (disk : Disk)
      → (write_state rt layout defaults task_id state disk).0 ≡ ok normalized
      → read_snapshot rt layout defaults task_id
          (write_state rt layout defaults task_id state disk).1
        ≡ ok (some (sort_fields normalized))
  unfolding write_state
  write_state-read_snapshot state normalized disk h =
      snapshot_after state normalized disk (to_write rt layout defaults task_id state) refl h
