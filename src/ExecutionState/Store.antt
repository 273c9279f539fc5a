-- ===== src/ExecutionState/Store.antt =====
-- execution_state/store.py: ExecutionStateStore, one JSON document for each task.
use Prim.Native.String.{◌++◌ as concat}
use nexus_runtime.Prelude.{
  String, Bool, false, ◌&&◌, not, List, [], ◌∷◌, Option, none, some, if◌then◌else◌, ℕ, lookup,
  insert,
}
use nexus_runtime.Python.Text.{is_blank}
use nexus_runtime.Python.Value.{
  Value, bool, str, dict, Fields, end, field, get, put, eq_text, is_null, is_json_fields, fields_of,
  Runtime,
}
use nexus_runtime.Python.Raise.{Result, ok, err, ◌>>=◌, ◌>>◌, require}
use nexus_runtime.ExecutionState.Json.{sort_fields}
use nexus_runtime.ExecutionState.Ids.{
  StoreError, value_error, type_error, unreadable_state, validate_task_id,
}

-- What lies in a file: the JSON value that it decodes to, or the type of the error that reading raises.
pub data Content : Type 0 where
  parsed : Value → Content
  unreadable : String → Content

-- A file of the archive directory.
pub record Archived : Type 0 where
  pub file_name : String
  pub content : Content
  pub mtime : ℕ

-- The state directory, by task id, and the archive directory.
pub record Disk : Type 0 where
  pub active : List (String × Content)
  pub archive : List Archived

-- The texts of the paths, and whether a path resolves to one under the roots: the file system's part.
pub record Layout : Type 0 where
  pub state_file : String → String
  pub state_contained : String → Bool
  pub archive_file : String → String
  pub archive_contained : String → Bool

-- The functions and the flag that a store is made with.
pub record Checks : Type 0 where
  pub validator : String → Fields → String → Option Fields
  pub error_receipt : String → String → String → Fields
  pub before_write : Option (String → Fields → Option Fields)
  pub validate_writes : Bool

-- `_error_receipt`, for an error of this type
abbrev pub default_error_receipt : String → String → String → Fields
default_error_receipt task_id path error = fields_of (
    ("task_id", str task_id)
    ∷ ("status", str "BLOCKED_INVALID_STATE")
    ∷ ("state_valid", bool false)
    ∷ ("source_path", str path)
    ∷ ("error", str error)
    ∷ [])

-- `isinstance(v, str) and v.strip()`
abbrev pub is_status : Value → Bool
is_status (str s) = not (is_blank s)
is_status _ = false

-- what `_validate` makes of an invalid state
abbrev pub blocked_state : String → String → Fields
blocked_state task_id path = fields_of (
    ("task_id", str task_id)
    ∷ ("status", str "BLOCKED_INVALID_STATE")
    ∷ ("state_valid", bool false)
    ∷ ("source_path", str path)
    ∷ [])

-- `_validate`
unfoldable pub default_validate : String → Fields → String → Option Fields
default_validate task_id payload path =
    if eq_text (get "task_id" payload) task_id && is_status (get "status" payload)
    then some payload
    else some (blocked_state task_id path)

-- the value of a call, or the argument where it is `None`
abbrev pub or_given : Option Fields → Fields → Fields
or_given none given = given
or_given (some changed) given = changed

-- `{**current, **update}`
abbrev pub put_all : Fields → Fields → Fields
put_all end current = current
put_all (field k v update) current = put_all update (put k v current)

-- `v is False`
abbrev pub is_false : Value → Bool
is_false (bool b) = not b
is_false _ = false

-- A change of a state: a mapping, or a function that changes the state in place and returns a value.
pub data Update : Type 0 where
  merge : Fields → Update
  call : (Fields → Result StoreError (Fields × Value)) → Update

-- the changed state
abbrev pub updated : Update → Fields → Result StoreError Fields
updated (merge update) current = ok (put_all update current)
updated (call f) current = do
  outcome ← f current
  require (is_null outcome.1) (type_error "state mutator must mutate in place and return None")
  ok outcome.0

-- `read_raw` of what lies in a state file, which must be a mapping
abbrev pub raw_state : Content → Result StoreError Fields
raw_state (unreadable error) = err (unreadable_state error)
raw_state (parsed (dict fs)) = ok fs
raw_state (parsed _) = err (value_error "execution state must be an object")

-- the state that is read, changed
abbrev pub changed_content : Update → Option Content → Result StoreError (Option Fields)
changed_content update none = ok none
changed_content update (some content) = do
  current ← raw_state content
  state ← updated update current
  ok (some state)

-- the validator's answer, which must not say that the state is invalid
abbrev pub accepted : Option Fields → Result StoreError Fields
accepted none = err (value_error "execution state validation failed")
accepted (some checked) = do
  require (not (is_false (get "state_valid" checked)))
      (value_error "execution state validation failed")
  ok checked

-- the hook before a write, if there is one
abbrev pub hooked : Option (String → Fields → Option Fields) → String → Fields → Fields
hooked none task_id state = state
hooked (some hook) task_id state = or_given (hook task_id state) state

module _ (rt : Runtime) (layout : Layout) (checks : Checks) where
  -- what `load_path` makes of a file, if it is there
  abbrev pub load_content : String → String → Option Content → Option Fields
  load_content task_id path none = none
  load_content task_id path (some (unreadable error)) =
      some (checks.error_receipt task_id path error)
  load_content task_id path (some (parsed (dict fs))) =
      some (or_given (checks.validator task_id fs path) fs)
  load_content task_id path (some (parsed _)) =
      some (checks.error_receipt task_id path "ValueError")

  -- `state_path`, with the check that the path stays under the root
  unfoldable pub state_path : String → Result StoreError String
  unfolding validate_task_id
  state_path task_id = do
    validate_task_id rt task_id
    require (layout.state_contained task_id)
        (value_error (concat "path escapes configured state roots: " (layout.state_file task_id)))
    ok (layout.state_file task_id)

  -- `load_path` of a task's state file
  unfoldable pub load_state : String → Disk → Result StoreError (Option Fields)
  unfolding state_path
  load_state task_id disk = do
    path ← state_path task_id
    ok (load_content task_id path (lookup task_id disk.active))

  -- the state that passes the validator, if writes are validated
  abbrev pub checked : String → Fields → String → Result StoreError Fields
  checked task_id state path =
      if checks.validate_writes then accepted (checks.validator task_id state path) else ok state

  -- the state after the hook before a write
  abbrev pub transformed : String → Fields → Fields
  transformed task_id state = hooked checks.before_write task_id state

  -- what `write_locked` writes and returns
  unfoldable pub to_write : String → Fields → Result StoreError Fields
  unfolding state_path is_json_fields
  to_write task_id state = do
    path ← state_path task_id
    valid ← checked task_id state path
    let normalized : Fields = transformed task_id valid
    require (is_json_fields normalized) (type_error "Object is not JSON serializable")
    ok normalized

  -- the file is replaced by one with the state, its keys in order
  abbrev pub replaced : String → Fields → Disk → Disk
  replaced task_id state disk = record disk {
    active = insert task_id (parsed (dict (sort_fields state))) disk.active;
  }

  -- `write`, `write_locked`
  unfoldable pub write_state : String → Fields → Disk → Result StoreError Fields × Disk
  unfolding to_write
  write_state task_id state disk = elim (to_write task_id state) [
    | err e ↦ (err e, disk)
    | ok normalized ↦ (ok normalized, replaced task_id normalized disk)
  ]

  -- the state that a change of the task's state makes, if the task has one
  unfoldable pub changed_state : String → Update → Disk → Result StoreError (Option Fields)
  unfolding state_path lookup
  changed_state task_id update disk = do
    state_path task_id
    changed_content update (lookup task_id disk.active)

  -- the outcome of `write`, of a state that there is
  abbrev pub some_written :
      Result StoreError Fields × Disk → Result StoreError (Option Fields) × Disk
  some_written (ok state, disk) = (ok (some state), disk)
  some_written (err e, disk) = (err e, disk)

  -- `mutate`, `mutate_locked`; a task without a state is left without one
  unfoldable pub mutate_state : String → Update → Disk → Result StoreError (Option Fields) × Disk
  unfolding changed_state write_state
  mutate_state task_id update disk = elim (changed_state task_id update disk) [
    | err e ↦ (err e, disk)
    | ok none ↦ (ok none, disk)
    | ok (some state) ↦ some_written (write_state task_id state disk)
  ]
