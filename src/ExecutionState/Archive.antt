-- ===== src/ExecutionState/Archive.antt =====
-- execution_state/store.py: the archived attempts of a task, and the snapshot of its state.
use Prim.Native.String.{◌++◌ as concat}
use nexus_runtime.Prelude.{
  ℕ, String, Bool, false, ◌&&◌, ◌||◌, List, [], ◌∷◌, ◌++◌, Option, none, some, ◌==◌, ltb, filter,
  all, if◌then◌else◌,
}
use nexus_runtime.Python.Text.{less}
use nexus_runtime.Python.Value.{Fields, get, text_or_empty, Runtime}
use nexus_runtime.Python.Order.{sort}
use nexus_runtime.Python.Raise.{Result, ok, ◌>>=◌, ◌>>◌, require}
use nexus_runtime.ExecutionState.Ids.{StoreError, value_error, validate_task_id}
use nexus_runtime.ExecutionState.Store.{Archived, Disk, Layout, Checks, load_content, load_state}

-- the text is any text, then `suffix`
abbrev pub ends_with : String → String → Bool
ends_with suffix String.[] = suffix == String.[]
ends_with suffix (String.◌∷◌ c s) = suffix == String.◌∷◌ c s || ends_with suffix s

-- the text is `prefix`, any text, then `suffix`: a glob with one star
abbrev pub matches : String → String → String → Bool
matches String.[] suffix s = ends_with suffix s
matches (String.◌∷◌ p prefix) suffix String.[] = false
matches (String.◌∷◌ p prefix) suffix (String.◌∷◌ c s) =
    String.◌∷◌ p String.[] == String.◌∷◌ c String.[] && matches prefix suffix s

abbrev pub name_before : Archived → Archived → Bool
name_before a b = less a.file_name b.file_name

-- A state that was read from the archive, with what it is chosen by.
pub record Entry : Type 0 where
  pub updated_at : String
  pub modified : ℕ
  pub state : Fields

-- `(a.updated_at, a.mtime) > (b.updated_at, b.mtime)`
abbrev pub newer : Entry → Entry → Bool
newer a b =
    less b.updated_at a.updated_at || (b.updated_at == a.updated_at && ltb b.modified a.modified)

-- `max`, which keeps the first of several maximal items
unfoldable pub max_entry : Entry → List Entry → Entry
max_entry best [] = best
max_entry best (e ∷ rest) = max_entry (if newer e best then e else best) rest

-- `max` of the entries, if there are some
abbrev pub newest : List Entry → Option Entry
newest [] = none
newest (e ∷ rest) = some (max_entry e rest)

module _ (rt : Runtime) (layout : Layout) (checks : Checks) where
  -- the archived files of a task: the one with its name, then its attempts by name
  abbrev pub candidates_in : String → Disk → List Archived
  unfolding sort
  candidates_in task_id disk =
      filter (λ a. a.file_name == concat task_id ".json") disk.archive
      ++ sort name_before
          (filter (λ a. matches (concat task_id "--attempt-") ".json" a.file_name) disk.archive)

  abbrev pub is_contained : Archived → Bool
  is_contained a = layout.archive_contained a.file_name

  -- `archive_candidates`
  unfoldable pub archive_candidates : String → Disk → Result StoreError (List Archived)
  unfolding candidates_in validate_task_id
  archive_candidates task_id disk = do
    validate_task_id rt task_id
    require (all is_contained (candidates_in task_id disk))
        (value_error "path escapes configured state roots")
    ok (candidates_in task_id disk)

  -- an archived state with its key; a file that is there is always loaded as something
  abbrev pub entry_of : Archived → Option Fields → List Entry → List Entry
  entry_of a none rest = rest
  entry_of a (some state) rest =
      record {
        updated_at = text_or_empty rt (get "updated_at" state);
        modified = a.mtime;
        state = state;
      }
      ∷ rest

  unfoldable pub entries_of : String → List Archived → List Entry
  entries_of task_id [] = []
  entries_of task_id (a ∷ rest) =
      entry_of a
        (load_content rt layout checks task_id (layout.archive_file a.file_name) (some a.content))
        (entries_of task_id rest)

  abbrev pub state_of : Option Entry → Option Fields
  state_of none = none
  state_of (some e) = some e.state

  -- `latest_archive`, of which the state is what the code uses
  unfoldable pub latest_archive : String → Disk → Result StoreError (Option Fields)
  unfolding archive_candidates entries_of
  latest_archive task_id disk = do
    candidates ← archive_candidates task_id disk
    ok (state_of (newest (entries_of task_id candidates)))

  abbrev pub or_archived :
      Option Fields → Result StoreError (Option Fields) → Result StoreError (Option Fields)
  or_archived (some state) archived = ok (some state)
  or_archived none archived = archived

  -- `read_snapshot`
  unfoldable pub read_snapshot : String → Disk → Result StoreError (Option Fields)
  unfolding load_state latest_archive
  read_snapshot task_id disk = do
    active ← load_state rt layout checks task_id disk
    or_archived active (latest_archive task_id disk)
