-- ===== src/ExecutionState/Ids.antt =====
-- execution_state/store.py: which task ids may name a file (_validate_task_id).
use Prim.Native.Char.{code}
use Prim.Native.String.{◌++◌ as concat}
use nexus_runtime.Prelude.{ℕ, String, Bool, false, ◌||◌, not, ◌==◌, eqb}
use nexus_runtime.Python.Text.{is_blank, starts_with}
use nexus_runtime.Python.Value.{str, Runtime}
use nexus_runtime.Python.Raise.{Result, ◌>>◌, require}

-- The exceptions of the store: `ValueError` and `TypeError` with their messages, and what reading a state
-- that is to be changed raises.
pub data StoreError : Type 0 where
  value_error type_error : String → StoreError
  unreadable_state : String → StoreError

-- a character of the text has this code
abbrev pub has_code : ℕ → String → Bool
has_code n String.[] = false
has_code n (String.◌∷◌ c s) = eqb (code c) n || has_code n s

-- the second character is a colon
abbrev pub is_drive : String → Bool
is_drive (String.◌∷◌ c (String.◌∷◌ d s)) = eqb (code d) 58
is_drive _ = false

-- `/` and `\`
abbrev pub has_separator : String → Bool
has_separator s = has_code 47 s || has_code 92 s

-- `*`, `?`, `[` and `]`
abbrev pub has_glob : String → Bool
has_glob s = has_code 42 s || (has_code 63 s || (has_code 91 s || has_code 93 s))

module _ (rt : Runtime) where
  abbrev pub refuse_id : Bool → String → String → Result StoreError (Unit {0})
  refuse_id bad message task_id =
      require (not bad) (value_error (concat message (rt.repr (str task_id))))

  -- `_validate_task_id`, for a text; a path is absolute where it begins with `/`
  unfoldable pub validate_task_id : String → Result StoreError (Unit {0})
  unfolding is_blank
  validate_task_id task_id = do
    require (not (is_blank task_id)) (value_error "task_id must not be empty or whitespace")
    refuse_id (has_separator task_id) "task_id must not contain path separators: " task_id
    refuse_id (has_glob task_id) "task_id must not contain glob metacharacters: " task_id
    refuse_id (has_code 0 task_id) "task_id must not contain NUL bytes: " task_id
    refuse_id (task_id == "." || starts_with ".." task_id)
        "task_id must not contain directory traversal: " task_id
    refuse_id (starts_with "/" task_id || is_drive task_id)
        "task_id must not be an absolute or rooted path: " task_id
