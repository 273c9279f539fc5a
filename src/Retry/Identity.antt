-- ===== src/Retry/Identity.antt =====
-- task_retry/retry_identity.py: the identity of a retry, minted from a token.
pub mod Fresh
mod Tests
use Prim.Native.String.{◌++◌ as concat}
use nexus_runtime.Prelude.{
  ℕ, zero, suc, ◌-◌, max, String, Bool, true, false, ◌&&◌, not, if◌then◌else◌,
}
use nexus_runtime.Python.Text.{strip, is_empty, starts_with, contains}
use nexus_runtime.Python.Value.{Value, str, Fields, get, or_else, to_text, Runtime}
use nexus_runtime.Python.Raise.{Result, ok, err, ◌>>=◌, ◌>>◌, require}

-- `len(s)`
abbrev pub len : String → ℕ
len String.[] = 0
len (String.◌∷◌ c s) = suc (len s)

-- `s[:n]`
abbrev pub first : ℕ → String → String
first zero s = String.[]
first (suc n) String.[] = String.[]
first (suc n) (String.◌∷◌ c s) = String.◌∷◌ c (first n s)

-- `s.split(mark, 1)[0]`
abbrev pub up_to : String → String → String
up_to mark String.[] = String.[]
up_to mark (String.◌∷◌ c s) =
    let rest = up_to mark s in
    if starts_with mark (String.◌∷◌ c s) then String.[] else String.◌∷◌ c rest

-- `RetryIdentity`
pub record RetryIdentity : Type 0 where
  pub task_id : String
  pub attempt_id : String
  pub action_id : String
  pub idempotency_key : String

-- `_MAX_KEY_LENGTH`
abbrev pub max_key_length : ℕ
max_key_length = 256

-- A token is a text that is not empty and has no colon.
unfoldable pub token_of : Value → Result String String
unfolding contains
token_of (str t) =
    if not (is_empty t) && not (contains ":" t) then ok t else err "RETRY_TOKEN_INVALID"
token_of _ = err "RETRY_TOKEN_INVALID"

-- `f":retry-{token}"`
abbrev pub suffix_of : String → String
suffix_of token = concat ":retry-" token

-- the previous key without its suffix, cut so that the new suffix has room
abbrev pub key_of : String → String → String
key_of previous_key token =
    concat (first (max 1 (max_key_length - len (suffix_of token))) (up_to ":retry-" previous_key))
      (suffix_of token)

module _ (rt : Runtime) where
  abbrev pub task_id_of : Fields → Fields → String
  unfolding strip
  task_id_of state request =
      strip (to_text rt (or_else (or_else (get "task_id" state) (get "task_id" request)) (str "")))

  abbrev pub previous_key_of : Fields → Fields → String → String
  previous_key_of state request task_id = to_text rt (
      or_else (or_else (get "idempotency_key" state) (get "idempotency_key" request)) (str task_id))

  -- `mint_retry_identity`; an error is the message of a `ValueError`
  unfoldable pub mint_retry_identity : Fields → Fields → Value → Result String RetryIdentity
  unfolding token_of task_id_of
  mint_retry_identity state request given = do
    token ← token_of given
    let task_id : String = task_id_of state request
    require (not (is_empty task_id)) "RETRY_TASK_ID_MISSING"
    ok (record {
      task_id = task_id;
      attempt_id = concat "attempt-" token;
      action_id = concat "action-" token;
      idempotency_key = key_of (previous_key_of state request task_id) token;
    })
