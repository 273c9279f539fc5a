-- ===== src/Journal/Read.antt =====
-- Reading the journal file (kernel/events/effect_journal.py, `_read_locked`): every record is
-- checked, and the file is refused as a whole if one fails.
pub mod RoundTrip
use nexus_runtime.Prelude.{
  ℕ, String, Bool, true, false, ◌&&◌, not, List, [], ◌∷◌, ◌==◌, elem, leb, if◌then◌else◌, Option,
  none, some,
}
use nexus_runtime.Python.Value.{
  Value, null, int, str, list, dict, Fields, end, field, get, is_null, is_text, same_keys,
  positive_int, hashable, eq_text, Runtime, text_or_empty,
}
use nexus_runtime.Python.Raise.{Result, ok, err, ◌>>=◌, ◌>>◌, require}
use nexus_runtime.Journal.Error.{Error, effect_journal_error, type_error}
use nexus_runtime.Journal.Generation.{EventWriterGeneration, or_raise}
use nexus_runtime.Journal.Record.{
  Record, encode, decode, unsigned_fields, states, schema_name, completed, safe_result,
  digest_record, effect_id_of,
}

-- What `lstat`, `open` and `json.load` find at the journal's path.
pub data JournalFile : Type 0 where
  absent unsafe_path unreadable : JournalFile
  document : Value → JournalFile

abbrev pub Records : Type 0
Records = List (String × Record)

-- `EffectJournal`: the resolved project root and the writer's generation.
pub record EffectJournal : Type 0 where
  pub project_root : String
  pub generation : EventWriterGeneration

abbrev pub malformed : Error
malformed = effect_journal_error "EFFECT_JOURNAL_MALFORMED"

abbrev pub record_keys : List String
record_keys =
    "record_digest" ∷ "schema" ∷ "operation_id" ∷ "subject" ∷ "request_digest" ∷ "generation"
    ∷ "project_root" ∷ "effect_id" ∷ "state" ∷ "result" ∷ "result_digest" ∷ "reason" ∷ []

-- `record.get("state") not in _STATES`
abbrev pub known_state : Value → Bool
known_state (str s) = elem s states
known_state _ = false

-- `record_generation > self.generation.generation` is refused
abbrev pub not_later : EffectJournal → ℕ → Bool
not_later j n = leb n j.generation.generation

abbrev pub fits : EffectJournal → Option ℕ → Bool
fits j none = false
fits j (some n) = not_later j n

module _ (rt : Runtime) (j : EffectJournal) where
  -- the types and the bounds of a record's fields
  abbrev pub fields_ok : Record → Bool
  fields_ok r =
      eq_text r.schema schema_name
      && is_text r.subject
      && is_text r.request_digest
      && fits j (positive_int r.generation)

  -- the key, the record's name and its operation agree, and the project is this one
  abbrev pub named_by : String → Record → Bool
  named_by key r =
      eq_text r.effect_id key
      && key == effect_id_of (text_or_empty rt r.operation_id)
      && eq_text r.project_root j.project_root

  -- a completed record holds its result's digest, any other holds neither
  unfoldable pub check_result : Record → Result Error (Unit {0})
  check_result r =
      if completed r
      then (do
        safe_result r.result
        require (eq_text r.result_digest (rt.digest r.result))
            (effect_journal_error "EFFECT_RESULT_TAMPERED"))
      else require (is_null r.result && eq_text r.result_digest "") malformed

  unfoldable pub check_record : String → Record → Result Error (Unit {0})
  check_record key r = do
    require (fields_ok r) malformed
    require (named_by key r) (effect_journal_error "EFFECT_JOURNAL_ID_MISMATCH")
    check_result r
    require (eq_text r.record_digest (rt.digest (dict (unsigned_fields r))))
        (effect_journal_error "EFFECT_JOURNAL_TAMPERED")

  -- one entry of `data["records"]`
  unfoldable pub read_record : String → Value → Result Error Record
  read_record key (dict fs) = do
    require (hashable (get "state" fs)) (type_error "unhashable type")
    require (known_state (get "state" fs)) malformed
    require (same_keys record_keys fs) malformed
    check_record key (decode fs)
    ok (decode fs)
  read_record key _ = err malformed

  -- the loop over `data["records"].items()`
  unfoldable pub read_records : Fields → Result Error Records
  read_records end = ok []
  read_records (field key v rest) = do
    r ← read_record key v
    others ← read_records rest
    ok ((key, r) ∷ others)

  -- `data["records"]`, which must be a dictionary
  abbrev pub read_table : Value → Result Error Records
  read_table (dict records) = read_records records
  read_table _ = err malformed

  -- `_read_locked`
  unfoldable pub read_locked : JournalFile → Result Error Records
  read_locked JournalFile.absent = ok []
  read_locked JournalFile.unsafe_path = err (effect_journal_error "EFFECT_JOURNAL_UNSAFE_PATH")
  read_locked JournalFile.unreadable = err malformed
  read_locked (JournalFile.document (dict fs)) =
      if eq_text (get "schema" fs) schema_name then read_table (get "records" fs) else err malformed
  read_locked (JournalFile.document _) = err malformed

-- What `_write_locked` leaves to be loaded of these records. `json.dump` and `json.load` give a value with
-- text keys back, in the order of its keys, on which the digests and `==` do not depend.
abbrev pub encode_records : Records → Fields
encode_records [] = end
encode_records ((key, r) ∷ rest) = field key (encode r) (encode_records rest)

abbrev pub written : Records → JournalFile
written records =
    JournalFile.document (
      dict (field "schema" (str schema_name) (field "records" (dict (encode_records records)) end)))
