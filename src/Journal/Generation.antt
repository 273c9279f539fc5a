-- ===== src/Journal/Generation.antt =====
-- kernel/events/writer_generation.py: the generation manifest beside the event log. The file system
-- is the state of the manifest's path; the lock is held, or cannot be had.
pub mod Install
use nexus_runtime.Prelude.{
  ℕ, zero, suc, String, Bool, true, false, not, ◌&&◌, Option, none, some, List, [], ◌∷◌, ltb, leb,
  eqb, ◌==◌, if◌then◌else◌,
}
use nexus_runtime.Prelude.Int.{ℤ, pos, negsuc}
use nexus_runtime.Python.Text.{is_blank}
use nexus_runtime.Python.Value.{
  Value, null, bool, int, str, list, dict, object, Fields, end, field, has, get, eq_text, same_keys,
  positive_int, named, Runtime, fields_of,
}
use nexus_runtime.Python.Raise.{Result, ok, err, ◌>>=◌, ◌>>◌, require}
use nexus_runtime.Journal.Error.{Error, generation_error, generation_conflict, value_error}

-- `generation` is at least 1 and `writer_id` is not blank: see `make_generation`.
pub record EventWriterGeneration : Type 0 where
  pub generation : ℕ
  pub writer_id : String

abbrev pub or_raise {ℓ} : {A : Type ℓ} → Option A → Error → Result Error A
or_raise none e = err e
or_raise (some a) e = ok a

-- `EventWriterGeneration(generation, writer_id)`
unfoldable pub make_generation : Value → Value → Result Error EventWriterGeneration
unfolding named
make_generation generation writer_id = do
  n ← or_raise (positive_int generation) (value_error "generation must be a positive integer")
  w ← or_raise (named writer_id) (value_error "writer_id is required")
  ok (record { generation = n; writer_id = w })

-- `dataclass` equality
abbrev pub same_generation : EventWriterGeneration → EventWriterGeneration → Bool
same_generation a b = eqb a.generation b.generation && a.writer_id == b.writer_id

abbrev pub payload_of : Value → Value → Fields
payload_of generation writer_id = fields_of (
    ("schema", str "nexus.event_writer_generation.v1")
    ∷ ("store", str "event_log")
    ∷ ("event_log", str "event_log.jsonl")
    ∷ ("lock", str "event_log.lock")
    ∷ ("generation", generation)
    ∷ ("writer_id", writer_id)
    ∷ [])

abbrev pub payload_keys : List String
payload_keys = "schema" ∷ "store" ∷ "event_log" ∷ "lock" ∷ "generation" ∷ "writer_id" ∷ []

-- What `lstat`, `open` and `json.load` find at the manifest's path.
pub data ManifestFile : Type 0 where
  absent symlink irregular unreadable : ManifestFile
  document : Value → ManifestFile

malformed : Error
malformed = generation_error "GENERATION_MANIFEST_MALFORMED"

-- `expected_generation is None or` a positive integer
abbrev pub cas_token : Value → Result Error (Option ℕ)
cas_token null = ok none
cas_token v = do
  n ← or_raise (positive_int v) (generation_error "GENERATION_CAS_MALFORMED")
  ok (some n)

abbrev pub same_number : Option ℕ → Option EventWriterGeneration → Bool
same_number none none = true
same_number (some n) (some g) = eqb n g.generation
same_number _ _ = false

abbrev pub advances : EventWriterGeneration → Option EventWriterGeneration → Bool
advances g none = true
advances g (some c) = ltb c.generation g.generation

module _ (rt : Runtime) where
  -- `_validated`, on a dictionary
  unfoldable pub validated_fields : Fields → Result Error EventWriterGeneration
  unfolding malformed named
  validated_fields fs = do
    require
        (same_keys ("manifest_digest" ∷ payload_keys) fs
          && eq_text (get "schema" fs) "nexus.event_writer_generation.v1"
          && eq_text (get "store" fs) "event_log")
        malformed
    require
        (eq_text (get "event_log" fs) "event_log.jsonl" && eq_text (get "lock" fs) "event_log.lock")
        malformed
    n ← or_raise (positive_int (get "generation" fs)) malformed
    w ← or_raise (named (get "writer_id" fs)) malformed
    require
        (eq_text (get "manifest_digest" fs) (
          rt.ascii_digest (
            dict (
              fields_of (
                ("schema", get "schema" fs)
                ∷ ("store", get "store" fs)
                ∷ ("event_log", get "event_log" fs)
                ∷ ("lock", get "lock" fs)
                ∷ ("generation", get "generation" fs)
                ∷ ("writer_id", get "writer_id" fs)
                ∷ [])))))
        (generation_error "GENERATION_MANIFEST_TAMPERED")
    ok (record { generation = n; writer_id = w })

  unfoldable pub validated : Value → Result Error EventWriterGeneration
  unfolding validated_fields
  validated (dict fs) = validated_fields fs
  validated _ = err malformed

  unfoldable pub read_generation : ManifestFile → Result Error (Option EventWriterGeneration)
  unfolding validated
  read_generation ManifestFile.absent = ok none
  read_generation ManifestFile.symlink = err (generation_error "GENERATION_MANIFEST_SYMLINK")
  read_generation (ManifestFile.document v) = do g ← validated v; ok (some g)
  read_generation _ = err malformed

  -- the document that `install_generation` writes
  abbrev pub manifest_of : EventWriterGeneration → Value
  manifest_of g =
      let payload = payload_of (int (pos g.generation)) (str g.writer_id) in
      dict (field "manifest_digest" (str (rt.ascii_digest (dict payload))) payload)

  -- the checks of `install_generation` under the lock
  unfoldable pub may_install :
      EventWriterGeneration → Value → ManifestFile → Result Error (Unit {0})
  may_install g expected file = do
    token ← cas_token expected
    current ← read_generation file
    require (same_number token current) (generation_conflict "GENERATION_CAS_CONFLICT")
    require (advances g current) (generation_conflict "GENERATION_MUST_ADVANCE")

  abbrev pub installed :
      EventWriterGeneration
      → ManifestFile
      → Result Error (Unit {0})
      → Result Error EventWriterGeneration × ManifestFile
  installed g file (ok _) = (ok g, ManifestFile.document (manifest_of g))
  installed g file (err e) = (err e, file)

  -- `install_generation`, with the lock acquired
  unfoldable pub install_generation :
      EventWriterGeneration
      → Value
      → ManifestFile
      → Result Error EventWriterGeneration × ManifestFile
  install_generation g expected file = installed g file (may_install g expected file)
