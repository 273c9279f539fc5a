-- ===== src/Journal/Store.antt =====
-- The operations of `EffectJournal` (kernel/events/effect_journal.py). Each is an action on the
-- event store: the manifest, the journal file and the lock. What was written before an exception
-- stays written, so the store comes back beside the exception too.
pub mod Readable
pub mod History
use nexus_runtime.Prelude.{◌≡◌, String, Bool, false, ◌&&◌, Option, none, some}
use nexus_runtime.Prelude.Int.{pos}
use nexus_runtime.Python.Value.{Value, null, int, str, dict, get, eq_text, Runtime}
use nexus_runtime.Python.Equality.{eq_value}
use nexus_runtime.Python.Raise.{Result, ok, err, ◌>>=◌, ◌>>◌, require}
use nexus_runtime.Journal.Error.{Error, effect_identity_mismatch, generation_error}
use nexus_runtime.Journal.Generation.{
  EventWriterGeneration, ManifestFile, same_generation, read_generation,
}
use nexus_runtime.Journal.Record.{Record, schema_name, sign, effect_id_of}
use nexus_runtime.Journal.Read.{JournalFile, Records, EffectJournal, read_locked, written}

pub record EventStore : Type 0 where
  pub manifest : ManifestFile
  pub journal : JournalFile
  -- why the lock cannot be had, where it cannot
  pub lock_fault : Option Error

abbrev pub Action : Type 0 → Type 0
Action A = EventStore → Result Error A × EventStore

-- How a caller's callback ends: `Exception` and the rest of `BaseException` are caught apart.
pub data Outcome : Type 0 where
  returned : Value → Outcome
  exception : String → Outcome
  interrupt : String → Outcome

-- A callback may itself change the store: the lock is reentrant.
abbrev pub Callback : Type 0
Callback = EventStore → Outcome × EventStore

-- A reconcile callback that only reads: it gives the store back as it got it.
abbrev pub OnlyReads : Option (Record → Callback) → Type 0
OnlyReads none = Unit
OnlyReads (some callback) = (r : Record) (s : EventStore) → (callback r s).1 ≡ s

-- `_write_locked`
abbrev pub write : Records → EventStore → EventStore
write records s = record s { journal = written records }

abbrev pub fail {ℓ} : {A : Type ℓ} → Error → EventStore → Result Error A × EventStore
fail e s = (err e, s)

abbrev pub is_current : EffectJournal → Option EventWriterGeneration → Bool
is_current j none = false
is_current j (some g) = same_generation g j.generation

-- the record was reserved for this operation, subject and request by this generation
abbrev pub bound_to : EffectJournal → String → Value → Value → Record → Bool
bound_to j op subject request_digest r =
    eq_text r.operation_id op
    && eq_value r.subject subject
    && eq_value r.request_digest request_digest
    && eq_value r.generation (int (pos j.generation.generation))

abbrev pub mismatch : Error
mismatch = effect_identity_mismatch "EFFECT_IDENTITY_MISMATCH"

-- `identity.get("request_digest") != request_digest` is refused
abbrev pub same_request : Value → Value → Bool
same_request (dict fs) request_digest = eq_value (get "request_digest" fs) request_digest
same_request _ request_digest = false

-- the state of a record after an uncertain effect, and after a completed one
abbrev pub or_fault : Option Error → Result Error (Unit {0})
or_fault none = ok tt
or_fault (some e) = err e

-- an action that goes on from a checked value; a failed check changes nothing
abbrev pub attempt : {A B : Type 0} → Result Error A → (A → Action B) → Action B
attempt (ok a) f s = f a s
attempt (err e) f s = (err e, s)

module _ (rt : Runtime) where
  abbrev pub mark_unknown : String → Record → Record
  mark_unknown why r = sign rt (record r { state = str "UNKNOWN"; reason = str why })

  abbrev pub complete : Value → Record → Record
  complete result r = sign rt (record r {
    state = str "COMPLETED";
    result = result;
    result_digest = str (rt.digest result);
    reason = str "";
  })

module _ (rt : Runtime) (j : EffectJournal) where
  -- the guard of every operation: the lock, `_check_generation` and `_read_locked`
  unfoldable pub open_journal : EventStore → Result Error Records
  open_journal s = do
    or_fault s.lock_fault
    current ← read_generation rt s.manifest
    require (is_current j current) (generation_error "GENERATION_REQUIRED")
    read_locked rt j s.journal

  -- the record of `reserve` and `execute`
  abbrev pub fresh_record : String → Value → Value → Record
  fresh_record op subject request_digest = sign rt (record {
    schema = str schema_name;
    operation_id = str op;
    subject = subject;
    request_digest = request_digest;
    generation = int (pos j.generation.generation);
    project_root = str j.project_root;
    effect_id = str (effect_id_of op);
    state = str "PENDING";
    result = null;
    result_digest = str "";
    reason = str "";
    record_digest = null;
  })

  -- `f` under the lock, with the records that the file holds
  unfoldable pub locked : {A : Type 0} → (Records → Action A) → Action A
  locked f s = attempt (open_journal s) f s
