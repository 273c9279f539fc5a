-- ===== src/Journal/Execute.antt =====
-- `execute` of `EffectJournal` (kernel/events/effect_journal.py).
pub mod Changes
pub mod AtMostOnce
pub mod WriteAhead
use nexus_runtime.Prelude.{String, ◌&&◌, not, Option, none, some, lookup, insert, if◌then◌else◌}
use nexus_runtime.Python.Value.{Value, null, str, is_text, Runtime}
use nexus_runtime.Python.Raise.{Result, ok, err, ◌>>=◌, ◌>>◌, require}
use nexus_runtime.Journal.Error.{
  Error, effect_journal_error, effect_identity_mismatch, raised, class_name,
}
use nexus_runtime.Journal.Record.{
  Record, completed, safe_result, observed_result, sign, operation_digest, effect_id_of,
}
use nexus_runtime.Journal.Read.{Records, EffectJournal}
use Prim.Native.String.{◌++◌ as concat}
use nexus_runtime.Journal.Store.{
  attempt, EventStore, Action, Outcome, returned, exception, interrupt, Callback, write,
  mark_unknown, complete, fresh_record, bound_to, mismatch, locked, same_request,
}
use nexus_runtime.Journal.Settle.{settle}

module _ (rt : Runtime) (j : EffectJournal) where
  -- what `execute` takes from the reconcile callback: an observation, or why there is none
  abbrev pub observation : Record → Value → Result Error Value
  observation r null = err (effect_journal_error "EFFECT_RECONCILE_UNAVAILABLE")
  observation r observed = observed_result r observed

  abbrev pub settle_outcome :
      String → Record → Records → Outcome × EventStore → Result Error Value × EventStore
  settle_outcome effect_id r records (returned observed, s) =
      settle rt j effect_id r records (observation r observed) s
  settle_outcome effect_id r records (exception name, s) =
      settle rt j effect_id r records (err (raised name)) s
  settle_outcome effect_id r records (interrupt name, s) = (err (raised name), s)

  abbrev pub call_reconcile : Option (Record → Callback) → Record → Callback
  call_reconcile none r s = (returned null, s)
  call_reconcile (some callback) r s = callback r s

  -- the result of the dispatched effect, or the exception that `execute` raises again
  abbrev pub dispatched : Outcome → Result Error Value
  dispatched (returned v) = do safe_result v; ok v
  dispatched (exception name) = err (raised name)
  dispatched (interrupt name) = err (raised name)

  abbrev pub record_dispatch :
      String → Record → Records → Result Error Value → EventStore → Result Error Value × EventStore
  record_dispatch effect_id r records (ok result) s =
      (ok result, write (insert effect_id (complete rt result r) records) s)
  record_dispatch effect_id r records (err e) s =
      let why = concat "dispatch_uncertain:" (class_name e) in
      (err e, write (insert effect_id (mark_unknown rt why r) records) s)

  -- the record of an effect that has been started
  abbrev pub begun_record : String → Value → Value → Record
  begun_record op subject request_digest =
      sign rt (record (fresh_record rt j op subject request_digest) { state = str "DISPATCHED" })

  -- the store in which the effect runs: the record was written as `PENDING`, then as `DISPATCHED`
  abbrev pub running : String → Value → Value → Records → EventStore → EventStore
  running op subject request_digest records s =
      write (insert (effect_id_of op) (begun_record op subject request_digest) records)
        (write (insert (effect_id_of op) (fresh_record rt j op subject request_digest) records) s)

  -- the branch of `execute` that starts the effect, and writes once more how it ended
  unfoldable pub start : String → Value → Value → Callback → Records → Action Value
  start op subject request_digest dispatch records s =
      let (outcome, after) = dispatch (running op subject request_digest records s) in
      record_dispatch (effect_id_of op) (begun_record op subject request_digest) records
        (dispatched outcome) after

  unfoldable pub execute_record :
      String
      → Value
      → Value
      → Callback
      → Option (Record → Callback)
      → Records
      → Option Record
      → Action Value
  execute_record op subject request_digest dispatch reconcile records none s =
      if is_text subject && is_text request_digest
      then start op subject request_digest dispatch records s
      else (err (effect_journal_error "EFFECT_BINDING_REQUIRED"), s)
  execute_record op subject request_digest dispatch reconcile records (some existing) s =
      if not (bound_to j op subject request_digest existing)
      then (err mismatch, s)
      else if completed existing
      then (ok existing.result, s)
      else settle_outcome (effect_id_of op) existing records (call_reconcile reconcile existing s)

  -- the checks of `execute` before it takes the lock
  unfoldable pub request_checked : Value → Value → Result Error String
  request_checked identity request_digest = do
    op ← operation_digest rt identity
    require (same_request identity request_digest)
        (effect_identity_mismatch "EFFECT_REQUEST_DIGEST_MISMATCH")
    ok op

  unfoldable pub execute :
      Value → Value → Value → Callback → Option (Record → Callback) → Action Value
  execute identity subject request_digest dispatch reconcile =
      attempt (request_checked identity request_digest) (λ op. locked rt j (λ records.
        execute_record op subject request_digest dispatch reconcile records
          (lookup (effect_id_of op) records)))
