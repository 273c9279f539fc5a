-- ===== src/Journal/Settle.antt =====
-- `transition` and `reconcile` of `EffectJournal` (kernel/events/effect_journal.py).
use nexus_runtime.Prelude.{String, Option, none, some, elem, lookup, insert, ◌==◌, if◌then◌else◌}
use nexus_runtime.Python.Value.{Value, null, str, eq_text, Runtime}
use nexus_runtime.Python.Equality.{eq_value}
use nexus_runtime.Python.Raise.{Result, ok, err, ◌>>=◌, ◌>>◌, require}
use nexus_runtime.Journal.Error.{Error, effect_journal_error, effect_identity_mismatch, class_name}
use nexus_runtime.Journal.Record.{Record, states, completed, safe_result, observed_result, sign}
use nexus_runtime.Journal.Read.{Records, EffectJournal}
use Prim.Native.String.{◌++◌ as concat}
use nexus_runtime.Journal.Store.{attempt, Action, write, mark_unknown, complete, locked}

-- `result is not None and _safe_result(result) != old["result"]` is refused
unfoldable pub same_result : Value → Record → Result Error (Unit {0})
same_result null old = ok tt
same_result result old = do
  observed ← safe_result result
  require (eq_value observed old.result) (effect_identity_mismatch "EFFECT_COMPLETED_CONFLICT")

module _ (rt : Runtime) (j : EffectJournal) where
  -- What `transition` makes of a record, or why it refuses
  unfoldable pub advance_record : String → Value → String → Record → Result Error (Option Record)
  advance_record state result reason old =
      if completed old
      then (do
        require (state == "COMPLETED") (effect_identity_mismatch "EFFECT_COMPLETED_IMMUTABLE")
        same_result result old
        ok none)
      else if state == "COMPLETED"
      then (do
        safe_result result
        ok (some (record (complete rt result old) { reason = str reason })))
      else ok (some (record old { state = str state; reason = str reason }))

  -- the record that `transition` returns, written where it is new
  abbrev pub commit : String → Records → Record → Option Record → Action Record
  commit effect_id records old none s = (ok old, s)
  commit effect_id records old (some r) s =
      (ok (sign rt r), write (insert effect_id (sign rt r) records) s)

  unfoldable pub transition_record :
      String → String → Value → String → Records → Option Record → Action Record
  transition_record effect_id state result reason records none s =
      (err (effect_journal_error "EFFECT_NOT_RESERVED"), s)
  transition_record effect_id state result reason records (some old) s =
      attempt (advance_record state result reason old) (commit effect_id records old) s

  unfoldable pub transition : String → String → Value → String → Action Record
  transition effect_id state result reason s =
      if elem state states
      then locked rt j
          (λ records.
            transition_record effect_id state result reason records (lookup effect_id records))
          s
      else (err (effect_journal_error "EFFECT_STATE_INVALID"), s)

  -- how `reconcile` and `execute` settle an effect that is not completed
  abbrev pub settle : String → Record → Records → Result Error Value → Action Value
  settle effect_id r records (ok result) s =
      (ok result, write (insert effect_id (complete rt result r) records) s)
  settle effect_id r records (err e) s =
      let why = concat "reconcile_failed:" (class_name e) in
      (ok null, write (insert effect_id (mark_unknown rt why r) records) s)

  -- a completed effect is only compared with what is observed
  abbrev pub confirm : Record → Value → Result Error Value
  confirm r observed = do
    result ← observed_result r observed
    require (eq_text r.result_digest (rt.digest result))
        (effect_identity_mismatch "EFFECT_COMPLETED_CONFLICT")
    ok result

  unfoldable pub reconcile_record : String → Value → Records → Option Record → Action Value
  reconcile_record effect_id observed records none s =
      (err (effect_journal_error "EFFECT_NOT_RESERVED"), s)
  reconcile_record effect_id observed records (some r) s =
      if completed r
      then (confirm r observed, s)
      else settle effect_id r records (observed_result r observed) s

  unfoldable pub reconcile : String → Value → Action Value
  reconcile effect_id observed s =
      locked rt j
        (λ records. reconcile_record effect_id observed records (lookup effect_id records)) s
