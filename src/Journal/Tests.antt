-- ===== src/Journal/Tests.antt =====
-- Runs of the journal and of the writer generation, and their theorems at concrete inputs.
use nexus_runtime.Prelude.{◌≤◌, ◌<◌, ◌≡◌, refl, none, some, List, [], ◌∷◌, arith, lookup, insert}
use nexus_runtime.Prelude.Int.{pos}
use nexus_runtime.Python.Text.{is_blank}
use nexus_runtime.Python.Value.{is_json, Value, null, int, str, dict, fields_of, Runtime}
use nexus_runtime.Python.Equality.{eq_value}
use nexus_runtime.Python.Raise.{ok, err}
use nexus_runtime.Journal.Error.{generation_conflict, raised}
use nexus_runtime.Journal.Generation.{
  may_install, EventWriterGeneration, ManifestFile, manifest_of, read_generation,
  install_generation,
}
use nexus_runtime.Journal.Generation.Install.{
  IsToken, Replaces, number, install_generation-ok, install_generation-one_winner, install_all,
  install_all-number_le,
}
use nexus_runtime.Journal.Record.{Record, operation_digest, digest_identity, safe_result}
use nexus_runtime.Journal.Read.{
  EffectJournal, Records, JournalFile, read_records, read_record, check_record, check_result,
  read_locked,
}
use nexus_runtime.Journal.Store.{
  EventStore, returned, exception, Callback, complete, locked, fresh_record, open_journal,
}
use nexus_runtime.Journal.Store.History.{Holds}
use nexus_runtime.Journal.Execute.{execute_record, start, execute, request_checked, begun_record}
use nexus_runtime.Journal.Execute.AtMostOnce.{Starts, execute-at_most_once}
use nexus_runtime.Journal.Execute.WriteAhead.{WriteAhead, execute-WriteAhead}
use nexus_runtime.Journal.Calls.{
  Call, execute_call, transition_call, after_all, journal_stays_readable, completed_is_final,
}

abbrev plain : Runtime
plain = record {
  digest = λ v. "digest";
  ascii_digest = λ v. "digest";
  render = λ v. "?";
  repr = λ v. "?";
  upper = λ s. s;
  lower = λ s. s;
}

abbrev first : EventWriterGeneration
first = record { generation = 1; writer_id = "writer-a" }

abbrev second : EventWriterGeneration
second = record { generation = 2; writer_id = "writer-b" }

first-IsToken : IsToken first
first-IsToken = record { positive = omega arith; has_writer = unfold is_blank in refl }

install_first : (install_generation plain first null ManifestFile.absent).0 ≡ ok first
unfolding install_generation may_install read_generation
install_first = refl

second-IsToken : IsToken second
second-IsToken = record { positive = omega arith; has_writer = unfold is_blank in refl }

abbrev journal : EffectJournal
journal = record { project_root = "/project"; generation = first }

abbrev fresh_store : EventStore
fresh_store = record {
  manifest = ManifestFile.document (manifest_of plain first);
  journal = JournalFile.absent;
  lock_fault = none;
}

abbrev identity : Value
identity = dict (
    fields_of (
      ("task_id", str "task-1")
      ∷ ("workspace_revision", str "rev")
      ∷ ("planner_decision_id", str "decision")
      ∷ ("action", str "apply")
      ∷ ("subject_revision", str "rev")
      ∷ ("request_digest", str "request")
      ∷ ("attempt", int (pos 1))
      ∷ []))

-- an effect that returns a result, and one that fails
abbrev succeed : Callback
succeed s = (returned (dict (fields_of (("status", str "done") ∷ []))), s)

abbrev crash : Callback
crash s = (exception "OSError", s)

abbrev subject : Value
subject = str "target"

abbrev request : Value
request = str "request"

started : 0 < journal.generation.generation
started = omega arith

identity-Starts : Starts plain journal started identity subject request fresh_store "digest" []
unfolding request_checked operation_digest digest_identity open_journal read_generation read_locked
    lookup is_json eq_value is_blank
identity-Starts = record { checked = refl; opened = refl; unreserved = refl; texts = refl }

run_succeeds :
    (execute plain journal identity subject request succeed none fresh_store).0
    ≡ ok (dict (fields_of (("status", str "done") ∷ [])))
unfolding execute locked execute_record start request_checked operation_digest digest_identity
    open_journal read_generation read_locked lookup is_json safe_result eq_value is_blank
run_succeeds = refl

run_crashes :
    (execute plain journal identity subject request crash none fresh_store).0
    ≡ err (raised "OSError")
unfolding execute locked execute_record start request_checked operation_digest digest_identity
    open_journal read_generation read_locked lookup is_json safe_result eq_value is_blank
run_crashes = refl

install_generation-ok_example :
    (first ≡ first)
    × Replaces plain first null ManifestFile.absent
    × (read_generation plain (install_generation plain first null ManifestFile.absent).1
        ≡ ok (some first))
install_generation-ok_example =
    install_generation-ok plain first first null ManifestFile.absent first-IsToken install_first

install_generation-one_winner_example :
    install_generation plain second null (install_generation plain first null ManifestFile.absent).1
    ≡ (
      err (generation_conflict "GENERATION_CAS_CONFLICT"),
      (install_generation plain first null ManifestFile.absent).1,
    )
install_generation-one_winner_example =
    install_generation-one_winner plain first second null ManifestFile.absent first-IsToken
      install_first

install_all-number_le_example :
    number plain ManifestFile.absent
    ≤ number plain
        (install_all plain ((first, null) ∷ (second, int (pos 1)) ∷ []) ManifestFile.absent)
install_all-number_le_example =
    install_all-number_le plain ((first, null) ∷ (second, int (pos 1)) ∷ []) ManifestFile.absent
      (first-IsToken, (second-IsToken, tt))

abbrev reserved : Record
reserved = fresh_record plain journal "digest" subject request

execute-WriteAhead_example :
    WriteAhead plain journal started "digest" subject request crash []
      (execute plain journal identity subject request crash none fresh_store)
execute-WriteAhead_example =
    execute-WriteAhead plain journal started identity subject request crash none fresh_store
      "digest" [] identity-Starts

-- a history: the effect completes, and later calls try to move its record
abbrev history : List Call
history =
    execute_call identity subject request succeed none
    ∷ transition_call "effect-digest" "PENDING" null "again"
    ∷ execute_call identity subject request crash none
    ∷ []

execute-at_most_once_example :
    let later =
      after_all plain journal history
        (execute plain journal identity subject request crash none fresh_store).1 in
    execute plain journal identity subject request succeed none later
    ≡ execute plain journal identity subject request crash none later
execute-at_most_once_example =
    execute-at_most_once plain journal started identity subject request crash none fresh_store
      "digest" [] identity-Starts history (tt, (tt, (tt, tt))) subject succeed crash none

journal_stays_readable_example :
    (left : Records) × (read_locked plain journal
        (after_all plain journal history fresh_store).journal
      ≡ ok left)
journal_stays_readable_example =
    journal_stays_readable plain journal started history fresh_store {records = []}
      (tt, (tt, (tt, tt))) (unfold read_locked in refl)

abbrev after_success : EventStore
after_success = (execute plain journal identity subject request succeed none fresh_store).1

completed_record : (r : Record) × Holds plain journal "effect-digest" r after_success
unfolding execute locked execute_record start request_checked operation_digest digest_identity
    open_journal read_generation read_locked read_records read_record check_record check_result
    lookup insert is_json eq_value is_blank safe_result
completed_record = (
  complete plain (dict (fields_of (("status", str "done") ∷ [])))
      (begun_record plain journal "digest" subject request),
  (_, refl, refl, refl),
)

completed_is_final_example :
    Holds plain journal "effect-digest" completed_record.0
      (after_all plain journal history after_success)
completed_is_final_example =
    completed_is_final plain journal started history after_success "effect-digest"
      completed_record.0 (tt, (tt, (tt, tt))) completed_record.1
