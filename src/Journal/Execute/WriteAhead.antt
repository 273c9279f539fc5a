-- ===== src/Journal/Execute/WriteAhead.antt =====
-- An effect is started only after its record has been written, and how it ended is written
-- (kernel/events/effect_journal.py, `execute`).
use nexus_runtime.Prelude.{
  String, true, false, ◌≡◌, refl, ◌<◌, ◌&&◌, ◌==◌, Option, some, lookup, insert, lookup-insert,
  All-insert, subst, sym, ◌∙◌, ap, eq_refl, &&-true,
}
use nexus_runtime.Prelude.Int.{pos}
use nexus_runtime.Python.Value.{Value, null, int, str, Runtime, is_text}
use nexus_runtime.Python.Raise.{Result, ok, err, ◌>>◌}
use nexus_runtime.Journal.Error.{Error, raised}
use nexus_runtime.Journal.Record.{Record, completed, safe_result, effect_id_of}
use nexus_runtime.Journal.Read.{EffectJournal, JournalFile, Records, read_locked, written}
use nexus_runtime.Journal.Read.RoundTrip.{read_locked-AllReadable, read_locked-written, IsReadable}
use nexus_runtime.Journal.Store.{
  EventStore, Callback, Outcome, returned, exception, interrupt, complete, mark_unknown,
  open_journal,
}
use nexus_runtime.Journal.Store.Readable.{complete-IsReadable, restate-IsReadable}
use nexus_runtime.Journal.Store.History.{open_journal-read}
use nexus_runtime.Journal.Changes.{safe_result-ok}
use nexus_runtime.Journal.Execute.{
  execute, start, running, begun_record, record_dispatch, dispatched,
}
use nexus_runtime.Journal.Execute.Changes.{begun_record-IsReadable}
use nexus_runtime.Journal.Execute.AtMostOnce.{Starts, execute-start, read-written}

module _ (rt : Runtime) (j : EffectJournal) (started : 0 < j.generation.generation) where
  -- What the record `r` of an effect says after the effect ended so, and what is returned or raised.
  abbrev pub EndsSafely : Result Error Value → Value → Result Error Value → Record → Type 0
  EndsSafely (ok w) v res r = (res ≡ ok v) × (r.state ≡ str "COMPLETED") × (r.result ≡ v)
  EndsSafely (err e) v res r = (res ≡ err e) × (r.state ≡ str "UNKNOWN") × (r.result ≡ null)

  abbrev pub Ends : Outcome → Result Error Value → Record → Type 0
  Ends (returned v) res r = EndsSafely (safe_result v) v res r
  Ends (exception name) res r =
      (res ≡ err (raised name)) × (r.state ≡ str "UNKNOWN") × (r.result ≡ null)
  Ends (interrupt name) res r =
      (res ≡ err (raised name)) × (r.state ≡ str "UNKNOWN") × (r.result ≡ null)

  -- A record is written for the ended effect that the reader accepts.
  abbrev Settled :
      String
      → Records
      → (Result Error Value → Record → Type 0)
      → Result Error Value × EventStore
      → Type 0
  Settled key records Says (res, t) =
      (x : Record) × IsReadable rt j key x
      × (t.journal ≡ written (insert key x records))
      × Says res x

  module _ (key : String) (r : Record) (records : Records) (t : EventStore)
      (readable : IsReadable rt j key r) (open_ : completed r ≡ false)
      (no_result : r.result ≡ null) where
    failed-Settled :
        (e : Error)
        → Settled key records
            (λ res x. (res ≡ err e) × (x.state ≡ str "UNKNOWN") × (x.result ≡ null))
            (record_dispatch rt j key r records (err e) t)
    failed-Settled e = (
      mark_unknown rt _ r,
      restate-IsReadable rt j key "UNKNOWN" _ r readable open_ refl refl,
      refl,
      (refl, refl, no_result),
    )

    returned-Settled :
        (v : Value) (m : Result Error Value)
        → safe_result v ≡ m
        → Settled key records (EndsSafely m v) (record_dispatch rt j key r records (m >> ok v) t)
    returned-Settled v (ok w) h = (
      complete rt v r,
      complete-IsReadable rt j key "" r v readable (h ∙ ap ok (safe_result-ok v w h)),
      refl,
      (refl, refl, refl),
    )
    returned-Settled v (err e) h = failed-Settled e

    record_dispatch-Settled :
        (o : Outcome)
        → Settled key records (Ends o) (record_dispatch rt j key r records (dispatched rt j o) t)
    record_dispatch-Settled (returned v) = returned-Settled v (safe_result v) refl
    record_dispatch-Settled (exception name) = failed-Settled (raised name)
    record_dispatch-Settled (interrupt name) = failed-Settled (raised name)

  -- The journal file holds this record of the operation, and every other record as before.
  pub record Logged (op : String) (records : Records) (file : JournalFile) (r : Record)
      : Type 0 where
    pub held : Records
    pub reads : read_locked rt j file ≡ ok held
    pub found : lookup (effect_id_of op) held ≡ some r
    pub others :
        (key : String) → (effect_id_of op == key) ≡ false → lookup key held ≡ lookup key records

  read-Logged :
      (s : EventStore) (op : String) (x : Record) (records : Records)
      → open_journal rt j s ≡ ok records
      → IsReadable rt j (effect_id_of op) x
      → Logged op records (written (insert (effect_id_of op) x records)) x
  read-Logged s op x records opened readable =
      let (held, reads, found) =
        read-written rt j started s (effect_id_of op) x records opened readable in
      record {
        held = insert (effect_id_of op) x records;
        reads = read_locked-written rt j (insert (effect_id_of op) x records) (
            All-insert (IsReadable rt j) (effect_id_of op) x records
              (read_locked-AllReadable rt j s.journal (open_journal-read rt j s opened)) readable);
        found =
            rw (lookup-insert (effect_id_of op) (effect_id_of op) x records)
              (rw (eq_refl (effect_id_of op)) refl);
        others = λ key other. rw (lookup-insert (effect_id_of op) key x records) (rw other refl);
      }

  -- A started effect: it runs in the store `during`, and `begun` and `ended` are its records there
  -- and after the call.
  pub record WriteAhead (op : String) (subject request_digest : Value) (dispatch : Callback)
      (records : Records) (result : Result Error Value × EventStore) : Type 0 where
    pub during : EventStore
    pub begun : Record
    pub logged : Logged op records during.journal begun
    pub is_dispatched : begun.state ≡ str "DISPATCHED"
    pub same_operation : begun.operation_id ≡ str op
    pub same_subject : begun.subject ≡ subject
    pub same_request : begun.request_digest ≡ request_digest
    pub same_generation : begun.generation ≡ int (pos j.generation.generation)
    pub ended : Record
    pub settled : Logged op records result.1.journal ended
    pub ends : Ends (dispatch during).0 result.0 ended

  start-WriteAhead :
      (op : String) (subject request_digest : Value) (dispatch : Callback) (s : EventStore)
      (records : Records)
      → open_journal rt j s ≡ ok records
      → (is_text subject && is_text request_digest) ≡ true
      → WriteAhead op subject request_digest dispatch records
          (start rt j op subject request_digest dispatch records s)
  unfolding start
  start-WriteAhead op subject request_digest dispatch s records opened texts =
      let (a, b) = &&-true (is_text subject) (is_text request_digest) texts in
      let begun : Record = begun_record rt j op subject request_digest in
      let readable : IsReadable rt j (effect_id_of op) begun =
        begun_record-IsReadable rt j started op subject request_digest a b in
      let run = dispatch (running rt j op subject request_digest records s) in
      let (x, accepted, same, ends) =
        record_dispatch-Settled (effect_id_of op) begun records run.1 readable refl refl run.0 in
      record {
        during = running rt j op subject request_digest records s;
        begun = begun;
        logged = read-Logged s op begun records opened readable;
        is_dispatched = refl;
        same_operation = refl;
        same_subject = refl;
        same_request = refl;
        same_generation = refl;
        ended = x;
        settled =
            subst (λ file. Logged op records file x) (sym same)
              (read-Logged s op x records opened accepted);
        ends = ends;
      }

  -- A call that finds no record of its effect runs it in a store whose journal file already holds its
  -- record, in the state `DISPATCHED`, with the call's operation, subject and request and the writer's
  -- generation. After the call the file holds a record that says how the effect ended there:
  -- `COMPLETED` with the value that is returned, or `UNKNOWN` without a result, where an exception
  -- is raised again or the value is refused. In both files the other records are those that the call
  -- found. The writer's generation is at least 1.
  pub execute-WriteAhead :
      (identity subject request_digest : Value) (dispatch : Callback)
      (resolve : Option (Record → Callback)) (s : EventStore) (op : String) (records : Records)
      → Starts rt j started identity subject request_digest s op records
      → WriteAhead op subject request_digest dispatch records
          (execute rt j identity subject request_digest dispatch resolve s)
  execute-WriteAhead identity subject request_digest dispatch resolve s op records h =
      subst (WriteAhead op subject request_digest dispatch records)
        (sym (
          execute-start rt j started identity subject request_digest dispatch resolve s op records
            h))
        (start-WriteAhead op subject request_digest dispatch s records h.opened h.texts)
