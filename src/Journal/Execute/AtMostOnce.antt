-- ===== src/Journal/Execute/AtMostOnce.antt =====
-- An effect is started at most once
-- (kernel/events/effect_journal.py, `execute`).
use nexus_runtime.Prelude.{
  String, true, ◌≡◌, refl, ◌<◌, ◌&&◌, ◌==◌, Option, none, some, lookup, insert, lookup-insert,
  All-insert, subst, inl, inr, sym, ◌∙◌, eq_refl, &&-true, List, [], ◌∷◌, All, Bool-cases,
}
use nexus_runtime.Python.Value.{Value, Runtime, is_text}
use nexus_runtime.Python.Raise.{Result, ok, Result-cases, ok-injective}
use nexus_runtime.Journal.Error.{Error}
use nexus_runtime.Journal.Record.{Record, effect_id_of}
use nexus_runtime.Journal.Read.{EffectJournal, Records, read_locked, written}
use nexus_runtime.Journal.Read.RoundTrip.{read_locked-AllReadable, read_locked-written, IsReadable}
use nexus_runtime.Journal.Store.{EventStore, Callback, open_journal, locked}
use nexus_runtime.Journal.Store.History.{Change, kept, wrote, open_journal-read}
use nexus_runtime.Journal.Calls.{Call, IsAllowed, after, after_all, after-Change}
use nexus_runtime.Journal.Execute.{execute, execute_record, request_checked, start}
use nexus_runtime.Journal.Execute.Changes.{start-written}

module _ (rt : Runtime) (j : EffectJournal) (started : 0 < j.generation.generation) where
  -- a record that the reader accepts is found in the file after it was written
  pub read-written :
      (s : EventStore) (key : String) (x : Record) (records : Records)
      → open_journal rt j s ≡ ok records
      → IsReadable rt j key x
      → (held : Records) × (read_locked rt j (written (insert key x records)) ≡ ok held)
        × (lookup key held ≡ some x)
  read-written s key x records opened readable = (
    insert key x records,
    read_locked-written rt j (insert key x records) (
        All-insert (IsReadable rt j) key x records
          (read_locked-AllReadable rt j s.journal (open_journal-read rt j s opened)) readable),
    rw (lookup-insert key key x records, eq_refl key),
  )

  -- The call finds no record of its effect, and starts it.
  pub record Starts (identity subject request_digest : Value) (s : EventStore) (op : String)
      (records : Records) : Type 0 where
    pub checked : request_checked rt j identity request_digest ≡ ok op
    pub opened : open_journal rt j s ≡ ok records
    pub unreserved : lookup (effect_id_of op) records ≡ none
    pub texts : (is_text subject && is_text request_digest) ≡ true

  pub execute-start :
      (identity subject request_digest : Value) (dispatch : Callback)
      (resolve : Option (Record → Callback)) (s : EventStore) (op : String) (records : Records)
      → Starts identity subject request_digest s op records
      → execute rt j identity subject request_digest dispatch resolve s
        ≡ start rt j op subject request_digest dispatch records s
  unfolding execute locked execute_record
  execute-start identity subject request_digest dispatch resolve s op records h =
      rw (h.checked, h.opened, h.unreserved, h.texts)

  -- The journal cannot be opened, or it holds a record under this key.
  abbrev Reserved : String → EventStore → Type 0
  Reserved key s =
      (records : Records)
      → open_journal rt j s ≡ ok records
      → (r : Record) × (lookup key records ≡ some r)

  execute-Reserved :
      (identity subject request_digest : Value) (d e : Callback)
      (resolve : Option (Record → Callback)) (s : EventStore) (op : String)
      → request_checked rt j identity request_digest ≡ ok op
      → Reserved (effect_id_of op) s
      → execute rt j identity subject request_digest d resolve s
        ≡ execute rt j identity subject request_digest e resolve s
  unfolding execute locked execute_record
  execute-Reserved identity subject request_digest d e resolve s op checked held =
      elim (Result-cases (open_journal rt j s)) [
        | inl (records, opened) ↦
            let (r, found) = held records opened in rw (checked, opened, found)
        | inr (x, closed) ↦ rw (checked, closed)
      ]

  -- The journal can be read, and holds a record under this key.
  abbrev Has : String → EventStore → Type 0
  Has key s =
      (records : Records) × (read_locked rt j s.journal ≡ ok records)
      × (r : Record) × (lookup key records ≡ some r)

  Has-Reserved : (key : String) (s : EventStore) → Has key s → Reserved key s
  Has-Reserved key s (held, reads, r, found) records opened =
      (r, rw (ok-injective (sym (open_journal-read rt j s opened) ∙ reads)) found)

  lookup-insert-some :
      (k key : String) (x r : Record) (records : Records)
      → lookup key records ≡ some r
      → (y : Record) × (lookup key (insert k x records) ≡ some y)
  lookup-insert-some k key x r records found = elim (Bool-cases (k == key)) [
    | inl same ↦ (x, rw (lookup-insert k key x records) (rw same refl))
    | inr other ↦ (r, rw (lookup-insert k key x records) (rw other found))
  ]

  Change-Has : {s t : EventStore} (key : String) → Change rt j s t → Has key s → Has key t
  Change-Has key (kept same) (records, reads, r, found) = (records, rw same reads, r, found)
  Change-Has {s} key (wrote records k x opened may readable same) (held, reads, r, found) =
      let (y, there) =
        lookup-insert-some k key x r records (rw (ok-injective (sym opened ∙ reads)) found) in
      (
        insert k x records,
        rw same (
            read_locked-written rt j (insert k x records) (
              All-insert (IsReadable rt j) k x records (read_locked-AllReadable rt j _ opened)
                readable)),
        y,
        there,
      )

  after_all-Has :
      (calls : List Call) (s : EventStore) (key : String)
      → All IsAllowed calls
      → Has key s
      → Has key (after_all rt j calls s)
  unfolding after_all
  after_all-Has [] s key a h = h
  after_all-Has (c ∷ rest) s key a h =
      after_all-Has rest (after rt j c s) key a.1
        (Change-Has key (after-Change rt j started c s a.0) h)

  start-Has :
      (op : String) (subject request_digest : Value) (dispatch : Callback) (records : Records)
      (s : EventStore)
      → open_journal rt j s ≡ ok records
      → (is_text subject && is_text request_digest) ≡ true
      → Has (effect_id_of op) (start rt j op subject request_digest dispatch records s).1
  start-Has op subject request_digest dispatch records s opened texts =
      let (a, b) = &&-true (is_text subject) (is_text request_digest) texts in
      let (x, readable, same) =
        start-written rt j started op subject request_digest dispatch records s a b in
      let (held, reads, found) = read-written s (effect_id_of op) x records opened readable in
      (held, rw same reads, x, found)

  -- An effect is started at most once: after a call that started it, however the effect ended and
  -- whatever it did to the store, and after any further calls of this writer, failing or not, a call
  -- with the same identity and request never runs its own dispatch, since all dispatches give the
  -- same result and the same store. The calls follow one another: one made by a running dispatch is a
  -- part of that call, and the records that it leaves are not spoken of. The writer's generation is
  -- at least 1, and no callback that reconciles in the further calls changes the store.
  pub execute-at_most_once :
      (identity subject request_digest : Value) (dispatch : Callback)
      (resolve : Option (Record → Callback)) (s : EventStore) (op : String) (records : Records)
      → Starts identity subject request_digest s op records
      → (calls : List Call) → All IsAllowed calls
      → (other : Value) (d e : Callback) (again : Option (Record → Callback))
      → let later =
          after_all rt j calls
            (execute rt j identity subject request_digest dispatch resolve s).1 in
        execute rt j identity other request_digest d again later
        ≡ execute rt j identity other request_digest e again later
  execute-at_most_once identity subject request_digest dispatch resolve s op records h calls allowed
        other d e again =
      let first = execute rt j identity subject request_digest dispatch resolve s in
      let held : Has (effect_id_of op) first.1 =
        subst (λ (x : Result Error Value × EventStore). Has (effect_id_of op) x.1)
          (sym (execute-start identity subject request_digest dispatch resolve s op records h))
          (start-Has op subject request_digest dispatch records s h.opened h.texts) in
      execute-Reserved identity other request_digest d e again _ op h.checked (
        Has-Reserved (effect_id_of op) (after_all rt j calls first.1)
          (after_all-Has calls first.1 (effect_id_of op) allowed held))
