-- ===== src/Journal/Store/History.antt =====
-- What one operation may do to the event store (kernel/events/effect_journal.py), and what that
-- keeps: the journal stays readable and a completed record stays as it is.
use nexus_runtime.Prelude.{
  String, Bool, true, false, ◌≡◌, refl, arith, Option, none, some, ◌==◌, eq_iff, lookup, insert,
  lookup-insert, All-insert, sym, ap, subst, ◌∙◌, if◌then◌else◌,
}
use nexus_runtime.Python.Value.{Runtime}
use nexus_runtime.Python.Raise.{Result, ok, err, ok-injective}
use nexus_runtime.Journal.Error.{Error}
use nexus_runtime.Journal.Record.{Record, completed}
use nexus_runtime.Journal.Read.{EffectJournal, Records, read_locked, written}
use nexus_runtime.Journal.Read.RoundTrip.{IsReadable, read_locked-AllReadable, read_locked-written}
use nexus_runtime.Journal.Store.{EventStore, Action, attempt, open_journal, locked}

-- The record under a key is missing or not yet completed.
abbrev pub MayWrite : Option Record → Type 0
MayWrite none = Unit
MayWrite (some r) = completed r ≡ false

lookup-insert-completed :
    (k key : String) (x r : Record) (records : Records)
    → MayWrite (lookup k records)
    → lookup key records ≡ some r
    → completed r ≡ true
    → lookup key (insert k x records) ≡ some r
lookup-insert-completed k key x r records may found done = rw lookup-insert (go (k == key) refl)
  where
    go : (b : Bool) → (k == key) ≡ b → (if b then some x else lookup key records) ≡ some r
    go true e =
        let may' : completed r ≡ false =
          subst MayWrite (ap (λ x. lookup x records) ((eq_iff k key).0 e) ∙ found) may in
        cc
    go false e = found

module _ (rt : Runtime) (j : EffectJournal) where
  -- An operation leaves the journal file alone, or replaces one record that was not completed by
  -- one that the reader accepts.
  pub data Change (s t : EventStore) : Type 0 where
    kept : t.journal ≡ s.journal → Change s t
    wrote :
        (records : Records) (key : String) (r : Record)
        → read_locked rt j s.journal ≡ ok records
        → MayWrite (lookup key records)
        → IsReadable rt j key r
        → t.journal ≡ written (insert key r records)
        → Change s t

  -- The journal can be read, and holds this completed record.
  abbrev pub Holds : String → Record → EventStore → Type 0
  Holds key r s =
      (records : Records) × (read_locked rt j s.journal ≡ ok records)
      × (lookup key records ≡ some r)
      × (completed r ≡ true)

  pub open_journal-read :
      (s : EventStore) {records : Records}
      → open_journal rt j s ≡ ok records
      → read_locked rt j s.journal ≡ ok records
  unfolding open_journal
  open_journal-read s h = ground arith

  pub Change-readable :
      {s t : EventStore} {records : Records}
      → Change s t
      → read_locked rt j s.journal ≡ ok records
      → (after : Records) × (read_locked rt j t.journal ≡ ok after)
  Change-readable {records} (kept same) h = (records, rw same h)
  Change-readable (wrote records key r opened may readable same) h = (
    insert key r records,
    rw same (
        read_locked-written rt j (insert key r records) (
          All-insert (IsReadable rt j) key r records (read_locked-AllReadable rt j _ opened)
            readable)),
  )

  pub Change-Holds :
      {s t : EventStore} (key : String) (r : Record) → Change s t → Holds key r s → Holds key r t
  Change-Holds key r (kept same) (records, opened, found, done) =
      (records, rw same opened, found, done)
  Change-Holds key r (wrote records k x opened may readable same) (others, again, found, done) = (
    insert k x records,
    rw same (
        read_locked-written rt j (insert k x records) (
          All-insert (IsReadable rt j) k x records (read_locked-AllReadable rt j _ opened)
            readable)),
    lookup-insert-completed k key x r records may (rw (ok-injective (sym opened ∙ again)) found)
        done,
    done,
  )

  pub attempt-Change :
      {A B : Type 0} (m : Result Error A) (f : A → Action B) (s : EventStore)
      → ((a : A) → m ≡ ok a → Change s (f a s).1)
      → Change s (attempt m f s).1
  attempt-Change (ok a) f s step = step a refl
  attempt-Change (err e) f s step = kept refl

  pub locked-Change :
      {A : Type 0} (f : Records → Action A) (s : EventStore)
      → ((records : Records) → read_locked rt j s.journal ≡ ok records → Change s (f records s).1)
      → Change s (locked rt j f s).1
  unfolding locked
  locked-Change f s step =
      attempt-Change (open_journal rt j s) f s (λ records e. step records (open_journal-read s e))
