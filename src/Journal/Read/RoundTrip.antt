-- ===== src/Journal/Read/RoundTrip.antt =====
-- What is written is read back, and what is read has passed every check
-- (kernel/events/effect_journal.py, `_write_locked` and `_read_locked`).
use nexus_runtime.Prelude.{String, true, ◌≡◌, refl, [], ◌∷◌, All, arith, subst}
use nexus_runtime.Python.Value.{
  Value, str, dict, Fields, end, field, get, same_keys, hashable, eq_text, Runtime,
}
use nexus_runtime.Python.Raise.{ok, >>=-eq-ok, ok-injective, require, require-eq-ok}
use nexus_runtime.Journal.Record.{Record, encode, decode, unsigned_fields}
use nexus_runtime.Journal.Read.{
  JournalFile, Records, EffectJournal, known_state, malformed, record_keys, fields_ok, named_by,
  check_result, check_record, read_record, read_records, read_locked, read_table, encode_records,
  written,
}

known_state-hashable : (v : Value) → known_state v ≡ true → hashable v ≡ true
known_state-hashable (str s) h = refl
known_state-hashable _ h = ground arith

module _ (rt : Runtime) (j : EffectJournal) where
  -- A record that the reader accepts under its key.
  pub record IsReadable (key : String) (r : Record) : Type 0 where
    pub in_states : known_state r.state ≡ true
    pub typed : fields_ok rt j r ≡ true
    pub names : named_by rt j key r ≡ true
    pub bound : check_result rt j r ≡ ok tt
    pub signed : eq_text r.record_digest (rt.digest (dict (unsigned_fields r))) ≡ true

  check_record-ok : (key : String) (r : Record) → IsReadable key r → check_record rt j key r ≡ ok tt
  unfolding check_record
  check_record-ok key r h = rw (h.typed, h.names, h.bound, h.signed)

  abbrev pub AllReadable : Records → Type 0
  AllReadable = All (λ (entry : String × Record). IsReadable entry.0 entry.1)

  check_record-IsReadable :
      (key : String) (r : Record)
      → known_state r.state ≡ true
      → check_record rt j key r ≡ ok tt
      → IsReadable key r
  unfolding check_record
  check_record-IsReadable key r known h =
      let (_, typed, h1) = >>=-eq-ok (require (fields_ok rt j r) malformed) _ h in
      let (_, names, h2) = >>=-eq-ok (require (named_by rt j key r) _) _ h1 in
      let (_, bound, h3) = >>=-eq-ok (check_result rt j r) _ h2 in
      record {
        in_states = known;
        typed = require-eq-ok _ _ typed;
        names = require-eq-ok _ _ names;
        bound = bound;
        signed = require-eq-ok _ _ h3;
      }

  read_record-IsReadable :
      (key : String) (v : Value) {r : Record} → read_record rt j key v ≡ ok r → IsReadable key r
  unfolding read_record
  read_record-IsReadable key (dict fs) h =
      let (_, _, h1) = >>=-eq-ok (require (hashable (get "state" fs)) _) _ h in
      let (_, known, h2) = >>=-eq-ok (require (known_state (get "state" fs)) malformed) _ h1 in
      let (_, _, h3) = >>=-eq-ok (require (same_keys record_keys fs) malformed) _ h2 in
      let (_, checked, h4) = >>=-eq-ok (check_record rt j key (decode fs)) _ h3 in
      subst (IsReadable key) (ok-injective h4)
        (check_record-IsReadable key (decode fs) (require-eq-ok _ _ known) checked)
  read_record-IsReadable key v h = ground arith

  read_record-encode :
      (key : String) (r : Record) → IsReadable key r → read_record rt j key (encode r) ≡ ok r
  unfolding read_record
  read_record-encode key r h =
      rw (known_state-hashable r.state h.in_states, h.in_states, check_record-ok key r h)

  read_records-AllReadable :
      (fs : Fields) {data' : Records} → read_records rt j fs ≡ ok data' → AllReadable data'
  unfolding read_records
  read_records-AllReadable end h = ground arith
  read_records-AllReadable (field key v rest) h =
      let (r, first, h1) = >>=-eq-ok (read_record rt j key v) _ h in
      let (others, later, h2) = >>=-eq-ok (read_records rt j rest) _ h1 in
      subst AllReadable (ok-injective h2)
        (read_record-IsReadable key v first, read_records-AllReadable rest later)

  read_records-encode_records :
      (records : Records)
      → AllReadable records
      → read_records rt j (encode_records records) ≡ ok records
  unfolding read_records
  read_records-encode_records [] h = refl
  read_records-encode_records ((key, r) ∷ rest) h =
      rw (read_record-encode key r h.0, read_records-encode_records rest h.1)

  read_table-AllReadable :
      (v : Value) {records : Records} → read_table rt j v ≡ ok records → AllReadable records
  read_table-AllReadable (dict fs) h = read_records-AllReadable fs h
  read_table-AllReadable _ h = ground arith

  pub read_locked-AllReadable :
      (file : JournalFile) {records : Records}
      → read_locked rt j file ≡ ok records
      → AllReadable records
  unfolding read_locked
  read_locked-AllReadable (JournalFile.document (dict fs)) h =
      read_table-AllReadable (get "records" fs) (ground arith)
  read_locked-AllReadable file h = ground arith

  -- Writing accepted records and reading the file gives the records back.
  pub read_locked-written :
      (records : Records) → AllReadable records → read_locked rt j (written records) ≡ ok records
  unfolding read_locked
  read_locked-written records h = read_records-encode_records records h
