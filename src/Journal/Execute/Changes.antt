-- ===== src/Journal/Execute/Changes.antt =====
-- `execute` makes one allowed change (kernel/events/effect_journal.py).
use nexus_runtime.Prelude.{
  String, Bool, true, false, ◌≡◌, refl, inl, inr, Option, none, some, ◌<◌, lookup, insert,
  Bool-cases, ap, sym, subst, ◌∙◌, &&-true, not, if◌then◌else◌, ◌&&◌,
}
use nexus_runtime.Python.Value.{Value, Runtime, is_text, str, dict, null, bool, int, list, object}
use nexus_runtime.Python.Raise.{Result, ok, err, >>=-eq-ok, ok-injective}
use nexus_runtime.Journal.Error.{Error, raised}
use nexus_runtime.Journal.Record.{Record, completed, effect_id_of, safe_result}
use nexus_runtime.Journal.Read.{EffectJournal, Records, read_locked, written}
use nexus_runtime.Journal.Read.RoundTrip.{IsReadable}
use nexus_runtime.Journal.Store.{
  EventStore, Outcome, returned, exception, interrupt, Callback, OnlyReads, complete, mark_unknown,
  bound_to, fresh_record,
}
use nexus_runtime.Journal.Store.Readable.{
  fresh_record-IsReadable, complete-IsReadable, restate-IsReadable,
}
use nexus_runtime.Journal.Store.History.{Change, kept, wrote, attempt-Change, locked-Change}
use nexus_runtime.Journal.Settle.{reconcile}
use nexus_runtime.Journal.Execute.{
  execute, execute_record, request_checked, start, running, begun_record, call_reconcile,
  settle_outcome, observation, record_dispatch, dispatched,
}
use nexus_runtime.Journal.Changes.{if-Change, settle-Change, observed_result-safe, safe_result-ok}

module _ (rt : Runtime) (j : EffectJournal) (started : 0 < j.generation.generation) where
  dispatched-safe : (o : Outcome) (v : Value) → dispatched rt j o ≡ ok v → safe_result v ≡ ok v
  dispatched-safe (returned x) v h =
      let (y, safe, h1) = >>=-eq-ok (safe_result x) _ h in
      subst (λ w. safe_result w ≡ ok w) (ok-injective h1) (safe ∙ ap ok (safe_result-ok x y safe))
  dispatched-safe (exception name) v h = cc
  dispatched-safe (interrupt name) v h = cc

  -- However the effect ended, its record is written once more, and the reader accepts it.
  record_dispatch-written :
      (key : String) (r : Record) (records : Records) (res : Result Error Value) (t : EventStore)
      → IsReadable rt j key r
      → completed r ≡ false
      → ((v : Value) → res ≡ ok v → safe_result v ≡ ok v)
      → (x : Record) × IsReadable rt j key x
        × ((record_dispatch rt j key r records res t).1.journal ≡ written (insert key x records))
  record_dispatch-written key r records (ok v) t readable open_ safe =
      (complete rt v r, complete-IsReadable rt j key "" r v readable (safe v refl), refl)
  record_dispatch-written key r records (err e) t readable open_ safe = (
    mark_unknown rt _ r,
    restate-IsReadable rt j key "UNKNOWN" _ r readable open_ refl refl,
    refl,
  )

  pub begun_record-IsReadable :
      (op : String) (subject request_digest : Value)
      → is_text subject ≡ true
      → is_text request_digest ≡ true
      → IsReadable rt j (effect_id_of op) (begun_record rt j op subject request_digest)
  begun_record-IsReadable op subject request_digest a b =
      restate-IsReadable rt j (effect_id_of op) "DISPATCHED" ""
        (fresh_record rt j op subject request_digest)
        (fresh_record-IsReadable rt j op subject request_digest started a b) refl refl refl

  pub start-written :
      (op : String) (subject request_digest : Value) (dispatch : Callback) (records : Records)
      (s : EventStore)
      → is_text subject ≡ true
      → is_text request_digest ≡ true
      → (x : Record) × IsReadable rt j (effect_id_of op) x
        × ((start rt j op subject request_digest dispatch records s).1.journal
            ≡ written (insert (effect_id_of op) x records))
  unfolding start
  start-written op subject request_digest dispatch records s a b =
      let ended = dispatch (running rt j op subject request_digest records s) in
      record_dispatch-written (effect_id_of op) (begun_record rt j op subject request_digest)
        records (dispatched rt j ended.0) ended.1
        (begun_record-IsReadable op subject request_digest a b) refl (dispatched-safe ended.0)

  start-Change :
      (op : String) (subject request_digest : Value) (dispatch : Callback) (records : Records)
      (s : EventStore)
      → read_locked rt j s.journal ≡ ok records
      → lookup (effect_id_of op) records ≡ none
      → is_text subject ≡ true
      → is_text request_digest ≡ true
      → Change rt j s (start rt j op subject request_digest dispatch records s).1
  start-Change op subject request_digest dispatch records s opened found a b =
      let (x, readable, same) = start-written op subject request_digest dispatch records s a b in
      wrote records (effect_id_of op) x opened (rw found tt) readable same

  observation-safe : (r : Record) (v w : Value) → observation rt j r v ≡ ok w → safe_result w ≡ ok w
  observation-safe r null w h = cc
  observation-safe r (bool b) w h = observed_result-safe r (bool b) w h
  observation-safe r (int n) w h = observed_result-safe r (int n) w h
  observation-safe r (str t) w h = observed_result-safe r (str t) w h
  observation-safe r (list xs) w h = observed_result-safe r (list xs) w h
  observation-safe r (dict fs) w h = observed_result-safe r (dict fs) w h
  observation-safe r (object n) w h = observed_result-safe r (object n) w h

  settle_outcome-Change :
      (key : String) (r : Record) (records : Records) (o : Outcome) (s : EventStore)
      → read_locked rt j s.journal ≡ ok records
      → lookup key records ≡ some r
      → completed r ≡ false
      → Change rt j s (settle_outcome rt j key r records (o, s)).1
  settle_outcome-Change key r records (returned v) s opened found open_ =
      settle-Change rt j started key r records (observation rt j r v) s s opened found open_
        (observation-safe r v)
  settle_outcome-Change key r records (exception name) s opened found open_ =
      settle-Change rt j started key r records (err (raised name)) s s opened found open_
        (λ v (e : err (raised name) ≡ ok v). cc)
  settle_outcome-Change key r records (interrupt name) s opened found open_ = kept refl

  call_reconcile-reads :
      (reconcile : Option (Record → Callback)) (r : Record) (s : EventStore)
      → OnlyReads reconcile
      → (call_reconcile rt j reconcile r s).1 ≡ s
  call_reconcile-reads none r s reads = refl
  call_reconcile-reads (some callback) r s reads = reads r s

  execute_record-Change :
      (op : String) (subject request_digest : Value) (dispatch : Callback)
      (reconcile : Option (Record → Callback)) (records : Records) (old : Option Record)
      (s : EventStore)
      → OnlyReads reconcile
      → read_locked rt j s.journal ≡ ok records
      → lookup (effect_id_of op) records ≡ old
      → Change rt j s
          (execute_record rt j op subject request_digest dispatch reconcile records old s).1
  unfolding execute_record
  execute_record-Change op subject request_digest dispatch reconcile records none s reads opened
        found =
      elim (Bool-cases (is_text subject && is_text request_digest)) [
        | inl texts ↦ rw texts (
            start-Change op subject request_digest dispatch records s opened found
              (&&-true _ _ texts).0 (&&-true _ _ texts).1)
        | inr none_ ↦ rw none_ (kept refl)
      ]
  execute_record-Change op subject request_digest dispatch reconcile records (some r) s reads opened
        found =
      if-Change rt j started s (not (bound_to j op subject request_digest r)) _ _ (kept refl)
        (open_branch (completed r) refl)
    where
      open_branch :
          (done : Bool)
          → completed r ≡ done
          → Change rt j s
              (if done
                then (ok r.result, s)
                else settle_outcome rt j
                    (effect_id_of op)
                    r
                    records
                    (call_reconcile rt j reconcile r s)).1
      open_branch true e = kept refl
      open_branch false e =
          let ended = call_reconcile rt j reconcile r s in
          subst
            (λ t. Change rt j s (settle_outcome rt j (effect_id_of op) r records (ended.0, t)).1)
            (sym (call_reconcile-reads reconcile r s reads))
            (settle_outcome-Change (effect_id_of op) r records ended.0 s opened found e)

  pub execute-Change :
      (identity subject request_digest : Value) (dispatch : Callback)
      (reconcile : Option (Record → Callback)) (s : EventStore)
      → OnlyReads reconcile
      → Change rt j s (execute rt j identity subject request_digest dispatch reconcile s).1
  unfolding execute
  execute-Change identity subject request_digest dispatch reconcile s reads =
      attempt-Change rt j (request_checked rt j identity request_digest) _ s (λ op e.
        locked-Change rt j _ s (λ records opened.
          execute_record-Change op subject request_digest dispatch reconcile records _ s reads
            opened refl))
