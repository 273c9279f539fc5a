-- ===== src/Journal/Changes.antt =====
-- Each operation of the journal makes one allowed change (kernel/events/effect_journal.py).
use nexus_runtime.Prelude.{
  String, Bool, true, false, ◌≡◌, refl, inl, inr, arith, Option, none, some, ◌==◌, ◌<◌, elem,
  lookup, Bool-cases, ap, subst, ◌∙◌, &&-true, All-lookup, if◌then◌else◌, ◌&&◌,
}
use nexus_runtime.Python.Value.{Value, Runtime, is_text, dict, get, end, field}
use nexus_runtime.Python.Raise.{Result, ok, err, >>=-eq-ok, require-eq-ok, require}
use nexus_runtime.Journal.Error.{Error}
use nexus_runtime.Journal.Record.{
  Record, completed, effect_id_of, safe_result, observed_result, states, operation_digest,
}
use nexus_runtime.Journal.Read.{EffectJournal, Records, read_locked}
use nexus_runtime.Journal.Read.RoundTrip.{IsReadable, read_locked-AllReadable}
use nexus_runtime.Journal.Store.{
  EventStore, complete, mark_unknown, bound_to, mismatch, fresh_record,
}
use nexus_runtime.Journal.Record.{sign}
use nexus_runtime.Journal.Store.Readable.{
  fresh_record-IsReadable, complete-IsReadable, restate-IsReadable,
}
use nexus_runtime.Journal.Store.History.{Change, kept, wrote, attempt-Change, locked-Change}
use nexus_runtime.Journal.Reserve.{reserve, reserve_record, reservation}
use nexus_runtime.Journal.Settle.{
  transition, transition_record, advance_record, commit, reconcile, reconcile_record, settle,
}

some-injective :
    {a b : Record} → ◌≡◌ {A = Result Error (Option Record)} (ok (some a)) (ok (some b)) → a ≡ b
some-injective h = cc

pub safe_result-ok : (x v : Value) → safe_result x ≡ ok v → v ≡ x
unfolding safe_result
safe_result-ok (dict end) v h = cc
safe_result-ok (dict (field k w fs)) v h = ground arith
safe_result-ok _ v h = ground arith

safe_result_idem : (x v : Value) → safe_result x ≡ ok v → safe_result v ≡ ok v
safe_result_idem x v h = rw (safe_result-ok x v h) (h ∙ ap ok (safe_result-ok x v h))

pub observed_result-safe :
    (r : Record) (observed v : Value) → observed_result r observed ≡ ok v → safe_result v ≡ ok v
unfolding observed_result
observed_result-safe r (dict fs) v h = safe_result_idem (get "result" fs) v (ground arith)
observed_result-safe r _ v h = ground arith

module _ (rt : Runtime) (j : EffectJournal) (started : 0 < j.generation.generation) where
  AllReadable-lookup :
      (s : EventStore) (key : String) (records : Records) {r : Record}
      → read_locked rt j s.journal ≡ ok records
      → lookup key records ≡ some r
      → IsReadable rt j key r
  AllReadable-lookup s key records opened found =
      All-lookup (IsReadable rt j) key records (read_locked-AllReadable rt j _ opened) found

  pub if-Change :
      {A : Type 0} (s : EventStore) (b : Bool) (m n : Result Error A × EventStore)
      → Change rt j s m.1
      → Change rt j s n.1
      → Change rt j s (if b then m else n).1
  if-Change s true m n a b = a
  if-Change s false m n a b = b

  reservation-texts :
      (identity subject request_digest : Value) {op : String}
      → reservation rt j identity subject request_digest ≡ ok op
      → (is_text subject ≡ true) × (is_text request_digest ≡ true)
  unfolding reservation
  reservation-texts identity subject request_digest h =
      let (op, _, h1) = >>=-eq-ok (operation_digest rt identity) _ h in
      let (_, texts, _) = >>=-eq-ok (require (is_text subject && is_text request_digest) _) _ h1 in
      &&-true _ _ (require-eq-ok _ _ texts)

  reserve_record-Change :
      (op : String) (subject request_digest : Value) (records : Records) (old : Option Record)
      (s : EventStore)
      → read_locked rt j s.journal ≡ ok records
      → lookup (effect_id_of op) records ≡ old
      → is_text subject ≡ true
      → is_text request_digest ≡ true
      → Change rt j s (reserve_record rt j op subject request_digest records old s).1
  unfolding reserve_record
  reserve_record-Change op subject request_digest records (some old) s opened found a b =
      if-Change s (bound_to j op subject request_digest old) (ok old, s) (err mismatch, s)
        (kept refl) (kept refl)
  reserve_record-Change op subject request_digest records none s opened found a b =
      wrote records (effect_id_of op) (fresh_record rt j op subject request_digest) opened
        (rw found tt) (fresh_record-IsReadable rt j op subject request_digest started a b) refl

  pub reserve-Change :
      (identity subject request_digest : Value) (s : EventStore)
      → Change rt j s (reserve rt j identity subject request_digest s).1
  unfolding reserve
  reserve-Change identity subject request_digest s =
      attempt-Change rt j (reservation rt j identity subject request_digest) _ s (λ op e.
        let (a, b) = reservation-texts identity subject request_digest e in
        locked-Change rt j _ s (λ records opened.
          reserve_record-Change op subject request_digest records _ s opened refl a b))

  -- Settling an effect that is not completed, whatever store the callback has left.
  pub settle-Change :
      (key : String) (r : Record) (records : Records) (res : Result Error Value) (s t : EventStore)
      → read_locked rt j s.journal ≡ ok records
      → lookup key records ≡ some r
      → completed r ≡ false
      → ((v : Value) → res ≡ ok v → safe_result v ≡ ok v)
      → Change rt j s (settle rt j key r records res t).1
  settle-Change key r records (ok v) s t opened found open_ safe =
      wrote records key (complete rt v r) opened (rw found open_)
        (complete-IsReadable rt j key "" r v (AllReadable-lookup s key records opened found)
          (safe v refl))
        refl
  settle-Change key r records (err e) s t opened found open_ safe =
      wrote records key (mark_unknown rt _ r) opened (rw found open_)
        (restate-IsReadable rt j key "UNKNOWN" _ r (AllReadable-lookup s key records opened found)
          open_ refl refl)
        refl

  reconcile_record-Change :
      (key : String) (observed : Value) (records : Records) (old : Option Record) (s : EventStore)
      → read_locked rt j s.journal ≡ ok records
      → lookup key records ≡ old
      → Change rt j s (reconcile_record rt j key observed records old s).1
  unfolding reconcile_record
  reconcile_record-Change key observed records none s opened found = kept refl
  reconcile_record-Change key observed records (some r) s opened found =
      elim (Bool-cases (completed r)) [
        | inl done ↦ rw done (kept refl)
        | inr open_ ↦ rw open_ (
            settle-Change key r records (observed_result r observed) s s opened found open_
              (observed_result-safe r observed))
      ]

  pub reconcile-Change :
      (key : String) (observed : Value) (s : EventStore)
      → Change rt j s (reconcile rt j key observed s).1
  unfolding reconcile
  reconcile-Change key observed s =
      locked-Change rt j _ s
        (λ records opened. reconcile_record-Change key observed records _ s opened refl)

  advance_record-IsReadable :
      (key state reason : String) (result : Value) (old : Record) {r : Record}
      → IsReadable rt j key old
      → elem state states ≡ true
      → advance_record rt j state result reason old ≡ ok (some r)
      → (completed old ≡ false) × IsReadable rt j key (sign rt r)
  unfolding advance_record
  advance_record-IsReadable key state reason result old readable known h =
      elim (Bool-cases (completed old)) [
        | inl done ↦ absurd (ground arith)
        | inr open_ ↦ (
          open_,
          elim (Bool-cases (state == "COMPLETED")) [
            | inl e ↦
                let (v, safe, h2) = >>=-eq-ok (safe_result result) _ (rw (open_, e) at h) in
                subst (λ x. IsReadable rt j key (sign rt x)) (some-injective h2)
                  (complete-IsReadable rt j key reason old result readable safe)
            | inr e ↦
                subst (λ x. IsReadable rt j key (sign rt x)) (some-injective (rw (open_, e) at h))
                  (restate-IsReadable rt j key state reason old readable open_ known e)
          ],
        )
      ]

  commit-Change :
      (key : String) (records : Records) (old : Record) (next : Option Record) (s : EventStore)
      → read_locked rt j s.journal ≡ ok records
      → lookup key records ≡ some old
      → ((r : Record) → next ≡ some r → (completed old ≡ false) × IsReadable rt j key (sign rt r))
      → Change rt j s (commit rt j key records old next s).1
  commit-Change key records old none s opened found ready = kept refl
  commit-Change key records old (some r) s opened found ready =
      let (open_, readable) = ready r refl in
      wrote records key (sign rt r) opened (rw found open_) readable refl

  transition_record-Change :
      (key state reason : String) (result : Value) (records : Records) (old : Option Record)
      (s : EventStore)
      → elem state states ≡ true
      → read_locked rt j s.journal ≡ ok records
      → lookup key records ≡ old
      → Change rt j s (transition_record rt j key state result reason records old s).1
  unfolding transition_record
  transition_record-Change key state reason result records none s known opened found = kept refl
  transition_record-Change key state reason result records (some old) s known opened found =
      attempt-Change rt j (advance_record rt j state result reason old) _ s (λ next e.
        commit-Change key records old next s opened found (λ r p.
          advance_record-IsReadable key state reason result old
            (AllReadable-lookup s key records opened found) known (e ∙ ap ok p)))

  pub transition-Change :
      (key state : String) (result : Value) (reason : String) (s : EventStore)
      → Change rt j s (transition rt j key state result reason s).1
  unfolding transition
  transition-Change key state result reason s = elim (Bool-cases (elem state states)) [
    | inl known ↦ rw known (
        locked-Change rt j _ s (λ records opened.
          transition_record-Change key state reason result records _ s known opened refl))
    | inr unknown ↦ rw unknown (kept refl)
  ]
