-- ===== src/Journal/Calls.antt =====
-- Histories of calls on the journal, made by one writer with any arguments
-- (kernel/events/effect_journal.py).
use nexus_runtime.Prelude.{
  String, ◌≡◌, refl, Option, List, [], ◌∷◌, All, ◌<◌, ◌==◌, Bool-cases, inl, inr,
}
use nexus_runtime.Python.Value.{Value, Runtime}
use nexus_runtime.Python.Raise.{ok}
use nexus_runtime.Journal.Record.{Record}
use nexus_runtime.Journal.Read.{EffectJournal, Records, read_locked}
use nexus_runtime.Journal.Store.{EventStore, Callback, OnlyReads}
use nexus_runtime.Journal.Store.History.{
  Change, kept, locked-Change, Holds, Change-readable, Change-Holds,
}
use nexus_runtime.Journal.Reserve.{reserve, get_record, unresolved_for_subject}
use nexus_runtime.Journal.Settle.{transition, reconcile}
use nexus_runtime.Journal.Execute.{execute}
use nexus_runtime.Journal.Changes.{reserve-Change, transition-Change, reconcile-Change}
use nexus_runtime.Journal.Execute.Changes.{execute-Change}

-- The public methods of `EffectJournal` with their arguments.
pub data Call : Type 0 where
  reserve_call : Value → Value → Value → Call
  get_call : String → Call
  unresolved_call : String → Call
  transition_call : String → String → Value → String → Call
  reconcile_call : String → Value → Call
  execute_call : Value → Value → Value → Callback → Option (Record → Callback) → Call

-- A dispatch callback may do anything to the store; a reconcile callback only reads it.
abbrev pub IsAllowed : Call → Type 0
IsAllowed (execute_call identity subject request_digest dispatch resolve) = OnlyReads resolve
IsAllowed _ = Unit

module _ (rt : Runtime) (j : EffectJournal) where
  -- the store that a call leaves, whether it returns or raises
  unfoldable pub after : Call → EventStore → EventStore
  after (reserve_call identity subject request_digest) s =
      (reserve rt j identity subject request_digest s).1
  after (get_call effect_id) s = (get_record rt j effect_id s).1
  after (unresolved_call subject) s = (unresolved_for_subject rt j subject s).1
  after (transition_call effect_id state result reason) s =
      (transition rt j effect_id state result reason s).1
  after (reconcile_call effect_id observed) s = (reconcile rt j effect_id observed s).1
  after (execute_call identity subject request_digest dispatch resolve) s =
      (execute rt j identity subject request_digest dispatch resolve s).1

  unfoldable pub after_all : List Call → EventStore → EventStore
  unfolding after
  after_all [] s = s
  after_all (c ∷ rest) s = after_all rest (after c s)

  get_record-Change :
      (effect_id : String) (s : EventStore) → Change rt j s (get_record rt j effect_id s).1
  unfolding get_record
  get_record-Change effect_id s = elim (Bool-cases (effect_id == "")) [
    | inl e ↦ rw e (kept refl)
    | inr e ↦ rw e (locked-Change rt j _ s (λ records h. kept refl))
  ]

  unresolved-Change :
      (subject : String) (s : EventStore) → Change rt j s (unresolved_for_subject rt j subject s).1
  unfolding unresolved_for_subject
  unresolved-Change subject s = elim (Bool-cases (subject == "")) [
    | inl e ↦ rw e (kept refl)
    | inr e ↦ rw e (locked-Change rt j _ s (λ records h. kept refl))
  ]

module _ (rt : Runtime) (j : EffectJournal) (started : 0 < j.generation.generation) where
  pub after-Change : (c : Call) (s : EventStore) → IsAllowed c → Change rt j s (after rt j c s)
  unfolding after
  after-Change (reserve_call identity subject request_digest) s a =
      reserve-Change rt j started identity subject request_digest s
  after-Change (get_call effect_id) s a = get_record-Change rt j effect_id s
  after-Change (unresolved_call subject) s a = unresolved-Change rt j subject s
  after-Change (transition_call effect_id state result reason) s a =
      transition-Change rt j started effect_id state result reason s
  after-Change (reconcile_call effect_id observed) s a =
      reconcile-Change rt j started effect_id observed s
  after-Change (execute_call identity subject request_digest dispatch resolve) s a =
      execute-Change rt j started identity subject request_digest dispatch resolve s a

  -- Whatever calls are made, failing or not, with values whose mappings have text keys, a journal that
  -- could be read can be read afterwards: no call leaves a record that the reader would refuse as
  -- malformed, misnamed or tampered. The writer's generation is at least 1, and no callback that
  -- reconciles changes the store.
  pub journal_stays_readable :
      (calls : List Call) (s : EventStore) {records : Records}
      → All IsAllowed calls
      → read_locked rt j s.journal ≡ ok records
      → (left : Records) × (read_locked rt j (after_all rt j calls s).journal ≡ ok left)
  unfolding after_all
  journal_stays_readable [] s {records} a h = (records, h)
  journal_stays_readable (c ∷ rest) s a h =
      let (left, h1) = Change-readable rt j (after-Change c s a.0) h in
      journal_stays_readable rest (after rt j c s) a.1 h1

  -- A completed record is final: whatever calls are made, failing or not, the journal still holds
  -- it under its key, unchanged. The writer's generation is at least 1, and no callback that
  -- reconciles changes the store.
  pub completed_is_final :
      (calls : List Call) (s : EventStore) (key : String) (r : Record)
      → All IsAllowed calls
      → Holds rt j key r s
      → Holds rt j key r (after_all rt j calls s)
  unfolding after_all
  completed_is_final [] s key r a h = h
  completed_is_final (c ∷ rest) s key r a h =
      completed_is_final rest (after rt j c s) key r a.1
        (Change-Holds rt j key r (after-Change c s a.0) h)
