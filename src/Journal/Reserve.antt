-- ===== src/Journal/Reserve.antt =====
-- `reserve`, `get` and `unresolved_for_subject` of `EffectJournal` (kernel/events/effect_journal.py).
use nexus_runtime.Prelude.{
  String, Bool, ◌&&◌, not, Option, none, some, List, lookup, insert, filter, map, ◌==◌,
  if◌then◌else◌,
}
use nexus_runtime.Python.Value.{Value, is_text, eq_text, Runtime}
use nexus_runtime.Python.Raise.{Result, ok, err, ◌>>=◌, ◌>>◌, require}
use nexus_runtime.Journal.Error.{Error, effect_journal_error, effect_identity_mismatch}
use nexus_runtime.Journal.Record.{Record, completed, operation_digest, effect_id_of}
use nexus_runtime.Journal.Read.{Records, EffectJournal}
use nexus_runtime.Journal.Store.{
  attempt, Action, write, fresh_record, bound_to, mismatch, locked, same_request,
}

module _ (rt : Runtime) (j : EffectJournal) where
  -- the checks of `reserve` before it takes the lock
  unfoldable pub reservation : Value → Value → Value → Result Error String
  reservation identity subject request_digest = do
    op ← operation_digest rt identity
    require (is_text subject && is_text request_digest)
        (effect_journal_error "EFFECT_BINDING_REQUIRED")
    require (same_request identity request_digest)
        (effect_identity_mismatch "EFFECT_REQUEST_DIGEST_MISMATCH")
    ok op

  unfoldable pub reserve_record : String → Value → Value → Records → Option Record → Action Record
  reserve_record op subject request_digest records (some old) s =
      if bound_to j op subject request_digest old then (ok old, s) else (err mismatch, s)
  reserve_record op subject request_digest records none s =
      let r = fresh_record rt j op subject request_digest in
      (ok r, write (insert (effect_id_of op) r records) s)

  unfoldable pub reserve : Value → Value → Value → Action Record
  reserve identity subject request_digest =
      attempt (reservation identity subject request_digest) (λ op. locked rt j (λ records.
        reserve_record op subject request_digest records (lookup (effect_id_of op) records)))

  -- `get`
  unfoldable pub get_record : String → Action (Option Record)
  get_record effect_id s =
      if effect_id == ""
      then (err (effect_journal_error "EFFECT_ID_REQUIRED"), s)
      else locked rt j (λ records t. (ok (lookup effect_id records), t)) s

  abbrev pub is_unresolved : String → String × Record → Bool
  is_unresolved subject (key, r) = eq_text r.subject subject && not (completed r)

  unfoldable pub unresolved_for_subject : String → Action (List Record)
  unresolved_for_subject subject s =
      if subject == ""
      then (err (effect_journal_error "EFFECT_BINDING_REQUIRED"), s)
      else locked rt j
          (λ records t. (
            ok (
                map (λ (entry : String × Record). entry.1)
                  (filter (is_unresolved subject) records)),
            t,
          ))
          s
