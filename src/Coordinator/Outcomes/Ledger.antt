-- ===== src/Coordinator/Outcomes/Ledger.antt =====
-- The totals of the model calls agree with their history (execution_coordination/coordinator.py).
use nexus_runtime.Prelude.{
  String, Bool, true, false, ◌||◌, not, ◌≡◌, refl, subst, ap, ◌∙◌, Option, ◌==◌, elem,
}
use nexus_runtime.Prelude.Int.{pos, le_ℤ}
use nexus_runtime.Python.Value.{list, dict, Items, Fields, end, get, put, has, Runtime}
use nexus_runtime.Python.Raise.{Result, ok, err, require, >>=-eq-ok, require-eq-ok, ok-injective}
use nexus_runtime.Decision.ModelCall.{Verdict, resolution_statuses}
use nexus_runtime.Decision.ModelCall.Telemetry.{
  Telemetry, make_telemetry, telemetry_to_dict, outcome_kinds, recorded, some_calls, agrees,
  expected_not_eliminated,
}
use nexus_runtime.Coordinator.Effects.{StatePort, or_empty, fields_in}
use nexus_runtime.Coordinator.Outcomes.{
  OutcomeError, Outcome, Place, record_for, items_in, entry_for, totals_with, telemetry_made,
  durable_proof, with_proof, snapshot_after, store_proof, record_model_call_outcome,
}
use nexus_runtime.Coordinator.Outcomes.Totals.{
  Balanced, IsFlagged, Counts, get-put, totals_with-Balanced,
}

-- a record that is made has no negative counts, and those that it was given
make_telemetry-Counts :
    (rt : Runtime) (given : Telemetry (Option Bool)) {t : Telemetry Bool}
    → make_telemetry rt given ≡ ok t
    → Counts t
unfolding make_telemetry
make_telemetry-Counts rt given h =
    let (_, _, h1) = >>=-eq-ok (require (elem given.outcome outcome_kinds) _) _ h in
    let (_, _, h2) = >>=-eq-ok (require (elem given.resolution resolution_statuses) _) _ h1 in
    let (_, r, h3) = >>=-eq-ok (require (le_ℤ (pos 0) given.model_calls_required) _) _ h2 in
    let (_, i, h4) = >>=-eq-ok (require (le_ℤ (pos 0) given.model_calls_invoked) _) _ h3 in
    let (_, a, h5) = >>=-eq-ok (require (le_ℤ (pos 0) given.model_calls_avoided) _) _ h4 in
    let (_, _, h6) =
      >>=-eq-ok (require (not given.model_avoided || some_calls given.model_calls_avoided) _) _
        h5 in
    let (_, _, h7) =
      >>=-eq-ok (require (not (given.outcome == "MODEL_AVOIDED") || given.model_avoided) _) _ h6 in
    let (_, _, h8) =
      >>=-eq-ok
        (require (not (given.outcome == "MODEL_INVOKED") || some_calls given.model_calls_invoked) _)
        _ h7 in
    let (_, _, last) =
      >>=-eq-ok
        (require (agrees given.model_calls_not_eliminated (expected_not_eliminated given)) _) _
        h8 in
    subst Counts {x = recorded given} (ok-injective last) (record {
      required = require-eq-ok (le_ℤ (pos 0) given.model_calls_required) _ r;
      invoked = require-eq-ok (le_ℤ (pos 0) given.model_calls_invoked) _ i;
      avoided = require-eq-ok (le_ℤ (pos 0) given.model_calls_avoided) _ a;
    })

telemetry_made-ok :
    (r : Result String (Telemetry Bool)) {t : Telemetry Bool} → telemetry_made r ≡ ok t → r ≡ ok t
telemetry_made-ok (ok t) h = ap ok (ok-injective h)
telemetry_made-ok (err e) h = absurd (cc)

-- The ledger of a state: its history and its totals agree.
abbrev pub IsBalanced : Fields → Type 0
IsBalanced state =
    Balanced (items_in (get "model_call_resolutions" state))
      (fields_in (get "model_call_avoidance" state))

abbrev pub IsLedger : Items × Fields → Type 0
IsLedger (entries, totals) = Balanced entries totals × IsFlagged entries totals

-- The snapshot after a successful mutation has the values that were written.
abbrev pub IsStored : {World : Type 0} → StatePort World → Type 0
IsStored {World} port =
    (task_id : String) (new : Fields) (w w' : World) (key : String)
    → port.mutate_metadata task_id new w ≡ (ok tt, w')
    → has key new ≡ true
    → get key (or_empty (port.read_snapshot task_id w')) ≡ get key new

module _ {World : Type 0} (rt : Runtime) (port : StatePort World) (place : Place)
    (v : Verdict) where
  durable_proof-IsLedger :
      (o : Outcome) (state : Fields) {proof : Items × Fields}
      → IsBalanced state
      → durable_proof rt port place v o state ≡ ok proof
      → IsLedger proof
  unfolding durable_proof telemetry_to_dict
  durable_proof-IsLedger o state b h =
      let (t, made, h1) = >>=-eq-ok (telemetry_made (make_telemetry rt (record_for v o))) _ h in
      let (totals, added, h2) =
        >>=-eq-ok (totals_with t (fields_in (get "model_call_avoidance" state))) _ h1 in
      subst IsLedger (ok-injective h2) (
        totals_with-Balanced (items_in (get "model_call_resolutions" state))
          (dict (entry_for place t)) t (fields_in (get "model_call_avoidance" state))
          (make_telemetry-Counts rt (record_for v o)
            (telemetry_made-ok (make_telemetry rt (record_for v o)) made))
          refl refl refl b added)

  -- what a record leaves, unless it raises
  abbrev pub Leaves : Result OutcomeError Fields × World → Type 0
  Leaves (err e, w) = Unit
  Leaves (ok state, w) =
      IsBalanced state
      × IsFlagged (items_in (get "model_call_resolutions" state))
          (fields_in (get "model_call_avoidance" state))

  read_back :
      (entries : Items) (totals state : Fields)
      → IsLedger (entries, totals)
      → get "model_call_resolutions" state ≡ list entries
      → get "model_call_avoidance" state ≡ dict totals
      → IsBalanced state
        × IsFlagged
            (items_in (get "model_call_resolutions" state))
            (fields_in (get "model_call_avoidance" state))
  read_back entries totals state ledger is_entries is_totals = rw (is_entries, is_totals) ledger

  with_proof-entries :
      (entries : Items) (totals state : Fields)
      → get "model_call_resolutions" (with_proof rt port place v (entries, totals) state)
        ≡ list entries
  with_proof-entries entries totals state =
      get-put "model_call_avoidance" "model_call_resolutions" (dict totals)
        (put "model_call_resolutions" (list entries) state)
      ∙ get-put "model_call_resolutions" "model_call_resolutions" (list entries) state

  with_proof-totals :
      (entries : Items) (totals state : Fields)
      → get "model_call_avoidance" (with_proof rt port place v (entries, totals) state)
        ≡ dict totals
  with_proof-totals entries totals state =
      get-put "model_call_avoidance" "model_call_avoidance" (dict totals)
        (put "model_call_resolutions" (list entries) state)

  stored :
      IsStored port
      → (entries : Items) (totals : Fields) (w : World) (r : Result String (Unit {0})) (w' : World)
      → port.mutate_metadata place.task_id (with_proof rt port place v (entries, totals) end) w
        ≡ (r, w')
      → IsLedger (entries, totals)
      → Leaves (snapshot_after rt port place v (r, w'))
  stored keeps entries totals w (err e) w' h ledger = tt
  stored keeps entries totals w (ok tt) w' h ledger =
      read_back entries totals (or_empty (port.read_snapshot place.task_id w')) ledger
        (keeps place.task_id (with_proof rt port place v (entries, totals) end) w w'
          "model_call_resolutions" h refl)
        (keeps place.task_id (with_proof rt port place v (entries, totals) end) w w'
          "model_call_avoidance" h refl)

  recorded-Leaves :
      IsStored port
      → (gated : Bool) (w : World) (r : Result OutcomeError (Items × Fields))
      → ((proof : Items × Fields) → r ≡ ok proof → IsLedger proof)
      → Leaves
          (elim r [ err e ↦ (err e, w) | ok proof ↦ store_proof rt port place v gated proof w ])
  recorded-Leaves keeps gated w (err e) ledger = tt
  recorded-Leaves keeps true w (ok (entries, totals)) ledger =
      stored keeps entries totals w _ _ refl (ledger (entries, totals) refl)
  recorded-Leaves keeps false w (ok (entries, totals)) ledger =
      read_back entries totals
        (with_proof rt port place v (entries, totals)
          (or_empty (port.read_snapshot place.task_id w)))
        (ledger (entries, totals) refl)
        (with_proof-entries entries totals (or_empty (port.read_snapshot place.task_id w)))
        (with_proof-totals entries totals (or_empty (port.read_snapshot place.task_id w)))

  -- Where the totals of a task are the sums over its history, they are so in the state that a record
  -- returns, and they say that no call is left only where none was made and as many were avoided as
  -- required, for a state port that gives back what was written.
  pub record_model_call_outcome-Leaves :
      IsStored port
      → (gated : Bool) (o : Outcome) (w : World)
      → IsBalanced (or_empty (port.read_snapshot place.task_id w))
      → Leaves (record_model_call_outcome rt port place v gated o w)
  unfolding record_model_call_outcome
  record_model_call_outcome-Leaves keeps gated o w b =
      recorded-Leaves keeps gated w
        (durable_proof rt port place v o (or_empty (port.read_snapshot place.task_id w)))
        (λ proof h. durable_proof-IsLedger o (or_empty (port.read_snapshot place.task_id w)) b h)
