-- ===== src/Coordinator/Outcomes/Consumed.antt =====
-- Which receipts take the place of a model call (execution_coordination/coordinator.py).
use nexus_runtime.Prelude.{
  String, Bool, true, false, ◌≡◌, refl, sym, subst, ap, Option, none, some, ◌==◌, Bool-cases, inl,
  inr, ◌⊎◌, arith,
}
use nexus_runtime.Prelude.Int.{ℤ, pos, negsuc, eq_ℤ}
use nexus_runtime.Python.Number.{int_of}
use nexus_runtime.Python.Value.{
  Value, null, bool, int, Fields, truthy, eq_text, is_null, or_else, Runtime,
}
use nexus_runtime.Python.Raise.{Result, ok, err, ok-injective}
use nexus_runtime.Decision.ModelCall.{Verdict, is_end}
use nexus_runtime.Coordinator.Effects.{StatePort}
use nexus_runtime.Coordinator.Outcomes.{
  OutcomeError, Place, WorkerReceipt, attribute, or_one, reported, is_complete, claims_no_calls,
  Choice, model_path, preserved, consume, choose_receipt, choose, avoided, still_required,
  record_model_call_outcome, then_snapshot, act_on, first_outcome, consume_model_call_verdict,
}

-- the value is zero, or counts as zero
abbrev pub IsZero : Value → Type 0
IsZero v = int_of (or_else v (int (pos 0))) ≡ some (pos 0)

module _ (receipt_from_state : Fields → Result String (Option WorkerReceipt)) (v : Verdict) where
  -- The receipt may take the place of the call: the verdict was resolved with evidence that reads as this
  -- receipt, which says that the work is done, with its evidence, and that no provider was called.
  pub record Usable (r : WorkerReceipt) : Type 0 where
    pub resolved : (v.resolution == "RESOLVED_DETERMINISTICALLY") ≡ true
    pub given : is_end v.deterministic_receipt ≡ false
    pub reads : receipt_from_state v.deterministic_receipt ≡ ok (some r)
    pub completed : eq_text (attribute r.outcome null) "EXECUTION_COMPLETED" ≡ true
    pub evidenced : truthy (attribute r.evidence_complete (bool false)) ≡ true
    pub no_calls : IsZero (attribute r.provider_calls (int (pos 0)))
    pub no_attempts :
        (is_null (attribute r.provider_attempt_count (int (pos 0))) ≡ true)
        ⊎ IsZero (attribute r.provider_attempt_count (int (pos 0)))

  -- what an answer says of the verdict
  abbrev pub Decided : Option WorkerReceipt → Type 0
  Decided (some r) = Usable r
  Decided none = (r : WorkerReceipt) → ¬ (Usable r)

read_zero : (o : Option ℤ) → eq_ℤ (or_one o) (pos 0) ≡ true → o ≡ some (pos 0)
read_zero none h = absurd (cc)
read_zero (some (pos n)) h = ap (λ m. some (pos m)) (ground arith)
read_zero (some (negsuc n)) h = absurd (cc)

reported-IsZero : (v : Value) → eq_ℤ (reported v) (pos 0) ≡ true → IsZero v
reported-IsZero v h = read_zero (int_of (or_else v (int (pos 0)))) h

IsZero-reported : (v : Value) → IsZero v → eq_ℤ (reported v) (pos 0) ≡ true
IsZero-reported v h = ap (λ o. eq_ℤ (or_one o) (pos 0)) h

-- what a choice gives to the caller
abbrev taken : Choice → Option WorkerReceipt
taken (consume r) = some r
taken _ = none

module _ (receipt_from_state : Fields → Result String (Option WorkerReceipt)) (v : Verdict) where
  usable :
      (r : WorkerReceipt)
      → (v.resolution == "RESOLVED_DETERMINISTICALLY") ≡ true
      → is_end v.deterministic_receipt ≡ false
      → receipt_from_state v.deterministic_receipt ≡ ok (some r)
      → is_complete r ≡ true
      → claims_no_calls r ≡ true
      → Usable receipt_from_state v r
  usable r asked given reads completed no_calls = record {
    resolved = asked;
    given = given;
    reads = reads;
    completed = ground arith;
    evidenced = ground arith;
    no_calls = reported-IsZero (attribute r.provider_calls (int (pos 0))) (ground arith);
    no_attempts = elim (Bool-cases (is_null (attribute r.provider_attempt_count (int (pos 0))))) [
      | inl absent ↦ inl absent
      | inr there ↦
          inr (reported-IsZero (attribute r.provider_attempt_count (int (pos 0))) (ground arith))
    ];
  }

  Usable-claims :
      (r : WorkerReceipt)
      → Usable receipt_from_state v r
      → (is_complete r ≡ true) × (claims_no_calls r ≡ true)
  Usable-claims r u = (
    rw (u.completed, u.evidenced),
    elim u.no_attempts [
      | inl absent ↦
          rw (IsZero-reported (attribute r.provider_calls (int (pos 0))) u.no_calls, absent)
      | inr zero ↦ ground (
        arith,
        IsZero-reported (attribute r.provider_calls (int (pos 0))) u.no_calls,
        IsZero-reported (attribute r.provider_attempt_count (int (pos 0))) zero,
      )
    ],
  )

  chosen-Decided :
      (answer : Result String (Option WorkerReceipt))
      → (v.resolution == "RESOLVED_DETERMINISTICALLY") ≡ true
      → is_end v.deterministic_receipt ≡ false
      → receipt_from_state v.deterministic_receipt ≡ answer
      → Decided receipt_from_state v (taken (choose_receipt answer))
  chosen-Decided (err e) asked given reads = λ r u. absurd (cc (u.reads, reads))
  chosen-Decided (ok none) asked given reads = λ r u. absurd (cc (u.reads, reads))
  chosen-Decided (ok (some r)) asked given reads = elim (Bool-cases (is_complete r)) [
    | inr incomplete ↦
        rw incomplete (λ x u. absurd (cc (u.reads, reads, (Usable-claims x u).0, incomplete)))
    | inl complete ↦ elim (Bool-cases (claims_no_calls r)) [
      | inl none_called ↦
          rw (complete, none_called) (usable r asked given reads complete none_called)
      | inr called ↦
          rw (complete, called) (λ x u. absurd (cc (u.reads, reads, (Usable-claims x u).1, called)))
    ]
  ]

  choose-Decided : Decided receipt_from_state v (taken (choose receipt_from_state v))
  unfolding choose
  choose-Decided = elim (Bool-cases (v.resolution == "RESOLVED_DETERMINISTICALLY")) [
    | inr other ↦ rw other (λ r u. absurd (cc (u.resolved, other)))
    | inl asked ↦ elim (Bool-cases (is_end v.deterministic_receipt)) [
      | inl missing ↦ rw (asked, missing) (λ r u. absurd (cc (u.given, missing)))
      | inr given ↦
          rw (asked, given)
            (chosen-Decided (receipt_from_state v.deterministic_receipt) asked given refl)
    ]
  ]

module _ {World : Type 0} (rt : Runtime) (port : StatePort World) (place : Place)
    (v : Verdict) where
  then_snapshot-answer :
      (given : Option WorkerReceipt) (outcome : Result OutcomeError Fields × World) {state : Fields}
      {answer : Option WorkerReceipt} {w : World}
      → then_snapshot rt port place v given outcome ≡ (ok (state, answer), w)
      → answer ≡ given
  then_snapshot-answer given (ok s, w) h = sym (ap (λ x. x.1) (ok-injective (ap (λ x. x.0) h)))
  then_snapshot-answer given (err e, w) h = absurd (cc (ap (λ x. x.0) h))

  act_on-answer :
      (gated : Bool) (choice : Choice) (outcome : Result OutcomeError Fields × World)
      {state : Fields} {answer : Option WorkerReceipt} {w : World}
      → act_on rt port place v gated choice outcome ≡ (ok (state, answer), w)
      → answer ≡ taken choice
  unfolding act_on
  act_on-answer gated choice (err e, w) h = absurd (cc (ap (λ x. x.0) h))
  act_on-answer gated model_path (ok s, w) h = sym (ap (λ x. x.1) (ok-injective (ap (λ x. x.0) h)))
  act_on-answer gated (preserved reason) (ok s, w) h =
      then_snapshot-answer none
        (record_model_call_outcome rt port place v gated (still_required reason) w) h
  act_on-answer gated (consume r) (ok s, w) h =
      then_snapshot-answer (some r) (record_model_call_outcome rt port place v gated avoided w) h

  -- Where the verdict is consumed without an exception, a receipt takes the place of the model call only
  -- if the verdict was resolved with a complete receipt that claims no calls, and the model path is kept
  -- only if no receipt is such a one.
  pub consume_model_call_verdict-Decided :
      (receipt_from_state : Fields → Result String (Option WorkerReceipt)) (gated : Bool)
      (w : World) (state : Fields) (answer : Option WorkerReceipt) (w' : World)
      → consume_model_call_verdict rt port place v receipt_from_state gated w
        ≡ (ok (state, answer), w')
      → Decided receipt_from_state v answer
  unfolding consume_model_call_verdict
  consume_model_call_verdict-Decided receipt_from_state gated w state answer w' h =
      subst (Decided receipt_from_state v)
        (sym (
          act_on-answer gated (choose receipt_from_state v)
            (record_model_call_outcome rt port place v gated (first_outcome rt port place v) w) h))
        (choose-Decided receipt_from_state v)
