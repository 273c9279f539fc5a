-- ===== src/Coordinator/Escalation/Bounded.antt =====
-- An escalation goes to a worker that was not tried, so it ends (execution_coordination/coordinator.py).
use nexus_runtime.Prelude.{
  String, Bool, true, false, ◌≡◌, refl, subst, List, [], ◌∷◌, elem, Option, none, some, Bool-cases,
  inl, inr, arith, eq_refl, if◌then◌else◌,
}
use nexus_runtime.Python.Value.{Runtime}
use nexus_runtime.Coordinator.Escalation.{
  Receipt, EscalationDecision, mutated, completed, first_other, failure_is_deterministic, escalate,
  decide_after, block,
}

first_other-some :
    (order tried : List String) (p : String)
    → first_other order tried ≡ some p
    → (elem p order ≡ true) × (elem p tried ≡ false)
first_other-some [] tried p h = absurd (cc)
first_other-some (q ∷ order) tried p h = elim (Bool-cases (elem q tried)) [
  | inl old ↦
      let (listed, new) =
        first_other-some order tried p
          (subst (λ b. (if b then first_other order tried else some q) ≡ some p) old h) in
      (ground (arith, listed), new)
  | inr new ↦
      let same : q ≡ p =
        cc (subst (λ b. (if b then first_other order tried else some q) ≡ some p) new h) in
      subst (λ x. (elem x (q ∷ order) ≡ true) × (elem x tried ≡ false)) same (rw (eq_refl q), new)
]

-- Why an escalation is decided: the latest attempt neither changed the repository nor completed nor
-- failed for good, and the next provider is the first of the order that was not tried.
pub record Escalates (rt : Runtime) (order : List String) (latest : Receipt) (tried : List String)
    (p : String) : Type 0 where
  pub harmless : mutated latest ≡ false
  pub not_completed : completed latest ≡ false
  pub may_succeed : failure_is_deterministic rt latest ≡ false
  pub next : first_other order tried ≡ some p
  pub listed : elem p order ≡ true
  pub new : elem p tried ≡ false

module _ (rt : Runtime) where
  escalate-Some :
      (latest : Receipt) (o : Option String)
      → (escalate rt latest o).action ≡ "ESCALATE"
      → (p : String) × (o ≡ some p) × ((escalate rt latest o).next_provider ≡ some p)
  escalate-Some latest (some p) h = (p, refl, refl)
  escalate-Some latest none h = absurd (cc)

  -- the decision, by the three tests and the next provider
  abbrev by_tests : Bool → Bool → Bool → Receipt → Option String → EscalationDecision
  by_tests a b c latest o =
      if a
      then block "worker attempted a forbidden repository mutation"
      else if b
      then record {
        action = "VERIFY";
        next_provider = none;
        reason = "worker execution completed; verification required";
      }
      else if c
      then block "deterministic worker failure must not escalate"
      else escalate rt latest o

  by_tests-escalate :
      (a b c : Bool) (latest : Receipt) (o : Option String)
      → (by_tests a b c latest o).action ≡ "ESCALATE"
      → (a ≡ false)
        × (b ≡ false)
        × (c ≡ false)
        × ((p : String) × (o ≡ some p) × ((by_tests a b c latest o).next_provider ≡ some p))
  by_tests-escalate true b c latest o h = absurd (cc)
  by_tests-escalate false true c latest o h = absurd (cc)
  by_tests-escalate false false true latest o h = absurd (cc)
  by_tests-escalate false false false latest o h = (refl, refl, refl, escalate-Some latest o h)

  -- A decision to escalate names a listed provider that was not tried, after an attempt that neither
  -- changed the repository nor completed nor failed for good.
  pub decide_after-Escalates :
      (order : List String) (latest : Receipt) (tried : List String)
      → (decide_after rt order latest tried).action ≡ "ESCALATE"
      → (p : String) × ((decide_after rt order latest tried).next_provider ≡ some p)
        × Escalates rt order latest tried p
  unfolding decide_after
  decide_after-Escalates order latest tried h =
      let (harmless, open_end, may, (p, next, is_p)) =
        by_tests-escalate (mutated latest) (completed latest) (failure_is_deterministic rt latest)
          latest (first_other order tried) h in
      let (listed, new) = first_other-some order tried p next in
      (
        p,
        is_p,
        record {
          harmless = harmless;
          not_completed = open_end;
          may_succeed = may;
          next = next;
          listed = listed;
          new = new;
        },
      )
