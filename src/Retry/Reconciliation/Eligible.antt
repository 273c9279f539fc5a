-- ===== src/Retry/Reconciliation/Eligible.antt =====
-- Exactly when a repair is admitted (task_retry/bounded_reconciliation.py).
use Prim.Native.String.{◌++◌ as concat}
use nexus_runtime.Prelude.{
  ℕ, zero, ◌≡◌, refl, String, Bool, true, false, List, [], ◌∷◌, All, some, arith, ltb, ◌==◌,
  eq_refl, ==→≡, ap, ◌∙◌, Bool-cases, inl, inr,
}
use nexus_runtime.Prelude.Int.{pos}
use nexus_runtime.Python.Value.{
  Value, bool, int, str, dict, Fields, get, text_or_empty, Runtime, eq_text,
}
use nexus_runtime.Python.Raise.{Result, ok, err, ◌>>=◌, ◌>>◌, require}
use nexus_runtime.Retry.Packet.{Packet, from_mapping, sha256}
use nexus_runtime.Retry.Reconciliation.{
  Decision, eligible, ineligible, eligible_decision, current_repair_round, settle, Step, otherwise,
  mapping, check_packet, check_bindings, bindings, evaluate_fields, evaluate_bounded_reconciliation,
  is_false, is_zero,
}

-- Each check of the evaluation has been passed where the decision is a repair.
require-eligible :
    (b : Bool) (d : Decision) (rest : Step Decision)
    → eligible d ≡ false
    → eligible (settle (require b d >> rest)) ≡ true
    → (b ≡ true) × (eligible (settle rest) ≡ true)
require-eligible true d rest never h = (refl, h)
require-eligible false d rest never h = cc

mapping-eligible :
    (v : Value) (d : Decision) (f : Fields → Step Decision)
    → eligible d ≡ false
    → eligible (settle (mapping v d >>= f)) ≡ true
    → (fs : Fields) × (v ≡ dict fs) × (eligible (settle (f fs)) ≡ true)
mapping-eligible (dict fs) d f never h = (fs, refl, h)
mapping-eligible _ d f never h = absurd (cc)

otherwise-eligible {ℓ} :
    {A : Type ℓ} (m : Result String A) (g : String → Decision) (f : A → Step Decision)
    → ((e : String) → eligible (g e) ≡ false)
    → eligible (settle (otherwise m g >>= f)) ≡ true
    → (a : A) × (m ≡ ok a) × (eligible (settle (f a)) ≡ true)
otherwise-eligible (ok a) g f never h = (a, refl, h)
otherwise-eligible (err e) g f never h = absurd (cc (never e))

eq_text→≡ : (v : Value) (s : String) → eq_text v s ≡ true → v ≡ str s
eq_text→≡ (str t) s h = ap str (==→≡ t s h)
eq_text→≡ _ s h = cc

abbrev pub Agrees : String × Value × String → Type 0
Agrees (observed, expected, name) = expected ≡ str observed

bindings-eligible :
    (checks : List (String × Value × String)) (f : String → Decision) (d : Decision)
    → ((reason : String) → eligible (f reason) ≡ false)
    → eligible (settle (check_bindings checks f >> ok d)) ≡ true
    → All Agrees checks
bindings-eligible [] f d never h = tt
bindings-eligible ((observed, expected, name) ∷ rest) f d never h =
    elim (Bool-cases (eq_text expected observed)) [
      | inl same ↦
          (eq_text→≡ expected observed same, bindings-eligible rest f d never (rw same at h))
      | inr other ↦ absurd (cc (never (concat "residual_binding_mismatch:" name), rw other at h))
    ]

bindings-agree :
    (checks : List (String × Value × String)) (f : String → Decision)
    → All Agrees checks
    → check_bindings checks f ≡ ok tt
bindings-agree [] f h = refl
bindings-agree ((observed, expected, name) ∷ rest) f h =
    rw (h.0, eq_refl observed) (bindings-agree rest f h.1)

is_false→≡ : (v : Value) → is_false v ≡ true → v ≡ bool false
is_false→≡ (bool b) h = ground arith
is_false→≡ _ h = cc

is_zero→≡ : (v : Value) → is_zero v ≡ true → v ≡ int (pos 0)
is_zero→≡ (int (pos zero)) h = refl
is_zero→≡ _ h = cc

round_zero : (n : ℕ) → ltb n 1 ≡ true → n ≡ 0
round_zero n h = ground arith

module _ (rt : Runtime) where
  -- What the state must say of the blocked attempt and of the packet: no effect is in flight, and
  -- the packet is a clean semantic reject whose eight identities are those of the state.
  pub record Conditions (state identity verifier : Fields) (p : Packet) (candidate : String)
      : Type 0 where
    pub status : text_or_empty rt (get "status" state) ≡ "FINAL_BLOCK"
    pub acceptance : text_or_empty rt (get "acceptance_decision" state) ≡ "REPAIRABLE"
    pub semantic : p.failure_class ≡ "CLEAN_SEMANTIC_REJECT"
    pub no_external_effect : get "has_unresolved_external_effect" state ≡ bool false
    pub no_active_effect : get "active_effect_count" state ≡ int (pos 0)
    pub has_identity : get "candidate_identity" state ≡ dict identity
    pub has_verifier : get "verifier_identity" state ≡ dict verifier
    pub candidate_digest :
        sha256 (get "candidate_sha256" identity) "candidate_identity.candidate_sha256"
        ≡ ok candidate
    pub same_identities : All Agrees (bindings p state identity verifier candidate)

  -- What a repair needs, said without the order of the checks.
  pub record Repairable (state request identity verifier : Fields) (p : Packet) (candidate : String)
      : Type 0 where
    pub has_request : get "request" state ≡ dict request
    pub first_round : current_repair_round request ≡ ok 0
    pub conditions : Conditions state identity verifier p candidate

  -- A repair is admitted whenever these conditions hold.
  pub Repairable-eligible :
      (state request identity verifier : Fields) (p : Packet) (candidate : String)
      (residual : Value)
      → from_mapping rt residual ≡ ok p
      → Repairable state request identity verifier p candidate
      → evaluate_bounded_reconciliation rt (dict state) residual ≡ eligible_decision p 0
  unfolding evaluate_bounded_reconciliation evaluate_fields check_packet
  Repairable-eligible state request identity verifier p candidate residual parsed h =
      let c = h.conditions in
      rw
        (
          h.has_request, h.first_round, parsed, c.status, c.acceptance, c.semantic,
          c.no_external_effect, c.no_active_effect, c.has_identity, c.has_verifier,
          c.candidate_digest,
        )
        (rw (
          bindings-agree (bindings p state identity verifier candidate)
            (λ reason. ineligible reason (some p.packet_sha256) 0) c.same_identities))

  check_packet-Conditions :
      (state : Fields) (p : Packet) (round : ℕ)
      → eligible (settle (check_packet rt state p round)) ≡ true
      → (identity verifier : Fields) × (candidate : String) × Conditions state identity verifier p
          candidate
  unfolding check_packet
  check_packet-Conditions state p round h4 =
      let (status, h5) =
        require-eligible (text_or_empty rt (get "status" state) == "FINAL_BLOCK") _ _ refl h4 in
      let (acceptance, h6) =
        require-eligible (text_or_empty rt (get "acceptance_decision" state) == "REPAIRABLE") _ _
          refl h5 in
      let (semantic, h7) =
        require-eligible (p.failure_class == "CLEAN_SEMANTIC_REJECT") _ _ refl h6 in
      let (external, h8) =
        require-eligible (is_false (get "has_unresolved_external_effect" state)) _ _ refl h7 in
      let (active, h9) = require-eligible (is_zero (get "active_effect_count" state)) _ _ refl h8 in
      let (identity, has_identity, h10) =
        mapping-eligible (get "candidate_identity" state) _ _ refl h9 in
      let (verifier, has_verifier, h11) =
        mapping-eligible (get "verifier_identity" state) _ _ refl h10 in
      let (candidate, digest, h12) =
        otherwise-eligible
          (sha256 (get "candidate_sha256" identity) "candidate_identity.candidate_sha256") _ _
          (λ e. refl) h11 in
      let agree =
        bindings-eligible (bindings p state identity verifier candidate)
          (λ reason. ineligible reason (some p.packet_sha256) round) (eligible_decision p round)
          (λ r. refl) h12 in
      (
        identity,
        verifier,
        candidate,
        record {
          status = ==→≡ _ _ status;
          acceptance = ==→≡ _ _ acceptance;
          semantic = ==→≡ _ _ semantic;
          no_external_effect = is_false→≡ _ external;
          no_active_effect = is_zero→≡ _ active;
          has_identity = has_identity;
          has_verifier = has_verifier;
          candidate_digest = digest;
          same_identities = agree;
        },
      )

  -- A repair is admitted only if the residual is a valid packet and these conditions hold.
  pub eligible-Repairable :
      (state : Fields) (residual : Value)
      → eligible (evaluate_bounded_reconciliation rt (dict state) residual) ≡ true
      → (request identity verifier : Fields) × (p : Packet) × (candidate : String) × (from_mapping
            rt residual
          ≡ ok p)
        × Repairable state request identity verifier p candidate
  unfolding evaluate_bounded_reconciliation evaluate_fields
  eligible-Repairable state residual h =
      let (request, has_request, h1) = mapping-eligible (get "request" state) _ _ refl h in
      let (round, current, h2) =
        otherwise-eligible (current_repair_round request) _ _ (λ e. refl) h1 in
      let (first, h3) = require-eligible (ltb round 1) _ _ refl h2 in
      let (p, parsed, h4) = otherwise-eligible (from_mapping rt residual) _ _ (λ e. refl) h3 in
      let (identity, verifier, candidate, conditions) = check_packet-Conditions state p round h4 in
      (
        request,
        identity,
        verifier,
        p,
        candidate,
        parsed,
        record {
          has_request = has_request;
          first_round = current ∙ ap ok (round_zero round first);
          conditions = conditions;
        },
      )
