-- ===== src/Decision/Bounded/Contract.antt =====
-- What a packet is bound to (execution_coordination/bounded_decision.py).
use nexus_runtime.Prelude.{
  ◌≡◌, refl, String, Bool, true, false, not, List, elem, Option, none, some, ◌==◌, ==→≡, eq_iff,
  eq_refl, ap, sym, subst, ◌∙◌, Bool-cases, inl, inr, arith,
}
use nexus_runtime.Python.Text.{is_empty, strip}
use nexus_runtime.Python.Value.{
  Value, list, dict, Items, nil, cons, Fields, end, get, to_text, text_or_empty, Runtime,
}
use nexus_runtime.Python.Raise.{
  Result, ok, err, ◌>>=◌, ◌>>◌, require, >>=-eq-ok, require-eq-ok, ok-injective,
}
use nexus_runtime.Decision.Json.{normalize_fields}
use nexus_runtime.Decision.ModelCall.{Verdict}
use nexus_runtime.Decision.Bounded.{
  Candidate, normalized_candidates, Eligibility, Step, settle, otherwise, as_items, as_fields,
  safe_families, check_contract, is_none, content_digest, protected_values, family_of,
  classify_state, classify_bounded_decision,
}
use nexus_runtime.Decision.Bounded.Complete.{Complete, check_contract-Complete}
use nexus_runtime.Decision.Bounded.Packet.{
  Packet, as_mapping, refuse, content_sha256_of, verify, assemble, bound_fields, sign,
  build_bounded_decision_packet,
}

-- Each early return of the classification is passed where the decision is eligible.
abbrev pub is_eligible : Eligibility → Bool
is_eligible e = e.disposition == "BOUNDED_DECISION_ELIGIBLE"

require-eligible :
    (b : Bool) (e : Eligibility) (rest : Step Eligibility)
    → is_eligible e ≡ false
    → is_eligible (settle (require b e >> rest)) ≡ true
    → (b ≡ true) × (is_eligible (settle rest) ≡ true)
require-eligible true e rest never h = (refl, h)
require-eligible false e rest never h = cc

fields-eligible :
    (v : Value) (e : Eligibility) (f : Fields → Step Eligibility)
    → is_eligible e ≡ false
    → is_eligible (settle (as_fields v e >>= f)) ≡ true
    → (fs : Fields) × (v ≡ dict fs) × (is_eligible (settle (f fs)) ≡ true)
fields-eligible (dict fs) e f never h = (fs, refl, h)
fields-eligible _ e f never h = absurd (cc)

items-eligible :
    (v : Value) (e : Eligibility) (f : Items → Step Eligibility)
    → is_eligible e ≡ false
    → is_eligible (settle (as_items v e >>= f)) ≡ true
    → (vs : Items) × (v ≡ list vs) × (is_eligible (settle (f vs)) ≡ true)
items-eligible (list vs) e f never h = (vs, refl, h)
items-eligible _ e f never h = absurd (cc)

otherwise-eligible {ℓ} :
    {A : Type ℓ} (m : Result String A) (g : String → Eligibility) (f : A → Step Eligibility)
    → ((x : String) → is_eligible (g x) ≡ false)
    → is_eligible (settle (otherwise m g >>= f)) ≡ true
    → (a : A) × (m ≡ ok a) × (is_eligible (settle (f a)) ≡ true)
otherwise-eligible (ok a) g f never h = (a, refl, h)
otherwise-eligible (err x) g f never h = absurd (cc (never x))

pub mapping-ok :
    (v : Value) (message : String) {fs : Fields} → as_mapping v message ≡ ok fs → v ≡ dict fs
mapping-ok (dict gs) message h = ap dict (ok-injective h)
mapping-ok _ message h = absurd (cc)

pub refuse-ok : (m : Option String) {u : Unit {0}} → refuse m ≡ ok u → m ≡ none
refuse-ok none h = refl
refuse-ok (some key) h = cc

is_empty→≡ : (s : String) → is_empty s ≡ true → s ≡ ""
is_empty→≡ String.[] h = refl
is_empty→≡ (String.◌∷◌ c s) h = cc

safe-family : (s : String) → elem s safe_families ≡ true → s ≡ "repair_candidate_choice"
safe-family s h = ground (arith, eq_iff "repair_candidate_choice" s)

module _ (rt : Runtime) where
  -- Every item's text is blank.
  abbrev pub AllBlank : Items → Type 0
  AllBlank nil = Unit
  AllBlank (cons v vs) = (strip (to_text rt v) ≡ "") × AllBlank vs

  protected_values-AllBlank : (vs : Items) → is_none (protected_values rt vs) ≡ true → AllBlank vs
  unfolding strip
  protected_values-AllBlank nil h = tt
  protected_values-AllBlank (cons v vs) h = elim (Bool-cases (is_empty (strip (to_text rt v)))) [
    | inl blank ↦ (is_empty→≡ _ blank, protected_values-AllBlank vs (rw blank at h))
    | inr filled ↦ absurd (cc (rw filled at h))
  ]

  -- What an eligible decision says of the model call's verdict and of the state.
  pub record Bounded (verdict : Verdict) (state : Fields) : Type 0 where
    pub needed : verdict.resolution ≡ "MODEL_NEEDED"
    pub normal : Fields
    pub normalized : normalize_fields state "structured_state" end ≡ ok normal
    pub bound : verdict.structured_state_digest ≡ rt.digest (dict normal)
    pub family : strip (text_or_empty rt (get "decision_family" state)) ≡ "repair_candidate_choice"
    pub protected : Items
    pub has_protected : get "protected_authority_requirements" state ≡ list protected
    pub unprotected : AllBlank protected
    pub candidates : List Candidate
    pub complete : Complete state candidates

  content_digest-digest :
      (state : Fields) {digest : String}
      → content_digest rt state ≡ ok digest
      → (normal : Fields) × (normalize_fields state "structured_state" end ≡ ok normal)
        × (digest ≡ rt.digest (dict normal))
  unfolding content_digest
  content_digest-digest state h =
      let (normal, is, h1) = >>=-eq-ok (normalize_fields state "structured_state" end) _ h in
      (normal, is, ok-injective (sym h1))

  -- A decision is eligible only where a model is needed, the verdict carries the digest of the
  -- normalized state, the family is `repair_candidate_choice`, every text of the protected authority
  -- requirements is blank, there are at least two candidates with different ids and an evidence
  -- reference, and the task, the repository, the revision, the verifier and the claim ceiling are texts
  -- that are not blank.
  pub classify-Bounded :
      (verdict : Verdict) (structured_state : Value)
      → is_eligible (classify_bounded_decision rt verdict structured_state) ≡ true
      → (state : Fields) × (structured_state ≡ dict state) × Bounded verdict state
  unfolding classify_bounded_decision classify_state strip
  classify-Bounded verdict structured_state h =
      let (_, h1) =
        require-eligible (not (verdict.resolution == "RESOLVED_DETERMINISTICALLY")) _ _ refl h in
      let (_, h2) =
        require-eligible (not (verdict.resolution == "INSUFFICIENT_STRUCTURED_STATE")) _ _ refl
          h1 in
      let (needed, h3) = require-eligible (verdict.resolution == "MODEL_NEEDED") _ _ refl h2 in
      let (state, is, h4) = fields-eligible structured_state _ _ refl h3 in
      let (digest, has_digest, h5) =
        otherwise-eligible (content_digest rt state) _ _ (λ x. refl) h4 in
      let (_, h6) = require-eligible (not (is_empty verdict.structured_state_digest)) _ _ refl h5 in
      let (same, h7) = require-eligible (verdict.structured_state_digest == digest) _ _ refl h6 in
      let (_, h8) = require-eligible (not (is_empty (family_of rt state))) _ _ refl h7 in
      let (safe, h9) = require-eligible (elem (family_of rt state) safe_families) _ _ refl h8 in
      let (protected, has_protected, h10) =
        items-eligible (get "protected_authority_requirements" state) _ _ refl h9 in
      let (free, h11) = require-eligible (is_none (protected_values rt protected)) _ _ refl h10 in
      let (candidates, complete, _) =
        otherwise-eligible (check_contract state) _ _ (λ x. refl) h11 in
      let (normal, normalized, of_normal) = content_digest-digest state has_digest in
      (
        state,
        is,
        record {
          needed = ==→≡ _ _ needed;
          normal = normal;
          normalized = normalized;
          bound = ==→≡ _ _ same ∙ of_normal;
          family = safe-family (family_of rt state) safe;
          protected = protected;
          has_protected = has_protected;
          unprotected = protected_values-AllBlank protected free;
          candidates = candidates;
          complete = check_contract-Complete state complete;
        },
      )

  verify-sign : (p : Packet) → verify rt (sign rt p) ≡ ok tt
  unfolding verify
  verify-sign p = rw (eq_refl (content_sha256_of rt p))

  -- What a packet that is built is bound to.
  pub record Built (verdict : Verdict) (structured_state : Value) (p : Packet) : Type 0 where
    pub state : Fields
    pub is_state : structured_state ≡ dict state
    pub bounded : Bounded verdict state
    pub verified : verify rt p ≡ ok tt
    pub same_candidates : normalized_candidates (get "candidates" state) ≡ ok p.candidates

  assemble-ok :
      (state : Fields) {p : Packet}
      → assemble rt state ≡ ok p
      → (verify rt p ≡ ok tt) × (normalized_candidates (get "candidates" state) ≡ ok p.candidates)
  unfolding assemble
  assemble-ok state {p} h =
      let (cs, has_candidates, h1) =
        >>=-eq-ok (normalized_candidates (get "candidates" state)) _ h in
      let (q, _, last) = >>=-eq-ok (bound_fields rt state) _ h1 in
      let same = ok-injective last in
      (
        subst (λ (x : Packet). verify rt x ≡ ok tt) same
            (verify-sign (record q { candidates = cs })),
        has_candidates ∙ ap (λ (x : Packet). ok x.candidates) same,
      )

  -- A packet is built only for an eligible decision; it verifies, and it carries the candidates of its
  -- state in the order of their ids.
  pub build_bounded_decision_packet-Built :
      (verdict : Verdict) (structured_state : Value) {p : Packet}
      → build_bounded_decision_packet rt verdict structured_state ≡ ok p
      → Built verdict structured_state p
  unfolding build_bounded_decision_packet
  build_bounded_decision_packet-Built verdict structured_state {p} h =
      let (_, eligible, h1) =
        >>=-eq-ok (require (is_eligible (classify_bounded_decision rt verdict structured_state)) _)
          _ h in
      let (fs, mapped, h2) = >>=-eq-ok (as_mapping structured_state _) _ h1 in
      let (state, is, bounded) =
        classify-Bounded verdict structured_state (require-eq-ok _ _ eligible) in
      let same : dict fs ≡ dict state = sym (mapping-ok structured_state _ mapped) ∙ is in
      let here : fs ≡ state = cc in
      let (verified, same_candidates) =
        assemble-ok state (subst (λ s. assemble rt s ≡ ok p) here h2) in
      record {
        state = state;
        is_state = is;
        bounded = bounded;
        verified = verified;
        same_candidates = same_candidates;
      }
