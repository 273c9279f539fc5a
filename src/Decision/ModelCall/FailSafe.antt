-- ===== src/Decision/ModelCall/FailSafe.antt =====
-- A model call is avoided only on a usable answer (execution_coordination/model_call_resolution.py).
use nexus_runtime.Prelude.{
  ◌≡◌, ◌≢◌, ◌⊎◌, refl, inl, inr, String, Bool, true, not, [], ◌∷◌, elem, Option, none, some, ◌==◌,
  ==→≡, Bool-cases, ◌||◌, ap, sym, subst, ◌∙◌,
}
use nexus_runtime.Python.Text.{strip, is_empty}
use nexus_runtime.Python.Value.{
  Value, str, dict, Fields, end, field, get, is_dict, or_else, to_text, Runtime,
}
use nexus_runtime.Python.Raise.{Result, ok, err, require, >>=-eq-ok, require-eq-ok, ok-injective}
use nexus_runtime.Decision.Json.{required_text, normalize_fields, authority_key}
use nexus_runtime.Decision.Json.Tokens.{WithoutTokens, authority_key-WithoutTokens}
use nexus_runtime.Decision.ModelCall.{
  Verdict, Answer, abstained, other, verdict, mapping, raised, Resolver, resolution_statuses,
  envelope_tokens, verdict_to_dict, is_end, receipt_of, given_receipt, given_reason, build_verdict,
  state_digest, status_of, refuse, resolver_identity, normalize_verdict_payload, accept,
  settle_answer, ask, fallback, seam_name, with_digest, resolve_model_call_need,
}

abbrev pub is_resolved : Verdict → Bool
is_resolved v = v.resolution == "RESOLVED_DETERMINISTICALLY"

-- What a resolver's answer gives to read.
abbrev pub Answers : Answer → Fields → Type 0
Answers (mapping fs) payload = payload ≡ fs
Answers (verdict v) payload = payload ≡ verdict_to_dict v
Answers _ payload = ⊥

known-strip : (s : String) → elem s resolution_statuses ≡ true → strip s ≡ s
unfolding strip
known-strip s h = elim (Bool-cases ("RESOLVED_DETERMINISTICALLY" == s)) [
  | inl e ↦ subst (λ t. strip t ≡ t) (==→≡ _ s e) refl
  | inr d ↦ elim (Bool-cases ("MODEL_NEEDED" == s)) [
    | inl e ↦ subst (λ t. strip t ≡ t) (==→≡ _ s e) refl
    | inr f ↦ elim (Bool-cases ("INSUFFICIENT_STRUCTURED_STATE" == s)) [
      | inl e ↦ subst (λ t. strip t ≡ t) (==→≡ _ s e) refl
      | inr g ↦ absurd (cc (rw (d, f, g) at h))
    ]
  ]
]

is_dict→≡ : (v : Value) → is_dict v ≡ true → (fs : Fields) × (v ≡ dict fs)
is_dict→≡ (dict fs) h = (fs, refl)
is_dict→≡ _ h = absurd (cc)

refuse-ok : (m : Option String) → refuse m ≡ ok tt → m ≡ none
refuse-ok none h = refl
refuse-ok (some key) h = cc

fallback_unresolved : (s : String) → (fallback s == "RESOLVED_DETERMINISTICALLY") ≡ true → ⊥
fallback_unresolved s h =
    elim (Bool-cases (elem s ("MODEL_NEEDED" ∷ "INSUFFICIENT_STRUCTURED_STATE" ∷ []))) [
      | inl known ↦
          let is : s ≡ "RESOLVED_DETERMINISTICALLY" = ==→≡ _ _ (rw known at h) in
          cc (
            subst (λ t. elem t ("MODEL_NEEDED" ∷ "INSUFFICIENT_STRUCTURED_STATE" ∷ []) ≡ true) is
              known)
      | inr unknown ↦ cc (rw unknown at h)
    ]

empty_or_bound :
    (receipt : Fields) (digest : String)
    → (is_end receipt || not (is_empty digest)) ≡ true
    → (receipt ≡ end) ⊎ (digest ≢ "")
empty_or_bound end digest h = inl refl
empty_or_bound (field k v fs) String.[] h = cc
empty_or_bound (field k v fs) (String.◌∷◌ c s) h = inr (λ e. cc (ap is_empty e))

module _ (rt : Runtime) where
  -- The verdict takes its receipt, which may be empty, from a payload whose keys name no authorization.
  pub record Usable (payload : Fields) (digest : String) (v : Verdict) : Type 0 where
    pub receipt : Fields
    pub has_receipt : get "deterministic_receipt" payload ≡ dict receipt
    pub normalized :
        normalize_fields receipt "deterministic_receipt" end ≡ ok v.deterministic_receipt
    pub says_so : status_of rt payload ≡ "RESOLVED_DETERMINISTICALLY"
    pub no_authority :
        WithoutTokens rt
          ("authoriz" ∷ "approv" ∷ "permission" ∷ "permit" ∷ "admission" ∷ "allow" ∷ "grant"
            ∷ "certif" ∷ [])
          payload
    pub bound_or_empty : (v.deterministic_receipt ≡ end) ⊎ (strip digest ≢ "")
    pub same_digest : v.structured_state_digest ≡ strip digest
    pub no_failure : v.resolver_failure ≡ none

  build_verdict-ok :
      (resolution reason resolver_id seam digest : String) (given : Option Fields) {v : Verdict}
      → build_verdict rt resolution reason resolver_id seam digest given ≡ ok v
      → (v.resolution ≡ strip resolution)
        × (receipt_of given ≡ ok v.deterministic_receipt)
        × (v.structured_state_digest ≡ strip digest)
        × (v.resolver_failure ≡ none)
        × ((v.deterministic_receipt ≡ end) ⊎ (strip digest ≢ ""))
  unfolding build_verdict
  build_verdict-ok resolution reason resolver_id seam digest given h =
      let (_, known, h1) =
        >>=-eq-ok (require (elem (strip resolution) resolution_statuses) _) _ h in
      let (receipt, normal, h2) = >>=-eq-ok (receipt_of given) _ h1 in
      let (_, bound, h3) =
        >>=-eq-ok (require (is_end receipt || not (is_empty (strip digest))) _) _ h2 in
      let (why, _, h4) = >>=-eq-ok (required_text (str reason) "reason") _ h3 in
      let (who, _, h5) = >>=-eq-ok (required_text (str resolver_id) "resolver_id") _ h4 in
      let (place, _, h6) = >>=-eq-ok (required_text (str seam) "seam") _ h5 in
      let same = ok-injective (sym h6) in
      (
        ap (λ (w : Verdict). w.resolution) same,
        normal ∙ ap (λ (w : Verdict). ok w.deterministic_receipt) (sym same),
        ap (λ (w : Verdict). w.structured_state_digest) same,
        ap (λ (w : Verdict). w.resolver_failure) same,
        subst (λ (w : Verdict). (w.deterministic_receipt ≡ end) ⊎ (strip digest ≢ "")) (sym same)
            (empty_or_bound receipt (strip digest) (require-eq-ok _ _ bound)),
      )

  normalize_verdict_payload-Usable :
      (payload : Fields) (resolver : Option Resolver) (seam digest : String) {v : Verdict}
      → normalize_verdict_payload rt payload resolver seam digest ≡ ok v
      → is_resolved v ≡ true
      → Usable payload digest v
  unfolding normalize_verdict_payload
  normalize_verdict_payload-Usable payload resolver seam digest {v} h resolved =
      let status : String = status_of rt payload in
      let (_, clean, h1) = >>=-eq-ok (refuse (authority_key rt envelope_tokens payload)) _ h in
      let (_, given, h2) =
        >>=-eq-ok
          (require
            (not (status == "RESOLVED_DETERMINISTICALLY")
              || is_dict (get "deterministic_receipt" payload))
            _)
          _ h1 in
      let (_, known, h3) = >>=-eq-ok (require (elem status resolution_statuses) _) _ h2 in
      let (resolution, normal, same_digest, no_failure, bound_or_empty) =
        build_verdict-ok status (given_reason (get "reason" payload) status)
          (to_text rt (or_else (get "resolver_id" payload) (str (resolver_identity resolver))))
          (to_text rt (or_else (get "seam" payload) (str seam))) digest
          (given_receipt (get "deterministic_receipt" payload)) h3 in
      let says : (status == "RESOLVED_DETERMINISTICALLY") ≡ true =
        subst (λ t. (t == "RESOLVED_DETERMINISTICALLY") ≡ true)
          (resolution ∙ known-strip status (require-eq-ok _ _ known)) resolved in
      let (receipt, is) =
        is_dict→≡ (get "deterministic_receipt" payload) (rw says at (require-eq-ok _ _ given)) in
      record {
        receipt = receipt;
        has_receipt = is;
        normalized = rw is at normal;
        says_so = ==→≡ _ _ says;
        no_authority = authority_key-WithoutTokens rt envelope_tokens payload (refuse-ok _ clean);
        bound_or_empty = bound_or_empty;
        same_digest = same_digest;
        no_failure = no_failure;
      }

  -- A verdict that resolves the call without a model.
  pub record Resolves (resolver : Option Resolver) (state : Fields) (seam : String) (v : Verdict)
      : Type 0 where
    pub asked : Resolver
    pub bound : resolver ≡ some asked
    pub payload : Fields
    pub answered : Answers (asked.resolve state (seam_name seam)) payload
    pub digest : String
    pub has_digest : state_digest rt state ≡ ok digest
    pub usable : Usable payload digest v

  accept-Usable :
      (resolver : Option Resolver) (seam digest : String) (payload : Fields)
      (m : Result String Verdict)
      → normalize_verdict_payload rt payload resolver seam digest ≡ m
      → is_resolved (accept rt resolver seam digest m) ≡ true
      → Usable payload digest (accept rt resolver seam digest m)
  unfolding accept
  accept-Usable resolver seam digest payload (ok v) e h =
      normalize_verdict_payload-Usable payload resolver seam digest e h
  accept-Usable resolver seam digest payload (err x) e h = absurd (cc)

  settle_answer-Usable :
      (resolver : Option Resolver) (seam digest : String) (a : Answer)
      → is_resolved (settle_answer rt resolver seam digest a) ≡ true
      → (payload : Fields) × Answers a payload
        × Usable payload digest (settle_answer rt resolver seam digest a)
  unfolding settle_answer
  settle_answer-Usable resolver seam digest (verdict v) h =
      (verdict_to_dict v, refl, accept-Usable resolver seam digest (verdict_to_dict v) _ refl h)
  settle_answer-Usable resolver seam digest (mapping fs) h =
      (fs, refl, accept-Usable resolver seam digest fs _ refl h)
  settle_answer-Usable resolver seam digest (raised name message) h = absurd (cc)
  settle_answer-Usable resolver seam digest abstained h = absurd (cc)
  settle_answer-Usable resolver seam digest other h = absurd (cc)

  with_digest-Resolves :
      (resolver : Option Resolver) (state : Fields) (seam on_invalid : String)
      (m : Result String String)
      → state_digest rt state ≡ m
      → is_resolved (with_digest rt resolver state (seam_name seam) on_invalid m) ≡ true
      → Resolves resolver state seam (with_digest rt resolver state (seam_name seam) on_invalid m)
  unfolding ask
  with_digest-Resolves resolver state seam on_invalid (err x) e h =
      absurd (fallback_unresolved on_invalid h)
  with_digest-Resolves none state seam on_invalid (ok digest) e h = absurd (cc)
  with_digest-Resolves (some r) state seam on_invalid (ok digest) e h =
      let (payload, answered, usable) =
        settle_answer-Usable (some r) (seam_name seam) digest (r.resolve state (seam_name seam))
          h in
      record {
        asked = r;
        bound = refl;
        payload = payload;
        answered = answered;
        digest = digest;
        has_digest = e;
        usable = usable;
      }

  -- A call is resolved without a model only by a bound resolver's answer: a mapping or a verdict that
  -- says so, with none of the authorization tokens in a top-level key in lower case, and with a mapping
  -- for its receipt, which may be empty. The verdict's receipt is this mapping, normalized; its digest
  -- is that of the state that the resolver was asked about, and is not blank where the receipt is not
  -- empty; and it records no failure.
  pub resolve_model_call_need-Resolves :
      (resolver : Option Resolver) (state : Fields) (seam on_invalid : String)
      → is_resolved (resolve_model_call_need rt resolver state seam on_invalid) ≡ true
      → Resolves resolver state seam (resolve_model_call_need rt resolver state seam on_invalid)
  unfolding resolve_model_call_need
  resolve_model_call_need-Resolves resolver state seam on_invalid h =
      with_digest-Resolves resolver state seam on_invalid (state_digest rt state) refl h
