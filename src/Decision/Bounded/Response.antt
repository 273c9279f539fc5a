-- ===== src/Decision/Bounded/Response.antt =====
-- What an accepted response is bound to (execution_coordination/bounded_decision.py).
use nexus_runtime.Prelude.{
  ◌≡◌, ◌≢◌, refl, String, Bool, true, List, [], ◌∷◌, elem, Option, none, some, ◌==◌, ==→≡, &&-true,
  Bool-cases, inl, inr, ap, sym, subst, ◌∙◌,
}
use nexus_runtime.Python.Text.{strip}
use nexus_runtime.Python.Value.{
  Value, null, bool, int, str, list, dict, object, Fields, end, field, get, has, has_all, keys_in,
  eq_text, same_keys, Runtime,
}
use nexus_runtime.Python.Raise.{ok, require, >>=-eq-ok, require-eq-ok, ok-injective}
use nexus_runtime.Decision.Json.{required_text, authority_key}
use nexus_runtime.Decision.Json.Tokens.{WithoutTokens, authority_key-WithoutTokens}
use nexus_runtime.Decision.Bounded.{ids}
use nexus_runtime.Decision.Bounded.Complete.{required_text-str}
use nexus_runtime.Decision.Bounded.Contract.{mapping-ok, refuse-ok}
use nexus_runtime.Decision.Bounded.Packet.{
  Packet, authority_tokens, as_mapping, Floats, Scores, none_left, score, scores_of, values_of,
  number, float_of, refuse, content_sha256_of, verify, response_to, packet_named, choice_of,
  scores_for, provenance_of, allowed_choices, Response, validate_response,
}

-- The response's field holds this text, padding apart.
abbrev pub Holds : String → Fields → String → Type 0
Holds key response text = (s : String) × (get key response ≡ str s) × (strip s ≡ text)

packet_named-ok :
    (p : Packet) (response : Fields) {sha : String}
    → packet_named p response ≡ ok sha
    → (sha ≡ p.content_sha256) × Holds "packet_sha256" response sha
unfolding packet_named
packet_named-ok p response h =
    let (found, is_found, h1) = >>=-eq-ok (required_text (get "packet_sha256" response) _) _ h in
    let (_, same, last) = >>=-eq-ok (require (found == p.content_sha256) _) _ h1 in
    let (s, is, filled, stripped) = required_text-str (get "packet_sha256" response) _ is_found in
    (
      sym (ok-injective last) ∙ ==→≡ _ _ (require-eq-ok _ _ same),
      (s, is, stripped ∙ ok-injective last),
    )

choice_of-ok :
    (p : Packet) (response : Fields) {choice : String}
    → choice_of p response ≡ ok choice
    → (elem choice ("ESCALATE" ∷ ids p.candidates) ≡ true) × Holds "choice_id" response choice
unfolding choice_of
choice_of-ok p response h =
    let (found, is_found, h1) = >>=-eq-ok (required_text (get "choice_id" response) _) _ h in
    let (_, same, last) = >>=-eq-ok (require (elem found (allowed_choices p)) _) _ h1 in
    let (s, is, filled, stripped) = required_text-str (get "choice_id" response) _ is_found in
    (
      subst (λ (c : String). elem c (allowed_choices p) ≡ true) (ok-injective last)
          (require-eq-ok _ _ same),
      (s, is, stripped ∙ ok-injective last),
    )

keys_in-elem :
    (ks : List String) (fs : Fields) (k : String)
    → keys_in ks fs ≡ true
    → has k fs ≡ true
    → elem k ks ≡ true
keys_in-elem ks end k h there = cc
keys_in-elem ks (field j v fs) k h there =
    let (here, rest) = &&-true (elem j ks) (keys_in ks fs) h in
    elim (Bool-cases (j == k)) [
      | inl same ↦ subst (λ x. elem x ks ≡ true) (==→≡ j k same) here
      | inr other ↦ keys_in-elem ks fs k rest (rw other at there)
    ]

has_all-has :
    (ks : List String) (fs : Fields) (k : String)
    → has_all ks fs ≡ true
    → elem k ks ≡ true
    → has k fs ≡ true
has_all-has [] fs k h there = cc
has_all-has (j ∷ ks) fs k h there =
    let (here, rest) = &&-true (has j fs) (has_all ks fs) h in
    elim (Bool-cases (j == k)) [
      | inl same ↦ subst (λ x. has x fs ≡ true) (==→≡ j k same) here
      | inr other ↦ has_all-has ks fs k rest (rw other at there)
    ]

same_keys-has :
    (ks : List String) (fs : Fields) (k : String) → same_keys ks fs ≡ true → has k fs ≡ elem k ks
same_keys-has ks fs k h =
    let (all_there, only) = &&-true (has_all ks fs) (keys_in ks fs) h in
    elim (Bool-cases (has k fs)) [
      | inl there ↦ there ∙ sym (keys_in-elem ks fs k only there)
      | inr missing ↦ elim (Bool-cases (elem k ks)) [
        | inl listed ↦ absurd (cc (has_all-has ks fs k all_there listed))
        | inr unlisted ↦ missing ∙ sym unlisted
      ]
    ]

eq_text→≡ : (v : Value) (s : String) → eq_text v s ≡ true → v ≡ str s
eq_text→≡ (str t) s h = ap str (==→≡ t s h)
eq_text→≡ _ s h = absurd (cc)

module _ (rt : Runtime) where
  abbrev pub NoAuthority : Fields → Type 0
  NoAuthority = WithoutTokens rt (
      "authoriz" ∷ "approv" ∷ "permission" ∷ "permit" ∷ "admission" ∷ "allow" ∷ "grant" ∷ "certif"
      ∷ "merge" ∷ "release" ∷ "production" ∷ [])

  -- The response that is read carries no authority key, and its packet verifies.
  response_to-ok :
      (p : Packet) (given : Value) {response : Fields}
      → response_to rt p given ≡ ok response
      → (given ≡ dict response)
        × (p.content_sha256 ≡ content_sha256_of rt p)
        × NoAuthority response
        × (get "schema" response ≡ str "nexus.runtime.bounded_decision_response.v1")
  unfolding response_to verify
  response_to-ok p given h =
      let (_, checked, h1) =
        >>=-eq-ok (require (p.content_sha256 == content_sha256_of rt p) _) _ h in
      let (fs, is, h2) = >>=-eq-ok (as_mapping given _) _ h1 in
      let (_, clean, h3) = >>=-eq-ok (refuse (authority_key rt authority_tokens fs)) _ h2 in
      let (_, schema, last) =
        >>=-eq-ok
          (require (eq_text (get "schema" fs) "nexus.runtime.bounded_decision_response.v1") _) _
          h3 in
      let same = ok-injective last in
      (
        mapping-ok given _ is ∙ ap dict same,
        ==→≡ _ _ (require-eq-ok _ _ checked),
        subst NoAuthority same
            (authority_key-WithoutTokens rt authority_tokens fs (refuse-ok _ clean)),
        subst (λ r. get "schema" r ≡ str "nexus.runtime.bounded_decision_response.v1") same
            (eq_text→≡ (get "schema" fs) _ (require-eq-ok _ _ schema)),
      )

  module _ (floats : Floats) where
    open floats use {Float, to_float, in_unit, sums_to_one}

    -- Each score is the number at its key, within the unit interval; a boolean is none.
    abbrev pub Reads : Fields → Scores Float → Type 0
    Reads end none_left = Unit
    Reads (field k v fs) (score j x xs) =
        (k ≡ j)
        × ((b : Bool) → v ≢ bool b)
        × (to_float v ≡ some x)
        × (in_unit x ≡ true)
        × Reads fs xs
    Reads _ _ = ⊥

    number-ok :
        (k : String) (o : Option Float) {x : Float}
        → number rt floats k o ≡ ok x
        → (o ≡ some x) × (in_unit x ≡ true)
    number-ok k (some y) h = elim (Bool-cases (in_unit y)) [
      | inl inside ↦
          let same = ok-injective (rw inside at h) in
          (ap some same, subst (λ z. in_unit z ≡ true) same inside)
      | inr outside ↦ absurd (cc (rw outside at h))
    ]
    number-ok k none h = absurd (cc)

    float_of-some :
        (v : Value) {x : Float}
        → float_of rt floats v ≡ some x
        → ((b : Bool) → v ≢ bool b) × (to_float v ≡ some x)
    float_of-some (bool b) h = absurd (cc)
    float_of-some null h = (λ b e. cc, h)
    float_of-some (int n) h = (λ b e. cc, h)
    float_of-some (str s) h = (λ b e. cc, h)
    float_of-some (list vs) h = (λ b e. cc, h)
    float_of-some (dict fs) h = (λ b e. cc, h)
    float_of-some (object n) h = (λ b e. cc, h)

    scores_of-Reads :
        (fs : Fields) {xs : Scores Float} → scores_of rt floats fs ≡ ok xs → Reads fs xs
    unfolding scores_of
    scores_of-Reads end h = subst (Reads end) (ok-injective h) tt
    scores_of-Reads (field k v fs) h =
        let (x, is_x, h1) = >>=-eq-ok (number rt floats k (float_of rt floats v)) _ h in
        let (xs, is_xs, h2) = >>=-eq-ok (scores_of rt floats fs) _ h1 in
        let (found, inside) = number-ok k (float_of rt floats v) is_x in
        let (no_bool, numeric) = float_of-some v found in
        subst (Reads (field k v fs)) (ok-injective h2)
          (refl, no_bool, numeric, inside, scores_of-Reads fs is_xs)

    -- The scores are numbers for exactly the packet's choices, and sum to 1.
    pub record Scored (p : Packet) (response : Fields) (found : Scores Float) : Type 0 where
      pub scores : Fields
      pub has_scores : get "scores" response ≡ dict scores
      pub covers : (k : String) → has k scores ≡ elem k ("ESCALATE" ∷ ids p.candidates)
      pub read : Reads scores found
      pub sums : sums_to_one (values_of found) ≡ true

    scores_for-Scored :
        (p : Packet) (response : Fields) {found : Scores Float}
        → scores_for rt floats p response ≡ ok found
        → Scored p response found
    unfolding scores_for
    scores_for-Scored p response h =
        let (scores, has_scores, h1) = >>=-eq-ok (as_mapping (get "scores" response) _) _ h in
        let (_, covers, h2) = >>=-eq-ok (require (same_keys (allowed_choices p) scores) _) _ h1 in
        let (found, read, h3) = >>=-eq-ok (scores_of rt floats scores) _ h2 in
        let (_, sums, last) = >>=-eq-ok (require (sums_to_one (values_of found)) _) _ h3 in
        let same = ok-injective last in
        record {
          scores = scores;
          has_scores = mapping-ok (get "scores" response) _ has_scores;
          covers = λ k. same_keys-has (allowed_choices p) scores k (require-eq-ok _ _ covers);
          read = subst (Reads scores) same (scores_of-Reads scores read);
          sums =
              subst (λ (x : Scores Float). sums_to_one (values_of x) ≡ true) same
                (require-eq-ok _ _ sums);
        }

  -- What an accepted response is bound to.
  pub record Accepted (floats : Floats) (p : Packet) (given : Value) (r : Response rt floats)
      : Type 0 where
    pub response : Fields
    pub is_response : given ≡ dict response
    pub of_schema : get "schema" response ≡ str "nexus.runtime.bounded_decision_response.v1"
    pub no_authority : NoAuthority response
    pub same_packet : r.packet_sha256 ≡ content_sha256_of rt p
    pub names_packet : Holds "packet_sha256" response r.packet_sha256
    pub in_set : elem r.choice_id ("ESCALATE" ∷ ids p.candidates) ≡ true
    pub chosen : Holds "choice_id" response r.choice_id
    pub scored : Scored floats p response r.scores

  -- A response is accepted only if none of its top-level keys, in lower case, holds an authority token,
  -- it has the response schema, it names the packet by the hash of its content, it chooses one of the
  -- packet's candidates or to escalate, and its scores are a mapping with exactly these choices as keys
  -- and a number in the unit interval for each, which sum to 1. What is returned is what it says.
  pub validate_response-Accepted :
      (floats : Floats) (p : Packet) (given : Value) {r : Response rt floats}
      → validate_response rt floats p given ≡ ok r
      → Accepted floats p given r
  unfolding validate_response
  validate_response-Accepted floats p given {r} h =
      let (response, read, h1) = >>=-eq-ok (response_to rt p given) _ h in
      let (sha, named, h2) = >>=-eq-ok (packet_named p response) _ h1 in
      let (choice, is_choice, h3) = >>=-eq-ok (choice_of p response) _ h2 in
      let (scores, found, h4) = >>=-eq-ok (scores_for rt floats p response) _ h3 in
      let (_, _, last) = >>=-eq-ok (provenance_of response) _ h4 in
      let (is, signed, clean, schema) = response_to-ok p given read in
      let (same_sha, sha_held) = packet_named-ok p response named in
      let (listed, choice_held) = choice_of-ok p response is_choice in
      subst (Accepted floats p given) (ok-injective last) (record {
        response = response;
        is_response = is;
        of_schema = schema;
        no_authority = clean;
        same_packet = same_sha ∙ signed;
        names_packet = sha_held;
        in_set = listed;
        chosen = choice_held;
        scored = scores_for-Scored floats p response found;
      })
