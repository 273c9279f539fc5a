-- ===== src/Decision/Bounded.antt =====
-- execution_coordination/bounded_decision.py: whether what is left to decide is a finite choice.
pub mod Packet
pub mod Complete
pub mod Contract
pub mod Response
pub mod Order
use Prim.Native.String.{◌++◌ as concat}
use nexus_runtime.Prelude.{
  ℕ, String, Bool, true, false, ◌&&◌, ◌||◌, not, List, [], ◌∷◌, map, elem, leb, length, Option,
  none, some, ◌==◌, if◌then◌else◌,
}
use nexus_runtime.Python.Text.{strip, is_empty, less}
use nexus_runtime.Python.Value.{
  Value, str, list, dict, Items, nil, cons, Fields, end, get, has, or_else, to_text, text_or_empty,
  items_of, Runtime, fields_of,
}
use nexus_runtime.Python.Order.{sort, sorted_set}
use nexus_runtime.Python.Order.Permuted.{all_different}
use nexus_runtime.Python.Raise.{Result, ok, err, ◌>>=◌, ◌>>◌, require}
use nexus_runtime.Decision.Json.{required_text, texts_of, normalize, normalize_fields}
use nexus_runtime.Decision.ModelCall.{Verdict}

-- `_string_list(value, name, minimum=1)`
unfoldable pub string_list : Value → String → Result String (List String)
unfolding texts_of
string_list (list vs) name = do
  ts ← texts_of vs name
  require (leb 1 (length ts)) (concat name " requires at least 1 item(s)")
  require (all_different ts) (concat name " must not contain duplicates")
  ok ts
string_list _ name = err (concat name " must be an array of strings")

-- `BoundedDecisionCandidate`
pub record Candidate : Type 0 where
  pub candidate_id : String
  pub payload : Value
  pub evidence_refs : List String

-- `BoundedDecisionCandidate.from_mapping`
unfoldable pub candidate_of : Fields → Result String Candidate
unfolding required_text string_list normalize
candidate_of fs = do
  candidate_id ← required_text (get "candidate_id" fs) "candidate_id"
  refs ← string_list (get "evidence_refs" fs) "candidate.evidence_refs"
  require (has "payload" fs) "candidate.payload is required"
  payload ← normalize (get "payload" fs) "candidate.payload"
  ok (record { candidate_id = candidate_id; payload = payload; evidence_refs = refs })

abbrev pub candidate_of_item : Value → Result String Candidate
unfolding candidate_of
candidate_of_item (dict fs) = candidate_of fs
candidate_of_item _ = err "candidate must be a mapping"

unfoldable pub candidates_of : Items → Result String (List Candidate)
unfolding candidate_of candidate_of_item
candidates_of nil = ok []
candidates_of (cons v vs) = do c ← candidate_of_item v; cs ← candidates_of vs; ok (c ∷ cs)

abbrev pub ids : List Candidate → List String
ids cs = map (λ (c : Candidate). c.candidate_id) cs

abbrev pub id_before : Candidate → Candidate → Bool
id_before a b = less a.candidate_id b.candidate_id

-- `_normalized_candidates`
unfoldable pub normalized_candidates : Value → Result String (List Candidate)
unfolding candidates_of sort
normalized_candidates (list vs) = do
  cs ← candidates_of vs
  require (leb 2 (length cs)) "bounded decision requires at least two candidates"
  require (all_different (ids cs)) "candidate ids must be unique"
  ok (sort id_before cs)
normalized_candidates _ = err "candidates must be an array"

-- `BoundedDecisionEligibility`
pub record Eligibility : Type 0 where
  pub disposition : String
  pub reason : String
  pub model_call_resolution : String
  pub decision_family : String
  pub candidate_ids : List String

-- `_SAFE_BOUNDED_DECISION_FAMILIES`
abbrev pub safe_families : List String
safe_families = "repair_candidate_choice" ∷ []

-- `",".join(texts)`
abbrev pub join : List String → String
join [] = ""
join (s ∷ []) = s
join (s ∷ t ∷ rest) = concat s (concat "," (join (t ∷ rest)))

-- An early return is an error here, and `settle` makes both ends the classification.
abbrev pub Step {ℓ} : Type ℓ → Type ℓ
Step A = Result Eligibility A

abbrev pub settle : Step Eligibility → Eligibility
settle (ok e) = e
settle (err e) = e

abbrev pub otherwise {ℓ} : {A : Type ℓ} → Result String A → (String → Eligibility) → Step A
otherwise (ok a) f = ok a
otherwise (err e) f = err (f e)

abbrev pub as_items : Value → Eligibility → Step Items
as_items (list vs) e = ok vs
as_items _ e = err e

abbrev pub as_fields : Value → Eligibility → Step Fields
as_fields (dict fs) e = ok fs
as_fields _ e = err e

-- the texts that a packet needs besides its candidates
unfoldable pub check_contract : Fields → Result String (List Candidate)
unfolding normalized_candidates string_list required_text
check_contract state = do
  candidates ← normalized_candidates (get "candidates" state)
  string_list (get "evidence_refs" state) "evidence_refs"
  required_text (get "task_id" state) "task_id"
  required_text (get "repository" state) "repository"
  required_text (get "source_revision" state) "source_revision"
  required_text (get "required_verifier" state) "required_verifier"
  required_text (get "claim_ceiling" state) "claim_ceiling"
  ok candidates

abbrev pub is_none : List String → Bool
is_none [] = true
is_none (s ∷ rest) = false

module _ (rt : Runtime) where
  -- `_content_digest(_json_value(dict(state), "structured_state"))`
  unfoldable pub content_digest : Fields → Result String String
  unfolding normalize
  content_digest state = do
    normalized ← normalize_fields state "structured_state" end
    ok (rt.digest (dict normalized))

  -- `str(item).strip().upper()` of the items that are not blank
  abbrev pub protected_values : Items → List String
  unfolding strip
  protected_values nil = []
  protected_values (cons v vs) =
      let rest = protected_values vs in
      if is_empty (strip (to_text rt v)) then rest else rt.upper (strip (to_text rt v)) ∷ rest

  abbrev pub family_of : Fields → String
  unfolding strip
  family_of state = strip (text_or_empty rt (get "decision_family" state))

  -- the checks of `classify_bounded_decision` once the model call's verdict leaves a decision
  unfoldable pub classify_state : Verdict → Value → Step Eligibility
  unfolding content_digest check_contract sorted_set strip
  classify_state verdict structured_state = do
    let say : String → String → String → Eligibility = λ disposition reason family. record {
      disposition = disposition;
      reason = reason;
      model_call_resolution = verdict.resolution;
      decision_family = family;
      candidate_ids = [];
    }
    let insufficient : String → String → Eligibility = say "INSUFFICIENT_STRUCTURED_STATE"
    let frontier : String → String → Eligibility = say "FRONTIER_REASONING_REQUIRED"
    require (not (verdict.resolution == "RESOLVED_DETERMINISTICALLY"))
        (say "DETERMINISTIC_ALREADY_RESOLVED" "deterministic_result_already_available" "")
    require (not (verdict.resolution == "INSUFFICIENT_STRUCTURED_STATE"))
        (insufficient "model_call_resolution_insufficient" "")
    require (verdict.resolution == "MODEL_NEEDED")
        (insufficient "unsupported_model_call_resolution" "")
    state ← as_fields structured_state (insufficient "bounded_state_not_mapping" "")
    digest ←
        otherwise (content_digest state) (λ e. insufficient (concat "bounded_state_unusable:" e) "")
    require (not (is_empty verdict.structured_state_digest))
        (insufficient "model_call_state_digest_missing" "")
    require (verdict.structured_state_digest == digest)
        (insufficient "model_call_state_digest_mismatch" "")
    let family : String = family_of state
    require (not (is_empty family)) (insufficient "decision_family_missing" "")
    require (elem family safe_families)
        (frontier (concat "decision_family_not_bounded_safe:" family) family)
    protected ←
        as_items (get "protected_authority_requirements" state)
          (insufficient "protected_authority_requirements_missing" family)
    require (is_none (protected_values protected)) (
        frontier
          (concat "protected_authority_requirement:"
            (join (sorted_set (protected_values protected))))
          family)
    candidates ←
        otherwise (check_contract state)
          (λ e. insufficient (concat "bounded_contract_incomplete:" e) family)
    ok (record {
      disposition = "BOUNDED_DECISION_ELIGIBLE";
      reason = "finite_provenance_bound_residual";
      model_call_resolution = verdict.resolution;
      decision_family = family;
      candidate_ids = ids candidates;
    })

  -- `classify_bounded_decision`
  unfoldable pub classify_bounded_decision : Verdict → Value → Eligibility
  unfolding classify_state
  classify_bounded_decision verdict structured_state =
      settle (classify_state verdict structured_state)
