-- ===== src/Decision/Tests.antt =====
-- A resolved call, a record of it, and a bounded decision, at concrete inputs.
use mathlib.Core.List.{Permᴰ}
use nexus_runtime.Prelude.{
  ℕ, ◌+◌, ◌≡◌, refl, String, Bool, true, List, [], ◌∷◌, Option, none, some, leb, eqb,
}
use nexus_runtime.Prelude.Int.{pos}
use nexus_runtime.Python.Text.{contains, is_blank, strip}
use nexus_runtime.Python.Value.{
  Value, null, int, str, list, dict, Items, nil, cons, Fields, end, field, fields_of, Runtime,
}
use nexus_runtime.Python.Order.{sort}
use nexus_runtime.Python.Raise.{ok}
use nexus_runtime.Decision.Json.{required_text, normalize, authority_key}
use nexus_runtime.Decision.ModelCall.{
  Verdict, mapping, Resolver, resolve_model_call_need, state_digest, ask, settle_answer,
  normalize_verdict_payload, build_verdict, resolver_identity,
}
use nexus_runtime.Decision.ModelCall.FailSafe.{
  is_resolved, Resolves, resolve_model_call_need-Resolves,
}
use nexus_runtime.Decision.ModelCall.Telemetry.{
  Telemetry, recorded, make_telemetry, Honest, make_telemetry-Honest,
}
use nexus_runtime.Decision.Bounded.{
  Candidate, string_list, candidate_of, candidates_of, normalized_candidates, check_contract,
  content_digest, classify_state, classify_bounded_decision,
}
use nexus_runtime.Decision.Bounded.Packet.{
  Packet, Floats, score, none_left, verify, bound_fields, assemble, build_bounded_decision_packet,
  Response, response_to, packet_named, choice_of, scores_of, scores_for, provenance_of,
  validate_response,
}
use nexus_runtime.Decision.Bounded.Contract.{
  is_eligible, Bounded, classify-Bounded, Built, build_bounded_decision_packet-Built,
}
use nexus_runtime.Decision.Bounded.Order.{assemble_permuted}
use nexus_runtime.Decision.Bounded.Response.{Accepted, validate_response-Accepted}

abbrev plain : Runtime
plain = record {
  digest = λ v. "digest";
  ascii_digest = λ v. "digest";
  render = λ v. "?";
  repr = λ v. "?";
  upper = λ s. s;
  lower = λ s. s;
}

abbrev receipt : Fields
receipt = fields_of (("status", str "done") ∷ [])

abbrev resolver : Resolver
resolver = record {
  resolver_id = str "cache";
  class_name = "Cache";
  resolve = λ state seam. mapping (
      fields_of (
        ("resolution", str "RESOLVED_DETERMINISTICALLY")
        ∷ ("deterministic_receipt", dict receipt)
        ∷ []));
}

abbrev task : Fields
task = fields_of (("task_id", str "task") ∷ [])

task_resolved :
    is_resolved (resolve_model_call_need plain (some resolver) task "" "MODEL_NEEDED") ≡ true
unfolding resolve_model_call_need state_digest ask settle_answer normalize_verdict_payload
    build_verdict resolver_identity authority_key normalize required_text strip is_blank contains
task_resolved = refl

resolve_model_call_need-Resolves_example :
    Resolves plain
      (some resolver)
      task
      ""
      (resolve_model_call_need plain (some resolver) task "" "MODEL_NEEDED")
resolve_model_call_need-Resolves_example =
    resolve_model_call_need-Resolves plain (some resolver) task "" "MODEL_NEEDED" task_resolved

abbrev counts : Telemetry (Option Bool)
counts = record {
  outcome = "MODEL_AVOIDED";
  resolution = "RESOLVED_DETERMINISTICALLY";
  reason = "cached";
  resolver_id = "cache";
  seam = "worker";
  structured_state_digest = "digest";
  model_avoided = true;
  resolver_failure = none;
  model_calls_required = pos 1;
  model_calls_invoked = pos 0;
  model_calls_avoided = pos 1;
  model_calls_not_eliminated = none;
}

counts_made : make_telemetry plain counts ≡ ok (recorded counts)
unfolding make_telemetry
counts_made = refl

make_telemetry-Honest_example : Honest (recorded counts)
make_telemetry-Honest_example = make_telemetry-Honest plain counts counts_made

abbrev needed : Verdict
needed = record {
  resolution = "MODEL_NEEDED";
  reason = "open";
  resolver_id = "cache";
  seam = "worker";
  structured_state_digest = "digest";
  deterministic_receipt = end;
  resolver_failure = none;
}

abbrev candidate : String → Value
candidate name = dict (
    fields_of (
      ("candidate_id", str name)
      ∷ ("evidence_refs", list (cons (str "log") nil))
      ∷ ("payload", null)
      ∷ []))

abbrev choice : Fields
choice = fields_of (
    ("decision_family", str "repair_candidate_choice")
    ∷ ("protected_authority_requirements", list nil)
    ∷ ("candidates", list (cons (candidate "b") (cons (candidate "a") nil)))
    ∷ ("evidence_refs", list (cons (str "log") nil))
    ∷ ("task_id", str "task")
    ∷ ("repository", str "repository")
    ∷ ("source_revision", str "rev")
    ∷ ("required_verifier", str "verifier")
    ∷ ("claim_ceiling", str "ceiling")
    ∷ [])

choice_eligible : is_eligible (classify_bounded_decision plain needed (dict choice)) ≡ true
unfolding classify_bounded_decision classify_state content_digest check_contract
    normalized_candidates candidates_of candidate_of string_list sort normalize required_text strip
    is_blank
choice_eligible = refl

classify-Bounded_example :
    (state : Fields) × (dict choice ≡ dict state) × Bounded plain needed state
classify-Bounded_example = classify-Bounded plain needed (dict choice) choice_eligible

abbrev named : String → Candidate
named name = record { candidate_id = name; payload = null; evidence_refs = "log" ∷ [] }

abbrev packet : Packet
packet = record {
  task_id = "task";
  repository = "repository";
  source_revision = "rev";
  decision_family = "repair_candidate_choice";
  structured_state = end;
  evidence_refs = "log" ∷ [];
  candidates = named "a" ∷ named "b" ∷ [];
  allow_escalate = true;
  required_verifier = "verifier";
  claim_ceiling = "ceiling";
  content_sha256 = "sha256:digest";
}

packet_built : build_bounded_decision_packet plain needed (dict choice) ≡ ok packet
unfolding build_bounded_decision_packet assemble bound_fields classify_bounded_decision
    classify_state content_digest check_contract normalized_candidates candidates_of candidate_of
    string_list sort normalize required_text strip is_blank
packet_built = refl

build_bounded_decision_packet-Built_example : Built plain needed (dict choice) packet
build_bounded_decision_packet-Built_example =
    build_bounded_decision_packet-Built plain needed (dict choice) packet_built

abbrev offered : String → String → Items
offered one other = cons (candidate one) (cons (candidate other) nil)

abbrev around : Fields
around = fields_of (
    ("decision_family", str "repair_candidate_choice")
    ∷ ("evidence_refs", list (cons (str "log") nil))
    ∷ ("task_id", str "task")
    ∷ ("repository", str "repository")
    ∷ ("source_revision", str "rev")
    ∷ ("required_verifier", str "verifier")
    ∷ ("claim_ceiling", str "ceiling")
    ∷ [])

offered_assembled : assemble plain (field "candidates" (list (offered "b" "a")) around) ≡ ok packet
unfolding assemble bound_fields normalized_candidates candidates_of candidate_of string_list sort
    normalize required_text strip is_blank
offered_assembled = refl

assemble_permuted_example :
    assemble plain (field "candidates" (list (offered "a" "b")) around) ≡ ok packet
assemble_permuted_example =
    assemble_permuted plain (offered "b" "a") (offered "a" "b") around packet (Permᴰ.swap refl refl)
      offered_assembled

abbrev whole : Value → Option ℕ
whole (int (pos n)) = some n
whole _ = none

abbrev sum_of : List ℕ → ℕ
sum_of [] = 0
sum_of (x ∷ xs) = x + sum_of xs

-- scores that are 0 or 1
abbrev bits : Floats
bits = record {
  Float = ℕ;
  to_float = whole;
  in_unit = λ n. leb n 1;
  sums_to_one = λ xs. eqb (sum_of xs) 1;
}

abbrev answer : Fields
answer = fields_of (
    ("schema", str "nexus.runtime.bounded_decision_response.v1")
    ∷ ("packet_sha256", str "sha256:digest")
    ∷ ("choice_id", str "a")
    ∷ (
      "scores",
      dict (fields_of (("a", int (pos 1)) ∷ ("b", int (pos 0)) ∷ ("ESCALATE", int (pos 0)) ∷ [])),
    )
    ∷ [])

abbrev response : Response plain bits
response = record {
  packet_sha256 = "sha256:digest";
  choice_id = "a";
  scores = score "a" 1 (score "b" 0 (score "ESCALATE" 0 none_left));
  observation_provenance = end;
}

answer_accepted : validate_response plain bits packet (dict answer) ≡ ok response
unfolding validate_response response_to packet_named choice_of scores_for scores_of provenance_of
    verify authority_key normalize required_text strip is_blank contains
answer_accepted = refl

validate_response-Accepted_example : Accepted plain bits packet (dict answer) response
validate_response-Accepted_example =
    validate_response-Accepted plain bits packet (dict answer) answer_accepted
