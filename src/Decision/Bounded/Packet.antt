-- ===== src/Decision/Bounded/Packet.antt =====
-- execution_coordination/bounded_decision.py: the packet that is handed out, and the response to it.
use Prim.Native.String.{◌++◌ as concat}
use nexus_runtime.Prelude.{
  String, Bool, true, List, [], ◌∷◌, elem, Option, none, some, ◌==◌, if◌then◌else◌,
}
use nexus_runtime.Python.Value.{
  Value, bool, str, list, dict, Items, nil, cons, Fields, end, field, get, has, eq_text, same_keys,
  items_of, Runtime, fields_of,
}
use nexus_runtime.Python.Raise.{Result, ok, err, ◌>>=◌, ◌>>◌, require}
use nexus_runtime.Decision.Json.{required_text, normalize, normalize_fields, authority_key}
use nexus_runtime.Decision.ModelCall.{Verdict}
use nexus_runtime.Decision.Bounded.{
  string_list, Candidate, ids, normalized_candidates, Eligibility, classify_bounded_decision,
}

-- `BoundedDecisionPacket`
pub record Packet : Type 0 where
  pub task_id : String
  pub repository : String
  pub source_revision : String
  pub decision_family : String
  pub structured_state : Fields
  pub evidence_refs : List String
  pub candidates : List Candidate
  pub allow_escalate : Bool
  pub required_verifier : String
  pub claim_ceiling : String
  pub content_sha256 : String

-- `BoundedDecisionCandidate.to_dict`
abbrev pub candidate_to_dict : Candidate → Value
candidate_to_dict c = dict (
    fields_of (
      ("candidate_id", str c.candidate_id)
      ∷ ("payload", c.payload)
      ∷ ("evidence_refs", list (items_of c.evidence_refs))
      ∷ []))

abbrev pub candidate_items : List Candidate → Items
candidate_items [] = nil
candidate_items (c ∷ cs) = cons (candidate_to_dict c) (candidate_items cs)

-- `BoundedDecisionPacket._content`
abbrev pub content : Packet → Fields
content p = fields_of (
    ("schema", str "nexus.runtime.bounded_decision_packet.v1")
    ∷ ("task_id", str p.task_id)
    ∷ ("repository", str p.repository)
    ∷ ("source_revision", str p.source_revision)
    ∷ ("decision_family", str p.decision_family)
    ∷ ("structured_state", dict p.structured_state)
    ∷ ("evidence_refs", list (items_of p.evidence_refs))
    ∷ ("candidates", list (candidate_items p.candidates))
    ∷ ("allow_escalate", bool p.allow_escalate)
    ∷ ("required_verifier", str p.required_verifier)
    ∷ ("claim_ceiling", str p.claim_ceiling)
    ∷ [])

-- `_AUTHORITY_TOKENS`
abbrev pub authority_tokens : List String
authority_tokens =
    "authoriz" ∷ "approv" ∷ "permission" ∷ "permit" ∷ "admission" ∷ "allow" ∷ "grant" ∷ "certif"
    ∷ "merge" ∷ "release" ∷ "production" ∷ []

abbrev pub as_mapping : Value → String → Result String Fields
as_mapping (dict fs) message = ok fs
as_mapping _ message = err message

-- What the code does with Python's floating point numbers: `float(raw)` of an `int` or `float`, the
-- test `0.0 <= score <= 1.0`, and the test that a sum is 1 up to 1e-6.
pub record Floats : Type 1 where
  pub Float : Type 0
  pub to_float : Value → Option Float
  pub in_unit : Float → Bool
  pub sums_to_one : List Float → Bool

-- the key with its score
pub data Scores (F : Type 0) : Type 0 where
  none_left : Scores F
  score : String → F → Scores F → Scores F

abbrev pub values_of : {F : Type 0} → Scores F → List F
values_of none_left = []
values_of (score k x rest) = x ∷ values_of rest

abbrev pub refuse : Option String → Result String (Unit {0})
refuse none = ok tt
refuse (some key) = err (concat "bounded decision response must not carry authority content: " key)

abbrev pub not_eligible : Eligibility → String
not_eligible e =
    concat "bounded decision not eligible: " (concat e.disposition (concat ":" e.reason))

abbrev pub allowed_choices : Packet → List String
allowed_choices p = "ESCALATE" ∷ ids p.candidates

-- the hash by which the response names the packet
unfoldable pub packet_named : Packet → Fields → Result String String
unfolding required_text
packet_named p response = do
  sha ← required_text (get "packet_sha256" response) "packet_sha256"
  require (sha == p.content_sha256) "bounded decision response packet mismatch"
  ok sha

unfoldable pub choice_of : Packet → Fields → Result String String
unfolding required_text
choice_of p response = do
  choice ← required_text (get "choice_id" response) "choice_id"
  require (elem choice (allowed_choices p)) "response introduced an out-of-set candidate"
  ok choice

unfoldable pub provenance_of : Fields → Result String Fields
unfolding normalize
provenance_of response = do
  given ←
      as_mapping
        (if has "observation_provenance" response
          then get "observation_provenance" response
          else dict end)
        "observation_provenance must be a mapping"
  normalize_fields given "observation_provenance" end

module _ (rt : Runtime) where
  abbrev pub content_sha256_of : Packet → String
  content_sha256_of p = concat "sha256:" (rt.digest (dict (content p)))

  -- `BoundedDecisionPacket.verify`
  unfoldable pub verify : Packet → Result String (Unit {0})
  verify p =
      require (p.content_sha256 == content_sha256_of p) "bounded decision packet hash mismatch"

  -- what a packet takes from the state besides its candidates
  unfoldable pub bound_fields : Fields → Result String Packet
  unfolding required_text string_list normalize
  bound_fields state = do
    payload ←
        as_mapping (if has "structured_state" state then get "structured_state" state else dict end)
          "structured_state must be a mapping"
    normalized ← normalize_fields payload "structured_state" end
    task_id ← required_text (get "task_id" state) "task_id"
    repository ← required_text (get "repository" state) "repository"
    source_revision ← required_text (get "source_revision" state) "source_revision"
    family ← required_text (get "decision_family" state) "decision_family"
    refs ← string_list (get "evidence_refs" state) "evidence_refs"
    required_verifier ← required_text (get "required_verifier" state) "required_verifier"
    claim_ceiling ← required_text (get "claim_ceiling" state) "claim_ceiling"
    ok (record {
      task_id = task_id;
      repository = repository;
      source_revision = source_revision;
      decision_family = family;
      structured_state = normalized;
      evidence_refs = refs;
      candidates = [];
      allow_escalate = true;
      required_verifier = required_verifier;
      claim_ceiling = claim_ceiling;
      content_sha256 = "";
    })

  abbrev pub sign : Packet → Packet
  sign p = record p { content_sha256 = content_sha256_of p }

  -- the packet of a state that was found eligible
  unfoldable pub assemble : Fields → Result String Packet
  unfolding normalized_candidates bound_fields
  assemble state = do
    candidates ← normalized_candidates (get "candidates" state)
    packet ← bound_fields state
    ok (sign (record packet { candidates = candidates }))

  -- `build_bounded_decision_packet`
  unfoldable pub build_bounded_decision_packet : Verdict → Value → Result String Packet
  unfolding classify_bounded_decision assemble
  build_bounded_decision_packet verdict structured_state = do
    let e : Eligibility = classify_bounded_decision rt verdict structured_state
    require (e.disposition == "BOUNDED_DECISION_ELIGIBLE") (not_eligible e)
    state ← as_mapping structured_state "structured_state must be a mapping"
    assemble state

  -- the response, which carries no authority content
  unfoldable pub response_to : Packet → Value → Result String Fields
  unfolding verify authority_key
  response_to p given = do
    verify p
    response ← as_mapping given "bounded decision response must be a mapping"
    refuse (authority_key rt authority_tokens response)
    require (eq_text (get "schema" response) "nexus.runtime.bounded_decision_response.v1")
        "bounded decision response schema mismatch"
    ok response

  module _ (floats : Floats) where
    open floats use {Float, to_float, in_unit, sums_to_one}

    -- `BoundedDecisionResponse`
    pub record Response : Type 0 where
      pub packet_sha256 : String
      pub choice_id : String
      pub scores : Scores Float
      pub observation_provenance : Fields

    abbrev pub number : String → Option Float → Result String Float
    number key none = err (concat "score for " (concat key " must be numeric"))
    number key (some x) =
        if in_unit x then ok x else err (concat "score for " (concat key " must be within [0,1]"))

    -- a boolean is not taken for a number
    abbrev pub float_of : Value → Option Float
    float_of (bool b) = none
    float_of v = to_float v

    unfoldable pub scores_of : Fields → Result String (Scores Float)
    scores_of end = ok none_left
    scores_of (field k v rest) = do
      x ← number k (float_of v)
      xs ← scores_of rest
      ok (score k x xs)

    -- the scores of exactly the packet's choices
    unfoldable pub scores_for : Packet → Fields → Result String (Scores Float)
    unfolding scores_of
    scores_for p response = do
      given ← as_mapping (get "scores" response) "scores must be a mapping"
      require (same_keys (allowed_choices p) given)
          "scores must cover exactly the supplied candidates plus ESCALATE"
      scores ← scores_of given
      require (sums_to_one (values_of scores)) "scores must sum to 1"
      ok scores

    -- `validate_bounded_decision_response`
    unfoldable pub validate_response : Packet → Value → Result String Response
    unfolding response_to packet_named choice_of scores_for provenance_of
    validate_response p given = do
      response ← response_to p given
      sha ← packet_named p response
      choice ← choice_of p response
      scores ← scores_for p response
      provenance ← provenance_of response
      ok (record {
        packet_sha256 = sha;
        choice_id = choice;
        scores = scores;
        observation_provenance = provenance;
      })
