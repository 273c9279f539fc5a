-- ===== src/Retry/Packet.antt =====
-- task_retry/bounded_reconciliation.py: the verifier's residual packet and its checks. An error is
-- the message of a `BoundedReconciliationError`.
use Prim.Native.Char.{code}
use Prim.Native.String.{◌++◌ as concat}
use nexus_runtime.Prelude.{
  ℕ, zero, suc, String, Bool, true, false, ◌&&◌, ◌||◌, List, [], ◌∷◌, leb, eqb, ◌==◌, elem, Option,
  none, some, if◌then◌else◌, length,
}
use nexus_runtime.Python.Text.{strip, is_blank}
use nexus_runtime.Python.Value.{
  Value, str, list, dict, Items, nil, cons, Fields, get, same_keys, eq_text, Runtime, fields_of,
  items_of,
}
use nexus_runtime.Python.Order.{insert_text}
use nexus_runtime.Python.Raise.{Result, ok, err, ◌>>=◌, ◌>>◌, require}

-- `_text`
unfoldable pub text : Value → String → Result String String
unfolding is_blank
text (str s) name =
    if is_blank s then err (concat name " must be a non-empty string") else ok (strip s)
text _ name = err (concat name " must be a non-empty string")

-- `sorted({…})`: the texts so far are in order and without duplicates
unfoldable pub texts : Items → String → Result String (List String)
unfolding text insert_text
texts nil name = ok []
texts (cons v vs) name = do s ← text v name; ts ← texts vs name; ok (insert_text s ts)

-- `_string_tuple`
unfoldable pub string_tuple : Value → String → ℕ → Result String (List String)
unfolding texts
string_tuple (list vs) name minimum = do
  ts ← texts vs name
  require (leb minimum (length ts)) (concat name " requires at least 1 item(s)")
  ok ts
string_tuple _ name minimum = err (concat name " must be an array of strings")

-- `[0-9a-f]{n}`
unfoldable pub is_hex : ℕ → String → Bool
is_hex zero String.[] = true
is_hex (suc n) (String.◌∷◌ c s) =
    ((leb 48 (code c) && leb (code c) 57) || (leb 97 (code c) && leb (code c) 102)) && is_hex n s
is_hex _ _ = false

-- the text after a prefix
unfoldable pub after_prefix : String → String → Option String
after_prefix String.[] s = some s
after_prefix (String.◌∷◌ p ps) String.[] = none
after_prefix (String.◌∷◌ p ps) (String.◌∷◌ c s) =
    if eqb (code p) (code c) then after_prefix ps s else none

prefixed : String → String → Option String → Result String String
prefixed name s (some rest) =
    if is_hex 64 rest then ok s else err (concat name " must be a SHA-256 digest")
prefixed name s none =
    if is_hex 64 s then ok (concat "sha256:" s) else err (concat name " must be a SHA-256 digest")

-- `_sha256`: the digest with its `sha256:` prefix
unfoldable pub sha256 : Value → String → Result String String
unfolding text after_prefix is_hex prefixed
sha256 v name = do s ← text v name; prefixed name s (after_prefix "sha256:" s)

-- `VerifierResidualPacket`
pub record Packet : Type 0 where
  pub task_id : String
  pub predecessor_attempt_id : String
  pub candidate_id : String
  pub candidate_sha256 : String
  pub source_revision : String
  pub verifier_id : String
  pub verifier_version : String
  pub verifier_receipt_ref : String
  pub failure_class : String
  pub residual_family : String
  pub failed_invariants : List String
  pub counterexample_refs : List String
  pub repair_target : String
  pub claim_ceiling : String
  pub packet_sha256 : String

-- `_ALLOWED_REPAIR_TARGETS`
abbrev pub allowed_repair_targets : List String
allowed_repair_targets =
    "IMPLEMENTATION" ∷ "STATE_TRANSITION" ∷ "EVIDENCE_BINDING" ∷ "SCHEMA_CONTRACT"
    ∷ "ORDERING_CONCURRENCY" ∷ "TEST_SEMANTICS" ∷ "AUTHORITY_BOUNDARY" ∷ []

abbrev pub packet_schema : String
packet_schema = "nexus.runtime.verifier_residual_packet.v1"

-- `_content`
abbrev pub content : Packet → Fields
content p = fields_of (
    ("schema", str packet_schema)
    ∷ ("task_id", str p.task_id)
    ∷ ("predecessor_attempt_id", str p.predecessor_attempt_id)
    ∷ ("candidate_id", str p.candidate_id)
    ∷ ("candidate_sha256", str p.candidate_sha256)
    ∷ ("source_revision", str p.source_revision)
    ∷ ("verifier_id", str p.verifier_id)
    ∷ ("verifier_version", str p.verifier_version)
    ∷ ("verifier_receipt_ref", str p.verifier_receipt_ref)
    ∷ ("failure_class", str p.failure_class)
    ∷ ("residual_family", str p.residual_family)
    ∷ ("failed_invariants", list (items_of p.failed_invariants))
    ∷ ("counterexample_refs", list (items_of p.counterexample_refs))
    ∷ ("repair_target", str p.repair_target)
    ∷ ("claim_ceiling", str p.claim_ceiling)
    ∷ [])

abbrev pub packet_keys : List String
packet_keys =
    "schema" ∷ "task_id" ∷ "predecessor_attempt_id" ∷ "candidate_id" ∷ "candidate_sha256"
    ∷ "source_revision" ∷ "verifier_id" ∷ "verifier_version" ∷ "verifier_receipt_ref"
    ∷ "failure_class" ∷ "residual_family" ∷ "failed_invariants" ∷ "counterexample_refs"
    ∷ "repair_target" ∷ "claim_ceiling" ∷ "packet_sha256" ∷ []

module _ (rt : Runtime) where
  -- `_payload_sha256(packet._content())`
  abbrev pub content_sha256 : Packet → String
  content_sha256 p = concat "sha256:" (rt.digest (dict (content p)))

  -- `verify`
  unfoldable pub verify : Packet → Result String (Unit {0})
  verify p = require (p.packet_sha256 == content_sha256 p) "verifier residual packet hash mismatch"

  -- `build`, with the arguments as the fields of a dictionary
  unfoldable pub build : Fields → Result String Packet
  build v = do
    target ← text (get "repair_target" v) "repair_target"
    require (elem (rt.upper target) allowed_repair_targets)
        "repair_target is not an admitted abstraction"
    task_id ← text (get "task_id" v) "task_id"
    attempt ← text (get "predecessor_attempt_id" v) "predecessor_attempt_id"
    candidate_id ← text (get "candidate_id" v) "candidate_id"
    candidate_sha256 ← sha256 (get "candidate_sha256" v) "candidate_sha256"
    source_revision ← text (get "source_revision" v) "source_revision"
    verifier_id ← text (get "verifier_id" v) "verifier_id"
    verifier_version ← text (get "verifier_version" v) "verifier_version"
    receipt ← text (get "verifier_receipt_ref" v) "verifier_receipt_ref"
    failure_class ← text (get "failure_class" v) "failure_class"
    residual_family ← text (get "residual_family" v) "residual_family"
    invariants ← string_tuple (get "failed_invariants" v) "failed_invariants" 1
    refs ← string_tuple (get "counterexample_refs" v) "counterexample_refs" 0
    ceiling ← text (get "claim_ceiling" v) "claim_ceiling"
    let packet : Packet = record {
      task_id = task_id;
      predecessor_attempt_id = attempt;
      candidate_id = candidate_id;
      candidate_sha256 = candidate_sha256;
      source_revision = source_revision;
      verifier_id = verifier_id;
      verifier_version = verifier_version;
      verifier_receipt_ref = receipt;
      failure_class = rt.upper failure_class;
      residual_family = residual_family;
      failed_invariants = invariants;
      counterexample_refs = refs;
      repair_target = rt.upper target;
      claim_ceiling = ceiling;
      packet_sha256 = "";
    }
    ok (record packet { packet_sha256 = content_sha256 packet })

  -- `from_mapping`
  unfoldable pub from_fields : Fields → Result String Packet
  from_fields v = do
    require (same_keys packet_keys v) "verifier residual packet fields mismatch"
    require (eq_text (get "schema" v) packet_schema) "verifier residual packet schema mismatch"
    built ← build v
    observed ← sha256 (get "packet_sha256" v) "packet_sha256"
    require (observed == built.packet_sha256) "verifier residual packet hash mismatch"
    ok built

  unfoldable pub from_mapping : Value → Result String Packet
  unfolding from_fields
  from_mapping (dict v) = from_fields v
  from_mapping _ = err "verifier residual packet must be a mapping"
