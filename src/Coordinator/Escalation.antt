-- ===== src/Coordinator/Escalation.antt =====
-- execution_coordination/coordinator.py: WorkerEscalationPolicy, which worker comes after a failed one.
pub mod Bounded
pub mod Ready
use Prim.Native.String.{◌++◌ as concat}
use nexus_runtime.Prelude.{
  String, Bool, true, false, ◌&&◌, ◌||◌, List, [], ◌∷◌, ◌++◌, map, any, elem, Option, none, some,
  ◌==◌, if◌then◌else◌,
}
use nexus_runtime.Python.Text.{contains}
use nexus_runtime.Python.Raise.{Result, ok, err, ◌>>=◌, ◌>>◌}
use nexus_runtime.Python.Value.{Value, eq_text, truthy, text_or_empty, to_text, Runtime}

-- A worker's receipt: the attributes that the policy reads, as Python's values.
pub record Receipt : Type 0 where
  pub provider : Value
  pub outcome : Value
  pub evidence_complete : Value
  pub timed_out : Value
  pub failure_reason : Value
  pub commit_created : Value
  pub merge_performed : Value
  pub push_performed : Value

-- `EscalationDecision`
pub record EscalationDecision : Type 0 where
  pub action : String
  pub next_provider : Option String
  pub reason : String

-- the markers of `_failure_is_deterministic`
abbrev pub deterministic_markers : List String
deterministic_markers =
    "malformed" ∷ "invalid contract" ∷ "contract invalid" ∷ "syntaxerror" ∷ "syntax error"
    ∷ "verifier" ∷ "scope" ∷ "forbidden" ∷ "policy" ∷ "unsupported" ∷ "parse error"
    ∷ "argument error" ∷ []

-- the worker changed the repository
abbrev pub mutated : Receipt → Bool
mutated r = truthy r.commit_created || (truthy r.merge_performed || truthy r.push_performed)

-- the worker says that it is done, with its evidence
abbrev pub completed : Receipt → Bool
completed r = eq_text r.outcome "EXECUTION_COMPLETED" && truthy r.evidence_complete

-- `attempts[-1]`
abbrev pub last : Receipt → List Receipt → Receipt
last r [] = r
last r (s ∷ rest) = last s rest

-- the first provider of the order that is not listed
abbrev pub first_other : List String → List String → Option String
first_other [] attempted = none
first_other (p ∷ ps) attempted =
    let rest = first_other ps attempted in if elem p attempted then rest else some p

abbrev pub block : String → EscalationDecision
block reason = record { action = "BLOCK"; next_provider = none; reason = reason }

module _ (rt : Runtime) where
  -- `_failure_is_deterministic`
  unfoldable pub failure_is_deterministic : Receipt → Bool
  unfolding contains
  failure_is_deterministic r =
      if truthy r.timed_out || eq_text r.outcome "INCOMPLETE"
      then false
      else any (λ marker. contains marker (rt.lower (text_or_empty rt r.failure_reason)))
          deterministic_markers

  abbrev pub attempted : List Receipt → List String
  attempted rs = map (λ (r : Receipt). to_text rt r.provider) rs

  -- the next worker, or none
  abbrev pub escalate : Receipt → Option String → EscalationDecision
  escalate latest (some p) = record {
    action = "ESCALATE";
    next_provider = some p;
    reason = concat "cheap worker did not prove success: " (to_text rt latest.outcome);
  }
  escalate latest none = block "strong worker did not produce complete proof"

  -- the decision after the latest of some attempts
  unfoldable pub decide_after : List String → Receipt → List String → EscalationDecision
  unfolding failure_is_deterministic
  decide_after order latest tried =
      if mutated latest
      then block "worker attempted a forbidden repository mutation"
      else if completed latest
      then record {
        action = "VERIFY";
        next_provider = none;
        reason = "worker execution completed; verification required";
      }
      else if failure_is_deterministic latest
      then block "deterministic worker failure must not escalate"
      else escalate latest (first_other order tried)

  -- `WorkerEscalationPolicy.decide`, for an order that begins with `cheapest`
  unfoldable pub decide : String → List String → List Receipt → EscalationDecision
  unfolding decide_after
  decide cheapest others [] = record {
    action = "RUN_CHEAP";
    next_provider = some cheapest;
    reason = "no worker attempt exists";
  }
  decide cheapest others (r ∷ rs) =
      decide_after (cheapest ∷ others) (last r rs) (attempted (r ∷ rs))

-- `_next_ready_provider`: `boundary` is the check before a preflight, which may raise, and `ready` says
-- how the preflight ends.
module _ (boundary : String → Result String (Unit {0})) (ready : String → Bool) where
  abbrev pub ready_or : String → Result String (Option String) → Result String (Option String)
  ready_or p rest = do boundary p; if ready p then ok (some p) else rest

  unfoldable pub next_ready_provider : List String → List String → Result String (Option String)
  next_ready_provider [] tried = ok none
  next_ready_provider (p ∷ ps) tried =
      let rest = next_ready_provider ps tried in if elem p tried then rest else ready_or p rest
