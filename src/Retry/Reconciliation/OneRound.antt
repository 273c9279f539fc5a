-- ===== src/Retry/Reconciliation/OneRound.antt =====
-- At most one repair round (task_retry/bounded_reconciliation.py).
use nexus_runtime.Prelude.{◌≡◌, true, arith, subst}
use nexus_runtime.Prelude.Int.{pos}
use nexus_runtime.Python.Value.{Value, int, str, dict, Fields, get, has, Runtime}
use nexus_runtime.Python.Raise.{ok, >>=-eq-ok}
use nexus_runtime.Retry.Packet.{Packet, text}
use nexus_runtime.Retry.Reconciliation.{
  eligible, exhausted, eligible_decision, current_repair_round, evaluate_fields,
  evaluate_bounded_reconciliation, build_repair_request_metadata,
}
use nexus_runtime.Retry.Reconciliation.Eligible.{eligible-Repairable, Repairable-eligible}

-- the metadata of a repair says that its round is the next one
metadata-round :
    (p : Packet) (before after : Value) {m : Fields}
    → build_repair_request_metadata (eligible_decision p 0) before after ≡ ok m
    → (has "repair_round" m ≡ true) × (get "repair_round" m ≡ int (pos 1))
unfolding build_repair_request_metadata
metadata-round p before after h =
    let (b, _, h1) = >>=-eq-ok (text before "predecessor_attempt_id") _ h in
    let (a, _, h2) = >>=-eq-ok (text after "successor_attempt_id") _ h1 in
    let (s, _, h3) = >>=-eq-ok (text (str p.packet_sha256) "residual_packet_sha256") _ h2 in
    ground arith

second_round :
    (request m : Fields)
    → get "bounded_reconciliation" request ≡ dict m
    → has "repair_round" m ≡ true
    → get "repair_round" m ≡ int (pos 1)
    → current_repair_round request ≡ ok 1
unfolding current_repair_round
second_round request m carries there is_one = rw (carries, there, is_one)

module _ (rt : Runtime) where
  -- One repair round at most: once a repair has been admitted, every request that carries the
  -- metadata built for it is refused with the budget used up and a replan asked for, whatever its
  -- task state and its next residual packet say.
  pub one_repair_round :
      (state : Fields) (residual : Value) (before after : Value) {m : Fields}
      → eligible (evaluate_bounded_reconciliation rt (dict state) residual) ≡ true
      → build_repair_request_metadata
          (evaluate_bounded_reconciliation rt (dict state) residual)
          before
          after
        ≡ ok m
      → (later request : Fields) (next : Value) → get "request" later ≡ dict request
      → get "bounded_reconciliation" request ≡ dict m
      → evaluate_bounded_reconciliation rt (dict later) next ≡ exhausted 1
  unfolding evaluate_bounded_reconciliation evaluate_fields
  one_repair_round state residual before after {m} h built later request next asks carries =
      let (r, i, v, p, c, parsed, repairable) = eligible-Repairable rt state residual h in
      let first : evaluate_bounded_reconciliation rt (dict state) residual ≡ eligible_decision p 0 =
        Repairable-eligible rt state r i v p c residual parsed repairable in
      let (there, is_one) =
        metadata-round p before after {m = m}
          (subst (λ d. build_repair_request_metadata d before after ≡ ok m) first built) in
      rw (asks, second_round request m carries there is_one)
