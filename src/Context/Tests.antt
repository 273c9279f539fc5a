-- ===== src/Context/Tests.antt =====
-- A budget at concrete sources.
use nexus_runtime.Prelude.{◌≡◌, refl, false, List, [], ◌∷◌, map}
use nexus_runtime.Prelude.Int.{pos}
use nexus_runtime.Python.Value.{end}
use nexus_runtime.Python.Order.{sort}
use nexus_runtime.Python.Raise.{ok}
use nexus_runtime.Context.Budget.{
  Source, choose, receipt_of, receipt_to_dict, validate_context_budget_receipt,
}
use nexus_runtime.Context.Budget.Fits.{Passes, receipt_of-Passes, receipt_of-validate}

abbrev rules : Source
rules = record {
  source_id = "rules";
  kind = "L0";
  estimated_tokens = 3;
  priority = pos 100;
  required = false;
  metadata = end;
}

abbrev sources : List Source
sources =
    record rules { source_id = "notes"; kind = "memory"; estimated_tokens = 5 }
    ∷ rules
    ∷ record rules { source_id = "task"; kind = "L1"; estimated_tokens = 4 }
    ∷ record rules { source_id = "hint"; kind = "memory"; estimated_tokens = 2; priority = pos 1 }
    ∷ []

sources-kept :
    map (λ (s : Source). s.source_id) (receipt_of sources (pos 10)).kept_sources
    ≡ "rules" ∷ "task" ∷ "hint" ∷ []
unfolding receipt_of choose sort
sources-kept = refl

sources_pass : (receipt_of sources (pos 10)).status ≡ "PASS"
unfolding receipt_of
sources_pass = refl

receipt_of-Passes_example : Passes sources (receipt_of sources (pos 10))
receipt_of-Passes_example = receipt_of-Passes sources (pos 10) sources_pass

receipt_of-validate_example :
    validate_context_budget_receipt (receipt_to_dict (receipt_of sources (pos 10))) ≡ ok []
receipt_of-validate_example = receipt_of-validate sources (pos 10) sources_pass
