-- ===== src/Context/Budget.antt =====
-- task_context/budget.py: which context sources fit into a token budget.
pub mod Fits
use nexus_runtime.Prelude.{
  ℕ, zero, ◌+◌, String, Bool, true, false, ◌&&◌, ◌||◌, not, List, [], ◌∷◌, ◌++◌, map, Option, none,
  some, filter, any, elem, ◌==◌, if◌then◌else◌,
}
use nexus_runtime.Prelude.Int.{ℤ, pos, negsuc, le_ℤ, eq_ℤ}
use nexus_runtime.Python.Text.{is_blank, less}
use nexus_runtime.Python.Value.{
  Value, bool, int, str, list, dict, Items, nil, cons, Fields, end, get, has, eq_text, truthy,
  or_else, text_or_empty, items_of, Runtime, fields_of,
}
use nexus_runtime.Python.Number.{int_of}
use nexus_runtime.Python.Order.{sort, sorted_set}
use nexus_runtime.Python.Raise.{Result, ok, err, ◌>>=◌, ◌>>◌, require}

-- The `ValueError`s of the module, and the ones that `int()` and `dict()` raise.
pub data BudgetError : Type 0 where
  value_error : String → BudgetError
  not_an_integer not_a_mapping : BudgetError

-- `ContextBudgetSource`, whose tokens are not negative: see `make_source`.
pub record Source : Type 0 where
  pub source_id : String
  pub kind : String
  pub estimated_tokens : ℕ
  pub priority : ℤ
  pub required : Bool
  pub metadata : Fields

not_negative : ℤ → Result BudgetError ℕ
not_negative (pos n) = ok n
not_negative (negsuc n) = err (value_error "negative_estimated_tokens")

-- `ContextBudgetSource(…)` with its `__post_init__`
unfoldable pub make_source : String → String → ℤ → ℤ → Bool → Fields → Result BudgetError Source
unfolding not_negative is_blank
make_source source_id kind estimated_tokens priority required metadata = do
  require (not (is_blank source_id)) (value_error "missing_source_id")
  require (not (is_blank kind)) (value_error "missing_kind")
  tokens ← not_negative estimated_tokens
  ok (record {
    source_id = source_id;
    kind = kind;
    estimated_tokens = tokens;
    priority = priority;
    required = required;
    metadata = metadata;
  })

abbrev pub integer : Value → Result BudgetError ℤ
unfolding int_of
integer v = elim (int_of v) [ none ↦ err not_an_integer | some n ↦ ok n ]

abbrev pub get_or : String → Value → Fields → Value
get_or key default fs = if has key fs then get key fs else default

-- A source, or the mapping that describes one.
pub data Given : Type 0 where
  source : Source → Given
  mapping : Fields → Given

-- `_is_required`
abbrev pub is_required : Source → Bool
is_required s = s.required || elem s.kind ("L0" ∷ "L1" ∷ [])

abbrev pub has_kind : String → List Source → Bool
has_kind kind sources = any (λ s. s.kind == kind) sources

-- `_preserved_l0_l1`
abbrev pub preserved_l0_l1 : List Source → Bool
preserved_l0_l1 sources = has_kind "L0" sources && has_kind "L1" sources

-- `_drop`
abbrev pub drop : String → Source → Fields
drop reason s = fields_of (
    ("source_id", str s.source_id)
    ∷ ("kind", str s.kind)
    ∷ ("estimated_tokens", int (pos s.estimated_tokens))
    ∷ ("drop_reason_code", str reason)
    ∷ [])

abbrev pub total : List Source → ℕ
total [] = 0
total (s ∷ rest) = s.estimated_tokens + total rest

-- the sort key is `(priority, source_id)`
abbrev pub comes_first : Source → Source → Bool
comes_first a b =
    not (le_ℤ b.priority a.priority) || (eq_ℤ a.priority b.priority && less a.source_id b.source_id)

-- What the loop over the optional sources has kept and dropped, and the tokens used.
pub record Choice : Type 0 where
  pub kept : List Source
  pub dropped : List Source
  pub used : ℕ

abbrev pub keep_one : Source → Choice → Choice
keep_one s c = record c { kept = s ∷ c.kept }

abbrev pub drop_one : Source → Choice → Choice
drop_one s c = record c { dropped = s ∷ c.dropped }

abbrev pub fits : ℤ → ℕ → Source → Bool
fits budget used s = le_ℤ (pos (used + s.estimated_tokens)) budget

unfoldable pub choose : ℤ → List Source → ℕ → Choice
choose budget [] used = record { kept = []; dropped = []; used = used }
choose budget (s ∷ rest) used = elim (fits budget used s) [
  | true ↦ keep_one s (choose budget rest (used + s.estimated_tokens))
  | false ↦ drop_one s (choose budget rest used)
]

abbrev pub blocker_if : Bool → String → List String
blocker_if b reason = if b then reason ∷ [] else []

-- `int(token_budget) > 0`
abbrev pub positive : ℤ → Bool
positive budget = le_ℤ (pos 1) budget

abbrev pub blockers_of : ℤ → List Source → List String
blockers_of budget required =
    blocker_if (not (positive budget)) "invalid_token_budget"
    ++ (blocker_if (not (preserved_l0_l1 required)) "missing_required_l0_l1"
        ++ blocker_if (positive budget && not (le_ℤ (pos (total required)) budget))
            "required_context_over_budget")

-- `ContextBudgetReceipt`
pub record Receipt : Type 0 where
  pub token_budget : ℤ
  pub estimated_tokens : ℕ
  pub kept_sources : List Source
  pub dropped_sources : List Fields
  pub preserved : Bool
  pub status : String
  pub blockers : List String

abbrev pub receipt : ℤ → List Source → List String → Choice → String → Receipt
receipt budget required blockers c reason = record {
  token_budget = budget;
  estimated_tokens = c.used;
  kept_sources = required ++ c.kept;
  dropped_sources = map (drop reason) c.dropped;
  preserved = preserved_l0_l1 required;
  status = elim blockers [ [] ↦ "PASS" | _ ↦ "RETURN" ];
  blockers = sorted_set blockers;
}

abbrev pub required_of : List Source → List Source
required_of sources = filter is_required sources

abbrev pub optional_of : List Source → List Source
optional_of sources = filter (λ s. not (is_required s)) sources

-- with a blocker no optional source is looked at
abbrev pub receipt_with : ℤ → List Source → List Source → List String → Receipt
receipt_with budget required optional [] =
    receipt budget required [] (choose budget (sort comes_first optional) (total required))
      "budget_exhausted"
receipt_with budget required optional (b ∷ bs) =
    receipt budget required (b ∷ bs)
      (record { kept = []; dropped = optional; used = total required })
      "budget_not_evaluated_due_to_blocker"

-- `build_context_budget_receipt` once its sources are normalized
unfoldable pub receipt_of : List Source → ℤ → Receipt
receipt_of sources budget =
    let required = required_of sources in
    receipt_with budget required (optional_of sources) (blockers_of budget required)

module _ (rt : Runtime) (as_dict : Value → Option Fields) where
  -- `dict(v)`: what a value that is no mapping gives is left to `as_dict`
  abbrev dict_of : Value → Result BudgetError Fields
  dict_of (dict fs) = ok fs
  dict_of v = elim (as_dict v) [ none ↦ err not_a_mapping | some fs ↦ ok fs ]

  -- `_source`
  unfoldable pub source_of : Given → Result BudgetError Source
  unfolding make_source int_of
  source_of (source s) = ok s
  source_of (mapping fs) = do
    tokens ← integer (or_else (get "estimated_tokens" fs) (int (pos 0)))
    priority ← integer (get_or "priority" (int (pos 100)) fs)
    metadata ← dict_of (or_else (get "metadata" fs) (dict end))
    make_source (text_or_empty rt (get "source_id" fs)) (text_or_empty rt (get "kind" fs)) tokens
        priority (truthy (get "required" fs)) metadata

  unfoldable pub sources_of : List Given → Result BudgetError (List Source)
  unfolding source_of
  sources_of [] = ok []
  sources_of (g ∷ rest) = do s ← source_of g; ss ← sources_of rest; ok (s ∷ ss)

  -- `build_context_budget_receipt`
  unfoldable pub build_context_budget_receipt : List Given → ℤ → Result BudgetError Receipt
  unfolding sources_of receipt_of
  build_context_budget_receipt given budget = do
    sources ← sources_of given
    ok (receipt_of sources budget)

abbrev pub source_to_dict : Source → Value
source_to_dict s = dict (
    fields_of (
      ("source_id", str s.source_id)
      ∷ ("kind", str s.kind)
      ∷ ("estimated_tokens", int (pos s.estimated_tokens))
      ∷ ("priority", int s.priority)
      ∷ ("required", bool s.required)
      ∷ ("metadata", dict s.metadata)
      ∷ []))

abbrev pub list_of : List Value → Items
list_of [] = nil
list_of (v ∷ vs) = cons v (list_of vs)

-- `ContextBudgetReceipt.to_dict`
unfoldable pub receipt_to_dict : Receipt → Fields
receipt_to_dict r = fields_of (
    ("schema", str "nexus_context_budget_receipt.v1")
    ∷ ("status", str r.status)
    ∷ ("token_budget", int r.token_budget)
    ∷ ("estimated_tokens", int (pos r.estimated_tokens))
    ∷ ("kept_sources", list (list_of (map source_to_dict r.kept_sources)))
    ∷ ("dropped_sources", list (list_of (map dict r.dropped_sources)))
    ∷ ("preserved_L0_L1", bool r.preserved)
    ∷ ("blockers", list (items_of r.blockers))
    ∷ [])

-- `int(payload.get(key) or 0)`
abbrev pub number_at : String → Fields → Result BudgetError ℤ
unfolding int_of
number_at key payload = integer (or_else (get key payload) (int (pos 0)))

-- `validate_context_budget_receipt`
unfoldable pub validate_context_budget_receipt : Fields → Result BudgetError (List String)
unfolding int_of sorted_set
validate_context_budget_receipt payload = do
  budget ← number_at "token_budget" payload
  estimated ← number_at "estimated_tokens" payload
  ok (
      sorted_set (
        blocker_if (not (eq_text (get "schema" payload) "nexus_context_budget_receipt.v1"))
          "invalid_context_budget_schema"
        ++ (blocker_if (not (positive budget)) "invalid_token_budget"
            ++ (blocker_if (not (truthy (get "preserved_L0_L1" payload))) "missing_required_l0_l1"
                ++ blocker_if (not (le_ℤ estimated budget)) "estimated_tokens_exceed_budget"))))
