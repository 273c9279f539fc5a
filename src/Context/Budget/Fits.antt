-- ===== src/Context/Budget/Fits.antt =====
-- What the budget's receipt promises (task_context/budget.py).
use mathlib.Core.List.{Perm, perm_middle}
use mathlib.Core.List.Perm
use nexus_runtime.Prelude.{
  ℕ, zero, suc, ◌+◌, ◌≤◌, ◌≡◌, refl, Bool, true, false, List, [], ◌∷◌, ◌++◌, map, All, arith, ◌∙◌,
  sym, subst, String, &&-true, append_assoc,
}
use nexus_runtime.Prelude.Int.{ℤ, pos, negsuc, le_ℤ}
use nexus_runtime.Python.Value.{int, or_else}
use nexus_runtime.Python.Number.{int_of}
use nexus_runtime.Python.Order.{sort, sort-perm, filter-append-perm}
use nexus_runtime.Python.Raise.{ok}
use nexus_runtime.Context.Budget.{
  Source, Choice, keep_one, drop_one, preserved_l0_l1, has_kind, choose, fits, total, positive,
  blockers_of, drop, Receipt, receipt_of, receipt_with, required_of, optional_of, comes_first,
  is_required, integer, receipt_to_dict, validate_context_budget_receipt,
}

-- The loop keeps within the budget, counts what it keeps, and has no room for what it drops.
pub record Fitting (budget : ℤ) (used : ℕ) (sources : List Source) (c : Choice) : Type 0 where
  pub within : le_ℤ (pos c.used) budget ≡ true
  pub counted : c.used ≡ used + total c.kept
  pub full : All (λ s. fits budget c.used s ≡ false) c.dropped
  pub all_there : Perm (c.kept ++ c.dropped) sources

-- what does not fit does not fit later either
fits_later :
    (budget : ℤ) (used later : ℕ) (s : Source)
    → used ≤ later
    → fits budget used s ≡ false
    → fits budget later s ≡ false
fits_later budget used later s le h = ground arith

keep_one-Fitting :
    (budget : ℤ) (used : ℕ) (s : Source) (rest : List Source) (c : Choice)
    → Fitting budget (used + s.estimated_tokens) rest c
    → Fitting budget used (s ∷ rest) (keep_one s c)
keep_one-Fitting budget used s rest c f = record {
  within = f.within;
  counted = omega arith;
  full = f.full;
  all_there = Perm.cons s f.all_there;
}

drop_one-Fitting :
    (budget : ℤ) (used : ℕ) (s : Source) (rest : List Source) (c : Choice)
    → fits budget used s ≡ false
    → Fitting budget used rest c
    → Fitting budget used (s ∷ rest) (drop_one s c)
drop_one-Fitting budget used s rest c no_room f = record {
  within = f.within;
  counted = f.counted;
  full = (fits_later budget used c.used s (omega arith) no_room, f.full);
  all_there = Perm.trans (perm_middle c.kept c.dropped) (Perm.cons s f.all_there);
}

choose-Fitting :
    (budget : ℤ) (sources : List Source) (used : ℕ)
    → le_ℤ (pos used) budget ≡ true
    → Fitting budget used sources (choose budget sources used)
unfolding choose
choose-Fitting budget [] used h = record {
  within = h;
  counted = omega arith;
  full = tt;
  all_there = Perm.rfl;
}
choose-Fitting budget (s ∷ rest) used h =
    on_test (fits budget used s) refl (choose-Fitting budget rest (used + s.estimated_tokens))
      (choose-Fitting budget rest used h)
  where
    on_test :
        (room : Bool)
        → fits budget used s ≡ room
        → (le_ℤ (pos (used + s.estimated_tokens)) budget ≡ true
            → Fitting budget
                (used + s.estimated_tokens)
                rest
                (choose budget rest (used + s.estimated_tokens)))
        → Fitting budget used rest (choose budget rest used)
        → Fitting budget used (s ∷ rest) (elim room [
          | true ↦ keep_one s (choose budget rest (used + s.estimated_tokens))
          | false ↦ drop_one s (choose budget rest used)
        ])
    on_test true e kept dropped = keep_one-Fitting budget used s rest _ (kept e)
    on_test false e kept dropped = drop_one-Fitting budget used s rest _ e dropped

-- What holds of a receipt that passes.
pub record Passes (sources : List Source) (r : Receipt) : Type 0 where
  pub chosen : List Source
  pub left_out : List Source
  pub funded : positive r.token_budget ≡ true
  pub within : le_ℤ (pos r.estimated_tokens) r.token_budget ≡ true
  pub counted : r.estimated_tokens ≡ total r.kept_sources
  pub kept_required : r.kept_sources ≡ required_of sources ++ chosen
  pub says_so : r.preserved ≡ true
  pub preserves : preserved_l0_l1 r.kept_sources ≡ true
  pub dropped : r.dropped_sources ≡ map (drop "budget_exhausted") left_out
  pub full : All (λ s. fits r.token_budget r.estimated_tokens s ≡ false) left_out
  pub all_there : Perm (r.kept_sources ++ left_out) sources

total-append : (xs ys : List Source) → total (xs ++ ys) ≡ total xs + total ys
total-append [] ys = omega arith
total-append (x ∷ xs) ys = omega (arith, total-append xs ys)

has_kind-append :
    (kind : String) (xs ys : List Source)
    → has_kind kind xs ≡ true
    → has_kind kind (xs ++ ys) ≡ true
has_kind-append kind [] ys h = cc
has_kind-append kind (x ∷ xs) ys h = ground (arith, has_kind-append kind xs ys)

preserved_l0_l1-append :
    (xs ys : List Source) → preserved_l0_l1 xs ≡ true → preserved_l0_l1 (xs ++ ys) ≡ true
preserved_l0_l1-append xs ys h =
    let (l0, l1) = &&-true (has_kind "L0" xs) (has_kind "L1" xs) h in
    rw (has_kind-append "L0" xs ys l0, has_kind-append "L1" xs ys l1)

no_blockers :
    (budget : ℤ) (required : List Source)
    → blockers_of budget required ≡ []
    → (preserved_l0_l1 required ≡ true)
      × (positive budget ≡ true)
      × (le_ℤ (pos (total required)) budget ≡ true)
no_blockers budget required h = ground arith

receipt_with-Passes :
    (budget : ℤ) (sources : List Source) (blockers : List String)
    → blockers ≡ blockers_of budget (required_of sources)
    → let r = receipt_with budget (required_of sources) (optional_of sources) blockers in
      r.status ≡ "PASS" → Passes sources r
receipt_with-Passes budget sources (b ∷ bs) e h = absurd (cc)
receipt_with-Passes budget sources [] e h =
    let (preserved, funded, enough) = no_blockers budget (required_of sources) (sym e) in
    let f =
      choose-Fitting budget (sort comes_first (optional_of sources)) (total (required_of sources))
        enough in
    record {
      chosen =
          (choose budget (sort comes_first (optional_of sources))
            (total (required_of sources))).kept;
      left_out =
          (choose budget (sort comes_first (optional_of sources))
            (total (required_of sources))).dropped;
      funded = funded;
      within = f.within;
      counted = f.counted ∙ sym (total-append (required_of sources) _);
      kept_required = refl;
      says_so = preserved;
      preserves = preserved_l0_l1-append (required_of sources) _ preserved;
      dropped = refl;
      full = f.full;
      all_there =
          subst (λ l. Perm l sources) (sym (append_assoc (required_of sources) _ _))
            (Perm.trans
              (Perm.append_left (required_of sources)
                (Perm.trans f.all_there (sort-perm comes_first (optional_of sources))))
              (filter-append-perm is_required sources));
    }

-- The receipt that passes is within its budget and counts what it keeps; it keeps every required
-- source, the levels L0 and L1 among them; nothing is lost or invented; and what is left out is
-- reported, and would not have fitted in what was left of the budget.
pub receipt_of-Passes :
    (sources : List Source) (budget : ℤ)
    → (receipt_of sources budget).status ≡ "PASS"
    → Passes sources (receipt_of sources budget)
unfolding receipt_of
receipt_of-Passes sources budget h =
    receipt_with-Passes budget sources (blockers_of budget (required_of sources)) refl h

number_at-int : (n : ℤ) → integer (or_else (int n) (int (pos 0))) ≡ ok n
unfolding int_of
number_at-int (pos zero) = refl
number_at-int (pos (suc n)) = refl
number_at-int (negsuc n) = refl

-- The validator of receipts has nothing to say of a receipt that passes.
pub receipt_of-validate :
    (sources : List Source) (budget : ℤ)
    → (receipt_of sources budget).status ≡ "PASS"
    → validate_context_budget_receipt (receipt_to_dict (receipt_of sources budget)) ≡ ok []
unfolding validate_context_budget_receipt receipt_to_dict
receipt_of-validate sources budget h =
    let p = receipt_of-Passes sources budget h in
    let r = receipt_of sources budget in
    rw
      (
        number_at-int r.token_budget,
        number_at-int (pos r.estimated_tokens),
        p.says_so,
        p.funded,
        p.within,
      )
      refl
