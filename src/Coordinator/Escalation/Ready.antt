-- ===== src/Coordinator/Escalation/Ready.antt =====
-- The search for the next ready worker (execution_coordination/coordinator.py, `_next_ready_provider`).
use nexus_runtime.Prelude.{
  String, Bool, true, false, ◌≡◌, ◌⊎◌, refl, ap, List, [], ◌∷◌, ◌++◌, All, elem, Option, none, some,
  Bool-cases, inl, inr,
}
use nexus_runtime.Python.Raise.{Result, ok, err, Result-cases}
use nexus_runtime.Coordinator.Escalation.{ready_or, next_ready_provider}

module _ (boundary : String → Result String (Unit {0})) (ready : String → Bool)
    (tried : List String) where
  -- A provider that the search goes past: it was tried, or its preflight was made and is not ready.
  abbrev pub Passed : String → Type 0
  Passed p =
      (elem p tried ≡ true) ⊎ ((elem p tried ≡ false) × (boundary p ≡ ok tt) × (ready p ≡ false))

  -- The search goes past the providers in front of this one, which was not tried.
  abbrev pub Reaches : List String → String → Type 0
  Reaches order p =
      (before : List String) × (after : List String) × (order ≡ before ++ (p ∷ after))
      × All Passed before
      × (elem p tried ≡ false)

  -- What the outcome of the search says of the order.
  abbrev pub Searches : List String → Result String (Option String) → Type 0
  Searches order (ok none) = All Passed order
  Searches order (ok (some p)) = Reaches order p × (boundary p ≡ ok tt) × (ready p ≡ true)
  Searches order (err e) = (p : String) × Reaches order p × (boundary p ≡ err e)

  Reaches-cons :
      (q : String) (order : List String) (p : String)
      → Passed q
      → Reaches order p
      → Reaches (q ∷ order) p
  Reaches-cons q order p past (before, after, split, passed, new) =
      (q ∷ before, after, ap (λ l. q ∷ l) split, (past, passed), new)

  Searches-cons :
      (q : String) (order : List String) (r : Result String (Option String))
      → Passed q
      → Searches order r
      → Searches (q ∷ order) r
  Searches-cons q order (ok none) past h = (past, h)
  Searches-cons q order (ok (some p)) past (reach, passes, up) =
      (Reaches-cons q order p past reach, passes, up)
  Searches-cons q order (err e) past (p, reach, raised) =
      (p, Reaches-cons q order p past reach, raised)

  Reaches-head : (q : String) (order : List String) → elem q tried ≡ false → Reaches (q ∷ order) q
  Reaches-head q order new = ([], order, refl, tt, new)

  ready_or-Searches :
      (q : String) (order : List String) (rest : Result String (Option String))
      → elem q tried ≡ false
      → Searches order rest
      → Searches (q ∷ order) (ready_or boundary ready q rest)
  ready_or-Searches q order rest new h = elim (Result-cases (boundary q)) [
    | inr (e, raised) ↦ rw raised (q, Reaches-head q order new, raised)
    | inl (u, passes) ↦ elim (Bool-cases (ready q)) [
      | inl up ↦ rw (passes, up) (Reaches-head q order new, passes, up)
      | inr down ↦ rw (passes, down) (Searches-cons q order rest (inr (new, passes, down)) h)
    ]
  ]

  -- The search ends in one of three ways. It finds a provider of the order that was not tried, whose
  -- preflight may be made and is ready, and every provider in front of it was tried or is not ready; it
  -- finds none, and every provider was tried or is not ready; or the check before a preflight raises, for
  -- a provider that was not tried and with every one in front of it tried or not ready.
  pub next_ready_provider-Searches :
      (order : List String) → Searches order (next_ready_provider boundary ready order tried)
  unfolding next_ready_provider
  next_ready_provider-Searches [] = tt
  next_ready_provider-Searches (q ∷ order) =
      let rest : Result String (Option String) = next_ready_provider boundary ready order tried in
      let later : Searches order rest = next_ready_provider-Searches order in
      elim (Bool-cases (elem q tried)) [
        | inl old ↦ rw old (Searches-cons q order rest (inl old) later)
        | inr new ↦ rw new (ready_or-Searches q order rest new later)
      ]
