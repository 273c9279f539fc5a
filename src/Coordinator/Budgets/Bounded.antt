-- ===== src/Coordinator/Budgets/Bounded.antt =====
-- The receipts of a task never exceed its budgets (execution_coordination/coordinator.py).
use nexus_runtime.Prelude.{
  ℕ, zero, suc, String, ◌+◌, ◌≤◌, ◌≡◌, refl, sym, subst, ap, true, false, List, [], ◌∷◌, ◌++◌,
  Option, none, some, arith, Bool-cases, inl, inr,
}
use nexus_runtime.Prelude.Int.{ℤ, pos, negsuc, pos_part, le_ℤ}
use nexus_runtime.Python.Number.{int_of, int_of_text}
use nexus_runtime.Python.Value.{
  is_null, Value, null, bool, int, str, list, nil, cons, dict, end, field, object,
}
use nexus_runtime.Python.Raise.{ok, require, >>=-eq-ok, require-eq-ok, ok-injective}
use nexus_runtime.Coordinator.Budgets.{
  Usage, Ceilings, number_of, count_of, consumed, left_of, calls_of, attempts_of, remaining, within,
  attempts_within, check_receipt, attempt,
}

-- The receipts that the rounds of the loop can leave, whatever the workers report.
pub data Attempts (ceilings : Ceilings) : List Usage → Type 0 where
  fresh : Attempts ceilings []
  another :
      {receipts after : List Usage}
      → Attempts ceilings receipts
      → (answer : Option Usage) → attempt ceilings receipts answer ≡ ok after
      → Attempts ceilings after

-- a reported number that is within what is left keeps the sum at most the ceiling
within-left_of :
    (ceiling n : ℤ) (used : ℕ)
    → within n (left_of ceiling used) ≡ true
    → used + pos_part n ≤ pos_part ceiling
within-left_of (pos c) (pos n) used h = ground arith
within-left_of (pos c) (negsuc n) used h = ground arith
within-left_of (negsuc c) (pos n) used h = ground arith
within-left_of (negsuc c) (negsuc n) used h = ground arith

-- a value that `int()` reads is counted as what it reads, or as nothing below zero
number_of-count_of : (v : Value) (n : ℤ) → number_of v ≡ ok n → count_of v ≡ ok (pos_part n)
unfolding int_of int_of_text
number_of-count_of null n h = absurd (cc)
number_of-count_of (bool true) n h = ap (λ x. ok (pos_part x)) (ok-injective h)
number_of-count_of (bool false) n h = ap (λ x. ok (pos_part x)) (ok-injective h)
number_of-count_of (int (pos zero)) n h = ap (λ x. ok (pos_part x)) (ok-injective h)
number_of-count_of (int (pos (suc m))) n h = ap (λ x. ok (pos_part x)) (ok-injective h)
number_of-count_of (int (negsuc m)) n h = ap (λ x. ok (pos_part x)) (ok-injective h)
number_of-count_of (str String.[]) n h = absurd (cc)
number_of-count_of (str (String.◌∷◌ c s)) n h = rw h
number_of-count_of (list nil) n h = absurd (cc)
number_of-count_of (list (cons v vs)) n h = absurd (cc)
number_of-count_of (dict end) n h = absurd (cc)
number_of-count_of (dict (field k v fs)) n h = absurd (cc)
number_of-count_of (object m) n h = absurd (cc)

-- one more value is added to the sum
consumed-snoc :
    (vs : List Value) (v : Value) {used n : ℕ}
    → consumed vs ≡ ok used
    → count_of v ≡ ok n
    → consumed (vs ++ v ∷ []) ≡ ok (used + n)
unfolding consumed
consumed-snoc [] v {used} {n} h counted =
    rw counted (ap (λ x. ok x) (ground (arith, ok-injective h)))
consumed-snoc (w ∷ vs) v {used} {n} h counted =
    let (first, is_first, h1) = >>=-eq-ok (count_of w) _ h in
    let (rest, is_rest, h2) = >>=-eq-ok (consumed vs) _ h1 in
    rw (is_first, consumed-snoc vs v is_rest counted)
      (ap (λ x. ok x) (ground (arith, ok-injective h2)))

calls_of-snoc :
    (receipts : List Usage) (u : Usage)
    → calls_of (receipts ++ u ∷ []) ≡ calls_of receipts ++ u.provider_calls ∷ []
calls_of-snoc [] u = refl
calls_of-snoc (r ∷ rest) u = rw (calls_of-snoc rest u)

attempts_of-snoc :
    (receipts : List Usage) (u : Usage)
    → attempts_of (receipts ++ u ∷ []) ≡ attempts_of receipts ++ u.provider_attempt_count ∷ []
attempts_of-snoc [] u = refl
attempts_of-snoc (r ∷ rest) u = rw (attempts_of-snoc rest u)

-- The sum of some values is defined, and at most the ceiling.
abbrev pub Bounded : ℤ → List Value → Type 0
Bounded ceiling vs = (used : ℕ) × (consumed vs ≡ ok used) × (used ≤ pos_part ceiling)

added :
    (ceiling n : ℤ) (vs : List Value) (v : Value) (used : ℕ)
    → consumed vs ≡ ok used
    → number_of v ≡ ok n
    → within n (left_of ceiling used) ≡ true
    → Bounded ceiling (vs ++ v ∷ [])
added ceiling n vs v used is_used reads fits = (
  used + pos_part n,
  consumed-snoc vs v is_used (number_of-count_of v n reads),
  within-left_of ceiling n used fits,
)

is_null-eq : (v : Value) → is_null v ≡ true → v ≡ null
is_null-eq null h = refl
is_null-eq (bool b) h = absurd (cc)
is_null-eq (int n) h = absurd (cc)
is_null-eq (str s) h = absurd (cc)
is_null-eq (list vs) h = absurd (cc)
is_null-eq (dict fs) h = absurd (cc)
is_null-eq (object n) h = absurd (cc)

-- a count of attempts that passes the check keeps their sum bounded
attempts_added :
    (ceiling : ℤ) (vs : List Value) (v : Value) (used : ℕ)
    → consumed vs ≡ ok used
    → used ≤ pos_part ceiling
    → attempts_within v (left_of ceiling used) ≡ ok tt
    → Bounded ceiling (vs ++ v ∷ [])
unfolding number_of
attempts_added ceiling vs v used is_used most h = elim (Bool-cases (is_null v)) [
  | inl absent ↦
      subst (λ x. Bounded ceiling (vs ++ x ∷ [])) (sym (is_null-eq v absent))
        (used + 0, consumed-snoc vs null is_used refl, ground arith)
  | inr given ↦
      let (n, reads, h1) = >>=-eq-ok (number_of v) _ (rw given at h) in
      added ceiling n vs v used is_used reads (require-eq-ok (within n (left_of ceiling used)) _ h1)
]

-- what both sums of the receipts are
abbrev pub InBudget : Ceilings → List Usage → Type 0
InBudget ceilings receipts =
    Bounded ceilings.maximum_calls (calls_of receipts)
    × Bounded ceilings.maximum_attempts (attempts_of receipts)

remaining-ok :
    (ceilings : Ceilings) (receipts : List Usage) {calls attempts : ℕ} {budgets : ℤ × ℤ}
    → consumed (calls_of receipts) ≡ ok calls
    → consumed (attempts_of receipts) ≡ ok attempts
    → remaining ceilings receipts ≡ ok budgets
    → (left_of ceilings.maximum_calls calls, left_of ceilings.maximum_attempts attempts) ≡ budgets
unfolding remaining
remaining-ok ceilings receipts {calls} {attempts} is_calls is_attempts h =
    let (u, _, h1) =
      >>=-eq-ok (require (le_ℤ (pos 1) (left_of ceilings.maximum_calls calls)) _) _
        (rw (is_calls, is_attempts) at h) in
    let (u2, _, h2) =
      >>=-eq-ok (require (le_ℤ (pos 1) (left_of ceilings.maximum_attempts attempts)) _) _ h1 in
    ok-injective h2

-- a receipt that passes the checks keeps both sums bounded
checked-InBudget :
    (ceilings : Ceilings) (receipts : List Usage) (u : Usage) (calls attempts : ℕ)
    → consumed (calls_of receipts) ≡ ok calls
    → consumed (attempts_of receipts) ≡ ok attempts
    → attempts ≤ pos_part ceilings.maximum_attempts
    → check_receipt
        (left_of ceilings.maximum_calls calls, left_of ceilings.maximum_attempts attempts)
        u
      ≡ ok tt
    → InBudget ceilings (receipts ++ u ∷ [])
unfolding check_receipt
checked-InBudget ceilings receipts u calls attempts is_calls is_attempts most h =
    let (n, reads, h1) = >>=-eq-ok (number_of u.provider_calls) _ h in
    let (_, fits, h2) =
      >>=-eq-ok (require (within n (left_of ceilings.maximum_calls calls)) _) _ h1 in
    (
      rw (calls_of-snoc receipts u) (
          added ceilings.maximum_calls n (calls_of receipts) u.provider_calls calls is_calls reads
            (require-eq-ok (within n (left_of ceilings.maximum_calls calls)) _ fits)),
      rw (attempts_of-snoc receipts u) (
          attempts_added ceilings.maximum_attempts (attempts_of receipts) u.provider_attempt_count
            attempts is_attempts most h2),
    )

attempt-InBudget :
    (ceilings : Ceilings) (receipts after : List Usage) (answer : Option Usage)
    → InBudget ceilings receipts
    → attempt ceilings receipts answer ≡ ok after
    → InBudget ceilings after
unfolding attempt
attempt-InBudget ceilings receipts after none before h =
    let (budgets, _, h1) = >>=-eq-ok (remaining ceilings receipts) _ h in absurd (cc h1)
attempt-InBudget ceilings receipts after (some u)
      ((calls, is_calls, _), (attempts, is_attempts, most)) h =
    let (budgets, left, h1) = >>=-eq-ok (remaining ceilings receipts) _ h in
    let (_, passed, h2) = >>=-eq-ok (check_receipt budgets u) _ h1 in
    subst (InBudget ceilings) (ok-injective h2) (
      checked-InBudget ceilings receipts u calls attempts is_calls is_attempts most (
        subst (λ b. check_receipt b u ≡ ok tt)
          (sym (remaining-ok ceilings receipts is_calls is_attempts left)) passed))

-- Over any history of rounds, whatever the workers report, the calls and the attempts of all receipts
-- can be summed, and each sum is at most the task's ceiling.
pub Attempts-InBudget :
    (ceilings : Ceilings) {receipts : List Usage}
    → Attempts ceilings receipts
    → InBudget ceilings receipts
unfolding consumed
Attempts-InBudget ceilings fresh = ((0, refl, ground arith), (0, refl, ground arith))
Attempts-InBudget ceilings (another {receipts} {after} before answer h) =
    attempt-InBudget ceilings receipts after answer (Attempts-InBudget ceilings before) h
