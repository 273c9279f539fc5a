-- ===== src/Coordinator/Outcomes/Totals.antt =====
-- The totals of model calls, and one more record among them (execution_coordination/coordinator.py).
use nexus_runtime.Prelude.{
  ℕ, zero, suc, ◌+◌, String, Bool, true, false, ◌||◌, not, ◌≡◌, refl, sym, subst, ap, ◌∙◌, ◌==◌,
  eq_iff, if◌then◌else◌, leb, arith,
}
use nexus_runtime.Prelude.Int.{ℤ, pos, negsuc, ◌+ℤ◌, pos_part, le_ℤ}
use nexus_runtime.Python.Number.{int_of}
use nexus_runtime.Python.Value.{
  Value, bool, int, dict, Items, nil, cons, Fields, end, field, get, put, or_else,
}
use nexus_runtime.Python.Raise.{ok, >>=-eq-ok, ok-injective}
use nexus_runtime.Decision.ModelCall.Telemetry.{Telemetry}
use nexus_runtime.Coordinator.Outcomes.{
  append, counted, total_of, added_to, with_calls, with_flag, totals_with,
}

-- what an entry of the history counts under a key
abbrev amount : Value → ℕ
amount (int n) = pos_part n
amount _ = 0

abbrev pub count_in : String → Value → ℕ
count_in key (dict fs) = amount (get key fs)
count_in key _ = 0

-- the sum over the history
abbrev pub sum_of : String → Items → ℕ
sum_of key nil = 0
sum_of key (cons v vs) = count_in key v + sum_of key vs

-- The totals are the sums over the history.
pub record Balanced (entries : Items) (totals : Fields) : Type 0 where
  pub required :
      total_of "model_calls_required" totals ≡ ok (pos (sum_of "model_calls_required" entries))
  pub invoked :
      total_of "model_calls_invoked" totals ≡ ok (pos (sum_of "model_calls_invoked" entries))
  pub avoided :
      total_of "model_calls_avoided" totals ≡ ok (pos (sum_of "model_calls_avoided" entries))

-- The totals say that no call is left only where none was made and as many were avoided as required.
abbrev pub IsFlagged : Items → Fields → Type 0
IsFlagged entries totals =
    get "model_calls_not_eliminated" totals
    ≡ bool (
        leb 1 (sum_of "model_calls_invoked" entries)
        || not (leb (sum_of "model_calls_required" entries) (sum_of "model_calls_avoided" entries)))

sum_of-append :
    (key : String) (v : Value) (vs : Items)
    → sum_of key (append v vs) ≡ sum_of key vs + count_in key v
sum_of-append key v nil = omega arith
sum_of-append key v (cons w vs) = ground (arith, sum_of-append key v vs)

pub get-put :
    (j k : String) (v : Value) (fs : Fields) → get k (put j v fs) ≡ (if j == k then v else get k fs)
get-put j k v end = refl
get-put j k v (field i w fs) = ground (arith, get-put j k v fs, eq_iff i j, eq_iff j k, eq_iff i k)

counted_int : (n : ℤ) → counted (int_of (or_else (int n) (int (pos 0)))) ≡ ok n
unfolding int_of
counted_int (pos zero) = refl
counted_int (pos (suc n)) = refl
counted_int (negsuc n) = refl

sum_nonneg : (s : ℕ) (n : ℤ) → le_ℤ (pos 0) n ≡ true → pos s +ℤ n ≡ pos (s + pos_part n)
sum_nonneg s (pos n) h = ground arith
sum_nonneg s (negsuc n) h = absurd (ground arith)

added_to-ok :
    (key : String) (n : ℤ) (s : ℕ) (totals : Fields) {after : Fields}
    → total_of key totals ≡ ok (pos s)
    → le_ℤ (pos 0) n ≡ true
    → added_to key n totals ≡ ok after
    → put key (int (pos (s + pos_part n))) totals ≡ after
added_to-ok key n s totals is_total nonneg h =
    let (old, is_old, h1) = >>=-eq-ok (total_of key totals) _ h in
    let same : pos s ≡ old = ok-injective (sym is_total ∙ is_old) in
    ap (λ m. put key (int m) totals) (sym (sum_nonneg s n nonneg) ∙ ap (λ o. o +ℤ n) same)
    ∙ ok-injective h1

-- a record has no negative counts
pub record Counts (t : Telemetry Bool) : Type 0 where
  pub required : le_ℤ (pos 0) t.model_calls_required ≡ true
  pub invoked : le_ℤ (pos 0) t.model_calls_invoked ≡ true
  pub avoided : le_ℤ (pos 0) t.model_calls_avoided ≡ true

total_of-get :
    (key : String) (n : ℕ) (fs : Fields) → get key fs ≡ int (pos n) → total_of key fs ≡ ok (pos n)
total_of-get key n fs h =
    ap (λ v. counted (int_of (or_else v (int (pos 0))))) h ∙ counted_int (pos n)

total_of-put :
    (j k : String) (v : Value) (fs : Fields)
    → (j == k) ≡ false
    → total_of k (put j v fs) ≡ total_of k fs
total_of-put j k v fs other =
    ap (λ w. counted (int_of (or_else w (int (pos 0))))) {y = get k fs}
      (get-put j k v fs ∙ rw other)

-- the totals with three counts, and with the flag
abbrev three : ℕ → ℕ → ℕ → Fields → Fields
three r i a totals =
    put "model_calls_avoided" (int (pos a))
      (put "model_calls_invoked" (int (pos i)) (put "model_calls_required" (int (pos r)) totals))

abbrev flagged : ℕ → ℕ → ℕ → Fields → Fields
flagged r i a totals =
    put "model_calls_not_eliminated" (bool (leb 1 i || not (leb r a))) (three r i a totals)

get-three :
    (key : String) (r i a : ℕ) (totals : Fields)
    → get key (three r i a totals) ≡ (
        if "model_calls_avoided" == key
        then int (pos a)
        else if "model_calls_invoked" == key
        then int (pos i)
        else if "model_calls_required" == key
        then int (pos r)
        else get key totals)
get-three key r i a totals =
    get-put "model_calls_avoided" key (int (pos a))
      (put "model_calls_invoked" (int (pos i)) (put "model_calls_required" (int (pos r)) totals))
    ∙ rw (
      get-put "model_calls_invoked" key (int (pos i))
          (put "model_calls_required" (int (pos r)) totals),
      get-put "model_calls_required" key (int (pos r)) totals,
    )

flagged-Balanced :
    (entries : Items) (r i a : ℕ) (totals : Fields)
    → r ≡ sum_of "model_calls_required" entries
    → i ≡ sum_of "model_calls_invoked" entries
    → a ≡ sum_of "model_calls_avoided" entries
    → Balanced entries (flagged r i a totals) × IsFlagged entries (flagged r i a totals)
flagged-Balanced entries r i a totals is_r is_i is_a = (
  record {
    required =
        total_of-put "model_calls_not_eliminated" "model_calls_required" _ (three r i a totals) refl
        ∙ total_of-get "model_calls_required" r (three r i a totals)
            (get-three "model_calls_required" r i a totals)
        ∙ ap (λ n. ok (pos n)) is_r;
    invoked =
        total_of-put "model_calls_not_eliminated" "model_calls_invoked" _ (three r i a totals) refl
        ∙ total_of-get "model_calls_invoked" i (three r i a totals)
            (get-three "model_calls_invoked" r i a totals)
        ∙ ap (λ n. ok (pos n)) is_i;
    avoided =
        total_of-put "model_calls_not_eliminated" "model_calls_avoided" _ (three r i a totals) refl
        ∙ total_of-get "model_calls_avoided" a (three r i a totals)
            (get-three "model_calls_avoided" r i a totals)
        ∙ ap (λ n. ok (pos n)) is_a;
  },
  get-put "model_calls_not_eliminated" "model_calls_not_eliminated"
        (bool (leb 1 i || not (leb r a))) (three r i a totals)
      ∙ rw (is_r, is_i, is_a),
)

with_calls-three :
    (t : Telemetry Bool) (r i a : ℕ) (totals : Fields) {after : Fields}
    → Counts t
    → total_of "model_calls_required" totals ≡ ok (pos r)
    → total_of "model_calls_invoked" totals ≡ ok (pos i)
    → total_of "model_calls_avoided" totals ≡ ok (pos a)
    → with_calls t totals ≡ ok after
    → three
        (r + pos_part t.model_calls_required)
        (i + pos_part t.model_calls_invoked)
        (a + pos_part t.model_calls_avoided)
        totals
      ≡ after
with_calls-three t r i a totals counts is_r is_i is_a h =
    let (t1, put1, h1) =
      >>=-eq-ok (added_to "model_calls_required" t.model_calls_required totals) _ h in
    let (t2, put2, h2) = >>=-eq-ok (added_to "model_calls_invoked" t.model_calls_invoked t1) _ h1 in
    let r' : ℕ = r + pos_part t.model_calls_required in
    let i' : ℕ = i + pos_part t.model_calls_invoked in
    let a' : ℕ = a + pos_part t.model_calls_avoided in
    let e1 =
      added_to-ok "model_calls_required" t.model_calls_required r totals is_r counts.required
        put1 in
    let i1 : total_of "model_calls_invoked" t1 ≡ ok (pos i) =
      subst (λ x. total_of "model_calls_invoked" x ≡ ok (pos i)) e1
        (total_of-put "model_calls_required" "model_calls_invoked" (int (pos r')) totals refl
          ∙ is_i) in
    let a1 : total_of "model_calls_avoided" t1 ≡ ok (pos a) =
      subst (λ x. total_of "model_calls_avoided" x ≡ ok (pos a)) e1
        (total_of-put "model_calls_required" "model_calls_avoided" (int (pos r')) totals refl
          ∙ is_a) in
    let e2 = added_to-ok "model_calls_invoked" t.model_calls_invoked i t1 i1 counts.invoked put2 in
    let a2 : total_of "model_calls_avoided" t2 ≡ ok (pos a) =
      subst (λ x. total_of "model_calls_avoided" x ≡ ok (pos a)) e2
        (total_of-put "model_calls_invoked" "model_calls_avoided" (int (pos i')) t1 refl ∙ a1) in
    ap (λ x. put "model_calls_avoided" (int (pos a')) (put "model_calls_invoked" (int (pos i')) x))
      e1
    ∙ ap (λ x. put "model_calls_avoided" (int (pos a')) x) e2
    ∙ added_to-ok "model_calls_avoided" t.model_calls_avoided a t2 a2 counts.avoided h2

flags-agree :
    (r i a : ℕ) → (leb 1 i || not (leb r a)) ≡ (le_ℤ (pos 1) (pos i) || not (le_ℤ (pos r) (pos a)))
flags-agree r i a = ground arith

with_flag-flagged :
    (r i a : ℕ) (totals : Fields) {after : Fields}
    → with_flag (three r i a totals) ≡ ok after
    → flagged r i a totals ≡ after
with_flag-flagged r i a totals h =
    ap (λ b. put "model_calls_not_eliminated" (bool b) (three r i a totals)) (flags-agree r i a)
    ∙ ok-injective (
        rw
          (
            total_of-get "model_calls_invoked" i (three r i a totals)
                (get-three "model_calls_invoked" r i a totals),
            total_of-get "model_calls_required" r (three r i a totals)
                (get-three "model_calls_required" r i a totals),
            total_of-get "model_calls_avoided" a (three r i a totals)
                (get-three "model_calls_avoided" r i a totals),
          )
          at h)

pub totals_with-Balanced :
    (entries : Items) (entry : Value) (t : Telemetry Bool) (totals : Fields) {after : Fields}
    → Counts t
    → count_in "model_calls_required" entry ≡ pos_part t.model_calls_required
    → count_in "model_calls_invoked" entry ≡ pos_part t.model_calls_invoked
    → count_in "model_calls_avoided" entry ≡ pos_part t.model_calls_avoided
    → Balanced entries totals
    → totals_with t totals ≡ ok after
    → Balanced (append entry entries) after × IsFlagged (append entry entries) after
unfolding totals_with
totals_with-Balanced entries entry t totals {after} counts c_r c_i c_a b h =
    let (t3, calls, h1) = >>=-eq-ok (with_calls t totals) _ h in
    let r : ℕ = sum_of "model_calls_required" entries + pos_part t.model_calls_required in
    let i : ℕ = sum_of "model_calls_invoked" entries + pos_part t.model_calls_invoked in
    let a : ℕ = sum_of "model_calls_avoided" entries + pos_part t.model_calls_avoided in
    let e =
      with_calls-three t (sum_of "model_calls_required" entries)
        (sum_of "model_calls_invoked" entries) (sum_of "model_calls_avoided" entries) totals counts
        b.required b.invoked b.avoided calls in
    subst (λ x. Balanced (append entry entries) x × IsFlagged (append entry entries) x)
      (with_flag-flagged r i a totals (subst (λ x. with_flag x ≡ ok after) (sym e) h1))
      (flagged-Balanced (append entry entries) r i a totals
        (sym (
          sum_of-append "model_calls_required" entry entries
          ∙ ap (λ n. sum_of "model_calls_required" entries + n) c_r))
        (sym (
          sum_of-append "model_calls_invoked" entry entries
          ∙ ap (λ n. sum_of "model_calls_invoked" entries + n) c_i))
        (sym (
          sum_of-append "model_calls_avoided" entry entries
          ∙ ap (λ n. sum_of "model_calls_avoided" entries + n) c_a)))
