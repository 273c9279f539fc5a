-- ===== src/Decision/Bounded/Complete.antt =====
-- What a packet needs of its state (execution_coordination/bounded_decision.py).
use nexus_runtime.Prelude.{
  ◌≡◌, ◌≤◌, refl, String, true, false, List, length, leb, leb→le, sym, subst, Bool-cases, inl, inr,
}
use nexus_runtime.Python.Text.{is_blank, strip}
use nexus_runtime.Python.Value.{Value, str, list, Items, Fields, get}
use nexus_runtime.Python.Order.{sort}
use nexus_runtime.Python.Order.Permuted.{all_different}
use nexus_runtime.Python.Raise.{ok, require, >>=-eq-ok, require-eq-ok, ok-injective}
use nexus_runtime.Decision.Json.{required_text, texts_of}
use nexus_runtime.Decision.Bounded.{
  Candidate, candidates_of, ids, id_before, string_list, normalized_candidates, check_contract,
}

pub required_text-str :
    (v : Value) (name : String) {text : String}
    → required_text v name ≡ ok text
    → (s : String) × (v ≡ str s) × (is_blank s ≡ false) × (strip s ≡ text)
unfolding required_text
required_text-str (str s) name {text} h = elim (Bool-cases (is_blank s)) [
  | inl blank ↦ absurd (cc (rw blank at h))
  | inr filled ↦ (s, refl, filled, ok-injective (rw filled at h))
]
required_text-str _ name h = absurd (cc)

-- The value is a text that is not blank.
abbrev pub IsFilled : Value → Type 0
IsFilled v = (s : String) × (v ≡ str s) × (is_blank s ≡ false)

-- At least two candidates with different ids, and at least one reference.
pub record Candidates (given : Value) (candidates : List Candidate) : Type 0 where
  pub offered : Items
  pub is_offered : given ≡ list offered
  pub read : List Candidate
  pub is_read : candidates_of offered ≡ ok read
  pub several : 2 ≤ length read
  pub different : all_different (ids read) ≡ true
  pub in_order : candidates ≡ sort id_before read

normalized_candidates-Candidates :
    (v : Value) {cs : List Candidate} → normalized_candidates v ≡ ok cs → Candidates v cs
unfolding normalized_candidates
normalized_candidates-Candidates (list vs) h =
    let (read, is_read, h1) = >>=-eq-ok (candidates_of vs) _ h in
    let (u1, several, h2) = >>=-eq-ok (require (leb 2 (length read)) _) _ h1 in
    let (u2, different, h3) = >>=-eq-ok (require (all_different (ids read)) _) _ h2 in
    record {
      offered = vs;
      is_offered = refl;
      read = read;
      is_read = is_read;
      several = leb→le 2 (length read) (require-eq-ok _ _ several);
      different = require-eq-ok _ _ different;
      in_order = ok-injective (sym h3);
    }
normalized_candidates-Candidates _ h = absurd (cc)

-- There is at least one reference, and no two are equal.
abbrev pub IsReferenced : Value → Type 0
IsReferenced v =
    (vs : Items) × (refs : List String) × (v ≡ list vs)
    × (texts_of vs "evidence_refs" ≡ ok refs)
    × (1 ≤ length refs)
    × (all_different refs ≡ true)

string_list-IsReferenced :
    (v : Value) {refs : List String} → string_list v "evidence_refs" ≡ ok refs → IsReferenced v
unfolding string_list
string_list-IsReferenced (list vs) h =
    let (refs, is_read, h1) = >>=-eq-ok (texts_of vs "evidence_refs") _ h in
    let (u1, some_there, h2) = >>=-eq-ok (require (leb 1 (length refs)) _) _ h1 in
    let (u2, different, h3) = >>=-eq-ok (require (all_different refs) _) _ h2 in
    (
      vs,
      refs,
      refl,
      is_read,
      leb→le 1 (length refs) (require-eq-ok _ _ some_there),
      require-eq-ok _ _ different,
    )
string_list-IsReferenced _ h = absurd (cc)

-- What a packet needs of its state.
pub record Complete (state : Fields) (candidates : List Candidate) : Type 0 where
  pub choices : Candidates (get "candidates" state) candidates
  pub evidence : IsReferenced (get "evidence_refs" state)
  pub task : IsFilled (get "task_id" state)
  pub repository : IsFilled (get "repository" state)
  pub revision : IsFilled (get "source_revision" state)
  pub verifier : IsFilled (get "required_verifier" state)
  pub ceiling : IsFilled (get "claim_ceiling" state)

required_text-IsFilled :
    (v : Value) (name : String) {text : String} → required_text v name ≡ ok text → IsFilled v
required_text-IsFilled v name h =
    let (s, is, filled, same) = required_text-str v name h in (s, is, filled)

pub check_contract-Complete :
    (state : Fields) {cs : List Candidate} → check_contract state ≡ ok cs → Complete state cs
unfolding check_contract
check_contract-Complete state h =
    let (cs, choices, h1) = >>=-eq-ok (normalized_candidates (get "candidates" state)) _ h in
    let (refs, evidence, h2) =
      >>=-eq-ok (string_list (get "evidence_refs" state) "evidence_refs") _ h1 in
    let (a, task, h3) = >>=-eq-ok (required_text (get "task_id" state) "task_id") _ h2 in
    let (b, repository, h4) =
      >>=-eq-ok (required_text (get "repository" state) "repository") _ h3 in
    let (c, revision, h5) =
      >>=-eq-ok (required_text (get "source_revision" state) "source_revision") _ h4 in
    let (d, verifier, h6) =
      >>=-eq-ok (required_text (get "required_verifier" state) "required_verifier") _ h5 in
    let (e, ceiling, h7) =
      >>=-eq-ok (required_text (get "claim_ceiling" state) "claim_ceiling") _ h6 in
    record {
      choices =
          subst (Candidates (get "candidates" state)) (ok-injective h7)
            (normalized_candidates-Candidates (get "candidates" state) choices);
      evidence = string_list-IsReferenced (get "evidence_refs" state) evidence;
      task = required_text-IsFilled (get "task_id" state) _ task;
      repository = required_text-IsFilled (get "repository" state) _ repository;
      revision = required_text-IsFilled (get "source_revision" state) _ revision;
      verifier = required_text-IsFilled (get "required_verifier" state) _ verifier;
      ceiling = required_text-IsFilled (get "claim_ceiling" state) _ ceiling;
    }
