-- ===== src/Coordinator/Effects/Gated.antt =====
-- What the gates on effects let pass (execution_coordination/coordinator.py).
use nexus_runtime.Prelude.{
  String, Bool, true, false, not, ◌||◌, ◌≡◌, refl, sym, ap, subst, ◌∙◌, Option, none, some, ◌==◌,
  ==→≡, inl, inr, arith, if◌then◌else◌,
}
use nexus_runtime.Python.Value.{Value, bool, str, dict, Fields, get, eq_text, is_null, Runtime}
use nexus_runtime.Python.Raise.{
  Result, ok, err, require, >>=-eq-ok, require-eq-ok, ok-injective, Result-cases,
}
use nexus_runtime.Decision.Json.Normal.{not-true}
use nexus_runtime.Decision.Authority.{
  Calendar, EffectAuthorization, authorization_of, assert_fresh, Identity, assert_identity,
  check_field, verify_authority, is_true,
}
use nexus_runtime.Decision.Authority.Authorized.{InForce, unexpired-InForce}
use nexus_runtime.Coordinator.Effects.{
  rebound, as_dict, needed, StatePort, request_identity_value, effect_authorization_requested,
  Settings, asked_of, verify_effect_authority, identity_asked, requested_authorization,
  durable_authorization, passed, snapshot, then_snapshot, bind_authorization,
  ensure_effect_authorization, Gate,
}

pub rebound-ok {ℓ} : {A : Type ℓ} (m : Result String A) {a : A} → rebound m ≡ ok a → m ≡ ok a
rebound-ok (ok b) h = ap ok (ok-injective h)
rebound-ok (err e) h = absurd (cc)

as_dict-ok : (v : Value) (message : String) {fs : Fields} → as_dict v message ≡ ok fs → v ≡ dict fs
as_dict-ok (dict gs) message h = ap dict (ok-injective h)
as_dict-ok _ message h = absurd (cc)

needed-ok {ℓ} :
    {A : Type ℓ} (o : Option A) (message : String) {a : A} → needed o message ≡ ok a → o ≡ some a
needed-ok (some b) message h = ap some (ok-injective h)
needed-ok none message h = absurd (cc)

-- a text that was asked for is the authorization's own
check_field-ok :
    (name : String) (o own : Option String)
    → check_field name o own ≡ ok tt
    → (s : String) → o ≡ some s
    → own ≡ some s
check_field-ok name none own h s e = absurd (cc)
check_field-ok name (some t) none h s e = absurd (cc)
check_field-ok name (some t) (some u) h s e = ap some (==→≡ u t (require-eq-ok (u == t) _ h)) ∙ e

eq_text→≡ : (v : Value) (s : String) → eq_text v s ≡ true → v ≡ str s
eq_text→≡ (str t) s h = ap str (==→≡ t s h)
eq_text→≡ _ s h = absurd (cc)

is_true→≡ : (v : Value) → is_true v ≡ true → v ≡ bool true
is_true→≡ (bool b) h = ap bool h
is_true→≡ _ h = absurd (cc)

-- The authorization is about this attempt: every text that is asked for is the authorization's own.
pub record Identified (a : EffectAuthorization) (i : Identity) : Type 0 where
  pub attempt : a.attempt_id ≡ i.attempt
  pub operation : (s : String) → i.operation ≡ some s → a.operation_id ≡ s
  pub in_repository : (s : String) → i.in_repository ≡ some s → a.repository ≡ s
  pub source : (s : String) → i.source ≡ some s → a.source_revision ≡ some s
  pub base : (s : String) → i.base ≡ some s → a.base_revision ≡ some s
  pub workspace : (s : String) → i.workspace ≡ some s → a.workspace_id ≡ some s
  pub target : (s : String) → i.target ≡ some s → a.target_id ≡ some s

pub not-false : (b : Bool) → not b ≡ false → b ≡ true
not-false b h = ground arith

or-false : (a b : Bool) → (a || b) ≡ false → (a ≡ false) × (b ≡ false)
or-false a b h = ground arith

unwrap {ℓ} : {A : Type ℓ} (a b : A) → ◌≡◌ {A = Option A} (some a) (some b) → a ≡ b
unwrap a b h = cc

some-injective : (s t : String) → ◌≡◌ {A = Option String} (some s) (some t) → s ≡ t
some-injective s t h = cc

assert_identity-Identified :
    (a : EffectAuthorization) (i : Identity) → assert_identity a i ≡ ok tt → Identified a i
unfolding assert_identity
assert_identity-Identified a i h =
    let (u1, attempt, h1) =
      >>=-eq-ok (check_field "attempt_id" (some i.attempt) (some a.attempt_id)) _ h in
    let (u2, operation, h2) =
      >>=-eq-ok (check_field "operation_id" i.operation (some a.operation_id)) _ h1 in
    let (u3, repository, h3) =
      >>=-eq-ok (check_field "repository" i.in_repository (some a.repository)) _ h2 in
    let (u4, source, h4) =
      >>=-eq-ok (check_field "source_revision" i.source a.source_revision) _ h3 in
    let (u5, base, h5) = >>=-eq-ok (check_field "base_revision" i.base a.base_revision) _ h4 in
    let (u6, workspace, target) =
      >>=-eq-ok (check_field "workspace_id" i.workspace a.workspace_id) _ h5 in
    record {
      attempt =
          some-injective _ _ (
            check_field-ok "attempt_id" (some i.attempt) (some a.attempt_id) attempt i.attempt
              refl);
      operation = λ s e.
          some-injective _ _
            (check_field-ok "operation_id" i.operation (some a.operation_id) operation s e);
      in_repository = λ s e.
          some-injective _ _
            (check_field-ok "repository" i.in_repository (some a.repository) repository s e);
      source = check_field-ok "source_revision" i.source a.source_revision source;
      base = check_field-ok "base_revision" i.base a.base_revision base;
      workspace = check_field-ok "workspace_id" i.workspace a.workspace_id workspace;
      target = check_field-ok "target_id" i.target a.target_id target;
    }

-- The host's authority, where there is one, answered `True`; it may be missing only if it is not
-- required.
abbrev pub Approved : Settings → EffectAuthorization → Type 0
Approved settings a =
    (settings.effect_authority ≡ none → settings.require_effect_authority ≡ false)
    × ((verifier : EffectAuthorization → Result String Value)
        → settings.effect_authority ≡ some verifier
        → verifier a ≡ ok (bool true))

verify_authority-ok :
    (verifier : EffectAuthorization → Result String Value) (a : EffectAuthorization) {b : Bool}
    → verify_authority verifier a ≡ ok b
    → verifier a ≡ ok (bool true)
unfolding verify_authority
verify_authority-ok verifier a h =
    let (answer, given, h1) = >>=-eq-ok (verifier a) _ h in
    let (u, accepted, h2) = >>=-eq-ok (require (is_true answer) _) _ h1 in
    given ∙ ap ok (is_true→≡ answer (require-eq-ok (is_true answer) _ accepted))

asked_of-ok :
    (o : Option (EffectAuthorization → Result String Value)) (required : Bool)
    (a : EffectAuthorization)
    → asked_of o required a ≡ ok tt
    → (o ≡ none → required ≡ false)
      × ((verifier : EffectAuthorization → Result String Value)
          → o ≡ some verifier
          → verifier a ≡ ok (bool true))
unfolding asked_of
asked_of-ok none required a h =
    (λ e. not-true required (require-eq-ok (not required) _ h), λ verifier e. absurd (cc e))
asked_of-ok (some given) required a h = (
  λ e. absurd (cc e),
  λ verifier e. elim (Result-cases (verify_authority given a)) [
    | inl (accepted, answered) ↦
        ap (λ f. f a) (sym (unwrap given verifier e)) ∙ verify_authority-ok given a answered
    | inr (message, raised) ↦ absurd (cc (raised, h))
  ],
)

verify_effect_authority-Approved :
    (s : Settings) (a : EffectAuthorization) → verify_effect_authority s a ≡ ok tt → Approved s a
unfolding verify_effect_authority
verify_effect_authority-Approved s a h =
    asked_of-ok s.effect_authority s.require_effect_authority a h

module _ (rt : Runtime) (calendar : Calendar) where
  open calendar use {Instant}

  -- The request carries this authorization, intact, in force, for this attempt and approved.
  pub record Requested (settings : Settings) (attempt_id : String) (request : Fields)
      (now : Instant) (a : EffectAuthorization) : Type 0 where
    pub carried : authorization_of rt calendar (get "effect_authorization" request) ≡ ok a
    pub in_force : InForce rt calendar a now
    pub operation_named : request_identity_value request "operation_id" ≡ some a.operation_id
    pub repository_named : request_identity_value request "repository" ≡ some a.repository
    pub of_attempt : a.attempt_id ≡ attempt_id
    pub source :
        (s : String)
        → request_identity_value request "source_revision" ≡ some s
        → a.source_revision ≡ some s
    pub base :
        (s : String)
        → request_identity_value request "base_revision" ≡ some s
        → a.base_revision ≡ some s
    pub workspace :
        (s : String)
        → request_identity_value request "workspace_id" ≡ some s
        → a.workspace_id ≡ some s
    pub target :
        (s : String) → request_identity_value request "target_id" ≡ some s → a.target_id ≡ some s
    pub approved : Approved settings a

  requested_authorization-Requested :
      (settings : Settings) (attempt_id : String) (request : Fields) (now : Instant)
      (a : EffectAuthorization)
      → requested_authorization rt calendar settings attempt_id request now ≡ ok a
      → Requested settings attempt_id request now a
  unfolding requested_authorization
  requested_authorization-Requested settings attempt_id request now a h =
      let (raw, is_raw, h1) = >>=-eq-ok (as_dict (get "effect_authorization" request) _) _ h in
      let (op, has_op, h2) =
        >>=-eq-ok (needed (request_identity_value request "operation_id") _) _ h1 in
      let (repo, has_repo, h3) =
        >>=-eq-ok (needed (request_identity_value request "repository") _) _ h2 in
      let (b, read, h4) = >>=-eq-ok (rebound (authorization_of rt calendar (dict raw))) _ h3 in
      let (u1, fresh, h5) = >>=-eq-ok (rebound (assert_fresh rt calendar b now)) _ h4 in
      let (u2, same, h6) =
        >>=-eq-ok
          (rebound (assert_identity b (identity_asked rt calendar request attempt_id op repo))) _
          h5 in
      let (u3, approved, h7) = >>=-eq-ok (verify_effect_authority settings b) _ h6 in
      let identified =
        assert_identity-Identified b (identity_asked rt calendar request attempt_id op repo)
          (rebound-ok _ same) in
      subst (λ c. Requested settings attempt_id request now c) (ok-injective h7)
        (record {
          carried = ap (authorization_of rt calendar) (as_dict-ok _ _ is_raw) ∙ rebound-ok _ read;
          in_force = unexpired-InForce rt calendar b.expires_at now (rebound-ok _ fresh);
          operation_named =
              needed-ok (request_identity_value request "operation_id") _ has_op
              ∙ ap some (sym (identified.operation op refl));
          repository_named =
              needed-ok (request_identity_value request "repository") _ has_repo
              ∙ ap some (sym (identified.in_repository repo refl));
          of_attempt = identified.attempt;
          source = identified.source;
          base = identified.base;
          workspace = identified.workspace;
          target = identified.target;
          approved = verify_effect_authority-Approved settings b approved;
        })

  -- The state keeps this authorization, intact and in force, under its hash.
  pub record Kept (state : Fields) (now : Instant) (d : EffectAuthorization) : Type 0 where
    pub kept : authorization_of rt calendar (get "effect_authorization" state) ≡ ok d
    pub in_force : InForce rt calendar d now
    pub under_hash : get "effect_authorization_hash" state ≡ str d.authorization_hash

  durable_authorization-Kept :
      (a : EffectAuthorization) (state : Fields) (now : Instant) (d : EffectAuthorization)
      → durable_authorization rt calendar a state now ≡ ok d
      → Kept state now d × (d.authorization_hash ≡ a.authorization_hash)
  unfolding durable_authorization
  durable_authorization-Kept a state now d h =
      let (raw, is_raw, h1) = >>=-eq-ok (as_dict (get "effect_authorization" state) _) _ h in
      let (b, read, h2) = >>=-eq-ok (rebound (authorization_of rt calendar (dict raw))) _ h1 in
      let (u1, fresh, h3) = >>=-eq-ok (rebound (assert_fresh rt calendar b now)) _ h2 in
      let (u2, same, h4) =
        >>=-eq-ok (require (b.authorization_hash == a.authorization_hash) _) _ h3 in
      let (u3, bound, h5) =
        >>=-eq-ok (require (eq_text (get "effect_authorization_hash" state) b.authorization_hash) _)
          _ h4 in
      subst (λ c. Kept state now c × (c.authorization_hash ≡ a.authorization_hash))
        (ok-injective h5)
        (
          record {
            kept = ap (authorization_of rt calendar) (as_dict-ok _ _ is_raw) ∙ rebound-ok _ read;
            in_force = unexpired-InForce rt calendar b.expires_at now (rebound-ok _ fresh);
            under_hash = eq_text→≡ (get "effect_authorization_hash" state) b.authorization_hash (
                require-eq-ok (eq_text (get "effect_authorization_hash" state) b.authorization_hash)
                  _ bound);
          },
          ==→≡ b.authorization_hash a.authorization_hash
              (require-eq-ok (b.authorization_hash == a.authorization_hash) _ same),
        )

  module _ {World : Type 0} (port : StatePort World) (task_id : String) (settings : Settings)
      (attempt_id : String) (request state : Fields) (allow_create : Bool) (now later : Instant)
      (w : World) where
    -- Without permission to create a binding, nothing is written.
    abbrev pub Unchanged : World → Type 0
    Unchanged w' = allow_create ≡ false → w' ≡ w

    -- What the gate's outcomes say. It is passed without an authorization only where none is required
    -- and none asked for; an authorization that passes is the one requested, and the state that is left
    -- keeps it.
    abbrev pub Gated : Gate rt calendar port task_id EffectAuthorization → Type 0
    Gated (err e, w') = Unchanged w'
    Gated (ok (state', none), w') =
        (settings.require_effect_authority ≡ false)
        × (effect_authorization_requested request state ≡ false)
        × (state' ≡ state)
        × (w' ≡ w)
    Gated (ok (state', some d), w') =
        Unchanged w'
        × Kept state' later d
        × ((a : EffectAuthorization) × Requested settings attempt_id request now a
            × (d.authorization_hash ≡ a.authorization_hash))

    if-Gated :
        (b : Bool) (x y : Gate rt calendar port task_id EffectAuthorization)
        → (b ≡ true → Gated x)
        → (b ≡ false → Gated y)
        → Gated (if b then x else y)
    if-Gated true x y f g = f refl
    if-Gated false x y f g = g refl

    passed-Gated :
        (a : EffectAuthorization) (state' : Fields) (w' : World)
        → Requested settings attempt_id request now a
        → Unchanged w'
        → Gated (
            passed rt calendar port task_id state'
              (durable_authorization rt calendar a state' later)
              w')
    passed-Gated a state' w' asked same =
        elim (Result-cases (durable_authorization rt calendar a state' later)) [
          | inl (d, kept) ↦
              let (is_kept, hash) = durable_authorization-Kept a state' later d kept in
              rw kept (same, is_kept, (a, asked, hash))
          | inr (e, raised) ↦ rw raised same
        ]

    then_snapshot-Gated :
        (a : EffectAuthorization) (call : Result String (Unit {0}) × World)
        → Requested settings attempt_id request now a
        → allow_create ≡ true
        → Gated (
            then_snapshot rt calendar port task_id call (λ state' w'.
              passed rt calendar port task_id state'
                (durable_authorization rt calendar a state' later)
                w'))
    then_snapshot-Gated a (err message, w') asked may = λ never. absurd (cc (may, never))
    then_snapshot-Gated a (ok u, w') asked may =
        passed-Gated a (snapshot rt calendar port task_id w') w' asked
          (λ never. absurd (cc (may, never)))

    bind_authorization-Gated :
        (a : EffectAuthorization)
        → Requested settings attempt_id request now a
        → Gated (bind_authorization rt calendar port task_id a state allow_create later w)
    unfolding bind_authorization
    bind_authorization-Gated a asked =
        if-Gated (not (is_null (get "effect_authorization" state))) _ _
          (λ kept. passed-Gated a state w asked (λ never. refl))
          (λ missing.
            if-Gated (not allow_create) _ _ (λ may_not. λ never. refl)
              (λ may. then_snapshot-Gated a _ asked (not-false allow_create may)))

    -- On every outcome: the gate passes without an authorization only where none is required or asked
    -- for, and then changes nothing; an authorization that passes is the one requested, intact, in force,
    -- for this attempt and approved by the host, and the state that is left keeps it; without permission
    -- to create it nothing is written.
    pub ensure_effect_authorization-Gated : Gated (
        ensure_effect_authorization rt calendar port task_id settings attempt_id request state
          allow_create now later w)
    unfolding ensure_effect_authorization
    ensure_effect_authorization-Gated =
        let needs : Bool =
          settings.require_effect_authority || effect_authorization_requested request state in
        if-Gated (not needs) _ _
          (λ open_gate.
            let (optional, unasked) =
              or-false settings.require_effect_authority
                (effect_authorization_requested request state) (not-true needs open_gate) in
            (optional, unasked, refl, refl))
          (λ gate.
            elim (Result-cases
              (requested_authorization rt calendar settings attempt_id request now)) [
                | inl (a, asked) ↦ rw asked (
                    bind_authorization-Gated a
                      (requested_authorization-Requested settings attempt_id request now a asked))
                | inr (e, raised) ↦ rw raised (λ never. refl)
              ])
