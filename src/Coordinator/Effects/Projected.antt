-- ===== src/Coordinator/Effects/Projected.antt =====
-- What a worker's tools are given (execution_coordination/coordinator.py).
use nexus_runtime.Prelude.{
  String, [], ◌∷◌, Bool, true, false, not, ◌≡◌, refl, subst, ◌∙◌, Option, none, some, inl, inr,
  ◌==◌, ==→≡, if◌then◌else◌,
}
use nexus_runtime.Python.Value.{
  Value, str, fields_of, dict, Fields, get, eq_text, same_keys, is_null, Runtime,
}
use nexus_runtime.Python.Raise.{
  Result, ok, err, require, >>=-eq-ok, require-eq-ok, ok-injective, Result-cases,
}
use nexus_runtime.Decision.Json.{required_text}
use nexus_runtime.Decision.Authority.{Calendar, EffectAuthorization, assert_fresh}
use nexus_runtime.Decision.Authority.Projection.{
  Projection, projection_fields, build_projection, projection_of,
}
use nexus_runtime.Decision.Authority.Derived.{Derived, build_projection-Derived}
use nexus_runtime.Coordinator.Effects.{
  GateError, rebound, as_dict, StatePort, Gate, passed, then_snapshot, requested_projection,
  durable_projection, manifests_of, bind_projection, project, ensure_tool_projection,
}
use nexus_runtime.Coordinator.Effects.Gated.{rebound-ok, not-false}

module _ (rt : Runtime) (calendar : Calendar) (json : Value → String) where
  open calendar use {Instant}

  projection_of-Derived :
      (v : Value) (a : EffectAuthorization) (now : Instant) (p : Projection)
      → projection_of rt calendar json v a now ≡ ok p
      → Derived rt calendar json a now p
  unfolding projection_of
  projection_of-Derived (dict payload) a now p h =
      let (u1, _, h1) = >>=-eq-ok (require (same_keys projection_fields payload) _) _ h in
      let (u2, _, h2) =
        >>=-eq-ok
          (require (eq_text (get "schema" payload) "nexus.runtime.tool_projection_manifest.v1") _) _
          h1 in
      let (u3, _, h3) =
        >>=-eq-ok (require (eq_text (get "authority_kind" payload) "DERIVED_PROJECTION_ONLY") _) _
          h2 in
      let (u4, _, h4) =
        >>=-eq-ok (require (eq_text (get "authorization_hash" payload) a.authorization_hash) _) _
          h3 in
      let (q, built, h5) = >>=-eq-ok (build_projection rt calendar json a now payload) _ h4 in
      let (u5, _, h6) =
        >>=-eq-ok (require (eq_text (get "operation_id" payload) a.operation_id) _) _ h5 in
      let (u6, _, h7) =
        >>=-eq-ok (require (eq_text (get "attempt_id" payload) a.attempt_id) _) _ h6 in
      let (seen, _, h8) =
        >>=-eq-ok (required_text (get "projection_hash" payload) "projection_hash") _ h7 in
      let (u7, _, h9) = >>=-eq-ok (require (seen == q.projection_hash) _) _ h8 in
      build_projection-Derived rt calendar json a now payload p (built ∙ h9)
  projection_of-Derived _ a now p h = absurd (cc)

  requested_projection-Derived :
      (a : EffectAuthorization) (request : Fields) (provider : String) (now : Instant)
      (p : Projection)
      → requested_projection rt calendar json a request provider now ≡ ok p
      → Derived rt calendar json a now p
  unfolding requested_projection
  requested_projection-Derived a request provider now p h =
      let (requests, _, h1) = >>=-eq-ok (as_dict (get "tool_projection_requests" request) _) _ h in
      let (raw, _, h2) = >>=-eq-ok (as_dict (get provider requests) _) _ h1 in
      build_projection-Derived rt calendar json a now
        (fields_of (
          ("provider", str provider)
          ∷ ("backend_id", get "backend_id" raw)
          ∷ ("selected_tools", get "selected_tools" raw)
          ∷ ("selected_effects", get "selected_effects" raw)
          ∷ []))
        p (rebound-ok _ h2)

  project-Derived :
      (a : EffectAuthorization) (request : Fields) (provider : String) (now later : Instant)
      (p : Projection)
      → project rt calendar json a request provider now later ≡ ok p
      → Derived rt calendar json a later p
  unfolding project
  project-Derived a request provider now later p h =
      let (u, _, h1) = >>=-eq-ok (rebound (assert_fresh rt calendar a now)) _ h in
      requested_projection-Derived a request provider later p h1

  durable_projection-Derived :
      (a : EffectAuthorization) (q : Projection) (v : Value) (now : Instant) (p : Projection)
      → durable_projection rt calendar json a q v now ≡ ok p
      → Derived rt calendar json a now p × (p.projection_hash ≡ q.projection_hash)
  unfolding durable_projection
  durable_projection-Derived a q v now p h =
      let (raw, _, h1) = >>=-eq-ok (as_dict v _) _ h in
      let (r, read, h2) =
        >>=-eq-ok (rebound (projection_of rt calendar json (dict raw) a now)) _ h1 in
      let (u, same, h3) = >>=-eq-ok (require (r.projection_hash == q.projection_hash) _) _ h2 in
      subst (λ x. Derived rt calendar json a now x × (x.projection_hash ≡ q.projection_hash))
        (ok-injective h3)
        (
          projection_of-Derived (dict raw) a now r (rebound-ok _ read),
          ==→≡ r.projection_hash q.projection_hash
              (require-eq-ok (r.projection_hash == q.projection_hash) _ same),
        )

  module _ {World : Type 0} (port : StatePort World) (task_id : String) (request state : Fields)
      (authorization : Option EffectAuthorization) (provider : String) (allow_create : Bool)
      (now later last : Instant) (w : World) where
    abbrev Unchanged : World → Type 0
    Unchanged w' = allow_create ≡ false → w' ≡ w

    -- the projection that the request asks for
    abbrev pub Asked : EffectAuthorization → Projection → Type 0
    Asked a p =
        (q : Projection) × (project rt calendar json a request provider now later ≡ ok q)
        × (p.projection_hash ≡ q.projection_hash)

    abbrev pub Projected : Gate rt calendar port task_id Projection → Type 0
    Projected (err e, w') = Unchanged w'
    Projected (ok (state', none), w') = (authorization ≡ none) × (state' ≡ state) × (w' ≡ w)
    Projected (ok (state', some p), w') =
        Unchanged w'
        × ((a : EffectAuthorization) × (at : Instant) × (authorization ≡ some a)
            × Derived rt calendar json a at p
            × Asked a p)

    if-Projected :
        (b : Bool) (x y : Gate rt calendar port task_id Projection)
        → (b ≡ true → Projected x)
        → (b ≡ false → Projected y)
        → Projected (if b then x else y)
    if-Projected true x y f g = f refl
    if-Projected false x y f g = g refl

    kept-Projected :
        (a : EffectAuthorization) (q : Projection) (v : Value)
        → authorization ≡ some a
        → project rt calendar json a request provider now later ≡ ok q
        → Projected (
            passed rt calendar port task_id state
              (durable_projection rt calendar json a q v last)
              w)
    kept-Projected a q v is_a asked =
        elim (Result-cases (durable_projection rt calendar json a q v last)) [
          | inl (p, kept) ↦
              let (derived, hash) = durable_projection-Derived a q v last p kept in
              rw kept ((λ never. refl), (a, last, is_a, derived, (q, asked, hash)))
          | inr (e, raised) ↦ rw raised (λ never. refl)
        ]

    created-Projected :
        (a : EffectAuthorization) (q : Projection) (call : Result String (Unit {0}) × World)
        → authorization ≡ some a
        → project rt calendar json a request provider now later ≡ ok q
        → allow_create ≡ true
        → Projected
            (then_snapshot rt calendar port task_id call (λ state' w'. (ok (state', some q), w')))
    created-Projected a q (err message, w') is_a asked may = λ never. absurd (cc (may, never))
    created-Projected a q (ok u, w') is_a asked may = (
      (λ never. absurd (cc (may, never))),
      (a, later, is_a, project-Derived a request provider now later q asked, (q, asked, refl)),
    )

    bind_projection-Projected :
        (a : EffectAuthorization) (q : Projection)
        → authorization ≡ some a
        → project rt calendar json a request provider now later ≡ ok q
        → Projected
            (bind_projection rt calendar port task_id json a q state provider allow_create last w)
    unfolding bind_projection
    bind_projection-Projected a q is_a asked =
        if-Projected (not (is_null (get provider (manifests_of rt calendar state)))) _ _
          (λ kept. kept-Projected a q (get provider (manifests_of rt calendar state)) is_a asked)
          (λ missing.
            if-Projected (not allow_create) _ _ (λ may_not. λ never. refl)
              (λ may. created-Projected a q _ is_a asked (not-false allow_create may)))

    settled :
        (a : EffectAuthorization) (r : Result GateError Projection)
        → authorization ≡ some a
        → project rt calendar json a request provider now later ≡ r
        → Projected (elim r [
          | err e ↦ (err e, w)
          | ok q ↦
              bind_projection rt calendar port task_id json a q state provider allow_create last w
        ])
    settled a (err e) is_a asked = λ never. refl
    settled a (ok q) is_a asked = bind_projection-Projected a q is_a asked

    -- the gate, for the authorization that it is given
    projection_gate :
        (o : Option EffectAuthorization)
        → authorization ≡ o
        → Projected (
            ensure_tool_projection rt calendar port task_id json request state o provider
              allow_create now later last w)
    unfolding ensure_tool_projection
    projection_gate none is_o = (is_o, refl, refl)
    projection_gate (some a) is_o =
        settled a (project rt calendar json a request provider now later) is_o refl

    -- On every outcome: a worker is given no projection only where there is no authorization, and then
    -- nothing changes; a projection that it is given derives from the authorization, and is the one
    -- that the request asks for; without permission to create it nothing is written.
    pub ensure_tool_projection-Projected : Projected (
        ensure_tool_projection rt calendar port task_id json request state authorization provider
          allow_create now later last w)
    ensure_tool_projection-Projected = projection_gate authorization refl
