-- ===== src/Decision/Authority/Derived.antt =====
-- A projection derives its power from an authorization (execution_coordination/effect_authorization.py).
use nexus_runtime.Prelude.{String, true, ◌≡◌, refl, subst, List, [], ◌∷◌, some, ◌==◌, ==→≡, eq_refl}
use nexus_runtime.Python.Value.{Value, str, list, dict, Fields, get, Runtime, fields_of}
use nexus_runtime.Python.Order.{sorted_set}
use nexus_runtime.Python.Raise.{ok, require, >>=-eq-ok, require-eq-ok, ok-injective}
use nexus_runtime.Decision.Json.{required_text, texts_of}
use nexus_runtime.Decision.Json.Normal.{
  is_required, is_normal, is_normal_fields, is_required-required_text,
}
use nexus_runtime.Decision.Authority.{
  Calendar, EffectAuthorization, normalize_effects, some_fields, hash_of, build_authorization,
  assert_integrity, assert_fresh,
}
use nexus_runtime.Decision.Authority.Subset.{is_subset}
use nexus_runtime.Decision.Authority.Narrowing.{find, is_subset-find, is_subset-is_normal}
use nexus_runtime.Decision.Authority.Authorized.{
  InForce, unexpired-InForce, InForce-unexpired, build_authorization-Sound,
  normalize_effects-is_normal, is_normal-normalize_effects,
}
use nexus_runtime.Decision.Authority.Projection.{
  Projection, normalize_tools, projection_hash_of, build_projection, not_empty,
}

normal_dict : (fs : Fields) → is_normal_fields fs ≡ true → is_normal (dict fs) ≡ true
unfolding is_normal
normal_dict fs h = h

-- the arguments of a projection
abbrev pub asked : String → String → Value → Fields → Fields
asked provider backend_id tools effects = fields_of (
    ("provider", str provider)
    ∷ ("backend_id", str backend_id)
    ∷ ("selected_tools", tools)
    ∷ ("selected_effects", dict effects)
    ∷ [])

module _ (rt : Runtime) (calendar : Calendar) (canonical_json : Value → String) where
  open calendar use {Instant, from_iso, reached}

  -- Everything that the projection selects, at any path, is allowed by the authorization at that path.
  abbrev pub Narrows : Projection → EffectAuthorization → Type 0
  Narrows p a =
      (path : List String) (part : Value)
      → find path (dict p.selected_effects) ≡ some part
      → (allowed : Value) × (find path (dict a.effects) ≡ some allowed)
        × (is_subset canonical_json part allowed ≡ true)

  -- The projection of an authorization that is intact and in force.
  pub record Derived (a : EffectAuthorization) (now : Instant) (p : Projection) : Type 0 where
    pub intact : hash_of rt calendar a ≡ a.authorization_hash
    pub in_force : InForce rt calendar a now
    pub of_authorization : p.authorization_hash ≡ a.authorization_hash
    pub of_operation : p.operation_id ≡ a.operation_id
    pub of_attempt : p.attempt_id ≡ a.attempt_id
    pub narrows : Narrows p a
    pub some_selected :
        (not_empty p.selected_tools ≡ true) × (some_fields p.selected_effects ≡ true)
    pub hashed : p.projection_hash ≡ projection_hash_of rt calendar canonical_json p

  normalize_tools-not_empty :
      (v : Value) {ts : List String} → normalize_tools v ≡ ok ts → not_empty ts ≡ true
  unfolding normalize_tools
  normalize_tools-not_empty (list vs) h =
      let (tools, listed, h1) = >>=-eq-ok (texts_of vs "selected_tools.item") _ h in
      let (u, some_there, h2) = >>=-eq-ok (require (not_empty (sorted_set tools)) _) _ h1 in
      subst (λ ts. not_empty ts ≡ true) (ok-injective h2)
        (require-eq-ok (not_empty (sorted_set tools)) _ some_there)
  normalize_tools-not_empty _ h = absurd (cc)

  -- A projection that is built comes from an intact authorization in force, carries its hash and
  -- identity, selects at every path only what the authorization allows there, and selects some tool.
  pub build_projection-Derived :
      (a : EffectAuthorization) (now : Instant) (given : Fields) (p : Projection)
      → build_projection rt calendar canonical_json a now given ≡ ok p
      → Derived a now p
  unfolding build_projection
  build_projection-Derived a now given p h =
      let (u, intact, h1) = >>=-eq-ok (assert_integrity rt calendar a) _ h in
      let (u2, in_force, h2) = >>=-eq-ok (assert_fresh rt calendar a now) _ h1 in
      let (provider, is_provider, h3) =
        >>=-eq-ok (required_text (get "provider" given) "provider") _ h2 in
      let (backend, is_backend, h4) =
        >>=-eq-ok (required_text (get "backend_id" given) "backend_id") _ h3 in
      let (tools, is_tools, h5) = >>=-eq-ok (normalize_tools (get "selected_tools" given)) _ h4 in
      let (effects, is_effects, h6) =
        >>=-eq-ok (normalize_effects (get "selected_effects" given) "selected_effects") _ h5 in
      let (u3, inside, h7) =
        >>=-eq-ok (require (is_subset canonical_json (dict effects) (dict a.effects)) _) _ h6 in
      subst (λ p. Derived a now p) (ok-injective h7)
        (record {
          intact =
              ==→≡ (hash_of rt calendar a) a.authorization_hash
                (require-eq-ok (hash_of rt calendar a == a.authorization_hash) _ intact);
          in_force = unexpired-InForce rt calendar a.expires_at now in_force;
          of_authorization = refl;
          of_operation = refl;
          of_attempt = refl;
          narrows = λ path part found.
              is_subset-find canonical_json path (dict effects) (dict a.effects)
                (require-eq-ok (is_subset canonical_json (dict effects) (dict a.effects)) _ inside)
                found;
          some_selected = (
            normalize_tools-not_empty (get "selected_tools" given) is_tools,
            (normalize_effects-is_normal (get "selected_effects" given) "selected_effects"
                is_effects).1,
          );
          hashed = refl;
        })

  -- Whoever holds a built authorization in force can project all of it, for any provider, backend and
  -- tools that are accepted.
  pub build_projection-all :
      (given : Fields) (a : EffectAuthorization) (now : Instant) (provider backend_id : String)
      (selected : Value) (tools : List String)
      → build_authorization rt calendar given ≡ ok a
      → InForce rt calendar a now
      → is_required provider ≡ true
      → is_required backend_id ≡ true
      → normalize_tools selected ≡ ok tools
      → (p : Projection) × (build_projection rt calendar canonical_json a now
            (asked provider backend_id selected a.effects)
          ≡ ok p)
        × (p.selected_effects ≡ a.effects)
        × (p.selected_tools ≡ tools)
  unfolding build_projection
  build_projection-all given a now provider backend_id selected tools built in_force is_provider
        is_backend chosen =
      let s = build_authorization-Sound rt calendar given built in
      let p : Projection = record {
        authorization_hash = a.authorization_hash;
        operation_id = a.operation_id;
        attempt_id = a.attempt_id;
        provider = provider;
        backend_id = backend_id;
        selected_tools = tools;
        selected_effects = a.effects;
        projection_hash = "";
      } in
      let intact : (hash_of rt calendar a == a.authorization_hash) ≡ true =
        rw s.hashed (eq_refl (hash_of rt calendar a)) in
      let whole =
        is_subset-is_normal canonical_json (dict a.effects) (normal_dict a.effects s.normal) in
      (
        record p { projection_hash = projection_hash_of rt calendar canonical_json p },
        rw (
          intact,
          InForce-unexpired rt calendar a.expires_at now in_force,
          is_required-required_text provider "provider" is_provider,
          is_required-required_text backend_id "backend_id" is_backend,
          chosen,
          is_normal-normalize_effects a.effects "selected_effects" s.normal s.some_effects,
          whole,
        ),
        refl,
        refl,
      )
