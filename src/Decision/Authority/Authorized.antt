-- ===== src/Decision/Authority/Authorized.antt =====
-- An authorization that was built, written and read again (execution_coordination/effect_authorization.py).
use Prim.Native.String.{◌++◌ as concat}
use nexus_runtime.Prelude.{
  String, true, false, not, ◌≡◌, refl, sym, ap, subst, ◌∙◌, Option, none, some, eq_refl, arith,
}
use nexus_runtime.Python.Value.{Value, null, str, dict, Fields, end, field, get, has, put, Runtime}
use nexus_runtime.Python.Raise.{ok, require, >>=-eq-ok, require-eq-ok, ok-injective}
use nexus_runtime.Decision.Json.{required_text, normalize}
use nexus_runtime.Decision.Json.Normal.{
  is_required, is_normal, is_normal_fields, entry-tests, required_text-is_required,
  is_required-required_text, not-true, put-is_normal, normalize-is_normal, is_normal-normalize,
  fresh, fresh-end, append, append-end, fresh_rest, append-put,
}
use nexus_runtime.Decision.Authority.{
  Parsed, not_iso, naive, aware, instant_of, unexpired, optional_text, optional, normalize_domains,
  normalize_effects, some_fields, Calendar, EffectAuthorization, authorized, authorization_to_dict,
  check_expiry, hash_of, build_authorization, authorization_of, parse_expiry,
}

-- SHA-256 digests are written in hexadecimal digits: stripping takes nothing from them.
abbrev pub HasPlainDigests : Runtime → Type 0
HasPlainDigests rt = (v : Value) → is_required (rt.digest v) ≡ true

abbrev pub OptionalText : Option String → Type 0
OptionalText none = Unit
OptionalText (some s) = is_required s ≡ true

optional_text-OptionalText :
    (v : Value) (name : String) {o : Option String} → optional_text v name ≡ ok o → OptionalText o
unfolding optional_text
optional_text-OptionalText null name h = subst OptionalText (ok-injective h) tt
optional_text-OptionalText (str t) name h =
    let (s, required, h1) = >>=-eq-ok (required_text (str t) name) _ h in
    subst OptionalText (ok-injective h1) (required_text-is_required (str t) name required)
optional_text-OptionalText _ name h = absurd (cc)

OptionalText-optional_text :
    (o : Option String) (name : String) → OptionalText o → optional_text (optional o) name ≡ ok o
unfolding optional_text
OptionalText-optional_text none name h = refl
OptionalText-optional_text (some s) name h = rw (is_required-required_text s name h)

some_fields-put : (k : String) (v : Value) (fs : Fields) → some_fields (put k v fs) ≡ true
some_fields-put k v end = refl
some_fields-put k v (field j w fs) = ground arith

normalize_domains-is_normal :
    (fs : Fields) (name : String) (built : Fields) {gs : Fields}
    → is_normal_fields built ≡ true
    → normalize_domains fs name built ≡ ok gs
    → is_normal_fields gs ≡ true
unfolding normalize_domains
normalize_domains-is_normal end name built hb h =
    subst (λ x. is_normal_fields x ≡ true) (ok-injective h) hb
normalize_domains-is_normal (field k v fs) name built hb h =
    let (key, named, h1) = >>=-eq-ok (required_text (str k) (concat name ".domain")) _ h in
    let (item, one, h2) = >>=-eq-ok (normalize v (concat name (concat "." key))) _ h1 in
    normalize_domains-is_normal fs name (put key item built)
      (put-is_normal key item built (required_text-is_required (str k) _ named)
        (normalize-is_normal v _ one) hb)
      h2

normalize_domains-some :
    (fs : Fields) (name : String) (built : Fields) {gs : Fields}
    → some_fields built ≡ true
    → normalize_domains fs name built ≡ ok gs
    → some_fields gs ≡ true
unfolding normalize_domains
normalize_domains-some end name built hb h = subst (λ x. some_fields x ≡ true) (ok-injective h) hb
normalize_domains-some (field k v fs) name built hb h =
    let (key, named, h1) = >>=-eq-ok (required_text (str k) (concat name ".domain")) _ h in
    let (item, one, h2) = >>=-eq-ok (normalize v (concat name (concat "." key))) _ h1 in
    normalize_domains-some fs name (put key item built) (some_fields-put key item built) h2

normalize_domains_some :
    (fs : Fields) (name : String) {gs : Fields}
    → some_fields fs ≡ true
    → normalize_domains fs name end ≡ ok gs
    → some_fields gs ≡ true
unfolding normalize_domains
normalize_domains_some end name there h = absurd (cc)
normalize_domains_some (field k v fs) name there h =
    let (key, named, h1) = >>=-eq-ok (required_text (str k) (concat name ".domain")) _ h in
    let (item, one, h2) = >>=-eq-ok (normalize v (concat name (concat "." key))) _ h1 in
    normalize_domains-some fs name (put key item end) refl h2

is_normal-normalize_domains :
    (fs : Fields) (name : String) (built : Fields)
    → is_normal_fields fs ≡ true
    → fresh fs built ≡ true
    → normalize_domains fs name built ≡ ok (append built fs)
unfolding normalize_domains is_normal
is_normal-normalize_domains end name built h new = ap ok (sym (append-end built))
is_normal-normalize_domains (field k v fs) name built h new =
    let (hk, once, hv, rest) =
      entry-tests (is_required k) (has k fs) (is_normal v) (is_normal_fields fs) h in
    rw
      (
        is_required-required_text k (concat name ".domain") hk,
        is_normal-normalize v (concat name (concat "." k)) hv,
      )
      (is_normal-normalize_domains fs name (put k v built) rest (fresh_rest k v fs built once new)
        ∙ ap ok (append-put k v fs built new))

pub normalize_effects-is_normal :
    (v : Value) (name : String) {fs : Fields}
    → normalize_effects v name ≡ ok fs
    → (is_normal_fields fs ≡ true) × (some_fields fs ≡ true)
unfolding normalize_effects is_normal
normalize_effects-is_normal (dict fs) name h =
    let (u, there, h1) = >>=-eq-ok (require (some_fields fs) _) _ h in
    (
      normalize_domains-is_normal fs name end refl h1,
      normalize_domains_some fs name (require-eq-ok (some_fields fs) _ there) h1,
    )
normalize_effects-is_normal _ name h = absurd (cc)

pub is_normal-normalize_effects :
    (fs : Fields) (name : String)
    → is_normal_fields fs ≡ true
    → some_fields fs ≡ true
    → normalize_effects (dict fs) name ≡ ok fs
unfolding normalize_effects
is_normal-normalize_effects fs name h some_there =
    rw some_there (is_normal-normalize_domains fs name end h (fresh-end fs))

instant_of-ok : {I : Type 0} (d : Parsed I) {t : I} → instant_of d ≡ ok t → d ≡ aware t
instant_of-ok not_iso h = absurd (cc)
instant_of-ok naive h = absurd (cc)
instant_of-ok (aware t) h = ap aware (ok-injective h)

module _ (rt : Runtime) (calendar : Calendar) where
  open calendar use {Instant, from_iso, reached}

  -- The expiry, if there is one, is a date with a time zone that is not reached yet.
  abbrev pub InForce : EffectAuthorization → Instant → Type 0
  InForce a now =
      (text : String)
      → a.expires_at ≡ some text
      → (expiry : Instant) × (from_iso text ≡ aware expiry) × (reached now expiry ≡ false)

  pub unexpired-InForce :
      (o : Option String) (now : Instant)
      → unexpired rt calendar o now ≡ ok tt
      → (text : String) → o ≡ some text
      → (expiry : Instant) × (from_iso text ≡ aware expiry) × (reached now expiry ≡ false)
  unfolding unexpired parse_expiry
  unexpired-InForce none now h text e = absurd (cc)
  unexpired-InForce (some text) now h text' e =
      let (t, read, h1) = >>=-eq-ok (parse_expiry rt calendar text) _ h in
      let not_yet = require-eq-ok (not (reached now t)) _ h1 in
      (t, ap from_iso (cc e) ∙ instant_of-ok (from_iso text) read, not-true (reached now t) not_yet)

  pub InForce-unexpired :
      (o : Option String) (now : Instant)
      → ((text : String)
          → o ≡ some text
          → (expiry : Instant) × (from_iso text ≡ aware expiry) × (reached now expiry ≡ false))
      → unexpired rt calendar o now ≡ ok tt
  unfolding unexpired parse_expiry
  InForce-unexpired none now h = refl
  InForce-unexpired (some text) now h = let (t, read, not_yet) = h text refl in rw (read, not_yet)

  -- what holds of an authorization that was built
  pub record Sound (a : EffectAuthorization) : Type 0 where
    pub id : is_required a.authority_id ≡ true
    pub ref : is_required a.authority_ref ≡ true
    pub operation : is_required a.operation_id ≡ true
    pub attempt : is_required a.attempt_id ≡ true
    pub in_repository : is_required a.repository ≡ true
    pub source : OptionalText a.source_revision
    pub base : OptionalText a.base_revision
    pub workspace : OptionalText a.workspace_id
    pub target : OptionalText a.target_id
    pub expiry : OptionalText a.expires_at
    pub expiry_read : check_expiry rt calendar a.expires_at ≡ ok tt
    pub normal : is_normal_fields a.effects ≡ true
    pub some_effects : some_fields a.effects ≡ true
    pub hashed : a.authorization_hash ≡ hash_of rt calendar a

  pub build_authorization-Sound :
      (given : Fields) {a : EffectAuthorization}
      → build_authorization rt calendar given ≡ ok a
      → Sound a
  unfolding build_authorization
  build_authorization-Sound given h =
      let (id, is_id, h1) =
        >>=-eq-ok (required_text (get "authority_id" given) "authority_id") _ h in
      let (ref, is_ref, h2) =
        >>=-eq-ok (required_text (get "authority_ref" given) "authority_ref") _ h1 in
      let (op, is_op, h3) =
        >>=-eq-ok (required_text (get "operation_id" given) "operation_id") _ h2 in
      let (att, is_att, h4) =
        >>=-eq-ok (required_text (get "attempt_id" given) "attempt_id") _ h3 in
      let (repo, is_repo, h5) =
        >>=-eq-ok (required_text (get "repository" given) "repository") _ h4 in
      let (src, is_src, h6) =
        >>=-eq-ok (optional_text (get "source_revision" given) "source_revision") _ h5 in
      let (base, is_base, h7) =
        >>=-eq-ok (optional_text (get "base_revision" given) "base_revision") _ h6 in
      let (ws, is_ws, h8) =
        >>=-eq-ok (optional_text (get "workspace_id" given) "workspace_id") _ h7 in
      let (target, is_target, h9) =
        >>=-eq-ok (optional_text (get "target_id" given) "target_id") _ h8 in
      let (exp, is_exp, h10) =
        >>=-eq-ok (optional_text (get "expires_at" given) "expires_at") _ h9 in
      let (effects, is_effects, h11) =
        >>=-eq-ok (normalize_effects (get "effects" given) "effects") _ h10 in
      let (u, read, h12) = >>=-eq-ok (check_expiry rt calendar exp) _ h11 in
      let (normal, some_there) =
        normalize_effects-is_normal (get "effects" given) "effects" is_effects in
      subst (λ a. Sound a) (ok-injective h12)
        (record {
          id = required_text-is_required (get "authority_id" given) "authority_id" is_id;
          ref = required_text-is_required (get "authority_ref" given) "authority_ref" is_ref;
          operation = required_text-is_required (get "operation_id" given) "operation_id" is_op;
          attempt = required_text-is_required (get "attempt_id" given) "attempt_id" is_att;
          in_repository = required_text-is_required (get "repository" given) "repository" is_repo;
          source =
              optional_text-OptionalText (get "source_revision" given) "source_revision" is_src;
          base = optional_text-OptionalText (get "base_revision" given) "base_revision" is_base;
          workspace = optional_text-OptionalText (get "workspace_id" given) "workspace_id" is_ws;
          target = optional_text-OptionalText (get "target_id" given) "target_id" is_target;
          expiry = optional_text-OptionalText (get "expires_at" given) "expires_at" is_exp;
          expiry_read = read;
          normal = normal;
          some_effects = some_there;
          hashed = refl;
        })

  rebuilt :
      (a : EffectAuthorization)
      → Sound a
      → build_authorization rt calendar (authorization_to_dict a) ≡ ok a
  unfolding build_authorization
  rebuilt a s =
      rw
        (
          is_required-required_text a.authority_id "authority_id" s.id,
          is_required-required_text a.authority_ref "authority_ref" s.ref,
          is_required-required_text a.operation_id "operation_id" s.operation,
          is_required-required_text a.attempt_id "attempt_id" s.attempt,
          is_required-required_text a.repository "repository" s.in_repository,
          OptionalText-optional_text a.source_revision "source_revision" s.source,
          OptionalText-optional_text a.base_revision "base_revision" s.base,
          OptionalText-optional_text a.workspace_id "workspace_id" s.workspace,
          OptionalText-optional_text a.target_id "target_id" s.target,
          OptionalText-optional_text a.expires_at "expires_at" s.expiry,
          is_normal-normalize_effects a.effects "effects" s.normal s.some_effects,
          s.expiry_read,
        )
        (ap (λ h. ok (record a { authorization_hash = h })) (sym s.hashed))

  -- The mapping that a built authorization is written as is read back as the same authorization, where
  -- digests are plain texts.
  pub authorization_of-to_dict :
      (given : Fields) (a : EffectAuthorization)
      → HasPlainDigests rt
      → build_authorization rt calendar given ≡ ok a
      → authorization_of rt calendar (dict (authorization_to_dict a)) ≡ ok a
  unfolding authorization_of
  authorization_of-to_dict given a plain built =
      let s = build_authorization-Sound given built in
      let hash_plain : is_required a.authorization_hash ≡ true =
        subst (λ h. is_required h ≡ true) (sym s.hashed) (plain (dict (authorized a))) in
      rw (
        rebuilt a s,
        is_required-required_text a.authorization_hash "authorization_hash" hash_plain,
        eq_refl a.authorization_hash,
      )
