-- ===== src/Decision/Json/Tokens.antt =====
-- The keys of a mapping and the tokens that they must not hold (model_call_resolution.py and
-- bounded_decision.py of execution_coordination).
use nexus_runtime.Prelude.{
  ◌≡◌, String, Bool, false, List, [], ◌∷◌, All, any, none, Bool-cases, inl, inr,
}
use nexus_runtime.Python.Text.{contains}
use nexus_runtime.Python.Value.{Fields, end, field, Runtime}
use nexus_runtime.Decision.Json.{authority_key}

any-All : (p : String → Bool) (ss : List String) → any p ss ≡ false → All (λ s. p s ≡ false) ss
any-All p [] h = tt
any-All p (s ∷ ss) h = elim (Bool-cases (p s)) [
  | inl hit ↦ absurd (cc (rw hit at h))
  | inr miss ↦ (miss, any-All p ss (rw miss at h))
]

module _ (rt : Runtime) (tokens : List String) where
  -- No top-level key, in lower case, holds one of the tokens.
  abbrev pub WithoutTokens : Fields → Type 0
  WithoutTokens end = Unit
  WithoutTokens (field k v fs) =
      All (λ token. contains token (rt.lower k) ≡ false) tokens × WithoutTokens fs

  pub authority_key-WithoutTokens :
      (fs : Fields) → authority_key rt tokens fs ≡ none → WithoutTokens fs
  unfolding authority_key
  authority_key-WithoutTokens end h = tt
  authority_key-WithoutTokens (field k v fs) h =
      elim (Bool-cases (any (λ token. contains token (rt.lower k)) tokens)) [
        | inl hit ↦ absurd (cc (rw hit at h))
        | inr clean ↦ (
          any-All (λ token. contains token (rt.lower k)) tokens clean,
          authority_key-WithoutTokens fs (rw clean at h),
        )
      ]
