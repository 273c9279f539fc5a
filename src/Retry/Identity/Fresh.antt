-- ===== src/Retry/Identity/Fresh.antt =====
-- How long a minted key is, and that it tells tokens apart (task_retry/retry_identity.py).
use Prim.Native.Char.{code}
use text.Mathlib.TextLemmas.{nil-append, cons-append, append_cancel_left}
use Prim.Native.String.{◌++◌ as concat}
use nexus_runtime.Prelude.{
  ℕ, zero, suc, ◌+◌, ◌-◌, ◌≤◌, max, String, Bool, true, false, ◌≡◌, refl, sym, ap, subst, ◌∙◌, ◌&&◌,
  ◌||◌, not, eqb, if◌then◌else◌, arith,
}
use nexus_runtime.Python.Text.{is_empty, contains}
use nexus_runtime.Python.Value.{str, Fields, Runtime}
use nexus_runtime.Python.Raise.{Result, ok, err, require, >>=-eq-ok, require-eq-ok, ok-injective}
use nexus_runtime.Retry.Identity.{
  len, first, up_to, RetryIdentity, token_of, suffix_of, key_of, task_id_of, previous_key_of,
  mint_retry_identity,
}

len-concat : (s t : String) → len (concat s t) ≡ len s + len t
len-concat String.[] t = rw (nil-append t) (omega arith)
len-concat (String.◌∷◌ c s) t = rw (cons-append c s t) (omega (arith, len-concat s t))

len-first : (n : ℕ) (s : String) → len (first n s) ≤ n
len-first zero s = omega arith
len-first (suc n) String.[] = omega arith
len-first (suc n) (String.◌∷◌ c s) = omega (arith, len-first n s)

-- the part after the last colon
last_part : String → String
unfolding contains
last_part String.[] = String.[]
last_part (String.◌∷◌ c s) =
    let rest = last_part s in
    if contains ":" s then rest else if eqb 58 (code c) then s else String.◌∷◌ c s

contains-concat : (s t : String) → contains ":" (concat s t) ≡ (contains ":" s || contains ":" t)
unfolding contains
contains-concat String.[] t = rw (nil-append t)
contains-concat (String.◌∷◌ c s) t = rw (cons-append c s t) (ground (arith, contains-concat s t))

suffix-cons : (t : String) → suffix_of t ≡ String.◌∷◌ ":" (concat "retry-" t)
suffix-cons t = cons-append ":" "retry-" t

suffix-colon : (t : String) → contains ":" (suffix_of t) ≡ true
unfolding contains
suffix-colon t = contains-concat ":retry-" t

not-true : (b : Bool) → not b ≡ true → b ≡ false
not-true b h = ground arith

or_true : (b : Bool) → (b || true) ≡ true
or_true b = ground arith

last_part-concat :
    (base t : String)
    → contains ":" t ≡ false
    → last_part (concat base (suffix_of t)) ≡ concat "retry-" t
unfolding last_part contains
last_part-concat String.[] t h =
    rw (nil-append (suffix_of t), suffix-cons t, contains-concat "retry-" t, h)
last_part-concat (String.◌∷◌ c base) t h =
    rw (cons-append c base (suffix_of t), contains-concat base (suffix_of t), suffix-colon t)
      (rw (last_part-concat base t h, or_true (contains ":" base)))

checked : Bool → Bool → String → Result String String
checked empty colon s = if not empty && not colon then ok s else err "RETRY_TOKEN_INVALID"

checked-ok :
    (empty colon : Bool) (s t : String) → checked empty colon s ≡ ok t → (s ≡ t) × (colon ≡ false)
unfolding checked
checked-ok false false s t h = (ok-injective h, refl)
checked-ok true colon s t h = absurd (cc)
checked-ok false true s t h = absurd (cc)

-- A token that is taken is the one given, without a colon.
token_of-ok : (s t : String) → token_of (str s) ≡ ok t → (s ≡ t) × (contains ":" s ≡ false)
unfolding token_of checked
token_of-ok s t h = checked-ok (is_empty s) (contains ":" s) s t h

room : (n : ℕ) → n ≤ 248 → max 1 (256 - (7 + n)) + (7 + n) ≤ 256
room n h = omega arith

-- The key is the base, the mark and the token: no longer than 256 where the token leaves room.
key_of-len : (key t : String) → len t ≤ 248 → len (key_of key t) ≤ 256
key_of-len key t h =
    let n : ℕ = max 1 (256 - len (suffix_of t)) in
    omega (
      arith,
      len-concat (first n (up_to ":retry-" key)) (suffix_of t),
      len-concat ":retry-" t,
      len-first n (up_to ":retry-" key),
    )

key_of-token :
    (key key' t t' : String)
    → contains ":" t ≡ false
    → contains ":" t' ≡ false
    → key_of key t ≡ key_of key' t'
    → t ≡ t'
key_of-token key key' t t' h h' same =
    append_cancel_left "retry-" t t'
      (sym (last_part-concat _ t h) ∙ ap last_part same ∙ last_part-concat _ t' h')

module _ (rt : Runtime) where
  -- what is known of an identity that is minted from this token
  abbrev pub Minted : RetryIdentity → String → Type 0
  Minted i token =
      (contains ":" token ≡ false)
      × (is_empty i.task_id ≡ false)
      × (previous_key : String) × (i.idempotency_key ≡ key_of previous_key token)

  minted :
      (state request : Fields) (token : String) (i : RetryIdentity)
      → mint_retry_identity rt state request (str token) ≡ ok i
      → Minted i token
  unfolding mint_retry_identity
  minted state request token i h =
      let task_id : String = task_id_of rt state request in
      let (t, taken, h1) = >>=-eq-ok (token_of (str token)) _ h in
      let (same, no_colon) = token_of-ok token t taken in
      let (u, named, h2) = >>=-eq-ok (require (not (is_empty task_id)) _) _ h1 in
      let eq = ok-injective h2 in
      let blank : is_empty task_id ≡ false =
        not-true (is_empty task_id) (require-eq-ok (not (is_empty task_id)) _ named) in
      (
        no_colon,
        subst (λ (j : RetryIdentity). is_empty j.task_id ≡ false) eq blank,
        previous_key_of rt state request task_id,
        sym (ap (λ (j : RetryIdentity). j.idempotency_key) eq)
            ∙ ap (key_of (previous_key_of rt state request task_id)) (sym same),
      )

  -- Two identities that are minted, of whatever tasks, have different keys unless their tokens are the
  -- same.
  pub mint_retry_identity-Fresh :
      (state request state' request' : Fields) (token token' : String) (i i' : RetryIdentity)
      → mint_retry_identity rt state request (str token) ≡ ok i
      → mint_retry_identity rt state' request' (str token') ≡ ok i'
      → i.idempotency_key ≡ i'.idempotency_key
      → token ≡ token'
  mint_retry_identity-Fresh state request state' request' token token' i i' h h' same =
      let (clean, named, key, is_key) = minted state request token i h in
      let (clean', named', key', is_key') = minted state' request' token' i' h' in
      key_of-token key key' token token' clean clean' (sym is_key ∙ same ∙ is_key')

  -- A minted identity names a task, and its key is at most 256 long where the token is at most 248 long.
  pub mint_retry_identity-len :
      (state request : Fields) (token : String) (i : RetryIdentity)
      → mint_retry_identity rt state request (str token) ≡ ok i
      → len token ≤ 248
      → (is_empty i.task_id ≡ false) × (len i.idempotency_key ≤ 256)
  mint_retry_identity-len state request token i h short =
      let (clean, named, key, is_key) = minted state request token i h in
      (named, subst (λ k. len k ≤ 256) (sym is_key) (key_of-len key token short))
