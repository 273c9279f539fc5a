-- ===== src/Retry/Identity/Tests.antt =====
-- Identities minted from concrete tokens.
use nexus_runtime.Prelude.{String, ◌≤◌, ◌≡◌, refl, false, arith}
use nexus_runtime.Python.Text.{is_empty, strip, contains}
use nexus_runtime.Python.Value.{str, Fields, end, field, Runtime}
use nexus_runtime.Python.Raise.{ok}
use nexus_runtime.Retry.Identity.{len, RetryIdentity, token_of, mint_retry_identity}
use nexus_runtime.Retry.Identity.Fresh.{mint_retry_identity-Fresh, mint_retry_identity-len}

abbrev plain : Runtime
plain = record {
  digest = λ v. "digest";
  ascii_digest = λ v. "digest";
  render = λ v. "?";
  repr = λ v. "?";
  upper = λ s. s;
  lower = λ s. s;
}

abbrev first_try : Fields
first_try = field "task_id" (str "task") (field "idempotency_key" (str "key") end)

abbrev second_try : Fields
second_try = field "task_id" (str "task") (field "idempotency_key" (str "key:retry-b") end)

abbrev token : String
token = "a"

abbrev identity : RetryIdentity
identity = record {
  task_id = "task";
  attempt_id = "attempt-a";
  action_id = "action-a";
  idempotency_key = "key:retry-a";
}

identity_minted : mint_retry_identity plain first_try end (str "a") ≡ ok identity
unfolding mint_retry_identity token_of strip contains
identity_minted = refl

-- the suffix of the retry before is replaced
identity_minted_again : mint_retry_identity plain second_try end (str "a") ≡ ok identity
unfolding mint_retry_identity token_of strip contains
identity_minted_again = refl

mint_retry_identity-Fresh_example : token ≡ token
mint_retry_identity-Fresh_example =
    mint_retry_identity-Fresh plain first_try end second_try end token token identity identity
      identity_minted identity_minted_again refl

mint_retry_identity-len_example : (is_empty "task" ≡ false) × (len "key:retry-a" ≤ 256)
mint_retry_identity-len_example =
    mint_retry_identity-len plain first_try end "a" identity identity_minted (omega arith)
