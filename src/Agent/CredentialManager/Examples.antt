-- ===== src/Agent/CredentialManager/Examples.antt =====
-- The theorems on credentials at concrete files and calls.
use Prim.Native.String.append
use time_weaver.Prelude.{
  ℕ, zero, suc, ◌+◌, ◌-◌, ◌≡◌, refl, ap, true, false, none, some, String, text_append, [], ◌∷◌, ok,
  arith,
}
use time_weaver.Agent.LogGate.{new_gate}
use time_weaver.Agent.Models.{AccessCredential}
use time_weaver.Agent.Models.Parsing.{Formats, zoned}
use time_weaver.Agent.ApiClient.{AgentApiClient}
use time_weaver.Agent.Application.Access.{Accords, result_access_token, result_access_token-Accords}
use time_weaver.Agent.OperatingState.{new_manager}
use time_weaver.Agent.CredentialManager.Store.{
  StoredCredential, CredentialStore, Faults, Times, IsValid, no_fault, missing, holds, to_json,
  stored_credential, read, write, read-write,
}
use time_weaver.Agent.CredentialManager.{
  CredentialManager, CredentialOutcome, Meets, ensure_access_token, new_credential_manager,
  has_usable_token,
}
use time_weaver.Agent.CredentialManager.Fates.{Fate, ensure_access_token-Fate}
use time_weaver.Agent.CredentialManager.Backing.{
  ensure, install, run, Backed, new_credential_manager-Backed,
}

-- Times written in unary.
strokes : ℕ → String
strokes zero = ""
strokes (suc n) = String.◌∷◌ "1" (strokes n)

count : String → ℕ
count String.[] = 0
count (String.◌∷◌ c s) = suc (count s)

count-strokes : (n : ℕ) → count (text_append (strokes n) "+00:00") ≡ n + 6
unfolding strokes count
count-strokes zero = refl
count-strokes (suc n) = rw append.cons (omega (arith, count-strokes n))

abbrev unary_formats : Formats
unary_formats = record {
  fromisoformat = λ s. some (zoned (count s - 6));
  canonical_uuid = λ s. some s;
}

unary_reads :
    (n : ℕ) → unary_formats.fromisoformat (text_append (strokes n) "+00:00") ≡ some (zoned n)
unary_reads n = ap (λ (k : ℕ). some (zoned k)) (omega (arith, count-strokes n))

abbrev unary : Times
unary = record { formats = unary_formats; isoformat = strokes; reads_back = unary_reads }

abbrev fresh : AccessCredential
fresh = record {
  access_token = "a1";
  access_token_expires_at = 900;
  refresh_token = "r1";
  refresh_token_expires_at = 5000;
  device_id = some 7;
  device_name = some "press";
}

abbrev quiet : Faults
quiet = record { read_fails = false; remove_fails = false; write_fault = no_fault }

abbrev stored : StoredCredential
stored = stored_credential 7 "press" fresh

abbrev on_disk : CredentialStore
on_disk = record { file = holds (to_json unary stored); replace_count = 0 }

stored-IsValid : IsValid stored
stored-IsValid = record { id = omega arith; name = refl; token = refl; version = refl }

read-write_example :
    read unary quiet (write unary quiet stored (record { file = missing; replace_count = 0 })).0
    ≡ ok (some stored)
read-write_example =
    read-write unary stored quiet quiet (record { file = missing; replace_count = 0 })
      stored-IsValid (λ e. cc e)

abbrev meets : ℕ → Meets
meets time = record {
  faults = quiet;
  answer = ok fresh;
  called = time;
  locked = time;
  checked = time;
}

abbrev manager : CredentialManager
manager = new_credential_manager unary quiet on_disk

ensure_access_token-Fate_example :
    Fate unary
      (meets 10)
      manager.store.file
      (ensure_access_token unary 60 (meets 10) manager).0.store.file
ensure_access_token-Fate_example = ensure_access_token-Fate unary (meets 10) 60 manager

new_credential_manager-Backed_example : Backed unary (fresh ∷ fresh ∷ []) (
    run unary
      (install quiet fresh ∷ ensure 60 (meets 880) ∷ [])
      (new_credential_manager unary quiet (record { file = missing; replace_count = 0 })))
new_credential_manager-Backed_example =
    new_credential_manager-Backed unary quiet (record { file = missing; replace_count = 0 })
      (install quiet fresh ∷ ensure 60 (meets 880) ∷ [])

abbrev holding : CredentialManager
holding = record {
  store = on_disk;
  access_token = some "a1";
  access_expires_at = some 900;
  refresh_log_gate = new_gate 10;
  credential_existed_at_start = true;
}

abbrev with_token : CredentialOutcome
with_token = record { access_token = some "a1"; access_token_expires_at = some 900; reason = none }

holding_returns : ensure_access_token unary 60 (meets 10) holding ≡ (holding, ok with_token)
unfolding ensure_access_token has_usable_token
holding_returns = refl

abbrev client : AgentApiClient
client = record {
  base_url = "https://weaver";
  credential = none;
  agent_version = "2";
  schema_version = "1";
  retries = 2;
  backoff = 1000;
}

result_access_token-Accords_example :
    let g = result_access_token unary (meets 10) (some manager) (some new_manager) (some client) in
    Accords (some manager) (some new_manager) (some client) g g.answer
result_access_token-Accords_example =
    result_access_token-Accords unary (meets 10) (some manager) (some new_manager) (some client)
