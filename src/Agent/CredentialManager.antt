-- ===== src/Agent/CredentialManager.antt =====
-- CredentialManager of agent/services/time_weaver/credential_manager.py with its store. The file, the
-- clock and the server are arguments: what the file holds is part of the state, and each call is given
-- the faults of the file system, the times that it reads, and the answer of the server.
pub mod Store
pub mod Outcomes
pub mod Fates
pub mod Backing
mod Examples
use time_weaver.Prelude.{
  ℕ, ◌+◌, Bool, true, false, not, ◌&&◌, Option, none, some, String, List, [], ◌∷◌, Result, ok,
  error, ◌==◌, if◌then◌else◌, leb, contains, is_none, text_comparable, nat_comparable,
}
use time_weaver.Agent.ApiErrors.{ApiClientError, Exception}
use time_weaver.Agent.LogGate.{FailureLogGate, new_gate, failure, success}
use time_weaver.Agent.Models.{AccessCredential}
use time_weaver.Agent.CredentialManager.Store.{
  StoredCredential, CredentialStore, ReadError, os_error, value_error, Faults, Times, read, write,
  remove, stored_credential,
}

-- CredentialOutcome
pub record CredentialOutcome : Type 0 where
  pub access_token : Option String
  pub access_token_expires_at : Option ℕ
  pub reason : Option String

-- CredentialOutcome.ok
abbrev pub is_ok : CredentialOutcome → Bool
is_ok outcome = not (is_none outcome.access_token) && is_none outcome.reason

abbrev pub refused : String → CredentialOutcome
refused reason = record {
  access_token = none;
  access_token_expires_at = none;
  reason = some reason;
}

-- The fields of CredentialManager that change.
pub record CredentialManager : Type 0 where
  pub store : CredentialStore
  pub access_token : Option String
  pub access_expires_at : Option ℕ
  pub refresh_log_gate : FailureLogGate
  pub credential_existed_at_start : Bool

abbrev was_there : Result ReadError (Option StoredCredential) → Bool
was_there (ok (some stored)) = true
was_there _ = false

-- CredentialManager.__init__, whose read may meet faults.
unfoldable pub new_credential_manager : Times → Faults → CredentialStore → CredentialManager
unfolding new_gate
new_credential_manager t faults store = record {
  store = store;
  access_token = none;
  access_expires_at = none;
  refresh_log_gate = new_gate 10;
  credential_existed_at_start = was_there (read t faults store);
}

-- What a call leaves, and what it returns or raises.
abbrev pub Called : Type 0
Called = CredentialManager × Result Exception CredentialOutcome

abbrev pub held : CredentialManager → CredentialOutcome
held m = record {
  access_token = m.access_token;
  access_token_expires_at = m.access_expires_at;
  reason = none;
}

abbrev usable : ℕ → ℕ → Option String → Option ℕ → Bool
usable minimum now (some token) (some expires) = leb (now + minimum) expires
usable minimum now _ _ = false

-- CredentialManager._usable_memory_token: whether there is one.
unfoldable pub has_usable_token : ℕ → ℕ → CredentialManager → Bool
has_usable_token minimum now m = usable minimum now m.access_token m.access_expires_at

-- CredentialManager._clear_memory
unfoldable pub clear_memory : CredentialManager → CredentialManager
clear_memory m = record m { access_token = none; access_expires_at = none }

abbrev pub refuse : String → CredentialManager → Called
refuse reason m = (clear_memory m, ok (refused reason))

-- self._store.remove(), where an OSError ends the call.
abbrev pub removed_or_raised : Bool → CredentialManager → Called
removed_or_raised true m = (m, error (Exception.other "OSError"))
removed_or_raised false m = refuse "needs_enrollment" (record m { store = remove m.store })

-- CredentialManager._handle_refresh_failure
unfoldable pub handle_refresh_failure : Faults → ApiClientError → CredentialManager → Called
unfolding clear_memory
handle_refresh_failure faults exc m =
    let logged = record m {
      refresh_log_gate = (failure "refresh" exc.code m.refresh_log_gate).0;
    } in
    if contains exc.code ("invalid_token" ∷ "token_expired" ∷ [])
    then removed_or_raised faults.remove_fails logged
    else if contains exc.code ("device_inactive" ∷ "device_revoked" ∷ [])
    then refuse "device_inactive" logged
    else refuse "transient" logged

-- x or y, where x may be None, and zero and the empty text count as missing.
abbrev or_number : Option ℕ → ℕ → ℕ
or_number none fallback = fallback
or_number (some n) fallback = if n == 0 then fallback else n

abbrev or_text : Option String → String → String
or_text none fallback = fallback
or_text (some s) fallback = if s == "" then fallback else s

-- The credential that a refresh leaves in the file.
unfoldable pub rotated : AccessCredential → StoredCredential → StoredCredential
rotated refreshed stored =
    stored_credential (or_number refreshed.device_id stored.device_id)
      (or_text refreshed.device_name stored.device_name) refreshed

abbrev pub remember : AccessCredential → CredentialManager → CredentialManager
remember credential m = record m {
  access_token = some credential.access_token;
  access_expires_at = some credential.access_token_expires_at;
}

abbrev forget_failures : CredentialManager → CredentialManager
forget_failures m = record m { refresh_log_gate = (success "refresh" m.refresh_log_gate).0 }

abbrev pub persisted :
    (AccessCredential → CredentialManager → CredentialManager)
    → AccessCredential
    → CredentialManager
    → CredentialStore × Bool
    → Called
persisted keep credential m (store, true) =
    let kept = keep credential (record m { store = store }) in (kept, ok (held kept))
persisted keep credential m (store, false) =
    refuse "credential_persist_failed" (record m { store = store })

abbrev keep_refreshed : AccessCredential → CredentialManager → CredentialManager
keep_refreshed credential m = forget_failures (remember credential m)

-- The part of ensure_access_token from the answer of the server on.
unfoldable pub after_refresh :
    Times
    → Faults
    → Result Exception AccessCredential
    → StoredCredential
    → CredentialManager
    → Called
unfolding handle_refresh_failure clear_memory rotated
after_refresh t faults (error (Exception.api exc)) stored m = handle_refresh_failure faults exc m
after_refresh t faults (error (Exception.other name)) stored m = (m, error (Exception.other name))
after_refresh t faults (ok refreshed) stored m =
    persisted keep_refreshed refreshed m (write t faults (rotated refreshed stored) m.store)

-- What a call of ensure_access_token meets: the faults, the server's answer to a refresh, and the
-- times at the first check, at the check under the lock and at the check of the expiry.
pub record Meets : Type 0 where
  pub faults : Faults
  pub answer : Result Exception AccessCredential
  pub called : ℕ
  pub locked : ℕ
  pub checked : ℕ

-- The part of ensure_access_token from the read of the store on.
unfoldable pub after_read :
    Times → Meets → Result ReadError (Option StoredCredential) → CredentialManager → Called
unfolding after_refresh clear_memory
after_read t meets (error os_error) m = refuse "transient" m
after_read t meets (error value_error) m =
    refuse "needs_enrollment"
      (if meets.faults.remove_fails then m else record m { store = remove m.store })
after_read t meets (ok none) m = removed_or_raised meets.faults.remove_fails m
after_read t meets (ok (some stored)) m =
    if leb stored.refresh_token_expires_at meets.checked
    then removed_or_raised meets.faults.remove_fails m
    else after_refresh t meets.faults meets.answer stored m

-- The section of ensure_access_token under credential_lock.
unfoldable pub ensure_locked : Times → ℕ → Meets → CredentialManager → Called
unfolding after_read has_usable_token
ensure_locked t minimum meets m =
    if has_usable_token minimum meets.locked m
    then (m, ok (held m))
    else after_read t meets (read t meets.faults m.store) m

-- CredentialManager.ensure_access_token, where no other thread takes the lock in between.
unfoldable pub ensure_access_token : Times → ℕ → Meets → CredentialManager → Called
unfolding ensure_locked has_usable_token
ensure_access_token t minimum meets m =
    if has_usable_token minimum meets.called m
    then (m, ok (held m))
    else ensure_locked t minimum meets m

abbrev installed :
    Times → Faults → Option ℕ → Option String → AccessCredential → CredentialManager → Called
installed t faults (some id) (some name) credential m =
    persisted remember credential m (write t faults (stored_credential id name credential) m.store)
installed t faults _ _ credential m = (m, ok (refused "credential_persist_failed"))

-- CredentialManager.install_enrollment
unfoldable pub install_enrollment : Times → Faults → AccessCredential → CredentialManager → Called
unfolding clear_memory
install_enrollment t faults credential m =
    installed t faults credential.device_id credential.device_name credential m

-- CredentialManager.identity
abbrev identity_in : Result ReadError (Option StoredCredential) → Option (ℕ × String)
identity_in (ok (some stored)) = some (stored.device_id, stored.device_name)
identity_in _ = none

unfoldable pub identity : Times → Faults → CredentialManager → Option (ℕ × String)
identity t faults m = identity_in (read t faults m.store)
