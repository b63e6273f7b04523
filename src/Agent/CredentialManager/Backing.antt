-- ===== src/Agent/CredentialManager/Backing.antt =====
-- The credential file behind the access token in memory, along any calls.
use mathlib.Core.List.Memᴰ
use mathlib.Core.List.{Memᴰ}
use mathlib.Core.List.Memᴰ.{head}
use time_weaver.Prelude.{
  ℕ, ◌≡◌, refl, ap, ◌∙◌, inl, inr, Bool, true, false, Option, none, some, List, [], ◌∷◌, ◌++◌, ok,
  error, Result, Bool-cases, contains, leb, text_comparable, String,
}
use time_weaver.Agent.ApiErrors.{ApiClientError, Exception}
use time_weaver.Agent.Models.{AccessCredential}
use time_weaver.Agent.CredentialManager.Store.{
  StoredCredential, CredentialStore, ReadError, WriteFault, no_fault, before_replace, after_replace,
  holds, os_error, value_error, Faults, Times, read, write, to_json, stored_credential,
}
use time_weaver.Agent.CredentialManager.{
  CredentialManager, Meets, has_usable_token, clear_memory, removed_or_raised,
  handle_refresh_failure, rotated, remember, persisted, keep_refreshed, after_refresh, after_read,
  ensure_locked, ensure_access_token, install_enrollment, installed, new_credential_manager,
}

-- The calls that change a manager.
pub data Call : Type 0 where
  ensure : (minimum : ℕ) → Meets → Call
  install : Faults → AccessCredential → Call

abbrev pub step : Times → Call → CredentialManager → CredentialManager
step t (ensure minimum meets) m = (ensure_access_token t minimum meets m).0
step t (install faults credential) m = (install_enrollment t faults credential m).0

abbrev pub run : Times → List Call → CredentialManager → CredentialManager
run t [] m = m
run t (call ∷ calls) m = run t calls (step t call m)

abbrev answered : Result Exception AccessCredential → List AccessCredential
answered (error raised) = []
answered (ok credential) = credential ∷ []

-- The credentials that a call is given.
abbrev pub given : Call → List AccessCredential
given (ensure minimum meets) = answered meets.answer
given (install faults credential) = credential ∷ []

-- Those given along the calls, the latest first, before some.
abbrev pub given_along : List Call → List AccessCredential → List AccessCredential
given_along [] before = before
given_along (call ∷ calls) before = given_along calls (given call ++ before)

-- No token is in memory, or it is that of a credential in the list whose refresh token is in the file.
pub data Backed (t : Times) (list : List AccessCredential) (m : CredentialManager) : Type 0 where
  empty : m.access_token ≡ none → Backed t list m
  backed :
      (c : AccessCredential) (id : ℕ) (name : String)
      → Memᴰ c list
      → m.access_token ≡ some c.access_token
      → m.access_expires_at ≡ some c.access_token_expires_at
      → m.store.file ≡ holds (to_json t (stored_credential id name c))
      → Backed t list m

Backed-same :
    {t : Times} {list : List AccessCredential} {m : CredentialManager} (m' : CredentialManager)
    → m'.access_token ≡ m.access_token
    → m'.access_expires_at ≡ m.access_expires_at
    → m'.store ≡ m.store
    → Backed t list m
    → Backed t list m'
Backed-same m' token expires store (empty gone) = empty (token ∙ gone)
Backed-same m' token expires store (backed c id name in_list e x f) =
    backed c id name in_list (token ∙ e) (expires ∙ x)
      (ap (λ (s : CredentialStore). s.file) store ∙ f)

Backed-more :
    {t : Times} {list : List AccessCredential} (more : List AccessCredential)
    {m : CredentialManager}
    → Backed t list m
    → Backed t (more ++ list) m
Backed-more more (empty gone) = empty gone
Backed-more more (backed c id name in_list e x f) =
    backed c id name (Memᴰ.append_right more in_list) e x f

module _ (t : Times) where
  removed_or_raised-Backed :
      (list : List AccessCredential) (fails : Bool) (m m' : CredentialManager)
      → Backed t list m
      → m'.access_token ≡ m.access_token
      → m'.access_expires_at ≡ m.access_expires_at
      → m'.store ≡ m.store
      → Backed t list (removed_or_raised fails m').0
  unfolding clear_memory
  removed_or_raised-Backed list true m m' b token expires store =
      Backed-same m' token expires store b
  removed_or_raised-Backed list false m m' b token expires store = empty refl

  handle_refresh_failure-Backed :
      (list : List AccessCredential) (faults : Faults) (exc : ApiClientError)
      (m : CredentialManager)
      → Backed t list m
      → Backed t list (handle_refresh_failure faults exc m).0
  unfolding handle_refresh_failure clear_memory
  handle_refresh_failure-Backed list faults exc m b =
      elim (Bool-cases (contains exc.code ("invalid_token" ∷ "token_expired" ∷ []))) [
        | inl gone ↦
            rw gone (removed_or_raised-Backed list faults.remove_fails m _ b refl refl refl)
        | inr other ↦
            rw other
              (elim (Bool-cases (contains exc.code ("device_inactive" ∷ "device_revoked" ∷ []))) [
                | inl inactive ↦ rw inactive (empty refl)
                | inr passing ↦ rw passing (empty refl)
              ])
      ]

  -- What a call keeps of a credential that was written.
  abbrev Keeps : (AccessCredential → CredentialManager → CredentialManager) → Type 0
  Keeps keep =
      (c : AccessCredential) (m : CredentialManager)
      → ((keep c m).access_token ≡ some c.access_token)
        × ((keep c m).access_expires_at ≡ some c.access_token_expires_at)
        × ((keep c m).store ≡ m.store)

  written-Backed :
      (keep : AccessCredential → CredentialManager → CredentialManager)
      (list : List AccessCredential) (fault : WriteFault) (read_fails remove_fails : Bool) (id : ℕ)
      (name : String) (c : AccessCredential) (m : CredentialManager)
      → Keeps keep
      → Memᴰ c list
      → Backed t list
          (persisted keep c m (
            write t
              (record { read_fails = read_fails; remove_fails = remove_fails; write_fault = fault })
              (stored_credential id name c)
              m.store)).0
  unfolding write clear_memory
  written-Backed keep list no_fault r d id name c m keeps in_list =
      let kept = keeps c _ in
      backed c id name in_list kept.0 kept.1 (ap (λ (s : CredentialStore). s.file) kept.2)
  written-Backed keep list before_replace r d id name c m keeps in_list = empty refl
  written-Backed keep list after_replace r d id name c m keeps in_list = empty refl

  after_refresh-Backed :
      (list : List AccessCredential) (faults : Faults) (answer : Result Exception AccessCredential)
      (c : StoredCredential) (m : CredentialManager)
      → Backed t list m
      → Backed t (answered answer ++ list) (after_refresh t faults answer c m).0
  unfolding after_refresh rotated
  after_refresh-Backed list faults (error (Exception.api exc)) c m b =
      handle_refresh_failure-Backed list faults exc m b
  after_refresh-Backed list faults (error (Exception.other name)) c m b = b
  after_refresh-Backed list faults (ok refreshed) c m b =
      written-Backed keep_refreshed (refreshed ∷ list) faults.write_fault faults.read_fails
        faults.remove_fails _ _ refreshed m (λ c m. (refl, refl, refl)) (head refl)

  after_read-Backed :
      (list : List AccessCredential) (meets : Meets)
      (r : Result ReadError (Option StoredCredential)) (m : CredentialManager)
      → Backed t list m
      → Backed t (answered meets.answer ++ list) (after_read t meets r m).0
  unfolding after_read clear_memory
  after_read-Backed list meets (error os_error) m b = empty refl
  after_read-Backed list meets (error value_error) m b = empty refl
  after_read-Backed list meets (ok none) m b =
      removed_or_raised-Backed _ meets.faults.remove_fails m m (Backed-more _ b) refl refl refl
  after_read-Backed list meets (ok (some c)) m b =
      elim (Bool-cases (leb c.refresh_token_expires_at meets.checked)) [
        | inl late ↦ rw late (
            removed_or_raised-Backed _ meets.faults.remove_fails m m (Backed-more _ b) refl refl
              refl)
        | inr current ↦ rw current (after_refresh-Backed list meets.faults meets.answer c m b)
      ]

  ensure_access_token-Backed :
      (list : List AccessCredential) (minimum : ℕ) (meets : Meets) (m : CredentialManager)
      → Backed t list m
      → Backed t (answered meets.answer ++ list) (ensure_access_token t minimum meets m).0
  unfolding ensure_access_token ensure_locked
  ensure_access_token-Backed list minimum meets m b =
      elim (Bool-cases (has_usable_token minimum meets.called m)) [
        | inl there ↦ rw there (Backed-more _ b)
        | inr gone ↦ rw gone (elim (Bool-cases (has_usable_token minimum meets.locked m)) [
          | inl there ↦ rw there (Backed-more _ b)
          | inr lost ↦ rw lost (after_read-Backed list meets (read t meets.faults m.store) m b)
        ])
      ]

  installed-Backed :
      (list : List AccessCredential) (faults : Faults) (id : Option ℕ) (name : Option String)
      (c : AccessCredential) (m : CredentialManager)
      → Backed t list m
      → Backed t (c ∷ list) (installed t faults id name c m).0
  unfolding install_enrollment
  installed-Backed list faults none name c m b = Backed-more (c ∷ []) b
  installed-Backed list faults (some id) none c m b = Backed-more (c ∷ []) b
  installed-Backed list faults (some id) (some name) c m b =
      written-Backed remember (c ∷ list) faults.write_fault faults.read_fails faults.remove_fails id
        name c m (λ c m. (refl, refl, refl)) (head refl)

  step-Backed :
      (list : List AccessCredential) (call : Call) (m : CredentialManager)
      → Backed t list m
      → Backed t (given call ++ list) (step t call m)
  unfolding install_enrollment
  step-Backed list (ensure minimum meets) m b = ensure_access_token-Backed list minimum meets m b
  step-Backed list (install faults c) m b =
      installed-Backed list faults c.device_id c.device_name c m b

  run-Backed :
      (calls : List Call) (list : List AccessCredential) (m : CredentialManager)
      → Backed t list m
      → Backed t (given_along calls list) (run t calls m)
  run-Backed [] list m b = b
  run-Backed (call ∷ calls) list m b =
      run-Backed calls (given call ++ list) _ (step-Backed list call m b)

  -- Along any calls on a new manager, whatever faults and answers they meet, a token is in memory only
  -- with the expiry of a credential that one of the calls was given, and only while the refresh token
  -- of that credential is the one in the file.
  pub new_credential_manager-Backed :
      (faults : Faults) (store : CredentialStore) (calls : List Call)
      → Backed t (given_along calls []) (run t calls (new_credential_manager t faults store))
  unfolding new_credential_manager
  new_credential_manager-Backed faults store calls = run-Backed calls [] _ (empty refl)
