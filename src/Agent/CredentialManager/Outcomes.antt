-- ===== src/Agent/CredentialManager/Outcomes.antt =====
-- What a call of ensure_access_token leaves in memory, against what it returns.
use time_weaver.Prelude.{
  ℕ, ◌+◌, ◌≤◌, ◌≡◌, refl, ap, Bool, true, false, not, Option, none, some, inl, inr, ok, error,
  Result, Bool-cases, is_none, contains, leb, arith, text_comparable, ◌∷◌, [], String,
}
use time_weaver.Agent.ApiErrors.{ApiClientError, Exception}
use time_weaver.Agent.Models.{AccessCredential}
use time_weaver.Agent.CredentialManager.Store.{
  StoredCredential, CredentialStore, ReadError, os_error, value_error, Faults, Times, read, write,
}
use time_weaver.Agent.CredentialManager.{
  CredentialOutcome, CredentialManager, Called, Meets, is_ok, held, usable, has_usable_token,
  clear_memory, removed_or_raised, handle_refresh_failure, rotated, persisted, keep_refreshed,
  after_refresh, after_read, ensure_locked, ensure_access_token,
}

-- An outcome tells of the memory: its token and expiry, and a reason exactly if there is no token. A
-- call that raises, which no ApiClientError does, leaves the memory and the store as they were before.
abbrev pub Settles : CredentialManager → Called → Type 0
Settles before (m, ok outcome) =
    (outcome.access_token ≡ m.access_token)
    × (outcome.access_token_expires_at ≡ m.access_expires_at)
    × (is_none outcome.access_token ≡ not (is_none outcome.reason))
Settles before (m, error (Exception.api exc)) = ⊥
Settles before (m, error (Exception.other name)) =
    (m.access_token ≡ before.access_token)
    × (m.access_expires_at ≡ before.access_expires_at)
    × (m.store ≡ before.store)

removed_or_raised-Settles :
    (fails : Bool) (before m : CredentialManager)
    → m.access_token ≡ before.access_token
    → m.access_expires_at ≡ before.access_expires_at
    → m.store ≡ before.store
    → Settles before (removed_or_raised fails m)
unfolding clear_memory
removed_or_raised-Settles true before m token expires store = (token, expires, store)
removed_or_raised-Settles false before m token expires store = (refl, refl, refl)

persisted-Settles :
    (credential : AccessCredential) (before m : CredentialManager) (r : CredentialStore × Bool)
    → Settles before (persisted keep_refreshed credential m r)
unfolding clear_memory
persisted-Settles credential before m (store, true) = (refl, refl, refl)
persisted-Settles credential before m (store, false) = (refl, refl, refl)

handle_refresh_failure-Settles :
    (faults : Faults) (exc : ApiClientError) (m : CredentialManager)
    → Settles m (handle_refresh_failure faults exc m)
unfolding handle_refresh_failure clear_memory
handle_refresh_failure-Settles faults exc m =
    elim (Bool-cases (contains exc.code ("invalid_token" ∷ "token_expired" ∷ []))) [
      | inl gone ↦ rw gone (removed_or_raised-Settles faults.remove_fails m _ refl refl refl)
      | inr other ↦
          rw other
            (elim (Bool-cases (contains exc.code ("device_inactive" ∷ "device_revoked" ∷ []))) [
              | inl inactive ↦ rw inactive (refl, refl, refl)
              | inr passing ↦ rw passing (refl, refl, refl)
            ])
    ]

after_refresh-Settles :
    (t : Times) (faults : Faults) (answer : Result Exception AccessCredential)
    (stored : StoredCredential) (m : CredentialManager)
    → Settles m (after_refresh t faults answer stored m)
unfolding after_refresh
after_refresh-Settles t faults (error (Exception.api exc)) stored m =
    handle_refresh_failure-Settles faults exc m
after_refresh-Settles t faults (error (Exception.other name)) stored m = (refl, refl, refl)
after_refresh-Settles t faults (ok refreshed) stored m =
    persisted-Settles refreshed m m (write t faults (rotated refreshed stored) m.store)

after_read-Settles :
    (t : Times) (meets : Meets) (r : Result ReadError (Option StoredCredential))
    (m : CredentialManager)
    → Settles m (after_read t meets r m)
unfolding after_read clear_memory
after_read-Settles t meets (error os_error) m = (refl, refl, refl)
after_read-Settles t meets (error value_error) m = (refl, refl, refl)
after_read-Settles t meets (ok none) m =
    removed_or_raised-Settles meets.faults.remove_fails m m refl refl refl
after_read-Settles t meets (ok (some stored)) m =
    elim (Bool-cases (leb stored.refresh_token_expires_at meets.checked)) [
      | inl expired ↦
          rw expired (removed_or_raised-Settles meets.faults.remove_fails m m refl refl refl)
      | inr current ↦ rw current (after_refresh-Settles t meets.faults meets.answer stored m)
    ]

usable_some :
    (minimum now : ℕ) (token : Option String) (expires : Option ℕ)
    → usable minimum now token expires ≡ true
    → is_none token ≡ false
usable_some minimum now none expires h = ground arith
usable_some minimum now (some token) expires h = refl

held-Settles :
    (minimum now : ℕ) (m : CredentialManager)
    → has_usable_token minimum now m ≡ true
    → Settles m (m, ok (held m))
unfolding has_usable_token
held-Settles minimum now m h =
    (refl, refl, usable_some minimum now m.access_token m.access_expires_at h)

ensure_locked-Settles :
    (t : Times) (minimum : ℕ) (meets : Meets) (m : CredentialManager)
    → Settles m (ensure_locked t minimum meets m)
unfolding ensure_locked
ensure_locked-Settles t minimum meets m =
    elim (Bool-cases (has_usable_token minimum meets.locked m)) [
      | inl there ↦ rw there (held-Settles minimum meets.locked m there)
      | inr gone ↦ rw gone (after_read-Settles t meets (read t meets.faults m.store) m)
    ]

-- Whatever a call of ensure_access_token meets, the outcome that it returns has the token and the
-- expiry that are in memory afterwards, and a reason exactly if there is no token; a call that raises
-- leaves the token, its expiry and the store as they were; and none raises an ApiClientError.
pub ensure_access_token-Settles :
    (t : Times) (minimum : ℕ) (meets : Meets) (m : CredentialManager)
    → Settles m (ensure_access_token t minimum meets m)
unfolding ensure_access_token
ensure_access_token-Settles t minimum meets m =
    elim (Bool-cases (has_usable_token minimum meets.called m)) [
      | inl there ↦ rw there (held-Settles minimum meets.called m there)
      | inr gone ↦ rw gone (ensure_locked-Settles t minimum meets m)
    ]

usable-Settles :
    (minimum now expires : ℕ) (outcome : CredentialOutcome) (before m : CredentialManager)
    → Settles before (m, ok outcome)
    → is_ok outcome ≡ true
    → outcome.access_token_expires_at ≡ some expires
    → now + minimum ≤ expires
    → (has_usable_token minimum now m ≡ true) × (held m ≡ outcome)
unfolding has_usable_token
usable-Settles minimum now expires outcome before m s good until time =
    ground (arith, s.0, s.1, s.2)

-- After a call that returns a token, a call at a time that leaves the token its minimum of validity
-- returns the same outcome and changes nothing, whatever it meets: no second refresh is made.
pub ensure_access_token_again :
    (t : Times) (minimum : ℕ) (meets again : Meets) (m after : CredentialManager)
    (outcome : CredentialOutcome) (expires : ℕ)
    → ensure_access_token t minimum meets m ≡ (after, ok outcome)
    → is_ok outcome ≡ true
    → outcome.access_token_expires_at ≡ some expires
    → again.called + minimum ≤ expires
    → ensure_access_token t minimum again after ≡ (after, ok outcome)
unfolding ensure_access_token
ensure_access_token_again t minimum meets again m after outcome expires h good until time =
    let s : Settles m (after, ok outcome) =
      rw h at (ensure_access_token-Settles t minimum meets m) in
    let found = usable-Settles minimum again.called expires outcome m after s good until time in
    rw found.0 (ap (λ (o : CredentialOutcome). (after, ok o)) found.1)
