-- ===== src/Agent/CredentialManager/Fates.antt =====
-- What a call of ensure_access_token makes of the credential file.
use time_weaver.Prelude.{
  ℕ, ◌≤◌, ◌≡◌, refl, inl, inr, Bool, true, false, Option, none, some, [], ◌∷◌, ok, error, Result,
  Bool-cases, contains, leb, arith, if◌then◌else◌, text_comparable,
}
use time_weaver.Agent.ApiErrors.{ApiClientError, Exception}
use time_weaver.Agent.Models.{AccessCredential}
use time_weaver.Agent.CredentialManager.Store.{
  StoredCredential, CredentialFile, ReadError, WriteFault, no_fault, before_replace, after_replace,
  missing, holds, os_error, value_error, Times, content, read, write, remove, to_json,
}
use time_weaver.Agent.CredentialManager.{
  CredentialManager, Meets, has_usable_token, clear_memory, removed_or_raised,
  handle_refresh_failure, rotated, persisted, keep_refreshed, after_refresh, after_read,
  ensure_locked, ensure_access_token,
}

-- Why a credential may go: the file has none or one that is not valid, it expired, or the server says
-- that its token is invalid or expired.
pub data IsOver (t : Times) (meets : Meets) (file : CredentialFile) : Type 0 where
  corrupt : content t.formats file ≡ error value_error → IsOver t meets file
  absent : content t.formats file ≡ ok none → IsOver t meets file
  expired :
      (c : StoredCredential)
      → content t.formats file ≡ ok (some c)
      → c.refresh_token_expires_at ≤ meets.checked
      → IsOver t meets file
  told :
      (exc : ApiClientError)
      → meets.answer ≡ error (Exception.api exc)
      → contains exc.code ("invalid_token" ∷ "token_expired" ∷ []) ≡ true
      → IsOver t meets file

-- What a call may make of a file: it stays; its credential is replaced by the one that the server
-- returned for it; or it goes, for one of the reasons above.
pub data Fate (t : Times) (meets : Meets) (file : CredentialFile) : CredentialFile → Type 0 where
  stays : Fate t meets file file
  renewed :
      (refreshed : AccessCredential) (c : StoredCredential)
      → meets.answer ≡ ok refreshed
      → content t.formats file ≡ ok (some c)
      → Fate t meets file (holds (to_json t (rotated refreshed c)))
  goes : IsOver t meets file → Fate t meets file missing

module _ (t : Times) (meets : Meets) where
  removed_or_raised-Fate :
      (fails : Bool) (m : CredentialManager)
      → IsOver t meets m.store.file
      → Fate t meets m.store.file (removed_or_raised fails m).0.store.file
  unfolding clear_memory remove
  removed_or_raised-Fate true m over = stays
  removed_or_raised-Fate false m over = goes over

  handle_refresh_failure-Fate :
      (exc : ApiClientError) (m : CredentialManager)
      → meets.answer ≡ error (Exception.api exc)
      → Fate t meets m.store.file (handle_refresh_failure meets.faults exc m).0.store.file
  unfolding handle_refresh_failure clear_memory
  handle_refresh_failure-Fate exc m e =
      elim (Bool-cases (contains exc.code ("invalid_token" ∷ "token_expired" ∷ []))) [
        | inl gone ↦ rw gone (removed_or_raised-Fate meets.faults.remove_fails _ (told exc e gone))
        | inr other ↦
            rw other
              (elim (Bool-cases (contains exc.code ("device_inactive" ∷ "device_revoked" ∷ []))) [
                | inl inactive ↦ rw inactive stays
                | inr passing ↦ rw passing stays
              ])
      ]

  written-Fate :
      (fault : WriteFault) (refreshed : AccessCredential) (c : StoredCredential)
      (m : CredentialManager)
      → meets.answer ≡ ok refreshed
      → content t.formats m.store.file ≡ ok (some c)
      → Fate t meets m.store.file
          (persisted keep_refreshed refreshed m (
            write t
              (record { read_fails = false; remove_fails = false; write_fault = fault })
              (rotated refreshed c)
              m.store)).0.store.file
  unfolding write clear_memory
  written-Fate no_fault refreshed c m e at = renewed refreshed c e at
  written-Fate before_replace refreshed c m e at = stays
  written-Fate after_replace refreshed c m e at = renewed refreshed c e at

  after_refresh-Fate :
      (answer : Result Exception AccessCredential) (c : StoredCredential) (m : CredentialManager)
      → meets.answer ≡ answer
      → content t.formats m.store.file ≡ ok (some c)
      → Fate t meets m.store.file (after_refresh t meets.faults answer c m).0.store.file
  unfolding after_refresh write
  after_refresh-Fate (error (Exception.api exc)) c m e at = handle_refresh_failure-Fate exc m e
  after_refresh-Fate (error (Exception.other name)) c m e at = stays
  after_refresh-Fate (ok refreshed) c m e at =
      written-Fate meets.faults.write_fault refreshed c m e at

  value_error-Fate :
      (fails : Bool) (m : CredentialManager)
      → content t.formats m.store.file ≡ error value_error
      → Fate t meets m.store.file
          (if fails then m else record m { store = remove m.store }).store.file
  unfolding remove
  value_error-Fate true m at = stays
  value_error-Fate false m at = goes (corrupt at)

  content-Fate :
      (r : Result ReadError (Option StoredCredential)) (m : CredentialManager)
      → content t.formats m.store.file ≡ r
      → Fate t meets m.store.file (after_read t meets r m).0.store.file
  unfolding after_read clear_memory
  content-Fate (error os_error) m at = stays
  content-Fate (error value_error) m at = value_error-Fate meets.faults.remove_fails m at
  content-Fate (ok none) m at = removed_or_raised-Fate meets.faults.remove_fails m (absent at)
  content-Fate (ok (some c)) m at =
      elim (Bool-cases (leb c.refresh_token_expires_at meets.checked)) [
        | inl late ↦ rw late (
            removed_or_raised-Fate meets.faults.remove_fails m
              (expired c at (ground (arith, late))))
        | inr current ↦ rw current (after_refresh-Fate meets.answer c m refl at)
      ]

  read-Fate :
      (fails : Bool) (m : CredentialManager)
      → Fate t meets m.store.file
          (after_read t meets
            (if fails then error os_error else content t.formats m.store.file)
            m).0.store.file
  unfolding after_read clear_memory
  read-Fate true m = stays
  read-Fate false m = unfold after_read in content-Fate (content t.formats m.store.file) m refl

  -- Whatever a call of ensure_access_token meets, the credential file stays as it was, or it holds the
  -- credential that the server returned for the one it held, or it is gone, and then it held none or
  -- one that was invalid or expired, or the server refused its token as invalid or expired: no other
  -- failure deletes it.
  pub ensure_access_token-Fate :
      (minimum : ℕ) (m : CredentialManager)
      → Fate t meets m.store.file (ensure_access_token t minimum meets m).0.store.file
  unfolding ensure_access_token ensure_locked read
  ensure_access_token-Fate minimum m = elim (Bool-cases (has_usable_token minimum meets.called m)) [
    | inl there ↦ rw there stays
    | inr gone ↦ rw gone (elim (Bool-cases (has_usable_token minimum meets.locked m)) [
      | inl there ↦ rw there stays
      | inr lost ↦ rw lost (read-Fate meets.faults.read_fails m)
    ])
  ]
