-- ===== src/Server/Identity/Credentials.antt =====
-- A device has at most one credential that is not revoked, and a revoked one stays so.
use time_weaver.Prelude.{
  ℕ, ◌+◌, ◌≤◌, ◌≡◌, refl, ap, ◌∙◌, Bool, true, false, ◌&&◌, Option, some, String, List, [], ◌∷◌,
  ◌++◌, ◌==◌, if◌then◌else◌, text_comparable, nat_comparable, is_none, ok, error, arith,
  Result-cases, Option-cases, inl, inr, returned-first,
}
use time_weaver.Server.Database.{find_by, update_where, find_by-update_where, find_by-append}
use time_weaver.Server.Identity.{
  invalid_token, DeviceCredential, IdentityStore, CredentialIssue, credential_of, issue_enrollment,
  revoke_enrollment, revoke_credentials, replace_credential, usable_token, enrolled_device,
}
use time_weaver.Server.Identity.Access.{enroll, rotate, mark_used, is_current}
use time_weaver.Server.Identity.Steps.{Step, take_step, take_steps, committed}

abbrev is_live : ℕ → DeviceCredential → Bool
is_live device c = c.device_id == device && is_none c.revoked_at

-- How many credentials of a device are not revoked.
unfoldable pub live : (device_id : ℕ) → List DeviceCredential → ℕ
live device [] = 0
live device (c ∷ cs) = (if is_live device c then 1 else 0) + live device cs

live-append :
    (device : ℕ) (cs : List DeviceCredential) (c : DeviceCredential)
    → live device (cs ++ c ∷ []) ≡ live device cs + (if is_live device c then 1 else 0)
unfolding live
live-append device [] c = ground arith
live-append device (r ∷ cs) c = ground (arith, live-append device cs c)

live-revoke_credentials :
    (device other now : ℕ) (cs : List DeviceCredential)
    → live device (revoke_credentials other now cs)
      ≡ (if other == device then 0 else live device cs)
unfolding live revoke_credentials update_where
live-revoke_credentials device other now [] = ground arith
live-revoke_credentials device other now (c ∷ cs) =
    ground (arith, live-revoke_credentials device other now cs)

-- What a transaction may do to the credentials.
pub record CredentialsKept (a b : IdentityStore) : Type 0 where
  pub single :
      ((device : ℕ) → live device a.credentials ≤ 1) → (device : ℕ) → live device b.credentials ≤ 1
  pub revoked :
      (digest : String) (c : DeviceCredential)
      → credential_of digest a ≡ some c
      → is_none c.revoked_at ≡ false
      → credential_of digest b ≡ some c

same_credentials : (a b : IdentityStore) → b.credentials ≡ a.credentials → CredentialsKept a b
same_credentials a b e = record {
  single = λ h device. rw e (h device);
  revoked = λ digest c at over. rw e at;
}

kept_revoked :
    (digest : String) (device now : ℕ) (cs : List DeviceCredential) (c : DeviceCredential)
    → find_by (λ r. r.token_hash == digest) cs ≡ some c
    → is_none c.revoked_at ≡ false
    → find_by (λ r. r.token_hash == digest) (revoke_credentials device now cs) ≡ some c
unfolding revoke_credentials find_by update_where
kept_revoked digest device now [] c at over = at
kept_revoked digest device now (r ∷ cs) c at over =
    ground (arith, at, over, kept_revoked digest device now cs c)

replace_credential-CredentialsKept :
    (device : ℕ) (digest : String) (days now : ℕ) (a b : IdentityStore)
    → b.credentials ≡ a.credentials
    → CredentialsKept a (replace_credential device digest days now b)
unfolding replace_credential
replace_credential-CredentialsKept device digest days now a b e = record {
  single = λ h other.
      rw (e, live-append, live-revoke_credentials other device now a.credentials)
        (ground (arith, h other));
  revoked = λ digest' c at over. rw e (
      find_by-append _ (revoke_credentials device now a.credentials) _ c
        (kept_revoked digest' device now a.credentials c at over));
}

CredentialsKept-of :
    (a b c : IdentityStore)
    → CredentialsKept a b
    → c.credentials ≡ b.credentials
    → CredentialsKept a c
CredentialsKept-of a b c h e = record {
  single = λ s device. rw e (h.single s device);
  revoked = λ digest r at over. rw e (h.revoked digest r at over);
}

-- What rotate does when it returns: the row that it found was current, and it is replaced.
pub record Rotated (digest new_digest : String) (days now : ℕ) (s s' : IdentityStore) : Type 0 where
  pub current : DeviceCredential
  pub stored : credential_of digest s ≡ some current
  pub usable : is_current current now ≡ true
  pub replaced : s' ≡ replace_credential current.device_id new_digest days now s

pub rotate-Rotated :
    (digest new_digest : String) (minutes days now : ℕ) (s s' : IdentityStore) (i : CredentialIssue)
    → rotate digest new_digest minutes days now s ≡ ok (i, s')
    → Rotated digest new_digest days now s s'
unfolding rotate
rotate-Rotated digest new_digest minutes days now s s' i h =
    elim (Option-cases (credential_of digest s)) [
      | inl absent ↦ let bad : true ≡ false = ground (arith, absent, h) in cc bad
      | inr (c, at) ↦ record {
        current = c;
        stored = at;
        usable = ground (arith, at, h);
        replaced = ground (arith, at, h);
      }
    ]

rotate-CredentialsKept :
    (digest new_digest : String) (minutes days now : ℕ) (s : IdentityStore)
    → CredentialsKept s (committed (rotate digest new_digest minutes days now s) s)
rotate-CredentialsKept digest new_digest minutes days now s =
    elim (Result-cases (rotate digest new_digest minutes days now s)) [
      | inl (e, at) ↦ rw at (same_credentials s s refl)
      | inr ((i, s'), at) ↦
          let r = rotate-Rotated digest new_digest minutes days now s s' i at in
          rw at (
            CredentialsKept-of s _ s'
              (replace_credential-CredentialsKept r.current.device_id new_digest days now s s refl)
              (ap (λ x. x.credentials) r.replaced))
    ]

enrolled_device-credentials :
    (name : String) (group : ℕ) (version : Option String) (now : ℕ) (s s' : IdentityStore) (id : ℕ)
    → enrolled_device name group version now s ≡ ok (id, s')
    → s'.credentials ≡ s.credentials
unfolding enrolled_device
enrolled_device-credentials name group version now s s' id h = ground (arith, h)

mark_used-credentials :
    (id : String) (device now : ℕ) (s s' : IdentityStore)
    → mark_used id device now s ≡ ok s'
    → s'.credentials ≡ s.credentials
unfolding mark_used
mark_used-credentials id device now s s' h = ground (arith, h)

enroll-kept :
    (digest name : String) (version : Option String) (refresh : String) (minutes days now : ℕ)
    (s s' : IdentityStore) (i : CredentialIssue)
    → enroll digest name version refresh minutes days now s ≡ ok (i, s')
    → CredentialsKept s s'
unfolding enroll
enroll-kept digest name version refresh minutes days now s s' i h =
    let (token, _, enrolling) = returned-first (usable_token digest name now s) _ h in
    let (device, enrolled, marking) =
      returned-first (enrolled_device name token.group_id version now s) _ enrolling in
    let replaced = replace_credential device.0 refresh days now device.1 in
    let (marked, used, done) =
      returned-first (mark_used token.enrollment_id device.0 now replaced) _ marking in
    let last : s' ≡ marked = ground (arith, done) in
    CredentialsKept-of s replaced s'
      (replace_credential-CredentialsKept device.0 refresh days now s device.1
        (enrolled_device-credentials name token.group_id version now s device.1 device.0 enrolled))
      (ap (λ x. x.credentials) last
        ∙ mark_used-credentials token.enrollment_id device.0 now replaced marked used)

take_step-CredentialsKept :
    (step : Step) (now : ℕ) (s : IdentityStore) → CredentialsKept s (take_step step now s)
unfolding take_step
take_step-CredentialsKept (Step.issues id digest name group ttl) now s =
    unfold issue_enrollment in same_credentials s _ (ground arith)
take_step-CredentialsKept (Step.revokes id) now s =
    unfold revoke_enrollment in same_credentials s _ (ground arith)
take_step-CredentialsKept (Step.rotates digest new_digest minutes days) now s =
    rotate-CredentialsKept digest new_digest minutes days now s
take_step-CredentialsKept (Step.enrolls digest name version refresh minutes days) now s =
    elim (Result-cases (enroll digest name version refresh minutes days now s)) [
      | inl (e, at) ↦ rw at (same_credentials s s refl)
      | inr ((i, s'), at) ↦
          rw at (enroll-kept digest name version refresh minutes days now s s' i at)
    ]

pub take_steps-CredentialsKept :
    (steps : List (Step × ℕ)) (s : IdentityStore) → CredentialsKept s (take_steps steps s)
take_steps-CredentialsKept [] s = same_credentials s s refl
take_steps-CredentialsKept ((step, now) ∷ steps) s = record {
  single = λ h.
      (take_steps-CredentialsKept steps (take_step step now s)).single
        ((take_step-CredentialsKept step now s).single h);
  revoked = λ digest c at over.
      (take_steps-CredentialsKept steps (take_step step now s)).revoked digest c
        ((take_step-CredentialsKept step now s).revoked digest c at over) over;
}

revoked_current :
    (digest new_digest : String) (days now : ℕ) (s s' : IdentityStore)
    → Rotated digest new_digest days now s s'
    → (c : DeviceCredential) × (credential_of digest s' ≡ some c) × (is_none c.revoked_at ≡ false)
unfolding replace_credential revoke_credentials
revoked_current digest new_digest days now s s' r =
    let over = record r.current { revoked_at = some now } in
    let live_ : is_none r.current.revoked_at ≡ true = ground (arith, r.usable) in
    let hit : is_live r.current.device_id r.current ≡ true = ground (arith, live_) in
    (
      over,
      rw r.replaced (
          find_by-append _ _ _ over
            (find_by-update_where _ _ _ s.credentials (λ c. refl) ∙ rw (r.stored, hit) refl)),
      refl,
    )

-- A refresh token is rotated at most once: after a rotation, and whatever transactions follow, the same
-- token is an invalid token.
pub rotate-once :
    (digest new_digest other : String) (minutes days now minutes' days' now' : ℕ)
    (s s' : IdentityStore) (i : CredentialIssue) (steps : List (Step × ℕ))
    → rotate digest new_digest minutes days now s ≡ ok (i, s')
    → rotate digest other minutes' days' now' (take_steps steps s') ≡ error invalid_token
rotate-once digest new_digest other minutes days now minutes' days' now' s s' i steps h =
    let (c, at, over) =
      revoked_current digest new_digest days now s s'
        (rotate-Rotated digest new_digest minutes days now s s' i h) in
    let stays = (take_steps-CredentialsKept steps s').revoked digest c at over in
    unfold rotate in rw (stays, over) refl
