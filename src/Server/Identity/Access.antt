-- ===== src/Server/Identity/Access.antt =====
-- The rest of AgentIdentityRepository: enroll, rotate and get_access_identity; and of
-- server/services/agent/identity_service.py the status of an enrollment and what verify_access makes of
-- decoded claims. Decoding a JWT is not modelled.
use time_weaver.Prelude.{
  ℕ, ◌+◌, ◌*◌, Bool, ◌&&◌, not, Option, none, some, String, List, [], ◌∷◌, ◌==◌, if◌then◌else◌, leb,
  text_comparable, nat_comparable, is_none, Result, ok, error, ◌>>=◌, ◌>>◌, require,
}
use time_weaver.Server.Database.{find_by, update_where}
use time_weaver.Server.Identity.{
  IdentityRepositoryError, enrollment_token_invalid, device_inactive, invalid_token,
  EnrollmentToken, Device, DeviceCredential, IdentityStore, CredentialIssue, or_raise,
  credential_of, replace_credential, is_usable, usable_token, enrolled_device,
}

abbrev pub usable_id : String → ℕ → EnrollmentToken → Bool
usable_id id now t = t.enrollment_id == id && is_usable t now

unfoldable pub affected : (EnrollmentToken → Bool) → List EnrollmentToken → ℕ
affected test [] = 0
affected test (t ∷ ts) = (if test t then 1 else 0) + affected test ts

-- The last update of enroll, which must affect one row.
unfoldable pub mark_used :
    (enrollment_id : String)
    → (device_id now : ℕ) → IdentityStore
    → Result IdentityRepositoryError IdentityStore
unfolding affected
mark_used id device now s =
    if not (affected (usable_id id now) s.enrollments == 1)
    then error enrollment_token_invalid
    else ok (record s {
      enrollments =
          update_where (usable_id id now)
            (λ t. record t { used_at = some now; used_by_device_id = some device }) s.enrollments;
    })

abbrev issued :
    (credential device : ℕ) → String → (access_minutes refresh_days now : ℕ) → CredentialIssue
issued credential device name access refresh now = record {
  credential_id = credential;
  device_id = device;
  device_name = name;
  access_expires_at = now + access * 60;
  refresh_expires_at = now + refresh * 86400;
}

-- AgentIdentityRepository.enroll
unfoldable pub enroll :
    (enrollment_digest requested_device_name : String)
    → (agent_version : Option String) → (refresh_digest : String)
    → (access_ttl_minutes refresh_ttl_days now : ℕ) → IdentityStore
    → Result IdentityRepositoryError (CredentialIssue × IdentityStore)
unfolding usable_token enrolled_device replace_credential mark_used
enroll digest name version refresh access_ttl refresh_ttl now s = do
  token ← usable_token digest name now s
  device ← enrolled_device name token.group_id version now s
  marked ←
      mark_used token.enrollment_id device.0 now
        (replace_credential device.0 refresh refresh_ttl now device.1)
  ok (issued s.next_credential device.0 name access_ttl refresh_ttl now, marked)

-- Whether a credential row may be used: neither revoked nor expired.
abbrev pub is_current : DeviceCredential → ℕ → Bool
is_current c now = is_none c.revoked_at && not (leb c.expires_at now)

abbrev pub device_of : ℕ → IdentityStore → Option Device
device_of id s = find_by (λ d. d.device_id == id) s.devices

-- AgentIdentityRepository.rotate
unfoldable pub rotate :
    (refresh_digest new_refresh_digest : String)
    → (access_ttl_minutes refresh_ttl_days now : ℕ) → IdentityStore
    → Result IdentityRepositoryError (CredentialIssue × IdentityStore)
unfolding replace_credential
rotate digest new_digest access_ttl refresh_ttl now s = do
  current ← or_raise invalid_token (credential_of digest s)
  require (is_current current now) invalid_token
  device ← or_raise device_inactive (device_of current.device_id s)
  require (device.status == "active") device_inactive
  ok (
    issued s.next_credential current.device_id device.device_name access_ttl refresh_ttl now,
    replace_credential current.device_id new_digest refresh_ttl now s,
  )

-- AgentIdentityRepository.get_access_identity
unfoldable pub get_access_identity :
    (credential_id device_id : ℕ) → IdentityStore → Option (DeviceCredential × Device)
get_access_identity credential device s =
    elim (find_by (λ c. c.credential_id == credential && c.device_id == device) s.credentials) [
      | none ↦ none
      | some c ↦ elim (device_of device s) [ none ↦ none | some d ↦ some (c, d) ]
    ]

pub record DeviceIdentity : Type 0 where
  pub device_id : ℕ
  pub device_name : String
  pub credential_id : ℕ

-- AgentIdentityService.verify_access after the claims are decoded; none is the error device_revoked.
unfoldable pub verify_access :
    (credential_id device_id now : ℕ) → IdentityStore → Option DeviceIdentity
unfolding get_access_identity
verify_access credential device now s = elim (get_access_identity credential device s) [
  | none ↦ none
  | some (c, d) ↦
      if not (is_current c now)
      then none
      else if not (d.status == "active")
      then none
      else some
          (record { device_id = device; device_name = d.device_name; credential_id = credential })
]

-- The status that AgentIdentityService.list_enrollments gives a row.
unfoldable pub enrollment_status : EnrollmentToken → (now : ℕ) → String
enrollment_status t now =
    if not (is_none t.used_at)
    then "used"
    else if not (is_none t.revoked_at)
    then "revoked"
    else if leb t.expires_at now
    then "expired"
    else "unused"
