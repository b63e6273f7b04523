-- ===== src/Server/Identity.antt =====
-- AgentIdentityRepository of server/repositories/agent_identity.py: enrollment tokens, devices and
-- their credentials. Times are seconds, digests texts, ids of enrollments texts, and a transaction that
-- raises is rolled back.
pub mod Access
pub mod Steps
pub mod Credentials
pub mod SingleAccess
pub mod Enrollments
mod Examples
use time_weaver.Prelude.{
  ℕ, ◌+◌, ◌*◌, ◌≡◌, Bool, true, false, ◌&&◌, ◌||◌, not, Option, none, some, String, List, [], ◌∷◌,
  ◌++◌, ◌==◌, if◌then◌else◌, leb, ltb, text_comparable, nat_comparable, option_same, is_none,
  Result, ok, error, ◌>>=◌, ◌>>◌, require,
}
use time_weaver.Server.Database.{find_by, update_where}

pub data IdentityRepositoryError : Type 0 where
  group_inactive not_found already_used enrollment_token_invalid : IdentityRepositoryError
  device_inactive invalid_token : IdentityRepositoryError
  device_name_mismatch : (expected actual : String) → IdentityRepositoryError

pub record Group : Type 0 where
  pub group_id : ℕ
  pub status : String

pub record EnrollmentToken : Type 0 where
  pub enrollment_id : String
  pub token_hash : String
  pub device_name : Option String
  pub group_id : ℕ
  pub created_at : ℕ
  pub expires_at : ℕ
  pub used_at : Option ℕ
  pub used_by_device_id : Option ℕ
  pub revoked_at : Option ℕ

pub record Device : Type 0 where
  pub device_id : ℕ
  pub group_id : ℕ
  pub device_name : String
  pub status : String
  pub version : Option String
  pub last_login_at : ℕ

pub record DeviceCredential : Type 0 where
  pub credential_id : ℕ
  pub device_id : ℕ
  pub token_hash : String
  pub issued_at : ℕ
  pub expires_at : ℕ
  pub revoked_at : Option ℕ

-- The tables, with the auto-increments of devices and agent_device_credential.
pub record IdentityStore : Type 0 where
  pub groups : List Group
  pub enrollments : List EnrollmentToken
  pub devices : List Device
  pub credentials : List DeviceCredential
  pub next_device : ℕ
  pub next_credential : ℕ

pub record EnrollmentIssue : Type 0 where
  pub enrollment_id : String
  pub expires_at : ℕ

pub record CredentialIssue : Type 0 where
  pub credential_id : ℕ
  pub device_id : ℕ
  pub device_name : String
  pub access_expires_at : ℕ
  pub refresh_expires_at : ℕ

abbrev pub or_raise {ℓ} :
    {A : Type ℓ} → IdentityRepositoryError → Option A → Result IdentityRepositoryError A
or_raise e none = error e
or_raise e (some row) = ok row

abbrev pub group_of : ℕ → IdentityStore → Option Group
group_of id s = find_by (λ g. g.group_id == id) s.groups

abbrev pub is_active : Option Group → Bool
is_active none = false
is_active (some g) = g.status == "active"

abbrev pub token_of : String → IdentityStore → Option EnrollmentToken
token_of digest s = find_by (λ t. t.token_hash == digest) s.enrollments

abbrev pub credential_of : String → IdentityStore → Option DeviceCredential
credential_of digest s = find_by (λ c. c.token_hash == digest) s.credentials

-- AgentIdentityRepository.issue_enrollment
unfoldable pub issue_enrollment :
    (enrollment_id digest : String)
    → (device_name : Option String) → (group_id ttl_hours : ℕ) → (now : ℕ) → IdentityStore
    → Result IdentityRepositoryError (EnrollmentIssue × IdentityStore)
issue_enrollment id digest name group ttl now s =
    let expires = now + ttl * 3600 in
    if not (is_active (group_of group s))
    then error group_inactive
    else ok (
      record { enrollment_id = id; expires_at = expires },
      record s {
        enrollments =
            s.enrollments
            ++ record {
              enrollment_id = id;
              token_hash = digest;
              device_name = name;
              group_id = group;
              created_at = now;
              expires_at = expires;
              used_at = none;
              used_by_device_id = none;
              revoked_at = none;
            }
              ∷ [];
      },
    )

abbrev or_now : Option ℕ → ℕ → ℕ
or_now none now = now
or_now (some t) now = t

-- AgentIdentityRepository.revoke_enrollment
unfoldable pub revoke_enrollment :
    (enrollment_id : String)
    → (now : ℕ) → IdentityStore
    → Result IdentityRepositoryError (ℕ × IdentityStore)
revoke_enrollment id now s = do
  row ← or_raise not_found (find_by (λ t. t.enrollment_id == id) s.enrollments)
  require (is_none row.used_at) already_used
  ok (
    or_now row.revoked_at now,
    (if is_none row.revoked_at
        then record s {
          enrollments =
              update_where (λ t. t.enrollment_id == id) (λ t. record t { revoked_at = some now })
                s.enrollments;
        }
        else s),
  )

-- UPDATE agent_device_credential SET revoked_at WHERE device_id AND revoked_at IS NULL
unfoldable pub revoke_credentials :
    (device_id now : ℕ) → List DeviceCredential → List DeviceCredential
revoke_credentials device now rows =
    update_where (λ c. c.device_id == device && is_none c.revoked_at)
      (λ c. record c { revoked_at = some now }) rows

-- The revocation of the credentials of a device, and the insert of a new one.
unfoldable pub replace_credential :
    (device_id : ℕ)
    → (refresh_digest : String) → (refresh_ttl_days now : ℕ) → IdentityStore
    → IdentityStore
unfolding revoke_credentials
replace_credential device digest days now s = record s {
  credentials =
      revoke_credentials device now s.credentials
      ++ record {
        credential_id = s.next_credential;
        device_id = device;
        token_hash = digest;
        issued_at = now;
        expires_at = now + days * 86400;
        revoked_at = none;
      }
        ∷ [];
  next_credential = s.next_credential + 1;
}

-- Whether a token may be used: neither used, nor revoked, nor expired.
abbrev pub is_usable : EnrollmentToken → ℕ → Bool
is_usable t now = is_none t.used_at && is_none t.revoked_at && not (leb t.expires_at now)

abbrev pub name_fits : Option String → String → Bool
name_fits none actual = true
name_fits (some expected) actual = expected == actual

abbrev expected_name : Option String → String
expected_name none = ""
expected_name (some expected) = expected

-- The token row that enroll locks, after its checks.
unfoldable pub usable_token :
    (enrollment_digest requested_device_name : String)
    → (now : ℕ) → IdentityStore
    → Result IdentityRepositoryError EnrollmentToken
usable_token digest name now s = do
  token ← or_raise enrollment_token_invalid (token_of digest s)
  require (is_usable token now) enrollment_token_invalid
  require (name_fits token.device_name name)
      (device_name_mismatch (expected_name token.device_name) name)
  require (is_active (group_of token.group_id s)) enrollment_token_invalid
  ok token

abbrev is_device : String → ℕ → Device → Bool
is_device name group d = d.device_name == name && d.group_id == group

-- The device that enroll updates or inserts: its id, and the tables.
unfoldable pub enrolled_device :
    (device_name : String)
    → (group_id : ℕ) → (agent_version : Option String) → (now : ℕ) → IdentityStore
    → Result IdentityRepositoryError (ℕ × IdentityStore)
enrolled_device name group version now s = elim (find_by (is_device name group) s.devices) [
  | some device ↦
      if not (device.status == "active")
      then error device_inactive
      else ok (
        device.device_id,
        record s {
          devices =
              update_where (λ d. d.device_id == device.device_id)
                (λ d. record d { version = version; last_login_at = now }) s.devices;
        },
      )
  | none ↦ ok (
    s.next_device,
    record s {
      devices =
          s.devices
          ++ record {
            device_id = s.next_device;
            group_id = group;
            device_name = name;
            status = "active";
            version = version;
            last_login_at = now;
          }
            ∷ [];
      next_device = s.next_device + 1;
    },
  )
]
