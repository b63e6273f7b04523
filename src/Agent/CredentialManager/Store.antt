-- ===== src/Agent/CredentialManager/Store.antt =====
-- StoredCredential and CredentialStore of credential_manager.py. A file holds the JSON value that its
-- text decodes to. Modes, access lists and the temporary file show only in the faults.
use time_weaver.Prelude.{
  ℕ, ◌+◌, ◌≤◌, ◌≡◌, ◌≢◌, refl, Bool, true, false, Option, none, some, String, text_append, pos,
  ◌==◌, if◌then◌else◌, Result, ok, error, ◌>>=◌, ◌>>◌, require, is_blank, utc_offset-append,
  text_comparable, nat_comparable, arith, nat_same,
}
use time_weaver.Agent.Json.{
  Json, Members, null, number, text, object, end, member, value_at, or_default,
}
use time_weaver.Agent.Models.{AccessCredential}
use time_weaver.Agent.Models.Parsing.{Formats, zoned, parse_datetime}

pub record StoredCredential : Type 0 where
  pub device_id : ℕ
  pub device_name : String
  pub refresh_token : String
  pub refresh_token_expires_at : ℕ
  pub schema_version : String

abbrev pub stored_credential : ℕ → String → AccessCredential → StoredCredential
stored_credential id name credential = record {
  device_id = id;
  device_name = name;
  refresh_token = credential.refresh_token;
  refresh_token_expires_at = credential.refresh_token_expires_at;
  schema_version = "1";
}

-- The texts of times: the readers, and the part of isoformat before the offset of a time in UTC.
-- Reading a time's text gives the time back.
pub record Times : Type 0 where
  pub formats : Formats
  pub isoformat : ℕ → String
  pub reads_back :
      (t : ℕ) → formats.fromisoformat (text_append (isoformat t) "+00:00") ≡ some (zoned t)

-- value.astimezone(timezone.utc).isoformat().replace("+00:00", "Z")
abbrev pub utc_text : Times → ℕ → String
utc_text t time = text_append (t.isoformat time) "Z"

abbrev pub is_text : String → Option Json → Bool
is_text wanted (some (text s)) = s == wanted
is_text wanted _ = false

abbrev id_of : Option Json → Result String ℕ
id_of (some (number (pos n))) = if n == 0 then error "invalid credential device_id" else ok n
id_of _ = error "invalid credential device_id"

abbrev filled : String → Option Json → Result String String
filled message (some (text s)) = if is_blank s then error message else ok s
filled message _ = error message

abbrev stored_fields : Formats → Members → Result String StoredCredential
stored_fields f fields = do
  device_id ← id_of (value_at "device_id" fields)
  device_name ← filled "invalid credential device_name" (value_at "device_name" fields)
  refresh_token ← filled "invalid credential refresh_token" (value_at "refresh_token" fields)
  require (is_text "1" (value_at "schema_version" fields)) "invalid credential schema_version"
  expires ←
      parse_datetime f (or_default null (value_at "refresh_token_expires_at" fields))
        "refresh_token_expires_at"
  ok (record {
    device_id = device_id;
    device_name = device_name;
    refresh_token = refresh_token;
    refresh_token_expires_at = expires;
    schema_version = "1";
  })

-- StoredCredential.from_json; what it raises is a ValueError, here its message.
unfoldable pub from_json : Formats → Json → Result String StoredCredential
unfolding value_at parse_datetime
from_json f (object fields) = stored_fields f fields
from_json f _ = error "credential file must contain an object"

-- StoredCredential.to_json
unfoldable pub to_json : Times → StoredCredential → Json
to_json t c = object (
    member "schema_version" (text c.schema_version) (
      member "device_id" (number (pos c.device_id)) (
        member "device_name" (text c.device_name) (
          member "refresh_token" (text c.refresh_token) (
            member "refresh_token_expires_at" (text (utc_text t c.refresh_token_expires_at))
              end)))))

-- No file, a file that is not JSON, and a file with a value.
pub data CredentialFile : Type 0 where
  missing malformed : CredentialFile
  holds : Json → CredentialFile

pub record CredentialStore : Type 0 where
  pub file : CredentialFile
  pub replace_count : ℕ

-- Where a write fails, if it does: with the old file in place, or with the new one.
pub data WriteFault : Type 0 where
  no_fault before_replace after_replace : WriteFault

pub record Faults : Type 0 where
  pub read_fails : Bool
  pub remove_fails : Bool
  pub write_fault : WriteFault

pub data ReadError : Type 0 where
  os_error value_error : ReadError

abbrev checked : Result String StoredCredential → Result ReadError (Option StoredCredential)
checked (error message) = error value_error
checked (ok c) = ok (some c)

-- CredentialStore.read
unfoldable pub content : Formats → CredentialFile → Result ReadError (Option StoredCredential)
unfolding from_json
content f missing = ok none
content f malformed = error value_error
content f (holds value) = checked (from_json f value)

unfoldable pub read : Times → Faults → CredentialStore → Result ReadError (Option StoredCredential)
unfolding content
read t faults store = if faults.read_fails then error os_error else content t.formats store.file

abbrev replaced : Times → StoredCredential → CredentialStore → CredentialStore
replaced t c store = record store {
  file = holds (to_json t c);
  replace_count = store.replace_count + 1;
}

abbrev written : Times → StoredCredential → WriteFault → CredentialStore → CredentialStore × Bool
written t c no_fault store = (replaced t c store, true)
written t c before_replace store = (store, false)
written t c after_replace store = (replaced t c store, false)

-- CredentialStore.write: the store, and whether it returns.
unfoldable pub write : Times → Faults → StoredCredential → CredentialStore → CredentialStore × Bool
unfolding to_json
write t faults c store = written t c faults.write_fault store

-- CredentialStore.remove where it returns.
unfoldable pub remove : CredentialStore → CredentialStore
remove store = record store { file = missing }

-- What StoredCredential.from_json accepts.
pub record IsValid (c : StoredCredential) : Type 0 where
  pub id : 1 ≤ c.device_id
  pub name : is_blank c.device_name ≡ false
  pub token : is_blank c.refresh_token ≡ false
  pub version : c.schema_version ≡ "1"

parse_datetime-utc_text :
    (t : Times) (time : ℕ) (name : String)
    → parse_datetime t.formats (text (utc_text t time)) name ≡ ok time
unfolding parse_datetime
parse_datetime-utc_text t time name =
    rw (utc_offset-append (t.isoformat time)) (rw (t.reads_back time) refl)

-- A valid credential is read back from its JSON as it was.
pub from_json-to_json :
    (t : Times) (c : StoredCredential) → IsValid c → from_json t.formats (to_json t c) ≡ ok c
unfolding from_json to_json value_at
from_json-to_json t c v =
    let expires = parse_datetime-utc_text t c.refresh_token_expires_at "refresh_token_expires_at" in
    let id : nat_same c.device_id 0 ≡ false = ground (arith, v.id) in
    rw (id, v.name, v.token, v.version, expires) (ground (arith, v.version))

abbrev content_or_fault :
    Formats → Bool → CredentialFile → Result ReadError (Option StoredCredential)
content_or_fault f fails file = if fails then error os_error else content f file

placed-read :
    (t : Times) (c : StoredCredential) (fault : WriteFault) (fails : Bool) (store : CredentialStore)
    → IsValid c
    → fault ≢ before_replace
    → content_or_fault t.formats fails (written t c fault store).0.file
      ≡ (if fails then error os_error else ok (some c))
unfolding content
placed-read t c before_replace fails store v in_place = absurd (in_place refl)
placed-read t c no_fault fails store v in_place = rw (from_json-to_json t c v) refl
placed-read t c after_replace fails store v in_place = rw (from_json-to_json t c v) refl

-- A valid credential that a write put in place is what the next read finds, also where the write then
-- raised, and a read that the file system refuses raises an OSError and nothing else.
pub read-write :
    (t : Times) (c : StoredCredential) (now later : Faults) (store : CredentialStore)
    → IsValid c
    → now.write_fault ≢ before_replace
    → read t later (write t now c store).0
      ≡ (if later.read_fails then error os_error else ok (some c))
unfolding read write content
read-write t c now later store v in_place =
    placed-read t c now.write_fault later.read_fails store v in_place
