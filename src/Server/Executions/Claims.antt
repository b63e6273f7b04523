-- ===== src/Server/Executions/Claims.antt =====
-- What it is to hold a claim of a manual run, and that claims keep and make it.
use time_weaver.Prelude.{
  ℕ, ◌+◌, ◌≡◌, ◌<◌, refl, ◌∙◌, Bool, true, false, Option, none, some, String, ◌==◌, if◌then◌else◌,
  text_comparable, nat_comparable, Bool-cases, inl, inr, arith, Result, ok, error, int_comparable,
  Result-cases, returned-first,
}
use time_weaver.Server.Database.{ManualExecution, Database, find_by-update_miss, find_by-update_hit}
use time_weaver.Server.Executions.{
  ExecutionRepositoryError, ClaimRecord, claim_manual_run, manual_of, set_manual, claim_ttl,
  claim_row, take_claim, is_expired,
}
use time_weaver.Server.Executions.Operations.{committed}

-- The run is processed under the token, and its claim expires then.
pub record IsHeld (id : ℕ) (token : String) (expires : ℕ) (db : Database) : Type 0 where
  pub manual : ManualExecution
  pub stored : manual_of id db ≡ some manual
  pub processed : manual.status ≡ "processing"
  pub owned : manual.claim_token ≡ some token
  pub until : manual.claim_expires_at ≡ some expires

pub manual_of-set_manual_other :
    (id other now : ℕ) (status : String) (token : Option String) (expires : Option ℕ)
    (db : Database)
    → (id == other) ≡ false
    → manual_of id (set_manual other status token expires now db) ≡ manual_of id db
manual_of-set_manual_other id other now status token expires db differ =
    find_by-update_miss _ _ _ db.manuals (λ m. refl) (λ m is. ground arith)

pub IsHeld-same :
    (id : ℕ) (token : String) (expires : ℕ) (db db' : Database)
    → manual_of id db' ≡ manual_of id db
    → IsHeld id token expires db
    → IsHeld id token expires db'
IsHeld-same id token expires db db' same h = record {
  manual = h.manual;
  stored = same ∙ h.stored;
  processed = h.processed;
  owned = h.owned;
  until = h.until;
}

pub unexpired :
    (id : ℕ) (token : String) (expires now : ℕ) (db : Database) (h : IsHeld id token expires db)
    → now < expires
    → is_expired h.manual now ≡ false
unexpired id token expires now db h live = rw (h.processed, h.until) (ground arith)

abbrev pub is_error {ℓ} : {A : Type ℓ} → Result ExecutionRepositoryError A → Bool
is_error (error e) = true
is_error (ok a) = false

claim_row-manual :
    (device id : ℕ) (db : Database) (m : ManualExecution)
    → claim_row device id db ≡ ok m
    → manual_of id db ≡ some m
unfolding claim_row
claim_row-manual device id db m h = ground arith

-- No device claims a run that is held.
pub claim-held :
    (device id : ℕ) (token other : String) (expires now : ℕ) (db : Database)
    → IsHeld id token expires db
    → now < expires
    → is_error (claim_manual_run device id other now db) ≡ true
unfolding claim_manual_run
claim-held device id token other expires now db h live =
    elim (Result-cases (claim_row device id db)) [
      | inl (e, at) ↦ rw at refl
      | inr (m, at) ↦
          let same : m ≡ h.manual = ground (arith, claim_row-manual device id db m at, h.stored) in
          rw (at, same, h.processed, h.until) (unfold take_claim in ground (arith, live))
    ]

taken-other :
    (other now id : ℕ) (token : String) (m : ManualExecution) (db : Database)
    → (id == other) ≡ false
    → manual_of id (committed (take_claim other token now m db) db) ≡ manual_of id db
unfolding take_claim
taken-other other now id token m db isnt =
    let claimed = λ (b : Database).
      manual_of-set_manual_other id other now "processing" (some token) (some (now + claim_ttl)) b
        isnt in
    let freed = manual_of-set_manual_other id other now "wait" none none db isnt in
    elim (Bool-cases (is_expired m now)) [
      | inl is ↦ rw is (claimed (set_manual other "wait" none none now db) ∙ freed)
      | inr no_ ↦ elim (Bool-cases (m.status == "wait")) [
        | inl waits ↦ rw (no_, waits) (claimed db)
        | inr busy ↦ rw (no_, busy) refl
      ]
    ]

claim-other :
    (device other now id : ℕ) (token : String) (db : Database)
    → (id == other) ≡ false
    → manual_of id (committed (claim_manual_run device other token now db) db) ≡ manual_of id db
unfolding claim_manual_run
claim-other device other now id token db isnt = elim (Result-cases (claim_row device other db)) [
  | inl (e, at) ↦ rw at refl
  | inr (m, at) ↦ rw at (taken-other other now id token m db isnt)
]

pub claim-IsHeld :
    (device other now id : ℕ) (token token' : String) (expires : ℕ) (db : Database)
    → IsHeld id token expires db
    → now < expires
    → IsHeld id token expires (committed (claim_manual_run device other token' now db) db)
claim-IsHeld device other now id token token' expires db h live = elim (Bool-cases (id == other)) [
  | inl is ↦
      let at : other ≡ id = ground (arith, is) in
      let refused = claim-held device id token token' expires now db h live in
      IsHeld-same id token expires db _ (rw at (ground (arith, refused))) h
  | inr isnt ↦ IsHeld-same id token expires db _ (claim-other device other now id token' db isnt) h
]

abbrev written : ManualExecution → String → Option String → Option ℕ → ℕ → ManualExecution
written m status token expires now = record m {
  status = status;
  claim_token = token;
  claim_expires_at = expires;
  modified_at = some now;
}

manual_of-set_manual :
    (id now : ℕ) (status : String) (token : Option String) (expires : Option ℕ) (db : Database)
    (m : ManualExecution)
    → manual_of id db ≡ some m
    → manual_of id (set_manual id status token expires now db)
      ≡ some (written m status token expires now)
manual_of-set_manual id now status token expires db m stored =
    find_by-update_hit (λ r. r.manual_id == id) (λ r. r.manual_id == id)
      (λ r. written r status token expires now) db.manuals m (λ r. refl) (λ r is. is) stored

-- The database after a claim that is granted.
abbrev released : ℕ → ℕ → ManualExecution → Database → Database
released id now m db = if is_expired m now then set_manual id "wait" none none now db else db

released-manual :
    (id now : ℕ) (m : ManualExecution) (db : Database)
    → manual_of id db ≡ some m
    → (m' : ManualExecution) × (manual_of id (released id now m db) ≡ some m')
released-manual id now m db stored = elim (Bool-cases (is_expired m now)) [
  | inl is ↦
      rw is
        (written m "wait" none none now, manual_of-set_manual id now "wait" none none db m stored)
  | inr isnt ↦ rw isnt (m, stored)
]

take_claim-IsHeld :
    (id : ℕ) (token : String) (now : ℕ) (m : ManualExecution) (db db' : Database) (r : ClaimRecord)
    → manual_of id db ≡ some m
    → take_claim id token now m db ≡ ok (r, db')
    → IsHeld id token (now + claim_ttl) db'
unfolding take_claim
take_claim-IsHeld id token now m db db' r stored h =
    let expires = some (now + claim_ttl) in
    let freed = released id now m db in
    let (m', stored') = released-manual id now m db stored in
    let taken : db' ≡ set_manual id "processing" (some token) expires now freed =
      ground (arith, h) in
    rw taken (record {
      manual = written m' "processing" (some token) expires now;
      stored = manual_of-set_manual id now "processing" (some token) expires freed m' stored';
      processed = refl;
      owned = refl;
      until = refl;
    })

pub granted-IsHeld :
    (device id : ℕ) (token : String) (now : ℕ) (db db' : Database) (r : ClaimRecord)
    → claim_manual_run device id token now db ≡ ok (r, db')
    → IsHeld id token (now + claim_ttl) db'
unfolding claim_manual_run
granted-IsHeld device id token now db db' r h =
    let (m, row, taken) = returned-first (claim_row device id db) _ h in
    take_claim-IsHeld id token now m db db' r (claim_row-manual device id db m row) taken
