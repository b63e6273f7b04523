-- ===== src/Server/Database.antt =====
-- The tables that server/repositories/agent_execution.py reads and writes, as lists of rows, and the
-- statements on them. Times are seconds, and a UUID is its text.
use time_weaver.Prelude.{
  ℕ, ◌≡◌, refl, Bool, true, false, Option, none, some, String, List, [], ◌∷◌, ◌++◌, ℤ,
  if◌then◌else◌, text_comparable, nat_comparable, Bool-cases, inl, inr, arith,
}

pub record ScheduleGroup : Type 0 where
  pub schedule_id : ℕ
  pub target_device : ℕ
  pub is_error_stop : Bool
  pub status : String
  pub modified_at : Option ℕ

-- `deleted` is `deleted_at IS NOT NULL`.
pub record ScheduleDetail : Type 0 where
  pub detail_id : String
  pub schedule_id : ℕ
  pub is_error_stop : Bool
  pub deleted : Bool
  pub status : String
  pub modified_at : Option ℕ

pub record ManualExecution : Type 0 where
  pub manual_id : ℕ
  pub detail_id : String
  pub status : String
  pub claim_token : Option String
  pub claim_expires_at : Option ℕ
  pub modified_at : Option ℕ

pub record ExecutionLog : Type 0 where
  pub execution_id : ℕ
  pub execution_grp_id : String
  pub schedule_id : ℕ
  pub detail_id : String
  pub attempt : ℕ
  pub manual_id : Option ℕ
  pub start_time : ℕ
  pub end_time : ℕ
  pub result_code : ℤ
  pub result_message : Option String
  pub environment_info : Option String

pub record ExecutionRunning : Type 0 where
  pub schedule_id : ℕ
  pub detail_id : String
  pub execution_grp_id : String
  pub attempt : ℕ
  pub start_time : ℕ

pub record AgentEvent : Type 0 where
  pub device_id : ℕ
  pub event_type : String
  pub severity : String
  pub occurred_at : ℕ
  pub message : Option String
  pub environment_info : Option String

-- `next_id` is the auto-increment of execution_log.
pub record Database : Type 0 where
  pub groups : List ScheduleGroup
  pub details : List ScheduleDetail
  pub manuals : List ManualExecution
  pub log : List ExecutionLog
  pub running : List ExecutionRunning
  pub events : List AgentEvent
  pub next_id : ℕ

-- SELECT ... WHERE, as the first row that a test accepts, if any.
unfoldable pub find_by {ℓ} : {A : Type ℓ} → (A → Bool) → List A → Option A
find_by test [] = none
find_by test (row ∷ rows) = let rest = find_by test rows in if test row then some row else rest

-- UPDATE ... WHERE
unfoldable pub update_where {ℓ} : {A : Type ℓ} → (A → Bool) → (A → A) → List A → List A
update_where test change [] = []
update_where test change (row ∷ rows) =
    (if test row then change row else row) ∷ update_where test change rows

-- DELETE ... WHERE
unfoldable pub delete_where {ℓ} : {A : Type ℓ} → (A → Bool) → List A → List A
delete_where test [] = []
delete_where test (row ∷ rows) =
    let rest = delete_where test rows in if test row then rest else row ∷ rest

-- A row that is found stays the one found when rows come after it.
pub find_by-append {ℓ} :
    {A : Type ℓ} (test : A → Bool) (rows more : List A) (row : A)
    → find_by test rows ≡ some row
    → find_by test (rows ++ more) ≡ some row
unfolding find_by
find_by-append test [] more row h = cc
find_by-append test (r ∷ rows) more row h = ground (arith, find_by-append test rows more row)

pub find_by-append_none {ℓ} :
    {A : Type ℓ} (test : A → Bool) (rows more : List A)
    → find_by test rows ≡ none
    → find_by test (rows ++ more) ≡ find_by test more
unfolding find_by
find_by-append_none test [] more h = refl
find_by-append_none test (r ∷ rows) more h = ground (arith, find_by-append_none test rows more)

pub found_test {ℓ} :
    {A : Type ℓ} (test : A → Bool) (rows : List A) (row : A)
    → find_by test rows ≡ some row
    → test row ≡ true
unfolding find_by
found_test test [] row h = cc
found_test test (r ∷ rows) row h = ground (arith, found_test test rows row)

-- A row after an update that keeps what the search tests.
pub find_by-update_where {ℓ} :
    {A : Type ℓ} (test hits : A → Bool) (change : A → A) (rows : List A)
    → ((row : A) → test (change row) ≡ test row)
    → find_by test (update_where hits change rows) ≡ elim (find_by test rows) [
      | none ↦ none
      | some row ↦ some (if hits row then change row else row)
    ]
unfolding find_by update_where
find_by-update_where test hits change [] kept = refl
find_by-update_where test hits change (r ∷ rows) kept =
    ground (arith, kept r, find_by-update_where test hits change rows kept)

-- An update that touches no row that the search accepts.
pub find_by-update_miss {ℓ} :
    {A : Type ℓ} (test hits : A → Bool) (change : A → A) (rows : List A)
    → ((row : A) → test (change row) ≡ test row)
    → ((row : A) → test row ≡ true → hits row ≡ false)
    → find_by test (update_where hits change rows) ≡ find_by test rows
unfolding find_by update_where
find_by-update_miss test hits change [] kept misses = refl
find_by-update_miss test hits change (r ∷ rows) kept misses = elim (Bool-cases (test r)) [
  | inl is ↦ rw (misses r is, is) refl
  | inr isnt ↦ ground (arith, isnt, kept r, find_by-update_miss test hits change rows kept misses)
]

-- An update that touches each row that the search accepts.
pub find_by-update_hit {ℓ} :
    {A : Type ℓ} (test hits : A → Bool) (change : A → A) (rows : List A) (row : A)
    → ((row : A) → test (change row) ≡ test row)
    → ((row : A) → test row ≡ true → hits row ≡ true)
    → find_by test rows ≡ some row
    → find_by test (update_where hits change rows) ≡ some (change row)
unfolding find_by update_where
find_by-update_hit test hits change [] row kept hit h = cc
find_by-update_hit test hits change (r ∷ rows) row kept hit h = elim (Bool-cases (test r)) [
  | inl is ↦ ground (arith, is, hit r is, kept r, h)
  | inr isnt ↦
      ground (arith, isnt, kept r, h, find_by-update_hit test hits change rows row kept hit)
]
