-- ===== src/Agent/Outbox/Policy.antt =====
-- What a protocol error code does to the result whose report it answers: from the code through the
-- exception that the client raises to the action of the outbox.
use time_weaver.Prelude.{
  ℕ, ◌≡◌, refl, sym, false, Option, none, some, String, List, [], ◌∷◌, arith, contains, add,
  if◌then◌else◌, is_none, eq_iff, text_comparable, ◌==◌, not, Bool-cases, inl, inr, ◌≢◌,
}
use time_weaver.Agent.ApiErrors.{ErrorClass, Exception, protocol_error}
use time_weaver.Agent.OperatingState.{
  OperatingState, OperatingStateManager, state_of, credential_failed,
}
use time_weaver.Agent.Outbox.{ResultOutbox, manager_halted}
use time_weaver.Agent.Outbox.Sending.{Action, classify_failure, with_manager}

-- The codes by what they mean for the agent.
abbrev pub inactive_codes : List String
inactive_codes = "device_inactive" ∷ "device_revoked" ∷ []

abbrev pub token_codes : List String
token_codes = "invalid_token" ∷ "token_expired" ∷ "enrollment_token_invalid" ∷ []

abbrev pub busy_codes : List String
busy_codes = "rate_limited" ∷ "server_error" ∷ "unavailable" ∷ []

-- With a state manager the agent halts on a rejected device or token, keeping the result.
abbrev pub action_of : String → ResultOutbox → Action
action_of code o =
    if contains code inactive_codes
    then Action.halt
    else if contains code token_codes
    then (if is_none o.state_manager then Action.retry else Action.halt)
    else if contains code busy_codes
    then Action.retry
    else Action.remove

halts_on_rejection :
    (m : OperatingStateManager)
    → state_of (credential_failed "needs_enrollment" m).manager ≡ OperatingState.halted
unfolding credential_failed state_of add contains
halts_on_rejection m = ground arith

-- With the code rejected for the token, the outbox that was told is halted if it has a manager.
told_halts :
    (o : ResultOutbox)
    → manager_halted (with_manager (credential_failed "needs_enrollment") o.state_manager)
      ≡ not (is_none o.state_manager)
told_halts o = go o.state_manager
  where
    go :
        (m : Option OperatingStateManager)
        → manager_halted (with_manager (credential_failed "needs_enrollment") m) ≡ not (is_none m)
    go none = refl
    go (some m) = rw (halts_on_rejection m)

-- A code that the client does not raise by name.
record IsUnnamed (code : String) : Type 0 where
  invalid_token : code ≢ "invalid_token"
  token_expired : code ≢ "token_expired"
  enrollment_token_invalid : code ≢ "enrollment_token_invalid"
  device_inactive : code ≢ "device_inactive"
  device_revoked : code ≢ "device_revoked"
  schema_mismatch : code ≢ "schema_mismatch"
  rate_limited : code ≢ "rate_limited"
  server_error : code ≢ "server_error"
  unavailable : code ≢ "unavailable"

differs : (code name : String) → (code == name) ≡ false → code ≢ name
differs code name e same = cc (e, (eq_iff code name).1 same)

same_false : (a b : String) → a ≢ b → (a == b) ≡ false
same_false a b h = elim (Bool-cases (a == b)) [ inl e ↦ absurd (h ((eq_iff a b).0 e)) | inr e ↦ e ]

-- Such a code is rejected as a client's fault, and is none of the table's.
unnamed_class :
    (code : String) (retry_after : Option ℕ)
    → IsUnnamed code
    → (protocol_error code retry_after
        ≡ record { class = ErrorClass.client_rejected; code = code; retry_after = retry_after })
      × (contains code inactive_codes ≡ false)
      × (contains code token_codes ≡ false)
      × (contains code busy_codes ≡ false)
unfolding protocol_error contains
unnamed_class code retry_after u = ground (
  arith,
  same_false "invalid_token" code (λ e. u.invalid_token (sym e)),
  same_false "token_expired" code (λ e. u.token_expired (sym e)),
  same_false "device_inactive" code (λ e. u.device_inactive (sym e)),
  same_false "device_revoked" code (λ e. u.device_revoked (sym e)),
  same_false "rate_limited" code (λ e. u.rate_limited (sym e)),
  same_false "server_error" code (λ e. u.server_error (sym e)),
  same_false "unavailable" code (λ e. u.unavailable (sym e)),
  same_false "enrollment_token_invalid" code (λ e. u.enrollment_token_invalid (sym e)),
  same_false code "enrollment_token_invalid" u.enrollment_token_invalid,
  same_false code "schema_mismatch" u.schema_mismatch,
  same_false code "rate_limited" u.rate_limited,
)

unnamed_action :
    (code : String) (retry_after : Option ℕ) (o : ResultOutbox)
    → IsUnnamed code
    → (classify_failure (Exception.api (protocol_error code retry_after)) o).0 ≡ action_of code o
unfolding classify_failure
unnamed_action code retry_after o u =
    let (class, inactive, token, busy) = unnamed_class code retry_after u in
    rw (class, inactive, token, busy) (ground arith)

-- To prove a statement for every code: for each that has a name, and for the others.
by_code :
    (P : String → Type 0)
    → P "invalid_token"
    → P "token_expired"
    → P "enrollment_token_invalid"
    → P "device_inactive"
    → P "device_revoked"
    → P "schema_mismatch"
    → P "rate_limited"
    → P "server_error"
    → P "unavailable"
    → ((code : String) → IsUnnamed code → P code)
    → (code : String) → P code
by_code P p0 p1 p2 p3 p4 p5 p6 p7 p8 other code = elim (Bool-cases (code == "invalid_token")) [
  | inl e ↦ rw ((eq_iff code "invalid_token").0 e) p0
  | inr n0 ↦ elim (Bool-cases (code == "token_expired")) [
    | inl e ↦ rw ((eq_iff code "token_expired").0 e) p1
    | inr n1 ↦ elim (Bool-cases (code == "enrollment_token_invalid")) [
      | inl e ↦ rw ((eq_iff code "enrollment_token_invalid").0 e) p2
      | inr n2 ↦ elim (Bool-cases (code == "device_inactive")) [
        | inl e ↦ rw ((eq_iff code "device_inactive").0 e) p3
        | inr n3 ↦ elim (Bool-cases (code == "device_revoked")) [
          | inl e ↦ rw ((eq_iff code "device_revoked").0 e) p4
          | inr n4 ↦ elim (Bool-cases (code == "schema_mismatch")) [
            | inl e ↦ rw ((eq_iff code "schema_mismatch").0 e) p5
            | inr n5 ↦ elim (Bool-cases (code == "rate_limited")) [
              | inl e ↦ rw ((eq_iff code "rate_limited").0 e) p6
              | inr n6 ↦ elim (Bool-cases (code == "server_error")) [
                | inl e ↦ rw ((eq_iff code "server_error").0 e) p7
                | inr n7 ↦ elim (Bool-cases (code == "unavailable")) [
                  | inl e ↦ rw ((eq_iff code "unavailable").0 e) p8
                  | inr n8 ↦ other code (record {
                    invalid_token = differs code "invalid_token" n0;
                    token_expired = differs code "token_expired" n1;
                    enrollment_token_invalid = differs code "enrollment_token_invalid" n2;
                    device_inactive = differs code "device_inactive" n3;
                    device_revoked = differs code "device_revoked" n4;
                    schema_mismatch = differs code "schema_mismatch" n5;
                    rate_limited = differs code "rate_limited" n6;
                    server_error = differs code "server_error" n7;
                    unavailable = differs code "unavailable" n8;
                  })
                ]
              ]
            ]
          ]
        ]
      ]
    ]
  ]
]

-- The action on a protocol error code is the one of the table action_of, for every code and whether
-- or not a retry delay comes with it.
pub classify_failure-protocol_error :
    (code : String) (retry_after : Option ℕ) (o : ResultOutbox)
    → (classify_failure (Exception.api (protocol_error code retry_after)) o).0 ≡ action_of code o
unfolding classify_failure protocol_error contains
classify_failure-protocol_error code retry_after o =
    by_code
      (λ c. (classify_failure (Exception.api (protocol_error c retry_after)) o).0 ≡ action_of c o)
      (ground (arith, told_halts o)) (ground (arith, told_halts o)) (ground (arith, told_halts o))
      refl refl refl refl refl refl (λ c u. unnamed_action c retry_after o u) code
