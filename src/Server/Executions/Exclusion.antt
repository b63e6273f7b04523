-- ===== src/Server/Executions/Exclusion.antt =====
-- A claim of a manual run excludes the others until it expires or its holder reports.
use time_weaver.Prelude.{
  ℕ, ◌≡◌, ◌<◌, Bool, false, ◌&&◌, some, String, List, [], ◌∷◌, text_comparable, nat_comparable,
  option_same, int_comparable,
}
use time_weaver.Server.Database.{Database}
use time_weaver.Server.Executions.Operations.{Operation}

-- Whether an operation reports on the run under the token.
abbrev pub reports_on : ℕ → String → Operation → Bool
reports_on id token (Operation.reports racing device p) =
    option_same p.manual_id (some id) && option_same p.claim_token (some token)
reports_on id token op = false

-- A sequence of transactions before a time, none of which reports on the run under the token.
abbrev pub Undisturbed : ℕ → String → (expires : ℕ) → List (Operation × ℕ) → Type 0
Undisturbed id token expires [] = Unit
Undisturbed id token expires ((op, now) ∷ ops) =
    (now < expires) × ((reports_on id token op ≡ false) × Undisturbed id token expires ops)
