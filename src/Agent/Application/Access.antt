-- ===== src/Agent/Application/Access.antt =====
-- _result_access_token of app.py: the credential manager, against the state of the agent.
use time_weaver.Prelude.{
  ◌≡◌, refl, sym, ◌∙◌, inl, inr, ◌⊎◌, true, false, Option, none, some, String, List, [], ◌∷◌, ◌==◌,
  if◌then◌else◌, contains, is_none, is_empty, text_comparable, arith, Bool-cases, Result, ok, error,
  add,
}
use time_weaver.Agent.ApiErrors.{ErrorClass, Exception, is_authentication}
use time_weaver.Agent.ApiClient.{AgentApiClient, set_access_token}
use time_weaver.Agent.CredentialManager.{
  CredentialManager, CredentialOutcome, Called, Meets, ensure_access_token,
}
use time_weaver.Agent.CredentialManager.Outcomes.{Settles, ensure_access_token-Settles}
use time_weaver.Agent.CredentialManager.Store.{Times}
use time_weaver.Agent.OperatingState.{
  OperatingState, OperatingStateManager, Published, credential_failed, credential_succeeded,
  state_of, fail_closed,
}

-- What a call leaves and returns, each global as it may be None; `published` is what the state manager
-- was told, if anything.
pub record Granted : Type 0 where
  pub credentials : Option CredentialManager
  pub client : Option AgentApiClient
  pub published : Option Published
  pub answer : Result Exception String

abbrev told : (OperatingStateManager → Published) → Option OperatingStateManager → Option Published
told operation none = none
told operation (some m) = some (operation m)

abbrev unauthorized : Exception
unauthorized =
    Exception.api
      (record { class = ErrorClass.authentication; code = "invalid_token"; retry_after = none })

abbrev unavailable : Exception
unavailable =
    Exception.api
      (record { class = ErrorClass.transient_server; code = "unavailable"; retry_after = none })

abbrev pub final_reasons : List String
final_reasons = "needs_enrollment" ∷ "credential_persist_failed" ∷ "device_inactive" ∷ []

abbrev or_unavailable : Option String → String
or_unavailable none = "unavailable"
or_unavailable (some reason) = if reason == "" then "unavailable" else reason

abbrev refused :
    String → CredentialManager → Option OperatingStateManager → Option AgentApiClient → Granted
refused reason c m client =
    if contains reason final_reasons
    then record {
      credentials = some c;
      client = client;
      published = told (credential_failed reason) m;
      answer = error unauthorized;
    }
    else record {
      credentials = some c;
      client = client;
      published = none;
      answer = error unavailable;
    }

-- A token goes to the client; without one, the call of set_access_token raises AttributeError.
abbrev handed :
    String → CredentialManager → Option OperatingStateManager → Option AgentApiClient → Granted
handed token c m none = record {
  credentials = some c;
  client = none;
  published = told credential_succeeded m;
  answer = error (Exception.other "AttributeError");
}
handed token c m (some client) = record {
  credentials = some c;
  client = some (set_access_token (some token) client);
  published = told credential_succeeded m;
  answer = ok token;
}

abbrev granted :
    CredentialOutcome
    → Option String
    → CredentialManager
    → Option OperatingStateManager
    → Option AgentApiClient
    → Granted
granted outcome (some token) c m client =
    if is_none outcome.reason
    then handed token c m client
    else refused (or_unavailable outcome.reason) c m client
granted outcome none c m client = refused (or_unavailable outcome.reason) c m client

abbrev answered : Called → Option OperatingStateManager → Option AgentApiClient → Granted
answered (c, error raised) m client = record {
  credentials = some c;
  client = client;
  published = none;
  answer = error raised;
}
answered (c, ok outcome) m client = granted outcome outcome.access_token c m client

-- _result_access_token; the lead is ACCESS_REFRESH_LEAD.
unfoldable pub result_access_token :
    Times
    → Meets
    → Option CredentialManager
    → Option OperatingStateManager
    → Option AgentApiClient
    → Granted
unfolding ensure_access_token credential_failed credential_succeeded
result_access_token t meets none m client = record {
  credentials = none;
  client = client;
  published = none;
  answer = error unauthorized;
}
result_access_token t meets (some c) m client = answered (ensure_access_token t 60 meets c) m client

abbrev Halts : Option Published → Type 0
Halts none = ⊥
Halts (some p) = state_of p.manager ≡ OperatingState.halted

-- With an authentication error the state manager halts, where there is one and a credential manager.
abbrev pub Stops :
    Option CredentialManager → Option OperatingStateManager → Option Published → Type 0
Stops (some c) (some m) published = Halts published
Stops _ _ published = published ≡ none

abbrev token_in : Option CredentialManager → Option String
token_in none = none
token_in (some c) = c.access_token

abbrev credential_in : Option AgentApiClient → Option String
credential_in none = none
credential_in (some client) = client.credential

-- What a call with these globals may leave, by what it answers.
abbrev pub Accords :
    Option CredentialManager
    → Option OperatingStateManager
    → Option AgentApiClient
    → Granted
    → Result Exception String
    → Type 0
Accords c m client g (ok token) =
    (token_in g.credentials ≡ some token) × (credential_in g.client ≡ some token)
Accords c m client g (error (Exception.other name)) =
    (g.client ≡ client) × ((g.published ≡ none) ⊎ (client ≡ none))
Accords c m client g (error (Exception.api exc)) =
    (g.client ≡ client)
    × (if is_authentication exc.class then Stops c m g.published else g.published ≡ none)

final_closed :
    (reason : String) → contains reason final_reasons ≡ true → contains reason fail_closed ≡ true
unfolding contains
final_closed reason final = ground (arith, final)

add-is_empty : (x : String) (s : List String) → is_empty (add x s) ≡ false
unfolding add contains
add-is_empty x [] = refl
add-is_empty x (y ∷ s) = ground arith

credential_failed-halts :
    (reason : String) (m : OperatingStateManager)
    → contains reason final_reasons ≡ true
    → state_of (credential_failed reason m).manager ≡ OperatingState.halted
unfolding credential_failed state_of
credential_failed-halts reason m final =
    rw (final_closed reason final) (rw (add-is_empty reason m.fail_closed_reasons) refl)

failed-Stops :
    (reason : String) (c : CredentialManager) (m : Option OperatingStateManager)
    → contains reason final_reasons ≡ true
    → Stops (some c) m (told (credential_failed reason) m)
failed-Stops reason c none final = refl
failed-Stops reason c (some m) final = credential_failed-halts reason m final

module _ (before : CredentialManager) (m : Option OperatingStateManager)
    (client : Option AgentApiClient) where
  refused-Accords :
      (reason : String) (c : CredentialManager)
      → let g = refused reason c m client in Accords (some before) m client g g.answer
  refused-Accords reason c = elim (Bool-cases (contains reason final_reasons)) [
    | inl final ↦ rw final (refl, failed-Stops reason before m final)
    | inr passing ↦ rw passing (refl, refl)
  ]

  handed-Accords :
      (token : String) (c : CredentialManager) (to : Option AgentApiClient)
      → c.access_token ≡ some token
      → let g = handed token c m to in Accords (some before) m to g g.answer
  handed-Accords token c none e = (refl, inr refl)
  handed-Accords token c (some k) e = (e, refl)

  granted-Accords :
      (c : CredentialManager) (outcome : CredentialOutcome) (token : Option String)
      → Settles before (c, ok outcome)
      → outcome.access_token ≡ token
      → let g = granted outcome token c m client in Accords (some before) m client g g.answer
  granted-Accords c outcome none s e = refused-Accords (or_unavailable outcome.reason) c
  granted-Accords c outcome (some token) s e = elim (Bool-cases (is_none outcome.reason)) [
    | inl clear ↦ rw clear (handed-Accords token c client (sym s.0 ∙ e))
    | inr reasons ↦ rw reasons (refused-Accords (or_unavailable outcome.reason) c)
  ]

  answered-Accords :
      (r : Called)
      → Settles before r
      → let g = answered r m client in Accords (some before) m client g g.answer
  answered-Accords (c, error (Exception.api exc)) s = absurd s
  answered-Accords (c, error (Exception.other name)) s = (refl, inl refl)
  answered-Accords (c, ok outcome) s = granted-Accords c outcome outcome.access_token s refl

-- Whatever a call of _result_access_token meets, and whichever of the globals are None: a token that
-- it returns is the one that the credential manager then has in memory and the client holds; a call
-- that raises leaves the client as it was; with an authentication error the agent is halted, if there
-- are a credential manager and a state manager; and otherwise the state manager is told nothing of a
-- call that raises, unless what raised is that there is no client.
pub result_access_token-Accords :
    (t : Times) (meets : Meets) (c : Option CredentialManager) (m : Option OperatingStateManager)
    (client : Option AgentApiClient)
    → let g = result_access_token t meets c m client in Accords c m client g g.answer
unfolding result_access_token
result_access_token-Accords t meets none m client = (refl, refl)
result_access_token-Accords t meets (some c) m client =
    answered-Accords c m client (ensure_access_token t 60 meets c)
      (ensure_access_token-Settles t 60 meets c)
