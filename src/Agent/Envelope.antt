-- ===== src/Agent/Envelope.antt =====
-- The results that agent/services/time_weaver/outbox.py delivers, and the bound on what they carry.
use Prim.Native.Char.{Char, code, len_utf8}
use Prim.Native.String.{String}
use time_weaver.Prelude.{
  ◌&&◌, not, get-pop, ℕ, ◌+◌, ◌-◌, ◌≤◌, ◌≡◌, refl, ◌||◌, Option, none, some, List, [], ◌∷◌, Dict,
  get, pop, ℤ, ◌==◌, if◌then◌else◌, ltb, leb, length, str, text_append, text_comparable,
  nat_comparable, arith,
}

-- ResultEnvelope. The values of the environment are texts (app.py, get_environment_info).
pub record ResultEnvelope : Type 0 where
  pub execution_grp_id : String
  pub schedule_id : ℕ
  pub detail_id : String
  pub attempt : ℕ
  pub manual_id : Option ℕ
  pub claim_token : Option String
  pub started_at : String
  pub finished_at : String
  pub result_code : ℤ
  pub result_message : Option String
  pub environment_info : Dict String String
  pub sequence : ℕ

-- OutboxItem. `ident` stands for the object's identity, which `is` compares.
pub record OutboxItem : Type 0 where
  pub envelope : ResultEnvelope
  pub idempotency_key : String
  pub ident : ℕ

abbrev pub environment_info_max : ℕ
environment_info_max = 32768

-- The size of the escape of a control character: the ones with a letter are 8, 9, 10, 12 and 13.
abbrev control_size : ℕ → ℕ
control_size n = if leb 8 n && leb n 13 && not (n == 11) then 2 else 6

-- The UTF-8 bytes of a character of a JSON text under `ensure_ascii=False`.
abbrev escaped_size : Char → ℕ
escaped_size c =
    if code c == 34 || code c == 92
    then 2
    else if ltb (code c) 32
    then control_size (code c)
    else len_utf8 c

abbrev pub text_size : String → ℕ
text_size String.[] = 2
text_size (String.◌∷◌ c s) = escaped_size c + text_size s

members_size : Dict String String → ℕ
members_size [] = 0
members_size ((k, v) ∷ d) = text_size k + 1 + text_size v + members_size d

-- _json_size of a dict of texts: two braces, the members, and a comma between members.
unfoldable pub json_size : Dict String String → ℕ
unfolding members_size
json_size d = 2 + members_size d + (length d - 1)

-- The loop of _bounded_envelope over the names that may go.
unfoldable pub shed : List String → Dict String String → Dict String String
shed [] environment = environment
shed (name ∷ names) environment =
    let rest = shed names (pop name environment) in
    if leb (json_size environment) environment_info_max then environment else rest

abbrev pub sheddable : List String
sheddable = "device_name" ∷ "user" ∷ "ip" ∷ "os" ∷ "host" ∷ []

unfoldable pub bounded_environment : Dict String String → Dict String String
unfolding shed json_size
bounded_environment environment =
    let shorter = shed sheddable environment in
    if ltb environment_info_max (json_size shorter) then [] else shorter

-- _bounded_envelope. The times are texts already, and `str` of a text is the text.
unfoldable pub bounded_envelope : ResultEnvelope → ResultEnvelope
unfolding bounded_environment
bounded_envelope e = record e { environment_info = bounded_environment e.environment_info }

-- f"{envelope.execution_grp_id}:{envelope.detail_id}:{envelope.attempt}"
unfoldable pub idempotency_key : ResultEnvelope → String
idempotency_key e =
    text_append e.execution_grp_id
      (text_append ":" (text_append e.detail_id (text_append ":" (str e.attempt))))

get-shed :
    (names : List String) (d : Dict String String) (k v : String)
    → get k (shed names d) ≡ some v
    → get k d ≡ some v
unfolding shed
get-shed [] d k v h = h
get-shed (name ∷ names) d k v h = ground (arith, get-shed names (pop name d) k v, get-pop name k d)

shed_fits :
    (names : List String) (d : Dict String String)
    → json_size d ≤ environment_info_max
    → shed names d ≡ d
unfolding shed
shed_fits [] d h = refl
shed_fits (name ∷ names) d h = ground arith

-- The environment of a bounded envelope takes at most 32768 bytes of JSON, an envelope whose
-- environment fits already is kept as it is, and what a bounded environment holds it held before.
pub bounded_envelope_lem :
    (e : ResultEnvelope)
    → (json_size (bounded_envelope e).environment_info ≤ environment_info_max)
      × (json_size e.environment_info ≤ environment_info_max → bounded_envelope e ≡ e)
      × ((k v : String)
          → get k (bounded_envelope e).environment_info ≡ some v
          → get k e.environment_info ≡ some v)
unfolding bounded_envelope
bounded_envelope_lem e = (
  bound,
  (λ h. ground (arith, shed_fits sheddable e.environment_info h)),
  λ k v h. ground (arith, get-nil k, get-shed sheddable e.environment_info k v),
)
  where
    bound : json_size (bounded_environment e.environment_info) ≤ environment_info_max
    bound = ground arith

    get-nil : (k : String) → get {V = String} k [] ≡ none
    get-nil k = unfold get in refl
