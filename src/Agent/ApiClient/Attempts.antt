-- ===== src/Agent/ApiClient/Attempts.antt =====
-- How often a request is sent, and what the client sleeps in between.
use time_weaver.Prelude.{
  ℕ, zero, suc, ◌+◌, ◌≤◌, ◌<◌, ◌≡◌, refl, ap, inl, inr, true, false, ◌&&◌, some, List, [], ◌∷◌, ltb,
  leb, length, nat_comparable, text_comparable, arith, Bool-cases, error, ◌==◌, is_none, false, ◌+◌,
}
use native.Mathlib.Nat.{pow-suc}
use time_weaver.Agent.ApiClient.{
  Response, Attempt, lost, raises, responds, Readings, AgentApiClient, Request, Exchange, Verdict,
  ends, again, too_large, communication, is_retryable, decode_error, backoff_at, refused, judge,
  retries_of, slept, after_verdict, after_attempt, attempts, request, delay_or,
}

-- An exchange of at most `left` requests, with one sleep fewer at least, or one for each request where
-- the rounds ran out.
abbrev Within : ℕ → Exchange → Type 0
Within left x = (x.requests ≤ left) × (length x.sleeps ≤ x.requests)

after_verdict-Within :
    (left : ℕ) (v : Verdict) (rest : Exchange)
    → Within left rest
    → Within (suc left) (after_verdict v rest)
after_verdict-Within left (ends result) rest h = omega arith
after_verdict-Within left (again delay) rest h = omega arith

after_attempt-Within :
    (p : Readings) (c : AgentApiClient) (q : Request) (attempt left : ℕ) (a : Attempt)
    (rest : Exchange)
    → Within left rest
    → Within (suc left) (after_attempt p c q attempt a rest)
after_attempt-Within p c q attempt left lost rest h =
    elim (Bool-cases (ltb attempt (retries_of c q))) [
      | inl more ↦ elim (Bool-cases (too_large attempt)) [
        | inl large ↦ rw (more, large) (omega arith)
        | inr fits ↦ rw (more, fits) (omega arith)
      ]
      | inr last ↦ rw last (omega arith)
    ]
after_attempt-Within p c q attempt left (raises name) rest h = omega arith
after_attempt-Within p c q attempt left (responds r) rest h =
    after_verdict-Within left (judge p c q attempt r) rest h

attempts-Within :
    (p : Readings) (c : AgentApiClient) (q : Request) (transport : ℕ → Attempt) (left attempt : ℕ)
    → Within left (attempts p c q transport left attempt)
unfolding attempts
attempts-Within p c q transport zero attempt = omega arith
attempts-Within p c q transport (suc left) attempt =
    after_attempt-Within p c q attempt left (transport attempt) _
      (attempts-Within p c q transport left (suc attempt))

-- Whatever the transport does, a request is sent at most once more often than its retries, and the
-- client sleeps at most once after each sending.
pub request_bounds :
    (p : Readings) (c : AgentApiClient) (q : Request) (transport : ℕ → Attempt)
    → let x = request p c q transport in
      (x.requests ≤ retries_of c q + 1) × (length x.sleeps ≤ x.requests)
unfolding request
request_bounds p c q transport =
    omega (arith, attempts-Within p c q transport (suc (retries_of c q)) 0)

-- So many delays, of which each is twice the one before.
unfoldable pub doubling : (count delay : ℕ) → List ℕ
doubling zero delay = []
doubling (suc count) delay = delay ∷ doubling count (delay + delay)

backoff_at-suc :
    (c : AgentApiClient) (attempt : ℕ)
    → backoff_at c (suc attempt) ≡ backoff_at c attempt + backoff_at c attempt
backoff_at-suc c attempt = rw (pow-suc 2 attempt) (omega arith)

lost_attempts :
    (p : Readings) (c : AgentApiClient) (q : Request) (transport : ℕ → Attempt) (more attempt : ℕ)
    → ((k : ℕ) → transport k ≡ lost)
    → attempt + more ≡ retries_of c q
    → retries_of c q ≤ 1024
    → attempts p c q transport (suc more) attempt ≡ record {
      requests = suc more;
      sleeps = doubling more (backoff_at c attempt);
      result = error communication;
    }
unfolding attempts doubling
lost_attempts p c q transport zero attempt gone e few =
    let over : ltb attempt (retries_of c q) ≡ false = ground (arith, e) in
    rw (gone attempt) (rw over refl)
lost_attempts p c q transport (suc more) attempt gone e few =
    let below : ltb attempt (retries_of c q) ≡ true = ground (arith, e) in
    let fits : too_large attempt ≡ false = ground (arith, e, few) in
    let next = lost_attempts p c q transport more (suc attempt) gone (ground (arith, e)) few in
    rw (gone attempt)
      (rw (below, fits) (rw (← backoff_at-suc c attempt) (ap (slept (backoff_at c attempt)) next)))

-- If the transport loses every request and there are at most 1024 retries, the request is sent once
-- and once more for each retry, and the client sleeps between them, first its backoff and then twice
-- the time before, and raises a CommunicationError in the end.
pub request_lost :
    (p : Readings) (c : AgentApiClient) (q : Request) (transport : ℕ → Attempt)
    → ((k : ℕ) → transport k ≡ lost)
    → retries_of c q ≤ 1024
    → request p c q transport ≡ record {
      requests = suc (retries_of c q);
      sleeps = doubling (retries_of c q) c.backoff;
      result = error communication;
    }
unfolding request
request_lost p c q transport gone few =
    let first_delay : backoff_at c 0 ≡ c.backoff = omega arith in
    rw (lost_attempts p c q transport (retries_of c q) 0 gone (omega arith) few)
      (rw first_delay refl)

judge_error :
    (p : Readings) (c : AgentApiClient) (q : Request) (attempt : ℕ) (r : Response)
    → 400 ≤ r.status_code
    → judge p c q attempt r ≡ refused c attempt (decode_error p r)
unfolding judge
judge_error p c q attempt r high =
    let plain : (r.status_code == 304) ≡ false = ground arith in
    let bad : leb r.status_code 299 ≡ false = ground arith in ground (arith, plain, bad)

-- A request that asks for no retry, of a client that has some, and whose response is an error with a
-- retryable code: the client sleeps the delay all the same, sends nothing more, and raises a
-- CommunicationError in place of the exception of the code.
pub request_unretried :
    (p : Readings) (c : AgentApiClient) (q : Request) (transport : ℕ → Attempt) (r : Response)
    → q.request_retries ≡ some 0
    → 0 < c.retries
    → transport 0 ≡ responds r
    → 400 ≤ r.status_code
    → is_retryable (decode_error p r).0 ≡ true
    → request p c q transport ≡ record {
      requests = 1;
      sleeps = delay_or (decode_error p r).1 (backoff_at c 0) ∷ [];
      result = error communication;
    }
unfolding request attempts
request_unretried p c q transport r asks has first bad retryable =
    let again_at : (is_retryable (decode_error p r).0 && ltb 0 c.retries) ≡ true =
      ground (arith, retryable, has) in
    let fits : (is_none (decode_error p r).1 && too_large 0) ≡ false = ground arith in
    rw (asks, first) (rw (judge_error p c q 0 r bad) (rw again_at (rw fits refl)))
