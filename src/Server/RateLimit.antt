-- ===== src/Server/RateLimit.antt =====
-- The token bucket of server/services/security/rate_limit.py, as its Lua script runs in Redis. Times
-- are milliseconds; tokens are millionths of a token, and the refill thousandths of a token in a
-- second. The arithmetic is exact, where the script rounds to doubles: a call that comes within
-- rounding of a whole token may be decided otherwise there.
pub mod Bounds
mod Examples
use time_weaver.Prelude.{
  ℕ, ◌+◌, ◌-◌, ◌*◌, ◌/◌, Bool, true, false, Option, none, some, if◌then◌else◌, leb, ltb, Result, ok,
  error,
}

pub record BucketSettings : Type 0 where
  pub capacity : ℕ
  pub refill : ℕ

-- The hash that Redis keeps for a bucket.
pub record Bucket : Type 0 where
  pub tokens : ℕ
  pub updated_ms : ℕ

abbrev pub token : ℕ
token = 1000000

abbrev pub full : BucketSettings → ℕ
full s = s.capacity * token

abbrev pub min : ℕ → ℕ → ℕ
min a b = if leb a b then a else b

abbrev pub max : ℕ → ℕ → ℕ
max a b = if leb a b then b else a

-- math.ceil of a quotient
abbrev pub ceil_div : ℕ → ℕ → ℕ
ceil_div a b = (a + (b - 1)) / b

-- `ttl` of DeviceRateLimiter.enforce, in seconds
abbrev pub ttl : BucketSettings → ℕ
ttl s = max 1 (ceil_div (s.capacity * 2000) s.refill)

-- The bucket that Redis still has: a key that was not written for its time to live is gone.
abbrev pub unexpired : BucketSettings → ℕ → Option Bucket → Option Bucket
unexpired s now none = none
unexpired s now (some b) = if leb (b.updated_ms + ttl s * 1000) now then none else some b

-- The tokens that the script finds: those of before and the refill since, at most the capacity.
abbrev pub refilled : BucketSettings → ℕ → Option Bucket → ℕ
refilled s now none = full s
refilled s now (some b) = min (full s) (b.tokens + (now - b.updated_ms) * s.refill)

-- The script: the bucket after it, and whether the call is allowed or the seconds to wait.
unfoldable pub take_token :
    BucketSettings → (now : ℕ) → Option Bucket → Bucket × Result ℕ (Unit {0})
take_token s now stored =
    let tokens = refilled s now (unexpired s now stored) in
    if leb token tokens then (record { tokens = tokens - token; updated_ms = now }, ok tt) else (
      record { tokens = tokens; updated_ms = now },
      error (max 1 (ceil_div (token - tokens) (s.refill * 1000))),
    )
