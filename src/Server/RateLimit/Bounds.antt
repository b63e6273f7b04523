-- ===== src/Server/RateLimit/Bounds.antt =====
-- How many calls a bucket allows.
use native.Mathlib.Nat.{lt-div-mul-add, mul-le-mul_right, add-mul}
use time_weaver.Prelude.{
  ℕ, ◌+◌, ◌-◌, ◌*◌, ◌≤◌, ◌<◌, ◌≡◌, refl, Option, none, some, List, [], ◌∷◌, leb, Result, ok, error,
  arith, Bool-cases, inl, inr, ap,
}
use time_weaver.Server.RateLimit.{
  BucketSettings, Bucket, token, full, max, ceil_div, ttl, unexpired, refilled, take_token,
}

abbrev pub is_allowed : Result ℕ (Unit {0}) → ℕ
is_allowed (ok u) = 1
is_allowed (error n) = 0

-- The calls that are allowed, by the milliseconds between each call and the one before.
unfoldable pub allowed : BucketSettings → (now : ℕ) → Option Bucket → (gaps : List ℕ) → ℕ
allowed s now stored [] = 0
allowed s now stored (gap ∷ gaps) =
    let (bucket, answer) = take_token s (now + gap) stored in
    is_allowed answer + allowed s (now + gap) (some bucket) gaps

abbrev pub sum : List ℕ → ℕ
sum [] = 0
sum (n ∷ ns) = n + sum ns

ceil_div-covers : (a b : ℕ) → 0 < b → a ≤ ceil_div a b * b
ceil_div-covers a b h =
    let below = lt-div-mul-add {a = a + (b - 1)} {b = b} h in omega (arith, below)

le-max : (a b : ℕ) → b ≤ max a b
le-max a b = ground arith

-- A key that expires would have been full again.
expired-full :
    (s : BucketSettings) (gap : ℕ) → 0 < s.refill → ttl s * 1000 ≤ gap → full s ≤ gap * s.refill
expired-full s gap h over =
    let c = ceil_div (s.capacity * 2000) s.refill in
    let covers : s.capacity * 2000 ≤ c * s.refill =
      ceil_div-covers (s.capacity * 2000) s.refill h in
    let life : c * s.refill ≤ ttl s * s.refill = mul-le-mul_right s.refill (le-max 1 c) in
    let gone : ttl s * 1000 * s.refill ≤ gap * s.refill = mul-le-mul_right s.refill over in
    let scaled : ttl s * 1000 * s.refill ≡ ttl s * s.refill * 1000 = omega arith in omega arith

-- What a call finds in a bucket that the call before it left.
refilled-gap :
    (s : BucketSettings) (now tokens gap : ℕ)
    → 0 < s.refill
    → refilled s
        (now + gap)
        (unexpired s (now + gap) (some (record { tokens = tokens; updated_ms = now })))
      ≤ tokens + gap * s.refill
refilled-gap s now tokens gap h =
    let elapsed : now + gap - now ≡ gap = omega arith in
    elim (Bool-cases (leb (now + ttl s * 1000) (now + gap))) [
      | inl over ↦ let most = expired-full s gap h (ground (arith, over)) in rw over (omega arith)
      | inr still ↦ rw (still, elapsed) (ground arith)
    ]

-- One call: what it takes and leaves is no more than what it found.
take_token-spends :
    (s : BucketSettings) (now : ℕ) (stored : Option Bucket)
    → (is_allowed (take_token s now stored).1 * token + (take_token s now stored).0.tokens
        ≡ refilled s now (unexpired s now stored))
      × ((take_token s now stored).0.updated_ms ≡ now)
unfolding take_token
take_token-spends s now stored =
    elim (Bool-cases (leb token (refilled s now (unexpired s now stored)))) [
      | inl enough ↦ rw enough (ground (arith, enough), refl)
      | inr short ↦ rw short (omega arith, refl)
    ]

-- The same for the calls after one that left its tokens at a time.
allowed-bound :
    (s : BucketSettings) (now tokens : ℕ) (gaps : List ℕ)
    → 0 < s.refill
    → allowed s now (some (record { tokens = tokens; updated_ms = now })) gaps * token
      ≤ tokens + sum gaps * s.refill
unfolding allowed
allowed-bound s now tokens [] h = omega arith
allowed-bound s now tokens (gap ∷ gaps) h =
    let stored = some (record { tokens = tokens; updated_ms = now }) in
    let (spent, stamped) = take_token-spends s (now + gap) stored in
    let found_ = refilled-gap s now tokens gap h in
    let left = (take_token s (now + gap) stored).0 in
    let rest = allowed-bound s (now + gap) left.tokens gaps h in
    let split = add-mul gap (sum gaps) s.refill in
    let same : allowed s (now + gap) (some left) gaps
        ≡ allowed s (now + gap) (some (record { tokens = left.tokens; updated_ms = now + gap }))
            gaps =
      ap (λ u. allowed s (now + gap) (some (record { tokens = left.tokens; updated_ms = u })) gaps)
        stamped in
    omega (arith, split, spent, found_, rest, same)

-- In exact arithmetic: a device that no call was counted for makes calls over some time, at whatever
-- moments: at most the capacity and what the refill gives in that time are allowed, whether or not
-- Redis drops the bucket after its time to live.
pub allowed-le-capacity :
    (s : BucketSettings) (now : ℕ) (gaps : List ℕ)
    → 0 < s.refill
    → allowed s now none gaps * token ≤ full s + sum gaps * s.refill
unfolding allowed
allowed-le-capacity s now [] h = omega arith
allowed-le-capacity s now (gap ∷ gaps) h =
    let (spent, stamped) = take_token-spends s (now + gap) none in
    let left = (take_token s (now + gap) none).0 in
    let rest = allowed-bound s (now + gap) left.tokens gaps h in
    let split = add-mul gap (sum gaps) s.refill in
    let same : allowed s (now + gap) (some left) gaps
        ≡ allowed s (now + gap) (some (record { tokens = left.tokens; updated_ms = now + gap }))
            gaps =
      ap (λ u. allowed s (now + gap) (some (record { tokens = left.tokens; updated_ms = u })) gaps)
        stamped in
    omega (arith, split, spent, rest, same)
