-- ===== src/Server/RateLimit/Examples.antt =====
-- A bucket of one token: a test and instances.
use time_weaver.Prelude.{◌+◌, ◌*◌, ◌≤◌, ◌≡◌, refl, none, [], ◌∷◌, arith}
use time_weaver.Server.RateLimit.{BucketSettings, token, full, take_token}
use time_weaver.Server.RateLimit.Bounds.{allowed, allowed-le-capacity}

-- One token, and one more each second.
abbrev one : BucketSettings
one = record { capacity = 1; refill = 1000 }

two_of_three : allowed one 0 none (0 ∷ 500 ∷ 500 ∷ []) ≡ 2
unfolding allowed take_token
two_of_three = refl

allowed-le-capacity_example :
    allowed one 0 none (0 ∷ 500 ∷ 500 ∷ []) * token ≤ full one + 1000 * 1000
allowed-le-capacity_example = allowed-le-capacity one 0 (0 ∷ 500 ∷ 500 ∷ []) (omega arith)
