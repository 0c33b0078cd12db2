-- ===== src/Limits/Examples.antt =====
-- Runs of the token bucket and the rate limiter of src/limits at concrete inputs.
use actjs.Limits.RateLimiter.{RateLimitedError, RateLimiter}
use actjs.Limits.TokenBucket.{TokenBucket, new_bucket}
use actjs.Policy.Principal.{Principal}
use actjs.Prelude.{◌≤◌, refl, none, some, List, [], ◌∷◌, arith}
use actjs.Prelude.Keys.{string_keyed, nat_keyed}
use actjs.Prelude.Map.{get}
use actjs.Limits.TokenBucket.Laws.{IsBucket}
use actjs.Limits.TokenBucket.Rate.{Request, spent, new_bucket-spent}

abbrev small_bucket : TokenBucket
small_bucket = record {
  buckets = [];
  capacity = 2;
  refill_per_sec = 4;
  idle_evict_ms = 600000;
  last_gc_at = 0;
}

abbrev calls : List Request
calls =
    record { delay = 0; subject = "u"; cost = 2 }
    ∷ record { delay = 100; subject = "u"; cost = 1 }
    ∷ record { delay = 200; subject = "u"; cost = 1 }
    ∷ []

new_bucket-spent_example : spent small_bucket 1000 "u" calls ≤ 3200
unfolding new_bucket
new_bucket-spent_example =
    new_bucket-spent (record { capacity = 2; refill_per_sec = 4 }) none small_bucket 1000 "u" calls
      refl

-- The bucket of a subject that has spent its tokens at 1000
abbrev empty_bucket : TokenBucket
empty_bucket = record small_bucket {
  buckets = ("u", record { tokens = 0; last_refill_ms = 1000 }) ∷ [];
}

empty_bucket-IsBucket : IsBucket empty_bucket 1000
unfolding get
empty_bucket-IsBucket = record {
  distinct = (refl, tt);
  within = λ k s e. ground arith;
  past = λ k s e. ground arith;
}

abbrev limiter : RateLimiter
limiter = record { default_bucket = empty_bucket; role_buckets = []; operation = "actor.call" }

abbrev user : Principal
user = record { sub = "u"; roles = none; tenant = none; capabilities = none; claims = none }

abbrev limited : RateLimitedError
limited = record { retry_after_seconds = some 1; subject = "u"; operation = "actor.call" }
