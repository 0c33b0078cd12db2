-- ===== src/Limits/TokenBucket.antt =====
-- src/limits/token-bucket.ts. Tokens are counted in thousandths: a millisecond adds `refill_per_sec` of
-- them (`elapsedMs * refillPerMs`), and a cost is given in whole tokens. With that grid
-- `tokens >= capacity - 1e-6` is `tokens >= capacity`. The code computes in doubles with
-- `refillPerMs = refillPerSec / 1000`, which is rounded unless the rate is such a fraction as 125 or 250 a
-- second; the model has the numbers before rounding, so that what `refill` holds and when `retry_after`
-- ends may differ from the code by a last digit, which can be a millisecond of waiting or one refusal at
-- the edge. The clock is an argument of each operation, and may go back.
pub mod Laws
pub mod Rate
use actjs.Prelude.{
  ◌&&◌, ◌*◌, ◌/◌, ℕ, ◌+◌, ◌-◌, String, Bool, true, false, Option, none, some, [], ◌∷◌, leb, ltb,
  get_or, if◌then◌else◌,
}
use actjs.Prelude.Keys.{string_keyed, nat_keyed}
use actjs.Prelude.Map.{Map, get, set}
use actjs.Prelude.Outcome.{Outcome, ok, throw}
use actjs.Prelude.{min}

pub record TokenBucketConfig : Type 0 where
  pub capacity : ℕ
  pub refill_per_sec : ℕ

pub record BucketState : Type 0 where
  pub tokens : ℕ
  pub last_refill_ms : ℕ

pub record TokenBucket : Type 0 where
  pub buckets : Map String BucketState
  pub capacity : ℕ
  pub refill_per_sec : ℕ
  pub idle_evict_ms : ℕ
  pub last_gc_at : ℕ

-- `retry_after_ms` is `none` for `Number.POSITIVE_INFINITY`.
pub record TokenBucketResult : Type 0 where
  pub ok : Bool
  pub retry_after_ms : Option ℕ
  pub remaining : ℕ

pub data BucketError : Type 0 where
  capacity_not_positive : BucketError

-- The constructor; a negative refill rate, which it refuses, is no natural number.
unfoldable pub new_bucket : TokenBucketConfig → Option ℕ → Outcome BucketError TokenBucket
new_bucket config idle_evict_ms =
    if leb config.capacity 0
    then throw capacity_not_positive
    else ok (record {
      buckets = [];
      capacity = config.capacity;
      refill_per_sec = config.refill_per_sec;
      idle_evict_ms = get_or idle_evict_ms 600000;
      last_gc_at = 0;
    })

-- `capacity`, in thousandths
abbrev pub full : TokenBucket → ℕ
full b = b.capacity * 1000

-- What `peek` makes of a bucket that is there
unfoldable pub refill : TokenBucket → ℕ → BucketState → BucketState
refill b now s =
    if ltb s.last_refill_ms now && ltb 0 b.refill_per_sec
    then record {
      tokens = min (full b) (s.tokens + (now - s.last_refill_ms) * b.refill_per_sec);
      last_refill_ms = now;
    }
    else record { tokens = s.tokens; last_refill_ms = now }

abbrev pub peeked : TokenBucket → ℕ → Option BucketState → BucketState
peeked b now none = record { tokens = full b; last_refill_ms = now }
peeked b now (some s) = refill b now s

-- The state that `peek` returns; it is also stored.
unfoldable pub peek : TokenBucket → String → ℕ → BucketState × TokenBucket
unfolding refill
peek b subject now =
    let s = peeked b now (get b.buckets subject) in
    (s, record b { buckets = set b.buckets subject s })

abbrev pub is_idle : TokenBucket → ℕ → BucketState → Bool
is_idle b now s = ltb (s.last_refill_ms + b.idle_evict_ms) now && leb (full b) s.tokens

-- The loop of `maybeGc`, over the entries
unfoldable pub without_idle : TokenBucket → ℕ → Map String BucketState → Map String BucketState
without_idle b now [] = []
without_idle b now ((k, s) ∷ m) =
    let rest = without_idle b now m in if is_idle b now s then rest else (k, s) ∷ rest

unfoldable pub maybe_gc : TokenBucket → ℕ → TokenBucket
unfolding without_idle
maybe_gc b now =
    if ltb now (b.last_gc_at + b.idle_evict_ms)
    then b
    else record b { last_gc_at = now; buckets = without_idle b now b.buckets }

-- `Math.ceil(deficit / refillPerMs)`
abbrev pub retry_after : TokenBucket → ℕ → Option ℕ
retry_after b deficit =
    if ltb 0 b.refill_per_sec
    then some ((deficit + (b.refill_per_sec - 1)) / b.refill_per_sec)
    else none

abbrev pub try_with : TokenBucket → String → ℕ → BucketState → TokenBucketResult × TokenBucket
try_with b subject cost s =
    if leb (cost * 1000) s.tokens
    then (
      record { ok = true; retry_after_ms = some 0; remaining = (s.tokens - cost * 1000) / 1000 },
      record b { buckets = set b.buckets subject (record s { tokens = s.tokens - cost * 1000 }) },
    )
    else (
      record {
        ok = false;
        retry_after_ms = retry_after b (cost * 1000 - s.tokens);
        remaining = s.tokens / 1000;
      },
      b,
    )

-- `try(subject, cost)`; `try` alone is a word of the language.
unfoldable pub try_take : TokenBucket → ℕ → String → ℕ → TokenBucketResult × TokenBucket
unfolding peek maybe_gc
try_take b now subject cost =
    if leb cost 0
    then (record { ok = true; retry_after_ms = some 0; remaining = b.capacity }, b)
    else (let (s, b') = peek (maybe_gc b now) subject now in try_with b' subject cost s)

unfoldable pub remaining : TokenBucket → ℕ → String → ℕ × TokenBucket
unfolding peek
remaining b now subject = let (s, b') = peek b subject now in (s.tokens / 1000, b')
