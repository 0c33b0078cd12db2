-- ===== src/Limits/RateLimiter.antt =====
-- src/limits/rate-limiter.ts, with the errors of src/limits/errors.ts that it throws. The clock is an
-- argument of each operation; `none` stands for an infinite number.
pub mod Exempt
use actjs.Prelude.{
  ℕ, ◌+◌, String, Bool, true, false, Option, none, some, List, [], ◌∷◌, leb, get_or, if◌then◌else◌,
}
use actjs.Prelude.Keys.{string_keyed, nat_keyed}
use actjs.Prelude.{◌/◌}
use actjs.Prelude.Map.{Map, get, set}
use actjs.Prelude.Outcome.{Outcome, ok, throw, ◌>>=◌}
use actjs.Policy.Principal.{Principal, is_system, roles_of}
use actjs.Limits.TokenBucket.{TokenBucket, TokenBucketConfig, BucketError, new_bucket, try_take}

pub record RateLimiterConfig : Type 0 where
  pub default : TokenBucketConfig
  pub per_role : Option (Map String TokenBucketConfig)
  pub operation : Option String

pub record RateLimitCheckResult : Type 0 where
  pub ok : Bool
  pub retry_after_seconds : Option ℕ
  pub remaining : Option ℕ
  pub bucket : String

pub record RateLimitedError : Type 0 where
  pub retry_after_seconds : Option ℕ
  pub subject : String
  pub operation : String

pub record RateLimiter : Type 0 where
  pub default_bucket : TokenBucket
  pub role_buckets : Map String TokenBucket
  pub operation : String

-- The loop of the constructor over `perRole`
unfoldable pub role_buckets_of :
    Map String TokenBucket
    → Map String TokenBucketConfig
    → Outcome BucketError (Map String TokenBucket)
role_buckets_of m [] = ok m
role_buckets_of m ((role, config) ∷ rest) = elim (new_bucket config none) [
  | throw e ↦ throw e
  | ok b ↦ role_buckets_of (set m role b) rest
]

unfoldable pub new_rate_limiter : RateLimiterConfig → Outcome BucketError RateLimiter
unfolding role_buckets_of
new_rate_limiter config = do
  b ← new_bucket config.default none
  roles ← role_buckets_of [] (get_or config.per_role [])
  ok (record {
    default_bucket = b;
    role_buckets = roles;
    operation = get_or config.operation "actor.call";
  })

-- `bucketFor`: the first of the roles that has a bucket, and `none` for the default
unfoldable pub bucket_role : Map String TokenBucket → List String → Option String
bucket_role m [] = none
bucket_role m (role ∷ roles) =
    let rest = bucket_role m roles in elim (get m role) [ none ↦ rest | some b ↦ some role ]

abbrev pub bucket_of : RateLimiter → Option String → TokenBucket
bucket_of l none = l.default_bucket
bucket_of l (some role) = get_or (get l.role_buckets role) l.default_bucket

abbrev pub with_bucket : RateLimiter → Option String → TokenBucket → RateLimiter
with_bucket l none b = record l { default_bucket = b }
with_bucket l (some role) b = record l { role_buckets = set l.role_buckets role b }

abbrev pub subject_of : Option Principal → String
subject_of none = "anonymous"
subject_of (some p) = p.sub

abbrev pub is_exempt : Option Principal → Bool
is_exempt none = false
is_exempt (some p) = is_system p

-- `Math.max(1, Math.ceil(ms / 1000))`
abbrev pub seconds : Option ℕ → Option ℕ
seconds none = none
seconds (some ms) = let s = (ms + 999) / 1000 in some (if leb s 1 then 1 else s)

unfoldable pub check : RateLimiter → ℕ → Option Principal → ℕ → RateLimitCheckResult × RateLimiter
unfolding bucket_role
check l now principal cost =
    if is_exempt principal
    then (record { ok = true; retry_after_seconds = some 0; remaining = none; bucket = "" }, l)
    else (let subject = subject_of principal in
        let role = bucket_role l.role_buckets (get_or (roles_of principal) []) in
        let (result, b) = try_take (bucket_of l role) now subject cost in
        (
          record {
            ok = result.ok;
            retry_after_seconds = seconds result.retry_after_ms;
            remaining = some result.remaining;
            bucket = subject;
          },
          with_bucket l role b,
        ))

unfoldable pub enforce :
    RateLimiter → ℕ → Option Principal → ℕ → Outcome RateLimitedError (Unit {0}) × RateLimiter
unfolding check
enforce l now principal cost =
    let (result, l') = check l now principal cost in
    if result.ok then (ok tt, l') else (
      throw (record {
        retry_after_seconds = result.retry_after_seconds;
        subject = result.bucket;
        operation = l.operation;
      }),
      l',
    )
