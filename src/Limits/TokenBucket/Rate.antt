-- ===== src/Limits/TokenBucket/Rate.antt =====
-- What the token bucket of src/limits/token-bucket.ts grants to a subject over a series of calls.
use actjs.Prelude.{
  ℕ, ◌+◌, ◌-◌, ◌≤◌, String, ◌≡◌, ◌&&◌, refl, ap, sym, ◌∙◌, true, Option, List, [], ◌∷◌, leb, arith,
  if◌then◌else◌, Bool-cases, inl, inr, ◌*◌,
}
use actjs.Limits.TokenBucket.Laws.{
  maybe_gc_limits, maybe_gc-level, maybe_gc-IsBucket, peeked-later, put-IsBucket, peeked-within,
  put-level, peeked-last, IsBucket, level, put,
}
use actjs.Limits.TokenBucket.{
  ok, TokenBucketConfig, new_bucket, full, BucketState, try_with, TokenBucketResult, TokenBucket,
  peeked, peek, maybe_gc, try_take,
}
use actjs.Prelude.Keys.{string_keyed, nat_keyed, ◌==◌}
use native.Mathlib.Nat.{add-mul}
use actjs.Prelude.Map.{get}

-- What a call took from the bucket of `k`
abbrev pub granted : String → String → ℕ → TokenBucketResult → ℕ
granted k subject cost r = if subject == k && r.ok then cost * 1000 else 0

-- A call, behind its collection of idle buckets
abbrev take : TokenBucket → ℕ → String → ℕ → TokenBucketResult × TokenBucket
take b now subject cost =
    let s = peeked b now (get b.buckets subject) in try_with (put b subject s) subject cost s

take-level :
    (b : TokenBucket) (now : ℕ) (subject k : String) (cost : ℕ)
    → IsBucket b now
    → let (r, b') = take b now subject cost in
      level b' now k + granted k subject cost r ≡ level b now k
unfolding level
take-level b now subject k cost h =
    let s : BucketState = peeked b now (get b.buckets subject) in
    let last : s.last_refill_ms ≡ now = peeked-last b now (get b.buckets subject) in
    let same : ((subject == k) ≡ true) → level b now k ≡ s.tokens =
      λ e. ap (level b now) (sym ((string_keyed.same_key_iff subject k).0 e)) in
    let first : level (put b subject s) now k ≡ (if subject == k then s.tokens else level b now k) =
      put-level b now subject k s last in
    let left : BucketState = record s { tokens = s.tokens - cost * 1000 } in
    let second : level (put (put b subject s) subject left) now k
        ≡ (if subject == k then left.tokens else level (put b subject s) now k) =
      put-level (put b subject s) now subject k left last in
    elim (Bool-cases (leb (cost * 1000) s.tokens)) [
      | inl enough ↦ rw enough (ground (arith, first, second, same, enough))
      | inr short ↦ rw short (ground (arith, first, same))
    ]

take-IsBucket :
    (b : TokenBucket) (now : ℕ) (subject : String) (cost : ℕ)
    → IsBucket b now
    → IsBucket (take b now subject cost).1 now
take-IsBucket b now subject cost h =
    let s : BucketState = peeked b now (get b.buckets subject) in
    let last : s.last_refill_ms ≡ now = peeked-last b now (get b.buckets subject) in
    let within : s.tokens ≤ full b =
      peeked-within b now (get b.buckets subject) (h.within subject) in
    let first = put-IsBucket b now subject s last within h in
    elim (Bool-cases (leb (cost * 1000) s.tokens)) [
      | inl enough ↦ rw enough (
          put-IsBucket (put b subject s) now subject (record s { tokens = s.tokens - cost * 1000 })
            last (omega arith) first)
      | inr short ↦ rw short first
    ]

take_limits :
    (b : TokenBucket) (now : ℕ) (subject : String) (cost : ℕ)
    → ((take b now subject cost).1.capacity ≡ b.capacity)
      × ((take b now subject cost).1.refill_per_sec ≡ b.refill_per_sec)
take_limits b now subject cost = ground arith

-- One call at `now + d` on the buckets of `now`
pub record StepsTo (b : TokenBucket) (now d : ℕ) (k : String) (spent : ℕ) (b' : TokenBucket)
    : Type 0 where
  pub bucket : IsBucket b' (now + d)
  pub balance : level b' (now + d) k + spent ≤ level b now k + d * b.refill_per_sec
  pub rate : b'.refill_per_sec ≡ b.refill_per_sec

pub IsBucket-later : (b : TokenBucket) (now d : ℕ) → IsBucket b now → IsBucket b (now + d)
IsBucket-later b now d h = record {
  distinct = h.distinct;
  within = h.within;
  past = λ k s e. omega (arith, h.past k s e);
}

pub try_take-StepsTo :
    (b : TokenBucket) (now d : ℕ) (subject k : String) (cost : ℕ)
    → IsBucket b now
    → let (r, b') = try_take b (now + d) subject cost in
      StepsTo b now d k (granted k subject cost r) b'
unfolding try_take peek level
try_take-StepsTo b now d subject k cost h =
    let later = IsBucket-later b now d h in
    let grows : level b (now + d) k ≤ level b now k + d * b.refill_per_sec =
      peeked-later b now d (get b.buckets k) (h.past k) in
    let c : TokenBucket = maybe_gc b (now + d) in
    let swept : IsBucket c (now + d) = maybe_gc-IsBucket b (now + d) later in
    let kept : level c (now + d) k ≡ level b (now + d) k = maybe_gc-level b (now + d) k later in
    let limits = maybe_gc_limits b (now + d) in
    let taken = take-level c (now + d) subject k cost swept in
    elim (Bool-cases (leb cost 0)) [
      | inl free ↦
          rw free (record { bucket = later; balance = ground (arith, grows, free); rate = refl })
      | inr paid ↦ rw paid (record {
        bucket = take-IsBucket c (now + d) subject cost swept;
        balance = omega (arith, taken, kept, grows);
        rate = (take_limits c (now + d) subject cost).1 ∙ limits.1;
      })
    ]

-- A call of `try`, `delay` milliseconds after the one before it
pub record Request : Type 0 where
  pub delay : ℕ
  pub subject : String
  pub cost : ℕ

abbrev pub elapsed : List Request → ℕ
elapsed [] = 0
elapsed (q ∷ qs) = q.delay + elapsed qs

-- What a series of calls took from the bucket of `k`, in thousandths of a token
abbrev pub spent : TokenBucket → ℕ → String → List Request → ℕ
spent b now k [] = 0
spent b now k (q ∷ qs) =
    let (r, b') = try_take b (now + q.delay) q.subject q.cost in
    granted k q.subject q.cost r + spent b' (now + q.delay) k qs

-- Whatever the calls, of this subject and of others, and whatever idle buckets they collect: on a
-- clock that does not go back, a subject is granted at most what it has at the start and what the
-- elapsed time refills.
pub spent_bound :
    (b : TokenBucket) (now : ℕ) (k : String) (qs : List Request)
    → IsBucket b now
    → spent b now k qs ≤ level b now k + elapsed qs * b.refill_per_sec
spent_bound b now k [] h = omega arith
spent_bound b now k (q ∷ qs) h =
    let step = try_take-StepsTo b now q.delay q.subject k q.cost h in
    let rest =
      spent_bound (try_take b (now + q.delay) q.subject q.cost).1 (now + q.delay) k qs
        step.bucket in
    let fixed : elapsed qs * (try_take b (now + q.delay) q.subject q.cost).1.refill_per_sec
        ≡ elapsed qs * b.refill_per_sec =
      ap (λ n. elapsed qs * n) step.rate in
    omega (arith, step.balance, rest, fixed, add-mul q.delay (elapsed qs) b.refill_per_sec)

empty-IsBucket : (b : TokenBucket) (now : ℕ) → b.buckets ≡ [] → IsBucket b now
unfolding get
empty-IsBucket b now e = record {
  distinct = rw e tt;
  within = λ k s f. ground (arith, e, f);
  past = λ k s f. ground (arith, e, f);
}

empty-level : (b : TokenBucket) (now : ℕ) (k : String) → b.buckets ≡ [] → level b now k ≡ full b
unfolding get level
empty-level b now k e = ground (arith, e)

new_bucket_lem :
    (config : TokenBucketConfig) (idle : Option ℕ) (b : TokenBucket)
    → new_bucket config idle ≡ ok b
    → (b.buckets ≡ []) × (b.capacity ≡ config.capacity) × (b.refill_per_sec ≡ config.refill_per_sec)
unfolding new_bucket
new_bucket_lem config idle b h = ground arith

-- On a clock that does not go back, a subject of a new bucket is granted at most the capacity
-- and the refill of the elapsed time, whatever the calls.
pub new_bucket-spent :
    (config : TokenBucketConfig) (idle : Option ℕ) (b : TokenBucket) (now : ℕ) (k : String)
    (qs : List Request)
    → new_bucket config idle ≡ ok b
    → spent b now k qs ≤ config.capacity * 1000 + elapsed qs * config.refill_per_sec
new_bucket-spent config idle b now k qs h =
    let (none_yet, cap, rate) = new_bucket_lem config idle b h in
    rw (← cap, ← rate)
      (omega (
        arith,
        spent_bound b now k qs (empty-IsBucket b now none_yet),
        empty-level b now k none_yet,
      ))
