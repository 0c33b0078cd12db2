-- ===== src/Limits/TokenBucket/Laws.antt =====
-- The laws of the token bucket of src/limits/token-bucket.ts.
use actjs.Limits.TokenBucket.{
  maybe_gc, full, is_idle, without_idle, BucketState, refill, TokenBucket, peeked,
}
use actjs.Prelude.Map.{Map, get, set}
use actjs.Prelude.{
  ℕ, ◌+◌, ◌-◌, ◌≤◌, String, ◌≡◌, refl, ap, sym, ◌∙◌, Option, none, some, [], ◌∷◌, ltb, arith,
  if◌then◌else◌, Bool-cases, inl, inr, ◌*◌,
}
use native.Mathlib.Nat.{add-mul, zero-mul}
use actjs.Prelude.Keys.{string_keyed, nat_keyed, ◌==◌}
use actjs.Prelude.Map.Laws.{IsMap, get-set, IsMap-set}

-- What the subject may spend at the time `now`, in thousandths of a token
unfoldable pub level : TokenBucket → ℕ → String → ℕ
level b now subject = (peeked b now (get b.buckets subject)).tokens

-- The buckets at the time `now`: one for each subject, none above the capacity, none refilled later.
pub record IsBucket (b : TokenBucket) (now : ℕ) : Type 0 where
  pub distinct : IsMap b.buckets
  pub within : (k : String) (s : BucketState) → get b.buckets k ≡ some s → s.tokens ≤ full b
  pub past : (k : String) (s : BucketState) → get b.buckets k ≡ some s → s.last_refill_ms ≤ now

refill-within :
    (b : TokenBucket) (now : ℕ) (s : BucketState)
    → s.tokens ≤ full b
    → (refill b now s).tokens ≤ full b
unfolding refill
refill-within b now s h = ground arith

refill-last : (b : TokenBucket) (now : ℕ) (s : BucketState) → (refill b now s).last_refill_ms ≡ now
unfolding refill
refill-last b now s = ground arith

refill-same :
    (b : TokenBucket) (now : ℕ) (s : BucketState)
    → s.last_refill_ms ≡ now
    → (refill b now s).tokens ≡ s.tokens
unfolding refill
refill-same b now s h = ground arith

refill-full :
    (b : TokenBucket) (now : ℕ) (s : BucketState)
    → s.tokens ≤ full b
    → full b ≤ s.tokens
    → (refill b now s).tokens ≡ full b
unfolding refill
refill-full b now s h k = ground arith

-- The tokens that a time adds
refill-later :
    (b : TokenBucket) (now d : ℕ) (s : BucketState)
    → s.last_refill_ms ≤ now
    → (refill b (now + d) s).tokens ≤ (refill b now s).tokens + d * b.refill_per_sec
unfolding refill
refill-later b now d s past =
    let split : (now + d - s.last_refill_ms) * b.refill_per_sec
        ≡ (now - s.last_refill_ms) * b.refill_per_sec + d * b.refill_per_sec =
      ap (λ n. n * b.refill_per_sec) (omega arith)
      ∙ add-mul (now - s.last_refill_ms) d b.refill_per_sec in
    let none_yet : (now - s.last_refill_ms ≡ 0) → (now - s.last_refill_ms) * b.refill_per_sec ≡ 0 =
      λ z. ap (λ n. n * b.refill_per_sec) z ∙ zero-mul b.refill_per_sec in
    ground arith

pub peeked-later :
    (b : TokenBucket) (now d : ℕ) (o : Option BucketState)
    → ((s : BucketState) → o ≡ some s → s.last_refill_ms ≤ now)
    → (peeked b (now + d) o).tokens ≤ (peeked b now o).tokens + d * b.refill_per_sec
peeked-later b now d none past = omega arith
peeked-later b now d (some s) past = refill-later b now d s (past s refl)

abbrev keep : TokenBucket → ℕ → Option BucketState → Option BucketState
keep b now none = none
keep b now (some s) = if is_idle b now s then none else some s

get-without_idle :
    (b : TokenBucket) (now : ℕ) (m : Map String BucketState) (k : String)
    → IsMap m
    → get (without_idle b now m) k ≡ keep b now (get m k)
unfolding get without_idle
get-without_idle b now [] k h = refl
get-without_idle b now ((j, s) ∷ m) k h =
    ground (arith, get-without_idle b now m k h.1, string_keyed.same_key_iff j k, h.0)

IsMap-without_idle :
    (b : TokenBucket) (now : ℕ) (m : Map String BucketState)
    → IsMap m
    → IsMap (without_idle b now m)
unfolding get without_idle
IsMap-without_idle b now [] h = tt
IsMap-without_idle b now ((j, s) ∷ m) h =
    ground (arith, get-without_idle b now m j h.1, IsMap-without_idle b now m h.1, h.0)

keep-level :
    (b : TokenBucket) (now : ℕ) (o : Option BucketState)
    → ((s : BucketState) → o ≡ some s → s.tokens ≤ full b)
    → (peeked b now (keep b now o)).tokens ≡ (peeked b now o).tokens
keep-level b now none within = refl
keep-level b now (some s) within = ground (arith, refill-full b now s (within s refl))

keep-some :
    (b : TokenBucket) (now : ℕ) (o : Option BucketState) (s : BucketState)
    → keep b now o ≡ some s
    → o ≡ some s
keep-some b now none s h = h
keep-some b now (some t) s h = ground arith

pub maybe_gc-level :
    (b : TokenBucket) (now : ℕ) (k : String)
    → IsBucket b now
    → level (maybe_gc b now) now k ≡ level b now k
unfolding maybe_gc level refill
maybe_gc-level b now k h = elim (Bool-cases (ltb now (b.last_gc_at + b.idle_evict_ms))) [
  | inl early ↦ rw early refl
  | inr due ↦ rw due (
      ap (λ o. (peeked b now o).tokens) (get-without_idle b now b.buckets k h.distinct)
      ∙ keep-level b now (get b.buckets k) (h.within k))
]

pub maybe_gc-IsBucket : (b : TokenBucket) (now : ℕ) → IsBucket b now → IsBucket (maybe_gc b now) now
unfolding maybe_gc
maybe_gc-IsBucket b now h = elim (Bool-cases (ltb now (b.last_gc_at + b.idle_evict_ms))) [
  | inl early ↦ rw early h
  | inr due ↦ rw due (record {
    distinct = IsMap-without_idle b now b.buckets h.distinct;
    within = λ k s e. h.within k s (
        keep-some b now (get b.buckets k) s
          (sym (get-without_idle b now b.buckets k h.distinct) ∙ e));
    past = λ k s e. h.past k s (
        keep-some b now (get b.buckets k) s
          (sym (get-without_idle b now b.buckets k h.distinct) ∙ e));
  })
]

pub maybe_gc_limits :
    (b : TokenBucket) (now : ℕ)
    → ((maybe_gc b now).capacity ≡ b.capacity)
      × ((maybe_gc b now).refill_per_sec ≡ b.refill_per_sec)
unfolding maybe_gc
maybe_gc_limits b now = ground arith

-- A write of one bucket
abbrev pub put : TokenBucket → String → BucketState → TokenBucket
put b subject s = record b { buckets = set b.buckets subject s }

pub put-level :
    (b : TokenBucket) (now : ℕ) (subject k : String) (s : BucketState)
    → s.last_refill_ms ≡ now
    → level (put b subject s) now k ≡ (if subject == k then s.tokens else level b now k)
unfolding level refill
put-level b now subject k s e = ground (arith, get-set b.buckets subject k s, e)

pub put-IsBucket :
    (b : TokenBucket) (now : ℕ) (subject : String) (s : BucketState)
    → s.last_refill_ms ≡ now
    → s.tokens ≤ full b
    → IsBucket b now
    → IsBucket (put b subject s) now
put-IsBucket b now subject s e le h = record {
  distinct = IsMap-set b.buckets subject s h.distinct;
  within = λ k t f. ground (arith, get-set b.buckets subject k s, f, h.within k t);
  past = λ k t f. ground (arith, get-set b.buckets subject k s, f, h.past k t);
}

pub peeked-last :
    (b : TokenBucket) (now : ℕ) (o : Option BucketState) → (peeked b now o).last_refill_ms ≡ now
peeked-last b now none = refl
peeked-last b now (some s) = refill-last b now s

pub peeked-within :
    (b : TokenBucket) (now : ℕ) (o : Option BucketState)
    → ((s : BucketState) → o ≡ some s → s.tokens ≤ full b)
    → (peeked b now o).tokens ≤ full b
peeked-within b now none within = omega arith
peeked-within b now (some s) within = refill-within b now s (within s refl)
