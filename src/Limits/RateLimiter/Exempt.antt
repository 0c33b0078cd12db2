-- ===== src/Limits/RateLimiter/Exempt.antt =====
-- What `enforce` of src/limits/rate-limiter.ts refuses.
use actjs.Limits.RateLimiter.{
  seconds, is_exempt, subject_of, RateLimitedError, bucket_role, bucket_of, check, RateLimiter,
  enforce,
}
use actjs.Prelude.{
  ℕ, ◌+◌, ◌≤◌, ◌≡◌, refl, ap, sym, ◌∙◌, false, Option, some, [], leb, get_or, arith, if◌then◌else◌,
  Bool-cases, inl, inr, ◌/◌, ◌*◌,
}
use actjs.Prelude.Keys.{string_keyed, nat_keyed}
use actjs.Prelude.Outcome.{Outcome, ok, throw}
use actjs.Policy.Principal.{Principal, roles_of}
use actjs.Limits.TokenBucket.{TokenBucket, try_take}

-- The bucket that counts for a principal
abbrev pub charged : RateLimiter → Option Principal → TokenBucket
charged l principal = bucket_of l (bucket_role l.role_buckets (get_or (roles_of principal) []))

seconds-cover : (ms : ℕ) → (s : ℕ) × (seconds (some ms) ≡ some s) × (1 ≤ s) × (ms ≤ s * 1000)
seconds-cover ms =
    let n = (ms + 999) / 1000 in
    let up : ms ≤ n * 1000 = omega arith in
    ((if leb n 1 then 1 else n), refl, ground arith, ground (arith, up))

-- A principal that `enforce` refuses is not the system's, and its bucket refused it; if the
-- bucket named a wait, the error names the principal and a whole number of seconds that is at
-- least one and at least that wait.
pub enforce-retry_after :
    (l : RateLimiter) (now : ℕ) (principal : Option Principal) (cost ms : ℕ)
    (error : RateLimitedError)
    → (enforce l now principal cost).0 ≡ throw error
    → (try_take (charged l principal) now (subject_of principal) cost).0.retry_after_ms ≡ some ms
    → (is_exempt principal ≡ false)
      × ((try_take (charged l principal) now (subject_of principal) cost).0.ok ≡ false)
      × (error.subject ≡ subject_of principal)
      × ((s : ℕ) × (error.retry_after_seconds ≡ some s) × (1 ≤ s) × (ms ≤ s * 1000))
unfolding enforce check
enforce-retry_after l now principal cost ms error refused told =
    let b = charged l principal in
    let subject = subject_of principal in
    elim (Bool-cases (is_exempt principal)) [
      | inl exempt ↦
          (let no : ◌≡◌ {A = Outcome RateLimitedError (Unit {0})} (ok tt) (throw error) =
              rw exempt at refused in
            cc)
      | inr counts ↦ elim (Bool-cases (try_take b now subject cost).0.ok) [
        | inl granted ↦
            (let no : ◌≡◌ {A = Outcome RateLimitedError (Unit {0})} (ok tt) (throw error) =
                rw (counts, granted) at refused in
              cc)
        | inr short ↦
            let thrown : ◌≡◌ {A = Outcome RateLimitedError (Unit {0})}
                (throw (record {
                  retry_after_seconds = seconds (try_take b now subject cost).0.retry_after_ms;
                  subject = subject;
                  operation = l.operation;
                }))
                (throw error) =
              rw (counts, short) at refused in
            let value : ◌≡◌ {A = RateLimitedError}
                (record {
                  retry_after_seconds = seconds (try_take b now subject cost).0.retry_after_ms;
                  subject = subject;
                  operation = l.operation;
                })
                error =
              cc in
            let (s, is, one, more) = seconds-cover ms in
            (
              counts,
              short,
              sym (ap (λ (e : RateLimitedError). e.subject) value),
              (
                s,
                sym (ap (λ (e : RateLimitedError). e.retry_after_seconds) value)
                    ∙ ap seconds told
                    ∙ is,
                one,
                more,
              ),
            )
      ]
    ]
