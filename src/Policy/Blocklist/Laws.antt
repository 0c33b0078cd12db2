-- ===== src/Policy/Blocklist/Laws.antt =====
-- The laws of src/policy/blocklist.ts.
use actjs.Prelude.{
  ltb→lt, Option-cases, lt→ltb, ◌⊎◌, ℕ, ◌+◌, ◌<◌, String, ◌≡◌, refl, ◌∙◌, true, none, some, ltb,
  arith, Bool-cases, inl, inr,
}
use actjs.Prelude.Keys.{string_keyed, nat_keyed}
use actjs.Prelude.Map.{get, delete}
use actjs.Prelude.Map.Laws.{get-set_self, get-delete, ==-refl}
use actjs.Policy.Blocklist.{
  MemoryBlocklist, CachedBlocklist, CacheRow, is_revoked, revoke, is_revoked_cached, revoke_cached,
}

-- A token that is revoked until a time in the future is revoked up to that time, and not from it on.
pub is_revoked-revoke :
    (b : MemoryBlocklist) (now t : ℕ) (jti : String) (exp : ℕ)
    → now < exp
    → (is_revoked (revoke b now jti exp) t jti).0 ≡ ltb t exp
unfolding is_revoked revoke
is_revoked-revoke b now t jti exp ahead = ground (arith, get-set_self b.entries jti exp)

-- Whatever the cache holds, a revocation until a time in the future that goes through it is
-- seen by the next lookup of the token before that time.
pub is_revoked_cached-revoke_cached :
    (c : CachedBlocklist) (now t : ℕ) (jti : String) (exp : ℕ)
    → now < exp
    → t < exp
    → (is_revoked_cached (revoke_cached c now jti exp) t jti).0 ≡ true
unfolding is_revoked_cached revoke_cached
is_revoked_cached-revoke_cached c now t jti exp ahead before =
    let fresh : get (delete c.cache jti) jti ≡ none =
      get-delete c.cache jti jti ∙ rw (==-refl jti) refl in
    rw fresh (is_revoked-revoke c.source now t jti exp ahead ∙ lt→ltb t exp before)

-- The answer of the cache is the source's answer, or what the cache holds from a check that is
-- less than the time to live ago.
pub is_revoked_cached_lag :
    (c : CachedBlocklist) (t : ℕ) (jti : String)
    → ((is_revoked_cached c t jti).0 ≡ (is_revoked c.source t jti).0)
      ⊎ ((row : CacheRow) × (get c.cache jti ≡ some row)
          × (t < row.checked_at + c.ttl_ms)
          × ((is_revoked_cached c t jti).0 ≡ row.revoked))
unfolding is_revoked_cached
is_revoked_cached_lag c t jti = elim (Option-cases (get c.cache jti)) [
  | inl absent ↦ inl (rw absent refl)
  | inr (row, there) ↦ elim (Bool-cases (ltb t (row.checked_at + c.ttl_ms))) [
    | inl fresh ↦
        inr (row, there, ltb→lt t (row.checked_at + c.ttl_ms) fresh, rw (there, fresh) refl)
    | inr old ↦ inl (rw (there, old) refl)
  ]
]
