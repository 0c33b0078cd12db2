-- ===== src/Policy/Blocklist.antt =====
-- src/policy/blocklist.ts: the revoked token ids, and a cache in front of a blocklist. The clock is an
-- argument of each operation.
pub mod Laws
use actjs.Prelude.{
  ℕ, ◌+◌, String, Bool, true, false, Option, none, some, [], ◌∷◌, length, leb, ltb, if◌then◌else◌,
}
use actjs.Prelude.Keys.{string_keyed, nat_keyed}
use actjs.Prelude.Map.{Map, get, set, delete}

-- `MemoryBlocklist`: the time at which each revocation expires
pub record MemoryBlocklist : Type 0 where
  pub entries : Map String ℕ

abbrev pub found : MemoryBlocklist → ℕ → String → Option ℕ → Bool × MemoryBlocklist
found b now jti none = (false, b)
found b now jti (some exp) =
    if leb exp now then (false, record { entries = delete b.entries jti }) else (true, b)

unfoldable pub is_revoked : MemoryBlocklist → ℕ → String → Bool × MemoryBlocklist
is_revoked b now jti = found b now jti (get b.entries jti)

unfoldable pub revoke : MemoryBlocklist → ℕ → String → ℕ → MemoryBlocklist
revoke b now jti expires_at_ms =
    if leb expires_at_ms now then b else record { entries = set b.entries jti expires_at_ms }

unfoldable pub unrevoke : MemoryBlocklist → String → MemoryBlocklist
unrevoke b jti = record { entries = delete b.entries jti }

-- The loop of `size`
unfoldable pub unexpired : ℕ → Map String ℕ → Map String ℕ
unexpired now [] = []
unexpired now ((jti, exp) ∷ m) =
    let rest = unexpired now m in if leb exp now then rest else (jti, exp) ∷ rest

unfoldable pub size : MemoryBlocklist → ℕ → ℕ × MemoryBlocklist
unfolding unexpired
size b now = let m = unexpired now b.entries in (length m, record { entries = m })

pub record CacheRow : Type 0 where
  pub revoked : Bool
  pub checked_at : ℕ

-- `CachedBlocklist`, in front of a `MemoryBlocklist`
pub record CachedBlocklist : Type 0 where
  pub source : MemoryBlocklist
  pub ttl_ms : ℕ
  pub cache : Map String CacheRow

abbrev pub ask : CachedBlocklist → ℕ → String → Bool × CachedBlocklist
ask c now jti =
    let (revoked, source) = is_revoked c.source now jti in
    (
      revoked,
      record c {
        source = source;
        cache = set c.cache jti (record { revoked = revoked; checked_at = now });
      },
    )

-- `now - cached.checkedAt < ttlMs`
abbrev pub consult : CachedBlocklist → ℕ → String → Option CacheRow → Bool × CachedBlocklist
consult c now jti none = ask c now jti
consult c now jti (some row) =
    if ltb now (row.checked_at + c.ttl_ms) then (row.revoked, c) else ask c now jti

unfoldable pub is_revoked_cached : CachedBlocklist → ℕ → String → Bool × CachedBlocklist
unfolding is_revoked
is_revoked_cached c now jti = consult c now jti (get c.cache jti)

unfoldable pub revoke_cached : CachedBlocklist → ℕ → String → ℕ → CachedBlocklist
unfolding revoke
revoke_cached c now jti expires_at_ms = record c {
  source = revoke c.source now jti expires_at_ms;
  cache = delete c.cache jti;
}

unfoldable pub unrevoke_cached : CachedBlocklist → String → CachedBlocklist
unfolding unrevoke
unrevoke_cached c jti = record c { source = unrevoke c.source jti; cache = delete c.cache jti }

unfoldable pub size_cached : CachedBlocklist → ℕ → ℕ × CachedBlocklist
unfolding size
size_cached c now = let (n, source) = size c.source now in (n, record c { source = source })
