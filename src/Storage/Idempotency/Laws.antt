-- ===== src/Storage/Idempotency/Laws.antt =====
-- What a stored response of src/storage/memory.ts promises to a retry.
use actjs.Prelude.{ℕ, ◌+◌, String, ◌≡◌, ◌≢◌, none, some, arith, ltb, if◌then◌else◌, eq_iff}
use actjs.Prelude.Map.Laws.{get-set_self, get-set, get-delete}
use actjs.Prelude.Keys.{string_keyed}
use actjs.Storage.Driver.{Driver}
use actjs.Storage.Idempotency.{load_idempotency, save_idempotency}

module _ {V : Type 0} where
  -- A response that was saved is loaded exactly while its time to live has not run out.
  pub load_idempotency-save_idempotency :
      (d : Driver V) (now later : ℕ) (key : String) (response : V) (ttl_ms : ℕ)
      → (load_idempotency (save_idempotency d now key response ttl_ms) later key).0 ≡ (
          if ltb later (now + ttl_ms)
          then some (record { key = key; response = response; stored_at = now })
          else none)
  unfolding load_idempotency save_idempotency
  load_idempotency-save_idempotency d now later key response ttl_ms = rw get-set_self (ground arith)

  -- Saving a response under one key, or loading that key, does not change what another key
  -- loads.
  pub load_idempotency-other :
      (d : Driver V) (now later : ℕ) (key other : String) (response : V) (ttl_ms : ℕ)
      → key ≢ other
      → ((load_idempotency (save_idempotency d now key response ttl_ms) later other).0
          ≡ (load_idempotency d later other).0)
        × ((load_idempotency (load_idempotency d now key).1 later other).0
            ≡ (load_idempotency d later other).0)
  unfolding load_idempotency save_idempotency
  load_idempotency-other d now later key other response ttl_ms ne = ground (
    arith,
    get-set d.idempotency key other
        (record { response = response; stored_at = now; expires_at = now + ttl_ms }),
    get-delete d.idempotency key other,
    eq_iff key other,
  )
