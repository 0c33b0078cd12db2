-- ===== src/Storage/Idempotency.antt =====
-- loadIdempotency, saveIdempotency and appendAudit of src/storage/memory.ts.
pub mod Laws
use actjs.Prelude.{ℕ, ◌+◌, String, Option, none, some, [], ◌∷◌, ◌++◌, leb, if◌then◌else◌}
use actjs.Prelude.Keys.{string_keyed}
use actjs.Prelude.Map.{get, set, delete}
use actjs.Storage.Types.{IdempotencyRecord, AuditEntry}
use actjs.Storage.Driver.{Driver, IdemRow}

module _ {V : Type 0} where
  abbrev load_row :
      Driver V → ℕ → String → Option (IdemRow V) → Option (IdempotencyRecord V) × Driver V
  load_row d now key none = (none, d)
  load_row d now key (some row) =
      if leb row.expires_at now
      then (none, record d { idempotency = delete d.idempotency key })
      else (some (record { key = key; response = row.response; stored_at = row.stored_at }), d)

  -- An expired row is dropped when it is read.
  unfoldable pub load_idempotency : Driver V → ℕ → String → Option (IdempotencyRecord V) × Driver V
  load_idempotency d now key = load_row d now key (get d.idempotency key)

  unfoldable pub save_idempotency : Driver V → ℕ → String → V → ℕ → Driver V
  save_idempotency d now key response ttl_ms = record d {
    idempotency =
        set d.idempotency key
          (record { response = response; stored_at = now; expires_at = now + ttl_ms });
  }

  unfoldable pub append_audit : Driver V → AuditEntry V → Driver V
  append_audit d entry = record d { audit = d.audit ++ entry ∷ [] }
