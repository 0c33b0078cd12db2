-- ===== src/Client/OfflineQueue.antt =====
-- `MemoryOfflineQueue` of src/client/offline-queue.ts.
use actjs.Prelude.{ℕ, String, not, List, [], ◌∷◌, ◌++◌, if◌then◌else◌}
use actjs.Prelude.Keys.{string_keyed, nat_keyed, ◌==◌}
use actjs.Runtime.Value.{Value}

pub record QueuedCall : Type 0 where
  pub idempotency_key : String
  pub class_name : String
  pub actor_id : String
  pub method : String
  pub args : Value
  pub enqueued_at : ℕ

-- The queue is its entries, which `list` returns; `clear` leaves none.
unfoldable pub enqueue : QueuedCall → List QueuedCall → List QueuedCall
enqueue call entries = entries ++ call ∷ []

unfoldable pub remove : String → List QueuedCall → List QueuedCall
remove key [] = []
remove key (e ∷ es) =
    let rest = remove key es in if not (e.idempotency_key == key) then e ∷ rest else rest
