-- ===== src/Storage/Driver.antt =====
-- The fields of `MemoryStorageDriver` (src/storage/memory.ts). The clock, `now`, is an argument of
-- each operation: an operation runs without a pause, and reads one time.
use actjs.Prelude.{ℕ, String, Option, List, []}
use actjs.Prelude.Int.{ℤ}
use actjs.Prelude.Map.{Map}
use actjs.Storage.Types.{InboxId, InboxRecord, ReminderMsg, ClassVersionRecord, AuditEntry}

pub record ActorRow : Type 0 where
  pub cls : String
  pub version : String
  pub created_at : ℕ
  pub last_active_at : Option ℕ
  pub tombstoned_at : Option ℕ
  pub tags : Map String String
  pub fence : ℕ

pub record SnapshotRow (V : Type 0) : Type 0 where
  pub ts : ℕ
  pub class_version : String
  pub state : V

pub record EventRow (V : Type 0) : Type 0 where
  pub ts : ℕ
  pub class_version : String
  pub type : String
  pub payload : V
  pub causation_id : Option String

pub record ReminderRow (V : Type 0) : Type 0 where
  pub when : ℕ
  pub msg : ReminderMsg V
  pub seq : ℕ

pub record IdemRow (V : Type 0) : Type 0 where
  pub response : V
  pub stored_at : ℕ
  pub expires_at : ℕ

pub record Driver (V : Type 0) : Type 0 where
  pub actors : Map String ActorRow
  pub snapshots_by_actor : Map String (Map ℤ (SnapshotRow V))
  pub events_by_actor : Map String (Map ℕ (EventRow V))
  pub head_seq_by_actor : Map String ℕ
  pub inbox_by_actor : Map String (List (InboxRecord V))
  pub inbox_acked_by_actor : Map String (List InboxId)
  pub inbox_seq : ℕ
  pub reminders : List (ReminderRow V)
  pub reminder_seq : ℕ
  pub class_versions : Map String ClassVersionRecord
  pub class_source : Map String (List ℕ)
  pub manifests : Map String (Map String String)
  pub idempotency : Map String (IdemRow V)
  pub audit : List (AuditEntry V)

-- `new MemoryStorageDriver()`
abbrev pub new_driver : {V : Type 0} → Driver V
new_driver = record {
  actors = [];
  snapshots_by_actor = [];
  events_by_actor = [];
  head_seq_by_actor = [];
  inbox_by_actor = [];
  inbox_acked_by_actor = [];
  inbox_seq = 0;
  reminders = [];
  reminder_seq = 0;
  class_versions = [];
  class_source = [];
  manifests = [];
  idempotency = [];
  audit = [];
}
