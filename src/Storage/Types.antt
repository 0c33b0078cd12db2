-- ===== src/Storage/Types.antt =====
-- The records and errors of src/storage/driver.ts. `unknown` (a state, a payload, a response) is the
-- type parameter `V`; a `bigint` that counts is ℕ, and a snapshot's seq, which may be -1, is ℤ.
use actjs.Prelude.{ℕ, String, Bool, Option, List, ◌≡◌, ◌↔◌, arith, ◌&&◌}
use actjs.Prelude.Int.{ℤ}
use actjs.Prelude.Map.{Map}
use actjs.Prelude.Keys.{Keyed}
use actjs.Prelude.{nat_beq, true}

pub record SnapshotRead (V : Type 0) : Type 0 where
  pub cls : String
  pub version : String
  pub seq : ℤ
  pub state : V

pub record SnapshotWrite (V : Type 0) : Type 0 where
  pub cls : String
  pub version : String
  pub seq : ℤ
  pub state : V

pub record EventWrite (V : Type 0) : Type 0 where
  pub type : String
  pub payload : V
  pub causation_id : Option String

pub record EventRecord (V : Type 0) : Type 0 where
  pub actor_id : String
  pub seq : ℕ
  pub ts : ℕ
  pub class_version : String
  pub type : String
  pub payload : V
  pub causation_id : Option String

pub record InboxEntry (V : Type 0) : Type 0 where
  pub type : String
  pub payload : V

-- The text `${now}-${seq}`, by its two parts.
pub record InboxId : Type 0 where
  pub now : ℕ
  pub seq : ℕ

abbrev pub inbox_id_beq : InboxId → InboxId → Bool
inbox_id_beq a b = nat_beq a.now b.now && nat_beq a.seq b.seq

pub inbox_id_beq_iff : (a b : InboxId) → (inbox_id_beq a b ≡ true) ↔ (a ≡ b)
inbox_id_beq_iff a b = (λ h. ground arith, λ h. ground arith)

instance abbrev pub inbox_id_keyed : Keyed InboxId
inbox_id_keyed = record { same_key = inbox_id_beq; same_key_iff = inbox_id_beq_iff }

pub record InboxRecord (V : Type 0) : Type 0 where
  pub id : InboxId
  pub entry : InboxEntry V

pub record ReminderMsg (V : Type 0) : Type 0 where
  pub actor_id : String
  pub class_name : String
  pub type : String
  pub payload : V

abbrev pub DepsMap : Type 0
DepsMap = Map String String

pub record ClassVersionRecord : Type 0 where
  pub name : String
  pub version : String
  pub source_sha256 : String
  pub deps : DepsMap
  pub engines : Map String String
  pub published_at : ℕ
  pub deprecated_at : Option ℕ
  pub grace_until : Option ℕ
  pub signed_by : Option String
  pub floating : Bool
  pub event_sourced : Bool

-- `source` is the buffer's bytes; `signature` keeps the signer's name, which is all that is stored.
pub record PublishClassInput : Type 0 where
  pub name : String
  pub version : String
  pub source : List ℕ
  pub deps : DepsMap
  pub engines : Map String String
  pub floating : Option Bool
  pub event_sourced : Option Bool
  pub signed_by : Option String

pub record AuditEntry (V : Type 0) : Type 0 where
  pub id : String
  pub ts : ℕ
  pub principal : String
  pub action : String
  pub target : String
  pub meta : V

pub record IdempotencyRecord (V : Type 0) : Type 0 where
  pub key : String
  pub response : V
  pub stored_at : ℕ

pub data StorageError : Type 0 where
  version_already_published : String → String → StorageError
  stale_fence_token : String → ℕ → ℕ → StorageError
  unknown_actor : String → StorageError
  unknown_class_version : String → StorageError
