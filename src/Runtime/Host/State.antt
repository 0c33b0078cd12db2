-- ===== src/Runtime/Host/State.antt =====
-- The fields of `ActorHost` (src/runtime/host.ts), and the world in which its methods run. The
-- worker is the mailbox's one consumer: `in_hand` is the item that it was given and has not handled.
use actjs.Runtime.Mailbox.{Mailbox}
use actjs.Prelude.{ℕ, String, Bool, false, Option, none, List, [], get_or}
use actjs.Prelude.Outcome.{Outcome, ok, throw}
use actjs.Storage.Types.{InboxId, StorageError}
use actjs.Storage.Driver.{Driver}
use actjs.Runtime.Value.{Value, EventError}
use actjs.Runtime.ActorClass.{ActorClass}

pub data HostError : Type 0 where
  storage : StorageError → HostError
  event : EventError → HostError
  thrown : Value → HostError
  destroyed mailbox_full mailbox_closed : HostError
  no_handler not_an_array : String → HostError
  manifest_regression : String → String → HostError
  no_loader load_failed : String → HostError

-- A call carries the number of its promise.
pub data MailboxItem : Type 0 where
  tell_item : String → Value → InboxId → MailboxItem
  call_item : String → Value → ℕ → MailboxItem

pub data CommitInfo : Type 0 where
  patch : List Value → Value → CommitInfo
  events : List Value → ℕ → Value → CommitInfo
  tombstone : CommitInfo

pub record Registration : Type 0 where
  pub name : String
  pub version : String
  pub ctor : ActorClass
  pub mailbox_capacity : Option ℕ
  pub snapshot_every_n_events : Option ℕ
  pub floating : Option Bool

abbrev pub capacity_of : Registration → ℕ
capacity_of r = get_or r.mailbox_capacity 1024

abbrev pub every_of : Registration → ℕ
every_of r = get_or r.snapshot_every_n_events 100

pub record Metrics : Type 0 where
  pub tells_handled : ℕ
  pub calls_handled : ℕ
  pub tells_dropped : ℕ
  pub snapshots_written : ℕ
  pub handler_errors : ℕ
  pub events_appended : ℕ
  pub events_replayed : ℕ
  pub migrations_applied : ℕ

-- `cls` is the class of `instance`; `state` is `instance.state`, and `none` is `instance === null`.
-- `replies` are the settled promises, newest first; `commits` is what the listeners were given.
pub record Host : Type 0 where
  pub id : String
  pub registration : Registration
  pub cls : ActorClass
  pub state : Option Value
  pub mailbox : Mailbox MailboxItem
  pub in_hand : Option MailboxItem
  pub worker_running : Bool
  pub current_seq : ℕ
  pub events_since_snapshot : ℕ
  pub snapshot_timer : Bool
  pub snapshot_dirty : Bool
  pub idle_timer : Bool
  pub last_active_at : ℕ
  pub activated : Bool
  pub is_destroyed : Bool
  pub metrics : Metrics
  pub fence_token : ℕ
  pub running_version : String
  pub listeners : ℕ
  pub prev_state_capture : Option Value
  pub replies : List (ℕ × Outcome HostError Value)
  pub commits : List CommitInfo

pub record World : Type 0 where
  pub driver : Driver Value
  pub host : Host
  pub clock : ℕ

abbrev pub no_metrics : Metrics
no_metrics = record {
  tells_handled = 0;
  calls_handled = 0;
  tells_dropped = 0;
  snapshots_written = 0;
  handler_errors = 0;
  events_appended = 0;
  events_replayed = 0;
  migrations_applied = 0;
}

-- `new ActorHost(options)`
unfoldable pub new_host : String → Registration → Host
new_host id registration = record {
  id = id;
  registration = registration;
  cls = registration.ctor;
  state = none;
  mailbox = record {
    capacity = capacity_of registration;
    buffer = [];
    waiters = [];
    closed = false;
  };
  in_hand = none;
  worker_running = false;
  current_seq = 0;
  events_since_snapshot = 0;
  snapshot_timer = false;
  snapshot_dirty = false;
  idle_timer = false;
  last_active_at = 0;
  activated = false;
  is_destroyed = false;
  metrics = no_metrics;
  fence_token = 0;
  running_version = registration.version;
  listeners = 0;
  prev_state_capture = none;
  replies = [];
  commits = [];
}

-- An action returns or throws, and leaves a world in either case.
abbrev pub Act {ℓ} : Type ℓ → Type ℓ
Act A = World → Outcome HostError A × World

abbrev pub continue {ℓ κ} :
    {A : Type ℓ} {B : Type κ}
    → Outcome HostError A
    → (A → World → Outcome HostError B × World)
    → World
    → Outcome HostError B × World
continue (ok a) f w = f a w
continue (throw e) f w = (throw e, w)

infixl 5 ◌>>=◌ ◌>>◌
abbrev pub ◌>>=◌ {ℓ κ} :
    {A : Type ℓ} {B : Type κ}
    → (World → Outcome HostError A × World)
    → (A → World → Outcome HostError B × World)
    → World
    → Outcome HostError B × World
◌>>=◌ m f w = let (r, w') = m w in continue r f w'

abbrev pub ◌>>◌ {ℓ κ} :
    {A : Type ℓ} {B : Type κ}
    → (World → Outcome HostError A × World)
    → (World → Outcome HostError B × World)
    → World
    → Outcome HostError B × World
m >> k = m >>= λ _. k

abbrev pub pure {ℓ} : {A : Type ℓ} → A → Act A
pure a w = (ok a, w)

abbrev pub raise {ℓ} : {A : Type ℓ} → HostError → Act A
raise e w = (throw e, w)

-- An update of the host's fields
abbrev pub modify : (Host → Host) → Act (Unit {0})
modify f w = (ok tt, record w { host = f w.host })

abbrev pub stored :
    World → Outcome StorageError (Driver Value) → Outcome HostError (Unit {0}) × World
stored w (ok d) = (ok tt, record w { driver = d })
stored w (throw e) = (throw (storage e), w)

-- A write to the driver, which may refuse it
abbrev pub write : (Driver Value → Outcome StorageError (Driver Value)) → Act (Unit {0})
write f w = stored w (f w.driver)

abbrev pub recovered {ℓ} :
    {A : Type ℓ} → Outcome HostError A × World → (HostError → Act A) → Outcome HostError A × World
recovered (ok a, w) handler = (ok a, w)
recovered (throw e, w) handler = handler e w

-- `try { m } catch (err) { handler(err) }`
abbrev pub catch {ℓ} : {A : Type ℓ} → Act A → (HostError → Act A) → Act A
catch m handler w = recovered (m w) handler
