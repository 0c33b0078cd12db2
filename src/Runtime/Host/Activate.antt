-- ===== src/Runtime/Host/Activate.antt =====
-- Activation in src/runtime/host.ts: `activate`, `resolveCtor`, `migrateSnapshot` and
-- `replayEvents`. `gt` is that of the semver package, and `load` is the class loader, if one is
-- configured: the class for a name and a version. No auditor is configured.
use actjs.Prelude.{
  ℕ, suc, ◌+◌, String, Bool, true, false, Option, none, some, List, [], ◌∷◌, leb, get_or,
  if◌then◌else◌,
}
use actjs.Prelude.Keys.{string_keyed, ◌==◌}
use actjs.Prelude.Outcome.{Outcome, ok, throw}
use actjs.Prelude.Int.{ℤ, pos, negsuc}
use actjs.Storage.Types.{SnapshotRead, EventRecord, InboxRecord}
use actjs.Storage.Actors.{register_actor, load_actor_fence}
use actjs.Storage.Inbox.{read_pending_inbox}
use actjs.Storage.Events.{head_event_seq, read_events}
use actjs.Storage.Snapshots.{load_snapshot, save_snapshot}
use actjs.Runtime.Mailbox.{
  MailboxError, Mailbox, Enqueued, refused, pushed, handed_to, Dequeued, item, ended, waiting,
  enqueue, dequeue,
}
use actjs.Runtime.Value.{Value}
use actjs.Runtime.ActorClass.{ActorClass}
use actjs.Runtime.Host.State.{
  World, Host, Act, HostError, destroyed, mailbox_closed, manifest_regression, no_loader,
  MailboxItem, tell_item, Registration, capacity_of, every_of, ◌>>=◌, ◌>>◌, pure, raise, modify,
  write,
}
use actjs.Runtime.Host.Commit.{flush_snapshot, touch}

-- What `resolveCtor` decides.
pub record Resolved : Type 0 where
  pub ctor : ActorClass
  pub running_version : String
  pub will_migrate : Bool

abbrev pub loaded : String → Outcome HostError ActorClass → Outcome HostError Resolved
loaded version (ok ctor) =
    ok (record { ctor = ctor; running_version = version; will_migrate = false })
loaded version (throw e) = throw e

-- An actor's item goes to the worker that waits, or into the buffer; `false` is a full mailbox.
abbrev pub enqueued : Host → MailboxItem → Enqueued × Mailbox MailboxItem → Bool × Host
enqueued h it (refused, m) = (false, h)
enqueued h it (pushed, m) = (true, record h { mailbox = m })
enqueued h it (handed_to w, m) = (true, record h { mailbox = m; in_hand = some it })

abbrev pub put_result :
    World
    → MailboxItem
    → Outcome MailboxError (Enqueued × Mailbox MailboxItem)
    → Outcome HostError Bool × World
put_result w it (throw e) = (throw mailbox_closed, w)
put_result w it (ok r) =
    let (accepted, h) = enqueued w.host it r in (ok accepted, record w { host = h })

unfoldable pub put : MailboxItem → Act Bool
unfolding enqueue
put it w = put_result w it (enqueue w.host.mailbox it)

-- The worker asks for its next item.
abbrev pub taken : Host → Dequeued MailboxItem × Mailbox MailboxItem → Host
taken h (item it, m) = record h { mailbox = m; in_hand = some it }
taken h (ended, m) = record h { mailbox = m; in_hand = none; worker_running = false }
taken h (waiting, m) = record h { mailbox = m; in_hand = none }

unfoldable pub take_next : Host → Host
unfolding dequeue
take_next h = taken h (dequeue h.mailbox 0)

-- The event that is folded for a record: migrated if it was appended under another version than the
-- registered one and the class can migrate events.
abbrev pub event_of : ActorClass → String → EventRecord Value → Value
event_of cls version r = elim cls.migrate_event [
  | none ↦ r.payload
  | some f ↦ if r.class_version == version then r.payload else f r.payload r.class_version
]

-- The loop of `replayEvents`: the state, the last seq and the count
unfoldable pub replay_records :
    ActorClass → String → Value → ℕ → ℕ → List (EventRecord Value) → Value × ℕ × ℕ
replay_records cls version state seq n [] = (state, seq, n)
replay_records cls version state seq n (r ∷ rs) =
    replay_records cls version (cls.reduce state (event_of cls version r)) r.seq (suc n) rs

abbrev pub replayed : Value × ℕ × ℕ → Host → Host
replayed (state, seq, n) h = record h {
  state = some state;
  current_seq = seq;
  metrics = record h.metrics { events_replayed = h.metrics.events_replayed + n };
  events_since_snapshot = n;
}

abbrev pub flush_if_long : Act (Unit {0})
flush_if_long w =
    if leb (every_of w.host.registration) w.host.events_since_snapshot
    then (do modify λ h. record h { snapshot_dirty = true }; flush_snapshot) w
    else (ok tt, w)

abbrev pub replay_tail : World → Value × ℕ × ℕ
replay_tail w =
    replay_records w.host.cls w.host.registration.version (get_or w.host.state Value.undefined)
      w.host.current_seq 0 (read_events w.driver w.host.id (suc w.host.current_seq))

unfoldable pub replay_events : Act (Unit {0})
unfolding replay_records
replay_events w =
    if leb (head_event_seq w.driver w.host.id) w.host.current_seq
    then (ok tt, w)
    else (do modify (replayed (replay_tail w)); flush_if_long) w

-- `migrateSnapshot`: the prior state is kept at seq -1 before the migrated one is flushed.
abbrev pub migrate_with : Value → String → Option (Value → String → Value) → Act (Unit {0})
migrate_with prev version none = modify λ h. record h { snapshot_dirty = true }
migrate_with prev version (some migrate) = do
  λ w.
      write
        (λ d.
          save_snapshot d w.clock w.host.id
            (record {
              cls = w.host.registration.name;
              version = version;
              seq = negsuc 0;
              state = prev;
            })
            (some w.host.fence_token))
        w
  modify λ h. record h {
    state = some (migrate prev version);
    metrics = record h.metrics { migrations_applied = suc h.metrics.migrations_applied };
    snapshot_dirty = true;
  }
  flush_snapshot

unfoldable pub migrate_snapshot : Value → String → Act (Unit {0})
migrate_snapshot prev version w = migrate_with prev version w.host.cls.migrate w

abbrev pub apply_hook : Option (Value → Value) → Host → Host
apply_hook none h = h
apply_hook (some f) h = record h { state = some (f (get_or h.state Value.undefined)) }

-- The seq of a snapshot that is loaded is not negative.
abbrev pub seq_of : ℤ → ℕ
seq_of (pos n) = n
seq_of (negsuc n) = 0

abbrev pub register : Act (Unit {0})
register w = (
  ok tt,
  record w {
    driver =
        register_actor w.driver w.clock w.host.id w.host.registration.name w.host.running_version
          [];
  },
)

abbrev pub fresh_state : Host → Host
fresh_state h =
    if h.cls.event_sourced
    then record h { state = some h.cls.initial_state; current_seq = 0 }
    else h

abbrev pub start_from : Bool → Option (SnapshotRead Value) → Act (Unit {0})
start_from migrates none = do register; modify fresh_state; modify λ h. apply_hook h.cls.on_init h
start_from migrates (some snap) = do
  modify λ h. record h { state = some snap.state; current_seq = seq_of snap.seq }
  if migrates then migrate_snapshot snap.state snap.version else pure tt

abbrev pub replay_if_sourced : Act (Unit {0})
replay_if_sourced w = if w.host.cls.event_sourced then replay_events w else (ok tt, w)

-- `for (const r of pending) this.mailbox.enqueue(...)`; what does not fit stays in the inbox
unfoldable pub enqueue_pending : List (InboxRecord Value) → Act (Unit {0})
unfolding put
enqueue_pending [] = pure tt
enqueue_pending (r ∷ rs) = do put (tell_item r.entry.type r.entry.payload r.id); enqueue_pending rs

module _ (gt : String → String → Bool)
    (load : Option (String → String → Outcome HostError ActorClass)) where
  abbrev pub load_sticky :
      String
      → String
      → Option (String → String → Outcome HostError ActorClass)
      → Outcome HostError Resolved
  load_sticky name persisted none = throw (no_loader persisted)
  load_sticky name persisted (some f) = loaded persisted (f name persisted)

  unfoldable pub resolve_ctor : Registration → Option String → Outcome HostError Resolved
  resolve_ctor r none =
      ok (record { ctor = r.ctor; running_version = r.version; will_migrate = false })
  resolve_ctor r (some persisted) =
      if persisted == r.version
      then ok (record { ctor = r.ctor; running_version = r.version; will_migrate = false })
      else if gt persisted r.version
      then throw (manifest_regression persisted r.version)
      else if get_or r.floating false
      then ok (record { ctor = r.ctor; running_version = r.version; will_migrate = true })
      else load_sticky r.name persisted load

  abbrev pub version_of : Option (SnapshotRead Value) → Option String
  version_of none = none
  version_of (some snap) = some snap.version

  abbrev pub resolved : Outcome HostError Resolved → Act Resolved
  resolved (ok r) = pure r
  resolved (throw e) = raise e

  abbrev pub instantiate : Resolved → Act (Unit {0})
  instantiate r w = (
    ok tt,
    record w {
      host = record w.host {
        running_version = r.running_version;
        fence_token = load_actor_fence w.driver w.host.id;
        cls = r.ctor;
        state = some r.ctor.default_state;
      };
    },
  )

  abbrev pub open_mailbox : Act (Unit {0})
  open_mailbox w = if w.host.is_destroyed then (throw destroyed, w) else (
    ok tt,
    record w {
      host = record w.host {
        mailbox = record {
          capacity = capacity_of w.host.registration;
          buffer = [];
          waiters = [];
          closed = false;
        };
        in_hand = none;
      };
    },
  )

  abbrev pub go_live : Host → Host
  go_live h = take_next (record h { activated = true; worker_running = true })

  -- `Number.MAX_SAFE_INTEGER`
  abbrev pub max_safe_integer : ℕ
  max_safe_integer = 9007199254740991

  unfoldable pub do_activate : Act (Unit {0})
  unfolding resolve_ctor replay_events migrate_snapshot enqueue_pending take_next
  do_activate = do
    open_mailbox
    λ w0.
        (let snap = load_snapshot w0.driver w0.host.id in
            do
              r ← resolved (resolve_ctor w0.host.registration (version_of snap))
              instantiate r
              start_from r.will_migrate snap
              replay_if_sourced
              modify λ h. apply_hook h.cls.on_activate h
              modify go_live
              touch
              λ w. enqueue_pending (read_pending_inbox w.driver w.host.id max_safe_integer) w)
          w0

  unfoldable pub activate : Act (Unit {0})
  unfolding do_activate
  activate w = if w.host.activated then (ok tt, w) else do_activate w
