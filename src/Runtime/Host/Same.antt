-- ===== src/Runtime/Host/Same.antt =====
-- The steps of src/runtime/host.ts that leave an instance's state, its class and its log as they are:
-- settling, acknowledging, flushing, emitting.
use actjs.Prelude.{ℕ, String, ◌≡◌, refl, ◌∙◌, true, false, Option, none, some, List, [], ◌∷◌, arith}
use actjs.Prelude.Outcome.{Outcome, ok, throw}
use actjs.Storage.Types.{StorageError, SnapshotWrite, InboxId}
use actjs.Storage.Driver.{Driver}
use actjs.Storage.Actors.{assert_fence}
use actjs.Storage.Snapshots.{save_snapshot}
use actjs.Storage.Inbox.{ack_inbox}
use actjs.Runtime.Value.{Value}
use actjs.Runtime.Host.State.{
  World, HostError, MailboxItem, tell_item, call_item, ◌>>◌, modify, stored,
}
use actjs.Runtime.Host.Commit.{
  settle, finish, flush_snapshot, flush_if_due, flush_dirty, after_flush, save,
}
use actjs.Runtime.Host.Activate.{flush_if_long}

pub record SameInstance (w v : World) : Type 0 where
  pub state : v.host.state ≡ w.host.state
  pub current_seq : v.host.current_seq ≡ w.host.current_seq
  pub cls : v.host.cls ≡ w.host.cls
  pub id : v.host.id ≡ w.host.id
  pub registration : v.host.registration ≡ w.host.registration
  pub events : v.driver.events_by_actor ≡ w.driver.events_by_actor
  pub heads : v.driver.head_seq_by_actor ≡ w.driver.head_seq_by_actor

pub SameInstance-refl : (w : World) → SameInstance w w
SameInstance-refl w = ground arith

pub SameInstance-trans : (u v w : World) → SameInstance u v → SameInstance v w → SameInstance u w
SameInstance-trans u v w a b = record {
  state = b.state ∙ a.state;
  current_seq = b.current_seq ∙ a.current_seq;
  cls = b.cls ∙ a.cls;
  id = b.id ∙ a.id;
  registration = b.registration ∙ a.registration;
  events = b.events ∙ a.events;
  heads = b.heads ∙ a.heads;
}

save_snapshot_log :
    (d : Driver Value) (now : ℕ) (id : String) (snap : SnapshotWrite Value) (fence : Option ℕ)
    {d' : Driver Value}
    → save_snapshot d now id snap fence ≡ ok d'
    → (d'.events_by_actor ≡ d.events_by_actor) × (d'.head_seq_by_actor ≡ d.head_seq_by_actor)
unfolding save_snapshot assert_fence
save_snapshot_log d now id snap fence saved = ground arith

ack_inbox_log :
    (d : Driver Value) (id : String) (is : List InboxId)
    → ((ack_inbox d id is).events_by_actor ≡ d.events_by_actor)
      × ((ack_inbox d id is).head_seq_by_actor ≡ d.head_seq_by_actor)
unfolding ack_inbox
ack_inbox_log d id is = ground arith

-- The rest of a flush, behind the outcome of the write.
flushed-SameInstance :
    (w : World) (state : Value) (o : Outcome StorageError (Driver Value))
    → save w.host state w.clock w.driver ≡ o
    → SameInstance w (((λ u. stored u o) >> modify after_flush) w).1
flushed-SameInstance w state (ok d) e =
    ground (arith, save_snapshot_log w.driver w.clock w.host.id _ _ e)
flushed-SameInstance w state (throw x) e = ground arith

flush_dirty-SameInstance :
    (w : World) (o : Option Value) → w.host.state ≡ o → SameInstance w (flush_dirty o w).1
flush_dirty-SameInstance w none e = ground arith
flush_dirty-SameInstance w (some state) e =
    let w' : World = record w { host = record w.host { snapshot_dirty = false } } in
    SameInstance-trans w w' _ (ground arith)
      (flushed-SameInstance w' state (save w'.host state w'.clock w'.driver) refl)

pub flush_snapshot-SameInstance : (w : World) → SameInstance w (flush_snapshot w).1
unfolding flush_snapshot
flush_snapshot-SameInstance w = ground (arith, flush_dirty-SameInstance w w.host.state refl)

pub flush_if_long-SameInstance : (w : World) → SameInstance w (flush_if_long w).1
flush_if_long-SameInstance w = ground (
  arith,
  flush_snapshot-SameInstance (record w { host = record w.host { snapshot_dirty = true } }),
)

pub flush_if_due-SameInstance : (w : World) → SameInstance w (flush_if_due w).1
flush_if_due-SameInstance w = ground (arith, flush_snapshot-SameInstance w)

settle-same :
    (t : ℕ) (r : Outcome HostError Value) (w : World)
    → SameInstance w (record w { host = settle t r w.host })
settle-same t r w = ground arith

pub finish-SameInstance :
    (it : MailboxItem) (v : Value) (w : World) → SameInstance w (finish it v w).1
unfolding finish
finish-SameInstance (call_item method args t) v w = ground arith
finish-SameInstance (tell_item type payload i) v w =
    ground (arith, ack_inbox_log w.driver w.host.id (i ∷ []))
