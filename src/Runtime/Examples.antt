-- ===== src/Runtime/Examples.antt =====
-- Runs of src/runtime/host.ts at concrete inputs.
use actjs.Prelude.{suc, ◌≡◌, ◌≢◌, refl, true, false, Option, none, some, [], ◌∷◌, arith}
use actjs.Runtime.Host.Activate.{replay_events}
use actjs.Runtime.Host.Commit.{
  commit_es, commit_events, normalize_all, fold_events, finish, flush_snapshot,
}
use actjs.Runtime.Host.State.{no_metrics, World, Host, Registration, MailboxItem, call_item}
use actjs.Storage.Types.{EventWrite}
use actjs.Runtime.Value.{
  null, bool, Value, obj, num, str, arr, undefined, item_then, no_item, with_field, no_field,
  Fields, get_field, without, as_array, elements, normalize_event, EventError,
}
use actjs.Prelude.Keys.{string_keyed, nat_keyed}
use actjs.Prelude.Outcome.{ok, throw}
use actjs.Prelude.Map.{get, set}
use actjs.Storage.Driver.{ActorRow, EventRow, new_driver}
use actjs.Storage.Events.{append_events, append_some, push_events, row_of}
use actjs.Storage.Events.Log.{IsLog}
use actjs.Storage.Actors.{load_actor_fence, assert_fence}
use actjs.Runtime.ActorClass.{ActorClass}
use actjs.Runtime.Host.Sourcing.{HasCommitted, commit_es-HasCommitted}
use actjs.Runtime.Host.Recovery.{
  RestartsFrom, IsShapeBlind, replay_events-commit_es, replay_events-live_state,
  replay_events-untyped,
}
use actjs.Runtime.Host.Replay.{StandsAt}

-- A class that tells its events apart by their type
abbrev by_type : Value → Fields → Option Value → Value
by_type s gs none = undefined
by_type s gs (some t) = obj gs

abbrev last_event : Value → Value → Value
last_event s (obj gs) = by_type s gs (get_field gs "type")
last_event s (arr vs) = s
last_event s undefined = s
last_event s null = s
last_event s (bool b) = s
last_event s (num n) = s
last_event s (str t) = s

-- A class that counts its events
abbrev count : Value → Value → Value
count (num n) e = num (suc n)
count (obj gs) e = num 1
count (arr vs) e = num 1
count undefined e = num 1
count null e = num 1
count (bool b) e = num 1
count (str t) e = num 1

abbrev class_with : (Value → Value → Value) → ActorClass
class_with reduce = record {
  event_sourced = true;
  handlers = λ name. none;
  default_state = undefined;
  initial_state = num 0;
  reduce = reduce;
  migrate_event = none;
  migrate = none;
  on_init = none;
  on_activate = none;
  on_deactivate = none;
  snapshot = λ s. s;
}

abbrev registration_of : (Value → Value → Value) → Registration
registration_of reduce = record {
  name = "Cart";
  version = "1.0.0";
  ctor = class_with reduce;
  mailbox_capacity = none;
  snapshot_every_n_events = none;
  floating = none;
}

abbrev cart_row : ActorRow
cart_row = record {
  cls = "Cart";
  version = "1.0.0";
  created_at = 5;
  last_active_at = none;
  tombstoned_at = none;
  tags = [];
  fence = 0;
}

abbrev cart_host : (Value → Value → Value) → Host
cart_host reduce = record {
  id = "a";
  registration = registration_of reduce;
  cls = class_with reduce;
  state = some (num 0);
  mailbox = record { capacity = 4; buffer = []; waiters = []; closed = false };
  in_hand = none;
  worker_running = true;
  current_seq = 0;
  events_since_snapshot = 0;
  snapshot_timer = false;
  snapshot_dirty = false;
  idle_timer = false;
  last_active_at = 0;
  activated = true;
  is_destroyed = false;
  metrics = no_metrics;
  fence_token = 0;
  running_version = "1.0.0";
  listeners = 0;
  prev_state_capture = none;
  replies = [];
  commits = [];
}

abbrev live : (Value → Value → Value) → World
live reduce = record {
  driver = record new_driver { actors = ("a", cart_row) ∷ [] };
  host = cart_host reduce;
  clock = 8;
}

abbrev added_fields : Fields
added_fields = with_field "type" (str "added") (with_field "qty" (num 2) no_field)

abbrev added : Value
added = obj added_fields

abbrev result : Value
result = arr (item_then added no_item)

abbrev item : MailboxItem
item = call_item "add" undefined 0

abbrev added_write : EventWrite Value
added_write = record {
  type = "added";
  payload = obj (with_field "qty" (num 2) no_field);
  causation_id = none;
}

live-IsLog : (reduce : Value → Value → Value) → IsLog (live reduce).driver "a" []
unfolding get
live-IsLog reduce = record { bucket = refl; head = refl }

found_row : (reduce : Value → Value → Value) → get (live reduce).driver.actors "a" ≡ some cart_row
unfolding get
found_row reduce = refl

stored_fence :
    (reduce : Value → Value → Value)
    → (live reduce).host.fence_token ≡ load_actor_fence (live reduce).driver "a"
unfolding get load_actor_fence
stored_fence reduce = refl

is_array : as_array result ≡ some (added ∷ [])
unfolding as_array elements
is_array = refl

is_normal : normalize_all (added ∷ []) ≡ ok (added_write ∷ [])
unfolding normalize_all normalize_event get_field without
is_normal = refl

commit_es-HasCommitted_example :
    HasCommitted
      (live count)
      []
      cart_row
      (num 0)
      (added ∷ [])
      (added_write ∷ [])
      (commit_es item result (live count)).1
commit_es-HasCommitted_example =
    commit_es-HasCommitted item result added [] (live count) [] cart_row (num 0) (added_write ∷ [])
      (live-IsLog count) (found_row count) (stored_fence count) refl is_array is_normal

abbrev restarted : (Value → Value → Value) → World
restarted reduce = record {
  driver = (commit_es item result (live reduce)).1.driver;
  host = cart_host reduce;
  clock = 20;
}

restarted-RestartsFrom :
    (reduce : Value → Value → Value)
    → RestartsFrom (live reduce) (commit_es item result (live reduce)).1 (restarted reduce)
unfolding commit_es commit_events append_events append_some push_events assert_fence finish
    flush_snapshot get set as_array elements normalize_all normalize_event get_field without
    fold_events
restarted-RestartsFrom reduce = record {
  actor = cart_row;
  found = refl;
  log = refl;
  id = refl;
  cls = refl;
  state = refl;
  seq = refl;
}

replay_events-commit_es_example :
    ((replay_events (restarted count)).1.host.state ≡ some (num 1))
    × ((replay_events (restarted count)).1.host.current_seq
        ≡ (commit_es item result (live count)).1.host.current_seq)
unfolding fold_events
replay_events-commit_es_example =
    replay_events-commit_es item result added [] (live count) (restarted count) [] cart_row (num 0)
      (added_write ∷ []) (live-IsLog count) (found_row count) (stored_fence count) refl refl
      is_array is_normal refl (restarted-RestartsFrom count)

count-IsShapeBlind : IsShapeBlind (class_with count)
count-IsShapeBlind (num n) e write normal = refl
count-IsShapeBlind (obj gs) e write normal = refl
count-IsShapeBlind (arr vs) e write normal = refl
count-IsShapeBlind undefined e write normal = refl
count-IsShapeBlind null e write normal = refl
count-IsShapeBlind (bool b) e write normal = refl
count-IsShapeBlind (str t) e write normal = refl

replay_events-live_state_example :
    (replay_events (restarted count)).1.host.state
    ≡ (commit_es item result (live count)).1.host.state
replay_events-live_state_example =
    replay_events-live_state item result added [] (live count) (restarted count) [] cart_row (num 0)
      (added_write ∷ []) (live-IsLog count) (found_row count) (stored_fence count) refl refl
      is_array is_normal refl (restarted-RestartsFrom count) count-IsShapeBlind

loses : (s : Value) (gs : Fields) → get_field gs "type" ≡ none → last_event s (obj gs) ≡ undefined
loses s gs untyped = rw untyped refl

added_type : get_field added_fields "type" ≡ some (str "added")
unfolding get_field
added_type = refl

added_bare : get_field added_fields "payload" ≡ none
unfolding get_field
added_bare = refl

replay_events-untyped_example : (replay_events (restarted last_event)).1.host.state ≡ some undefined
replay_events-untyped_example =
    replay_events-untyped item result added_fields "added" (live last_event) (restarted last_event)
      [] cart_row (num 0) (live-IsLog last_event) (found_row last_event) (stored_fence last_event)
      refl refl is_array added_type added_bare refl loses (restarted-RestartsFrom last_event)

abbrev displaced : World
displaced = record (live count) {
  driver = record new_driver { actors = ("a", record cart_row { fence = 3 }) ∷ [] };
}

displaced_fence : load_actor_fence displaced.driver "a" ≢ 0
unfolding load_actor_fence get
displaced_fence = λ e. absurd (omega arith)

abbrev untyped_result : Value
untyped_result = arr (item_then added (item_then (num 3) no_item))

untyped_array : as_array untyped_result ≡ some (added ∷ num 3 ∷ [])
unfolding as_array elements
untyped_array = refl

untyped_fails : normalize_all (added ∷ num 3 ∷ []) ≡ throw EventError.not_an_object
unfolding normalize_all normalize_event get_field without
untyped_fails = refl

-- The log of one event, and a host that has folded none of it
abbrev one_row : EventRow Value
one_row = row_of 8 "1.0.0" added_write

abbrev behind : World
behind = record (live count) {
  driver = record new_driver {
    actors = ("a", cart_row) ∷ [];
    events_by_actor = ("a", (1, one_row) ∷ []) ∷ [];
    head_seq_by_actor = ("a", 1) ∷ [];
  };
}

behind-StandsAt : StandsAt behind (one_row ∷ []) (num 0)
unfolding get
behind-StandsAt = record {
  actor = cart_row;
  log = record { bucket = refl; head = refl };
  found = refl;
  here = refl;
  behind = omega arith;
}
