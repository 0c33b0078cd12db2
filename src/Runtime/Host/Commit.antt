-- ===== src/Runtime/Host/Commit.antt =====
-- One turn of the worker of src/runtime/host.ts: `handle`, `commitSwm`, `commitEs`, `flushSnapshot`
-- and what they call. `compare` is that of fast-json-patch: the operations from one state to the next.
use actjs.Prelude.{
  ℕ, suc, ◌+◌, String, Bool, true, false, ◌&&◌, not, Option, none, some, List, [], ◌∷◌, ◌++◌, leb,
  ltb, nat_beq, length, get_or, if◌then◌else◌,
}
use actjs.Prelude.Outcome.{Outcome, ok, throw}
use actjs.Prelude.Int.{pos}
use actjs.Storage.Types.{InboxId, EventWrite, StorageError}
use actjs.Storage.Driver.{Driver}
use actjs.Storage.Inbox.{ack_inbox}
use actjs.Storage.Events.{append_events}
use actjs.Storage.Snapshots.{save_snapshot}
use actjs.Runtime.Value.{Value, as_array, normalize_event, EventError}
use actjs.Runtime.ActorClass.{HandlerFn}
use actjs.Runtime.Host.State.{
  World, Host, Act, HostError, storage, event, thrown, no_handler, not_an_array, MailboxItem,
  tell_item, call_item, CommitInfo, patch, events, every_of, ◌>>=◌, ◌>>◌, pure, raise, modify,
  write, catch,
}

-- A promise is settled once; a later `resolve` or `reject` of it does nothing.
abbrev pub is_settled : ℕ → List (ℕ × Outcome HostError Value) → Bool
is_settled t [] = false
is_settled t ((u, r) ∷ rs) = if nat_beq t u then true else is_settled t rs

abbrev pub settle : ℕ → Outcome HostError Value → Host → Host
settle t r h = if is_settled t h.replies then h else record h { replies = (t, r) ∷ h.replies }

-- `touch`
abbrev pub touch : Act (Unit {0})
touch w = (ok tt, record w { host = record w.host { last_active_at = w.clock; idle_timer = true } })

abbrev pub ack : InboxId → Act (Unit {0})
ack i w = (ok tt, record w { driver = ack_inbox w.driver w.host.id (i ∷ []) })

-- `metrics.handlerErrors++`
abbrev pub count_error : Host → Host
count_error h = record h {
  metrics = record h.metrics { handler_errors = suc h.metrics.handler_errors };
}

-- What the end of a turn does to the item: a call is resolved, a tell is acknowledged.
unfoldable pub finish : MailboxItem → Value → Act (Unit {0})
finish (call_item method args t) result = modify λ h.
    settle t (ok result)
      (record h { metrics = record h.metrics { calls_handled = suc h.metrics.calls_handled } })
finish (tell_item type payload i) result = do
  modify
      λ h. record h { metrics = record h.metrics { tells_handled = suc h.metrics.tells_handled } }
  ack i

-- `emitCommit`, to every listener
abbrev pub emit_commit : CommitInfo → Host → Host
emit_commit info h =
    if nat_beq h.listeners 0 then h else record h { commits = h.commits ++ info ∷ [] }

-- `isEs ? currentSeq : 0n`
abbrev pub snapshot_seq : Host → ℕ
snapshot_seq h = if h.cls.event_sourced then h.current_seq else 0

abbrev pub save : Host → Value → ℕ → Driver Value → Outcome StorageError (Driver Value)
save h state now d =
    save_snapshot d now h.id
      (record {
        cls = h.registration.name;
        version = h.running_version;
        seq = pos (snapshot_seq h);
        state = h.cls.snapshot state;
      })
      (some h.fence_token)

abbrev pub after_flush : Host → Host
after_flush h = record h {
  metrics = record h.metrics { snapshots_written = suc h.metrics.snapshots_written };
  events_since_snapshot = if h.cls.event_sourced then 0 else h.events_since_snapshot;
}

abbrev pub flush_dirty : Option Value → Act (Unit {0})
flush_dirty none = pure tt
flush_dirty (some state) = do
  modify λ h. record h { snapshot_dirty = false }
  λ w. write (save w.host state w.clock) w
  modify after_flush

unfoldable pub flush_snapshot : Act (Unit {0})
flush_snapshot w = if w.host.snapshot_dirty then flush_dirty w.host.state w else (ok tt, w)

-- `scheduleSnapshot`
abbrev pub schedule_snapshot : Host → Host
schedule_snapshot h = record h { snapshot_dirty = true; snapshot_timer = true }

-- The callback of the snapshot timer
unfoldable pub fire_snapshot_timer : Act (Unit {0})
unfolding flush_snapshot
fire_snapshot_timer = do
  modify λ h. record h { snapshot_timer = false }
  catch flush_snapshot (λ e. modify count_error)

-- `normalizeEvent` of each event
unfoldable pub normalize_all : List Value → Outcome EventError (List (EventWrite Value))
normalize_all [] = ok []
normalize_all (e ∷ es) = elim (normalize_event e) [
  | throw x ↦ throw x
  | ok write ↦ elim (normalize_all es) [ throw x ↦ throw x | ok writes ↦ ok (write ∷ writes) ]
]

-- `for (const e of events) state = es.reduce(state, e)`
unfoldable pub fold_events : (Value → Value → Value) → Value → List Value → Value
fold_events reduce state [] = state
fold_events reduce state (e ∷ es) = fold_events reduce (reduce state e) es

abbrev pub appended : World → Outcome StorageError (ℕ × Driver Value) → Outcome HostError ℕ × World
appended w (throw e) = (throw (storage e), w)
appended w (ok (seq, d)) = (ok seq, record w { driver = d })

abbrev pub append : List (EventWrite Value) → Act ℕ
append writes w =
    appended w (append_events w.driver w.clock w.host.id writes (some w.host.fence_token))

abbrev pub lift_event {ℓ} : {A : Type ℓ} → Outcome EventError A → Act A
lift_event (ok a) = pure a
lift_event (throw e) = raise (event e)

-- The host after an append: the fold, the new head, the counters and the dirty mark
abbrev pub folded : List Value → ℕ → Host → Host
folded es seq h = record h {
  state = some (fold_events h.cls.reduce (get_or h.state Value.undefined) es);
  current_seq = seq;
  metrics = record h.metrics { events_appended = h.metrics.events_appended + length es };
  events_since_snapshot = h.events_since_snapshot + length es;
  snapshot_dirty = true;
}

abbrev pub flush_if_due : Act (Unit {0})
flush_if_due w =
    if leb (every_of w.host.registration) w.host.events_since_snapshot
    then flush_snapshot w
    else (ok tt, w)

unfoldable pub commit_events : MailboxItem → Value → List Value → Act (Unit {0})
unfolding finish flush_snapshot
commit_events it result [] = finish it result
commit_events it result (e ∷ es) = do
  writes ← lift_event (normalize_all (e ∷ es))
  seq ← append writes
  modify (folded (e ∷ es) seq)
  finish it result
  modify λ h. emit_commit (events (e ∷ es) h.current_seq (get_or h.state Value.undefined)) h
  flush_if_due

abbrev pub commit_array : MailboxItem → Value → Option (List Value) → Act (Unit {0})
commit_array it result none = λ w. (throw (not_an_array w.host.registration.name), w)
commit_array it result (some es) = commit_events it result es

unfoldable pub commit_es : MailboxItem → Value → Act (Unit {0})
unfolding commit_events
commit_es it result = commit_array it result (as_array result)

module _ (compare : Value → Value → List Value) where
  abbrev pub emit_patch : Option Value → Host → Host
  emit_patch none h = h
  emit_patch (some prev) h =
      let state = get_or h.state Value.undefined in
      let h' = record h { prev_state_capture = none } in
      elim (compare prev state) [ [] ↦ h' | op ∷ ops ↦ emit_commit (patch (op ∷ ops) state) h' ]

  unfoldable pub commit_swm : MailboxItem → Value → Act (Unit {0})
  unfolding finish
  commit_swm it result = do
    finish it result
    modify schedule_snapshot
    modify λ h. emit_patch h.prev_state_capture h

  abbrev pub commit : MailboxItem → Value → Act (Unit {0})
  commit it result w =
      if w.host.cls.event_sourced then commit_es it result w else commit_swm it result w

  abbrev pub name_of : MailboxItem → String
  name_of (call_item method args t) = method
  name_of (tell_item type payload i) = type

  abbrev pub input_of : MailboxItem → Value
  input_of (call_item method args t) = args
  input_of (tell_item type payload i) = payload

  abbrev pub reject : MailboxItem → HostError → Host → Host
  reject (call_item method args t) e h = settle t (throw e) h
  reject (tell_item type payload i) e h = h

  -- A call with no handler is rejected; a tell with none is acknowledged and dropped.
  abbrev pub unhandled : MailboxItem → Act (Unit {0})
  unhandled (call_item method args t) = modify (settle t (throw (no_handler method)))
  unhandled (tell_item type payload i) = do ack i; modify count_error

  abbrev pub capture : Host → Host
  capture h =
      if not h.cls.event_sourced && ltb 0 h.listeners
      then record h { prev_state_capture = h.state }
      else h

  abbrev pub returned : Outcome Value Value → Act Value
  returned (ok v) = pure v
  returned (throw e) = raise (thrown e)

  -- `handler.call(instance, input)`: the state that it leaves stays, also if it throws
  abbrev pub invoke : HandlerFn → Value → Act Value
  invoke f input w =
      let (state, r) = f (get_or w.host.state Value.undefined) input in
      returned r (record w { host = record w.host { state = some state } })

  abbrev pub run_handler : MailboxItem → HandlerFn → Act (Unit {0})
  run_handler it f = do
    modify capture
    catch (do result ← invoke f (input_of it); commit it result; touch)
        (λ e. modify (λ h. reject it e (count_error h)))

  abbrev pub dispatch : MailboxItem → Option HandlerFn → Act (Unit {0})
  dispatch it none = unhandled it
  dispatch it (some f) = run_handler it f

  unfoldable pub handle : MailboxItem → Act (Unit {0})
  unfolding commit_es commit_swm
  handle it w = dispatch it (w.host.cls.handlers (name_of it)) w
