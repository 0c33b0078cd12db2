-- ===== src/Runtime/Host/Lifecycle.antt =====
-- Tells, calls, the worker loop and deactivation in src/runtime/host.ts. A call's promise is known by
-- the number `t`.
use actjs.Prelude.{
  ℕ, zero, suc, String, Bool, true, false, Option, none, some, List, [], ◌∷◌, length, get_or, leb,
  if◌then◌else◌,
}
use actjs.Prelude.Outcome.{Outcome, ok, throw}
use actjs.Storage.Types.{InboxId}
use actjs.Storage.Inbox.{append_inbox}
use actjs.Runtime.Mailbox.{is_full, close}
use actjs.Runtime.Value.{Value}
use actjs.Runtime.ActorClass.{ActorClass}
use actjs.Runtime.Host.State.{
  World, Host, Act, HostError, destroyed, mailbox_full, MailboxItem, tell_item, call_item,
  tombstone, ◌>>=◌, ◌>>◌, pure, raise, modify,
}
use actjs.Runtime.Host.Commit.{flush_snapshot, touch, ack, handle, settle, count_error, emit_commit}
use actjs.Runtime.Host.Activate.{activate, put, take_next}

module _ (compare : Value → Value → List Value) (gt : String → String → Bool)
    (load : Option (String → String → Outcome HostError ActorClass)) where
  abbrev pub ensure_active : Act (Unit {0})
  ensure_active w = if w.host.is_destroyed then (throw destroyed, w) else activate gt load w

  abbrev pub append_entry : String → Value → Act InboxId
  append_entry type payload w =
      let (i, d) =
        append_inbox w.driver w.clock w.host.id (record { type = type; payload = payload }) in
      (ok i, record w { driver = d })

  -- Over the capacity: the durable entry is acknowledged at once.
  abbrev pub settle_tell : InboxId → Bool → Act (Unit {0})
  settle_tell i true = touch
  settle_tell i false = do
    modify
        λ h. record h { metrics = record h.metrics { tells_dropped = suc h.metrics.tells_dropped } }
    ack i

  unfoldable pub tell : String → Value → Act (Unit {0})
  unfolding activate put
  tell type payload = do
    ensure_active
    i ← append_entry type payload
    accepted ← put (tell_item type payload i)
    settle_tell i accepted

  abbrev pub settle_call : ℕ → Bool → Act (Unit {0})
  settle_call t true = touch
  settle_call t false = modify (settle t (throw mailbox_full))

  unfoldable pub call : String → Value → ℕ → Act (Unit {0})
  unfolding activate put
  call method args t = do
    ensure_active
    λ w.
        (if is_full w.host.mailbox
            then raise mailbox_full
            else do accepted ← put (call_item method args t); settle_call t accepted)
          w

  -- One round of the worker loop: it handles the item in hand and asks for the next.
  abbrev pub work_on : Option MailboxItem → Act (Unit {0})
  work_on none = pure tt
  work_on (some it) = do handle compare it; modify take_next

  unfoldable pub work : Act (Unit {0})
  unfolding handle take_next
  work w = work_on w.host.in_hand w

  -- `await this.workerPromise`: the worker runs until the closed mailbox is empty.
  unfoldable pub drain : ℕ → Act (Unit {0})
  unfolding work
  drain zero = pure tt
  drain (suc n) = do work; drain n

  -- The waiting worker is woken by the close and returns.
  abbrev pub close_mailbox : Host → Host
  close_mailbox h =
      let (woken, m) = close h.mailbox in
      elim woken [
        | [] ↦ record h { mailbox = m; idle_timer = false }
        | w ∷ ws ↦ record h { mailbox = m; idle_timer = false; worker_running = false }
      ]

  abbrev pub flush_pending : Act (Unit {0})
  flush_pending = do modify λ h. record h { snapshot_timer = false }; flush_snapshot

  abbrev pub left : Value × Outcome Value (Unit {0}) → Host → Host
  left (state, ok u) h = record h { state = some state }
  left (state, throw e) h = count_error (record h { state = some state })

  abbrev pub run_on_deactivate : Host → Host
  run_on_deactivate h = elim h.cls.on_deactivate [
    | none ↦ h
    | some f ↦ left (f (get_or h.state Value.undefined)) h
  ]

  unfoldable pub do_deactivate : Act (Unit {0})
  unfolding close drain flush_snapshot
  do_deactivate = do
    modify close_mailbox
    λ w. drain (suc (length w.host.mailbox.buffer)) w
    flush_pending
    modify run_on_deactivate
    modify λ h. record h { state = none }

  -- `finally`: the host is inactive, also if the last flush threw
  abbrev pub finally_inactive :
      Outcome HostError (Unit {0}) × World → Outcome HostError (Unit {0}) × World
  finally_inactive (r, w) = (r, record w { host = record w.host { activated = false } })

  unfoldable pub deactivate : Act (Unit {0})
  unfolding do_deactivate
  deactivate w = if w.host.activated then finally_inactive (do_deactivate w) else (ok tt, w)

  unfoldable pub destroy : Act (Unit {0})
  unfolding deactivate
  destroy w =
      if w.host.is_destroyed
      then (ok tt, w)
      else deactivate (record w { host = record w.host { is_destroyed = true } })

  -- The callback of the idle timer, up to the call of `onIdleEvict`: whether the host was evicted
  unfoldable pub deactivate_for_idle : Act Bool
  unfolding deactivate
  deactivate_for_idle w =
      if w.host.activated
      then (if leb (length w.host.mailbox.buffer) 0
          then (do deactivate; pure true) (record w { host = record w.host { idle_timer = false } })
          else (ok false, record w { host = record w.host { idle_timer = true } }))
      else (ok false, record w { host = record w.host { idle_timer = false } })

  unfoldable pub notify_tombstone : Host → Host
  notify_tombstone h = emit_commit tombstone h
