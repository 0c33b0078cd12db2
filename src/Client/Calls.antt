-- ===== src/Client/Calls.antt =====
-- The calls of src/client/client.ts, their offline queue, and the subscriptions at a reconnect.
pub mod Drained
use actjs.Prelude.{
  ℕ, zero, suc, ◌+◌, ◌-◌, ◌≤◌, ◌<◌, String, ◌≡◌, ◌≢◌, ◌&&◌, not, refl, ap, sym, ◌∙◌, Bool, true,
  false, Option, none, some, List, [], ◌∷◌, ◌++◌, map, length, leb, ltb, nat_beq, get_or, arith,
  if◌then◌else◌, Bool-cases, inl, inr,
}
use actjs.Prelude.Keys.{string_keyed, nat_keyed, ◌==◌}
use actjs.Prelude.Outcome.{Outcome, ok, throw}
use actjs.Prelude.Map.{Map, contains}
use actjs.Runtime.Value.{Value, Fields, no_field, with_field, str, obj}
use actjs.Client.OfflineQueue.{QueuedCall, enqueue, remove}
use actjs.Client.Rpc.{RpcClient, CallError, rpc_error, client_closed, Reply, request}
use actjs.Client.Subscriptions.{SubscriptionState}

-- `RETRYABLE_FRAMEWORK_CODES`
abbrev pub retryable_framework_codes : List String
retryable_framework_codes = "MailboxFull" ∷ "SubscriberLimit" ∷ []

unfoldable pub is_permanent_failure : CallError → Bool
unfolding contains
is_permanent_failure (client_closed err) = false
is_permanent_failure (rpc_error message none) = false
is_permanent_failure (rpc_error message (some code)) =
    if code == "" then false else not (contains retryable_framework_codes code)

-- What a drain leaves: the queue, the calls that `onMutationFailed` was given, and those that were
-- sent, in their order
pub record Drain (S : Type 0) : Type 0 where
  pub queue : List QueuedCall
  pub failed : List QueuedCall
  pub sent : List QueuedCall
  pub server : S

module _ {S : Type 0} (serve : QueuedCall → S → Reply × S) where
  -- The loop of `drainOfflineQueue` over the calls that were listed; `serve` answers a call.
  unfoldable pub drain : List QueuedCall → Drain S → Drain S
  unfolding is_permanent_failure remove
  drain [] d = d
  drain (call ∷ calls) d = elim (serve call d.server).0 [
    | ok v ↦ drain calls (record d {
      queue = remove call.idempotency_key d.queue;
      sent = d.sent ++ call ∷ [];
      server = (serve call d.server).1;
    })
    | throw e ↦
        (let gone = drain calls (record d {
          queue = remove call.idempotency_key d.queue;
          failed = d.failed ++ call ∷ [];
          sent = d.sent ++ call ∷ [];
          server = (serve call d.server).1;
        }) in
          if is_permanent_failure e
          then gone
          else record d { sent = d.sent ++ call ∷ []; server = (serve call d.server).1 })
  ]

  unfoldable pub drain_offline_queue : List QueuedCall → S → Drain S
  unfolding drain
  drain_offline_queue queue server =
      drain queue (record { queue = queue; failed = []; sent = []; server = server })

pub record Client : Type 0 where
  pub rpc : RpcClient
  pub offline_queue : List QueuedCall

-- The parameters of an `actor.call`
abbrev pub call_params : QueuedCall → Value
call_params call = obj (
    with_field "class" (str call.class_name) (
      with_field "id" (str call.actor_id)
        (with_field "method" (str call.method) (with_field "args" call.args no_field))))

-- `call` up to the wait for its reply
unfoldable pub start_call : Bool → QueuedCall → Client → Client
unfolding request enqueue
start_call enqueue_when_offline call c = record {
  offline_queue =
      if not c.rpc.transport.is_open && enqueue_when_offline
      then enqueue call c.offline_queue
      else c.offline_queue;
  rpc = request "actor.call" (call_params call) c.rpc;
}

-- The end of `call`: its `finally`, in which the entry leaves the queue whatever the reply was
unfoldable pub end_call : QueuedCall → Client → Client
unfolding remove
end_call call c = record c { offline_queue = remove call.idempotency_key c.offline_queue }

pub record ActiveSub : Type 0 where
  pub class_name : String
  pub actor_id : String
  pub subscription_id : String

-- The subscriptions of `handleOpen`: the server's replies by the key of the subscription, where none is
-- a failure. The table of `SubscriptionState` is not touched.
unfoldable pub resubscribed : (String → Option String) → Map String ActiveSub → Map String ActiveSub
resubscribed replies [] = []
resubscribed replies ((key, info) ∷ subs) =
    (key, record info { subscription_id = get_or (replies key) info.subscription_id })
    ∷ resubscribed replies subs
