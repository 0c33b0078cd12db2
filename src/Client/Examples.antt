-- ===== src/Client/Examples.antt =====
-- Runs of src/client at concrete inputs.
use actjs.Prelude.Map.{set, get}
use actjs.Prelude.{
  ℕ, ◌+◌, String, ◌≡◌, refl, false, Option, none, some, List, [], ◌∷◌, leb, arith, if◌then◌else◌,
}
use actjs.Prelude.Keys.{string_keyed, nat_keyed}
use actjs.Prelude.Outcome.{ok, throw}
use actjs.Runtime.Value.{Value, num, undefined}
use actjs.Client.OfflineQueue.{QueuedCall}
use actjs.Client.Rpc.{Frame, Reply, rpc_error, new_rpc}
use actjs.Client.Rpc.Settled.{
  requested, responded, opened, destroyed, run, IsSettledOnce, run-IsSettledOnce,
}
use actjs.Client.Calls.{Client, call_params, drain_offline_queue, ActiveSub}
use actjs.Client.Calls.Drained.{IsDrained, listed_drain, drain_offline_queue-IsDrained}
use actjs.Client.Subscriptions.{
  Notification, SubscriptionState, SubscriptionRecord, register, pre_register, fold_events,
}
use actjs.Client.Subscriptions.Buffered.{Arrival, arrive, register-arrive}
use actjs.Client.Subscriptions.View.{
  Views, event_batch, apply_batches, all_events, apply_batches-Views,
}

abbrev call_of : String → QueuedCall
call_of key = record {
  idempotency_key = key;
  class_name = "Cart";
  actor_id = "c";
  method = "add";
  args = num 1;
  enqueued_at = 0;
}

-- The mailbox is full at the second call.
abbrev full_at_two : QueuedCall → ℕ → Reply × ℕ
full_at_two call s =
    if leb s 0 then (ok (num s), s + 1) else (throw (rpc_error "full" (some "MailboxFull")), s)

abbrev three_calls : List QueuedCall
three_calls = call_of "a" ∷ call_of "b" ∷ call_of "c" ∷ []

drain_offline_queue-IsDrained_example :
    IsDrained full_at_two three_calls
      (listed_drain full_at_two three_calls 0)
      (drain_offline_queue full_at_two three_calls 0)
drain_offline_queue-IsDrained_example =
    drain_offline_queue-IsDrained full_at_two three_calls 0
      ((refl, (refl, tt)), ((refl, tt), (tt, tt)))

run-IsSettledOnce_example : IsSettledOnce (
    run
      (requested "m" undefined ∷ opened none ∷ responded 1 (ok undefined) ∷ destroyed "bye" ∷ [])
      new_rpc)
run-IsSettledOnce_example =
    run-IsSettledOnce
      (requested "m" undefined ∷ opened none ∷ responded 1 (ok undefined) ∷ destroyed "bye" ∷ [])

abbrev call_frame : ℕ → Frame
call_frame id = record { id = id; method = "actor.call"; params = call_params (call_of "a") }

abbrev offline_client : Client
offline_client = record { rpc = new_rpc; offline_queue = [] }

abbrev batch : String → Notification
batch id = event_batch id (num 1 ∷ []) (some "1")

abbrev sub_row : SubscriptionRecord
sub_row = record {
  subscription_id = "old";
  state = num 0;
  last_seq = 0;
  reducer = some (λ s e. e);
  listeners = 1;
  emitted = [];
  tombstoned = false;
}

abbrev subscribed : SubscriptionState
subscribed = record { subs = ("old", sub_row) ∷ []; pending = [] }

abbrev no_patch : Value → List Value → Option Value
no_patch v ops = none

abbrev one_only : String → Option ℕ
one_only text = some 1

abbrev cart_sub : ActiveSub
cart_sub = record { class_name = "Cart"; actor_id = "c"; subscription_id = "old" }

abbrev arrival : ℕ → Arrival
arrival at = record { at = at; notification = batch "s" }

register-arrive_example :
    register no_patch one_only 30 "s"
      (some (λ s e. e))
      (arrive no_patch one_only (arrival 10 ∷ arrival 20 ∷ []) (record { subs = []; pending = [] }))
    ≡ (
      ok tt,
      arrive no_patch one_only
          (arrival 10 ∷ arrival 20 ∷ [])
          (pre_register "s" (some (λ s e. e)) (record { subs = []; pending = [] })),
    )
unfolding get set register arrive
register-arrive_example =
    register-arrive no_patch one_only (arrival 10) (arrival 20 ∷ []) [] 30 "s" (some (λ s e. e))
      refl refl ((refl, omega arith), tt) refl

abbrev two_batches : List (List Value × Option String)
two_batches = (num 1 ∷ num 2 ∷ [], some "2") ∷ (num 3 ∷ [], some "3") ∷ []

apply_batches-Views_example :
    Views no_patch one_only
      (apply_batches no_patch one_only 9 "old" two_batches subscribed)
      "old"
      (λ s e. e)
      (fold_events (λ s e. e) (num 0) (all_events two_batches))
unfolding get
apply_batches-Views_example =
    apply_batches-Views no_patch one_only 9 subscribed "old" (λ s e. e) (num 0) two_batches
      (record { row = sub_row; there = refl; with_reducer = refl; live = refl; shows = refl })
