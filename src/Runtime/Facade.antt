-- ===== src/Runtime/Facade.antt =====
-- The methods of `Runtime` in src/runtime/runtime.ts, over the directory, the hosts, the rate limiter and the
-- policies of the classes. A method runs to its end before the next one starts, so that no activation is in
-- flight when a method starts.
pub mod Guards
pub mod Delivery
use actjs.Runtime.Access.{
  PolicyAction, RuntimeError, System, actor_of, audit_failed, call_action, check_actor,
  check_policy, destroy_action, enforce_rate_limit, in_flight, on_host, read_action, recorded,
  replied, resolve,
}
use actjs.Policy.Principal.{system_principal, Principal, is_system, anonymous_principal}
use actjs.Prelude.{
  ℕ, zero, suc, ◌+◌, ◌-◌, ◌≤◌, ◌<◌, String, ◌≡◌, ◌≢◌, ◌&&◌, not, refl, ap, sym, ◌∙◌, Bool, true,
  false, Option, none, some, List, [], ◌∷◌, ◌++◌, map, length, leb, ltb, nat_beq, get_or, arith,
  if◌then◌else◌, Bool-cases, inl, inr,
}
use actjs.Prelude.Keys.{string_keyed, nat_keyed, ◌==◌}
use actjs.Prelude.Outcome.{Outcome, Attempt, ok, throw}
use actjs.Prelude.Action.{Action, continue, ◌>>=◌, ◌>>◌}
use actjs.Prelude.Map.{Map, get, set}
use Prim.Native.String.{◌++◌ as concat}
use actjs.Storage.Types.{StorageError, ReminderMsg}
use actjs.Storage.Driver.{Driver}
use actjs.Storage.Reminders.{enqueue_reminder}
use actjs.Storage.Actors.{tombstone_actor}
use actjs.Policy.Evaluate.{PolicyDecision, Verdict, evaluate_policy}
use actjs.Limits.RateLimiter.{RateLimiter, RateLimitedError, enforce}
use actjs.Audit.{Auditor, AuditWriteError, Audited, principal}
use actjs.Runtime.Value.{Value, undefined, null}
use actjs.Runtime.ActorClass.{ActorClass}
use actjs.Runtime.Host.State.{Host, HostError, Registration, World, new_host}
use actjs.Runtime.Host.Activate.{activate}
use actjs.Runtime.Directory.{Directory, Resolving, begin, settled}
use actjs.Runtime.Host.Lifecycle

module _ (E : Type 0) (compare : Value → Value → List Value) (gt : String → String → Bool)
    (load : Option (String → String → Outcome HostError ActorClass))
    (policy_of : Registration
      → Option (Principal → PolicyAction → Outcome String PolicyDecision)) where
  unfoldable pub tell :
      String
      → String
      → String
      → Value
      → Option Principal
      → System
      → Attempt (RuntimeError E) × System
  unfolding resolve check_policy Lifecycle.tell
  tell name id type payload who = do
    resolve E compare gt load id name
    check_actor E policy_of name id who (call_action type payload)
    on_host E compare gt load id (Lifecycle.tell compare gt load type payload)

  -- The promise is settled when the worker has come to the call.
  abbrev pub settled_reply : String → ℕ → System → Outcome (RuntimeError E) Value × System
  settled_reply id t s = elim (get s.live id) [
    | none ↦ (throw in_flight, s)
    | some h ↦ (replied (get h.replies t), s)
  ]

  abbrev pub queued : String → System → ℕ
  queued id s = elim (get s.live id) [ none ↦ 0 | some h ↦ length h.mailbox.buffer ]

  -- `host.call`, and the worker until the mailbox is empty
  abbrev pub host_call : String → String → Value → System → Outcome (RuntimeError E) Value × System
  host_call id method args s =
      (do
        on_host E compare gt load id (Lifecycle.call compare gt load method args s.promises)
        λ s'. on_host E compare gt load id (Lifecycle.drain compare gt load (suc (queued id s'))) s'
        settled_reply id s.promises)
        (record s { promises = suc s.promises })

  unfoldable pub attempt_call :
      String
      → String
      → String
      → Value
      → Option Principal
      → System
      → Outcome (RuntimeError E) Value × System
  unfolding enforce_rate_limit resolve check_policy Lifecycle.call Lifecycle.drain get
  attempt_call name id method args who = do
    enforce_rate_limit E who
    resolve E compare gt load id name
    check_actor E policy_of name id who (call_action method args)
    host_call id method args

  unfoldable pub call :
      String
      → String
      → String
      → Value
      → Option Principal
      → System
      → Outcome (RuntimeError E) Value × System
  unfolding attempt_call
  call name id method args who s =
      let (r, s') = attempt_call name id method args who s in (r, recorded name method r s')

  unfoldable pub check_read :
      String → String → Option Principal → System → Attempt (RuntimeError E) × System
  unfolding resolve check_policy
  check_read name id who = do
    resolve E compare gt load id name
    check_actor E policy_of name id who read_action

  unfoldable pub schedule_reminder : String → String → ℕ → String → Value → System → System
  unfolding enqueue_reminder
  schedule_reminder name id when type payload s = record s {
    driver =
        enqueue_reminder s.driver when
          (record { actor_id = id; class_name = name; type = type; payload = payload });
    dispatcher_started = true;
  }

  abbrev pub destroyed_by :
      (String → Option String → Value)
      → Auditor E Value
      → String
      → Option String
      → Option Principal
      → System
      → Attempt (RuntimeError E) × System
  destroyed_by meta auditor id name who s =
      let a =
        auditor 0
          (record {
            action = "actor.tombstoned";
            target = concat (get_or name "unknown") (concat ":" id);
            meta = some (meta id name);
            principal = principal (get_or who anonymous_principal);
          })
          (tombstone_actor s.driver s.clock id) in
      (
        elim a.outcome [ ok u ↦ ok tt | throw e ↦ throw (audit_failed e) ],
        record s { driver = a.driver },
      )

  -- Only a live actor's class is asked, and its listeners are told.
  unfoldable pub tombstone :
      (String → Option String → Value)
      → Auditor E Value
      → String
      → Option Principal
      → System
      → Attempt (RuntimeError E) × System
  unfolding check_policy tombstone_actor Lifecycle.notify_tombstone anonymous_principal
  tombstone meta auditor id who s = elim (get s.live id) [
    | none ↦ destroyed_by meta auditor id none who s
    | some h ↦
        (do
          check_policy E policy_of h.registration.name who
              (destroy_action (actor_of h.registration.name id h))
          λ s'.
              destroyed_by meta auditor id (some h.registration.name) who (record s' {
                live = set s'.live id (Lifecycle.notify_tombstone compare gt load h);
              }))
          s
  ]

  -- The delivery of the reminder dispatcher
  unfoldable pub deliver_reminder : ReminderMsg Value → System → Attempt (RuntimeError E) × System
  unfolding tell
  deliver_reminder m = tell m.class_name m.actor_id m.type m.payload (some system_principal)
