-- ===== src/Runtime/Facade/Delivery.antt =====
-- A reminder that src/runtime/runtime.ts delivers passes every policy.
use actjs.Runtime.Facade.{World}
use actjs.Prelude.{Option-cases, String, ◌≡◌, ◌≢◌, Bool, Option, none, some, List, inl, inr}
use actjs.Prelude.Keys.{string_keyed, nat_keyed}
use actjs.Prelude.Outcome.{Outcome, Attempt, ok, throw}
use actjs.Prelude.Action.{continue}
use actjs.Prelude.Map.{get}
use actjs.Policy.Principal.{Principal, system_principal}
use actjs.Policy.Evaluate.{PolicyDecision}
use actjs.Storage.Types.{ReminderMsg}
use actjs.Runtime.Value.{Value}
use actjs.Runtime.ActorClass.{ActorClass}
use actjs.Runtime.Host.State.{HostError, Registration}
use actjs.Runtime.Directory.{Directory, Resolving}
use actjs.Runtime.Host.Lifecycle
use actjs.Runtime.Facade
use actjs.Runtime.Access

module _ (E : Type 0) (compare : Value → Value → List Value) (gt : String → String → Bool)
    (load : Option (String → String → Outcome HostError ActorClass))
    (policy_of : Registration
      → Option (Principal → Access.PolicyAction → Outcome String PolicyDecision)) where
  abbrev pub NotDenied : Attempt (Access.RuntimeError E) → Type 0
  NotDenied o = (message reason : String) → o ≢ throw (Access.policy_denied message reason)

  activated-NotDenied :
      (id name : String) (d : Directory) (s : Access.System)
      (o : Outcome HostError (Unit {0}) × World)
      → NotDenied (Access.activated E compare gt load id name d s o).0
  activated-NotDenied id name d s (ok u, w) m r h = cc
  activated-NotDenied id name d s (throw e, w) m r h = cc

  materialize-NotDenied :
      (id name : String) (d : Directory) (s : Access.System) (o : Option Registration)
      → NotDenied (Access.materialize E compare gt load id name d s o).0
  materialize-NotDenied id name d s none m r h = cc
  materialize-NotDenied id name d s (some reg) m r h = activated-NotDenied id name d s _ m r h

  resolving-NotDenied :
      (id name : String) (s : Access.System) (found : Resolving × Directory)
      → NotDenied (Access.resolving E compare gt load id name s found).0
  resolving-NotDenied id name s (Resolving.is_destroyed, d) m r h = cc
  resolving-NotDenied id name s (Resolving.cached c, d) m r h = cc
  resolving-NotDenied id name s (Resolving.inflight c, d) m r h = cc
  resolving-NotDenied id name s (Resolving.unknown_class c, d) m r h = cc
  resolving-NotDenied id name s (Resolving.capacity_exhausted c most, d) m r h = cc
  resolving-NotDenied id name s (Resolving.started, d) m r h =
      materialize-NotDenied id name d s _ m r h

  ran-NotDenied :
      (id : String) (s : Access.System) (o : Outcome HostError (Unit {0}) × World)
      → NotDenied (Access.ran E compare gt load id s o).0
  ran-NotDenied id s (ok u, w) m r h = cc
  ran-NotDenied id s (throw e, w) m r h = cc

  on_host-NotDenied :
      (id : String) (act : World → Outcome HostError (Unit {0}) × World) (s : Access.System)
      → NotDenied (Access.on_host E compare gt load id act s).0
  on_host-NotDenied id act s m r h = elim (Option-cases (get s.live id)) [
    | inl gone ↦
        (let no : ◌≡◌ {A = Attempt (Access.RuntimeError E)} (throw Access.in_flight)
              (throw (Access.policy_denied m r)) =
            rw (Access.on_host, gone) at h in
          cc)
    | inr (host, there) ↦ ran-NotDenied id s _ m r (rw (Access.on_host, there) at h)
  ]

  system_check :
      (name id : String) (action : Access.PolicyActor → Access.PolicyAction) (s : Access.System)
      → NotDenied (Access.check_actor E policy_of name id (some system_principal) action s).0
  unfolding Access.check_policy system_principal
  system_check name id action s m r h = elim (Option-cases (get s.live id)) [
    | inl gone ↦
        (let no : ◌≡◌ {A = Attempt (Access.RuntimeError E)} (throw Access.in_flight)
              (throw (Access.policy_denied m r)) =
            rw (Access.check_actor, gone) at h in
          cc)
    | inr (host, there) ↦ elim (Option-cases (get s.classes name)) [
      | inl unregistered ↦
          (let no : ◌≡◌ {A = Attempt (Access.RuntimeError E)} (ok tt)
                (throw (Access.policy_denied m r)) =
              rw (Access.check_actor, there, Access.check_policy, unregistered) at h in
            cc)
      | inr (reg, registered) ↦
          (let no : ◌≡◌ {A = Attempt (Access.RuntimeError E)} (ok tt)
                (throw (Access.policy_denied m r)) =
              rw (Access.check_actor, there, Access.check_policy, registered) at h in
            cc)
    ]
  ]

  continue-NotDenied :
      (o : Attempt (Access.RuntimeError E)) (s : Access.System)
      (k : Access.System → Attempt (Access.RuntimeError E) × Access.System)
      → NotDenied o
      → ((t : Access.System) → NotDenied (k t).0)
      → NotDenied (continue o (λ u. k) s).0
  continue-NotDenied (ok u) s k h rest = rest s
  continue-NotDenied (throw e) s k h rest = λ m r x. h m r (cc)

  -- No reminder is refused by a policy: the dispatcher delivers as the system principal, whatever the policy of the
  -- actor's class.
  pub deliver_reminder-passes :
      (reminder : ReminderMsg Value) (s : Access.System) (message reason : String)
      → (Facade.deliver_reminder E compare gt load policy_of reminder s).0
        ≢ throw (Access.policy_denied message reason)
  unfolding Facade.deliver_reminder Facade.tell Access.resolve
  deliver_reminder-passes reminder s =
      continue-NotDenied _ _ _ (resolving-NotDenied reminder.actor_id reminder.class_name s _) (λ t.
        continue-NotDenied _ _ _
          (system_check reminder.class_name reminder.actor_id
            (Access.call_action reminder.type reminder.payload) t)
          (λ u.
            on_host-NotDenied reminder.actor_id
              (Lifecycle.tell compare gt load reminder.type reminder.payload) u))
