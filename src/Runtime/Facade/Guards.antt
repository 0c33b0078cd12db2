-- ===== src/Runtime/Facade/Guards.antt =====
-- Who gets through to an actor in src/runtime/runtime.ts.
use actjs.Runtime.Facade.{World}
use actjs.Prelude.{
  Option-cases, String, ◌≡◌, refl, ap, sym, ◌∙◌, Bool, false, Option, none, some, List, get_or, inl,
  inr,
}
use actjs.Prelude.Keys.{string_keyed, nat_keyed}
use actjs.Prelude.Outcome.{Outcome, ok, throw}
use actjs.Prelude.Action.{>>-at}
use actjs.Prelude.Map.{get}
use actjs.Prelude.Map.Laws.{get-set_self}
use actjs.Policy.Principal.{Principal, is_system, anonymous_principal}
use actjs.Policy.Evaluate.{PolicyDecision, evaluate_policy}
use actjs.Limits.RateLimiter.{RateLimiter, RateLimitedError, enforce}
use actjs.Audit.{noop_auditor}
use actjs.Storage.Driver.{ActorRow}
use actjs.Storage.Actors.{tombstone_actor}
use actjs.Runtime.Value.{Value}
use actjs.Runtime.ActorClass.{ActorClass}
use actjs.Runtime.Host.State.{Host, HostError, Registration}
use actjs.Runtime.Directory.{begin}
use actjs.Runtime.Facade
use actjs.Runtime.Access

module _ (E : Type 0) (compare : Value → Value → List Value) (gt : String → String → Bool)
    (load : Option (String → String → Outcome HostError ActorClass))
    (policy_of : Registration
      → Option (Principal → Access.PolicyAction → Outcome String PolicyDecision)) where
  -- The actor is live in the directory, under whatever class name the caller gives.
  pub record IsLive (s : Access.System) (id : String) (h : Host) : Type 0 where
    pub listed : get s.live id ≡ some h
    pub cls : String
    pub cached : get s.directory.hosts id ≡ some cls
    pub running : s.directory.destroyed ≡ false

  resolve-IsLive :
      (name id : String) (s : Access.System) (h : Host)
      → IsLive s id h
      → Access.resolve E compare gt load id name s ≡ (ok tt, s)
  unfolding Access.resolve begin
  resolve-IsLive name id s h live = rw (Access.resolve, begin, live.running, live.cached) refl

  limited_lem :
      (s : Access.System) (o : Outcome RateLimitedError (Unit {0}) × RateLimiter)
      → (l : Option RateLimiter) × (Access.limited E s o
          ≡ ((Access.limited E s o).0, record s { rate_limiter = l }))
  limited_lem s (ok u, l) = (some l, refl)
  limited_lem s (throw e, l) = (some l, refl)

  -- The rate limiter is all that its check changes.
  enforced :
      (who : Option Principal) (s : Access.System)
      → (l : Option RateLimiter) × (Access.enforce_rate_limit E who s
          ≡ ((Access.enforce_rate_limit E who s).0, record s { rate_limiter = l }))
  unfolding Access.enforce_rate_limit
  enforced who s = elim (Option-cases s.rate_limiter) [
    | inl none_set ↦
        let same : Access.enforce_rate_limit E who s ≡ (ok tt, s) =
          simp (Access.enforce_rate_limit, none_set) refl in
        (s.rate_limiter, same ∙ ap (λ x. (x.0, s)) (sym same))
    | inr (l, there) ↦
        let done = limited_lem s (enforce l s.clock who 1) in
        let same : Access.enforce_rate_limit E who s
            ≡ Access.limited E s (enforce l s.clock who 1) =
          rw (Access.enforce_rate_limit, there) refl in
        (done.0, same ∙ done.1 ∙ ap (λ x. (x.0, record s { rate_limiter = done.0 })) (sym same))
  ]

  -- A caller who is over the limit changes no actor and nothing that is stored.
  pub call-rate_limited :
      (name id method : String) (args : Value) (who : Option Principal) (s : Access.System)
      (e : RateLimitedError)
      → (Access.enforce_rate_limit E who s).0 ≡ throw (Access.rate_limited e)
      → (let done = Facade.call E compare gt load policy_of name id method args who s in
          (done.0 ≡ throw (Access.rate_limited e))
          × ((done.1.driver ≡ s.driver)
              × ((done.1.live ≡ s.live) × (done.1.directory ≡ s.directory))))
  unfolding Facade.call Facade.attempt_call
  call-rate_limited name id method args who s e over =
      let (l, eq) = enforced who s in
      let all : Access.enforce_rate_limit E who s
          ≡ (throw (Access.rate_limited e), record s { rate_limiter = l }) =
        eq ∙ ap (λ x. (x, record s { rate_limiter = l })) over in
      rw (Facade.call, Facade.attempt_call, all) (refl, (refl, (refl, refl)))

  -- A caller other than the system, who is within the rate limit and calls an actor that is live in the directory,
  -- is refused when the policy of the registered class that the call names does not allow the call, and neither
  -- an actor nor anything that is stored changes.
  pub call-denied :
      (name id method : String) (args : Value) (who : Option Principal) (s : Access.System)
      (h : Host) (r : Registration)
      → IsLive s id h
      → get s.classes name ≡ some r
      → is_system (get_or who anonymous_principal) ≡ false
      → (evaluate_policy
          (policy_of r)
          (get_or who anonymous_principal)
          (Access.call_action method args (Access.actor_of name id h))).allow
        ≡ false
      → (Access.enforce_rate_limit E who s).0 ≡ ok tt
      → (let done = Facade.call E compare gt load policy_of name id method args who s in
          (((message : String) × ((reason : String) × (done.0
                ≡ throw (Access.policy_denied message reason)))))
          × ((done.1.driver ≡ s.driver)
              × ((done.1.live ≡ s.live) × (done.1.directory ≡ s.directory))))
  unfolding Facade.call Facade.attempt_call Access.check_policy
  call-denied name id method args who s h r live registered outside denied within =
      let (l, eq) = enforced who s in
      let s1 : Access.System = record s { rate_limiter = l } in
      let all : Access.enforce_rate_limit E who s ≡ (ok tt, s1) = eq ∙ ap (λ x. (x, s1)) within in
      let live1 : IsLive s1 id h = record {
        listed = live.listed;
        cls = live.cls;
        cached = live.cached;
        running = live.running;
      } in
      let action = Access.call_action method args (Access.actor_of name id h) in
      let verdict = evaluate_policy (policy_of r) (get_or who anonymous_principal) action in
      let refused : Access.check_actor E policy_of name id who (Access.call_action method args) s1
          ≡ (
            throw (Access.denial E policy_of name action verdict.reason),
            Access.measured (Access.policy_decision name false) s1,
          ) =
        rw (Access.check_actor, live.listed, Access.check_policy, registered, outside, denied)
          refl in
      let attempted : Facade.attempt_call E compare gt load policy_of name id method args who s ≡ (
        throw (Access.denial E policy_of name action verdict.reason),
        Access.measured (Access.policy_decision name false) s1,
      ) =
        >>-at (Access.enforce_rate_limit E who) _ s all
        ∙ >>-at (Access.resolve E compare gt load id name) _ s1 (resolve-IsLive name id s1 h live1)
        ∙ >>-at (Access.check_actor E policy_of name id who (Access.call_action method args)) _ s1
            refused in
      rw (Facade.call, attempted) ((_, (_, refl)), (refl, (refl, refl)))

  -- A call within the rate limit that names a class that is not registered is what the host of the live actor with
  -- the given id, of whatever class, makes of it: no policy refuses it first, whatever the policies of the
  -- classes, that of the actor among them, say to this caller. Only the rate limiter has changed before.
  pub attempt_call-unregistered :
      (name id method : String) (args : Value) (who : Option Principal) (s : Access.System)
      (h : Host)
      → IsLive s id h
      → get s.classes name ≡ none
      → (Access.enforce_rate_limit E who s).0 ≡ ok tt
      → (l : Option RateLimiter) × (Facade.attempt_call E compare gt load policy_of name id method
            args who s
          ≡ Facade.host_call E compare gt load policy_of id method args
              (record s { rate_limiter = l }))
  unfolding Facade.attempt_call Access.check_policy
  attempt_call-unregistered name id method args who s h live unregistered within =
      let (l, eq) = enforced who s in
      let s1 : Access.System = record s { rate_limiter = l } in
      let all : Access.enforce_rate_limit E who s ≡ (ok tt, s1) = eq ∙ ap (λ x. (x, s1)) within in
      let live1 : IsLive s1 id h = record {
        listed = live.listed;
        cls = live.cls;
        cached = live.cached;
        running = live.running;
      } in
      let unchecked : Access.check_actor E policy_of name id who (Access.call_action method args) s1
          ≡ (ok tt, s1) =
        rw (Access.check_actor, live.listed, Access.check_policy, unregistered) refl in
      (
        l,
        >>-at (Access.enforce_rate_limit E who) _ s all
            ∙ >>-at (Access.resolve E compare gt load id name) _ s1
                (resolve-IsLive name id s1 h live1)
            ∙ >>-at (Access.check_actor E policy_of name id who (Access.call_action method args)) _
                s1 unchecked,
      )

  pub tombstone-unchecked :
      (meta : String → Option String → Value) (id : String) (who : Option Principal)
      (s : Access.System) (row : ActorRow)
      → get s.live id ≡ none
      → get s.driver.actors id ≡ some row
      → (let done = Facade.tombstone E compare gt load policy_of meta noop_auditor id who s in
          (done.0 ≡ ok tt)
          × (get done.1.driver.actors id ≡ some (record row { tombstoned_at = some s.clock })))
  unfolding Facade.tombstone tombstone_actor
  tombstone-unchecked meta id who s row asleep there =
      rw (Facade.tombstone, asleep, tombstone_actor, there)
        (refl, get-set_self s.driver.actors id (record row { tombstoned_at = some s.clock }))
