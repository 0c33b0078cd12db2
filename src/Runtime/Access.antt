-- ===== src/Runtime/Access.antt =====
-- The state of `Runtime` in src/runtime/runtime.ts, the resolution of an actor in src/runtime/directory.ts, and
-- what stands before a call: the policy of the class and the rate limiter. `policy_of` gives the `static
-- policy` of a registered class.
use actjs.Policy.Principal.{Principal, is_system, anonymous_principal}
use actjs.Prelude.{
  ℕ, String, Bool, true, false, Option, none, some, List, ◌∷◌, map, get_or, if◌then◌else◌,
}
use actjs.Prelude.Keys.{string_keyed, nat_keyed}
use actjs.Prelude.Outcome.{Outcome, Attempt, ok, throw}
use actjs.Prelude.Map.{Map, get, set}
use Prim.Native.String.{◌++◌ as concat}
use actjs.Storage.Types.{StorageError}
use actjs.Storage.Driver.{Driver}
use actjs.Policy.Evaluate.{PolicyDecision, Verdict, evaluate_policy}
use actjs.Limits.RateLimiter.{RateLimiter, RateLimitedError, enforce}
use actjs.Audit.{AuditWriteError}
use actjs.Runtime.Value.{Value, undefined, null}
use actjs.Runtime.ActorClass.{ActorClass}
use actjs.Runtime.Host.State.{Host, HostError, Registration, World, new_host}
use actjs.Runtime.Host.Activate.{activate}
use actjs.Runtime.Directory.{Directory, Resolving, begin, settled}

pub record PolicyActor : Type 0 where
  pub cls : String
  pub id : String
  pub version : String
  pub state : Value

pub data PolicyAction : Type 0 where
  call_action : String → Value → PolicyActor → PolicyAction
  read_action : PolicyActor → PolicyAction
  create_action : Value → PolicyAction
  destroy_action : PolicyActor → PolicyAction

-- `in_flight` and `unsettled` are no results of the code, which waits.
pub data RuntimeError (E : Type 0) : Type 0 where
  directory_destroyed : RuntimeError E
  unknown_class : String → RuntimeError E
  capacity_exhausted : String → ℕ → RuntimeError E
  host_failed : HostError → RuntimeError E
  rate_limited : RateLimitedError → RuntimeError E
  policy_denied : String → String → RuntimeError E
  audit_failed : AuditWriteError E → RuntimeError E
  storage_failed : StorageError → RuntimeError E
  in_flight unsettled : RuntimeError E

-- What the metrics registry is told
pub data Metric : Type 0 where
  call_recorded : String → String → String → Metric
  rate_limit_drop : String → Metric
  capacity_metric : String → Metric
  policy_decision : String → Bool → Metric

-- `live` has the hosts of the directory. `promises` numbers the promises of calls.
pub record System : Type 0 where
  pub driver : Driver Value
  pub clock : ℕ
  pub classes : Map String Registration
  pub directory : Directory
  pub live : Map String Host
  pub rate_limiter : Option RateLimiter
  pub metrics : List Metric
  pub promises : ℕ
  pub dispatcher_started : Bool

unfoldable pub describe_action : PolicyAction → String
describe_action (call_action method args actor) = concat "call " method
describe_action (read_action actor) = "read"
describe_action (create_action args) = "create"
describe_action (destroy_action actor) = "destroy"

-- `host.currentState()`
abbrev pub current_state : Option Value → Value
current_state none = null
current_state (some undefined) = null
current_state (some v) = v

abbrev pub actor_of : String → String → Host → PolicyActor
actor_of name id h = record {
  cls = name;
  id = id;
  version = h.registration.version;
  state = current_state h.state;
}

abbrev pub measured : Metric → System → System
measured m s = record s { metrics = m ∷ s.metrics }

-- The directory, which shares the map of the classes
abbrev pub shared : System → Directory
shared s = record s.directory { classes = map (λ (c : String × Registration). c.0) s.classes }

unfoldable pub register : Registration → System → System
register r s = record s { classes = set s.classes r.name r }

module _ (E : Type 0) (compare : Value → Value → List Value) (gt : String → String → Bool)
    (load : Option (String → String → Outcome HostError ActorClass)) where
  abbrev pub activated :
      String
      → String
      → Directory
      → System
      → Outcome HostError (Unit {0}) × World
      → Attempt (RuntimeError E) × System
  activated id name d s (ok u, w) = (
    ok tt,
    record s { driver = w.driver; live = set s.live id w.host; directory = settled d id name true },
  )
  activated id name d s (throw e, w) =
      (throw (host_failed e), record s { driver = w.driver; directory = settled d id name false })

  abbrev pub materialize :
      String → String → Directory → System → Option Registration → Attempt (RuntimeError E) × System
  materialize id name d s none = (throw (unknown_class name), s)
  materialize id name d s (some r) =
      activated id name d s
        (activate gt load (record { driver = s.driver; host = new_host id r; clock = s.clock }))

  abbrev pub resolving :
      String → String → System → Resolving × Directory → Attempt (RuntimeError E) × System
  resolving id name s (Resolving.is_destroyed, d) = (throw directory_destroyed, s)
  resolving id name s (Resolving.cached c, d) = (ok tt, s)
  resolving id name s (Resolving.inflight c, d) = (throw in_flight, s)
  resolving id name s (Resolving.unknown_class c, d) = (throw (unknown_class c), s)
  resolving id name s (Resolving.capacity_exhausted c cap, d) =
      (throw (capacity_exhausted c cap), s)
  resolving id name s (Resolving.started, d) = materialize id name d s (get s.classes name)

  -- `directory.resolve(id, className)`: the host is then in `live`.
  unfoldable pub resolve : String → String → System → Attempt (RuntimeError E) × System
  unfolding begin activate new_host settled
  resolve id name s = resolving id name s (begin (shared s) id name)

  -- The host of a live actor runs an action of its own.
  abbrev pub ran :
      String → System → Outcome HostError (Unit {0}) × World → Attempt (RuntimeError E) × System
  ran id s (ok u, w) = (ok tt, record s { driver = w.driver; live = set s.live id w.host })
  ran id s (throw e, w) =
      (throw (host_failed e), record s { driver = w.driver; live = set s.live id w.host })

  abbrev pub on_host :
      String
      → (World → Outcome HostError (Unit {0}) × World)
      → System
      → Attempt (RuntimeError E) × System
  on_host id act s = elim (get s.live id) [
    | none ↦ (throw in_flight, s)
    | some h ↦ ran id s (act (record { driver = s.driver; host = h; clock = s.clock }))
  ]

module _ (E : Type 0)
    (policy_of : Registration
      → Option (Principal → PolicyAction → Outcome String PolicyDecision)) where
  abbrev pub denial : String → PolicyAction → Option String → RuntimeError E
  denial name action reason =
      let said = get_or reason "policy denied" in
      policy_denied
        (concat "policy denied "
          (concat (describe_action action) (concat " on " (concat name (concat ": " said)))))
        said

  abbrev pub judged : String → PolicyAction → Verdict → System → Attempt (RuntimeError E) × System
  judged name action verdict s =
      if verdict.allow
      then (ok tt, measured (policy_decision name true) s)
      else (throw (denial name action verdict.reason), measured (policy_decision name false) s)

  -- A class that is not registered has no check.
  unfoldable pub check_policy :
      String → Option Principal → PolicyAction → System → Attempt (RuntimeError E) × System
  unfolding evaluate_policy describe_action anonymous_principal
  check_policy name who action s = elim (get s.classes name) [
    | none ↦ (ok tt, s)
    | some r ↦
        if is_system (get_or who anonymous_principal)
        then (ok tt, s)
        else judged name action
            (evaluate_policy (policy_of r) (get_or who anonymous_principal) action) s
  ]

  unfoldable pub check_create :
      String → Value → Option Principal → System → Attempt (RuntimeError E) × System
  unfolding check_policy
  check_create name args who = check_policy name who (create_action args)

  -- The check of an action on a live actor
  abbrev pub check_actor :
      String
      → String
      → Option Principal
      → (PolicyActor → PolicyAction)
      → System
      → Attempt (RuntimeError E) × System
  check_actor name id who action s = elim (get s.live id) [
    | none ↦ (throw in_flight, s)
    | some h ↦ check_policy name who (action (actor_of name id h)) s
  ]

abbrev pub limited :
    (E : Type 0)
    → System
    → Outcome RateLimitedError (Unit {0}) × RateLimiter
    → Attempt (RuntimeError E) × System
limited E s (ok u, l) = (ok tt, record s { rate_limiter = some l })
limited E s (throw e, l) = (throw (rate_limited e), record s { rate_limiter = some l })

unfoldable pub enforce_rate_limit :
    (E : Type 0) → Option Principal → System → Attempt (RuntimeError E) × System
unfolding enforce
enforce_rate_limit E who s = elim s.rate_limiter [
  | none ↦ (ok tt, s)
  | some l ↦ limited E s (enforce l s.clock who 1)
]

-- What `call` records of an outcome
abbrev pub recorded :
    {E A : Type 0} → String → String → Outcome (RuntimeError E) A → System → System
recorded name method (ok a) s = measured (call_recorded name method "ok") s
recorded name method (throw (rate_limited e)) s =
    measured (rate_limit_drop e.subject) (measured (call_recorded name method "rate_limited") s)
recorded name method (throw (capacity_exhausted c cap)) s =
    measured (capacity_metric c) (measured (call_recorded name method "cap_exhausted") s)
recorded name method (throw (policy_denied message reason)) s =
    measured (call_recorded name method "denied") s
recorded name method (throw e) s = measured (call_recorded name method "error") s

abbrev pub replied :
    {E : Type 0} → Option (Outcome HostError Value) → Outcome (RuntimeError E) Value
replied none = throw unsettled
replied (some (ok v)) = ok v
replied (some (throw e)) = throw (host_failed e)
