-- ===== src/Runtime/ActorClass.antt =====
-- What the host needs of an actor class (src/actor.ts, src/event-sourced.ts, src/handler.ts): the
-- application's code is a parameter. A handler works on the instance's state: it returns the state
-- that it leaves, also when it throws, beside what it returns or throws. What handlers do outside
-- their own state (calls of other actors through the bridge) is not modelled.
use actjs.Prelude.{String, Bool, Option}
use actjs.Prelude.Outcome.{Outcome}
use actjs.Runtime.Value.{Value}

abbrev pub HandlerFn : Type 0
HandlerFn = Value → Value → Value × Outcome Value Value

pub record ActorClass : Type 0 where
  -- `instance instanceof EventSourced`
  pub event_sourced : Bool
  -- `getHandlers(ctor)`
  pub handlers : String → Option HandlerFn
  -- `state` after `new ctor()`
  pub default_state : Value
  pub initial_state : Value
  pub reduce : Value → Value → Value
  pub migrate_event : Option (Value → String → Value)
  pub migrate : Option (Value → String → Value)
  -- `onInit`, `onActivate` and `onDeactivate`, as what they make of the state
  pub on_init : Option (Value → Value)
  pub on_activate : Option (Value → Value)
  pub on_deactivate : Option (Value → Value × Outcome Value (Unit {0}))
  -- `snapshot()`, which is the state itself unless a class overrides it
  pub snapshot : Value → Value
