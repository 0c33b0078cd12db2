-- ===== src/Runtime/Host/Recovery.antt =====
-- Commit and cold start of an event-sourced actor in src/runtime/host.ts together: `commitEs` folds
-- the events of the handler, `replayEvents` folds the payloads that `normalizeEvent` logged.
use actjs.Runtime.Value.{Fields, no_field, with_field}
use actjs.Runtime.Value.{
  with_field, undefined, obj, str, without, Fields, get_field, as_array, EventError,
  normalize_event, event_write, Value,
}
use actjs.Prelude.{
  drop-length-append, length-map, length-append, ℕ, ◌+◌, String, ◌≡◌, refl, ap, sym, ◌∙◌, none,
  some, List, [], ◌∷◌, ◌++◌, map, length, arith,
}
use actjs.Runtime.Host.Activate.{event_of, replay_events}
use actjs.Runtime.Host.Replay.{caught_up, StandsAt, replay_fold, replay_events-StandsAt}
use actjs.Storage.Events.{record_of, row_of}
use actjs.Storage.Types.{EventRecord, EventWrite}
use actjs.Prelude.Keys.{string_keyed, nat_keyed}
use actjs.Runtime.Host.Commit.{commit_es, normalize_all, fold_events}
use actjs.Prelude.Outcome.{throw, ok, Outcome}
use actjs.Storage.Actors.{load_actor_fence}
use actjs.Storage.Events.Log.{IsLog}
use actjs.Prelude.Map.{get}
use actjs.Storage.Driver.{EventRow, ActorRow}
use actjs.Runtime.ActorClass.{ActorClass}
use actjs.Runtime.Host.State.{World, MailboxItem}
use actjs.Runtime.Host.Sourcing.{commit_es-HasCommitted}

-- The class folds an event and the payload that is logged for it to the same state.
abbrev pub IsShapeBlind : ActorClass → Type 0
IsShapeBlind cls =
    (s e : Value) (write : EventWrite Value)
    → normalize_event e ≡ ok write
    → cls.reduce s e ≡ cls.reduce s write.payload

abbrev pub payloads : List (EventWrite Value) → List Value
payloads [] = []
payloads (x ∷ xs) = x.payload ∷ payloads xs

event_of-plain :
    (cls : ActorClass) (version : String) (r : EventRecord Value)
    → cls.migrate_event ≡ none
    → event_of cls version r ≡ r.payload
event_of-plain cls version r plain = ground arith

replay_fold-payloads :
    (cls : ActorClass) (version id class_version : String) (now : ℕ) (s : Value)
    (writes : List (EventWrite Value))
    → cls.migrate_event ≡ none
    → replay_fold cls version id s (map (row_of now class_version) writes)
      ≡ fold_events cls.reduce s (payloads writes)
unfolding fold_events
replay_fold-payloads cls version id class_version now s [] plain = refl
replay_fold-payloads cls version id class_version now s (x ∷ xs) plain =
    ap (λ p. replay_fold cls version id (cls.reduce s p) (map (row_of now class_version) xs))
      (event_of-plain cls version (record_of id 0 (row_of now class_version x)) plain)
    ∙ replay_fold-payloads cls version id class_version now (cls.reduce s x.payload) xs plain

fold_normal :
    (cls : ActorClass) (s e : Value) (es : List Value) (writes : List (EventWrite Value))
    (o : Outcome EventError (EventWrite Value)) (os : Outcome EventError (List (EventWrite Value)))
    → IsShapeBlind cls
    → ((t : Value) (ws : List (EventWrite Value))
        → os ≡ ok ws
        → fold_events cls.reduce t es ≡ fold_events cls.reduce t (payloads ws))
    → normalize_event e ≡ o
    → normalize_all es ≡ os
    → normalize_all (e ∷ es) ≡ ok writes
    → fold_events cls.reduce s (e ∷ es) ≡ fold_events cls.reduce s (payloads writes)
unfolding fold_events normalize_all
fold_normal cls s e es writes (throw x) os blind ih first rest normal =
    let off : ◌≡◌ {A = Outcome EventError (List (EventWrite Value))} (throw x) (ok writes) =
      rw (normalize_all, first) at normal in
    cc
fold_normal cls s e es writes (ok x) (throw y) blind ih first rest normal =
    let off : ◌≡◌ {A = Outcome EventError (List (EventWrite Value))} (throw y) (ok writes) =
      rw (normalize_all, first, rest) at normal in
    cc
fold_normal cls s e es writes (ok x) (ok xs) blind ih first rest normal =
    let both : ◌≡◌ {A = Outcome EventError (List (EventWrite Value))} (ok (x ∷ xs)) (ok writes) =
      rw (normalize_all, first, rest) at normal in
    let same : x ∷ xs ≡ writes = cc in
    rw (← same) (
      ap (λ t. fold_events cls.reduce t es) (blind s e x first)
      ∙ ih (cls.reduce s x.payload) xs refl)

fold-payloads :
    (cls : ActorClass) (s : Value) (es : List Value) (writes : List (EventWrite Value))
    → IsShapeBlind cls
    → normalize_all es ≡ ok writes
    → fold_events cls.reduce s es ≡ fold_events cls.reduce s (payloads writes)
unfolding fold_events normalize_all
fold-payloads cls s [] writes blind normal =
    let none_left : [] ≡ writes = cc in rw (← none_left) refl
fold-payloads cls s (e ∷ es) writes blind normal =
    fold_normal cls s e es writes (normalize_event e) (normalize_all es) blind
      (λ t ws go. fold-payloads cls t es ws blind go) refl refl normal

-- `v` is a host that starts again after `w'`: it has the log of `w'`, the class of `w`, and a snapshot
-- of `w`.
pub record RestartsFrom (w w' v : World) : Type 0 where
  pub actor : ActorRow
  pub found : get v.driver.actors v.host.id ≡ some actor
  pub log : v.driver ≡ w'.driver
  pub id : v.host.id ≡ w'.host.id
  pub cls : v.host.cls ≡ w.host.cls
  pub state : v.host.state ≡ w.host.state
  pub seq : v.host.current_seq ≡ w.host.current_seq

caught_up-new :
    (w w' v : World) (rows new : List (EventRow Value)) (state : Value)
    → RestartsFrom w w' v
    → w.host.current_seq ≡ length rows
    → caught_up v (rows ++ new) state
      ≡ replay_fold w.host.cls v.host.registration.version v.host.id state new
caught_up-new w w' v rows new state again level =
    rw (again.cls, again.seq, level, drop-length-append rows new) refl

-- A host stands at the head of its log when a turn commits `e ∷ es`; a host that starts again from a
-- snapshot taken before that turn comes to the fold of the payloads that were logged, and to the same
-- seq as the host that committed, if the class migrates no events.
pub replay_events-commit_es :
    (it : MailboxItem) (result e : Value) (es : List Value) (w v : World)
    (rows : List (EventRow Value)) (actor : ActorRow) (state : Value)
    (writes : List (EventWrite Value))
    → IsLog w.driver w.host.id rows
    → get w.driver.actors w.host.id ≡ some actor
    → w.host.fence_token ≡ load_actor_fence w.driver w.host.id
    → w.host.state ≡ some state
    → w.host.current_seq ≡ length rows
    → as_array result ≡ some (e ∷ es)
    → normalize_all (e ∷ es) ≡ ok writes
    → w.host.cls.migrate_event ≡ none
    → RestartsFrom w (commit_es it result w).1 v
    → ((replay_events v).1.host.state
        ≡ some (fold_events w.host.cls.reduce state (payloads writes)))
      × ((replay_events v).1.host.current_seq ≡ (commit_es it result w).1.host.current_seq)
replay_events-commit_es it result e es w v rows actor state writes log found fence here level array
      normal plain again =
    let done =
      commit_es-HasCommitted it result e es w rows actor state writes log found fence here array
        normal in
    let new = map (row_of w.clock actor.version) writes in
    let at : StandsAt v (rows ++ new) state = record {
      actor = again.actor;
      log = rw (again.log, again.id) done.log;
      found = again.found;
      here = again.state ∙ here;
      behind = rw (again.seq, level) (omega (arith, length-append rows new));
    } in
    let (s, q) = replay_events-StandsAt v (rows ++ new) state at in
    (
      s
          ∙ ap some (
              caught_up-new w (commit_es it result w).1 v rows new state again level
              ∙ replay_fold-payloads w.host.cls v.host.registration.version v.host.id actor.version
                  w.clock state writes plain),
      q
          ∙ length-append rows new
          ∙ ap (λ n. length rows + n) (length-map (row_of w.clock actor.version) writes)
          ∙ sym done.head,
    )

-- A host stands at the head of its log when a turn commits `e ∷ es`. If the class migrates no
-- events and folds an event and its logged payload alike, a host that starts again from a
-- snapshot taken before that turn comes to the very state of the host that committed.
pub replay_events-live_state :
    (it : MailboxItem) (result e : Value) (es : List Value) (w v : World)
    (rows : List (EventRow Value)) (actor : ActorRow) (state : Value)
    (writes : List (EventWrite Value))
    → IsLog w.driver w.host.id rows
    → get w.driver.actors w.host.id ≡ some actor
    → w.host.fence_token ≡ load_actor_fence w.driver w.host.id
    → w.host.state ≡ some state
    → w.host.current_seq ≡ length rows
    → as_array result ≡ some (e ∷ es)
    → normalize_all (e ∷ es) ≡ ok writes
    → w.host.cls.migrate_event ≡ none
    → RestartsFrom w (commit_es it result w).1 v
    → IsShapeBlind w.host.cls
    → (replay_events v).1.host.state ≡ (commit_es it result w).1.host.state
replay_events-live_state it result e es w v rows actor state writes log found fence here level array
      normal plain again blind =
    (replay_events-commit_es it result e es w v rows actor state writes log found fence here level
      array normal plain again).0
    ∙ ap some (sym (fold-payloads w.host.cls state (e ∷ es) writes blind normal))
    ∙ sym
        (commit_es-HasCommitted it result e es w rows actor state writes log found fence here array
          normal).folds

get_field-without : (fs : Fields) (k : String) → get_field (without fs k) k ≡ none
unfolding get_field without
get_field-without no_field k = refl
get_field-without (with_field j v fs) k = ground (arith, get_field-without fs k)

-- An event that carries its fields beside its type, with no `payload`, is logged without its type.
pub normalize_event-untyped :
    (fs : Fields) (type : String)
    → get_field fs "type" ≡ some (str type)
    → get_field fs "payload" ≡ none
    → (normalize_event (obj fs) ≡ ok (event_write type (obj (without fs "type"))))
      × (get_field (without fs "type") "type" ≡ none)
unfolding normalize_event
normalize_event-untyped fs type typed bare = (rw (typed, bare) refl, get_field-without fs "type")

-- A class that migrates no events, tells them apart by their type, and folds an object with
-- none to undefined, loses its state: a host stands at the head of its log when a turn commits
-- one event that carries its fields beside its type; a host that starts again from a snapshot
-- taken before that turn has the state undefined.
pub replay_events-untyped :
    (it : MailboxItem) (result : Value) (fs : Fields) (type : String) (w v : World)
    (rows : List (EventRow Value)) (actor : ActorRow) (state : Value)
    → IsLog w.driver w.host.id rows
    → get w.driver.actors w.host.id ≡ some actor
    → w.host.fence_token ≡ load_actor_fence w.driver w.host.id
    → w.host.state ≡ some state
    → w.host.current_seq ≡ length rows
    → as_array result ≡ some (obj fs ∷ [])
    → get_field fs "type" ≡ some (str type)
    → get_field fs "payload" ≡ none
    → w.host.cls.migrate_event ≡ none
    → ((s : Value) (gs : Fields)
        → get_field gs "type" ≡ none
        → w.host.cls.reduce s (obj gs) ≡ undefined)
    → RestartsFrom w (commit_es it result w).1 v
    → (replay_events v).1.host.state ≡ some undefined
unfolding fold_events normalize_all
replay_events-untyped it result fs type w v rows actor state log found fence here level array typed
      bare plain loses again =
    let (logged, untyped) = normalize_event-untyped fs type typed bare in
    let write = event_write type (obj (without fs "type")) in
    let normal : normalize_all (obj fs ∷ []) ≡ ok (write ∷ []) = rw (normalize_all, logged) refl in
    (replay_events-commit_es it result (obj fs) [] w v rows actor state (write ∷ []) log found fence
      here level array normal plain again).0
    ∙ ap some (loses state (without fs "type") untyped)
