-- ===== src/Runtime/Host/Sourcing.antt =====
-- The event-sourced turn of src/runtime/host.ts against the log: what a commit appends, and that the
-- live state is the fold of what was appended.
use actjs.Runtime.Host.State.{CommitInfo, World, Host, Act, HostError, MailboxItem, ◌>>◌, modify}
use actjs.Storage.Actors.{load_actor_fence}
use actjs.Storage.Types.{stale_fence_token}
use actjs.Runtime.Host.State.{not_an_array}
use actjs.Storage.Actors.Fence.{assert_fence_stale}
use actjs.Storage.Events.Log.{append_events_total}
use actjs.Prelude.{
  ℕ, ◌+◌, ◌≡◌, ◌≢◌, refl, ap, ◌∙◌, none, some, List, ◌∷◌, ◌++◌, map, length, get_or, arith,
}
use actjs.Prelude.Outcome.{Outcome, ok, throw}
use actjs.Prelude.Map.{get}
use actjs.Prelude.Keys.{string_keyed}
use actjs.Storage.Types.{EventWrite}
use actjs.Storage.Driver.{Driver, ActorRow, EventRow}
use actjs.Storage.Events.{row_of, append_events}
use actjs.Storage.Events.Log.{IsLog, append_events-IsLog}
use actjs.Runtime.Value.{Value, EventError, as_array}
use actjs.Runtime.Host.Commit.{
  finish, fold_events, folded, normalize_all, commit_events, commit_es, emit_commit, flush_if_due,
}
use actjs.Runtime.Host.Same.{
  SameInstance, SameInstance-trans, finish-SameInstance, flush_if_due-SameInstance,
}

-- The world right after the append and the fold.
abbrev pub committed : World → List Value → ℕ → Driver Value → World
committed w es seq d = record w { driver = d; host = folded es seq w.host }

abbrev emit_events : List Value → Host → Host
emit_events es h =
    emit_commit (CommitInfo.events es h.current_seq (get_or h.state Value.undefined)) h

-- What follows the fold in a turn: the item is settled, the listeners are told, a snapshot may be
-- flushed.
abbrev after_fold : MailboxItem → Value → List Value → Act (Unit {0})
after_fold it result es = do finish it result; modify λ h. emit_events es h; flush_if_due

finished-SameInstance :
    (es : List Value) (r : Outcome HostError (Unit {0})) (w : World)
    → SameInstance w (((λ _. (r, w)) >> (do modify (emit_events es); flush_if_due)) w).1
finished-SameInstance es (throw e) w = ground arith
finished-SameInstance es (ok u) w =
    ground (arith, flush_if_due-SameInstance (record w { host = emit_events es w.host }))

after_fold-SameInstance :
    (it : MailboxItem) (result : Value) (es : List Value) (w : World)
    → SameInstance w (after_fold it result es w).1
after_fold-SameInstance it result es w =
    SameInstance-trans w (finish it result w).1 (after_fold it result es w).1
      (finish-SameInstance it result w)
      (finished-SameInstance es (finish it result w).0 (finish it result w).1)

-- A commit whose events normalise and whose append goes through: apart from the log and the fold, the
-- turn leaves the instance as it is.
commit_events-SameInstance :
    (it : MailboxItem) (result e : Value) (es : List Value) (w : World)
    (writes : List (EventWrite Value)) (seq : ℕ) (d : Driver Value)
    → normalize_all (e ∷ es) ≡ ok writes
    → append_events w.driver w.clock w.host.id writes (some w.host.fence_token) ≡ ok (seq, d)
    → SameInstance (committed w (e ∷ es) seq d) (commit_events it result (e ∷ es) w).1
unfolding commit_events
commit_events-SameInstance it result e es w writes seq d normal appended =
    rw (normal, appended) (after_fold-SameInstance it result (e ∷ es) (committed w (e ∷ es) seq d))

-- `w'` is `w` with `es` committed: `writes`, as rows of the class version of the actor's row, are
-- behind the log, the seq is the new head, and the state is the old one with `es` folded in.
pub record HasCommitted (w : World) (rows : List (EventRow Value)) (actor : ActorRow)
    (state : Value) (es : List Value) (writes : List (EventWrite Value)) (w' : World) : Type 0 where
  pub log : IsLog w'.driver w'.host.id (rows ++ map (row_of w.clock actor.version) writes)
  pub head : w'.host.current_seq ≡ length rows + length writes
  pub folds : w'.host.state ≡ some (fold_events w.host.cls.reduce state es)

IsLog-SameInstance :
    (w v : World) (rows : List (EventRow Value))
    → SameInstance w v
    → IsLog w.driver w.host.id rows
    → IsLog v.driver v.host.id rows
IsLog-SameInstance w v rows same log = record {
  bucket = rw (same.events, same.id) log.bucket;
  head = rw (same.heads, same.id) log.head;
}

-- A turn of a registered actor whose handler returned a non-empty array of events that
-- normalise, under the fence that is stored: the events are appended to the log, in order, the
-- host stands at the new head, and its state is the fold of exactly those events.
pub commit_es-HasCommitted :
    (it : MailboxItem) (result e : Value) (es : List Value) (w : World)
    (rows : List (EventRow Value)) (actor : ActorRow) (state : Value)
    (writes : List (EventWrite Value))
    → IsLog w.driver w.host.id rows
    → get w.driver.actors w.host.id ≡ some actor
    → w.host.fence_token ≡ load_actor_fence w.driver w.host.id
    → w.host.state ≡ some state
    → as_array result ≡ some (e ∷ es)
    → normalize_all (e ∷ es) ≡ ok writes
    → HasCommitted w rows actor state (e ∷ es) writes (commit_es it result w).1
unfolding commit_es
commit_es-HasCommitted it result e es w rows actor state writes log found fence here array normal =
    let (seq, d, go) = append_events_total w.driver w.clock w.host.id writes actor found in
    let done : append_events w.driver w.clock w.host.id writes (some w.host.fence_token)
        ≡ ok (seq, d) =
      rw fence go in
    let same = commit_events-SameInstance it result e es w writes seq d normal done in
    let (log', seq') =
      append_events-IsLog w.driver w.clock w.host.id rows writes (some w.host.fence_token) actor log
        found done in
    rw array (record {
      log = IsLog-SameInstance (committed w (e ∷ es) seq d) _ _ same log';
      head = same.current_seq ∙ seq';
      folds =
          same.state
          ∙ ap (λ s. some (fold_events w.host.cls.reduce (get_or s Value.undefined) (e ∷ es))) here;
    })

-- A turn whose handler returned something other than an array throws, and leaves the world as it was.
pub commit_es_not_an_array :
    (it : MailboxItem) (result : Value) (w : World)
    → as_array result ≡ none
    → commit_es it result w ≡ (throw (not_an_array w.host.registration.name), w)
unfolding commit_es
commit_es_not_an_array it result w array = rw array refl

-- A turn whose handler returned an event that does not normalise throws, and leaves the world as it
-- was: none of the events is appended or folded.
pub commit_es_bad_event :
    (it : MailboxItem) (result e : Value) (es : List Value) (x : EventError) (w : World)
    → as_array result ≡ some (e ∷ es)
    → normalize_all (e ∷ es) ≡ throw x
    → commit_es it result w ≡ (throw (HostError.event x), w)
unfolding commit_es commit_events
commit_es_bad_event it result e es x w array normal = rw (array, normal) refl

-- A turn of a host whose fence is not the stored one, with events that normalise, throws, and
-- leaves the world as it was: neither the log nor the state of the instance has the events.
pub commit_es_stale :
    (it : MailboxItem) (result e : Value) (es : List Value) (writes : List (EventWrite Value))
    (w : World)
    → as_array result ≡ some (e ∷ es)
    → normalize_all (e ∷ es) ≡ ok writes
    → load_actor_fence w.driver w.host.id ≢ w.host.fence_token
    → commit_es it result w ≡ (
      throw (
          HostError.storage
            (stale_fence_token w.host.id w.host.fence_token (load_actor_fence w.driver w.host.id))),
      w,
    )
unfolding commit_es commit_events append_events
commit_es_stale it result e es writes w array normal stale =
    rw (array, normal, assert_fence_stale w.driver w.host.id w.host.fence_token stale) refl
