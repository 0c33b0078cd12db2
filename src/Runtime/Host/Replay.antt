-- ===== src/Runtime/Host/Replay.antt =====
-- Replay in src/runtime/host.ts: what state a cold start folds from the log of an event-sourced
-- actor.
use actjs.Runtime.Host.Same.{flush_if_long-SameInstance}
use actjs.Prelude.{
  ℕ, zero, suc, ◌+◌, ◌-◌, ◌≤◌, String, ◌≡◌, refl, ap, ◌∙◌, some, List, [], ◌∷◌, length, drop,
  drop-length, leb, get_or, arith, Bool-cases, inl, inr,
}
use actjs.Prelude.Map.{get}
use actjs.Prelude.Keys.{string_keyed}
use actjs.Storage.Driver.{ActorRow, EventRow}
use actjs.Storage.Events.{record_of, read_events, head_event_seq}
use actjs.Storage.Events.Log.{IsLog, numbered, read_events-IsLog}
use actjs.Runtime.Value.{Value}
use actjs.Runtime.ActorClass.{ActorClass}
use actjs.Runtime.Host.State.{World}
use actjs.Runtime.Host.Activate.{event_of, replay_records, replayed, replay_tail, replay_events}

-- The fold of logged rows, each as the cold start sees it.
abbrev pub replay_fold : ActorClass → String → String → Value → List (EventRow Value) → Value
replay_fold cls version id state [] = state
replay_fold cls version id state (r ∷ rows) =
    replay_fold cls version id (cls.reduce state (event_of cls version (record_of id 0 r))) rows

replay_records-numbered :
    (cls : ActorClass) (version id : String) (state : Value) (k n : ℕ)
    (rows : List (EventRow Value))
    → replay_records cls version state k n (numbered id k rows)
      ≡ (replay_fold cls version id state rows, k + length rows, n + length rows)
unfolding replay_records
replay_records-numbered cls version id state k n [] = ground arith
replay_records-numbered cls version id state k n (r ∷ rows) = ground (
  arith,
  replay_records-numbered cls version id
      (cls.reduce state (event_of cls version (record_of id 0 r))) (suc k) (suc n) rows,
)

drop-numbered :
    (id : String) (n k j : ℕ) (rows : List (EventRow Value))
    → j ≡ k + n
    → drop n (numbered id k rows) ≡ numbered id j (drop n rows)
unfolding drop
drop-numbered id zero k j rows e = ap (λ i. numbered id i rows) (omega arith)
drop-numbered id (suc n) k j [] e = refl
drop-numbered id (suc n) k j (r ∷ rows) e = drop-numbered id n (suc k) j rows (omega arith)

length-drop : (n : ℕ) (rows : List (EventRow Value)) → length (drop n rows) ≡ length rows - n
unfolding drop
length-drop zero rows = omega arith
length-drop (suc n) [] = omega arith
length-drop (suc n) (r ∷ rows) = omega (arith, length-drop n rows)

-- A host whose actor has the log `rows`, and which stands at `current_seq` with the state `state`.
pub record StandsAt (w : World) (rows : List (EventRow Value)) (state : Value) : Type 0 where
  pub actor : ActorRow
  pub log : IsLog w.driver w.host.id rows
  pub found : get w.driver.actors w.host.id ≡ some actor
  pub here : w.host.state ≡ some state
  pub behind : w.host.current_seq ≤ length rows

-- The state that the rows behind `current_seq` lead to.
abbrev pub caught_up : World → List (EventRow Value) → Value → Value
caught_up w rows state =
    replay_fold w.host.cls w.host.registration.version w.host.id state
      (drop w.host.current_seq rows)

replay_tail_lem :
    (w : World) (rows : List (EventRow Value)) (state : Value)
    → StandsAt w rows state
    → replay_tail w ≡ (caught_up w rows state, length rows, length rows - w.host.current_seq)
replay_tail_lem w rows state at =
    let n = w.host.current_seq in
    let version = w.host.registration.version in
    let read : read_events w.driver w.host.id (suc n) ≡ numbered w.host.id n (drop n rows) =
      read_events-IsLog w.driver w.host.id rows n at.actor at.log at.found
      ∙ drop-numbered w.host.id n 0 n rows (omega arith) in
    ap (λ rs. replay_records w.host.cls version (get_or w.host.state Value.undefined) n 0 rs) read
    ∙ ap
        (λ s.
          replay_records w.host.cls version (get_or s Value.undefined) n 0
            (numbered w.host.id n (drop n rows)))
        at.here
    ∙ replay_records-numbered w.host.cls version w.host.id state n 0 (drop n rows)
    ∙ ground (arith, length-drop n rows, at.behind)

abbrev caught_up_world : World → World
caught_up_world w = record w { host = replayed (replay_tail w) w.host }

-- Replaying the log of a registered event-sourced actor, from a host that stands no further
-- than its head, brings the host to the head of the log, with the state that the rows behind
-- its snapshot lead to. A flush at the end that fails does not change that.
pub replay_events-StandsAt :
    (w : World) (rows : List (EventRow Value)) (state : Value)
    → StandsAt w rows state
    → ((replay_events w).1.host.state ≡ some (caught_up w rows state))
      × ((replay_events w).1.host.current_seq ≡ length rows)
unfolding replay_events head_event_seq
replay_events-StandsAt w rows state at = elim (Bool-cases (leb (length rows) w.host.current_seq)) [
  | inl level ↦
      let end : w.host.current_seq ≡ length rows = ground (arith, at.behind) in
      let none_left : drop w.host.current_seq rows ≡ [] =
        ap (λ n. drop n rows) end ∙ drop-length rows in
      rw (at.log.head, level) (rw none_left at.here, end)
  | inr below ↦
      rw (at.log.head, below)
        (
          (flush_if_long-SameInstance (caught_up_world w)).state
              ∙ ap (λ (t : Value × ℕ × ℕ). some t.0) (replay_tail_lem w rows state at),
          (flush_if_long-SameInstance (caught_up_world w)).current_seq
              ∙ ap (λ (t : Value × ℕ × ℕ). t.1) (replay_tail_lem w rows state at),
        )
]
