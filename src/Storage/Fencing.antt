-- ===== src/Storage/Fencing.antt =====
-- Fenced writes of src/storage/memory.ts: what a claim of ownership (bumpActorFence) does to the
-- snapshots and events that the former owner still tries to write.
use actjs.Prelude.{ℕ, ◌+◌, String, ◌≡◌, refl, none, some, List, arith}
use actjs.Prelude.Outcome.{ok, throw}
use actjs.Prelude.Map.{Map, get}
use actjs.Prelude.Map.Laws.{get-set_self}
use actjs.Prelude.Keys.{string_keyed}
use actjs.Storage.Types.{SnapshotWrite, EventWrite, stale_fence_token}
use actjs.Storage.Driver.{Driver, ActorRow}
use actjs.Storage.Actors.{register_actor, load_actor_fence, bump_actor_fence, assert_fence}
use actjs.Storage.Actors.Fence.{load_actor_fence-bump_actor_fence, assert_fence_stale}
use actjs.Storage.Snapshots.{save_snapshot}
use actjs.Storage.Events.{append_events}

module _ {V : Type 0} where
  -- In the state that a bump of a registered actor's fence from `expected` leaves, an event append and a snapshot
  -- write that still carry `expected` are refused, whatever they would write.
  pub stale_owner_refused :
      (d : Driver V) (id : String) (expected : ℕ) (row : ActorRow) {next : ℕ} {d' : Driver V}
      (now : ℕ) (events : List (EventWrite V)) (snap : SnapshotWrite V)
      → get d.actors id ≡ some row
      → bump_actor_fence d id expected ≡ ok (next, d')
      → (append_events d' now id events (some expected)
          ≡ throw (stale_fence_token id expected (expected + 1)))
        × (save_snapshot d' now id snap (some expected)
            ≡ throw (stale_fence_token id expected (expected + 1)))
  unfolding append_events save_snapshot
  stale_owner_refused d id expected row {next} {d'} now events snap found claimed =
      let (is_next, stored) = load_actor_fence-bump_actor_fence d id expected row found claimed in
      let fence : load_actor_fence d' id ≡ expected + 1 = omega arith in
      let refused = rw fence at (assert_fence_stale d' id expected (λ e. absurd (omega arith))) in
      (rw refused refl, rw refused refl)

  -- On an actor with no row a claim changes nothing, so the same claim goes through a second time:
  -- two owners hold the same new token.
  pub unregistered_claimed_twice :
      (d : Driver V) (id : String)
      → get d.actors id ≡ none
      → (bump_actor_fence d id 0 ≡ ok (1, d)) × (load_actor_fence d id ≡ 0)
  unfolding bump_actor_fence load_actor_fence
  unregistered_claimed_twice d id missing = (ground arith, ground arith)

  -- Registering an actor again sets its fence back to 0, so a token of 0 that was stale is accepted.
  pub register_actor_reopens :
      (d : Driver V) (now : ℕ) (id cls version : String) (tags : Map String String)
      → (load_actor_fence (register_actor d now id cls version tags) id ≡ 0)
        × (assert_fence (register_actor d now id cls version tags) id (some 0) ≡ ok tt)
  unfolding load_actor_fence register_actor assert_fence
  register_actor_reopens d now id cls version tags = (simp get-set_self, simp get-set_self)
