-- ===== src/Storage/Actors.antt =====
-- The actor rows and their fence tokens: registerActor, loadActorFence, bumpActorFence,
-- tombstoneActor and assertFence of src/storage/memory.ts.
pub mod Fence
use actjs.Prelude.{ℕ, ◌+◌, String, Option, none, some, if◌then◌else◌}
use actjs.Prelude.Keys.{string_keyed, nat_keyed, ◌==◌}
use actjs.Prelude.Outcome.{Outcome, ok, throw}
use actjs.Prelude.Map.{Map, get, set}
use actjs.Storage.Types.{StorageError, stale_fence_token}
use actjs.Storage.Driver.{Driver, ActorRow}

-- `row?.fence ?? 0n`
abbrev pub fence_of : Option ActorRow → ℕ
fence_of none = 0
fence_of (some row) = row.fence

module _ {V : Type 0} where
  unfoldable pub register_actor :
      Driver V → ℕ → String → String → String → Map String String → Driver V
  register_actor d now id cls version tags = record d {
    actors = set d.actors id (record {
      cls = cls;
      version = version;
      created_at = now;
      last_active_at = none;
      tombstoned_at = none;
      tags = tags;
      fence = 0;
    });
  }

  unfoldable pub load_actor_fence : Driver V → String → ℕ
  load_actor_fence d id = fence_of (get d.actors id)

  -- `if (row) row.fence = next`
  abbrev write_fence : Driver V → String → ℕ → Option ActorRow → Driver V
  write_fence d id next none = d
  write_fence d id next (some row) = record d {
    actors = set d.actors id (record row { fence = next });
  }

  unfoldable pub bump_actor_fence : Driver V → String → ℕ → Outcome StorageError (ℕ × Driver V)
  unfolding load_actor_fence
  bump_actor_fence d id expected =
      let actual = fence_of (get d.actors id) in
      if actual == expected
      then ok (expected + 1, write_fence d id (expected + 1) (get d.actors id))
      else throw (stale_fence_token id expected actual)

  abbrev write_tombstone : Driver V → String → ℕ → Option ActorRow → Driver V
  write_tombstone d id now none = d
  write_tombstone d id now (some row) = record d {
    actors = set d.actors id (record row { tombstoned_at = some now });
  }

  unfoldable pub tombstone_actor : Driver V → ℕ → String → Driver V
  tombstone_actor d now id = write_tombstone d id now (get d.actors id)

  unfoldable pub assert_fence : Driver V → String → Option ℕ → Outcome StorageError (Unit {0})
  unfolding load_actor_fence
  assert_fence d id none = ok tt
  assert_fence d id (some expected) =
      let actual = fence_of (get d.actors id) in
      if actual == expected then ok tt else throw (stale_fence_token id expected actual)
