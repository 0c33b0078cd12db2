-- ===== src/Storage/Actors/Fence.antt =====
-- The fence tokens of src/storage/memory.ts: what a claim does to the writes of the former owner.
use actjs.Prelude.{ℕ, ◌+◌, String, ◌≡◌, ◌≢◌, refl, some, arith, nat_beq_iff}
use actjs.Prelude.Keys.{string_keyed, nat_keyed}
use actjs.Prelude.Outcome.{ok, throw}
use actjs.Prelude.Map.{get}
use actjs.Prelude.Map.Laws.{get-set_self, ==-refl}
use actjs.Storage.Types.{stale_fence_token}
use actjs.Storage.Driver.{Driver, ActorRow}
use actjs.Storage.Actors.{load_actor_fence, bump_actor_fence, assert_fence}

module _ {V : Type 0} where
  -- A claim that goes through stores its token: the fence of a registered actor is the one returned.
  pub load_actor_fence-bump_actor_fence :
      (d : Driver V) (id : String) (expected : ℕ) (row : ActorRow) {next : ℕ} {d' : Driver V}
      → get d.actors id ≡ some row
      → bump_actor_fence d id expected ≡ ok (next, d')
      → (next ≡ expected + 1) × (load_actor_fence d' id ≡ next)
  unfolding load_actor_fence bump_actor_fence
  load_actor_fence-bump_actor_fence d id expected row found claimed =
      ground (arith, get-set_self d.actors id (record row { fence = expected + 1 }))

  pub assert_fence_stale :
      (d : Driver V) (id : String) (expected : ℕ)
      → load_actor_fence d id ≢ expected
      → assert_fence d id (some expected)
        ≡ throw (stale_fence_token id expected (load_actor_fence d id))
  unfolding assert_fence
  assert_fence_stale d id expected stale =
      ground (arith, nat_beq_iff (load_actor_fence d id) expected)

  pub assert_fence_current :
      (d : Driver V) (id : String) → assert_fence d id (some (load_actor_fence d id)) ≡ ok tt
  unfolding assert_fence
  assert_fence_current d id = rw (==-refl (load_actor_fence d id)) refl
