-- ===== src/Storage/Snapshots.antt =====
-- loadSnapshot and saveSnapshot of src/storage/memory.ts.
pub mod Laws
use actjs.Prelude.{ℕ, String, Option, none, some, [], ◌∷◌, ltb, get_or, if◌then◌else◌}
use actjs.Prelude.Int.{ℤ, pos, negsuc, int_keyed}
use actjs.Prelude.Keys.{string_keyed}
use actjs.Prelude.Outcome.{◌>>◌, Outcome, ok}
use actjs.Prelude.Map.{Map, get, set}
use actjs.Storage.Types.{SnapshotRead, SnapshotWrite, StorageError}
use actjs.Storage.Driver.{Driver, ActorRow, SnapshotRow}
use actjs.Storage.Actors.{assert_fence}

-- one round of the loop of `loadSnapshot`: skip `k < 0n`, keep the larger
unfoldable pub better : Option ℕ → ℤ → Option ℕ
better best (negsuc k) = best
better none (pos k) = some k
better (some b) (pos k) = if ltb b k then some k else some b

module _ {V : Type 0} where
  unfoldable pub best_seq : Map ℤ (SnapshotRow V) → Option ℕ → Option ℕ
  unfolding better
  best_seq [] best = best
  best_seq ((k, row) ∷ snaps) best = best_seq snaps (better best k)

  abbrev pub snapshot_at : ActorRow → Map ℤ (SnapshotRow V) → Option ℕ → Option (SnapshotRead V)
  snapshot_at actor snaps none = none
  snapshot_at actor snaps (some best) = elim (get snaps (pos best)) [
    | none ↦ none
    | some row ↦
        some (record {
          cls = actor.cls;
          version = row.class_version;
          seq = pos best;
          state = row.state;
        })
  ]

  abbrev pub snapshot_of :
      Option (Map ℤ (SnapshotRow V)) → Option ActorRow → Option (SnapshotRead V)
  snapshot_of (some snaps) (some actor) = snapshot_at actor snaps (best_seq snaps none)
  snapshot_of (some snaps) none = none
  snapshot_of none actor = none

  unfoldable pub load_snapshot : Driver V → String → Option (SnapshotRead V)
  load_snapshot d id = snapshot_of (get d.snapshots_by_actor id) (get d.actors id)

  -- `if (actor) actor.lastActiveAt = now`
  abbrev pub touch_actor : Driver V → ℕ → String → Option ActorRow → Driver V
  touch_actor d now id none = d
  touch_actor d now id (some row) = record d {
    actors = set d.actors id (record row { last_active_at = some now });
  }

  abbrev pub write_snapshot : Driver V → ℕ → String → SnapshotWrite V → Driver V
  write_snapshot d now id snap = record d {
    snapshots_by_actor = set d.snapshots_by_actor id (
        set (get_or (get d.snapshots_by_actor id) []) snap.seq
          (record { ts = now; class_version = snap.version; state = snap.state }));
  }

  unfoldable pub save_snapshot :
      Driver V → ℕ → String → SnapshotWrite V → Option ℕ → Outcome StorageError (Driver V)
  save_snapshot d now id snap expected_fence = do
    assert_fence d id expected_fence
    ok (touch_actor (write_snapshot d now id snap) now id (get d.actors id))
