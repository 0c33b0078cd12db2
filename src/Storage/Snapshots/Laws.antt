-- ===== src/Storage/Snapshots/Laws.antt =====
-- Which snapshot src/storage/memory.ts loads: the one with the highest seq that is not negative.
use actjs.Prelude.{sym, ℕ, ◌≤◌, String, ◌≡◌, refl, Option, none, some, [], ◌∷◌, arith, get_or}
use actjs.Storage.Snapshots.{
  snapshot_of, snapshot_at, better, best_seq, load_snapshot, save_snapshot, write_snapshot,
  touch_actor,
}
use actjs.Prelude.Int.{ℤ, pos, negsuc, int_keyed}
use actjs.Prelude.Keys.{string_keyed}
use actjs.Prelude.Outcome.{Outcome, ok, >>-eq-ok}
use actjs.Prelude.Map.{Map, get, set}
use actjs.Prelude.Map.Laws.{get-set, get-set_self}
use actjs.Storage.Types.{SnapshotWrite, StorageError}
use actjs.Storage.Driver.{Driver, ActorRow, SnapshotRow}
use actjs.Storage.Actors.{assert_fence}

-- `k` is no candidate above `best`.
abbrev pub Covers : Option ℕ → ℤ → Type 0
Covers best (negsuc k) = Unit
Covers none (pos k) = ⊥
Covers (some b) (pos k) = k ≤ b

better-Covers : (best : Option ℕ) (k j : ℤ) → Covers best j → Covers (better best k) j
unfolding better
better-Covers best k (negsuc j) h = tt
better-Covers none k (pos j) h = absurd h
better-Covers (some b) (negsuc k) (pos j) h = h
better-Covers (some b) (pos k) (pos j) h = ground arith

better-Covers_self : (best : Option ℕ) (k : ℤ) → Covers (better best k) k
unfolding better
better-Covers_self best (negsuc k) = tt
better-Covers_self none (pos k) = omega arith
better-Covers_self (some b) (pos k) = ground arith

abbrev IsLow : Option ℕ → ℕ → Type 0
IsLow none n = Unit
IsLow (some b) n = b ≤ n

better-IsLow :
    (best : Option ℕ) (k : ℤ) (n : ℕ) → IsLow best n → Covers (some n) k → IsLow (better best k) n
unfolding better
better-IsLow best (negsuc k) n low h = low
better-IsLow none (pos k) n low h = h
better-IsLow (some b) (pos k) n low h = ground arith

better_top : (best : Option ℕ) (n : ℕ) → IsLow best n → better best (pos n) ≡ some n
unfolding better
better_top none n low = refl
better_top (some b) n low = ground arith

module _ {V : Type 0} where
  abbrev pub AllKeys : (ℤ → Type 0) → Map ℤ (SnapshotRow V) → Type 0
  AllKeys P [] = Unit
  AllKeys P ((k, row) ∷ m) = P k × AllKeys P m

  best_seq-Covers_old :
      (m : Map ℤ (SnapshotRow V)) (best : Option ℕ) (j : ℤ)
      → Covers best j
      → Covers (best_seq m best) j
  unfolding best_seq
  best_seq-Covers_old [] best j h = h
  best_seq-Covers_old ((k, row) ∷ m) best j h =
      best_seq-Covers_old m (better best k) j (better-Covers best k j h)

  -- No key of the bucket is above the best one.
  pub best_seq-Covers :
      (m : Map ℤ (SnapshotRow V)) (best : Option ℕ) → AllKeys (Covers (best_seq m best)) m
  unfolding best_seq
  best_seq-Covers [] best = tt
  best_seq-Covers ((k, row) ∷ m) best = (
    best_seq-Covers_old m (better best k) k (better-Covers_self best k),
    best_seq-Covers m (better best k),
  )

  best_seq-top :
      (m : Map ℤ (SnapshotRow V)) (n : ℕ)
      → AllKeys (Covers (some n)) m
      → best_seq m (some n) ≡ some n
  unfolding best_seq better
  best_seq-top [] n h = refl
  best_seq-top ((negsuc k, row) ∷ m) n h = best_seq-top m n h.1
  best_seq-top ((pos k, row) ∷ m) n h = ground (arith, best_seq-top m n h.1)

  -- With a bucket whose keys lie at or below `n`, writing `n` makes it the best.
  best_seq-set :
      (m : Map ℤ (SnapshotRow V)) (best : Option ℕ) (n : ℕ) (row : SnapshotRow V)
      → AllKeys (Covers (some n)) m
      → IsLow best n
      → best_seq (set m (pos n) row) best ≡ some n
  unfolding best_seq set
  best_seq-set [] best n row h low = better_top best n low
  best_seq-set ((negsuc k, r) ∷ m) best n row h low =
      best_seq-set m (better best (negsuc k)) n row h.1 (better-IsLow best (negsuc k) n low tt)
  best_seq-set ((pos k, r) ∷ m) best n row h low = ground (
    arith,
    better_top best n low,
    best_seq-top m n h.1,
    best_seq-set m (better best (pos k)) n row h.1 (better-IsLow best (pos k) n low h.0),
  )

  best_seq-set_negative :
      (m : Map ℤ (SnapshotRow V)) (best : Option ℕ) (k : ℕ) (row : SnapshotRow V)
      → best_seq (set m (negsuc k) row) best ≡ best_seq m best
  unfolding best_seq set better
  best_seq-set_negative [] best k row = refl
  best_seq-set_negative ((negsuc j, r) ∷ m) best k row =
      ground (arith, best_seq-set_negative m best k row)
  best_seq-set_negative ((pos j, r) ∷ m) best k row =
      best_seq-set_negative m (better best (pos j)) k row

  -- The seqs under which the snapshots of an actor stand are at most `n`.
  abbrev pub SnapshotsUpTo : Driver V → String → ℕ → Type 0
  SnapshotsUpTo d id n = AllKeys (Covers (some n)) (get_or (get d.snapshots_by_actor id) [])

  abbrev row_for : ℕ → SnapshotWrite V → SnapshotRow V
  row_for now snap = record { ts = now; class_version = snap.version; state = snap.state }

  abbrev bucket_after : Driver V → ℕ → String → SnapshotWrite V → Map ℤ (SnapshotRow V)
  bucket_after d now id snap =
      set (get_or (get d.snapshots_by_actor id) []) snap.seq (row_for now snap)

  pub snapshot_at_found :
      (actor : ActorRow) (m : Map ℤ (SnapshotRow V)) (n : ℕ) (row : SnapshotRow V)
      → get m (pos n) ≡ some row
      → snapshot_at actor m (some n)
        ≡ some (record {
          cls = actor.cls;
          version = row.class_version;
          seq = pos n;
          state = row.state;
        })
  snapshot_at_found actor m n row e = rw (e, snapshot_at) refl

  snapshot_at-set_negative :
      (actor : ActorRow) (m : Map ℤ (SnapshotRow V)) (k : ℕ) (row : SnapshotRow V) (best : Option ℕ)
      → snapshot_at actor (set m (negsuc k) row) best ≡ snapshot_at actor m best
  snapshot_at-set_negative actor m k row none = refl
  snapshot_at-set_negative actor m k row (some b) =
      rw (get-set m (negsuc k) (pos b) row, snapshot_at) refl

  snapshot_of-get_or :
      (snaps : Option (Map ℤ (SnapshotRow V))) (actor : ActorRow)
      → snapshot_of snaps (some actor)
        ≡ snapshot_at actor (get_or snaps []) (best_seq (get_or snaps []) none)
  unfolding best_seq
  snapshot_of-get_or none actor = refl
  snapshot_of-get_or (some m) actor = refl

  load_snapshot-written :
      (d : Driver V) (now : ℕ) (id : String) (snap : SnapshotWrite V) (actor : ActorRow)
      → load_snapshot (touch_actor (write_snapshot d now id snap) now id (some actor)) id
        ≡ snapshot_at actor
            (bucket_after d now id snap)
            (best_seq (bucket_after d now id snap) none)
  unfolding load_snapshot
  load_snapshot-written d now id snap actor =
      rw
        (
          get-set_self d.snapshots_by_actor id (bucket_after d now id snap),
          get-set_self d.actors id (record actor { last_active_at = some now }),
        )
        refl

  save_snapshot_lem :
      (d : Driver V) (now : ℕ) (id : String) (snap : SnapshotWrite V) (fence : Option ℕ)
      (actor : ActorRow) {d' : Driver V}
      → save_snapshot d now id snap fence ≡ ok d'
      → get d.actors id ≡ some actor
      → touch_actor (write_snapshot d now id snap) now id (some actor) ≡ d'
  unfolding save_snapshot
  save_snapshot_lem d now id snap fence actor {d'} saved found =
      let done =
        >>-eq-ok (assert_fence d id fence)
          (ok (touch_actor (write_snapshot d now id snap) now id (get d.actors id))) saved in
      let done' : ◌≡◌ {A = Outcome StorageError (Driver V)}
          (ok (touch_actor (write_snapshot d now id snap) now id (some actor))) (ok d') =
        rw found at done in
      cc

  -- A snapshot that is saved at a seq no lower than the others is the one that is loaded, with the
  -- state and the version that were written.
  pub load_snapshot-save_snapshot :
      (d : Driver V) (now : ℕ) (id : String) (snap : SnapshotWrite V) (fence : Option ℕ) (n : ℕ)
      (actor : ActorRow) {d' : Driver V}
      → save_snapshot d now id snap fence ≡ ok d'
      → get d.actors id ≡ some actor
      → snap.seq ≡ pos n
      → SnapshotsUpTo d id n
      → load_snapshot d' id
        ≡ some (record { cls = actor.cls; version = snap.version; seq = pos n; state = snap.state })
  load_snapshot-save_snapshot d now id snap fence n actor {d'} saved found seq upto =
      rw
        (
          ← save_snapshot_lem d now id snap fence actor saved found,
          load_snapshot-written d now id snap actor,
          seq,
          best_seq-set (get_or (get d.snapshots_by_actor id) []) none n (row_for now snap) upto tt,
        )
        (snapshot_at_found actor
          (set (get_or (get d.snapshots_by_actor id) []) (pos n) (row_for now snap)) n
          (row_for now snap)
          (get-set_self (get_or (get d.snapshots_by_actor id) []) (pos n) (row_for now snap)))

  -- A snapshot that is saved in the retention slot, at a negative seq, does not change what is
  -- loaded, for an actor that has a snapshot already or none.
  pub load_snapshot-retained :
      (d : Driver V) (now : ℕ) (id : String) (snap : SnapshotWrite V) (fence : Option ℕ) (k : ℕ)
      (actor : ActorRow) {d' : Driver V}
      → save_snapshot d now id snap fence ≡ ok d'
      → get d.actors id ≡ some actor
      → snap.seq ≡ negsuc k
      → load_snapshot d' id ≡ load_snapshot d id
  unfolding load_snapshot
  load_snapshot-retained d now id snap fence k actor {d'} saved found seq =
      let m = get_or (get d.snapshots_by_actor id) [] in
      let before : load_snapshot d id ≡ snapshot_at actor m (best_seq m none) =
        rw found (snapshot_of-get_or (get d.snapshots_by_actor id) actor) in
      rw
        (
          ← save_snapshot_lem d now id snap fence actor saved found,
          load_snapshot-written d now id snap actor,
          seq,
          best_seq-set_negative m none k (row_for now snap),
          snapshot_at-set_negative actor m k (row_for now snap) (best_seq m none),
        )
        (sym before)
