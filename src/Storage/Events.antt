-- ===== src/Storage/Events.antt =====
-- appendEvents, readEvents and headEventSeq of src/storage/memory.ts.
pub mod Log
use actjs.Prelude.{ℕ, suc, String, Option, none, some, List, [], ◌∷◌, leb, get_or, if◌then◌else◌}
use actjs.Prelude.Keys.{string_keyed, nat_keyed}
use actjs.Prelude.Outcome.{◌>>◌, Outcome, ok, throw}
use actjs.Prelude.Map.{Map, get, set}
use actjs.Prelude.Sort.{sort}
use actjs.Storage.Types.{EventWrite, EventRecord, StorageError, unknown_actor}
use actjs.Storage.Driver.{Driver, ActorRow, EventRow}
use actjs.Storage.Actors.{assert_fence}

module _ {V : Type 0} where
  unfoldable pub head_event_seq : Driver V → String → ℕ
  head_event_seq d id = get_or (get d.head_seq_by_actor id) 0

  abbrev pub row_of : ℕ → String → EventWrite V → EventRow V
  row_of now version e = record {
    ts = now;
    class_version = version;
    type = e.type;
    payload = e.payload;
    causation_id = e.causation_id;
  }

  -- the loop of `appendEvents`: the bucket and the last seq
  unfoldable pub push_events :
      ℕ → String → Map ℕ (EventRow V) → ℕ → List (EventWrite V) → Map ℕ (EventRow V) × ℕ
  push_events now version bucket seq [] = (bucket, seq)
  push_events now version bucket seq (e ∷ es) =
      push_events now version (set bucket (suc seq) (row_of now version e)) (suc seq) es

  abbrev pub commit_events : Driver V → String → Map ℕ (EventRow V) × ℕ → ℕ × Driver V
  commit_events d id (bucket, seq) = (
    seq,
    record d {
      events_by_actor = set d.events_by_actor id bucket;
      head_seq_by_actor = set d.head_seq_by_actor id seq;
    },
  )

  abbrev pub append_to :
      Driver V
      → ℕ
      → String
      → List (EventWrite V)
      → Option ActorRow
      → Outcome StorageError (ℕ × Driver V)
  append_to d now id events none = throw (unknown_actor id)
  append_to d now id events (some actor) = ok (
      commit_events d id (
        push_events now actor.version (get_or (get d.events_by_actor id) [])
          (get_or (get d.head_seq_by_actor id) 0) events))

  unfoldable pub append_some :
      Driver V → ℕ → String → List (EventWrite V) → Outcome StorageError (ℕ × Driver V)
  append_some d now id [] = ok (get_or (get d.head_seq_by_actor id) 0, d)
  append_some d now id (e ∷ es) = append_to d now id (e ∷ es) (get d.actors id)

  unfoldable pub append_events :
      Driver V → ℕ → String → List (EventWrite V) → Option ℕ → Outcome StorageError (ℕ × Driver V)
  unfolding append_some
  append_events d now id events expected_fence = do
    assert_fence d id expected_fence
    append_some d now id events

  abbrev pub record_of : String → ℕ → EventRow V → EventRecord V
  record_of id k row = record {
    actor_id = id;
    seq = k;
    ts = row.ts;
    class_version = row.class_version;
    type = row.type;
    payload = row.payload;
    causation_id = row.causation_id;
  }

  -- `Array.from(bucket.keys()).filter((k) => k >= fromSeq)`
  unfoldable pub keys_from : Map ℕ (EventRow V) → ℕ → List ℕ
  keys_from [] from = []
  keys_from ((k, row) ∷ m) from =
      let rest = keys_from m from in if leb from k then k ∷ rest else rest

  -- the loop over the keys; each is a key of the bucket
  unfoldable pub records_at : String → Map ℕ (EventRow V) → List ℕ → List (EventRecord V)
  records_at id bucket [] = []
  records_at id bucket (k ∷ ks) =
      let rest = records_at id bucket ks in
      elim (get bucket k) [ none ↦ rest | some row ↦ record_of id k row ∷ rest ]

  abbrev pub events_of :
      String → ℕ → Option (Map ℕ (EventRow V)) → Option ActorRow → List (EventRecord V)
  events_of id from (some bucket) (some actor) =
      records_at id bucket (sort leb (keys_from bucket from))
  events_of id from (some bucket) none = []
  events_of id from none actor = []

  unfoldable pub read_events : Driver V → String → ℕ → List (EventRecord V)
  unfolding keys_from records_at sort
  read_events d id from = events_of id from (get d.events_by_actor id) (get d.actors id)
