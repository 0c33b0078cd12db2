-- ===== src/Storage/Events/Log.antt =====
-- An actor's events in src/storage/memory.ts as a list: the bucket of an actor is the rows that were
-- appended to it, numbered from 1, and its head is their number.
use actjs.Prelude.Outcome.{Outcome, ok}
use actjs.Storage.Types.{StorageError}
use actjs.Storage.Actors.{load_actor_fence}
use actjs.Storage.Actors.Fence.{assert_fence_current}
use actjs.Prelude.{
  length-map, length-map, none, some, ap, Option, refl, sym, ◌<◌, ◌≤◌, zero, suc, ℕ, ◌+◌, ◌-◌,
  String, ◌≡◌, ◌∙◌, List, [], ◌∷◌, ◌++◌, map, arith, leb, get_or, length, length-append, drop,
  append-nil, append_assoc,
}
use actjs.Storage.Events.{
  StorageError, append_some, append_events, events_of, assert_fence, commit_events, ok, read_events,
  row_of, push_events, record_of, keys_from, records_at,
}
use actjs.Prelude.Map.Laws.{get-set_self}
use actjs.Prelude.Outcome.{>>-eq-ok}
use actjs.Storage.Actors.{assert_fence}
use actjs.Prelude.Sort.{sort, sort_of_IsSorted, IsSorted}
use actjs.Storage.Driver.{ActorRow, Driver, EventRow}
use actjs.Prelude.Keys.{string_keyed, nat_keyed}
use actjs.Prelude.Map.{Map, get, set}
use actjs.Storage.Types.{EventWrite, EventRecord}

module _ {V : Type 0} where
  -- The rows numbered from `k + 1`.
  abbrev pub enum : ℕ → List (EventRow V) → Map ℕ (EventRow V)
  enum k [] = []
  enum k (r ∷ rows) = (suc k, r) ∷ enum (suc k) rows

  abbrev pub numbered : String → ℕ → List (EventRow V) → List (EventRecord V)
  numbered id k [] = []
  numbered id k (r ∷ rows) = record_of id (suc k) r ∷ numbered id (suc k) rows

  -- `rows` is the log of the actor `id`.
  pub record IsLog (d : Driver V) (id : String) (rows : List (EventRow V)) : Type 0 where
    pub bucket : get_or (get d.events_by_actor id) [] ≡ enum 0 rows
    pub head : get_or (get d.head_seq_by_actor id) 0 ≡ length rows

  set-enum :
      (k n : ℕ) (rows : List (EventRow V)) (r : EventRow V)
      → n ≡ k + length rows
      → set (enum k rows) (suc n) r ≡ enum k (rows ++ r ∷ [])
  unfolding set
  set-enum k n [] r h = ground arith
  set-enum k n (q ∷ rows) r h = ground (arith, set-enum (suc k) n rows r)

  push_events-enum :
      (now : ℕ) (version : String) (n : ℕ) (rows : List (EventRow V)) (es : List (EventWrite V))
      → n ≡ length rows
      → push_events now version (enum 0 rows) n es
        ≡ (enum 0 (rows ++ map (row_of now version) es), n + length es)
  unfolding push_events
  push_events-enum now version n rows [] h = rw append-nil (ground arith)
  push_events-enum now version n rows (e ∷ es) h =
      rw (set-enum 0 n rows (row_of now version e) (omega arith)) (
        push_events-enum now version (suc n) (rows ++ row_of now version e ∷ []) es
          (omega (arith, length-append rows (row_of now version e ∷ [])))
        ∙ rw append_assoc (ground arith))

  get-enum :
      (k n : ℕ) (pre rows : List (EventRow V)) (r : EventRow V)
      → n ≡ k + length pre
      → get (enum k (pre ++ r ∷ rows)) (suc n) ≡ some r
  unfolding get
  get-enum k n [] rows r h = ground arith
  get-enum k n (q ∷ pre) rows r h = ground (arith, get-enum (suc k) n pre rows r)

  keys_from-IsSorted :
      (k from : ℕ) (rows : List (EventRow V)) → IsSorted leb (keys_from (enum k rows) from)
  unfolding keys_from
  keys_from-IsSorted k from [] = tt
  keys_from-IsSorted k from (r ∷ []) = ground arith
  keys_from-IsSorted k from (r ∷ q ∷ rows) =
      ground (arith, keys_from-IsSorted (suc k) from (q ∷ rows))

  drop-nil : (n : ℕ) → drop {A = EventRecord V} n [] ≡ []
  unfolding drop
  drop-nil zero = refl
  drop-nil (suc n) = refl

  drop_none : (n k : ℕ) (xs : List (EventRecord V)) → n ≤ k → drop (n - k) xs ≡ xs
  unfolding drop
  drop_none n k xs h = let e : n - k ≡ 0 = omega arith in rw e refl

  drop_next :
      (n k : ℕ) (x : EventRecord V) (xs : List (EventRecord V))
      → k < n
      → drop (n - k) (x ∷ xs) ≡ drop (n - suc k) xs
  unfolding drop
  drop_next n k x xs h = let e : n - k ≡ suc (n - suc k) = omega arith in rw e refl

  records_at-enum :
      (id : String) (n k : ℕ) (pre rows : List (EventRow V))
      → k ≡ length pre
      → records_at id (enum 0 (pre ++ rows)) (keys_from (enum k rows) (suc n))
        ≡ drop (n - k) (numbered id k rows)
  unfolding records_at keys_from
  records_at-enum id n k pre [] h = sym (drop-nil (n - k))
  records_at-enum id n k pre (r ∷ rows) h = ground (
    arith,
    rw (append_assoc) at (
        records_at-enum id n (suc k) (pre ++ r ∷ []) rows
          (omega (arith, h, length-append pre (r ∷ [])))),
    get-enum 0 k pre rows r (omega arith),
    drop_none n k (numbered id k (r ∷ rows)),
    drop_none n (suc k) (numbered id (suc k) rows),
    drop_next n k (record_of id (suc k) r) (numbered id (suc k) rows),
  )

  events_of-get_or :
      (id : String) (from : ℕ) (o : Option (Map ℕ (EventRow V))) (actor : ActorRow)
      → events_of id from o (some actor)
        ≡ records_at id (get_or o []) (sort leb (keys_from (get_or o []) from))
  unfolding records_at keys_from sort
  events_of-get_or id from none actor = refl
  events_of-get_or id from (some bucket) actor = refl

  -- Reading the log of a registered actor from `n + 1` gives the rows behind the first `n`,
  -- numbered from `n + 1`.
  pub read_events-IsLog :
      (d : Driver V) (id : String) (rows : List (EventRow V)) (n : ℕ) (actor : ActorRow)
      → IsLog d id rows
      → get d.actors id ≡ some actor
      → read_events d id (suc n) ≡ drop n (numbered id 0 rows)
  unfolding read_events
  read_events-IsLog d id rows n actor log found =
      rw
        (
          found,
          events_of-get_or id (suc n) (get d.events_by_actor id) actor,
          log.bucket,
          sort_of_IsSorted leb (keys_from (enum 0 rows) (suc n))
              (keys_from-IsSorted 0 (suc n) rows),
        )
        (records_at-enum id n 0 [] rows refl ∙ ap (λ k. drop k (numbered id 0 rows)) (omega arith))

  commit_events-IsLog :
      (d : Driver V) (id : String) (rows : List (EventRow V)) (seq : ℕ)
      → seq ≡ length rows
      → IsLog (commit_events d id (enum 0 rows, seq)).1 id rows
  commit_events-IsLog d id rows seq h = record {
    bucket = rw (get-set_self d.events_by_actor id (enum 0 rows)) refl;
    head = rw (get-set_self d.head_seq_by_actor id seq) h;
  }

  append_some-IsLog :
      (d : Driver V) (now : ℕ) (id : String) (rows : List (EventRow V)) (es : List (EventWrite V))
      (actor : ActorRow) {seq : ℕ} {d' : Driver V}
      → IsLog d id rows
      → get d.actors id ≡ some actor
      → append_some d now id es ≡ ok (seq, d')
      → IsLog d' id (rows ++ map (row_of now actor.version) es) × (seq ≡ length rows + length es)
  unfolding append_some
  append_some-IsLog d now id rows [] actor {seq} {d'} log found appended =
      let same : d ≡ d' = cc in
      let head : get_or (get d.head_seq_by_actor id) 0 ≡ seq = cc in
      rw (append-nil, ← same) (log, omega (arith, log.head))
  append_some-IsLog d now id rows (e ∷ es) actor {seq} {d'} log found appended =
      let longer = rows ++ map (row_of now actor.version) (e ∷ es) in
      let n = length rows + length (e ∷ es) in
      let done : ◌≡◌ {A = Outcome StorageError (ℕ × Driver V)}
          (ok (commit_events d id (enum 0 longer, n))) (ok (seq, d')) =
        rw
          (
            found,
            log.bucket,
            log.head,
            push_events-enum now actor.version (length rows) rows (e ∷ es) refl,
          )
          at appended in
      let same : (commit_events d id (enum 0 longer, n)).1 ≡ d' = cc in
      let head : n ≡ seq = cc in
      (
        rw (← same) (
            commit_events-IsLog d id longer n (
              omega (
                arith,
                length-append rows (map (row_of now actor.version) (e ∷ es)),
                length-map (row_of now actor.version) (e ∷ es),
              ))),
        sym head,
      )

  -- An append to a registered actor that goes through puts its events, in order, behind the
  -- log, and returns the new head.
  pub append_events-IsLog :
      (d : Driver V) (now : ℕ) (id : String) (rows : List (EventRow V)) (es : List (EventWrite V))
      (fence : Option ℕ) (actor : ActorRow) {seq : ℕ} {d' : Driver V}
      → IsLog d id rows
      → get d.actors id ≡ some actor
      → append_events d now id es fence ≡ ok (seq, d')
      → IsLog d' id (rows ++ map (row_of now actor.version) es) × (seq ≡ length rows + length es)
  unfolding append_events
  append_events-IsLog d now id rows es fence actor log found appended =
      append_some-IsLog d now id rows es actor log found
        (>>-eq-ok (assert_fence d id fence) (append_some d now id es) appended)

  -- With the fence that is stored, events of a registered actor are appended.
  pub append_events_total :
      (d : Driver V) (now : ℕ) (id : String) (es : List (EventWrite V)) (actor : ActorRow)
      → get d.actors id ≡ some actor
      → (seq : ℕ) × (d' : Driver V) × (append_events d now id es (some (load_actor_fence d id))
          ≡ ok (seq, d'))
  unfolding append_events append_some
  append_events_total d now id [] actor found =
      (get_or (get d.head_seq_by_actor id) 0, d, rw (assert_fence_current d id) refl)
  append_events_total d now id (e ∷ es) actor found =
      let result = commit_events d id (
        push_events now actor.version (get_or (get d.events_by_actor id) [])
          (get_or (get d.head_seq_by_actor id) 0) (e ∷ es)) in
      (result.0, result.1, rw (assert_fence_current d id, found) refl)
