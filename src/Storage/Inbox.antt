-- ===== src/Storage/Inbox.antt =====
-- appendInbox, readPendingInbox, ackInbox and pendingInboxCount of src/storage/memory.ts.
pub mod Pending
pub mod Invariant
use actjs.Storage.Types.{inbox_id_keyed}
use actjs.Prelude.{
  ℕ, suc, String, true, false, Option, none, some, List, [], ◌∷◌, ◌++◌, leb, get_or, length, take,
  drop, if◌then◌else◌,
}
use actjs.Prelude.Keys.{string_keyed}
use actjs.Prelude.Map.{get, set, contains, add, remove}
use actjs.Storage.Types.{InboxEntry, InboxId, InboxRecord}
use actjs.Storage.Driver.{Driver}

-- `for (const eid of entryIds) acked.add(eid)`
unfoldable pub add_all : List InboxId → List InboxId → List InboxId
add_all acked [] = acked
add_all acked (i ∷ is) = add_all (add acked i) is

module _ {V : Type 0} where
  abbrev pub bucket_of : Driver V → String → List (InboxRecord V)
  bucket_of d id = get_or (get d.inbox_by_actor id) []

  abbrev pub acked_of : Driver V → String → List InboxId
  acked_of d id = get_or (get d.inbox_acked_by_actor id) []

  unfoldable pub append_inbox : Driver V → ℕ → String → InboxEntry V → InboxId × Driver V
  append_inbox d now id entry =
      let inbox_id : InboxId = record { now = now; seq = d.inbox_seq } in
      (
        inbox_id,
        record d {
          inbox_seq = suc d.inbox_seq;
          inbox_by_actor =
              set d.inbox_by_actor id
                (bucket_of d id ++ record { id = inbox_id; entry = entry } ∷ []);
        },
      )

  -- the loop of `readPendingInbox`; `n` is `out.length`
  unfoldable pub take_pending : List InboxId → ℕ → ℕ → List (InboxRecord V) → List (InboxRecord V)
  take_pending acked limit n [] = []
  take_pending acked limit n (r ∷ rs) = elim (contains acked r.id) [
    | true ↦ take_pending acked limit n rs
    | false ↦ elim (leb limit (suc n)) [
      | true ↦ r ∷ []
      | false ↦ r ∷ take_pending acked limit (suc n) rs
    ]
  ]

  unfoldable pub read_pending_inbox : Driver V → String → ℕ → List (InboxRecord V)
  unfolding take_pending
  read_pending_inbox d id limit = elim (get d.inbox_by_actor id) [
    | none ↦ []
    | some bucket ↦ take_pending (acked_of d id) limit 0 bucket
  ]

  -- `while (drop < bucket.length && acked.has(bucket[drop]!.id)) drop++`
  unfoldable pub acked_prefix : List InboxId → List (InboxRecord V) → ℕ
  acked_prefix acked [] = 0
  acked_prefix acked (r ∷ rs) = elim (contains acked r.id) [
    | true ↦ suc (acked_prefix acked rs)
    | false ↦ 0
  ]

  -- `for (...) acked.delete(bucket[i]!.id)`
  unfoldable pub forget : List InboxId → List (InboxRecord V) → List InboxId
  forget acked [] = acked
  forget acked (r ∷ rs) = forget (remove acked r.id) rs

  -- what the compaction leaves of the acked set and of the bucket
  unfoldable pub compact : List InboxId → List (InboxRecord V) → List InboxId × List (InboxRecord V)
  unfolding acked_prefix forget
  compact acked bucket =
      let n = acked_prefix acked bucket in (forget acked (take n bucket), drop n bucket)

  abbrev write_compact : Driver V → String → List InboxId × List (InboxRecord V) → Driver V
  write_compact d id (acked, bucket) = record d {
    inbox_acked_by_actor = set d.inbox_acked_by_actor id acked;
    inbox_by_actor = set d.inbox_by_actor id bucket;
  }

  unfoldable pub ack_inbox : Driver V → String → List InboxId → Driver V
  unfolding add_all compact
  ack_inbox d id entry_ids =
      let acked = add_all (acked_of d id) entry_ids in
      elim (get d.inbox_by_actor id) [
        | none ↦ record d { inbox_acked_by_actor = set d.inbox_acked_by_actor id acked }
        | some bucket ↦ write_compact d id (compact acked bucket)
      ]

  unfoldable pub count_pending : List InboxId → List (InboxRecord V) → ℕ
  count_pending acked [] = 0
  count_pending acked (r ∷ rs) =
      let n = count_pending acked rs in if contains acked r.id then n else suc n

  -- `if (!acked || acked.size === 0) return bucket.length`
  abbrev pub count_in : Option (List InboxId) → List (InboxRecord V) → ℕ
  count_in none bucket = length bucket
  count_in (some []) bucket = length bucket
  count_in (some (i ∷ is)) bucket = count_pending (i ∷ is) bucket

  unfoldable pub pending_inbox_count : Driver V → String → ℕ
  unfolding count_pending
  pending_inbox_count d id = elim (get d.inbox_by_actor id) [
    | none ↦ 0
    | some bucket ↦ count_in (get d.inbox_acked_by_actor id) bucket
  ]
