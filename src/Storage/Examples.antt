-- ===== src/Storage/Examples.antt =====
-- Runs of the operations of src/storage/memory.ts at concrete inputs.
use actjs.Storage.Events.Log.{append_events-IsLog, read_events-IsLog, IsLog}
use actjs.Storage.Inbox.{ack_inbox}
use actjs.Storage.Inbox.Pending.{pending-ack_inbox, pending, unacked, IsInbox}
use actjs.Storage.Classes.{record_for, class_key, hash_buf}
use actjs.Storage.Events.{push_events, record_of, append_some, read_events, append_events, row_of}
use actjs.Storage.Reminders.Due.{pop_due_reminders-PopsDue, PopsDue}
use actjs.Storage.Types.{
  InboxEntry, InboxId, PublishClassInput, SnapshotWrite, EventWrite, stale_fence_token,
}
use actjs.Prelude.{drop, ℕ, String, ◌≡◌, refl, none, some, List, [], ◌∷◌}
use actjs.Storage.Reminders.{pop_due_reminders}
use actjs.Storage.Snapshots.{save_snapshot}
use actjs.Prelude.Map.{contains, get, set}
use actjs.Prelude.Keys.{string_keyed, nat_keyed}
use actjs.Prelude.Int.{pos, negsuc}
use actjs.Prelude.Outcome.{throw}
use actjs.Storage.Driver.{Driver, ActorRow, new_driver}
use actjs.Storage.Actors.{bump_actor_fence, assert_fence}
use actjs.Storage.Fencing.{stale_owner_refused}

abbrev cart_row : ActorRow
cart_row = record {
  cls = "Cart";
  version = "1.0.0";
  created_at = 5;
  last_active_at = none;
  tombstoned_at = none;
  tags = [];
  fence = 0;
}

-- One registered actor
abbrev one_cart : Driver ℕ
one_cart = record new_driver { actors = ("a", cart_row) ∷ [] }

abbrev claimed : Driver ℕ
claimed = record new_driver { actors = ("a", record cart_row { fence = 1 }) ∷ [] }

abbrev added : EventWrite ℕ
added = record { type = "added"; payload = 7; causation_id = none }

abbrev snap_of : ℕ → SnapshotWrite ℕ
snap_of n = record { cls = "Cart"; version = "1.0.0"; seq = pos n; state = 9 }

stale_owner_refused_example :
    (append_events claimed 6 "a" (added ∷ []) (some 0) ≡ throw (stale_fence_token "a" 0 1))
    × (save_snapshot claimed 6 "a" (snap_of 0) (some 0) ≡ throw (stale_fence_token "a" 0 1))
unfolding get set bump_actor_fence
stale_owner_refused_example =
    stale_owner_refused one_cart "a" 0 cart_row {next = 1} {d' = claimed} 6 (added ∷ []) (snap_of 0)
      refl refl

one_cart-IsLog : IsLog one_cart "a" []
unfolding get
one_cart-IsLog = record { bucket = refl; head = refl }

abbrev logged : Driver ℕ
logged = record one_cart {
  events_by_actor = ("a", (1, row_of 6 "1.0.0" added) ∷ []) ∷ [];
  head_seq_by_actor = ("a", 1) ∷ [];
}

append_events-IsLog_example : IsLog logged "a" (row_of 6 "1.0.0" added ∷ []) × ◌≡◌ {A = ℕ} 1 1
unfolding append_events append_some push_events assert_fence get set
append_events-IsLog_example =
    append_events-IsLog one_cart 6 "a" [] (added ∷ []) (some 0) cart_row {seq = 1} {d' = logged}
      one_cart-IsLog refl refl

logged-IsLog : IsLog logged "a" (row_of 6 "1.0.0" added ∷ [])
unfolding get
logged-IsLog = record { bucket = refl; head = refl }

read_events-IsLog_example : read_events logged "a" 1 ≡ record_of "a" 1 (row_of 6 "1.0.0" added) ∷ []
unfolding get drop
read_events-IsLog_example =
    read_events-IsLog logged "a" (row_of 6 "1.0.0" added ∷ []) 0 cart_row logged-IsLog refl

abbrev entry : InboxEntry ℕ
entry = record { type = "add"; payload = 3 }

abbrev first_id : InboxId
first_id = record { now = 7; seq = 0 }

abbrev waiting : Driver ℕ
waiting = record one_cart {
  inbox_by_actor = ("a", record { id = first_id; entry = entry } ∷ []) ∷ [];
  inbox_acked_by_actor = ("a", []) ∷ [];
  inbox_seq = 1;
}

pending-ack_inbox_example : pending (ack_inbox waiting "a" (first_id ∷ [])) "a" ≡ []
unfolding get contains unacked
pending-ack_inbox_example = pending-ack_inbox waiting "a" "a" (first_id ∷ []) (tt, tt)

empty-IsInbox : IsInbox {V = ℕ} new_driver
unfolding get
empty-IsInbox = record { distinct = λ id. tt; below = λ id. tt; acked_below = λ id. tt }

one_cart-IsInbox : IsInbox one_cart
unfolding get
one_cart-IsInbox = record { distinct = λ id. tt; below = λ id. tt; acked_below = λ id. tt }

abbrev reminded : Driver ℕ
reminded = record new_driver {
  reminders =
      record {
        when = 9;
        msg = record { actor_id = "a"; class_name = "Cart"; type = "late"; payload = 1 };
        seq = 0;
      }
      ∷ record {
        when = 4;
        msg = record { actor_id = "a"; class_name = "Cart"; type = "early"; payload = 2 };
        seq = 1;
      }
      ∷ [];
  reminder_seq = 2;
}

pop_due_reminders-PopsDue_example :
    PopsDue reminded 5 10 (pop_due_reminders reminded 5 10).0 (pop_due_reminders reminded 5 10).1
pop_due_reminders-PopsDue_example = pop_due_reminders-PopsDue reminded 5 10

abbrev saved : Driver ℕ
saved = record new_driver {
  actors = ("a", record cart_row { last_active_at = some 6 }) ∷ [];
  snapshots_by_actor =
      ("a", (pos 4, record { ts = 6; class_version = "1.0.0"; state = 9 }) ∷ []) ∷ [];
}

abbrev retained : Driver ℕ
retained = record saved {
  actors = ("a", record cart_row { last_active_at = some 7 }) ∷ [];
  snapshots_by_actor =
      (
        "a",
        (pos 4, record { ts = 6; class_version = "1.0.0"; state = 9 })
            ∷ (negsuc 0, record { ts = 7; class_version = "1.0.0"; state = 8 })
            ∷ [],
      )
      ∷ [];
}

abbrev source_of : String → List ℕ → PublishClassInput
source_of name bytes = record {
  name = name;
  version = "1.0.0";
  source = bytes;
  deps = [];
  engines = [];
  floating = none;
  event_sourced = none;
  signed_by = none;
}

abbrev published : Driver ℕ
published = record new_driver {
  class_source = (hash_buf (0 ∷ 33 ∷ []), 0 ∷ 33 ∷ []) ∷ [];
  class_versions = (class_key "Cart" "1.0.0", record_for 3 (source_of "Cart" (0 ∷ 33 ∷ []))) ∷ [];
}

abbrev replaced : Driver ℕ
replaced = record new_driver {
  class_source = (hash_buf (0 ∷ 33 ∷ []), 1 ∷ 0 ∷ []) ∷ [];
  class_versions =
      (class_key "Cart" "1.0.0", record_for 3 (source_of "Cart" (0 ∷ 33 ∷ [])))
      ∷ (class_key "Note" "1.0.0", record_for 3 (source_of "Note" (1 ∷ 0 ∷ [])))
      ∷ [];
}
