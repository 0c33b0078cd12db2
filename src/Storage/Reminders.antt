-- ===== src/Storage/Reminders.antt =====
-- enqueueReminder, peekReminders and popDueReminders of src/storage/memory.ts.
pub mod Due
use actjs.Prelude.{zero, ℕ, suc, Bool, List, [], ◌∷◌, ◌++◌, map, ltb, nat_beq, leb, if◌then◌else◌}
use actjs.Prelude.Sort.{sort}
use actjs.Storage.Types.{ReminderMsg}
use actjs.Storage.Driver.{Driver, ReminderRow}

module _ {V : Type 0} where
  unfoldable pub enqueue_reminder : Driver V → ℕ → ReminderMsg V → Driver V
  enqueue_reminder d when msg = record d {
    reminders = d.reminders ++ record { when = when; msg = msg; seq = d.reminder_seq } ∷ [];
    reminder_seq = suc d.reminder_seq;
  }

  -- `a.when - b.when || a.seq - b.seq` is at most 0
  abbrev pub by_when : ReminderRow V → ReminderRow V → Bool
  by_when a b = if nat_beq a.when b.when then leb a.seq b.seq else ltb a.when b.when

  unfoldable pub peek_reminders : Driver V → List (ℕ × ReminderMsg V)
  unfolding sort
  peek_reminders d = map (λ r. (r.when, r.msg)) (sort by_when d.reminders)

  -- The loop of `popDueReminders` over the sorted rows: `limit` is the room left in `due`. The rows
  -- that are taken, and those that stay.
  unfoldable pub take_due :
      ℕ → ℕ → List (ReminderRow V) → List (ReminderRow V) × List (ReminderRow V)
  take_due now zero rows = ([], rows)
  take_due now (suc limit) [] = ([], [])
  take_due now (suc limit) (next ∷ rows) =
      let (due, rest) = take_due now limit rows in
      if ltb now next.when then ([], next ∷ rows) else (next ∷ due, rest)

  unfoldable pub pop_due_reminders : Driver V → ℕ → ℕ → List (ReminderMsg V) × Driver V
  unfolding take_due
  pop_due_reminders d now limit =
      let (due, rest) = take_due now limit (sort by_when d.reminders) in
      (map (λ r. r.msg) due, record d { reminders = rest })
