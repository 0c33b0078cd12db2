-- ===== src/Runtime/Reminders.antt =====
-- A tick of src/runtime/reminder-dispatcher.ts. `sink` delivers a reminder: it returns, or throws, and
-- leaves the state `S` of the actors in either case.
use actjs.Prelude.{ℕ, suc, ◌+◌, ◌≡◌, refl, ap, ◌∙◌, Bool, true, false, List, [], ◌∷◌, length, arith}
use actjs.Storage.Types.{ReminderMsg}
use actjs.Storage.Driver.{Driver}
use actjs.Storage.Reminders.{pop_due_reminders}

pub record Dispatcher : Type 0 where
  pub batch_limit : ℕ
  pub ticks : ℕ
  pub delivered : ℕ
  pub failures : ℕ

abbrev pub counted : Bool → Dispatcher → Dispatcher
counted true r = record r { delivered = suc r.delivered }
counted false r = record r { failures = suc r.failures }

counted_lem :
    (b : Bool) (r : Dispatcher)
    → ((counted b r).delivered + (counted b r).failures ≡ suc (r.delivered + r.failures))
      × ((counted b r).ticks ≡ r.ticks)
counted_lem true r = (omega arith, refl)
counted_lem false r = (omega arith, refl)

module _ {V S : Type 0} (sink : ReminderMsg V → S → Bool × S) where
  -- The loop over the reminders that are due
  unfoldable pub deliver_all : List (ReminderMsg V) → Dispatcher → S → Dispatcher × S
  deliver_all [] r s = (r, s)
  deliver_all (m ∷ ms) r s = let (returned, s') = sink m s in deliver_all ms (counted returned r) s'

  unfoldable pub tick : Driver V → ℕ → Dispatcher → S → Dispatcher × Driver V × S
  unfolding deliver_all
  tick d now r s =
      let (due, d') = pop_due_reminders d now r.batch_limit in
      let (r', s') = deliver_all due r s in (record r' { ticks = suc r'.ticks }, d', s')

  deliver_all_counts :
      (ms : List (ReminderMsg V)) (r : Dispatcher) (s : S)
      → ((deliver_all ms r s).0.delivered + (deliver_all ms r s).0.failures
          ≡ r.delivered + r.failures + length ms)
        × ((deliver_all ms r s).0.ticks ≡ r.ticks)
  unfolding deliver_all
  deliver_all_counts [] r s = (omega arith, refl)
  deliver_all_counts (m ∷ ms) r s =
      let rest = deliver_all_counts ms (counted (sink m s).0 r) (sink m s).1 in
      let one = counted_lem (sink m s).0 r in (omega (arith, rest.0, one.0), rest.1 ∙ one.1)

  -- A tick delivers or counts as failed every reminder that it pops, and completes; a delivery that
  -- throws stops neither the loop nor the count.
  pub tick_counts :
      (d : Driver V) (now : ℕ) (r : Dispatcher) (s : S)
      → ((tick d now r s).0.delivered + (tick d now r s).0.failures
          ≡ r.delivered + r.failures + length (pop_due_reminders d now r.batch_limit).0)
        × ((tick d now r s).0.ticks ≡ suc r.ticks)
        × ((tick d now r s).1 ≡ (pop_due_reminders d now r.batch_limit).1)
  unfolding tick
  tick_counts d now r s =
      let (all, ticks) = deliver_all_counts (pop_due_reminders d now r.batch_limit).0 r s in
      (all, ap suc ticks, refl)
