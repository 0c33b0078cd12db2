-- ===== src/Storage/Reminders/Due.antt =====
-- popDueReminders of src/storage/memory.ts: what is popped and what stays.
use actjs.Prelude.{
  ltb→lt, ℕ, zero, suc, ◌<◌, ◌≤◌, ◌≡◌, refl, true, false, List, [], ◌∷◌, ◌++◌, map, arith, ltb,
  length, Bool-cases, ◌⊎◌, inl, inr, All,
}
use mathlib.Core.List.{Perm}
use actjs.Prelude.Sort.{sort, IsSorted, sort-perm, sort-IsSorted}
use actjs.Storage.Types.{ReminderMsg}
use actjs.Storage.Driver.{Driver, ReminderRow}
use actjs.Storage.Reminders.{by_when, take_due, pop_due_reminders}

module _ {V : Type 0} where
  by_when_total : (a b : ReminderRow V) → by_when a b ≡ false → by_when b a ≡ true
  by_when_total a b h = ground arith

  take_due-append :
      (now limit : ℕ) (rows : List (ReminderRow V))
      → (take_due now limit rows).0 ++ (take_due now limit rows).1 ≡ rows
  unfolding take_due
  take_due-append now zero rows = refl
  take_due-append now (suc limit) [] = refl
  take_due-append now (suc limit) (r ∷ rows) = ground (arith, take_due-append now limit rows)

  take_due_when :
      (now limit : ℕ) (rows : List (ReminderRow V))
      → All (λ r. r.when ≤ now) (take_due now limit rows).0
  unfolding take_due
  take_due_when now zero rows = tt
  take_due_when now (suc limit) [] = tt
  take_due_when now (suc limit) (r ∷ rows) = ground (arith, take_due_when now limit rows)

  length-take_due-le :
      (now limit : ℕ) (rows : List (ReminderRow V)) → length (take_due now limit rows).0 ≤ limit
  unfolding take_due
  length-take_due-le now zero rows = omega arith
  length-take_due-le now (suc limit) [] = omega arith
  length-take_due-le now (suc limit) (r ∷ rows) = ground (arith, length-take_due-le now limit rows)

  later_of_sorted :
      (now : ℕ) (r : ReminderRow V) (rows : List (ReminderRow V))
      → now < r.when
      → IsSorted by_when (r ∷ rows)
      → All (λ q. now < q.when) (r ∷ rows)
  later_of_sorted now r [] h sorted = (h, tt)
  later_of_sorted now r (q ∷ rows) h sorted =
      (h, later_of_sorted now q rows (ground arith) sorted.1)

  IsSorted-tail :
      (r : ReminderRow V) (rows : List (ReminderRow V))
      → IsSorted by_when (r ∷ rows)
      → IsSorted by_when rows
  IsSorted-tail r [] h = tt
  IsSorted-tail r (q ∷ rows) h = h.1

  take_due_left :
      (now limit : ℕ) (rows : List (ReminderRow V))
      → IsSorted by_when rows
      → length (take_due now limit rows).0 < limit
      → All (λ r. now < r.when) (take_due now limit rows).1
  unfolding take_due
  take_due_left now zero rows sorted h = absurd (omega arith)
  take_due_left now (suc limit) [] sorted h = tt
  take_due_left now (suc limit) (r ∷ rows) sorted h = ground (
    arith,
    later_of_sorted now r rows,
    take_due_left now limit rows (IsSorted-tail r rows sorted),
  )

  -- What one call pops, and what it leaves. `due` is the rows behind the messages.
  pub record PopsDue (d : Driver V) (now limit : ℕ) (msgs : List (ReminderMsg V)) (d' : Driver V)
      : Type 0 where
    pub due : List (ReminderRow V)
    pub popped : msgs ≡ map (λ r. r.msg) due
    pub nothing_lost : Perm (due ++ d'.reminders) d.reminders
    pub in_order : IsSorted by_when (due ++ d'.reminders)
    pub all_due : All (λ r. r.when ≤ now) due
    pub within_limit : length due ≤ limit
    pub all_popped : (limit ≤ length due) ⊎ All (λ r. now < r.when) d'.reminders

  -- One call pops, in order of time and then of insertion, at most `limit` reminders, all of them
  -- due; it loses and invents none; and if it pops fewer than `limit`, no due reminder is left.
  pub pop_due_reminders-PopsDue :
      (d : Driver V) (now limit : ℕ)
      → PopsDue d now limit (pop_due_reminders d now limit).0 (pop_due_reminders d now limit).1
  unfolding pop_due_reminders
  pop_due_reminders-PopsDue d now limit =
      let rows = sort by_when d.reminders in
      let sorted = sort-IsSorted by_when by_when_total d.reminders in
      record {
        due = (take_due now limit rows).0;
        popped = refl;
        nothing_lost = rw (take_due-append now limit rows) (sort-perm by_when d.reminders);
        in_order = rw (take_due-append now limit rows) sorted;
        all_due = take_due_when now limit rows;
        within_limit = length-take_due-le now limit rows;
        all_popped = elim (Bool-cases (ltb (length (take_due now limit rows).0) limit)) [
          | inl room ↦ inr (
              take_due_left now limit rows sorted
                (ltb→lt (length (take_due now limit rows).0) limit room))
          | inr full ↦ inl (ground (arith, full))
        ];
      }
