-- ===== src/Runtime/PartExamples.antt =====
-- Runs of the mailbox, the directory, the class loader and the reminder dispatcher of src/runtime at
-- concrete inputs.
use actjs.Runtime.Mailbox.Fifo.{run-IsFifo, closes, takes, puts, run, History, IsFifo}
use actjs.Runtime.Directory.Race.{begin-begin-settled, HasRoom}
use actjs.Runtime.Directory.{active_count, started, settled, Directory, begin, knows}
use actjs.Runtime.Directory.Counts.{IsCounted, hosts_of}
use actjs.Runtime.Reminders.{Dispatcher}
use actjs.Runtime.Loader.Cache.{IsCache}
use actjs.Prelude.{ℕ, suc, ◌≡◌, refl, Bool, true, false, none, some, [], ◌∷◌, arith, inl}
use actjs.Runtime.Loader.{CacheEntry, ClassLoader}
use actjs.Storage.Types.{ReminderMsg}
use actjs.Prelude.Keys.{string_keyed, nat_keyed}
use actjs.Prelude.Map.{get}
use actjs.Storage.Driver.{Driver, new_driver}

abbrev empty_history : History ℕ
empty_history = record {
  mailbox = record { capacity = 1; buffer = []; waiters = []; closed = false };
  accepted = [];
  given = [];
}

empty_history-IsFifo : IsFifo empty_history
empty_history-IsFifo = record {
  valid = record { bounded = omega arith; no_idle_wait = inl refl; closed_wakes = inl refl };
  in_order = refl;
}

run-IsFifo_example : IsFifo (run empty_history (puts 4 ∷ puts 5 ∷ takes 0 ∷ closes ∷ puts 6 ∷ []))
run-IsFifo_example =
    run-IsFifo empty_history (puts 4 ∷ puts 5 ∷ takes 0 ∷ closes ∷ puts 6 ∷ []) empty_history-IsFifo

abbrev one_host : Directory
one_host = record {
  hosts = ("a", "Cart") ∷ [];
  materializing = [];
  destroyed = false;
  per_class_active = ("Cart", 1) ∷ [];
  classes = "Cart" ∷ [];
  active_actor_cap_per_class = 2;
}

one_host-IsCounted : IsCounted one_host
unfolding get hosts_of
one_host-IsCounted = record { distinct = (refl, tt); counts = λ name. ground arith }

fresh_b : get one_host.hosts "b" ≡ none
unfolding get
fresh_b = refl

b-HasRoom : HasRoom one_host "b" "Cart"
unfolding get knows
b-HasRoom = record { live = refl; known = refl; absent = refl; idle = refl; below = refl }

c-HasRoom : HasRoom one_host "c" "Cart"
unfolding get knows
c-HasRoom = record { live = refl; known = refl; absent = refl; idle = refl; below = refl }

begin-begin-settled_example :
    let d1 = (begin one_host "b" "Cart").1 in
    let d2 = (begin d1 "c" "Cart").1 in
    let d3 = settled (settled d2 "b" "Cart" true) "c" "Cart" true in
    ((begin one_host "b" "Cart").0 ≡ started)
    × ((begin d1 "c" "Cart").0 ≡ started)
    × (active_count d3 "Cart" ≡ suc (suc (active_count one_host "Cart")))
begin-begin-settled_example = begin-begin-settled one_host "b" "c" "Cart" b-HasRoom c-HasRoom refl

abbrev held : CacheEntry ℕ
held = record { sha = "x"; ctor = 1; last_used_at = 3; ref_count = 1 }

abbrev crowded : ClassLoader ℕ
crowded = record {
  by_sha =
      ("x", held)
      ∷ ("y", record { sha = "y"; ctor = 2; last_used_at = 4; ref_count = 0 })
      ∷ ("z", record { sha = "z"; ctor = 3; last_used_at = 9; ref_count = 0 })
      ∷ [];
  max_entries = 2;
  compilations = 3;
}

crowded-IsCache : IsCache crowded.by_sha
unfolding get
crowded-IsCache = ((refl, (refl, (refl, tt))), (refl, (refl, (refl, tt))))

held_there : get crowded.by_sha "x" ≡ some held
unfolding get
held_there = refl

abbrev due_driver : Driver ℕ
due_driver = record new_driver {
  reminders =
      record {
        when = 4;
        msg = record { actor_id = "a"; class_name = "Cart"; type = "t"; payload = 2 };
        seq = 0;
      }
      ∷ [];
}

abbrev idle_dispatcher : Dispatcher
idle_dispatcher = record { batch_limit = 100; ticks = 0; delivered = 0; failures = 0 }

-- A sink that counts, and always throws
abbrev failing : ReminderMsg ℕ → ℕ → Bool × ℕ
failing m n = (false, suc n)
