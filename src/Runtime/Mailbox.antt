-- ===== src/Runtime/Mailbox.antt =====
-- src/runtime/mailbox.ts. A blocked `dequeue` is a waiter, known by a number; what it is resolved
-- with is part of the result of the operation that wakes it.
pub mod Fifo
use actjs.Prelude.{ℕ, Bool, true, false, List, [], ◌∷◌, ◌++◌, leb, ltb, length, if◌then◌else◌}
use actjs.Prelude.Outcome.{Outcome, ok, throw}

pub data MailboxError : Type 0 where
  mailbox_closed mailbox_full capacity_below_one : MailboxError

pub record Mailbox (T : Type 0) : Type 0 where
  pub capacity : ℕ
  pub buffer : List T
  pub waiters : List ℕ
  pub closed : Bool

-- What a call of `enqueue` did: `false`, a push, or the hand-over of the item to a waiter.
pub data Enqueued : Type 0 where
  refused pushed : Enqueued
  handed_to : ℕ → Enqueued

-- What `dequeue` returns: a resolved item, a resolved `null`, or a promise that waits.
pub data Dequeued (T : Type 0) : Type 0 where
  item : T → Dequeued T
  ended waiting : Dequeued T

module _ {T : Type 0} where
  unfoldable pub new_mailbox : ℕ → Outcome MailboxError (Mailbox T)
  new_mailbox capacity =
      if ltb capacity 1
      then throw capacity_below_one
      else ok (record { capacity = capacity; buffer = []; waiters = []; closed = false })

  unfoldable pub size : Mailbox T → ℕ
  size m = length m.buffer

  unfoldable pub is_full : Mailbox T → Bool
  is_full m = leb m.capacity (length m.buffer)

  abbrev push : Mailbox T → T → List ℕ → Enqueued × Mailbox T
  push m x [] =
      if leb m.capacity (length m.buffer)
      then (refused, m)
      else (pushed, record m { buffer = m.buffer ++ x ∷ [] })
  push m x (w ∷ ws) = (handed_to w, record m { waiters = ws })

  unfoldable pub enqueue : Mailbox T → T → Outcome MailboxError (Enqueued × Mailbox T)
  enqueue m x = if m.closed then throw mailbox_closed else ok (push m x m.waiters)

  abbrev shift : Mailbox T → ℕ → List T → Dequeued T × Mailbox T
  shift m w (x ∷ xs) = (item x, record m { buffer = xs })
  shift m w [] =
      if m.closed then (ended, m) else (waiting, record m { waiters = m.waiters ++ w ∷ [] })

  -- `w` is the number of the promise that a waiting call makes.
  unfoldable pub dequeue : Mailbox T → ℕ → Dequeued T × Mailbox T
  dequeue m w = shift m w m.buffer

  -- The waiters that are resolved with `null`, and the closed mailbox.
  unfoldable pub close : Mailbox T → List ℕ × Mailbox T
  close m = if m.closed then ([], m) else (m.waiters, record m { closed = true; waiters = [] })
