-- ===== src/Runtime/Mailbox/Fifo.antt =====
-- src/runtime/mailbox.ts as a bounded queue: items come out in the order in which they were
-- accepted, each once, and no consumer waits while an item is queued.
use actjs.Prelude.{
  ℕ, ◌≤◌, ◌≡◌, ◌⊎◌, refl, false, List, [], ◌∷◌, ◌++◌, length, length-append, arith, append_assoc,
  append-nil,
}
use actjs.Prelude.Outcome.{Outcome, ok, throw}
use actjs.Runtime.Mailbox.{
  MailboxError, Mailbox, Enqueued, refused, pushed, handed_to, Dequeued, item, ended, waiting,
  enqueue, dequeue, close,
}

-- What holds of a mailbox between two operations.
pub record IsMailbox {T : Type 0} (m : Mailbox T) : Type 0 where
  pub bounded : length m.buffer ≤ m.capacity
  pub no_idle_wait : (m.waiters ≡ []) ⊎ (m.buffer ≡ [])
  pub closed_wakes : (m.closed ≡ false) ⊎ (m.waiters ≡ [])

pub data Op (T : Type 0) : Type 0 where
  puts : T → Op T
  takes : ℕ → Op T
  closes : Op T

-- A mailbox with the items that it has accepted and those that it has given out, in order.
pub record History (T : Type 0) : Type 0 where
  pub mailbox : Mailbox T
  pub accepted : List T
  pub given : List T

module _ {T : Type 0} where
  abbrev after_put : History T → T → Outcome MailboxError (Enqueued × Mailbox T) → History T
  after_put h x (throw e) = h
  after_put h x (ok (refused, m)) = record h { mailbox = m }
  after_put h x (ok (pushed, m)) = record h { mailbox = m; accepted = h.accepted ++ x ∷ [] }
  after_put h x (ok (handed_to w, m)) = record {
    mailbox = m;
    accepted = h.accepted ++ x ∷ [];
    given = h.given ++ x ∷ [];
  }

  abbrev after_take : History T → Dequeued T × Mailbox T → History T
  after_take h (item x, m) = record h { mailbox = m; given = h.given ++ x ∷ [] }
  after_take h (ended, m) = record h { mailbox = m }
  after_take h (waiting, m) = record h { mailbox = m }

  pub step : History T → Op T → History T
  step h (puts x) = after_put h x (enqueue h.mailbox x)
  step h (takes w) = after_take h (dequeue h.mailbox w)
  step h closes = record h { mailbox = (close h.mailbox).1 }

  pub run : History T → List (Op T) → History T
  run h [] = h
  run h (o ∷ os) = run (step h o) os

pub record IsFifo {T : Type 0} (h : History T) : Type 0 where
  pub valid : IsMailbox h.mailbox
  pub in_order : h.accepted ≡ h.given ++ h.mailbox.buffer

module _ {T : Type 0} where
  put-IsFifo :
      (h : History T) (x : T) (ws : List ℕ)
      → h.mailbox.waiters ≡ ws
      → IsFifo h
      → IsFifo (after_put h x (enqueue h.mailbox x))
  unfolding enqueue
  put-IsFifo h x [] e v = ground (
    arith,
    e,
    v.in_order,
    append_assoc h.given h.mailbox.buffer (x ∷ []),
    length-append h.mailbox.buffer (x ∷ []),
  )
  put-IsFifo h x (w ∷ ws) e v =
      ground (arith, e, v.in_order, append-nil h.given, append-nil (h.given ++ x ∷ []))

  take-IsFifo :
      (h : History T) (w : ℕ) (xs : List T)
      → h.mailbox.buffer ≡ xs
      → IsFifo h
      → IsFifo (after_take h (dequeue h.mailbox w))
  unfolding dequeue
  take-IsFifo h w [] e v = ground arith
  take-IsFifo h w (x ∷ xs) e v = ground (arith, e, v.in_order, append_assoc h.given (x ∷ []) xs)

  step-IsFifo : (h : History T) (o : Op T) → IsFifo h → IsFifo (step h o)
  unfolding step close
  step-IsFifo h (puts x) v = put-IsFifo h x h.mailbox.waiters refl v
  step-IsFifo h (takes w) v = take-IsFifo h w h.mailbox.buffer refl v
  step-IsFifo h closes v = ground arith

  -- Whatever producers, consumers and shutdown do, and in whatever order: the items given out are a
  -- prefix of those accepted, in the order of acceptance, and the rest is the buffer; the buffer
  -- keeps within the capacity; and nobody waits while an item is queued or after the close.
  pub run-IsFifo : (h : History T) (os : List (Op T)) → IsFifo h → IsFifo (run h os)
  unfolding run
  run-IsFifo h [] v = v
  run-IsFifo h (o ∷ os) v = run-IsFifo (step h o) os (step-IsFifo h o v)
