-- ===== src/Client/Calls/Drained.antt =====
-- What the drain of src/client/client.ts leaves in the offline queue.
use actjs.Prelude.{
  subst, All, append-nil, append_assoc, ◌⊎◌, ◌≡◌, refl, ap, sym, ◌∙◌, true, false, ◌≢◌, String,
  none, some, List, [], ◌∷◌, ◌++◌, Bool-cases, inl, inr,
}
use actjs.Prelude.Map.Laws.{==-refl}
use actjs.Prelude.Keys.{string_keyed, nat_keyed, ◌==◌}
use actjs.Prelude.Outcome.{Outcome-cases, ok, throw}
use actjs.Client.OfflineQueue.{QueuedCall, remove}
use actjs.Client.Rpc.{Reply, CallError, rpc_error, client_closed}
use actjs.Prelude.Map.{contains}
use actjs.Runtime.Value.{Value}
use actjs.Client.Calls.{Drain, drain, drain_offline_queue, is_permanent_failure}

abbrev pub IsOther : QueuedCall → QueuedCall → Type 0
IsOther call other = (other.idempotency_key == call.idempotency_key) ≡ false

-- No two calls have the same key.
abbrev pub IsKeyed : List QueuedCall → Type 0
IsKeyed [] = Unit
IsKeyed (c ∷ cs) = All (IsOther c) cs × IsKeyed cs

remove-other :
    (call : QueuedCall) (cs : List QueuedCall)
    → All (IsOther call) cs
    → remove call.idempotency_key cs ≡ cs
unfolding remove
remove-other call [] h = refl
remove-other call (c ∷ cs) h = rw (h.0) (ap (λ l. c ∷ l) (remove-other call cs h.1))

remove-head :
    (call : QueuedCall) (cs : List QueuedCall)
    → All (IsOther call) cs
    → remove call.idempotency_key (call ∷ cs) ≡ cs
unfolding remove
remove-head call cs h = rw (==-refl call.idempotency_key) (remove-other call cs h)

-- The server refused the call with a code that is not one of a passing overload.
abbrev pub IsPermanent : CallError → Type 0
IsPermanent (client_closed err) = ⊥
IsPermanent (rpc_error message none) = ⊥
IsPermanent (rpc_error message (some code)) =
    (code ≢ "") × ((code ≢ "MailboxFull") × (code ≢ "SubscriberLimit"))

-- The connection was lost, or the failure has no code, or that of a passing overload.
abbrev pub IsTransient : CallError → Type 0
IsTransient (client_closed err) = Unit
IsTransient (rpc_error message none) = Unit
IsTransient (rpc_error message (some code)) =
    (code ≡ "") ⊎ ((code ≡ "MailboxFull") ⊎ (code ≡ "SubscriberLimit"))

differs : (s t : String) → (s == t) ≡ false → s ≢ t
differs s t unequal is =
    (let absurd_eq : true ≡ false = sym ((string_keyed.same_key_iff s t).1 is) ∙ unequal in cc)

failure-cases :
    (e : CallError)
    → ((is_permanent_failure e ≡ true) × IsPermanent e)
      ⊎ ((is_permanent_failure e ≡ false) × IsTransient e)
unfolding is_permanent_failure contains
failure-cases (client_closed err) = inr (refl, tt)
failure-cases (rpc_error message none) = inr (refl, tt)
failure-cases (rpc_error message (some code)) = elim (Bool-cases (code == "")) [
  | inl blank ↦
      inr (rw (is_permanent_failure, blank) refl, inl ((string_keyed.same_key_iff code "").0 blank))
  | inr coded ↦ elim (Bool-cases ("MailboxFull" == code)) [
    | inl full ↦ inr (
      rw (is_permanent_failure, coded, full) refl,
      inr (inl (sym ((string_keyed.same_key_iff "MailboxFull" code).0 full))),
    )
    | inr other ↦ elim (Bool-cases ("SubscriberLimit" == code)) [
      | inl limit ↦ inr (
        rw (is_permanent_failure, coded, other, limit) refl,
        inr (inr (sym ((string_keyed.same_key_iff "SubscriberLimit" code).0 limit))),
      )
      | inr last ↦ inl (
        rw (is_permanent_failure, coded, other, last) refl,
        (
          differs code "" coded,
          (
            λ is. differs "MailboxFull" code other (sym is),
            λ is. differs "SubscriberLimit" code last (sym is),
          ),
        ),
      )
    ]
  ]
]

module _ {S : Type 0} (serve : QueuedCall → S → Reply × S) where
  -- The server answered these calls in their order, each once, with a success or a permanent failure; `failed`
  -- has those that failed, and `after` is the server's state after them.
  unfoldable pub IsSettled : List QueuedCall → S → List QueuedCall → S → Type 0
  IsSettled [] server failed after = (failed ≡ []) × (after ≡ server)
  IsSettled (call ∷ calls) server failed after =
      (((v : Value) × ((serve call server).0 ≡ ok v))
        × IsSettled calls (serve call server).1 failed after)
      ⊎ (((e : CallError) × (((serve call server).0 ≡ throw e) × IsPermanent e))
          × ((rest : List QueuedCall) × ((failed ≡ call ∷ rest)
                × IsSettled calls (serve call server).1 rest after)))

  -- The calls that were settled are gone; the others are all left in the queue. If some are left, the first of
  -- them was sent too and failed in a way that passes.
  pub record IsDrained (listed : List QueuedCall) (before after : Drain S) : Type 0 where
    pub settled : List QueuedCall
    pub left : List QueuedCall
    pub failed : List QueuedCall
    pub at : S
    pub split : listed ≡ settled ++ left
    pub kept : after.queue ≡ left
    pub given_up : after.failed ≡ before.failed ++ failed
    pub answers : IsSettled settled before.server failed at
    pub stop :
        ((left ≡ []) × ((after.sent ≡ before.sent ++ settled) × (after.server ≡ at)))
        ⊎ ((call : QueuedCall) × ((rest : List QueuedCall) × ((left ≡ call ∷ rest)
                × ((after.sent ≡ before.sent ++ (settled ++ call ∷ []))
                    × ((after.server ≡ (serve call at).1)
                        × ((e : CallError) × (((serve call at).0 ≡ throw e) × IsTransient e)))))))

  -- A call that was settled, before the others
  settled_first :
      (call : QueuedCall) (calls more : List QueuedCall) (d d' after : Drain S)
      → d'.sent ≡ d.sent ++ call ∷ []
      → d'.failed ≡ d.failed ++ more
      → ((at : S) (failed settled : List QueuedCall)
          → IsSettled settled d'.server failed at
          → IsSettled (call ∷ settled) d.server (more ++ failed) at)
      → IsDrained calls d' after
      → IsDrained (call ∷ calls) d after
  settled_first call calls more d d' after sent failed first h = record {
    settled = call ∷ h.settled;
    left = h.left;
    failed = more ++ h.failed;
    at = h.at;
    split = ap (λ l. call ∷ l) h.split;
    kept = h.kept;
    given_up = h.given_up ∙ ap (λ l. l ++ h.failed) failed ∙ append_assoc d.failed more h.failed;
    answers = first h.at h.failed h.settled h.answers;
    stop = elim h.stop [
      | inl (all, (order, end)) ↦ inl (
        all,
        (order ∙ ap (λ l. l ++ h.settled) sent ∙ append_assoc d.sent (call ∷ []) h.settled, end),
      )
      | inr (c, (rest, (is, (order, end)))) ↦ inr (
        c,
        (
          rest,
          (
            is,
            (
              order
                  ∙ ap (λ l. l ++ (h.settled ++ c ∷ [])) sent
                  ∙ append_assoc d.sent (call ∷ []) (h.settled ++ c ∷ []),
              end,
            ),
          ),
        ),
      )
    ];
  }

  drain-IsDrained :
      (calls : List QueuedCall) (d : Drain S)
      → IsKeyed calls
      → d.queue ≡ calls
      → IsDrained calls d (drain serve calls d)
  unfolding drain IsSettled
  drain-IsDrained [] d keyed same = record {
    settled = [];
    left = [];
    failed = [];
    at = d.server;
    split = refl;
    kept = same;
    given_up = sym (append-nil d.failed);
    answers = (refl, refl);
    stop = inl (refl, (sym (append-nil d.sent), refl));
  }
  drain-IsDrained (call ∷ calls) d keyed same =
      let next : remove call.idempotency_key d.queue ≡ calls =
        ap (remove call.idempotency_key) same ∙ remove-head call calls keyed.0 in
      elim (Outcome-cases (serve call d.server).0) [
        | inr (v, good) ↦
            let d' : Drain S = record d {
              queue = remove call.idempotency_key d.queue;
              sent = d.sent ++ call ∷ [];
              server = (serve call d.server).1;
            } in
            let after : drain serve (call ∷ calls) d ≡ drain serve calls d' =
              simp (drain, good) refl in
            subst (IsDrained (call ∷ calls) d) (sym after) (
              settled_first call calls [] d d' (drain serve calls d') refl
                (sym (append-nil d.failed)) (λ at failed settled h. inl ((v, good), h))
                (drain-IsDrained calls d' keyed.1 next))
        | inl (e, bad) ↦ elim (failure-cases e) [
          | inl (permanent, for_good) ↦
              let d' : Drain S = record d {
                queue = remove call.idempotency_key d.queue;
                failed = d.failed ++ call ∷ [];
                sent = d.sent ++ call ∷ [];
                server = (serve call d.server).1;
              } in
              let after : drain serve (call ∷ calls) d ≡ drain serve calls d' =
                simp (drain, bad, permanent) refl in
              subst (IsDrained (call ∷ calls) d) (sym after) (
                settled_first call calls (call ∷ []) d d' (drain serve calls d') refl refl
                  (λ at failed settled h. inr ((e, (bad, for_good)), (failed, (refl, h))))
                  (drain-IsDrained calls d' keyed.1 next))
          | inr (transient, passes) ↦
              let after : drain serve (call ∷ calls) d
                  ≡ record d { sent = d.sent ++ call ∷ []; server = (serve call d.server).1 } =
                simp (drain, bad, transient) refl in
              subst (IsDrained (call ∷ calls) d) (sym after) (record {
                settled = [];
                left = call ∷ calls;
                failed = [];
                at = d.server;
                split = refl;
                kept = same;
                given_up = sym (append-nil d.failed);
                answers = (refl, refl);
                stop = inr (call, (calls, (refl, (refl, (refl, (e, (bad, passes)))))));
              })
        ]
      ]

  abbrev pub listed_drain : List QueuedCall → S → Drain S
  listed_drain queue server = record { queue = queue; failed = []; sent = []; server = server }

  -- A drain of a queue without two calls of one key sends its calls in their order, each to the server as the calls
  -- before left it, up to the end or to the first that fails because the connection was lost or with no
  -- code or the code MailboxFull or SubscriberLimit; that call and all behind it stay in the queue. Those
  -- before it leave the queue: the server answered each with a success or with another code, and exactly the
  -- latter are reported as failed, in their order.
  pub drain_offline_queue-IsDrained :
      (queue : List QueuedCall) (server : S)
      → IsKeyed queue
      → IsDrained queue (listed_drain queue server) (drain_offline_queue serve queue server)
  unfolding drain_offline_queue
  drain_offline_queue-IsDrained queue server keyed =
      drain-IsDrained queue (listed_drain queue server) keyed refl
