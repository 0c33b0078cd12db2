-- ===== src/Client/Subscriptions/Buffered.antt =====
-- What src/client/subscriptions.ts does with notifications that come before their subscription is known.
use actjs.Client.Subscriptions.{
  continue, PatchError, throw, Attempt, landed, emit, updated, inr, inl, Bool-cases, ok, some,
  Notification, SubscriptionState, SubscriptionRecord, Buffer, pre_register, buffer_early, swept,
  apply, apply_all, flush_buffered, register,
}
use actjs.Prelude.Outcome.{Outcome-cases}
use actjs.Prelude.Map.Laws.{get-set_self, ==-refl}
use actjs.Prelude.{
  append_assoc, append-nil, All, ℕ, ◌-◌, ◌≤◌, String, ◌≡◌, refl, ap, sym, ◌∙◌, true, false, Option,
  none, List, [], ◌∷◌, ◌++◌, map, ltb, arith,
}
use actjs.Prelude.Keys.{string_keyed, nat_keyed, ◌==◌}
use actjs.Prelude.Map.{Map, get, set, delete}
use actjs.Runtime.Value.{Value}

-- A notification with the time at which it came
pub record Arrival : Type 0 where
  pub at : ℕ
  pub notification : Notification

module _ (apply_patch : Value → List Value → Option Value) (big_int : String → Option ℕ) where
  -- `apply` for each arrival at its time; nothing throws while they are buffered.
  unfoldable pub arrive : List Arrival → SubscriptionState → SubscriptionState
  arrive [] s = s
  arrive (a ∷ more) s = arrive more (apply apply_patch big_int a.at a.notification s).1

  abbrev pub notifications : List Arrival → List Notification
  notifications more = map (λ a. a.notification) more

  abbrev holding :
      Map String SubscriptionRecord → String → ℕ → List Notification → SubscriptionState
  holding subs id at ns = record {
    subs = subs;
    pending = (id, record { entries = ns; at = at }) ∷ [];
  }

  gone : (id : String) (b : Buffer) → delete {V = Buffer} ((id, b) ∷ []) id ≡ []
  unfolding delete
  gone id b = rw (==-refl id) refl

  -- Within the window, what comes for the unknown subscription joins its buffer.
  arrive-holding :
      (more : List Arrival) (subs : Map String SubscriptionRecord) (id : String) (at : ℕ)
      (ns : List Notification)
      → get subs id ≡ none
      → All (λ a. (a.notification.subscription_id ≡ id) × (a.at - at ≤ 5000)) more
      → arrive more (holding subs id at ns) ≡ holding subs id at (ns ++ notifications more)
  unfolding arrive apply buffer_early swept get set
  arrive-holding [] subs id at ns unknown h = ap (holding subs id at) (sym (append-nil ns))
  arrive-holding (a ∷ more) subs id at ns unknown h =
      let missing : get subs a.notification.subscription_id ≡ none = rw h.0.0 unknown in
      let fresh : ltb 5000 (a.at - at) ≡ false = ground (arith, h.0.1) in
      let here : (id == a.notification.subscription_id) ≡ true = rw h.0.0 (==-refl id) in
      let joined : (apply apply_patch big_int a.at a.notification (holding subs id at ns)).1
          ≡ holding subs id at (ns ++ a.notification ∷ []) =
        rw (apply, missing, fresh, here) refl in
      ap (arrive more) joined
      ∙ arrive-holding more subs id at (ns ++ a.notification ∷ []) unknown h.1
      ∙ ap (holding subs id at) (append_assoc ns (a.notification ∷ []) (notifications more))

  -- What was buffered is applied by `apply_all` when the subscription is registered.
  register-holding :
      (a : Arrival) (more : List Arrival) (subs : Map String SubscriptionRecord) (now : ℕ)
      (id : String) (reducer : Option (Value → Value → Value))
      → get subs id ≡ none
      → a.notification.subscription_id ≡ id
      → All (λ b. (b.notification.subscription_id ≡ id) × (b.at - a.at ≤ 5000)) more
      → register apply_patch big_int now id reducer
          (arrive (a ∷ more) (record { subs = subs; pending = [] }))
        ≡ apply_all apply_patch big_int now
            (notifications (a ∷ more))
            (pre_register id reducer (record { subs = subs; pending = [] }))
  unfolding arrive register flush_buffered pre_register apply buffer_early swept get set delete
  register-holding a more subs now id reducer unknown first rest =
      let missing : get subs a.notification.subscription_id ≡ none = rw first unknown in
      let start : (apply apply_patch big_int a.at a.notification
            (record { subs = subs; pending = [] })).1
          ≡ holding subs id a.at (a.notification ∷ []) =
        rw (apply, missing, first) refl in
      let held =
        ap (arrive more) start
        ∙ arrive-holding more subs id a.at (a.notification ∷ []) unknown rest in
      ap (register apply_patch big_int now id reducer) held
      ∙ rw (register, flush_buffered, ==-refl id)
          (ap
            (λ p. apply_all apply_patch big_int now (notifications (a ∷ more)) (record {
              subs = (pre_register id reducer (record { subs = subs; pending = [] })).subs;
              pending = p;
            }))
            (gone id (record { entries = notifications (a ∷ more); at = a.at })))

  All-first :
      (more : List Arrival) (id : String) (at : ℕ)
      → All (λ b. (b.notification.subscription_id ≡ id) × (b.at - at ≤ 5000)) more
      → All (λ b. b.notification.subscription_id ≡ id) more
  All-first [] id at h = tt
  All-first (b ∷ more) id at h = (h.0.0, All-first more id at h.1)

  landed-registered :
      (n : Notification) (s : SubscriptionState) {r : SubscriptionRecord}
      {p : Attempt PatchError × SubscriptionState} (o : Option SubscriptionRecord)
      → get s.subs n.subscription_id ≡ some r
      → p ≡ landed apply_patch big_int n s o
      → (q : SubscriptionRecord) × (get p.1.subs n.subscription_id ≡ some q)
  landed-registered n s {r} none there is = (r, ap (λ x. get x.1.subs n.subscription_id) is ∙ there)
  landed-registered n s (some q) there is = (
    emit apply_patch big_int q,
    ap (λ x. get x.1.subs n.subscription_id) is
        ∙ get-set_self s.subs n.subscription_id (emit apply_patch big_int q),
  )

  -- For a subscription that is registered the time plays no part, and it stays registered.
  apply-registered :
      (t now : ℕ) (n : Notification) (s : SubscriptionState) (r : SubscriptionRecord)
      → get s.subs n.subscription_id ≡ some r
      → (apply apply_patch big_int t n s ≡ apply apply_patch big_int now n s)
        × ((q : SubscriptionRecord) × (get
                (apply apply_patch big_int now n s).1.subs
                n.subscription_id
              ≡ some q))
  unfolding apply
  apply-registered t now n s r there = elim (Bool-cases r.tombstoned) [
    | inl dead ↦
        let is : (at : ℕ) → apply apply_patch big_int at n s ≡ (ok tt, s) =
          λ at. simp (apply, there, dead) refl in
        (is t ∙ sym (is now), (r, ap (λ x. get x.1.subs n.subscription_id) (is now) ∙ there))
    | inr live ↦
        let is : (at : ℕ)
            → apply apply_patch big_int at n s
              ≡ landed apply_patch big_int n s (updated apply_patch big_int n.kind n r) =
          λ at. simp (apply, there, live) refl in
        (
          is t ∙ sym (is now),
          landed-registered n s (updated apply_patch big_int n.kind n r) there (is now),
        )
  ]

  -- One arrival: nothing was thrown, and what follows is applied to what it left.
  apply_all-head :
      (now : ℕ) (n : Notification) (ns : List Notification) (s : SubscriptionState)
      → (apply_all apply_patch big_int now (n ∷ ns) s).0 ≡ ok tt
      → apply_all apply_patch big_int now (n ∷ ns) s
        ≡ apply_all apply_patch big_int now ns (apply apply_patch big_int now n s).1
  unfolding apply_all
  apply_all-head now n ns s fine =
      let p = apply apply_patch big_int now n s in
      let k = apply_all apply_patch big_int now ns in
      elim (Outcome-cases p.0) [
        | inl (e, bad) ↦
            let stops : apply_all apply_patch big_int now (n ∷ ns) s ≡ (throw e, p.1) =
              ap (λ r. continue r (λ _. k) p.1) bad in
            let no : throw e ≡ ok tt = sym (ap (λ x. x.0) stops) ∙ fine in cc
        | inr (u, good) ↦ ap (λ r. continue r (λ _. k) p.1) good
      ]

  arrive-registered :
      (now : ℕ) (more : List Arrival) (id : String) (s : SubscriptionState) (r : SubscriptionRecord)
      → get s.subs id ≡ some r
      → All (λ b. b.notification.subscription_id ≡ id) more
      → (apply_all apply_patch big_int now (notifications more) s).0 ≡ ok tt
      → apply_all apply_patch big_int now (notifications more) s ≡ (ok tt, arrive more s)
  unfolding apply_all arrive
  arrive-registered now [] id s r there h fine = refl
  arrive-registered now (a ∷ more) id s r there h fine =
      let n = a.notification in
      let s' = (apply apply_patch big_int now n s).1 in
      let of_n : get s.subs n.subscription_id ≡ some r = ap (get s.subs) h.0 ∙ there in
      let (timeless, (q, still)) = apply-registered a.at now n s r of_n in
      let step = apply_all-head now n (notifications more) s fine in
      step
      ∙ arrive-registered now more id s' q (ap (get s'.subs) (sym h.0) ∙ still) h.1
          (ap (λ x. x.0) (sym step) ∙ fine)
      ∙ ap (λ x. (ok tt, arrive more x.1)) (sym timeless)

  -- Notifications of one subscription that come before the reply to their subscribe, the last at most five seconds
  -- after the first, while nothing else is buffered and no other subscription's come: when the reply registers
  -- the subscription, and none of them fails to apply, the client is in the state in which it would be had the
  -- subscription been registered before they came.
  pub register-arrive :
      (a : Arrival) (more : List Arrival) (subs : Map String SubscriptionRecord) (now : ℕ)
      (id : String) (reducer : Option (Value → Value → Value))
      → get subs id ≡ none
      → a.notification.subscription_id ≡ id
      → All (λ b. (b.notification.subscription_id ≡ id) × (b.at - a.at ≤ 5000)) more
      → (register apply_patch big_int now id reducer
          (arrive (a ∷ more) (record { subs = subs; pending = [] }))).0
        ≡ ok tt
      → register apply_patch big_int now id reducer
          (arrive (a ∷ more) (record { subs = subs; pending = [] }))
        ≡ (
          ok tt,
          arrive (a ∷ more) (pre_register id reducer (record { subs = subs; pending = [] })),
        )
  unfolding pre_register
  register-arrive a more subs now id reducer unknown first rest fine =
      let flushed = register-holding a more subs now id reducer unknown first rest in
      flushed
      ∙ arrive-registered now (a ∷ more) id
          (pre_register id reducer (record { subs = subs; pending = [] })) _
          (get-set_self subs id _) (first, All-first more id a.at rest)
          (ap (λ x. x.0) (sym flushed) ∙ fine)
