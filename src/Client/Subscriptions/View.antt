-- ===== src/Client/Subscriptions/View.antt =====
-- The client's view of an event-sourced actor in src/client/subscriptions.ts.
use actjs.Client.Subscriptions.{
  emit, seq_or, Notification, SubscriptionState, SubscriptionRecord, event, apply, fold_events,
}
use actjs.Prelude.{
  subst, ℕ, String, ◌≡◌, refl, ap, sym, false, Option, none, some, List, [], ◌∷◌, ◌++◌, leb,
  Bool-cases, inl, inr,
}
use actjs.Prelude.Keys.{string_keyed, nat_keyed}
use actjs.Prelude.Map.{get, set}
use actjs.Prelude.Map.Laws.{get-set_self}
use actjs.Runtime.Value.{Value}

abbrev pub event_batch : String → List Value → Option String → Notification
event_batch id events seq = record {
  subscription_id = id;
  kind = event;
  data_value = none;
  patch = none;
  events = some events;
  seq = seq;
}

-- The events of the batches, in their order
unfoldable pub all_events : List (List Value × Option String) → List Value
all_events [] = []
all_events (b ∷ bs) = b.0 ++ all_events bs

fold_events-append :
    (reducer : Value → Value → Value) (state : Value) (es fs : List Value)
    → fold_events reducer state (es ++ fs) ≡ fold_events reducer (fold_events reducer state es) fs
unfolding fold_events
fold_events-append reducer state [] fs = refl
fold_events-append reducer state (e ∷ es) fs = fold_events-append reducer (reducer state e) es fs

module _ (apply_patch : Value → List Value → Option Value) (big_int : String → Option ℕ) where
  -- The view of a subscription with a reducer
  pub record Views (s : SubscriptionState) (id : String) (reducer : Value → Value → Value)
      (state : Value) : Type 0 where
    pub row : SubscriptionRecord
    pub there : get s.subs id ≡ some row
    pub with_reducer : row.reducer ≡ some reducer
    pub live : row.tombstoned ≡ false
    pub shows : row.state ≡ state

  -- What holds of a record with and without one more state given to its listeners
  emitted_lem :
      (P : SubscriptionRecord → Type 0) (r : SubscriptionRecord)
      → P r
      → P (record r { emitted = r.state ∷ r.emitted })
      → P (emit apply_patch big_int r)
  emitted_lem P r silent told = elim (Bool-cases (leb r.listeners 0)) [
    | inl nobody ↦ rw nobody silent
    | inr somebody ↦ rw somebody told
  ]

  apply-Views :
      (now : ℕ) (s : SubscriptionState) (id : String) (reducer : Value → Value → Value)
      (state : Value) (events : List Value) (seq : Option String)
      → Views s id reducer state
      → Views
          (apply apply_patch big_int now (event_batch id events seq) s).1
          id
          reducer
          (fold_events reducer state events)
  unfolding apply
  apply-Views now s id reducer state events seq v =
      let row : SubscriptionRecord = record v.row {
        state = fold_events reducer v.row.state events;
        last_seq = seq_or apply_patch big_int seq v.row.last_seq;
      } in
      let after : (apply apply_patch big_int now (event_batch id events seq) s).1
          ≡ record s { subs = set s.subs id (emit apply_patch big_int row) } =
        simp (apply, v.there, v.live, v.with_reducer) refl in
      subst (λ t. Views t id reducer (fold_events reducer state events)) (sym after)
        (record {
          row = emit apply_patch big_int row;
          there = get-set_self s.subs id (emit apply_patch big_int row);
          with_reducer =
              emitted_lem (λ r. r.reducer ≡ some reducer) row v.with_reducer v.with_reducer;
          live = emitted_lem (λ r. r.tombstoned ≡ false) row v.live v.live;
          shows =
              emitted_lem (λ r. r.state ≡ fold_events reducer state events) row
                (ap (λ x. fold_events reducer x events) v.shows)
                (ap (λ x. fold_events reducer x events) v.shows);
        })

  unfoldable pub apply_batches :
      ℕ → String → List (List Value × Option String) → SubscriptionState → SubscriptionState
  apply_batches now id [] s = s
  apply_batches now id (b ∷ bs) s =
      apply_batches now id bs (apply apply_patch big_int now (event_batch id b.0 b.1) s).1

  -- A client that shows a state of an event-sourced actor and is then sent the events of its commits shows the
  -- reducer's fold of all of them over that state, however the events are cut into notifications.
  pub apply_batches-Views :
      (now : ℕ) (s : SubscriptionState) (id : String) (reducer : Value → Value → Value)
      (state : Value) (batches : List (List Value × Option String))
      → Views s id reducer state
      → Views
          (apply_batches now id batches s)
          id
          reducer
          (fold_events reducer state (all_events batches))
  unfolding apply_batches all_events fold_events
  apply_batches-Views now s id reducer state [] v = v
  apply_batches-Views now s id reducer state (b ∷ bs) v =
      subst (Views (apply_batches now id (b ∷ bs) s) id reducer)
        (sym (fold_events-append reducer state b.0 (all_events bs)))
        (apply_batches-Views now (apply apply_patch big_int now (event_batch id b.0 b.1) s).1 id
          reducer (fold_events reducer state b.0) bs (apply-Views now s id reducer state b.0 b.1 v))
