-- ===== src/Client/Subscriptions.antt =====
-- `SubscriptionState` of src/client/subscriptions.ts. The listeners of a subscription are counted, and
-- `emitted` has the states that they were given, the newest first. `apply_patch` is that of
-- fast-json-patch, and `big_int` that of JavaScript, where `none` is an exception. The time is an argument.
pub mod Buffered
pub mod View
use actjs.Prelude.{
  ℕ, zero, suc, ◌+◌, ◌-◌, ◌≤◌, ◌<◌, String, ◌≡◌, ◌≢◌, ◌&&◌, not, refl, ap, sym, ◌∙◌, Bool, true,
  false, Option, none, some, List, [], ◌∷◌, ◌++◌, map, length, leb, ltb, nat_beq, get_or, arith,
  if◌then◌else◌, Bool-cases, inl, inr,
}
use actjs.Prelude.Keys.{string_keyed, nat_keyed, ◌==◌}
use actjs.Prelude.Outcome.{Attempt, ok, throw}
use actjs.Prelude.Action.{continue, ◌>>=◌, ◌>>◌}
use actjs.Prelude.Map.{Map, get, set, delete}
use actjs.Runtime.Value.{Value, undefined}

pub data Kind : Type 0 where
  snapshot patch event tombstone : Kind

-- What `applyPatch` throws
pub data PatchError : Type 0 where
  patch_failed : PatchError

pub record Notification : Type 0 where
  pub subscription_id : String
  pub kind : Kind
  pub data_value : Option Value
  pub patch : Option (List Value)
  pub events : Option (List Value)
  pub seq : Option String

pub record SubscriptionRecord : Type 0 where
  pub subscription_id : String
  pub state : Value
  pub last_seq : ℕ
  pub reducer : Option (Value → Value → Value)
  pub listeners : ℕ
  pub emitted : List Value
  pub tombstoned : Bool

pub record Buffer : Type 0 where
  pub entries : List Notification
  pub at : ℕ

pub record SubscriptionState : Type 0 where
  pub subs : Map String SubscriptionRecord
  pub pending : Map String Buffer

-- `new SubscriptionState()`, and `clear`
abbrev pub cleared : SubscriptionState
cleared = record { subs = []; pending = [] }

unfoldable pub pre_register :
    String → Option (Value → Value → Value) → SubscriptionState → SubscriptionState
pre_register id reducer s = record s {
  subs = set s.subs id (record {
    subscription_id = id;
    state = undefined;
    last_seq = 0;
    reducer = reducer;
    listeners = 0;
    emitted = [];
    tombstoned = false;
  });
}

unfoldable pub unregister : String → SubscriptionState → SubscriptionState
unregister id s = record s { subs = delete s.subs id }

-- The sweep of `bufferEarly`
unfoldable pub swept : ℕ → Map String Buffer → Map String Buffer
swept now [] = []
swept now ((id, b) ∷ m) =
    let rest = swept now m in if ltb 5000 (now - b.at) then rest else (id, b) ∷ rest

abbrev pub buffered_with : ℕ → Notification → Option Buffer → Buffer
buffered_with now n none = record { entries = n ∷ []; at = now }
buffered_with now n (some b) = record b { entries = b.entries ++ n ∷ [] }

unfoldable pub buffer_early : ℕ → Notification → SubscriptionState → SubscriptionState
unfolding swept
buffer_early now n s =
    let kept = swept now s.pending in
    record s {
      pending = set kept n.subscription_id (buffered_with now n (get kept n.subscription_id));
    }

unfoldable pub fold_events : (Value → Value → Value) → Value → List Value → Value
fold_events reducer state [] = state
fold_events reducer state (e ∷ es) = fold_events reducer (reducer state e) es

module _ (apply_patch : Value → List Value → Option Value) (big_int : String → Option ℕ) where
  abbrev pub seq_or : Option String → ℕ → ℕ
  seq_or none old = old
  seq_or (some text) old = get_or (big_int text) old

  abbrev pub reduced :
      Option (Value → Value → Value) → Notification → SubscriptionRecord → SubscriptionRecord
  reduced none n r = record r { state = get_or n.data_value r.state }
  reduced (some reducer) n r = record r {
    state = fold_events reducer r.state (get_or n.events []);
    last_seq = seq_or n.seq r.last_seq;
  }

  -- The switch on the kind; `none` is an exception of `applyPatch`.
  abbrev pub updated : Kind → Notification → SubscriptionRecord → Option SubscriptionRecord
  updated snapshot n r =
      some (record r { state = get_or n.data_value undefined; last_seq = seq_or n.seq r.last_seq })
  updated patch n r = elim (apply_patch r.state (get_or n.patch [])) [
    | none ↦ none
    | some next ↦ some (record r { state = next })
  ]
  updated event n r = some (reduced r.reducer n r)
  updated tombstone n r = some (record r { tombstoned = true })

  abbrev pub emit : SubscriptionRecord → SubscriptionRecord
  emit r = if leb r.listeners 0 then r else record r { emitted = r.state ∷ r.emitted }

  abbrev pub landed :
      Notification
      → SubscriptionState
      → Option SubscriptionRecord
      → Attempt PatchError × SubscriptionState
  landed n s none = (throw patch_failed, s)
  landed n s (some r) = (ok tt, record s { subs = set s.subs n.subscription_id (emit r) })

  unfoldable pub apply :
      ℕ → Notification → SubscriptionState → Attempt PatchError × SubscriptionState
  unfolding buffer_early fold_events
  apply now n s = elim (get s.subs n.subscription_id) [
    | none ↦ (ok tt, buffer_early now n s)
    | some r ↦ if r.tombstoned then (ok tt, s) else landed n s (updated n.kind n r)
  ]

  -- `apply` for each notification, until one throws
  unfoldable pub apply_all :
      ℕ → List Notification → SubscriptionState → Attempt PatchError × SubscriptionState
  unfolding apply
  apply_all now [] s = (ok tt, s)
  apply_all now (n ∷ ns) s = (apply now n >> apply_all now ns) s

  unfoldable pub flush_buffered :
      ℕ → String → SubscriptionState → Attempt PatchError × SubscriptionState
  unfolding apply_all
  flush_buffered now id s = elim (get s.pending id) [
    | none ↦ (ok tt, s)
    | some b ↦ apply_all now b.entries (record s { pending = delete s.pending id })
  ]

  unfoldable pub register :
      ℕ
      → String
      → Option (Value → Value → Value)
      → SubscriptionState
      → Attempt PatchError × SubscriptionState
  unfolding flush_buffered pre_register
  register now id reducer s = flush_buffered now id (pre_register id reducer s)
