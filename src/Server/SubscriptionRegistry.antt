-- ===== src/Server/SubscriptionRegistry.antt =====
-- `SubscriptionRegistry` of src/server/subscription-registry.ts. A connection is a number. `subscribe` has two
-- steps, before and after it awaits the host: `admit` and `attach`. `delivered` has what the sinks were
-- given, the newest first; the sinks return.
pub mod Indexed
use actjs.Prelude.{
  ℕ, zero, suc, ◌+◌, ◌-◌, ◌≤◌, ◌<◌, String, ◌≡◌, ◌≢◌, ◌&&◌, not, refl, ap, sym, ◌∙◌, Bool, true,
  false, Option, none, some, List, [], ◌∷◌, ◌++◌, map, length, leb, ltb, nat_beq, get_or, arith,
  if◌then◌else◌, Bool-cases, inl, inr,
}
use actjs.Prelude.Keys.{string_keyed, nat_keyed, ◌==◌}
use actjs.Prelude.Keys.{Keyed}
use actjs.Prelude.Outcome.{Outcome, Attempt, ok, throw}
use actjs.Prelude.Map.{Map, get, set, delete, add, remove}
use actjs.Runtime.Value.{Value}
use actjs.Runtime.Host.State.{CommitInfo, patch, events, tombstone}

pub data NotificationBody : Type 0 where
  snapshot_body : Value → ℕ → NotificationBody
  patch_body : List Value → NotificationBody
  event_body : List Value → ℕ → NotificationBody
  tombstone_body : NotificationBody

pub record Subscription : Type 0 where
  pub conn : ℕ
  pub actor_id : String

pub data SubscriberLimitError : Type 0 where
  subscriber_limit : String → ℕ → SubscriberLimitError

pub record SubscriptionRegistry : Type 0 where
  pub subs : Map String Subscription
  pub by_actor : Map String (List String)
  pub by_connection : Map ℕ (List String)
  pub max_per_actor : ℕ
  pub notifications : ℕ
  pub delivered : List (String × NotificationBody)

abbrev pub new_registry : Option ℕ → SubscriptionRegistry
new_registry max_per_actor = record {
  subs = [];
  by_actor = [];
  by_connection = [];
  max_per_actor = get_or max_per_actor 1000;
  notifications = 0;
  delivered = [];
}

unfoldable pub admit : String → SubscriptionRegistry → Attempt SubscriberLimitError
admit actor_id r =
    if leb r.max_per_actor (length (get_or (get r.by_actor actor_id) []))
    then throw (subscriber_limit actor_id r.max_per_actor)
    else ok tt

-- The set of a key, with an id more
unfoldable pub add_id :
    {K : Type 0} → ⦃e : Keyed K⦄ → Map K (List String) → K → String → Map K (List String)
unfolding add
add_id m k id = set m k (add (get_or (get m k) []) id)

abbrev pub put_ids :
    {K : Type 0} → ⦃e : Keyed K⦄ → Map K (List String) → K → List String → Map K (List String)
put_ids m k [] = delete m k
put_ids m k (id ∷ ids) = set m k (id ∷ ids)

-- The set of a key, with an id less; an empty set is dropped.
unfoldable pub drop_id :
    {K : Type 0} → ⦃e : Keyed K⦄ → Map K (List String) → K → String → Map K (List String)
unfolding remove
drop_id m k id = elim (get m k) [ none ↦ m | some ids ↦ put_ids m k (remove ids id) ]

-- The second step, with the id that `randomUUID` gave and the host's state and seq
unfoldable pub attach :
    ℕ → String → String → Value → ℕ → SubscriptionRegistry → SubscriptionRegistry
unfolding add_id
attach conn actor_id id state seq r = record r {
  subs = set r.subs id (record { conn = conn; actor_id = actor_id });
  by_actor = add_id r.by_actor actor_id id;
  by_connection = add_id r.by_connection conn id;
  notifications = suc r.notifications;
  delivered = (id, snapshot_body state seq) ∷ r.delivered;
}

unfoldable pub detach : String → Subscription → SubscriptionRegistry → SubscriptionRegistry
unfolding drop_id
detach id s r = record r {
  subs = delete r.subs id;
  by_actor = drop_id r.by_actor s.actor_id id;
  by_connection = drop_id r.by_connection s.conn id;
}

unfoldable pub unsubscribe : String → SubscriptionRegistry → Bool × SubscriptionRegistry
unfolding detach
unsubscribe id r = elim (get r.subs id) [ none ↦ (false, r) | some s ↦ (true, detach id s r) ]

-- The loop of `unsubscribeConnection` over the ids of the connection
unfoldable pub unsubscribe_all : List String → SubscriptionRegistry → SubscriptionRegistry
unfolding unsubscribe
unsubscribe_all [] r = r
unsubscribe_all (id ∷ ids) r = unsubscribe_all ids (unsubscribe id r).1

unfoldable pub unsubscribe_connection : ℕ → SubscriptionRegistry → SubscriptionRegistry
unfolding unsubscribe_all
unsubscribe_connection conn r = unsubscribe_all (get_or (get r.by_connection conn) []) r

abbrev pub told : String → NotificationBody → SubscriptionRegistry → SubscriptionRegistry
told id body r = record r {
  notifications = suc r.notifications;
  delivered = (id, body) ∷ r.delivered;
}

-- `deliver`, for a subscription that is attached; a tombstone is its last notification.
unfoldable pub deliver :
    String → Subscription → CommitInfo → SubscriptionRegistry → SubscriptionRegistry
unfolding detach
deliver id s (patch ops state) r = told id (patch_body ops) r
deliver id s (events es seq state) r = told id (event_body es seq) r
deliver id s tombstone r = told id tombstone_body (detach id s r)
