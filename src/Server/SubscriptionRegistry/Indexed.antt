-- ===== src/Server/SubscriptionRegistry/Indexed.antt =====
-- The indexes of src/server/subscription-registry.ts agree with its subscriptions.
use actjs.Prelude.{
  subst, Option-cases, ℕ, String, ◌≡◌, ◌&&◌, refl, ap, sym, ◌∙◌, Bool, true, false, Option, none,
  some, List, [], ◌∷◌, get_or, arith, if◌then◌else◌, inl, inr,
}
use actjs.Prelude.Keys.{string_keyed, nat_keyed, ◌==◌, Keyed}
use actjs.Prelude.Map.{Map, get, contains, add, remove}
use actjs.Prelude.Map.Laws.{get-set, get-delete, contains-add, contains-remove}
use actjs.Runtime.Value.{Value}
use actjs.Server.SubscriptionRegistry.{
  Subscription, SubscriptionRegistry, add_id, drop_id, put_ids, attach, detach, unsubscribe,
  unsubscribe_all, unsubscribe_connection,
}

module _ {K : Type 0} ⦃e : Keyed K⦄ where
  abbrev pub ids_of : Map K (List String) → K → List String
  ids_of m k = get_or (get m k) []

  ids_of-add_id :
      (m : Map K (List String)) (k j : K) (id other : String)
      → contains (ids_of (add_id m k id) j) other
        ≡ (if (k == j) && (id == other) then true else contains (ids_of m j) other)
  unfolding add_id
  ids_of-add_id m k j id other = ground (
    arith,
    get-set m k j (add (ids_of m k) id),
    contains-add (ids_of m k) id other,
    e.same_key_iff k j,
  )

  ids_of-put_ids :
      (m : Map K (List String)) (k j : K) (ids : List String)
      → ids_of (put_ids m k ids) j ≡ (if k == j then ids else ids_of m j)
  ids_of-put_ids m k j [] = ground (arith, get-delete m k j)
  ids_of-put_ids m k j (id ∷ ids) = ground (arith, get-set m k j (id ∷ ids))

  ids_of-drop_id :
      (m : Map K (List String)) (k j : K) (id other : String)
      → contains (ids_of (drop_id m k id) j) other
        ≡ (if (k == j) && (id == other) then false else contains (ids_of m j) other)
  unfolding drop_id contains
  ids_of-drop_id m k j id other = elim (Option-cases (get m k)) [
    | inl missing ↦ rw (drop_id, missing) (ground (arith, e.same_key_iff k j, missing))
    | inr (ids, there) ↦
        rw (drop_id, there, ids_of-put_ids m k j (remove ids id))
          (ground (arith, e.same_key_iff k j, there, contains-remove ids id other))
  ]

abbrev pub is_of_actor : String → Option Subscription → Bool
is_of_actor a none = false
is_of_actor a (some s) = s.actor_id == a

abbrev pub is_of_conn : ℕ → Option Subscription → Bool
is_of_conn c none = false
is_of_conn c (some s) = s.conn == c

-- An id is in the set of an actor, or of a connection, exactly if it is that of a subscription of it.
pub record IsIndexed (r : SubscriptionRegistry) : Type 0 where
  pub actors : (a id : String) → contains (ids_of r.by_actor a) id ≡ is_of_actor a (get r.subs id)
  pub conns :
      (c : ℕ) (id : String) → contains (ids_of r.by_connection c) id ≡ is_of_conn c (get r.subs id)

-- A new subscription, under an id that is not in use, keeps the indexes right.
pub attach-IsIndexed :
    (conn : ℕ) (actor_id id : String) (state : Value) (seq : ℕ) (r : SubscriptionRegistry)
    → get r.subs id ≡ none
    → IsIndexed r
    → IsIndexed (attach conn actor_id id state seq r)
unfolding attach
attach-IsIndexed conn actor_id id state seq r fresh h = record {
  actors = λ a other. ground (
    arith,
    ids_of-add_id r.by_actor actor_id a id other,
    h.actors a other,
    h.actors a id,
    fresh,
    get-set r.subs id other (record { conn = conn; actor_id = actor_id }),
    string_keyed.same_key_iff id other,
  );
  conns = λ c other. ground (
    arith,
    ids_of-add_id r.by_connection conn c id other,
    h.conns c other,
    h.conns c id,
    fresh,
    get-set r.subs id other (record { conn = conn; actor_id = actor_id }),
    string_keyed.same_key_iff id other,
  );
}

detach-IsIndexed :
    (id : String) (s : Subscription) (r : SubscriptionRegistry)
    → get r.subs id ≡ some s
    → IsIndexed r
    → IsIndexed (detach id s r)
unfolding detach
detach-IsIndexed id s r there h = record {
  actors = λ a other. ground (
    arith,
    ids_of-drop_id r.by_actor s.actor_id a id other,
    h.actors a other,
    h.actors a id,
    there,
    get-delete r.subs id other,
    string_keyed.same_key_iff id other,
  );
  conns = λ c other. ground (
    arith,
    ids_of-drop_id r.by_connection s.conn c id other,
    h.conns c other,
    h.conns c id,
    there,
    get-delete r.subs id other,
    string_keyed.same_key_iff id other,
  );
}

-- Dropping a subscription, or an id that is none, keeps the indexes right.
pub unsubscribe-IsIndexed :
    (id : String) (r : SubscriptionRegistry) → IsIndexed r → IsIndexed (unsubscribe id r).1
unfolding unsubscribe
unsubscribe-IsIndexed id r h = elim (Option-cases (get r.subs id)) [
  | inl missing ↦ subst IsIndexed (sym (ap (λ x. x.1) (gone missing))) h
  | inr (s, there) ↦
      subst IsIndexed (sym (ap (λ x. x.1) (found s there))) (detach-IsIndexed id s r there h)
]
  where
    gone : get r.subs id ≡ none → unsubscribe id r ≡ (false, r)
    gone missing = simp (unsubscribe, missing) refl

    found : (s : Subscription) → get r.subs id ≡ some s → unsubscribe id r ≡ (true, detach id s r)
    found s there = simp (unsubscribe, there) refl

unsubscribe-subs :
    (k : String) (r : SubscriptionRegistry) (id : String)
    → get (unsubscribe k r).1.subs id ≡ (if k == id then none else get r.subs id)
unfolding unsubscribe detach
unsubscribe-subs k r id = elim (Option-cases (get r.subs k)) [
  | inl missing ↦
      rw (unsubscribe, missing) (ground (arith, missing, string_keyed.same_key_iff k id))
  | inr (s, there) ↦ rw (unsubscribe, there) (get-delete r.subs k id)
]

unsubscribe_all-subs :
    (ids : List String) (r : SubscriptionRegistry) (id : String)
    → get (unsubscribe_all ids r).subs id ≡ (if contains ids id then none else get r.subs id)
unfolding unsubscribe_all contains
unsubscribe_all-subs [] r id = refl
unsubscribe_all-subs (k ∷ ids) r id =
    unsubscribe_all-subs ids (unsubscribe k r).1 id ∙ ground (arith, unsubscribe-subs k r id)

-- When a connection is dropped, none of its subscriptions is left, and each subscription of another connection
-- stays as it was.
pub unsubscribe_connection-subs :
    (conn : ℕ) (r : SubscriptionRegistry) (id : String)
    → IsIndexed r
    → get (unsubscribe_connection conn r).subs id
      ≡ (if is_of_conn conn (get r.subs id) then none else get r.subs id)
unfolding unsubscribe_connection
unsubscribe_connection-subs conn r id h =
    unsubscribe_all-subs (ids_of r.by_connection conn) r id ∙ rw (h.conns conn id) refl
