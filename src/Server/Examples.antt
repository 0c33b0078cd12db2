-- ===== src/Server/Examples.antt =====
-- Runs of src/server at concrete inputs.
use actjs.Prelude.{
  ℕ, ◌+◌, String, ◌≡◌, refl, true, false, Option, none, some, List, [], ◌∷◌, arith, if◌then◌else◌,
}
use actjs.Prelude.Keys.{string_keyed, nat_keyed}
use actjs.Prelude.Map.{get, set, contains}
use actjs.Storage.Driver.{Driver, new_driver}
use actjs.Storage.Types.{ClassVersionRecord}
use actjs.Storage.Classes.{load_manifest}
use actjs.Storage.Idempotency.{load_idempotency}
use actjs.Server.ManifestTracker.{new_tracker, record_sha}
use actjs.Server.ManifestTracker.Counts
use actjs.Server.Pin
use actjs.Server.Pin.Served.{Promised, pin_hook-Promised}
use actjs.Server.IdempotencyHooks
use actjs.Server.IdempotencyHooks.Retry.{Visit, serve_all, serve-retry}
use actjs.Runtime.Value.{undefined}
use actjs.Server.SubscriptionRegistry.{
  attach, SubscriptionRegistry, new_registry, unsubscribe_connection,
}
use actjs.Server.SubscriptionRegistry.Indexed.{
  attach-IsIndexed, IsIndexed, is_of_conn, unsubscribe_connection-subs,
}

abbrev three_requests : List Counts.Request
three_requests =
    record { now = 1; sha = "a"; resolved = none }
    ∷ record { now = 2; sha = "b"; resolved = none }
    ∷ record { now = 3; sha = "a"; resolved = none }
    ∷ []

record_all-tracked_example : 2 ≡ Counts.occurrences "a" three_requests
unfolding Counts.record_all record_sha get set
record_all-tracked_example =
    Counts.record_all-tracked (some 1) three_requests "a"
      (record { count = 2; last_seen = 3; resolved = none }) refl

-- A counter: each request adds what it asks for, and is told the sum.
abbrev adds : ℕ → ℕ → IdempotencyHooks.Reply × ℕ
adds n s = (record { status = 201; body = "added"; content_type = none }, s + n)

abbrev post : Option String → ℕ → IdempotencyHooks.Request ℕ
post key n = record { method = "POST"; key = key; ask = n }

abbrev between_requests : List (Visit adds)
between_requests = record { now = 20; later = 21; request = post (some "other") 5 } ∷ []

serve-retry_example :
    ((IdempotencyHooks.serve adds none 30 31 (post (some "k") 9) (
        serve_all adds none between_requests
          (IdempotencyHooks.serve adds none 10 11 (post (some "k") 2) (new_driver, 0)).1)).0
      ≡ record {
        reply = record { status = 201; body = "added"; content_type = some "application/json" };
        replayed = true;
        echoed_key = some "k";
      })
    × ((IdempotencyHooks.serve adds none 30 31 (post (some "k") 9) (
          serve_all adds none between_requests
            (IdempotencyHooks.serve adds none 10 11 (post (some "k") 2) (new_driver, 0)).1)).1.1
        ≡ (serve_all adds none between_requests
            (IdempotencyHooks.serve adds none 10 11 (post (some "k") 2) (new_driver, 0)).1).1)
unfolding IdempotencyHooks.idempotency_key contains load_idempotency get
serve-retry_example =
    serve-retry adds none 10 11 (post (some "k") 2) between_requests 30 31 (post (some "k") 9)
      (new_driver, 0) "k" refl refl refl (λ e. cc, tt) refl (omega arith)

abbrev old_note : ClassVersionRecord
old_note = record {
  name = "Note";
  version = "1";
  source_sha256 = "s";
  deps = [];
  engines = [];
  published_at = 0;
  deprecated_at = some 3;
  grace_until = some 9;
  signed_by = none;
  floating = false;
  event_sourced = false;
}

abbrev pinned_driver : Driver ℕ
pinned_driver = record new_driver {
  class_versions = ("Note@1", old_note) ∷ [];
  manifests = ("m", ("Note", "1") ∷ []) ∷ [];
}

abbrev by_header : Pin.PinRequest
by_header = record { header = some "m"; query = none }

pin_hook-Promised_example :
    Promised pinned_driver 5 by_header
      (Pin.pin_hook 100 true 4 5 by_header (pinned_driver, new_tracker none)).0
    × (load_manifest (Pin.pin_hook 100 true 4 5 by_header (pinned_driver, new_tracker none)).1.0 "m"
        ≡ load_manifest pinned_driver "m")
pin_hook-Promised_example =
    pin_hook-Promised 100 true 4 5 by_header (pinned_driver, new_tracker none) "m"

abbrev one_subscriber : SubscriptionRegistry
one_subscriber = attach 1 "cart" "s1" undefined 0 (new_registry none)

abbrev two_subscribers : SubscriptionRegistry
two_subscribers = attach 2 "cart" "s2" undefined 0 one_subscriber

new_registry-IsIndexed : IsIndexed (new_registry none)
unfolding get contains
new_registry-IsIndexed = record { actors = λ a id. refl; conns = λ c id. refl }

two_subscribers-IsIndexed : IsIndexed two_subscribers
unfolding get attach set
two_subscribers-IsIndexed =
    attach-IsIndexed 2 "cart" "s2" undefined 0 one_subscriber refl
      (attach-IsIndexed 1 "cart" "s1" undefined 0 (new_registry none) refl new_registry-IsIndexed)

unsubscribe_connection-subs_example :
    get (unsubscribe_connection 1 two_subscribers).subs "s1"
    ≡ (if is_of_conn 1 (get two_subscribers.subs "s1") then none else get two_subscribers.subs "s1")
unsubscribe_connection-subs_example =
    unsubscribe_connection-subs 1 two_subscribers "s1" two_subscribers-IsIndexed
