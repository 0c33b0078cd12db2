-- ===== src/Runtime/FacadeExamples.antt =====
-- Calls of src/runtime/runtime.ts at concrete inputs.
use actjs.Prelude.Outcome.{Attempt, Outcome, ok, throw}
use actjs.Prelude.{ℕ, String, ◌≡◌, refl, Bool, false, Option, none, some, List, [], ◌∷◌}
use actjs.Prelude.Keys.{string_keyed, nat_keyed}
use actjs.Prelude.Map.{get}
use actjs.Storage.Driver.{ActorRow, new_driver}
use actjs.Policy.Principal.{Principal, anonymous_principal}
use actjs.Policy.Evaluate.{PolicyDecision, deny, evaluate_policy, normalize_decision}
use actjs.Limits.RateLimiter.{RateLimiter}
use actjs.Audit.{noop_auditor}
use actjs.Runtime.Value.{Value, undefined}
use actjs.Runtime.ActorClass.{ActorClass}
use actjs.Runtime.Host.State.{Host, Registration, new_host}
use actjs.Runtime.Facade.Guards.{
  IsLive, call-denied, attempt_call-unregistered, tombstone-unchecked,
}
use actjs.Runtime.Facade
use actjs.Runtime.Access

abbrev plain_class : ActorClass
plain_class = record {
  event_sourced = false;
  handlers = λ name. none;
  default_state = undefined;
  initial_state = undefined;
  reduce = λ s e. s;
  migrate_event = none;
  migrate = none;
  on_init = none;
  on_activate = none;
  on_deactivate = none;
  snapshot = λ s. s;
}

abbrev vault : Registration
vault = record {
  name = "Vault";
  version = "1.0.0";
  ctor = plain_class;
  mailbox_capacity = none;
  snapshot_every_n_events = none;
  floating = none;
}

abbrev vault_host : Host
vault_host = new_host "v" vault

abbrev vault_row : ActorRow
vault_row = record {
  cls = "Vault";
  version = "1.0.0";
  created_at = 0;
  last_active_at = none;
  tombstoned_at = none;
  tags = [];
  fence = 0;
}

abbrev with_vault : Access.System
with_vault = record {
  driver = record new_driver { actors = ("v", vault_row) ∷ ("w", vault_row) ∷ [] };
  clock = 7;
  classes = ("Vault", vault) ∷ [];
  directory = record {
    hosts = ("v", "Vault") ∷ [];
    materializing = [];
    destroyed = false;
    per_class_active = ("Vault", 1) ∷ [];
    classes = "Vault" ∷ [];
    active_actor_cap_per_class = 0;
  };
  live = ("v", vault_host) ∷ [];
  rate_limiter = none;
  metrics = [];
  promises = 0;
  dispatcher_started = false;
}

-- The policy of every class refuses everyone.
abbrev closed_to_all :
    Registration → Option (Principal → Access.PolicyAction → Outcome String PolicyDecision)
closed_to_all r = some (λ p a. ok deny)

abbrev no_difference : Value → Value → List Value
no_difference a b = []

abbrev never_newer : String → String → Bool
never_newer a b = false

vault-IsLive : IsLive ℕ no_difference never_newer none closed_to_all with_vault "v" vault_host
unfolding get
vault-IsLive = record { listed = refl; cls = "Vault"; cached = refl; running = refl }

abbrev denied_call : Outcome (Access.RuntimeError ℕ) Value × Access.System
denied_call =
    Facade.call ℕ no_difference never_newer none closed_to_all "Vault" "v" "open" undefined none
      with_vault

call-denied_example :
    ((message : String) × ((reason : String) × (denied_call.0
          ≡ throw (Access.policy_denied message reason))))
    × ((denied_call.1.driver ≡ with_vault.driver)
        × ((denied_call.1.live ≡ with_vault.live)
            × (denied_call.1.directory ≡ with_vault.directory)))
unfolding get evaluate_policy normalize_decision anonymous_principal Access.enforce_rate_limit
call-denied_example =
    call-denied ℕ no_difference never_newer none closed_to_all "Vault" "v" "open" undefined none
      with_vault vault_host vault vault-IsLive refl refl refl refl

attempt_call-unregistered_example :
    (l : Option RateLimiter) × (Facade.attempt_call ℕ no_difference never_newer none closed_to_all
        "Nothing" "v" "open" undefined none with_vault
      ≡ Facade.host_call ℕ no_difference never_newer none closed_to_all "v" "open" undefined
          (record with_vault { rate_limiter = l }))
unfolding get Access.enforce_rate_limit
attempt_call-unregistered_example =
    attempt_call-unregistered ℕ no_difference never_newer none closed_to_all "Nothing" "v" "open"
      undefined none with_vault vault_host vault-IsLive refl refl

abbrev destroyed_w : Attempt (Access.RuntimeError ℕ) × Access.System
destroyed_w =
    Facade.tombstone ℕ no_difference never_newer none closed_to_all (λ id name. undefined)
      noop_auditor "w" none with_vault

tombstone-unchecked_example :
    (destroyed_w.0 ≡ ok tt)
    × (get destroyed_w.1.driver.actors "w" ≡ some (record vault_row { tombstoned_at = some 7 }))
unfolding get
tombstone-unchecked_example =
    tombstone-unchecked ℕ no_difference never_newer none closed_to_all (λ id name. undefined) "w"
      none with_vault vault_row refl refl
