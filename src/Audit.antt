-- ===== src/Audit.antt =====
-- src/audit/auditor.ts. The driver's `appendAudit` is an argument, `append`, so that it may fail; the
-- id and the time of an entry are arguments too.
use actjs.Prelude.{ℕ, String, Option, none, some, get_or, if◌then◌else◌}
use actjs.Prelude.Keys.{string_keyed, nat_keyed, ◌==◌}
use actjs.Prelude.Outcome.{Outcome, Attempt, ok, throw}
use actjs.Storage.Types.{AuditEntry}
use actjs.Storage.Driver.{Driver}
use actjs.Policy.Principal.{Principal, is_system}

pub data AuditMode : Type 0 where
  strict best_effort : AuditMode

-- `Principal | string | undefined`
pub data Actor : Type 0 where
  nobody : Actor
  named : String → Actor
  principal : Principal → Actor

pub record RecordInput (V : Type 0) : Type 0 where
  pub action : String
  pub target : String
  pub meta : Option V
  pub principal : Actor

pub record PendingEntry (V : Type 0) : Type 0 where
  pub principal : String
  pub action : String
  pub target : String
  pub meta : V

-- `AuditWriteError`, with its cause
pub data AuditWriteError (E : Type 0) : Type 0 where
  audit_write_failed : String → String → E → AuditWriteError E

-- What `record` returned or threw, what it passed to `onError`, and the driver it left
pub record Audited (E V : Type 0) : Type 0 where
  pub outcome : Attempt (AuditWriteError E)
  pub reported : Option (E × PendingEntry V)
  pub driver : Driver V

-- The `record` method of an auditor. The number counts its calls, each of which has an id and a time of
-- its own.
abbrev pub Auditor : Type 0 → Type 0 → Type 0
Auditor E V = ℕ → RecordInput V → Driver V → Audited E V

unfoldable pub derive_principal : Actor → String
derive_principal nobody = "anonymous"
derive_principal (named s) = if s == "" then "anonymous" else s
derive_principal (principal p) = if is_system p then "system" else p.sub

module _ {E V : Type 0} (empty : V) (append : AuditEntry V → Driver V → Outcome E (Driver V)) where
  abbrev pub pending_of : RecordInput V → PendingEntry V
  pending_of input = record {
    principal = derive_principal input.principal;
    action = input.action;
    target = input.target;
    meta = get_or input.meta empty;
  }

  abbrev pub entry_for : String → ℕ → RecordInput V → AuditEntry V
  entry_for id ts input = record {
    id = id;
    ts = ts;
    principal = derive_principal input.principal;
    action = input.action;
    target = input.target;
    meta = get_or input.meta empty;
  }

  abbrev pub written : AuditMode → RecordInput V → Driver V → Outcome E (Driver V) → Audited E V
  written mode input d (ok d') = record { outcome = ok tt; reported = none; driver = d' }
  written strict input d (throw e) = record {
    outcome = throw (audit_write_failed input.action input.target e);
    reported = some (e, pending_of input);
    driver = d;
  }
  written best_effort input d (throw e) = record {
    outcome = ok tt;
    reported = some (e, pending_of input);
    driver = d;
  }

  unfoldable pub record_audit : AuditMode → (ℕ → String) → (ℕ → ℕ) → Auditor E V
  record_audit mode next_id now n input d =
      written mode input d (append (entry_for (next_id n) (now n) input) d)

-- `NoopAuditor`
abbrev pub noop_auditor : {E V : Type 0} → Auditor E V
noop_auditor n input d = record { outcome = ok tt; reported = none; driver = d }
