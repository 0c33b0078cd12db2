-- ===== src/Metrics.antt =====
-- src/metrics/index.ts: the counter of actor calls and the cap on its method labels. prom-client's counters are
-- outside the repository: `counted` holds the labels of the calls `actorMessageTotal.inc(labels, 1)`, the last
-- one first, and `warned` the fields of the calls `log.warn`.
pub mod Labels
pub mod Examples
use actjs.Prelude.{
  ℕ, String, Bool, true, false, Option, List, [], ◌∷◌, length, ltb, get_or, if◌then◌else◌,
}
use actjs.Prelude.Keys.{string_keyed}
use actjs.Prelude.Map.{Map, get, set, contains, add}

pub data CallOutcome : Type 0 where
  ok error denied rate_limited cap_exhausted : CallOutcome

pub record CallLabels : Type 0 where
  pub class_name : String
  pub method : String
  pub outcome : CallOutcome

pub record Warning : Type 0 where
  pub class_name : String
  pub limit : ℕ
  pub method : String

pub record MetricsRegistry : Type 0 where
  pub method_limit : ℕ
  pub methods_by_class : Map String (List String)
  pub overflow_warned : Bool
  pub warned : List Warning
  pub counted : List CallLabels

-- The constructor; `DEFAULT_METHOD_LIMIT` is 50
abbrev pub new_metrics : Option ℕ → MetricsRegistry
new_metrics method_limit = record {
  method_limit = get_or method_limit 50;
  methods_by_class = [];
  overflow_warned = false;
  warned = [];
  counted = [];
}

-- `methodsByClass.get(className)`, with the empty set for a class that is new
abbrev pub allowed_of : MetricsRegistry → String → List String
allowed_of r class_name = get_or (get r.methods_by_class class_name) []

-- The warning of the first overflow
unfoldable pub warn_overflow : MetricsRegistry → String → String → MetricsRegistry
warn_overflow r class_name method = if r.overflow_warned then r else record r {
  overflow_warned = true;
  warned = (record { class_name = class_name; limit = r.method_limit; method = method }) ∷ r.warned;
}

-- `bucketMethod`: the label, and the registry after the call
unfoldable pub bucket_method : MetricsRegistry → String → String → String × MetricsRegistry
unfolding warn_overflow
bucket_method r class_name method =
    let allowed = allowed_of r class_name in
    let seen = record r { methods_by_class = set r.methods_by_class class_name allowed } in
    if contains allowed method
    then (method, seen)
    else if ltb (length allowed) r.method_limit
    then (
      method,
      record r { methods_by_class = set r.methods_by_class class_name (add allowed method) },
    )
    else ("_other", warn_overflow seen class_name method)

abbrev counted_as : String → CallOutcome → String × MetricsRegistry → MetricsRegistry
counted_as class_name outcome (label, r) = record r {
  counted = (record { class_name = class_name; method = label; outcome = outcome }) ∷ r.counted;
}

unfoldable pub record_call : MetricsRegistry → String → String → CallOutcome → MetricsRegistry
unfolding bucket_method
record_call r class_name method outcome =
    counted_as class_name outcome (bucket_method r class_name method)
