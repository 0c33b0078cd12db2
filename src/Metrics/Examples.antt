-- ===== src/Metrics/Examples.antt =====
-- Runs of src/metrics/index.ts at concrete inputs.
use actjs.Prelude.{String, ◌≡◌, refl, some, List, [], ◌∷◌, ◌++◌, take}
use actjs.Prelude.Map.{contains, get, set, add}
use actjs.Metrics.{CallLabels, CallOutcome, new_metrics, record_call}
use actjs.Metrics.Labels.{record_calls, distinct, record_calls-label}

abbrev on_cart : String → CallLabels
on_cart method = record { class_name = "cart"; method = method; outcome = CallOutcome.ok }

abbrev two_calls : List CallLabels
two_calls = on_cart "add" ∷ on_cart "list" ∷ []

counted_two :
    (record_calls (new_metrics (some 1)) two_calls).counted ≡ on_cart "_other" ∷ on_cart "add" ∷ []
unfolding record_calls record_call contains get set add
counted_two = refl

record_calls-label_example :
    (record_calls (new_metrics (some 1)) (two_calls ++ on_cart "add" ∷ [])).counted
    ≡ on_cart "add" ∷ (record_calls (new_metrics (some 1)) two_calls).counted
unfolding contains take distinct add
record_calls-label_example = record_calls-label (some 1) two_calls (on_cart "add")
