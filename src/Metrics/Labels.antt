-- ===== src/Metrics/Labels.antt =====
-- The method labels that src/metrics/index.ts lets through, against the distinct methods in the order in which
-- they were first called.
use actjs.Prelude.{
  ℕ, zero, suc, ◌≤◌, String, ◌≡◌, refl, ap, sym, ◌∙◌, true, false, Option, List, [], ◌∷◌, ◌++◌,
  length, ltb, lt→ltb, get_or, take, arith, if◌then◌else◌, Bool-cases, inl, inr,
}
use actjs.Prelude.Keys.{string_keyed, ◌==◌}
use actjs.Prelude.Map.{Map, get, set, contains, add}
use actjs.Prelude.Map.Laws.{get-set, contains-add, ==-refl}
use actjs.Metrics.{
  MetricsRegistry, CallOutcome, CallLabels, new_metrics, allowed_of, bucket_method, record_call,
  warn_overflow,
}

-- `recordCall` for each call in turn
unfoldable pub record_calls : MetricsRegistry → List CallLabels → MetricsRegistry
record_calls r [] = r
record_calls r (c ∷ cs) = record_calls (record_call r c.class_name c.method c.outcome) cs

-- The distinct methods of a class, in the order of their first calls, after those in `seen`
unfoldable pub distinct : String → List String → List CallLabels → List String
distinct name seen [] = seen
distinct name seen (c ∷ cs) =
    distinct name (if c.class_name == name then add seen c.method else seen) cs

-- The guard of the allow-list
abbrev admitted : ℕ → List String → String → List String
admitted n allowed m =
    if contains allowed m
    then allowed
    else if ltb (length allowed) n
    then add allowed m
    else allowed

length-take : (n : ℕ) (s : List String) → length (take n s) ≤ n
unfolding take
length-take zero s = omega arith
length-take (suc n) [] = omega arith
length-take (suc n) (x ∷ s) = omega (arith, length-take n s)

-- A method that the cut drops was dropped by a cut that is full.
take-full :
    (n : ℕ) (s : List String) (m : String)
    → contains s m ≡ true
    → contains (take n s) m ≡ false
    → ltb (length (take n s)) n ≡ false
unfolding take contains
take-full zero s m here gone = ground arith
take-full (suc n) [] m here gone = ground arith
take-full (suc n) (x ∷ s) m here gone = ground (arith, take-full n s m)

contains-take :
    (n : ℕ) (s : List String) (m : String) → contains s m ≡ false → contains (take n s) m ≡ false
unfolding take contains
contains-take zero s m new = refl
contains-take (suc n) [] m new = refl
contains-take (suc n) (x ∷ s) m new = ground (arith, contains-take n s m)

take_nil : (n : ℕ) → take {A = String} n [] ≡ []
unfolding take
take_nil zero = refl
take_nil (suc n) = refl

take-append :
    (n : ℕ) (s : List String) (m : String)
    → take n (s ++ m ∷ []) ≡ (if ltb (length (take n s)) n then take n s ++ m ∷ [] else take n s)
unfolding take
take-append zero s m = ground arith
take-append (suc n) [] m = rw (take_nil n, lt→ltb 0 (suc n) (omega arith)) refl
take-append (suc n) (x ∷ s) m = ground (arith, take-append n s m)

-- The cut at `n` of the distinct methods grows the way the allow-list grows.
take-add : (n : ℕ) (s : List String) (m : String) → take n (add s m) ≡ admitted n (take n s) m
unfolding add
take-add n s m = elim (Bool-cases (contains s m)) [
  | inl old ↦ elim (Bool-cases (contains (take n s) m)) [
    | inl kept ↦ rw (old, kept) refl
    | inr gone ↦ rw (old, gone, take-full n s m old gone) refl
  ]
  | inr new ↦ rw (new, contains-take n s m new) (take-append n s m)
]

-- The allow-list of each class is the cut at the limit of the methods in `seen`.
abbrev IsCut : MetricsRegistry → (String → List String) → Type 0
IsCut r seen = (name : String) → allowed_of r name ≡ take r.method_limit (seen name)

abbrev saw : (String → List String) → String → String → String → List String
saw seen name m other = if name == other then add (seen other) m else seen other

allowed_set :
    (m : Map String (List String)) (name other : String) (l : List String)
    → get_or (get (set m name l) other) [] ≡ (if name == other then l else get_or (get m other) [])
allowed_set m name other l = rw get-set (ground arith)

methods-warn_overflow :
    (r : MetricsRegistry) (name m : String)
    → (warn_overflow r name m).methods_by_class ≡ r.methods_by_class
unfolding warn_overflow
methods-warn_overflow r name m = ground arith

-- What `bucketMethod` does to the allow-lists
allowed-bucket_method :
    (r : MetricsRegistry) (name m other : String)
    → allowed_of (bucket_method r name m).1 other ≡ (
        if name == other then admitted r.method_limit (allowed_of r name) m else allowed_of r other)
unfolding bucket_method
allowed-bucket_method r name m other = elim (Bool-cases (contains (allowed_of r name) m)) [
  | inl old ↦ rw (old, allowed_set) refl
  | inr new ↦ elim (Bool-cases (ltb (length (allowed_of r name)) r.method_limit)) [
    | inl room ↦ rw (new, room, allowed_set) refl
    | inr full ↦ rw (new, full, methods-warn_overflow, allowed_set) refl
  ]
]

limit-record_call :
    (r : MetricsRegistry) (name m : String) (o : CallOutcome)
    → (record_call r name m o).method_limit ≡ r.method_limit
unfolding record_call bucket_method warn_overflow
limit-record_call r name m o = ground arith

record_call-IsCut :
    (r : MetricsRegistry) (seen : String → List String) (name m : String) (o : CallOutcome)
    → IsCut r seen
    → IsCut (record_call r name m o) (saw seen name m)
unfolding record_call
record_call-IsCut r seen name m o h other = elim (Bool-cases (name == other)) [
  | inl same ↦
      let eq : name ≡ other = (string_keyed.same_key_iff name other).0 same in
      let cut : allowed_of r name ≡ take r.method_limit (seen other) =
        h name ∙ ap (λ x. take r.method_limit (seen x)) eq in
      rw (limit-record_call r name m o, same)
        (allowed-bucket_method r name m other
          ∙ rw (same, cut) (sym (take-add r.method_limit (seen other) m)))
  | inr differs ↦
      rw (limit-record_call r name m o, differs)
        (allowed-bucket_method r name m other ∙ rw differs (h other))
]

record_calls-IsCut :
    (r : MetricsRegistry) (seen : String → List String) (cs : List CallLabels)
    → IsCut r seen
    → IsCut (record_calls r cs) (λ name. distinct name (seen name) cs)
unfolding record_calls distinct
record_calls-IsCut r seen [] h = h
record_calls-IsCut r seen (c ∷ cs) h =
    record_calls-IsCut (record_call r c.class_name c.method c.outcome)
      (saw seen c.class_name c.method) cs
      (record_call-IsCut r seen c.class_name c.method c.outcome h)

limit-record_calls :
    (r : MetricsRegistry) (cs : List CallLabels) → (record_calls r cs).method_limit ≡ r.method_limit
unfolding record_calls
limit-record_calls r [] = refl
limit-record_calls r (c ∷ cs) =
    limit-record_calls (record_call r c.class_name c.method c.outcome) cs
    ∙ limit-record_call r c.class_name c.method c.outcome

-- The methods that pass as labels of a class are the first `methodLimit` distinct ones that were called.
pub allowed-record_calls :
    (limit : Option ℕ) (cs : List CallLabels) (name : String)
    → allowed_of (record_calls (new_metrics limit) cs) name
      ≡ take (get_or limit 50) (distinct name [] cs)
unfolding get
allowed-record_calls limit cs name =
    record_calls-IsCut (new_metrics limit) (λ n. []) cs (λ n. sym (take_nil (get_or limit 50))) name
    ∙ rw limit-record_calls refl

-- There are never more than `methodLimit` of them.
allowed-bounded :
    (limit : Option ℕ) (cs : List CallLabels) (name : String)
    → length (allowed_of (record_calls (new_metrics limit) cs) name) ≤ get_or limit 50
allowed-bounded limit cs name =
    rw allowed-record_calls (length-take (get_or limit 50) (distinct name [] cs))

contains_last : (s : List String) (m : String) → contains (add s m) m ≡ true
contains_last s m = rw (contains-add, ==-refl m) refl

admitted-label :
    (n : ℕ) (allowed : List String) (m : String)
    → (if contains allowed m then m else if ltb (length allowed) n then m else "_other")
      ≡ (if contains (admitted n allowed m) m then m else "_other")
admitted-label n allowed m = elim (Bool-cases (contains allowed m)) [
  | inl old ↦ rw (old, old) refl
  | inr new ↦ elim (Bool-cases (ltb (length allowed) n)) [
    | inl room ↦ rw (new, room, contains_last allowed m) refl
    | inr full ↦ rw (new, full, new) refl
  ]
]

bucket_method-label :
    (r : MetricsRegistry) (name m : String)
    → (bucket_method r name m).0 ≡ (
        if contains (allowed_of r name) m
        then m
        else if ltb (length (allowed_of r name)) r.method_limit
        then m
        else "_other")
unfolding bucket_method
bucket_method-label r name m = ground arith

counted-bucket_method :
    (r : MetricsRegistry) (name m : String) → (bucket_method r name m).1.counted ≡ r.counted
unfolding bucket_method warn_overflow
counted-bucket_method r name m = ground arith

-- A method that the allow-list holds after its call is its own label, and any other is `_other`.
label-bucket_method :
    (r : MetricsRegistry) (name m : String)
    → (bucket_method r name m).0
      ≡ (if contains (allowed_of (bucket_method r name m).1 name) m then m else "_other")
label-bucket_method r name m =
    bucket_method-label r name m
    ∙ admitted-label r.method_limit (allowed_of r name) m
    ∙ rw (allowed-bucket_method, ==-refl name) refl

record_calls-append :
    (r : MetricsRegistry) (cs : List CallLabels) (c : CallLabels)
    → record_calls r (cs ++ c ∷ [])
      ≡ record_call (record_calls r cs) c.class_name c.method c.outcome
unfolding record_calls
record_calls-append r [] c = refl
record_calls-append r (d ∷ cs) c =
    record_calls-append (record_call r d.class_name d.method d.outcome) cs c

-- The label under which the last of the calls is counted
abbrev label_of : ℕ → List CallLabels → CallLabels → String
label_of limit cs c =
    if contains (take limit (distinct c.class_name [] (cs ++ c ∷ []))) c.method
    then c.method
    else "_other"

counted-record_call :
    (r : MetricsRegistry) (name m : String) (o : CallOutcome)
    → (record_call r name m o).counted
      ≡ (record {
        class_name = name;
        method = (if contains (allowed_of (record_call r name m o) name) m then m else "_other");
        outcome = o;
      })
        ∷ r.counted
unfolding record_call
counted-record_call r name m o = rw (sym (label-bucket_method r name m), counted-bucket_method) refl

-- Each call is counted once, after the earlier ones: under its own method when that is among the first
-- `methodLimit` distinct methods that were called on its class so far, itself included, and under `_other`
-- otherwise.
pub record_calls-label :
    (limit : Option ℕ) (cs : List CallLabels) (c : CallLabels)
    → (record_calls (new_metrics limit) (cs ++ c ∷ [])).counted
      ≡ record c { method = label_of (get_or limit 50) cs c }
        ∷ (record_calls (new_metrics limit) cs).counted
record_calls-label limit cs c =
    rw
      (
        record_calls-append,
        counted-record_call,
        sym (record_calls-append (new_metrics limit) cs c),
        allowed-record_calls,
      )
      refl
