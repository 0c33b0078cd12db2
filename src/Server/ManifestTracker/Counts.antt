-- ===== src/Server/ManifestTracker/Counts.antt =====
-- The counts that src/server/manifest-tracker.ts keeps are exact.
use actjs.Prelude.{
  leb→le, ◌⊎◌, subst, Option-cases, ℕ, suc, ◌+◌, ◌≤◌, String, ◌≡◌, refl, ap, sym, ◌∙◌, true, false,
  Option, none, some, List, [], ◌∷◌, length, leb, arith, if◌then◌else◌, Bool-cases, inl, inr,
  fun_ext,
}
use actjs.Prelude.Keys.{string_keyed, nat_keyed, ◌==◌}
use actjs.Prelude.Map.{Map, get, set}
use actjs.Prelude.Map.Laws.{get-set}
use actjs.Server.ManifestTracker.{Tracker, Entry, record_sha, new_tracker}

-- A request: its time, its sha, and what the sha stands for
pub record Request : Type 0 where
  pub now : ℕ
  pub sha : String
  pub resolved : Option (Map String String)

-- `record` for each request in turn
unfoldable pub record_all : Tracker → List Request → Tracker
record_all t [] = t
record_all t (r ∷ rs) = record_all (record_sha t r.now r.sha r.resolved) rs

-- The requests with this sha
unfoldable pub occurrences : String → List Request → ℕ
occurrences sha [] = 0
occurrences sha (r ∷ rs) = let rest = occurrences sha rs in if r.sha == sha then suc rest else rest

unfoldable pub total : Map String Entry → ℕ
total [] = 0
total ((k, e) ∷ m) = e.count + total m

abbrev pub count_of : Option Entry → ℕ
count_of none = 0
count_of (some e) = e.count

total-set :
    (m : Map String Entry) (k : String) (e : Entry)
    → total (set m k e) + count_of (get m k) ≡ total m + e.count
unfolding total get set
total-set [] k e = omega arith
total-set ((j, f) ∷ m) k e = elim (Bool-cases (j == k)) [
  | inl same ↦ rw same (omega arith)
  | inr other ↦ rw other (omega (arith, total-set m k e))
]

length-set_old :
    (m : Map String Entry) (k : String) (e f : Entry)
    → get m k ≡ some f
    → length (set m k e) ≡ length m
unfolding get set
length-set_old [] k e f h = cc
length-set_old ((j, g) ∷ m) k e f h = elim (Bool-cases (j == k)) [
  | inl same ↦ rw same refl
  | inr other ↦ rw other (ap suc (length-set_old m k e f (rw other at h)))
]

length-set_new :
    (m : Map String Entry) (k : String) (e : Entry)
    → get m k ≡ none
    → length (set m k e) ≡ suc (length m)
unfolding get set
length-set_new [] k e h = refl
length-set_new ((j, g) ∷ m) k e h = elim (Bool-cases (j == k)) [
  | inl same ↦ (let no : some g ≡ none = rw same at h in cc)
  | inr other ↦ rw other (ap suc (length-set_new m k e (rw other at h)))
]

-- What is counted so far: in the entries, whose number is bounded, and in the rest
pub record IsWithin (t : Tracker) (requests : ℕ) : Type 0 where
  pub counted : total t.entries + t.other_count ≡ requests
  pub bounded : length t.entries ≤ t.max_shas

record_sha-IsWithin :
    (t : Tracker) (r : Request) (n : ℕ)
    → IsWithin t n
    → IsWithin (record_sha t r.now r.sha r.resolved) (suc n)
unfolding record_sha total
record_sha-IsWithin t r n h = elim (Option-cases (get t.entries r.sha)) [
  | inr (old, there) ↦
      let new : Entry = record old { count = suc old.count; last_seen = r.now } in
      let after : record_sha t r.now r.sha r.resolved
          ≡ record t { entries = set t.entries r.sha new } =
        rw (record_sha, there) refl in
      subst (λ x. IsWithin x (suc n)) (sym after)
        (record {
          counted =
              (let sums = rw there at (total-set t.entries r.sha new) in
                omega (arith, sums, h.counted));
          bounded = rw (length-set_old t.entries r.sha new old there) h.bounded;
        })
  | inl missing ↦ elim (Bool-cases (leb t.max_shas (length t.entries))) [
    | inl full ↦
        let after : record_sha t r.now r.sha r.resolved
            ≡ record t { other_count = suc t.other_count; other_last_seen = r.now } =
          rw (record_sha, missing, full) refl in
        subst (λ x. IsWithin x (suc n)) (sym after)
          (record { counted = omega (arith, h.counted); bounded = h.bounded })
    | inr room ↦
        let new : Entry = record { count = 1; last_seen = r.now; resolved = r.resolved } in
        let after : record_sha t r.now r.sha r.resolved
            ≡ record t { entries = set t.entries r.sha new } =
          rw (record_sha, missing, room) refl in
        subst (λ x. IsWithin x (suc n)) (sym after)
          (record {
            counted =
                (let sums = rw missing at (total-set t.entries r.sha new) in
                  omega (arith, sums, h.counted));
            bounded = rw (length-set_new t.entries r.sha new missing) (ground (arith, room));
          })
  ]
]

record_all-IsWithin :
    (t : Tracker) (rs : List Request) (n : ℕ)
    → IsWithin t n
    → IsWithin (record_all t rs) (n + length rs)
unfolding record_all
record_all-IsWithin t [] n h = subst (IsWithin t) (omega arith) h
record_all-IsWithin t (r ∷ rs) n h = subst (IsWithin (record_all t (r ∷ rs))) (omega arith) (
    record_all-IsWithin (record_sha t r.now r.sha r.resolved) rs (suc n)
      (record_sha-IsWithin t r n h))

-- A tracker that started empty counts each request once, under its sha or under `_other`, and never tracks
-- more than `maxShas` shas.
pub record_all-IsWithin_total :
    (max_shas : Option ℕ) (rs : List Request)
    → IsWithin (record_all (new_tracker max_shas) rs) (length rs)
unfolding total
record_all-IsWithin_total max_shas rs =
    subst (IsWithin (record_all (new_tracker max_shas) rs)) (omega arith) (
      record_all-IsWithin (new_tracker max_shas) rs 0
        (record { counted = refl; bounded = omega arith }))

nothing_there : (sha : String) (e : Entry) → get {V = Entry} [] sha ≡ some e → e.count ≡ 0
unfolding get
nothing_there sha e h = cc

-- `n` gives the requests so far: a tracked sha has their number, and a sha that is not tracked has none
-- unless the tracker is full.
record IsExact (t : Tracker) (n : String → ℕ) : Type 0 where
  tracked : (sha : String) (e : Entry) → get t.entries sha ≡ some e → e.count ≡ n sha
  untracked :
      (sha : String) → get t.entries sha ≡ none → (n sha ≡ 0) ⊎ (t.max_shas ≤ length t.entries)

abbrev bumped : (String → ℕ) → String → String → ℕ
bumped n sha other = if sha == other then suc (n other) else n other

-- An entry with the new count makes the tracker exact again.
set-IsExact :
    (t : Tracker) (n : String → ℕ) (sha : String) (e : Entry)
    → IsExact t n
    → e.count ≡ suc (n sha)
    → length t.entries ≤ length (set t.entries sha e)
    → IsExact (record t { entries = set t.entries sha e }) (bumped n sha)
set-IsExact t n sha e h new grows = record {
  tracked = λ other f there. elim (Bool-cases (sha == other)) [
    | inl same ↦
        let eq : sha ≡ other = (string_keyed.same_key_iff sha other).0 same in
        let is : e ≡ f = ground (arith, get-set t.entries sha other e, there, same) in
        let count : e.count ≡ suc (n other) = subst (λ s. e.count ≡ suc (n s)) eq new in
        rw same (ap (λ x. x.count) (sym is) ∙ count)
    | inr differs ↦
        rw differs
          (h.tracked other f (ground (arith, get-set t.entries sha other e, there, differs)))
  ];
  untracked = λ other missing. elim (Bool-cases (sha == other)) [
    | inl same ↦
        (let no : some e ≡ none = ground (arith, get-set t.entries sha other e, missing, same) in
          cc)
    | inr differs ↦
        elim (h.untracked other (ground (arith, get-set t.entries sha other e, missing, differs))) [
          | inl zero_yet ↦ inl (rw differs zero_yet)
          | inr full ↦ inr (omega (arith, full, grows))
        ]
  ];
}

record_sha-IsExact :
    (t : Tracker) (n : String → ℕ) (r : Request)
    → IsExact t n
    → IsExact (record_sha t r.now r.sha r.resolved) (bumped n r.sha)
unfolding record_sha
record_sha-IsExact t n r h = elim (Option-cases (get t.entries r.sha)) [
  | inr (old, there) ↦
      let new : Entry = record old { count = suc old.count; last_seen = r.now } in
      let after : record_sha t r.now r.sha r.resolved
          ≡ record t { entries = set t.entries r.sha new } =
        rw (record_sha, there) refl in
      subst (λ x. IsExact x (bumped n r.sha)) (sym after)
        (set-IsExact t n r.sha new h (ap suc (h.tracked r.sha old there))
          (rw (length-set_old t.entries r.sha new old there) (omega arith)))
  | inl missing ↦ elim (Bool-cases (leb t.max_shas (length t.entries))) [
    | inl full ↦
        let after : record_sha t r.now r.sha r.resolved
            ≡ record t { other_count = suc t.other_count; other_last_seen = r.now } =
          rw (record_sha, missing, full) refl in
        subst (λ x. IsExact x (bumped n r.sha)) (sym after)
          (record {
            tracked = λ other f there. elim (Bool-cases (r.sha == other)) [
              | inl same ↦
                  (let eq : r.sha ≡ other = (string_keyed.same_key_iff r.sha other).0 same in
                    let no : none ≡ some f = sym missing ∙ ap (get t.entries) eq ∙ there in cc)
              | inr differs ↦ rw differs (h.tracked other f there)
            ];
            untracked = λ other gone. inr (leb→le t.max_shas (length t.entries) full);
          })
    | inr room ↦
        let new : Entry = record { count = 1; last_seen = r.now; resolved = r.resolved } in
        let after : record_sha t r.now r.sha r.resolved
            ≡ record t { entries = set t.entries r.sha new } =
          rw (record_sha, missing, room) refl in
        let none_yet : n r.sha ≡ 0 = elim (h.untracked r.sha missing) [
          | inl z ↦ z
          | inr full ↦ (let no : true ≡ false = ground (arith, room, full) in cc)
        ] in
        subst (λ x. IsExact x (bumped n r.sha)) (sym after)
          (set-IsExact t n r.sha new h (ap suc (sym none_yet))
            (rw (length-set_new t.entries r.sha new missing) (omega arith)))
  ]
]

record_all-IsExact :
    (t : Tracker) (n : String → ℕ) (rs : List Request)
    → IsExact t n
    → IsExact (record_all t rs) (λ sha. n sha + occurrences sha rs)
unfolding record_all occurrences
record_all-IsExact t n [] h = subst (IsExact t) (fun_ext (λ sha. omega arith)) h
record_all-IsExact t n (r ∷ rs) h =
    subst (IsExact (record_all t (r ∷ rs))) (fun_ext (λ sha. ground arith)) (
      record_all-IsExact (record_sha t r.now r.sha r.resolved) (bumped n r.sha) rs
        (record_sha-IsExact t n r h))

-- A sha that is tracked has the exact number of its requests, also when others went to `_other`.
pub record_all-tracked :
    (max_shas : Option ℕ) (rs : List Request) (sha : String) (e : Entry)
    → get (record_all (new_tracker max_shas) rs).entries sha ≡ some e
    → e.count ≡ occurrences sha rs
record_all-tracked max_shas rs sha e there =
    (record_all-IsExact (new_tracker max_shas) (λ s. 0) rs
        (record { tracked = λ s f h. nothing_there s f h; untracked = λ s h. inl refl })).tracked
      sha e there
    ∙ omega arith
