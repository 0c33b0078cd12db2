-- ===== src/Registry/Resolver/Closure.antt =====
-- A resolved manifest of src/registry/resolver.ts is closed under dependencies.
use actjs.Registry.Resolver.Grown.{ranges_of, IsCovered, has_range, waits}
use actjs.Registry.Resolver.{
  at_range, entry_of, ResolveRoot, deps_of, Walk, QueueEntry, ResolverError, AccumulatedRange,
  Resolution, resolved, failed, satisfies_all, visit, walk, resolve,
}
use actjs.Registry.Resolver.Pinned.{IsPinned, resolve-IsPinned}
use actjs.Prelude.Map.{get, set}
use actjs.Prelude.Map.Laws.{get-set}
use actjs.Prelude.{
  subst, ℕ, zero, suc, String, ◌≡◌, ap, sym, ◌∙◌, Bool, true, Option, some, List, [], ◌∷◌, ◌++◌,
  map, get_or, arith, Bool-cases, inl, inr, All,
}
use actjs.Prelude.Outcome.{Outcome-cases, Outcome, ok}
use actjs.Prelude.Keys.{string_keyed, nat_keyed, ◌==◌}
use actjs.Storage.Types.{ClassVersionRecord}
use actjs.Registry.Resolver.Visit.{Visited, visit-Visited}
use actjs.Registry.Resolver.Grown.{
  has_range, waits, ranges_of, or_right, or_cases, waits-append, waits-map_All, All-imp, IsCovered,
  Grown, visit-Grown, covered-visit,
}

module _ (satisfies : String → String → Bool) (rcompare_le : String → String → Bool)
    (catalog : String → Outcome ResolverError (List ClassVersionRecord)) where
  -- The dependencies of a published row with this version are covered.
  pub record IsClosedAt (queue : List QueueEntry) (w : Walk) (name version : String) : Type 0 where
    pub versions : List ClassVersionRecord
    pub listed : catalog name ≡ ok versions
    pub row : ClassVersionRecord
    pub before : List ClassVersionRecord
    pub behind : List ClassVersionRecord
    pub published : versions ≡ before ++ row ∷ behind
    pub is_row : row.version ≡ version
    pub covered : All (λ d. IsCovered satisfies rcompare_le catalog queue w d.0 d.1) row.deps

  abbrev pub IsClosed : List QueueEntry → Walk → Type 0
  IsClosed queue w =
      (name version : String) → get w.picked name ≡ some version → IsClosedAt queue w name version

  closed_on :
      (node : QueueEntry) (queue more : List QueueEntry) (w w' : Walk) (name version : String)
      → Grown satisfies rcompare_le catalog node w w'
      → IsClosedAt (node ∷ queue) w name version
      → IsClosedAt (queue ++ more) w' name version
  closed_on node queue more w w' name version g c = record {
    versions = c.versions;
    listed = c.listed;
    row = c.row;
    before = c.before;
    behind = c.behind;
    published = c.published;
    is_row = c.is_row;
    covered =
        All-imp (λ d. IsCovered satisfies rcompare_le catalog (node ∷ queue) w d.0 d.1)
          (λ d. IsCovered satisfies rcompare_le catalog (queue ++ more) w' d.0 d.1) c.row.deps
          (λ d h. covered-visit satisfies rcompare_le catalog node queue more w w' d.0 d.1 g h)
          c.covered;
  }

  enqueued :
      (node : QueueEntry) (queue : List QueueEntry) (w : Walk) (v : ClassVersionRecord)
      → All
          (λ d.
            IsCovered satisfies rcompare_le catalog
              (queue ++ deps_of satisfies rcompare_le catalog node v v.deps)
              w
              d.0
              d.1)
          v.deps
  enqueued node queue w v =
      All-imp (λ d. waits (deps_of satisfies rcompare_le catalog node v v.deps) d.0 d.1 ≡ true)
        (λ d.
          IsCovered satisfies rcompare_le catalog
            (queue ++ deps_of satisfies rcompare_le catalog node v v.deps) w d.0 d.1)
        v.deps
        (λ d h. inl (
          rw (waits-append queue (deps_of satisfies rcompare_le catalog node v v.deps) d.0 d.1)
            (or_right (waits queue d.0 d.1) _ h)))
        (waits-map_All
          (λ (d : String × String). record {
            name = d.0;
            range = d.1;
            path = node.path ++ at_range node.name v.version ∷ at_range d.0 d.1 ∷ [];
          })
          v.deps)

  visit-IsClosed :
      (max_nodes : ℕ) (node : QueueEntry) (queue more : List QueueEntry) (w w' : Walk)
      → IsClosed (node ∷ queue) w
      → Visited satisfies rcompare_le catalog max_nodes node w w' more
      → IsClosed (queue ++ more) w'
  visit-IsClosed max_nodes node queue more w w' h t name version e =
      let g = visit-Grown satisfies rcompare_le catalog max_nodes node w w' more t in
      elim t.left [
        | inl again ↦
            let old : get w.picked name ≡ some version =
              ap (λ x. get x.picked name) again.1.0 ∙ e in
            closed_on node queue more w w' name version g (h name version old)
        | inr fresh ↦
            let there : get (set w.picked node.name t.row.version) name ≡ some version =
              ap (λ x. get x.picked name) fresh.1.0 ∙ e in
            elim (Bool-cases (node.name == name)) [
              | inl here ↦
                  let n : node.name ≡ name = (string_keyed.same_key_iff node.name name).0 here in
                  let v : t.row.version ≡ version =
                    ground (arith, get-set w.picked node.name name t.row.version, there, here) in
                  record {
                    versions = t.versions;
                    listed = rw (← n) t.listed;
                    row = t.row;
                    before = t.candidate.before;
                    behind = t.candidate.behind;
                    published = t.candidate.published;
                    is_row = v;
                    covered =
                        subst
                          (λ m.
                            All
                              (λ d. IsCovered satisfies rcompare_le catalog (queue ++ m) w' d.0 d.1)
                              t.row.deps)
                          (sym fresh.1.1) (enqueued node queue w' t.row);
                  }
              | inr other ↦
                  let old : get w.picked name ≡ some version =
                    ground (arith, get-set w.picked node.name name t.row.version, there, other) in
                  closed_on node queue more w w' name version g (h name version old)
            ]
      ]

  -- The walk is closed when the queue is empty, and what was covered is recorded.
  walk-IsClosed :
      (fuel max_depth max_nodes : ℕ) (queue : List QueueEntry) (w w' : Walk)
      → IsClosed queue w
      → walk satisfies rcompare_le catalog fuel max_depth max_nodes queue w ≡ resolved w'
      → IsClosed [] w'
        × ((name range : String)
            → IsCovered satisfies rcompare_le catalog queue w name range
            → IsCovered satisfies rcompare_le catalog [] w' name range)
  unfolding walk
  walk-IsClosed fuel max_depth max_nodes [] w w' h done =
      let same : w ≡ w' = cc in
      subst
        (λ x.
          IsClosed [] x
          × ((name range : String)
              → IsCovered satisfies rcompare_le catalog [] w name range
              → IsCovered satisfies rcompare_le catalog [] x name range))
        same (h, λ name range c. c)
  walk-IsClosed zero max_depth max_nodes (node ∷ queue) w w' h done = cc
  walk-IsClosed (suc fuel) max_depth max_nodes (node ∷ queue) w w' h done =
      elim (Outcome-cases (visit satisfies rcompare_le catalog max_depth max_nodes node w)) [
        | inl (e, thrown) ↦
            (let no : ◌≡◌ {A = Resolution Walk} (failed e) (resolved w') =
                rw (walk, thrown) at done in
              cc)
        | inr (r, went) ↦
            let t =
              visit-Visited satisfies rcompare_le catalog max_depth max_nodes node w r.0 r.1 went in
            let rest =
              walk-IsClosed fuel max_depth max_nodes (queue ++ r.1) r.0 w'
                (visit-IsClosed max_nodes node queue r.1 w r.0 h t) (rw (walk, went) at done) in
            (
              rest.0,
              λ name range c. rest.1 name range (
                  covered-visit satisfies rcompare_le catalog node queue r.1 w r.0 name range
                    (visit-Grown satisfies rcompare_le catalog max_nodes node w r.0 r.1 t) c),
            )
      ]

  satisfies-has_range :
      (version : String) (cs : List AccumulatedRange) (range : String)
      → satisfies_all satisfies rcompare_le catalog version cs ≡ true
      → has_range cs range ≡ true
      → satisfies version range ≡ true
  unfolding satisfies_all has_range
  satisfies-has_range version [] range h k = cc
  satisfies-has_range version (c ∷ cs) range h k =
      elim (or_cases (c.range == range) (has_range cs range) k) [
        | inl here ↦
            let eq : c.range ≡ range = (string_keyed.same_key_iff c.range range).0 here in
            subst (λ r. satisfies version r ≡ true) eq (ground (arith, h))
        | inr later ↦ satisfies-has_range version cs range (ground (arith, h)) later
      ]

  -- A version of the class is picked, and it satisfies the range.
  abbrev pub IsMet : Walk → String → String → Type 0
  IsMet w name range =
      (version : String) × ((get w.picked name ≡ some version) × (satisfies version range ≡ true))

  covered-IsMet :
      (w : Walk) (name range : String)
      → ((n v : String) → get w.picked n ≡ some v → IsPinned satisfies rcompare_le catalog w n v)
      → IsCovered satisfies rcompare_le catalog [] w name range
      → IsMet w name range
  unfolding waits
  covered-IsMet w name range pins (inl h) = cc
  covered-IsMet w name range pins (inr h) =
      let pin = pins name h.1.0 h.1.1 in
      (
        h.1.0,
        (
          h.1.1,
          satisfies-has_range h.1.0 (ranges_of w name) range
              (rw pin.is_row at pin.candidate.satisfying) h.0,
        ),
      )

  -- A published row of this version, all of whose dependencies are met in the manifest
  pub record IsInstalled (w : Walk) (name version : String) : Type 0 where
    pub versions : List ClassVersionRecord
    pub listed : catalog name ≡ ok versions
    pub row : ClassVersionRecord
    pub before : List ClassVersionRecord
    pub behind : List ClassVersionRecord
    pub published : versions ≡ before ++ row ∷ behind
    pub is_row : row.version ≡ version
    pub met : All (λ d. IsMet w d.0 d.1) row.deps

  pub resolve-IsInstalled :
      (fuel : ℕ) (roots : List ResolveRoot) (max_depth max_nodes : Option ℕ) (w : Walk)
      (name version : String)
      → resolve satisfies rcompare_le catalog fuel roots max_depth max_nodes ≡ resolved w
      → get w.picked name ≡ some version
      → All (λ r. IsMet w r.name r.range) roots × IsInstalled w name version
  unfolding resolve get
  resolve-IsInstalled fuel roots max_depth max_nodes w name version done picked =
      let pins = λ (n v : String) (e : get w.picked n ≡ some v).
        resolve-IsPinned satisfies rcompare_le catalog fuel roots max_depth max_nodes w n v done
          e in
      let end =
        walk-IsClosed fuel (get_or max_depth 16) (get_or max_nodes 256) (map entry_of roots)
          (record { constraints = []; picked = []; nodes = 0 }) w (λ n v e. cc) done in
      (
        All-imp (λ r. waits (map entry_of roots) r.name r.range ≡ true)
            (λ r. IsMet w r.name r.range) roots
            (λ r h. covered-IsMet w r.name r.range pins (end.1 r.name r.range (inl h)))
            (waits-map_All entry_of roots),
        let c = end.0 name version picked in
            record {
              versions = c.versions;
              listed = c.listed;
              row = c.row;
              before = c.before;
              behind = c.behind;
              published = c.published;
              is_row = c.is_row;
              met =
                  All-imp (λ d. IsCovered satisfies rcompare_le catalog [] w d.0 d.1)
                    (λ d. IsMet w d.0 d.1) c.row.deps (λ d h. covered-IsMet w d.0 d.1 pins h)
                    c.covered;
            },
      )
