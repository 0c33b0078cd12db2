-- ===== src/Registry/Resolver/Visit.antt =====
-- What one turn of the loop of src/registry/resolver.ts leaves.
use actjs.Prelude.{
  ◌≤◌, leb→le, ◌⊎◌, ◌*◌, ℕ, suc, String, ◌≡◌, refl, ap, Bool, true, Option, none, some, List, [],
  length, leb, ltb, Bool-cases, inl, inr,
}
use actjs.Registry.Resolver.{
  with_constraint, depth_exceeded, nodes_exceeded, deps_of, fetched, is_picked, picked_step, Walk,
  QueueEntry, ResolverError, pick_highest, visit,
}
use actjs.Prelude.Outcome.{Outcome, ok, throw}
use actjs.Prelude.Keys.{string_keyed, nat_keyed}
use actjs.Prelude.Map.{get, set}
use actjs.Storage.Types.{ClassVersionRecord}
use actjs.Registry.Resolver.Candidates.{IsCandidate, pick_highest-IsCandidate}

module _ (satisfies : String → String → Bool) (rcompare_le : String → String → Bool)
    (catalog : String → Outcome ResolverError (List ClassVersionRecord)) where
  abbrev constrained : QueueEntry → Walk → Walk
  constrained node w = record w {
    constraints =
        set w.constraints node.name (with_constraint satisfies rcompare_le catalog node w);
  }

  abbrev repicked : QueueEntry → Walk → ClassVersionRecord → Walk
  repicked node w v = record (constrained node w) {
    picked = set w.picked node.name v.version;
    nodes = suc w.nodes;
  }

  -- A turn that did not throw: it keeps the version that is picked, or it picks another, which takes
  -- one of the nodes and enqueues the dependencies.
  pub record Visited (max_nodes : ℕ) (node : QueueEntry) (w w' : Walk) (more : List QueueEntry)
      : Type 0 where
    pub versions : List ClassVersionRecord
    pub listed : catalog node.name ≡ ok versions
    pub row : ClassVersionRecord
    pub candidate :
        IsCandidate satisfies rcompare_le catalog versions
          (with_constraint satisfies rcompare_le catalog node w)
          row
    pub left :
        ((get w.picked node.name ≡ some row.version) × ((constrained node w ≡ w') × (more ≡ [])))
        ⊎ ((suc w.nodes ≤ max_nodes)
            × ((repicked node w row ≡ w')
                × (more ≡ deps_of satisfies rcompare_le catalog node row row.deps)))

  prior_lem :
      (version : String) (o : Option String)
      → is_picked satisfies rcompare_le catalog version o ≡ true
      → o ≡ some version
  prior_lem version none h = cc
  prior_lem version (some prior) h = ap some ((string_keyed.same_key_iff prior version).0 h)

  picked_step-Visited :
      (max_nodes : ℕ) (node : QueueEntry) (w w' : Walk) (more : List QueueEntry)
      (versions : List ClassVersionRecord) (o : Option ClassVersionRecord)
      → catalog node.name ≡ ok versions
      → pick_highest satisfies rcompare_le catalog versions
          (with_constraint satisfies rcompare_le catalog node w)
        ≡ o
      → picked_step satisfies rcompare_le catalog max_nodes node
          (with_constraint satisfies rcompare_le catalog node w)
          w
          o
        ≡ ok (w', more)
      → Visited max_nodes node w w' more
  picked_step-Visited max_nodes node w w' more versions none listed picked done = cc
  picked_step-Visited max_nodes node w w' more versions (some v) listed picked done =
      let cs = with_constraint satisfies rcompare_le catalog node w in
      record {
        versions = versions;
        listed = listed;
        row = v;
        candidate = pick_highest-IsCandidate satisfies rcompare_le catalog versions cs v picked;
        left =
            elim (Bool-cases
              (is_picked satisfies rcompare_le catalog v.version (get w.picked node.name))) [
                | inl again ↦
                    let end : ◌≡◌ {A = Outcome ResolverError (Walk × List QueueEntry)}
                        (ok (constrained node w, [])) (ok (w', more)) =
                      rw again at done in
                    inl (prior_lem v.version (get w.picked node.name) again, (cc, cc))
                | inr fresh ↦ elim (Bool-cases (leb (suc w.nodes) max_nodes)) [
                  | inl room ↦
                      let end : ◌≡◌ {A = Outcome ResolverError (Walk × List QueueEntry)}
                          (ok (
                            repicked node w v,
                            deps_of satisfies rcompare_le catalog node v v.deps,
                          ))
                          (ok (w', more)) =
                        rw (fresh, room) at done in
                      inr (leb→le (suc w.nodes) max_nodes room, (cc, cc))
                  | inr full ↦
                      (let no : ◌≡◌ {A = Outcome ResolverError (Walk × List QueueEntry)}
                            (throw (nodes_exceeded max_nodes)) (ok (w', more)) =
                          rw (fresh, full) at done in
                        cc)
                ]
              ];
      }

  fetched-Visited :
      (max_nodes : ℕ) (node : QueueEntry) (w w' : Walk) (more : List QueueEntry)
      (o : Outcome ResolverError (List ClassVersionRecord))
      → catalog node.name ≡ o
      → fetched satisfies rcompare_le catalog max_nodes node
          (with_constraint satisfies rcompare_le catalog node w)
          w
          o
        ≡ ok (w', more)
      → Visited max_nodes node w w' more
  fetched-Visited max_nodes node w w' more (throw e) listed done = cc
  fetched-Visited max_nodes node w w' more (ok versions) listed done =
      picked_step-Visited max_nodes node w w' more versions
        (pick_highest satisfies rcompare_le catalog versions
          (with_constraint satisfies rcompare_le catalog node w))
        listed refl done

  pub visit-Visited :
      (max_depth max_nodes : ℕ) (node : QueueEntry) (w w' : Walk) (more : List QueueEntry)
      → visit satisfies rcompare_le catalog max_depth max_nodes node w ≡ ok (w', more)
      → Visited max_nodes node w w' more
  unfolding visit
  visit-Visited max_depth max_nodes node w w' more done =
      elim (Bool-cases (ltb (max_depth * 2) (length node.path))) [
        | inl deep ↦
            (let no : ◌≡◌ {A = Outcome ResolverError (Walk × List QueueEntry)}
                  (throw (depth_exceeded max_depth)) (ok (w', more)) =
                rw deep at done in
              cc)
        | inr flat ↦
            fetched-Visited max_nodes node w w' more (catalog node.name) refl (rw flat at done)
      ]
