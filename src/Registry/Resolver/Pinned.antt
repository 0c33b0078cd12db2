-- ===== src/Registry/Resolver/Pinned.antt =====
-- What a resolved manifest of src/registry/resolver.ts pins.
use actjs.Registry.Resolver.{
  with_constraint, entry_of, ResolveRoot, Walk, QueueEntry, ResolverError, AccumulatedRange,
  Resolution, resolved, failed, visit, walk, resolve,
}
use actjs.Prelude.Outcome.{Outcome-cases, Outcome, ok}
use actjs.Prelude.{
  subst, ℕ, zero, suc, String, ◌≡◌, refl, ap, sym, ◌∙◌, Bool, true, false, Option, some, List, [],
  ◌∷◌, ◌++◌, map, get_or, arith, Bool-cases, inl, inr,
}
use actjs.Prelude.Keys.{string_keyed, nat_keyed, ◌==◌}
use actjs.Prelude.Map.{get, set}
use actjs.Prelude.Map.Laws.{get-set}
use actjs.Storage.Types.{ClassVersionRecord}
use actjs.Registry.Resolver.Candidates.{IsCandidate}
use actjs.Registry.Resolver.Visit.{visit-Visited}

module _ (satisfies : String → String → Bool) (rcompare_le : String → String → Bool)
    (catalog : String → Outcome ResolverError (List ClassVersionRecord)) where
  -- Each picked version is published, current, and satisfies every range that was recorded for its
  -- class.
  pub record IsPinned (w : Walk) (name version : String) : Type 0 where
    pub versions : List ClassVersionRecord
    pub listed : catalog name ≡ ok versions
    pub row : ClassVersionRecord
    pub is_row : row.version ≡ version
    pub candidate :
        IsCandidate satisfies rcompare_le catalog versions (get_or (get w.constraints name) []) row

  abbrev pub IsConsistent : Walk → Type 0
  IsConsistent w =
      (name version : String) → get w.picked name ≡ some version → IsPinned w name version

  -- A walk that has a new range of `node` and the version that was picked for it, and else is `w`
  pinned :
      (w w' : Walk) (node : QueueEntry) (versions : List ClassVersionRecord)
      (cs : List AccumulatedRange) (v : ClassVersionRecord)
      → IsConsistent w
      → catalog node.name ≡ ok versions
      → IsCandidate satisfies rcompare_le catalog versions cs v
      → w'.constraints ≡ set w.constraints node.name cs
      → ((name version : String)
          → get w'.picked name ≡ some version
          → (node.name == name) ≡ true
          → v.version ≡ version)
      → ((name version : String)
          → get w'.picked name ≡ some version
          → (node.name == name) ≡ false
          → get w.picked name ≡ some version)
      → IsConsistent w'
  pinned w w' node versions cs v h listed cand ranges here there name version e =
      elim (Bool-cases (node.name == name)) [
        | inl same ↦
            let eq : node.name ≡ name = (string_keyed.same_key_iff node.name name).0 same in
            let new : get_or (get w'.constraints name) [] ≡ cs =
              ap (λ m. get_or (get m name) []) ranges
              ∙ ap (λ o. get_or o []) (get-set w.constraints node.name name cs)
              ∙ rw same refl in
            record {
              versions = versions;
              listed = rw (← eq) listed;
              row = v;
              is_row = here name version e same;
              candidate =
                  subst (λ l. IsCandidate satisfies rcompare_le catalog versions l v) (sym new)
                    cand;
            }
        | inr other ↦
            let old = h name version (there name version e other) in
            let kept : get_or (get w'.constraints name) [] ≡ get_or (get w.constraints name) [] =
              ap (λ m. get_or (get m name) []) ranges
              ∙ ap (λ o. get_or o []) (get-set w.constraints node.name name cs)
              ∙ rw other refl in
            record {
              versions = old.versions;
              listed = old.listed;
              row = old.row;
              is_row = old.is_row;
              candidate =
                  subst (λ l. IsCandidate satisfies rcompare_le catalog old.versions l old.row)
                    (sym kept) old.candidate;
            }
      ]

  visit-IsConsistent :
      (max_depth max_nodes : ℕ) (node : QueueEntry) (w w' : Walk) (more : List QueueEntry)
      → IsConsistent w
      → visit satisfies rcompare_le catalog max_depth max_nodes node w ≡ ok (w', more)
      → IsConsistent w'
  visit-IsConsistent max_depth max_nodes node w w' more h done =
      let t = visit-Visited satisfies rcompare_le catalog max_depth max_nodes node w w' more done in
      let cs = with_constraint satisfies rcompare_le catalog node w in
      elim t.left [
        | inl again ↦ subst IsConsistent again.1.0 (
            pinned w (record w { constraints = set w.constraints node.name cs }) node t.versions cs
              t.row h t.listed t.candidate refl
              (λ name version e here.
                let eq : node.name ≡ name = (string_keyed.same_key_iff node.name name).0 here in
                let there : get w.picked name ≡ some t.row.version =
                  subst (λ n. get w.picked n ≡ some t.row.version) eq again.0 in
                cc)
              (λ name version e other. e))
        | inr fresh ↦ subst IsConsistent fresh.1.0 (
            pinned w
              (record w {
                constraints = set w.constraints node.name cs;
                picked = set w.picked node.name t.row.version;
                nodes = suc w.nodes;
              })
              node t.versions cs t.row h t.listed t.candidate refl
              (λ name version e here.
                ground (arith, get-set w.picked node.name name t.row.version, e, here))
              (λ name version e other.
                ground (arith, get-set w.picked node.name name t.row.version, e, other)))
      ]

  walk-IsConsistent :
      (fuel max_depth max_nodes : ℕ) (queue : List QueueEntry) (w w' : Walk)
      → IsConsistent w
      → walk satisfies rcompare_le catalog fuel max_depth max_nodes queue w ≡ resolved w'
      → IsConsistent w'
  unfolding walk
  walk-IsConsistent fuel max_depth max_nodes [] w w' h done =
      let same : w ≡ w' = cc in subst IsConsistent same h
  walk-IsConsistent zero max_depth max_nodes (node ∷ queue) w w' h done = cc
  walk-IsConsistent (suc fuel) max_depth max_nodes (node ∷ queue) w w' h done =
      elim (Outcome-cases (visit satisfies rcompare_le catalog max_depth max_nodes node w)) [
        | inl (e, thrown) ↦
            (let no : ◌≡◌ {A = Resolution Walk} (failed e) (resolved w') =
                rw (walk, thrown) at done in
              cc)
        | inr (r, went) ↦
            walk-IsConsistent fuel max_depth max_nodes (queue ++ r.1) r.0 w'
              (visit-IsConsistent max_depth max_nodes node w r.0 r.1 h went)
              (rw (walk, went) at done)
      ]

  -- Every version of a resolved manifest is published, is not deprecated, and satisfies every range
  -- that the walk recorded for its class.
  pub resolve-IsPinned :
      (fuel : ℕ) (roots : List ResolveRoot) (max_depth max_nodes : Option ℕ) (w : Walk)
      (name version : String)
      → resolve satisfies rcompare_le catalog fuel roots max_depth max_nodes ≡ resolved w
      → get w.picked name ≡ some version
      → IsPinned w name version
  unfolding resolve get
  resolve-IsPinned fuel roots max_depth max_nodes w name version done =
      walk-IsConsistent fuel (get_or max_depth 16) (get_or max_nodes 256) (map entry_of roots)
        (record { constraints = []; picked = []; nodes = 0 }) w (λ n v e. cc) done name version
