-- ===== src/Registry/Resolver/Termination.antt =====
-- The queue of src/registry/resolver.ts runs empty, or the run throws.
use actjs.Prelude.{
  ◌-◌, ◌+◌, ◌≤◌, ◌*◌, subst, ℕ, zero, suc, String, ◌≡◌, ap, ◌∙◌, Bool, Option, List, [], ◌∷◌, ◌++◌,
  map, length, get_or, arith, inl, inr, All, ◌≢◌, length-append, length-map, All-append_right,
}
use actjs.Registry.Resolver.{
  with_constraint, entry_of, ResolveRoot, Walk, QueueEntry, ResolverError, AccumulatedRange,
  Resolution, failed, visit, walk, resolve, out_of_fuel,
}
use actjs.Prelude.Outcome.{Outcome-cases, Outcome, ok}
use actjs.Prelude.Keys.{string_keyed, nat_keyed}
use actjs.Storage.Types.{ClassVersionRecord}
use actjs.Registry.Resolver.Candidates.{IsCandidate}
use actjs.Registry.Resolver.Visit.{visit-Visited}

budget_step :
    (most max_nodes nodes deps : ℕ)
    → deps ≤ most
    → suc nodes ≤ max_nodes
    → deps + most * (max_nodes - suc nodes) ≤ most * (max_nodes - nodes)
budget_step most max_nodes nodes deps few room =
    let n = max_nodes - suc nodes in
    let eq : max_nodes - nodes ≡ suc n = omega (arith, room) in
    let more : most * suc n ≡ most + most * n = omega arith in rw (eq, more) (omega (arith, few))

module _ (satisfies : String → String → Bool) (rcompare_le : String → String → Bool)
    (catalog : String → Outcome ResolverError (List ClassVersionRecord)) where
  -- No published version has more than `most` dependencies.
  abbrev pub DepsAtMost : ℕ → Type 0
  DepsAtMost most =
      (name : String) (versions : List ClassVersionRecord)
      → catalog name ≡ ok versions
      → All (λ v. length v.deps ≤ most) versions

  candidate-DepsAtMost :
      (most : ℕ) (vs : List ClassVersionRecord) (cs : List AccumulatedRange)
      (v : ClassVersionRecord)
      → All (λ u. length u.deps ≤ most) vs
      → IsCandidate satisfies rcompare_le catalog vs cs v
      → length v.deps ≤ most
  candidate-DepsAtMost most vs cs v h c =
      (All-append_right (λ u. length u.deps ≤ most) c.before (v ∷ c.behind)
        (subst (All (λ u. length u.deps ≤ most)) c.published h)).0

  -- A turn that repicks pays for what it enqueues with one of the nodes.
  visit-budget :
      (most max_depth max_nodes : ℕ) (node : QueueEntry) (w w' : Walk) (more : List QueueEntry)
      → DepsAtMost most
      → visit satisfies rcompare_le catalog max_depth max_nodes node w ≡ ok (w', more)
      → length more + most * (max_nodes - w'.nodes) ≤ most * (max_nodes - w.nodes)
  visit-budget most max_depth max_nodes node w w' more few done =
      let t = visit-Visited satisfies rcompare_le catalog max_depth max_nodes node w w' more done in
      let deps =
        candidate-DepsAtMost most t.versions (with_constraint satisfies rcompare_le catalog node w)
          t.row (few node.name t.versions t.listed) t.candidate in
      elim t.left [
        | inl again ↦
            let same : w.nodes ≡ w'.nodes = ap (λ x. x.nodes) again.1.0 in
            let nothing : length more ≡ 0 = ap length again.1.1 in
            let left : most * (max_nodes - w.nodes) ≡ most * (max_nodes - w'.nodes) =
              ap (λ n. most * (max_nodes - n)) same in
            omega (arith, nothing, left)
        | inr fresh ↦
            let next : suc w.nodes ≡ w'.nodes = ap (λ x. x.nodes) fresh.1.0 in
            let size : length more ≡ length t.row.deps =
              ap length fresh.1.1 ∙ length-map _ t.row.deps in
            let left : most * (max_nodes - suc w.nodes) ≡ most * (max_nodes - w'.nodes) =
              ap (λ n. most * (max_nodes - n)) next in
            let paid = budget_step most max_nodes w.nodes (length t.row.deps) deps fresh.0 in
            omega (arith, size, left, paid)
      ]

  walk_terminates :
      (most fuel max_depth max_nodes : ℕ) (queue : List QueueEntry) (w : Walk)
      → DepsAtMost most
      → length queue + most * (max_nodes - w.nodes) ≤ fuel
      → walk satisfies rcompare_le catalog fuel max_depth max_nodes queue w ≢ out_of_fuel
  unfolding walk
  walk_terminates most fuel max_depth max_nodes [] w few enough e = cc
  walk_terminates most zero max_depth max_nodes (node ∷ queue) w few enough e =
      omega (arith, enough)
  walk_terminates most (suc fuel) max_depth max_nodes (node ∷ queue) w few enough e =
      elim (Outcome-cases (visit satisfies rcompare_le catalog max_depth max_nodes node w)) [
        | inl (x, thrown) ↦
            (let no : ◌≡◌ {A = Resolution Walk} (failed x) out_of_fuel = rw (walk, thrown) at e in
              cc)
        | inr (r, went) ↦
            let paid = visit-budget most max_depth max_nodes node w r.0 r.1 few went in
            walk_terminates most fuel max_depth max_nodes (queue ++ r.1) r.0 few
              (rw (length-append queue r.1) (omega (arith, paid, enough))) (rw (walk, went) at e)
      ]

  -- When no published version has more than `most` dependencies, a run of the resolver with fuel for
  -- each root and for `most` dependencies of each of the `maxNodes` picks ends with a manifest or with
  -- an error of the code, for every catalog and every semver.
  pub resolve_terminates :
      (most fuel : ℕ) (roots : List ResolveRoot) (max_depth max_nodes : Option ℕ)
      → DepsAtMost most
      → length roots + most * get_or max_nodes 256 ≤ fuel
      → resolve satisfies rcompare_le catalog fuel roots max_depth max_nodes ≢ out_of_fuel
  unfolding resolve
  resolve_terminates most fuel roots max_depth max_nodes few enough =
      let all : get_or max_nodes 256 - 0 ≡ get_or max_nodes 256 = omega arith in
      walk_terminates most fuel (get_or max_depth 16) (get_or max_nodes 256) (map entry_of roots)
        (record { constraints = []; picked = []; nodes = 0 }) few
        (rw (length-map entry_of roots, all) enough)
