-- ===== src/Registry/Resolver/Grown.antt =====
-- What a turn of src/registry/resolver.ts adds: ranges, picks and entries of the queue.
use actjs.Registry.Resolver.{with_constraint, Walk, QueueEntry, ResolverError, AccumulatedRange}
use actjs.Prelude.Map.{Map, get, set}
use actjs.Prelude.Map.Laws.{get-set_self, get-set, ==-refl}
use actjs.Prelude.{
  ◌⊎◌, subst, ℕ, String, ◌≡◌, ◌&&◌, refl, Bool, true, false, some, List, [], ◌∷◌, ◌++◌, map, get_or,
  arith, Bool-cases, inl, inr, All, ◌||◌,
}
use actjs.Prelude.Outcome.{Outcome}
use actjs.Prelude.Keys.{string_keyed, nat_keyed, ◌==◌}
use actjs.Storage.Types.{ClassVersionRecord}
use actjs.Prelude.{if◌then◌else◌}
use actjs.Registry.Resolver.Visit.{Visited}

-- One of the ranges
unfoldable pub has_range : List AccumulatedRange → String → Bool
has_range [] range = false
has_range (c ∷ cs) range = c.range == range || has_range cs range

-- A class with this range waits in the queue.
unfoldable pub waits : List QueueEntry → String → String → Bool
waits [] name range = false
waits (q ∷ qs) name range = (q.name == name && q.range == range) || waits qs name range

abbrev pub ranges_of : Walk → String → List AccumulatedRange
ranges_of w name = get_or (get w.constraints name) []

pub or_right : (a b : Bool) → b ≡ true → (a || b) ≡ true
or_right a b h = ground (arith, h)

pub or_cases : (a b : Bool) → (a || b) ≡ true → (a ≡ true) ⊎ (b ≡ true)
or_cases true b h = inl refl
or_cases false b h = inr h

pub has_range-append :
    (cs ds : List AccumulatedRange) (range : String)
    → has_range (cs ++ ds) range ≡ (has_range cs range || has_range ds range)
unfolding has_range
has_range-append [] ds range = refl
has_range-append (c ∷ cs) ds range = ground (arith, has_range-append cs ds range)

pub waits-append :
    (qs rs : List QueueEntry) (name range : String)
    → waits (qs ++ rs) name range ≡ (waits qs name range || waits rs name range)
unfolding waits
waits-append [] rs name range = refl
waits-append (q ∷ qs) rs name range = ground (arith, waits-append qs rs name range)

pub All-imp :
    {A : Type 0} (P Q : A → Type 0) (xs : List A) → ((x : A) → P x → Q x) → All P xs → All Q xs
All-imp P Q [] f h = tt
All-imp P Q (x ∷ xs) f h = (f x h.0, All-imp P Q xs f h.1)

pub waits-map_All :
    {A : Type 0} (f : A → QueueEntry) (xs : List A)
    → All (λ x. waits (map f xs) (f x).name (f x).range ≡ true) xs
unfolding waits
waits-map_All f [] = tt
waits-map_All f (x ∷ xs) = (
  rw (==-refl (f x).name, ==-refl (f x).range) refl,
  All-imp (λ y. waits (map f xs) (f y).name (f y).range ≡ true)
      (λ y. waits (map f (x ∷ xs)) (f y).name (f y).range ≡ true) xs
      (λ y h. or_right ((f x).name == (f y).name && (f x).range == (f y).range) _ h)
      (waits-map_All f xs),
)

module _ (satisfies : String → String → Bool) (rcompare_le : String → String → Bool)
    (catalog : String → Outcome ResolverError (List ClassVersionRecord)) where
  -- A class and a range that the walk has recorded, with a version picked for the class, or that
  -- waits in the queue
  abbrev pub IsCovered : List QueueEntry → Walk → String → String → Type 0
  IsCovered queue w name range =
      (waits queue name range ≡ true)
      ⊎ ((has_range (ranges_of w name) range ≡ true)
          × ((version : String) × (get w.picked name ≡ some version)))

  -- What a turn adds to the walk
  pub record Grown (node : QueueEntry) (w w' : Walk) : Type 0 where
    pub ranges :
        (name range : String)
        → has_range (ranges_of w name) range ≡ true
        → has_range (ranges_of w' name) range ≡ true
    pub range : has_range (ranges_of w' node.name) node.range ≡ true
    pub picks :
        (name version : String)
        → get w.picked name ≡ some version
        → (v : String) × (get w'.picked name ≡ some v)
    pub pick : (v : String) × (get w'.picked node.name ≡ some v)

  ranges_set :
      (node : QueueEntry) (w : Walk) (name : String)
      → get_or
          (get
            (set w.constraints node.name (with_constraint satisfies rcompare_le catalog node w))
            name)
          []
        ≡ (if node.name == name
            then with_constraint satisfies rcompare_le catalog node w
            else ranges_of w name)
  ranges_set node w name = ground (
    arith,
    get-set w.constraints node.name name (with_constraint satisfies rcompare_le catalog node w),
  )

  ranges_grow :
      (node : QueueEntry) (w : Walk) (name range : String)
      → has_range (ranges_of w name) range ≡ true
      → has_range
          (get_or
            (get
              (set w.constraints node.name (with_constraint satisfies rcompare_le catalog node w))
              name)
            [])
          range
        ≡ true
  ranges_grow node w name range h = elim (Bool-cases (node.name == name)) [
    | inl same ↦
        let eq : node.name ≡ name = (string_keyed.same_key_iff node.name name).0 same in
        let old : has_range (ranges_of w node.name) range ≡ true = rw eq h in
        rw
          (
            ranges_set node w name,
            same,
            has_range-append (ranges_of w node.name)
                (record { range = node.range; path = node.path } ∷ []) range,
            old,
          )
          refl
    | inr other ↦ rw (ranges_set node w name, other) h
  ]

  range_here :
      (node : QueueEntry) (w : Walk)
      → has_range
          (get_or
            (get
              (set w.constraints node.name (with_constraint satisfies rcompare_le catalog node w))
              node.name)
            [])
          node.range
        ≡ true
  unfolding has_range
  range_here node w =
      rw
        (
          ranges_set node w node.name,
          ==-refl node.name,
          has_range-append (ranges_of w node.name)
              (record { range = node.range; path = node.path } ∷ []) node.range,
          ==-refl node.range,
        )
        (or_right (has_range (ranges_of w node.name) node.range) true refl)

  pick_grow :
      (picked : Map String String) (k version name v : String)
      → get picked name ≡ some v
      → (u : String) × (get (set picked k version) name ≡ some u)
  pick_grow picked k version name v h = elim (Bool-cases (k == name)) [
    | inl same ↦ (version, rw (get-set picked k name version, same) refl)
    | inr other ↦ (v, rw (get-set picked k name version, other) h)
  ]

  pub visit-Grown :
      (max_nodes : ℕ) (node : QueueEntry) (w w' : Walk) (more : List QueueEntry)
      → Visited satisfies rcompare_le catalog max_nodes node w w' more
      → Grown node w w'
  visit-Grown max_nodes node w w' more t = elim t.left [
    | inl again ↦ subst (Grown node w) again.1.0 (record {
      ranges = ranges_grow node w;
      range = range_here node w;
      picks = λ name version h. (version, h);
      pick = (t.row.version, again.0);
    })
    | inr fresh ↦ subst (Grown node w) fresh.1.0 (record {
      ranges = ranges_grow node w;
      range = range_here node w;
      picks = λ name v h. pick_grow w.picked node.name t.row.version name v h;
      pick = (t.row.version, get-set_self w.picked node.name t.row.version);
    })
  ]

  pub covered-visit :
      (node : QueueEntry) (queue more : List QueueEntry) (w w' : Walk) (name range : String)
      → Grown node w w'
      → IsCovered (node ∷ queue) w name range
      → IsCovered (queue ++ more) w' name range
  unfolding waits
  covered-visit node queue more w w' name range g (inl h) =
      elim (or_cases (node.name == name && node.range == range) (waits queue name range) h) [
        | inl here ↦
            let n : node.name ≡ name =
              (string_keyed.same_key_iff node.name name).0 (ground (arith, here)) in
            let r : node.range ≡ range =
              (string_keyed.same_key_iff node.range range).0 (ground (arith, here)) in
            inr (
              subst (λ x. has_range (ranges_of w' x) range ≡ true) n
                  (subst (λ y. has_range (ranges_of w' node.name) y ≡ true) r g.range),
              subst (λ x. (v : String) × (get w'.picked x ≡ some v)) n g.pick,
            )
        | inr later ↦ inl (rw (waits-append queue more name range, later) refl)
      ]
  covered-visit node queue more w w' name range g (inr h) =
      inr (g.ranges name range h.0, g.picks name h.1.0 h.1.1)
