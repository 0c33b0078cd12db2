-- ===== src/Registry/Resolver/Candidates.antt =====
-- What pickHighest of src/registry/resolver.ts picks.
use actjs.Registry.Resolver.{
  is_current, first, ResolverError, AccumulatedRange, satisfies_all, candidates, pick_highest,
}
use actjs.Prelude.Outcome.{Outcome}
use actjs.Prelude.{
  subst, ℕ, String, ◌≡◌, ◌&&◌, refl, ap, Bool, true, Option, none, some, List, [], ◌∷◌, ◌++◌, arith,
  Bool-cases, inl, inr, All,
}
use actjs.Prelude.Keys.{string_keyed, nat_keyed}
use actjs.Prelude.Sort.{sort, insert}
use actjs.Storage.Types.{ClassVersionRecord}

All-map :
    {A : Type 0} (P Q : A → Type 0) (xs : List A) → ((x : A) → P x → Q x) → All P xs → All Q xs
All-map P Q [] f h = tt
All-map P Q (x ∷ xs) f h = (f x h.0, All-map P Q xs f h.1)

insert-All :
    {A : Type 0} (le : A → A → Bool) (P : A → Type 0) (x : A) (xs : List A)
    → P x
    → All P xs
    → All P (insert le x xs)
unfolding insert
insert-All le P x [] p h = (p, tt)
insert-All le P x (y ∷ ys) p h = elim (Bool-cases (le x y)) [
  | inl front ↦ rw front (p, h)
  | inr behind ↦ rw behind (h.0, insert-All le P x ys p h.1)
]

sort-All :
    {A : Type 0} (le : A → A → Bool) (P : A → Type 0) (xs : List A) → All P xs → All P (sort le xs)
unfolding sort
sort-All le P [] h = tt
sort-All le P (x ∷ xs) h = insert-All le P x (sort le xs) h.0 (sort-All le P xs h.1)

first-All :
    (P : ClassVersionRecord → Type 0) (vs : List ClassVersionRecord) (v : ClassVersionRecord)
    → All P vs
    → first vs ≡ some v
    → P v
first-All P [] v h e = cc
first-All P (u ∷ vs) v h e = let same : u ≡ v = cc in subst P same h.0

module _ (satisfies : String → String → Bool) (rcompare_le : String → String → Bool)
    (catalog : String → Outcome ResolverError (List ClassVersionRecord)) where
  -- A published version that is not deprecated and satisfies the ranges
  pub record IsCandidate (vs : List ClassVersionRecord) (cs : List AccumulatedRange)
      (v : ClassVersionRecord) : Type 0 where
    pub before : List ClassVersionRecord
    pub behind : List ClassVersionRecord
    pub published : vs ≡ before ++ v ∷ behind
    pub current : v.deprecated_at ≡ none
    pub satisfying : satisfies_all satisfies rcompare_le catalog v.version cs ≡ true

  current_none : (o : Option ℕ) → is_current o ≡ true → o ≡ none
  current_none none h = refl
  current_none (some t) h = cc

  candidates-IsCandidate :
      (vs : List ClassVersionRecord) (cs : List AccumulatedRange)
      → All (IsCandidate vs cs) (candidates satisfies rcompare_le catalog vs cs)
  unfolding candidates
  candidates-IsCandidate [] cs = tt
  candidates-IsCandidate (v ∷ vs) cs =
      let rest =
        All-map (IsCandidate vs cs) (IsCandidate (v ∷ vs) cs)
          (candidates satisfies rcompare_le catalog vs cs)
          (λ x (h : IsCandidate vs cs x). record {
            before = v ∷ h.before;
            behind = h.behind;
            published = ap (λ l. v ∷ l) h.published;
            current = h.current;
            satisfying = h.satisfying;
          })
          (candidates-IsCandidate vs cs) in
      elim (Bool-cases
        (is_current v.deprecated_at && satisfies_all satisfies rcompare_le catalog v.version cs)) [
          | inl good ↦ rw good (
            record {
              before = [];
              behind = vs;
              published = refl;
              current = current_none v.deprecated_at (ground (arith, good));
              satisfying = ground (arith, good);
            },
            rest,
          )
          | inr bad ↦ rw bad rest
        ]

  -- The version that is picked is a candidate.
  pub pick_highest-IsCandidate :
      (vs : List ClassVersionRecord) (cs : List AccumulatedRange) (v : ClassVersionRecord)
      → pick_highest satisfies rcompare_le catalog vs cs ≡ some v
      → IsCandidate vs cs v
  unfolding pick_highest
  pick_highest-IsCandidate vs cs v picked =
      first-All (IsCandidate vs cs)
        (sort (λ a b. rcompare_le a.version b.version)
          (candidates satisfies rcompare_le catalog vs cs))
        v
        (sort-All (λ a b. rcompare_le a.version b.version) (IsCandidate vs cs)
          (candidates satisfies rcompare_le catalog vs cs) (candidates-IsCandidate vs cs))
        picked
