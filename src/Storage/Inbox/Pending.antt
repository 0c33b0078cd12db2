-- ===== src/Storage/Inbox/Pending.antt =====
-- The durable inbox of src/storage/memory.ts as the list of its pending entries: appending puts one
-- entry behind them, acknowledging takes some away, and the compaction of the acked prefix is not
-- seen.
use actjs.Storage.Types.{inbox_id_keyed}
use actjs.Prelude.{
  Option-cases, ℕ, ◌<◌, String, ◌≡◌, ◌≢◌, refl, true, false, List, [], ◌∷◌, ◌++◌, arith, take, drop,
  All, if◌then◌else◌, Bool-cases, inl, inr, eq_iff,
}
use actjs.Prelude.Keys.{string_keyed, ◌==◌}
use actjs.Prelude.Map.{get, contains, add, remove}
use actjs.Prelude.Map.Laws.{get-set, contains-add, contains-remove}
use actjs.Storage.Types.{InboxEntry, InboxId, InboxRecord, inbox_id_beq_iff}
use actjs.Storage.Driver.{Driver}
use actjs.Storage.Inbox.{
  bucket_of, acked_of, append_inbox, add_all, acked_prefix, forget, compact, ack_inbox,
}

contains-add_all :
    (a is : List InboxId) (i : InboxId)
    → contains (add_all a is) i ≡ (if contains a i then true else contains is i)
unfolding add_all contains
contains-add_all a [] i = ground arith
contains-add_all a (j ∷ is) i = ground (arith, contains-add_all (add a j) is i, contains-add a j i)

-- The id that `append_inbox` gives out is in no acked set.
contains_below :
    (now n : ℕ) (is : List InboxId)
    → All (λ (i : InboxId). i.seq < n) is
    → contains is (record { now = now; seq = n }) ≡ false
unfolding contains
contains_below now n [] h = refl
contains_below now n (i ∷ is) h = ground (arith, contains_below now n is h.1)

module _ {V : Type 0} where
  -- The entries whose ids are not among `acked`.
  unfoldable pub unacked : List InboxId → List (InboxRecord V) → List (InboxRecord V)
  unacked acked [] = []
  unacked acked (r ∷ rs) =
      let rest = unacked acked rs in if contains acked r.id then rest else r ∷ rest

  -- The pending entries of an actor, oldest first.
  abbrev pub pending : Driver V → String → List (InboxRecord V)
  pending d id = unacked (acked_of d id) (bucket_of d id)

  -- No entry of the list has the id `i`.
  abbrev pub IsNew : InboxId → List (InboxRecord V) → Type 0
  IsNew i rs = All (λ r. r.id ≢ i) rs

  abbrev pub IsDistinct : List (InboxRecord V) → Type 0
  IsDistinct [] = Unit
  IsDistinct (r ∷ rs) = IsNew r.id rs × IsDistinct rs

  unacked-append :
      (acked : List InboxId) (xs ys : List (InboxRecord V))
      → unacked acked (xs ++ ys) ≡ unacked acked xs ++ unacked acked ys
  unfolding unacked
  unacked-append acked [] ys = refl
  unacked-append acked (x ∷ xs) ys = ground (arith, unacked-append acked xs ys)

  -- Two sets that agree on the ids of a bucket.
  abbrev Agree : List InboxId → List InboxId → List (InboxRecord V) → Type 0
  Agree a b rs = All (λ r. contains a r.id ≡ contains b r.id) rs

  Agree-refl : (a : List InboxId) (rs : List (InboxRecord V)) → Agree a a rs
  Agree-refl a [] = tt
  Agree-refl a (r ∷ rs) = (refl, Agree-refl a rs)

  Agree-remove :
      (a b : List InboxId) (i : InboxId) (rs : List (InboxRecord V))
      → IsNew i rs
      → Agree a b rs
      → Agree (remove a i) b rs
  Agree-remove a b i [] new agree = tt
  Agree-remove a b i (r ∷ rs) new agree = (
    ground (arith, contains-remove a i r.id, inbox_id_beq_iff i r.id, new.0),
    Agree-remove a b i rs new.1 agree.1,
  )

  unacked_of_Agree :
      (a b : List InboxId) (rs : List (InboxRecord V)) → Agree a b rs → unacked a rs ≡ unacked b rs
  unfolding unacked
  unacked_of_Agree a b [] agree = refl
  unacked_of_Agree a b (r ∷ rs) agree = ground (arith, unacked_of_Agree a b rs agree.1)

  -- Compacting a bucket of distinct ids leaves the same entries pending.
  unacked-compact :
      (acked all : List InboxId) (rs : List (InboxRecord V))
      → IsDistinct rs
      → Agree acked all rs
      → unacked (forget acked (take (acked_prefix all rs) rs)) (drop (acked_prefix all rs) rs)
        ≡ unacked all rs
  unfolding unacked forget acked_prefix take drop
  unacked-compact acked all [] distinct agree = refl
  unacked-compact acked all (r ∷ rs) distinct agree = elim (Bool-cases (contains all r.id)) [
    | inl old ↦
        rw (old, acked_prefix)
          (unacked-compact (remove acked r.id) all rs distinct.1
            (Agree-remove acked all r.id rs distinct.0 agree.1))
    | inr new ↦ rw (new, acked_prefix) (ground (arith, unacked_of_Agree acked all rs agree.1))
  ]

  unacked-add_all :
      (a is : List InboxId) (rs : List (InboxRecord V))
      → unacked (add_all a is) rs ≡ unacked is (unacked a rs)
  unfolding unacked
  unacked-add_all a is [] = refl
  unacked-add_all a is (r ∷ rs) =
      ground (arith, unacked-add_all a is rs, contains-add_all a is r.id)

  -- Acknowledging entries takes exactly those away from the pending ones of that actor, and leaves
  -- what is pending of every other.
  pub pending-ack_inbox :
      (d : Driver V) (id other : String) (entry_ids : List InboxId)
      → IsDistinct (bucket_of d id)
      → pending (ack_inbox d id entry_ids) other
        ≡ (if id == other then unacked entry_ids (pending d id) else pending d other)
  unfolding ack_inbox compact unacked
  pending-ack_inbox d id other entry_ids distinct = elim (Option-cases (get d.inbox_by_actor id)) [
    | inl missing ↦
        rw (missing, ack_inbox)
          (ground (
            arith,
            get-set d.inbox_acked_by_actor id other (add_all (acked_of d id) entry_ids),
            eq_iff id other,
            missing,
          ))
    | inr (bucket, there) ↦
        let all = add_all (acked_of d id) entry_ids in
        rw (there, ack_inbox)
          (ground (
            arith,
            get-set d.inbox_acked_by_actor id other (compact all bucket).0,
            get-set d.inbox_by_actor id other (compact all bucket).1,
            eq_iff id other,
            unacked-compact all all bucket (rw there at distinct) (Agree-refl all bucket),
            unacked-add_all (acked_of d id) entry_ids bucket,
            there,
          ))
  ]

  -- The ids that were given out so far are below the counter, and no bucket holds one twice.
  pub record IsInbox (d : Driver V) : Type 0 where
    pub distinct : (id : String) → IsDistinct (bucket_of d id)
    pub below : (id : String) → All (λ r. r.id.seq < d.inbox_seq) (bucket_of d id)
    pub acked_below : (id : String) → All (λ (i : InboxId). i.seq < d.inbox_seq) (acked_of d id)

  unacked_one :
      (acked : List InboxId) (r : InboxRecord V)
      → contains acked r.id ≡ false
      → unacked acked (r ∷ []) ≡ r ∷ []
  unfolding unacked
  unacked_one acked r new = rw new refl

  -- An appended entry is pending behind those that were, under the id that is returned; what is
  -- pending of another actor stays.
  pub pending-append_inbox :
      (d : Driver V) (now : ℕ) (id other : String) (entry : InboxEntry V)
      → IsInbox d
      → pending (append_inbox d now id entry).1 other ≡ (
          if id == other
          then pending d id ++ record { id = (append_inbox d now id entry).0; entry = entry } ∷ []
          else pending d other)
  unfolding append_inbox
  pending-append_inbox d now id other entry inv =
      let i : InboxId = record { now = now; seq = d.inbox_seq } in
      let r : InboxRecord V = record { id = i; entry = entry } in
      ground (
        arith,
        get-set d.inbox_by_actor id other (bucket_of d id ++ r ∷ []),
        eq_iff id other,
        unacked-append (acked_of d id) (bucket_of d id) (r ∷ []),
        unacked_one (acked_of d id) r
            (contains_below now d.inbox_seq (acked_of d id) (inv.acked_below id)),
      )
