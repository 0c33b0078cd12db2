-- ===== src/Storage/Inbox/Invariant.antt =====
-- The inbox invariant of src/storage/memory.ts, and what the two readers (readPendingInbox,
-- pendingInboxCount) show of the pending entries.
use actjs.Storage.Types.{inbox_id_keyed}
use actjs.Prelude.{
  ◌∙◌, sym, ◌-◌, ℕ, zero, suc, ◌<◌, String, ◌≡◌, ◌≢◌, refl, ap, Option, none, some, List, [], ◌∷◌,
  ◌++◌, arith, leb, get_or, length, take, drop, All, All-append, Bool-cases, Option-cases, inl, inr,
}
use actjs.Prelude.Keys.{string_keyed, ◌==◌}
use actjs.Prelude.Map.{Map, get, set, contains, add, remove}
use actjs.Prelude.Map.Laws.{get-set}
use actjs.Storage.Types.{InboxEntry, InboxId, InboxRecord}
use actjs.Storage.Driver.{Driver}
use actjs.Storage.Inbox.{
  bucket_of, acked_of, append_inbox, take_pending, read_pending_inbox, add_all, acked_prefix,
  forget, compact, ack_inbox, count_pending, count_in, pending_inbox_count,
}
use actjs.Storage.Inbox.Pending.{IsInbox, IsDistinct, pending, unacked}

module _ {ℓ} {A : Type ℓ} {P Q : A → Type 0} where
  pub All-map : ((a : A) → P a → Q a) → (xs : List A) → All P xs → All Q xs
  All-map f [] h = tt
  All-map f (x ∷ xs) h = (f x h.0, All-map f xs h.1)

module _ {ℓ} {A : Type ℓ} (P : A → Type 0) where
  pub All-drop : (n : ℕ) (xs : List A) → All P xs → All P (drop n xs)
  unfolding drop
  All-drop zero xs h = h
  All-drop (suc n) [] h = tt
  All-drop (suc n) (x ∷ xs) h = All-drop n xs h.1

-- What holds of the list written under a key, and of every other list, holds after the write.
get_or-set {ℓ} :
    {A : Type ℓ} (P : List A → Type 0) (m : Map String (List A)) (k j : String) (v : List A)
    → P v
    → P (get_or (get m j) [])
    → P (get_or (get (set m k v) j) [])
get_or-set P m k j v written kept =
    rw (get-set m k j v)
      (elim (Bool-cases (k == j)) [ inl same ↦ rw same written | inr other ↦ rw other kept ])

module _ (P : InboxId → Type 0) where
  All-add : (is : List InboxId) (i : InboxId) → All P is → P i → All P (add is i)
  unfolding add
  All-add is i h p = elim (Bool-cases (contains is i)) [
    | inl old ↦ rw old h
    | inr new ↦ rw new (All-append P is (i ∷ []) h (p, tt))
  ]

  All-add_all : (is js : List InboxId) → All P is → All P js → All P (add_all is js)
  unfolding add_all
  All-add_all is [] h k = h
  All-add_all is (j ∷ js) h k = All-add_all (add is j) js (All-add is j h k.0) k.1

  All-remove : (is : List InboxId) (i : InboxId) → All P is → All P (remove is i)
  unfolding remove
  All-remove [] i h = tt
  All-remove (j ∷ is) i h = ground (arith, All-remove is i h.1)

module _ {V : Type 0} where
  All-forget :
      (P : InboxId → Type 0) (is : List InboxId) (rs : List (InboxRecord V))
      → All P is
      → All P (forget is rs)
  unfolding forget
  All-forget P is [] h = h
  All-forget P is (r ∷ rs) h = All-forget P (remove is r.id) rs (All-remove P is r.id h)

  IsDistinct-drop : (n : ℕ) (rs : List (InboxRecord V)) → IsDistinct rs → IsDistinct (drop n rs)
  unfolding drop
  IsDistinct-drop zero rs h = h
  IsDistinct-drop (suc n) [] h = tt
  IsDistinct-drop (suc n) (r ∷ rs) h = IsDistinct-drop n rs h.1

  IsDistinct-append :
      (rs : List (InboxRecord V)) (r : InboxRecord V)
      → IsDistinct rs
      → All (λ q. q.id.seq < r.id.seq) rs
      → IsDistinct (rs ++ r ∷ [])
  IsDistinct-append [] r h k = (tt, tt)
  IsDistinct-append (q ∷ rs) r h k = (
    All-append (λ p. p.id ≢ q.id) rs (r ∷ []) h.0
        ((λ e. ground (arith, ap (λ (i : InboxId). i.seq) e, k.0)), tt),
    IsDistinct-append rs r h.1 k.1,
  )

  -- Appending an entry keeps the inbox invariant.
  pub append_inbox-IsInbox :
      (d : Driver V) (now : ℕ) (id : String) (entry : InboxEntry V)
      → IsInbox d
      → IsInbox (append_inbox d now id entry).1
  unfolding append_inbox
  append_inbox-IsInbox d now id entry inv =
      let r : InboxRecord V = record {
        id = record { now = now; seq = d.inbox_seq };
        entry = entry;
      } in
      record {
        distinct = λ other.
            get_or-set IsDistinct d.inbox_by_actor id other (bucket_of d id ++ r ∷ [])
              (IsDistinct-append (bucket_of d id) r (inv.distinct id) (inv.below id))
              (inv.distinct other);
        below = λ other.
            get_or-set (All (λ q. q.id.seq < suc d.inbox_seq)) d.inbox_by_actor id other
              (bucket_of d id ++ r ∷ [])
              (All-append (λ q. q.id.seq < suc d.inbox_seq) (bucket_of d id) (r ∷ [])
                (All-map (λ q h. omega arith) (bucket_of d id) (inv.below id)) (omega arith, tt))
              (All-map (λ q h. omega arith) (bucket_of d other) (inv.below other));
        acked_below =
            λ other. All-map (λ i h. omega arith) (acked_of d other) (inv.acked_below other);
      }

  -- Acknowledging ids that were given out keeps the inbox invariant, compaction included.
  pub ack_inbox-IsInbox :
      (d : Driver V) (id : String) (entry_ids : List InboxId)
      → IsInbox d
      → All (λ (i : InboxId). i.seq < d.inbox_seq) entry_ids
      → IsInbox (ack_inbox d id entry_ids)
  unfolding ack_inbox compact
  ack_inbox-IsInbox d id entry_ids inv given =
      let all = add_all (acked_of d id) entry_ids in
      let all_below = All-add_all Given (acked_of d id) entry_ids (inv.acked_below id) given in
      elim (Option-cases (get d.inbox_by_actor id)) [
        | inl missing ↦
            rw (missing, ack_inbox)
              (record {
                distinct = inv.distinct;
                below = inv.below;
                acked_below = λ other.
                    get_or-set (All Given) d.inbox_acked_by_actor id other all all_below
                      (inv.acked_below other);
              })
        | inr (bucket, there) ↦
            let n = acked_prefix all bucket in
            rw (there, ack_inbox)
              (record {
                distinct = λ other.
                    get_or-set IsDistinct d.inbox_by_actor id other (drop n bucket)
                      (IsDistinct-drop n bucket (rw there at (inv.distinct id)))
                      (inv.distinct other);
                below = λ other.
                    get_or-set (All (λ q. q.id.seq < d.inbox_seq)) d.inbox_by_actor id other
                      (drop n bucket)
                      (All-drop (λ q. q.id.seq < d.inbox_seq) n bucket (rw there at (inv.below id)))
                      (inv.below other);
                acked_below = λ other.
                    get_or-set (All Given) d.inbox_acked_by_actor id other
                      (forget all (take n bucket)) (All-forget Given all (take n bucket) all_below)
                      (inv.acked_below other);
              })
      ]
    where
      Given : InboxId → Type 0
      Given i = i.seq < d.inbox_seq

  take-nil : (n : ℕ) → take {A = InboxRecord V} n [] ≡ []
  unfolding take
  take-nil zero = refl
  take-nil (suc n) = refl

  take_pending_lem :
      (acked : List InboxId) (limit n : ℕ) (rs : List (InboxRecord V))
      → n < limit
      → take_pending acked limit n rs ≡ take (limit - n) (unacked acked rs)
  unfolding take_pending unacked take
  take_pending_lem acked limit n [] h = sym (take-nil (limit - n))
  take_pending_lem acked limit n (r ∷ rs) h =
      let e : limit - n ≡ suc (limit - suc n) = omega arith in
      elim (Bool-cases (contains acked r.id)) [
        | inl old ↦ rw (old, take_pending, unacked) (take_pending_lem acked limit n rs h)
        | inr new ↦ elim (Bool-cases (leb limit (suc n))) [
          | inl last ↦
              let z : limit - suc n ≡ 0 = ground arith in
              rw (new, last, take_pending, unacked, e, z) refl
          | inr more ↦
              rw (new, more, take_pending, unacked, e)
                (ap (◌∷◌ r) (take_pending_lem acked limit (suc n) rs (ground arith)))
        ]
      ]

  count_pending_lem :
      (acked : List InboxId) (rs : List (InboxRecord V))
      → count_pending acked rs ≡ length (unacked acked rs)
  unfolding count_pending unacked
  count_pending_lem acked [] = refl
  count_pending_lem acked (r ∷ rs) = ground (arith, count_pending_lem acked rs)

  unacked_none : (rs : List (InboxRecord V)) → unacked [] rs ≡ rs
  unfolding unacked contains
  unacked_none [] = refl
  unacked_none (r ∷ rs) = ap (◌∷◌ r) (unacked_none rs)

  count_of :
      (acked : Option (List InboxId)) (bucket : List (InboxRecord V))
      → count_in acked bucket ≡ length (unacked (get_or acked []) bucket)
  count_of none bucket = sym (ap length (unacked_none bucket))
  count_of (some []) bucket = sym (ap length (unacked_none bucket))
  count_of (some (i ∷ is)) bucket = count_pending_lem (i ∷ is) bucket

  read_lem :
      (d : Driver V) (id : String) (limit : ℕ)
      → 0 < limit
      → read_pending_inbox d id limit ≡ take limit (pending d id)
  unfolding read_pending_inbox
  read_lem d id limit h = elim (Option-cases (get d.inbox_by_actor id)) [
    | inl missing ↦ rw (missing, read_pending_inbox) (unfold unacked in sym (take-nil limit))
    | inr (bucket, there) ↦
        rw (there, read_pending_inbox)
          (take_pending_lem (acked_of d id) limit 0 bucket h
            ∙ ap (λ n. take n (unacked (acked_of d id) bucket)) (omega arith))
  ]

  count_lem : (d : Driver V) (id : String) → pending_inbox_count d id ≡ length (pending d id)
  unfolding pending_inbox_count unacked
  count_lem d id = elim (Option-cases (get d.inbox_by_actor id)) [
    | inl missing ↦ rw (missing, pending_inbox_count) refl
    | inr (bucket, there) ↦
        rw (there, pending_inbox_count) (count_of (get d.inbox_acked_by_actor id) bucket)
  ]

  -- Reading with a limit above 0 gives the oldest pending entries, at most that many, and the count
  -- is the number of all of them.
  pub read_pending_inbox-pending :
      (d : Driver V) (id : String) (limit : ℕ)
      → 0 < limit
      → (read_pending_inbox d id limit ≡ take limit (pending d id))
        × (pending_inbox_count d id ≡ length (pending d id))
  read_pending_inbox-pending d id limit h = (read_lem d id limit h, count_lem d id)
