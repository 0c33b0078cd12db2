-- ===== src/Client/Rpc/Settled.antt =====
-- Each request of src/client/rpc.ts is settled once.
use actjs.Client.Rpc.{
  Option, frame_of, Frame, RpcClient, Reply, new_rpc, request, ingest_response, reject_all,
  rejected, socket_opened, socket_closed,
}
use actjs.Prelude.{
  subst, Option-cases, ℕ, suc, ◌+◌, ◌≤◌, String, ◌≡◌, ◌&&◌, refl, sym, List, [], ◌∷◌, ◌++◌, map,
  leb, ltb, arith, if◌then◌else◌, inl, inr,
}
use actjs.Prelude.Keys.{string_keyed, nat_keyed, ◌==◌}
use actjs.Prelude.Map.{Map, get, has, set, delete}
use actjs.Prelude.Map.Laws.{get-set, get-delete, has-get, IsMap, IsMap-set, IsMap-delete}
use actjs.Runtime.Value.{Value}

-- What happens to a client
pub data Happening : Type 0 where
  requested : String → Value → Happening
  responded : ℕ → Reply → Happening
  opened : Option ℕ → Happening
  closed : Happening
  destroyed : String → Happening

unfoldable pub step : Happening → RpcClient → RpcClient
unfolding request ingest_response reject_all socket_opened socket_closed
step (requested method params) c = request method params c
step (responded id reply) c = ingest_response id reply c
step (opened failing) c = socket_opened failing c
step closed c = socket_closed c
step (destroyed err) c = reject_all err c

unfoldable pub run : List Happening → RpcClient → RpcClient
unfolding step
run [] c = c
run (h ∷ hs) c = run hs (step h c)

-- How often the promise of this id was settled
unfoldable pub times_settled : ℕ → List (ℕ × Reply) → ℕ
times_settled id [] = 0
times_settled id (s ∷ ss) = let rest = times_settled id ss in if s.0 == id then suc rest else rest

abbrev pub held : ℕ → Map ℕ Frame → ℕ
held id pending = if has pending id then 1 else 0

-- Whether the id was given to a request
abbrev pub issued : ℕ → RpcClient → ℕ
issued id c = if leb 1 id && ltb id c.next_sequence_id then 1 else 0

-- Each request that was made is pending, or settled once, and nothing else is settled.
pub record IsSettledOnce (c : RpcClient) : Type 0 where
  pub unique : IsMap c.pending
  pub once : (id : ℕ) → times_settled id c.settled + held id c.pending ≡ issued id c
  pub begun : 1 ≤ c.next_sequence_id

held-set :
    (m : Map ℕ Frame) (k id : ℕ) (f : Frame)
    → held id (set m k f) ≡ (if k == id then 1 else held id m)
held-set m k id f = ground (arith, has-get (set m k f) id, has-get m id, get-set m k id f)

held-delete :
    (m : Map ℕ Frame) (k id : ℕ) → held id (delete m k) ≡ (if k == id then 0 else held id m)
held-delete m k id = ground (arith, has-get (delete m k) id, has-get m id, get-delete m k id)

times-append :
    (id : ℕ) (xs ys : List (ℕ × Reply))
    → times_settled id (xs ++ ys) ≡ times_settled id xs + times_settled id ys
unfolding times_settled
times-append id [] ys = omega arith
times-append id (x ∷ xs) ys = ground (arith, times-append id xs ys)

times-rejected :
    (err : String) (id : ℕ) (m : Map ℕ Frame)
    → IsMap m
    → times_settled id (map (rejected err) m) ≡ held id m
unfolding times_settled has
times-rejected err id [] h = refl
times-rejected err id ((k, f) ∷ m) h =
    ground (arith, times-rejected err id m h.1, nat_keyed.same_key_iff k id, has-get m k, h.0)

step-IsSettledOnce : (h : Happening) (c : RpcClient) → IsSettledOnce c → IsSettledOnce (step h c)
unfolding step request ingest_response reject_all socket_opened socket_closed times_settled has
step-IsSettledOnce (requested method params) c h = record {
  unique = IsMap-set c.pending c.next_sequence_id _ h.unique;
  once = λ id. ground (
    arith,
    h.once id,
    held-set c.pending c.next_sequence_id id (frame_of c method params),
    h.begun,
  );
  begun = omega (arith, h.begun);
}
step-IsSettledOnce (responded id reply) c h = elim (Option-cases (get c.pending id)) [
  | inl missing ↦
      let same : step (responded id reply) c ≡ c = simp (ingest_response, missing) refl in
      subst IsSettledOnce (sym same) h
  | inr (f, there) ↦
      let after : step (responded id reply) c
          ≡ record c { pending = delete c.pending id; settled = (id, reply) ∷ c.settled } =
        simp (ingest_response, there) refl in
      subst IsSettledOnce (sym after) (record {
        unique = IsMap-delete c.pending id h.unique;
        once = λ other. ground (
          arith,
          h.once other,
          held-delete c.pending id other,
          has-get c.pending id,
          there,
          nat_keyed.same_key_iff id other,
        );
        begun = h.begun;
      })
]
step-IsSettledOnce (opened failing) c h = record {
  unique = h.unique;
  once = h.once;
  begun = h.begun;
}
step-IsSettledOnce closed c h = record { unique = h.unique; once = h.once; begun = h.begun }
step-IsSettledOnce (destroyed err) c h = record {
  unique = tt;
  once = λ id.
      rw
        (
          times-append id (map (rejected err) c.pending) c.settled,
          times-rejected err id c.pending h.unique,
        )
        (omega (arith, h.once id));
  begun = h.begun;
}

run_from : (hs : List Happening) (c : RpcClient) → IsSettledOnce c → IsSettledOnce (run hs c)
unfolding run
run_from [] c h = h
run_from (x ∷ hs) c h = run_from hs (step x c) (step-IsSettledOnce x c h)

start : (id : ℕ) → times_settled id new_rpc.settled + held id new_rpc.pending ≡ issued id new_rpc
unfolding times_settled has
start id = ground arith

-- Whatever requests are made, responses come, sockets open and close, and also when the client is destroyed, each
-- request is either pending or settled exactly once, and no other promise is ever settled.
pub run-IsSettledOnce : (hs : List Happening) → IsSettledOnce (run hs new_rpc)
run-IsSettledOnce hs =
    run_from hs new_rpc (record { unique = tt; once = λ id. start id; begun = omega arith })
