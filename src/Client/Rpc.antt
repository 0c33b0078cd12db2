-- ===== src/Client/Rpc.antt =====
-- `RpcClient` of src/client/rpc.ts over what src/client/transport.ts does with frames: they are sent at once
-- on an open socket, and else held until it opens. A frame is known by its id, its method and its
-- parameters; `settled` has the promises that were settled, the newest first. Notifications are left to
-- their listeners, and when the socket is opened to the transport's timers.
pub mod Settled
use actjs.Prelude.{
  drop, take, ℕ, zero, suc, ◌+◌, ◌-◌, ◌≤◌, ◌<◌, String, ◌≡◌, ◌≢◌, ◌&&◌, not, refl, ap, sym, ◌∙◌,
  Bool, true, false, Option, none, some, List, [], ◌∷◌, ◌++◌, map, length, leb, ltb, nat_beq,
  get_or, arith, if◌then◌else◌, Bool-cases, inl, inr,
}
use actjs.Prelude.Keys.{string_keyed, nat_keyed, ◌==◌}
use actjs.Prelude.Outcome.{Outcome, ok, throw}
use actjs.Prelude.Map.{Map, get, set, delete}
use actjs.Runtime.Value.{Value}

pub record Frame : Type 0 where
  pub id : ℕ
  pub method : String
  pub params : Value

-- `frameworkCode` is none for an error without a framework code.
pub data CallError : Type 0 where
  rpc_error : String → Option String → CallError
  client_closed : String → CallError

abbrev pub Reply : Type 0
Reply = Outcome CallError Value

pub record Transport : Type 0 where
  pub is_open : Bool
  pub outbound : List Frame
  pub sent : List Frame

pub record RpcClient : Type 0 where
  pub transport : Transport
  pub next_sequence_id : ℕ
  pub pending : Map ℕ Frame
  pub is_open : Bool
  pub settled : List (ℕ × Reply)

unfoldable pub send : Frame → Transport → Transport
send f t =
    if t.is_open
    then record t { sent = t.sent ++ f ∷ [] }
    else record t { outbound = t.outbound ++ f ∷ [] }

-- `handleOpen` of the transport up to `onOpen`. The first argument is the place in the queue of the frame at which
-- `socket.send` throws, if it does: that frame is put back, and those behind it, which have left the queue
-- as well, are dropped.
unfoldable pub transport_opened : Option ℕ → Transport → Transport
unfolding take drop
transport_opened none t = record { is_open = true; outbound = []; sent = t.sent ++ t.outbound }
transport_opened (some n) t = record {
  is_open = true;
  outbound = take 1 (drop n t.outbound);
  sent = t.sent ++ take n t.outbound;
}

unfoldable pub transport_closed : Transport → Transport
transport_closed t = record t { is_open = false }

-- `new RpcClient(transport)`
abbrev pub new_rpc : RpcClient
new_rpc = record {
  transport = record { is_open = false; outbound = []; sent = [] };
  next_sequence_id = 1;
  pending = [];
  is_open = false;
  settled = [];
}

abbrev pub frame_of : RpcClient → String → Value → Frame
frame_of c method params = record { id = c.next_sequence_id; method = method; params = params }

unfoldable pub request : String → Value → RpcClient → RpcClient
unfolding send
request method params c = record c {
  transport = send (frame_of c method params) c.transport;
  next_sequence_id = suc c.next_sequence_id;
  pending = set c.pending c.next_sequence_id (frame_of c method params);
}

-- The loop of `handleOpen`
unfoldable pub reissue : List (ℕ × Frame) → Transport → Transport
unfolding send
reissue [] t = t
reissue (p ∷ ps) t = reissue ps (send p.1 t)

unfoldable pub handle_open : RpcClient → RpcClient
unfolding reissue
handle_open c = record c { is_open = true; transport = reissue c.pending c.transport }

unfoldable pub handle_close : RpcClient → RpcClient
handle_close c = record c { is_open = false }

-- The socket opens: the transport, and then the client, whose reissue the socket takes
unfoldable pub socket_opened : Option ℕ → RpcClient → RpcClient
unfolding handle_open transport_opened
socket_opened failing c =
    handle_open (record c { transport = transport_opened failing c.transport })

unfoldable pub socket_closed : RpcClient → RpcClient
unfolding handle_close transport_closed
socket_closed c = handle_close (record c { transport = transport_closed c.transport })

-- `ingest` of a response
unfoldable pub ingest_response : ℕ → Reply → RpcClient → RpcClient
ingest_response id reply c = elim (get c.pending id) [
  | none ↦ c
  | some p ↦ record c { pending = delete c.pending id; settled = (id, reply) ∷ c.settled }
]

abbrev pub rejected : String → ℕ × Frame → ℕ × Reply
rejected err p = (p.0, throw (client_closed err))

unfoldable pub reject_all : String → RpcClient → RpcClient
reject_all err c = record c { pending = []; settled = map (rejected err) c.pending ++ c.settled }
