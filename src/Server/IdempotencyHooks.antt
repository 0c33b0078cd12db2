-- ===== src/Server/IdempotencyHooks.antt =====
-- src/server/hooks/idempotency.ts over the memory driver, around a route's handler. The handler is
-- an argument that acts on a state of its own, and so is what the request asks of it. Of the reply
-- the model has its status, its body as a text and its content type.
pub mod Retry
use actjs.Prelude.{
  ℕ, zero, suc, ◌+◌, ◌-◌, ◌≤◌, ◌<◌, String, ◌≡◌, ◌≢◌, ◌&&◌, not, refl, ap, sym, ◌∙◌, Bool, true,
  false, Option, none, some, List, [], ◌∷◌, ◌++◌, map, length, leb, ltb, nat_beq, get_or, arith,
  if◌then◌else◌, Bool-cases, inl, inr,
}
use actjs.Prelude.Keys.{string_keyed, nat_keyed, ◌==◌}
use actjs.Prelude.Map.{contains}
use actjs.Storage.Types.{IdempotencyRecord}
use actjs.Storage.Driver.{Driver}
use actjs.Storage.Idempotency.{load_idempotency, save_idempotency}

pub record StoredResponse : Type 0 where
  pub status : ℕ
  pub body : String
  pub content_type : String

-- `key` is the `idempotency-key` header; `ask` stands for the rest of the request.
pub record Request (A : Type 0) : Type 0 where
  pub method : String
  pub key : Option String
  pub ask : A

-- What the handler replies; the content type may not be set.
pub record Reply : Type 0 where
  pub status : ℕ
  pub body : String
  pub content_type : Option String

pub record Sent : Type 0 where
  pub reply : Reply
  pub replayed : Bool
  pub echoed_key : Option String

abbrev pub mutating_methods : List String
mutating_methods = "POST" ∷ "PATCH" ∷ "DELETE" ∷ "PUT" ∷ []

-- `DEFAULT_TTL_MS`
abbrev pub default_ttl_ms : ℕ
default_ttl_ms = 86400000

abbrev pub non_empty_key : Option String → Option String
non_empty_key none = none
non_empty_key (some k) = if k == "" then none else some k

-- `req.idempotencyKey`, as preHandler sets it
unfoldable pub idempotency_key : {A : Type 0} → Request A → Option String
unfolding contains
idempotency_key req = if contains mutating_methods req.method then non_empty_key req.key else none

abbrev pub is_success : ℕ → Bool
is_success status = not (ltb status 200) && ltb status 300

abbrev pub stored_of : Reply → StoredResponse
stored_of reply = record {
  status = reply.status;
  body = reply.body;
  content_type = get_or reply.content_type "application/json";
}

abbrev pub reply_of : StoredResponse → Reply
reply_of stored = record {
  status = stored.status;
  body = stored.body;
  content_type = some stored.content_type;
}

-- preHandler: the response to replay, and the driver after the lookup
unfoldable pub pre_handler :
    {A : Type 0}
    → ℕ
    → Request A
    → Driver StoredResponse
    → Option StoredResponse × Driver StoredResponse
unfolding idempotency_key
pre_handler now req d = elim (idempotency_key req) [
  | none ↦ (none, d)
  | some key ↦
      (let loaded = load_idempotency d now key in
        (elim loaded.0 [ none ↦ none | some stored ↦ some stored.response ], loaded.1))
]

-- onSend, for a response that is no replay
unfoldable pub on_send :
    {A : Type 0} → ℕ → ℕ → Request A → Reply → Driver StoredResponse → Sent × Driver StoredResponse
unfolding idempotency_key
on_send ttl_ms now req reply d = elim (idempotency_key req) [
  | none ↦ (record { reply = reply; replayed = false; echoed_key = none }, d)
  | some key ↦
      if is_success reply.status
      then (
        record { reply = reply; replayed = false; echoed_key = some key },
        save_idempotency d now key (stored_of reply) ttl_ms,
      )
      else (record { reply = reply; replayed = false; echoed_key = none }, d)
]

module _ {A S : Type 0} (handler : A → S → Reply × S) where
  abbrev pub handled :
      ℕ
      → ℕ
      → Request A
      → Option StoredResponse × Driver StoredResponse
      → S
      → Sent × (Driver StoredResponse × S)
  handled ttl_ms later req (some response, d) s =
      (record { reply = reply_of response; replayed = true; echoed_key = req.key }, (d, s))
  handled ttl_ms later req (none, d) s =
      let done = handler req.ask s in
      let sent = on_send ttl_ms later req done.0 d in (sent.0, (sent.1, done.1))

  -- One request: the lookup at `now`, and the handler and the store at `later`
  unfoldable pub serve :
      Option ℕ → ℕ → ℕ → Request A → Driver StoredResponse × S → Sent × (Driver StoredResponse × S)
  unfolding pre_handler on_send
  serve ttl_ms now later req w =
      handled (get_or ttl_ms default_ttl_ms) later req (pre_handler now req w.0) w.1
