-- ===== src/Server/IdempotencyHooks/Retry.antt =====
-- What a retry with the same Idempotency-Key gets from src/server/hooks/idempotency.ts.
use actjs.Prelude.{
  lt→ltb, All, Option-cases, ℕ, ◌+◌, ◌<◌, String, ◌≡◌, ◌≢◌, refl, ap, ◌∙◌, true, false, Option,
  none, some, List, [], ◌∷◌, ltb, get_or, if◌then◌else◌, Bool-cases, inl, inr,
}
use actjs.Prelude.Keys.{string_keyed, nat_keyed}
use actjs.Storage.Driver.{Driver}
use actjs.Storage.Idempotency.{load_idempotency, save_idempotency}
use actjs.Storage.Idempotency.Laws.{load_idempotency-save_idempotency, load_idempotency-other}
use actjs.Server.IdempotencyHooks.{
  StoredResponse, Request, Reply, stored_of, reply_of, is_success, idempotency_key, pre_handler,
  on_send, handled, serve, default_ttl_ms,
}

-- The response is loaded under the key until it expires.
abbrev pub Remembers : Driver StoredResponse → String → StoredResponse → ℕ → ℕ → Type 0
Remembers d key response stored_at expires_at =
    (now : ℕ)
    → (load_idempotency d now key).0 ≡ (
        if ltb now expires_at
        then some (record { key = key; response = response; stored_at = stored_at })
        else none)

module _ {A S : Type 0} (handler : A → S → Reply × S) where
  pre_handler-Remembers :
      (now : ℕ) (req : Request A) (d : Driver StoredResponse) (key : String)
      (response : StoredResponse) (stored_at expires_at : ℕ)
      → idempotency_key req ≢ some key
      → Remembers d key response stored_at expires_at
      → Remembers (pre_handler now req d).1 key response stored_at expires_at
  unfolding pre_handler
  pre_handler-Remembers now req d key response stored_at expires_at other h at =
      elim (Option-cases (idempotency_key req)) [
        | inl keyless ↦ rw (pre_handler, keyless) (h at)
        | inr (k, keyed) ↦
            rw (pre_handler, keyed)
              ((load_idempotency-other d now at k key response 0 (λ e. other (keyed ∙ ap some e))).1
                ∙ h at)
      ]

  on_send-Remembers :
      (ttl_ms now : ℕ) (req : Request A) (reply : Reply) (d : Driver StoredResponse) (key : String)
      (response : StoredResponse) (stored_at expires_at : ℕ)
      → idempotency_key req ≢ some key
      → Remembers d key response stored_at expires_at
      → Remembers (on_send ttl_ms now req reply d).1 key response stored_at expires_at
  unfolding on_send
  on_send-Remembers ttl_ms now req reply d key response stored_at expires_at other h at =
      elim (Option-cases (idempotency_key req)) [
        | inl keyless ↦ rw (on_send, keyless) (h at)
        | inr (k, keyed) ↦ elim (Bool-cases (is_success reply.status)) [
          | inl good ↦
              rw (on_send, keyed, good)
                ((load_idempotency-other d now at k key (stored_of reply) ttl_ms
                    (λ e. other (keyed ∙ ap some e))).0
                  ∙ h at)
          | inr bad ↦ rw (on_send, keyed, bad) (h at)
        ]
      ]

  handled-Remembers :
      (ttl_ms later : ℕ) (req : Request A) (o : Option StoredResponse) (d : Driver StoredResponse)
      (s : S) (key : String) (response : StoredResponse) (stored_at expires_at : ℕ)
      → idempotency_key req ≢ some key
      → Remembers d key response stored_at expires_at
      → Remembers (handled handler ttl_ms later req (o, d) s).1.0 key response stored_at expires_at
  handled-Remembers ttl_ms later req (some r) d s key response stored_at expires_at other h = h
  handled-Remembers ttl_ms later req none d s key response stored_at expires_at other h =
      on_send-Remembers ttl_ms later req (handler req.ask s).0 d key response stored_at expires_at
        other h

  -- A request in a run, with the times of its lookup and of its store
  pub record Visit : Type 0 where
    pub now : ℕ
    pub later : ℕ
    pub request : Request A

  unfoldable pub serve_all :
      Option ℕ → List Visit → Driver StoredResponse × S → Driver StoredResponse × S
  serve_all ttl_ms [] w = w
  serve_all ttl_ms (v ∷ vs) w =
      serve_all ttl_ms vs (serve handler ttl_ms v.now v.later v.request w).1

  serve_all-Remembers :
      (ttl_ms : Option ℕ) (vs : List Visit) (w : Driver StoredResponse × S) (key : String)
      (response : StoredResponse) (stored_at expires_at : ℕ)
      → All (λ v. idempotency_key v.request ≢ some key) vs
      → Remembers w.0 key response stored_at expires_at
      → Remembers (serve_all ttl_ms vs w).0 key response stored_at expires_at
  unfolding serve_all serve
  serve_all-Remembers ttl_ms [] w key response stored_at expires_at others h = h
  serve_all-Remembers ttl_ms (v ∷ vs) w key response stored_at expires_at others h =
      serve_all-Remembers ttl_ms vs (serve handler ttl_ms v.now v.later v.request w).1 key response
        stored_at expires_at others.1
        (handled-Remembers (get_or ttl_ms default_ttl_ms) v.later v.request
          (pre_handler v.now v.request w.0).0 (pre_handler v.now v.request w.0).1 w.1 key response
          stored_at expires_at others.0
          (pre_handler-Remembers v.now v.request w.0 key response stored_at expires_at others.0 h))

  -- The first request with a key: the handler's reply is sent, and it is stored.
  serve-first :
      (ttl_ms : Option ℕ) (now later : ℕ) (req : Request A) (w : Driver StoredResponse × S)
      (key : String)
      → idempotency_key req ≡ some key
      → (load_idempotency w.0 now key).0 ≡ none
      → is_success (handler req.ask w.1).0.status ≡ true
      → serve handler ttl_ms now later req w ≡ (
        record { reply = (handler req.ask w.1).0; replayed = false; echoed_key = some key },
        (
          save_idempotency
              (load_idempotency w.0 now key).1
              later
              key
              (stored_of (handler req.ask w.1).0)
              (get_or ttl_ms default_ttl_ms),
          (handler req.ask w.1).1,
        ),
      )
  unfolding serve pre_handler on_send
  serve-first ttl_ms now later req w key keyed fresh good =
      rw (serve, pre_handler, keyed, fresh, on_send, keyed, good) refl

  -- When a POST, PATCH, DELETE or PUT with a non-empty Idempotency-Key finds nothing stored under it and succeeds,
  -- a later request of such a method with the key, before the stored response expires, gets the same
  -- status and body, and the same content type or application/json when the first reply had none. It runs
  -- no handler, whatever it asks, and whatever requests with other keys or none come between.
  pub serve-retry :
      (ttl_ms : Option ℕ) (now later : ℕ) (req : Request A) (vs : List Visit) (now' later' : ℕ)
      (again : Request A) (w : Driver StoredResponse × S) (key : String)
      → idempotency_key req ≡ some key
      → (load_idempotency w.0 now key).0 ≡ none
      → is_success (handler req.ask w.1).0.status ≡ true
      → All (λ v. idempotency_key v.request ≢ some key) vs
      → idempotency_key again ≡ some key
      → now' < later + get_or ttl_ms default_ttl_ms
      → (let between = serve_all ttl_ms vs (serve handler ttl_ms now later req w).1 in
          let retry = serve handler ttl_ms now' later' again between in
          (retry.0 ≡ record {
            reply = reply_of (stored_of (handler req.ask w.1).0);
            replayed = true;
            echoed_key = again.key;
          })
          × (retry.1.1 ≡ between.1))
  unfolding serve pre_handler
  serve-retry ttl_ms now later req vs now' later' again w key keyed fresh good others same early =
      let response = stored_of (handler req.ask w.1).0 in
      let ttl = get_or ttl_ms default_ttl_ms in
      let first = serve-first ttl_ms now later req w key keyed fresh good in
      let start : Remembers (serve handler ttl_ms now later req w).1.0 key response later
          (later + ttl) =
        λ at.
          ap (λ x. (load_idempotency x.1.0 at key).0) first
          ∙ load_idempotency-save_idempotency (load_idempotency w.0 now key).1 later at key response
              ttl in
      let kept =
        serve_all-Remembers ttl_ms vs (serve handler ttl_ms now later req w).1 key response later
          (later + ttl) others start now' in
      let hit : (load_idempotency (serve_all ttl_ms vs (serve handler ttl_ms now later req w).1).0
            now' key).0
          ≡ some (record { key = key; response = response; stored_at = later }) =
        kept ∙ rw (lt→ltb now' (later + ttl) early) refl in
      (rw (serve, pre_handler, same, hit) refl, rw (serve, pre_handler, same, hit) refl)
