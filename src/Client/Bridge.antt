-- ===== src/Client/Bridge.antt =====
-- The bridge's idempotency middleware as the transport behind an agent's client.
use open_claw_bridge.Prelude.{
  ℕ, zero, suc, String, ◌≡◌, refl, ◌⊎◌, inl, inr, true, false, Option, none, some, List, [], ◌∷◌,
  arith, str_eq, eq_refl, ltb, ◌==◌, Bool-cases, Option-cases, concat, is_empty,
}
use open_claw_bridge.Asgi.{Header, Library, Application, read_header, request, drain_body}
use open_claw_bridge.Idempotency.{
  World, Call, Reply, Captured, call, no_reply, capture, idempotency_key,
}
use open_claw_bridge.Idempotency.Rows.{after_call}
use open_claw_bridge.Idempotency.Replay.{Asks}
use open_claw_bridge.Client.{
  ends, Request, Response, Answer, response, transport_error, Float, returned, on_429, attempts,
  sleep_for, read_retry_after, set_header, idempotency_header, stamp_idempotency_key, Answer-cases,
}

-- The request as the middleware sees it, at the times of its lookup and its store.
abbrev pub call_of : Request → ℕ × ℕ → Call
call_of r (now, time) = record {
  scope = record {
    type = "http";
    method = r.method;
    path = r.path;
    headers = r.headers;
    request_id = "";
  };
  input = request r.body false ∷ [];
  now = now;
  time = time;
}

-- The response that the messages make up. Without one, or after an exception, the connection breaks.
abbrev pub respond : Captured → Answer
respond c = elim c.status [
  | none ↦ transport_error "no response"
  | some s ↦ response (record { status = s; headers = c.headers; body = concat c.body_chunks })
]

abbrev pub answer_of : {S : Type 0} → Option (Reply × World S) → Answer
answer_of none = transport_error "no response"
answer_of (some (reply, w)) = elim reply.raised [
  | none ↦ respond (capture no_reply reply.sent)
  | some e ↦ transport_error e
]

module _ {S : Type 0} (lib : Library) (app : Application S) (clock : ℕ → ℕ × ℕ) where
  -- The bridge as the transport that the client wraps; the state counts the calls.
  unfoldable pub bridge : Request → World S × ℕ → Answer × (World S × ℕ)
  unfolding after_call
  bridge r (w, n) =
      let c = call_of r (clock n) in (answer_of (call lib app c w), (after_call lib app c w, suc n))

pub read_header-set_header :
    (hs : List Header) (name value : String)
    → read_header (set_header name value hs) name ≡ some value
unfolding read_header set_header
read_header-set_header [] name value = ground (arith, eq_refl name)
read_header-set_header ((n, v) ∷ hs) name value =
    ground (arith, eq_refl name, read_header-set_header hs name value)

-- A POST that carries a key.
pub record Carries (r : Request) (k : String) : Type 0 where
  pub post : str_eq r.method "POST" ≡ true
  pub key : read_header r.headers idempotency_header ≡ some k
  pub given : is_empty k ≡ false

pub stamped-body :
    (override : Option String) (uuid : String) (r : Request)
    → (stamp_idempotency_key override uuid r).body ≡ r.body
unfolding stamp_idempotency_key
stamped-body override uuid r = ground arith

pub stamped-Carries :
    (k uuid : String) (r : Request)
    → str_eq r.method "POST" ≡ true
    → is_empty k ≡ false
    → Carries (stamp_idempotency_key (some k) uuid r) k
unfolding stamp_idempotency_key
stamped-Carries k uuid r post given =
    rw (stamp_idempotency_key, post)
      (record {
        post = post;
        key = read_header-set_header r.headers idempotency_header k;
        given = given;
      })

pub Carries-Asks :
    (r : Request) (k : String) (t : ℕ × ℕ) → Carries r k → Asks (call_of r t) k r.body []
unfolding drain_body
Carries-Asks r k t c = record {
  post = ground (arith, c.post);
  key = rw (idempotency_key, c.key, c.given) refl;
  drained = refl;
}

-- What a response says of the reply that made it.
pub answer_of-response :
    {S : Type 0} (reply : Reply) (w : World S) {resp : Response}
    → answer_of (some (reply, w)) ≡ response resp
    → (reply.raised ≡ none)
      × ((capture no_reply reply.sent).status ≡ some resp.status)
      × (concat (capture no_reply reply.sent).body_chunks ≡ resp.body)
answer_of-response reply w e = ground arith

-- How a run comes to return a response.
module _ {W : Type 0} (cap : ℕ) (float : String → Option Float)
    (wrapped : Request → W → Answer × W) where
  pub last_try :
      (attempt : ℕ) (r : Request) (w : W) {resp : Response}
      → (attempts cap float wrapped zero attempt r w).outcome ≡ returned resp
      → ((wrapped r w).0 ≡ response resp)
        × ((attempts cap float wrapped zero attempt r w).world ≡ (wrapped r w).1)
  unfolding attempts
  last_try attempt r w e = ground arith

  pub first_answer :
      (left attempt : ℕ) (r : Request) (w : W) {resp : Response}
      → (wrapped r w).0 ≡ response resp
      → (resp.status == 429) ≡ false
      → attempts cap float wrapped left attempt r w ≡ ends (returned resp) r (wrapped r w).1
  unfolding attempts
  first_answer zero attempt r w a f = rw (attempts, a, f) refl
  first_answer (suc left) attempt r w a f = rw (attempts, a, f) refl

  pub one_try :
      (left attempt : ℕ) (r : Request) (w : W) {resp : Response}
      → (attempts cap float wrapped (suc left) attempt r w).outcome ≡ returned resp
      → (((wrapped r w).0 ≡ response resp)
          × ((attempts cap float wrapped (suc left) attempt r w).world ≡ (wrapped r w).1))
        ⊎ ((other : Response) × ((wrapped r w).0 ≡ response other)
            × ((other.status == 429) ≡ true)
            × ((attempts cap float wrapped left (suc attempt) r (wrapped r w).1).outcome
                ≡ returned resp)
            × ((attempts cap float wrapped (suc left) attempt r w).world
                ≡ (attempts cap float wrapped left (suc attempt) r (wrapped r w).1).world))
  unfolding attempts on_429
  one_try left attempt r w e = elim (Answer-cases (wrapped r w).0) [
    | inl (t, a) ↦ absurd {0} (ground (arith, a))
    | inr (other, a) ↦ elim (Bool-cases (other.status == 429)) [
      | inr f ↦ inl (ground (arith, a, f))
      | inl f ↦ elim (Option-cases (sleep_for attempt (read_retry_after float other))) [
        | inl g ↦ absurd {0} (ground (arith, a, f, g))
        | inr (ms, g) ↦ elim (Bool-cases (ltb cap ms)) [
          | inl l ↦ absurd {0} (ground (arith, a, f, g, l))
          | inr l ↦ inr (other, a, f, ground (arith, a, f, g, l), ground (arith, a, f, g, l))
        ]
      ]
    ]
  ]
