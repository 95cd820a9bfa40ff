-- ===== src/Client.antt =====
-- brains/shared/src/brains_shared/client.py: the transport of the agents' HTTP client, which stamps an
-- Idempotency-Key on POST requests and repeats what is answered 429.
--
-- Header names are in lower case, as httpx compares them and ASGI passes them on. Times are
-- milliseconds. The transport that it wraps is a function of the request and of a state, which is all
-- that lies behind it; `float` is Python's.
pub mod Agent
pub mod Bounds
pub mod Bridge
pub mod Once
pub mod EventBus
use open_claw_bridge.Prelude.{
  ℕ, zero, suc, ◌+◌, ◌-◌, ◌*◌, ◌/◌, ◌%◌, ◌^◌, ◌≤◌, ◌<◌, min, max, String, text_length, utf8_length,
  ◌≡◌, refl, sym, ap, ◌∙◌, ◌≢◌, ◌↔◌, ◌⊎◌, inl, inr, Bool, true, false, not, ◌&&◌, ◌||◌, Option,
  none, some, List, [], ◌∷◌, ◌++◌, map, append-nil, append_assoc, arith, str_eq, eq_iff, eq_refl,
  ltb, leb, ◌==◌, if◌then◌else◌, Bool-cases, Option-cases, concat, concat_one, concat_nil,
  take_text, is_empty, or_else, text_mem, is_space, is_blank, length, length-append, get_or,
  is_some, filter, find, any, All, reverse, Forward,
}
use open_claw_bridge.Asgi.{Header, read_header}

abbrev pub max_429_retries : ℕ
max_429_retries = 3

abbrev pub retry_after_cap : ℕ
retry_after_cap = 30000

abbrev pub idempotency_header : String
idempotency_header = "idempotency-key"

pub record Request : Type 0 where
  pub method : String
  pub path : String
  pub headers : List Header
  pub body : String

pub record Response : Type 0 where
  pub status : ℕ
  pub headers : List Header
  pub body : String

-- What the wrapped transport does: it answers, or raises.
pub data Answer : Type 0 where
  response : Response → Answer
  transport_error : (text : String) → Answer

pub Answer-cases :
    (a : Answer) → ((t : String) × (a ≡ transport_error t)) ⊎ ((r : Response) × (a ≡ response r))
Answer-cases (transport_error t) = inl (t, refl)
Answer-cases (response r) = inr (r, refl)

-- A float by what the code asks of it: not above 0 (NaN too), above 0, or infinite.
pub data Float : Type 0 where
  not_positive : Float
  positive : (ms : ℕ) → Float
  infinite : Float

-- Why `BridgeClientError` is raised: its message. `none` is an infinite wait.
pub data Reason : Type 0 where
  out_of_retries : Option Float → Reason
  exceeds_cap : Option ℕ → Reason

-- A response, `BridgeClientError`, or the wrapped transport's exception.
pub data Outcome : Type 0 where
  returned : Response → Outcome
  rate_limited : Reason → Outcome
  raised : (text : String) → Outcome

-- `request.headers[name] = value`
unfoldable pub set_header : String → String → List Header → List Header
set_header name value [] = (name, value) ∷ []
set_header name value ((n, v) ∷ hs) =
    if str_eq n name
    then (name, value) ∷ filter (λ h. not (str_eq h.0 name)) hs
    else (n, v) ∷ set_header name value hs

-- `_stamp_idempotency_key`, with the override of the context and what `uuid4` returns.
unfoldable pub stamp_idempotency_key : Option String → String → Request → Request
unfolding set_header
stamp_idempotency_key override uuid r =
    if str_eq r.method "POST"
    then elim override [
      | some k ↦ record r { headers = set_header idempotency_header k r.headers }
      | none ↦
          if is_some (read_header r.headers idempotency_header)
          then r
          else record r { headers = set_header idempotency_header uuid r.headers }
    ]
    else r

-- `_read_retry_after`
unfoldable pub read_retry_after : (String → Option Float) → Response → Option Float
read_retry_after float r = elim (read_header r.headers "retry-after") [
  | none ↦ none
  | some raw ↦ float raw
]

-- `_sleep_for`; `none` is infinite.
unfoldable pub sleep_for : ℕ → Option Float → Option ℕ
sleep_for attempt none = some (max (500 * 2 ^ attempt) 100)
sleep_for attempt (some not_positive) = some (max (500 * 2 ^ attempt) 100)
sleep_for attempt (some (positive ms)) = some (max ms 100)
sleep_for attempt (some infinite) = none

-- A run of the transport: its outcome, the requests that it made and the sleeps, in their order, and the
-- state after it.
pub record Ran (W : Type 0) : Type 0 where
  pub outcome : Outcome
  pub requests : List Request
  pub sleeps : List ℕ
  pub world : W

-- One request, and then no more.
abbrev pub ends : {W : Type 0} → Outcome → Request → W → Ran W
ends o r w = record { outcome = o; requests = r ∷ []; sleeps = []; world = w }

module _ {W : Type 0} (cap : ℕ) (float : String → Option Float)
    (wrapped : Request → W → Answer × W) where
  -- The body of the loop after an answer of 429; `again` is the rest of the loop.
  unfoldable pub on_429 : ℕ → Request → Option Float → W → Ran W → Ran W
  unfolding sleep_for
  on_429 attempt r retry_after w again = elim (sleep_for attempt retry_after) [
    | none ↦ ends (rate_limited (exceeds_cap none)) r w
    | some ms ↦
        if ltb cap ms
        then ends (rate_limited (exceeds_cap (some ms))) r w
        else record again { requests = r ∷ again.requests; sleeps = ms ∷ again.sleeps }
  ]

  -- The loop over `range(attempt, max_retries + 1)`, with `left` retries to go.
  unfoldable pub attempts : (left attempt : ℕ) → Request → W → Ran W
  unfolding on_429 read_retry_after
  attempts zero attempt r w =
      let (a, w') = wrapped r w in
      elim a [
        | transport_error text ↦ ends (raised text) r w'
        | response resp ↦
            if resp.status == 429
            then ends (rate_limited (out_of_retries (read_retry_after float resp))) r w'
            else ends (returned resp) r w'
      ]
  attempts (suc left) attempt r w =
      let (a, w') = wrapped r w in
      let again = attempts left (suc attempt) r w' in
      elim a [
        | transport_error text ↦ ends (raised text) r w'
        | response resp ↦
            if resp.status == 429
            then on_429 attempt r (read_retry_after float resp) w' again
            else ends (returned resp) r w'
      ]

-- `handle_async_request`
unfoldable pub handle_async_request :
    {W : Type 0} (float : String → Option Float) (wrapped : Request → W → Answer × W)
    → Option String
    → String
    → Request
    → W
    → Ran W
unfolding attempts stamp_idempotency_key
handle_async_request float wrapped override uuid r w =
    attempts retry_after_cap float wrapped max_429_retries 0 (stamp_idempotency_key override uuid r)
      w
