-- ===== src/Idempotency.antt =====
-- bridge/src/bridge/idempotency.py: the ASGI middleware that caches the answers to POST requests by
-- their `Idempotency-Key`, and its table in idempotency.db.
pub mod Rows
pub mod Replay
pub mod Interleaving
use open_claw_bridge.Prelude.{
  ℕ, zero, suc, ◌+◌, ◌-◌, ◌*◌, ◌/◌, ◌%◌, ◌^◌, ◌≤◌, ◌<◌, min, max, String, text_length, utf8_length,
  ◌≡◌, refl, sym, ap, ◌∙◌, ◌≢◌, ◌↔◌, ◌⊎◌, inl, inr, Bool, true, false, not, ◌&&◌, ◌||◌, Option,
  none, some, List, [], ◌∷◌, ◌++◌, map, append-nil, append_assoc, arith, str_eq, eq_iff, eq_refl,
  ltb, leb, ◌==◌, if◌then◌else◌, Bool-cases, Option-cases, concat, concat_one, concat_nil,
  take_text, is_empty, or_else, text_mem, is_space, is_blank, length, length-append, get_or,
  is_some, filter, find, any, All, reverse, Forward,
}
use open_claw_bridge.Asgi.{
  Header, Library, Incoming, request, disconnect, Message, start, body, Scope, read_header,
  drain_body, replayer, envelope, Ran, Application,
}

-- A row of the table `idempotency`.
pub record Row : Type 0 where
  pub key : String
  pub body_hash : String
  pub status : ℕ
  pub headers : String
  pub body : String
  pub created_at : ℕ

abbrev pub ttl_seconds : ℕ
ttl_seconds = 86400

abbrev pub fresh : ℕ → Row → Bool
fresh now r = leb (now - ttl_seconds) r.created_at

-- `_prune_expired`. The clock is past the first day of the epoch, so `-` is Python's.
unfoldable pub prune_expired : ℕ → List Row → List Row
prune_expired now rows = filter (fresh now) rows

abbrev pub has_key : String → Row → Bool
has_key k r = str_eq r.key k

-- The SELECT of `_lookup`; the key is the primary key.
abbrev pub select : String → List Row → Option Row
select k rows = find (has_key k) rows

-- `n.lower() not in _STRIPPED_RESPONSE_HEADERS`
abbrev pub kept : Library → Header → Bool
kept lib (n, v) =
    not (text_mem (lib.lower n) ("content-length" ∷ "x-request-id" ∷ "x-bridge-version" ∷ []))

-- `_store`: INSERT OR REPLACE.
unfoldable pub store :
    Library → String → String → ℕ → List Header → String → ℕ → List Row → List Row
store lib k hash status headers b time rows =
    filter (λ r. not (has_key k r)) rows
    ++ record {
      key = k;
      body_hash = hash;
      status = status;
      headers = lib.dumps (filter (kept lib) headers);
      body = b;
      created_at = time;
    }
      ∷ []

-- `_send_cached`
unfoldable pub send_cached : Library → Row → List Message
send_cached lib r =
    start r.status (
      lib.loads r.headers
      ++ ("x-idempotency-replay", "true")
        ∷ ("content-length", lib.decimal (text_length r.body))
        ∷ [])
    ∷ body r.body
    ∷ []

-- `_send_error`
unfoldable pub send_error : Library → ℕ → String → String → String → List Message
send_error lib status code message request_id =
    let b = envelope lib code message request_id in
    start status
      (("content-type", "application/json") ∷ ("content-length", lib.decimal (utf8_length b)) ∷ [])
    ∷ body b
    ∷ []

-- `_Captured`, after `send_capturing` has seen the messages.
pub record Captured : Type 0 where
  pub status : Option ℕ
  pub headers : List Header
  pub body_chunks : List String

unfoldable pub capture : Captured → List Message → Captured
capture c [] = c
capture c (start s hs ∷ ms) = capture (record c { status = some s; headers = hs }) ms
capture c (body b ∷ ms) = capture (record c { body_chunks = c.body_chunks ++ b ∷ [] }) ms

-- `200 <= captured.status < 300`
abbrev pub is_success : Option ℕ → Bool
is_success none = false
is_success (some s) = leb 200 s && ltb s 300

-- `conn` is `app.state.idempotency_conn`; `store_fault` says whether the INSERT raises `sqlite3.Error`.
pub record World (S : Type 0) : Type 0 where
  pub conn : Option (List Row)
  pub store_fault : Bool
  pub inner : S

-- One call of the middleware: the request, and the clock at the lookup and at the store.
pub record Call : Type 0 where
  pub scope : Scope
  pub input : List Incoming
  pub now : ℕ
  pub time : ℕ

pub record Reply : Type 0 where
  pub sent : List Message
  pub raised : Option String

abbrev pub no_reply : Captured
no_reply = record { status = none; headers = []; body_chunks = [] }

abbrev pub is_post : Scope → Bool
is_post s = str_eq s.type "http" && str_eq s.method "POST"

-- `_read_header` and the `not key` that follows it.
abbrev pub idempotency_key : Scope → Option String
idempotency_key s = elim (read_header s.headers "idempotency-key") [
  | none ↦ none
  | some k ↦ if is_empty k then none else some k
]

module _ {S : Type 0} (lib : Library) (app : Application S) where
  -- `self.app(scope, receive, send)`
  unfoldable pub forward : Scope → List Incoming → World S → Reply × World S
  forward scope input w =
      let ran = app scope input w.inner in
      (record { sent = ran.sent; raised = ran.raised }, record w { inner = ran.state })

  -- The rows after a run of the application: an exception leaves `__call__` before `_store`.
  unfoldable pub remember : Call → String → String → Ran S → World S → List Row → List Row
  remember c k b ran w rows =
      let got = capture no_reply ran.sent in
      elim ran.raised [
        | some e ↦ rows
        | none ↦
            if is_success got.status && not w.store_fault
            then store lib k (lib.sha256 b) (get_or got.status 0) got.headers
                (concat got.body_chunks) c.time rows
            else rows
      ]

  -- A cache miss.
  unfoldable pub run_and_store :
      Call → String → String → List Incoming → World S → List Row → Reply × World S
  unfolding remember
  run_and_store c k b extras w rows =
      let ran = app c.scope (replayer b extras) w.inner in
      (
        record { sent = ran.sent; raised = ran.raised },
        record w { inner = ran.state; conn = some (remember c k b ran w rows) },
      )

  -- The answer to a hit.
  unfoldable pub answer_cached : Scope → String → Row → List Message
  answer_cached scope b r =
      if str_eq r.body_hash (lib.sha256 b)
      then send_cached lib r
      else send_error lib 409 "idempotency_replay"
          "Same Idempotency-Key was used with a different request body." scope.request_id

  -- From the buffered body on.
  unfoldable pub keyed : Call → String → String → List Incoming → World S → Reply × World S
  unfolding forward run_and_store answer_cached
  keyed c k b extras w = elim w.conn [
    | none ↦ forward c.scope (replayer b extras) w
    | some rows ↦
        let pruned = prune_expired c.now rows in
        elim (select k pruned) [
          | some r ↦ (
            record { sent = answer_cached c.scope b r; raised = none },
            record w { conn = some pruned },
          )
          | none ↦ run_and_store c k b extras w pruned
        ]
  ]

  -- `IdempotencyMiddleware.__call__`; `none` waits for a body that does not come.
  unfoldable pub call : Call → World S → Option (Reply × World S)
  unfolding keyed
  call c w =
      if is_post c.scope
      then elim (idempotency_key c.scope) [
        | none ↦ some (forward c.scope c.input w)
        | some k ↦ elim (drain_body c.input) [
          | none ↦ none
          | some (b, extras) ↦ some (keyed c k b extras w)
        ]
      ]
      else some (forward c.scope c.input w)
