-- ===== src/Asgi.antt =====
-- What the ASGI middlewares of bridge/src/bridge/idempotency.py and middleware.py share: requests, the
-- messages of a response, and the application inside, a function of the scope, of the messages that it
-- can receive and of its own state.
--
-- Bytes are texts, a byte to a character, as `decode("latin-1")` reads them. What the middlewares call
-- in Python's library is a `Library`.
use open_claw_bridge.Prelude.{
  ℕ, String, Bool, true, false, Option, none, some, List, [], ◌∷◌, str_eq, if◌then◌else◌, concat,
}

abbrev pub Header : Type 0
Header = String × String

-- hashlib.sha256, json.dumps and json.loads on a list of header pairs, bytes.lower, str(int), and json.dumps on a
-- text.
pub record Library : Type 0 where
  pub sha256 : String → String
  pub dumps : List Header → String
  pub loads : String → List Header
  pub lower : String → String
  pub decimal : ℕ → String
  pub quoted : String → String

-- What `receive` returns: `http.request`, or anything else.
pub data Incoming : Type 0 where
  request : (body : String) (more_body : Bool) → Incoming
  disconnect : Incoming

-- What `send` is called with.
pub data Message : Type 0 where
  start : (status : ℕ) (headers : List Header) → Message
  body : (bytes : String) → Message

pub record Scope : Type 0 where
  pub type : String
  pub method : String
  pub path : String
  pub headers : List Header
  pub request_id : String

-- `_read_header`
unfoldable pub read_header : List Header → String → Option String
read_header [] name = none
read_header ((n, v) ∷ rest) name = if str_eq n name then some v else read_header rest name

-- `_drain_body`: the body and the extra messages; `none` if `receive` has no more to return, where the
-- source waits.
unfoldable pub drain_body : List Incoming → Option (String × List Incoming)
drain_body [] = none
drain_body (disconnect ∷ rest) = some ("", disconnect ∷ [])
drain_body (request b false ∷ rest) = some (b, [])
drain_body (request b true ∷ rest) = elim (drain_body rest) [
  | none ↦ none
  | some (c, extras) ↦ some (concat (b ∷ c ∷ []), extras)
]

-- `_replayer`: what the application receives, before disconnects without end.
abbrev pub replayer : String → List Incoming → List Incoming
replayer b extras = request b false ∷ extras

-- The JSON text of the error envelope.
abbrev pub envelope : Library → String → String → String → String
envelope lib code message request_id = concat (
    "{\"error\": {\"code\": "
    ∷ lib.quoted code
    ∷ ", \"message\": "
    ∷ lib.quoted message
    ∷ ", \"details\": {}, \"request_id\": "
    ∷ lib.quoted request_id
    ∷ "}}"
    ∷ [])

-- What the application did: the messages it sent, the exception it raised, and its state.
pub record Ran (S : Type 0) : Type 0 where
  pub sent : List Message
  pub raised : Option String
  pub state : S

abbrev pub Application : Type 0 → Type 0
Application S = Scope → List Incoming → S → Ran S
