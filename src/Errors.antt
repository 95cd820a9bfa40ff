-- ===== src/Errors.antt =====
-- bridge/src/bridge/errors.py: the exceptions that render as the API envelope, the map from raw
-- HTTP statuses to codes, and what each exception handler answers. A handler of a route is an
-- action on its state that may raise; what was written before a raise stays written.
use open_claw_bridge.Prelude.{
  ℕ, String, ◌≡◌, refl, ◌⊎◌, inl, inr, Bool, not, ◌&&◌, ◌||◌, Option, List, [], ◌∷◌, ◌==◌,
  if◌then◌else◌, is_empty, get_or,
}

-- One constructor for each subclass of `BridgeError`.
pub data ErrorKind : Type 0 where
  bad_request unauthorized forbidden_scope not_found conflict idempotency_replay : ErrorKind
  validation_failed rate_limited dependency_unavailable internal_error : ErrorKind

-- The class attribute `code`.
unfoldable pub code : ErrorKind → String
code bad_request = "bad_request"
code unauthorized = "unauthorized"
code forbidden_scope = "forbidden_scope"
code not_found = "not_found"
code conflict = "conflict"
code idempotency_replay = "idempotency_replay"
code validation_failed = "validation_failed"
code rate_limited = "rate_limited"
code dependency_unavailable = "dependency_unavailable"
code internal_error = "internal_error"

-- The class attribute `http_status`.
unfoldable pub http_status : ErrorKind → ℕ
http_status bad_request = 400
http_status unauthorized = 401
http_status forbidden_scope = 403
http_status not_found = 404
http_status conflict = 409
http_status idempotency_replay = 409
http_status validation_failed = 422
http_status rate_limited = 429
http_status dependency_unavailable = 502
http_status internal_error = 500

-- A value in `details`, or in a header, where a number stands for its decimal digits.
pub data Detail : Type 0 where
  text : String → Detail
  number : ℕ → Detail
  flag : Bool → Detail
  texts : List String → Detail
  null : Detail

abbrev pub Details : Type 0
Details = List (String × Detail)

pub record BridgeError : Type 0 where
  pub kind : ErrorKind
  pub message : String
  pub details : Details
  pub headers : Details

-- An exception with no extra headers.
abbrev pub error : ErrorKind → String → Details → BridgeError
error k m d = record { kind = k; message = m; details = d; headers = [] }

pub data Result {ℓ} (A : Type ℓ) : Type ℓ where
  ok : A → Result A
  err : BridgeError → Result A

pub Result-cases {ℓ} :
    {A : Type ℓ} (r : Result A) → ((e : BridgeError) × (r ≡ err e)) ⊎ ((a : A) × (r ≡ ok a))
Result-cases (ok a) = inr (a, refl)
Result-cases (err e) = inl (e, refl)

-- `envelope(...)`: the body of every response that is not 2xx.
pub record Envelope : Type 0 where
  pub code : String
  pub message : String
  pub details : Details
  pub request_id : String

pub record Response : Type 0 where
  pub status : ℕ
  pub content : Envelope
  pub headers : Details

-- `_request_id`: the id that the middleware stored, or the empty text.
abbrev pub request_id : Option String → String
request_id rid = get_or rid ""

unfoldable pub bridge_error_handler : Option String → BridgeError → Response
unfolding code http_status
bridge_error_handler rid exc = record {
  status = http_status exc.kind;
  content = record {
    code = code exc.kind;
    message = exc.message;
    details = exc.details;
    request_id = request_id rid;
  };
  headers = exc.headers;
}

-- `_HTTP_CODE_MAP` with its default.
unfoldable pub http_code_map : ℕ → String × String
http_code_map s =
    if s == 400
    then ("bad_request", "Malformed request.")
    else if s == 401
    then ("unauthorized", "Authentication required.")
    else if s == 403
    then ("forbidden_scope", "Token lacks required scope.")
    else if s == 404
    then ("not_found", "Resource not found.")
    else if s == 405
    then ("bad_request", "Method not allowed for this resource.")
    else if s == 409
    then ("conflict", "State precondition failed.")
    else if s == 422
    then ("validation_failed", "Request body failed validation.")
    else if s == 429
    then ("rate_limited", "Rate limit exceeded.")
    else if s == 502
    then ("dependency_unavailable", "Downstream dependency unavailable.")
    else ("internal_error", "Internal server error.")

-- `detail` is `none` where it is not a text.
unfoldable pub map_http_exception : ℕ → Option String → String × String
unfolding http_code_map
map_http_exception status detail =
    let (c, default_msg) = http_code_map status in
    let given : String = get_or detail "" in
    if not (is_empty given) && not (status == 404 || status == 405)
    then (c, given)
    else (c, default_msg)

unfoldable pub http_exception_handler : Option String → ℕ → Option String → Response
unfolding map_http_exception
http_exception_handler rid status detail =
    let (c, message) = map_http_exception status detail in
    record {
      status = status;
      content = record { code = c; message = message; details = []; request_id = request_id rid };
      headers = [];
    }

unfoldable pub validation_exception_handler : Option String → List String → Response
validation_exception_handler rid errors = record {
  status = 422;
  content = record {
    code = "validation_failed";
    message = "Request body failed validation.";
    details = ("errors", texts errors) ∷ [];
    request_id = request_id rid;
  };
  headers = [];
}

unfoldable pub unhandled_exception_handler : Option String → Response
unhandled_exception_handler rid = record {
  status = 500;
  content = record {
    code = "internal_error";
    message = "Internal server error.";
    details = [];
    request_id = request_id rid;
  };
  headers = [];
}
