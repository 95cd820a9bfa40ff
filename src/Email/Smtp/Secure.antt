-- ===== src/Email/Smtp/Secure.antt =====
-- What a send does to the mail server's channel, and what it sends.
use open_claw_bridge.Prelude.{
  String, ◌≡◌, refl, ◌⊎◌, inl, inr, Bool, true, false, not, ◌&&◌, ◌||◌, Option, none, some, List,
  [], ◌∷◌, ◌++◌, arith, Option-cases, is_some, filter,
}
use open_claw_bridge.Errors.{BridgeError, error, dependency_unavailable, text}
use open_claw_bridge.Email.Smtp.{
  Composed, Command, connect, ehlo, starttls, login, quit, send_message, Fault, Log, Mail,
  SmtpAccount, Ended, queued, failed, crashed, SendRequest, is_given, is_address, compose, attempt,
  ended, finally, not_connected, deliver, sync_send, send, check_addresses, check_request,
  send_email,
}

-- What a connection may carry: signing in stands behind encryption, a message behind signing in.
pub data Channel : Type 0 where
  down plain encrypted signed_in : Channel

-- The channel after a command and what it met, `none` where the command has no place.
unfoldable pub next : Channel → Command → Option Fault → Option Channel
next down connect none = some plain
next down connect (some f) = some down
next plain ehlo o = some plain
next plain starttls none = some encrypted
next plain starttls (some f) = some plain
next encrypted ehlo o = some encrypted
next encrypted login none = some signed_in
next encrypted login (some f) = some encrypted
next signed_in (send_message m tos) o = some signed_in
next down c o = none
next plain quit o = some down
next encrypted quit o = some down
next signed_in quit o = some down
next plain c o = none
next encrypted c o = none
next signed_in c o = none

unfoldable pub talk : Mail → (before : Log) → Option Channel → Log → Option Channel
unfolding next
talk mail before none cs = none
talk mail before (some s) [] = some s
talk mail before (some s) (c ∷ cs) =
    talk mail (before ++ c ∷ []) (next s c (mail.meets before c)) cs

-- Whom a message reaches: the recipients that the server does not refuse.
abbrev pub taken : Mail → Composed → List String → List String
taken mail m = filter (λ a. not (mail.refuses_address m a))

-- The messages that a command met no fault on, with those whom they reach.
unfoldable pub sent : Mail → (before : Log) → Log → List (Composed × List String)
sent mail before [] = []
sent mail before (send_message m tos ∷ cs) =
    let rest = sent mail (before ++ send_message m tos ∷ []) cs in
    elim (mail.meets before (send_message m tos)) [
      | some f ↦ rest
      | none ↦ (m, taken mail m tos) ∷ rest
    ]
sent mail before (c ∷ cs) = sent mail (before ++ c ∷ []) cs

deliver-talk :
    (account : SmtpAccount) (id now : String) (mail : Mail) (msg : Composed) (tos : List String)
    → talk mail [] (some down) (deliver account id now mail msg tos).1 ≡ some down
unfolding talk next deliver attempt
deliver-talk account id now mail msg tos = ground arith

abbrev pub is_queued : Ended → Bool
is_queued (queued i t) = true
is_queued (failed e) = false
is_queued (crashed e) = false

-- Nothing is sent and the caller is not told that it is queued; or these messages are sent, to these
-- recipients, and the caller is told the id, or an exception is raised.
abbrev pub Reported :
    (id now : String) → Mail → List (Composed × List String) → Ended × Log → Type 0
Reported id now mail expected res =
    ((sent mail [] res.1 ≡ []) × (is_queued res.0 ≡ false))
    ⊎ ((sent mail [] res.1 ≡ expected)
        × ((res.0 ≡ queued id now) ⊎ ((e : String) × (res.0 ≡ crashed e))))

deliver-Reported :
    (account : SmtpAccount) (id now : String) (mail : Mail) (msg : Composed) (tos : List String)
    → Reported id now mail ((msg, taken mail msg tos) ∷ []) (deliver account id now mail msg tos)
unfolding sent deliver attempt ended finally not_connected
deliver-Reported account id now mail msg tos = ground arith

unfoldable pub all_addresses : List String → Bool
all_addresses [] = true
all_addresses (v ∷ vs) = is_address v && all_addresses vs

all_addresses-append :
    (vs ws : List String) → all_addresses (vs ++ ws) ≡ (all_addresses vs && all_addresses ws)
unfolding all_addresses
all_addresses-append [] ws = ground arith
all_addresses-append (v ∷ vs) ws = ground (arith, all_addresses-append vs ws)

check_addresses-all :
    (label : String) (vs : List String)
    → is_some (check_addresses label vs) ≡ not (all_addresses vs)
unfolding check_addresses all_addresses
check_addresses-all label [] = ground arith
check_addresses-all label (v ∷ vs) = ground (arith, check_addresses-all label vs)

abbrev pub recipients : SendRequest → List String
recipients r = r.to ++ (r.cc ++ r.bcc)

check_request-all :
    (r : SendRequest) → is_some (check_request r) ≡ not (all_addresses (recipients r))
unfolding check_request
check_request-all r = ground (
  arith,
  check_addresses-all "to" r.to,
  check_addresses-all "cc" r.cc,
  check_addresses-all "bcc" r.bcc,
  all_addresses-append r.to (r.cc ++ r.bcc),
  all_addresses-append r.cc r.bcc,
)

-- The request is one that may be sent.
abbrev pub is_sendable : Option SmtpAccount → SendRequest → Bool
is_sendable provider r =
    all_addresses (recipients r)
    && (is_some provider && (is_given r.body_text || is_given r.body_html))

abbrev pub expected :
    Option SmtpAccount → (message_id : String) → Mail → SendRequest → List (Composed × List String)
expected none id mail r = []
expected (some p) id mail r = (compose p id r, taken mail (compose p id r) (recipients r)) ∷ []

send-talk :
    (p : SmtpAccount) (id now : String) (mail : Mail) (r : SendRequest)
    → talk mail [] (some down) (send p id now mail r).1 ≡ some down
unfolding send sync_send talk
send-talk p id now mail r =
    ground (arith, deliver-talk p id now mail (compose p id r) (recipients r))

send-Reported :
    (p : SmtpAccount) (id now : String) (mail : Mail) (r : SendRequest)
    → Reported id now mail (expected (some p) id mail r) (send p id now mail r)
unfolding send sync_send sent
send-Reported p id now mail r =
    ground (arith, deliver-Reported p id now mail (compose p id r) (recipients r))

send-body :
    (p : SmtpAccount) (id now : String) (mail : Mail) (r : SendRequest)
    → ((is_given r.body_text || is_given r.body_html) ≡ true) ⊎ ((send p id now mail r).1 ≡ [])
unfolding send
send-body p id now mail r = ground arith

checked-all :
    (r : SendRequest) (o : Option BridgeError)
    → check_request r ≡ o
    → all_addresses (recipients r) ≡ not (is_some o)
checked-all r o h = ground (arith, check_request-all r)

refused :
    (account : String) (provider : Option SmtpAccount) (id now : String) (mail : Mail)
    (r : SendRequest) (e : BridgeError)
    → check_request r ≡ some e
    → send_email account provider id now mail r ≡ (failed e, [])
unfolding send_email
refused account provider id now mail r e h = ground arith

accepted :
    (account : String) (p : SmtpAccount) (id now : String) (mail : Mail) (r : SendRequest)
    → check_request r ≡ none
    → send_email account (some p) id now mail r ≡ send p id now mail r
unfolding send_email
accepted account p id now mail r h = ground arith

no_account :
    (account : String) (id now : String) (mail : Mail) (r : SendRequest)
    → check_request r ≡ none
    → send_email account none id now mail r ≡ (
      failed (
          error dependency_unavailable "Email account not configured."
            (("account", text account) ∷ ("missing", text "smtp_provider") ∷ [])),
      [],
    )
unfolding send_email
no_account account id now mail r h = ground arith

-- The statement of `send_email_lem`.
abbrev pub IsSafe :
    Option SmtpAccount → (id now : String) → Mail → SendRequest → Ended × Log → Type 0
IsSafe provider id now mail r res =
    (talk mail [] (some down) res.1 ≡ some down)
    × ((is_sendable provider r ≡ true) ⊎ (res.1 ≡ []))
    × Reported id now mail (expected provider id mail r) res

accepted-IsSafe :
    (account : String) (provider : Option SmtpAccount) (id now : String) (mail : Mail)
    (r : SendRequest)
    → check_request r ≡ none
    → IsSafe provider id now mail r (send_email account provider id now mail r)
unfolding sent talk
accepted-IsSafe account none id now mail r h =
    rw (no_account account id now mail r h) (refl, inr refl, inl (refl, refl))
accepted-IsSafe account (some p) id now mail r h = rw (accepted account p id now mail r h) (
  send-talk p id now mail r,
  ground (arith, checked-all r none h, send-body p id now mail r),
  send-Reported p id now mail r,
)

-- Whatever the mail server and the mail library answer: a send opens the connection first and closes it
-- at its end, the password goes out only after encryption is on, and the message only after signing in.
-- Nothing goes out for a request with an invalid address in any list, without a body or without an
-- account. Either no message is accepted, and the caller is not told that one is queued; or the one
-- message that is composed of the request is accepted, and reaches those of to, cc and bcc that the
-- server does not refuse. The caller is then told its id, whoever was refused, or an exception is raised,
-- since closing can fail.
pub send_email_lem :
    (account : String) (provider : Option SmtpAccount) (id now : String) (mail : Mail)
    (r : SendRequest)
    → IsSafe provider id now mail r (send_email account provider id now mail r)
unfolding sent talk
send_email_lem account provider id now mail r = elim (Option-cases (check_request r)) [
  | inl h ↦ accepted-IsSafe account provider id now mail r h
  | inr (e, h) ↦ rw (refused account provider id now mail r e h) (refl, inr refl, inl (refl, refl))
]
