-- ===== src/Email/Smtp.antt =====
-- bridge/src/bridge/providers/email/smtp.py and the send route of bridge/src/bridge/routes/email.py. The
-- server is what each command meets; Message-IDs and the clock are arguments.
pub mod Secure
use open_claw_bridge.Prelude.{
  ℕ, String, Bool, true, false, not, ◌&&◌, ◌||◌, Option, none, some, List, [], ◌∷◌, ◌++◌, ◌==◌,
  if◌then◌else◌, concat, is_empty, get_or, any,
}
use open_claw_bridge.Errors.{BridgeError, error, bad_request, dependency_unavailable, text}
use open_claw_bridge.Relay.Outbound.{codes}

-- The fields of the message that `_compose` sets, and its bodies.
pub record Composed : Type 0 where
  pub headers : List (String × String)
  pub plain : Option String
  pub html : Option String

pub data Command : Type 0 where
  connect ehlo starttls login quit : Command
  send_message : Composed → (to_addrs : List String) → Command

-- What a command raises. An `SMTPException` is an `OSError` too.
pub data Fault : Type 0 where
  smtp_exception : String → Fault
  os_error : String → Fault
  other : String → Fault

pub record SmtpAccount : Type 0 where
  pub name : String
  pub address : String

-- How a send ends: with the id and the time, a `BridgeError`, or an exception that nothing catches.
pub data Ended : Type 0 where
  queued : (message_id queued_at : String) → Ended
  failed : BridgeError → Ended
  crashed : String → Ended

abbrev pub Log : Type 0
Log = List Command

-- The libraries: what the email package raises on the fields that are set, what a command meets after the
-- commands before it, and the addresses that the server refuses of a message that it takes.
-- `send_message` returns those as a dict, without an exception while one address is taken.
pub record Mail : Type 0 where
  pub refuses : Composed → Option String
  pub meets : Log → Command → Option Fault
  pub refuses_address : Composed → String → Bool

pub record SendRequest : Type 0 where
  pub to : List String
  pub cc : List String
  pub bcc : List String
  pub subject : String
  pub body_text : Option String
  pub body_html : Option String
  pub in_reply_to : Option String

abbrev pub is_given : Option String → Bool
is_given none = false
is_given (some s) = not (is_empty s)

-- `sep.join(ts)`
abbrev pub join : String → List String → String
join sep [] = ""
join sep (t ∷ []) = t
join sep (t ∷ u ∷ ts) = concat (t ∷ sep ∷ join sep (u ∷ ts) ∷ [])

abbrev pub is_some_of : List String → Bool
is_some_of [] = false
is_some_of (t ∷ ts) = true

abbrev pub header_if : Bool → String → String → List (String × String)
header_if b k v = if b then (k, v) ∷ [] else []

-- `_compose`; `message_id` is what `make_msgid` returns.
unfoldable pub compose : SmtpAccount → (message_id : String) → SendRequest → Composed
compose account message_id r = record {
  headers =
      ("From", account.address)
      ∷ ("To", join ", " r.to)
      ∷ (header_if (is_some_of r.cc) "Cc" (join ", " r.cc)
          ++ (("Subject", r.subject)
              ∷ ("Message-ID", message_id)
              ∷ (header_if (is_given r.in_reply_to) "In-Reply-To" (get_or r.in_reply_to "")
                  ++ header_if (is_given r.in_reply_to) "References" (get_or r.in_reply_to ""))));
  plain =
      if is_given r.body_text then r.body_text else if is_given r.body_html then none else some "";
  html = if is_given r.body_html then r.body_html else none;
}

-- The five calls of the inner `try`, up to the first that raises; `before` are the commands so far. What
-- the calls return is dropped, the addresses that `send_message` says were refused as well.
unfoldable pub attempt : Mail → (before : Log) → List Command → Option Fault × Log
attempt mail before [] = (none, before)
attempt mail before (c ∷ cs) =
    let rest = attempt mail (before ++ c ∷ []) cs in
    elim (mail.meets before c) [ some f ↦ (some f, before ++ c ∷ []) | none ↦ rest ]

abbrev pub steps : Composed → List String → List Command
steps msg recipients = ehlo ∷ starttls ∷ ehlo ∷ login ∷ send_message msg recipients ∷ []

abbrev pub unavailable : String → SmtpAccount → String → BridgeError
unavailable message account e =
    error dependency_unavailable message (("account", text account.name) ∷ ("error", text e) ∷ [])

-- The end of the inner `try`.
unfoldable pub ended : SmtpAccount → (message_id now : String) → Option Fault → Ended
ended account message_id now none = queued message_id now
ended account message_id now (some (smtp_exception e)) =
    failed (unavailable "SMTP send failed." account e)
ended account message_id now (some (os_error e)) = crashed e
ended account message_id now (some (other e)) = crashed e

-- The `finally`: an `SMTPException` of `quit` is swallowed, any other exception of it takes the place of
-- what went before.
unfoldable pub finally : (quit_fault : Option Fault) → Ended → Ended
finally none e = e
finally (some (smtp_exception x)) e = e
finally (some (os_error x)) e = crashed x
finally (some (other x)) e = crashed x

-- The first `except`.
unfoldable pub not_connected : SmtpAccount → Fault → Ended
not_connected account (smtp_exception e) = failed (unavailable "SMTP connect failed." account e)
not_connected account (os_error e) = failed (unavailable "SMTP connect failed." account e)
not_connected account (other e) = crashed e

-- `_sync_send`, from the connection on.
unfoldable pub deliver :
    SmtpAccount → (message_id now : String) → Mail → Composed → List String → Ended × Log
unfolding attempt ended finally not_connected
deliver account message_id now mail msg recipients = elim (mail.meets [] connect) [
  | some f ↦ (not_connected account f, connect ∷ [])
  | none ↦
      let (fault, log) = attempt mail (connect ∷ []) (steps msg recipients) in
      (finally (mail.meets log quit) (ended account message_id now fault), log ++ quit ∷ [])
]

-- `_sync_send`
unfoldable pub sync_send :
    SmtpAccount → (message_id now : String) → Mail → SendRequest → Ended × Log
unfolding compose deliver
sync_send account message_id now mail r =
    let msg = compose account message_id r in
    elim (mail.refuses msg) [
      | some e ↦ (crashed e, [])
      | none ↦ deliver account message_id now mail msg (r.to ++ (r.cc ++ r.bcc))
    ]

-- `SMTPProvider.send`
unfoldable pub send : SmtpAccount → (message_id now : String) → Mail → SendRequest → Ended × Log
unfolding sync_send
send account message_id now mail r =
    if is_given r.body_text || is_given r.body_html
    then sync_send account message_id now mail r
    else (
      failed (
          error dependency_unavailable "Email send requires body_text or body_html."
            (("reason", text "empty_body") ∷ [])),
      [],
    )

abbrev pub at_sign : ℕ
at_sign = 64

abbrev pub ends_with_at : List ℕ → Bool
ends_with_at [] = false
ends_with_at (c ∷ []) = c == at_sign
ends_with_at (c ∷ d ∷ s) = ends_with_at (d ∷ s)

abbrev pub starts_with_at : List ℕ → Bool
starts_with_at [] = false
starts_with_at (c ∷ s) = c == at_sign

-- The test of `_check_addresses`.
unfoldable pub is_address : String → Bool
is_address v =
    any (λ c. c == at_sign) (codes v)
    && (not (starts_with_at (codes v)) && not (ends_with_at (codes v)))

-- `_check_addresses`
unfoldable pub check_addresses : (label : String) → List String → Option BridgeError
unfolding is_address
check_addresses label [] = none
check_addresses label (v ∷ vs) =
    let rest = check_addresses label vs in
    if is_address v
    then rest
    else some (
        error bad_request (concat ("Invalid email address in " ∷ label ∷ "." ∷ []))
          (("field", text label) ∷ ("value", text v) ∷ []))

unfoldable pub check_request : SendRequest → Option BridgeError
unfolding check_addresses
check_request r = elim (check_addresses "to" r.to) [
  | some e ↦ some e
  | none ↦ elim (check_addresses "cc" r.cc) [ some e ↦ some e | none ↦ check_addresses "bcc" r.bcc ]
]

-- `send_email`; `provider` is what `_get_smtp` looks up under the name.
unfoldable pub send_email :
    (account : String)
    → (provider : Option SmtpAccount) → (message_id now : String) → Mail
    → SendRequest
    → Ended × Log
unfolding check_request send
send_email account provider message_id now mail r = elim (check_request r) [
  | some e ↦ (failed e, [])
  | none ↦ elim provider [
    | some p ↦ send p message_id now mail r
    | none ↦ (
      failed (
          error dependency_unavailable "Email account not configured."
            (("account", text account) ∷ ("missing", text "smtp_provider") ∷ [])),
      [],
    )
  ]
]
