-- ===== src/Tests/Mail.antt =====
-- A mail that is sent, on concrete data.
use open_claw_bridge.Prelude.{◌≡◌, refl, Option, none, some, [], ◌∷◌, str_eq}
use open_claw_bridge.Email.Smtp.{
  Mail, SmtpAccount, SendRequest, queued, connect, ehlo, starttls, login, quit, send_message,
  smtp_exception, compose, Fault, Log, Command, send_email,
}
use open_claw_bridge.Email.Smtp.Secure.{IsSafe, recipients, send_email_lem}

abbrev account : SmtpAccount
account = record { name = "lopes"; address = "g@lopes.org" }

abbrev request : SendRequest
request = record {
  to = "ana@x.org" ∷ [];
  cc = "bo@x.org" ∷ [];
  bcc = "cy@x.org" ∷ [];
  subject = "Lunch";
  body_text = some "At one?";
  body_html = none;
  in_reply_to = none;
}

abbrev refuses_tls : Log → Command → Option Fault
refuses_tls before starttls = some (smtp_exception "454")
refuses_tls before connect = none
refuses_tls before ehlo = none
refuses_tls before login = none
refuses_tls before quit = none
refuses_tls before (send_message m tos) = none

abbrev mail : (Log → Command → Option Fault) → Mail
mail meets = record {
  refuses = λ m. none;
  meets = meets;
  refuses_address = λ m a. str_eq a "bo@x.org";
}

-- With no fault the six commands go out, and the message's id comes back.
sent_run :
    send_email "lopes" (some account) "<1@lopes.org>" "now" (mail (λ before c. none)) request ≡ (
      queued "<1@lopes.org>" "now",
      connect
          ∷ ehlo
          ∷ starttls
          ∷ ehlo
          ∷ login
          ∷ send_message (compose account "<1@lopes.org>" request) (recipients request)
          ∷ quit
          ∷ [],
    )
unfolding send_email compose
sent_run = refl

-- A server that refuses to encrypt sees no password.
refused_run :
    (send_email "lopes" (some account) "<1@lopes.org>" "now" (mail refuses_tls) request).1
    ≡ (connect ∷ ehlo ∷ starttls ∷ quit ∷ [])
unfolding send_email
refused_run = refl

send_email_lem_example :
    IsSafe
      (some account)
      "<1@lopes.org>"
      "now"
      (mail refuses_tls)
      request
      (send_email "lopes" (some account) "<1@lopes.org>" "now" (mail refuses_tls) request)
send_email_lem_example =
    send_email_lem "lopes" (some account) "<1@lopes.org>" "now" (mail refuses_tls) request
