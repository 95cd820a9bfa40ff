-- ===== src/Email/Imap.antt =====
-- bridge/src/bridge/providers/email/imap.py: a session with a mail server, the list of threads and one
-- thread. The server is what it replies to each command; the parsing of a message and of an ISO date are
-- parameters.
pub mod Threads
pub mod Session
pub mod Listed
use open_claw_bridge.Prelude.{
  ℕ, zero, suc, ◌+◌, ◌-◌, ◌*◌, ◌/◌, ◌%◌, ◌^◌, ◌≤◌, ◌<◌, min, max, String, text_length, utf8_length,
  ◌≡◌, refl, sym, ap, ◌∙◌, ◌≢◌, ◌↔◌, ◌⊎◌, inl, inr, Bool, true, false, not, ◌&&◌, ◌||◌, Option,
  none, some, List, [], ◌∷◌, ◌++◌, map, append-nil, append_assoc, arith, str_eq, eq_iff, eq_refl,
  ltb, leb, ◌==◌, if◌then◌else◌, Bool-cases, Option-cases, concat, concat_one, concat_nil,
  take_text, is_empty, or_else, text_mem, is_space, is_blank, length, length-append, get_or,
  is_some, filter, find, any, All, reverse, Forward,
}
use open_claw_bridge.Errors.{
  Result, ok, err, BridgeError, error, dependency_unavailable, not_found, text,
}
use open_claw_bridge.Server.{Exec, pure, raise, ◌>>=◌, ◌>>◌}
use open_claw_bridge.Apple.Script.{same}
use open_claw_bridge.Apple.Runner.{strip}
use open_claw_bridge.Email.Parse.{Text, ℤ, pos, negsuc, is_digit, parse_thread_response}
use open_claw_bridge.Email.Tree.{value}
use open_claw_bridge.Email.ThreadId.{Utf8, encode_thread_id}

-- The fields of a message that the listing reads.
pub record EmailMessage : Type 0 where
  pub id : Text
  pub message_id : Text
  pub from : Text
  pub subject : Text
  pub date : Text
  pub body_text : Option Text
  pub body_html : Option Text

pub record ThreadSummary : Type 0 where
  pub id : Text
  pub subject : Text
  pub participants : List Text
  pub message_count : ℕ
  pub latest_at : Text
  pub snippet : Text

pub record ThreadDetail : Type 0 where
  pub id : Text
  pub subject : Text
  pub messages : List EmailMessage

-- `DepStatus`; `up` is its "ok".
pub data DepStatus : Type 0 where
  up degraded down : DepStatus

-- What a command gives: an `IMAP4.error` with its text, or a status and its data.
pub data Reply (A : Type 0) : Type 0 where
  raised : String → Reply A
  answered : (typ : String) → A → Reply A

-- `thread` gives `data[0]`, if there is one; `search` the words of its data; `fetch` its entries, each the
-- bytes of a message or none.
pub record ImapServer : Type 0 where
  pub connect_fault : Option String
  pub login : Reply (Unit {0})
  pub select : Reply (Unit {0})
  pub thread : List String → Reply (Option Text)
  pub search : String → Reply (List Text)
  pub fetch : ℤ → Reply (List (Option String))
  pub noop : Reply (Unit {0})

pub data Command : Type 0 where
  connect login select noop logout : Command
  thread : (criteria : List String) → Command
  search : (root_message_id : String) → Command
  fetch : ℤ → Command

abbrev pub Log : Type 0
Log = List Command

-- A command is sent.
abbrev pub send : Command → Exec Log (Unit {0})
send c log = (ok tt, log ++ c ∷ [])

abbrev pub is_ok : String → Bool
is_ok typ = str_eq typ "OK"

abbrev pub unavailable : String → String → (key value : String) → BridgeError
unavailable message account key v =
    error dependency_unavailable message (("account", text account) ∷ (key, text v) ∷ [])

-- The `try` block of `_connect` up to the `yield`.
unfoldable pub log_in : ImapServer → (account : String) → Exec Log (Unit {0})
log_in server account = do
  send login
  elim server.login [
    | raised e ↦ raise (unavailable "IMAP login failed." account "error" e)
    | answered typ a ↦
        if is_ok typ
        then pure tt
        else raise (unavailable "IMAP login refused." account "status" typ)
  ]

-- `finally`: what the block raised stays raised, and an error of `logout` is logged and no more.
unfoldable pub finally : {A : Type 0} → Exec Log A → Exec Log A
finally m log = let (r, log') = m log in (r, log' ++ logout ∷ [])

-- `with self._connect() as imap:` around a block.
unfoldable pub with_connect :
    {A : Type 0} → ImapServer → (account : String) → Exec Log A → Exec Log A
unfolding log_in finally
with_connect server account block = do
  send connect
  elim server.connect_fault [
    | some e ↦ raise (unavailable "IMAP connect failed." account "error" e)
    | none ↦ finally (log_in server account >> block)
  ]

-- `_select_inbox`
unfoldable pub select_inbox : ImapServer → Exec Log (Unit {0})
select_inbox server = do
  send select
  elim server.select [
    | raised e ↦
        raise (error dependency_unavailable "IMAP SELECT INBOX failed." (("error", text e) ∷ []))
    | answered typ a ↦
        if is_ok typ
        then pure tt
        else raise
            (error dependency_unavailable "IMAP SELECT INBOX refused." (("status", text typ) ∷ []))
  ]

-- `fromisoformat` and `strftime("%d-%b-%Y")`, or the text of the `ValueError`.
pub data Dated : Type 0 where
  dated : String → Dated
  invalid : String → Dated

-- `if v:`
abbrev pub is_given : Option String → Bool
is_given none = false
is_given (some s) = not (is_empty s)

-- The `try` block of `_build_search_criteria`, from the library's answer on.
unfoldable pub on_date : (before : String) → Dated → Exec Log (List String)
on_date before (dated d) = pure ("BEFORE" ∷ d ∷ [])
on_date before (invalid e) = raise (
    error dependency_unavailable "Invalid `before` date for IMAP SEARCH."
      (("value", text before) ∷ ("error", text e) ∷ []))

-- What follows it.
unfoldable pub with_query : Option String → List String → List String
with_query query parts =
    let all = if is_given query then parts ++ "TEXT" ∷ get_or query "" ∷ [] else parts in
    elim all [ [] ↦ "ALL" ∷ [] | p ∷ ps ↦ p ∷ ps ]

-- `_build_search_criteria`
unfoldable pub build_search_criteria :
    (String → Dated) → (query before : Option String) → Exec Log (List String)
unfolding on_date with_query
build_search_criteria imap_date query before = do
  parts ←
      if is_given before then on_date (get_or before "") (imap_date (get_or before "")) else pure []
  pure (with_query query parts)

-- `parse_imap_message`
abbrev pub Parse : Type 0
Parse = ℤ → String → EmailMessage

-- The loop over the entries of a FETCH: the first that is a message.
abbrev pub first_message : List (Option String) → Option String
first_message [] = none
first_message (none ∷ entries) = first_message entries
first_message (some raw ∷ entries) = some raw

unfoldable pub fetched : Parse → ℤ → Reply (List (Option String)) → Option EmailMessage
fetched parse uid (raised e) = none
fetched parse uid (answered typ entries) =
    if is_ok typ
    then elim (first_message entries) [ none ↦ none | some raw ↦ some (parse uid raw) ]
    else none

-- `_fetch_message`
unfoldable pub fetch_message : Parse → ImapServer → ℤ → Exec Log (Option EmailMessage)
unfolding fetched
fetch_message parse server uid = do send (fetch uid); pure (fetched parse uid (server.fetch uid))

abbrev pub last : ℤ → List ℤ → ℤ
last x [] = x
last x (y ∷ ys) = last y ys

abbrev pub same_int : ℤ → ℤ → Bool
same_int (pos m) (pos n) = m == n
same_int (negsuc m) (negsuc n) = m == n
same_int _ _ = false

abbrev pub is_filled : Text → Bool
is_filled [] = false
is_filled (c ∷ s) = true

-- One turn of the loop of `_collect_participants`.
unfoldable pub seen_also : Option EmailMessage → List Text → List Text
unfolding same
seen_also none seen = seen
seen_also (some m) seen =
    if is_filled m.from && not (any (same m.from) seen) then seen ++ m.from ∷ [] else seen

-- `_collect_participants`
unfoldable pub collect_participants : Parse → ImapServer → ℤ → List ℤ → Exec Log (List Text)
unfolding fetch_message seen_also
collect_participants parse server x xs = do
  root ← fetch_message parse server x
  latest ← fetch_message parse server (last x xs)
  pure (seen_also latest (seen_also root []))

-- `m.body_text or m.body_html or ""`
abbrev pub body_of : EmailMessage → Text
body_of m =
    let html = get_or m.body_html [] in
    elim m.body_text [ none ↦ html | some t ↦ if is_filled t then t else html ]

abbrev pub take_chars : ℕ → Text → Text
take_chars zero s = []
take_chars (suc n) [] = []
take_chars (suc n) (c ∷ s) = c ∷ take_chars n s

-- `_SNIPPET_LEN`
abbrev pub snippet_len : ℕ
snippet_len = 200
