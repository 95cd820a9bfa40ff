-- ===== src/Email/Imap/Threads.antt =====
-- The operations of `IMAPProvider`, of bridge/src/bridge/providers/email/imap.py.
use open_claw_bridge.Prelude.{
  ℕ, zero, suc, String, Bool, true, false, not, ◌&&◌, ◌||◌, Option, none, some, List, [], ◌∷◌, ltb,
  ◌==◌, if◌then◌else◌, length, get_or, any, reverse,
}
use open_claw_bridge.Errors.{ok, err, error, not_found, text}
use open_claw_bridge.Server.{Exec, pure, raise, ◌>>=◌, ◌>>◌}
use open_claw_bridge.Apple.Runner.{strip}
use open_claw_bridge.Relay.Outbound.{codes}
use open_claw_bridge.Email.Parse.{Text, ℤ, pos, is_digit, parse_thread_response}
use open_claw_bridge.Email.Tree.{value}
use open_claw_bridge.Email.ThreadId.{Utf8, encode_thread_id}
use open_claw_bridge.Email.Imap.{
  DepStatus, up, degraded, down, EmailMessage, ThreadSummary, ThreadDetail, Reply, raised, answered,
  ImapServer, thread, search, noop, Log, send, is_ok, unavailable, with_connect, select_inbox,
  Dated, build_search_criteria, Parse, fetch_message, last, same_int, collect_participants, body_of,
  take_chars, snippet_len, is_filled,
}

-- What the provider is made of, and the libraries that it calls.
pub record Provider : Type 0 where
  pub account : String
  pub server : ImapServer
  pub utf8 : Utf8
  pub parse : Parse
  pub imap_date : String → Dated

module _ (p : Provider) where
  -- The summary, from its parts on.
  unfoldable pub summary :
      EmailMessage → EmailMessage → (participants : List Text) → (count : ℕ) → ThreadSummary
  unfolding strip encode_thread_id
  summary root_msg latest_msg participants count = record {
    id = encode_thread_id p.utf8 (codes p.account) root_msg.message_id;
    subject = root_msg.subject;
    participants = participants;
    message_count = count;
    latest_at = latest_msg.date;
    snippet = take_chars snippet_len (strip (body_of latest_msg));
  }

  -- From the root's message on.
  unfoldable pub summarised : ℤ → List ℤ → Option EmailMessage → Exec Log (Option ThreadSummary)
  unfolding fetch_message collect_participants summary
  summarised x xs none = pure none
  summarised x xs (some root_msg) = do
    latest ←
        if same_int (last x xs) x
        then pure (some root_msg)
        else fetch_message p.parse p.server (last x xs)
    participants ← collect_participants p.parse p.server x xs
    pure (some (summary root_msg (get_or latest root_msg) participants (suc (length xs))))

  -- `_build_summary`
  unfoldable pub build_summary : ℤ → List ℤ → Exec Log (Option ThreadSummary)
  unfolding fetch_message summarised
  build_summary x xs = do root ← fetch_message p.parse p.server x; summarised x xs root

  abbrev pub cons_some : Option ThreadSummary → List ThreadSummary → List ThreadSummary
  cons_some none ts = ts
  cons_some (some t) ts = t ∷ ts

  -- The loop of `_sync_list_threads`; an empty thread is skipped.
  unfoldable pub summaries : List (List ℤ) → Exec Log (List ThreadSummary)
  unfolding build_summary
  summaries [] = pure []
  summaries ([] ∷ threads) = summaries threads
  summaries ((x ∷ xs) ∷ threads) = do
    s ← build_summary x xs
    rest ← summaries threads
    pure (cons_some s rest)

  abbrev pub take_threads : ℕ → List (List ℤ) → List (List ℤ)
  take_threads zero ts = []
  take_threads (suc n) [] = []
  take_threads (suc n) (t ∷ ts) = t ∷ take_threads n ts

  -- From the reply to THREAD on.
  unfoldable pub on_threads : ℕ → Reply (Option Text) → Exec Log (List ThreadSummary)
  unfolding summaries parse_thread_response
  on_threads limit (raised e) = raise (unavailable "IMAP THREAD failed." p.account "error" e)
  on_threads limit (answered typ none) = pure []
  on_threads limit (answered typ (some line)) =
      if is_ok typ && is_filled line
      then summaries (take_threads limit (reverse (parse_thread_response line)))
      else pure []

  -- `_sync_list_threads`: the block under `with`.
  unfoldable pub list_block :
      (query : Option String)
      → (limit : ℕ) → (before : Option String) → Exec Log (List ThreadSummary)
  unfolding select_inbox build_search_criteria on_threads
  list_block query limit before = do
    select_inbox p.server
    criteria ← build_search_criteria p.imap_date query before
    send (thread criteria)
    on_threads limit (p.server.thread criteria)

  unfoldable pub list_threads :
      (query : Option String)
      → (limit : ℕ) → (before : Option String) → Exec Log (List ThreadSummary)
  unfolding with_connect list_block
  list_threads query limit before = with_connect p.server p.account (list_block query limit before)

  -- `[int(tok) for tok in uid_blob.split() if tok.isdigit()]`
  unfoldable pub uids_of : List Text → List ℤ
  unfolding value
  uids_of [] = []
  uids_of (tok ∷ toks) =
      let rest = uids_of toks in
      if is_filled tok && not (any (λ c. not (is_digit c)) tok)
      then pos (value 0 tok) ∷ rest
      else rest

  abbrev pub cons_message : Option EmailMessage → List EmailMessage → List EmailMessage
  cons_message none rest = rest
  cons_message (some msg) rest = msg ∷ rest

  -- The loop over the numbers; a message that cannot be fetched is left out.
  unfoldable pub fetch_all : List ℤ → Exec Log (List EmailMessage)
  unfolding fetch_message
  fetch_all [] = pure []
  fetch_all (uid ∷ uids) = do
    m ← fetch_message p.parse p.server uid
    rest ← fetch_all uids
    pure (cons_message m rest)

  -- `a <= b` on texts.
  abbrev pub text_le : Text → Text → Bool
  text_le [] t = true
  text_le (a ∷ s) [] = false
  text_le (a ∷ s) (b ∷ t) = let rest = text_le s t in ltb a b || a == b && rest

  -- `m.date or m.id`
  abbrev pub sort_key : EmailMessage → Text
  sort_key m = if is_filled m.date then m.date else m.id

  -- `messages.sort(key=...)`, which is stable.
  unfoldable pub insert_message : EmailMessage → List EmailMessage → List EmailMessage
  insert_message m [] = m ∷ []
  insert_message m (n ∷ ms) =
      let rest = insert_message m ms in
      if text_le (sort_key m) (sort_key n) then m ∷ n ∷ ms else n ∷ rest

  unfoldable pub sorted : List EmailMessage → List EmailMessage
  unfolding insert_message
  sorted [] = []
  sorted (m ∷ ms) = insert_message m (sorted ms)

  -- The answer, from the messages on.
  unfoldable pub detail : (root_message_id : String) → List EmailMessage → ThreadDetail
  unfolding sorted encode_thread_id
  detail root_message_id messages =
      let ms = sorted messages in
      record {
        id = encode_thread_id p.utf8 (codes p.account) (codes root_message_id);
        subject = elim ms [ [] ↦ [] | m ∷ rest ↦ m.subject ];
        messages = ms;
      }

  -- From the numbers of the search on.
  unfoldable pub on_uids : (root_message_id : String) → List ℤ → Exec Log ThreadDetail
  unfolding fetch_all detail
  on_uids root_message_id [] =
      raise (error not_found "Email thread not found." (("message_id", text root_message_id) ∷ []))
  on_uids root_message_id (uid ∷ uids) = do
    messages ← fetch_all (uid ∷ uids)
    pure (detail root_message_id messages)

  -- From the reply to SEARCH on.
  unfoldable pub on_search : (root_message_id : String) → Reply (List Text) → Exec Log ThreadDetail
  unfolding uids_of on_uids
  on_search root_message_id (raised e) =
      raise (unavailable "IMAP SEARCH failed." p.account "error" e)
  on_search root_message_id (answered typ toks) =
      if is_ok typ
      then on_uids root_message_id (uids_of toks)
      else raise (unavailable "IMAP SEARCH refused." p.account "status" typ)

  -- `_sync_get_thread`: the block under `with`.
  unfoldable pub get_block : (root_message_id : String) → Exec Log ThreadDetail
  unfolding select_inbox on_search
  get_block root_message_id = do
    select_inbox p.server
    send (search root_message_id)
    on_search root_message_id (p.server.search root_message_id)

  unfoldable pub get_thread : (root_message_id : String) → Exec Log ThreadDetail
  unfolding with_connect get_block
  get_thread root_message_id = with_connect p.server p.account (get_block root_message_id)

  abbrev pub health_of : Reply (Unit {0}) → DepStatus
  health_of (raised e) = down
  health_of (answered typ a) = if is_ok typ then up else degraded

  -- `_sync_healthcheck`, within its time.
  unfoldable pub noop_block : Exec Log DepStatus
  noop_block = do send noop; pure (health_of p.server.noop)

  unfoldable pub sync_healthcheck : Exec Log DepStatus
  unfolding with_connect noop_block
  sync_healthcheck = with_connect p.server p.account noop_block

  -- `healthcheck`: whatever `_connect` raises is `down`.
  unfoldable pub healthcheck : Log → DepStatus × Log
  unfolding sync_healthcheck
  healthcheck log =
      let (r, log') = sync_healthcheck log in elim r [ ok h ↦ (h, log') | err e ↦ (down, log') ]
