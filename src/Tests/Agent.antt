-- ===== src/Tests/Agent.antt =====
-- The agent's loop and the mail provider on concrete data.
use open_claw_bridge.Prelude.{
  ◌≤◌, String, ◌≡◌, refl, true, false, not, ◌&&◌, Option, none, some, List, [], ◌∷◌, map, str_eq,
  if◌then◌else◌, is_space, length, any, reverse,
}
use open_claw_bridge.Errors.{ok, err, error, not_found, text}
use open_claw_bridge.Drafts
use open_claw_bridge.Drafts.{imessage, pending}
use open_claw_bridge.Drafts.Wire.{respond, row_to_out, list_json}
use open_claw_bridge.Client.Agent.{read_draft, read_drafts}
use open_claw_bridge.Client.Agent.Wire.{told, as_client, read_draft_lem}
use open_claw_bridge.Relay.Outbound.{codes}
use open_claw_bridge.Apple.Runner.{finished}
use open_claw_bridge.Health.{
  Probed, gives, health, check_keychain, ping_sqlite, check_vault, check_redis, check_apple_bridge,
  has,
}
use open_claw_bridge.Health.Rolled.{worst, is_ready, health_lem}
use open_claw_bridge.Client.EventBus.{received, refused}
use open_claw_bridge.Brain.{Envelope, World, malformed}
use open_claw_bridge.Brain.Dedup.{handle_all}
use open_claw_bridge.Brain.Loop.{
  start, Happening, signal, connected, turn, timeout, serve, after, on_turn, on_frame,
}
use open_claw_bridge.Brain.Loop.Served.{
  serve_lem, IsTrace, arrived, is_finished, is_crashed, is_signal, is_malformed,
}
use open_claw_bridge.Email.Parse.{Text}
use open_claw_bridge.Email.Tree.{
  IsResponse, Items, done, number, branch, space, print_response, flatten,
}
use open_claw_bridge.Email.Imap.{up, degraded, ImapServer, answered, raised, invalid}
use open_claw_bridge.Email.Imap.Threads.{
  Provider, list_threads, get_thread, healthcheck, take_threads,
}
use open_claw_bridge.Email.Imap.Session.{Sends, sessions_lem}
use open_claw_bridge.Email.Imap.Listed.{shown, list_threads_lem}

abbrev decode : String → Option Envelope
decode frame =
    if str_eq frame "f1"
    then some (record {
      event_id = "e1";
      topic = "imessage.received.ava";
      sender = "+1";
      body = "hi";
      chat_guid = "";
    })
    else none

abbrev world : World
world = record {
  triage_reply = (none, malformed, none);
  draft_text = (none, "");
  create_fault = none;
  lookup_fault = none;
  mark_fault = none;
}

-- A frame, a loss, a wait, and a second frame behind the signal.
abbrev day : List Happening
day =
    connected
    ∷ turn (received "f1") world
    ∷ turn (refused "down") world
    ∷ timeout
    ∷ connected
    ∷ signal
    ∷ turn (received "f1") world
    ∷ []

day-IsTrace : IsTrace "ava" decode (start []) day
unfolding IsTrace after on_turn on_frame
day-IsTrace = (refl, (refl, (refl, (refl, (refl, (refl, (refl, tt)))))))

serve_lem_example :
    (let l = serve "ava" decode (start []) day in
      (l.effects ≡ (handle_all (arrived "ava" decode day) []).0)
      × (l.processed ≡ (handle_all (arrived "ava" decode day) []).1)
      × ((is_finished "ava" decode l.mode && not (any (is_signal "ava" decode) day)) ≡ false)
      × (is_crashed "ava" decode l.mode ≡ any (is_malformed "ava" decode) day))
serve_lem_example = serve_lem "ava" decode [] day day-IsTrace

-- THREAD answers two brackets; there is one message.
abbrev first : Items × Text
first = (number (49 ∷ []) (space 32 (branch (number (50 ∷ 50 ∷ []) done) done)), 32 ∷ [])

abbrev brackets : List (Items × Text)
brackets = first ∷ (number (51 ∷ []) done, []) ∷ []

brackets-IsResponse : IsResponse brackets
unfolding is_space
brackets-IsResponse = (
  (
    (refl, (λ e. cc e, (refl, tt)), (refl, ((refl, (λ e. cc e, (refl, (refl, tt))), tt), tt))),
    (refl, tt),
  ),
  (((refl, (λ e. cc e, (refl, tt)), tt), tt), tt),
)

abbrev server : ImapServer
server = record {
  connect_fault = none;
  login = answered "OK" tt;
  select = answered "OK" tt;
  thread = λ criteria. answered "OK" (some (print_response brackets));
  search = λ root. answered "OK" [];
  fetch = λ n. answered "OK" (none ∷ some "raw" ∷ []);
  noop = raised "gone";
}

abbrev provider : Provider
provider = record {
  account = "mail";
  server = server;
  utf8 = record { encode = λ s. s; decode = λ b. some b };
  parse = λ n raw. record {
    id = [];
    message_id = 60 ∷ 97 ∷ 62 ∷ [];
    from = 98 ∷ [];
    subject = 115 ∷ [];
    date = 50 ∷ [];
    body_text = none;
    body_html = none;
  };
  imap_date = λ d. invalid "never";
}

sessions_lem_example :
    Sends server [] (list_threads provider (some "x") 20 none []).1
    × Sends server [] (get_thread provider "<a>" []).1
    × Sends server [] (healthcheck provider []).1
sessions_lem_example = sessions_lem provider (some "x") none 20 "<a>" []

list_threads_lem_example :
    (let newest = take_threads provider 1 (reverse (map (λ t. flatten t.0) brackets)) in
      ((list_threads provider (some "x") 1 none []).0 ≡ ok (shown provider newest))
      × (length (shown provider newest) ≤ 1))
list_threads_lem_example =
    list_threads_lem provider (some "x") 1 [] first ((number (51 ∷ []) done, []) ∷ [])
      brackets-IsResponse refl refl refl refl

abbrev row : Drafts.Draft
row = record {
  draft_id = "d1";
  agent = "ava";
  channel = imessage;
  to_handle = "+1";
  body = "hi";
  status = pending;
  created_at = "t1";
  last_modified_at = "t2";
  in_reply_to_event_id = some "e1";
  preview = none;
  approved_at = none;
  approved_by = none;
  reject_reason = none;
  dispatch_message_id = none;
  sent_at = none;
  last_send_error_code = none;
  last_send_error_message = none;
  publisher = "ava";
}

read_draft_lem_example :
    (let missing = err (error not_found "Draft not found: d2" (("draft_id", text "d2") ∷ [])) in
      (read_draft (λ j. "") (respond 200 (some "r7") row_to_out missing)
        ≡ told (λ j. "") as_client missing)
      × (read_drafts (λ j. "") (respond 200 (some "r7") list_json (ok (row ∷ [])))
          ≡ told (λ j. "") (map as_client) (ok (row ∷ []))))
read_draft_lem_example =
    read_draft_lem (λ j. "")
      (err (error not_found "Draft not found: d2" (("draft_id", text "d2") ∷ []))) (ok (row ∷ []))
      (some "r7")

-- Everything is well but one mail account.
abbrev probed : Probed
probed = record {
  get_password = gives tt;
  openrouter = degraded;
  publisher = some up;
  osascript = λ s. finished (record { returncode = 0; stdout = some (codes "true"); stderr = "" });
  imap_providers = λ n. if str_eq n "lopes" then some provider else none;
  vault = record { configured = true; is_dir = gives true; listing = gives tt };
  idempotency_conn = some (gives tt);
  telemetry_conn = some (gives tt);
  agent_conn = some (gives tt);
}

health_lem_example :
    ((health probed).0
      ≡ worst (
          check_keychain probed.get_password
          ∷ ping_sqlite probed.idempotency_conn
          ∷ ping_sqlite probed.telemetry_conn
          ∷ ping_sqlite probed.agent_conn
          ∷ check_vault probed.vault
          ∷ check_redis probed.publisher
          ∷ check_apple_bridge probed.osascript
          ∷ []))
    × (has up (health probed).0 ≡ is_ready probed)
health_lem_example = health_lem probed
