-- ===== src/Tests/Processes.antt =====
-- The supervisor, the relay and the agent, on concrete events.
use open_claw_bridge.Prelude.{
  ℕ, ◌≤◌, String, ◌≡◌, refl, Bool, true, false, none, some, List, [], ◌∷◌, ◌++◌, map, arith,
  text_mem, filter, All,
}
use open_claw_bridge.Supervisor.{
  Child, Action, spawn, probe, sleep, returns, raises, running, exit_poison_pill,
}
use open_claw_bridge.Supervisor.Startup.{Poll, Boot, start_all, start_all_lem, Went}
use open_claw_bridge.Supervisor.Watch.{watch, crashes, watch-poison}
use open_claw_bridge.Supervisor.Stop.{stubborn, graceful_stop_all, run, IsDown, run-IsDown}
use open_claw_bridge.Relay.Osascript.{Part, Run}
use open_claw_bridge.Relay.Osascript
use open_claw_bridge.Relay.ChatDb.{
  Message, Change, grows, locked, is_inbound, inbound_loop, holds, rowid_of, Post, broken, refused,
  Turn,
}
use open_claw_bridge.Relay.ChatDb.Forwarded.{inbound_loop_lem, completed, ComesAgain}
use open_claw_bridge.Relay.Outbound.{OutboxJob}
use open_claw_bridge.Brain.{Envelope, World, object}
use open_claw_bridge.Brain.Dedup.{handle_all, drafts_of, handle_all-drafts}

abbrev child : String → Bool → Child
child name gate = record {
  name = name;
  has_ready_check = gate;
  proc = none;
  restart_history = [];
  backoff_s = 1000;
}

abbrev children : List Child
children = child "bridge" true ∷ child "brain.agent" false ∷ []

abbrev poll : Bool → ℕ → Poll
poll ready now = record { is_shutdown = false; is_ready = ready; now = now }

abbrev boots : List Boot
boots =
    record { spawn_fails = false; now = 0; polls = poll false 500 ∷ poll true 1500 ∷ [] }
    ∷ record { spawn_fails = false; now = 1500; polls = [] }
    ∷ []

abbrev up_children : List Child
up_children =
    record (child "bridge" true) { proc = some running }
    ∷ record (child "brain.agent" false) { proc = some running }
    ∷ []

abbrev start_actions : List Action
start_actions =
    spawn "bridge" ∷ probe "bridge" ∷ sleep 1000 ∷ probe "bridge" ∷ spawn "brain.agent" ∷ []

start_all_lem_example :
    (n : ℕ) × (passed : ℕ) × Went children up_children boots returns start_actions n passed
unfolding start_all
start_all_lem_example = start_all_lem children up_children boots returns start_actions refl

watch-poison_example :
    (watch (child "bridge" true) (crashes (100 ∷ 40000 ∷ 50000 ∷ 60000 ∷ []))).0
    ≡ some (raises exit_poison_pill)
watch-poison_example =
    watch-poison (child "bridge" true) (100 ∷ 40000 ∷ 50000 ∷ 60000 ∷ []) refl
      (omega arith, (omega arith, (omega arith, (omega arith, tt))))

run-IsDown_example : All IsDown (graceful_stop_all (λ n. stubborn) up_children).0
unfolding run
run-IsDown_example =
    run-IsDown (child "bridge" true) (child "brain.agent" false ∷ [])
      (graceful_stop_all (λ n. stubborn) up_children).0 boots (λ cs. (raises exit_poison_pill, cs))
      (λ n. stubborn) exit_poison_pill refl

abbrev message : ℕ → Message
message n = record { rowid = n; is_from_me = false; text = some "hi"; chat_guid = "c" }

abbrev turn : Post → Turn
turn p = record { post = λ m. p; write_fails = false }

abbrev turns : List Change
turns = grows (message 8 ∷ []) (turn broken) ∷ locked ∷ grows (message 9 ∷ []) (turn refused) ∷ []

-- Message 8 is posted twice, since its first post breaks off.
relay_run :
    map (λ b. b.posted) (inbound_loop (holds 7) (message 7 ∷ []) turns).0
    ≡ (message 8 ∷ []) ∷ [] ∷ (message 8 ∷ message 9 ∷ []) ∷ []
unfolding inbound_loop
relay_run = refl

inbound_loop_lem_example :
    (let (batches, last) = inbound_loop (holds 7) (message 7 ∷ []) turns in
      let waiting = filter (is_inbound (rowid_of last)) (message 7 ∷ message 8 ∷ message 9 ∷ []) in
      (message 8 ∷ message 9 ∷ [] ≡ completed batches ++ waiting) × ComesAgain batches waiting)
inbound_loop_lem_example =
    inbound_loop_lem (holds 7) (message 7 ∷ []) turns
      (omega arith, (omega arith, (omega arith, tt)))

abbrev outbox_job : OutboxJob
outbox_job = record { message_id = some "m1"; to = some "+1"; body = some "hi"; service = none }

abbrev osascript : List Part → Run
osascript p = Osascript.returned 1

abbrev world : World
world = record {
  triage_reply = (none, object (some "draft"), none);
  draft_text = (none, "Sure.");
  create_fault = none;
  lookup_fault = none;
  mark_fault = none;
}

abbrev envelope : Envelope
envelope = record {
  event_id = "e1";
  topic = "imessage.received.agent";
  sender = "+1";
  body = "Lunch?";
  chat_guid = "c";
}

handle_all-drafts_example :
    (drafts_of "e1" (handle_all ((world, envelope) ∷ (world, envelope) ∷ []) []).0 ≤ 1)
    × (text_mem "e1" (handle_all ((world, envelope) ∷ (world, envelope) ∷ []) []).1 ≡ true)
handle_all-drafts_example =
    handle_all-drafts ((world, envelope) ∷ (world, envelope) ∷ []) [] "e1"
      ((refl, refl), ((refl, refl), tt))
