-- ===== src/Relay/Outbound.antt =====
-- `_dispatch_job` of relays/imessage/src/relay/main.py: one job of the outbox is sent and its outcome is
-- reported.
use Prim.Native.Char.{code}
use open_claw_bridge.Prelude.{
  ◌≤◌, String, ◌≡◌, refl, inl, inr, Bool, false, not, ◌&&◌, Option, none, some, List, [], ◌∷◌, map,
  arith, ◌==◌, if◌then◌else◌, Bool-cases, Option-cases, is_empty, or_else, length, is_some, any,
}
use open_claw_bridge.Relay.Osascript.{
  script, escape, service_of, attempt, Text, OsascriptError, Part, Run, returned, send_imessage,
}

-- The code points of a text.
abbrev pub codes : String → Text
codes String.[] = []
codes (String.◌∷◌ c s) = code c ∷ codes s

-- The keys of the job's JSON that the relay reads.
pub record OutboxJob : Type 0 where
  pub message_id : Option String
  pub to : Option String
  pub body : Option String
  pub service : Option String

-- `str(job.get(k) or d)`
abbrev pub field : Option String → String → String
field none d = d
field (some s) d = or_else s d

-- The body of `post_sent`.
pub record Report : Type 0 where
  pub message_id : String
  pub to : String
  pub body : String
  pub is_success : Bool
  pub error : Option OsascriptError

-- What a dispatch does: the scripts that it runs and the reports that it posts. A report that the bridge
-- refuses is logged and no more.
pub record Dispatched : Type 0 where
  pub scripts : List (List Part)
  pub reports : List Report

abbrev pub is_complete : OutboxJob → Bool
is_complete j =
    not (is_empty (field j.message_id ""))
    && not (is_empty (field j.to ""))
    && not (is_empty (field j.body ""))

-- `_dispatch_job`
unfoldable pub dispatch_job : (List Part → Run) → OutboxJob → Dispatched
unfolding send_imessage
dispatch_job osascript j =
    let message_id = field j.message_id "" in
    let to = field j.to "" in
    let body = field j.body "" in
    if is_complete j
    then (let (error, scripts) =
          send_imessage (codes to) (codes body) (field j.service "iMessage") osascript in
        record {
          scripts = scripts;
          reports =
              record {
                message_id = message_id;
                to = to;
                body = body;
                is_success = not (is_some error);
                error = error;
              }
              ∷ [];
        })
    else record { scripts = []; reports = [] }

abbrev pub is_zero : Run → Bool
is_zero (returned code) = code == 0
is_zero _ = false

ran :
    (text : List Part) (osascript : List Part → Run)
    → (let (error, scripts) = attempt text osascript in
        (length scripts ≤ 1) × (not (is_some error) ≡ any (λ s. is_zero (osascript s)) scripts))
unfolding attempt
ran text osascript = (ground arith, ground arith)

send_imessage_lem :
    (to body : Text) (service : String) (osascript : List Part → Run)
    → (let (error, scripts) = send_imessage to body service osascript in
        (length scripts ≤ 1) × (not (is_some error) ≡ any (λ s. is_zero (osascript s)) scripts))
unfolding send_imessage
send_imessage_lem to body service osascript = elim (Option-cases (service_of service)) [
  | inl e ↦ rw (send_imessage, e) (omega arith, refl)
  | inr (s, e) ↦ elim (Option-cases (escape to)) [
    | inl f ↦ rw (send_imessage, e, f) (omega arith, refl)
    | inr (to_e, f) ↦ elim (Option-cases (escape body)) [
      | inl g ↦ rw (send_imessage, e, f, g) (omega arith, refl)
      | inr (body_e, g) ↦ rw (send_imessage, e, f, g) (ran (script s to_e body_e) osascript)
    ]
  ]
]

abbrev pub told : Report → String × Bool
told r = (r.message_id, r.is_success)

-- For every job and however the subprocess ends: at most one script is run; a job without an id, a
-- handle or a body runs none and reports nothing; any other is reported once, under its id, as a success
-- if and only if a script was run and returned 0.
pub dispatch_job_lem :
    (osascript : List Part → Run) (j : OutboxJob)
    → (let d = dispatch_job osascript j in
        (length d.scripts ≤ 1)
        × (length d.scripts ≤ length d.reports)
        × (map told d.reports ≡ (
            if is_complete j
            then (field j.message_id "", any (λ s. is_zero (osascript s)) d.scripts) ∷ []
            else [])))
unfolding dispatch_job
dispatch_job_lem osascript j =
    let sent =
      send_imessage_lem (codes (field j.to "")) (codes (field j.body ""))
        (field j.service "iMessage") osascript in
    elim (Bool-cases (is_complete j)) [
      | inl e ↦ rw (e) (sent.0, sent.0, rw (sent.1) refl)
      | inr e ↦ rw (e) (omega arith, omega arith, refl)
    ]
