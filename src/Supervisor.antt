-- ===== src/Supervisor.antt =====
-- bridge/src/bridge/supervisor.py: the children, their start in order, the restarts and the stop.
--
-- The processes, the probes and the event loop are the environment: what a call of them returns stands
-- in the arguments, and every call that the supervisor makes is an `Action` of the trace, in its order.
-- Times are milliseconds of the monotonic clock.
pub mod Startup
pub mod Watch
pub mod Stop
use open_claw_bridge.Prelude.{ℕ, String, Bool, Option, some, List, [], ◌∷◌, if◌then◌else◌}

abbrev pub health_timeout : ℕ
health_timeout = 30000

abbrev pub health_poll_interval : ℕ
health_poll_interval = 1000

abbrev pub shutdown_grace : ℕ
shutdown_grace = 10000

abbrev pub backoff_initial : ℕ
backoff_initial = 1000

abbrev pub backoff_max : ℕ
backoff_max = 10000

abbrev pub poison_pill_threshold : ℕ
poison_pill_threshold = 3

abbrev pub poison_pill_window : ℕ
poison_pill_window = 30000

abbrev pub exit_ok : ℕ
exit_ok = 0

abbrev pub exit_health_timeout : ℕ
exit_health_timeout = 10

abbrev pub exit_poison_pill : ℕ
exit_poison_pill = 11

-- `asyncio.subprocess.Process`, as far as the supervisor reads it.
pub data Process : Type 0 where
  running : Process
  exited : Process

pub record Child : Type 0 where
  pub name : String
  pub has_ready_check : Bool
  pub proc : Option Process
  pub restart_history : List ℕ
  pub backoff_s : ℕ

pub data Action : Type 0 where
  spawn : (name : String) → Action
  probe : (name : String) → Action
  sleep : (time : ℕ) → Action
  terminate : (name : String) → Action
  kill : (name : String) → Action

-- A coroutine's end: it returns, it raises a `SupervisorError` with its exit code, or any other exception
-- leaves it.
pub data Ends : Type 0 where
  returns : Ends
  raises : (exit_code : ℕ) → Ends
  escapes : Ends

-- `_start`; `fails` says that `spawn` raises `OSError`. A `spawn` in the trace is one that worked.
unfoldable pub start_child : (fails : Bool) → Child → Ends × Child × List Action
start_child fails c =
    if fails
    then (escapes, c, [])
    else (returns, record c { proc = some running }, spawn c.name ∷ [])
