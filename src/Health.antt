-- ===== src/Health.antt =====
-- bridge/src/bridge/routes/health.py: the probes of the dependencies and the status that they roll up to.
pub mod Rolled
use open_claw_bridge.Prelude.{
  ℕ, zero, suc, ◌+◌, ◌-◌, ◌*◌, ◌/◌, ◌%◌, ◌^◌, ◌≤◌, ◌<◌, min, max, String, text_length, utf8_length,
  ◌≡◌, refl, sym, ap, ◌∙◌, ◌≢◌, ◌↔◌, ◌⊎◌, inl, inr, Bool, true, false, not, ◌&&◌, ◌||◌, Option,
  none, some, List, [], ◌∷◌, ◌++◌, map, append-nil, append_assoc, arith, str_eq, eq_iff, eq_refl,
  ltb, leb, ◌==◌, if◌then◌else◌, Bool-cases, Option-cases, concat, concat_one, concat_nil,
  take_text, is_empty, or_else, text_mem, is_space, is_blank, length, length-append, get_or,
  is_some, filter, find, any, All, reverse, Forward,
}
use open_claw_bridge.Errors.{Result, ok, err}
use open_claw_bridge.Relay.Outbound.{codes}
use open_claw_bridge.Relay.Osascript.{quote}
use open_claw_bridge.Apple.Runner.{Process, Text, run_osascript}
use open_claw_bridge.Apple.Script.{same, Part, raw, quoted, render}
use open_claw_bridge.Email.Imap.{DepStatus, up, degraded, down}
use open_claw_bridge.Email.Imap.Threads.{Provider, healthcheck}

-- What a probe meets: an exception, or a value.
pub data Probe (A : Type 0) : Type 0 where
  raises : Probe A
  gives : A → Probe A

-- `configured`, `root.is_dir()`, and the listing of one entry.
pub record VaultProbe : Type 0 where
  pub configured : Bool
  pub is_dir : Probe Bool
  pub listing : Probe (Unit {0})

-- What `app.state` holds for the probes, and what each of them meets. The health checks of OpenRouter and
-- of the publisher are their answers.
pub record Probed : Type 0 where
  pub get_password : Probe (Unit {0})
  pub openrouter : DepStatus
  pub publisher : Option DepStatus
  pub osascript : Text → Process
  pub imap_providers : String → Option Provider
  pub vault : VaultProbe
  pub idempotency_conn : Option (Probe (Unit {0}))
  pub telemetry_conn : Option (Probe (Unit {0}))
  pub agent_conn : Option (Probe (Unit {0}))

unfoldable pub check_keychain : Probe (Unit {0}) → DepStatus
check_keychain raises = down
check_keychain (gives a) = up

unfoldable pub ping_sqlite : Option (Probe (Unit {0})) → DepStatus
ping_sqlite none = down
ping_sqlite (some raises) = down
ping_sqlite (some (gives a)) = up

-- From the listing on.
abbrev pub listed : Probe (Unit {0}) → DepStatus
listed raises = down
listed (gives a) = up

abbrev pub in_root : Probe Bool → Probe (Unit {0}) → DepStatus
in_root raises listing = down
in_root (gives is_dir) listing = if is_dir then listed listing else down

unfoldable pub check_vault : VaultProbe → DepStatus
check_vault v = if v.configured then in_root v.is_dir v.listing else degraded

unfoldable pub check_redis : Option DepStatus → DepStatus
check_redis none = down
check_redis (some answer) = answer

unfoldable pub check_imap : Option Provider → DepStatus
unfolding healthcheck
check_imap none = down
check_imap (some p) = (healthcheck p []).0

unfoldable pub probe_script : Text
unfolding render
probe_script =
    render (raw "tell application " ∷ quoted (codes "System Events") ∷ raw " to return true" ∷ [])

-- The timeout is in milliseconds.
unfoldable pub check_apple_bridge : (Text → Process) → DepStatus
unfolding run_osascript probe_script same
check_apple_bridge osascript = elim (run_osascript 2000 osascript probe_script) [
  | ok out ↦ if same out (codes "true") then up else down
  | err e ↦ down
]

abbrev pub Deps : Type 0
Deps = List (String × DepStatus)

-- `deps[k] == s` for a `k` that is in `deps`.
abbrev pub has : DepStatus → DepStatus → Bool
has up up = true
has degraded degraded = true
has down down = true
has _ _ = false

unfoldable pub is_at : DepStatus → Deps → String → Bool
is_at s [] k = false
is_at s ((j, t) ∷ deps) k = let rest = is_at s deps k in if str_eq j k then has s t else rest

-- `_CRITICAL_DEPS`
abbrev pub critical_deps : List String
critical_deps =
    "keychain" ∷ "idempotency_db" ∷ "telemetry_db" ∷ "agent_db" ∷ "vault" ∷ "redis" ∷ "apple_bridge"
    ∷ []

-- `_overall`
unfoldable pub overall : Deps → DepStatus
unfolding is_at
overall deps =
    if any (is_at down deps) critical_deps
    then down
    else if any (is_at degraded deps) critical_deps
    then degraded
    else up

-- The map of dependencies that `health` builds.
unfoldable pub deps_of : Probed → Deps
unfolding check_keychain ping_sqlite check_vault check_redis check_imap check_apple_bridge
deps_of p =
    ("apple_bridge", check_apple_bridge p.osascript)
    ∷ ("redis", check_redis p.publisher)
    ∷ ("openrouter", p.openrouter)
    ∷ ("keychain", check_keychain p.get_password)
    ∷ ("vault", check_vault p.vault)
    ∷ ("idempotency_db", ping_sqlite p.idempotency_conn)
    ∷ ("telemetry_db", ping_sqlite p.telemetry_conn)
    ∷ ("agent_db", ping_sqlite p.agent_conn)
    ∷ ("imap_glysk", check_imap (p.imap_providers "glysk"))
    ∷ ("imap_lopes", check_imap (p.imap_providers "lopes"))
    ∷ ("imap_whilesum", check_imap (p.imap_providers "whilesum"))
    ∷ []

-- `health`: the status and the map of its response.
unfoldable pub health : Probed → DepStatus × Deps
unfolding overall deps_of
health p = (overall (deps_of p), deps_of p)
