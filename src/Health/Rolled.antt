-- ===== src/Health/Rolled.antt =====
-- What the status of the bridge says.
use open_claw_bridge.Prelude.{
  ◌≡◌, refl, sym, ap, ◌∙◌, inl, inr, Bool, true, false, ◌&&◌, Option, none, some, List, [], ◌∷◌,
  arith, ◌==◌, if◌then◌else◌, Bool-cases, Option-cases, any,
}
use open_claw_bridge.Email.Imap.{DepStatus, up, degraded, down}
use open_claw_bridge.Relay.Outbound.{codes}
use open_claw_bridge.Apple.Runner.{
  Text, Process, file_not_found, timed_out, finished, run_osascript, output, strip,
}
use open_claw_bridge.Apple.Script.{same}
use open_claw_bridge.Health.{
  Probe, raises, gives, VaultProbe, probe_script, Probed, check_keychain, ping_sqlite, check_vault,
  check_redis, check_apple_bridge, is_at, overall, deps_of, health, has,
}

-- The worse of two.
unfoldable pub worse : DepStatus → DepStatus → DepStatus
worse down t = down
worse degraded down = down
worse degraded t = degraded
worse up t = t

unfoldable pub worst : List DepStatus → DepStatus
unfolding worse
worst [] = up
worst (s ∷ ss) = worse s (worst ss)

-- By tests, as the code has it.
worst-any :
    (ss : List DepStatus)
    → worst ss
      ≡ (if any (has down) ss then down else if any (has degraded) ss then degraded else up)
unfolding worst worse
worst-any [] = refl
worst-any (up ∷ ss) = ground (arith, worst-any ss)
worst-any (degraded ∷ ss) = ground (arith, worst-any ss)
worst-any (down ∷ ss) = ground (arith, worst-any ss)

-- The probes that must be up, by what they meet.
abbrev answers : {A : Type 0} → Probe A → Bool
answers raises = false
answers (gives a) = true

abbrev opened : Option (Probe (Unit {0})) → Bool
opened none = false
opened (some q) = answers q

abbrev is_dir : Probe Bool → Bool
is_dir raises = false
is_dir (gives b) = b

abbrev is_up : Option DepStatus → Bool
is_up none = false
is_up (some s) = has up s

-- The process ends well and prints `true`.
abbrev says_true : Process → Bool
says_true file_not_found = false
says_true timed_out = false
says_true (finished f) =
    f.returncode == 0 && elim f.stdout [ none ↦ false | some s ↦ same (strip s) (codes "true") ]

unfoldable pub is_ready : Probed → Bool
unfolding answers opened is_dir is_up says_true probe_script
is_ready p =
    answers p.get_password
    && (opened p.idempotency_conn
        && (opened p.telemetry_conn
            && (opened p.agent_conn
                && ((p.vault.configured && (is_dir p.vault.is_dir && answers p.vault.listing))
                    && (is_up p.publisher && says_true (p.osascript probe_script))))))

up_keychain : (q : Probe (Unit {0})) → has up (check_keychain q) ≡ answers q
unfolding check_keychain
up_keychain raises = refl
up_keychain (gives a) = refl

up_sqlite : (q : Option (Probe (Unit {0}))) → has up (ping_sqlite q) ≡ opened q
unfolding ping_sqlite
up_sqlite none = refl
up_sqlite (some raises) = refl
up_sqlite (some (gives a)) = refl

up_vault :
    (v : VaultProbe)
    → has up (check_vault v) ≡ (v.configured && (is_dir v.is_dir && answers v.listing))
unfolding check_vault
up_vault v = ground arith

up_redis : (q : Option DepStatus) → has up (check_redis q) ≡ is_up q
unfolding check_redis
up_redis none = refl
up_redis (some s) = refl

up_process : (q : Process) → has up (check_apple_bridge (λ s. q)) ≡ says_true q
unfolding check_apple_bridge run_osascript output
up_process file_not_found = refl
up_process timed_out = refl
up_process (finished f) = elim (Bool-cases (f.returncode == 0)) [
  | inl e ↦ elim (Option-cases f.stdout) [
    | inl o ↦ ground (arith, e, o)
    | inr (s, o) ↦ ground (arith, e, o)
  ]
  | inr e ↦ ground (arith, e)
]

up_apple :
    (osascript : Text → Process)
    → has up (check_apple_bridge osascript) ≡ says_true (osascript probe_script)
unfolding check_apple_bridge run_osascript
up_apple osascript = up_process (osascript probe_script)

up-worse : (s t : DepStatus) → has up (worse s t) ≡ (has up s && has up t)
unfolding worse
up-worse up t = refl
up-worse degraded up = refl
up-worse degraded degraded = refl
up-worse degraded down = refl
up-worse down t = refl

-- The status, by the probes.
worst-health :
    (p : Probed)
    → (health p).0
      ≡ worst (
          check_keychain p.get_password
          ∷ ping_sqlite p.idempotency_conn
          ∷ ping_sqlite p.telemetry_conn
          ∷ ping_sqlite p.agent_conn
          ∷ check_vault p.vault
          ∷ check_redis p.publisher
          ∷ check_apple_bridge p.osascript
          ∷ [])
unfolding health overall deps_of is_at
worst-health p = sym (worst-any _)

and_true : (b : Bool) → (b && true) ≡ b
and_true true = refl
and_true false = refl

up-health : (p : Probed) → has up (health p).0 ≡ is_ready p
unfolding is_ready
up-health p =
    ap (has up) (worst-health p)
    ∙ (unfold worst in
        simp (up-worse, up_keychain, up_sqlite, up_vault, up_redis, up_apple)
          (ap
            (λ (b : Bool).
              answers p.get_password
              && (opened p.idempotency_conn
                  && (opened p.telemetry_conn
                      && (opened p.agent_conn
                          && ((p.vault.configured
                                && (is_dir p.vault.is_dir && answers p.vault.listing))
                              && (is_up p.publisher && b))))))
            (and_true (says_true (p.osascript probe_script)))))

-- The bridge's status is that of the worst of its seven critical dependencies: the keychain, the three
-- databases, the vault, Redis and osascript, whatever the mail accounts and OpenRouter are. It is ok
-- exactly if the keychain answers, each database is there and answers, the vault is configured, is a
-- directory and can be listed, the publisher is there and well, and osascript ends with code 0 and prints
-- `true` between white space.
pub health_lem :
    (p : Probed)
    → ((health p).0
        ≡ worst (
            check_keychain p.get_password
            ∷ ping_sqlite p.idempotency_conn
            ∷ ping_sqlite p.telemetry_conn
            ∷ ping_sqlite p.agent_conn
            ∷ check_vault p.vault
            ∷ check_redis p.publisher
            ∷ check_apple_bridge p.osascript
            ∷ []))
      × (has up (health p).0 ≡ is_ready p)
health_lem p = (worst-health p, up-health p)
