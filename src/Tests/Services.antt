-- ===== src/Tests/Services.antt =====
-- The idempotency middleware, the rate limiter and the token store, on concrete
-- requests.
use open_claw_bridge.Prelude.{
  ℕ, suc, ◌+◌, ◌-◌, ◌*◌, ◌≤◌, String, ◌≡◌, refl, ◌≢◌, true, false, none, some, List, [], ◌∷◌, map,
  arith, str_eq, ltb, if◌then◌else◌, get_or, any,
}
use open_claw_bridge.Errors.{ok}
use open_claw_bridge.Asgi.{read_header, drain_body, Library, request, start, body, Application}
use open_claw_bridge.Idempotency.{World, Call, call, prune_expired, capture}
use open_claw_bridge.Idempotency.Rows.{after_call, after_calls}
use open_claw_bridge.Idempotency.Replay.{Asks, Succeeds, replay_later}
use open_claw_bridge.RateLimit.{BucketSpec, Bucket, token, new_bucket}
use open_claw_bridge.RateLimit.Bounds.{passed, window_bound}
use open_claw_bridge.RateLimit.Agreement.{lua_run, run, rounded, lua_run-run}
use open_claw_bridge.RateLimit.Limiter.{RateLimiter}
use open_claw_bridge.Tests.Codec.{dumps, loads, loads-dumps}
use open_claw_bridge.Auth.{Credential, TokenRecord, TokenStore, require_auth}
use open_claw_bridge.Auth.Staleness.{IsLoaded, grants, require_auth-revoked, require_auth-minted}

-- The identity stands for SHA-256.
abbrev pub library : Library
library = record {
  sha256 = λ s. s;
  dumps = dumps;
  loads = loads;
  lower = λ s. s;
  decimal = λ n. "2";
  quoted = λ s. s;
}

-- An application that counts its runs, and fails at a path.
abbrev pub counter : Application ℕ
counter scope input n = record {
  sent = start (if str_eq scope.path "/broken" then 500 else 201) [] ∷ body "ok" ∷ [];
  raised = none;
  state = suc n;
}

abbrev pub empty_store : World ℕ
empty_store = record { conn = some []; store_fault = false; inner = 0 }

abbrev pub post : String → String → ℕ → Call
post path bytes now = record {
  scope = record {
    type = "http";
    method = "POST";
    path = path;
    headers = ("idempotency-key", "k1") ∷ [];
    request_id = "r1";
  };
  input = request bytes false ∷ [];
  now = now;
  time = now;
}

pub Asks-a : Asks (post "/drafts" "a" 100) "k1" "a" []
unfolding read_header drain_body
Asks-a = record { post = refl; key = refl; drained = refl }

Asks-a_later : Asks (post "/drafts" "a" 200) "k1" "a" []
unfolding read_header drain_body
Asks-a_later = record { post = refl; key = refl; drained = refl }

Asks-b : Asks (post "/drafts" "b" 200) "k1" "b" []
unfolding read_header drain_body
Asks-b = record { post = refl; key = refl; drained = refl }

Asks-elsewhere : Asks (post "/elsewhere" "a" 200) "k1" "a" []
unfolding read_header drain_body
Asks-elsewhere = record { post = refl; key = refl; drained = refl }

Asks-broken : Asks (post "/broken" "a" 100) "k1" "a" []
unfolding read_header drain_body
Asks-broken = record { post = refl; key = refl; drained = refl }

succeeds : Succeeds library counter (post "/drafts" "a" 100) "a" [] empty_store
unfolding capture
succeeds = record { quiet = refl; success = refl }

fails : Succeeds library counter (post "/broken" "a" 100) "a" [] empty_store → ⊥
unfolding capture
fails s = ground (arith, s.success)

-- Some other requests in between, one with another key.
abbrev others : List Call
others = post "/drafts" "b" 130 ∷ post "/broken" "c" 140 ∷ []

abbrev later : World ℕ
later =
    after_calls library counter others
      (after_call library counter (post "/drafts" "a" 100) empty_store)

replay_later_example :
    call library counter (post "/elsewhere" "a" 200) later
    ≡ some (
      record {
        sent =
            start 201 (("x-idempotency-replay", "true") ∷ ("content-length", "2") ∷ [])
            ∷ body "ok"
            ∷ [];
        raised = none;
      },
      record later { conn = some (prune_expired 200 (get_or later.conn [])) },
    )
unfolding capture prune_expired
replay_later_example =
    replay_later library counter empty_store (post "/drafts" "a" 100) (post "/elsewhere" "a" 200)
      others "k1" "a" [] [] [] loads-dumps Asks-a Asks-elsewhere succeeds refl refl refl
      (omega arith, (omega arith, tt)) (omega arith)

abbrev spec : BucketSpec
spec = record { per_minute = 30; burst = 5 }

abbrev bucket : Bucket
bucket = record { spec = spec; tokens = 60000; last_refill = some 1000 }

window_bound_example :
    token * passed bucket (1000 ∷ 1500 ∷ 4000 ∷ []) ≤ token * 5 + (4000 - 1000) * 30
window_bound_example =
    window_bound bucket 1000 4000 (1000 ∷ 1500 ∷ 4000 ∷ []) (record { full = omega arith }) refl
      (omega arith) (omega arith, (omega arith, (omega arith, tt)))

abbrev drained : Bucket
drained = record { spec = spec; tokens = 0; last_refill = some 1000 }

lua_run-run_example :
    lua_run spec none (0 ∷ 10 ∷ 90000 ∷ [])
    ≡ map rounded (run (new_bucket spec) (0 ∷ 10 ∷ 90000 ∷ []))
lua_run-run_example =
    lua_run-run spec 0 (0 ∷ 10 ∷ 90000 ∷ []) (omega arith)
      (omega arith, (omega arith, (omega arith, tt)))

-- One actor, whose token was rotated at 50000 with a grace until 90000.
abbrev keychain : ℕ → List Credential
keychain t =
    record {
      actor = "brain.agent";
      token = if ltb t 50000 then "old" else "new";
      scopes = "llm:call" ∷ [];
      previous_token = if ltb t 50000 then none else some "old";
      previous_expires_at = some 90000;
    }
    ∷ []

abbrev unloaded : TokenStore
unloaded = record { records = []; loaded_at = none }

unloaded-IsLoaded : {now : ℕ} → IsLoaded (λ s. s) keychain now unloaded
unloaded-IsLoaded = record { past = omega arith; loaded = λ t e. ground (arith, e) }

old_gone : (t : ℕ) → 90000 ≤ t → any (grants (λ s. s) keychain t "old") (keychain t) ≡ false
old_gone t le =
    let rotated : ltb t 50000 ≡ false = ground arith in
    let ended : ltb t 90000 ≡ false = ground arith in rw (rotated, ended) refl

new_there : (t : ℕ) → 50000 ≤ t → any (grants (λ s. s) keychain t "new") (keychain t) ≡ true
new_there t le = let rotated : ltb t 50000 ≡ false = ground arith in rw (rotated) refl

require_auth-revoked_example :
    (require_auth (λ s. s) 150000 (keychain 150000) (some "old") unloaded).0
    ≢ ok (record { actor = "brain.agent"; scopes = "llm:call" ∷ [] })
require_auth-revoked_example =
    require_auth-revoked (λ s. s) keychain 90000 150000 "old" unloaded
      (record { actor = "brain.agent"; scopes = "llm:call" ∷ [] }) unloaded-IsLoaded old_gone
      (omega arith)

require_auth-minted_example :
    (r : TokenRecord) × ((require_auth (λ s. s) 120000 (keychain 120000) (some "new") unloaded).0
      ≡ ok r)
require_auth-minted_example =
    require_auth-minted (λ s. s) keychain 50000 120000 "new" unloaded unloaded-IsLoaded new_there
      (omega arith) refl

abbrev offline : RateLimiter
offline = record {
  has_client = true;
  redis_fault = true;
  hashes = λ k. none;
  buckets = λ a s. none;
}
