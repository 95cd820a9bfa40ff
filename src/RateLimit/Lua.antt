-- ===== src/RateLimit/Lua.antt =====
-- `_LUA_TAKE` of bridge/src/bridge/ratelimit.py: the script that Redis runs for one check, with the
-- hash that it keeps and the expiry that it sets. `redis.call('TIME')` is the argument `now`, in
-- milliseconds; a hash whose expiry has come is gone.
use open_claw_bridge.Prelude.{
  ℕ, ◌+◌, ◌-◌, ◌*◌, ◌/◌, min, Option, none, some, ltb, leb, ◌==◌, if◌then◌else◌,
}
use open_claw_bridge.RateLimit.{BucketSpec, token, capacity}

-- The hash under one key, with the time at which it expires.
pub record Hash : Type 0 where
  pub tokens : ℕ
  pub last_refill_ms : ℕ
  pub expires_at : ℕ

-- HMGET on a key: nothing, if the hash is missing or has expired.
abbrev pub live : ℕ → Option Hash → Option Hash
live now none = none
live now (some h) = if leb h.expires_at now then none else some h

-- `math.ceil(a / b)`
abbrev pub ceil_div : ℕ → ℕ → ℕ
ceil_div a b = (a + b - 1) / b

-- `math.ceil(burst / rate) + 60`, in milliseconds. It is never below 1, so the script's `if` is idle.
abbrev pub ttl_ms : BucketSpec → ℕ
ttl_ms s = (ceil_div (s.burst * 60) s.per_minute + 60) * 1000

-- The tokens after the refill.
unfoldable pub refilled : BucketSpec → ℕ → Option Hash → ℕ
refilled s now none = capacity s
refilled s now (some h) =
    if ltb h.last_refill_ms now
    then min (capacity s) (h.tokens + (now - h.last_refill_ms) * s.per_minute)
    else h.tokens

-- `retry_ms`; `none` is the -1 of a bucket that never refills.
unfoldable pub retry : BucketSpec → ℕ → Option ℕ
retry s tokens =
    if leb token tokens
    then some 0
    else if s.per_minute == 0
    then none
    else some (ceil_div (token - tokens) s.per_minute)

unfoldable pub lua_take : BucketSpec → ℕ → Option Hash → Option ℕ × Hash
unfolding refilled retry
lua_take s now data' =
    let tokens = refilled s now (live now data') in
    (
      retry s tokens,
      record {
        tokens = if leb token tokens then tokens - token else tokens;
        last_refill_ms = now;
        expires_at = now + ttl_ms s;
      },
    )
