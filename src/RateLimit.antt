-- ===== src/RateLimit.antt =====
-- bridge/src/bridge/ratelimit.py: the token bucket in memory. The source counts in binary floats;
-- here times are whole milliseconds and tokens whole 1/60000 of a token, in which the refill of
-- `per_minute / 60` tokens a second is exact.
pub mod Lua
pub mod Limiter
pub mod Bounds
pub mod Agreement
pub mod Isolation
use open_claw_bridge.Prelude.{
  ℕ, zero, suc, ◌+◌, ◌-◌, ◌*◌, ◌/◌, ◌%◌, ◌^◌, ◌≤◌, ◌<◌, min, max, String, text_length, utf8_length,
  ◌≡◌, refl, sym, ap, ◌∙◌, ◌≢◌, ◌↔◌, ◌⊎◌, inl, inr, Bool, true, false, not, ◌&&◌, ◌||◌, Option,
  none, some, List, [], ◌∷◌, ◌++◌, map, append-nil, append_assoc, arith, str_eq, eq_iff, eq_refl,
  ltb, leb, ◌==◌, if◌then◌else◌, Bool-cases, Option-cases, concat, concat_one, concat_nil,
  take_text, is_empty, or_else, text_mem, is_space, is_blank, length, length-append, get_or,
  is_some, filter, find, any, All, reverse, Forward,
}

-- `BucketSpec.from_per_minute`: `rate_per_second` is `per_minute / 60`.
pub record BucketSpec : Type 0 where
  pub per_minute : ℕ
  pub burst : ℕ

-- One token: 60 seconds to the minute, 1000 milliseconds to the second.
abbrev pub token : ℕ
token = 60000

abbrev pub capacity : BucketSpec → ℕ
capacity s = s.burst * token

-- `_SPECS.get(scope, _DEFAULT_SPEC)`
unfoldable pub spec_for : String → BucketSpec
spec_for scope =
    if str_eq scope "llm:call"
    then record { per_minute = 60; burst = 10 }
    else if str_eq scope "imessage:send"
    then record { per_minute = 30; burst = 5 }
    else if str_eq scope "vault:write"
    then record { per_minute = 120; burst = 20 }
    else record { per_minute = 300; burst = 50 }

-- The time to wait: 0.0, or `num / den` milliseconds, or `float("inf")`.
pub data Wait : Type 0 where
  allowed : Wait
  after : (num den : ℕ) → Wait
  forever : Wait

-- `_Bucket`
pub record Bucket : Type 0 where
  pub spec : BucketSpec
  pub tokens : ℕ
  pub last_refill : Option ℕ

unfoldable pub new_bucket : BucketSpec → Bucket
new_bucket s = record { spec = s; tokens = capacity s; last_refill = none }

-- The refill at the head of `take`. `-` stops at 0, as a clock that went back does not refill.
unfoldable pub refill : Bucket → ℕ → Bucket
refill b now =
    let last = get_or b.last_refill now in
    if ltb last now
    then record b {
      tokens = min (capacity b.spec) (b.tokens + (now - last) * b.spec.per_minute);
      last_refill = some now;
    }
    else record b { last_refill = some last }

-- The rest of `take`.
unfoldable pub spend : Bucket → Wait × Bucket
spend b =
    if leb token b.tokens
    then (allowed, record b { tokens = b.tokens - token })
    else if b.spec.per_minute == 0
    then (forever, b)
    else (after (token - b.tokens) b.spec.per_minute, b)

unfoldable pub take : Bucket → ℕ → Wait × Bucket
unfolding refill spend
take b now = spend (refill b now)
