-- ===== src/RateLimit/Limiter.antt =====
-- `RateLimiter` and `require_rate` of bridge/src/bridge/ratelimit.py.
use open_claw_bridge.Prelude.{
  ℕ, zero, suc, ◌+◌, ◌*◌, ◌/◌, ◌%◌, max, String, Bool, not, ◌&&◌, Option, none, some, [], ◌∷◌,
  str_eq, ◌==◌, if◌then◌else◌, concat, get_or,
}
use open_claw_bridge.Errors.{Result, ok, err, number, text, rate_limited}
use open_claw_bridge.RateLimit.{Bucket, Wait, allowed, after, forever, spec_for, new_bucket, take}
use open_claw_bridge.RateLimit.Lua.{Hash, lua_take}

-- `_buckets[(actor, scope)] = v`
abbrev pub set :
    String → String → Bucket → (String → String → Option Bucket) → String → String → Option Bucket
set a s v t b r = if str_eq a b && str_eq s r then some v else t b r

-- `RateLimiter._key`
abbrev pub key : String → String → String
key actor scope = concat ("bucket:" ∷ actor ∷ ":" ∷ scope ∷ [])

abbrev pub set_hash : String → Hash → (String → Option Hash) → String → Option Hash
set_hash k h t j = if str_eq k j then some h else t j

-- `redis_fault` says whether EVAL raises `RedisError`; without a client it is never asked.
pub record RateLimiter : Type 0 where
  pub has_client : Bool
  pub redis_fault : Bool
  pub hashes : String → Option Hash
  pub buckets : String → String → Option Bucket

unfoldable pub check_memory : String → String → ℕ → RateLimiter → Wait × RateLimiter
check_memory actor scope now l =
    let b = get_or (l.buckets actor scope) (new_bucket (spec_for scope)) in
    let (w, b') = take b now in (w, record l { buckets = set actor scope b' l.buckets })

-- `-1` becomes `inf`, and milliseconds become seconds.
abbrev pub redis_wait : Option ℕ → Wait
redis_wait none = forever
redis_wait (some zero) = allowed
redis_wait (some (suc n)) = after (suc n) 1

unfoldable pub check_redis : String → String → ℕ → RateLimiter → Wait × RateLimiter
check_redis actor scope time l =
    let (retry, h) = lua_take (spec_for scope) time (l.hashes (key actor scope)) in
    (redis_wait retry, record l { hashes = set_hash (key actor scope) h l.hashes })

-- `now` is the monotonic clock of the process, `time` that of Redis.
unfoldable pub check_async : String → String → ℕ → ℕ → RateLimiter → Wait × RateLimiter
unfolding check_memory check_redis
check_async actor scope now time l =
    if l.has_client && not l.redis_fault
    then check_redis actor scope time l
    else check_memory actor scope now l

-- `RateLimiter.clear`: the buckets, and the keys of Redis if it answers.
unfoldable pub clear : RateLimiter → RateLimiter
clear l =
    let l' = record l { buckets = λ a s. none } in
    if l.has_client && not l.redis_fault then record l' { hashes = λ k. none } else l'

-- `max(1, int(r) + (1 if r % 1 else 0))` for `r = num / den / 1000` seconds.
unfoldable pub retry_after_s : ℕ → ℕ → ℕ
retry_after_s num den = max 1 (num / (den * 1000) + (if num % (den * 1000) == 0 then 0 else 1))

-- The check of `require_rate`. `int(inf)` would raise `OverflowError`, which no scope of `spec_for`
-- can reach; it is the `none`.
unfoldable pub require_rate : String → Wait → Option (Result (Unit {0}))
unfolding retry_after_s
require_rate scope allowed = some (ok tt)
require_rate scope (after num den) =
    let seconds = retry_after_s num den in
    some (
      err (record {
        kind = rate_limited;
        message = concat ("Rate limit exceeded for scope " ∷ scope ∷ "." ∷ []);
        details = ("retry_after_s", number seconds) ∷ ("scope", text scope) ∷ [];
        headers = [];
      }))
require_rate scope forever = none
