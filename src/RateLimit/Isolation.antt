-- ===== src/RateLimit/Isolation.antt =====
-- The limiter over both stores: whose bucket a check spends from, and what a failing Redis changes.
use open_claw_bridge.Prelude.{
  ℕ, String, ◌≡◌, ◌⊎◌, inl, inr, true, false, ◌&&◌, some, arith, str_eq, if◌then◌else◌, Bool-cases,
  get_or,
}
use open_claw_bridge.RateLimit.{take, new_bucket, spec_for}
use open_claw_bridge.RateLimit.Limiter.{RateLimiter, check_memory, check_async}

-- Without Redis, or while it raises, a check answers from the bucket of its actor and scope in memory,
-- a new and full one at first, and leaves every other bucket and every hash as it was. So an actor cannot
-- spend the tokens of another, nor one scope those of another.
pub check_async-memory :
    (actor scope a s : String) (now time : ℕ) (l : RateLimiter)
    → (l.has_client ≡ false) ⊎ (l.redis_fault ≡ true)
    → (let b = get_or (l.buckets actor scope) (new_bucket (spec_for scope)) in
        let (w, l') = check_async actor scope now time l in
        (w ≡ (take b now).0)
        × (l'.buckets a s
            ≡ (if str_eq actor a && str_eq scope s then some (take b now).1 else l.buckets a s))
        × ((k : String) → l'.hashes k ≡ l.hashes k))
unfolding check_async check_memory
check_async-memory actor scope a s now time l (inl e) =
    (ground (arith, e), ground (arith, e), λ k. ground (arith, e))
check_async-memory actor scope a s now time l (inr e) = elim (Bool-cases l.has_client) [
  | inl c ↦ (ground (arith, e, c), ground (arith, e, c), λ k. ground (arith, e, c))
  | inr c ↦ (ground (arith, c), ground (arith, c), λ k. ground (arith, c))
]
