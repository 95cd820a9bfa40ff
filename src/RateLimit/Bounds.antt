-- ===== src/RateLimit/Bounds.antt =====
-- The bucket in memory: how many requests pass, and when the next one does.
use open_claw_bridge.Prelude.{
  ℕ, ◌+◌, ◌-◌, ◌*◌, ◌≤◌, ◌<◌, max, ◌≡◌, ap, ◌↔◌, some, List, [], ◌∷◌, arith, get_or, All,
}
use open_claw_bridge.RateLimit.{BucketSpec, after, Bucket, token, capacity, Wait, allowed, take}

pub record IsBounded (b : Bucket) : Type 0 where
  pub full : b.tokens ≤ capacity b.spec

abbrev pub is_allowed : Wait → ℕ
is_allowed allowed = 1
is_allowed _ = 0

-- The time up to which a bucket is refilled.
abbrev pub mark : Bucket → ℕ → ℕ
mark b now = get_or b.last_refill now

pub take-IsBounded : (b : Bucket) (now : ℕ) → IsBounded b → IsBounded (take b now).1
unfolding take
take-IsBounded b now v = ground arith

-- A check spends a token exactly if it passes, and gains at most the refill of the time that went by.
pub take_budget :
    (b : Bucket) (now : ℕ)
    → (take b now).1.tokens + token * is_allowed (take b now).0
      ≤ b.tokens + (mark (take b now).1 now - mark b now) * b.spec.per_minute
unfolding take
take_budget b now = ground arith

pub take_frame :
    (b : Bucket) (now t : ℕ)
    → b.last_refill ≡ some t
    → ((take b now).1.spec ≡ b.spec) × ((take b now).1.last_refill ≡ some (max t now))
unfolding take
take_frame b now t e = ground arith

-- How many of the checks at these times pass.
unfoldable pub passed : Bucket → List ℕ → ℕ
passed b [] = 0
passed b (now ∷ ts) = let (w, b') = take b now in let rest = passed b' ts in is_allowed w + rest

span : (p t₀ m t₁ : ℕ) → t₀ ≤ m → m ≤ t₁ → (m - t₀) * p + (t₁ - m) * p ≡ (t₁ - t₀) * p
span p t₀ m t₁ a b =
    let e : (m - t₀) + (t₁ - m) ≡ t₁ - t₀ = omega arith in omega (arith, ap (λ (x : ℕ). x * p) e)

chain :
    (p t₀ m t₁ x₀ x₁ a n : ℕ)
    → t₀ ≤ m
    → m ≤ t₁
    → x₁ + token * a ≤ x₀ + (m - t₀) * p
    → token * n ≤ x₁ + (t₁ - m) * p
    → token * (a + n) ≤ x₀ + (t₁ - t₀) * p
chain p t₀ m t₁ x₀ x₁ a n u v f g = omega (arith, span p t₀ m t₁ u v)

take_budget_at :
    (b : Bucket) (t₀ now : ℕ)
    → b.last_refill ≡ some t₀
    → (take b now).1.tokens + token * is_allowed (take b now).0
      ≤ b.tokens + (max t₀ now - t₀) * b.spec.per_minute
take_budget_at b t₀ now e = ground (arith, take_budget b now, take_frame b now t₀ e)

budget :
    (b : Bucket) (t₀ t₁ : ℕ) (ts : List ℕ)
    → b.last_refill ≡ some t₀
    → t₀ ≤ t₁
    → All (λ t. t ≤ t₁) ts
    → token * passed b ts ≤ b.tokens + (t₁ - t₀) * b.spec.per_minute
unfolding passed
budget b t₀ t₁ [] e le a = omega arith
budget b t₀ t₁ (now ∷ ts) e le a =
    chain b.spec.per_minute t₀ (max t₀ now) t₁ b.tokens (take b now).1.tokens
      (is_allowed (take b now).0) (passed (take b now).1 ts) (omega arith) (omega (arith, a.0))
      (take_budget_at b t₀ now e)
      (rw (ap (λ (s : BucketSpec). s.per_minute) (take_frame b now t₀ e).0) at (
        budget (take b now).1 (max t₀ now) t₁ ts (take_frame b now t₀ e).1 (omega (arith, a.0))
          a.1))

-- However the checks fall, from a bucket that holds at most its burst and was last refilled at `t₀`, to
-- a time `t₁` that none of them exceeds, no more pass than the burst and the refill of the time between.
pub window_bound :
    (b : Bucket) (t₀ t₁ : ℕ) (ts : List ℕ)
    → IsBounded b
    → b.last_refill ≡ some t₀
    → t₀ ≤ t₁
    → All (λ t. t ≤ t₁) ts
    → token * passed b ts ≤ token * b.spec.burst + (t₁ - t₀) * b.spec.per_minute
window_bound b t₀ t₁ ts v e le a = omega (arith, budget b t₀ t₁ ts e le a, v.full)

-- The advised wait is exact, for a bucket with room for a token that holds at most its burst, on a clock
-- that has not gone back: after a refusal with `num / den` milliseconds, a check at any later time passes
-- if and only if that much time has gone by.
pub wait_exact :
    (b : Bucket) (now later num den : ℕ)
    → IsBounded b
    → 0 < b.spec.burst
    → mark b now ≤ now
    → now ≤ later
    → (take b now).0 ≡ after num den
    → ((take (take b now).1 later).0 ≡ allowed) ↔ (num ≤ (later - now) * den)
unfolding take
wait_exact b now later num den v room m le e = ground arith
