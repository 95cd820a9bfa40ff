-- ===== src/Client/Bounds.antt =====
-- How often the client asks, what it sends and how long it sleeps.
use open_claw_bridge.Prelude.{
  ℕ, zero, suc, ◌+◌, ◌*◌, ◌≤◌, String, ◌≡◌, refl, inl, inr, Bool, true, not, Option, none, some,
  List, [], ◌∷◌, arith, ltb, ◌==◌, Bool-cases, Option-cases, length, All,
}
use open_claw_bridge.Client.{
  Answer-cases, read_retry_after, retry_after_cap, max_429_retries, ends, Request, Answer, Float,
  Outcome, returned, rate_limited, raised, Ran, sleep_for, on_429, attempts, stamp_idempotency_key,
  handle_async_request,
}

abbrev pub total : List ℕ → ℕ
total [] = 0
total (x ∷ xs) = x + total xs

-- What a run returns is not a 429.
abbrev pub passes : Outcome → Bool
passes (returned resp) = not (resp.status == 429)
passes (rate_limited reason) = true
passes (raised text) = true

-- The bounds of a run that had `left` retries to go, on a request.
pub record IsBounded {W : Type 0} (cap left : ℕ) (r : Request) (ran : Ran W) : Type 0 where
  pub same : All (λ q. q ≡ r) ran.requests
  pub few : length ran.sleeps ≤ left
  pub between : length ran.requests ≡ length ran.sleeps + 1
  pub waits : All (λ ms. (100 ≤ ms) × (ms ≤ cap)) ran.sleeps
  pub in_all : total ran.sleeps ≤ left * cap
  pub final : passes ran.outcome ≡ true

sleep_for_least :
    (attempt : ℕ) (f : Option Float) {ms : ℕ} → sleep_for attempt f ≡ some ms → 100 ≤ ms
unfolding sleep_for
sleep_for_least attempt none e = ground arith
sleep_for_least attempt (some f) e = ground arith

ends-IsBounded :
    {W : Type 0} (cap left : ℕ) (o : Outcome) (r : Request) (w : W)
    → passes o ≡ true
    → IsBounded cap left r (ends o r w)
ends-IsBounded cap left o r w p = record {
  same = (refl, tt);
  few = omega arith;
  between = omega arith;
  waits = tt;
  in_all = omega arith;
  final = p;
}

module _ {W : Type 0} (cap : ℕ) (float : String → Option Float)
    (wrapped : Request → W → Answer × W) where
  on_429-IsBounded :
      (left attempt : ℕ) (r : Request) (f : Option Float) (w : W) (again : Ran W)
      → IsBounded cap left r again
      → IsBounded cap (suc left) r (on_429 cap float wrapped attempt r f w again)
  unfolding on_429
  on_429-IsBounded left attempt r f w again b = elim (Option-cases (sleep_for attempt f)) [
    | inl e ↦ rw (on_429, e) (ends-IsBounded cap (suc left) _ r w refl)
    | inr (ms, e) ↦ elim (Bool-cases (ltb cap ms)) [
      | inl l ↦ rw (on_429, e, l) (ends-IsBounded cap (suc left) _ r w refl)
      | inr l ↦
          rw (on_429, e, l)
            (record {
              same = (refl, b.same);
              few = omega (arith, b.few);
              between = omega (arith, b.between);
              waits = ((sleep_for_least attempt f e, ground arith), b.waits);
              in_all = ground (arith, b.in_all);
              final = b.final;
            })
    ]
  ]

  attempts-IsBounded :
      (left attempt : ℕ) (r : Request) (w : W)
      → IsBounded cap left r (attempts cap float wrapped left attempt r w)
  unfolding attempts
  attempts-IsBounded zero attempt r w = elim (Answer-cases (wrapped r w).0) [
    | inl (t, e) ↦ rw (attempts, e) (ends-IsBounded cap 0 _ r _ refl)
    | inr (resp, e) ↦ elim (Bool-cases (resp.status == 429)) [
      | inl f ↦ rw (attempts, e, f) (ends-IsBounded cap 0 _ r _ refl)
      | inr f ↦ rw (attempts, e, f) (ends-IsBounded cap 0 _ r _ (rw f refl))
    ]
  ]
  attempts-IsBounded (suc left) attempt r w = elim (Answer-cases (wrapped r w).0) [
    | inl (t, e) ↦ rw (attempts, e) (ends-IsBounded cap (suc left) _ r _ refl)
    | inr (resp, e) ↦ elim (Bool-cases (resp.status == 429)) [
      | inl f ↦
          rw (attempts, e, f)
            (on_429-IsBounded left attempt r (read_retry_after float resp) (wrapped r w).1 _
              (attempts-IsBounded left (suc attempt) r (wrapped r w).1))
      | inr f ↦ rw (attempts, e, f) (ends-IsBounded cap (suc left) _ r _ (rw f refl))
    ]
  ]

-- Whatever the bridge answers, a call makes one to four requests, each with the same headers, key and
-- body; it sleeps once between any two of them, from 0.1 to 30 seconds and 90 in all at most; and a
-- response that it returns is not a 429.
pub handle-IsBounded :
    {W : Type 0} (float : String → Option Float) (wrapped : Request → W → Answer × W)
    (override : Option String) (uuid : String) (r : Request) (w : W)
    → IsBounded retry_after_cap max_429_retries
        (stamp_idempotency_key override uuid r)
        (handle_async_request float wrapped override uuid r w)
unfolding handle_async_request
handle-IsBounded float wrapped override uuid r w =
    attempts-IsBounded retry_after_cap float wrapped max_429_retries 0
      (stamp_idempotency_key override uuid r) w
