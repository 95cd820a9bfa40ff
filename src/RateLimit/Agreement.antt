-- ===== src/RateLimit/Agreement.antt =====
-- The script in Redis and the bucket in memory make the same decisions, on a clock that does not go
-- back. An expired hash stands for the full bucket that it would have become.
use open_claw_bridge.Prelude.{
  ℕ, ◌+◌, ◌-◌, ◌*◌, ◌≤◌, ◌<◌, ◌≡◌, refl, sym, ap, ◌∙◌, inl, inr, Option, none, some, List, [], ◌∷◌,
  map, arith, leb, if◌then◌else◌, Bool-cases, get_or, Forward,
}
use native.Mathlib.Nat.{mod-add-div', mod-lt, mul-le-mul_right}
use open_claw_bridge.RateLimit.{
  spend, BucketSpec, Bucket, token, capacity, Wait, allowed, after, forever, refill, take,
  new_bucket,
}
use open_claw_bridge.RateLimit.Lua.{Hash, live, ceil_div, ttl_ms, refilled, retry, lua_take}

-- A hash and a bucket that a check at `now` or later cannot tell apart.
pub record Agrees (s : BucketSpec) (now : ℕ) (h : Option Hash) (b : Bucket) : Type 0 where
  pub spec : b.spec ≡ s
  pub past : get_or b.last_refill now ≤ now
  pub level : (later : ℕ) → now ≤ later → refilled s later (live later h) ≡ (refill b later).tokens

-- What the script answers for a wait of the bucket: whole milliseconds, rounded up.
abbrev pub rounded : Wait → Option ℕ
rounded allowed = some 0
rounded (after num den) = some (ceil_div num den)
rounded forever = none

pub new-Agrees : (s : BucketSpec) (now : ℕ) → Agrees s now none (new_bucket s)
unfolding new_bucket refilled refill
new-Agrees s now = record { spec = refl; past = ground arith; level = λ later le. ground arith }

ceil_div_lem : (a b : ℕ) → 0 < b → a ≤ ceil_div a b * b
ceil_div_lem a b p = omega (arith, mod-add-div' (a + b - 1) b, mod-lt (a + b - 1) p)

-- A hash that expires is that of a bucket which is full by then.
full_by_expiry : (s : BucketSpec) → 0 < s.per_minute → capacity s ≤ ttl_ms s * s.per_minute
full_by_expiry s p = omega (arith, ceil_div_lem (s.burst * 60) s.per_minute p)

decide :
    (s : BucketSpec) (b : Bucket) (tokens : ℕ)
    → b.spec ≡ s
    → b.tokens ≡ tokens
    → (retry s tokens ≡ rounded (spend b).0)
unfolding retry spend
decide s b tokens e f = ground (arith, ap (λ (x : BucketSpec). x.per_minute) e)

-- From the same tokens at `now`, both have the same tokens later.
later_same :
    (s : BucketSpec) (now later tokens : ℕ)
    → 0 < s.per_minute
    → now ≤ later
    → refilled s later (
        live later
          (some (record { tokens = tokens; last_refill_ms = now; expires_at = now + ttl_ms s })))
      ≡ (refill (record { spec = s; tokens = tokens; last_refill = some now }) later).tokens
unfolding refill refilled
later_same s now later tokens rate le = elim (Bool-cases (leb (now + ttl_ms s) later)) [
  | inl e ↦
      let far : ttl_ms s ≤ later - now = ground (arith, e) in
      ground (arith, full_by_expiry s rate, mul-le-mul_right s.per_minute far)
  | inr e ↦ ground arith
]

bucket_eq :
    (b : Bucket) (s : BucketSpec) (now tokens : ℕ)
    → b.spec ≡ s
    → b.tokens ≡ tokens
    → b.last_refill ≡ some now
    → b ≡ record { spec = s; tokens = tokens; last_refill = some now }
bucket_eq b s now tokens e f g = cc

frame :
    (b : Bucket) (now : ℕ)
    → get_or b.last_refill now ≤ now
    → ((take b now).1.spec ≡ b.spec)
      × ((take b now).1.last_refill ≡ some now)
      × ((take b now).1.tokens
          ≡ (let t = (refill b now).tokens in if leb token t then t - token else t))
unfolding take refill spend
frame b now le = ground arith

after_take :
    (s : BucketSpec) (now : ℕ) (h : Option Hash) (b : Bucket)
    → 0 < s.per_minute
    → Agrees s now h b
    → Agrees s now (some (lua_take s now h).1) (take b now).1
unfolding lua_take
after_take s now h b rate g =
    let (e, f, t) = frame b now g.past in
    let same = g.level now (omega arith) in
    record {
      spec = e ∙ g.spec;
      past = ground (arith, f);
      level = λ later le.
          rw (bucket_eq (take b now).1 s now _ (e ∙ g.spec) t f, ← same)
            (later_same s now later _ rate le);
    }

-- The answers of a run of checks at these times.
unfoldable pub lua_run : BucketSpec → Option Hash → List ℕ → List (Option ℕ)
lua_run s h [] = []
lua_run s h (now ∷ ts) = let (r, h') = lua_take s now h in r ∷ lua_run s (some h') ts

unfoldable pub run : Bucket → List ℕ → List Wait
run b [] = []
run b (now ∷ ts) = let (w, b') = take b now in w ∷ run b' ts

later-Agrees :
    (s : BucketSpec) (now later : ℕ) (h : Option Hash) (b : Bucket)
    → now ≤ later
    → Agrees s now h b
    → Agrees s later h b
later-Agrees s now later h b le g = record {
  spec = g.spec;
  past = ground (arith, g.past);
  level = λ t u. g.level t (omega arith);
}

refill_spec : (b : Bucket) (now : ℕ) → (refill b now).spec ≡ b.spec
unfolding refill
refill_spec b now = ground arith

answer :
    (s : BucketSpec) (now : ℕ) (h : Option Hash) (b : Bucket)
    → Agrees s now h b
    → (lua_take s now h).0 ≡ rounded (take b now).0
unfolding lua_take take
answer s now h b g =
    decide s (refill b now) (refilled s now (live now h)) (refill_spec b now ∙ g.spec)
      (sym (g.level now (omega arith)))

runs_agree :
    (s : BucketSpec) (t : ℕ) (h : Option Hash) (b : Bucket) (ts : List ℕ)
    → 0 < s.per_minute
    → Agrees s t h b
    → Forward t ts
    → lua_run s h ts ≡ map rounded (run b ts)
unfolding lua_run run
runs_agree s t h b [] rate g f = refl
runs_agree s t h b (now ∷ ts) rate g f =
    let g' = later-Agrees s t now h b f.0 g in
    rw
      (
        answer s now h b g',
        runs_agree s now (some (lua_take s now h).1) (take b now).1 ts rate
            (after_take s now h b rate g') f.1,
      )
      refl

-- For every rate above 0 and all times that do not go back, the script, from no hash, and the bucket
-- in memory, from a new one, give the same answers, the waits of the script rounded up to whole
-- milliseconds. So the expiry of the hash never changes an answer.
pub lua_run-run :
    (s : BucketSpec) (t : ℕ) (ts : List ℕ)
    → 0 < s.per_minute
    → Forward t ts
    → lua_run s none ts ≡ map rounded (run (new_bucket s) ts)
lua_run-run s t ts rate f = runs_agree s t none (new_bucket s) ts rate (new-Agrees s t) f
