-- ===== src/Supervisor/Watch.antt =====
-- `Supervisor._watch`: restarts with a growing backoff, and the poison pill.
use open_claw_bridge.Prelude.{
  ℕ, zero, suc, ◌-◌, ◌*◌, ◌^◌, ◌≤◌, min, String, ◌≡◌, refl, ◌∙◌, inl, inr, Bool, true, false,
  Option, none, some, List, [], ◌∷◌, ◌++◌, map, arith, ltb, leb, if◌then◌else◌, Bool-cases, length,
  filter, Forward,
}
use open_claw_bridge.Supervisor.{
  poison_pill_threshold, poison_pill_window, exit_poison_pill, backoff_max, backoff_initial, Child,
  Action, sleep, Ends, returns, raises, start_child, spawn, running, exited,
}

-- What ends a wait: the shutdown event, which takes priority, or the child's own exit, with the clock
-- after it, whether the event is set after the sleep, and whether the spawn after that fails.
pub data Happens : Type 0 where
  shutdown : Happens
  exits : (now : ℕ) (is_shutdown spawn_fails : Bool) → Happens

-- `restart_history` after an exit.
unfoldable pub recorded : ℕ → Child → Child
recorded now c = record c {
  proc = some exited;
  restart_history = filter (λ t. ltb (now - t) poison_pill_window) c.restart_history ++ now ∷ [];
}

-- The sleep before a restart, and the next backoff.
unfoldable pub back_off : Child → Child × List Action
back_off c = (record c { backoff_s = min (c.backoff_s * 2) backoff_max }, sleep c.backoff_s ∷ [])

-- The loop of `_watch` on what happens; `none` while it waits for more.
unfoldable pub watch : Child → List Happens → Option Ends × Child × List Action
unfolding recorded back_off start_child
watch c [] = (none, c, [])
watch c (shutdown ∷ hs) = (some returns, c, [])
watch c (exits now stop fails ∷ hs) =
    let c' = recorded now c in
    let (c'', slept) = back_off c' in
    let (s, started, acts) = start_child fails c'' in
    let (e, last, more) = watch started hs in
    if leb poison_pill_threshold (length c'.restart_history)
    then (some (raises exit_poison_pill), c', [])
    else if stop
    then (some returns, c'', slept)
    else if fails
    then (some s, started, slept ++ acts)
    else (e, last, slept ++ acts ++ more)

abbrev pub crashes : List ℕ → List Happens
crashes = map (λ t. exits t false false)

-- After exits at `a` and then at `b`: whether some exit of `ts` comes less than the window after the
-- last but one before it.
abbrev pub loops_after : ℕ → ℕ → List ℕ → Bool
loops_after a b [] = false
loops_after a b (t ∷ ts) = if ltb (t - a) poison_pill_window then true else loops_after b t ts

-- Whether three exits in a row lie within a window.
abbrev pub loops : List ℕ → Bool
loops [] = false
loops (a ∷ []) = false
loops (a ∷ b ∷ ts) = loops_after a b ts

abbrev pub verdict : Bool → Option Ends
verdict b = if b then some (raises exit_poison_pill) else none

-- The history after exits at `a` and `b` holds what of them is less than a window old.
pub data Holds (a b : ℕ) (h : List ℕ) : Type 0 where
  both : h ≡ a ∷ b ∷ [] → Holds a b h
  last : h ≡ b ∷ [] → poison_pill_window ≤ b - a → Holds a b h

-- The history after an exit at `t`.
abbrev pub aged : ℕ → List ℕ → List ℕ
aged t h = filter (λ x. ltb (t - x) poison_pill_window) h ++ t ∷ []

aged-Holds :
    (a b t : ℕ) (h : List ℕ)
    → b ≤ t
    → poison_pill_window ≤ t - a
    → Holds a b h
    → Holds b t (aged t h)
aged-Holds a b t h le far (both e) = elim (Bool-cases (ltb (t - b) poison_pill_window)) [
  | inl near ↦ both (rw (e) (ground (arith, near)))
  | inr away ↦ last (rw (e) (ground (arith, away))) (ground (arith, away))
]
aged-Holds a b t h le far (last e apart) = elim (Bool-cases (ltb (t - b) poison_pill_window)) [
  | inl near ↦ both (rw (e) (ground (arith, near)))
  | inr away ↦ last (rw (e) (ground (arith, away))) (ground (arith, away))
]

length-aged :
    (a b t : ℕ) (h : List ℕ)
    → a ≤ b
    → b ≤ t
    → Holds a b h
    → leb poison_pill_threshold (length (aged t h)) ≡ ltb (t - a) poison_pill_window
length-aged a b t h le le' (both e) = rw (e) (ground arith)
length-aged a b t h le le' (last e apart) = rw (e) (ground arith)

abbrev pub restarted : ℕ → Child → Child
restarted t c = record c {
  proc = some running;
  restart_history = aged t c.restart_history;
  backoff_s = min (c.backoff_s * 2) backoff_max;
}

watch_two :
    (a b : ℕ) (c : Child) (ts : List ℕ)
    → a ≤ b
    → Forward b ts
    → Holds a b c.restart_history
    → (watch c (crashes ts)).0 ≡ verdict (loops_after a b ts)
unfolding watch recorded back_off start_child
watch_two a b c [] le f h = refl
watch_two a b c (t ∷ ts) le f h =
    let count = length-aged a b t c.restart_history le f.0 h in
    elim (Bool-cases (ltb (t - a) poison_pill_window)) [
      | inl near ↦ rw (count, near) refl
      | inr away ↦
          let h' = aged-Holds a b t c.restart_history f.0 (ground (arith, away)) h in
          rw (count, away) (watch_two b t (restarted t c) ts f.0 f.1 h')
    ]

watch_on :
    (t : ℕ) (c : Child) (ts : List ℕ)
    → leb poison_pill_threshold (length (aged t c.restart_history)) ≡ false
    → (watch c (crashes (t ∷ ts))).0 ≡ (watch (restarted t c) (crashes ts)).0
unfolding watch recorded back_off start_child
watch_on t c ts short = rw (short) refl

watch_one :
    (a : ℕ) (c : Child) (ts : List ℕ)
    → Forward a ts
    → c.restart_history ≡ a ∷ []
    → (watch c (crashes ts)).0 ≡ verdict (loops (a ∷ ts))
unfolding watch
watch_one a c [] f h = refl
watch_one a c (t ∷ ts) f h = elim (Bool-cases (ltb (t - a) poison_pill_window)) [
  | inl near ↦
      watch_on t c ts (rw (h, near) refl)
      ∙ watch_two a t (restarted t c) ts f.0 f.1 (both (rw (h, near) refl))
  | inr away ↦
      watch_on t c ts (rw (h, away) refl)
      ∙ watch_two a t (restarted t c) ts f.0 f.1 (last (rw (h, away) refl) (ground (arith, away)))
]

-- The supervisor gives a child up, from a start with no history, if and only if three of its exits in a
-- row lie within the window of 30 seconds; else it goes on. At whatever times the exits come, if the
-- clock does not go back, no shutdown is asked for and every restart can spawn.
pub watch-poison :
    (c : Child) (ts : List ℕ)
    → c.restart_history ≡ []
    → Forward 0 ts
    → (watch c (crashes ts)).0 ≡ (if loops ts then some (raises exit_poison_pill) else none)
unfolding watch
watch-poison c [] h f = refl
watch-poison c (t ∷ ts) h f =
    watch_on t c ts (rw (h) refl) ∙ watch_one t (restarted t c) ts f.1 (rw (h) refl)

-- The `n`-th backoff from a start: 1, 2, 4, 8 and then 10 seconds.
abbrev pub backoff : ℕ → ℕ
backoff n = min (backoff_initial * 2 ^ n) backoff_max

-- What the restarts do, the `n`-th first.
abbrev pub schedule : String → ℕ → ℕ → List Action
schedule name n zero = []
schedule name n (suc k) = sleep (backoff n) ∷ spawn name ∷ schedule name (suc n) k

backoff-suc : (n : ℕ) → min (backoff n * 2) backoff_max ≡ backoff (suc n)
backoff-suc n = ground arith

-- A child that is not given up is restarted after each exit, with the backoff doubled from 1 to at most
-- 10 seconds, and never reset, if its backoff is the one of `n` restarts, no shutdown is asked for and
-- every restart can spawn.
pub watch-schedule :
    (c : Child) (n : ℕ) (ts : List ℕ)
    → c.backoff_s ≡ backoff n
    → (watch c (crashes ts)).0 ≡ none
    → (watch c (crashes ts)).2 ≡ schedule c.name n (length ts)
unfolding watch recorded back_off start_child
watch-schedule c n [] b e = refl
watch-schedule c n (t ∷ ts) b e =
    let b' : (restarted t c).backoff_s ≡ backoff (suc n) = rw (b) (backoff-suc n) in
    elim (Bool-cases (leb poison_pill_threshold (length (aged t c.restart_history)))) [
      | inl given ↦ ground (arith, given)
      | inr on ↦
          let rest = watch-schedule (restarted t c) (suc n) ts b' (ground (arith, on)) in
          ground (arith, on, b, rest)
    ]
