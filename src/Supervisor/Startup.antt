-- ===== src/Supervisor/Startup.antt =====
-- Phase 1 of `Supervisor.run` and `_wait_ready`: each child is up before the next one is spawned.
use open_claw_bridge.Prelude.{
  ℕ, zero, suc, ◌+◌, ◌*◌, ◌≤◌, String, ◌≡◌, refl, ap, ◌≢◌, ◌⊎◌, inl, inr, Bool, true, false, not,
  ◌&&◌, ◌||◌, Option, none, some, List, [], ◌∷◌, ◌++◌, arith, leb, if◌then◌else◌, Bool-cases,
  Option-cases, length, is_some, any,
}
use open_claw_bridge.Supervisor.{
  health_timeout, health_poll_interval, exit_ok, exit_health_timeout, Child, Action, spawn, probe,
  sleep, terminate, kill, Ends, returns, raises, escapes, start_child, running,
}

-- One turn of the loop in `_wait_ready`: whether the shutdown event is set, what the probe answers, and
-- the clock after it.
pub record Poll : Type 0 where
  pub is_shutdown : Bool
  pub is_ready : Bool
  pub now : ℕ

-- `_wait_ready`, on the polls that its loop makes; `none` if it needs more of them.
unfoldable pub wait_ready : String → (deadline : ℕ) → List Poll → Option (Ends × List Action)
wait_ready name deadline [] = none
wait_ready name deadline (p ∷ ps) =
    let rest = wait_ready name deadline ps in
    if p.is_shutdown
    then some (raises exit_ok, [])
    else if p.is_ready
    then some (returns, probe name ∷ [])
    else if leb deadline p.now
    then some (raises exit_health_timeout, probe name ∷ [])
    else elim rest [
      | none ↦ none
      | some (e, acts) ↦ some (e, probe name ∷ sleep health_poll_interval ∷ acts)
    ]

-- What the environment answers while one child starts: whether its spawn fails, the clock after it, and
-- its polls.
pub record Boot : Type 0 where
  pub spawn_fails : Bool
  pub now : ℕ
  pub polls : List Poll

-- `self._start(child)` and the readiness gate.
unfoldable pub bring_up : Child → Boot → Option (Ends × Child × List Action)
unfolding start_child wait_ready
bring_up c boot =
    let (s, c', acts) = start_child boot.spawn_fails c in
    if boot.spawn_fails
    then some (s, c', acts)
    else if c.has_ready_check
    then elim (wait_ready c.name (boot.now + health_timeout) boot.polls) [
      | none ↦ none
      | some (e, more) ↦ some (e, c', acts ++ more)
    ]
    else some (returns, c', acts)

-- The loop over `self.children`. An error leaves the children behind it as they were.
unfoldable pub start_all : List Child → List Boot → Option (Ends × List Child × List Action)
unfolding bring_up
start_all [] boots = some (returns, [], [])
start_all (c ∷ cs) [] = none
start_all (c ∷ cs) (boot ∷ boots) =
    let rest = start_all cs boots in
    elim (bring_up c boot) [
      | none ↦ none
      | some (raises code, c', acts) ↦ some (raises code, c' ∷ cs, acts)
      | some (escapes, c', acts) ↦ some (escapes, c' ∷ cs, acts)
      | some (returns, c', acts) ↦ elim rest [
        | none ↦ none
        | some (e, cs', more) ↦ some (e, c' ∷ cs', acts ++ more)
      ]
    ]

-- The polls come no faster than the loop sleeps between them.
abbrev pub Paced : ℕ → List Poll → Type 0
Paced t [] = Unit
Paced t (p ∷ ps) = (t ≤ p.now) × Paced (p.now + health_poll_interval) ps

-- A readiness gate ends: from the time `t`, after as many polls as the sleeps between them need to reach
-- the deadline, whatever the probe answers. If no poll comes sooner than the sleep before it allows.
pub wait_ends :
    (name : String) (deadline t : ℕ) (p : Poll) (ps : List Poll)
    → Paced t (p ∷ ps)
    → deadline ≤ t + length ps * health_poll_interval
    → is_some (wait_ready name deadline (p ∷ ps)) ≡ true
unfolding wait_ready
wait_ends name deadline t p [] paced le = ground (arith, paced.0)
wait_ends name deadline t p (q ∷ ps) paced le = ground (
  arith,
  paced.0,
  wait_ends name deadline (p.now + health_poll_interval) q ps paced.1 (omega (arith, paced.0)),
)

-- A gate that returns had a probe that answered.
pub wait_ready_lem :
    (name : String) (deadline : ℕ) (ps : List Poll) (acts : List Action)
    → wait_ready name deadline ps ≡ some (returns, acts)
    → any (λ p. p.is_ready) ps ≡ true
unfolding wait_ready
wait_ready_lem name deadline [] acts e = ground arith
wait_ready_lem name deadline (p ∷ ps) acts e = elim (Option-cases (wait_ready name deadline ps)) [
  | inl n ↦ ground (arith, n)
  | inr ((raises c, more), m) ↦ ground (arith, m)
  | inr ((escapes, more), m) ↦ ground (arith, m)
  | inr ((returns, more), m) ↦ ground (arith, m, wait_ready_lem name deadline ps more m)
]

-- The names that are spawned, in their order.
abbrev pub spawned : List Action → List String
spawned [] = []
spawned (spawn n ∷ acts) = n ∷ spawned acts
spawned (probe n ∷ acts) = spawned acts
spawned (sleep t ∷ acts) = spawned acts
spawned (terminate n ∷ acts) = spawned acts
spawned (kill n ∷ acts) = spawned acts

abbrev pub started : Child → Child
started c = record c { proc = some running }

-- The gate of a child was passed: it has none, or a poll found it ready.
abbrev pub is_up : Child → Boot → Bool
is_up c boot = not c.has_ready_check || any (λ p. p.is_ready) boot.polls

wait-spawned :
    (name : String) (deadline : ℕ) (ps : List Poll) (e : Ends) (acts : List Action)
    → wait_ready name deadline ps ≡ some (e, acts)
    → spawned acts ≡ []
unfolding wait_ready
wait-spawned name deadline [] e acts eq = ground arith
wait-spawned name deadline (p ∷ ps) e acts eq = elim (Option-cases (wait_ready name deadline ps)) [
  | inl n ↦ ground (arith, n)
  | inr ((e', more), m) ↦ ground (arith, m, wait-spawned name deadline ps e' more m)
]

spawned-append : (xs ys : List Action) → spawned (xs ++ ys) ≡ spawned xs ++ spawned ys
spawned-append [] ys = refl
spawned-append (spawn n ∷ xs) ys = ap (λ (l : List String). n ∷ l) (spawned-append xs ys)
spawned-append (probe n ∷ xs) ys = spawned-append xs ys
spawned-append (sleep t ∷ xs) ys = spawned-append xs ys
spawned-append (terminate n ∷ xs) ys = spawned-append xs ys
spawned-append (kill n ∷ xs) ys = spawned-append xs ys

no_start : (s : Ends × List Child × List Action) → none ≡ some s → ⊥
no_start s eq = ground (arith, eq)

wait_ready-ends :
    (name : String) (deadline : ℕ) (ps : List Poll) (acts : List Action)
    → wait_ready name deadline ps ≢ some (escapes, acts)
unfolding wait_ready
wait_ready-ends name deadline [] acts eq = ground arith
wait_ready-ends name deadline (p ∷ ps) acts eq = elim (Option-cases (wait_ready name deadline ps)) [
  | inl n ↦ ground (arith, n)
  | inr ((raises c, more), m) ↦ ground (arith, m)
  | inr ((returns, more), m) ↦ ground (arith, m)
  | inr ((escapes, more), m) ↦ ground (arith, wait_ready-ends name deadline ps more m)
]

-- The child is spawned, once, and what a return says of its gate; or the spawn failed.
abbrev Brought : Child → Child → Boot → Ends → List Action → Type 0
Brought c c' boot e acts =
    ((e ≢ escapes)
      × (c' ≡ started c)
      × (spawned acts ≡ c.name ∷ [])
      × ((e ≡ returns) → is_up c boot ≡ true))
    ⊎ ((e ≡ escapes) × (c' ≡ c) × (acts ≡ []))

gated-Brought :
    (c c' : Child) (boot : Boot) (e e' : Ends) (acts more : List Action)
    → boot.spawn_fails ≡ false
    → c.has_ready_check ≡ true
    → wait_ready c.name (boot.now + health_timeout) boot.polls ≡ some (e', more)
    → bring_up c boot ≡ some (e, c', acts)
    → Brought c c' boot e acts
unfolding bring_up start_child
gated-Brought c c' boot e e' acts more ok gate m eq =
    let same : e' ≡ e = ground (arith, ok, gate, m) in
    let quiet = wait-spawned c.name (boot.now + health_timeout) boot.polls e' more m in
    inl (
      λ esc.
          wait_ready-ends c.name (boot.now + health_timeout) boot.polls more
            (ground (arith, m, same, esc)),
      ground (arith, ok, gate, m),
      ground (arith, ok, gate, m, quiet),
      λ r. ground (
        arith,
        gate,
        wait_ready_lem c.name (boot.now + health_timeout) boot.polls more
            (ground (arith, m, same, r)),
      ),
    )

bring_up_lem :
    (c c' : Child) (boot : Boot) (e : Ends) (acts : List Action)
    → bring_up c boot ≡ some (e, c', acts)
    → Brought c c' boot e acts
unfolding bring_up start_child
bring_up_lem c c' boot e acts eq = elim (Bool-cases boot.spawn_fails) [
  | inl bad ↦ inr (ground (arith, bad), ground (arith, bad), ground (arith, bad))
  | inr ok ↦ elim (Bool-cases c.has_ready_check) [
    | inl gate ↦ elim (Option-cases (wait_ready c.name (boot.now + health_timeout) boot.polls)) [
      | inl n ↦ elim (no_start (e, c' ∷ [], acts) (ground (arith, ok, gate, n))) [ ]
      | inr ((e', more), m) ↦ gated-Brought c c' boot e e' acts more ok gate m eq
    ]
    | inr open_gate ↦ inl (
      ground (arith, ok, open_gate),
      ground (arith, ok, open_gate),
      ground (arith, ok, open_gate),
      λ r. ground (arith, ok, open_gate),
    )
  ]
]

-- The children before the first that is not up are running and the rest untouched.
abbrev pub first_up : ℕ → List Child → List Child
first_up zero cs = cs
first_up (suc n) [] = []
first_up (suc n) (c ∷ cs) = started c ∷ first_up n cs

abbrev pub names : ℕ → List Child → List String
names zero cs = []
names (suc n) [] = []
names (suc n) (c ∷ cs) = c.name ∷ names n cs

-- Whether the gates of the first `n` children were passed.
abbrev pub gates : ℕ → List Child → List Boot → Bool
gates zero cs boots = true
gates (suc n) [] boots = true
gates (suc n) (c ∷ cs) [] = false
gates (suc n) (c ∷ cs) (b ∷ boots) = is_up c b && gates n cs boots

-- How a start went: `n` children were spawned, in their order and each once, and the gates of `passed`
-- of them were passed: all, also where the next could not be spawned, or all but the last one if a gate
-- raised an error.
pub record Went (cs cs' : List Child) (boots : List Boot) (e : Ends) (acts : List Action)
    (n passed : ℕ) : Type 0 where
  pub children : cs' ≡ first_up n cs
  pub spawns : spawned acts ≡ names n cs
  pub opened : gates passed cs boots ≡ true
  pub ending :
      ((e ≡ returns) × (n ≡ length cs) × (passed ≡ n))
      ⊎ (((code : ℕ) × (e ≡ raises code)) × (n ≡ suc passed))
      ⊎ ((e ≡ escapes) × (passed ≡ n))

-- When the start ends, by a return, an error of a gate or a spawn that fails, some first children were spawned, each once and in
-- the order of the list, and are running; the rest is untouched. Each was spawned only after the gates
-- of all before it were passed, and the start returns only if all gates were.
pub start_all_lem :
    (cs cs' : List Child) (boots : List Boot) (e : Ends) (acts : List Action)
    → start_all cs boots ≡ some (e, cs', acts)
    → (n : ℕ) × (passed : ℕ) × Went cs cs' boots e acts n passed
unfolding start_all
start_all_lem [] cs' boots e acts eq = (
  0,
  0,
  record {
    children = ground arith;
    spawns = ground arith;
    opened = refl;
    ending = inl (ground arith, refl, refl);
  },
)
start_all_lem (c ∷ cs) cs' [] e acts eq = elim (no_start (e, cs', acts) eq) [ ]
start_all_lem (c ∷ cs) cs' (boot ∷ boots) e acts eq = elim (Option-cases (bring_up c boot)) [
  | inl n ↦ elim (no_start (e, cs', acts) (ground (arith, n))) [ ]
  | inr ((raises code, c', a), m) ↦ elim (bring_up_lem c c' boot (raises code) a m) [
    | inr (bad, same, quiet) ↦ ground (arith, bad)
    | inl (fine, same, one, gate) ↦ (
      1,
      0,
      record {
        children = ground (arith, m, same);
        spawns = ground (arith, m, one);
        opened = refl;
        ending = inr (inl ((code, ground (arith, m)), refl));
      },
    )
  ]
  | inr ((escapes, c', a), m) ↦ elim (bring_up_lem c c' boot escapes a m) [
    | inl (fine, same, one, gate) ↦ elim (fine refl) [ ]
    | inr (bad, same, quiet) ↦ (
      0,
      0,
      record {
        children = ground (arith, m, same);
        spawns = ground (arith, m, quiet);
        opened = refl;
        ending = inr (inr (ground (arith, m), refl));
      },
    )
  ]
  | inr ((returns, c', a), m) ↦ elim (bring_up_lem c c' boot returns a m) [
    | inr (bad, same, quiet) ↦ ground (arith, bad)
    | inl (fine, same, one, gate) ↦ elim (Option-cases (start_all cs boots)) [
      | inl n ↦ elim (no_start (e, cs', acts) (ground (arith, m, n))) [ ]
      | inr ((e', cs'', more), q) ↦
          let (n, passed, went) = start_all_lem cs cs'' boots e' more q in
          (
            suc n,
            suc passed,
            record {
              children = ground (arith, m, q, same, went.children);
              spawns = ground (arith, m, q, one, went.spawns, spawned-append a more);
              opened = rw (gate refl, went.opened) refl;
              ending = ground (arith, m, q, went.ending);
            },
          )
    ]
  ]
]
