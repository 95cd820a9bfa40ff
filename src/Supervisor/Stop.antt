-- ===== src/Supervisor/Stop.antt =====
-- `Supervisor.run` as a whole, with `_graceful_stop_all` and `_stop`.
use open_claw_bridge.Prelude.{
  ℕ, String, ◌≡◌, refl, ◌≢◌, inl, inr, Option, none, some, List, [], ◌∷◌, ◌++◌, arith, Option-cases,
  All, reverse,
}
use open_claw_bridge.Supervisor.{
  exit_ok, Child, Action, terminate, kill, Ends, returns, raises, escapes, Process, running, exited,
  spawn, probe, sleep,
}
use open_claw_bridge.Supervisor.Startup.{Boot, start_all}

-- How a child's process takes the signals: it is gone before SIGTERM (`ProcessLookupError`), it exits
-- within the grace, it exits by itself after the grace and before SIGKILL, or only SIGKILL ends it.
pub data Termination : Type 0 where
  gone : Termination
  graceful : Termination
  late : Termination
  stubborn : Termination

-- The operating system: what a signal, and the wait behind it, leave of a process.
unfoldable pub signalled : Termination → Action → Process → Process
signalled gone (terminate n) p = exited
signalled graceful (terminate n) p = exited
signalled late (terminate n) p = p
signalled stubborn (terminate n) p = p
signalled t (kill n) p = exited
signalled t (spawn n) p = p
signalled t (probe n) p = p
signalled t (sleep n) p = p

-- `_stop`. The process is what the signals that were sent make of it; the wait of the grace times out if
-- it runs on. After `ProcessLookupError` the process is not running, whatever `returncode` says by then.
unfoldable pub stop : Termination → Child → Child × List Action
unfolding signalled
stop t c = elim c.proc [
  | none ↦ (c, [])
  | some exited ↦ (c, [])
  | some running ↦ elim (signalled t (terminate c.name) running) [
    | exited ↦ (record c { proc = some exited }, terminate c.name ∷ [])
    | running ↦ (
      record c { proc = some (signalled t (kill c.name) running) },
      terminate c.name ∷ kill c.name ∷ [],
    )
  ]
]

-- The loop of `_graceful_stop_all`, over the reversed list.
unfoldable pub stop_each : (String → Termination) → List Child → List Child × List Action
unfolding stop
stop_each t [] = ([], [])
stop_each t (c ∷ cs) =
    let (c', acts) = stop (t c.name) c in
    let (cs', more) = stop_each t cs in (c' ∷ cs', acts ++ more)

unfoldable pub graceful_stop_all : (String → Termination) → List Child → List Child × List Action
unfolding stop_each
graceful_stop_all t cs = let (cs', acts) = stop_each t (reverse cs) in (reverse cs', acts)

-- `Supervisor.run`, with its exit code and the children it leaves: `watched` is how the task group of the
-- watches ends. An exception that is no `SupervisorError` leaves `run` with no exit code and without
-- `_graceful_stop_all`.
unfoldable pub run :
    List Child
    → List Boot
    → (watched : List Child → Ends × List Child) → (String → Termination)
    → Option (Option ℕ × List Child)
unfolding start_all graceful_stop_all
run [] boots watched t = some (some exit_ok, [])
run (c ∷ cs) boots watched t = elim (start_all (c ∷ cs) boots) [
  | none ↦ none
  | some (raises code, cs', acts) ↦ some (some code, (graceful_stop_all t cs').0)
  | some (escapes, cs', acts) ↦ some (none, cs')
  | some (returns, cs', acts) ↦
      let (e, after) = watched cs' in
      let stopped = (graceful_stop_all t after).0 in
      elim e [
        | raises code ↦ some (some code, stopped)
        | returns ↦ some (some exit_ok, stopped)
        | escapes ↦ some (none, after)
      ]
]

abbrev pub IsDown : Child → Type 0
IsDown c = c.proc ≢ some running

-- The children that are running, by name.
abbrev pub up : List Child → List String
up [] = []
up (c ∷ cs) = let rest = up cs in elim c.proc [ some running ↦ c.name ∷ rest | _ ↦ rest ]

-- The names that get a SIGTERM, in their order.
abbrev pub terminated : List Action → List String
terminated [] = []
terminated (terminate n ∷ acts) = n ∷ terminated acts
terminated (_ ∷ acts) = terminated acts

stop-IsDown : (t : Termination) (c : Child) → IsDown (stop t c).0
unfolding stop signalled
stop-IsDown t c = ground arith

stop-terminated :
    (t : Termination) (c : Child) (acts : List Action) (cs : List Child)
    → terminated acts ≡ up cs
    → terminated ((stop t c).1 ++ acts) ≡ up (c ∷ cs)
unfolding stop signalled
stop-terminated t c acts cs e = ground (arith, e)

All-append : (xs ys : List Child) → All IsDown xs → All IsDown ys → All IsDown (xs ++ ys)
All-append [] ys a b = b
All-append (x ∷ xs) ys a b = (a.0, All-append xs ys a.1 b)

All-reverse : (xs : List Child) → All IsDown xs → All IsDown (reverse xs)
All-reverse [] a = tt
All-reverse (x ∷ xs) a = All-append (reverse xs) (x ∷ []) (All-reverse xs a.1) (a.0, tt)

stop_each-IsDown : (t : String → Termination) (cs : List Child) → All IsDown (stop_each t cs).0
unfolding stop_each
stop_each-IsDown t [] = tt
stop_each-IsDown t (c ∷ cs) = (stop-IsDown (t c.name) c, stop_each-IsDown t cs)

stop_each-terminated :
    (t : String → Termination) (cs : List Child) → terminated (stop_each t cs).1 ≡ up cs
unfolding stop_each
stop_each-terminated t [] = refl
stop_each-terminated t (c ∷ cs) =
    stop-terminated (t c.name) c (stop_each t cs).1 cs (stop_each-terminated t cs)

-- The stop leaves no child running, however the children react, and asks exactly those that run, the
-- last started first.
graceful_stop_all_lem :
    (t : String → Termination) (cs : List Child)
    → All IsDown (graceful_stop_all t cs).0
      × (terminated (graceful_stop_all t cs).1 ≡ up (reverse cs))
unfolding graceful_stop_all
graceful_stop_all_lem t cs =
    (All-reverse _ (stop_each-IsDown t (reverse cs)), stop_each-terminated t (reverse cs))

-- Whenever the supervisor returns an exit code, no child is left running, however the children take the
-- signals: on a shutdown, on a readiness gate that times out and on a poison pill. Where another
-- exception leaves it, during the start or the watches, there is no such promise.
pub run-IsDown :
    (c : Child) (cs cs' : List Child) (boots : List Boot) (watched : List Child → Ends × List Child)
    (t : String → Termination) (code : ℕ)
    → run (c ∷ cs) boots watched t ≡ some (some code, cs')
    → All IsDown cs'
unfolding run
run-IsDown c cs cs' boots watched t code e = elim (Option-cases (start_all (c ∷ cs) boots)) [
  | inl n ↦ ground (arith, n)
  | inr ((raises x, up', acts), m) ↦ ground (arith, m, (graceful_stop_all_lem t up').0)
  | inr ((escapes, up', acts), m) ↦ ground (arith, m)
  | inr ((returns, up', acts), m) ↦ ground (arith, m, (graceful_stop_all_lem t (watched up').1).0)
]
