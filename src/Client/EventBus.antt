-- ===== src/Client/EventBus.antt =====
-- brains/shared/src/brains_shared/eventbus.py: the subscriber's iterator and its reconnects. What it meets
-- is a function: at each turn a connect and, if that works, a read. Times are milliseconds. Frames are
-- what `_decode_envelope` reads of them.
use open_claw_bridge.Prelude.{
  ℕ, zero, suc, ◌+◌, ◌-◌, ◌*◌, ◌^◌, ◌≤◌, min, String, ◌≡◌, refl, ◌∙◌, inl, inr, Bool, true, false,
  not, ◌&&◌, Option, none, some, List, [], ◌∷◌, ◌++◌, append-nil, arith, ◌==◌, if◌then◌else◌,
  Option-cases, is_some,
}

abbrev pub max_reconnect_attempts : ℕ
max_reconnect_attempts = 5

abbrev pub reconnect_base : ℕ
reconnect_base = 500

abbrev pub reconnect_cap : ℕ
reconnect_cap = 30000

-- One turn: why the connect fails, if it does, and the frame that is read, none if the connection closes.
pub record Turn : Type 0 where
  pub refusal : Option String
  pub frame : Option String

-- How `__anext__` ends: with a frame, `StopAsyncIteration`, or `BridgeWebSocketError`.
pub data Next : Type 0 where
  received : (frame : String) → Next
  stopped : Next
  refused : (reason : String) → Next
  exhausted : (attempts : ℕ) → Next

-- The end, the connects that were tried and the sleeps.
pub record Ended : Type 0 where
  pub next : Next
  pub connects : ℕ
  pub sleeps : List ℕ

-- The sleep of `_reconnect_or_raise`.
abbrev pub pause : ℕ → List ℕ
pause zero = []
pause (suc n) = min (reconnect_base * 2 ^ suc n) reconnect_cap ∷ []

-- The loop of `__anext__` without a connection, after `attempts` reconnects, with `left` to go: both
-- tests of `_MAX_RECONNECT_ATTEMPTS` ask whether there are some.
unfoldable pub reconnect : (left attempts : ℕ) → (ℕ → Turn) → Ended
reconnect zero attempts meets = record { next = exhausted attempts; connects = 0; sleeps = [] }
reconnect (suc left) attempts meets =
    let rest = reconnect left (suc attempts) meets in
    elim (meets attempts).refusal [
      | some reason ↦ record { next = refused reason; connects = 1; sleeps = pause attempts }
      | none ↦ elim (meets attempts).frame [
        | some frame ↦ record { next = received frame; connects = 1; sleeps = pause attempts }
        | none ↦ record {
          next = rest.next;
          connects = suc rest.connects;
          sleeps = pause attempts ++ rest.sleeps;
        }
      ]
    ]

-- `__anext__`: the flag of `aclose`, and the read on the connection if there is one.
unfoldable pub anext : (closed : Bool) → Option Turn → (ℕ → Turn) → Ended
unfolding reconnect
anext true conn meets = record { next = stopped; connects = 0; sleeps = [] }
anext false none meets = reconnect max_reconnect_attempts 0 meets
anext false (some turn) meets = elim turn.frame [
  | some frame ↦ record { next = received frame; connects = 0; sleeps = [] }
  | none ↦ reconnect max_reconnect_attempts 0 meets
]

-- A connection that works and closes before a frame.
abbrev pub drops : Turn → Bool
drops t = not (is_some t.refusal) && not (is_some t.frame)

-- How many of the next `n` turns drop, up to the first that does not.
unfoldable pub dropped : ℕ → ℕ → (ℕ → Turn) → ℕ
dropped zero i meets = 0
dropped (suc n) i meets =
    let rest = dropped n (suc i) meets in if drops (meets i) then suc rest else 0

-- What a turn that does not drop ends with.
abbrev pub verdict : Turn → Next
verdict t = elim t.refusal [
  | some reason ↦ refused reason
  | none ↦ elim t.frame [ some frame ↦ received frame | none ↦ stopped ]
]

-- The sleeps before `n` connects from the attempt `a` on.
unfoldable pub schedule : ℕ → ℕ → List ℕ
schedule zero a = []
schedule (suc n) a = pause a ++ schedule n (suc a)

dropped-le : (n i : ℕ) (meets : ℕ → Turn) → dropped n i meets ≤ n
unfolding dropped
dropped-le zero i meets = omega arith
dropped-le (suc n) i meets = ground (arith, dropped-le n (suc i) meets)

reconnect_lem :
    (left a : ℕ) (meets : ℕ → Turn)
    → (let k = dropped left a meets in
        let e = reconnect left a meets in
        (e.next ≡ (if k == left then exhausted (a + left) else verdict (meets (a + k))))
        × (e.connects ≡ min (k + 1) left)
        × (e.sleeps ≡ schedule e.connects a))
unfolding reconnect dropped schedule
reconnect_lem zero a meets = (ground arith, refl, refl)
reconnect_lem (suc left) a meets =
    let ih = reconnect_lem left (suc a) meets in
    elim (Option-cases (meets a).refusal) [
      | inr (reason, e) ↦
          (ground (arith, e), ground (arith, e), ground (arith, e, append-nil (pause a)))
      | inl e ↦ elim (Option-cases (meets a).frame) [
        | inr (frame, f) ↦
            (ground (arith, e, f), ground (arith, e, f), ground (arith, e, f, append-nil (pause a)))
        | inl f ↦
            (ground (arith, e, f, ih.0), ground (arith, e, f, ih.1), ground (arith, e, f, ih.2))
      ]
    ]

abbrev pub take : ℕ → List ℕ → List ℕ
take zero xs = []
take (suc n) [] = []
take (suc n) (x ∷ xs) = x ∷ take n xs

schedule-take : (n : ℕ) → n ≤ 5 → schedule n 0 ≡ take (n - 1) (1000 ∷ 2000 ∷ 4000 ∷ 8000 ∷ [])
unfolding schedule
schedule-take zero le = refl
schedule-take (suc zero) le = refl
schedule-take (suc (suc zero)) le = refl
schedule-take (suc (suc (suc zero))) le = refl
schedule-take (suc (suc (suc (suc zero)))) le = refl
schedule-take (suc (suc (suc (suc (suc zero))))) le = refl
schedule-take (suc (suc (suc (suc (suc (suc n)))))) le = absurd {0} (omega arith)

-- The frame that is read on the connection there is.
abbrev pub at_once : Option Turn → Option String
at_once none = none
at_once (some turn) = turn.frame

anext-unconnected :
    (meets : ℕ → Turn)
    → (let k = dropped 5 0 meets in
        let e = reconnect 5 0 meets in
        (e.next ≡ (if k == 5 then exhausted 5 else verdict (meets k)))
        × (e.connects ≡ min (k + 1) 5)
        × (e.sleeps ≡ take (e.connects - 1) (1000 ∷ 2000 ∷ 4000 ∷ 8000 ∷ [])))
anext-unconnected meets =
    let run = reconnect_lem 5 0 meets in
    let few : (reconnect 5 0 meets).connects ≤ 5 = omega (arith, run.1) in
    (ground (arith, run.0), run.1, run.2 ∙ schedule-take _ few)

-- A subscriber that is not closed always comes to an end of its wait: with the next frame of its
-- connection; or, if that closes or there is none, after one to five connects with how the first of them
-- ends that does not drop again, be it a frame or a refusal, and with `exhausted` after five that drop.
-- It sleeps 1, 2, 4 and 8 seconds before the second to the fifth connect, and not before the first.
pub anext_lem :
    (conn : Option Turn) (meets : ℕ → Turn)
    → (let k = dropped 5 0 meets in
        let e = anext false conn meets in
        (e.next ≡ elim (at_once conn) [
          | some frame ↦ received frame
          | none ↦ if k == 5 then exhausted 5 else verdict (meets k)
        ])
        × (e.connects ≡ elim (at_once conn) [ some frame ↦ 0 | none ↦ min (k + 1) 5 ])
        × (e.sleeps ≡ take (e.connects - 1) (1000 ∷ 2000 ∷ 4000 ∷ 8000 ∷ [])))
unfolding anext
anext_lem none meets = anext-unconnected meets
anext_lem (some turn) meets = elim (Option-cases turn.frame) [
  | inl f ↦ rw (anext, f) (anext-unconnected meets)
  | inr (frame, f) ↦ rw (anext, f) (refl, refl, refl)
]
