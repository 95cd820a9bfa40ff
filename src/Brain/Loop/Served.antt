-- ===== src/Brain/Loop/Served.antt =====
-- What the loop does with what arrives.
use open_claw_bridge.Prelude.{
  String, ◌≡◌, refl, sym, inl, inr, Bool, true, false, not, ◌&&◌, ◌||◌, Option, none, some, List,
  [], ◌∷◌, ◌++◌, append-nil, append_assoc, arith, str_eq, if◌then◌else◌, Option-cases, is_some, any,
}
use open_claw_bridge.Client.EventBus.{received, stopped, refused, exhausted}
use open_claw_bridge.Brain.{Envelope, Effect, World, handle}
use open_claw_bridge.Brain.Dedup.{handle_all, handle_all-append}
use open_claw_bridge.Brain.Loop.{
  subscribe_topic, Mode, finished, crashed, Loop, start, Happening, signal, connected, unreachable,
  turn, timeout, dispatch, on_frame, on_turn, after, serve, can,
}

quiet :
    (b : Bool) (effects : List Effect) (processed : List String)
    → (effects ≡ effects ++ (handle_all (if b then [] else []) processed).0)
      × (processed ≡ (handle_all (if b then [] else []) processed).1)
unfolding handle_all
quiet true effects processed = (sym (append-nil effects), refl)
quiet false effects processed = (sym (append-nil effects), refl)

module _ (agent_name : String) (decode : String → Option Envelope) where
  -- Every happening is one that the loop can meet.
  unfoldable pub IsTrace : Loop → List Happening → Type 0
  IsTrace l [] = Unit
  IsTrace l (h ∷ hs) = (can l.mode h ≡ true) × IsTrace (after agent_name decode l h) hs

  -- The envelopes of the agent's topic that arrive before the first signal.
  unfoldable pub arrives : Happening → List (World × Envelope)
  unfolding subscribe_topic
  arrives (turn (received frame) w) = elim (decode frame) [
    | none ↦ []
    | some e ↦ if str_eq (subscribe_topic agent_name) e.topic then (w, e) ∷ [] else []
  ]
  arrives _ = []

  unfoldable pub arrived : List Happening → List (World × Envelope)
  unfolding arrives
  arrived [] = []
  arrived (signal ∷ hs) = []
  arrived (h ∷ hs) = arrives h ++ arrived hs

  abbrev pub is_signal : Happening → Bool
  is_signal signal = true
  is_signal _ = false

  -- A frame that `_decode_envelope` refuses.
  abbrev pub is_malformed : Happening → Bool
  is_malformed (turn (received frame) w) = not (is_some (decode frame))
  is_malformed _ = false

  is_set-after :
      (l : Loop) (h : Happening) → (after agent_name decode l h).is_set ≡ (l.is_set || is_signal h)
  unfolding after on_turn on_frame
  is_set-after l signal = ground arith
  is_set-after l connected = ground arith
  is_set-after l unreachable = ground arith
  is_set-after l (turn (received frame) w) = elim (Option-cases (decode frame)) [
    | inl e ↦ ground (arith, e)
    | inr (v, e) ↦ ground (arith, e)
  ]
  is_set-after l (turn n w) = ground arith
  is_set-after l timeout = ground arith

  -- A step that is no signal handles what arrives, unless the signal is set.
  handles-after :
      (l : Loop) (h : Happening)
      → (let todo = if l.is_set then [] else arrives h in
          ((after agent_name decode l h).effects ≡ l.effects ++ (handle_all todo l.processed).0)
          × ((after agent_name decode l h).processed ≡ (handle_all todo l.processed).1))
  unfolding after on_turn on_frame dispatch arrives handle_all
  handles-after l signal = quiet l.is_set l.effects l.processed
  handles-after l connected = quiet l.is_set l.effects l.processed
  handles-after l unreachable = quiet l.is_set l.effects l.processed
  handles-after l (turn (received frame) w) =
      let nil = append-nil l.effects in
      elim (Option-cases (decode frame)) [
        | inl e ↦ (ground (arith, e, nil), ground (arith, e))
        | inr (v, e) ↦
            let one = append-nil (handle w v l.processed).1 in
            (ground (arith, e, nil, one), ground (arith, e))
      ]
  handles-after l (turn stopped w) = quiet l.is_set l.effects l.processed
  handles-after l (turn (refused reason) w) = quiet l.is_set l.effects l.processed
  handles-after l (turn (exhausted n) w) = quiet l.is_set l.effects l.processed
  handles-after l timeout = quiet l.is_set l.effects l.processed

  split_todo :
      (b : Bool) (h : Happening) (hs : List Happening)
      → (if b then [] else arrived (h ∷ hs))
        ≡ (if b then [] else arrives h) ++ (if b || is_signal h then [] else arrived hs)
  unfolding arrived arrives
  split_todo true h hs = refl
  split_todo false signal hs = refl
  split_todo false connected hs = refl
  split_todo false unreachable hs = refl
  split_todo false (turn n w) hs = refl
  split_todo false timeout hs = refl

  todo-cons :
      (l : Loop) (h : Happening) (hs : List Happening)
      → (if l.is_set then [] else arrived (h ∷ hs))
        ≡ (if l.is_set then [] else arrives h)
          ++ (if (after agent_name decode l h).is_set then [] else arrived hs)
  unfolding arrived arrives
  todo-cons l h hs = rw (is_set-after l h) (split_todo l.is_set h hs)

  -- What the loop has handled, from any point on.
  serve-handles :
      (l : Loop) (hs : List Happening)
      → (let todo = if l.is_set then [] else arrived hs in
          ((serve agent_name decode l hs).effects ≡ l.effects ++ (handle_all todo l.processed).0)
          × ((serve agent_name decode l hs).processed ≡ (handle_all todo l.processed).1))
  unfolding serve arrived
  serve-handles l [] = unfold handle_all in quiet l.is_set l.effects l.processed
  serve-handles l (h ∷ hs) =
      let l' = after agent_name decode l h in
      let now = if l.is_set then [] else arrives h in
      let later = if l'.is_set then [] else arrived hs in
      let ih = serve-handles l' hs in
      let one = handles-after l h in
      let both = handle_all-append now later l.processed in
      let all = todo-cons l h hs in
      let regroup =
        append_assoc l.effects (handle_all now l.processed).0
          (handle_all later (handle_all now l.processed).1).0 in
      (cc (ih.0, one.0, one.1, both, all, regroup), cc (ih.1, one.1, both, all))

  is_set-serve :
      (l : Loop) (hs : List Happening)
      → (serve agent_name decode l hs).is_set ≡ (l.is_set || any is_signal hs)
  unfolding serve
  is_set-serve l [] = ground arith
  is_set-serve l (h ∷ hs) =
      ground (arith, is_set-serve (after agent_name decode l h) hs, is_set-after l h)

  abbrev pub is_finished : Mode → Bool
  is_finished finished = true
  is_finished _ = false

  abbrev pub is_crashed : Mode → Bool
  is_crashed crashed = true
  is_crashed _ = false

  -- The loop has ended only where the signal is set.
  abbrev EndsOnSignal : Loop → Type 0
  EndsOnSignal l = (is_finished l.mode && not l.is_set) ≡ false

  after-EndsOnSignal :
      (l : Loop) (h : Happening) → EndsOnSignal l → EndsOnSignal (after agent_name decode l h)
  unfolding after on_turn on_frame
  after-EndsOnSignal l signal s = ground arith
  after-EndsOnSignal l connected s = refl
  after-EndsOnSignal l unreachable s = ground arith
  after-EndsOnSignal l (turn (received frame) w) s = elim (Option-cases (decode frame)) [
    | inl e ↦ ground (arith, e)
    | inr (v, e) ↦ ground (arith, e)
  ]
  after-EndsOnSignal l (turn stopped w) s = ground arith
  after-EndsOnSignal l (turn (refused reason) w) s = ground arith
  after-EndsOnSignal l (turn (exhausted n) w) s = ground arith
  after-EndsOnSignal l timeout s = ground arith

  serve-EndsOnSignal :
      (l : Loop) (hs : List Happening)
      → EndsOnSignal l
      → EndsOnSignal (serve agent_name decode l hs)
  unfolding serve
  serve-EndsOnSignal l [] s = s
  serve-EndsOnSignal l (h ∷ hs) s =
      serve-EndsOnSignal (after agent_name decode l h) hs (after-EndsOnSignal l h s)

  after_crash :
      (l : Loop) (h : Happening)
      → can l.mode h ≡ true
      → is_crashed (after agent_name decode l h).mode ≡ is_malformed h
  unfolding after on_turn on_frame
  after_crash l signal c = ground arith
  after_crash l connected c = refl
  after_crash l unreachable c = ground arith
  after_crash l (turn (received frame) w) c = elim (Option-cases (decode frame)) [
    | inl e ↦ ground (arith, e)
    | inr (v, e) ↦ ground (arith, e)
  ]
  after_crash l (turn stopped w) c = ground arith
  after_crash l (turn (refused reason) w) c = ground arith
  after_crash l (turn (exhausted n) w) c = ground arith
  after_crash l timeout c = ground arith

  cannot : (m : Mode) (h : Happening) → is_crashed m ≡ true → can m h ≡ false
  cannot m h c = ground arith

  serve_crash :
      (l : Loop) (hs : List Happening)
      → IsTrace l hs
      → is_crashed (serve agent_name decode l hs).mode ≡ (is_crashed l.mode || any is_malformed hs)
  unfolding serve IsTrace
  serve_crash l [] t = ground arith
  serve_crash l (h ∷ hs) t =
      let ih = serve_crash (after agent_name decode l h) hs t.1 in
      ground (arith, ih, after_crash l h t.0, cannot l.mode h, t.0)

  -- The agent's loop over anything that can happen to it, where connections are lost or refused, the wait
  -- for a frame ends in any way, the handler raises or not, and the stop signal may come at any time. Its
  -- effects and its table are those of the handler on exactly the envelopes of the agent's own topic that
  -- arrived before the first signal, each handled once and in their order; it ends only after a signal;
  -- and it crashes exactly if a frame came that does not decode.
  pub serve_lem :
      (processed : List String) (hs : List Happening)
      → IsTrace (start processed) hs
      → (let l = serve agent_name decode (start processed) hs in
          (l.effects ≡ (handle_all (arrived hs) processed).0)
          × (l.processed ≡ (handle_all (arrived hs) processed).1)
          × ((is_finished l.mode && not (any is_signal hs)) ≡ false)
          × (is_crashed l.mode ≡ any is_malformed hs))
  serve_lem processed hs t =
      let handled = serve-handles (start processed) hs in
      let ends = serve-EndsOnSignal (start processed) hs refl in
      let set = is_set-serve (start processed) hs in
      (handled.0, handled.1, ground (arith, ends, set), serve_crash (start processed) hs t)
